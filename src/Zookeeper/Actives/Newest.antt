-- ===== src/Zookeeper/Actives/Newest.antt =====
-- Which of the nodes of one peer the list of actives keeps.
use manatee.Base.{
  ℕ, ◌≤◌, Text, ◌≡◌, refl, ◌≢◌, ◌⊎◌, inl, inr, List, [], ◌∷◌, Option-cases, Option, none, some,
  arith, All,
}
use manatee.Base.Objects.{Object, lookup, insert, keys, lookup-insert}
use manatee.Zookeeper.Actives.Sorted.{lookup-Keyed, Keyed, newest-keys, Mentions, map_All}
use manatee.Zookeeper.Actives.{
  Active, parse, keep_newest, newest, insert_sorted, sort, select, parse_and_unique_actives,
}

abbrev pub Among : Active → List Active → Type 0
Among a [] = ⊥
Among a (b ∷ rest) = (a ≡ b) ⊎ Among a rest

-- A sequence number that is at least the other; neither may be NaN.
abbrev pub Reaches : Option ℕ → Option ℕ → Type 0
Reaches (some m) (some n) = n ≤ m
Reaches _ _ = ⊥

abbrev ReachedBy : Option Active → Option ℕ → Type 0
ReachedBy none n = ⊥
ReachedBy (some b) n = Reaches b.seq n

-- The map holds, for the id of `a`, a node that is no older than `a`.
abbrev Covers : Active → Object Active → Type 0
Covers a max = ReachedBy (lookup a.id max) a.seq

-- No entry of the map has NaN for its sequence number.
Numbered : Object Active → Type 0
Numbered = All (λ e. e.1.seq ≢ none)

insert-Numbered :
    (k : Text) (a : Active) (o : Object Active)
    → a.seq ≢ none
    → Numbered o
    → Numbered (insert k a o)
unfolding insert Numbered
insert-Numbered k a [] n h = (n, tt)
insert-Numbered k a (e ∷ o) n h = ground (arith, insert-Numbered k a o n h.1)

lookup-Numbered :
    (k : Text) (o : Object Active) (a : Active) → Numbered o → lookup k o ≡ some a → a.seq ≢ none
unfolding lookup Numbered
lookup-Numbered k [] a h e = absurd (ground arith)
lookup-Numbered k (b ∷ o) a h e = ground (arith, lookup-Numbered k o a h.1)

keep_newest-Numbered :
    (a : Active) (max : Object Active) → a.seq ≢ none → Numbered max → Numbered (keep_newest a max)
unfolding keep_newest
keep_newest-Numbered a max n h = ground (arith, insert-Numbered a.id a max n h)

Reaches-refl : (n : Option ℕ) → n ≢ none → Reaches n n
Reaches-refl none h = h refl
Reaches-refl (some n) h = omega arith

keep_newest-Covers :
    (a : Active) (max : Object Active) → a.seq ≢ none → Numbered max → Covers a (keep_newest a max)
unfolding keep_newest
keep_newest-Covers a max n h =
    let found = lookup-insert a.id a.id a max in
    elim (Option-cases (lookup a.id max)) [
      | inl e ↦ ground (arith, found, Reaches-refl a.seq n)
      | inr (b, e) ↦ ground (arith, found, Reaches-refl a.seq n, lookup-Numbered a.id max b h e)
    ]

keep_newest-keeps :
    (a c : Active) (max : Object Active) → Covers c max → Covers c (keep_newest a max)
unfolding keep_newest
keep_newest-keeps a c max h = ground (arith, lookup-insert a.id c.id a max)

newest-keeps :
    (list : List Text) (c : Active) (max : Object Active)
    → Covers c max
    → Covers c (newest list max)
unfolding newest
newest-keeps [] c max h = h
newest-keeps (s ∷ list) c max h =
    newest-keeps list c (keep_newest (parse s) max) (keep_newest-keeps (parse s) c max h)

newest-Covers :
    (list : List Text) (max : Object Active)
    → All (λ s. (parse s).seq ≢ none) list
    → Numbered max
    → All (λ s. Covers (parse s) (newest list max)) list
unfolding newest
newest-Covers [] max n h = tt
newest-Covers (s ∷ list) max n h = (
  newest-keeps list (parse s) (keep_newest (parse s) max) (keep_newest-Covers (parse s) max n.0 h),
  newest-Covers list (keep_newest (parse s) max) n.1 (keep_newest-Numbered (parse s) max n.0 h),
)

lookup-Mentions : (k : Text) (o : Object Active) → lookup k o ≢ none → Mentions k (keys o)
unfolding lookup
lookup-Mentions k [] h = absurd (h refl)
lookup-Mentions k (e ∷ o) h = ground (arith, lookup-Mentions k o)

insert_sorted-Mentions :
    (k j : Text) (ks : List Text) → (k ≡ j) ⊎ Mentions k ks → Mentions k (insert_sorted j ks)
unfolding insert_sorted
insert_sorted-Mentions k j [] h = h
insert_sorted-Mentions k j (i ∷ ks) h = ground (arith, insert_sorted-Mentions k j ks)

sort-Mentions : (k : Text) (ks : List Text) → Mentions k ks → Mentions k (sort ks)
unfolding sort
sort-Mentions k [] h = h
sort-Mentions k (j ∷ ks) h =
    insert_sorted-Mentions k j (sort ks) (ground (arith, sort-Mentions k ks))

select-Among :
    (max : Object Active) (k : Text) (ks : List Text) (a : Active)
    → lookup k max ≡ some a
    → Mentions k ks
    → Among a (select max ks)
unfolding select
select-Among max k [] a e h = h
select-Among max k (j ∷ ks) a e h = ground (arith, select-Among max k ks a e)

-- The list holds a node of the same peer that is no older.
abbrev pub Kept : Active → List Active → Type 0
Kept a actives = (b : Active) × Among b actives × (b.id ≡ a.id) × Reaches b.seq a.seq

Kept-of_Covers :
    (a : Active) (max : Object Active)
    → Keyed max
    → Covers a max
    → Kept a (select max (sort (keys max)))
Kept-of_Covers a max h c = elim (Option-cases (lookup a.id max)) [
  | inl e ↦ absurd (ground arith)
  | inr (b, e) ↦ (
    b,
    select-Among max a.id (sort (keys max)) b e
        (sort-Mentions a.id (keys max) (lookup-Mentions a.id max (ground arith))),
    lookup-Keyed a.id max b h e,
    ground arith,
  )
]

-- If every name ends in a sequence number, then for each name the list of actives holds a node of the
-- same peer whose sequence number is at least as high.
pub parse_and_unique_actives-Newest :
    (list : List Text)
    → All (λ s. (parse s).seq ≢ none) list
    → All (λ s. Kept (parse s) (parse_and_unique_actives list)) list
unfolding parse_and_unique_actives Numbered
parse_and_unique_actives-Newest list n =
    map_All _ _ list (λ s. Kept-of_Covers (parse s) (newest list []) (newest-keys list [] tt tt).1)
      (newest-Covers list [] n tt)
