-- ===== src/Zookeeper/Actives/Sorted.antt =====
-- The order of the list of actives, in which each id appears once.
use manatee.Base.{
  Text, ◌≡◌, ◌≢◌, ◌⊎◌, List, [], ◌∷◌, map, Option-cases, inl, inr, some, true, arith, All,
}
use manatee.Base.Texts.{text_leb, text_leb_total, text_leb_trans}
use manatee.Base.Objects.{Object, lookup, insert, keys}
use manatee.Zookeeper.Actives.{
  Active, parse, keep_newest, newest, insert_sorted, sort, select, parse_and_unique_actives,
}

abbrev pub Before : Text → Text → Type 0
Before a b = (text_leb a b ≡ true) × (a ≢ b)

-- Each text is strictly before all that follow it.
abbrev pub Sorted : List Text → Type 0
Sorted [] = Unit
Sorted (a ∷ rest) = All (Before a) rest × Sorted rest

abbrev pub NoDup : List Text → Type 0
NoDup [] = Unit
NoDup (a ∷ rest) = All (λ b. a ≢ b) rest × NoDup rest

abbrev pub Mentions : Text → List Text → Type 0
Mentions k [] = ⊥
Mentions k (j ∷ ks) = (k ≡ j) ⊎ Mentions k ks

pub map_All :
    (P Q : Text → Type 0) (list : List Text) → ((s : Text) → P s → Q s) → All P list → All Q list
map_All P Q [] f h = tt
map_All P Q (s ∷ list) f h = (f s h.0, map_All P Q list f h.1)

pub insert_sorted-All :
    (P : Text → Type 0) (k : Text) (ks : List Text) → P k → All P ks → All P (insert_sorted k ks)
unfolding insert_sorted
insert_sorted-All P k [] p h = (p, tt)
insert_sorted-All P k (j ∷ ks) p h = ground (arith, insert_sorted-All P k ks p)

pub sort-All : (P : Text → Type 0) (ks : List Text) → All P ks → All P (sort ks)
unfolding sort
sort-All P [] h = tt
sort-All P (k ∷ ks) h = insert_sorted-All P k (sort ks) h.0 (sort-All P ks h.1)

Before-All :
    (a b : Text) (ks : List Text)
    → Before a b
    → All (Before b) ks
    → All (λ c. a ≢ c) ks
    → All (Before a) ks
Before-All a b [] p h n = tt
Before-All a b (c ∷ ks) p h n = ((text_leb_trans a b c p.0 h.0.0, n.0), Before-All a b ks p h.1 n.1)

insert_sorted-Sorted :
    (k : Text) (ks : List Text) → All (λ j. k ≢ j) ks → Sorted ks → Sorted (insert_sorted k ks)
unfolding insert_sorted
insert_sorted-Sorted k [] n h = (tt, tt)
insert_sorted-Sorted k (j ∷ ks) n h = ground (
  arith,
  Before-All k j ks,
  text_leb_total k j,
  insert_sorted-All (Before j) k ks,
  insert_sorted-Sorted k ks n.1 h.1,
)

sort-Sorted : (ks : List Text) → NoDup ks → Sorted (sort ks)
unfolding sort
sort-Sorted [] n = tt
sort-Sorted (k ∷ ks) n = insert_sorted-Sorted k (sort ks) (sort-All _ ks n.0) (sort-Sorted ks n.1)

insert-keys-All :
    (P : Text → Type 0) (k : Text) (v : Active) (o : Object Active)
    → P k
    → All P (keys o)
    → All P (keys (insert k v o))
unfolding insert
insert-keys-All P k v [] p h = (p, tt)
insert-keys-All P k v (e ∷ o) p h = ground (arith, insert-keys-All P k v o p)

insert-NoDup :
    (k : Text) (v : Active) (o : Object Active) → NoDup (keys o) → NoDup (keys (insert k v o))
unfolding insert
insert-NoDup k v [] h = (tt, tt)
insert-NoDup k v (e ∷ o) h =
    ground (arith, insert-keys-All (λ b. e.0 ≢ b) k v o, insert-NoDup k v o h.1)

-- Every active is kept under its own id.
abbrev pub Keyed : Object Active → Type 0
Keyed = All (λ e. e.1.id ≡ e.0)

insert-Keyed : (a : Active) (o : Object Active) → Keyed o → Keyed (insert a.id a o)
unfolding insert
insert-Keyed a [] h = (ground arith, tt)
insert-Keyed a (e ∷ o) h = ground (arith, insert-Keyed a o h.1)

pub lookup-Keyed :
    (k : Text) (o : Object Active) (a : Active) → Keyed o → lookup k o ≡ some a → a.id ≡ k
unfolding lookup
lookup-Keyed k [] a h e = cc
lookup-Keyed k (b ∷ o) a h e = ground (arith, lookup-Keyed k o a h.1)

pub newest-keys :
    (list : List Text) (max : Object Active)
    → NoDup (keys max)
    → Keyed max
    → NoDup (keys (newest list max)) × Keyed (newest list max)
unfolding newest keep_newest
newest-keys [] max n h = (n, h)
newest-keys (s ∷ list) max n h =
    newest-keys list _ (ground (arith, insert-NoDup (parse s).id (parse s) max n))
      (ground (arith, insert-Keyed (parse s) max h))

select-All :
    (P : Text → Type 0) (max : Object Active) (ks : List Text)
    → Keyed max
    → All P ks
    → All P (map (λ a. a.id) (select max ks))
unfolding select
select-All P max [] h p = tt
select-All P max (k ∷ ks) h p = elim (Option-cases (lookup k max)) [
  | inl e ↦ ground (arith, select-All P max ks h p.1)
  | inr (a, e) ↦ ground (arith, lookup-Keyed k max a h e, select-All P max ks h p.1)
]

select-Sorted :
    (max : Object Active) (ks : List Text)
    → Keyed max
    → Sorted ks
    → Sorted (map (λ a. a.id) (select max ks))
unfolding select
select-Sorted max [] h p = tt
select-Sorted max (k ∷ ks) h p = elim (Option-cases (lookup k max)) [
  | inl e ↦ ground (arith, select-Sorted max ks h p.1)
  | inr (a, e) ↦ ground (
    arith,
    lookup-Keyed k max a h e,
    select-All (Before k) max ks h p.0,
    select-Sorted max ks h p.1,
  )
]

-- The ids of the list of actives are strictly ascending in the order of `sort`, whatever the names are:
-- the list is sorted, and no id appears twice.
pub parse_and_unique_actives-Sorted :
    (list : List Text) → Sorted (map (λ a. a.id) (parse_and_unique_actives list))
unfolding parse_and_unique_actives
parse_and_unique_actives-Sorted list =
    let (n, h) = newest-keys list [] tt tt in
    select-Sorted (newest list []) (sort (keys (newest list []))) h (sort-Sorted _ n)
