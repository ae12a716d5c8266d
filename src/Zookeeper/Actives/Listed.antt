-- ===== src/Zookeeper/Actives/Listed.antt =====
-- Where the entries of the list of actives come from.
use manatee.Base.{Text, ◌≡◌, refl, inl, inr, List, [], ◌∷◌, Option-cases, some, arith, All}
use manatee.Base.Objects.{Object, lookup, insert, keys}
use manatee.Zookeeper.Actives.{
  Active, parse, keep_newest, newest, sort, select, parse_and_unique_actives,
}
use manatee.Zookeeper.Actives.Sorted.{Mentions, map_All}

module _ (P : Active → Type 0) where
  abbrev Values : Object Active → Type 0
  Values = All (λ e. P e.1)

  insert-Values :
      (k : Text) (a : Active) (o : Object Active) → P a → Values o → Values (insert k a o)
  unfolding insert
  insert-Values k a [] p h = (p, tt)
  insert-Values k a (e ∷ o) p h = ground (arith, insert-Values k a o p h.1)

  newest-Values :
      (list : List Text) (max : Object Active)
      → All (λ s. P (parse s)) list
      → Values max
      → Values (newest list max)
  unfolding newest keep_newest
  newest-Values [] max p h = h
  newest-Values (s ∷ list) max p h =
      newest-Values list _ p.1 (ground (arith, insert-Values (parse s).id (parse s) max p.0 h))

  lookup-Values : (k : Text) (o : Object Active) (a : Active) → Values o → lookup k o ≡ some a → P a
  unfolding lookup
  lookup-Values k [] a h e = absurd (ground arith)
  lookup-Values k (b ∷ o) a h e = ground (arith, lookup-Values k o a h.1)

  select-Values : (max : Object Active) (ks : List Text) → Values max → All P (select max ks)
  unfolding select
  select-Values max [] h = tt
  select-Values max (k ∷ ks) h = elim (Option-cases (lookup k max)) [
    | inl e ↦ ground (arith, select-Values max ks h)
    | inr (a, e) ↦ ground (arith, select-Values max ks h, lookup-Values k max a h e)
  ]

weaken_All :
    (t : Text) (all list : List Text)
    → All (λ s. Mentions s all) list
    → All (λ s. Mentions s (t ∷ all)) list
weaken_All t all [] h = tt
weaken_All t all (s ∷ list) h = (inr h.0, weaken_All t all list h.1)

Mentions-All : (list : List Text) → All (λ s. Mentions s list) list
Mentions-All [] = tt
Mentions-All (s ∷ list) = (inl refl, weaken_All s list list (Mentions-All list))

-- Every active in the list is what `parse` makes of one of the names that were given.
pub parse_and_unique_actives-listed :
    (list : List Text)
    → All (λ a. Mentions a.name list × (a ≡ parse a.name)) (parse_and_unique_actives list)
unfolding parse_and_unique_actives parse
parse_and_unique_actives-listed list =
    let P = λ (a : Active). Mentions a.name list × (a ≡ parse a.name) in
    select-Values P (newest list []) (sort (keys (newest list []))) (
      newest-Values P list []
        (map_All (λ s. Mentions s list) (λ s. P (parse s)) list (λ s m. (m, refl))
          (Mentions-All list))
        tt)
