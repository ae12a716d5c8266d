-- ===== src/Base/Sorting.antt =====
-- `list.sort(…)` by a number, which leaves the order of what compares equal, as NaN does with anything.
use mathlib.Core.List.Perm
use mathlib.Core.List.{Perm, List, [], ◌∷◌}
use mathlib.Core.Option.{Option, none}
use mathlib.Core.Bool.{false}
use mathlib.Core.Path.{◌≡◌}
use mathlib.Core.Logic.{◌≢◌, inl, inr}
use native.Mathlib.Omega.{arith}
use Prim.Native.Nat.{ℕ}
use manatee.Base.Tests.{Bool-cases, if◌then◌else◌}
use manatee.Base.Lists.{All}
use manatee.Base.Texts.{num_gt}

module _ {A : Type 0} (key : A → Option ℕ) where
  -- Into a list that is sorted already.
  insert_by : A → List A → List A
  insert_by e [] = e ∷ []
  insert_by e (f ∷ entries) =
      let rest = insert_by e entries in if num_gt (key e) (key f) then f ∷ rest else e ∷ f ∷ entries

  unfoldable pub sort_by : List A → List A
  unfolding insert_by
  sort_by [] = []
  sort_by (e ∷ entries) = insert_by e (sort_by entries)

  -- No later entry has a lower number; what is no number is not compared.
  abbrev pub Ascending : List A → Type 0
  Ascending [] = Unit
  Ascending (e ∷ entries) = All (λ f. num_gt (key e) (key f) ≡ false) entries × Ascending entries

  insert_by-Perm : (e : A) (entries : List A) → Perm (insert_by e entries) (e ∷ entries)
  unfolding insert_by
  insert_by-Perm e [] = Perm.refl (e ∷ [])
  insert_by-Perm e (f ∷ entries) = elim (Bool-cases (num_gt (key e) (key f))) [
    | inl h ↦
        rw (insert_by, h)
          (Perm.trans (Perm.cons f (insert_by-Perm e entries)) (Perm.swap e f entries))
    | inr h ↦ rw (insert_by, h) (Perm.refl (e ∷ f ∷ entries))
  ]

  pub sort_by-Perm : (entries : List A) → Perm (sort_by entries) entries
  unfolding sort_by
  sort_by-Perm [] = Perm.refl []
  sort_by-Perm (e ∷ entries) =
      Perm.trans (insert_by-Perm e (sort_by entries)) (Perm.cons e (sort_by-Perm entries))

  abbrev pub Numbered : List A → Type 0
  Numbered = All (λ e. key e ≢ none)

  insert_by-All :
      (P : A → Type 0) (e : A) (entries : List A)
      → P e
      → All P entries
      → All P (insert_by e entries)
  unfolding insert_by
  insert_by-All P e [] p h = (p, tt)
  insert_by-All P e (f ∷ entries) p h = ground (arith, insert_by-All P e entries p)

  sort_by-All : (P : A → Type 0) (entries : List A) → All P entries → All P (sort_by entries)
  unfolding sort_by
  sort_by-All P [] h = tt
  sort_by-All P (e ∷ entries) h =
      insert_by-All P e (sort_by entries) h.0 (sort_by-All P entries h.1)

  NotAbove-trans :
      (a b : Option ℕ) (entries : List A)
      → b ≢ none
      → num_gt a b ≡ false
      → All (λ f. num_gt b (key f) ≡ false) entries
      → All (λ f. num_gt a (key f) ≡ false) entries
  NotAbove-trans a b [] n h k = tt
  NotAbove-trans a b (f ∷ entries) n h k = (ground (arith, k.0), NotAbove-trans a b entries n h k.1)

  insert_by-Ascending :
      (e : A) (entries : List A)
      → Numbered entries
      → Ascending entries
      → Ascending (insert_by e entries)
  unfolding insert_by
  insert_by-Ascending e [] n h = (tt, tt)
  insert_by-Ascending e (f ∷ entries) n h = elim (Bool-cases (num_gt (key e) (key f))) [
    | inl g ↦
        rw (insert_by, g)
          (
            insert_by-All (λ x. num_gt (key f) (key x) ≡ false) e entries (ground (arith, g)) h.0,
            insert_by-Ascending e entries n.1 h.1,
          )
    | inr g ↦ rw (insert_by, g) ((g, NotAbove-trans (key e) (key f) entries n.0 g h.0), h)
  ]

  pub sort_by-Ascending : (entries : List A) → Numbered entries → Ascending (sort_by entries)
  unfolding sort_by
  sort_by-Ascending [] n = tt
  sort_by-Ascending (e ∷ entries) n =
      insert_by-Ascending e (sort_by entries) (sort_by-All (λ f. key f ≢ none) entries n.1)
        (sort_by-Ascending entries n.1)
