-- ===== src/Base/Texts/Splits.antt =====
-- `join` and `split` undo each other.
use Prim.Native.Nat.{ℕ}
use mathlib.Core.Path.{◌≡◌, refl, ap, ◌∙◌}
use mathlib.Core.Bool.{true, false}
use mathlib.Core.Option.{none, some}
use mathlib.Core.List.{List, [], ◌∷◌, ◌++◌, reverse, reverse-cons, append_assoc, append-nil}
use native.Mathlib.Omega.{arith}
use manatee.Base.Tests.{◌==◌}
use manatee.Base.Texts.{Text, split, split_from, cut_last, cut_at_last}

same : (n : ℕ) → (n == n) ≡ true
same n = ground arith

-- `parts.join(sep)`, of at least one part.
abbrev pub join : ℕ → Text → List Text → Text
join sep part [] = part
join sep part (next ∷ parts) = part ++ sep ∷ join sep next parts

-- The separator does not occur.
abbrev pub Without : ℕ → Text → Type 0
Without sep [] = Unit
Without sep (c ∷ s) = ((c == sep) ≡ false) × Without sep s

abbrev pub AllWithout : ℕ → List Text → Type 0
AllWithout sep [] = Unit
AllWithout sep (part ∷ parts) = Without sep part × AllWithout sep parts

shift : (acc part : Text) (c : ℕ) → reverse (c ∷ acc) ++ part ≡ reverse acc ++ c ∷ part
shift acc part c = rw reverse-cons (append_assoc (reverse acc) (c ∷ []) part)

split_from-last :
    (sep : ℕ) (acc s : Text) → Without sep s → split_from sep acc s ≡ (reverse acc ++ s) ∷ []
unfolding split_from
split_from-last sep acc [] h = rw append-nil refl
split_from-last sep acc (c ∷ s) h =
    rw (split_from, h.0) (split_from-last sep (c ∷ acc) s h.1 ∙ ap (λ t. t ∷ []) (shift acc s c))

split_from-part :
    (sep : ℕ) (acc part rest : Text)
    → Without sep part
    → split_from sep acc (part ++ sep ∷ rest) ≡ (reverse acc ++ part) ∷ split_from sep [] rest
unfolding split_from
split_from-part sep acc [] rest h = rw (split_from, same sep, append-nil) refl
split_from-part sep acc (c ∷ part) rest h =
    rw (split_from, h.0)
      (split_from-part sep (c ∷ acc) part rest h.1
        ∙ ap (λ t. t ∷ split_from sep [] rest) (shift acc part c))

-- Splitting what was joined gives the parts back, if none of them holds the separator.
pub split-join :
    (sep : ℕ) (part : Text) (parts : List Text)
    → AllWithout sep (part ∷ parts)
    → split sep (join sep part parts) ≡ part ∷ parts
unfolding split
split-join sep part [] h = split_from-last sep [] part h.0
split-join sep part (next ∷ parts) h =
    split_from-part sep [] part (join sep next parts) h.0
    ∙ ap (λ ts. part ∷ ts) (split-join sep next parts h.1)

-- A first part without the separator is split off.
pub split-part :
    (sep : ℕ) (part rest : Text)
    → Without sep part
    → split sep (part ++ sep ∷ rest) ≡ part ∷ split sep rest
unfolding split
split-part sep part rest h = split_from-part sep [] part rest h

cut_at_last-Without : (sep : ℕ) (s : Text) → Without sep s → cut_at_last sep s ≡ none
unfolding cut_at_last
cut_at_last-Without sep [] h = refl
cut_at_last-Without sep (c ∷ s) h = rw (cut_at_last, cut_at_last-Without sep s h.1, h.0) refl

cut_at_last-append :
    (sep : ℕ) (s t : Text) → Without sep t → cut_at_last sep (s ++ sep ∷ t) ≡ some (s, t)
unfolding cut_at_last
cut_at_last-append sep [] t h = rw (cut_at_last, cut_at_last-Without sep t h, same sep) refl
cut_at_last-append sep (c ∷ s) t h = rw (cut_at_last, cut_at_last-append sep s t h) refl

-- The cut is at the separator that was put in, if none comes after it.
pub cut_last-append : (sep : ℕ) (s t : Text) → Without sep t → cut_last sep (s ++ sep ∷ t) ≡ (s, t)
unfolding cut_last
cut_last-append sep s t h = rw (cut_last, cut_at_last-append sep s t h) refl

pub Without-append : (sep : ℕ) (s t : Text) → Without sep s → Without sep t → Without sep (s ++ t)
Without-append sep [] t h k = k
Without-append sep (c ∷ s) t h k = (h.0, Without-append sep s t h.1 k)
