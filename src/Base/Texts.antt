-- ===== src/Base/Texts.antt =====
-- JavaScript strings as lists of UTF-16 code units, with the methods that the program calls.
pub mod Splits
pub mod Decimals
use Prim.Native.Nat.{ℕ, ◌+◌, ◌-◌, ◌*◌}
use Prim.Native.Char.{code}
use Prim.Native.String.{String}
use mathlib.Core.Path.{◌≡◌, refl}
use mathlib.Core.Logic.{◌↔◌}
use mathlib.Core.Bool.{Bool, true, false, ◌&&◌, ◌||◌}
use mathlib.Core.List.{List, [], ◌∷◌, reverse}
use mathlib.Core.Option.{Option, none, some}
use native.Mathlib.Omega.{arith}
use native.Mathlib.Decide.{ℕ_discrete}
use manatee.Base.Tests.{◌==◌, leb, ltb, if◌then◌else◌}

abbrev pub Text : Type 0
Text = List ℕ

-- The code units of a literal (the literals of the program are ASCII).
abbrev pub codes : String → Text
codes String.[] = []
codes (String.◌∷◌ c s) = code c ∷ codes s

pub head-eq : {a b : ℕ} {s t : Text} → a ∷ s ≡ b ∷ t → a ≡ b
head-eq e = cc

pub tail-eq : {a b : ℕ} {s t : Text} → a ∷ s ≡ b ∷ t → s ≡ t
tail-eq e = cc

cons-dec : {a b : ℕ} {s t : Text} → Dec (a ≡ b) → Dec (s ≡ t) → Dec (a ∷ s ≡ b ∷ t)
cons-dec (yes p) (yes q) = yes (cc)
cons-dec (yes p) (no n) = no (λ e. n (tail-eq e))
cons-dec (no n) d = no (λ e. n (head-eq e))

unfoldable pub text_dec : Discrete Text
unfolding cons-dec ℕ_discrete
text_dec [] [] = yes refl
text_dec [] (b ∷ t) = no (λ e. cc)
text_dec (a ∷ s) [] = no (λ e. cc)
text_dec (a ∷ s) (b ∷ t) = cons-dec (ℕ_discrete a b) (text_dec s t)

-- `===` on strings.
abbrev pub text_eq : Text → Text → Bool
text_eq s t = elim (text_dec s t) [ yes _ ↦ true | no _ ↦ false ]

pub text_eq_iff : (s t : Text) → (text_eq s t ≡ true) ↔ (s ≡ t)
text_eq_iff s t = ground arith

-- The order by which `Array.prototype.sort` puts strings: by code units.
unfoldable pub text_leb : Text → Text → Bool
text_leb [] t = true
text_leb (a ∷ s) [] = false
text_leb (a ∷ s) (b ∷ t) = ltb a b || (a == b && text_leb s t)

pub text_leb_total : (s t : Text) → text_leb s t ≡ false → text_leb t s ≡ true
unfolding text_leb
text_leb_total [] t h = cc
text_leb_total (a ∷ s) [] h = refl
text_leb_total (a ∷ s) (b ∷ t) h = ground (arith, text_leb_total s t)

pub text_leb_trans :
    (s t u : Text) → text_leb s t ≡ true → text_leb t u ≡ true → text_leb s u ≡ true
unfolding text_leb
text_leb_trans [] t u h k = refl
text_leb_trans (a ∷ s) [] u h k = cc
text_leb_trans (a ∷ s) (b ∷ t) [] h k = cc
text_leb_trans (a ∷ s) (b ∷ t) (c ∷ u) h k = ground (arith, text_leb_trans s t u)

pub text_leb_antisym : (s t : Text) → text_leb s t ≡ true → text_leb t s ≡ true → s ≡ t
unfolding text_leb
text_leb_antisym [] [] h k = refl
text_leb_antisym [] (b ∷ t) h k = cc
text_leb_antisym (a ∷ s) [] h k = cc
text_leb_antisym (a ∷ s) (b ∷ t) h k = ground (arith, text_leb_antisym s t)

split_from : ℕ → Text → Text → List Text
split_from sep part [] = reverse part ∷ []
split_from sep part (c ∷ rest) = elim (c == sep) [
  | true ↦ reverse part ∷ split_from sep [] rest
  | false ↦ split_from sep (c ∷ part) rest
]

-- `s.split(sep)` for a separator of one code unit: always at least one part.
unfoldable pub split : ℕ → Text → List Text
unfolding split_from
split sep s = split_from sep [] s

cut_at_last : ℕ → Text → Option (Text × Text)
cut_at_last sep [] = none
cut_at_last sep (c ∷ s) = elim (cut_at_last sep s) [
  | some (before, after) ↦ some (c ∷ before, after)
  | none ↦ if c == sep then some ([], s) else none
]

-- `(s.substring(0, i), s.substring(i + 1))` at `i = s.lastIndexOf(sep)`. With no separator `i` is
-- -1, and `substring` takes a negative bound for 0: the empty text, and the whole of it.
unfoldable pub cut_last : ℕ → Text → Text × Text
unfolding cut_at_last
cut_last sep s = elim (cut_at_last sep s) [ some parts ↦ parts | none ↦ ([], s) ]

digits_from : ℕ → Text → ℕ
digits_from n [] = n
digits_from n (c ∷ s) = elim (leb b'0' c && leb c b'9') [
  | true ↦ digits_from (n * 10 + (c - b'0')) s
  | false ↦ n
]

-- `parseInt(s, 10)` on texts that hold no minus sign and no leading space, which the program's
-- sequence numbers are; `none` is NaN.
unfoldable pub parse_int : Text → Option ℕ
unfolding digits_from
parse_int [] = none
parse_int (c ∷ s) = if leb b'0' c && leb c b'9' then some (digits_from 0 (c ∷ s)) else none

-- `a > b` on numbers that may be NaN.
abbrev pub num_gt : Option ℕ → Option ℕ → Bool
num_gt (some a) (some b) = ltb b a
num_gt none b = false
num_gt (some a) none = false

-- `!c[k]` of a property that is missing or a text.
abbrev pub is_missing : Option Text → Bool
is_missing none = true
is_missing (some []) = true
is_missing (some (u ∷ t)) = false

-- `!s`
abbrev pub is_empty : Text → Bool
is_empty [] = true
is_empty (u ∷ t) = false
