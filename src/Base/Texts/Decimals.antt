-- ===== src/Base/Texts/Decimals.antt =====
-- `String(n)`: decimal numbers, which `parseInt` reads back.
use Prim.Native.Nat.{ℕ, zero, suc, ◌+◌, ◌*◌, ◌/◌, ◌%◌, ◌<◌}
use mathlib.Core.Path.{◌≡◌, sym, ◌∙◌, ap}
use mathlib.Core.List.{[], ◌∷◌}
use native.Mathlib.Omega.{arith}
use manatee.Base.Tests.{ltb, if◌then◌else◌, Bool-cases}
use mathlib.Core.Logic.{inl, inr}
use manatee.Base.Texts.{Text, digits_from}

-- The digits of a number before those that are there, the last one first. The fuel is enough where it
-- is above the number.
digits_onto : ℕ → ℕ → Text → Text
digits_onto zero n rest = rest
digits_onto (suc fuel) n rest =
    let more = digits_onto fuel (n / 10) ((n % 10 + b'0') ∷ rest) in
    if ltb n 10 then (n + b'0') ∷ rest else more

unfoldable pub show : ℕ → Text
unfolding digits_onto
show n = digits_onto (suc n) n []

digits_from-digit :
    (m d : ℕ) (rest : Text)
    → d < 10
    → digits_from m ((d + b'0') ∷ rest) ≡ digits_from (m * 10 + d) rest
unfolding digits_from
digits_from-digit m d rest h = ground arith

digits_from-digits_onto :
    (fuel n : ℕ) (rest : Text)
    → n < fuel
    → digits_from 0 (digits_onto fuel n rest) ≡ digits_from n rest
unfolding digits_onto
digits_from-digits_onto zero n rest h = omega arith
digits_from-digits_onto (suc fuel) n rest h = elim (Bool-cases (ltb n 10)) [
  | inl e ↦
      rw (digits_onto, e)
        (digits_from-digit 0 n rest (ground arith) ∙ ap (λ k. digits_from k rest) (omega arith))
  | inr e ↦
      rw (digits_onto, e)
        (digits_from-digits_onto fuel (n / 10) ((n % 10 + b'0') ∷ rest) (ground arith)
          ∙ digits_from-digit (n / 10) (n % 10) rest (omega arith)
          ∙ ap (λ k. digits_from k rest) (omega arith))
]

-- Different numbers are written differently.
pub show-injective : (m n : ℕ) → show m ≡ show n → m ≡ n
unfolding show digits_from
show-injective m n h =
    sym (digits_from-digits_onto (suc m) m [] (omega arith))
    ∙ ap (digits_from 0) h
    ∙ digits_from-digits_onto (suc n) n [] (omega arith)

pub show-nonempty : (n : ℕ) → show n ≡ [] → n ≡ 0
unfolding show digits_from
show-nonempty n h = sym (digits_from-digits_onto (suc n) n [] (omega arith)) ∙ ap (digits_from 0) h
