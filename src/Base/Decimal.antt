-- ===== src/Base/Decimal.antt =====
-- `String(n)` of a natural number: decimal digits, and that different numbers print differently.
use deedlit_dev.Base.Texts.{Text}
use deedlit_dev.Base.Tests.{if◌then◌else◌, Bool-cases}
use Prim.Native.Nat.{ℕ, zero, suc, ◌+◌, ◌-◌, ◌*◌, ◌/◌, ◌%◌, ◌<◌}
use mathlib.Core.Path.{◌≡◌, sym, ap, ◌∙◌}
use mathlib.Core.Logic.{inl, inr}
use mathlib.Core.List.{[], ◌∷◌}
use native.Mathlib.Omega.{arith}
use deedlit_dev.Base.Tests.{ltb}

unfoldable digits_onto : ℕ → ℕ → Text → Text
digits_onto zero n behind = behind
digits_onto (suc fuel) n behind =
    let more = digits_onto fuel (n / 10) ((48 + n % 10) ∷ behind) in
    if ltb n 10 then (48 + n) ∷ behind else more

unfoldable pub show : ℕ → Text
unfolding digits_onto
show n = digits_onto (suc n) n []

-- The number that digits stand for, behind a number already read.
unfoldable pub value : ℕ → Text → ℕ
value n [] = n
value n (c ∷ s) = value (n * 10 + (c - 48)) s

value-digits_onto :
    (fuel n : ℕ) (behind : Text) → n < fuel → value 0 (digits_onto fuel n behind) ≡ value n behind
unfolding digits_onto value
value-digits_onto zero n behind h = elim h [ ]
value-digits_onto (suc fuel) n behind h = elim (Bool-cases (ltb n 10)) [
  | inl e ↦ rw e (ap (λ k. value k behind) (omega arith))
  | inr e ↦ rw e (
      value-digits_onto fuel (n / 10) ((48 + n % 10) ∷ behind) (ground arith)
      ∙ ap (λ k. value k behind) (omega arith))
]

pub value-show : (n : ℕ) → value 0 (show n) ≡ n
value-show n = unfold show value in value-digits_onto (suc n) n [] (omega arith)

pub show-injective : (m n : ℕ) → show m ≡ show n → m ≡ n
show-injective m n e = sym (value-show m) ∙ ap (value 0) e ∙ value-show n
