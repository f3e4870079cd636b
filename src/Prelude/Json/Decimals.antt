-- ===== src/Prelude/Json/Decimals.antt =====
-- Decimal texts and the numbers that they stand for.
use Prim.Native.Nat.{ℕ, zero, suc, ◌+◌, ◌*◌, ◌-◌, ◌/◌, ◌%◌, ◌<◌}
use Prim.Native.Char.{code}
use Prim.Native.String.{String, [], ◌∷◌, ◌++◌}
use mathlib.Core.Path.{◌≡◌, ap, sym, ◌∙◌}
use native.Mathlib.Omega.{arith}
use text.Mathlib.TextLemmas.{nil-append, cons-append}
use orbi_pay_gateway_v.Prelude.Tests.{ltb, Bool-cases}
use orbi_pay_gateway_v.Prelude.Json.{decimal, decimal_from, digit}
use mathlib.Core.Logic.{inl, inr}

-- The number that digits stand for, read on from a number.
value_from : ℕ → String → ℕ
value_from n [] = n
value_from n (c ∷ s) = value_from (n * 10 + (code c - 48)) s

value_from-append : (n : ℕ) (s t : String) → value_from n (s ++ t) ≡ value_from (value_from n s) t
unfolding value_from
value_from-append n [] t = ap (value_from n) (nil-append t)
value_from-append n (c ∷ s) t =
    ap (value_from n) (cons-append c s t) ∙ value_from-append (n * 10 + (code c - 48)) s t

value_from-digit : (n d : ℕ) → d < 10 → value_from n (digit d) ≡ n * 10 + d
unfolding value_from
value_from-digit n zero h = omega arith
value_from-digit n (suc zero) h = omega arith
value_from-digit n (suc (suc zero)) h = omega arith
value_from-digit n (suc (suc (suc zero))) h = omega arith
value_from-digit n (suc (suc (suc (suc zero)))) h = omega arith
value_from-digit n (suc (suc (suc (suc (suc zero))))) h = omega arith
value_from-digit n (suc (suc (suc (suc (suc (suc zero)))))) h = omega arith
value_from-digit n (suc (suc (suc (suc (suc (suc (suc zero))))))) h = omega arith
value_from-digit n (suc (suc (suc (suc (suc (suc (suc (suc zero)))))))) h = omega arith
value_from-digit n (suc (suc (suc (suc (suc (suc (suc (suc (suc zero))))))))) h = omega arith
value_from-digit n (suc (suc (suc (suc (suc (suc (suc (suc (suc (suc d)))))))))) h =
    absurd (omega arith)

value_from-decimal_from : (fuel n : ℕ) → n < fuel → value_from 0 (decimal_from fuel n) ≡ n
unfolding decimal_from
value_from-decimal_from zero n h = absurd (omega arith)
value_from-decimal_from (suc fuel) n h = elim (Bool-cases (ltb n 10)) [
  | inl e ↦ rw e (value_from-digit 0 n (ground arith) ∙ omega arith)
  | inr e ↦ rw e (
      value_from-append 0 (decimal_from fuel (n / 10)) (digit (n % 10))
      ∙ value_from-digit _ (n % 10) (omega arith)
      ∙ ap (λ m. m * 10 + n % 10) (value_from-decimal_from fuel (n / 10) (ground arith))
      ∙ omega arith)
]

-- Numbers with one text are one.
pub decimal-injective : (a b : ℕ) → decimal a ≡ decimal b → a ≡ b
unfolding decimal
decimal-injective a b e =
    sym (value_from-decimal_from (suc a) a (omega arith))
    ∙ ap (value_from 0) e
    ∙ value_from-decimal_from (suc b) b (omega arith)
