-- ===== src/Common/Bits/Step.antt =====
-- The bit operations of the native numbers compute with `bitwise`, which goes through the binary
-- digits on fuel; here each of them is given by the lowest digit and the rest, without fuel.
use Prim.Native.Nat.{
  ℕ, zero, suc, ◌+◌, ◌*◌, ◌/◌, ◌%◌, ◌≤◌, ◌<◌, min, max, digits, bitwise, differ, bit_and, bit_or,
  bit_xor, bit_and-bitwise, bit_or-bitwise, bit_xor-bitwise,
}
use mathlib.Core.Path.{◌≡◌, refl, ap, ◌∙◌}
use native.Mathlib.Decide.{dec_le}
use native.Mathlib.Omega.{arith}

module _ (above : ℕ → ℕ) (op : ℕ → ℕ → ℕ) where
  -- A number has fewer digits than its value, so one more unit of fuel changes nothing.
  digits-suc : (fuel x y : ℕ) → x ≤ fuel → digits above op (suc fuel) x y ≡ digits above op fuel x y
  digits-suc zero zero y h = refl
  digits-suc zero (suc x) y h = absurd (omega arith)
  digits-suc (suc fuel) zero y h = refl
  digits-suc (suc fuel) (suc x) y h = rw (digits-suc fuel (suc x / 2) (y / 2) (omega arith))

  digits_enough : (fuel x y : ℕ) → x ≤ fuel → digits above op fuel x y ≡ bitwise above op x y
  digits_enough zero zero y h = refl
  digits_enough zero (suc x) y h = absurd (omega arith)
  digits_enough (suc fuel) x y h = elim (dec_le x fuel) [
    | yes less ↦ digits-suc fuel x y less ∙ digits_enough fuel x y less
    | no all ↦ ap (λ t. digits above op t x y) {x = suc fuel} {y = x} (omega (arith, all))
  ]

  lowest_digit :
      (x y : ℕ)
      → bitwise above op (suc x) y
        ≡ op (suc x % 2) (y % 2) + bitwise above op (suc x / 2) (y / 2) * 2
  lowest_digit x y = omega (arith, digits_enough x (suc x / 2) (y / 2) (omega arith))

pub bit_and_step : (x y : ℕ) → bit_and x y ≡ min (x % 2) (y % 2) + bit_and (x / 2) (y / 2) * 2
bit_and_step zero y = simp bit_and-bitwise (omega arith)
bit_and_step (suc x) y = simp bit_and-bitwise (lowest_digit (λ t. 0) min x y)

pub bit_or_step : (x y : ℕ) → bit_or x y ≡ max (x % 2) (y % 2) + bit_or (x / 2) (y / 2) * 2
bit_or_step zero y = simp bit_or-bitwise (omega arith)
bit_or_step (suc x) y = simp bit_or-bitwise (lowest_digit (λ t. t) max x y)

differ_lem : (x y : ℕ) → x < 2 → y < 2 → differ x y ≡ (x + y) % 2
differ_lem zero y h h' = omega arith
differ_lem (suc zero) zero h h' = refl
differ_lem (suc zero) (suc zero) h h' = refl
differ_lem (suc zero) (suc (suc y)) h h' = absurd (omega arith)
differ_lem (suc (suc x)) y h h' = absurd (omega arith)

pub bit_xor_step : (x y : ℕ) → bit_xor x y ≡ (x % 2 + y % 2) % 2 + bit_xor (x / 2) (y / 2) * 2
bit_xor_step zero y = simp bit_xor-bitwise (omega arith)
bit_xor_step (suc x) y = simp bit_xor-bitwise (
    omega (
      arith,
      lowest_digit (λ t. t) differ x y,
      differ_lem (suc x % 2) (y % 2) (omega arith) (omega arith),
    ))
