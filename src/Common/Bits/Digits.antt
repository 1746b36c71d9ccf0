-- ===== src/Common/Bits/Digits.antt =====
-- The binary digits of a number, and what each operation does to them.
use Prim.Native.Nat.{
  ℕ, zero, suc, ◌+◌, ◌-◌, ◌*◌, ◌/◌, ◌%◌, ◌^◌, ◌≤◌, ◌<◌, min, max, bit_and, bit_or, bit_xor,
}
use mathlib.Core.Path.{◌≡◌, ap, sym, ◌∙◌}
use native.Mathlib.Nat.{pow-suc, one-le-pow, div-div-eq-div-mul, mod-add-div, mod-lt}
use native.Mathlib.Omega.{arith}
use c3_simulator.Common.Bits.Step.{bit_and_step, bit_or_step, bit_xor_step}

-- Digit `i` of `x`, the lowest being digit 0.
pub bit : ℕ → ℕ → ℕ
bit x zero = x % 2
bit x (suc i) = bit (x / 2) i

pub bit-lt : (x i : ℕ) → bit x i < 2
unfolding bit
bit-lt x zero = omega arith
bit-lt x (suc i) = bit-lt (x / 2) i

half-shr : (x i : ℕ) → x / 2 / 2 ^ i ≡ x / 2 ^ suc i
half-shr x i = div-div-eq-div-mul x 2 (2 ^ i) ∙ ap (λ t. x / t) (omega (arith, pow-suc 2 i))

pub bit-push : (out b i : ℕ) → b < 2 → bit (out * 2 + b) (suc i) ≡ bit out i
unfolding bit
bit-push out b i h = ap (λ t. bit t i) {y = out} (omega arith)

pub bit-push_zero : (out b : ℕ) → b < 2 → bit (out * 2 + b) 0 ≡ b
unfolding bit
bit-push_zero out b h = omega arith

pub bit_lem : (x i : ℕ) → bit x i ≡ x / 2 ^ i % 2
unfolding bit
bit_lem x zero = omega arith
bit_lem x (suc i) = bit_lem (x / 2) i ∙ ap (λ t. t % 2) (half-shr x i)

pub bit-bit_and : (a b i : ℕ) → bit (bit_and a b) i ≡ min (bit a i) (bit b i)
unfolding bit
bit-bit_and a b zero = omega (arith, bit_and_step a b)
bit-bit_and a b (suc i) =
    ap (λ t. bit t i) (omega (arith, bit_and_step a b)) ∙ bit-bit_and (a / 2) (b / 2) i

pub bit-bit_or : (a b i : ℕ) → bit (bit_or a b) i ≡ max (bit a i) (bit b i)
unfolding bit
bit-bit_or a b zero = omega (arith, bit_or_step a b)
bit-bit_or a b (suc i) =
    ap (λ t. bit t i) (omega (arith, bit_or_step a b)) ∙ bit-bit_or (a / 2) (b / 2) i

pub bit-bit_xor : (a b i : ℕ) → bit (bit_xor a b) i ≡ (bit a i + bit b i) % 2
unfolding bit
bit-bit_xor a b zero = omega (arith, bit_xor_step a b)
bit-bit_xor a b (suc i) =
    ap (λ t. bit t i) (omega (arith, bit_xor_step a b)) ∙ bit-bit_xor (a / 2) (b / 2) i

pub bit-shr : (x k i : ℕ) → bit (x / 2 ^ k) i ≡ bit x (k + i)
unfolding bit
bit-shr x zero i =
    ap (λ t. bit t i) {y = x} (omega arith) ∙ ap (bit x) {x = i} {y = 0 + i} (omega arith)
bit-shr x (suc k) i =
    ap (λ t. bit t i) (sym (half-shr x k))
    ∙ bit-shr (x / 2) k i
    ∙ ap (bit x) {x = suc (k + i)} {y = suc k + i} (omega arith)

pub bit-shl_below : (x k i : ℕ) → i < k → bit (x * 2 ^ k) i ≡ 0
unfolding bit
bit-shl_below x zero i h = absurd (omega arith)
bit-shl_below x (suc k) zero h = omega (arith, ap (λ t. x * t) (pow-suc 2 k))
bit-shl_below x (suc k) (suc i) h =
    ap (λ t. bit t i) {y = x * 2 ^ k} (omega (arith, ap (λ t. x * t) (pow-suc 2 k)))
    ∙ bit-shl_below x k i (omega arith)

pub bit-shl : (x k i : ℕ) → bit (x * 2 ^ k) (k + i) ≡ bit x i
unfolding bit
bit-shl x zero i =
    ap (λ t. bit t (0 + i)) {y = x} (omega arith) ∙ ap (bit x) {x = 0 + i} {y = i} (omega arith)
bit-shl x (suc k) i =
    ap (bit (x * 2 ^ suc k)) {x = suc k + i} {y = suc (k + i)} (omega arith)
    ∙ ap (λ t. bit t (k + i)) {y = x * 2 ^ k} (omega (arith, ap (λ t. x * t) (pow-suc 2 k)))
    ∙ bit-shl x k i

-- Equal digits make equal numbers.
pub bit_ext : (n a b : ℕ) → a < 2 ^ n → b < 2 ^ n → ((i : ℕ) → i < n → bit a i ≡ bit b i) → a ≡ b
unfolding bit
bit_ext zero a b p q h = omega arith
bit_ext (suc n) a b p q h = omega (
  arith,
  h 0 (omega arith),
  bit_ext n (a / 2) (b / 2) (omega (arith, pow-suc 2 n)) (omega (arith, pow-suc 2 n))
      λ i k. h (suc i) (omega arith),
)

pub bit_of_lt : (n x i : ℕ) → x < 2 ^ n → n ≤ i → bit x i ≡ 0
unfolding bit
bit_of_lt zero x zero p q = omega arith
bit_of_lt zero x (suc i) p q = bit_of_lt zero (x / 2) i (omega arith) (omega arith)
bit_of_lt (suc n) x zero p q = absurd (omega arith)
bit_of_lt (suc n) x (suc i) p q = bit_of_lt n (x / 2) i (omega (arith, pow-suc 2 n)) (omega arith)

pub mod-pow-half : (x k : ℕ) → x % 2 ^ suc k / 2 ≡ x / 2 % 2 ^ k
mod-pow-half x k = omega (
  arith,
  mod-add-div x (2 ^ suc k),
  mod-add-div (x / 2) (2 ^ k),
  mod-lt x {m = 2 ^ k} (one-le-pow k 2 (omega arith)),
  ap (λ t. 2 ^ k * t) (half-shr x k),
  ap (λ t. t * (x / 2 ^ suc k)) (pow-suc 2 k),
)

pub mod-pow-parity : (x k : ℕ) → x % 2 ^ suc k % 2 ≡ x % 2
mod-pow-parity x k =
    omega (arith, mod-add-div x (2 ^ suc k), ap (λ t. t * (x / 2 ^ suc k)) (pow-suc 2 k))

pub bit-mod : (x k i : ℕ) → i < k → bit (x % 2 ^ k) i ≡ bit x i
unfolding bit
bit-mod x zero i h = absurd (omega arith)
bit-mod x (suc k) zero h = mod-pow-parity x k
bit-mod x (suc k) (suc i) h =
    ap (λ t. bit t i) (mod-pow-half x k) ∙ bit-mod (x / 2) k i (omega arith)

low_mask-half : (n : ℕ) → (2 ^ suc n - 1) / 2 ≡ 2 ^ n - 1
low_mask-half n = omega (arith, pow-suc 2 n)

-- Every digit of `2 ^ n - 1` is 1.
pub bit-low_mask : (n i : ℕ) → i < n → bit (2 ^ n - 1) i ≡ 1
unfolding bit
bit-low_mask zero i h = absurd (omega arith)
bit-low_mask (suc n) zero h = omega (arith, pow-suc 2 n, one-le-pow n 2 (omega arith))
bit-low_mask (suc n) (suc i) h =
    ap (λ t. bit t i) (low_mask-half n) ∙ bit-low_mask n i (omega arith)
