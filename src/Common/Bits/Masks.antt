-- ===== src/Common/Bits/Masks.antt =====
-- Masks, disjoint fields and bounds, as arithmetic, at every width.
use Prim.Native.Nat.{
  ℕ, zero, suc, ◌+◌, ◌-◌, ◌*◌, ◌/◌, ◌%◌, ◌^◌, ◌≤◌, ◌<◌, bit_and, bit_or, bit_xor, bit_and-bitwise,
  bit_or-bitwise, bit_xor-bitwise,
}
use mathlib.Core.Path.{◌≡◌, refl, ap, ◌∙◌}
use native.Mathlib.Nat.{pow-suc, one-le-pow, mod-add-div'}
use native.Mathlib.Decide.{dec_lt}
use native.Mathlib.Omega.{arith}
use c3_simulator.Common.Words.{low_mask, ◌<<<◌, u64}
use c3_simulator.Common.Bits.Step.{bit_and_step, bit_or_step, bit_xor_step}
use c3_simulator.Common.Bits.Digits.{
  bit, bit-lt, bit_ext, bit-bit_and, bit-bit_xor, bit-mod, bit-shl, bit-shl_below, bit-shr,
  bit-low_mask, mod-pow-half, mod-pow-parity,
}

bit_or-zero_fuel : (x fuel : ℕ) → x ≤ fuel → bit_or x 0 ≡ x
bit_or-zero_fuel zero fuel small = refl
bit_or-zero_fuel (suc x) zero small = absurd (omega arith)
bit_or-zero_fuel (suc x) (suc fuel) small =
    let rest : bit_or (suc x / 2) 0 ≡ suc x / 2 = bit_or-zero_fuel (suc x / 2) fuel (omega arith) in
    omega (arith, rest, bit_or_step (suc x) 0)

pub bit_or-zero : (a : ℕ) → bit_or a 0 ≡ a
bit_or-zero a = bit_or-zero_fuel a a (omega arith)

bit_and-zero_fuel : (x fuel : ℕ) → x ≤ fuel → bit_and x 0 ≡ 0
bit_and-zero_fuel zero fuel small = refl
bit_and-zero_fuel (suc x) zero small = absurd (omega arith)
bit_and-zero_fuel (suc x) (suc fuel) small =
    let rest : bit_and (suc x / 2) 0 ≡ 0 = bit_and-zero_fuel (suc x / 2) fuel (omega arith) in
    omega (arith, rest, bit_and_step (suc x) 0)

pub bit_and-zero : (a : ℕ) → bit_and a 0 ≡ 0
bit_and-zero a = bit_and-zero_fuel a a (omega arith)

-- `x & (2 ^ k - 1)` is the remainder.
pub bit_and_mask : (k a : ℕ) → bit_and a (low_mask k) ≡ a % 2 ^ k
bit_and_mask zero a = bit_and-zero a ∙ omega arith
bit_and_mask (suc k) a = omega (
  arith,
  bit_and_step a (low_mask (suc k)),
  ap (bit_and (a / 2)) {x = low_mask (suc k) / 2} {y = low_mask k} (omega (arith, pow-suc 2 k)),
  bit_and_mask k (a / 2),
  mod-pow-half a k,
  mod-pow-parity a k,
  pow-suc 2 k,
  one-le-pow k 2 (omega arith),
)

shl-suc : (q k : ℕ) → q * 2 ^ suc k ≡ q * 2 ^ k * 2
shl-suc q k = omega (arith, ap (λ t. q * t) (pow-suc 2 k))

-- `(q << k) | r` is a sum when `r` fits `k` bits.
pub bit_or_fields : (k high low : ℕ) → low < 2 ^ k → bit_or (high <<< k) low ≡ high * 2 ^ k + low
bit_or_fields zero high low h =
    ap (bit_or (high <<< 0)) {x = low} {y = 0} (omega arith)
    ∙ bit_or-zero (high <<< 0)
    ∙ omega arith
bit_or_fields (suc k) high low h = omega (
  arith,
  bit_or_step (high <<< suc k) low,
  ap (λ t. bit_or t (low / 2)) {x = (high <<< suc k) / 2} {y = high <<< k}
      (omega (arith, shl-suc high k)),
  bit_or_fields k high (low / 2) (omega (arith, pow-suc 2 k)),
  shl-suc high k,
)

zero-bit_or : (b : ℕ) → bit_or 0 b ≡ b
zero-bit_or b = bit_or-bitwise 0 b

zero-bit_xor : (b : ℕ) → bit_xor 0 b ≡ b
zero-bit_xor b = bit_xor-bitwise 0 b

zero-bit_and : (b : ℕ) → bit_and 0 b ≡ 0
zero-bit_and b = bit_and-bitwise 0 b

pub bit_xor-lt : (n a b : ℕ) → a < 2 ^ n → b < 2 ^ n → bit_xor a b < 2 ^ n
bit_xor-lt zero zero b p q = rw (zero-bit_xor b) q
bit_xor-lt zero (suc a) b p q = absurd (omega arith)
bit_xor-lt (suc n) a b p q = omega (
  arith,
  bit_xor_step a b,
  pow-suc 2 n,
  bit_xor-lt n (a / 2) (b / 2) (omega (arith, pow-suc 2 n)) (omega (arith, pow-suc 2 n)),
)

pub bit_or-lt : (n a b : ℕ) → a < 2 ^ n → b < 2 ^ n → bit_or a b < 2 ^ n
bit_or-lt zero zero b p q = rw (zero-bit_or b) q
bit_or-lt zero (suc a) b p q = absurd (omega arith)
bit_or-lt (suc n) a b p q = omega (
  arith,
  bit_or_step a b,
  pow-suc 2 n,
  bit_or-lt n (a / 2) (b / 2) (omega (arith, pow-suc 2 n)) (omega (arith, pow-suc 2 n)),
)

pub bit_and-lt : (n a b : ℕ) → a < 2 ^ n → bit_and a b < 2 ^ n
bit_and-lt zero zero b p = rw (zero-bit_and b) p
bit_and-lt zero (suc a) b p = absurd (omega arith)
bit_and-lt (suc n) a b p = omega (
  arith,
  bit_and_step a b,
  pow-suc 2 n,
  bit_and-lt n (a / 2) (b / 2) (omega (arith, pow-suc 2 n)),
)

-- Exclusive or with a key twice gives the word back.
pub bit_xor_cancel : (n a k : ℕ) → a < 2 ^ n → k < 2 ^ n → bit_xor (bit_xor a k) k ≡ a
bit_xor_cancel n a k p q =
    bit_ext n (bit_xor (bit_xor a k) k) a (bit_xor-lt n _ k (bit_xor-lt n a k p q) q) p
      λ i _. omega (arith, bit-bit_xor (bit_xor a k) k i, bit-bit_xor a k i, bit-lt a i, bit-lt k i)

-- `x & (0xFFFFFFFFFFFFFFFF << k)` clears the low `k` bits.
pub bit_and_high :
    (k x : ℕ) → k < 64 → x < 2 ^ 64 → bit_and x (u64 (0xFFFFFFFFFFFFFFFF <<< k)) ≡ x / 2 ^ k * 2 ^ k
bit_and_high k x hk hx =
    bit_ext 64 _ _ (bit_and-lt 64 x _ hx) (omega (arith, mod-add-div' x (2 ^ k))) λ i hi.
      elim (dec_lt i k) [
        | yes low ↦ omega (
          arith,
          bit-bit_and x (u64 (0xFFFFFFFFFFFFFFFF <<< k)) i,
          bit-mod (0xFFFFFFFFFFFFFFFF <<< k) 64 i hi,
          bit-shl_below 0xFFFFFFFFFFFFFFFF k i low,
          bit-shl_below (x / 2 ^ k) k i low,
        )
        | no high ↦ high_digit i hi (omega arith)
      ]
  where
    high_digit :
        (i : ℕ)
        → i < 64
        → k ≤ i
        → bit (bit_and x (u64 (0xFFFFFFFFFFFFFFFF <<< k))) i ≡ bit (x / 2 ^ k * 2 ^ k) i
    high_digit i hi le =
        let at : k + (i - k) ≡ i = omega arith in
        omega (
          arith,
          bit-bit_and x (u64 (0xFFFFFFFFFFFFFFFF <<< k)) i,
          bit-mod (0xFFFFFFFFFFFFFFFF <<< k) 64 i hi,
          ap (bit (0xFFFFFFFFFFFFFFFF <<< k)) at,
          bit-shl 0xFFFFFFFFFFFFFFFF k (i - k),
          bit-low_mask 64 (i - k) (omega arith),
          ap (bit (x / 2 ^ k * 2 ^ k)) at,
          bit-shl (x / 2 ^ k) k (i - k),
          bit-shr x k (i - k),
          ap (bit x) at,
          bit-lt x i,
        )
