-- ===== src/Common/Bits/Slots.antt =====
-- Words that agree above bit `k`: they lie in one aligned slot of `2 ^ k` bytes.
use Prim.Native.Nat.{ℕ, ◌+◌, ◌-◌, ◌*◌, ◌/◌, ◌%◌, ◌^◌, ◌≤◌, ◌<◌, bit_xor}
use mathlib.Core.Path.{◌≡◌, ap, sym, ◌∙◌}
use mathlib.Core.Logic.{◌↔◌}
use native.Mathlib.Nat.{mod-add-div, mod-lt, one-le-pow, div-le_self, pow-le-pow_right}
use native.Mathlib.Decide.{dec_lt}
use native.Mathlib.Omega.{arith}
use c3_simulator.Common.Bits.Digits.{bit, bit-lt, bit_ext, bit-bit_xor, bit-mod, bit-shr, bit_of_lt}
use c3_simulator.Common.Bits.Masks.{bit_xor-lt}

abbrev pub SameSlot : ℕ → ℕ → ℕ → Type 0
SameSlot k a b = a / 2 ^ k ≡ b / 2 ^ k

pub SameSlot-bit : (k a b i : ℕ) → SameSlot k a b → k ≤ i → bit a i ≡ bit b i
SameSlot-bit k a b i h le =
    ap (bit a) (omega arith)
    ∙ sym (bit-shr a k (i - k))
    ∙ ap (λ t. bit t (i - k)) h
    ∙ bit-shr b k (i - k)
    ∙ ap (bit b) {x = k + (i - k)} {y = i} (omega arith)

shr-lt : (a k : ℕ) → a < 2 ^ 64 → a / 2 ^ k < 2 ^ 64
shr-lt a k h = omega (arith, div-le_self a (2 ^ k))

-- A larger slot holds the smaller one.
pub SameSlot-coarser :
    (k m a b : ℕ) → k ≤ m → a < 2 ^ 64 → b < 2 ^ 64 → SameSlot k a b → SameSlot m a b
SameSlot-coarser k m a b le ha hb h =
    bit_ext 64 _ _ (shr-lt a m ha) (shr-lt b m hb)
      λ i _. bit-shr a m i ∙ SameSlot-bit k a b (m + i) h (omega arith) ∙ sym (bit-shr b m i)

-- Cutting both to `n` bits keeps them in one slot.
pub SameSlot-mod : (k n a b : ℕ) → n ≤ 64 → SameSlot k a b → SameSlot k (a % 2 ^ n) (b % 2 ^ n)
SameSlot-mod k n a b le h =
    bit_ext 64 _ _ (cut a) (cut b)
      λ i _. bit-shr (a % 2 ^ n) k i ∙ digit (k + i) (omega arith) ∙ sym (bit-shr (b % 2 ^ n) k i)
  where
    small : (x : ℕ) → x % 2 ^ n < 2 ^ n
    small x = mod-lt x (one-le-pow n 2 (omega arith))

    cut : (x : ℕ) → x % 2 ^ n / 2 ^ k < 2 ^ 64
    cut x = omega (
      arith,
      div-le_self (x % 2 ^ n) (2 ^ k),
      small x,
      pow-le-pow_right {n = 2} (omega arith) {i = n} {j = 64} le,
    )

    digit : (j : ℕ) → k ≤ j → bit (a % 2 ^ n) j ≡ bit (b % 2 ^ n) j
    digit j kj = elim (dec_lt j n) [
      | yes low ↦ bit-mod a n j low ∙ SameSlot-bit k a b j h kj ∙ sym (bit-mod b n j low)
      | no high ↦
          bit_of_lt n (a % 2 ^ n) j (small a) (omega arith)
          ∙ sym (bit_of_lt n (b % 2 ^ n) j (small b) (omega arith))
    ]

-- Two words lie in one slot exactly when their exclusive or fits its offset bits.
pub xor-lt_iff : (k a b : ℕ) → a < 2 ^ 64 → b < 2 ^ 64 → (bit_xor a b < 2 ^ k) ↔ SameSlot k a b
xor-lt_iff k a b ha hb = (there, back)
  where
    there : bit_xor a b < 2 ^ k → SameSlot k a b
    there h = bit_ext 64 _ _ (shr-lt a k ha) (shr-lt b k hb) λ i _. omega (
      arith,
      bit-shr a k i,
      bit-shr b k i,
      bit-bit_xor a b (k + i),
      bit_of_lt k (bit_xor a b) (k + i) h (omega arith),
      bit-lt a (k + i),
      bit-lt b (k + i),
    )

    vanishes : SameSlot k a b → bit_xor a b / 2 ^ k ≡ 0
    vanishes h = bit_ext 64 _ 0 (shr-lt _ k (bit_xor-lt 64 a b ha hb)) (omega arith) λ i _. omega (
      arith,
      bit-shr (bit_xor a b) k i,
      bit-bit_xor a b (k + i),
      SameSlot-bit k a b (k + i) h (omega arith),
      bit_of_lt 0 0 i (omega arith) (omega arith),
    )

    back : SameSlot k a b → bit_xor a b < 2 ^ k
    back h = omega (
      arith,
      mod-add-div (bit_xor a b) (2 ^ k),
      mod-lt (bit_xor a b) (one-le-pow k 2 (omega arith)),
      ap (λ t. 2 ^ k * t) (vanishes h),
    )

pub shr_mono : (a b d : ℕ) → a ≤ b → 1 ≤ d → a / d ≤ b / d
shr_mono a b d p q = grind arith

-- What lies between two words of a slot is in the slot.
pub SameSlot-between : (k a b c : ℕ) → a ≤ b → b ≤ c → SameSlot k a c → SameSlot k a b
SameSlot-between k a b c p q h = omega (
  arith,
  shr_mono a b (2 ^ k) p (one-le-pow k 2 (omega arith)),
  shr_mono b c (2 ^ k) q (one-le-pow k 2 (omega arith)),
)
