-- ===== src/Shadow/Fixed.antt =====
-- The fixed bits of a slot's CA, and the bits of an offset inside the slot:
-- modules/common/ccsimics/shadow_rip.h.
use c3_simulator.Common.{
  ℕ, ◌+◌, ◌-◌, ◌*◌, ◌/◌, ◌%◌, ◌^◌, ◌≤◌, ◌<◌, ◌≡◌, ap, sym, ◌∙◌, arith, dec_lt, bit_and, bit_or,
  bit_xor, u64, ◌<<<◌,
}
use c3_simulator.Common.Bits.{
  bit, bit-lt, bit-bit_xor, bit-mod, bit_ext, bit_of_lt, bit_xor-lt, bit_and_high, bit_or_fields,
  SameSlot, SameSlot-bit,
}
use c3_simulator.Bipbip.Cipher.{PointerCipher}
use c3_simulator.Bipbip.Caching.{IsCoherent}
use c3_simulator.Ca.Format.{PtrMetadata, get_tweak_mask}
use c3_simulator.Ca.Decoding.{encoded}
use c3_simulator.Ca.Emulation.{plaintext-encoded}
use native.Mathlib.Nat.{
  mod-lt, one-le-pow, mod-add-div, mul-add-mod_self_left, mul-add-div, mod-eq_of_lt, div-eq_of_lt,
}

-- The mask keeps the bits above the offset.
pub get_tweak_mask_lem :
    (size x : ℕ)
    → 1 ≤ size
    → size ≤ 33
    → x < 2 ^ 64
    → bit_and x (get_tweak_mask size) ≡ x / 2 ^ (size - 1) * 2 ^ (size - 1)
unfolding get_tweak_mask
get_tweak_mask_lem size x lo hi small =
    ap (λ k. bit_and x (u64 (0xFFFFFFFFFFFFFFFF <<< k))) {y = size - 1} (omega arith)
    ∙ bit_and_high (size - 1) x (omega arith) small

pub low_bits : (k a b : ℕ) → k ≤ 32 → a % 2 ^ 32 ≡ b % 2 ^ 32 → a % 2 ^ k ≡ b % 2 ^ k
low_bits k a b le e =
    bit_ext k (a % 2 ^ k) (b % 2 ^ k) (mod-lt a (one-le-pow k 2 (omega arith)))
      (mod-lt b (one-le-pow k 2 (omega arith)))
      (λ i h.
        bit-mod a k i h
        ∙ sym (bit-mod a 32 i (omega arith))
        ∙ ap (λ x. bit x i) e
        ∙ bit-mod b 32 i (omega arith)
        ∙ sym (bit-mod b k i h))

start_lem : (k p : ℕ) → p % 2 ^ k ≡ 0 → p ≡ 2 ^ k * (p / 2 ^ k)
start_lem k p start = omega (arith, mod-add-div p (2 ^ k), start)

-- An offset inside the slot that starts at `p`.
pub offset_lem : (k p off : ℕ) → p % 2 ^ k ≡ 0 → off < 2 ^ k → (p + off) % 2 ^ k ≡ off
offset_lem k p off start inside =
    ap (λ x. (x + off) % 2 ^ k) (start_lem k p start)
    ∙ mul-add-mod_self_left (2 ^ k) (p / 2 ^ k) off
    ∙ mod-eq_of_lt inside

pub slot_lem : (k p off : ℕ) → p % 2 ^ k ≡ 0 → off < 2 ^ k → SameSlot k (p + off) p
slot_lem k p off start inside =
    ap (λ x. (x + off) / 2 ^ k) (start_lem k p start)
    ∙ mul-add-div (one-le-pow k 2 (omega arith)) (p / 2 ^ k) off
    ∙ omega (arith, div-eq_of_lt inside)

low_bit : (k p off i : ℕ) → p % 2 ^ k ≡ 0 → off < 2 ^ k → i < k → bit (p + off) i ≡ bit off i
low_bit k p off i start inside h =
    sym (bit-mod (p + off) k i h) ∙ ap (λ x. bit x i) (offset_lem k p off start inside)

zero_bit : (k p i : ℕ) → p % 2 ^ k ≡ 0 → i < k → bit p i ≡ 0
zero_bit k p i start h =
    sym (bit-mod p k i h) ∙ ap (λ x. bit x i) start ∙ bit_of_lt 0 0 i (omega arith) (omega arith)

xor_bit : (k p off i : ℕ) → p % 2 ^ k ≡ 0 → off < 2 ^ k → bit (bit_xor (p + off) p) i ≡ bit off i
xor_bit k p off i start inside = elim (dec_lt i k) [
  | yes h ↦ omega (
    arith,
    bit-bit_xor (p + off) p i,
    low_bit k p off i start inside h,
    zero_bit k p i start h,
    bit-lt off i,
  )
  | no h ↦ omega (
    arith,
    h,
    bit-bit_xor (p + off) p i,
    SameSlot-bit k (p + off) p i (slot_lem k p off start inside) (omega (arith, h)),
    bit_of_lt k off i inside (omega (arith, h)),
  )
]

-- What is left of an address after the start of its slot is taken away.
pub xor_slot :
    (k p off : ℕ)
    → k ≤ 32
    → p + off < 2 ^ 64
    → p % 2 ^ k ≡ 0
    → off < 2 ^ k
    → bit_xor (p + off) p ≡ off
xor_slot k p off le small start inside =
    bit_ext 64 (bit_xor (p + off) p) off (bit_xor-lt 64 (p + off) p small (omega arith))
      (omega arith) (λ i _. xor_bit k p off i start inside)

-- The fixed bits of a CA, with an offset put in.
pub fixed-offset :
    (k g off : ℕ) → g % 2 ^ k ≡ 0 → off < 2 ^ k → bit_or (g / 2 ^ k * 2 ^ k) off ≡ g + off
fixed-offset k g off start inside =
    bit_or_fields k (g / 2 ^ k) off inside ∙ omega (arith, mod-add-div g (2 ^ k), start)

pub encoded-start :
    (c : PointerCipher) (p k : ℕ) (md : PtrMetadata)
    → IsCoherent c
    → p < 2 ^ 64
    → k ≤ 32
    → p % 2 ^ k ≡ 0
    → encoded c.key_schedule p md % 2 ^ k ≡ 0
encoded-start c p k md h hp le start =
    low_bits k (encoded c.key_schedule p md) p le (omega (arith, plaintext-encoded c p md h hp))
    ∙ start
