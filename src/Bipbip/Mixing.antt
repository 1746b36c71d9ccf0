-- ===== src/Bipbip/Mixing.antt =====
-- The linear layer of crypto/bipbip.cpp: `LML1_inv` undoes `LML1` and the other way round. As a
-- polynomial in the rotation by one bit the layer is 1 + r² + r¹², whose square is r⁴.
use native.Mathlib.Nat.{mod-eq_of_lt}
use c3_simulator.Common.{
  ℕ, ◌+◌, ◌-◌, ◌%◌, ◌^◌, ◌≤◌, ◌<◌, bit_xor, ◌≡◌, ap, ◌∙◌, u32, ◌<<<◌, ◌>>>◌, arith, dec_lt,
}
use c3_simulator.Common.Bits.{
  bit, bit-lt, bit_and_mask, bit_ext, bit_of_lt, bit-mod, bit-shr, bit-shl, bit-shl_below,
  bit-bit_xor, bit-bit_or,
}
use c3_simulator.Bipbip.Layers.{rot24, lml1, lml1_inv}

-- Bit `i` of a rotation to the right by `k`.
bit-rot24 : (k x i : ℕ) → x < 2 ^ 24 → k ≤ 24 → i < 24 → bit (rot24 k x) i ≡ bit x ((k + i) % 24)
bit-rot24 k x i p q r = elim (dec_lt (k + i) 24) [
  | yes h ↦ omega (
    arith,
    bit-bit_or (x >>> k) (u32 (x <<< (24 - k))) i,
    bit-shr x k i,
    bit-mod (x <<< (24 - k)) 32 i (omega arith),
    bit-shl_below x (24 - k) i (omega arith),
    ap (bit x) {x = k + i} {y = (k + i) % 24} (omega arith),
  )
  | no h ↦ omega (
    arith,
    bit-bit_or (x >>> k) (u32 (x <<< (24 - k))) i,
    bit-shr x k i,
    bit_of_lt 24 x (k + i) p (omega arith),
    bit-mod (x <<< (24 - k)) 32 i (omega arith),
    ap (bit (x <<< (24 - k))) {x = i} {y = 24 - k + (k + i) % 24} (omega arith),
    bit-shl x (24 - k) ((k + i) % 24),
  )
]

-- The layer before its inputs are cut to 24 bits.
mix : ℕ → ℕ
mix x = bit_xor (bit_xor x (rot24 2 x)) (rot24 12 x) % 2 ^ 24

mix-lt : (x : ℕ) → mix x < 2 ^ 24
unfolding mix
mix-lt x = omega arith

bit-mix :
    (x i : ℕ)
    → x < 2 ^ 24
    → i < 24
    → bit (mix x) i ≡ (bit x i + bit x ((2 + i) % 24) + bit x ((12 + i) % 24)) % 2
unfolding mix
bit-mix x i p q = omega (
  arith,
  bit-mod (bit_xor (bit_xor x (rot24 2 x)) (rot24 12 x)) 24 i q,
  bit-bit_xor (bit_xor x (rot24 2 x)) (rot24 12 x) i,
  bit-bit_xor x (rot24 2 x) i,
  bit-rot24 2 x i p (omega arith) q,
  bit-rot24 12 x i p (omega arith) q,
)

-- Mixing twice rotates by four.
bit-mix-mix : (x i : ℕ) → x < 2 ^ 24 → i < 24 → bit (mix (mix x)) i ≡ bit x ((4 + i) % 24)
bit-mix-mix x i p q = omega (
  arith,
  bit-mix (mix x) i (mix-lt x) q,
  bit-mix x i p q,
  bit-mix x ((2 + i) % 24) p (omega arith),
  bit-mix x ((12 + i) % 24) p (omega arith),
  ap (bit x) {x = (2 + (2 + i) % 24) % 24} {y = (4 + i) % 24} (omega arith),
  bit-lt x ((4 + i) % 24),
  ap (bit x) {x = (12 + (2 + i) % 24) % 24} {y = (2 + (12 + i) % 24) % 24} (omega arith),
  ap (bit x) {x = (12 + (12 + i) % 24) % 24} {y = i} (omega arith),
)

-- Rotating back by four, which `LML1_inv` does last.
back : ℕ → ℕ
back x = rot24 20 x % 2 ^ 24

bit-back : (x i : ℕ) → x < 2 ^ 24 → i < 24 → bit (back x) i ≡ bit x ((20 + i) % 24)
unfolding back
bit-back x i p q = bit-mod (rot24 20 x) 24 i q ∙ bit-rot24 20 x i p (omega arith) q

lml1_lem : (x : ℕ) → x < 2 ^ 24 → lml1 x ≡ mix x
unfolding lml1 mix
lml1_lem x h = rw (bit_and_mask 24 x, mod-eq_of_lt h, bit_and_mask 24)

lml1_inv_lem : (x : ℕ) → x < 2 ^ 24 → lml1_inv x ≡ back (mix x)
unfolding lml1_inv mix back
lml1_inv_lem x h = rw (bit_and_mask 24 x, mod-eq_of_lt h) (simp (bit_and_mask 24))

back-mix-mix : (x : ℕ) → x < 2 ^ 24 → back (mix (mix x)) ≡ x
back-mix-mix x h = bit_ext 24 _ x (unfold back in omega arith) h λ i p.
    bit-back (mix (mix x)) i (mix-lt (mix x)) p
    ∙ bit-mix-mix x ((20 + i) % 24) h (omega arith)
    ∙ ap (bit x) {x = (4 + (20 + i) % 24) % 24} {y = i} (omega arith)

back-lt : (x : ℕ) → back x < 2 ^ 24
unfolding back
back-lt x = omega arith

-- Mixing commutes with the rotation.
bit-mix-back : (y i : ℕ) → y < 2 ^ 24 → i < 24 → bit (mix (back y)) i ≡ bit (mix y) ((20 + i) % 24)
bit-mix-back y i h p = omega (
  arith,
  bit-mix (back y) i (back-lt y) p,
  bit-mix y ((20 + i) % 24) h (omega arith),
  bit-back y i h p,
  bit-back y ((2 + i) % 24) h (omega arith),
  bit-back y ((12 + i) % 24) h (omega arith),
  ap (bit y) {x = (20 + (2 + i) % 24) % 24} {y = (2 + (20 + i) % 24) % 24} (omega arith),
  ap (bit y) {x = (20 + (12 + i) % 24) % 24} {y = (12 + (20 + i) % 24) % 24} (omega arith),
)

mix-back-mix : (x : ℕ) → x < 2 ^ 24 → mix (back (mix x)) ≡ x
mix-back-mix x h = bit_ext 24 _ x (mix-lt _) h λ i p.
    bit-mix-back (mix x) i (mix-lt x) p
    ∙ bit-mix-mix x ((20 + i) % 24) h (omega arith)
    ∙ ap (bit x) {x = (4 + (20 + i) % 24) % 24} {y = i} (omega arith)

pub lml1-lt : (x : ℕ) → x < 2 ^ 24 → lml1 x < 2 ^ 24
lml1-lt x h = rw (lml1_lem x h) (mix-lt x)

pub lml1_inv-lt : (x : ℕ) → x < 2 ^ 24 → lml1_inv x < 2 ^ 24
lml1_inv-lt x h = rw (lml1_inv_lem x h) (back-lt (mix x))

-- The inverse mixing layer undoes the mixing layer on 24-bit blocks.
pub lml1_inv-lml1 : (x : ℕ) → x < 2 ^ 24 → lml1_inv (lml1 x) ≡ x
lml1_inv-lml1 x h = rw (lml1_lem x h, lml1_inv_lem (mix x) (mix-lt x)) (back-mix-mix x h)

pub lml1-lml1_inv : (x : ℕ) → x < 2 ^ 24 → lml1 (lml1_inv x) ≡ x
lml1-lml1_inv x h =
    rw (lml1_inv_lem x h, lml1_lem (back (mix x)) (back-lt (mix x))) (mix-back-mix x h)
