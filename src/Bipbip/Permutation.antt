-- ===== src/Bipbip/Permutation.antt =====
-- What `BPL` of crypto/bipbip.cpp does to each bit, and that two tables undo one another.
use native.Mathlib.Nat.{pow-suc, pow-le-pow_right, add-zero, zero-add}
use c3_simulator.Common.{
  ℕ, zero, suc, ◌+◌, ◌*◌, ◌^◌, ◌≤◌, ◌<◌, bit_or, ◌≡◌, refl, ap, sym, ◌∙◌, List, get_or, u64, ◌<<<◌,
  ◌>>>◌, arith, dec_lt, ◌==◌, ltb, ◌&&◌, Bool, true, all_below, all_below_sound,
}
use c3_simulator.Common.Bits.{
  bit, bit-lt, bit_lem, bit-push, bit-push_zero, bit_and_mask, bit_or_fields, bit_ext,
}
use c3_simulator.Bipbip.Tables.{pi1, pi2, pi3, pi1_inv, pi2_inv, pi3_inv}
use c3_simulator.Bipbip.Layers.{get_bit, bpl_loop, bpl}

pub get_bit_lem : (x position : ℕ) → get_bit x position ≡ bit x position
unfolding get_bit
get_bit_lem x position = bit_and_mask 1 (x >>> position) ∙ sym (bit_lem x position)

pub get_bit-lt : (x position : ℕ) → get_bit x position < 2
get_bit-lt x position = omega (arith, get_bit_lem x position, bit-lt x position)

suc-add-eq : (m n : ℕ) → suc m + n ≡ m + suc n
suc-add-eq m n = omega arith

-- One round of the loop, as arithmetic.
push_bit : (m out b : ℕ) → out < 2 ^ m → m < 64 → b < 2 → bit_or (u64 (out <<< 1)) b ≡ out * 2 + b
push_bit m out b p q r =
    ap (λ t. bit_or t b) {x = u64 (out <<< 1)} {y = out <<< 1}
      (omega (arith, pow-le-pow_right {n = 2} (omega arith) {j = 64} q, pow-suc 2 m))
    ∙ bit_or_fields 1 out b r
    ∙ omega arith

bpl_loop-suc :
    (x : ℕ) (pi : List ℕ) (n m out : ℕ)
    → out < 2 ^ m
    → m + suc n ≤ 64
    → bpl_loop x pi (suc n) out ≡ bpl_loop x pi n (out * 2 + bit x (get_or pi n 0))
unfolding bpl_loop
bpl_loop-suc x pi n m out p q =
    rw (get_bit_lem, push_bit m out _ p (omega arith) (bit-lt x (get_or pi n 0)))

push-lt : (m out b : ℕ) → out < 2 ^ m → b < 2 → out * 2 + b < 2 ^ suc m
push-lt m out b p q = omega (arith, pow-suc 2 m)

-- The loop of `n` rounds moves the bits of `out` up by `n`, and stays below `2 ^ (m + n)`.
bpl_loop-lt :
    (x : ℕ) (pi : List ℕ) (n m out : ℕ)
    → out < 2 ^ m
    → m + n ≤ 64
    → bpl_loop x pi n out < 2 ^ (m + n)
unfolding bpl_loop
bpl_loop-lt x pi zero m out p q = rw add-zero p
bpl_loop-lt x pi (suc n) m out p q =
    rw (bpl_loop-suc x pi n m out p q, ← suc-add-eq m n)
      (bpl_loop-lt x pi n (suc m) _ (push-lt m out _ p (bit-lt x (get_or pi n 0))) (omega arith))

bit-bpl_loop_high :
    (x : ℕ) (pi : List ℕ) (n m out i : ℕ)
    → out < 2 ^ m
    → m + n ≤ 64
    → bit (bpl_loop x pi n out) (i + n) ≡ bit out i
unfolding bpl_loop
bit-bpl_loop_high x pi zero m out i p q = rw add-zero
bit-bpl_loop_high x pi (suc n) m out i p q =
    rw (bpl_loop-suc x pi n m out p q, ← suc-add-eq i n)
      (bit-bpl_loop_high x pi n (suc m) _ (suc i) (push-lt m out _ p (bit-lt x (get_or pi n 0)))
          (omega arith)
        ∙ bit-push out _ i (bit-lt x (get_or pi n 0)))

bit-bpl_loop :
    (x : ℕ) (pi : List ℕ) (n m out i : ℕ)
    → out < 2 ^ m
    → m + n ≤ 64
    → i < n
    → bit (bpl_loop x pi n out) i ≡ bit x (get_or pi i 0)
bit-bpl_loop x pi zero m out i p q r = absurd (omega arith)
bit-bpl_loop x pi (suc n) m out i p q r = elim (dec_lt i n) [
  | yes below ↦
      rw (bpl_loop-suc x pi n m out p q) (bit-bpl_loop x pi n (suc m) _ i fits (omega arith) below)
  | no top ↦
      rw (bpl_loop-suc x pi n m out p q, at_top top)
        (bit-bpl_loop_high x pi n (suc m) _ 0 fits (omega arith)
          ∙ rw zero-add (bit-push_zero out _ (bit-lt x (get_or pi n 0))))
]
  where
    fits : out * 2 + bit x (get_or pi n 0) < 2 ^ suc m
    fits = push-lt m out _ p (bit-lt x (get_or pi n 0))

    at_top : ¬ (i < n) → i ≡ 0 + n
    at_top h = omega arith

-- Bit `i` of `BPL(x, PI, n)` is bit `PI[i]` of `x`.
bit-bpl :
    (x : ℕ) (pi : List ℕ) (n i : ℕ) → n ≤ 64 → i < n → bit (bpl x pi n) i ≡ bit x (get_or pi i 0)
unfolding bpl
bit-bpl x pi n i p q = bit-bpl_loop x pi n 0 0 i (omega arith) (omega arith) q

pub bpl-lt : (x : ℕ) (pi : List ℕ) (n : ℕ) → n ≤ 64 → bpl x pi n < 2 ^ n
unfolding bpl
bpl-lt x pi n p = rw zero-add at (bpl_loop-lt x pi n 0 0 (omega arith) (omega arith))

-- `rho` sends each index below `n` below `n`, and `pi` sends it back.
unfoldable pub undoes : List ℕ → List ℕ → ℕ → Bool
undoes pi rho n = all_below n λ i. ltb (get_or rho i 0) n && get_or pi (get_or rho i 0) 0 == i

-- The bit permutation by one table, after that by another of which it undoes each entry, gives back
-- every word of as many bits as the tables have entries, at most 64.
bpl-bpl :
    (pi rho : List ℕ) (n x : ℕ)
    → n ≤ 64
    → undoes pi rho n ≡ true
    → x < 2 ^ n
    → bpl (bpl x pi n) rho n ≡ x
unfolding undoes
bpl-bpl pi rho n x p u h = bit_ext n _ x (bpl-lt _ rho n p) h λ i q.
    let back = all_below_sound n _ i u q in
    bit-bpl (bpl x pi n) rho n i p q
    ∙ bit-bpl x pi n (get_or rho i 0) p (inside i back)
    ∙ ap (bit x) (returns i back)
  where
    inside :
        (i : ℕ)
        → (ltb (get_or rho i 0) n && get_or pi (get_or rho i 0) 0 == i) ≡ true
        → get_or rho i 0 < n
    inside i h = ground arith

    returns :
        (i : ℕ)
        → (ltb (get_or rho i 0) n && get_or pi (get_or rho i 0) 0 == i) ≡ true
        → get_or pi (get_or rho i 0) 0 ≡ i
    returns i h = ground arith

pub bpl-pi1-pi1_inv : (x : ℕ) → x < 2 ^ 24 → bpl (bpl x pi1 24) pi1_inv 24 ≡ x
unfolding undoes all_below
bpl-pi1-pi1_inv x h = bpl-bpl pi1 pi1_inv 24 x (omega arith) refl h

pub bpl-pi1_inv-pi1 : (x : ℕ) → x < 2 ^ 24 → bpl (bpl x pi1_inv 24) pi1 24 ≡ x
unfolding undoes all_below
bpl-pi1_inv-pi1 x h = bpl-bpl pi1_inv pi1 24 x (omega arith) refl h

pub bpl-pi2-pi2_inv : (x : ℕ) → x < 2 ^ 24 → bpl (bpl x pi2 24) pi2_inv 24 ≡ x
unfolding undoes all_below
bpl-pi2-pi2_inv x h = bpl-bpl pi2 pi2_inv 24 x (omega arith) refl h

pub bpl-pi2_inv-pi2 : (x : ℕ) → x < 2 ^ 24 → bpl (bpl x pi2_inv 24) pi2 24 ≡ x
unfolding undoes all_below
bpl-pi2_inv-pi2 x h = bpl-bpl pi2_inv pi2 24 x (omega arith) refl h

pub bpl-pi3-pi3_inv : (x : ℕ) → x < 2 ^ 24 → bpl (bpl x pi3 24) pi3_inv 24 ≡ x
unfolding undoes all_below
bpl-pi3-pi3_inv x h = bpl-bpl pi3 pi3_inv 24 x (omega arith) refl h

pub bpl-pi3_inv-pi3 : (x : ℕ) → x < 2 ^ 24 → bpl (bpl x pi3_inv 24) pi3 24 ≡ x
unfolding undoes all_below
bpl-pi3_inv-pi3 x h = bpl-bpl pi3_inv pi3 24 x (omega arith) refl h
