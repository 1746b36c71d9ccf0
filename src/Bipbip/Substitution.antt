-- ===== src/Bipbip/Substitution.antt =====
-- The S-box layer of crypto/bipbip.cpp: `SBL` and `SBL_inv` are inverse on 24-bit blocks.
use c3_simulator.Common.{
  ℕ, zero, suc, ◌+◌, ◌*◌, ◌%◌, ◌^◌, ◌<◌, bit_or, ◌≡◌, refl, ap, ◌∙◌, List, get_or, u32, ◌<<<◌,
  ◌>>>◌, arith, ◌==◌, ltb, ◌&&◌, Bool, true, all_below, all_below_sound,
}
use c3_simulator.Common.Bits.{bit_and_mask, bit_or_fields}
use c3_simulator.Bipbip.Tables.{sbox_table, sbox_inv_table}
use c3_simulator.Bipbip.Layers.{sbox_loop, sbox, sbl, sbl_inv}

-- The table's entry for six bits of `x` from bit `6 * i` on.
abbrev entry : List ℕ → ℕ → ℕ → ℕ
entry table x i = get_or table (x >>> (i * 6) % 64) 0

IsSmall : List ℕ → Type 0
IsSmall table = (i : ℕ) → i < 64 → get_or table i 0 < 64

sbox_loop-suc :
    (x : ℕ) (table : List ℕ) (i out : ℕ)
    → IsSmall table
    → out < 2 ^ 18
    → sbox_loop x table (suc i) out ≡ sbox_loop x table i (out * 64 + entry table x i)
unfolding sbox_loop IsSmall
sbox_loop-suc x table i out small h = ap (sbox_loop x table i) (
    ap (λ t. bit_or (u32 (out <<< 6)) (get_or table t 0)) (bit_and_mask 6 (x >>> (i * 6)))
    ∙ ap (λ t. bit_or t (entry table x i)) {y = out <<< 6} (omega arith)
    ∙ bit_or_fields 6 out (entry table x i) (small _ (omega arith)))

sbox_start : (x : ℕ) (table : List ℕ) → sbox x table ≡ sbox_loop x table 4 0
unfolding sbox
sbox_start x table = refl

sbox_end : (x : ℕ) (table : List ℕ) (out : ℕ) → sbox_loop x table 0 out ≡ out
unfolding sbox_loop
sbox_end x table out = refl

-- The four groups of six bits, each put through the table.
abbrev groups : ℕ → List ℕ → ℕ
groups x table =
    (((0 * 64 + entry table x 3) * 64 + entry table x 2) * 64 + entry table x 1) * 64
    + entry table x 0

entry-lt : (x : ℕ) (table : List ℕ) (i : ℕ) → IsSmall table → entry table x i < 64
unfolding IsSmall
entry-lt x table i small = small (x >>> (i * 6) % 64) (omega arith)

sbox_as_sum : (x : ℕ) (table : List ℕ) → IsSmall table → sbox x table ≡ groups x table
sbox_as_sum x table small =
    sbox_start x table
    ∙ sbox_loop-suc x table 3 0 small (omega arith)
    ∙ sbox_loop-suc x table 2 _ small (omega (arith, entry-lt x table 3 small))
    ∙ sbox_loop-suc x table 1 _ small
        (omega (arith, entry-lt x table 3 small, entry-lt x table 2 small))
    ∙ sbox_loop-suc x table 0 _ small (
        omega (arith, entry-lt x table 3 small, entry-lt x table 2 small, entry-lt x table 1 small))
    ∙ sbox_end x table _

-- The sum, with the bound of each entry.
sbox_parts :
    (x : ℕ) (table : List ℕ)
    → IsSmall table
    → (sbox x table ≡ groups x table)
      × (entry table x 3 < 64)
      × (entry table x 2 < 64)
      × (entry table x 1 < 64)
      × (entry table x 0 < 64)
sbox_parts x table small = (
  sbox_as_sum x table small,
  entry-lt x table 3 small,
  entry-lt x table 2 small,
  entry-lt x table 1 small,
  entry-lt x table 0 small,
)

sbox-lt : (x : ℕ) (table : List ℕ) → IsSmall table → sbox x table < 2 ^ 24
sbox-lt x table small = omega (arith, sbox_parts x table small)

-- `rho` undoes `pi` on the values below 64.
Undoes : List ℕ → List ℕ → Type 0
Undoes pi rho = (i : ℕ) → i < 64 → get_or rho (get_or pi i 0) 0 ≡ i

entry-sbox :
    (x : ℕ) (pi rho : List ℕ) (i : ℕ)
    → IsSmall pi
    → Undoes pi rho
    → i < 4
    → entry rho (sbox x pi) i ≡ x >>> (i * 6) % 64
unfolding Undoes
entry-sbox x pi rho i small u h = ap (λ t. get_or rho t 0) (digit i h) ∙ u _ (omega arith)
  where
    digit : (i : ℕ) → i < 4 → sbox x pi >>> (i * 6) % 64 ≡ entry pi x i
    digit zero h = omega (arith, sbox_parts x pi small)
    digit (suc zero) h = omega (arith, sbox_parts x pi small)
    digit (suc (suc zero)) h = omega (arith, sbox_parts x pi small)
    digit (suc (suc (suc zero))) h = omega (arith, sbox_parts x pi small)
    digit (suc (suc (suc (suc i)))) h = absurd (omega arith)

sbox-sbox :
    (x : ℕ) (pi rho : List ℕ)
    → IsSmall pi
    → IsSmall rho
    → Undoes pi rho
    → x < 2 ^ 24
    → sbox (sbox x pi) rho ≡ x
sbox-sbox x pi rho small small' u h = omega (
  arith,
  sbox_as_sum (sbox x pi) rho small',
  entry-sbox x pi rho 0 small u (omega arith),
  entry-sbox x pi rho 1 small u (omega arith),
  entry-sbox x pi rho 2 small u (omega arith),
  entry-sbox x pi rho 3 small u (omega arith),
)

-- Every entry of a table fits six bits, and is sent back by the other table.
tables_match : List ℕ → List ℕ → Bool
tables_match pi rho = all_below 64 λ i. ltb (get_or pi i 0) 64 && get_or rho (get_or pi i 0) 0 == i

IsSmall-of_match : (pi rho : List ℕ) → tables_match pi rho ≡ true → IsSmall pi
unfolding tables_match IsSmall
IsSmall-of_match pi rho m i h = read i (all_below_sound 64 _ i m h)
  where
    read :
        (i : ℕ)
        → (ltb (get_or pi i 0) 64 && get_or rho (get_or pi i 0) 0 == i) ≡ true
        → get_or pi i 0 < 64
    read i h = ground arith

Undoes-of_match : (pi rho : List ℕ) → tables_match pi rho ≡ true → Undoes pi rho
unfolding tables_match Undoes
Undoes-of_match pi rho m i h = read i (all_below_sound 64 _ i m h)
  where
    read :
        (i : ℕ)
        → (ltb (get_or pi i 0) 64 && get_or rho (get_or pi i 0) 0 == i) ≡ true
        → get_or rho (get_or pi i 0) 0 ≡ i
    read i h = ground arith

forward : tables_match sbox_table sbox_inv_table ≡ true
unfolding tables_match all_below
forward = refl

backward : tables_match sbox_inv_table sbox_table ≡ true
unfolding tables_match all_below
backward = refl

pub sbl-lt : (x : ℕ) → sbl x < 2 ^ 24
unfolding sbl
sbl-lt x = sbox-lt x sbox_table (IsSmall-of_match _ _ forward)

pub sbl_inv-lt : (x : ℕ) → sbl_inv x < 2 ^ 24
unfolding sbl_inv
sbl_inv-lt x = sbox-lt x sbox_inv_table (IsSmall-of_match _ _ backward)

-- The inverse substitution layer undoes the substitution layer on 24-bit blocks.
pub sbl_inv-sbl : (x : ℕ) → x < 2 ^ 24 → sbl_inv (sbl x) ≡ x
unfolding sbl sbl_inv
sbl_inv-sbl x h =
    sbox-sbox x sbox_table sbox_inv_table (IsSmall-of_match _ _ forward)
      (IsSmall-of_match _ _ backward) (Undoes-of_match _ _ forward) h

pub sbl-sbl_inv : (x : ℕ) → x < 2 ^ 24 → sbl (sbl_inv x) ≡ x
unfolding sbl sbl_inv
sbl-sbl_inv x h =
    sbox-sbox x sbox_inv_table sbox_table (IsSmall-of_match _ _ backward)
      (IsSmall-of_match _ _ forward) (Undoes-of_match _ _ backward) h
