-- ===== src/Integrity/Icv.antt =====
-- The bits of an integrity check value: c3lib/c3/generic/icv.h.
use c3_simulator.Common.{
  ℕ, ◌+◌, ◌*◌, ◌/◌, ◌%◌, ◌^◌, ◌≡◌, ap, ◌∙◌, arith, bit_and, bit_or, Bool, true, false, ◌==◌, not64,
  sym, ==_eq, ne→==,
}
use c3_simulator.Common.Bits.{bit_and_step, bit_or_step, bit_and-zero, bit_or-zero, bit_and_mask}

abbrev pub slot_size_in_bits : ℕ
slot_size_in_bits = 3

abbrev pub icv_addr_mask : ℕ
icv_addr_mask = 0xFFFFFFFFFFFFFFF8

abbrev pub icv_init_mask : ℕ
icv_init_mask = 2

abbrev pub icv_preinit_mask : ℕ
icv_preinit_mask = 4

-- `~0` as an `icv_t`
abbrev pub invalid_icv : ℕ
invalid_icv = 0xFFFFFFFFFFFFFFFF

unfoldable pub icv_initialize : ℕ → ℕ
icv_initialize x = bit_and x (not64 icv_init_mask)

unfoldable pub icv_uninitialize : ℕ → ℕ
icv_uninitialize x = bit_or x icv_init_mask

unfoldable pub is_icv_uninitialized : ℕ → Bool
is_icv_uninitialized x = bit_and x icv_init_mask == icv_init_mask

unfoldable pub is_icv_preinit_enabled : ℕ → Bool
is_icv_preinit_enabled x = bit_and x icv_preinit_mask == icv_preinit_mask

unfoldable pub icv_preinit_enable : ℕ → ℕ
icv_preinit_enable x = bit_or x icv_preinit_mask

-- The address that an ICV holds.
unfoldable pub icv_addr : ℕ → ℕ
icv_addr x = bit_and x icv_addr_mask

-- What the masks do, as arithmetic.
pub icv_addr_lem : (x : ℕ) → icv_addr x ≡ x / 8 % 2 ^ 61 * 8
unfolding icv_addr
icv_addr_lem x = omega (
  arith,
  bit_and_step x icv_addr_mask,
  bit_and_step (x / 2) (icv_addr_mask / 2),
  bit_and_step (x / 2 / 2) (icv_addr_mask / 4),
  bit_and_mask 61 (x / 2 / 2 / 2),
)

pub icv_initialize_lem : (x : ℕ) → icv_initialize x ≡ x / 4 % 2 ^ 62 * 4 + x % 2
unfolding icv_initialize
icv_initialize_lem x = omega (
  arith,
  bit_and_step x (not64 icv_init_mask),
  bit_and_step (x / 2) (not64 icv_init_mask / 2),
  bit_and_mask 62 (x / 2 / 2),
)

pub icv_uninitialize_lem : (x : ℕ) → icv_uninitialize x ≡ x / 4 * 4 + 2 + x % 2
unfolding icv_uninitialize
icv_uninitialize_lem x =
    omega (arith, bit_or_step x icv_init_mask, bit_or_step (x / 2) 1, bit_or-zero (x / 2 / 2))

pub icv_preinit_enable_lem : (x : ℕ) → icv_preinit_enable x ≡ x / 8 * 8 + 4 + x % 4
unfolding icv_preinit_enable
icv_preinit_enable_lem x = omega (
  arith,
  bit_or_step x icv_preinit_mask,
  bit_or_step (x / 2) 2,
  bit_or_step (x / 2 / 2) 1,
  bit_or-zero (x / 2 / 2 / 2),
)

init_bit_lem : (x : ℕ) → bit_and x icv_init_mask ≡ x / 2 % 2 * 2
init_bit_lem x =
    omega (arith, bit_and_step x icv_init_mask, bit_and_step (x / 2) 1, bit_and-zero (x / 2 / 2))

preinit_bit_lem : (x : ℕ) → bit_and x icv_preinit_mask ≡ x / 4 % 2 * 4
preinit_bit_lem x = omega (
  arith,
  bit_and_step x icv_preinit_mask,
  bit_and_step (x / 2) 2,
  bit_and_step (x / 2 / 2) 1,
  bit_and-zero (x / 2 / 2 / 2),
)

pub is_icv_uninitialized_lem : (x : ℕ) → is_icv_uninitialized x ≡ (x / 2 % 2 == 1)
unfolding is_icv_uninitialized
is_icv_uninitialized_lem x = rw (init_bit_lem x) (ground arith)

pub is_icv_preinit_enabled_lem : (x : ℕ) → is_icv_preinit_enabled x ≡ (x / 4 % 2 == 1)
unfolding is_icv_preinit_enabled
is_icv_preinit_enabled_lem x = rw (preinit_bit_lem x) (ground arith)

-- The address is not touched by the changes of the two flags.
pub icv_addr-icv_addr : (x : ℕ) → icv_addr (icv_addr x) ≡ icv_addr x
icv_addr-icv_addr x = omega (arith, icv_addr_lem x, icv_addr_lem (icv_addr x))

pub icv_addr-icv_uninitialize : (x : ℕ) → icv_addr (icv_uninitialize x) ≡ icv_addr x
icv_addr-icv_uninitialize x =
    omega (arith, icv_addr_lem x, icv_uninitialize_lem x, icv_addr_lem (icv_uninitialize x))

pub icv_addr-icv_preinit_enable : (x : ℕ) → icv_addr (icv_preinit_enable x) ≡ icv_addr x
icv_addr-icv_preinit_enable x =
    omega (arith, icv_addr_lem x, icv_preinit_enable_lem x, icv_addr_lem (icv_preinit_enable x))

pub icv_addr-icv_initialize : (x : ℕ) → icv_addr (icv_initialize x) ≡ icv_addr x
icv_addr-icv_initialize x =
    omega (arith, icv_addr_lem x, icv_initialize_lem x, icv_addr_lem (icv_initialize x))

-- The flags after each change.
pub uninitialized-uninitialize : (x : ℕ) → is_icv_uninitialized (icv_uninitialize x) ≡ true
uninitialized-uninitialize x =
    is_icv_uninitialized_lem (icv_uninitialize x)
    ∙ ==_eq _ _ (omega (arith, icv_uninitialize_lem x))

pub uninitialized-initialize : (x : ℕ) → is_icv_uninitialized (icv_initialize x) ≡ false
uninitialized-initialize x =
    is_icv_uninitialized_lem (icv_initialize x)
    ∙ ne→== _ _ (λ e. absurd (omega (arith, icv_initialize_lem x, e)))

pub uninitialized-icv_addr : (x : ℕ) → is_icv_uninitialized (icv_addr x) ≡ false
uninitialized-icv_addr x =
    is_icv_uninitialized_lem (icv_addr x)
    ∙ ne→== _ _ (λ e. absurd (omega (arith, icv_addr_lem x, e)))

pub preinit-icv_addr : (x : ℕ) → is_icv_preinit_enabled (icv_addr x) ≡ false
preinit-icv_addr x =
    is_icv_preinit_enabled_lem (icv_addr x)
    ∙ ne→== _ _ (λ e. absurd (omega (arith, icv_addr_lem x, e)))

pub preinit-uninitialize :
    (x : ℕ) → is_icv_preinit_enabled (icv_uninitialize (icv_preinit_enable x)) ≡ true
preinit-uninitialize x =
    let y = icv_preinit_enable x in
    is_icv_preinit_enabled_lem (icv_uninitialize y)
    ∙ ==_eq _ _ (omega (arith, icv_uninitialize_lem y, icv_preinit_enable_lem x))

pub preinit-initialize :
    (x : ℕ) → is_icv_preinit_enabled (icv_initialize x) ≡ is_icv_preinit_enabled x
preinit-initialize x =
    is_icv_preinit_enabled_lem (icv_initialize x)
    ∙ ap (λ t. t == 1) (omega (arith, icv_initialize_lem x))
    ∙ sym (is_icv_preinit_enabled_lem x)
