-- ===== src/Ca/Slots.antt =====
-- The slot that malloc/try_box.h chooses for an allocation.
use c3_simulator.Common.{
  ℕ, zero, suc, ◌+◌, ◌-◌, ◌/◌, ◌^◌, ◌≤◌, ◌<◌, ◌≡◌, refl, ap, subst, ◌⊎◌, inl, inr, arith, bit_xor,
  ltb, ◌==◌, if◌then◌else◌, none, some, add64, sub64, Bool-cases, tests,
}
use native.Mathlib.Nat.{pow-suc, one-le-pow}
use c3_simulator.Common.Bits.{SameSlot, xor-lt_iff, bit_xor-lt, SameSlot-coarser}
use c3_simulator.Ca.Format.{PtrMetadata}
use c3_simulator.Ca.Boxing.{bit_length, clz64, cc_leading_zeroes, try_box}

bit_length-suc : (fuel x : ℕ) → bit_length (suc fuel) (suc x) ≡ suc (bit_length fuel (suc x / 2))
unfolding bit_length
bit_length-suc fuel x = ground arith

pub lt-bit_length : (fuel x : ℕ) → x < 2 ^ fuel → x < 2 ^ bit_length fuel x
lt-bit_length zero x h = unfold bit_length in h
lt-bit_length (suc fuel) zero h = one-le-pow _ 2 (omega arith)
lt-bit_length (suc fuel) (suc x) h = omega (
  arith,
  lt-bit_length fuel (suc x / 2) (omega (arith, pow-suc 2 fuel)),
  ap (λ (t : ℕ). 2 ^ t) (bit_length-suc fuel x),
  pow-suc 2 (bit_length fuel (suc x / 2)),
)

pub bit_length_least : (fuel x k : ℕ) → x < 2 ^ k → bit_length fuel x ≤ k
bit_length_least zero x k h = unfold bit_length in omega arith
bit_length_least (suc fuel) zero k h = unfold bit_length in omega arith
bit_length_least (suc fuel) (suc x) zero h = absurd (omega arith)
bit_length_least (suc fuel) (suc x) (suc k) h =
    omega (
      arith,
      bit_length-suc fuel x,
      bit_length_least fuel (suc x / 2) k (omega (arith, pow-suc 2 k)),
    )

pub bit_length-le : (fuel x : ℕ) → bit_length fuel x ≤ fuel
bit_length-le zero x = unfold bit_length in omega arith
bit_length-le (suc fuel) zero = unfold bit_length in omega arith
bit_length-le (suc fuel) (suc x) =
    omega (arith, bit_length-suc fuel x, bit_length-le fuel (suc x / 2))

-- The last byte of an allocation of `s` bytes at `ptr`, as the code computes it.
abbrev pub last_byte : ℕ → ℕ → ℕ
last_byte ptr s = add64 ptr (sub64 (if ltb s 1 then 1 else s) 1)

last_byte-lt : (ptr s : ℕ) → last_byte ptr s < 2 ^ 64
last_byte-lt ptr s = omega arith

-- What the leading zeroes of the exclusive or say: the bit length of the difference.
leading_zeroes_lem :
    (ptr s : ℕ) → cc_leading_zeroes ptr s + bit_length 64 (bit_xor ptr (last_byte ptr s)) ≡ 64
unfolding cc_leading_zeroes clz64
leading_zeroes_lem ptr s = elim (Bool-cases (bit_xor ptr (last_byte ptr s) == 0)) [
  | inl same ↦
      rw same (omega (arith, bit_length_least 64 (bit_xor ptr (last_byte ptr s)) 0 (omega tests)))
  | inr other ↦ rw other (omega (arith, bit_length-le 64 (bit_xor ptr (last_byte ptr s))))
]

-- The number of offset bits of the least slot that holds the allocation.
slot_bits : ℕ → ℕ → ℕ
slot_bits ptr s = bit_length 64 (bit_xor ptr (last_byte ptr s))

module _ (ptr s : ℕ) (h : ptr < 2 ^ 64) where
  slot_bits-SameSlot : SameSlot (slot_bits ptr s) ptr (last_byte ptr s)
  unfolding slot_bits
  slot_bits-SameSlot =
      (xor-lt_iff _ ptr (last_byte ptr s) h (last_byte-lt ptr s)).0
        (lt-bit_length 64 _ (bit_xor-lt 64 ptr (last_byte ptr s) h (last_byte-lt ptr s)))

  slot_bits_least : (k : ℕ) → SameSlot k ptr (last_byte ptr s) → slot_bits ptr s ≤ k
  unfolding slot_bits
  slot_bits_least k e =
      bit_length_least 64 _ k ((xor-lt_iff k ptr (last_byte ptr s) h (last_byte-lt ptr s)).1 e)

  try_box_lem :
      (md : PtrMetadata)
      → (slot_bits ptr s ≤ 32
          × (try_box ptr s md ≡ some (record md { size = slot_bits ptr s + 1; adjust = 0 })))
        ⊎ (32 < slot_bits ptr s × (try_box ptr s md ≡ none))
  unfolding try_box slot_bits
  try_box_lem md = elim (Bool-cases (ltb (cc_leading_zeroes ptr s) 32)) [
    | inl far ↦ inr (omega (tests, leading_zeroes_lem ptr s), rw far)
    | inr near ↦ inl (
      omega (tests, leading_zeroes_lem ptr s),
      rw near (
          ap (λ t. some (record md { size = t; adjust = 0 }))
            (omega (tests, leading_zeroes_lem ptr s))),
    )
  ]

-- The metadata that boxing an allocation of `s` bytes at `ptr` gives: the least slot, at most
-- 4 GB large, that holds its first and its last byte, one more than its offset bits being stored.
pub record Boxes (ptr s : ℕ) (md md' : PtrMetadata) : Type 0 where
  pub lower : 1 ≤ md'.size
  pub upper : md'.size ≤ 33
  pub holds : SameSlot (md'.size - 1) ptr (last_byte ptr s)
  pub least : (k : ℕ) → SameSlot k ptr (last_byte ptr s) → md'.size - 1 ≤ k
  pub version : md'.version ≡ md.version
  pub adjust : md'.adjust ≡ 0

-- For a 64-bit address, try_box succeeds exactly when one slot of 4 GB holds the first and the last
-- byte of the allocation, and then its size field is one more than the number of offset bits of the
-- least slot that does.
pub try_box-Boxes :
    (ptr s : ℕ) (md : PtrMetadata)
    → ptr < 2 ^ 64
    → (((md' : PtrMetadata) × (try_box ptr s md ≡ some md') × Boxes ptr s md md')
        × SameSlot 32 ptr (last_byte ptr s))
      ⊎ ((try_box ptr s md ≡ none) × ¬ (SameSlot 32 ptr (last_byte ptr s)))
try_box-Boxes ptr s md h = elim (try_box_lem ptr s h md) [
  | inl fits ↦ inl (
    (
      record md { size = slot_bits ptr s + 1; adjust = 0 },
      fits.1,
      record {
        lower = omega arith;
        upper = omega (arith, fits.0);
        holds =
            subst (λ k. SameSlot k ptr (last_byte ptr s)) (omega arith)
              (slot_bits-SameSlot ptr s h);
        least = λ k e. omega (arith, slot_bits_least ptr s h k e);
        version = refl;
        adjust = refl;
      },
    ),
    SameSlot-coarser _ 32 ptr (last_byte ptr s) fits.0 h (last_byte-lt ptr s)
        (slot_bits-SameSlot ptr s h),
  )
  | inr far ↦ inr (far.1, λ e. absurd (omega (arith, far.0, slot_bits_least ptr s h 32 e)))
]
