-- ===== src/Lim/Bounds.antt =====
-- The slot that malloc/lim_ptr_encoding.h chooses for an allocation, and its middle.
use c3_simulator.Common.{
  ℕ, ◌+◌, ◌-◌, ◌^◌, ◌≤◌, ◌<◌, ◌≡◌, ap, sym, ◌∙◌, subst, arith, bit_xor, ltb, leb, if◌then◌else◌,
  Option, none, some, u8, add64, sub64,
}
use native.Mathlib.Nat.{pow-le-pow_right}
use c3_simulator.Common.Bits.{SameSlot, xor-lt_iff, bit_xor-lt}
use c3_simulator.Ca.Boxing.{bit_length, clz64}
use c3_simulator.Ca.Slots.{lt-bit_length, bit_length_least}
use c3_simulator.Lim.Pointer.{check_encoded_size, calculate_encoded_size}

-- The number of bytes that a slot is chosen for.
abbrev pub chunk_size : ℕ → ℕ
chunk_size size = if ltb size 24 then 24 else size

abbrev pub last_byte : ℕ → ℕ → ℕ
last_byte ptr size = add64 ptr (sub64 (chunk_size size) 1)

pub chunk_size-pos : (size : ℕ) → 24 ≤ chunk_size size
chunk_size-pos size = ground arith

pub le-chunk_size : (size : ℕ) → size ≤ chunk_size size
le-chunk_size size = ground arith

wider : (x n k : ℕ) → n ≤ k → x < 2 ^ n → x < 2 ^ k
wider x n k h lt = omega (arith, pow-le-pow_right {n = 2} (omega arith) {i = n} {j = k} h)

last_byte_lem :
    (ptr size : ℕ) → ptr + chunk_size size ≤ 2 ^ 64 → last_byte ptr size ≡ ptr + chunk_size size - 1
last_byte_lem ptr size h = ground arith

diff_bits : ℕ → ℕ → ℕ
diff_bits ptr size = bit_length 64 (bit_xor ptr (last_byte ptr size))

-- What makes `e` the slot of the bytes from `ptr` to `last`.
pub record IsLeast (ptr last e : ℕ) : Type 0 where
  pub lower : 5 ≤ e
  pub upper : e ≤ 56
  pub holds : SameSlot e ptr last
  pub least : (k : ℕ) → 5 ≤ k → SameSlot k ptr last → e ≤ k

size_of_bits : ℕ → ℕ
size_of_bits n = if leb n 5 then 5 else n

checked : ℕ → Option ℕ
checked n = if check_encoded_size (size_of_bits n) then some (size_of_bits n) else none

checked-some : (n : ℕ) → n ≤ 56 → checked n ≡ some (size_of_bits n)
unfolding checked check_encoded_size size_of_bits
checked-some n h = ground arith

size_of_bits-le : (n k : ℕ) → 5 ≤ k → n ≤ k → size_of_bits n ≤ k
unfolding size_of_bits
size_of_bits-le n k h h' = ground arith

le-size_of_bits : (n : ℕ) → n ≤ size_of_bits n
unfolding size_of_bits
le-size_of_bits n = ground arith

lower-size_of_bits : (n : ℕ) → 5 ≤ size_of_bits n
unfolding size_of_bits
lower-size_of_bits n = ground arith

calculate_encoded_size-some :
    (ptr size : ℕ)
    → diff_bits ptr size ≤ 56
    → calculate_encoded_size ptr size ≡ some (size_of_bits (diff_bits ptr size))
unfolding calculate_encoded_size clz64 diff_bits size_of_bits checked
calculate_encoded_size-some ptr size h =
    ap checked {x = u8 (64 - (64 - diff_bits ptr size))} {y = diff_bits ptr size} (omega arith)
    ∙ checked-some (diff_bits ptr size) h

-- For an allocation below 2^56, the encoded size is the least from 5 on whose slot holds the first
-- and the last byte of the allocation, of 24 bytes at least.
pub calculate_encoded_size_lem :
    (ptr size : ℕ)
    → ptr + chunk_size size ≤ 2 ^ 56
    → (e : ℕ) × (calculate_encoded_size ptr size ≡ some e)
      × IsLeast ptr (ptr + chunk_size size - 1) e
unfolding diff_bits
calculate_encoded_size_lem ptr size h =
    let n = diff_bits ptr size in
    let last = last_byte ptr size in
    let last_lt : last < 2 ^ 64 = omega arith in
    let end : last ≡ ptr + chunk_size size - 1 = last_byte_lem ptr size (omega arith) in
    let ptr_lt : ptr < 2 ^ 64 = omega (arith, chunk_size-pos size) in
    let bits_le : (k : ℕ) → SameSlot k ptr last → n ≤ k =
      λ k e. bit_length_least 64 _ k ((xor-lt_iff k ptr last ptr_lt last_lt).1 e) in
    let n_le : n ≤ 56 = bits_le 56 (omega (arith, end, chunk_size-pos size)) in
    let in_slot : SameSlot (size_of_bits n) ptr last = (xor-lt_iff _ ptr last ptr_lt last_lt).0 (
      wider _ n (size_of_bits n) (le-size_of_bits n)
        (lt-bit_length 64 _ (bit_xor-lt 64 ptr last ptr_lt last_lt))) in
    (
      size_of_bits n,
      calculate_encoded_size-some ptr size n_le,
      record {
        lower = lower-size_of_bits n;
        upper = size_of_bits-le n 56 (omega arith) n_le;
        holds = subst (SameSlot (size_of_bits n) ptr) end in_slot;
        least = λ k low e. size_of_bits-le n k low (bits_le k (subst (SameSlot k ptr) (sym end) e));
      },
    )
