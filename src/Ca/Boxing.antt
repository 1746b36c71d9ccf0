-- ===== src/Ca/Boxing.antt =====
-- The slot of an allocation, malloc/try_box.h.
use c3_simulator.Common.{
  ℕ, zero, suc, ◌+◌, ◌-◌, ◌/◌, ◌%◌, ◌^◌, bit_xor, Bool, true, false, ltb, ◌==◌, if◌then◌else◌,
  Option, none, some, u8, add64, sub64,
}
use c3_simulator.Ca.Format.{PtrMetadata}

-- The number of binary digits of a word below `2 ^ fuel`.
unfoldable pub bit_length : ℕ → ℕ → ℕ
bit_length zero x = 0
bit_length (suc fuel) x = elim (x == 0) [ true ↦ 0 | false ↦ suc (bit_length fuel (x / 2)) ]

-- `__builtin_clzl`, which is undefined at 0
unfoldable pub clz64 : ℕ → ℕ
clz64 x = 64 - bit_length 64 x

unfoldable pub cc_leading_zeroes : ℕ → ℕ → ℕ
cc_leading_zeroes ptr s =
    let size = if ltb s 1 then 1 else s in
    let ptr_end = add64 ptr (sub64 size 1) in
    let diff = bit_xor ptr ptr_end in if diff == 0 then 64 else clz64 diff

unfoldable pub cc_can_box : ℕ → ℕ → Bool
cc_can_box ptr size = if ltb (cc_leading_zeroes ptr size) 32 then false else true

-- `none` is the return value 0; otherwise the metadata that `*md` is left with.
unfoldable pub try_box : ℕ → ℕ → PtrMetadata → Option PtrMetadata
try_box ptr size md =
    let leading_zeros_in_diff = cc_leading_zeroes ptr size in
    if ltb leading_zeros_in_diff 32
    then none
    else some (record md { size = u8 (u8 (64 - leading_zeros_in_diff) + 1) % 2 ^ 6; adjust = 0 })
