-- ===== src/Common/Words.antt =====
-- Machine words as native numbers: wrap-around by `%`, shifts by `*` and `/`, C bit-fields.
use Prim.Native.Nat.{ℕ, ◌+◌, ◌-◌, ◌*◌, ◌/◌, ◌%◌, ◌^◌}

abbrev pub u8 : ℕ → ℕ
u8 x = x % 2 ^ 8

abbrev pub u32 : ℕ → ℕ
u32 x = x % 2 ^ 32

abbrev pub u64 : ℕ → ℕ
u64 x = x % 2 ^ 64

-- `a + b`, `a - b`, `~a` and `a << k` on uint64_t
abbrev pub add64 : ℕ → ℕ → ℕ
add64 a b = u64 (a + b)

abbrev pub sub64 : ℕ → ℕ → ℕ
sub64 a b = u64 (a + 2 ^ 64 - b)

abbrev pub not64 : ℕ → ℕ
not64 a = 2 ^ 64 - 1 - a

infixl 75 ◌<<<◌ ◌>>>◌
abbrev pub ◌<<<◌ : ℕ → ℕ → ℕ
x <<< k = x * 2 ^ k

abbrev pub ◌>>>◌ : ℕ → ℕ → ℕ
x >>> k = x / 2 ^ k

-- `0xFFFFFFFFFFFFFFFF >> (64 - k)`
abbrev pub low_mask : ℕ → ℕ
low_mask k = 2 ^ k - 1

-- The bit-field of `width` bits at bit `off`, lowest bits first, and a store into it.
abbrev pub field : ℕ → ℕ → ℕ → ℕ
field off width x = x / 2 ^ off % 2 ^ width

abbrev pub set_field : ℕ → ℕ → ℕ → ℕ → ℕ
set_field off width x v =
    x / 2 ^ (off + width) * 2 ^ (off + width) + v % 2 ^ width * 2 ^ off + x % 2 ^ off
