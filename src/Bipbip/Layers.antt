-- ===== src/Bipbip/Layers.antt =====
-- The layers of crypto/bipbip.cpp on a 24-bit block: `get_bit`, the S-boxes, the bit permutation
-- `BPL`, the linear layer and the key addition. A block is a `uint32_t`.
use c3_simulator.Common.{
  ℕ, zero, suc, ◌-◌, ◌*◌, bit_and, bit_or, bit_xor, List, get_or, u32, u64, ◌<<<◌, ◌>>>◌, low_mask,
}
use c3_simulator.Bipbip.Tables.{sbox_table, sbox_inv_table}

unfoldable pub get_bit : ℕ → ℕ → ℕ
get_bit word position = bit_and (word >>> position) 1

-- The loop of `sbox`, with `i` groups of six bits left.
unfoldable pub sbox_loop : ℕ → List ℕ → ℕ → ℕ → ℕ
sbox_loop state_in table zero state_out = state_out
sbox_loop state_in table (suc i) state_out =
    sbox_loop state_in table i (
      bit_or (u32 (state_out <<< 6)) (get_or table (bit_and (state_in >>> (i * 6)) (low_mask 6)) 0))

unfoldable pub sbox : ℕ → List ℕ → ℕ
unfolding sbox_loop
sbox state_in table = sbox_loop state_in table 4 0

unfoldable pub sbl : ℕ → ℕ
sbl state_in = sbox state_in sbox_table

unfoldable pub sbl_inv : ℕ → ℕ
sbl_inv state_in = sbox state_in sbox_inv_table

-- `(x >> k) | (x << (24 - k))` on `uint32_t`
abbrev pub rot24 : ℕ → ℕ → ℕ
rot24 k x = bit_or (x >>> k) (u32 (x <<< (24 - k)))

unfoldable pub lml1 : ℕ → ℕ
lml1 state_in =
    let x = bit_and state_in (low_mask 24) in
    bit_and (bit_xor (bit_xor x (rot24 2 x)) (rot24 12 x)) (low_mask 24)

unfoldable pub lml1_inv : ℕ → ℕ
lml1_inv state_in =
    let x = bit_and state_in (low_mask 24) in
    let tmp = bit_and (bit_xor (bit_xor x (rot24 2 x)) (rot24 12 x)) (low_mask 24) in
    bit_and (bit_or (tmp >>> 20) (u32 (tmp <<< 4))) (low_mask 24)

-- The loop of `BPL`, with `i` bits left; the state is a `uint64_t`.
unfoldable pub bpl_loop : ℕ → List ℕ → ℕ → ℕ → ℕ
bpl_loop state_in pi zero state_out = state_out
bpl_loop state_in pi (suc i) state_out =
    bpl_loop state_in pi i (bit_or (u64 (state_out <<< 1)) (get_bit state_in (get_or pi i 0)))

unfoldable pub bpl : ℕ → List ℕ → ℕ → ℕ
unfolding bpl_loop get_bit
bpl state_in pi size = bpl_loop state_in pi size 0

unfoldable pub kad : ℕ → ℕ → ℕ
kad block tweak = bit_xor block tweak
