-- ===== src/Data/Countermode.antt =====
-- `CCDataEncryption` of crypto/cc_encoding.h. A buffer is the list of its bytes.
use c3_simulator.Common.{
  ℕ, zero, suc, ◌+◌, ◌*◌, ◌%◌, ◌^◌, ◌/◌, bit_and, bit_xor, ltb, if◌then◌else◌, List, [], ◌∷◌, ◌++◌,
  length, get_or, u32, add64, ◌<<<◌, ◌>>>◌,
}
use c3_simulator.Data.Ascon.{ascon64b_stream}

-- The words that the loop writes to the mask, with `left` turns at most.
unfoldable pub mask_loop : ℕ → ℕ → ℕ → List ℕ → List ℕ
mask_loop zero la_base la_end key = []
mask_loop (suc left) la_base la_end key =
    let rest = mask_loop left (add64 la_base (2 ^ 3)) la_end key in
    if ltb la_base la_end then ascon64b_stream la_base key ∷ rest else []

-- One turn more than there are bytes is enough, each word being 8 bytes.
unfoldable pub get_countermode_mask : ℕ → List ℕ → ℕ → List ℕ
get_countermode_mask la key size = mask_loop (size + 1) ((la >>> 3) <<< 3) (add64 la size) key

-- Byte `j` of the mask. The source does not initialize the words that the loop has not written, which
-- happens for the last 8 addresses only, where the end of the data wraps: they are 0 here, and what
-- is stated of this file leaves those addresses out.
unfoldable pub mask_byte : List ℕ → ℕ → ℕ
mask_byte mask j = get_or mask (j / 8) 0 / 2 ^ (8 * (j % 8)) % 2 ^ 8

-- The bytes from byte `i` on, each with its byte of the mask.
unfoldable pub xor_loop : List ℕ → ℕ → ℕ → List ℕ → List ℕ
xor_loop mask offset i [] = []
xor_loop mask offset i (x ∷ input) =
    bit_xor x (mask_byte mask (i + offset)) ∷ xor_loop mask offset (i + 1) input

unfoldable pub encrypt_decrypt_bytes : ℕ → List ℕ → List ℕ → List ℕ
encrypt_decrypt_bytes la_encoded key input =
    xor_loop (get_countermode_mask la_encoded key (length input)) (bit_and la_encoded 0x7) 0 input

abbrev pub block_size : ℕ
block_size = 64

-- The first `n` bytes, and the others.
unfoldable pub take : ℕ → List ℕ → List ℕ
take zero xs = []
take (suc n) [] = []
take (suc n) (x ∷ xs) = x ∷ take n xs

unfoldable pub drop : ℕ → List ℕ → List ℕ
drop zero xs = xs
drop (suc n) [] = []
drop (suc n) (x ∷ xs) = drop n xs

-- The loop over the chunks, with `left` turns at most, from byte `i` of the buffer on.
unfoldable pub many_loop : ℕ → ℕ → List ℕ → ℕ → List ℕ → List ℕ
many_loop zero la_encoded key i input = []
many_loop (suc left) la_encoded key i [] = []
many_loop (suc left) la_encoded key i (x ∷ input) =
    encrypt_decrypt_bytes (add64 la_encoded i) key (take block_size (x ∷ input))
    ++ many_loop left la_encoded key (u32 (i + block_size)) (drop block_size (x ∷ input))

unfoldable pub encrypt_decrypt_many_bytes : ℕ → List ℕ → List ℕ → List ℕ
encrypt_decrypt_many_bytes la_encoded key input = many_loop (length input) la_encoded key 0 input
