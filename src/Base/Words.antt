-- ===== src/Base/Words.antt =====
-- `encrypt_decrypt_u64` of modules/common/ccsimics/c3_base_model.h.
use c3_simulator.Common.{ℕ, zero, suc, ◌+◌, ◌*◌, ◌/◌, ◌%◌, ◌^◌, List, [], ◌∷◌, bit_or, ◌<<<◌, u64}
use c3_simulator.Data.Countermode.{encrypt_decrypt_bytes}

-- The first loop: `left` bytes of a word, lowest first.
unfoldable pub bytes_of : ℕ → ℕ → List ℕ
bytes_of zero val = []
bytes_of (suc left) val = val % 2 ^ 8 ∷ bytes_of left (val / 2 ^ 8)

-- The last loop, from byte `i` on.
unfoldable pub u64_of : ℕ → ℕ → List ℕ → ℕ
u64_of i result [] = result
u64_of i result (x ∷ bytes) = u64_of (i + 1) (bit_or result (u64 (x <<< (i * 8)))) bytes

unfoldable pub encrypt_decrypt_u64 : ℕ → ℕ → List ℕ → ℕ
encrypt_decrypt_u64 tweak val k = u64_of 0 0 (encrypt_decrypt_bytes tweak k (bytes_of 8 val))
