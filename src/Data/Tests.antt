-- ===== src/Data/Tests.antt =====
-- The theorems on data encryption at a concrete buffer: crypto/cc_encoding.h.
use c3_simulator.Common.{ℕ, ◌≡◌, arith, List, [], ◌∷◌}
use c3_simulator.Data.Countermode.{encrypt_decrypt_many_bytes}
use c3_simulator.Data.Stream.{
  stream_xor, AreBytes, encrypt_decrypt_many_bytes-stream, encrypt_decrypt_many_bytes-twice,
}

abbrev test_key : List ℕ
test_key =
    0xb5 ∷ 0x82 ∷ 0x4d ∷ 0x03 ∷ 0x17 ∷ 0x5c ∷ 0x25 ∷ 0x2a ∷ 0x20 ∷ 0xb6 ∷ 0xf2 ∷ 0x93 ∷ 0xfd ∷ 0x01
    ∷ 0x96 ∷ 0xe7 ∷ []

abbrev test_bytes : List ℕ
test_bytes = 1 ∷ 2 ∷ 3 ∷ 4 ∷ 5 ∷ 6 ∷ 7 ∷ 8 ∷ 9 ∷ 10 ∷ []

test_bytes-AreBytes : AreBytes test_bytes
unfolding AreBytes
test_bytes-AreBytes = search arith depth 30

encrypt_decrypt_many_bytes-stream_example :
    encrypt_decrypt_many_bytes 0x1005 test_key test_bytes ≡ stream_xor test_key 0x1005 test_bytes
encrypt_decrypt_many_bytes-stream_example =
    encrypt_decrypt_many_bytes-stream 0x1005 test_key test_bytes (omega arith) (omega arith)

encrypt_decrypt_many_bytes-twice_example :
    encrypt_decrypt_many_bytes 0x1005 test_key
      (encrypt_decrypt_many_bytes 0x1005 test_key test_bytes)
    ≡ test_bytes
encrypt_decrypt_many_bytes-twice_example =
    encrypt_decrypt_many_bytes-twice 0x1005 test_key test_bytes (omega arith) (omega arith)
      test_bytes-AreBytes
