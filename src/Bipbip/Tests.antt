-- ===== src/Bipbip/Tests.antt =====
-- The theorems on the pointer cipher at concrete keys and blocks: crypto/bipbip.cpp.
use c3_simulator.Common.{ℕ, ◌≡◌, ◌≢◌, ◌↔◌, refl, arith, List, [], ◌∷◌, none, some}
use c3_simulator.Bipbip.Layers.{sbl, sbl_inv}
use c3_simulator.Bipbip.Rounds.{TweakSchedule, bip_bip_enc, bip_bip_dec}
use c3_simulator.Bipbip.Cipher.{PointerCipher, keyed, init_key, key_size_in_bytes, encrypt, decrypt}
use c3_simulator.Bipbip.Substitution.{sbl-sbl_inv}
use c3_simulator.Bipbip.Inverse.{IsBlock, bip_bip_dec-bip_bip_enc, bip_bip_enc-bip_bip_dec}
use c3_simulator.Bipbip.Caching.{
  IsCoherent, keyed-IsCoherent, schedule_of, schedule-AreBlocks, init_key-IsCoherent,
  decrypt-encrypt,
}

abbrev test_key : List ℕ
test_key =
    0xd1 ∷ 0xbe ∷ 0x2c ∷ 0xdb ∷ 0xb5 ∷ 0x82 ∷ 0x4d ∷ 0x03 ∷ 0x17 ∷ 0x5c ∷ 0x25 ∷ 0x2a ∷ 0x20 ∷ 0xb6
    ∷ 0xf2 ∷ 0x93 ∷ 0xfd ∷ 0x01 ∷ 0x96 ∷ 0xe7 ∷ 0xb5 ∷ 0xe6 ∷ 0x88 ∷ 0x1c ∷ 0xb3 ∷ 0x69 ∷ 0x22
    ∷ 0x60 ∷ 0x38 ∷ 0x09 ∷ 0xf6 ∷ 0x68 ∷ []

abbrev test_cipher : PointerCipher
test_cipher = keyed test_key

test_cipher-IsCoherent : IsCoherent test_cipher
test_cipher-IsCoherent = keyed-IsCoherent test_key

abbrev test_schedule : TweakSchedule
test_schedule = schedule_of test_cipher.key_schedule 77

bip_bip_dec-bip_bip_enc_example :
    bip_bip_dec (bip_bip_enc 0x123456 test_schedule) test_schedule ≡ 0x123456
bip_bip_dec-bip_bip_enc_example =
    bip_bip_dec-bip_bip_enc test_schedule (schedule-AreBlocks test_cipher 77 test_cipher-IsCoherent)
      0x123456 (omega arith)

bip_bip_enc-bip_bip_dec_example :
    bip_bip_enc (bip_bip_dec 0x123456 test_schedule) test_schedule ≡ 0x123456
bip_bip_enc-bip_bip_dec_example =
    bip_bip_enc-bip_bip_dec test_schedule (schedule-AreBlocks test_cipher 77 test_cipher-IsCoherent)
      0x123456 (omega arith)

decrypt-encrypt_example :
    (y : ℕ) × (c' : PointerCipher) × (d' : PointerCipher) × (encrypt test_cipher 0x123456 77
      ≡ some (y, c'))
    × IsBlock y
    × (decrypt test_cipher y 77 ≡ some (0x123456, d'))
decrypt-encrypt_example =
    decrypt-encrypt test_cipher test_cipher 0x123456 77 test_cipher-IsCoherent
      test_cipher-IsCoherent refl (omega arith)

init_key-IsCoherent_example :
    ((init_key test_cipher test_key 32 ≡ none) ↔ (32 ≢ key_size_in_bytes))
    × ((c' : PointerCipher) → init_key test_cipher test_key 32 ≡ some c' → IsCoherent c')
init_key-IsCoherent_example = init_key-IsCoherent test_cipher test_key 32

sbl-sbl_inv_example : sbl (sbl_inv 0x123456) ≡ 0x123456
sbl-sbl_inv_example = sbl-sbl_inv 0x123456 (omega arith)
