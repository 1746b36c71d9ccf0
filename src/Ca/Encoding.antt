-- ===== src/Ca/Encoding.antt =====
-- `CCPointerEncodingBase` of crypto/cc_encoding.h. Its state is the pointer cipher, which each call
-- hands on; `none` is a failed assertion of the cipher.
use c3_simulator.Common.{
  ◌>>=◌, ℕ, bit_and, bit_or, ◌==◌, if◌then◌else◌, Option, some, u64, ◌<<<◌, ◌>>>◌,
}
use c3_simulator.Bipbip.Cipher.{PointerCipher, encrypt, decrypt}
use c3_simulator.Ca.Format.{
  PtrMetadata, plaintext, s_prime_bit, plaintext_size, c3_fmask, ca_get_size, get_ciphertext,
  get_tweak_mask, is_encoded_cc_ptr, set_ciphertext_low, set_ciphertext_high, set_enc_size,
  set_version, set_s_extended,
}

unfoldable pub generate_tweak : ℕ → ℕ → ℕ
generate_tweak pointer size =
    let tweak = bit_and (plaintext pointer) (get_tweak_mask size) in
    bit_or tweak (u64 (size <<< plaintext_size))

unfoldable pub get_pointer_metadata : ℕ → PtrMetadata
unfolding ca_get_size
get_pointer_metadata pointer =
    let size = ca_get_size pointer in
    record { size = size; version = 0; adjust = if size == 31 then 1 else 0 }

-- The two stores of a 24-bit block into `ptr`.
unfoldable pub store_ciphertext : ℕ → ℕ → ℕ
store_ciphertext ptr block = set_ciphertext_high (set_ciphertext_low ptr block) (block >>> 15)

unfoldable pub encrypt_ptr : PointerCipher → ℕ → PtrMetadata → Option (ℕ × PointerCipher)
encrypt_ptr c ptr md = do
  (ciphertext, c') ← encrypt c (get_ciphertext ptr) (generate_tweak ptr md.size)
  some (store_ciphertext ptr ciphertext, c')

unfoldable pub decrypt_ptr : PointerCipher → ℕ → Option (ℕ × PointerCipher)
unfolding get_pointer_metadata
decrypt_ptr c ptr = do
  let md = get_pointer_metadata ptr
  (block, c') ← decrypt c (get_ciphertext ptr) (generate_tweak ptr md.size)
  some (store_ciphertext ptr block, c')

unfoldable pub decorate_ptr : ℕ → PtrMetadata → ℕ
decorate_ptr ptr md = set_enc_size (set_version ptr md.version) md.size

unfoldable pub undecorate_ptr : ℕ → ℕ
undecorate_ptr ptr = set_s_extended ptr (if s_prime_bit ptr == 0 then 0 else c3_fmask)

unfoldable pub decode_pointer : PointerCipher → ℕ → Option (ℕ × PointerCipher)
decode_pointer c encoded_pointer = do
  (ptr, c') ← decrypt_ptr c encoded_pointer
  some (undecorate_ptr ptr, c')

unfoldable pub decode_pointer_if_encoded : PointerCipher → ℕ → Option (ℕ × PointerCipher)
decode_pointer_if_encoded c ptr =
    if is_encoded_cc_ptr ptr then decode_pointer c ptr else some (ptr, c)

unfoldable pub encode_pointer : PointerCipher → ℕ → PtrMetadata → Option (ℕ × PointerCipher)
encode_pointer c pointer md = encrypt_ptr c (decorate_ptr pointer md) md
