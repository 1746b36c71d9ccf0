-- ===== src/Ca/Fields.antt =====
-- The fields of a CA do not disturb one another: c3lib/c3/generic/ca.h, the stores of
-- crypto/cc_encoding.h.
use c3_simulator.Common.{ℕ, ◌+◌, ◌*◌, ◌/◌, ◌%◌, ◌^◌, ◌≤◌, ◌<◌, ◌≡◌, ◌⊎◌, arith, add64, true}
use c3_simulator.Common.Bits.{bit_or_fields}
use c3_simulator.Ca.Format.{
  PtrMetadata, plaintext, ciphertext_low, ciphertext_high, enc_size, get_ciphertext, is_canonical,
}
use c3_simulator.Ca.Encoding.{store_ciphertext, decorate_ptr, undecorate_ptr}

pub get_ciphertext_lem : (p : ℕ) → get_ciphertext p ≡ ciphertext_high p * 2 ^ 15 + ciphertext_low p
unfolding get_ciphertext
get_ciphertext_lem p = bit_or_fields 15 (ciphertext_high p) (ciphertext_low p) (omega arith)

pub get_ciphertext-lt : (p : ℕ) → get_ciphertext p < 2 ^ 24
get_ciphertext-lt p = omega (arith, get_ciphertext_lem p)

module _ (p : ℕ) (h : p < 2 ^ 64) where
  -- The two stores write the 24 bits of a block, and no other.
  pub store_ciphertext_lem :
      (b : ℕ)
      → b < 2 ^ 24
      → store_ciphertext p b
        ≡ p / 2 ^ 57 * 2 ^ 57
          + b / 2 ^ 15 * 2 ^ 48
          + p / 2 ^ 47 % 2 * 2 ^ 47
          + b % 2 ^ 15 * 2 ^ 32
          + p % 2 ^ 32
  unfolding store_ciphertext
  store_ciphertext_lem b hb = omega arith

  pub decorate_ptr_lem :
      (md : PtrMetadata)
      → decorate_ptr p md
        ≡ p / 2 ^ 63 * 2 ^ 63 + md.size % 2 ^ 6 * 2 ^ 57 + md.version % 2 ^ 9 * 2 ^ 48 + p % 2 ^ 48
  unfolding decorate_ptr
  decorate_ptr_lem md = omega arith

  pub canonical_cases : is_canonical p ≡ true → (p < 2 ^ 47) ⊎ (2 ^ 64 ≤ p + 2 ^ 47)
  unfolding is_canonical
  canonical_cases c = ground arith

  pub store_ciphertext-lt : (b : ℕ) → b < 2 ^ 24 → store_ciphertext p b < 2 ^ 64
  store_ciphertext-lt b hb = omega (arith, store_ciphertext_lem b hb)

  pub get-store : (b : ℕ) → b < 2 ^ 24 → get_ciphertext (store_ciphertext p b) ≡ b
  get-store b hb =
      omega (arith, store_ciphertext_lem b hb, get_ciphertext_lem (store_ciphertext p b))

  pub plaintext-store : (b : ℕ) → b < 2 ^ 24 → plaintext (store_ciphertext p b) ≡ plaintext p
  plaintext-store b hb = omega (arith, store_ciphertext_lem b hb)

  pub enc_size-store : (b : ℕ) → b < 2 ^ 24 → enc_size (store_ciphertext p b) ≡ enc_size p
  enc_size-store b hb = omega (arith, store_ciphertext_lem b hb)

  pub store-get : store_ciphertext p (get_ciphertext p) ≡ p
  store-get =
      omega
        (arith, store_ciphertext_lem (get_ciphertext p) (get_ciphertext-lt p), get_ciphertext_lem p)

  pub plaintext-decorate : (md : PtrMetadata) → plaintext (decorate_ptr p md) ≡ plaintext p
  plaintext-decorate md = omega (arith, decorate_ptr_lem md)

  pub enc_size-decorate : (md : PtrMetadata) → enc_size (decorate_ptr p md) ≡ md.size % 2 ^ 6
  enc_size-decorate md = omega (arith, decorate_ptr_lem md)

  pub decorate_ptr-lt : (md : PtrMetadata) → decorate_ptr p md < 2 ^ 64
  decorate_ptr-lt md = omega (arith, decorate_ptr_lem md)

  pub undecorate-decorate :
      (md : PtrMetadata) → is_canonical p ≡ true → undecorate_ptr (decorate_ptr p md) ≡ p
  unfolding undecorate_ptr
  undecorate-decorate md c = ground (arith, decorate_ptr_lem md, canonical_cases c)

-- Storing over a stored block leaves only the last.
pub store-store :
    (p a b : ℕ)
    → p < 2 ^ 64
    → a < 2 ^ 24
    → b < 2 ^ 24
    → store_ciphertext (store_ciphertext p a) b ≡ store_ciphertext p b
store-store p a b hp ha hb = omega (
  arith,
  store_ciphertext_lem p hp a ha,
  store_ciphertext_lem p hp b hb,
  store_ciphertext_lem (store_ciphertext p a) (store_ciphertext-lt p hp a ha) b hb,
)

decorate-add :
    (p off : ℕ) (md : PtrMetadata)
    → p < 2 ^ 64
    → p % 2 ^ 32 + off < 2 ^ 32
    → decorate_ptr (p + off) md ≡ decorate_ptr p md + off
decorate-add p off md h e =
    omega (arith, decorate_ptr_lem p h md, decorate_ptr_lem (p + off) (omega arith) md)

store-add :
    (p off b : ℕ)
    → p < 2 ^ 64
    → b < 2 ^ 24
    → p % 2 ^ 32 + off < 2 ^ 32
    → store_ciphertext (p + off) b ≡ store_ciphertext p b + off
store-add p off b h hb e =
    omega (arith, store_ciphertext_lem p h b hb, store_ciphertext_lem (p + off) (omega arith) b hb)

-- An offset that carries nothing out of the plaintext can be added before or after the encoding.
pub add-store-decorate :
    (p off b : ℕ) (md : PtrMetadata)
    → p < 2 ^ 64
    → b < 2 ^ 24
    → p % 2 ^ 32 + off < 2 ^ 32
    → add64 (store_ciphertext (decorate_ptr p md) b) off
      ≡ store_ciphertext (decorate_ptr (p + off) md) b
add-store-decorate p off b md hp hb e =
    rw
      (
        decorate-add p off md hp e,
        store-add (decorate_ptr p md) off b (decorate_ptr-lt p hp md) hb room,
      )
      (omega (
        arith,
        store_ciphertext-lt p' (decorate_ptr-lt p hp md) b hb,
        plaintext-store p' (decorate_ptr-lt p hp md) b hb,
        room,
      ))
  where
    p' : ℕ
    p' = decorate_ptr p md

    room : decorate_ptr p md % 2 ^ 32 + off < 2 ^ 32
    room = omega (arith, plaintext-decorate p hp md)

pub get_ciphertext-decorate-add :
    (p off : ℕ) (md : PtrMetadata)
    → p < 2 ^ 64
    → p % 2 ^ 32 + off < 2 ^ 32
    → get_ciphertext (decorate_ptr (p + off) md) ≡ get_ciphertext (decorate_ptr p md)
get_ciphertext-decorate-add p off md h e = omega (
  arith,
  decorate-add p off md h e,
  get_ciphertext_lem (decorate_ptr p md),
  get_ciphertext_lem (decorate_ptr (p + off) md),
  plaintext-decorate p h md,
)
