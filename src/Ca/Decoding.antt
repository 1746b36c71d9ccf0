-- ===== src/Ca/Decoding.antt =====
-- Decoding a CA gives back the linear address that was encoded, and pointer arithmetic inside the
-- slot commutes with it: crypto/cc_encoding.h.
use c3_simulator.Common.{
  ℕ, ◌+◌, ◌-◌, ◌*◌, ◌/◌, ◌%◌, ◌^◌, ◌≤◌, ◌<◌, ◌≡◌, ap, sym, ◌∙◌, subst, arith, bit_and, bit_or, true,
  some, add64, u64, ◌<<<◌,
}
use c3_simulator.Common.Bits.{SameSlot, SameSlot-mod, SameSlot-coarser, bit_and_high}
use c3_simulator.Bipbip.Rounds.{TweakSchedule, bip_bip_enc, bip_bip_dec}
use c3_simulator.Bipbip.Schedule.{KeySchedule}
use c3_simulator.Bipbip.Cipher.{PointerCipher}
use c3_simulator.Bipbip.Inverse.{bip_bip_dec-bip_bip_enc, bip_bip_enc-lt}
use c3_simulator.Bipbip.Caching.{
  IsCoherent, schedule_of, encrypt_lem, decrypt_lem, schedule-AreBlocks,
}
use c3_simulator.Ca.Format.{
  PtrMetadata, plaintext, enc_size, get_ciphertext, get_tweak_mask, is_canonical,
}
use c3_simulator.Ca.Encoding.{
  generate_tweak, store_ciphertext, encrypt_ptr, decrypt_ptr, decorate_ptr, undecorate_ptr,
  decode_pointer, encode_pointer,
}
use c3_simulator.Ca.Fields.{
  get_ciphertext-lt, get-store, plaintext-store, enc_size-store, store-get, plaintext-decorate,
  enc_size-decorate, decorate_ptr-lt, undecorate-decorate, store-store, add-store-decorate,
  get_ciphertext-decorate-add,
}

-- The CA that a coherent cipher makes of `p`, and what it reads from a CA.
module _ (ks : KeySchedule) where
  unfoldable pub encoded : ℕ → PtrMetadata → ℕ
  encoded p md =
      let d = decorate_ptr p md in
      store_ciphertext d
        (bip_bip_enc (get_ciphertext d) (schedule_of ks (generate_tweak d md.size)))

  pub decoded : ℕ → ℕ
  decoded ca = undecorate_ptr (
      store_ciphertext ca
        (bip_bip_dec (get_ciphertext ca) (schedule_of ks (generate_tweak ca (enc_size ca)))))

pub encode_pointer_lem :
    (c : PointerCipher) (p : ℕ) (md : PtrMetadata)
    → IsCoherent c
    → (c' : PointerCipher) × (encode_pointer c p md ≡ some (encoded c.key_schedule p md, c'))
      × IsCoherent c'
      × (c'.key_schedule ≡ c.key_schedule)
unfolding encode_pointer encrypt_ptr encoded
encode_pointer_lem c p md h =
    let d = decorate_ptr p md in
    let e = encrypt_lem c (get_ciphertext d) (generate_tweak d md.size) h in (e.0, rw e.1, e.2, e.3)

pub decode_pointer_lem :
    (c : PointerCipher) (ca : ℕ)
    → IsCoherent c
    → (c' : PointerCipher) × (decode_pointer c ca ≡ some (decoded c.key_schedule ca, c'))
      × IsCoherent c'
      × (c'.key_schedule ≡ c.key_schedule)
unfolding decode_pointer decrypt_ptr decoded
decode_pointer_lem c ca h =
    let e = decrypt_lem c (get_ciphertext ca) (generate_tweak ca (enc_size ca)) h in
    (e.0, rw e.1, e.2, e.3)

-- The bits of the plaintext that the tweak takes in are those above the slot's offset.
generate_tweak-SameSlot :
    (a b size : ℕ)
    → 1 ≤ size
    → size < 64
    → SameSlot (size - 1) (plaintext a) (plaintext b)
    → generate_tweak a size ≡ generate_tweak b size
unfolding generate_tweak get_tweak_mask
generate_tweak-SameSlot a b size lo hi h =
    ap (λ t. bit_or t (u64 (size <<< 32)))
      (masked a ∙ ap (λ t. t * 2 ^ ((size + 63) % 64)) moved ∙ sym (masked b))
  where
    masked :
        (x : ℕ)
        → bit_and (plaintext x) (u64 (0xFFFFFFFFFFFFFFFF <<< ((size + 63) % 64)))
          ≡ plaintext x / 2 ^ ((size + 63) % 64) * 2 ^ ((size + 63) % 64)
    masked x = bit_and_high ((size + 63) % 64) (plaintext x) (omega arith) (omega arith)

    moved : SameSlot ((size + 63) % 64) (plaintext a) (plaintext b)
    moved =
        let e : size - 1 ≡ (size + 63) % 64 = omega arith in
        subst (λ k. SameSlot k (plaintext a) (plaintext b)) e h

module _ (c : PointerCipher) (h : IsCoherent c) (md : PtrMetadata) (lo : 1 ≤ md.size)
    (hi : md.size ≤ 33) (p off : ℕ) (hp : p < 2 ^ 64) (hq : p + off < 2 ^ 64)
    (slot : SameSlot (md.size - 1) p (p + off)) where
  d : ℕ
  d = decorate_ptr p md

  e : ℕ
  e = decorate_ptr (p + off) md

  ts : TweakSchedule
  ts = schedule_of c.key_schedule (generate_tweak d md.size)

  block : ℕ
  block = bip_bip_enc (get_ciphertext d) ts

  block-lt : block < 2 ^ 24
  unfolding block ts
  block-lt = bip_bip_enc-lt _ (schedule-AreBlocks c _ h) _

  room : p % 2 ^ 32 + off < 2 ^ 32
  room = omega (arith, SameSlot-coarser (md.size - 1) 32 p (p + off) (omega arith) hp hq slot)

  moved_ca : add64 (encoded c.key_schedule p md) off ≡ store_ciphertext e block
  unfolding encoded block ts d e
  moved_ca = add-store-decorate p off block md hp block-lt room

  size_read : enc_size (store_ciphertext e block) ≡ md.size
  unfolding e
  size_read =
      enc_size-store e (decorate_ptr-lt (p + off) hq md) block block-lt
      ∙ enc_size-decorate (p + off) hq md
      ∙ omega arith

  plaintext_read : plaintext (store_ciphertext e block) ≡ (p + off) % 2 ^ 32
  unfolding e
  plaintext_read = omega (
    arith,
    plaintext-store e (decorate_ptr-lt (p + off) hq md) block block-lt,
    plaintext-decorate (p + off) hq md,
  )

  plaintext_written : plaintext d ≡ p % 2 ^ 32
  unfolding d
  plaintext_written = omega (arith, plaintext-decorate p hp md)

  tweak_read : generate_tweak (store_ciphertext e block) md.size ≡ generate_tweak d md.size
  tweak_read = generate_tweak-SameSlot (store_ciphertext e block) d md.size lo (omega arith) (
      rw (plaintext_read, plaintext_written)
        (sym (SameSlot-mod (md.size - 1) 32 p (p + off) (omega arith) slot)))

  stored_read : get_ciphertext (store_ciphertext e block) ≡ block
  unfolding e
  stored_read = get-store e (decorate_ptr-lt (p + off) hq md) block block-lt

  block_back : bip_bip_dec block ts ≡ get_ciphertext d
  unfolding block ts
  block_back =
      bip_bip_dec-bip_bip_enc _ (schedule-AreBlocks c _ h) (get_ciphertext d) (get_ciphertext-lt d)

  same_block : get_ciphertext d ≡ get_ciphertext e
  unfolding d e
  same_block = sym (get_ciphertext-decorate-add p off md hp room)

  -- What `decrypt_ptr` reads from the moved CA, its size field included.
  block_read :
      bip_bip_dec (get_ciphertext (store_ciphertext e block)) (
        schedule_of c.key_schedule
          (generate_tweak (store_ciphertext e block) (enc_size (store_ciphertext e block))))
      ≡ get_ciphertext e
  unfolding ts
  block_read =
      ap
        (λ t.
          bip_bip_dec (get_ciphertext (store_ciphertext e block))
            (schedule_of c.key_schedule (generate_tweak (store_ciphertext e block) t)))
        size_read
      ∙ ap
          (λ t.
            bip_bip_dec (get_ciphertext (store_ciphertext e block)) (schedule_of c.key_schedule t))
          tweak_read
      ∙ ap (λ t. bip_bip_dec t ts) stored_read
      ∙ block_back
      ∙ same_block

  restored :
      undecorate_ptr (store_ciphertext (store_ciphertext e block) (get_ciphertext e))
      ≡ undecorate_ptr e
  unfolding e
  restored = ap undecorate_ptr (
      store-store e block (get_ciphertext e) (decorate_ptr-lt (p + off) hq md) block-lt
        (get_ciphertext-lt e)
      ∙ store-get e (decorate_ptr-lt (p + off) hq md))

  -- The moved CA has the size that was encoded.
  pub enc_size-moved : enc_size (add64 (encoded c.key_schedule p md) off) ≡ md.size
  enc_size-moved = ap enc_size moved_ca ∙ size_read

  -- Decoding the CA moved by `off` bytes inside its slot gives the address moved by `off` bytes.
  pub decoded-encoded_at :
      is_canonical (p + off) ≡ true
      → decoded c.key_schedule (add64 (encoded c.key_schedule p md) off) ≡ p + off
  unfolding decoded e
  decoded-encoded_at canonical =
      ap (decoded c.key_schedule) moved_ca
      ∙ ap (λ t. undecorate_ptr (store_ciphertext (store_ciphertext e block) t)) block_read
      ∙ restored
      ∙ undecorate-decorate (p + off) hq md canonical

-- A coherent encoder encodes any 64-bit address under metadata of size 1 to 33, and from the CA
-- moved by some bytes any coherent encoder with the same key decodes the address moved by as many,
-- so long as that address is canonical and in the slot of 2^(size - 1) bytes.
pub decode_pointer-encode_pointer :
    (c c2 : PointerCipher) (p off : ℕ) (md : PtrMetadata)
    → IsCoherent c
    → IsCoherent c2
    → c.key_schedule ≡ c2.key_schedule
    → 1 ≤ md.size
    → md.size ≤ 33
    → p < 2 ^ 64
    → p + off < 2 ^ 64
    → SameSlot (md.size - 1) p (p + off)
    → is_canonical (p + off) ≡ true
    → (ca : ℕ) × (c' : PointerCipher) × (c2' : PointerCipher) × (encode_pointer c p md
        ≡ some (ca, c'))
      × (decode_pointer c2 (add64 ca off) ≡ some (p + off, c2'))
decode_pointer-encode_pointer c c2 p off md h h2 same lo hi hp hq slot canonical =
    let e = encode_pointer_lem c p md h in
    let r = decode_pointer_lem c2 (add64 (encoded c.key_schedule p md) off) h2 in
    (
      encoded c.key_schedule p md,
      e.0,
      r.0,
      e.1,
      r.1
          ∙ ap (λ ks. some (decoded ks (add64 (encoded c.key_schedule p md) off), r.0)) (sym same)
          ∙ ap (λ t. some (t, r.0)) (decoded-encoded_at c h md lo hi p off hp hq slot canonical),
    )
