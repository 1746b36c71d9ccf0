-- ===== src/Ca/Emulation.antt =====
-- Running the encoding and then the decoding instruction on a register:
-- modules/common/ccsimics/ptrencdec_isa.h.
use c3_simulator.Common.{
  ℕ_discrete, ℕ, ◌+◌, ◌-◌, ◌%◌, ◌/◌, ◌^◌, ◌≤◌, ◌<◌, ◌≡◌, ◌≢◌, refl, ap, sym, ◌∙◌, subst, arith,
  true, if◌then◌else◌, ==_refl, ne→==, some, add64,
}
use c3_simulator.Bipbip.Cipher.{PointerCipher}
use c3_simulator.Bipbip.Inverse.{bip_bip_enc-lt}
use c3_simulator.Bipbip.Caching.{IsCoherent, schedule-AreBlocks}
use c3_simulator.Ca.Format.{
  plaintext, PtrMetadata, enc_size, is_canonical, is_encoded_cc_ptr, get_ciphertext,
}
use c3_simulator.Ca.Encoding.{generate_tweak, decorate_ptr, encode_pointer, decode_pointer}
use c3_simulator.Ca.Fields.{
  plaintext-store, plaintext-decorate, store_ciphertext-lt, enc_size-store, enc_size-decorate,
  decorate_ptr-lt,
}
use c3_simulator.Ca.Decoding.{
  encoded, decoded, encode_pointer_lem, decode_pointer_lem, decoded-encoded_at,
}
use c3_simulator.Ca.Isa.{
  IsaOptions, Cpu, set_gpr, metadata_of, ccptrenc_emulation, ccptrdec_emulation,
}

-- The size that a CA carries.
pub enc_size-encoded :
    (c : PointerCipher) (p : ℕ) (md : PtrMetadata)
    → IsCoherent c
    → p < 2 ^ 64
    → enc_size (encoded c.key_schedule p md) ≡ md.size % 2 ^ 6
unfolding encoded
enc_size-encoded c p md h hp =
    enc_size-store (decorate_ptr p md) (decorate_ptr-lt p hp md) _ (
      bip_bip_enc-lt _ (schedule-AreBlocks c (generate_tweak (decorate_ptr p md) md.size) h)
        (get_ciphertext (decorate_ptr p md)))
    ∙ enc_size-decorate p hp md

pub encoded-lt :
    (c : PointerCipher) (p : ℕ) (md : PtrMetadata)
    → IsCoherent c
    → p < 2 ^ 64
    → encoded c.key_schedule p md < 2 ^ 64
unfolding encoded
encoded-lt c p md h hp = store_ciphertext-lt (decorate_ptr p md) (decorate_ptr-lt p hp md) _ (
    bip_bip_enc-lt _ (schedule-AreBlocks c (generate_tweak (decorate_ptr p md) md.size) h)
      (get_ciphertext (decorate_ptr p md)))

pub is_encoded-of_size : (ca : ℕ) → 1 ≤ enc_size ca → enc_size ca ≤ 33 → is_encoded_cc_ptr ca ≡ true
unfolding is_encoded_cc_ptr
is_encoded-of_size ca lo hi = ground arith

pub plaintext-encoded :
    (c : PointerCipher) (p : ℕ) (md : PtrMetadata)
    → IsCoherent c
    → p < 2 ^ 64
    → plaintext (encoded c.key_schedule p md) ≡ plaintext p
unfolding encoded
plaintext-encoded c p md h hp =
    plaintext-store (decorate_ptr p md) (decorate_ptr-lt p hp md) _ (
      bip_bip_enc-lt _ (schedule-AreBlocks c (generate_tweak (decorate_ptr p md) md.size) h)
        (get_ciphertext (decorate_ptr p md)))
    ∙ plaintext-decorate p hp md

pub is_encoded-encoded :
    (c : PointerCipher) (p : ℕ) (md : PtrMetadata)
    → IsCoherent c
    → p < 2 ^ 64
    → 1 ≤ md.size
    → md.size ≤ 33
    → is_encoded_cc_ptr (encoded c.key_schedule p md) ≡ true
is_encoded-encoded c p md h hp lo hi =
    is_encoded-of_size (encoded c.key_schedule p md) (omega (arith, enc_size-encoded c p md h hp))
      (omega (arith, enc_size-encoded c p md h hp))

pub decoded-encoded :
    (c : PointerCipher) (p : ℕ) (md : PtrMetadata)
    → IsCoherent c
    → p < 2 ^ 64
    → 1 ≤ md.size
    → md.size ≤ 33
    → is_canonical p ≡ true
    → decoded c.key_schedule (encoded c.key_schedule p md) ≡ p
decoded-encoded c p md h hp lo hi canonical =
    let here : p ≡ p + 0 = omega arith in
    let unmoved : encoded c.key_schedule p md ≡ add64 (encoded c.key_schedule p md) 0 =
      omega (arith, encoded-lt c p md h hp) in
    ap (decoded c.key_schedule) unmoved
    ∙ decoded-encoded_at c h md lo hi p 0 hp (omega arith) (ap (λ t. t / 2 ^ (md.size - 1)) here)
        (subst (λ t. is_canonical t ≡ true) here canonical)
    ∙ sym here

set_gpr_self : (gpr : ℕ → ℕ) (r v : ℕ) → set_gpr gpr r v r ≡ v
set_gpr_self gpr r v = ap (λ b. if b then v else gpr r) (==_refl r)

set_gpr_other : (gpr : ℕ → ℕ) (r v q : ℕ) → q ≢ r → set_gpr gpr r v q ≡ gpr q
set_gpr_other gpr r v q ne = ap (λ b. if b then v else gpr q) (ne→== q r ne)

enc_lem :
    (o : IsaOptions) (m : Cpu) (r size_reg v : ℕ) (c' : PointerCipher)
    → o.enable_encoding ≡ true
    → encode_pointer m.cipher (m.gpr r) (metadata_of (m.gpr size_reg)) ≡ some (v, c')
    → ccptrenc_emulation o m r size_reg ≡ some (record { gpr = set_gpr m.gpr r v; cipher = c' })
unfolding ccptrenc_emulation
enc_lem o m r size_reg v c' on e = rw (on, e) refl

dec_lem :
    (o : IsaOptions) (m : Cpu) (r v : ℕ) (c' : PointerCipher)
    → o.enable_decoding ≡ true
    → is_encoded_cc_ptr (m.gpr r) ≡ true
    → decode_pointer m.cipher (m.gpr r) ≡ some (v, c')
    → ccptrdec_emulation o m r ≡ some (record { gpr = set_gpr m.gpr r v; cipher = c' })
unfolding ccptrdec_emulation
dec_lem o m r v c' on is_ca e = rw (on, is_ca, e) refl

restored : (gpr : ℕ → ℕ) (r v q : ℕ) → set_gpr (set_gpr gpr r v) r (gpr r) q ≡ gpr q
restored gpr r v q = elim (ℕ_discrete q r) [
  | yes e ↦
      ap (set_gpr (set_gpr gpr r v) r (gpr r)) e
      ∙ set_gpr_self (set_gpr gpr r v) r (gpr r)
      ∙ sym (ap gpr e)
  | no ne ↦ set_gpr_other (set_gpr gpr r v) r (gpr r) q ne ∙ set_gpr_other gpr r v q ne
]

-- With encoding and decoding enabled and a coherent encoder, on a register that holds a canonical
-- address and another that holds metadata of size 1 to 33, the encoding instruction and then the
-- decoding one succeed, restore the register and leave all the others as they were.
pub ccptrdec_emulation-ccptrenc_emulation :
    (o : IsaOptions) (m : Cpu) (ptr_reg size_reg : ℕ)
    → o.enable_encoding ≡ true
    → o.enable_decoding ≡ true
    → IsCoherent m.cipher
    → m.gpr ptr_reg < 2 ^ 64
    → is_canonical (m.gpr ptr_reg) ≡ true
    → 1 ≤ (metadata_of (m.gpr size_reg)).size
    → (metadata_of (m.gpr size_reg)).size ≤ 33
    → (m1 : Cpu) × (m2 : Cpu) × (ccptrenc_emulation o m ptr_reg size_reg ≡ some m1)
      × (ccptrdec_emulation o m1 ptr_reg ≡ some m2)
      × ((r : ℕ) → m2.gpr r ≡ m.gpr r)
ccptrdec_emulation-ccptrenc_emulation o m ptr_reg size_reg enc dec h hp canonical lo hi =
    let p = m.gpr ptr_reg in
    let md = metadata_of (m.gpr size_reg) in
    let ca = encoded m.cipher.key_schedule p md in
    let e = encode_pointer_lem m.cipher p md h in
    let r = decode_pointer_lem e.0 ca e.2 in
    let m1 : Cpu = record { gpr = set_gpr m.gpr ptr_reg ca; cipher = e.0 } in
    let held : m1.gpr ptr_reg ≡ ca = set_gpr_self m.gpr ptr_reg ca in
    let back : decoded e.0.key_schedule ca ≡ p =
      ap (λ ks. decoded ks ca) e.3 ∙ decoded-encoded m.cipher p md h hp lo hi canonical in
    (
      m1,
      record { gpr = set_gpr m1.gpr ptr_reg p; cipher = r.0 },
      enc_lem o m ptr_reg size_reg ca e.0 enc e.1,
      dec_lem o m1 ptr_reg p r.0 dec
          (ap is_encoded_cc_ptr held ∙ is_encoded-encoded m.cipher p md h hp lo hi)
          (ap (decode_pointer e.0) held ∙ r.1 ∙ ap (λ t. some (t, r.0)) back),
      λ q. restored m.gpr ptr_reg ca q,
    )
