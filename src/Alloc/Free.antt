-- ===== src/Alloc/Free.antt =====
-- What free does with a pointer from malloc: malloc/cc_malloc.c.
use c3_simulator.Common.{
  ℕ, ◌+◌, ◌-◌, ◌/◌, ◌^◌, ◌≤◌, ◌≡◌, ◌≢◌, refl, ap, sym, ◌∙◌, inl, inr, arith, true, false, ne→==,
  some,
}
use c3_simulator.Common.Bits.{SameSlot}
use c3_simulator.Bipbip.Cipher.{PointerCipher}
use c3_simulator.Bipbip.Caching.{IsCoherent}
use c3_simulator.Ca.Format.{PtrMetadata, is_encoded_cc_ptr}
use c3_simulator.Ca.Boxing.{try_box}
use c3_simulator.Ca.Encoding.{encode_pointer, decode_pointer}
use c3_simulator.Ca.Slots.{try_box-Boxes}
use c3_simulator.Ca.Decoding.{encoded, decoded, encode_pointer_lem, decode_pointer_lem}
use c3_simulator.Ca.Emulation.{is_encoded-encoded, decoded-encoded}
use c3_simulator.Ca.Allocation.{last_byte_lem, user-canonical}
use c3_simulator.Alloc.Heap.{
  HeapEnv, Allocator, allocated, log, cc_pre_real_free_clear_icv, assign_version,
}
use c3_simulator.Alloc.Quarantine.{quarantine_insert}
use c3_simulator.Alloc.Entry.{
  encode_if_boxed, setup_icv_for_alloc, allocate, cc_malloc_encoded, decode_if_encoded,
  cc_free_encoded,
}

free_lem :
    (env : HeapEnv) (s : Allocator) (ca p : ℕ) (c : PointerCipher)
    → is_encoded_cc_ptr ca ≡ true
    → decode_pointer s.pointer_encoder ca ≡ some (p, c)
    → cc_free_encoded env s ca
      ≡ some (
          quarantine_insert env
            (cc_pre_real_free_clear_icv env (record s { pointer_encoder = c }) p)
            p)
unfolding cc_free_encoded decode_if_encoded
free_lem env s ca p c is_ca e = rw (is_ca, e) refl

encode_lem :
    (s : Allocator) (p ca : ℕ) (md : PtrMetadata) (c : PointerCipher)
    → encode_pointer s.pointer_encoder p (record md { version = s.curr_version }) ≡ some (ca, c)
    → encode_if_boxed s p (some md)
      ≡ some (ca, record ((assign_version s md).1) { pointer_encoder = c })
unfolding encode_if_boxed assign_version
encode_lem s p ca md c e = rw e refl

abbrev no_metadata : PtrMetadata
no_metadata = record { size = 0; version = 0; adjust = 0 }

-- The state after the call of the real allocator, and what that returned.
module _ (env : HeapEnv) (s : Allocator) (size : ℕ) where
  abbrev pub new_ptr : ℕ
  new_ptr = env.real_malloc s.calls size

  abbrev pub asked : Allocator
  asked = log s (allocated size new_ptr)

  abbrev pub usable : ℕ
  usable = env.malloc_usable_size asked.calls new_ptr

  malloc_lem :
      (ca : ℕ) (s' : Allocator)
      → new_ptr ≢ 0
      → encode_if_boxed asked new_ptr (try_box new_ptr usable no_metadata) ≡ some (ca, s')
      → cc_malloc_encoded env s size ≡ some (ca, setup_icv_for_alloc s' ca usable false)
  unfolding cc_malloc_encoded allocate
  malloc_lem ca s' ne e = rw (ne→== new_ptr 0 ne, e) refl

encoder-setup :
    (s : Allocator) (ca n : ℕ)
    → (setup_icv_for_alloc s ca n false).pointer_encoder ≡ s.pointer_encoder
unfolding setup_icv_for_alloc
encoder-setup s ca n = refl

-- When the real allocator returns memory below 2^47 that is not empty and that one 4 GB slot holds,
-- malloc with a coherent encoder gives a CA, and free of that CA afterwards takes the pointer of
-- the real allocator to the quarantine, its ICVs being reset first.
pub cc_free_encoded-cc_malloc_encoded :
    (env : HeapEnv) (s : Allocator) (size : ℕ)
    → IsCoherent s.pointer_encoder
    → new_ptr env s size ≢ 0
    → 1 ≤ usable env s size
    → new_ptr env s size + usable env s size ≤ 2 ^ 47
    → SameSlot 32 (new_ptr env s size) (new_ptr env s size + usable env s size - 1)
    → (ca : ℕ) × (s' : Allocator) × (c : PointerCipher) × (cc_malloc_encoded env s size
        ≡ some (ca, s'))
      × (is_encoded_cc_ptr ca ≡ true)
      × (cc_free_encoded env s' ca
          ≡ some (
              quarantine_insert env
                (cc_pre_real_free_clear_icv env
                  (record s' { pointer_encoder = c })
                  (new_ptr env s size))
                (new_ptr env s size)))
cc_free_encoded-cc_malloc_encoded env s size h ne lo hi slot =
    let p = new_ptr env s size in
    let n = usable env s size in
    elim (try_box-Boxes p n no_metadata (omega arith)) [
      | inr (_, apart) ↦
          absurd (apart (slot ∙ ap (λ t. t / 2 ^ 32) (sym (last_byte_lem p n lo (omega arith)))))
      | inl ((md, boxed, b), _) ↦
          let md' : PtrMetadata = record md { version = s.curr_version } in
          let e = encode_pointer_lem s.pointer_encoder p md' h in
          let ca = encoded s.pointer_encoder.key_schedule p md' in
          let s1 : Allocator = record ((assign_version (asked env s size) md).1) {
            pointer_encoder = e.0;
          } in
          let r = decode_pointer_lem e.0 ca e.2 in
          let back : decoded e.0.key_schedule ca ≡ p =
            ap (λ ks. decoded ks ca) e.3
            ∙ decoded-encoded s.pointer_encoder p md' h (omega arith) b.lower b.upper
                (user-canonical p (omega arith)) in
          let is_ca = is_encoded-encoded s.pointer_encoder p md' h (omega arith) b.lower b.upper in
          (
            ca,
            setup_icv_for_alloc s1 ca n false,
            r.0,
            malloc_lem env s size ca s1 ne (
                ap (encode_if_boxed (asked env s size) p) boxed
                ∙ encode_lem (asked env s size) p ca md e.0 e.1),
            is_ca,
            free_lem env (setup_icv_for_alloc s1 ca n false) ca p r.0 is_ca (
                ap (λ c. decode_pointer c ca) (encoder-setup s1 ca n)
                ∙ r.1
                ∙ ap (λ t. some (t, r.0)) back),
          )
    ]
