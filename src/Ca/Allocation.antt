-- ===== src/Ca/Allocation.antt =====
-- From an allocation to its CA and back: malloc/try_box.h with crypto/cc_encoding.h.
use c3_simulator.Common.{
  ℕ, ◌+◌, ◌-◌, ◌/◌, ◌^◌, ◌≤◌, ◌<◌, ◌≡◌, ap, sym, ◌∙◌, inl, inr, arith, true, some, add64,
}
use c3_simulator.Common.Bits.{SameSlot, SameSlot-between}
use c3_simulator.Bipbip.Cipher.{PointerCipher}
use c3_simulator.Bipbip.Caching.{IsCoherent}
use c3_simulator.Ca.Format.{PtrMetadata, is_canonical}
use c3_simulator.Ca.Encoding.{decode_pointer}
use c3_simulator.Ca.Slots.{Boxes, last_byte, try_box-Boxes}
use c3_simulator.Ca.Decoding.{decode_pointer-encode_pointer}
use c3_simulator.Ca.Isa.{encode_boxed, cc_isa_encptr_sv}

pub last_byte_lem : (p s : ℕ) → 1 ≤ s → p + s ≤ 2 ^ 64 → last_byte p s ≡ p + s - 1
last_byte_lem p s lo h = ground arith

pub user-canonical : (p : ℕ) → p < 2 ^ 47 → is_canonical p ≡ true
unfolding is_canonical
user-canonical p h = ground arith

-- Every byte of a boxed allocation lies in the slot of its first byte.
Boxes-SameSlot :
    (p s off : ℕ) (md md' : PtrMetadata)
    → p + s ≤ 2 ^ 64
    → off < s
    → Boxes p s md md'
    → SameSlot (md'.size - 1) p (p + off)
Boxes-SameSlot p s off md md' h below b =
    SameSlot-between (md'.size - 1) p (p + off) (last_byte p s) (omega arith)
      (omega (arith, last_byte_lem p s (omega arith) h)) b.holds

-- An allocation below 2^47 that one 4 GB slot holds is given a CA, and at each offset inside the
-- allocation any coherent encoder with the same key decodes the CA moved by the offset to the
-- address moved by the offset.
pub cc_isa_encptr_sv-decode :
    (c c2 : PointerCipher) (p s v off : ℕ)
    → IsCoherent c
    → IsCoherent c2
    → c.key_schedule ≡ c2.key_schedule
    → p + s ≤ 2 ^ 47
    → off < s
    → SameSlot 32 p (p + s - 1)
    → (ca : ℕ) × (c' : PointerCipher) × (c2' : PointerCipher) × (cc_isa_encptr_sv c p s v
        ≡ some (ca, c'))
      × (decode_pointer c2 (add64 ca off) ≡ some (p + off, c2'))
unfolding cc_isa_encptr_sv encode_boxed
cc_isa_encptr_sv-decode c c2 p s v off h h2 same user below slot =
    elim (try_box-Boxes p s (record { size = 0; version = 0; adjust = 0 }) (omega arith)) [
      | inl ((md, boxed, b), _) ↦ rw boxed (
          decode_pointer-encode_pointer c c2 p off (record md { version = v }) h h2 same b.lower
            b.upper (omega arith) (omega arith) (Boxes-SameSlot p s off _ md (omega arith) below b)
            (user-canonical (p + off) (omega arith)))
      | inr (_, apart) ↦ absurd (
          apart (slot ∙ ap (λ t. t / 2 ^ 32) (sym (last_byte_lem p s (omega arith) (omega arith)))))
    ]
