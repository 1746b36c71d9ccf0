-- ===== src/Shadow/Slot.antt =====
-- The CA of an address in the slot of the shadow RIP: modules/common/ccsimics/shadow_rip.h.
use c3_simulator.Common.{
  ℕ, ◌+◌, ◌-◌, ◌*◌, ◌/◌, ◌%◌, ◌^◌, ◌≤◌, ◌<◌, ◌≡◌, refl, ap, ap₂, sym, ◌∙◌, subst, arith, true,
  false, not, ◌==◌, some, if_true, if_false, bind_some, add64, bit_and, bit_or, bit_xor, ==_eq,
  ne→==,
}
use c3_simulator.Common.Bits.{SameSlot}
use native.Mathlib.Nat.{mod-add-div'}
use c3_simulator.Bipbip.Cipher.{PointerCipher}
use c3_simulator.Bipbip.Caching.{IsCoherent}
use c3_simulator.Ca.Format.{PtrMetadata, enc_size, ca_get_size, get_tweak_mask, is_encoded_cc_ptr}
use c3_simulator.Ca.Decoding.{
  encoded, decoded, decode_pointer_lem, enc_size-moved, decoded-encoded_at,
}
use c3_simulator.Ca.Emulation.{
  enc_size-encoded, is_encoded-encoded, is_encoded-of_size, encoded-lt, decoded-encoded,
}
use c3_simulator.Ca.Allocation.{user-canonical}
use c3_simulator.Integrity.Machine.{decode_la}
use c3_simulator.Shadow.State.{RipState, decode_in}
use c3_simulator.Shadow.Fixed.{get_tweak_mask_lem, xor_slot, fixed-offset, encoded-start, slot_lem}
use c3_simulator.Shadow.Replace.{normalize_gsrip, replaced, replace_shadow_rip_by}

pub decode_in_lem :
    (s : RipState) (ca : ℕ)
    → IsCoherent s.core.pointer_encoder
    → s.core.cc_enabled ≡ true
    → (c' : PointerCipher) × (decode_in s ca
        ≡ some (
          decoded s.core.pointer_encoder.key_schedule ca,
          record s { core = record s.core { pointer_encoder = c' } },
        ))
      × IsCoherent c'
      × (c'.key_schedule ≡ s.core.pointer_encoder.key_schedule)
unfolding decode_in decode_la
decode_in_lem s ca h on =
    let (c', e, h', same) = decode_pointer_lem s.core.pointer_encoder ca h in
    (c', bind_some _ (if_true _ on ∙ bind_some _ e), h', same)

whole : (k x : ℕ) → x % 2 ^ k ≡ 0 → x / 2 ^ k * 2 ^ k ≡ x
whole k x start = omega (arith, mod-add-div' x (2 ^ k), start)

module _ (c : PointerCipher) (h : IsCoherent c) (md : PtrMetadata) (lo : 1 ≤ md.size)
    (hi : md.size ≤ 33) (p off : ℕ) (user : p + off < 2 ^ 47) (start : p % 2 ^ (md.size - 1) ≡ 0)
    (inside : off < 2 ^ (md.size - 1)) where
  slot : SameSlot (md.size - 1) p (p + off)
  slot = sym (slot_lem (md.size - 1) p off start inside)

  unfoldable pub slot_ca : ℕ
  slot_ca = encoded c.key_schedule p md

  slot_ca-lt : slot_ca < 2 ^ 64
  unfolding slot_ca
  slot_ca-lt = encoded-lt c p md h (omega arith)

  ca_start : slot_ca % 2 ^ (md.size - 1) ≡ 0
  unfolding slot_ca
  ca_start = encoded-start c p (md.size - 1) md h (omega arith) (omega arith) start

  ca_size : ca_get_size slot_ca ≡ md.size
  unfolding slot_ca ca_get_size
  ca_size = omega (arith, enc_size-encoded c p md h (omega arith))

  ca_size_raw : enc_size slot_ca ≡ md.size
  unfolding slot_ca
  ca_size_raw = omega (arith, enc_size-encoded c p md h (omega arith))

  offset_small : off < 2 ^ 47
  offset_small = omega arith

  -- The slot's start again, from any address in the slot.
  masked :
      (x : ℕ) → x < 2 ^ 64 → SameSlot (md.size - 1) x p → bit_and x (get_tweak_mask md.size) ≡ p
  masked x small same =
      get_tweak_mask_lem md.size x lo hi small
      ∙ ap (λ t. t * 2 ^ (md.size - 1)) same
      ∙ whole (md.size - 1) p start

  -- The CA moved by the offset.
  unfoldable pub new_ca : ℕ
  new_ca = add64 slot_ca off

  new_ca_sum : new_ca ≡ slot_ca + off
  unfolding new_ca slot_ca
  new_ca_sum = omega (arith, slot_ca-lt, ca_size_raw, offset_small)

  new_size : ca_get_size new_ca ≡ md.size
  unfolding new_ca slot_ca ca_get_size
  new_size = enc_size-moved c h md lo hi p off (omega arith) (omega arith) slot

  pub new_is_ca : is_encoded_cc_ptr new_ca ≡ true
  unfolding ca_get_size
  new_is_ca = is_encoded-of_size new_ca (omega (arith, new_size)) (omega (arith, new_size))

  pub back : decoded c.key_schedule new_ca ≡ p + off
  unfolding new_ca slot_ca
  back =
      decoded-encoded_at c h md lo hi p off (omega arith) (omega arith) slot
        (user-canonical (p + off) (omega arith))

  here : decoded c.key_schedule slot_ca ≡ p
  unfolding slot_ca
  here = decoded-encoded c p md h (omega arith) lo hi (user-canonical p (omega arith))

  fixed_ca :
      bit_and slot_ca (get_tweak_mask md.size) ≡ slot_ca / 2 ^ (md.size - 1) * 2 ^ (md.size - 1)
  fixed_ca = get_tweak_mask_lem md.size slot_ca lo hi slot_ca-lt

  pub normalized : normalize_gsrip new_ca ≡ slot_ca
  unfolding normalize_gsrip new_ca
  normalized =
      ap (λ t. bit_and new_ca (get_tweak_mask t)) new_size
      ∙ get_tweak_mask_lem md.size new_ca lo hi (omega arith)
      ∙ ap (λ t. t / 2 ^ (md.size - 1) * 2 ^ (md.size - 1)) new_ca_sum
      ∙ ap (λ t. t * 2 ^ (md.size - 1)) (slot_lem (md.size - 1) slot_ca off ca_start inside)
      ∙ whole (md.size - 1) slot_ca ca_start

  replaced_lem : (s : RipState) → replaced (p + off) slot_ca p s ≡ (new_ca, s)
  unfolding replaced
  replaced_lem s =
      let k = md.size - 1 in
      let at_p = ap (λ t. bit_and p (get_tweak_mask t)) ca_size ∙ masked p (omega arith) refl in
      let at_rip =
        ap (λ t. bit_and (p + off) (get_tweak_mask t)) ca_size
        ∙ masked (p + off) (omega arith) (sym slot) in
      if_false _ (ap not (==_eq _ _ (at_p ∙ sym at_rip)))
      ∙ ap (λ t. (t, s))
          (ap₂ bit_or (ap (λ t. bit_and slot_ca (get_tweak_mask t)) ca_size ∙ fixed_ca) (
              ap (bit_xor (p + off)) at_rip
              ∙ xor_slot k p off (omega arith) (omega arith) start inside)
            ∙ fixed-offset k slot_ca off ca_start inside
            ∙ sym new_ca_sum)

  -- What `replace_shadow_rip` gives in the slot.
  pub replace_lem :
      (s : RipState)
      → s.core.pointer_encoder ≡ c
      → s.core.cc_enabled ≡ true
      → s.gsrip_enabled ≡ true
      → (c' : PointerCipher) × (replace_shadow_rip_by (p + off) slot_ca s
          ≡ some (new_ca, record s { core = record s.core { pointer_encoder = c' } }))
        × IsCoherent c'
        × (c'.key_schedule ≡ c.key_schedule)
  unfolding replace_shadow_rip_by
  replace_lem s same cc_on on =
      let (c', e, h', ks) = decode_in_lem s slot_ca (subst IsCoherent (sym same) h) cc_on in
      let s' : RipState = record s { core = record s.core { pointer_encoder = c' } } in
      let at_start : decoded s.core.pointer_encoder.key_schedule slot_ca ≡ p =
        ap (λ x. decoded x.key_schedule slot_ca) same ∙ here in
      (
        c',
        bind_some _ e
            ∙ ap (λ t. some (replaced (p + off) slot_ca t s')) at_start
            ∙ ap some (replaced_lem s'),
        h',
        ks ∙ ap (λ x. x.key_schedule) same,
      )

  pub is_ca : is_encoded_cc_ptr slot_ca ≡ true
  unfolding slot_ca
  is_ca = is_encoded-encoded c p md h (omega arith) lo hi

  pub nonzero : (slot_ca == 0) ≡ false
  nonzero = ne→== slot_ca 0 (λ e. absurd (omega (arith, e, ca_size_raw)))
