-- ===== src/Shadow/Smm.antt =====
-- The way into System Management Mode and back: modules/common/ccsimics/shadow_rip.h.
use c3_simulator.Common.{
  ℕ, ◌+◌, ◌-◌, ◌%◌, ◌^◌, ◌≤◌, ◌<◌, ◌≡◌, refl, ap, ap₂, sym, ◌∙◌, true, not, ◌&&◌, ◌==◌, some,
  if_true, bind_some,
}
use c3_simulator.Bipbip.Cipher.{PointerCipher}
use c3_simulator.Bipbip.Caching.{IsCoherent}
use c3_simulator.Ca.Format.{PtrMetadata, is_encoded_cc_ptr}
use c3_simulator.Ca.Decoding.{encoded, decoded}
use c3_simulator.Shadow.State.{RipState, decode_if_encoded_in, set_shadow_rip}
use c3_simulator.Shadow.Replace.{
  normalize_gsrip, replace_shadow_rip_by, replace_shadow_rip, smm_enter_before_cb,
  smm_leave_after_cb,
}
use c3_simulator.Shadow.Slot.{
  decode_in_lem, slot_ca, new_ca, replace_lem, new_is_ca, is_ca, nonzero, back, normalized,
}

-- The shadow RIP is the CA of a slot of code that starts at `p`, and RIP points into the slot.
pub record InSlot (s : RipState) (p off : ℕ) (md : PtrMetadata) : Type 0 where
  pub coherent : IsCoherent s.core.pointer_encoder
  pub cc_on : s.core.cc_enabled ≡ true
  pub on : s.gsrip_enabled ≡ true
  pub size_low : 1 ≤ md.size
  pub size_high : md.size ≤ 33
  pub start : p % 2 ^ (md.size - 1) ≡ 0
  pub inside : off < 2 ^ (md.size - 1)
  pub user : p + off < 2 ^ 47
  pub gsrip_is : s.gsrip ≡ encoded s.core.pointer_encoder.key_schedule p md
  pub rip_is : s.rip ≡ p + off

module _ (c : PointerCipher) (h : IsCoherent c) (md : PtrMetadata) (lo : 1 ≤ md.size)
    (hi : md.size ≤ 33) (p off : ℕ) (user : p + off < 2 ^ 47) (start : p % 2 ^ (md.size - 1) ≡ 0)
    (inside : off < 2 ^ (md.size - 1)) where
  enter_lem :
      (s : RipState)
      → s.core.pointer_encoder ≡ c
      → s.core.cc_enabled ≡ true
      → s.gsrip_enabled ≡ true
      → s.gsrip ≡ encoded c.key_schedule p md
      → s.rip ≡ p + off
      → (c' : PointerCipher) × (smm_enter_before_cb s
          ≡ some (
              set_shadow_rip 0 (record s {
                core = record s.core { pointer_encoder = c' };
                rip = (new_ca c h md lo hi p off user start inside);
              })))
        × IsCoherent c'
        × (c'.key_schedule ≡ c.key_schedule)
  unfolding smm_enter_before_cb replace_shadow_rip slot_ca
  enter_lem s same cc_on on gsrip_is rip_is =
      let (c', e, h', ks) = (replace_lem c h md lo hi p off user start inside) s same cc_on on in
      (
        c',
        bind_some _ (
            if_true _ (
              ap₂ (λ a g. a && not (g == 0)) on gsrip_is
              ∙ ap not (nonzero c h md lo hi p off user start inside))
            ∙ if_true _
                (ap is_encoded_cc_ptr gsrip_is ∙ (is_ca c h md lo hi p off user start inside))
            ∙ ap₂ (λ r g. replace_shadow_rip_by r g s) rip_is gsrip_is
            ∙ e),
        h',
        ks,
      )

  leave_lem :
      (s : RipState)
      → IsCoherent s.core.pointer_encoder
      → s.core.pointer_encoder.key_schedule ≡ c.key_schedule
      → s.core.cc_enabled ≡ true
      → s.rip ≡ (new_ca c h md lo hi p off user start inside)
      → (s2 : RipState) × (smm_leave_after_cb s ≡ some s2)
        × (s2.rip ≡ p + off)
        × (s2.gsrip ≡ (slot_ca c h md lo hi p off user start inside))
  unfolding smm_leave_after_cb decode_if_encoded_in set_shadow_rip
  leave_lem s h1 ks cc_on rip_is =
      let (c2, e, _, _) = decode_in_lem s s.rip h1 cc_on in
      let is : is_encoded_cc_ptr s.rip ≡ true =
        ap is_encoded_cc_ptr rip_is ∙ (new_is_ca c h md lo hi p off user start inside) in
      (
        _,
        bind_some _ (if_true _ is ∙ e),
        ap₂ decoded ks rip_is ∙ (back c h md lo hi p off user start inside),
        if_true 0 is
            ∙ ap normalize_gsrip rip_is
            ∙ (normalized c h md lo hi p off user start inside),
      )

-- When the shadow RIP is enabled and is the CA of a slot of code, RIP points into the slot below
-- 2^47, and the encoder is coherent and enabled, then entering SMM succeeds and puts the shadow RIP
-- to 0, and leaving it after that succeeds and restores RIP and the shadow RIP.
pub smm_leave_after_cb-smm_enter_before_cb :
    (s : RipState) (p off : ℕ) (md : PtrMetadata)
    → InSlot s p off md
    → (s1 : RipState) × (smm_enter_before_cb s ≡ some s1)
      × (s1.gsrip ≡ 0)
      × (s2 : RipState) × (smm_leave_after_cb s1 ≡ some s2)
      × (s2.rip ≡ s.rip)
      × (s2.gsrip ≡ s.gsrip)
unfolding set_shadow_rip slot_ca
smm_leave_after_cb-smm_enter_before_cb s p off md i =
    let c = s.core.pointer_encoder in
    let (c', e, h', ks) =
      enter_lem c i.coherent md i.size_low i.size_high p off i.user i.start i.inside s refl i.cc_on
        i.on i.gsrip_is i.rip_is in
    let s1 : RipState = set_shadow_rip 0 (record s {
      core = record s.core { pointer_encoder = c' };
      rip = new_ca c i.coherent md i.size_low i.size_high p off i.user i.start i.inside;
    }) in
    let (s2, e2, rip2, gsrip2) =
      leave_lem c i.coherent md i.size_low i.size_high p off i.user i.start i.inside s1 h' ks
        i.cc_on refl in
    (s1, e, refl, s2, e2, rip2 ∙ sym i.rip_is, gsrip2 ∙ sym i.gsrip_is)
