-- ===== src/Shadow/Calls.antt =====
-- The return address of a call, and the way back: modules/common/ccsimics/shadow_rip.h.
use c3_simulator.Common.{
  ℕ, ◌+◌, ◌-◌, ◌^◌, ◌%◌, ◌≤◌, ◌<◌, ◌≡◌, refl, ap, ap₂, sym, ◌∙◌, arith, true, false, not, none,
  some, if_true, if_false, bind_some,
}
use c3_simulator.Bipbip.Cipher.{PointerCipher}
use c3_simulator.Bipbip.Caching.{IsCoherent}
use c3_simulator.Ca.Format.{PtrMetadata}
use c3_simulator.Ca.Decoding.{encoded, decoded}
use c3_simulator.Integrity.Machine.{Simulator, Options}
use c3_simulator.Shadow.State.{RipState, set_shadow_rip, read_ra_at_rsp, write_ra_at_rsp}
use c3_simulator.Shadow.Replace.{
  replace_shadow_rip_by, restore_reg, restore_cp, fix_ra, instruction_after_cb, return_to, emul_ret,
}
use c3_simulator.Shadow.Stack.{ReadsBack, written, read_ra_lem, write_ra_lem, read-written}
use c3_simulator.Shadow.Slot.{
  decode_in_lem, slot_ca, new_ca, replace_lem, new_is_ca, back, normalized,
}

-- A call from the slot of code of the CA `old_gsrip` has pushed a return address `p + off` of the slot;
-- the stack pointer translates to the physical address `pa`.
pub record AfterCall (sim : Simulator) (o : Options) (rsp_id : ℕ) (s : RipState) (p off pa : ℕ)
    (md : PtrMetadata) : Type 0 where
  pub coherent : IsCoherent s.core.pointer_encoder
  pub cc_on : s.core.cc_enabled ≡ true
  pub on : s.gsrip_enabled ≡ true
  pub size_low : 1 ≤ md.size
  pub size_high : md.size ≤ 33
  pub start : p % 2 ^ (md.size - 1) ≡ 0
  pub inside : off < 2 ^ (md.size - 1)
  pub user : p + off < 2 ^ 47
  pub old_gsrip_is : s.old_gsrip ≡ encoded s.core.pointer_encoder.key_schedule p md
  pub pushed : (read_ra_at_rsp sim o (s.gpr rsp_id) s).0 ≡ p + off
  pub translates : sim.logical_to_physical (s.gpr rsp_id) ≡ some pa
  pub is_call : s.need_ra_fixup ≡ true
  pub no_cp : s.need_cp_fixup ≡ false
  pub no_reg : s.reg_fixup ≡ none

module _ (sim : Simulator) (o : Options) (rsp_id : ℕ) (reads : ReadsBack sim) (c : PointerCipher)
    (h : IsCoherent c) (md : PtrMetadata) (lo : 1 ≤ md.size) (hi : md.size ≤ 33) (p off pa : ℕ)
    (user : p + off < 2 ^ 47) (start : p % 2 ^ (md.size - 1) ≡ 0)
    (inside : off < 2 ^ (md.size - 1)) where
  abbrev moved : ℕ
  moved = new_ca c h md lo hi p off user start inside

  abbrev slot : ℕ
  slot = slot_ca c h md lo hi p off user start inside

  moved-lt : moved < 2 ^ 64
  unfolding new_ca
  moved-lt = omega arith

  fix_lem :
      (s : RipState)
      → s.core.pointer_encoder ≡ c
      → AfterCall sim o rsp_id s p off pa md
      → s.old_gsrip ≡ slot
      → (c' : PointerCipher) × (instruction_after_cb sim o rsp_id s
          ≡ some (
              written o
                (s.gpr rsp_id)
                pa
                moved
                (record s { core = record s.core { pointer_encoder = c' } })))
        × IsCoherent c'
        × (c'.key_schedule ≡ c.key_schedule)
  unfolding instruction_after_cb fix_ra restore_cp restore_reg written
  fix_lem s same i old =
      let rsp = s.gpr rsp_id in
      let read = read_ra_lem sim o rsp pa i.translates s in
      let (c', e, h', ks) = replace_lem c h md lo hi p off user start inside s same i.cc_on i.on in
      let s' : RipState = record s { core = record s.core { pointer_encoder = c' } } in
      let s1 = written o rsp pa moved s' in
      (
        c',
        bind_some _ (
              if_true _ i.is_call
              ∙ bind_some _ (
                  ap₂ (λ ra t. replace_shadow_rip_by ra s.old_gsrip t) i.pushed (ap (λ r. r.1) read)
                  ∙ ap (λ g. replace_shadow_rip_by (p + off) g s) old
                  ∙ e)
              ∙ ap (λ x. some (write_ra_at_rsp sim o rsp x s')) refl
              ∙ ap some (write_ra_lem sim o rsp pa i.translates moved s'))
            ∙ ap (λ u. some (restore_reg u.reg_fixup u)) (if_false _ i.no_cp)
            ∙ ap (λ f. some (restore_reg f s1)) i.no_reg,
        h',
        ks,
      )

  ret_lem :
      (s : RipState)
      → IsCoherent s.core.pointer_encoder
      → s.core.pointer_encoder.key_schedule ≡ c.key_schedule
      → s.core.cc_enabled ≡ true
      → s.gsrip_enabled ≡ true
      → sim.logical_to_physical (s.gpr rsp_id) ≡ some pa
      → read_ra_at_rsp sim o (s.gpr rsp_id) s ≡ (moved, s)
      → (s2 : RipState) × (emul_ret sim o rsp_id s ≡ some s2)
        × (s2.gsrip ≡ slot)
        × ((read_ra_at_rsp sim o (s.gpr rsp_id) s2).0 ≡ p + off)
  unfolding emul_ret return_to set_shadow_rip written
  ret_lem s h1 ks cc_on on translates read =
      let rsp = s.gpr rsp_id in
      let (c2, e, _, _) = decode_in_lem s moved h1 cc_on in
      let at = ap (λ t. decoded t moved) ks ∙ back c h md lo hi p off user start inside in
      let s' : RipState = record s { core = record s.core { pointer_encoder = c2 } } in
      let s2 : RipState = set_shadow_rip slot (written o rsp pa (p + off) s') in
      (
        s2,
        if_false _ (ap not on)
            ∙ ap (λ r. return_to sim o rsp_id r.0 r.1) read
            ∙ if_true _ (new_is_ca c h md lo hi p off user start inside)
            ∙ bind_some _ (e ∙ ap (λ t. some (t, s')) at)
            ∙ ap₂ (λ g t. some (set_shadow_rip g t))
                (normalized c h md lo hi p off user start inside)
                (write_ra_lem sim o rsp pa translates (p + off) s'),
        refl,
        ap (λ r. r.0)
            (read-written sim o rsp pa translates (p + off) (set_shadow_rip slot s') (omega arith)
              reads),
      )

-- When a call from the slot of code of the shadow RIP has pushed a return address in the slot,
-- below 2^47, with the shadow RIP enabled and saved, no other fixup due, a coherent and enabled
-- encoder, a stack pointer that translates to physical memory and memory that reads back what was
-- written last, then the callback after the call and the emulation of the return right after it
-- succeed, and give back the shadow RIP of the caller and the return address on the stack.
pub emul_ret-instruction_after_cb :
    (sim : Simulator) (o : Options) (rsp_id : ℕ) (s : RipState) (p off pa : ℕ) (md : PtrMetadata)
    → ReadsBack sim
    → AfterCall sim o rsp_id s p off pa md
    → (s1 : RipState) × (instruction_after_cb sim o rsp_id s ≡ some s1)
      × (s2 : RipState) × (emul_ret sim o rsp_id s1 ≡ some s2)
      × (s2.gsrip ≡ s.old_gsrip)
      × ((read_ra_at_rsp sim o (s.gpr rsp_id) s2).0 ≡ (read_ra_at_rsp sim o (s.gpr rsp_id) s).0)
unfolding written slot_ca
emul_ret-instruction_after_cb sim o rsp_id s p off pa md reads i =
    let c = s.core.pointer_encoder in
    let rsp = s.gpr rsp_id in
    let (c', e, h', ks) =
      fix_lem sim o rsp_id reads c i.coherent md i.size_low i.size_high p off pa i.user i.start
        i.inside s refl i i.old_gsrip_is in
    let to = new_ca c i.coherent md i.size_low i.size_high p off i.user i.start i.inside in
    let s' : RipState = record s { core = record s.core { pointer_encoder = c' } } in
    let small =
      moved-lt sim o rsp_id reads c i.coherent md i.size_low i.size_high p off pa i.user i.start
        i.inside in
    let (s2, e2, gsrip_back, ra_back) =
      ret_lem sim o rsp_id reads c i.coherent md i.size_low i.size_high p off pa i.user i.start
        i.inside (written o rsp pa to s') h' ks i.cc_on i.on i.translates
        (read-written sim o rsp pa i.translates to s' small reads) in
    (written o rsp pa to s', e, s2, e2, gsrip_back ∙ sym i.old_gsrip_is, ra_back ∙ sym i.pushed)
