-- ===== src/Integrity/Failures.antt =====
-- Calls that fail: modules/common/ccsimics/integrity.h.
use c3_simulator.Common.{
  ℕ, ◌+◌, ◌≡◌, ◌≢◌, refl, ap, ap₂, sym, ◌∙◌, Bool, true, false, not, ◌&&◌, ◌||◌, and_false, none,
  some, arith, if_true, if_false, bind_some, bind_none,
}
use c3_simulator.Ca.Format.{is_encoded_cc_ptr}
use c3_simulator.IcvMap.Page.{IcvMap, map_set, map_get}
use c3_simulator.IcvMap.Sparse.{IsWf, map_get-map_set_self}
use c3_simulator.Integrity.Icv.{
  icv_addr, is_icv_preinit_enabled, preinit-icv_addr, preinit-uninitialize,
}
use c3_simulator.Integrity.Machine.{
  Rw, read, write, icv_fail, suppress_none, Simulator, Options, Machine, raise_if, get_icv,
  icv_correct_ca_on_fail, icv_fault_on_write_mismatch, icv_fault_on_read_mismatch,
}
use c3_simulator.Integrity.Check.{
  report_mismatch, get_icv_index, do_icv_correction, correct_access, after_report, unless_skipped,
  on_mismatch, check_icv,
}
use c3_simulator.Integrity.Instructions.{invalidate_icv, pre_init_icv}
use c3_simulator.Integrity.Granule.{mismatch, not_skipped, faulting}
use c3_simulator.Integrity.Step.{faults, faults-fault}
use c3_simulator.Integrity.Access.{IsPhysical, index}
use c3_simulator.Integrity.Invalidate.{PointsTo, decoded_by, invalidate_icv_mismatch}
use c3_simulator.Integrity.Lifecycle.{pre_init_icv_lem, preinitialized}

module _ (sim : Simulator) (o : Options) where
  -- A CA in the place of an address.
  do_icv_correction_ca :
      (i ca : ℕ) (s : Machine)
      → s.icv_enabled ≡ true
      → o.integrity_correct_on_fail ≡ true
      → is_encoded_cc_ptr ca ≡ true
      → do_icv_correction sim o i ca s ≡ none
  unfolding do_icv_correction icv_correct_ca_on_fail get_icv_index
  do_icv_correction_ca i ca s en on is_ca =
      if_false _ (ap not en)
      ∙ if_true _ (ap₂ (λ a b. a && b) en on)
      ∙ bind_none _ (if_false _ (ap not is_ca))

not→false : (b : Bool) → not b ≡ true → b ≡ false
not→false true e = ground arith
not→false false e = refl

report-unfaulted :
    (o : Options) (op : Rw) (s : Machine)
    → faulting o op ≡ false
    → s.faulted ≡ false
    → (report_mismatch o op s).faulted ≡ false
unfolding report_mismatch icv_fault_on_read_mismatch icv_fault_on_write_mismatch
report-unfaulted o read s off none_yet =
    ap₂ (λ a b. s.icv_enabled && a || b) off none_yet
    ∙ ap (λ a. a || false) (and_false s.icv_enabled)
report-unfaulted o write s off none_yet =
    ap₂ (λ a b. s.icv_enabled && a || b) off none_yet
    ∙ ap (λ a. a || false) (and_false s.icv_enabled)

enabled-report :
    (o : Options) (op : Rw) (s : Machine) → (report_mismatch o op s).icv_enabled ≡ s.icv_enabled
unfolding report_mismatch
enabled-report o read s = refl
enabled-report o write s = refl

-- With the checks and the correction of pointers on, the faults for that kind of access off, and no
-- fault suppressed, check_icv fails for every CA whose ICV is not the one that the map holds: the
-- assertion that an address is not a CA fails.
pub check_icv-do_icv_correction :
    (sim : Simulator) (o : Options) (op : Rw) (i ca : ℕ) (m : IcvMap) (s : Machine)
    → s.icv_enabled ≡ true
    → s.icv_map ≡ some m
    → s.suppress_mode ≡ suppress_none
    → o.integrity_correct_on_fail ≡ true
    → faulting o op ≡ false
    → is_encoded_cc_ptr ca ≡ true
    → mismatch m i ca ≡ true
    → check_icv sim o i ca op s ≡ none
unfolding check_icv get_icv mismatch on_mismatch unless_skipped after_report correct_access
    icv_correct_ca_on_fail
check_icv-do_icv_correction sim o op i ca m s en has quiet on off is_ca bad =
    let s0 : Machine = record s { is_icv_correction = false; faulted = false } in
    let s2 : Machine = record (report_mismatch o op s0) { is_icv_failure = true } in
    let en2 : s2.icv_enabled ≡ true = enabled-report o op s0 ∙ en in
    if_false _ (ap not en)
    ∙ bind_some _ (bind_some _ has)
    ∙ if_false _ (not→false _ bad)
    ∙ ap (unless_skipped sim o i ca (map_get m i) op) (not_skipped sim o op ca s0 quiet)
    ∙ if_false _ (report-unfaulted o op s0 off refl)
    ∙ if_true _ (ap₂ (λ a b. a && b) en2 on)
    ∙ bind_none _ (do_icv_correction_ca sim o i ca s2 en2 on is_ca)

-- Where PREINIT is set, the ICV of no CA is the stored one.
flagged-ne : (v ptr : ℕ) → is_icv_preinit_enabled v ≡ true → v ≢ icv_addr ptr
flagged-ne v ptr set e =
    absurd (true≢false (sym set ∙ ap is_icv_preinit_enabled e ∙ preinit-icv_addr ptr))
  where
    true≢false : true ≢ false
    true≢false p = ground arith

-- When a CA points to user space, in a well-formed map that holds its ICV there with no flag set,
-- with the checks enabled, 64-bit translations and the faults for writes on, pre_init_icv succeeds,
-- and after that invalidate_icv with whatever CA that points to the granule leaves the map as it is
-- and raises a fault: a granule with PREINIT set cannot be invalidated.
pub pre_init_icv-invalidate_icv :
    (sim : Simulator) (o : Options) (ca la : ℕ) (m : IcvMap) (s : Machine)
    → PointsTo s ca la
    → s.icv_enabled ≡ true
    → s.icv_map ≡ some m
    → IsWf m
    → IsPhysical sim
    → faulting o write ≡ true
    → map_get m (index sim la) ≡ icv_addr ca
    → (s1 : Machine) × (pre_init_icv sim ca s ≡ some s1)
      × ((ptr la' : ℕ)
          → PointsTo s1 ptr la'
          → index sim la' ≡ index sim la
          → (s2 : Machine) × (invalidate_icv sim o ptr s1 ≡ some s2)
            × (s2.icv_map ≡ s1.icv_map)
            × (faults s2.calls ≡ 1 + faults s1.calls))
unfolding preinitialized icv_fault_on_write_mismatch
pre_init_icv-invalidate_icv sim o ca la m s p en has wf phys on own =
    let i = index sim la in
    let v = map_get m i in
    let m1 = map_set m i (preinitialized v) in
    let s1 : Machine = record (decoded_by s ca la p) { icv_map = some m1 } in
    let flagged : is_icv_preinit_enabled (map_get m1 i) ≡ true =
      ap is_icv_preinit_enabled (map_get-map_set_self m i (preinitialized v) wf)
      ∙ preinit-uninitialize v in
    (
      s1,
      pre_init_icv_lem sim o ca la m s p phys has
          (ap is_icv_preinit_enabled own ∙ preinit-icv_addr ca),
      λ ptr la' q same. (
        raise_if (icv_fault_on_write_mismatch o s1) icv_fail (decoded_by s1 ptr la' q),
        invalidate_icv_mismatch sim o ptr la' m1 s1 q phys refl
            (flagged-ne _ ptr (ap (λ j. is_icv_preinit_enabled (map_get m1 j)) same ∙ flagged)),
        refl,
        faults-fault _ icv_fail s1.calls (ap₂ (λ a b. a && b) en on) ∙ omega arith,
      ),
    )
