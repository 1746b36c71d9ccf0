-- ===== src/Integrity/Granule.antt =====
-- What one check of a granule does when the checks are on, no pointer is corrected and no fault is
-- suppressed: modules/common/ccsimics/integrity.h.
use c3_simulator.Common.{
  ℕ, ◌≡◌, refl, ap, ap₂, sym, ◌∙◌, inl, inr, Bool, true, false, not, ◌==◌, if◌then◌else◌, Option,
  some, Bool-cases, if_true, if_false, bind_some, ◌||◌, ◌&&◌,
}
use c3_simulator.Ca.Format.{is_encoded_cc_ptr}
use c3_simulator.IcvMap.Page.{IcvMap, map_set, map_get}
use c3_simulator.Integrity.Icv.{
  icv_addr, icv_initialize, is_icv_uninitialized, is_icv_preinit_enabled,
}
use c3_simulator.Integrity.Machine.{
  Rw, read, write, suppress_none, break_simulation, cwe457, Simulator, Options, Machine,
  record_call_if, raise_if, get_icv, store_icv, icv_fault_on_read_mismatch,
  icv_fault_on_write_mismatch, icv_break_on_read_mismatch,
}
use c3_simulator.Integrity.Check.{
  this_icv, is_none, should_skip_icv_check, report_mismatch, preinit_logic, not_corrected,
  on_mismatch, check_icv, unless_skipped, after_report,
}

-- The state in which an access is checked against the map `m`.
pub record Checking (o : Options) (s : Machine) (m : IcvMap) : Type 0 where
  pub enabled : s.icv_enabled ≡ true
  pub locked : s.icv_lock ≡ true
  pub has_map : s.icv_map ≡ some m
  pub unsuppressed : s.suppress_mode ≡ suppress_none
  pub uncorrected : o.integrity_correct_on_fail ≡ false

-- The ICV of the access with `ca` is not the one that granule `i` holds.
unfoldable pub mismatch : IcvMap → ℕ → ℕ → Bool
mismatch m i ca = not (icv_addr (this_icv ca) == icv_addr (map_get m i))

-- The map after the access: a write initializes the granule where PREINIT is set.
unfoldable pub marked : Rw → IcvMap → ℕ → IcvMap
marked read m i = m
marked write m i =
    if is_icv_preinit_enabled (map_get m i) then map_set m i (icv_initialize (map_get m i)) else m

module _ (o : Options) where
  -- The state after the two ICVs are compared.
  unfoldable pub settled : Rw → Bool → Machine → Machine
  settled op true s = report_mismatch o op (record s { is_icv_correction = false; faulted = false })
  settled op false s = record s {
    is_icv_correction = false;
    is_icv_failure = false;
    faulted = false;
  }

  unfoldable pub uninitialized_read : Machine → Machine
  uninitialized_read s =
      raise_if (icv_fault_on_read_mismatch o s) cwe457
        (record_call_if (icv_break_on_read_mismatch o s) (break_simulation cwe457) s)

  -- The state after the flags of the granule are looked at.
  unfoldable pub finished : Rw → IcvMap → ℕ → Machine → Machine
  finished write m i s = record s { icv_map = some (marked write m i) }
  finished read m i s = record s {
    calls = if is_icv_uninitialized (map_get m i) then (uninitialized_read s).calls else s.calls;
    faulted =
        if is_icv_uninitialized (map_get m i) then (uninitialized_read s).faulted else s.faulted;
  }

  -- The state after the check, by whether the ICVs differ: a fault on a mismatch ends it.
  unfoldable pub checked : Rw → Bool → IcvMap → ℕ → Machine → Machine
  checked op true m i s = settled op true s
  checked op false m i s = finished op m i (settled op false s)

  preinit_logic_lem :
      (op : Rw) (i : ℕ) (m : IcvMap) (s : Machine)
      → s.icv_map ≡ some m
      → preinit_logic o i (map_get m i) op s ≡ some (finished op m i s)
  unfolding preinit_logic finished marked store_icv uninitialized_read
  preinit_logic_lem read i m s has =
      elim (is_icv_uninitialized (map_get m i))
        as (λ b.
          some (if b then uninitialized_read s else s)
          ≡ some (record s {
            calls = if b then (uninitialized_read s).calls else s.calls;
            faulted = if b then (uninitialized_read s).faulted else s.faulted;
          })) [ true ↦ refl | false ↦ refl ]
  preinit_logic_lem write i m s has = elim (Bool-cases (is_icv_preinit_enabled (map_get m i))) [
    | inl e ↦ rw (e, has) refl
    | inr e ↦ rw e (ap (λ x. some (record s { icv_map = x })) has)
  ]

-- The option to fault on a mismatch.
abbrev pub faulting : Options → Rw → Bool
faulting o read = o.integrity_fault_on_read_mismatch
faulting o write = o.integrity_fault_on_write_mismatch

pub report-faulted :
    (o : Options) (op : Rw) (s : Machine)
    → s.icv_enabled ≡ true
    → faulting o op ≡ true
    → (report_mismatch o op s).faulted ≡ true
unfolding report_mismatch icv_fault_on_read_mismatch icv_fault_on_write_mismatch
report-faulted o read s en on = ap₂ (λ a b. a && b || s.faulted) en on
report-faulted o write s en on = ap₂ (λ a b. a && b || s.faulted) en on

module _ (sim : Simulator) (o : Options) where
  not_corrected_lem :
      (r : Option Machine) (s : Machine) → r ≡ some s → not_corrected r ≡ some (false, s)
  unfolding not_corrected
  not_corrected_lem r s e = bind_some _ e

  pub not_skipped :
      (op : Rw) (ca : ℕ) (s : Machine)
      → s.suppress_mode ≡ suppress_none
      → should_skip_icv_check sim o ca op s ≡ (false, s)
  unfolding should_skip_icv_check is_none
  not_skipped op ca s h = if_true _ (ap (λ d. is_none d || not (is_encoded_cc_ptr ca)) h)

  module _ (op : Rw) (i ca : ℕ) (m : IcvMap) (s : Machine) (h : Checking o s m)
      (on : faulting o op ≡ true) where
    abbrev s0 : Machine
    s0 = record s { is_icv_correction = false; faulted = false }

    on_mismatch_lem : on_mismatch sim o i ca (map_get m i) op s0 ≡ some (false, settled o op true s)
    unfolding on_mismatch unless_skipped after_report settled
    on_mismatch_lem =
        ap (unless_skipped sim o i ca (map_get m i) op) (not_skipped op ca s0 h.unsuppressed)
        ∙ if_true _ (report-faulted o op s0 h.enabled on)

    pub check_icv_lem :
        check_icv sim o i ca op s ≡ some (false, checked o op (mismatch m i ca) m i s)
    unfolding check_icv get_icv mismatch settled checked
    check_icv_lem = elim (Bool-cases (icv_addr (this_icv ca) == icv_addr (map_get m i))) [
      | inl e ↦
          if_false _ (ap not h.enabled)
          ∙ bind_some _ (bind_some _ h.has_map)
          ∙ if_true _ e
          ∙ not_corrected_lem _ _
              (preinit_logic_lem o op i m (record s0 { is_icv_failure = false }) h.has_map)
          ∙ ap (λ b. some (false, checked o op b m i s)) (sym (ap not e))
      | inr e ↦
          if_false _ (ap not h.enabled)
          ∙ bind_some _ (bind_some _ h.has_map)
          ∙ if_false _ e
          ∙ on_mismatch_lem
          ∙ ap (λ b. some (false, checked o op b m i s)) (sym (ap not e))
    ]
