-- ===== src/Integrity/Accesses.antt =====
-- The check of an access keeps the map of ICVs sound: modules/common/ccsimics/integrity.h.
use c3_simulator.Common.{
  ℕ, zero, suc, ◌+◌, Bool, true, false, not, ◌==◌, ◌||◌, some, Holds, Holds-bind, Holds-some,
  Holds-any, if_either,
}
use c3_simulator.Integrity.Icv.{
  icv_addr, icv_initialize, is_icv_uninitialized, is_icv_preinit_enabled,
}
use c3_simulator.Integrity.Machine.{
  Rw, read, write, Simulator, Options, Machine, get_icv, store_icv, icv_correct_ca_on_fail,
}
use c3_simulator.Integrity.Check.{
  this_icv, should_skip_icv_check, preinit_logic, correct_access, after_report, unless_skipped,
  on_mismatch, check_icv, set_or_check_icv, set_icv, slot_loop, check_integrity, report_mismatch,
  get_icv_index, la_to_check, ca_to_check, number_of_overlapping_slots,
}
use c3_simulator.Integrity.Sound.{
  FlagsOk, IsSound, IsSound₂, get_icv-FlagsOk, store_icv-IsSound, icv_initialize-FlagsOk,
  set_icv-IsSound, not_corrected-IsSound, skip-IsSound, correct_access-IsSound,
}

module _ (o : Options) where
  report-IsSound : (op : Rw) (s : Machine) → IsSound s → IsSound (report_mismatch o op s)
  unfolding report_mismatch
  report-IsSound read s h = record { map_ok = h.map_ok }
  report-IsSound write s h = record { map_ok = h.map_ok }

  preinit_logic-IsSound :
      (i stored : ℕ) (op : Rw) (s : Machine)
      → IsSound s
      → Holds IsSound (preinit_logic o i stored op s)
  unfolding preinit_logic
  preinit_logic-IsSound i stored write s h =
      if_either (Holds IsSound) (is_icv_preinit_enabled stored)
        (store_icv s i (icv_initialize stored)) (some s)
        (store_icv-IsSound s i (icv_initialize stored) (icv_initialize-FlagsOk stored) h)
        (Holds-some IsSound s h)
  preinit_logic-IsSound i stored read s h =
      Holds-some IsSound _
        (if_either IsSound (is_icv_uninitialized stored) _ s (record { map_ok = h.map_ok }) h)

module _ (sim : Simulator) (o : Options) where
  after_report-IsSound :
      (i ca stored : ℕ) (op : Rw) (s : Machine)
      → IsSound s
      → Holds IsSound₂ (after_report sim o i ca stored op s)
  unfolding after_report
  after_report-IsSound i ca stored op s h =
      let s2 : Machine = record s { is_icv_failure = true } in
      let h2 : IsSound s2 = record { map_ok = h.map_ok } in
      if_either (Holds IsSound₂) s.faulted (some (false, s)) _
        (Holds-some IsSound₂ (false, s) (record { map_ok = h.map_ok }))
        (if_either (Holds IsSound₂) (icv_correct_ca_on_fail o s2) (correct_access sim o i ca s2) _
          (correct_access-IsSound sim o i ca s2 h2)
          (not_corrected-IsSound (preinit_logic o i stored op s2)
            (preinit_logic-IsSound o i stored op s2 h2)))

  unless_skipped-IsSound :
      (i ca stored : ℕ) (op : Rw) (r : Bool × Machine)
      → IsSound₂ r
      → Holds IsSound₂ (unless_skipped sim o i ca stored op r)
  unfolding unless_skipped
  unless_skipped-IsSound i ca stored op (true, s) h =
      Holds-some IsSound₂ (false, record s { is_icv_failure = false })
        (record { map_ok = h.map_ok })
  unless_skipped-IsSound i ca stored op (false, s) h =
      if_either (Holds IsSound₂) s.faulted (some (false, s)) _ (Holds-some IsSound₂ (false, s) h) (
        after_report-IsSound i ca stored op (report_mismatch o op s)
          (report-IsSound o op s (record { map_ok = h.map_ok })))

  on_mismatch-IsSound :
      (i ca stored : ℕ) (op : Rw) (s : Machine)
      → IsSound s
      → Holds IsSound₂ (on_mismatch sim o i ca stored op s)
  unfolding on_mismatch
  on_mismatch-IsSound i ca stored op s h =
      unless_skipped-IsSound i ca stored op (should_skip_icv_check sim o ca op s)
        (skip-IsSound sim o ca op s h)

  check_icv-IsSound :
      (i ca : ℕ) (op : Rw) (s : Machine) → IsSound s → Holds IsSound₂ (check_icv sim o i ca op s)
  unfolding check_icv
  check_icv-IsSound i ca op s h =
      let s0 : Machine = record s { is_icv_correction = false; faulted = false } in
      let h0 : IsSound s0 = record { map_ok = h.map_ok } in
      if_either (Holds IsSound₂) (not s.icv_enabled) (some (false, s0)) _
        (Holds-some IsSound₂ (false, s0) (record { map_ok = h.map_ok }))
        (Holds-bind FlagsOk IsSound₂ (get_icv s0 i) _ (get_icv-FlagsOk s0 i h0) (λ stored _.
          if_either (Holds IsSound₂) (icv_addr (this_icv ca) == icv_addr stored) _ _
            (not_corrected-IsSound
              (preinit_logic o i stored op (record s0 { is_icv_failure = false }))
              (preinit_logic-IsSound o i stored op (record s0 { is_icv_failure = false })
                (record { map_ok = h.map_ok })))
            (on_mismatch-IsSound i ca stored op s0 h0)))

  set_or_check_icv-IsSound :
      (la ca : ℕ) (op : Rw) (s : Machine)
      → IsSound s
      → Holds IsSound₂ (set_or_check_icv sim o la ca op s)
  unfolding set_or_check_icv
  set_or_check_icv-IsSound la ca op s h =
      let same : Holds IsSound₂ (some (false, s)) =
        Holds-some IsSound₂ (false, s) (record { map_ok = h.map_ok }) in
      if_either (Holds IsSound₂) (not s.icv_enabled) (some (false, s)) _ same (
        Holds-bind (λ _. Unit) IsSound₂ (get_icv_index sim la) _ (Holds-any (get_icv_index sim la))
          (λ i _. if_either (Holds IsSound₂) (i == 0xFFFFFFFFFFFFFFFF) (some (false, s)) _ same (
            if_either (Holds IsSound₂) s.icv_lock (check_icv sim o i ca op s) _
              (check_icv-IsSound i ca op s h)
              (not_corrected-IsSound (set_icv i ca op s) (set_icv-IsSound i ca op s h)))))

  slot_loop-IsSound :
      (left i la : ℕ) (op : Rw) (s : Machine)
      → IsSound s
      → Holds IsSound (slot_loop sim o left i la op s)
  unfolding slot_loop
  slot_loop-IsSound zero i la op s h = Holds-some IsSound s h
  slot_loop-IsSound (suc left) i la op s h =
      Holds-bind IsSound₂ IsSound (set_or_check_icv sim o (la_to_check la i) (ca_to_check s i) op s)
        _ (set_or_check_icv-IsSound (la_to_check la i) (ca_to_check s i) op s h)
        (λ r hr.
          if_either (Holds IsSound) r.1.faulted (some r.1) (slot_loop sim o left (i + 1) la op r.1)
            (Holds-some IsSound r.1 (record { map_ok = hr.map_ok }))
            (slot_loop-IsSound left (i + 1) la op r.1 (record { map_ok = hr.map_ok })))

  pub check_integrity-IsSound :
      (la size : ℕ) (op : Rw) (s : Machine)
      → IsSound s
      → Holds IsSound (check_integrity sim o la size op s)
  unfolding check_integrity
  check_integrity-IsSound la size op s h =
      let s1 : Machine = record s { la_decoded = la; faulted = false } in
      let h1 : IsSound s1 = record { map_ok = h.map_ok } in
      if_either (Holds IsSound) (la == 0 || size == 0) (some s1) _ (Holds-some IsSound s1 h1)
        (slot_loop-IsSound (number_of_overlapping_slots la size) 0 la op s1 h1)
