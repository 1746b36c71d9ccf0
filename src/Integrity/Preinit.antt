-- ===== src/Integrity/Preinit.antt =====
-- A granule that has PREINIT set: modules/common/ccsimics/integrity.h.
use c3_simulator.Common.{ℕ, ◌+◌, ◌≡◌, ap, ◌∙◌, true, false, not, ◌==◌, some, arith, if_true}
use c3_simulator.Ca.Format.{is_encoded_cc_ptr}
use c3_simulator.IcvMap.Page.{IcvMap, map_set, map_get}
use c3_simulator.IcvMap.Sparse.{IsWf, map_set-IsWf, map_get-map_set_self}
use c3_simulator.Integrity.Icv.{
  icv_addr, icv_addr-icv_addr, is_icv_preinit_enabled, icv_initialize, preinit-icv_addr,
  preinit-uninitialize, uninitialized-uninitialize, icv_addr-icv_initialize,
  uninitialized-initialize,
}
use c3_simulator.Integrity.Machine.{read, write, Simulator, Options, Machine}
use c3_simulator.Integrity.Check.{this_icv, set_or_check_icv}
use c3_simulator.Integrity.Instructions.{pre_init_icv}
use c3_simulator.Integrity.Granule.{mismatch, Checking, marked, faulting}
use c3_simulator.Integrity.Step.{left_by, faults, granule_faults, bool_count}
use c3_simulator.Integrity.Access.{IsPhysical, index}
use c3_simulator.Integrity.Loop.{set_or_check_icv-Checked}
use c3_simulator.Integrity.Invalidate.{PointsTo, decoded_by}
use c3_simulator.Integrity.Lifecycle.{
  Checking-kept, faults_of, granule_faults_lem, granule_faults-set, owner_lem, owner-write,
  owner-read, preinitialized_lem, preinitialized, pre_init_icv_lem,
}

preinit-read :
    (m : IcvMap) (i ca : ℕ)
    → IsWf m
    → is_encoded_cc_ptr ca ≡ true
    → icv_addr (preinitialized (map_get m i)) ≡ icv_addr ca
    → granule_faults read (map_set m i (preinitialized (map_get m i))) i ca ≡ 1
unfolding preinitialized bool_count
preinit-read m i ca wf is_ca addr =
    granule_faults-set read m i (preinitialized (map_get m i)) ca wf
    ∙ owner-read _ ca is_ca addr
    ∙ ap bool_count (uninitialized-uninitialize _)

-- The write has initialized the granule.
written-read :
    (m : IcvMap) (i ca : ℕ)
    → IsWf m
    → is_encoded_cc_ptr ca ≡ true
    → icv_addr (preinitialized (map_get m i)) ≡ icv_addr ca
    → let m1 = map_set m i (preinitialized (map_get m i)) in
      granule_faults read (left_by write (mismatch m1 i ca) m1 i) i ca ≡ 0
unfolding marked left_by mismatch bool_count preinitialized
written-read m i ca wf is_ca addr =
    let v = map_get m i in
    let v1 = preinitialized v in
    let m1 = map_set m i v1 in
    let self : map_get m1 i ≡ v1 = map_get-map_set_self m i v1 wf in
    let same : mismatch m1 i ca ≡ false =
      ap (λ x. not (icv_addr (this_icv ca) == icv_addr x)) self
      ∙ ap not (owner_lem v1 ca is_ca addr) in
    let held : map_get (marked write m1 i) i ≡ icv_initialize v1 =
      ap (λ x. map_get x i) (if_true m1 (ap is_icv_preinit_enabled self ∙ preinit-uninitialize v))
      ∙ map_get-map_set_self m1 i _ (map_set-IsWf m i v1 wf)
      ∙ ap icv_initialize self in
    ap (λ b. granule_faults read (left_by write b m1 i) i ca) same
    ∙ granule_faults_lem read (marked write m1 i) i ca
    ∙ ap (λ x. faults_of read x ca) held
    ∙ owner-read (icv_initialize v1) ca is_ca (icv_addr-icv_initialize v1 ∙ addr)
    ∙ ap bool_count (uninitialized-initialize v1)

-- When a CA points to user space and a well-formed map holds its ICV there with no flag set, with
-- the checks on, no pointer corrected and no fault suppressed, 64-bit translations and the faults
-- for reads and writes on, pre_init_icv succeeds, and then a read by the CA raises one fault, while
-- a write by it raises none and a read after the write none either.
pub pre_init_icv-set_or_check_icv :
    (sim : Simulator) (o : Options) (ca la : ℕ) (m : IcvMap) (s : Machine)
    → PointsTo s ca la
    → Checking o s m
    → IsWf m
    → IsPhysical sim
    → map_get m (index sim la) ≡ icv_addr ca
    → faulting o read ≡ true
    → faulting o write ≡ true
    → (s1 : Machine) × (pre_init_icv sim ca s ≡ some s1)
      × ((s2 : Machine) × (set_or_check_icv sim o la ca read s1 ≡ some (false, s2))
          × (faults s2.calls ≡ 1 + faults s1.calls))
      × (s3 : Machine) × (set_or_check_icv sim o la ca write s1 ≡ some (false, s3))
      × (faults s3.calls ≡ faults s1.calls)
      × (s4 : Machine) × (set_or_check_icv sim o la ca read s3 ≡ some (false, s4))
      × (faults s4.calls ≡ faults s3.calls)
pre_init_icv-set_or_check_icv sim o ca la m s p h wf phys own on_read on_write =
    let i = index sim la in
    let v = map_get m i in
    let v1 = preinitialized v in
    let m1 = map_set m i v1 in
    let s1 : Machine = record (decoded_by s ca la p) { icv_map = some m1 } in
    let h1 : Checking o s1 m1 = Checking-kept o s m m1 p.after s.calls h in
    let wf1 = map_set-IsWf m i v1 wf in
    let addr : icv_addr v1 ≡ icv_addr ca =
      preinitialized_lem v ∙ ap icv_addr own ∙ icv_addr-icv_addr ca in
    let (s2, e2, c2) = set_or_check_icv-Checked sim o read la ca m1 s1 h1 wf1 on_read phys p.user in
    let (s3, e3, c3) =
      set_or_check_icv-Checked sim o write la ca m1 s1 h1 wf1 on_write phys p.user in
    let (s4, e4, c4) =
      set_or_check_icv-Checked sim o read la ca (left_by write (mismatch m1 i ca) m1 i) s3
        c3.checking c3.wf on_read phys p.user in
    (
      s1,
      pre_init_icv_lem sim o ca la m s p phys h.has_map
          (ap is_icv_preinit_enabled own ∙ preinit-icv_addr ca),
      (s2, e2, omega (arith, c2.raised, preinit-read m i ca wf p.is_ca addr)),
      s3,
      e3,
      omega (
        arith,
        c3.raised,
        granule_faults-set write m i v1 ca wf ∙ owner-write v1 ca p.is_ca addr,
      ),
      s4,
      e4,
      omega (arith, c4.raised, written-read m i ca wf p.is_ca addr),
    )
