-- ===== src/Integrity/Invalidate.antt =====
-- Invalidation of an ICV, and the accesses after it: modules/common/ccsimics/integrity.h.
use c3_simulator.Common.{
  ℕ, ◌/◌, ◌%◌, ◌^◌, ◌<◌, ◌≡◌, ◌≢◌, refl, ap, sym, ◌∙◌, inl, inr, true, false, not, ◌==◌, some, ◌≤◌,
  ◌-◌, arith, ==_eq, ne→==, if_true, if_false, bind_some, Bool-cases, if◌then◌else◌, ◌||◌, or_true,
}
use c3_simulator.Bipbip.Cipher.{PointerCipher}
use c3_simulator.Ca.Format.{is_encoded_cc_ptr, enc_size}
use c3_simulator.Ca.Encoding.{decode_pointer}
use c3_simulator.IcvMap.Page.{IcvMap, map_set, map_get}
use c3_simulator.IcvMap.Sparse.{IsWf, map_set-IsWf, map_get-map_set_self}
use c3_simulator.Integrity.Icv.{
  icv_addr, icv_addr_lem, icv_addr-icv_addr, invalid_icv, is_icv_uninitialized,
}
use c3_simulator.Integrity.Machine.{
  Rw, read, write, icv_fail, Simulator, Options, Machine, raise_if, decode_la, get_icv, store_icv,
  icv_fault_on_write_mismatch,
}
use c3_simulator.Integrity.Check.{this_icv, set_or_check_icv}
use c3_simulator.Integrity.Instructions.{index_of_ca, invalidate_icv}
use c3_simulator.Integrity.Granule.{Checking, mismatch, faulting}
use c3_simulator.Integrity.Step.{fails, faults, granule_faults, bool_count}
use c3_simulator.Integrity.Access.{IsPhysical, index, get_icv_index_lem, index_valid}
use c3_simulator.Integrity.Loop.{set_or_check_icv-Checked}

-- The CA points to the address `la` of user space.
pub record PointsTo (s : Machine) (ptr la : ℕ) : Type 0 where
  pub is_ca : is_encoded_cc_ptr ptr ≡ true
  pub cc_on : s.cc_enabled ≡ true
  pub after : PointerCipher
  pub decodes : decode_pointer s.pointer_encoder ptr ≡ some (la, after)
  pub user : la < 2 ^ 47

-- The machine after the CA is decoded.
abbrev pub decoded_by : (s : Machine) (ptr la : ℕ) → PointsTo s ptr la → Machine
decoded_by s ptr la p = record s { pointer_encoder = p.after }

module _ (sim : Simulator) where
  pub index_of_ca_lem :
      (ptr la : ℕ) (s : Machine) (p : PointsTo s ptr la)
      → IsPhysical sim
      → index_of_ca sim ptr s ≡ some (la, index sim la, decoded_by s ptr la p)
  unfolding index_of_ca decode_la
  index_of_ca_lem ptr la s p phys =
      bind_some _ (if_true _ p.cc_on ∙ bind_some _ p.decodes)
      ∙ bind_some _ (get_icv_index_lem sim la p.user)
      ∙ if_true _ (ap not (index_valid sim la phys p.user))

  invalidate_icv_match :
      (o : Options) (ptr la : ℕ) (m : IcvMap) (s : Machine) (p : PointsTo s ptr la)
      → IsPhysical sim
      → s.icv_map ≡ some m
      → map_get m (index sim la) ≡ icv_addr ptr
      → invalidate_icv sim o ptr s
        ≡ some (record (decoded_by s ptr la p) {
          icv_map = some (map_set m (index sim la) invalid_icv);
        })
  unfolding invalidate_icv get_icv store_icv
  invalidate_icv_match o ptr la m s p phys has own =
      if_true _ p.is_ca
      ∙ bind_some _ (index_of_ca_lem ptr la s p phys)
      ∙ bind_some _ (bind_some _ has)
      ∙ if_true _ (==_eq _ _ (sym own))
      ∙ bind_some _ has

  pub invalidate_icv_mismatch :
      (o : Options) (ptr la : ℕ) (m : IcvMap) (s : Machine) (p : PointsTo s ptr la)
      → IsPhysical sim
      → s.icv_map ≡ some m
      → map_get m (index sim la) ≢ icv_addr ptr
      → invalidate_icv sim o ptr s
        ≡ some (raise_if (icv_fault_on_write_mismatch o s) icv_fail (decoded_by s ptr la p))
  unfolding invalidate_icv get_icv icv_fault_on_write_mismatch
  invalidate_icv_mismatch o ptr la m s p phys has other =
      if_true _ p.is_ca
      ∙ bind_some _ (index_of_ca_lem ptr la s p phys)
      ∙ bind_some _ (bind_some _ has)
      ∙ if_false _ (ne→== _ _ (λ e. other (sym e)))

-- No pointer has the ICV of an invalidated granule.
all_ones : (x : ℕ) → x / 8 % 2 ^ 61 ≡ 2 ^ 61 - 1 → is_encoded_cc_ptr x ≡ false
unfolding is_encoded_cc_ptr
all_ones x h =
    ap (λ e. if e == 0 || e == 63 then false else true) {x = enc_size x} {y = 63} (omega arith)

this_icv-invalid : (ca : ℕ) → icv_addr (this_icv ca) ≢ icv_addr invalid_icv
unfolding this_icv
this_icv-invalid ca e = elim (Bool-cases (is_encoded_cc_ptr ca)) [
  | inl is_ca ↦
      let same : icv_addr ca ≡ icv_addr invalid_icv =
        sym (icv_addr-icv_addr ca) ∙ ap icv_addr (sym (if_true 0 is_ca)) ∙ e in
      absurd (
        false≢true (
          sym (all_ones ca (omega (arith, same, icv_addr_lem ca, icv_addr_lem invalid_icv)))
          ∙ is_ca))
  | inr not_ca ↦ absurd (
      omega (
        arith,
        ap icv_addr (sym (if_false (icv_addr ca) {y = 0} not_ca)) ∙ e,
        icv_addr_lem 0,
        icv_addr_lem invalid_icv,
      ))
]
  where
    false≢true : false ≢ true
    false≢true p = ground arith

invalid-mismatch : (m : IcvMap) (i ca : ℕ) → IsWf m → mismatch (map_set m i invalid_icv) i ca ≡ true
unfolding mismatch
invalid-mismatch m i ca wf =
    ap (λ v. not (icv_addr (this_icv ca) == icv_addr v)) (map_get-map_set_self m i invalid_icv wf)
    ∙ ap not (ne→== _ _ (this_icv-invalid ca))

granule_faults-mismatch :
    (op : Rw) (m : IcvMap) (i ca : ℕ) → mismatch m i ca ≡ true → 1 ≤ granule_faults op m i ca
unfolding fails bool_count
granule_faults-mismatch write m i ca e = rw e (omega arith)
granule_faults-mismatch read m i ca e =
    let u = is_icv_uninitialized (map_get m i) in
    omega (arith, ap (λ b. bool_count (u || b)) e ∙ ap bool_count (or_true u))

-- When a CA points to user space and its ICV is the one that a well-formed map holds there, with
-- the checks on, no pointer corrected and no fault suppressed, and 64-bit translations,
-- invalidating it succeeds, and after that every access to the granule, by whatever address of user
-- space and pointer, raises a fault, if the faults for that kind of access are on.
pub invalidate_icv-set_or_check_icv :
    (sim : Simulator) (o : Options) (ptr la : ℕ) (m : IcvMap) (s : Machine)
    → PointsTo s ptr la
    → Checking o s m
    → IsWf m
    → IsPhysical sim
    → map_get m (index sim la) ≡ icv_addr ptr
    → (s1 : Machine) × (invalidate_icv sim o ptr s ≡ some s1)
      × ((op : Rw) (la' ca : ℕ)
          → faulting o op ≡ true
          → la' < 2 ^ 47
          → index sim la' ≡ index sim la
          → (s2 : Machine) × (set_or_check_icv sim o la' ca op s1 ≡ some (false, s2))
            × (faults s1.calls < faults s2.calls))
invalidate_icv-set_or_check_icv sim o ptr la m s p h wf phys own =
    let i = index sim la in
    let m1 = map_set m i invalid_icv in
    let s1 : Machine = record (decoded_by s ptr la p) { icv_map = some m1 } in
    let h1 : Checking o s1 m1 = record {
      enabled = h.enabled;
      locked = h.locked;
      has_map = refl;
      unsuppressed = h.unsuppressed;
      uncorrected = h.uncorrected;
    } in
    (
      s1,
      invalidate_icv_match sim o ptr la m s p phys h.has_map own,
      λ op la' ca on small same.
          let (s2, e, c) =
            set_or_check_icv-Checked sim o op la' ca m1 s1 h1 (map_set-IsWf m i invalid_icv wf) on
              phys small in
          let bad =
            granule_faults-mismatch op m1 (index sim la') ca
              (ap (λ j. mismatch m1 j ca) same ∙ invalid-mismatch m i ca wf) in
          (s2, e, omega (arith, bad, c.raised)),
    )
