-- ===== src/Integrity/Lifecycle.antt =====
-- A granule from its initialization on: modules/common/ccsimics/integrity.h.
use c3_simulator.Common.{
  ℕ, ◌+◌, ◌≡◌, refl, ap, ap₂, sym, ◌∙◌, true, false, not, ◌||◌, or_false, ◌==◌, some, List, ◌∷◌,
  ==_eq, if_true, if_false, bind_some, if◌then◌else◌,
}
use c3_simulator.Bipbip.Cipher.{PointerCipher}
use c3_simulator.Ca.Format.{is_encoded_cc_ptr}
use c3_simulator.Base.Words.{encrypt_decrypt_u64}
use c3_simulator.IcvMap.Page.{IcvMap, map_set, map_get}
use c3_simulator.IcvMap.Sparse.{IsWf, map_set-IsWf, map_get-map_set_self}
use c3_simulator.Integrity.Icv.{
  icv_addr, icv_addr-icv_addr, is_icv_uninitialized, is_icv_preinit_enabled, uninitialized-icv_addr,
  icv_uninitialize, icv_preinit_enable, icv_addr-icv_uninitialize, icv_addr-icv_preinit_enable,
}
use c3_simulator.Integrity.Machine.{
  Rw, read, write, Event, write_phys_memory, Simulator, Options, Machine, get_icv, store_icv,
}
use c3_simulator.Integrity.Check.{this_icv, set_icv, set_or_check_icv}
use c3_simulator.Integrity.Instructions.{
  write_at, write_mem_8B, set_unless_faulted, initialize_icv, pre_init_icv,
}
use c3_simulator.Integrity.Granule.{Checking, mismatch, faulting}
use c3_simulator.Integrity.Step.{fails, faults, granule_faults, bool_count}
use c3_simulator.Integrity.Access.{IsPhysical, index}
use c3_simulator.Integrity.Loop.{set_or_check_icv-Checked}
use c3_simulator.Integrity.Invalidate.{PointsTo, decoded_by, index_of_ca_lem}

-- The checks stay on when the map, the encoder or the calls change.
pub Checking-kept :
    (o : Options) (s : Machine) (m m1 : IcvMap) (c : PointerCipher) (calls : List Event)
    → Checking o s m
    → Checking o (record s { icv_map = some m1; pointer_encoder = c; calls = calls }) m1
Checking-kept o s m m1 c calls h = record {
  enabled = h.enabled;
  locked = h.locked;
  has_map = refl;
  unsuppressed = h.unsuppressed;
  uncorrected = h.uncorrected;
}

-- The faults of an access to a granule that holds `v`.
unfoldable pub faults_of : Rw → ℕ → ℕ → ℕ
faults_of write v ca = bool_count (not (icv_addr (this_icv ca) == icv_addr v))
faults_of read v ca =
    bool_count (is_icv_uninitialized v || not (icv_addr (this_icv ca) == icv_addr v))

pub granule_faults_lem :
    (op : Rw) (m : IcvMap) (i ca : ℕ) → granule_faults op m i ca ≡ faults_of op (map_get m i) ca
unfolding fails mismatch faults_of
granule_faults_lem write m i ca = refl
granule_faults_lem read m i ca = refl

pub granule_faults-set :
    (op : Rw) (m : IcvMap) (i v ca : ℕ)
    → IsWf m
    → granule_faults op (map_set m i v) i ca ≡ faults_of op v ca
granule_faults-set op m i v ca wf =
    granule_faults_lem op (map_set m i v) i ca
    ∙ ap (λ x. faults_of op x ca) (map_get-map_set_self m i v wf)

this_icv_ca : (ca : ℕ) → is_encoded_cc_ptr ca ≡ true → this_icv ca ≡ icv_addr ca
unfolding this_icv
this_icv_ca ca h = if_true 0 h

-- The owner of a granule deserves no fault for its address.
pub owner_lem :
    (v ca : ℕ)
    → is_encoded_cc_ptr ca ≡ true
    → icv_addr v ≡ icv_addr ca
    → (icv_addr (this_icv ca) == icv_addr v) ≡ true
owner_lem v ca is_ca e =
    ==_eq _ _ (ap icv_addr (this_icv_ca ca is_ca) ∙ icv_addr-icv_addr ca ∙ sym e)

pub owner-write :
    (v ca : ℕ) → is_encoded_cc_ptr ca ≡ true → icv_addr v ≡ icv_addr ca → faults_of write v ca ≡ 0
unfolding faults_of bool_count
owner-write v ca is_ca e = ap (λ b. bool_count (not b)) (owner_lem v ca is_ca e)

pub owner-read :
    (v ca : ℕ)
    → is_encoded_cc_ptr ca ≡ true
    → icv_addr v ≡ icv_addr ca
    → faults_of read v ca ≡ bool_count (is_icv_uninitialized v)
unfolding faults_of bool_count
owner-read v ca is_ca e =
    ap (λ b. bool_count (is_icv_uninitialized v || not b)) (owner_lem v ca is_ca e)
    ∙ ap bool_count (or_false (is_icv_uninitialized v))

unfoldable pub preinitialized : ℕ → ℕ
preinitialized v = icv_uninitialize (icv_preinit_enable v)

pub preinitialized_lem : (v : ℕ) → icv_addr (preinitialized v) ≡ icv_addr v
unfolding preinitialized
preinitialized_lem v = icv_addr-icv_uninitialize _ ∙ icv_addr-icv_preinit_enable v

module _ (sim : Simulator) (o : Options) where
  -- The machine after the word is written and the ICV set.
  abbrev initialized : (ca la pa val : ℕ) (m : IcvMap) (s : Machine) → PointsTo s ca la → Machine
  initialized ca la pa val m s p =
      let enc_val =
        if o.disable_data_encryption then val else encrypt_decrypt_u64 ca val o.dp_key in
      record (decoded_by s ca la p) {
        faulted = false;
        calls = write_phys_memory pa enc_val ∷ s.calls;
        icv_map = some (map_set m (index sim la) (this_icv ca));
      }

  initialize_icv_lem :
      (ca la pa val : ℕ) (m : IcvMap) (s : Machine) (p : PointsTo s ca la)
      → IsPhysical sim
      → s.icv_map ≡ some m
      → sim.logical_to_physical la ≡ some pa
      → initialize_icv sim o ca val s ≡ some (initialized ca la pa val m s p)
  unfolding initialize_icv set_unless_faulted set_icv store_icv write_mem_8B write_at
  initialize_icv_lem ca la pa val m s p phys has mapped =
      let enc_val =
        if o.disable_data_encryption then val else encrypt_decrypt_u64 ca val o.dp_key in
      if_true _ p.is_ca
      ∙ bind_some _ (index_of_ca_lem sim ca la s p phys)
      ∙ ap
          (λ t.
            set_unless_faulted (index sim la) ca
              (write_at t enc_val (record (decoded_by s ca la p) { faulted = false })))
          mapped
      ∙ bind_some _ has

  pub pre_init_icv_lem :
      (ptr la : ℕ) (m : IcvMap) (s : Machine) (p : PointsTo s ptr la)
      → IsPhysical sim
      → s.icv_map ≡ some m
      → is_icv_preinit_enabled (map_get m (index sim la)) ≡ false
      → pre_init_icv sim ptr s
        ≡ some (record (decoded_by s ptr la p) {
          icv_map = some (map_set m (index sim la) (preinitialized (map_get m (index sim la))));
        })
  unfolding pre_init_icv get_icv store_icv preinitialized
  pre_init_icv_lem ptr la m s p phys has off =
      if_true _ p.is_ca
      ∙ bind_some _ (index_of_ca_lem sim ptr la s p phys)
      ∙ bind_some _ (bind_some _ has)
      ∙ if_false _ off
      ∙ bind_some _ has

fresh_faults :
    (op : Rw) (ca ca' : ℕ)
    → faults_of op (icv_addr ca) ca' ≡ bool_count (not (icv_addr (this_icv ca') == icv_addr ca))
unfolding faults_of bool_count
fresh_faults write ca ca' =
    ap (λ x. bool_count (not (icv_addr (this_icv ca') == x))) (icv_addr-icv_addr ca)
fresh_faults read ca ca' =
    ap₂ (λ b x. bool_count (b || not (icv_addr (this_icv ca') == x))) (uninitialized-icv_addr ca)
      (icv_addr-icv_addr ca)

-- When a CA points to user space, with the checks on, no pointer corrected and no fault suppressed,
-- a well-formed map, 64-bit translations and a translation of that address, initialize_icv succeeds
-- without a fault, and after that an access to the granule raises a fault exactly if the address
-- part of its ICV is not that of the CA, and no fault besides, if the faults for that kind of
-- access are on.
pub initialize_icv-set_or_check_icv :
    (sim : Simulator) (o : Options) (ca la pa val : ℕ) (m : IcvMap) (s : Machine)
    → PointsTo s ca la
    → Checking o s m
    → IsWf m
    → IsPhysical sim
    → sim.logical_to_physical la ≡ some pa
    → (s1 : Machine) × (initialize_icv sim o ca val s ≡ some s1)
      × (faults s1.calls ≡ faults s.calls)
      × ((op : Rw) (ca' : ℕ)
          → faulting o op ≡ true
          → (s2 : Machine) × (set_or_check_icv sim o la ca' op s1 ≡ some (false, s2))
            × (faults s2.calls
                ≡ bool_count (not (icv_addr (this_icv ca') == icv_addr ca)) + faults s1.calls))
unfolding faults
initialize_icv-set_or_check_icv sim o ca la pa val m s p h wf phys mapped =
    let i = index sim la in
    let v = this_icv ca in
    let m1 = map_set m i v in
    let s1 : Machine = initialized sim o ca la pa val m s p in
    let h1 : Checking o s1 m1 = record {
      enabled = h.enabled;
      locked = h.locked;
      has_map = refl;
      unsuppressed = h.unsuppressed;
      uncorrected = h.uncorrected;
    } in
    (
      s1,
      initialize_icv_lem sim o ca la pa val m s p phys h.has_map mapped,
      refl,
      λ op ca' on.
          let (s2, e, c) =
            set_or_check_icv-Checked sim o op la ca' m1 s1 h1 (map_set-IsWf m i v wf) on phys
              p.user in
          (
            s2,
            e,
            c.raised
                ∙ ap (λ n. n + faults s1.calls)
                    (granule_faults-set op m i v ca' wf
                      ∙ ap (λ x. faults_of op x ca') (this_icv_ca ca p.is_ca)
                      ∙ fresh_faults op ca ca'),
          ),
    )
