-- ===== src/Integrity/Sound.antt =====
-- What every operation keeps of the map of ICVs: modules/common/ccsimics/integrity.h.
use c3_simulator.Common.{
  ℕ, ◌/◌, ◌%◌, ◌≤◌, ◌||◌, ◌&&◌, not, sym, true, false, ◌==◌, if◌then◌else◌, Option, none, some,
  arith, ◌>>=◌, Holds, Holds-bind, Holds-assert, Holds-some, Holds-any, if_either, subst,
}
use c3_simulator.Ca.Format.{is_encoded_cc_ptr}
use c3_simulator.Base.Words.{encrypt_decrypt_u64}
use c3_simulator.IcvMap.Page.{IcvMap, map_set, map_get}
use c3_simulator.IcvMap.Sparse.{IsWf, map_set-IsWf, map_get-map_set}
use c3_simulator.Integrity.Icv.{
  invalid_icv, icv_addr, icv_addr_lem, icv_initialize, icv_initialize_lem, icv_uninitialize,
  icv_uninitialize_lem, icv_preinit_enable, icv_preinit_enable_lem,
}
use c3_simulator.Integrity.Machine.{
  Rw, read, write, Simulator, Options, Machine, get_icv, store_icv, icv_correct_ca_on_fail,
}
use c3_simulator.Integrity.Check.{
  magic_val_intra, is_none, is_suppressed, align_down, this_icv, corrected, set_icv, read_phys_at,
  read_mem_8B, should_skip_icv_check, do_icv_correction, correct_access, not_corrected,
  get_icv_index,
}

-- An ICV that is not initialized has PREINIT set: bit 1 is set only where bit 2 is.
unfoldable pub FlagsOk : ℕ → Type 0
FlagsOk v = v / 2 % 2 ≤ v / 4 % 2

unfoldable pub MapOk : Option IcvMap → Type 0
MapOk none = Unit
MapOk (some m) = IsWf m × ((j : ℕ) → FlagsOk (map_get m j))

pub record IsSound (s : Machine) : Type 0 where
  pub map_ok : MapOk s.icv_map

-- The same of a machine that a call returns with a value.
pub record IsSound₂ {A : Type 0} (r : A × Machine) : Type 0 where
  pub map_ok : MapOk r.1.icv_map

entry-FlagsOk :
    (m : Option IcvMap) (i : ℕ) → MapOk m → Holds FlagsOk (m >>= λ m. some (map_get m i))
unfolding MapOk Holds
entry-FlagsOk none i h = _
entry-FlagsOk (some m) i h = h.1 i

pub get_icv-FlagsOk : (s : Machine) (i : ℕ) → IsSound s → Holds FlagsOk (get_icv s i)
unfolding get_icv
get_icv-FlagsOk s i h = entry-FlagsOk s.icv_map i h.map_ok

map_set-MapOk : (m : IcvMap) (i v : ℕ) → FlagsOk v → MapOk (some m) → MapOk (some (map_set m i v))
unfolding MapOk
map_set-MapOk m i v ok (wf, flags) = (
  map_set-IsWf m i v wf,
  λ j.
      subst FlagsOk (sym (map_get-map_set m i j v wf))
        (if_either FlagsOk (j == i) v (map_get m j) ok (flags j)),
)

stored-IsSound :
    (m : Option IcvMap) (s : Machine) (i v : ℕ)
    → FlagsOk v
    → MapOk m
    → Holds IsSound (m >>= λ m. some (record s { icv_map = some (map_set m i v) }))
unfolding Holds
stored-IsSound none s i v ok h = _
stored-IsSound (some m) s i v ok h = record { map_ok = map_set-MapOk m i v ok h }

pub store_icv-IsSound :
    (s : Machine) (i v : ℕ) → FlagsOk v → IsSound s → Holds IsSound (store_icv s i v)
unfolding store_icv
store_icv-IsSound s i v ok h = stored-IsSound s.icv_map s i v ok h.map_ok

pub icv_addr-FlagsOk : (x : ℕ) → FlagsOk (icv_addr x)
unfolding FlagsOk
icv_addr-FlagsOk x = omega (arith, icv_addr_lem x)

pub icv_initialize-FlagsOk : (x : ℕ) → FlagsOk (icv_initialize x)
unfolding FlagsOk
icv_initialize-FlagsOk x = omega (arith, icv_initialize_lem x)

pub uninitialize-FlagsOk : (x : ℕ) → FlagsOk (icv_uninitialize (icv_preinit_enable x))
unfolding FlagsOk
uninitialize-FlagsOk x =
    omega (arith, icv_preinit_enable_lem x, icv_uninitialize_lem (icv_preinit_enable x))

pub zero-FlagsOk : FlagsOk 0
unfolding FlagsOk
zero-FlagsOk = omega arith

pub invalid-FlagsOk : FlagsOk invalid_icv
unfolding FlagsOk
invalid-FlagsOk = omega arith

this_icv-FlagsOk : (ca : ℕ) → FlagsOk (this_icv ca)
unfolding this_icv
this_icv-FlagsOk ca = if_either FlagsOk _ _ _ (icv_addr-FlagsOk ca) zero-FlagsOk

pub set_icv-IsSound :
    (i ca : ℕ) (op : Rw) (s : Machine) → IsSound s → Holds IsSound (set_icv i ca op s)
unfolding set_icv
set_icv-IsSound i ca read s h = Holds-some IsSound s h
set_icv-IsSound i ca write s h = store_icv-IsSound s i (this_icv ca) (this_icv-FlagsOk ca) h

pub not_corrected-IsSound :
    (r : Option Machine) → Holds IsSound r → Holds IsSound₂ (not_corrected r)
unfolding not_corrected
not_corrected-IsSound r h =
    Holds-bind IsSound IsSound₂ r _ h
      (λ s hs. Holds-some IsSound₂ (false, s) (record { map_ok = hs.map_ok }))

corrected-IsSound₂ : (ca stored : ℕ) (s : Machine) → IsSound s → IsSound₂ (corrected ca stored s)
unfolding corrected
corrected-IsSound₂ ca stored s h =
    if_either IsSound₂ (this_icv ca == stored) (ca, s) _ (record { map_ok = h.map_ok })
      (record { map_ok = h.map_ok })

module _ (sim : Simulator) (o : Options) where
  read_phys_at-IsSound :
      (t : Option ℕ) (s : Machine) → IsSound s → MapOk (read_phys_at sim t s).1.icv_map
  unfolding read_phys_at
  read_phys_at-IsSound none s h = h.map_ok
  read_phys_at-IsSound (some pa) s h = h.map_ok

  pub skip-IsSound :
      (ca : ℕ) (op : Rw) (s : Machine) → IsSound s → IsSound₂ (should_skip_icv_check sim o ca op s)
  unfolding should_skip_icv_check read_mem_8B
  skip-IsSound ca op s h =
      let found = read_phys_at-IsSound (sim.logical_to_physical (align_down s.la_decoded)) s h in
      let (val, s1) = read_mem_8B sim (align_down s.la_decoded) s in
      let mem_val = encrypt_decrypt_u64 (align_down ca) val o.dp_key in
      if_either IsSound₂ (is_none s.suppress_mode || not (is_encoded_cc_ptr ca)) (false, s) _
        (record { map_ok = h.map_ok })
        (if_either IsSound₂
          (not s1.faulted && (is_suppressed s.suppress_mode op && mem_val == magic_val_intra))
          (true, record s1 { is_icv_failure = false }) (false, s1) (record { map_ok = found })
          (record { map_ok = found }))

  correction-IsSound :
      (ca la : ℕ) (s : Machine) → IsSound s → Holds IsSound₂ (do_icv_correction sim o ca la s)
  unfolding do_icv_correction
  correction-IsSound ca la s h =
      if_either (Holds IsSound₂) (not s.icv_enabled) (some (ca, s)) _
        (Holds-some IsSound₂ (ca, s) (record { map_ok = h.map_ok }))
        (Holds-assert IsSound₂ (icv_correct_ca_on_fail o s) _
          (Holds-bind (λ _. Unit) IsSound₂ (get_icv_index sim la) _ (Holds-any _) (λ i _. at i)))
    where
      at :
          (i : ℕ)
          → Holds IsSound₂ (
              if i == 0xFFFFFFFFFFFFFFFF
              then some (ca, s)
              else get_icv s i >>= λ stored. some (corrected ca stored s))
      at i =
          if_either (Holds IsSound₂) (i == 0xFFFFFFFFFFFFFFFF) (some (ca, s)) _
            (Holds-some IsSound₂ (ca, s) (record { map_ok = h.map_ok }))
            (Holds-bind FlagsOk IsSound₂ (get_icv s i) _ (get_icv-FlagsOk s i h) (λ stored _.
              Holds-some IsSound₂ (corrected ca stored s) (corrected-IsSound₂ ca stored s h)))

  pub correct_access-IsSound :
      (i ca : ℕ) (s : Machine) → IsSound s → Holds IsSound₂ (correct_access sim o i ca s)
  unfolding correct_access
  correct_access-IsSound i ca s h =
      Holds-bind IsSound₂ IsSound₂ (do_icv_correction sim o i ca s) _ (correction-IsSound i ca s h)
        (λ r hr. located r hr.map_ok)
    where
      located :
          (r : ℕ × Machine)
          → MapOk r.1.icv_map
          → Holds IsSound₂ (
              some
                (true, record r.1 { is_encoded_pointer = is_encoded_cc_ptr r.0; la_encoded = r.0 }))
      located r hr = Holds-some IsSound₂ _ (record { map_ok = hr })
