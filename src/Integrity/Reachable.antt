-- ===== src/Integrity/Reachable.antt =====
-- The states that the operations on ICVs reach: modules/common/ccsimics/integrity.h.
use c3_simulator.Common.{
  ℕ, ◌≡◌, ap₂, sym, ◌∙◌, subst, Bool, false, ◌&&◌, not, Option, none, some, arith, Holds,
  Holds-none, Holds-some, Holds_elim, if_either,
}
use c3_simulator.IcvMap.Page.{IcvMap, map_clear, map_get}
use c3_simulator.IcvMap.Sparse.{IsWf, map_clear_lem}
use c3_simulator.Integrity.Icv.{
  is_icv_uninitialized, is_icv_preinit_enabled, is_icv_uninitialized_lem,
  is_icv_preinit_enabled_lem,
}
use c3_simulator.Integrity.Machine.{
  Rw, SuppressMode, Simulator, Options, Machine, enable, allocate_map, disable, clear_map,
  clear_icv_map, set_suppress_icv_mode,
}
use c3_simulator.Integrity.Check.{check_integrity}
use c3_simulator.Integrity.Instructions.{invalidate_icv, initialize_icv, pre_init_icv, copy_icvs}
use c3_simulator.Integrity.Sound.{FlagsOk, MapOk, IsSound, zero-FlagsOk}
use c3_simulator.Integrity.Accesses.{check_integrity-IsSound}
use c3_simulator.Integrity.Changes.{
  invalidate_icv-IsSound, initialize_icv-IsSound, pre_init_icv-IsSound, copy_icvs-IsSound,
}

-- One call of the interface that succeeds, or a change elsewhere that leaves the map alone: of the
-- context's flags, of the pointers of the access, of the mode, or of memory.
pub data Step (sim : Simulator) (o : Options) (s s' : Machine) : Type 0 where
  enabled : enable s ≡ some s' → Step sim o s s'
  disabled : disable s ≡ some s' → Step sim o s s'
  cleared : s' ≡ clear_icv_map s → Step sim o s s'
  mode_set : (mode : SuppressMode) → s' ≡ set_suppress_icv_mode mode s → Step sim o s s'
  accessed :
      (la size : ℕ) (op : Rw) → check_integrity sim o la size op s ≡ some s' → Step sim o s s'
  invalidated : (ptr : ℕ) → invalidate_icv sim o ptr s ≡ some s' → Step sim o s s'
  initialized : (ca val : ℕ) → initialize_icv sim o ca val s ≡ some s' → Step sim o s s'
  pre_initialized : (ptr : ℕ) → pre_init_icv sim ptr s ≡ some s' → Step sim o s s'
  copied :
      (dst src n : ℕ) (back : Bool) → copy_icvs sim dst src n back s ≡ some s' → Step sim o s s'
  elsewhere : s'.icv_map ≡ s.icv_map → Step sim o s s'

pub data Reach (sim : Simulator) (o : Options) (s : Machine) : Machine → Type 0 where
  here : Reach sim o s s
  next : {t u : Machine} → Reach sim o s t → Step sim o t u → Reach sim o s u

map_clear-MapOk : (m : IcvMap) → MapOk (some (map_clear m))
unfolding MapOk
map_clear-MapOk m =
    ((map_clear_lem m).0, λ j. subst FlagsOk (sym ((map_clear_lem m).1 j)) zero-FlagsOk)

allocate_map-IsSound : (s : Machine) (t : Option IcvMap) → IsSound s → IsSound (allocate_map s t)
unfolding allocate_map
allocate_map-IsSound s none h = record { map_ok = map_clear-MapOk (record { pages = λ p. none }) }
allocate_map-IsSound s (some m) h = h

enable-IsSound : (s : Machine) → IsSound s → Holds IsSound (enable s)
unfolding enable
enable-IsSound s h =
    if_either (Holds IsSound) s.icv_enabled (some (allocate_map s s.icv_map)) none
      (Holds-some IsSound _ (allocate_map-IsSound s s.icv_map h)) (Holds-none IsSound)

disable-IsSound : (s : Machine) → IsSound s → Holds IsSound (disable s)
unfolding disable
disable-IsSound s h =
    if_either (Holds IsSound) s.icv_enabled none (some s) (Holds-none IsSound)
      (Holds-some IsSound s h)

clear_map-MapOk : (t : Option IcvMap) → MapOk t → MapOk (clear_map t)
unfolding clear_map
clear_map-MapOk none h = h
clear_map-MapOk (some m) h = map_clear-MapOk m

module _ (sim : Simulator) (o : Options) where
  Step-IsSound : (s s' : Machine) → Step sim o s s' → IsSound s → IsSound s'
  unfolding clear_icv_map set_suppress_icv_mode
  Step-IsSound s s' (enabled e) h = Holds_elim IsSound s' (enable-IsSound s h) e
  Step-IsSound s s' (disabled e) h = Holds_elim IsSound s' (disable-IsSound s h) e
  Step-IsSound s s' (cleared e) h =
      subst IsSound (sym e) (record { map_ok = clear_map-MapOk s.icv_map h.map_ok })
  Step-IsSound s s' (mode_set mode e) h = subst IsSound (sym e) (record { map_ok = h.map_ok })
  Step-IsSound s s' (accessed la size op e) h =
      Holds_elim IsSound s' (check_integrity-IsSound sim o la size op s h) e
  Step-IsSound s s' (invalidated ptr e) h =
      Holds_elim IsSound s' (invalidate_icv-IsSound sim o ptr s h) e
  Step-IsSound s s' (initialized ca val e) h =
      Holds_elim IsSound s' (initialize_icv-IsSound sim o ca val s h) e
  Step-IsSound s s' (pre_initialized ptr e) h =
      Holds_elim IsSound s' (pre_init_icv-IsSound sim ptr s h) e
  Step-IsSound s s' (copied dst src n back e) h =
      Holds_elim IsSound s' (copy_icvs-IsSound sim dst src n back s h) e
  Step-IsSound s s' (elsewhere e) h = record { map_ok = subst MapOk (sym e) h.map_ok }

  Reach-IsSound : (s : Machine) {t : Machine} → IsSound s → Reach sim o s t → IsSound t
  Reach-IsSound s h here = h
  Reach-IsSound s h (next {t = t} {u = u} r st) = Step-IsSound t u st (Reach-IsSound s h r)

null-IsSound : (s : Machine) → s.icv_map ≡ none → IsSound s
unfolding MapOk
null-IsSound s e = record { map_ok = subst MapOk (sym e) _ }

flags_lem : (v : ℕ) → FlagsOk v → (is_icv_uninitialized v && not (is_icv_preinit_enabled v)) ≡ false
unfolding FlagsOk
flags_lem v h =
    ap₂ (λ a b. a && not b) (is_icv_uninitialized_lem v) (is_icv_preinit_enabled_lem v)
    ∙ ground (arith, h)

-- In every state that successful calls of the interface, and changes elsewhere that leave the map
-- alone, reach from one without a map, the map that there is is well-formed, and no granule is both
-- uninitialized and without PREINIT: a write can always initialize it.
pub Reach-flags :
    (sim : Simulator) (o : Options) (s s' : Machine) (m : IcvMap) (j : ℕ)
    → s.icv_map ≡ none
    → Reach sim o s s'
    → s'.icv_map ≡ some m
    → IsWf m
      × ((is_icv_uninitialized (map_get m j) && not (is_icv_preinit_enabled (map_get m j))) ≡ false)
unfolding MapOk
Reach-flags sim o s s' m j null r has =
    let h : MapOk (some m) =
      subst MapOk has (Reach-IsSound sim o s (null-IsSound s null) r).map_ok in
    (h.0, flags_lem (map_get m j) (h.1 j))
