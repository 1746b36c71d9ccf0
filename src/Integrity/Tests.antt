-- ===== src/Integrity/Tests.antt =====
-- The theorems on integrity checks at a concrete machine: modules/common/ccsimics/integrity.h.
use c3_simulator.Common.{
  ℕ, ◌+◌, ◌%◌, ◌^◌, ◌<◌, ◌≡◌, refl, true, false, not, ◌==◌, ◌&&◌, none, some, [],
}
use c3_simulator.Ca.Format.{is_encoded_cc_ptr}
use c3_simulator.IcvMap.Page.{IcvMap, map_clear, map_get, get_in_page, get_page2_index}
use c3_simulator.IcvMap.Sparse.{IsWf}
use c3_simulator.Integrity.Icv.{icv_addr, is_icv_uninitialized, is_icv_preinit_enabled}
use c3_simulator.Integrity.Machine.{Rw, read, write, Options, Machine, enable, allocate_map}
use c3_simulator.Integrity.Check.{this_icv, check_icv, set_or_check_icv}
use c3_simulator.Integrity.Instructions.{invalidate_icv, initialize_icv, pre_init_icv}
use c3_simulator.Integrity.Granule.{mismatch, faulting}
use c3_simulator.Integrity.Step.{faults, bool_count}
use c3_simulator.Integrity.Access.{index}
use c3_simulator.Integrity.Invalidate.{PointsTo, invalidate_icv-set_or_check_icv}
use c3_simulator.Integrity.Lifecycle.{initialize_icv-set_or_check_icv}
use c3_simulator.Integrity.Preinit.{pre_init_icv-set_or_check_icv}
use c3_simulator.Integrity.Reachable.{here, next, enabled, Reach-flags}
use c3_simulator.Integrity.Failures.{check_icv-do_icv_correction, pre_init_icv-invalidate_icv}
use c3_simulator.Integrity.Isa.{execute}
use c3_simulator.Integrity.Execute.{invicv_bytes, execute-set_or_check_icv}
use c3_simulator.Integrity.Samples.{
  test_sim, test_sim-IsPhysical, integrity_options, empty_map, empty_map-IsWf, test_la, test_ca,
  test_index, machine, machine-Checking, test_ca-PointsTo, owned_map, owned_map-IsWf, owned_map_lem,
}

invalidate_icv-set_or_check_icv_example :
    (s1 : Machine) × (invalidate_icv test_sim integrity_options test_ca (machine (some owned_map))
      ≡ some s1)
    × ((op : Rw) (la' ca : ℕ)
        → faulting integrity_options op ≡ true
        → la' < 2 ^ 47
        → index test_sim la' ≡ test_index
        → (s2 : Machine) × (set_or_check_icv test_sim integrity_options la' ca op s1
            ≡ some (false, s2))
          × (faults s1.calls < faults s2.calls))
invalidate_icv-set_or_check_icv_example =
    invalidate_icv-set_or_check_icv test_sim integrity_options test_ca test_la owned_map
      (machine (some owned_map)) (test_ca-PointsTo (machine (some owned_map)) refl refl)
      (machine-Checking owned_map) owned_map-IsWf test_sim-IsPhysical owned_map_lem

initialize_icv-set_or_check_icv_example :
    (s1 : Machine) × (initialize_icv test_sim integrity_options test_ca 42
        (machine (some empty_map))
      ≡ some s1)
    × (faults s1.calls ≡ faults [])
    × ((op : Rw) (ca' : ℕ)
        → faulting integrity_options op ≡ true
        → (s2 : Machine) × (set_or_check_icv test_sim integrity_options test_la ca' op s1
            ≡ some (false, s2))
          × (faults s2.calls
              ≡ bool_count (not (icv_addr (this_icv ca') == icv_addr test_ca)) + faults s1.calls))
initialize_icv-set_or_check_icv_example =
    initialize_icv-set_or_check_icv test_sim integrity_options test_ca test_la (test_la % 2 ^ 40) 42
      empty_map (machine (some empty_map)) (test_ca-PointsTo (machine (some empty_map)) refl refl)
      (machine-Checking empty_map) empty_map-IsWf test_sim-IsPhysical refl

pre_init_icv-set_or_check_icv_example :
    (s1 : Machine) × (pre_init_icv test_sim test_ca (machine (some owned_map)) ≡ some s1)
    × ((s2 : Machine) × (set_or_check_icv test_sim integrity_options test_la test_ca read s1
          ≡ some (false, s2))
        × (faults s2.calls ≡ 1 + faults s1.calls))
    × (s3 : Machine) × (set_or_check_icv test_sim integrity_options test_la test_ca write s1
        ≡ some (false, s3))
    × (faults s3.calls ≡ faults s1.calls)
    × (s4 : Machine) × (set_or_check_icv test_sim integrity_options test_la test_ca read s3
        ≡ some (false, s4))
    × (faults s4.calls ≡ faults s3.calls)
pre_init_icv-set_or_check_icv_example =
    pre_init_icv-set_or_check_icv test_sim integrity_options test_ca test_la owned_map
      (machine (some owned_map)) (test_ca-PointsTo (machine (some owned_map)) refl refl)
      (machine-Checking owned_map) owned_map-IsWf test_sim-IsPhysical owned_map_lem refl refl

pre_init_icv-invalidate_icv_example :
    (s1 : Machine) × (pre_init_icv test_sim test_ca (machine (some owned_map)) ≡ some s1)
    × ((ptr la' : ℕ)
        → PointsTo s1 ptr la'
        → index test_sim la' ≡ test_index
        → (s2 : Machine) × (invalidate_icv test_sim integrity_options ptr s1 ≡ some s2)
          × (s2.icv_map ≡ s1.icv_map)
          × (faults s2.calls ≡ 1 + faults s1.calls))
pre_init_icv-invalidate_icv_example =
    pre_init_icv-invalidate_icv test_sim integrity_options test_ca test_la owned_map
      (machine (some owned_map)) (test_ca-PointsTo (machine (some owned_map)) refl refl) refl refl
      owned_map-IsWf test_sim-IsPhysical refl owned_map_lem

enable-machine : enable (machine none) ≡ some (machine (some empty_map))
unfolding enable allocate_map
enable-machine = refl

Reach-flags_example :
    IsWf empty_map
    × ((is_icv_uninitialized (map_get empty_map 5)
          && not (is_icv_preinit_enabled (map_get empty_map 5)))
        ≡ false)
Reach-flags_example =
    Reach-flags test_sim integrity_options (machine none) (machine (some empty_map)) empty_map 5
      refl (next here (enabled enable-machine)) refl

pointer-ca : is_encoded_cc_ptr 0x0c01800000001004 ≡ true
unfolding is_encoded_cc_ptr
pointer-ca = refl

pointer-mismatch : mismatch empty_map 5 0x0c01800000001004 ≡ true
unfolding mismatch this_icv icv_addr is_encoded_cc_ptr map_get map_clear get_in_page get_page2_index
pointer-mismatch = refl

abbrev correcting : Options
correcting = record integrity_options {
  integrity_correct_on_fail = true;
  integrity_fault_on_write_mismatch = false;
}

check_icv-do_icv_correction_example :
    check_icv test_sim correcting 5 0x0c01800000001004 write (machine (some empty_map)) ≡ none
check_icv-do_icv_correction_example =
    check_icv-do_icv_correction test_sim correcting write 5 0x0c01800000001004 empty_map
      (machine (some empty_map)) refl refl refl refl refl pointer-ca pointer-mismatch

execute-set_or_check_icv_example :
    (s1 : Machine) × (execute test_sim integrity_options true
        (λ r. test_ca)
        (λ bytes. some (0, 0))
        (invicv_bytes 0x48)
        (machine (some owned_map))
      ≡ some s1)
    × ((op : Rw) (la' ca : ℕ)
        → faulting integrity_options op ≡ true
        → la' < 2 ^ 47
        → index test_sim la' ≡ test_index
        → (s2 : Machine) × (set_or_check_icv test_sim integrity_options la' ca op s1
            ≡ some (false, s2))
          × (faults s1.calls < faults s2.calls))
execute-set_or_check_icv_example =
    execute-set_or_check_icv test_sim integrity_options (λ r. test_ca) (λ bytes. some (0, 0)) 0x48 0
      test_la owned_map (machine (some owned_map)) refl
      (test_ca-PointsTo (machine (some owned_map)) refl refl) (machine-Checking owned_map)
      owned_map-IsWf test_sim-IsPhysical owned_map_lem
