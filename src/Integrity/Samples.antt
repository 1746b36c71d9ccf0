-- ===== src/Integrity/Samples.antt =====
-- A concrete machine: modules/common/ccsimics/integrity.h.
use c3_simulator.Common.{
  ℕ, ◌%◌, ◌^◌, ◌≡◌, refl, ap, ◌∙◌, true, false, Option, none, some, [], arith,
}
use c3_simulator.Bipbip.Cipher.{PointerCipher, keyed}
use c3_simulator.Bipbip.Caching.{keyed-IsCoherent}
use c3_simulator.Ca.Format.{PtrMetadata}
use c3_simulator.Ca.Encoding.{decode_pointer}
use c3_simulator.Ca.Decoding.{encoded, decode_pointer_lem}
use c3_simulator.Ca.Emulation.{is_encoded-encoded, decoded-encoded}
use c3_simulator.Ca.Allocation.{user-canonical}
use c3_simulator.IcvMap.Page.{IcvMap, map_clear, map_set, map_get}
use c3_simulator.IcvMap.Sparse.{IsWf, map_set-IsWf, map_clear_lem, map_get-map_set_self}
use c3_simulator.Integrity.Icv.{icv_addr}
use c3_simulator.Integrity.Machine.{suppress_none, Simulator, Options, Machine}
use c3_simulator.Integrity.Granule.{Checking}
use c3_simulator.Integrity.Access.{IsPhysical, index}
use c3_simulator.Integrity.Invalidate.{PointsTo}

abbrev pub test_sim : Simulator
test_sim = record {
  logical_to_physical = λ la. some (la % 2 ^ 40);
  read_phys_memory = λ calls pa. 0;
}

pub some_inj : (a b : ℕ) → some a ≡ some b → a ≡ b
some_inj a b e = ap (λ t. elim t as (λ x. ℕ) [ none ↦ 0 | some x ↦ x ]) e

pub test_sim-IsPhysical : IsPhysical test_sim
unfolding IsPhysical
test_sim-IsPhysical la pa e = omega (arith, some_inj (la % 2 ^ 40) pa e)

abbrev pub integrity_options : Options
integrity_options = record {
  integrity_correct_on_fail = false;
  integrity_break_on_write_mismatch = false;
  integrity_break_on_read_mismatch = false;
  integrity_fault_on_write_mismatch = true;
  integrity_fault_on_read_mismatch = true;
  integrity_warn_on_read_mismatch = false;
  disable_data_encryption = false;
  debug_on = false;
  dp_key = [];
}

abbrev pub empty_map : IcvMap
empty_map = map_clear (record { pages = λ p. none })

pub empty_map-IsWf : IsWf empty_map
empty_map-IsWf = (map_clear_lem (record { pages = λ p. none })).0

abbrev pub cipher : PointerCipher
cipher = keyed []

abbrev pub metadata : PtrMetadata
metadata = record { size = 7; version = 3; adjust = 0 }

-- A pointer to 0x7fff00001000, and where its ICV is.
abbrev pub test_la : ℕ
test_la = 0x7fff00001000

abbrev pub test_ca : ℕ
test_ca = encoded cipher.key_schedule test_la metadata

abbrev pub test_index : ℕ
test_index = index test_sim test_la

-- A machine with the checks on and the map `m`.
abbrev pub machine : Option IcvMap → Machine
machine m = record {
  icv_map = m;
  is_icv_failure = false;
  is_icv_correction = false;
  suppress_mode = suppress_none;
  icv_enabled = true;
  icv_lock = true;
  faulted = false;
  cc_enabled = true;
  la_encoded = 0x0c01800000001004;
  la_decoded = 0;
  is_encoded_pointer = true;
  pointer_encoder = cipher;
  calls = [];
}

pub machine-Checking : (m : IcvMap) → Checking integrity_options (machine (some m)) m
machine-Checking m = record {
  enabled = refl;
  locked = refl;
  has_map = refl;
  unsuppressed = refl;
  uncorrected = refl;
}

pub test_ca-PointsTo :
    (s : Machine) → s.cc_enabled ≡ true → s.pointer_encoder ≡ cipher → PointsTo s test_ca test_la
test_ca-PointsTo s on same =
    let r = decode_pointer_lem cipher test_ca (keyed-IsCoherent []) in
    record {
      is_ca =
          is_encoded-encoded cipher test_la metadata (keyed-IsCoherent []) (omega arith)
            (omega arith) (omega arith);
      cc_on = on;
      after = r.0;
      decodes =
          ap (λ c. decode_pointer c test_ca) same
          ∙ r.1
          ∙ ap (λ t. some (t, r.0))
              (decoded-encoded cipher test_la metadata (keyed-IsCoherent []) (omega arith)
                (omega arith) (omega arith) (user-canonical test_la (omega arith)));
      user = omega arith;
    }

-- The map in which the pointer owns its granule.
abbrev pub owned_map : IcvMap
owned_map = map_set empty_map test_index (icv_addr test_ca)

pub owned_map-IsWf : IsWf owned_map
owned_map-IsWf = map_set-IsWf empty_map test_index (icv_addr test_ca) empty_map-IsWf

pub owned_map_lem : map_get owned_map test_index ≡ icv_addr test_ca
owned_map_lem = map_get-map_set_self empty_map test_index (icv_addr test_ca) empty_map-IsWf
