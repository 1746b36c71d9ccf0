-- ===== src/Integrity/Machine.antt =====
-- What the integrity checks read and change: the members of `Integrity`, the context's flags, the
-- pointers of the current access and the calls of the simulator, in modules/common/ccsimics
-- (integrity.h, context.h, c3_base_model.h, simics_connection.h).
-- A state is handed on by every call; `none` is a failed assertion or a null map that is used.
use c3_simulator.Common.{
  ℕ, Bool, true, ◌&&◌, ◌||◌, not, if◌then◌else◌, Option, none, some, List, ◌∷◌, ◌>>=◌,
}
use c3_simulator.Bipbip.Cipher.{PointerCipher}
use c3_simulator.Ca.Encoding.{decode_pointer}
use c3_simulator.IcvMap.Page.{IcvMap, map_clear, map_set, map_get}

pub data Rw : Type 0 where
  read write : Rw

pub data SuppressMode : Type 0 where
  suppress_none suppress_strict suppress_permissive : SuppressMode

-- What is said with a fault or a stop of the simulation.
pub data Message : Type 0 where
  bad_translation icv_fail write_icv_fail read_icv_fail cwe457 : Message
  on_invalidate_icv on_initialize_icv non_ca_preinit non_ca gsrip_escape xed_agen_failed
        non_canonical_address :
      Message

-- The calls of the simulator that have an effect.
pub data Event : Type 0 where
  gp_fault break_simulation : Message → Event
  write_phys_memory : ℕ → ℕ → Event

-- The simulator: a translation, if there is one, and a word of physical memory after some calls,
-- the last of them first.
pub record Simulator : Type 0 where
  pub logical_to_physical : ℕ → Option ℕ
  pub read_phys_memory : List Event → ℕ → ℕ

pub record Options : Type 0 where
  pub integrity_correct_on_fail : Bool
  pub integrity_break_on_write_mismatch : Bool
  pub integrity_break_on_read_mismatch : Bool
  pub integrity_fault_on_write_mismatch : Bool
  pub integrity_fault_on_read_mismatch : Bool
  pub integrity_warn_on_read_mismatch : Bool
  pub disable_data_encryption : Bool
  pub debug_on : Bool
  pub dp_key : List ℕ

pub record Machine : Type 0 where
  pub icv_map : Option IcvMap
  pub is_icv_failure : Bool
  pub is_icv_correction : Bool
  pub suppress_mode : SuppressMode
  pub icv_enabled : Bool
  pub icv_lock : Bool
  pub cc_enabled : Bool
  pub la_encoded : ℕ
  pub la_decoded : ℕ
  pub is_encoded_pointer : Bool
  pub pointer_encoder : PointerCipher
  pub calls : List Event
  pub faulted : Bool

abbrev pub record_call : Machine → Event → Machine
record_call s e = record s { calls = e ∷ s.calls }

abbrev pub record_call_if : Bool → Event → Machine → Machine
record_call_if b e s = record s { calls = if b then e ∷ s.calls else s.calls }

-- A GP fault does not come back to its caller: `faulted` says that the operation of Integrity in
-- progress has ended with one, and nothing that follows it in the source is done. An operation is
-- called only where none has faulted before it in the same callback, so it starts with `faulted` off.
abbrev pub raise : Message → Machine → Machine
raise msg s = record s { calls = gp_fault msg ∷ s.calls; faulted = true }

abbrev pub raise_if : Bool → Message → Machine → Machine
raise_if b msg s = record s {
  calls = if b then gp_fault msg ∷ s.calls else s.calls;
  faulted = b || s.faulted;
}

-- The map that there is, or a new one.
unfoldable pub allocate_map : Machine → Option IcvMap → Machine
allocate_map s none = record s {
  icv_map = some (map_clear (record { pages = λ p. none }));
  icv_lock = true;
}
allocate_map s (some m) = s

unfoldable pub enable : Machine → Option Machine
enable s = if s.icv_enabled then some (allocate_map s s.icv_map) else none

unfoldable pub disable : Machine → Option Machine
disable s = if s.icv_enabled then none else some s

unfoldable pub clear_map : Option IcvMap → Option IcvMap
clear_map none = none
clear_map (some m) = some (map_clear m)

unfoldable pub clear_icv_map : Machine → Machine
clear_icv_map s = record s { icv_map = clear_map s.icv_map }

unfoldable pub set_suppress_icv_mode : SuppressMode → Machine → Machine
set_suppress_icv_mode mode s = record s { suppress_mode = mode }

-- `icv_map_->get` and `icv_map_->set`
unfoldable pub get_icv : Machine → ℕ → Option ℕ
get_icv s i = do m ← s.icv_map; some (map_get m i)

unfoldable pub store_icv : Machine → ℕ → ℕ → Option Machine
store_icv s i val = do m ← s.icv_map; some (record s { icv_map = some (map_set m i val) })

-- `cc_->decode_pointer`
unfoldable pub decode_la : Machine → ℕ → Option (ℕ × Machine)
decode_la s ptr =
    if s.cc_enabled
    then (do
      (la, c) ← decode_pointer s.pointer_encoder ptr
      some (la, record s { pointer_encoder = c }))
    else some (ptr, s)

module _ (o : Options) (s : Machine) where
  unfoldable pub icv_correct_ca_on_fail : Bool
  icv_correct_ca_on_fail = s.icv_enabled && o.integrity_correct_on_fail

  unfoldable pub icv_fault_on_write_mismatch : Bool
  icv_fault_on_write_mismatch = s.icv_enabled && o.integrity_fault_on_write_mismatch

  unfoldable pub icv_fault_on_read_mismatch : Bool
  icv_fault_on_read_mismatch = s.icv_enabled && o.integrity_fault_on_read_mismatch

  unfoldable pub icv_break_on_write_mismatch : Bool
  icv_break_on_write_mismatch = s.icv_enabled && o.integrity_break_on_write_mismatch

  unfoldable pub icv_break_on_read_mismatch : Bool
  icv_break_on_read_mismatch = s.icv_enabled && o.integrity_break_on_read_mismatch

  unfoldable pub icv_warn_on_read_mismatch : Bool
  icv_warn_on_read_mismatch = s.icv_enabled && o.integrity_warn_on_read_mismatch

  unfoldable pub icv_ignore_write_mismatches : Bool
  icv_ignore_write_mismatches = not (icv_fault_on_write_mismatch || icv_break_on_write_mismatch)

  unfoldable pub icv_ignore_read_mismatches : Bool
  icv_ignore_read_mismatches =
      not (icv_fault_on_read_mismatch || icv_break_on_read_mismatch || icv_warn_on_read_mismatch)

  unfoldable pub icv_ignored_mismatch : Rw → Bool
  icv_ignored_mismatch read = icv_ignore_read_mismatches
  icv_ignored_mismatch write = icv_ignore_write_mismatches

  unfoldable pub icv_mismatch_in_cycle : Rw → Bool
  icv_mismatch_in_cycle op = s.is_icv_failure && not (icv_ignored_mismatch op)
