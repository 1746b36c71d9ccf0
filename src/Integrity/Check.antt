-- ===== src/Integrity/Check.antt =====
-- The check of a memory access against the ICVs: modules/common/ccsimics/integrity.h.
use c3_simulator.Common.{
  ℕ, zero, suc, ◌+◌, ◌-◌, ◌%◌, ◌^◌, Bool, true, false, ◌&&◌, ◌||◌, not, ltb, ◌==◌, if◌then◌else◌,
  Option, none, some, ◌>>=◌, assert◌then◌, add64, sub64, ◌<<<◌, ◌>>>◌, bit_and,
}
use c3_simulator.Ca.Format.{is_encoded_cc_ptr, plaintext, set_plaintext}
use c3_simulator.Base.Words.{encrypt_decrypt_u64}
use c3_simulator.Integrity.Icv.{
  slot_size_in_bits, icv_addr_mask, icv_addr, icv_initialize, is_icv_uninitialized,
  is_icv_preinit_enabled,
}
use c3_simulator.Integrity.Machine.{
  Rw, read, write, SuppressMode, suppress_none, suppress_strict, suppress_permissive,
  bad_translation, icv_fail, write_icv_fail, read_icv_fail, cwe457, break_simulation, Simulator,
  Options, Machine, record_call_if, raise, raise_if, get_icv, store_icv, icv_correct_ca_on_fail,
  icv_fault_on_write_mismatch, icv_fault_on_read_mismatch, icv_break_on_write_mismatch,
  icv_break_on_read_mismatch,
}

abbrev pub magic_val_intra : ℕ
magic_val_intra = 0xdeadbeefd0d0caca

-- `~0 << SLOT_SIZE_IN_BITS` as a 64-bit mask
abbrev pub align_down : ℕ → ℕ
align_down x = bit_and x icv_addr_mask

-- The ICV that an access with `ca` has.
unfoldable pub this_icv : ℕ → ℕ
this_icv ca = if is_encoded_cc_ptr ca then icv_addr ca else 0

-- An address without a translation is taken to be a physical one.
unfoldable pub index_of : Option ℕ → ℕ → ℕ
index_of none la = la >>> slot_size_in_bits
index_of (some pa) la = pa >>> slot_size_in_bits

-- `read_mem_8B`, with the translation given
unfoldable pub read_phys_at : Simulator → Option ℕ → Machine → ℕ × Machine
read_phys_at sim none s = (0, raise bad_translation s)
read_phys_at sim (some pa) s = (sim.read_phys_memory s.calls pa, s)

unfoldable pub set_icv : ℕ → ℕ → Rw → Machine → Option Machine
set_icv i ca read s = some s
set_icv i ca write s = store_icv s i (this_icv ca)

-- Which accesses the mode lets pass when the granule holds the magic value.
unfoldable pub is_suppressed : SuppressMode → Rw → Bool
is_suppressed suppress_none op = false
is_suppressed suppress_strict read = true
is_suppressed suppress_strict write = false
is_suppressed suppress_permissive op = true

unfoldable pub is_none : SuppressMode → Bool
is_none suppress_none = true
is_none suppress_strict = false
is_none suppress_permissive = false

unfoldable pub get_icv_index : Simulator → ℕ → Option ℕ
get_icv_index sim la =
    assert not (is_encoded_cc_ptr la) then some (index_of (sim.logical_to_physical la) la)

unfoldable pub read_mem_8B : Simulator → ℕ → Machine → ℕ × Machine
read_mem_8B sim la s = read_phys_at sim (sim.logical_to_physical la) s

-- The pointer takes the ICV that memory holds, and keeps its plaintext.
unfoldable pub corrected : ℕ → ℕ → Machine → ℕ × Machine
corrected ca stored_icv s = if this_icv ca == stored_icv then (ca, s) else (
  if stored_icv == 0 then ca else set_plaintext stored_icv (plaintext ca),
  record s { is_icv_correction = true },
)

unfoldable pub not_corrected : Option Machine → Option (Bool × Machine)
not_corrected r = do s ← r; some (false, s)

-- The turns of a loop up to an `int`.
unfoldable pub int_turns : ℕ → ℕ
int_turns n = if ltb (n % 2 ^ 32) (2 ^ 31) then n % 2 ^ 32 else 0

unfoldable pub number_of_overlapping_slots : ℕ → ℕ → ℕ
number_of_overlapping_slots la size =
    let la_last_byte = sub64 (add64 la size) 1 in
    int_turns (add64 (sub64 (la_last_byte >>> slot_size_in_bits) (la >>> slot_size_in_bits)) 1)

-- `i << SLOT_SIZE_IN_BITS` of an `int`, as the 64-bit number that is added to an address
unfoldable pub slot_offset : ℕ → ℕ
slot_offset i =
    let x = (i <<< slot_size_in_bits) % 2 ^ 32 in
    if ltb x (2 ^ 31) then x else x + (2 ^ 64 - 2 ^ 32)

-- The address and the CA of slot `i` of an access.
unfoldable pub la_to_check : ℕ → ℕ → ℕ
la_to_check la i = add64 la (slot_offset i)

unfoldable pub ca_to_check : Machine → ℕ → ℕ
ca_to_check s i = if s.is_encoded_pointer then add64 s.la_encoded (slot_offset i) else 0

module _ (o : Options) where
  -- The stops and faults on a mismatch.
  unfoldable pub report_mismatch : Rw → Machine → Machine
  report_mismatch write s =
      raise_if (icv_fault_on_write_mismatch o s) write_icv_fail
        (record_call_if (icv_break_on_write_mismatch o s) (break_simulation icv_fail) s)
  report_mismatch read s =
      raise_if (icv_fault_on_read_mismatch o s) read_icv_fail
        (record_call_if (icv_break_on_read_mismatch o s) (break_simulation icv_fail) s)

  -- The end of `check_icv`: a write initializes the granule where PREINIT is set, and a read of a
  -- granule that is not initialized is reported.
  unfoldable pub preinit_logic : ℕ → ℕ → Rw → Machine → Option Machine
  preinit_logic icv_index stored_icv write s =
      if is_icv_preinit_enabled stored_icv
      then store_icv s icv_index (icv_initialize stored_icv)
      else some s
  preinit_logic icv_index stored_icv read s = some (
      if is_icv_uninitialized stored_icv
      then raise_if (icv_fault_on_read_mismatch o s) cwe457
          (record_call_if (icv_break_on_read_mismatch o s) (break_simulation cwe457) s)
      else s)

module _ (sim : Simulator) (o : Options) where
  unfoldable pub should_skip_icv_check : ℕ → Rw → Machine → Bool × Machine
  should_skip_icv_check ca op s =
      if is_none s.suppress_mode || not (is_encoded_cc_ptr ca)
      then (false, s)
      else (let (encrypted_mem_val, s1) = read_mem_8B sim (align_down s.la_decoded) s in
          let mem_val = encrypt_decrypt_u64 (align_down ca) encrypted_mem_val o.dp_key in
          if not s1.faulted && (is_suppressed s.suppress_mode op && mem_val == magic_val_intra)
          then (true, record s1 { is_icv_failure = false })
          else (false, s1))

  -- `_do_icv_correction`
  unfoldable pub do_icv_correction : ℕ → ℕ → Machine → Option (ℕ × Machine)
  do_icv_correction ca la s =
      if not s.icv_enabled then some (ca, s) else assert icv_correct_ca_on_fail o s then do
        icv_index ← get_icv_index sim la
        (if icv_index == 0xFFFFFFFFFFFFFFFF
            then some (ca, s)
            else (do stored_icv ← get_icv s icv_index; some (corrected ca stored_icv s)))

  -- The call to correct the pointer, with the arguments in the order that the source has.
  unfoldable pub correct_access : ℕ → ℕ → Machine → Option (Bool × Machine)
  correct_access icv_index ca s = do
    (new_enc, s') ← do_icv_correction icv_index ca s
    some (true, record s' { is_encoded_pointer = is_encoded_cc_ptr new_enc; la_encoded = new_enc })

  -- What follows the stops and faults on a mismatch, if no fault was raised.
  unfoldable pub after_report : ℕ → ℕ → ℕ → Rw → Machine → Option (Bool × Machine)
  after_report icv_index ca stored_icv op s1 =
      if s1.faulted
      then some (false, s1)
      else (let s2 : Machine = record s1 { is_icv_failure = true } in
          if icv_correct_ca_on_fail o s2
          then correct_access icv_index ca s2
          else not_corrected (preinit_logic o icv_index stored_icv op s2))

  -- What follows `should_skip_icv_check`, by its answer.
  unfoldable pub unless_skipped : ℕ → ℕ → ℕ → Rw → Bool × Machine → Option (Bool × Machine)
  unless_skipped icv_index ca stored_icv op (true, s1) =
      some (false, record s1 { is_icv_failure = false })
  unless_skipped icv_index ca stored_icv op (false, s1) =
      if s1.faulted
      then some (false, s1)
      else after_report icv_index ca stored_icv op (report_mismatch o op s1)

  unfoldable pub on_mismatch : ℕ → ℕ → ℕ → Rw → Machine → Option (Bool × Machine)
  on_mismatch icv_index ca stored_icv op s =
      unless_skipped icv_index ca stored_icv op (should_skip_icv_check ca op s)

  unfoldable pub check_icv : ℕ → ℕ → Rw → Machine → Option (Bool × Machine)
  check_icv icv_index ca op s =
      let s0 : Machine = record s { is_icv_correction = false; faulted = false } in
      if not s.icv_enabled then some (false, s0) else (do
        stored_icv ← get_icv s0 icv_index
        (if icv_addr (this_icv ca) == icv_addr stored_icv
            then not_corrected
                (preinit_logic o icv_index stored_icv op (record s0 { is_icv_failure = false }))
            else on_mismatch icv_index ca stored_icv op s0))

  unfoldable pub set_or_check_icv : ℕ → ℕ → Rw → Machine → Option (Bool × Machine)
  set_or_check_icv la ca op s = if not s.icv_enabled then some (false, s) else (do
    icv_index ← get_icv_index sim la
    (if icv_index == 0xFFFFFFFFFFFFFFFF
        then some (false, s)
        else if s.icv_lock
        then check_icv icv_index ca op s
        else not_corrected (set_icv icv_index ca op s)))

  -- The loop of `check_integrity`, from slot `i` on: a fault ends it.
  unfoldable pub slot_loop : ℕ → ℕ → ℕ → Rw → Machine → Option Machine
  slot_loop zero i la op s = some s
  slot_loop (suc left) i la op s = do
    (_, s') ← set_or_check_icv (la_to_check la i) (ca_to_check s i) op s
    let rest = slot_loop left (i + 1) la op s'
    (if s'.faulted then some s' else rest)

  -- The callback of an access. The address and the number of bytes are those of the memory operation.
  unfoldable pub check_integrity : ℕ → ℕ → Rw → Machine → Option Machine
  check_integrity la size op s =
      let s1 : Machine = record s { la_decoded = la; faulted = false } in
      if la == 0 || size == 0
      then some s1
      else slot_loop (number_of_overlapping_slots la size) 0 la op s1
