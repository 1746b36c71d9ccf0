-- ===== src/LimModel/Callback.antt =====
-- The callback on a memory access, and the data that is shifted by the metadata where none is displaced:
-- `modify_data_on_mem_access` of modules/lim_model/model.cpp.
use c3_simulator.Common.{
  ℕ, ◌+◌, ◌-◌, Bool, true, false, not, ltb, leb, ◌==◌, ◌&&◌, ◌||◌, if◌then◌else◌, Option, none,
  some, List, ◌++◌, length, add64, sub64, bit_and,
}
use c3_simulator.Base.Access.{PageCrossing, page_crossing_second, CpuBytes}
use c3_simulator.Data.Countermode.{take, drop}
use c3_simulator.Integrity.Machine.{Rw, read, write}
use c3_simulator.Lim.Pointer.{get_page_addr}
use c3_simulator.LimModel.State.{
  LimSimulator, LimOptions, LimState, Outcome, done, ◌>>=◌, ◌>>◌, return, get_state, change,
  assert_that,
}
use c3_simulator.LimModel.Memory.{
  min_uint64, translate_la_to_pa, read_from_linear_addr_samepage, read_from_linear_addr_crosspage,
  write_to_linear_addr_crosspage,
}
use c3_simulator.LimModel.Before.{is_first}
use c3_simulator.LimModel.Access.{trace_access, check_lower, check_upper, displace}

-- A first part is followed by a second, any other ends the access.
unfoldable pub reset_flags : {sim : LimSimulator} → LimState sim → LimState sim
reset_flags s =
    if is_first s.page_crossing_type
    then record s {
      page_crossing_type = page_crossing_second;
      is_crossing_page_first = false;
      is_crossing_page_second = true;
    }
    else record s { is_encoded_pointer = false; is_crossing_page_second = false }

module _ (sim : LimSimulator) (o : LimOptions) (fuel : ℕ) where
  -- Bytes that are shifted into the next page need a translation of it.
  unfoldable pub check_next_page : ℕ → ℕ → Rw → LimState sim → Outcome sim (Unit {0})
  check_next_page la la_last_byte_after_shift rw =
      if not (get_page_addr la == get_page_addr la_last_byte_after_shift)
      then (do
        pa ← translate_la_to_pa sim fuel (bit_and la_last_byte_after_shift 0xFFFFFFFFFFFFF000) rw
        return tt)
      else change (λ s. record s { is_page_fault = false })

  -- An access after the start of the metadata.
  unfoldable pub shifted_after : ℕ → ℕ → List ℕ → Rw → LimState sim → Outcome sim (List ℕ)
  shifted_after la meta_size bytes read =
      read_from_linear_addr_crosspage sim (translate_la_to_pa sim fuel) (add64 la meta_size)
        (length bytes)
  shifted_after la meta_size bytes write = do
    old ←
        read_from_linear_addr_crosspage sim (translate_la_to_pa sim fuel) la
          (min_uint64 (length bytes) meta_size)
    write_to_linear_addr_crosspage sim (translate_la_to_pa sim fuel) (add64 la meta_size) bytes
    return (old ++ take (length bytes - meta_size) bytes)

  -- An access over the start of the metadata.
  unfoldable pub shifted_over : ℕ → ℕ → ℕ → List ℕ → Rw → LimState sim → Outcome sim (List ℕ)
  shifted_over la la_meta meta_size bytes read = do
    let bytes_before = la_meta - la
    before ← read_from_linear_addr_samepage sim (translate_la_to_pa sim fuel) la bytes_before
    after ←
        read_from_linear_addr_crosspage sim (translate_la_to_pa sim fuel) (add64 la_meta meta_size)
          (length bytes - bytes_before)
    return (before ++ after)
  shifted_over la la_meta meta_size bytes write = do
    let bytes_before = la_meta - la
    metadata ← read_from_linear_addr_crosspage sim (translate_la_to_pa sim fuel) la_meta meta_size
    write_to_linear_addr_crosspage sim (translate_la_to_pa sim fuel) (add64 la_meta meta_size)
        (drop bytes_before bytes)
    return (take (length bytes) (take bytes_before bytes ++ (metadata ++ drop bytes_before bytes)))

  unfoldable pub shift : ℕ → ℕ → List ℕ → Rw → LimState sim → Outcome sim (Option (List ℕ))
  shift la la_last_byte bytes rw s =
      if leb s.la_meta la
      then (do
        (if ltb la_last_byte s.la_meta
            then return tt
            else check_next_page la (add64 la_last_byte s.meta_size) rw)
        fixup ← shifted_after la s.meta_size bytes rw
        return (some fixup))
          s
      else if ltb la_last_byte s.la_meta
      then done none s
      else (do
        check_next_page la (add64 la_last_byte s.meta_size) rw
        assert_that (ltb (s.la_meta - la) (length bytes))
        fixup ← shifted_over la s.la_meta s.meta_size bytes rw
        return (some fixup))
          s

  -- An access of which the simulator has the bytes.
  unfoldable pub modify_bytes :
      ℕ → ℕ → Option (List ℕ) → Rw → LimState sim → Outcome sim (Option (List ℕ))
  modify_bytes la la_last_byte none rw = do
    change (λ s. record s { is_encoded_pointer = false })
    return none
  modify_bytes la la_last_byte (some bytes) rw = do
    bytes_mod ←
        (if o.data_disp
          then displace sim o fuel la la_last_byte bytes rw
          else shift la la_last_byte bytes rw)
    change reset_flags
    return bytes_mod

  unfoldable pub modify_encoded :
      ℕ → CpuBytes → PageCrossing → Rw → LimState sim → Outcome sim (Option (List ℕ))
  modify_encoded la b crossing rw = do
    check_lower sim o fuel la
    let la_last_byte = sub64 (add64 la b.size) 1
    s ← get_state
    check_upper sim o fuel (add64 la_last_byte s.meta_size)
    change (λ t. record t { page_crossing_type = crossing })
    (if b.size == 0
        then (do change (λ t. record t { is_encoded_pointer = false }); return none)
        else modify_bytes la la_last_byte b.data_or_null rw)

  -- The bytes that the access gets, or `none` where they stay as they are.
  unfoldable pub modify_data_on_mem_access :
      ℕ → CpuBytes → PageCrossing → Rw → LimState sim → Outcome sim (Option (List ℕ))
  modify_data_on_mem_access la b crossing rw s =
      if o.trace_only
      then done none (if la == 0 then s else trace_access sim o fuel crossing rw s)
      else if not s.is_encoded_pointer || la == 0
      then done none s
      else if not (la == s.la_decoded)
      then done none (record s { is_encoded_pointer = false })
      else modify_encoded la b crossing rw s

-- A model that is to stop on exceptions leaves page faults and interrupts alone.
unfoldable pub exception_before : {sim : LimSimulator} → Bool → ℕ → LimState sim → LimState sim
exception_before break_on_exception exc_num s =
    if break_on_exception && (ltb exc_num 32 && not (exc_num == 14))
    then record s { breaks = s.breaks + 1 }
    else s
