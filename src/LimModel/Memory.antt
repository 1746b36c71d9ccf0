-- ===== src/LimModel/Memory.antt =====
-- Translations, and physical memory by linear addresses, of modules/lim_model/model.cpp. A failed
-- translation reads the current instruction, which is translated in turn: `fuel` bounds the nesting.
use c3_simulator.Common.{
  ℕ, zero, suc, ◌+◌, ◌-◌, ◌*◌, ◌%◌, ◌^◌, Bool, true, false, not, ltb, leb, ◌==◌, if◌then◌else◌,
  List, [], ◌∷◌, ◌++◌, length, add64, sub64,
}
use c3_simulator.Base.Words.{bytes_of}
use c3_simulator.Data.Countermode.{take, drop}
use c3_simulator.Integrity.Machine.{Rw, read, write}
use c3_simulator.Lim.Pointer.{get_page_addr}
use c3_simulator.LimModel.State.{
  LimSimulator, LimState, Outcome, done, page_fault, aborted, exhausted, ◌>>=◌, ◌>>◌, return,
  assert_that,
}

-- `min_int`, `min_uint64` and `max_uint64`
abbrev pub min_uint64 : ℕ → ℕ → ℕ
min_uint64 a b = if ltb a b then a else b

abbrev pub max_uint64 : ℕ → ℕ → ℕ
max_uint64 a b = if ltb b a then a else b

unfoldable pub calc_bytes_before_pg_bndry : ℕ → ℕ → ℕ
calc_bytes_before_pg_bndry la size = min_uint64 (2 ^ 12 - la % 2 ^ 12) size

-- The word of which these are the bytes, lowest first.
unfoldable pub little_endian : List ℕ → ℕ
little_endian [] = 0
little_endian (x ∷ xs) = x + 2 ^ 8 * little_endian xs

unfoldable pub ecode : Rw → ℕ
ecode read = 4
ecode write = 6

module _ (sim : LimSimulator) where
  -- The value that was read or the memory that was written, unless an exception is pending.
  unfoldable pub read_word : ℕ → ℕ → LimState sim → Outcome sim ℕ
  read_word pa n s =
      let (v, exception) = sim.read_phys_memory s.memory pa n in
      if exception then aborted else done v s

  unfoldable pub write_word : ℕ → ℕ → ℕ → LimState sim → Outcome sim (Unit {0})
  write_word pa v n s =
      let (m, exception) = sim.write_phys_memory s.memory pa v n in
      if exception then aborted else done tt (record s { memory = m })

  -- The loops over words of 8 bytes, with as many turns left as there are bytes.
  unfoldable pub read_loop : ℕ → ℕ → ℕ → LimState sim → Outcome sim (List ℕ)
  read_loop zero pa remaining_bytes s = done [] s
  read_loop (suc left) pa remaining_bytes s =
      if remaining_bytes == 0
      then done [] s
      else (do
        v ← read_word pa (min_uint64 remaining_bytes 8)
        rest ← read_loop left (add64 pa 8) (remaining_bytes - 8)
        return (bytes_of (min_uint64 remaining_bytes 8) v ++ rest))
          s

  unfoldable pub write_loop : ℕ → ℕ → List ℕ → LimState sim → Outcome sim (Unit {0})
  write_loop zero pa bytes s = done tt s
  write_loop (suc left) pa bytes s =
      if length bytes == 0
      then done tt s
      else (do
        write_word pa (little_endian (take 8 bytes)) (min_uint64 (length bytes) 8)
        write_loop left (add64 pa 8) (drop 8 bytes))
          s

  -- The reads and writes, by a way to translate an address.
  module _ (translate_la_to_pa : ℕ → Rw → LimState sim → Outcome sim ℕ) where
    unfoldable pub read_from_linear_addr_samepage : ℕ → ℕ → LimState sim → Outcome sim (List ℕ)
    read_from_linear_addr_samepage la size = do
      pa ← translate_la_to_pa la read
      assert_that (not (pa == 0))
      read_loop size pa size

    unfoldable pub write_to_linear_addr_samepage :
        ℕ → List ℕ → LimState sim → Outcome sim (Unit {0})
    write_to_linear_addr_samepage la wr_data = do
      assert_that (get_page_addr la == get_page_addr (sub64 (add64 la (length wr_data)) 1))
      pa ← translate_la_to_pa la write
      assert_that (not (pa == 0))
      write_loop (length wr_data) pa wr_data

    unfoldable pub write_rest : ℕ → List ℕ → LimState sim → Outcome sim (Unit {0})
    write_rest la [] = return tt
    write_rest la (x ∷ bytes) = write_to_linear_addr_samepage la (x ∷ bytes)

    unfoldable pub write_to_linear_addr_crosspage :
        ℕ → List ℕ → LimState sim → Outcome sim (Unit {0})
    write_to_linear_addr_crosspage la wr_data = do
      assert_that (leb (length wr_data) 64)
      let bytes_before = calc_bytes_before_pg_bndry la (length wr_data)
      write_to_linear_addr_samepage la (take bytes_before wr_data)
      write_rest (add64 la bytes_before) (drop bytes_before wr_data)

    unfoldable pub read_rest : ℕ → ℕ → LimState sim → Outcome sim (List ℕ)
    read_rest la zero = return []
    read_rest la (suc n) = read_from_linear_addr_samepage la (suc n)

    unfoldable pub read_from_linear_addr_crosspage : ℕ → ℕ → LimState sim → Outcome sim (List ℕ)
    read_from_linear_addr_crosspage la size = do
      assert_that (leb size 64)
      let bytes_before = calc_bytes_before_pg_bndry la size
      before ← read_from_linear_addr_samepage la bytes_before
      after ← read_rest (add64 la bytes_before) (size - bytes_before)
      return (before ++ after)

    unfoldable pub curr_instr_is_prefetch : LimState sim → Outcome sim Bool
    curr_instr_is_prefetch = do
      instr_buf ← read_from_linear_addr_crosspage sim.program_counter 2
      return (little_endian instr_buf == 0x180f)

    unfoldable pub raise_page_fault : ℕ → Rw → LimState sim → Outcome sim (Unit {0})
    raise_page_fault la access_type s =
        if s.is_page_fault
        then aborted
        else page_fault la (ecode access_type)
            (record s { is_encoded_pointer = false; is_page_fault = true })

    unfoldable pub raise_page_fault_exception : ℕ → Rw → LimState sim → Outcome sim (Unit {0})
    raise_page_fault_exception la access_type = do
      prefetch ← curr_instr_is_prefetch
      (if prefetch then return tt else raise_page_fault la access_type)

  unfoldable pub translate_la_to_pa : ℕ → ℕ → Rw → LimState sim → Outcome sim ℕ
  translate_la_to_pa zero la access_type s = exhausted
  translate_la_to_pa (suc fuel) la access_type s =
      let pa_block = sim.logical_to_physical la access_type in
      if pa_block.valid
      then done pa_block.address (record s { is_page_fault = false })
      else (do
        raise_page_fault_exception (translate_la_to_pa fuel) la access_type
        return pa_block.address)
          s
