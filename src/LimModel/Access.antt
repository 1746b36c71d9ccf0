-- ===== src/LimModel/Access.antt =====
-- `modify_data_on_mem_access` of modules/lim_model/model.cpp: the check of the bounds of an access, and
-- the bytes that metadata in the middle of a slot has taken the place of.
use c3_simulator.Common.{
  ℕ, ◌+◌, Bool, false, not, ltb, leb, ◌&&◌, ◌||◌, if◌then◌else◌, Option, none, some, List, ◌++◌,
  add64, sub64,
}
use c3_simulator.Base.Access.{PageCrossing}
use c3_simulator.Data.Countermode.{take, drop}
use c3_simulator.Integrity.Machine.{Rw, read, write}
use c3_simulator.Lim.Metadata.{lim_compute_disp_base}
use c3_simulator.LimModel.State.{
  LimSimulator, LimOptions, LimState, Outcome, done, gp_fault, ◌>>=◌, ◌>>◌, return, get_state,
  expect, break_if,
}
use c3_simulator.LimModel.Memory.{
  min_uint64, max_uint64, translate_la_to_pa, read_from_linear_addr_crosspage,
  write_to_linear_addr_crosspage,
}
use c3_simulator.LimModel.Before.{is_first, print_access_info, fault}

module _ (sim : LimSimulator) (o : LimOptions) (fuel : ℕ) where
  -- The statistics of a trace, and the end of an access in it.
  unfoldable pub count_access : Rw → LimState sim → LimState sim
  count_access read s = record s {
    total_read_cnt = s.total_read_cnt + 1;
    encoded_read_cnt = if s.is_encoded_pointer then s.encoded_read_cnt + 1 else s.encoded_read_cnt;
  }
  count_access write s = record s {
    total_write_cnt = s.total_write_cnt + 1;
    encoded_write_cnt =
        if s.is_encoded_pointer then s.encoded_write_cnt + 1 else s.encoded_write_cnt;
  }

  unfoldable pub trace_access : PageCrossing → Rw → LimState sim → LimState sim
  trace_access crossing rw s0 =
      let s = count_access rw s0 in
      record s {
        is_encoded_pointer =
            if s.is_encoded_pointer && not (is_first crossing) then false else s.is_encoded_pointer;
      }

  -- The first byte below the lower bound stops the simulation, if that is wanted, but is no fault.
  unfoldable pub check_lower : ℕ → LimState sim → Outcome sim (Unit {0})
  check_lower la s =
      if not o.disable_meta_check && ltb la s.dec_meta.lower_la
      then (do print_access_info sim o fuel; break_if o.break_on_decode_fault) s
      else done tt s

  unfoldable pub check_upper : ℕ → LimState sim → Outcome sim (Unit {0})
  check_upper la_last_byte_after_shift s =
      if not o.disable_meta_check && ltb s.dec_meta.upper_la la_last_byte_after_shift
      then (do print_access_info sim o fuel; break_if o.break_on_decode_fault; fault sim o fuel) s
      else done tt s

  -- Where an access overlaps the metadata.
  pub record Overlap : Type 0 where
    pub disp_off : ℕ
    pub disp_acc_start : ℕ
    pub disp_amt : ℕ

  unfoldable pub overlap : ℕ → ℕ → LimState sim → Overlap
  overlap la la_last_byte s =
      let disp_acc_start = if ltb s.la_meta la then sub64 la s.la_meta else 0 in
      let disp_acc_end =
        sub64 (min_uint64 la_last_byte (sub64 (add64 s.la_meta s.meta_size) 1)) s.la_meta in
      record {
        disp_off = sub64 (max_uint64 la s.la_meta) la;
        disp_acc_start = disp_acc_start;
        disp_amt = add64 (sub64 disp_acc_end disp_acc_start) 1;
      }

  -- Displaced data that would be written over the metadata.
  unfoldable pub overwrites_metadata : ℕ → ℕ → LimState sim → Bool
  overwrites_metadata write_start_addr disp_amt s =
      leb s.la_meta write_start_addr && ltb write_start_addr (add64 s.la_meta s.meta_size)
      || ltb write_start_addr s.la_meta && ltb s.la_meta (add64 write_start_addr disp_amt)

  unfoldable pub bad_configuration : LimState sim → Outcome sim (Unit {0})
  bad_configuration = do print_access_info sim o fuel; break_if o.break_on_decode_fault; gp_fault

  -- The bytes at the place of the metadata: for a read those that were displaced, for a write the
  -- metadata itself, the data being written to where it is displaced to.
  unfoldable pub displaced_bytes : Rw → ℕ → ℕ → ℕ → List ℕ → LimState sim → Outcome sim (List ℕ)
  displaced_bytes read access_start write_start_addr disp_amt wr_data =
      read_from_linear_addr_crosspage sim (translate_la_to_pa sim fuel) write_start_addr disp_amt
  displaced_bytes write access_start write_start_addr disp_amt wr_data = do
    metadata ←
        read_from_linear_addr_crosspage sim (translate_la_to_pa sim fuel) access_start disp_amt
    s ← get_state
    (if overwrites_metadata write_start_addr disp_amt s then bad_configuration else return tt)
    write_to_linear_addr_crosspage sim (translate_la_to_pa sim fuel) write_start_addr wr_data
    return metadata

  unfoldable pub displace : ℕ → ℕ → List ℕ → Rw → LimState sim → Outcome sim (Option (List ℕ))
  displace la la_last_byte bytes rw s =
      if leb s.la_meta la_last_byte && ltb la (add64 s.la_meta s.meta_size)
      then (do
        disp_base ← expect (lim_compute_disp_base s.la_meta s.meta_size s.dec_meta)
        let d = overlap la la_last_byte s
        middle ←
            displaced_bytes rw (add64 la d.disp_off) (add64 disp_base d.disp_acc_start) d.disp_amt
              (take d.disp_amt (drop d.disp_off bytes))
        return (some (take d.disp_off bytes ++ (middle ++ drop (d.disp_off + d.disp_amt) bytes))))
          s
      else done none s
