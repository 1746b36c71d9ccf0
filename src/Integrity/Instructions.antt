-- ===== src/Integrity/Instructions.antt =====
-- The instructions that change ICVs: modules/common/ccsimics/integrity.h.
use c3_simulator.Common.{
  ℕ, zero, suc, ◌+◌, Bool, false, not, ltb, ◌==◌, if◌then◌else◌, Option, none, some, ◌>>=◌,
  assert◌then◌, u64, add64, sub64, ◌<<<◌, ◌>>>◌,
}
use c3_simulator.Ca.Format.{is_encoded_cc_ptr}
use c3_simulator.Base.Words.{encrypt_decrypt_u64}
use c3_simulator.Integrity.Icv.{
  slot_size_in_bits, invalid_icv, icv_addr, icv_uninitialize, icv_preinit_enable,
  is_icv_preinit_enabled,
}
use c3_simulator.Integrity.Machine.{
  write, on_invalidate_icv, on_initialize_icv, non_ca_preinit, non_ca, bad_translation,
  break_simulation, write_phys_memory, raise, raise_if, Simulator, Options, Machine, record_call,
  record_call_if, get_icv, store_icv, decode_la, icv_fault_on_write_mismatch, icv_fail,
}
use c3_simulator.Integrity.Check.{align_down, get_icv_index, set_icv}

abbrev pub no_index : ℕ
no_index = 0xFFFFFFFFFFFFFFFF

-- `write_mem_8B`, with the translation given
unfoldable pub write_at : Option ℕ → ℕ → Machine → Machine
write_at none value s = raise bad_translation s
write_at (some pa) value s = record_call s (write_phys_memory pa value)

unfoldable pub write_mem_8B : Simulator → ℕ → ℕ → Machine → Machine
write_mem_8B sim la value s = write_at (sim.logical_to_physical la) value s

-- The index of the granule that a CA points to.
unfoldable pub index_of_ca : Simulator → ℕ → Machine → Option (ℕ × ℕ × Machine)
index_of_ca sim ptr s = do
  (la, s') ← decode_la s ptr
  icv_index ← get_icv_index sim la
  assert not (icv_index == no_index) then some (la, icv_index, s')

unfoldable pub invalidate_icv : Simulator → Options → ℕ → Machine → Option Machine
invalidate_icv sim o ptr s =
    if is_encoded_cc_ptr ptr
    then (do
      (la, icv_index, s') ← index_of_ca sim ptr s
      stored_icv ← get_icv s' icv_index
      (if icv_addr ptr == stored_icv
          then store_icv s' icv_index invalid_icv
          else some (raise_if (icv_fault_on_write_mismatch o s') icv_fail s')))
    else some (raise on_invalidate_icv (record_call_if o.debug_on (break_simulation non_ca) s))

-- The ICV is set after the word is written, if its address has a translation.
unfoldable pub set_unless_faulted : ℕ → ℕ → Machine → Option Machine
set_unless_faulted icv_index ca s = if s.faulted then some s else set_icv icv_index ca write s

unfoldable pub initialize_icv : Simulator → Options → ℕ → ℕ → Machine → Option Machine
initialize_icv sim o ca val s =
    if is_encoded_cc_ptr ca
    then (do
      (la, icv_index, s') ← index_of_ca sim ca s
      let enc_val = if o.disable_data_encryption then val else encrypt_decrypt_u64 ca val o.dp_key
      set_unless_faulted icv_index ca (write_mem_8B sim la enc_val (record s' { faulted = false })))
    else some (raise on_initialize_icv (record_call_if o.debug_on (break_simulation non_ca) s))

unfoldable pub pre_init_icv : Simulator → ℕ → Machine → Option Machine
pre_init_icv sim ptr s =
    if is_encoded_cc_ptr ptr
    then (do
      (la, icv_index, s') ← index_of_ca sim ptr s
      stored_icv ← get_icv s' icv_index
      (if is_icv_preinit_enabled stored_icv
          then some s'
          else store_icv s' icv_index (icv_uninitialize (icv_preinit_enable stored_icv))))
    else some (record_call s (break_simulation non_ca_preinit))

-- A slot away from an address, forwards or backwards.
unfoldable pub slot_away : Bool → ℕ → ℕ → ℕ
slot_away back x i =
    if back then sub64 x (u64 (i <<< slot_size_in_bits)) else add64 x (i <<< slot_size_in_bits)

unfoldable pub la_to_icv_i : Simulator → ℕ → ℕ → Bool → Option ℕ
la_to_icv_i sim la i back = do
  icv_index ← get_icv_index sim (slot_away back la i)
  assert not (icv_index == no_index) then some icv_index

unfoldable pub dst_to_icv : ℕ → ℕ → ℕ → Bool → ℕ
dst_to_icv dst i old_icv back =
    if not (is_encoded_cc_ptr dst)
    then 0
    else if old_icv == invalid_icv
    then invalid_icv
    else icv_addr (slot_away back dst i)

-- One ICV of the destination, from slot `j` of the source in the direction `from`.
unfoldable pub copy_icv : Simulator → ℕ → ℕ → ℕ → Bool → ℕ → Bool → ℕ → Machine → Option Machine
copy_icv sim dst la_dst la_src from j back i s = do
  src_i ← la_to_icv_i sim la_src j from
  val ← get_icv s src_i
  dst_i ← la_to_icv_i sim la_dst i back
  store_icv s dst_i (dst_to_icv dst i val back)

-- The turns `i`, `i + 1`, ... of the loop.
unfoldable pub copy_icv_loop : Simulator → ℕ → ℕ → ℕ → Bool → ℕ → ℕ → Machine → Option Machine
copy_icv_loop sim dst la_dst la_src back zero i s = some s
copy_icv_loop sim dst la_dst la_src back (suc left) i s = do
  s' ← copy_icv sim dst la_dst la_src back i back i s
  copy_icv_loop sim dst la_dst la_src back left (i + 1) s'

-- The number of slots from `a`, rounded down, to `b`, rounded up.
unfoldable pub icv_n : ℕ → ℕ → ℕ
icv_n a b = sub64 (align_down (add64 b 7)) (align_down a) >>> slot_size_in_bits

unfoldable pub slots_of : Bool → ℕ → ℕ → ℕ
slots_of back la n = if back then icv_n (sub64 la n) la else icv_n la (add64 la n)

unfoldable pub decode_if_ca : ℕ → Machine → Option (ℕ × Machine)
decode_if_ca ptr s = if is_encoded_cc_ptr ptr then decode_la s ptr else some (ptr, s)

unfoldable pub copy_icvs : Simulator → ℕ → ℕ → ℕ → Bool → Machine → Option Machine
copy_icvs sim dst src n back s = do
  (la_dst, s1) ← decode_if_ca dst s
  (la_src, s2) ← decode_if_ca src s1
  let src_icv_n = slots_of back la_src n
  let dst_icv_n = slots_of back la_dst n
  let turns = if ltb src_icv_n dst_icv_n then src_icv_n else dst_icv_n
  s3 ← copy_icv_loop sim dst la_dst la_src back turns 0 s2
  (if ltb src_icv_n dst_icv_n
      then copy_icv sim dst la_dst la_src (not back) 1 back turns s3
      else some s3)
