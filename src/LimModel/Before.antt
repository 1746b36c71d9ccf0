-- ===== src/LimModel/Before.antt =====
-- `address_before` of modules/lim_model/model.cpp: the metadata of an encoded pointer, and the checks
-- of its tag and its bounds before the access.
use c3_simulator.Common.{
  ℕ, zero, suc, ◌+◌, ◌*◌, ◌/◌, ◌^◌, Bool, true, false, not, ltb, ◌==◌, ◌&&◌, ◌||◌, if◌then◌else◌,
  add64,
}
use c3_simulator.Base.Access.{
  PageCrossing, no_page_crossing, page_crossing_first, page_crossing_second,
}
use c3_simulator.Integrity.Machine.{read}
use c3_simulator.Lim.Pointer.{
  check_encoded_size, is_encoded_lim_ptr, lim_decode_pointer, get_encoded_size, get_encoded_tag,
  get_metadata_address, get_metadata_size, get_middle_address, get_slot_start, get_slot_end,
}
use c3_simulator.Lim.Metadata.{lim_decode_metadata}
use c3_simulator.LimModel.State.{
  LimSimulator, LimOptions, LimState, Outcome, done, gp_fault, aborted, ◌>>=◌, ◌>>◌, return,
  get_state, change, assert_that, expect,
}
use c3_simulator.LimModel.Memory.{raise_page_fault_exception, translate_la_to_pa}

unfoldable pub is_first : PageCrossing → Bool
is_first page_crossing_first = true
is_first page_crossing_second = false
is_first no_page_crossing = false

unfoldable pub is_second_part : PageCrossing → Bool
is_second_part page_crossing_first = false
is_second_part page_crossing_second = true
is_second_part no_page_crossing = false

-- The metadata that was read: its value and the physical address of its first word.
pub record MetadataWords : Type 0 where
  pub value : ℕ
  pub first_pa : ℕ

module _ (sim : LimSimulator) (o : LimOptions) (fuel : ℕ) where
  -- What it prints has no counterpart, but it knows nothing of the second part of an access.
  unfoldable pub print_access_info : LimState sim → Outcome sim (Unit {0})
  print_access_info s = if is_second_part s.page_crossing_type then aborted else done tt s

  unfoldable pub print_if : Bool → LimState sim → Outcome sim (Unit {0})
  print_if b = if b then print_access_info else return tt

  unfoldable pub is_encoded_addr_debug_en : LimState sim → Bool
  is_encoded_addr_debug_en s = o.debug_on && ltb 0 s.encoded_addr_callback_cnt

  -- The pointer's fields, and where the metadata of its slot stands.
  unfoldable pub decode_fields : ℕ → LimState sim → LimState sim
  decode_fields la s =
      let la_decoded = lim_decode_pointer la in
      let encoded_size = get_encoded_size la in
      record s {
        la_decoded = la_decoded;
        encoded_size = encoded_size;
        la_meta = get_metadata_address la_decoded encoded_size;
        meta_size = get_metadata_size encoded_size;
        encoded_addr_callback_cnt = s.encoded_addr_callback_cnt + 1;
        is_encoded_pointer = true;
      }

  unfoldable pub decode_more : ℕ → LimState sim → LimState sim
  decode_more la s = record s {
    la_encoded = la;
    ptr_tag = get_encoded_tag la;
    la_middle = get_middle_address s.la_decoded s.encoded_size;
  }

  -- Word `i` of the metadata: its physical address and its value.
  unfoldable pub read_metadata_word : ℕ → ℕ → LimState sim → Outcome sim (ℕ × ℕ)
  read_metadata_word la_meta i =
      let la_to_translate = add64 la_meta (i * 8) in
      let pa_meta_block = sim.logical_to_physical la_to_translate read in
      elim pa_meta_block.valid [
        | true ↦ do
          change (λ s. record s { is_page_fault = false })
          s ← get_state
          return (pa_meta_block.address, (sim.read_phys_memory s.memory pa_meta_block.address 8).0)
        | false ↦ do
          raise_page_fault_exception sim (translate_la_to_pa sim fuel) la_to_translate read
          return (sim.uninitialized (2 + i), sim.uninitialized i)
      ]

  -- The words from word `i` on.
  unfoldable pub read_metadata_words : ℕ → ℕ → ℕ → LimState sim → Outcome sim MetadataWords
  read_metadata_words la_meta i zero = return (record { value = 0; first_pa = 0 })
  read_metadata_words la_meta i (suc left) = do
    (pa, word) ← read_metadata_word la_meta i
    rest ← read_metadata_words la_meta (i + 1) left
    return (record { value = word + 2 ^ 64 * rest.value; first_pa = pa })

  unfoldable pub is_tag_mismatch : LimState sim → Bool
  is_tag_mismatch s =
      not (s.ptr_tag == s.dec_meta.tag_left) || not (s.dec_meta.tag_left == s.dec_meta.tag_right)

  -- Bounds that are not within the slot.
  unfoldable pub is_invalid_boundary : LimState sim → Bool
  is_invalid_boundary s =
      ltb s.dec_meta.lower_la (get_slot_start s.la_decoded s.encoded_size)
      || ltb (get_slot_end s.la_decoded s.encoded_size) s.dec_meta.upper_la

  -- A first byte that is not within the bounds.
  unfoldable pub is_oob : LimState sim → Bool
  is_oob s = ltb s.la_decoded s.dec_meta.lower_la || ltb s.dec_meta.upper_la s.la_decoded

  -- A general protection fault does a long jump, and the state is reset before it.
  unfoldable pub fault : {A : Type 0} → LimState sim → Outcome sim A
  fault s = gp_fault (record s { is_encoded_pointer = false })

  unfoldable pub check_tags : LimState sim → Outcome sim (Unit {0})
  check_tags s =
      if not o.disable_meta_check && is_tag_mismatch s
      then (do print_access_info; fault) s
      else done tt s

  -- The address that is returned: 0 stands for a corrupted pointer.
  unfoldable pub return_address : LimState sim → ℕ
  return_address s =
      if not o.disable_meta_check && (is_invalid_boundary s || is_oob s) then 0 else s.la_decoded

  unfoldable pub check_bounds : PageCrossing → LimState sim → Outcome sim ℕ
  check_bounds crossing = do
    change (λ s. record s {
      is_crossing_page_first = if is_first crossing then true else s.is_crossing_page_first;
    })
    s ← get_state
    (if return_address s == 0 then (do print_access_info; fault) else return (return_address s))

  unfoldable pub encoded_before : ℕ → PageCrossing → LimState sim → Outcome sim ℕ
  encoded_before la crossing = do
    assert_that (check_encoded_size (get_encoded_size la))
    change (decode_fields la)
    (if o.trace_only then return (lim_decode_pointer la) else (do
      change (decode_more la)
      s ← get_state
      words ← read_metadata_words s.la_meta 0 ((s.meta_size + 7) / 8)
      dec_meta ← expect (lim_decode_metadata o.trace_only words.value s.meta_size s.la_middle)
      change (λ t. record t {
        pa_meta = words.first_pa;
        dec_meta = dec_meta;
        page_crossing_type = crossing;
      })
      t ← get_state
      print_if (is_encoded_addr_debug_en t)
      check_tags
      check_bounds crossing))

  -- An address that is not encoded, which may be that of the second part of an access.
  unfoldable pub plain_before : ℕ → PageCrossing → LimState sim → Outcome sim ℕ
  plain_before la crossing s = done la (
      if s.is_encoded_pointer && is_second_part crossing
      then record s {
        page_crossing_type = page_crossing_second;
        la_decoded = lim_decode_pointer la;
      }
      else s)

  unfoldable pub address_before : ℕ → ℕ → PageCrossing → LimState sim → Outcome sim ℕ
  address_before la size crossing = do
    change (λ s. record s {
      total_addr_callback_cnt =
          if not (la == 0) && not (size == 0)
          then s.total_addr_callback_cnt + 1
          else s.total_addr_callback_cnt;
    })
    (if is_encoded_lim_ptr la then encoded_before la crossing else plain_before la crossing)
