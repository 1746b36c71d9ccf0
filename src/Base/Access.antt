-- ===== src/Base/Access.antt =====
-- The callbacks before an address is translated and on a memory access, of `C3BaseModel` in
-- modules/common/ccsimics/c3_base_model.h. `none` is a failed assertion, or a write past the buffer of
-- 64 bytes.
use c3_simulator.Common.{
  ℕ, zero, suc, ◌+◌, ◌*◌, ◌/◌, Bool, true, false, not, ◌||◌, ◌==◌, leb, if◌then◌else◌, Option, none,
  some, ◌>>=◌, assert◌then◌, List, [], ◌++◌, add64,
}
use c3_simulator.Ca.Format.{is_encoded_cc_ptr, is_canonical}
use c3_simulator.Data.Countermode.{take, encrypt_decrypt_bytes}
use c3_simulator.Base.Words.{bytes_of}
use c3_simulator.Integrity.Machine.{
  Simulator, Options, Machine, break_simulation, non_canonical_address, record_call_if, decode_la,
}

-- What the simulator says of a handle's access: whether it crosses pages, and which part it is.
pub data PageCrossing : Type 0 where
  no_page_crossing page_crossing_first page_crossing_second : PageCrossing

-- The bytes of an access, with no data where the simulator returns none.
pub record CpuBytes : Type 0 where
  pub size : ℕ
  pub data_or_null : Option (List ℕ)

pub record BaseState : Type 0 where
  pub core : Machine
  pub is_crossing_page_first : Bool
  pub is_crossing_page_second : Bool
  pub total_addr_callback_cnt : ℕ
  pub encoded_addr_callback_cnt : ℕ
  pub non_canonical_count : ℕ
  pub la_mismatch_count : ℕ

abbrev pub set_encoded : Bool → BaseState → BaseState
set_encoded v s = record s { core = record s.core { is_encoded_pointer = v } }

-- At most three warnings; a handle that is no null pointer is asked.
unfoldable pub warn_non_canonical : Bool → BaseState → BaseState
warn_non_canonical break_on_decode_fault s =
    if leb s.non_canonical_count 3
    then record s {
      core = record_call_if break_on_decode_fault (break_simulation non_canonical_address) s.core;
      non_canonical_count = s.non_canonical_count + 1;
    }
    else s

unfoldable pub set_decoded : Bool → ℕ → ℕ → BaseState → BaseState
set_decoded break_on_decode_fault la la_decoded s =
    if is_canonical la_decoded
    then record s { core = record s.core { la_decoded = la_decoded; la_encoded = la } }
    else warn_non_canonical break_on_decode_fault s

unfoldable pub mark_crossing : Option PageCrossing → BaseState → BaseState
mark_crossing (some page_crossing_first) s = record s { is_crossing_page_first = true }
mark_crossing (some page_crossing_second) s = s
mark_crossing (some no_page_crossing) s = s
mark_crossing none s = s

-- Whether the second part of an access is what the simulator says it is.
unfoldable pub is_second : Option PageCrossing → Bool
is_second (some page_crossing_first) = false
is_second (some page_crossing_second) = true
is_second (some no_page_crossing) = false
is_second none = true

unfoldable pub address_before : Bool → ℕ → Option PageCrossing → BaseState → Option (ℕ × BaseState)
address_before break_on_decode_fault la handle s0 =
    let s : BaseState = record s0 { total_addr_callback_cnt = s0.total_addr_callback_cnt + 1 } in
    if is_encoded_cc_ptr la
    then (do
      (la_decoded, m) ← decode_la (record s.core { is_encoded_pointer = true }) la
      some (
        la_decoded,
        mark_crossing handle (
            set_decoded break_on_decode_fault la la_decoded
              (record s { core = m; encoded_addr_callback_cnt = s.encoded_addr_callback_cnt + 1 })),
      ))
    else if s.is_crossing_page_second
    then assert is_second handle
    then some (la, set_encoded true s)
    else some (la, set_encoded false s)

unfoldable pub handle_la_mismatch_on_mem_access : BaseState → BaseState
handle_la_mismatch_on_mem_access s =
    if leb 3 s.la_mismatch_count
    then s
    else set_encoded false (record s {
      la_mismatch_count = s.la_mismatch_count + 1;
      is_crossing_page_first = false;
      is_crossing_page_second = false;
    })

-- The crossing of a page goes on after the first part, and ends with the second.
unfoldable pub next_part : ℕ → BaseState → BaseState
next_part size s =
    if s.is_crossing_page_first
    then record s {
      core = record s.core {
        la_encoded = add64 s.core.la_encoded size;
        la_decoded = add64 s.core.la_decoded size;
      };
      is_crossing_page_first = false;
      is_crossing_page_second = true;
    }
    else record s { is_crossing_page_second = false }

unfoldable pub has_data : CpuBytes → Bool
has_data b = elim b.data_or_null as (λ x. Bool) [ none ↦ false | some bytes ↦ true ]

module _ (sim : Simulator) (o : Options) where
  -- The words of physical memory from word `i` on, as bytes.
  unfoldable pub phys_bytes : Machine → ℕ → ℕ → ℕ → List ℕ
  phys_bytes m pa i zero = []
  phys_bytes m pa i (suc left) =
      bytes_of 8 (sim.read_phys_memory m.calls (pa + i * 8)) ++ phys_bytes m pa (i + 1) left

  unfoldable pub bytes_or_memory : Machine → ℕ → ℕ → Option (List ℕ) → List ℕ
  bytes_or_memory m pa size (some bytes) = bytes
  bytes_or_memory m pa size none = take size (phys_bytes m pa 0 ((size + 7) / 8))

  -- The bytes that the access gets, or `none` where they stay as they are.
  unfoldable pub modified : ℕ → List ℕ → BaseState → Option (List ℕ) × BaseState
  modified size bytes s =
      let bytes_mod = encrypt_decrypt_bytes s.core.la_encoded o.dp_key bytes in
      (if o.disable_data_encryption then none else some bytes_mod, next_part size s)

  unfoldable pub modify_data_on_mem_access :
      ℕ → ℕ → CpuBytes → BaseState → Option (Option (List ℕ) × BaseState)
  modify_data_on_mem_access la pa b s =
      if not s.core.is_encoded_pointer || la == 0 || b.size == 0
      then some (none, s)
      else assert has_data b || leb b.size 64
      then (if la == s.core.la_decoded
          then (assert leb b.size 64
              then some (modified b.size (bytes_or_memory s.core pa b.size b.data_or_null) s))
          else some (none, handle_la_mismatch_on_mem_access s))
