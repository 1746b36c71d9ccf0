-- ===== src/LimModel/Tests.antt =====
-- The theorems on the LIM model at concrete inputs.
use c3_simulator.Common.{
  ℕ, zero, suc, ◌+◌, ◌-◌, ◌/◌, ◌%◌, ◌^◌, ◌<◌, ◌≡◌, refl, ap₂, ◌∙◌, arith, Bool, true, false, ltb,
  leb, ◌==◌, ◌&&◌, if◌then◌else◌, List, [], ◌∷◌, length, get_or, ◌⊎◌, Option,
}
use c3_simulator.Base.Access.{no_page_crossing}
use c3_simulator.Base.Words.{bytes_of}
use c3_simulator.Data.Stream.{AreBytes}
use c3_simulator.Integrity.Machine.{read, write}
use c3_simulator.LimModel.State.{LimSimulator, LimOptions, LimState, done, gp_fault, page_fault}
use c3_simulator.LimModel.Memory.{little_endian, ecode, translate_la_to_pa}
use c3_simulator.LimModel.Bytes.{bytes_at, overlay}
use c3_simulator.LimModel.Mapped.{IsMapped}
use c3_simulator.Lim.Pointer.{
  is_encoded_lim_ptr, check_encoded_size, get_encoded_size, lim_decode_pointer, get_slot_end,
  get_metadata_address, get_middle_address, get_metadata_offset_from_middle, get_metadata_size,
  get_slot_size_in_bytes,
}
use c3_simulator.Lim.Metadata.{DecodedMetadata, lim_decode_metadata, decode_bound}
use c3_simulator.LimModel.Before.{is_second_part}
use c3_simulator.LimModel.Callback.{modify_data_on_mem_access}
use c3_simulator.LimModel.Views.{view, Holds}
use c3_simulator.LimModel.Places.{data_address}
use c3_simulator.LimModel.Displaced.{Fits}
use c3_simulator.LimModel.Refines.{or_given, with_bytes}
use c3_simulator.LimModel.Words.{metadata_word, metadata_words}
use c3_simulator.LimModel.Lookup.{meta_address, meta_bytes, HasMetadata}
use c3_simulator.LimModel.Logical.{logical, read_logical, write_logical}
use c3_simulator.LimModel.Faults.{IsFetched, translate_la_to_pa-ends}
use c3_simulator.LimModel.Shifted.{shifted_address, read_shifted}
use c3_simulator.LimModel.ShiftedWrite.{write_shifted}
use c3_simulator.LimModel.Safety.{Admits, load, load_lem}

abbrev byte_of : (ℕ → ℕ) → ℕ → ℕ
byte_of m x = m x % 2 ^ 8

-- Pages one after the other, from the second physical one on.
abbrev flat : LimSimulator
flat = record {
  Memory = ℕ → ℕ;
  logical_to_physical = λ la rw. record { valid = ltb la (2 ^ 56); address = la + 2 ^ 12 };
  read_phys_memory = λ m p n. (little_endian (bytes_at (byte_of m) p n), false);
  write_phys_memory = λ m p v n. (overlay m p (bytes_of n v), false);
  program_counter = 0x400000;
  uninitialized = λ k. 0;
}

get_or-lt : (bytes : List ℕ) (k : ℕ) → AreBytes bytes → get_or bytes k 0 < 2 ^ 8
unfolding AreBytes
get_or-lt [] k h = omega arith
get_or-lt (b ∷ bytes) zero h = h.0
get_or-lt (b ∷ bytes) (suc k) h = get_or-lt bytes k h.1

bytes_of-AreBytes : (n v : ℕ) → AreBytes (bytes_of n v)
unfolding AreBytes bytes_of
bytes_of-AreBytes zero v = tt
bytes_of-AreBytes (suc n) v = (omega arith, bytes_of-AreBytes n _)

choose_mod :
    (b : Bool) (x y : ℕ) → x < 2 ^ 8 → (if b then x else y) % 2 ^ 8 ≡ (if b then x else y % 2 ^ 8)
choose_mod true x y h = omega (arith, h)
choose_mod false x y h = refl

stored :
    (m : ℕ → ℕ) (p : ℕ) (bytes : List ℕ) (x : ℕ)
    → AreBytes bytes
    → byte_of (overlay m p bytes) x ≡ overlay (byte_of m) p bytes x
unfolding overlay
stored m p bytes x h =
    choose_mod (leb p x && ltb x (p + length bytes)) _ (m x) (get_or-lt bytes (x - p) h)

translated : (la : ℕ) → la < 2 ^ 56 → ltb la (2 ^ 56) ≡ true
translated la h = ground arith

abbrev flat_mapped : IsMapped flat
flat_mapped = record {
  pa = λ la. la + 2 ^ 12;
  byte = byte_of;
  valid = λ la rw h. translated la h;
  address = λ la rw h. refl;
  pa_pos = λ la h. omega arith;
  pa-lt = λ la h. omega arith;
  pa-add = λ la k h h'. omega arith;
  pa_inj = λ x y hx hy e. omega (arith, e);
  byte-lt = λ m x. omega arith;
  reads = λ m p n h. refl;
  no_exception = λ m p v n. refl;
  writes = λ m p v n x h. stored m p (bytes_of n v) x (bytes_of-AreBytes n v);
}

-- Metadata of one byte in the middle of a slot of 64 bytes: the tag 5 and bounds at both ends of the slot.
abbrev dec_meta : DecodedMetadata
dec_meta = record { tag_left = 5; tag_right = 5; lower_la = 0x10000; upper_la = 0x1003f }

abbrev memory : ℕ → ℕ
memory x = if x == 0x11020 then 0xf5 else x

abbrev options : LimOptions
options = record {
  debug_on = false;
  trace_only = false;
  disable_meta_check = false;
  break_on_decode_fault = false;
  data_disp = true;
}

-- A state in which `address_before` has returned 0x1001c.
abbrev state : LimState flat
state = record {
  memory = memory;
  breaks = 0;
  la_encoded = 0x194000000001001c;
  la_decoded = 0x1001c;
  is_encoded_pointer = true;
  is_crossing_page_first = false;
  is_crossing_page_second = false;
  is_page_fault = false;
  encoded_addr_callback_cnt = 1;
  total_read_cnt = 0;
  total_write_cnt = 0;
  encoded_read_cnt = 0;
  encoded_write_cnt = 0;
  total_addr_callback_cnt = 1;
  ptr_tag = 5;
  encoded_size = 6;
  la_middle = 0x10020;
  la_meta = 0x10020;
  pa_meta = 0x11020;
  meta_size = 1;
  dec_meta = dec_meta;
  page_crossing_type = no_page_crossing;
}

state-Fits : Fits 0x1001c 8 state
state-Fits = record {
  encoded = refl;
  decoded = refl;
  la_pos = omega arith;
  size_pos = omega arith;
  size_fits = omega arith;
  meta_pos = omega arith;
  lower = omega arith;
  upper = omega arith;
  top = omega arith;
  meta_top = omega arith;
}

read_logical_example :
    (r : Option (List ℕ)) × (t : LimState flat) × (modify_data_on_mem_access flat options 2 0x1001c
        (with_bytes (bytes_at (view flat_mapped memory) 0x1001c 8))
        no_page_crossing
        read
        state
      ≡ done r t)
    × (or_given r (bytes_at (view flat_mapped memory) 0x1001c 8)
        ≡ bytes_at (logical flat_mapped state memory) 0x1001c 8)
    × (t.memory ≡ memory)
read_logical_example =
    read_logical flat_mapped options 1 0x1001c no_page_crossing refl refl 8 state state-Fits

abbrev written : List ℕ
written = 1 ∷ 2 ∷ 3 ∷ 4 ∷ 5 ∷ 6 ∷ 7 ∷ 8 ∷ []

written-AreBytes : AreBytes written
unfolding AreBytes
written-AreBytes = (
  omega arith,
  (
    omega arith,
    (omega arith, (omega arith, (omega arith, (omega arith, (omega arith, (omega arith, tt)))))),
  ),
)

-- What the processor does with the bytes that it is given.
abbrev store : (ℕ → ℕ) → ℕ → List ℕ → ℕ → ℕ
store m p bytes = overlay m (p + 2 ^ 12) bytes

overlay_shift :
    (f : ℕ → ℕ) (p : ℕ) (bytes : List ℕ) (x : ℕ)
    → overlay f (p + 2 ^ 12) bytes (x + 2 ^ 12) ≡ overlay (λ y. f (y + 2 ^ 12)) p bytes x
unfolding overlay
overlay_shift f p bytes x =
    let same : (leb (p + 2 ^ 12) (x + 2 ^ 12) && ltb (x + 2 ^ 12) (p + 2 ^ 12 + length bytes))
        ≡ (leb p x && ltb x (p + length bytes)) =
      ground arith in
    ap₂ (λ b k. if b then get_or bytes k 0 else f (x + 2 ^ 12)) same (omega arith)

store-Holds :
    (m : ℕ → ℕ) (p : ℕ) (bytes : List ℕ)
    → AreBytes bytes
    → Holds flat_mapped m p bytes (store m p bytes)
unfolding Holds
store-Holds m p bytes h x small =
    stored m (p + 2 ^ 12) bytes (x + 2 ^ 12) h ∙ overlay_shift (byte_of m) p bytes x

write_logical_example :
    (r : Option (List ℕ)) × (t : LimState flat) × (modify_data_on_mem_access flat options 2 0x1001c
        (with_bytes written)
        no_page_crossing
        write
        state
      ≡ done r t)
    × (logical flat_mapped state (store t.memory 0x1001c (or_given r written)) 0x10020
        ≡ overlay (logical flat_mapped state memory) 0x1001c written 0x10020)
    × (view flat_mapped (store t.memory 0x1001c (or_given r written)) 0x10020
        ≡ view flat_mapped memory 0x10020)
write_logical_example =
    write_logical flat_mapped options 1 0x1001c no_page_crossing refl refl store store-Holds 0x10020
      0x10020 written state written-AreBytes state-Fits (omega arith) (omega arith) (omega arith)

load_lem_example :
    (Admits 0x194000000001001c 8 dec_meta
      × ((r : Option (List ℕ)) × (t : LimState flat) × (load flat_mapped options 2 no_page_crossing
              0x194000000001001c 8 state
            ≡ done r t)
          × (or_given r
                (bytes_at (view flat_mapped memory) (lim_decode_pointer 0x194000000001001c) 8)
              ≡ bytes_at
                  (λ x. view flat_mapped memory (
                    data_address
                      (meta_address 0x194000000001001c)
                      (meta_bytes 0x194000000001001c)
                      0x1003f
                      x))
                  (lim_decode_pointer 0x194000000001001c)
                  8)))
    ⊎ ((¬ Admits 0x194000000001001c 8 dec_meta)
        × ((t : LimState flat) × (load flat_mapped options 2 no_page_crossing 0x194000000001001c 8
                state
              ≡ gp_fault t)
            × (t.is_encoded_pointer ≡ false)))
unfolding is_encoded_lim_ptr check_encoded_size get_encoded_size lim_decode_pointer get_slot_end
    get_metadata_address get_middle_address get_metadata_offset_from_middle HasMetadata
    get_metadata_size get_slot_size_in_bytes is_second_part lim_decode_metadata metadata_words
    metadata_word little_endian bytes_at decode_bound
load_lem_example =
    load_lem options 1 no_page_crossing refl refl refl flat_mapped refl 0x194000000001001c 8
      dec_meta state refl refl (omega arith) (omega arith) (omega arith) refl (omega arith)
      (omega arith)

-- Only the page of the instruction is mapped.
abbrev one_page : LimSimulator
one_page = record flat {
  logical_to_physical =
      λ la rw. record { valid = la / 2 ^ 12 == 0x400; address = la % 2 ^ 12 + 2 ^ 12 };
}

abbrev one_page_state : LimState one_page
one_page_state = record {
  memory = memory;
  breaks = 0;
  la_encoded = 0x194000000001001c;
  la_decoded = 0x1001c;
  is_encoded_pointer = true;
  is_crossing_page_first = false;
  is_crossing_page_second = false;
  is_page_fault = true;
  encoded_addr_callback_cnt = 1;
  total_read_cnt = 0;
  total_write_cnt = 0;
  encoded_read_cnt = 0;
  encoded_write_cnt = 0;
  total_addr_callback_cnt = 1;
  ptr_tag = 5;
  encoded_size = 6;
  la_middle = 0x10020;
  la_meta = 0x10020;
  pa_meta = 0x11020;
  meta_size = 1;
  dec_meta = dec_meta;
  page_crossing_type = no_page_crossing;
}

one_page-IsFetched : IsFetched one_page one_page_state 0x0100
unfolding little_endian bytes_at
one_page-IsFetched = record {
  pa = 2 ^ 12;
  page = omega arith;
  mapped = refl;
  address = refl;
  pa_pos = omega arith;
  reads = refl;
  is_word = omega arith;
}

translate_la_to_pa-ends_example : translate_la_to_pa one_page 2 0x10020 write one_page_state ≡ (
    if 0x0100 == 0x180f
    then done (0x20 + 2 ^ 12) (record one_page_state { is_page_fault = false })
    else page_fault 0x10020
        (ecode write)
        (record one_page_state { is_encoded_pointer = false; is_page_fault = true }))
translate_la_to_pa-ends_example =
    translate_la_to_pa-ends one_page 0 0x0100 one_page_state one_page-IsFetched 0x10020 write refl

abbrev shifting : LimOptions
shifting = record options { data_disp = false }

read_shifted_example :
    (r : Option (List ℕ)) × (t : LimState flat) × (modify_data_on_mem_access flat shifting 2 0x1001c
        (with_bytes (bytes_at (view flat_mapped memory) 0x1001c 8))
        no_page_crossing
        read
        state
      ≡ done r t)
    × (or_given r (bytes_at (view flat_mapped memory) 0x1001c 8)
        ≡ bytes_at (λ x. view flat_mapped memory (shifted_address 0x10020 1 x)) 0x1001c 8)
    × (t.memory ≡ memory)
read_shifted_example =
    read_shifted flat_mapped shifting 1 0x1001c 8 no_page_crossing state refl refl state-Fits
      (omega arith)

write_shifted_example :
    (r : Option (List ℕ)) × (t : LimState flat) × (modify_data_on_mem_access flat shifting 2 0x1001c
        (with_bytes written)
        no_page_crossing
        write
        state
      ≡ done r t)
    × (view flat_mapped
          (store t.memory 0x1001c (or_given r written))
          (shifted_address 0x10020 1 0x10022)
        ≡ overlay
            (λ z. view flat_mapped memory (shifted_address 0x10020 1 z))
            0x1001c
            written
            0x10022)
    × (view flat_mapped (store t.memory 0x1001c (or_given r written)) 0x10020
        ≡ view flat_mapped memory 0x10020)
write_shifted_example =
    write_shifted flat_mapped shifting 1 0x1001c no_page_crossing refl refl store store-Holds
      0x10022 0x10020 written state written-AreBytes state-Fits (omega arith) (omega arith)
      (omega arith) (omega arith)
