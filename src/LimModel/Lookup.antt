-- ===== src/LimModel/Lookup.antt =====
-- What `address_before` of modules/lim_model/model.cpp knows of an encoded pointer once it has read the
-- metadata, on a simulator that translates its addresses.
use c3_simulator.Common.{
  ℕ, suc, ◌+◌, ◌-◌, ◌*◌, ◌/◌, ◌^◌, ◌<◌, ◌≡◌, refl, ap, ap₂, sym, ◌∙◌, arith, Bool, true, false, not,
  ◌==◌, ◌&&◌, if◌then◌else◌, if_true, if_false, some,
}
use c3_simulator.Base.Access.{PageCrossing}
use c3_simulator.Lim.Pointer.{
  check_encoded_size, lim_decode_pointer, get_encoded_size, get_metadata_address, get_metadata_size,
  get_middle_address,
}
use c3_simulator.Lim.Metadata.{DecodedMetadata, lim_decode_metadata}
use c3_simulator.LimModel.State.{
  LimSimulator, LimOptions, LimState, done, ◌>>◌, after_done, run_false, expect,
}
use c3_simulator.LimModel.Before.{
  is_second_part, print_access_info, print_if, decode_fields, decode_more, is_encoded_addr_debug_en,
  read_metadata_words, check_tags, check_bounds, encoded_before,
}
use c3_simulator.LimModel.Mapped.{IsMapped}
use c3_simulator.LimModel.Views.{settled}
use c3_simulator.LimModel.Words.{metadata_words, read_metadata_words_lem}

-- Where the metadata of an encoded pointer stands, and its size.
abbrev pub meta_address : ℕ → ℕ
meta_address la = get_metadata_address (lim_decode_pointer la) (get_encoded_size la)

abbrev pub meta_bytes : ℕ → ℕ
meta_bytes la = get_metadata_size (get_encoded_size la)

module _ {sim : LimSimulator} (i : IsMapped sim) where
  -- The metadata that the memory holds for an encoded pointer.
  unfoldable pub HasMetadata : sim.Memory → ℕ → DecodedMetadata → Type 0
  HasMetadata m la dec =
      lim_decode_metadata false (metadata_words i m (meta_address la) 0 ((meta_bytes la + 7) / 8))
        (meta_bytes la) (get_middle_address (lim_decode_pointer la) (get_encoded_size la))
      ≡ some dec

  -- The state of the checks.
  abbrev pub looked_up :
      LimOptions → ℕ → ℕ → PageCrossing → ℕ → DecodedMetadata → LimState sim → LimState sim
  looked_up o fuel la crossing pa_meta dec s =
      record (settled i (decode_more sim o fuel la (decode_fields sim o fuel la s))) {
        pa_meta = pa_meta;
        dec_meta = dec;
        page_crossing_type = crossing;
      }

  -- An access of no bytes, or at 0, is not counted.
  abbrev pub counted : ℕ → ℕ → LimState sim → LimState sim
  counted la size s = record s {
    total_addr_callback_cnt =
        if not (la == 0) && not (size == 0)
        then s.total_addr_callback_cnt + 1
        else s.total_addr_callback_cnt;
  }

  module _ (o : LimOptions) (fuel la : ℕ) (crossing : PageCrossing) (dec : DecodedMetadata)
      (whole : is_second_part crossing ≡ false) where
    pub print_lem :
        (s : LimState sim)
        → s.page_crossing_type ≡ crossing
        → print_access_info sim o fuel s ≡ done tt s
    unfolding print_access_info
    print_lem s e = if_false _ (ap is_second_part e ∙ whole)

    print_if_lem :
        (b : Bool) (s : LimState sim)
        → s.page_crossing_type ≡ crossing
        → print_if sim o fuel b s ≡ done tt s
    unfolding print_if
    print_if_lem true s e = print_lem s e
    print_if_lem false s e = refl

    pub encoded_before_lem :
        (s : LimState sim)
        → o.trace_only ≡ false
        → check_encoded_size (get_encoded_size la) ≡ true
        → meta_address la + 16 < 2 ^ 56
        → HasMetadata s.memory la dec
        → (p : ℕ) × (encoded_before sim o fuel la crossing s
            ≡ (do check_tags sim o fuel; check_bounds sim o fuel crossing)
                (looked_up o fuel la crossing p dec s))
    unfolding encoded_before decode_fields decode_more HasMetadata get_metadata_size
    encoded_before_lem s traced size_ok low holds =
        let left = (meta_bytes la - 1) / 8 in
        let words : (meta_bytes la + 7) / 8 ≡ suc left = ground arith in
        let small : meta_address la + (1 + left) * 8 < 2 ^ 56 = ground arith in
        let s1 : LimState sim = decode_more sim o fuel la (decode_fields sim o fuel la s) in
        let (p, e) = read_metadata_words_lem i o fuel (meta_address la) left s1 small in
        (
          p,
          after_done _ (if_true _ size_ok)
              ∙ run_false _ _ (decode_fields sim o fuel la s) traced
              ∙ after_done _
                  (ap (λ n. read_metadata_words sim o fuel (meta_address la) 0 n s1) words ∙ e)
              ∙ after_done _ (
                  ap (λ d. expect d (settled i s1))
                    (ap₂
                        (λ b n.
                          lim_decode_metadata b (metadata_words i s.memory (meta_address la) 0 n)
                            (meta_bytes la)
                            (get_middle_address (lim_decode_pointer la) (get_encoded_size la)))
                        traced (sym words)
                      ∙ holds))
              ∙ after_done _ (
                  print_if_lem
                    (is_encoded_addr_debug_en sim o fuel (looked_up o fuel la crossing p dec s))
                    (looked_up o fuel la crossing p dec s) refl),
        )
