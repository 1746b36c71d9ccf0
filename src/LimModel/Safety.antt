-- ===== src/LimModel/Safety.antt =====
-- A whole load through an encoded pointer, of modules/lim_model/model.cpp: `address_before` and then
-- `modify_data_on_mem_access`.
use c3_simulator.Common.{
  ℕ, suc, ◌+◌, ◌^◌, ◌≤◌, ◌<◌, ◌≡◌, refl, ap, ap₂, ◌∙◌, arith, true, false, not, ltb, ◌==◌, ◌&&◌,
  ◌||◌, if◌then◌else◌, if_true, if_false, ==_eq, ne→==, dec_le, ℕ_discrete, ◌⊎◌, inl, inr, Option,
  List, length, add64, sub64,
}
use c3_simulator.Base.Access.{PageCrossing}
use c3_simulator.Integrity.Machine.{Rw, read}
use c3_simulator.Lim.Pointer.{
  check_encoded_size, is_encoded_lim_ptr, lim_decode_pointer, get_encoded_size, get_encoded_tag,
  get_slot_start, get_slot_end, get_metadata_size,
}
use c3_simulator.Lim.Metadata.{DecodedMetadata}
use c3_simulator.LimModel.State.{
  LimSimulator, LimOptions, LimState, Outcome, done, gp_fault, ◌>>=◌, ◌>>◌, after_done, after_fault,
  run_true,
}
use c3_simulator.LimModel.Before.{
  is_second_part, decode_fields, decode_more, print_access_info, fault, check_tags, check_bounds,
  address_before,
}
use c3_simulator.LimModel.Access.{check_lower, check_upper}
use c3_simulator.LimModel.Callback.{modify_data_on_mem_access, modify_encoded}
use c3_simulator.LimModel.Bytes.{bytes_at, length-bytes_at}
use c3_simulator.LimModel.Mapped.{IsMapped}
use c3_simulator.LimModel.Views.{view}
use c3_simulator.LimModel.Places.{data_address}
use c3_simulator.LimModel.Displaced.{Fits}
use c3_simulator.LimModel.Refines.{or_given, with_bytes}
use c3_simulator.LimModel.Logical.{read_logical}
use c3_simulator.LimModel.Lookup.{
  meta_address, meta_bytes, HasMetadata, looked_up, counted, encoded_before_lem,
}
use c3_simulator.LimModel.Checks.{
  faulted, flagged, TagsAgree, InBounds, tags_pass, tags_fail, bounds_pass, bounds_fail,
}

-- What metadata allows: the tag of the pointer, bounds in its slot, and an access within them that ends
-- as many bytes below the upper one as the metadata takes.
unfoldable pub Admits : ℕ → ℕ → DecodedMetadata → Type 0
Admits la n dec =
    let address = lim_decode_pointer la in
    (get_encoded_tag la ≡ dec.tag_left)
    × (dec.tag_left ≡ dec.tag_right)
    × (get_slot_start address (get_encoded_size la) ≤ dec.lower_la)
    × (dec.upper_la ≤ get_slot_end address (get_encoded_size la))
    × (dec.lower_la ≤ address)
    × (address + n + meta_bytes la ≤ dec.upper_la + 1)

-- A load of what the memory holds at the address that the pointer is decoded to.
unfoldable pub load :
    {sim : LimSimulator}
    → IsMapped sim
    → LimOptions
    → ℕ
    → PageCrossing
    → ℕ
    → ℕ
    → LimState sim
    → Outcome sim (Option (List ℕ))
load {sim = sim} i o fuel crossing la n s =
    (do
      a ← address_before sim o fuel la n crossing
      modify_data_on_mem_access sim o fuel a (with_bytes (bytes_at (view i s.memory) a n)) crossing
          read)
      s

dec_both : {A B : Type 0} → Dec A → Dec B → Dec (A × B)
dec_both (yes a) (yes b) = yes (a, b)
dec_both (yes a) (no h) = no λ p. h p.1
dec_both (no h) b = no λ p. h p.0

module _ {sim : LimSimulator} where
  dec_TagsAgree : (s : LimState sim) → Dec (TagsAgree s)
  dec_TagsAgree s = dec_both (ℕ_discrete _ _) (ℕ_discrete _ _)

  dec_InBounds : (s : LimState sim) → Dec (InBounds s)
  dec_InBounds s =
      elim (dec_both
        (dec_both (dec_le (get_slot_start s.la_decoded s.encoded_size) s.dec_meta.lower_la)
          (dec_le s.dec_meta.upper_la (get_slot_end s.la_decoded s.encoded_size)))
        (dec_both (dec_le s.dec_meta.lower_la s.la_decoded)
          (dec_le s.la_decoded s.dec_meta.upper_la))) [
            | yes p ↦ yes (p.0.0, p.0.1, p.1.0, p.1.1)
            | no h ↦ no λ p. h ((p.0, p.1), (p.2, p.3))
          ]

decoded_small : (la : ℕ) → lim_decode_pointer la < 2 ^ 56
unfolding lim_decode_pointer
decoded_small la = omega arith

meta_bytes_small : (la : ℕ) → (1 ≤ meta_bytes la) × (meta_bytes la ≤ 16)
unfolding get_metadata_size
meta_bytes_small la = (ground arith, ground arith)

module _ {sim : LimSimulator} (o : LimOptions) (fuel : ℕ) (crossing : PageCrossing)
    (traced : o.trace_only ≡ false) (checked : o.disable_meta_check ≡ false)
    (whole : is_second_part crossing ≡ false) where
  -- An access that ends too high, through a pointer that passed the checks of `address_before`.
  too_high :
      (rw : Rw) (bytes : List ℕ) (s : LimState sim)
      → s.is_encoded_pointer ≡ true
      → s.page_crossing_type ≡ crossing
      → 1 ≤ s.la_decoded
      → 1 ≤ length bytes
      → s.dec_meta.lower_la ≤ s.la_decoded
      → s.dec_meta.upper_la + 1 < s.la_decoded + length bytes + s.meta_size
      → s.la_decoded + length bytes + s.meta_size < 2 ^ 64
      → (t : LimState sim) × (modify_data_on_mem_access sim o
            (suc fuel)
            s.la_decoded
            (with_bytes bytes)
            crossing
            rw
            s
          ≡ gp_fault t)
        × (t.is_encoded_pointer ≡ false)
  unfolding modify_data_on_mem_access modify_encoded check_lower check_upper fault print_access_info
  too_high rw bytes s enc at_s pos n_pos low high small =
      let is_la : (s.la_decoded == s.la_decoded) ≡ true = ==_eq s.la_decoded s.la_decoded refl in
      let not_null : (s.la_decoded == 0) ≡ false =
        ne→== s.la_decoded 0 (λ e. absurd (omega (arith, pos, e))) in
      let below : ltb s.la_decoded s.dec_meta.lower_la ≡ false = ground (arith, low) in
      let above : ltb s.dec_meta.upper_la
            (add64 (sub64 (add64 s.la_decoded (length bytes)) 1) s.meta_size)
          ≡ true =
        ground arith in
      (
        faulted (if o.break_on_decode_fault then record s { breaks = s.breaks + 1 } else s),
        if_false _ traced
            ∙ if_false _ (ap₂ (λ a b. not a || b) enc not_null)
            ∙ if_false _ (ap not is_la)
            ∙ after_done _ (if_false _ (ap₂ (λ a b. not a && b) checked below))
            ∙ after_fault _ (
                if_true _ (ap₂ (λ a b. not a && b) checked above)
                ∙ after_done _ (if_false _ (ap is_second_part at_s ∙ whole))),
        refl,
      )

  module _ (i : IsMapped sim) (disp : o.data_disp ≡ true) (la n : ℕ) (dec : DecodedMetadata) where
    abbrev address : ℕ
    address = lim_decode_pointer la

    before_lem :
        (s : LimState sim)
        → is_encoded_lim_ptr la ≡ true
        → check_encoded_size (get_encoded_size la) ≡ true
        → meta_address la + 16 < 2 ^ 56
        → HasMetadata i s.memory la dec
        → (p : ℕ) × (address_before sim o (suc fuel) la n crossing s
            ≡ (do check_tags sim o (suc fuel); check_bounds sim o (suc fuel) crossing)
                (looked_up i o (suc fuel) la crossing p dec (counted i la n s)))
    unfolding address_before
    before_lem s enc size_ok meta_small holds =
        let (p, e) =
          encoded_before_lem i o (suc fuel) la crossing dec whole (counted i la n s) traced size_ok
            meta_small holds in
        (p, run_true _ _ (counted i la n s) enc ∙ e)

    -- With the checks on and displaced data, outside a trace, on a simulator that maps the
    -- addresses below 2^56 and reads back what it has written, a load of 1 to 64 bytes through an
    -- encoded pointer with a valid size, whose decoded address is not 0, whose slot ends before the
    -- address 2^56 - 1, whose metadata starts more than 16 bytes below 2^56, and that is not the
    -- second part of an access, either has the tag of its metadata, whose bounds lie in the slot
    -- and contain the access with as many bytes to spare at the end as the metadata takes: then the
    -- callbacks return, with each byte from the place of its data; or it does not, and they raise a
    -- general protection fault and forget the pointer.
    pub load_lem :
        (s : LimState sim)
        → is_encoded_lim_ptr la ≡ true
        → check_encoded_size (get_encoded_size la) ≡ true
        → 1 ≤ lim_decode_pointer la
        → get_slot_end (lim_decode_pointer la) (get_encoded_size la) + 1 < 2 ^ 56
        → meta_address la + 16 < 2 ^ 56
        → HasMetadata i s.memory la dec
        → 1 ≤ n
        → n ≤ 64
        → (Admits la n dec
            × ((r : Option (List ℕ)) × (t : LimState sim) × (load i o (suc fuel) crossing la n s
                  ≡ done r t)
                × (or_given r (bytes_at (view i s.memory) (lim_decode_pointer la) n)
                    ≡ bytes_at
                        (λ x.
                          view i s.memory
                            (data_address (meta_address la) (meta_bytes la) dec.upper_la x))
                        (lim_decode_pointer la)
                        n)))
          ⊎ ((¬ Admits la n dec)
              × ((t : LimState sim) × (load i o (suc fuel) crossing la n s ≡ gp_fault t)
                  × (t.is_encoded_pointer ≡ false)))
    unfolding load Admits decode_fields decode_more
    load_lem s enc size_ok pos end_small meta_small holds n_pos n_small =
        let (p, before) = before_lem s enc size_ok meta_small holds in
        let s1 : LimState sim = looked_up i o (suc fuel) la crossing p dec (counted i la n s) in
        let s2 : LimState sim = flagged crossing s1 in
        let given : List ℕ = bytes_at (view i s.memory) address n in
        let given_length : length given ≡ n = length-bytes_at (view i s.memory) address n in
        let meta_sizes = meta_bytes_small la in
        let small : address < 2 ^ 56 = decoded_small la in
        elim (dec_TagsAgree s1) [
          | no h ↦ inr (
            (λ a. h (a.0, a.1)),
            (
              faulted s1,
              after_fault _ (
                  before ∙ after_fault _ (tags_fail o (suc fuel) crossing checked whole s1 refl h)),
              refl,
            ),
          )
          | yes tags ↦ elim (dec_InBounds s1) [
            | no h ↦ inr (
              (λ a. h (a.2, a.3, a.4, omega (arith, a.5, n_pos, meta_sizes))),
              (
                faulted s2,
                after_fault _ (
                    before
                    ∙ after_done _ (tags_pass o (suc fuel) crossing checked whole s1 refl tags)
                    ∙ bounds_fail o (suc fuel) crossing checked whole s1 refl h),
                refl,
              ),
            )
            | yes bounds ↦
                let found : address_before sim o (suc fuel) la n crossing s ≡ done address s2 =
                  before
                  ∙ after_done _ (tags_pass o (suc fuel) crossing checked whole s1 refl tags)
                  ∙ bounds_pass o (suc fuel) crossing checked whole s1 refl bounds pos in
                elim (dec_le (address + n + meta_bytes la) (dec.upper_la + 1)) [
                  | no h ↦
                      let (t, e, off) =
                        too_high read given s2 refl refl pos (omega (arith, given_length, n_pos))
                          bounds.2 (omega (arith, given_length, h))
                          (omega (arith, given_length, small, meta_sizes, n_small)) in
                      inr ((λ a. h a.5), (t, after_done _ found ∙ e, off))
                  | yes h ↦
                      let fits : Fits address n s2 = record {
                        encoded = refl;
                        decoded = refl;
                        la_pos = pos;
                        size_pos = n_pos;
                        size_fits = n_small;
                        meta_pos = meta_sizes.0;
                        lower = bounds.2;
                        upper = h;
                        top = omega (arith, bounds.1, end_small);
                        meta_top = omega (arith, meta_small, meta_sizes);
                      } in
                      let (r, t, e, same, kept) =
                        read_logical i o fuel address crossing traced disp n s2 fits in
                      inl (
                        (tags.0, tags.1, bounds.0, bounds.1, bounds.2, h),
                        (r, t, after_done _ found ∙ e, same),
                      )
                ]
          ]
        ]
