-- ===== src/LimModel/Checks.antt =====
-- The checks of the tag and the bounds in modules/lim_model/model.cpp, by what they find.
use c3_simulator.Common.{
  ℕ, ◌≤◌, ◌≡◌, ap, ap₂, ◌∙◌, arith, true, false, not, ltb, ◌==◌, ◌&&◌, ◌||◌, if◌then◌else◌, if_true,
  if_false, ==_eq, ne→==, dec_le, ℕ_discrete,
}
use c3_simulator.Base.Access.{PageCrossing}
use c3_simulator.Lim.Pointer.{get_slot_start, get_slot_end}
use c3_simulator.LimModel.State.{
  LimSimulator, LimOptions, LimState, done, gp_fault, after_done, run_true, run_false,
}
use c3_simulator.LimModel.Before.{
  is_first, is_second_part, print_access_info, is_tag_mismatch, is_invalid_boundary, is_oob, fault,
  check_tags, return_address, check_bounds,
}

-- Four bounds, by tests on them.
range_true :
    (a b l u d : ℕ)
    → (a ≤ l) × (u ≤ b) × (l ≤ d) × (d ≤ u)
    → (ltb l a || ltb b u || (ltb d l || ltb u d)) ≡ false
range_true a b l u d (h1, h2, h3, h4) = ground arith

range_false :
    (a b l u d : ℕ)
    → ¬ ((a ≤ l) × (u ≤ b) × (l ≤ d) × (d ≤ u))
    → (ltb l a || ltb b u || (ltb d l || ltb u d)) ≡ true
range_false a b l u d h = elim (dec_le a l) [
  | no p ↦ ground (arith, p)
  | yes p ↦ elim (dec_le u b) [
    | no q ↦ ground (arith, q)
    | yes q ↦ elim (dec_le l d) [
      | no r ↦ ground (arith, r)
      | yes r ↦ elim (dec_le d u) [ no t ↦ ground (arith, t) | yes t ↦ absurd (h (p, q, r, t)) ]
    ]
  ]
]

module _ {sim : LimSimulator} where
  -- The state after the reset that comes before a fault.
  abbrev pub faulted : LimState sim → LimState sim
  faulted s = record s { is_encoded_pointer = false }

  abbrev pub flagged : PageCrossing → LimState sim → LimState sim
  flagged crossing s = record s {
    is_crossing_page_first = if is_first crossing then true else s.is_crossing_page_first;
  }

  -- What the checks before an access ask for.
  abbrev pub TagsAgree : LimState sim → Type 0
  TagsAgree s = (s.ptr_tag ≡ s.dec_meta.tag_left) × (s.dec_meta.tag_left ≡ s.dec_meta.tag_right)

  abbrev pub InBounds : LimState sim → Type 0
  InBounds s =
      (get_slot_start s.la_decoded s.encoded_size ≤ s.dec_meta.lower_la)
      × (s.dec_meta.upper_la ≤ get_slot_end s.la_decoded s.encoded_size)
      × (s.dec_meta.lower_la ≤ s.la_decoded)
      × (s.la_decoded ≤ s.dec_meta.upper_la)

  module _ (o : LimOptions) (fuel : ℕ) (crossing : PageCrossing)
      (checked : o.disable_meta_check ≡ false) (whole : is_second_part crossing ≡ false)
      (s : LimState sim) (at_s : s.page_crossing_type ≡ crossing) where
    printed :
        (t : LimState sim)
        → t.page_crossing_type ≡ crossing
        → print_access_info sim o fuel t ≡ done tt t
    unfolding print_access_info
    printed t e = if_false _ (ap is_second_part e ∙ whole)

    pub tags_pass : TagsAgree s → check_tags sim o fuel s ≡ done tt s
    unfolding check_tags is_tag_mismatch
    tags_pass (left, right) = if_false _ (
        ap₂ (λ a b. not a && b) checked
          (ap₂ (λ a b. not a || not b) (==_eq s.ptr_tag s.dec_meta.tag_left left)
            (==_eq s.dec_meta.tag_left s.dec_meta.tag_right right)))

    mismatch : ¬ TagsAgree s → is_tag_mismatch sim o fuel s ≡ true
    unfolding is_tag_mismatch
    mismatch h = elim (ℕ_discrete s.ptr_tag s.dec_meta.tag_left) [
      | no p ↦ ap (λ b. not b || not (s.dec_meta.tag_left == s.dec_meta.tag_right)) (ne→== _ _ p)
      | yes p ↦ elim (ℕ_discrete s.dec_meta.tag_left s.dec_meta.tag_right) [
        | no q ↦ ap₂ (λ a b. not a || not b) (==_eq _ _ p) (ne→== _ _ q)
        | yes q ↦ absurd (h (p, q))
      ]
    ]

    pub tags_fail : ¬ TagsAgree s → check_tags sim o fuel s ≡ gp_fault (faulted s)
    unfolding check_tags fault
    tags_fail h =
        if_true _ (ap₂ (λ a b. not a && b) checked (mismatch h)) ∙ after_done _ (printed s at_s)

    pub bounds_pass :
        InBounds s
        → 1 ≤ s.la_decoded
        → check_bounds sim o fuel crossing s ≡ done s.la_decoded (flagged crossing s)
    unfolding check_bounds return_address is_invalid_boundary is_oob
    bounds_pass h pos =
        let f : LimState sim = flagged crossing s in
        let e : return_address sim o fuel f ≡ s.la_decoded =
          if_false _ (ap₂ (λ a b. not a && b) checked (range_true _ _ _ _ _ h)) in
        run_false _ _ f
          (ap (λ a. a == 0) e ∙ ne→== s.la_decoded 0 (λ z. absurd (omega (arith, z, pos))))
        ∙ ap (λ a. done a f) e

    pub bounds_fail :
        ¬ InBounds s → check_bounds sim o fuel crossing s ≡ gp_fault (faulted (flagged crossing s))
    unfolding check_bounds return_address is_invalid_boundary is_oob fault
    bounds_fail h =
        let f : LimState sim = flagged crossing s in
        let e : return_address sim o fuel f ≡ 0 =
          if_true _ (ap₂ (λ a b. not a && b) checked (range_false _ _ _ _ _ h)) in
        run_true _ _ f (ap (λ a. a == 0) e) ∙ after_done _ (printed f at_s)
