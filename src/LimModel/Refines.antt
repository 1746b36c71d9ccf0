-- ===== src/LimModel/Refines.antt =====
-- The callback on a memory access of modules/lim_model/model.cpp, where `data_disp` is set: what it
-- does to an access that passes its checks.
use c3_simulator.Common.{
  and_false, ℕ, ◌+◌, ◌^◌, ◌≤◌, ◌<◌, ◌≡◌, refl, ap, ap₂, sym, ◌∙◌, arith, Bool, true, false, not,
  ltb, leb, ◌==◌, ◌&&◌, ◌||◌, if◌then◌else◌, Option, none, some, List, length, dec_lt, if_false,
  ◌⊎◌, inl, inr, add64, sub64, ==_eq, ne→==,
}
use c3_simulator.Base.Access.{PageCrossing, CpuBytes}
use c3_simulator.Integrity.Machine.{Rw}
use c3_simulator.LimModel.State.{LimSimulator, LimOptions, LimState, done, after_done, run_false}
use c3_simulator.LimModel.Before.{is_first}
use c3_simulator.LimModel.Access.{check_lower, check_upper, displace}
use c3_simulator.LimModel.Callback.{
  reset_flags, shift, modify_bytes, modify_encoded, modify_data_on_mem_access,
}
use c3_simulator.LimModel.Displaced.{Fits}

-- The bytes of an access, once a callback has had them.
abbrev pub or_given : Option (List ℕ) → List ℕ → List ℕ
or_given none given = given
or_given (some bytes) given = bytes

abbrev pub with_bytes : List ℕ → CpuBytes
with_bytes bytes = record { data_or_null = some bytes; size = length bytes }

-- What the flags leave alone.
choose_memory :
    {sim : LimSimulator} (b : Bool) (s t : LimState sim)
    → s.memory ≡ t.memory
    → (if b then s else t).memory ≡ t.memory
choose_memory true s t e = e
choose_memory false s t e = refl

module _ {sim : LimSimulator} where
  pub reset_memory : (t : LimState sim) → (reset_flags t).memory ≡ t.memory
  unfolding reset_flags
  reset_memory t = choose_memory (is_first t.page_crossing_type) _ _ refl

module _ {sim : LimSimulator} (crossing : PageCrossing) where
  abbrev pub crossed : LimState sim → LimState sim
  crossed s = record s { page_crossing_type = crossing }

  pub crossed-Fits : (la n : ℕ) (s : LimState sim) → Fits la n s → Fits la n (crossed s)
  crossed-Fits la n s h = record {
    encoded = h.encoded;
    decoded = h.decoded;
    la_pos = h.la_pos;
    size_pos = h.size_pos;
    size_fits = h.size_fits;
    meta_pos = h.meta_pos;
    lower = h.lower;
    upper = h.upper;
    top = h.top;
    meta_top = h.meta_top;
  }

-- Whether an access overlaps the metadata.
module _ {sim : LimSimulator} where
  pub overlap_cases :
      (la n : ℕ) (s : LimState sim)
      → ((la + n ≤ s.la_meta ⊎ s.la_meta + s.meta_size ≤ la)
          ⊎ ((s.la_meta < la + n) × (la < s.la_meta + s.meta_size)))
  overlap_cases la n s = elim (dec_lt s.la_meta (la + n)) [
    | yes p ↦ elim (dec_lt la (s.la_meta + s.meta_size)) [
      | yes q ↦ inr (p, q)
      | no q ↦ inl (inr (omega (arith, q)))
    ]
    | no p ↦ inl (inl (omega (arith, p)))
  ]

module _ {sim : LimSimulator} (o : LimOptions) (fuel la : ℕ) where
  -- No byte is displaced where an access does not overlap the metadata.
  pub displace-none :
      (n : ℕ) (bytes : List ℕ) (rw : Rw) (s : LimState sim)
      → Fits la n s
      → (la + n ≤ s.la_meta ⊎ s.la_meta + s.meta_size ≤ la)
      → displace sim o fuel la (sub64 (add64 la n) 1) bytes rw s ≡ done none s
  unfolding displace
  displace-none n bytes rw s h out =
      let (fits, top, pos) : (la + n + s.meta_size ≤ s.dec_meta.upper_la + 1)
          × (s.dec_meta.upper_la + 1 < 2 ^ 56)
          × (1 ≤ n) =
        (h.upper, h.top, h.size_pos) in
      let meta_top = h.meta_top in
      let apart : (leb s.la_meta (sub64 (add64 la n) 1) && ltb la (add64 s.la_meta s.meta_size))
          ≡ false =
        elim out [ inl p ↦ ground arith | inr p ↦ ground arith ] in
      if_false _ apart

module _ {sim : LimSimulator} (o : LimOptions) (fuel la : ℕ) (crossing : PageCrossing)
    (traced : o.trace_only ≡ false) where
  lower_lem : (n : ℕ) (s : LimState sim) → Fits la n s → check_lower sim o fuel la s ≡ done tt s
  unfolding check_lower
  lower_lem n s h =
      let below : ltb la s.dec_meta.lower_la ≡ false = ground (arith, h.lower) in
      if_false _
        (ap (λ t. not o.disable_meta_check && t) below ∙ and_false (not o.disable_meta_check))

  upper_lem :
      (n : ℕ) (s : LimState sim)
      → Fits la n s
      → check_upper sim o fuel (add64 (sub64 (add64 la n) 1) s.meta_size) s ≡ done tt s
  unfolding check_upper
  upper_lem n s h =
      let (fits, top, pos) : (la + n + s.meta_size ≤ s.dec_meta.upper_la + 1)
          × (s.dec_meta.upper_la + 1 < 2 ^ 56)
          × (1 ≤ n) =
        (h.upper, h.top, h.size_pos) in
      let above : ltb s.dec_meta.upper_la (add64 (sub64 (add64 la n) 1) s.meta_size) ≡ false =
        ground arith in
      if_false _
        (ap (λ t. not o.disable_meta_check && t) above ∙ and_false (not o.disable_meta_check))

  -- The callback, by what it does to the bytes of the access.
  pub callback_lem :
      (rw : Rw) (bytes : List ℕ) (s t : LimState sim) (r : Option (List ℕ))
      → Fits la (length bytes) s
      → (if o.data_disp
            then displace sim o fuel la (sub64 (add64 la (length bytes)) 1) bytes rw
            else shift sim o fuel la (sub64 (add64 la (length bytes)) 1) bytes rw)
          (crossed crossing s)
        ≡ done r t
      → modify_data_on_mem_access sim o fuel la (with_bytes bytes) crossing rw s
        ≡ done r (reset_flags t)
  unfolding modify_data_on_mem_access modify_encoded modify_bytes
  callback_lem rw bytes s t r h e =
      let is_la : (la == s.la_decoded) ≡ true = ==_eq _ _ (sym h.decoded) in
      let not_null : (la == 0) ≡ false = ne→== la 0 (λ e. absurd (omega (arith, h.la_pos, e))) in
      let not_empty : (length bytes == 0) ≡ false =
        ne→== _ 0 (λ e. absurd (omega (arith, h.size_pos, e))) in
      if_false _ traced
      ∙ if_false _ (ap₂ (λ a b. not a || b) h.encoded not_null)
      ∙ if_false _ (ap not is_la)
      ∙ after_done _ (lower_lem (length bytes) s h)
      ∙ after_done _ (upper_lem (length bytes) s h)
      ∙ run_false _ _ (crossed crossing s) not_empty
      ∙ after_done _ e
