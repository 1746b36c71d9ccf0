-- ===== src/Lim/Roundtrip.antt =====
-- What lim_decode_metadata reads back after set_metadata: malloc/lim_ptr_encoding.h.
use c3_simulator.Common.{
  ℕ, zero, suc, ◌+◌, ◌-◌, ◌*◌, ◌%◌, ◌^◌, ◌≤◌, ◌<◌, ◌≡◌, refl, ap, ap₂, sym, ◌∙◌, subst, ◌⊎◌, inl,
  inr, arith, false, some, add64, sub64, ◌>>=◌,
}
use native.Mathlib.Nat.{pow-le-pow_right}
use c3_simulator.Lim.Pointer.{
  get_slot_size_in_bytes, get_middle_address, get_metadata_address, calculate_encoded_size,
  get_metadata_size,
}
use c3_simulator.Lim.Metadata.{
  decode_bound, expected_meta_size, bounded_data_size_around, lim_compute_bounded_data_size, store,
  load, meta_value, set_metadata, DecodedMetadata, lim_decode_metadata,
}
use c3_simulator.Lim.Bounds.{le-chunk_size, chunk_size, IsLeast, calculate_encoded_size_lem}
use c3_simulator.Lim.Placement.{middle, get_middle_address_lem, Placed_lem}
use c3_simulator.Lim.Around.{
  Around, enc_ub, the_bounds, dec_lb_lem, dec_ub_lem, enc_ub-le, enc_lb-lt, enc_ub-lt, tight_lem,
  le-enc_ub, bounded_lem,
}
use c3_simulator.Lim.Fields.{
  Fits, expected_cases, slot_size_lem, offset_lem, get_metadata_size_lem, read_back, from_fields,
  decoded, read_at,
}

-- What the decoded metadata says of an allocation of `ds` bytes and `ms` bytes of metadata at `ptr`,
-- in a slot whose middle is `m`.
pub record Describes (ptr ds ms t m size : ℕ) (dec : DecodedMetadata) : Type 0 where
  pub tag_left : dec.tag_left ≡ t % 16
  pub tag_right : dec.tag_right ≡ t % 16
  pub lower_la : dec.lower_la ≡ ptr
  pub covers : ptr + ds + ms ≤ dec.upper_la + 1
  pub tight : (dec.upper_la + 1 < ptr + ds + ms + 8) ⊎ ((dec.upper_la + 1 ≡ m + 8) × (ds + ms ≤ 16))
  pub bounded : size + ptr + ms ≡ dec.upper_la + 1

get_metadata_address_lem :
    (ptr e : ℕ)
    → ptr + 16 ≤ middle ptr e
    → middle ptr e ≤ 2 ^ 56
    → (ptr < get_metadata_address ptr (suc e)) × (get_metadata_address ptr (suc e) ≤ middle ptr e)
unfolding get_metadata_address
get_metadata_address_lem ptr e h small = (
  omega (arith, get_middle_address_lem ptr e, offset_lem e),
  omega (arith, get_middle_address_lem ptr e, offset_lem e),
)

expected-pos : (slot_size : ℕ) → 1 ≤ expected_meta_size slot_size
unfolding expected_meta_size
expected-pos slot_size = ground arith

reach_assoc :
    (ptr ds ms m : ℕ)
    → (m < ptr + (ds + ms)) ⊎ (ds + ms ≤ 16)
    → (m < ptr + ds + ms) ⊎ (ds + ms ≤ 16)
reach_assoc ptr ds ms m (inl beyond) = inl (omega arith)
reach_assoc ptr ds ms m (inr short) = inr short

fits :
    (x ds ms m h : ℕ)
    → Around x ds ms m h
    → ms ≡ expected_meta_size (2 * h)
    → Fits ms (the_bounds x ds ms m)
unfolding the_bounds
fits x ds ms m h a asked = elim (expected_cases h) [
  | inl (one, small) ↦ inl (
    asked ∙ one,
    enc_lb-lt x ds ms m h a 4 (omega arith),
    enc_ub-lt x ds ms m h a 4 (omega arith),
  )
  | inr (inl (two, small)) ↦ inr (
      inl (
        asked ∙ two,
        enc_lb-lt x ds ms m h a 16 (omega arith),
        enc_ub-lt x ds ms m h a 16 (omega arith),
      ))
  | inr (inr sixteen) ↦ inr (
      inr (
        asked ∙ sixteen,
        enc_lb-lt x ds ms m h a (2 ^ 60) (omega (arith, a.small_h)),
        enc_ub-lt x ds ms m h a (2 ^ 60) (omega (arith, a.small_h)),
      ))
]

tight_at :
    (x ds ms m h : ℕ)
    → Around x ds ms m h
    → (m + 8 * (enc_ub x ds ms m + 1) < x + ds + ms + 8) ⊎ (enc_ub x ds ms m ≡ 0 × (ds + ms ≤ 16))
    → (sub64 (add64 m (decode_bound (enc_ub x ds ms m))) 1 + 1 < x + ds + ms + 8)
      ⊎ ((sub64 (add64 m (decode_bound (enc_ub x ds ms m))) 1 + 1 ≡ m + 8) × (ds + ms ≤ 16))
tight_at x ds ms m h a (inl close) =
    inl (omega (arith, dec_ub_lem x ds ms m h a, enc_ub-le x ds ms m h a, a.small, a.small_h))
tight_at x ds ms m h a (inr (zero_ub, short)) =
    inr
      (omega (arith, dec_ub_lem x ds ms m h a, enc_ub-le x ds ms m h a, a.small, a.small_h), short)

describes :
    (x ds ms m h t : ℕ)
    → Around x ds ms m h
    → Describes x ds ms t m (the_bounds x ds ms m).data_size (decoded m (the_bounds x ds ms m) t)
unfolding decoded from_fields the_bounds
describes x ds ms m h t a =
    let ub = dec_ub_lem x ds ms m h a in
    let above = le-enc_ub x ds ms m h a in
    let below = enc_ub-le x ds ms m h a in
    record {
      tag_left = refl;
      tag_right = refl;
      lower_la = omega (arith, dec_lb_lem x ds ms m h a, a.lower, a.small);
      covers = omega (arith, ub, above, below, a.small, a.small_h);
      tight = tight_at x ds ms m h a (tight_lem x ds ms m h a);
      bounded = omega (arith, ub, above, below, a.small, a.small_h, a.lower);
    }

module _ (ptr ds ms e : ℕ) where
  compute_lem :
      Around ptr ds ms (middle ptr e) (2 ^ e)
      → calculate_encoded_size ptr (ds + ms) ≡ some (suc e)
      → ms ≡ expected_meta_size (2 * 2 ^ e)
      → (ptr < get_metadata_address ptr (suc e))
        × (get_metadata_address ptr (suc e) ≤ (middle ptr e))
      → ds + ms < 2 ^ 64
      → lim_compute_bounded_data_size ptr ds ms ≡ some (the_bounds ptr ds ms (middle ptr e))
  unfolding lim_compute_bounded_data_size
  compute_lem a found asked at small =
      ap
        (λ o. o >>= λ k.
          bounded_data_size_around ptr ds ms (get_slot_size_in_bytes k) (get_middle_address ptr k)
            (get_metadata_address ptr k))
        (ap (calculate_encoded_size ptr) {x = add64 ds ms} {y = ds + ms} (omega arith) ∙ found)
      ∙ ap₂ (λ s m. bounded_data_size_around ptr ds ms s m (get_metadata_address ptr (suc e)))
          (slot_size_lem e) (get_middle_address_lem ptr e)
      ∙ bounded_lem ptr ds ms (middle ptr e) (2 ^ e) a (get_metadata_address ptr (suc e)) at.0 at.1
          asked

  set_lem :
      (memory : ℕ → ℕ) (t : ℕ)
      → Around ptr ds ms (middle ptr e) (2 ^ e)
      → calculate_encoded_size ptr (ds + ms) ≡ some (suc e)
      → ms ≡ expected_meta_size (2 * 2 ^ e)
      → (ptr < get_metadata_address ptr (suc e))
        × (get_metadata_address ptr (suc e) ≤ (middle ptr e))
      → ds + ms < 2 ^ 64
      → set_metadata false memory ptr ds ms t
        ≡ some (
          (the_bounds ptr ds ms (middle ptr e)).data_size,
          store memory
              (get_metadata_address ptr (suc e))
              ms
              (meta_value ms (the_bounds ptr ds ms (middle ptr e)) t),
        )
  unfolding set_metadata
  set_lem memory t a found asked at small =
      ap₂
        (λ o c. o >>= λ k. c >>= λ b.
          some (b.data_size, store memory (get_metadata_address ptr k) ms (meta_value ms b t)))
        (ap (calculate_encoded_size ptr) {x = add64 ds ms} {y = ds + ms} (omega arith) ∙ found)
        (compute_lem a found asked at small)

metadata_of_slot :
    (memory : ℕ → ℕ) (ptr ds ms t e : ℕ)
    → ptr % 16 ≡ 0
    → ptr + chunk_size (ds + ms) ≤ 2 ^ 56
    → ms ≡ get_metadata_size e
    → calculate_encoded_size ptr (ds + ms) ≡ some e
    → IsLeast ptr (ptr + chunk_size (ds + ms) - 1) e
    → (size : ℕ) × (memory' : ℕ → ℕ) × (dec : DecodedMetadata) × (set_metadata false memory ptr ds
          ms t
        ≡ some (size, memory'))
      × (lim_decode_metadata false
            (load memory' (get_metadata_address ptr e) ms)
            ms
            (get_middle_address ptr e)
          ≡ some dec)
      × Describes ptr ds ms t (get_middle_address ptr e) size dec
unfolding lim_decode_metadata read_at
metadata_of_slot memory ptr ds ms t zero aligned small matches found h =
    absurd (omega (arith, h.lower))
metadata_of_slot memory ptr ds ms t (suc e) aligned small matches found h =
    let n = ds + ms in
    let m = middle ptr e in
    let p = Placed_lem ptr n e aligned h in
    let asked : ms ≡ expected_meta_size (2 * 2 ^ e) = matches ∙ get_metadata_size_lem e in
    let at =
      get_metadata_address_lem ptr e (omega (arith, p.lower, p.middle_aligned))
        (omega (arith, p.near)) in
    let a : Around ptr ds ms m (2 ^ e) = record {
      aligned = aligned;
      aligned_m = p.middle_aligned;
      aligned_h = p.half_aligned;
      small = omega (arith, p.near);
      small_h = pow-le-pow_right {n = 2} (omega arith) {i = e} {j = 55} (omega (arith, h.upper));
      lower = p.lower;
      start = p.start;
      upper = omega (arith, p.upper);
      some_bytes = omega (arith, asked, expected-pos (2 * 2 ^ e));
      reach = reach_assoc ptr ds ms m p.reach;
    } in
    let b = the_bounds ptr ds ms m in
    (
      b.data_size,
      store memory (get_metadata_address ptr (suc e)) ms (meta_value ms b t),
      decoded m b t,
      set_lem ptr ds ms e memory t a found asked at (omega (arith, small, le-chunk_size n)),
      ap (lim_decode_metadata false _ ms) (get_middle_address_lem ptr e)
          ∙ read_back memory (get_metadata_address ptr (suc e)) m t b ms
              (fits ptr ds ms m (2 ^ e) a asked),
      subst (λ k. Describes ptr ds ms t k b.data_size (decoded m b t))
          (sym (get_middle_address_lem ptr e)) (describes ptr ds ms m (2 ^ e) t a),
    )

-- For a 16-byte aligned allocation below 2^56 of at least 24 bytes or counted so, with the metadata
-- size that its slot asks for, `set_metadata` succeeds, and `lim_decode_metadata` reads back from
-- memory the tag on both sides, the first byte of the allocation as the lower bound, and an upper
-- bound that covers the allocation and exceeds its end by less than 8 bytes, or is the 8th byte
-- after the middle of the slot when at most 16 bytes were asked for; the returned size is the size
-- within the bounds less the metadata.
pub lim_decode_metadata-set_metadata :
    (memory : ℕ → ℕ) (ptr ds ms t : ℕ)
    → ptr % 16 ≡ 0
    → ptr + chunk_size (ds + ms) ≤ 2 ^ 56
    → ((e : ℕ) → calculate_encoded_size ptr (ds + ms) ≡ some e → ms ≡ get_metadata_size e)
    → (e : ℕ) × (size : ℕ) × (memory' : ℕ → ℕ) × (dec : DecodedMetadata) × (calculate_encoded_size
          ptr
          (ds + ms)
        ≡ some e)
      × (set_metadata false memory ptr ds ms t ≡ some (size, memory'))
      × (lim_decode_metadata false
            (load memory' (get_metadata_address ptr e) ms)
            ms
            (get_middle_address ptr e)
          ≡ some dec)
      × Describes ptr ds ms t (get_middle_address ptr e) size dec
lim_decode_metadata-set_metadata memory ptr ds ms t aligned small matches =
    let (e, found, h) = calculate_encoded_size_lem ptr (ds + ms) small in
    let (size, memory', dec, stored, read, described) =
      metadata_of_slot memory ptr ds ms t e aligned small (matches e found) found h in
    (e, size, memory', dec, found, stored, read, described)
