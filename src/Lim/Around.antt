-- ===== src/Lim/Around.antt =====
-- The bounds that malloc/lim_ptr_encoding.h computes for an allocation around the middle of its slot.
use c3_simulator.Common.{
  ==_eq, ℕ, ◌+◌, ◌-◌, ◌*◌, ◌/◌, ◌%◌, ◌^◌, ◌≤◌, ◌<◌, ◌≡◌, ap, ap₂, ◌∙◌, ◌⊎◌, arith, Bool, true, ltb,
  leb, ◌==◌, ◌||◌, if◌then◌else◌, Option, some, add64, sub64, tests, assert◌then◌,
}
use c3_simulator.Lim.Metadata.{
  encode_bound, decode_bound, BoundedData, expected_meta_size, bounded_data_size_around,
}

-- An allocation of `ds + ms` bytes at `x`, in a slot of `2 * h` bytes whose middle is `m`.
pub record Around (x ds ms m h : ℕ) : Type 0 where
  pub aligned : x % 16 ≡ 0
  pub aligned_m : m % 16 ≡ 0
  pub aligned_h : h % 16 ≡ 0
  pub small : m ≤ 2 ^ 56
  pub small_h : h ≤ 2 ^ 55
  pub lower : x < m
  pub start : m ≤ x + h
  pub upper : x + ds + ms ≤ m + h
  pub some_bytes : 1 ≤ ds + ms
  pub reach : (m < x + ds + ms) ⊎ (ds + ms ≤ 16)

module _ (x ds ms m : ℕ) where
  pub enc_lb : ℕ
  enc_lb = (m - x) / 8 - 1

  pub enc_ub : ℕ
  enc_ub = (x + ds + ms - m - 1) / 8

  unfoldable pub the_bounds : BoundedData
  the_bounds = record {
    data_size = m - x + 8 * (enc_ub + 1) - ms;
    enc_lb = enc_lb;
    enc_ub = enc_ub;
  }

  abbrev last_la : ℕ
  last_la = sub64 (add64 (add64 x ds) ms) 1

module _ (x ds ms m h : ℕ) (around : Around x ds ms m h) where
  last_la_lem : (last_la x ds ms m) ≡ x + ds + ms - 1
  last_la_lem = omega arith

  lb_lem : encode_bound (sub64 (sub64 m 1) x) ≡ (enc_lb x ds ms m)
  unfolding encode_bound enc_lb
  lb_lem = omega arith

  ub_lem :
      encode_bound (if leb m (last_la x ds ms m) then sub64 (last_la x ds ms m) m else 0)
      ≡ (enc_ub x ds ms m)
  unfolding encode_bound enc_ub
  ub_lem = ground arith

  pub dec_lb_lem : decode_bound (enc_lb x ds ms m) ≡ m - x
  unfolding decode_bound enc_lb
  dec_lb_lem = omega arith

  pub dec_ub_lem : decode_bound (enc_ub x ds ms m) ≡ 8 * ((enc_ub x ds ms m) + 1)
  unfolding decode_bound enc_ub
  dec_ub_lem = omega arith

  pub enc_ub-le : 8 * ((enc_ub x ds ms m) + 1) ≤ h
  unfolding enc_ub
  enc_ub-le = omega arith

  pub enc_lb-lt : (k : ℕ) → h < 8 * k + 8 → enc_lb x ds ms m < k
  unfolding enc_lb
  enc_lb-lt k lt = omega arith

  pub enc_ub-lt : (k : ℕ) → h < 8 * k + 8 → enc_ub x ds ms m < k
  enc_ub-lt k lt = omega (arith, enc_ub-le)

  pub tight_lem :
      (m + 8 * (enc_ub x ds ms m + 1) < x + ds + ms + 8) ⊎ (enc_ub x ds ms m ≡ 0 × (ds + ms ≤ 16))
  unfolding enc_ub
  tight_lem = ground arith

  pub le-enc_ub : x + ds + ms ≤ m + 8 * ((enc_ub x ds ms m) + 1)
  unfolding enc_ub
  le-enc_ub = omega arith

  module _ (meta : ℕ) (after : x < meta) (before : meta ≤ m)
      (matches : ms ≡ expected_meta_size (2 * h)) where
    -- The assertions and the result, once both bounds are decoded.
    asserted : ℕ → ℕ → ℕ → ℕ → Option BoundedData
    asserted lb ub dl du =
        assert ltb x meta
        then assert leb meta m
        then assert leb m (last_la x ds ms m) || leb ds (2 ^ 5 / 2)
        then assert leb dl (2 * h / 2)
        then assert leb du (2 * h / 2)
        then assert ms == expected_meta_size (2 * h)
        then some (record { data_size = sub64 (add64 dl du) ms; enc_lb = lb; enc_ub = ub })

    assert_true : {A : Type 0} (b : Bool) (k : Option A) → b ≡ true → (assert b then k) ≡ k
    assert_true b k h = ap (λ c. assert c then k) h

    asserted_lem :
        asserted (enc_lb x ds ms m) (enc_ub x ds ms m) (m - x) (8 * ((enc_ub x ds ms m) + 1))
        ≡ some (the_bounds x ds ms m)
    unfolding asserted the_bounds
    asserted_lem =
        assert_true _ _ (omega tests)
        ∙ assert_true _ _ (ground arith)
        ∙ assert_true _ _ reached
        ∙ assert_true _ _ (ground arith)
        ∙ assert_true _ _ (ground (arith, enc_ub-le))
        ∙ assert_true _ _ (==_eq ms _ matches)
        ∙ ap
            (λ t.
              some (record { data_size = t; enc_lb = enc_lb x ds ms m; enc_ub = enc_ub x ds ms m }))
            (omega (arith, enc_ub-le, le-enc_ub))
      where
        reached : (leb m (last_la x ds ms m) || leb ds (2 ^ 5 / 2)) ≡ true
        reached = ground arith

    pub bounded_lem : bounded_data_size_around x ds ms (2 * h) m meta ≡ some (the_bounds x ds ms m)
    unfolding bounded_data_size_around asserted
    bounded_lem =
        ap₂ (λ lb ub. asserted lb ub (decode_bound lb) (decode_bound ub)) lb_lem ub_lem
        ∙ ap₂ (asserted (enc_lb x ds ms m) (enc_ub x ds ms m)) dec_lb_lem dec_ub_lem
        ∙ asserted_lem
