-- ===== src/LimModel/Cut.antt =====
-- What a write changes that goes over the start of the metadata, and what follows is shifted: modules/lim_model/model.cpp.
use c3_simulator.Common.{
  ℕ, ◌+◌, ◌-◌, ◌^◌, ◌≤◌, ◌<◌, ◌≡◌, ap, sym, ◌∙◌, arith, List, ◌++◌, length, get_or, dec_lt,
}
use c3_simulator.Data.Countermode.{take, drop}
use c3_simulator.LimModel.Bytes.{
  bytes_at, overlay, get_or-bytes_at, get_or-append_left, get_or-append_right, length-bytes_at,
  overlay_below, overlay_above, length-take, length-drop, length-append,
}
use c3_simulator.LimModel.Moved.{get_or-take, get_or-drop, overlay_at, overlay_moved}
use c3_simulator.LimModel.Shifted.{shifted_address, before, past}

-- A write over the start of the metadata.
module _ (lm ms la : ℕ) (bytes : List ℕ) (start : la < lm) (over : lm < la + length bytes)
    (top : la + length bytes + ms < 2 ^ 56) (f f1 f2 : ℕ → ℕ) where
  abbrev n : ℕ
  n = length bytes

  abbrev split : ℕ
  split = lm - la

  abbrev whole : List ℕ
  whole = take split bytes ++ (bytes_at f lm ms ++ drop split bytes)

  length_first : length (take split bytes) ≡ split
  length_first = length-take split bytes ∙ ground arith

  length_whole : length whole ≡ n + ms
  length_whole = omega (
    arith,
    length-append (take split bytes) (bytes_at f lm ms ++ drop split bytes),
    length-append (bytes_at f lm ms) (drop split bytes),
    length_first,
    length-drop split bytes,
    length-bytes_at f lm ms,
  )

  length_cut : length (take n whole) ≡ n
  length_cut = length-take n whole ∙ ground (arith, length_whole)

  module _ (h1 : (x : ℕ) → x < 2 ^ 56 → f1 x ≡ overlay f (lm + ms) (drop split bytes) x)
      (h2 : (x : ℕ) → x < 2 ^ 56 → f2 x ≡ overlay f1 la (take n whole) x) where
    cut_at : (y : ℕ) → y < 2 ^ 56 → la ≤ y → y < la + n → f2 y ≡ get_or whole (y - la) 0
    cut_at y small h h' =
        h2 y small
        ∙ overlay_at f1 la (take n whole) y h (omega (arith, h', length_cut))
        ∙ get_or-take (y - la) n whole (omega (arith, h, h'))

    pub over_meta : (y : ℕ) → lm ≤ y → y < lm + ms → f2 y ≡ f y
    over_meta y h h' = elim (dec_lt y (la + n)) [
      | yes q ↦
          cut_at y (omega (arith, h', start, over, top)) (omega (arith, h, start)) q
          ∙ ap (λ t. get_or whole t 0) {x = y - la} {y = length (take split bytes) + (y - lm)}
              (omega (arith, h, start, length_first))
          ∙ get_or-append_right (take split bytes) (bytes_at f lm ms ++ drop split bytes) (y - lm)
          ∙ get_or-append_left (bytes_at f lm ms) (drop split bytes) (y - lm)
              (omega (arith, h, h', length-bytes_at f lm ms))
          ∙ get_or-bytes_at f lm ms (y - lm) (omega (arith, h, h'))
          ∙ ap f {x = lm + (y - lm)} {y = y} (omega (arith, h))
      | no q ↦
          h2 y (omega (arith, h', start, over, top))
          ∙ overlay_above f1 la (take n whole) y (omega (arith, q, length_cut))
          ∙ h1 y (omega (arith, h', start, over, top))
          ∙ overlay_below f (lm + ms) (drop split bytes) y h'
    ]

    over_new : (y : ℕ) → y < 2 ^ 56 → lm + ms ≤ y → f2 y ≡ overlay f (lm + ms) (drop split bytes) y
    over_new y small h = elim (dec_lt y (la + n)) [
      | no q ↦
          h2 y small
          ∙ overlay_above f1 la (take n whole) y (omega (arith, q, length_cut))
          ∙ h1 y small
      | yes q ↦
          let k = y - (lm + ms) in
          cut_at y small (omega (arith, h, start)) q
          ∙ ap (λ t. get_or whole t 0) {x = y - la}
              {y = length (take split bytes) + (length (bytes_at f lm ms) + k)}
              (omega (arith, h, start, length_first, length-bytes_at f lm ms))
          ∙ get_or-append_right (take split bytes) (bytes_at f lm ms ++ drop split bytes)
              (length (bytes_at f lm ms) + k)
          ∙ get_or-append_right (bytes_at f lm ms) (drop split bytes) k
          ∙ sym (
              overlay_at f (lm + ms) (drop split bytes) y h
                (omega (arith, q, start, length-drop split bytes)))
    ]

    -- The data after the start of the metadata.
    rest_moved :
        (g : ℕ → ℕ) (x : ℕ) → lm ≤ x → overlay g lm (drop split bytes) x ≡ overlay g la bytes x
    rest_moved g x h = elim (dec_lt x (la + n)) [
      | yes q ↦
          overlay_at g lm (drop split bytes) x h
            (omega (arith, q, start, over, length-drop split bytes))
          ∙ get_or-drop (x - lm) split bytes
          ∙ ap (λ t. get_or bytes t 0) {x = split + (x - lm)} {y = x - la} (omega (arith, h, start))
          ∙ sym (overlay_at g la bytes x (omega (arith, h, start)) q)
      | no q ↦
          overlay_above g lm (drop split bytes) x
            (omega (arith, q, start, over, length-drop split bytes))
          ∙ sym (overlay_above g la bytes x (omega (arith, q)))
    ]

    moved_first : (x : ℕ) → x < lm → f2 x ≡ overlay (λ z. f (shifted_address lm ms z)) la bytes x
    moved_first x h =
        let g : ℕ → ℕ = λ z. f (shifted_address lm ms z) in
        let small : x < 2 ^ 56 = omega (arith, h, over, top) in
        elim (dec_lt x la) [
          | yes p ↦
              h2 x small
              ∙ overlay_below f1 la (take n whole) x p
              ∙ h1 x small
              ∙ overlay_below f (lm + ms) (drop split bytes) x (omega (arith, h))
              ∙ ap f (sym (before lm ms x h))
              ∙ sym (overlay_below g la bytes x p)
          | no p ↦
              cut_at x small (omega (arith, p)) (omega (arith, h, over))
              ∙ get_or-append_left (take split bytes) (bytes_at f lm ms ++ drop split bytes)
                  (x - la) (omega (arith, h, p, length_first))
              ∙ get_or-take (x - la) split bytes (omega (arith, h, p))
              ∙ sym (overlay_at g la bytes x (omega (arith, p)) (omega (arith, h, over)))
        ]

    pub moved_over :
        (x : ℕ)
        → x + ms < 2 ^ 56
        → f2 (shifted_address lm ms x) ≡ overlay (λ z. f (shifted_address lm ms z)) la bytes x
    moved_over x small = elim (dec_lt x lm) [
      | yes p ↦ ap f2 (before lm ms x p) ∙ moved_first x p
      | no p ↦
          let g : ℕ → ℕ = λ z. f (shifted_address lm ms z) in
          let shifted = past lm ms x (omega (arith, p)) in
          ap f2 shifted
          ∙ over_new (x + ms) small (omega (arith, p))
          ∙ overlay_moved f g lm ms (drop split bytes) x (ap f (sym shifted))
          ∙ rest_moved g x (omega (arith, p))
    ]
