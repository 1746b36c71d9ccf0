-- ===== src/LimModel/Spliced.antt =====
-- What a write changes when a part of its bytes is displaced: modules/lim_model/model.cpp.
use c3_simulator.Common.{
  ℕ, ◌+◌, ◌-◌, ◌^◌, ◌≤◌, ◌<◌, ◌≡◌, ap, sym, ◌∙◌, arith, List, ◌++◌, length, dec_le, dec_lt, ◌⊎◌,
  inl, inr,
}
use c3_simulator.Data.Countermode.{take, drop}
use c3_simulator.LimModel.Bytes.{
  bytes_at, overlay, get_or-bytes_at, length-bytes_at, overlay_in, overlay_below, overlay_above,
  length-take, length-drop, length-append, min_eq,
}
use c3_simulator.LimModel.Parts.{three_parts, overlay_first, overlay_second, overlay_third}
use c3_simulator.LimModel.Places.{
  displaced_base, data_address, base_above, base_fits, base_after, data_address_in,
  data_address_below, data_address_above, IsOverlap,
}

-- The parts of the bytes of an access, and a write of them around the metadata, after the middle one
-- has been written to its place.
module _ (lm ms upper la off start amt : ℕ) (bytes : List ℕ)
    (o : IsOverlap la (length bytes) lm ms off start amt)
    (fits : la + length bytes + ms ≤ upper + 1) (top : upper + 1 < 2 ^ 56) (f f1 f2 : ℕ → ℕ) where
  abbrev xs : List ℕ
  xs = take off bytes

  abbrev ys : List ℕ
  ys = take amt (drop off bytes)

  abbrev zs : List ℕ
  zs = drop (off + amt) bytes

  abbrev place : ℕ
  place = displaced_base lm ms upper + start

  abbrev metadata : List ℕ
  metadata = bytes_at f (la + off) amt

  length_first : length xs ≡ off
  length_first = length-take off bytes ∙ min_eq (length bytes) off (omega (arith, o.in_access))

  length_second : length ys ≡ amt
  length_second =
      length-take amt (drop off bytes)
      ∙ min_eq (length (drop off bytes)) amt (omega (arith, length-drop off bytes, o.in_access))

  length_meta : length metadata ≡ amt
  length_meta = length-bytes_at f (la + off) amt

  length_third : length zs ≡ length bytes - (off + amt)
  length_third = length-drop (off + amt) bytes

  length_spliced : length (xs ++ (metadata ++ zs)) ≡ length bytes
  length_spliced = omega (
    arith,
    length-append xs (metadata ++ zs),
    length-append metadata zs,
    length_first,
    length_meta,
    length_third,
    o.in_access,
  )

  module _ (h1 : (x : ℕ) → x < 2 ^ 56 → f1 x ≡ overlay f place ys x)
      (h2 : (x : ℕ) → x < 2 ^ 56 → f2 x ≡ overlay f1 la (xs ++ (metadata ++ zs)) x) where
    abbrev logical : ℕ → ℕ
    logical x = f (data_address lm ms upper x)

    -- Outside the access, only the place of the displaced bytes is changed.
    outside_below : (x : ℕ) → x < 2 ^ 56 → x < la → f2 x ≡ overlay f place ys x
    outside_below x h out = h2 x h ∙ overlay_below f1 la _ x out ∙ h1 x h

    outside_above : (x : ℕ) → x < 2 ^ 56 → la + length bytes ≤ x → f2 x ≡ overlay f place ys x
    outside_above x h out =
        h2 x h ∙ overlay_above f1 la _ x (omega (arith, out, length_spliced)) ∙ h1 x h

    pub write_meta : lm + ms ≤ upper + 1 → (x : ℕ) → lm ≤ x → x < lm + ms → f2 x ≡ f x
    write_meta room x h3 h4 =
        let after = base_after lm ms upper room in
        let small : x < 2 ^ 56 = omega (arith, h4, room, top) in
        let unplaced : overlay f place ys x ≡ f x =
          overlay_below f place ys x (omega (arith, after, h4)) in
        elim (dec_lt x la) [
          | yes p ↦ outside_below x small p ∙ unplaced
          | no p ↦ elim (dec_le (la + length bytes) x) [
            | yes q ↦ outside_above x small q ∙ unplaced
            | no q ↦
                let low = o.first x (omega (arith, p)) h3 in
                let high = o.last x (omega (arith, q)) h4 in
                let i = x - (la + off) in
                h2 x small
                ∙ ap (overlay f1 la (xs ++ (metadata ++ zs))) {x = x} {y = la + (length xs + i)}
                    (omega (arith, length_first, low))
                ∙ overlay_second f1 la xs metadata zs i (omega (arith, length_meta, low, high))
                ∙ get_or-bytes_at f (la + off) amt i (omega (arith, low, high))
                ∙ ap f {x = la + off + i} {y = x} (omega (arith, low))
          ]
        ]

    -- The data, as it was.
    pub parts : overlay logical la bytes ≡ overlay logical la (xs ++ (ys ++ zs))
    parts = ap (overlay logical la) (sym (three_parts off amt bytes))

    write_first :
        (x : ℕ)
        → la ≤ x
        → x < la + off
        → f2 (data_address lm ms upper x) ≡ overlay logical la bytes x
    write_first x low high =
        let i = x - la in
        let below : x < lm = elim (dec_lt x lm) [
          | yes p ↦ p
          | no p ↦ absurd (omega (arith, o.first x low (omega (arith, p)), high))
        ] in
        ap f2 (data_address_below lm ms upper x below)
        ∙ h2 x (omega (arith, high, fits, top, o.in_access))
        ∙ ap (overlay f1 la (xs ++ (metadata ++ zs))) {x = x} {y = la + i} (omega (arith, low))
        ∙ overlay_first f1 la xs metadata zs i (omega (arith, low, high, length_first))
        ∙ sym (overlay_first logical la xs ys zs i (omega (arith, low, high, length_first)))
        ∙ ap (overlay logical la (xs ++ (ys ++ zs))) {x = la + i} {y = x} (omega (arith, low))
        ∙ ap (λ t. t x) (sym parts)

    write_second :
        (x : ℕ)
        → la + off ≤ x
        → x < la + off + amt
        → f2 (data_address lm ms upper x) ≡ overlay logical la bytes x
    write_second x low high =
        let i = x - (la + off) in
        let same = o.same in
        let above = base_above lm ms upper (la + length bytes) fits in
        let there =
          base_fits lm ms upper x (omega (arith, low, same)) (omega (arith, high, same, o.in_meta))
            (omega (arith, high, fits, o.in_access)) in
        ap f2 (
          data_address_in lm ms upper x (omega (arith, low, same))
            (omega (arith, high, same, o.in_meta)))
        ∙ outside_above _ (omega (arith, there, top)) (omega (arith, above))
        ∙ ap (overlay f place ys) {x = displaced_base lm ms upper + (x - lm)} {y = place + i}
            (omega (arith, same, low))
        ∙ overlay_in f place ys i (omega (arith, length_second, low, high))
        ∙ sym (overlay_second logical la xs ys zs i (omega (arith, length_second, low, high)))
        ∙ ap (overlay logical la (xs ++ (ys ++ zs))) {x = la + (length xs + i)} {y = x}
            (omega (arith, low, length_first))
        ∙ ap (λ t. t x) (sym parts)

    write_third :
        (x : ℕ)
        → la + off + amt ≤ x
        → x < la + length bytes
        → f2 (data_address lm ms upper x) ≡ overlay logical la bytes x
    write_third x low high =
        let i = x - (la + off + amt) in
        let past : lm + ms ≤ x = elim (dec_le (lm + ms) x) [
          | yes p ↦ p
          | no p ↦ absurd (omega (arith, o.last x high (omega (arith, p)), low))
        ] in
        ap f2 (data_address_above lm ms upper x past)
        ∙ h2 x (omega (arith, high, fits, top))
        ∙ ap (overlay f1 la (xs ++ (metadata ++ zs))) {x = x}
            {y = la + (length xs + (length metadata + i))}
            (omega (arith, low, length_first, length_meta))
        ∙ overlay_third f1 la xs metadata zs i (omega (arith, low, high, length_third))
        ∙ sym (overlay_third logical la xs ys zs i (omega (arith, low, high, length_third)))
        ∙ ap (overlay logical la (xs ++ (ys ++ zs))) {x = la + (length xs + (length ys + i))}
            {y = x} (omega (arith, low, length_first, length_second))
        ∙ ap (λ t. t x) (sym parts)

    outside : (x : ℕ) → x < 2 ^ 56 → (x < la ⊎ la + length bytes ≤ x) → f2 x ≡ overlay f place ys x
    outside x h (inl p) = outside_below x h p
    outside x h (inr p) = outside_above x h p

    untouched : (x : ℕ) → (x < la ⊎ la + length bytes ≤ x) → overlay logical la bytes x ≡ logical x
    untouched x (inl p) = overlay_below logical la bytes x p
    untouched x (inr p) = overlay_above logical la bytes x p

    not_overlapped :
        (x : ℕ) → (x < la ⊎ la + length bytes ≤ x) → (x < la + off ⊎ la + off + amt ≤ x)
    not_overlapped x (inl p) = inl (omega (arith, p))
    not_overlapped x (inr p) = inr (omega (arith, p, o.in_access))

    unplaced :
        (x : ℕ)
        → lm ≤ x
        → (x < la + off ⊎ la + off + amt ≤ x)
        → overlay f place ys (displaced_base lm ms upper + (x - lm))
          ≡ f (displaced_base lm ms upper + (x - lm))
    unplaced x low (inl p) = overlay_below f place ys _ (omega (arith, low, p, o.same))
    unplaced x low (inr p) =
        overlay_above f place ys _ (omega (arith, low, p, o.same, length_second))

    write_outside :
        (x : ℕ)
        → (x < la ⊎ la + length bytes ≤ x)
        → x + ms ≤ upper
        → f2 (data_address lm ms upper x) ≡ overlay logical la bytes x
    write_outside x out h =
        let near : x < place = omega (arith, base_above lm ms upper (x + 1) (omega (arith, h))) in
        let plain : f2 x ≡ f x =
          outside x (omega (arith, h, top)) out ∙ overlay_below f place ys x near in
        sym (
          untouched x out ∙ (elim (dec_lt x lm) [
            | yes p ↦
                ap f (data_address_below lm ms upper x p)
                ∙ sym plain
                ∙ ap f2 (sym (data_address_below lm ms upper x p))
            | no p ↦ elim (dec_le (lm + ms) x) [
              | yes q ↦
                  ap f (data_address_above lm ms upper x q)
                  ∙ sym plain
                  ∙ ap f2 (sym (data_address_above lm ms upper x q))
              | no q ↦
                  let at_x = data_address_in lm ms upper x (omega (arith, p)) (omega (arith, q)) in
                  let there = base_fits lm ms upper x (omega (arith, p)) (omega (arith, q)) h in
                  let above = base_above lm ms upper (la + length bytes) fits in
                  ap f at_x
                  ∙ sym (unplaced x (omega (arith, p)) (not_overlapped x out))
                  ∙ sym (outside_above _ (omega (arith, there, top)) (omega (arith, above)))
                  ∙ ap f2 (sym at_x)
            ]
          ]))

    -- The data is that of the access, and all other is as it was.
    pub write_data :
        (x : ℕ) → x + ms ≤ upper → f2 (data_address lm ms upper x) ≡ overlay logical la bytes x
    write_data x h = elim (dec_lt x la) [
      | yes p ↦ write_outside x (inl p) h
      | no p ↦ elim (dec_le (la + length bytes) x) [
        | yes q ↦ write_outside x (inr q) h
        | no q ↦ elim (dec_lt x (la + off)) [
          | yes r ↦ write_first x (omega (arith, p)) r
          | no r ↦ elim (dec_lt x (la + off + amt)) [
            | yes t ↦ write_second x (omega (arith, r)) t
            | no t ↦ write_third x (omega (arith, t)) (omega (arith, q))
          ]
        ]
      ]
    ]
