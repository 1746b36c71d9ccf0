-- ===== src/LimModel/Places.antt =====
-- Where data stands that metadata has displaced: what modules/lim_model/model.cpp does to the bytes of
-- an access, as a memory from which the metadata is hidden.
use c3_simulator.Common.{
  ℕ, ◌+◌, ◌-◌, ◌≤◌, ◌<◌, ◌≡◌, ap, ap₂, sym, ◌∙◌, arith, true, false, ltb, leb, ◌&&◌, if◌then◌else◌,
  List, ◌++◌, length, dec_le, dec_lt, if_true, if_false, ◌⊎◌, inl, inr,
}
use c3_simulator.Data.Countermode.{take, drop}
use c3_simulator.LimModel.Memory.{min_uint64}
use c3_simulator.LimModel.Parts.{take-bytes_at, drop-bytes_at}
use c3_simulator.LimModel.Bytes.{
  bytes_at, overlay, bytes_at-append, bytes_at_ext, overlay_below, overlay_above, overlay_ext,
}

-- The first place of displaced data, by the address and the size of the metadata and the upper bound:
-- as much room as the metadata takes, at the end of the object, but never in the metadata.
unfoldable pub displaced_base : ℕ → ℕ → ℕ → ℕ
displaced_base la_meta meta_size upper =
    upper + 1 - min_uint64 meta_size (upper + 1 - (la_meta + meta_size))

-- Where the data of an address stands.
unfoldable pub data_address : ℕ → ℕ → ℕ → ℕ → ℕ
data_address la_meta meta_size upper x =
    if leb la_meta x && ltb x (la_meta + meta_size)
    then displaced_base la_meta meta_size upper + (x - la_meta)
    else x

module _ (lm ms upper : ℕ) where
  abbrev base : ℕ
  base = displaced_base lm ms upper

  pub base_above : (y : ℕ) → y + ms ≤ upper + 1 → y ≤ base
  unfolding displaced_base
  base_above y h = ground arith

  pub base_fits : (x : ℕ) → lm ≤ x → x < lm + ms → x + ms ≤ upper → base + (x - lm) ≤ upper
  unfolding displaced_base
  base_fits x h1 h2 h3 = ground arith

  pub base_after : lm + ms ≤ upper + 1 → lm + ms ≤ base
  unfolding displaced_base
  base_after h = ground arith

  pub base_small : base ≤ upper + 1
  unfolding displaced_base
  base_small = ground arith

  pub data_address_in :
      (x : ℕ) → lm ≤ x → x < lm + ms → data_address lm ms upper x ≡ base + (x - lm)
  unfolding data_address
  data_address_in x h1 h2 =
      let inside : (leb lm x && ltb x (lm + ms)) ≡ true = ground arith in if_true _ inside

  pub data_address_below : (x : ℕ) → x < lm → data_address lm ms upper x ≡ x
  unfolding data_address
  data_address_below x h =
      let out : (leb lm x && ltb x (lm + ms)) ≡ false = ground arith in if_false _ out

  pub data_address_above : (x : ℕ) → lm + ms ≤ x → data_address lm ms upper x ≡ x
  unfolding data_address
  data_address_above x h =
      let out : (leb lm x && ltb x (lm + ms)) ≡ false = ground arith in if_false _ out

pub data_address_small : (lm ms upper x : ℕ) → x + ms ≤ upper → data_address lm ms upper x ≤ upper
data_address_small lm ms upper x h = elim (dec_lt x lm) [
  | yes p ↦ omega (arith, data_address_below lm ms upper x p, h)
  | no p ↦ elim (dec_le (lm + ms) x) [
    | yes q ↦ omega (arith, data_address_above lm ms upper x q, h)
    | no q ↦ omega (
      arith,
      data_address_in lm ms upper x (omega (arith, p)) (omega (arith, q)),
      base_fits lm ms upper x (omega (arith, p)) (omega (arith, q)) h,
    )
  ]
]

-- An access to `la` and what follows, of which `amt` bytes, `off` after its start, are at the place of
-- the metadata, `start` after the start of that.
pub record IsOverlap (la n lm ms off start amt : ℕ) : Type 0 where
  pub same : la + off ≡ lm + start
  pub in_access : off + amt ≤ n
  pub not_empty : 1 ≤ amt
  pub in_meta : start + amt ≤ ms
  pub first : (x : ℕ) → la ≤ x → lm ≤ x → la + off ≤ x
  pub last : (x : ℕ) → x < la + n → x < lm + ms → x < la + off + amt

module _ (lm ms upper la n off start amt : ℕ) (o : IsOverlap la n lm ms off start amt) where
  pub place_fits :
      la + n + ms ≤ upper + 1
      → lm + ms ≤ upper + 1
      → displaced_base lm ms upper + start + amt ≤ upper + 1
  unfolding displaced_base
  place_fits fits room =
      let (same, in_access, in_meta) : (la + off ≡ lm + start)
          × (off + amt ≤ n)
          × (start + amt ≤ ms) =
        (o.same, o.in_access, o.in_meta) in
      ground arith

  -- What a read gives: the bytes around the metadata, and those that are displaced.
  pub read_splice :
      (f : ℕ → ℕ)
      → take off (bytes_at f la n)
          ++ (bytes_at f (displaced_base lm ms upper + start) amt
              ++ drop (off + amt) (bytes_at f la n))
        ≡ bytes_at (λ x. f (data_address lm ms upper x)) la n
  read_splice f =
      let g : ℕ → ℕ = λ x. f (data_address lm ms upper x) in
      let same = o.same in
      let in_access = o.in_access in
      let in_meta = o.in_meta in
      let before : take off (bytes_at f la n) ≡ bytes_at g la off =
        take-bytes_at f la n off (omega (arith, in_access))
        ∙ bytes_at_ext f g la la off λ k small. ap f (
            sym (elim (dec_lt (la + k) lm) [
              | yes h ↦ data_address_below lm ms upper (la + k) h
              | no h ↦
                  absurd (omega (arith, o.first (la + k) (omega arith) (omega (arith, h)), small))
            ])) in
      let middle : bytes_at f (displaced_base lm ms upper + start) amt ≡ bytes_at g (la + off) amt =
        bytes_at_ext f g (displaced_base lm ms upper + start) (la + off) amt λ k small. ap f (
          omega (arith, same)
          ∙ sym (
              data_address_in lm ms upper (la + off + k) (omega (arith, same))
                (omega (arith, same, small, in_meta)))) in
      let after : drop (off + amt) (bytes_at f la n)
          ≡ bytes_at g (la + off + amt) (n - (off + amt)) =
        drop-bytes_at f la n (off + amt) in_access
        ∙ bytes_at_ext f g (la + (off + amt)) (la + off + amt) (n - (off + amt)) λ k small.
          ap f {x = la + (off + amt) + k} {y = la + off + amt + k} (omega arith)
          ∙ ap f (
              sym (elim (dec_le (lm + ms) (la + off + amt + k)) [
                | yes h ↦ data_address_above lm ms upper (la + off + amt + k) h
                | no h ↦ absurd (
                    omega (
                      arith,
                      o.last (la + off + amt + k) (omega (arith, small)) (omega (arith, h)),
                    ))
              ])) in
      ap₂ (λ a b. a ++ b) before (ap₂ (λ a b. a ++ b) middle after)
      ∙ ap (λ t. bytes_at g la off ++ t) (bytes_at-append g (la + off) amt (n - (off + amt)))
      ∙ bytes_at-append g la off (amt + (n - (off + amt)))
      ∙ ap (bytes_at g la) {x = off + (amt + (n - (off + amt)))} {y = n} (omega (arith, in_access))

-- An access that does not overlap the metadata.
module _ (lm ms upper la : ℕ) (f : ℕ → ℕ) where
  pub read_plain :
      (n : ℕ)
      → (la + n ≤ lm ⊎ lm + ms ≤ la)
      → bytes_at f la n ≡ bytes_at (λ x. f (data_address lm ms upper x)) la n
  read_plain n (inl h) =
      bytes_at_ext f _ la la n
        λ k small. ap f (sym (data_address_below lm ms upper (la + k) (omega (arith, h, small))))
  read_plain n (inr h) =
      bytes_at_ext f _ la la n
        λ k small. ap f (sym (data_address_above lm ms upper (la + k) (omega (arith, h))))

  -- What stands at the place of an address after a write.
  plain_at :
      (bytes : List ℕ) (x : ℕ)
      → data_address lm ms upper x ≡ x
      → overlay f la bytes (data_address lm ms upper x)
        ≡ overlay (λ y. f (data_address lm ms upper y)) la bytes x
  plain_at bytes x e = ap (overlay f la bytes) e ∙ overlay_ext f _ la bytes x (ap f (sym e))

  pub write_plain :
      (bytes : List ℕ)
      → (la + length bytes ≤ lm ⊎ lm + ms ≤ la)
      → la + length bytes + ms ≤ upper + 1
      → (x : ℕ)
      → overlay f la bytes (data_address lm ms upper x)
        ≡ overlay (λ y. f (data_address lm ms upper y)) la bytes x
  write_plain bytes out fits x = elim (dec_lt x lm) [
    | yes p ↦ plain_at bytes x (data_address_below lm ms upper x p)
    | no p ↦ elim (dec_le (lm + ms) x) [
      | yes q ↦ plain_at bytes x (data_address_above lm ms upper x q)
      | no q ↦
          let above = base_above lm ms upper (la + length bytes) fits in
          let at_x = data_address_in lm ms upper x (omega (arith, p)) (omega (arith, q)) in
          let g : ℕ → ℕ = λ y. f (data_address lm ms upper y) in
          let outside : overlay g la bytes x ≡ g x = elim out [
            | inl h ↦ overlay_above g la bytes x (omega (arith, h, p))
            | inr h ↦ overlay_below g la bytes x (omega (arith, h, q))
          ] in
          ap (overlay f la bytes) at_x
          ∙ overlay_above f la bytes _ (omega (arith, above))
          ∙ ap f (sym at_x)
          ∙ sym outside
    ]
  ]

  pub meta_plain :
      (bytes : List ℕ)
      → (la + length bytes ≤ lm ⊎ lm + ms ≤ la)
      → (x : ℕ) → lm ≤ x
      → x < lm + ms
      → overlay f la bytes x ≡ f x
  meta_plain bytes (inl h) x low high = overlay_above f la bytes x (omega (arith, h, low))
  meta_plain bytes (inr h) x low high = overlay_below f la bytes x (omega (arith, h, high))
