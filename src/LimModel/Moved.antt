-- ===== src/LimModel/Moved.antt =====
-- What a write changes when it starts after that of the metadata and is shifted: modules/lim_model/model.cpp.
use c3_simulator.Common.{
  ℕ, zero, suc, ◌+◌, ◌-◌, ◌^◌, ◌≤◌, ◌<◌, ◌≡◌, refl, ap, ap₂, sym, ◌∙◌, arith, List, [], ◌∷◌, ◌++◌,
  length, get_or, dec_lt, leb, ltb, ◌&&◌, if◌then◌else◌,
}
use c3_simulator.Data.Countermode.{take, drop}
use c3_simulator.LimModel.Memory.{min_uint64}
use c3_simulator.LimModel.Bytes.{
  bytes_at, overlay, get_or-bytes_at, get_or-append_left, get_or-append_right, length-bytes_at,
  overlay_in, overlay_below, overlay_above, length-take, length-append,
}
use c3_simulator.LimModel.Shifted.{shifted_address, before, past}

pub get_or-take : (k n : ℕ) (xs : List ℕ) → k < n → get_or (take n xs) k 0 ≡ get_or xs k 0
unfolding take
get_or-take k zero xs h = absurd (omega arith)
get_or-take k (suc n) [] h = refl
get_or-take zero (suc n) (x ∷ xs) h = refl
get_or-take (suc k) (suc n) (x ∷ xs) h = get_or-take k n xs (omega arith)

pub get_or-drop : (k a : ℕ) (xs : List ℕ) → get_or (drop a xs) k 0 ≡ get_or xs (a + k) 0
unfolding drop
get_or-drop k zero xs = ap (λ t. get_or xs t 0) {x = k} {y = 0 + k} (omega arith)
get_or-drop k (suc a) [] = refl
get_or-drop k (suc a) (x ∷ xs) =
    get_or-drop k a xs
    ∙ ap (λ t. get_or (x ∷ xs) t 0) {x = suc (a + k)} {y = suc a + k} (omega arith)

pub overlay_at :
    (g : ℕ → ℕ) (p : ℕ) (bytes : List ℕ) (y : ℕ)
    → p ≤ y
    → y < p + length bytes
    → overlay g p bytes y ≡ get_or bytes (y - p) 0
overlay_at g p bytes y h h' =
    ap (overlay g p bytes) {x = y} {y = p + (y - p)} (omega (arith, h))
    ∙ overlay_in g p bytes (y - p) (omega (arith, h, h'))

pub overlay_moved :
    (f g : ℕ → ℕ) (p c : ℕ) (bytes : List ℕ) (x : ℕ)
    → f (x + c) ≡ g x
    → overlay f (p + c) bytes (x + c) ≡ overlay g p bytes x
unfolding overlay
overlay_moved f g p c bytes x e =
    let same : (leb (p + c) (x + c) && ltb (x + c) (p + c + length bytes))
        ≡ (leb p x && ltb x (p + length bytes)) =
      ground arith in
    ap₂ (λ b k. if b then get_or bytes k 0 else f (x + c)) same (omega arith)
    ∙ ap (λ t. if leb p x && ltb x (p + length bytes) then get_or bytes (x - p) 0 else t) e

-- A write that starts in the metadata or after it.
module _ (lm ms la : ℕ) (bytes : List ℕ) (start : lm ≤ la) (top : la + length bytes + ms < 2 ^ 56)
    (f f1 f2 : ℕ → ℕ) where
  abbrev n : ℕ
  n = length bytes

  abbrev old : List ℕ
  old = bytes_at f la (min_uint64 n ms)

  abbrev fixup : List ℕ
  fixup = old ++ take (n - ms) bytes

  length_old : length old ≡ min_uint64 n ms
  length_old = length-bytes_at f la (min_uint64 n ms)

  length_fixup : length fixup ≡ n
  length_fixup =
      let taken : length (take (n - ms) bytes) ≡ min_uint64 n (n - ms) =
        length-take (n - ms) bytes in
      let sum = length-append old (take (n - ms) bytes) in ground (arith, sum, length_old, taken)

  module _ (h1 : (x : ℕ) → x < 2 ^ 56 → f1 x ≡ overlay f (la + ms) bytes x)
      (h2 : (x : ℕ) → x < 2 ^ 56 → f2 x ≡ overlay f1 la fixup x) where
    kept_below : (y : ℕ) → y < 2 ^ 56 → y < la + ms → f1 y ≡ f y
    kept_below y small h = h1 y small ∙ overlay_below f (la + ms) bytes y h

    pub moved_old : (y : ℕ) → y < 2 ^ 56 → y < la + ms → f2 y ≡ f y
    moved_old y small h = elim (dec_lt y la) [
      | yes p ↦ h2 y small ∙ overlay_below f1 la fixup y p ∙ kept_below y small h
      | no p ↦ elim (dec_lt y (la + n)) [
        | yes q ↦
            let k : y - la < min_uint64 n ms = ground (arith, p, q, h) in
            h2 y small
            ∙ overlay_at f1 la fixup y (omega (arith, p)) (omega (arith, q, length_fixup))
            ∙ get_or-append_left old (take (n - ms) bytes) (y - la) (omega (arith, k, length_old))
            ∙ get_or-bytes_at f la (min_uint64 n ms) (y - la) k
            ∙ ap f {x = la + (y - la)} {y = y} (omega (arith, p))
        | no q ↦
            h2 y small
            ∙ overlay_above f1 la fixup y (omega (arith, q, length_fixup))
            ∙ kept_below y small h
      ]
    ]

    moved_new : (y : ℕ) → y < 2 ^ 56 → la + ms ≤ y → f2 y ≡ overlay f (la + ms) bytes y
    moved_new y small h = elim (dec_lt y (la + n)) [
      | no q ↦
          h2 y small ∙ overlay_above f1 la fixup y (omega (arith, q, length_fixup)) ∙ h1 y small
      | yes q ↦
          let k = y - (la + ms) in
          let short : min_uint64 n ms ≡ ms = ground (arith, h, q) in
          h2 y small
          ∙ overlay_at f1 la fixup y (omega (arith, h)) (omega (arith, q, length_fixup))
          ∙ ap (λ t. get_or fixup t 0) {x = y - la} {y = length old + k}
              (omega (arith, h, short, length_old))
          ∙ get_or-append_right old (take (n - ms) bytes) k
          ∙ get_or-take k (n - ms) bytes (omega (arith, h, q))
          ∙ sym (overlay_at f (la + ms) bytes y h (omega (arith, q)))
    ]

    pub moved_after :
        (x : ℕ)
        → x + ms < 2 ^ 56
        → f2 (shifted_address lm ms x) ≡ overlay (λ z. f (shifted_address lm ms z)) la bytes x
    moved_after x small = elim (dec_lt x lm) [
      | yes p ↦
          ap f2 (before lm ms x p)
          ∙ moved_old x (omega (arith, small)) (omega (arith, p, start))
          ∙ ap f (sym (before lm ms x p))
          ∙ sym (
              overlay_below (λ z. f (shifted_address lm ms z)) la bytes x (omega (arith, p, start)))
      | no p ↦ ap f2 (past lm ms x (omega (arith, p))) ∙ elim (dec_lt x la) [
        | yes q ↦
            moved_old (x + ms) small (omega (arith, q))
            ∙ ap f (sym (past lm ms x (omega (arith, p))))
            ∙ sym (overlay_below (λ z. f (shifted_address lm ms z)) la bytes x q)
        | no q ↦
            moved_new (x + ms) small (omega (arith, q))
            ∙ overlay_moved f (λ z. f (shifted_address lm ms z)) la ms bytes x
                (ap f (sym (past lm ms x (omega (arith, p)))))
      ]
    ]
