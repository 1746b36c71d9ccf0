-- ===== src/LimModel/Bytes.antt =====
-- Ranges of bytes in a memory, and what a write changes: modules/lim_model/model.cpp.
use c3_simulator.Common.{
  ℕ, zero, suc, ◌+◌, ◌-◌, ◌*◌, ◌^◌, ◌≤◌, ◌<◌, ◌≡◌, refl, ap, ap₂, sym, ◌∙◌, arith, true, false, ltb,
  leb, ◌&&◌, if◌then◌else◌, List, [], ◌∷◌, ◌++◌, length, get_or, dec_le, dec_lt, if_true, if_false,
}
use mathlib.Core.List.{append-nil}
use c3_simulator.Base.Words.{bytes_of}
use c3_simulator.Base.RoundTrip.{value, bytes_of-value}
use c3_simulator.Data.Countermode.{take, drop}
use c3_simulator.Data.Stream.{AreBytes, drop-all}
use c3_simulator.LimModel.Memory.{min_uint64, little_endian}

-- The `n` bytes from `p` on.
unfoldable pub bytes_at : (ℕ → ℕ) → ℕ → ℕ → List ℕ
bytes_at f p zero = []
bytes_at f p (suc n) = f p ∷ bytes_at f (p + 1) n

-- A memory with these bytes from `p` on.
unfoldable pub overlay : (ℕ → ℕ) → ℕ → List ℕ → ℕ → ℕ
overlay f p bytes x = if leb p x && ltb x (p + length bytes) then get_or bytes (x - p) 0 else f x

pub length-bytes_at : (f : ℕ → ℕ) (p n : ℕ) → length (bytes_at f p n) ≡ n
unfolding bytes_at
length-bytes_at f p zero = refl
length-bytes_at f p (suc n) = ap suc (length-bytes_at f (p + 1) n)

pub bytes_at-AreBytes :
    (f : ℕ → ℕ) → ((x : ℕ) → f x < 2 ^ 8) → (p n : ℕ) → AreBytes (bytes_at f p n)
unfolding bytes_at AreBytes
bytes_at-AreBytes f h p zero = tt
bytes_at-AreBytes f h p (suc n) = (h p, bytes_at-AreBytes f h (p + 1) n)

pub bytes_at-append :
    (f : ℕ → ℕ) (p a b : ℕ) → bytes_at f p a ++ bytes_at f (p + a) b ≡ bytes_at f p (a + b)
unfolding bytes_at
bytes_at-append f p zero b =
    ap (λ t. bytes_at f t b) {x = p + 0} {y = p} (omega arith)
    ∙ ap (bytes_at f p) {x = b} {y = 0 + b} (omega arith)
bytes_at-append f p (suc a) b =
    ap (λ t. f p ∷ t)
      (ap (λ t. bytes_at f (p + 1) a ++ bytes_at f t b) {x = p + suc a} {y = p + 1 + a}
          (omega arith)
        ∙ bytes_at-append f (p + 1) a b)
    ∙ ap (bytes_at f p) {x = suc (a + b)} {y = suc a + b} (omega arith)

pub get_or-bytes_at : (f : ℕ → ℕ) (p n i : ℕ) → i < n → get_or (bytes_at f p n) i 0 ≡ f (p + i)
unfolding bytes_at
get_or-bytes_at f p zero i h = absurd (omega arith)
get_or-bytes_at f p (suc n) zero h = ap f (omega arith)
get_or-bytes_at f p (suc n) (suc i) h =
    get_or-bytes_at f (p + 1) n i (omega arith) ∙ ap f (omega arith)

-- A list by its elements.
pub bytes_at_list :
    (f : ℕ → ℕ) (p : ℕ) (xs : List ℕ)
    → ((i : ℕ) → i < length xs → f (p + i) ≡ get_or xs i 0)
    → bytes_at f p (length xs) ≡ xs
unfolding bytes_at
bytes_at_list f p [] h = refl
bytes_at_list f p (x ∷ xs) h =
    ap₂ (λ a b. a ∷ b) (ap f {x = p} {y = p + 0} (omega arith) ∙ h 0 (omega arith))
      (bytes_at_list f (p + 1) xs
        λ i small. ap f {x = p + 1 + i} {y = p + suc i} (omega arith) ∙ h (suc i) (omega arith))

pub bytes_at_ext :
    (f g : ℕ → ℕ) (p q n : ℕ)
    → ((i : ℕ) → i < n → f (p + i) ≡ g (q + i))
    → bytes_at f p n ≡ bytes_at g q n
unfolding bytes_at
bytes_at_ext f g p q zero h = refl
bytes_at_ext f g p q (suc n) h =
    ap₂ (λ a b. a ∷ b)
      (ap f {x = p} {y = p + 0} (omega arith)
        ∙ h 0 (omega arith)
        ∙ ap g {x = q + 0} {y = q} (omega arith))
      (bytes_at_ext f g (p + 1) (q + 1) n λ i small.
        ap f {x = p + 1 + i} {y = p + suc i} (omega arith)
        ∙ h (suc i) (omega arith)
        ∙ ap g {x = q + suc i} {y = q + 1 + i} (omega arith))

little_endian_lem : (xs : List ℕ) → little_endian xs ≡ value xs
unfolding little_endian value
little_endian_lem [] = refl
little_endian_lem (x ∷ xs) = ap (λ t. x + 2 ^ 8 * t) (little_endian_lem xs)

pub bytes_of-little_endian :
    (xs : List ℕ) → AreBytes xs → bytes_of (length xs) (little_endian xs) ≡ xs
bytes_of-little_endian xs h = ap (bytes_of (length xs)) (little_endian_lem xs) ∙ bytes_of-value xs h

pub overlay_in :
    (f : ℕ → ℕ) (p : ℕ) (bytes : List ℕ) (i : ℕ)
    → i < length bytes
    → overlay f p bytes (p + i) ≡ get_or bytes i 0
unfolding overlay
overlay_in f p bytes i h =
    let inside : (leb p (p + i) && ltb (p + i) (p + length bytes)) ≡ true = ground arith in
    if_true _ inside ∙ ap (λ t. get_or bytes t 0) {x = p + i - p} {y = i} (omega arith)

pub overlay_below : (f : ℕ → ℕ) (p : ℕ) (bytes : List ℕ) (x : ℕ) → x < p → overlay f p bytes x ≡ f x
unfolding overlay
overlay_below f p bytes x h =
    let out : (leb p x && ltb x (p + length bytes)) ≡ false = ground arith in if_false _ out

pub overlay_above :
    (f : ℕ → ℕ) (p : ℕ) (bytes : List ℕ) (x : ℕ) → p + length bytes ≤ x → overlay f p bytes x ≡ f x
unfolding overlay
overlay_above f p bytes x h =
    let out : (leb p x && ltb x (p + length bytes)) ≡ false = ground arith in if_false _ out

pub get_or-append_left :
    (xs ys : List ℕ) (i : ℕ) → i < length xs → get_or (xs ++ ys) i 0 ≡ get_or xs i 0
get_or-append_left [] ys i h = absurd (omega arith)
get_or-append_left (x ∷ xs) ys zero h = refl
get_or-append_left (x ∷ xs) ys (suc i) h = get_or-append_left xs ys i (omega arith)

pub get_or-append_right :
    (xs ys : List ℕ) (i : ℕ) → get_or (xs ++ ys) (length xs + i) 0 ≡ get_or ys i 0
get_or-append_right [] ys i = ap (λ t. get_or ys t 0) {x = 0 + i} {y = i} (omega arith)
get_or-append_right (x ∷ xs) ys i =
    ap (λ t. get_or (x ∷ (xs ++ ys)) t 0) {x = suc (length xs) + i} {y = suc (length xs + i)}
      (omega arith)
    ∙ get_or-append_right xs ys i

pub length-append : (xs ys : List ℕ) → length (xs ++ ys) ≡ length xs + length ys
length-append [] ys = omega arith
length-append (x ∷ xs) ys = omega (arith, length-append xs ys)

-- Two writes one after the other are one.
pub overlay-append :
    (f : ℕ → ℕ) (p : ℕ) (xs ys : List ℕ) (x : ℕ)
    → overlay (overlay f p xs) (p + length xs) ys x ≡ overlay f p (xs ++ ys) x
overlay-append f p xs ys x =
    let same = length-append xs ys in
    elim (dec_lt x p) [
      | yes h ↦
          overlay_below _ (p + length xs) ys x (omega (arith, h))
          ∙ overlay_below f p xs x h
          ∙ sym (overlay_below f p (xs ++ ys) x h)
      | no h ↦ elim (dec_lt x (p + length xs)) [
        | yes h' ↦
            let i = x - p in
            let small : i < length xs = omega (arith, h, h') in
            overlay_below _ (p + length xs) ys x h'
            ∙ ap (overlay f p xs) {x = x} {y = p + i} (omega (arith, h))
            ∙ overlay_in f p xs i small
            ∙ sym (get_or-append_left xs ys i small)
            ∙ sym (overlay_in f p (xs ++ ys) i (omega (arith, small, same)))
            ∙ ap (overlay f p (xs ++ ys)) {x = p + i} {y = x} (omega (arith, h))
        | no h' ↦ elim (dec_lt x (p + length xs + length ys)) [
          | yes h2 ↦
              let i = x - (p + length xs) in
              let small : i < length ys = omega (arith, h', h2) in
              ap (overlay (overlay f p xs) (p + length xs) ys) {x = x} {y = p + length xs + i}
                (omega (arith, h'))
              ∙ overlay_in (overlay f p xs) (p + length xs) ys i small
              ∙ sym (get_or-append_right xs ys i)
              ∙ sym (overlay_in f p (xs ++ ys) (length xs + i) (omega (arith, small, same)))
              ∙ ap (overlay f p (xs ++ ys)) {x = p + (length xs + i)} {y = x} (omega (arith, h'))
          | no h2 ↦
              overlay_above _ (p + length xs) ys x (omega (arith, h2))
              ∙ overlay_above f p xs x (omega (arith, h'))
              ∙ sym (overlay_above f p (xs ++ ys) x (omega (arith, h2, same)))
        ]
      ]
    ]

pub take-drop : (n : ℕ) (xs : List ℕ) → take n xs ++ drop n xs ≡ xs
unfolding take drop
take-drop zero xs = refl
take-drop (suc n) [] = refl
take-drop (suc n) (x ∷ xs) = ap (λ t. x ∷ t) (take-drop n xs)

pub length-take : (n : ℕ) (xs : List ℕ) → length (take n xs) ≡ min_uint64 (length xs) n
unfolding take
length-take zero xs = ground arith
length-take (suc n) [] = ground arith
length-take (suc n) (x ∷ xs) = ground (arith, length-take n xs)

pub length-drop : (n : ℕ) (xs : List ℕ) → length (drop n xs) ≡ length xs - n
unfolding drop
length-drop zero xs = omega arith
length-drop (suc n) [] = omega arith
length-drop (suc n) (x ∷ xs) = omega (arith, length-drop n xs)

pub take-AreBytes : (n : ℕ) (xs : List ℕ) → AreBytes xs → AreBytes (take n xs)
unfolding take AreBytes
take-AreBytes zero xs h = tt
take-AreBytes (suc n) [] h = tt
take-AreBytes (suc n) (x ∷ xs) h = (h.0, take-AreBytes n xs h.1)

pub drop-AreBytes : (n : ℕ) (xs : List ℕ) → AreBytes xs → AreBytes (drop n xs)
unfolding drop AreBytes
drop-AreBytes zero xs h = h
drop-AreBytes (suc n) [] h = tt
drop-AreBytes (suc n) (x ∷ xs) h = drop-AreBytes n xs h.1

pub overlay_nil : (f : ℕ → ℕ) (p x : ℕ) → overlay f p [] x ≡ f x
unfolding overlay
overlay_nil f p x = ground arith

pub overlay_ext :
    (f g : ℕ → ℕ) (p : ℕ) (bytes : List ℕ) (x : ℕ)
    → f x ≡ g x
    → overlay f p bytes x ≡ overlay g p bytes x
unfolding overlay
overlay_ext f g p bytes x e =
    ap (λ t. if leb p x && ltb x (p + length bytes) then get_or bytes (x - p) 0 else t) e

pub overlay_split :
    (f : ℕ → ℕ) (p : ℕ) (xs : List ℕ) (x : ℕ)
    → overlay (overlay f p (take 8 xs)) (p + 8) (drop 8 xs) x ≡ overlay f p xs x
overlay_split f p xs x = elim (dec_le 8 (length xs)) [
  | yes h ↦
      let eight : length (take 8 xs) ≡ 8 = rw (length-take 8 xs) (ground arith) in
      ap (λ q. overlay (overlay f p (take 8 xs)) q (drop 8 xs) x) {x = p + 8}
        {y = p + length (take 8 xs)} (omega (arith, eight))
      ∙ overlay-append f p (take 8 xs) (drop 8 xs) x
      ∙ ap (λ b. overlay f p b x) (take-drop 8 xs)
  | no h ↦
      let none_left = drop-all 8 xs (omega (arith, h)) in
      ap (λ b. overlay (overlay f p (take 8 xs)) (p + 8) b x) none_left
      ∙ overlay_nil (overlay f p (take 8 xs)) (p + 8) x
      ∙ ap (λ b. overlay f p b x)
          (sym (append-nil (take 8 xs)) ∙ ap (λ b. take 8 xs ++ b) (sym none_left) ∙ take-drop 8 xs)
]

pub min_eq : (n b : ℕ) → b ≤ n → min_uint64 n b ≡ b
min_eq n b h = ground arith

pub append-AreBytes : (xs ys : List ℕ) → AreBytes xs → AreBytes ys → AreBytes (xs ++ ys)
unfolding AreBytes
append-AreBytes [] ys h h' = h'
append-AreBytes (x ∷ xs) ys h h' = (h.0, append-AreBytes xs ys h.1 h')
