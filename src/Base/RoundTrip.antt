-- ===== src/Base/RoundTrip.antt =====
-- The encryption of a word is its own inverse: modules/common/ccsimics/c3_base_model.h.
use c3_simulator.Common.{
  ℕ, zero, suc, ◌+◌, ◌*◌, ◌/◌, ◌%◌, ◌^◌, ◌≤◌, ◌<◌, ◌≡◌, refl, ap, ap₂, sym, ◌∙◌, arith, bit_and,
  bit_or, List, [], ◌∷◌, length, u64, ◌<<<◌,
}
use c3_simulator.Common.Bits.{
  bit_or_fields, bit_xor_cancel, bit_xor-lt, bit_ext, bit_or-lt, bit-bit_or,
}
use native.Mathlib.Nat.{mul-le-mul, mul-le-mul_right, pow-suc, pow-le-pow_right}
use c3_simulator.Data.Countermode.{get_countermode_mask, mask_byte, xor_loop, encrypt_decrypt_bytes}
use c3_simulator.Data.Stream.{AreBytes}
use c3_simulator.Base.Words.{bytes_of, u64_of, encrypt_decrypt_u64}

bit_or_comm : (a b : ℕ) → a < 2 ^ 64 → b < 2 ^ 64 → bit_or a b ≡ bit_or b a
bit_or_comm a b p q =
    bit_ext 64 _ _ (bit_or-lt 64 a b p q) (bit_or-lt 64 b a q p)
      (λ i _. omega (arith, bit-bit_or a b i, bit-bit_or b a i))

-- A byte above the bits that there are.
or_byte : (k r x : ℕ) → k ≤ 56 → r < 2 ^ k → x < 2 ^ 8 → bit_or r (u64 (x <<< k)) ≡ r + x * 2 ^ k
or_byte k r x le low byte =
    let top = pow-le-pow_right {n = 2} (omega arith) {i = k} {j = 56} le in
    let byte_le : x ≤ 255 = omega arith in
    let fits : x * 2 ^ k < 2 ^ 64 = omega (arith, top, mul-le-mul byte_le top) in
    ap (bit_or r) {x = u64 (x <<< k)} {y = x <<< k} (omega (arith, fits))
    ∙ bit_or_comm r (x <<< k) (omega (arith, top)) fits
    ∙ bit_or_fields k x r low
    ∙ omega arith

next_byte : (i : ℕ) → 2 ^ ((i + 1) * 8) ≡ 2 ^ (i * 8) * 2 ^ 8
next_byte i =
    ap (λ n. 2 ^ n) {x = (i + 1) * 8} {y = suc (suc (suc (suc (suc (suc (suc (suc (i * 8))))))))}
      (omega arith)
    ∙ omega (
      arith,
      pow-suc 2 (i * 8),
      pow-suc 2 (i * 8 + 1),
      pow-suc 2 (i * 8 + 2),
      pow-suc 2 (i * 8 + 3),
      pow-suc 2 (i * 8 + 4),
      pow-suc 2 (i * 8 + 5),
      pow-suc 2 (i * 8 + 6),
      pow-suc 2 (i * 8 + 7),
    )

unfoldable pub value : List ℕ → ℕ
value [] = 0
value (x ∷ xs) = x + 2 ^ 8 * value xs

u64_of_lem :
    (i r : ℕ) (xs : List ℕ)
    → i + length xs ≤ 8
    → r < 2 ^ (i * 8)
    → AreBytes xs
    → u64_of i r xs ≡ r + value xs * 2 ^ (i * 8)
unfolding u64_of value AreBytes
u64_of_lem i r [] fits low bytes = omega arith
u64_of_lem i r (x ∷ xs) fits low bytes =
    let byte_le : x ≤ 255 = omega (arith, bytes.0) in
    let one = or_byte (i * 8) r x (omega arith) low bytes.0 in
    ap (λ t. u64_of (i + 1) t xs) one
    ∙ u64_of_lem (i + 1) (r + x * 2 ^ (i * 8)) xs (omega arith)
        (omega (arith, next_byte i, mul-le-mul_right (2 ^ (i * 8)) byte_le)) bytes.1
    ∙ omega (arith, ap (λ t. value xs * t) (next_byte i))

value-lt : (xs : List ℕ) → AreBytes xs → value xs < (2 ^ 8) ^ length xs
unfolding value AreBytes
value-lt [] bytes = omega arith
value-lt (x ∷ xs) bytes = omega (arith, bytes.0, value-lt xs bytes.1, pow-suc (2 ^ 8) (length xs))

bytes_of-AreBytes : (n v : ℕ) → AreBytes (bytes_of n v)
unfolding bytes_of AreBytes
bytes_of-AreBytes zero v = tt
bytes_of-AreBytes (suc n) v = (omega arith, bytes_of-AreBytes n (v / 2 ^ 8))

length-bytes_of : (n v : ℕ) → length (bytes_of n v) ≡ n
unfolding bytes_of
length-bytes_of zero v = refl
length-bytes_of (suc n) v = ap suc (length-bytes_of n (v / 2 ^ 8))

value-bytes_of : (n v : ℕ) → v < (2 ^ 8) ^ n → value (bytes_of n v) ≡ v
unfolding bytes_of value
value-bytes_of zero v small = omega arith
value-bytes_of (suc n) v small =
    omega (arith, value-bytes_of n (v / 2 ^ 8) (omega (arith, pow-suc (2 ^ 8) n)))

pub bytes_of-value : (xs : List ℕ) → AreBytes xs → bytes_of (length xs) (value xs) ≡ xs
unfolding bytes_of value AreBytes
bytes_of-value [] bytes = refl
bytes_of-value (x ∷ xs) bytes =
    ap₂ (λ a t. a ∷ t) {x = (x + 2 ^ 8 * value xs) % 2 ^ 8} {y = x} (omega (arith, bytes.0))
      (ap (bytes_of (length xs)) {x = (x + 2 ^ 8 * value xs) / 2 ^ 8} {y = value xs}
          (omega (arith, bytes.0))
        ∙ bytes_of-value xs bytes.1)

mask_byte-lt : (mask : List ℕ) (j : ℕ) → mask_byte mask j < 2 ^ 8
unfolding mask_byte
mask_byte-lt mask j = omega arith

module _ (mask : List ℕ) (offset : ℕ) where
  length-xor_loop : (i : ℕ) (xs : List ℕ) → length (xor_loop mask offset i xs) ≡ length xs
  unfolding xor_loop
  length-xor_loop i [] = refl
  length-xor_loop i (x ∷ xs) = ap suc (length-xor_loop (i + 1) xs)

  xor_loop-AreBytes : (i : ℕ) (xs : List ℕ) → AreBytes xs → AreBytes (xor_loop mask offset i xs)
  unfolding xor_loop AreBytes
  xor_loop-AreBytes i [] bytes = tt
  xor_loop-AreBytes i (x ∷ xs) bytes = (
    bit_xor-lt 8 x _ bytes.0 (mask_byte-lt mask (i + offset)),
    xor_loop-AreBytes (i + 1) xs bytes.1,
  )

  xor_loop-xor_loop :
      (i : ℕ) (xs : List ℕ) → AreBytes xs → xor_loop mask offset i (xor_loop mask offset i xs) ≡ xs
  unfolding xor_loop AreBytes
  xor_loop-xor_loop i [] bytes = refl
  xor_loop-xor_loop i (x ∷ xs) bytes =
      ap₂ (λ a t. a ∷ t) (bit_xor_cancel 8 x _ bytes.0 (mask_byte-lt mask (i + offset)))
        (xor_loop-xor_loop (i + 1) xs bytes.1)

module _ (tweak : ℕ) (k : List ℕ) where
  encrypted-AreBytes : (xs : List ℕ) → AreBytes xs → AreBytes (encrypt_decrypt_bytes tweak k xs)
  unfolding encrypt_decrypt_bytes
  encrypted-AreBytes xs bytes = xor_loop-AreBytes _ _ 0 xs bytes

  length-encrypted : (xs : List ℕ) → length (encrypt_decrypt_bytes tweak k xs) ≡ length xs
  unfolding encrypt_decrypt_bytes
  length-encrypted xs = length-xor_loop _ _ 0 xs

  encrypted-encrypted :
      (xs : List ℕ)
      → AreBytes xs
      → encrypt_decrypt_bytes tweak k (encrypt_decrypt_bytes tweak k xs) ≡ xs
  unfolding encrypt_decrypt_bytes
  encrypted-encrypted xs bytes =
      ap
        (λ n.
          xor_loop (get_countermode_mask tweak k n) (bit_and tweak 0x7) 0
            (encrypt_decrypt_bytes tweak k xs))
        (length-encrypted xs)
      ∙ xor_loop-xor_loop _ _ 0 xs bytes

  -- The word of eight encrypted bytes.
  word_lem :
      (v : ℕ) → encrypt_decrypt_u64 tweak v k ≡ value (encrypt_decrypt_bytes tweak k (bytes_of 8 v))
  unfolding encrypt_decrypt_u64
  word_lem v =
      let same = length-encrypted (bytes_of 8 v) ∙ length-bytes_of 8 v in
      u64_of_lem 0 0 (encrypt_decrypt_bytes tweak k (bytes_of 8 v)) (omega (arith, same))
        (omega arith) (encrypted-AreBytes (bytes_of 8 v) (bytes_of-AreBytes 8 v))
      ∙ omega arith

  pub encrypt_decrypt_u64-lt : (v : ℕ) → encrypt_decrypt_u64 tweak v k < 2 ^ 64
  encrypt_decrypt_u64-lt v =
      let xs = encrypt_decrypt_bytes tweak k (bytes_of 8 v) in
      let same = length-encrypted (bytes_of 8 v) ∙ length-bytes_of 8 v in
      let low = value-lt xs (encrypted-AreBytes (bytes_of 8 v) (bytes_of-AreBytes 8 v)) in
      omega (arith, word_lem v, low, ap (λ n. (2 ^ 8) ^ n) same)

pub encrypt_decrypt_u64_lem :
    (tweak v : ℕ) (k : List ℕ)
    → v < 2 ^ 64
    → encrypt_decrypt_u64 tweak (encrypt_decrypt_u64 tweak v k) k ≡ v
encrypt_decrypt_u64_lem tweak v k small =
    let xs = encrypt_decrypt_bytes tweak k (bytes_of 8 v) in
    let bytes = encrypted-AreBytes tweak k (bytes_of 8 v) (bytes_of-AreBytes 8 v) in
    let same = length-encrypted tweak k (bytes_of 8 v) ∙ length-bytes_of 8 v in
    word_lem tweak k _
    ∙ ap (λ w. value (encrypt_decrypt_bytes tweak k (bytes_of 8 w))) (word_lem tweak k v)
    ∙ ap (λ n. value (encrypt_decrypt_bytes tweak k (bytes_of n (value xs)))) (sym same)
    ∙ ap (λ ys. value (encrypt_decrypt_bytes tweak k ys)) (bytes_of-value xs bytes)
    ∙ ap value (encrypted-encrypted tweak k (bytes_of 8 v) (bytes_of-AreBytes 8 v))
    ∙ value-bytes_of 8 v small
