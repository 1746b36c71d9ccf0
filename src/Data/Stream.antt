-- ===== src/Data/Stream.antt =====
-- Data encryption is an exclusive or with one keystream over the address space, whatever the chunks:
-- crypto/cc_encoding.h.
use c3_simulator.Common.{
  dec_le, ℕ, zero, suc, ◌+◌, ◌-◌, ◌*◌, ◌%◌, ◌^◌, ◌/◌, ◌≤◌, ◌<◌, ◌≡◌, refl, ap, ap₂, sym, ◌∙◌, arith,
  bit_and, bit_xor, lt→ltb, if◌then◌else◌, List, [], ◌∷◌, ◌++◌, length, get_or, u32, add64, ◌<<<◌,
  ◌>>>◌,
}
use c3_simulator.Common.Bits.{bit_and_mask, bit_xor_cancel}
use c3_simulator.Data.Ascon.{ascon64b_stream}
use c3_simulator.Data.Countermode.{
  mask_loop, get_countermode_mask, mask_byte, xor_loop, encrypt_decrypt_bytes, block_size, take,
  drop, many_loop, encrypt_decrypt_many_bytes,
}

-- The byte of the keystream at an address.
pub stream_byte : List ℕ → ℕ → ℕ
stream_byte key a = ascon64b_stream (a / 8 * 8) key / 2 ^ (8 * (a % 8)) % 2 ^ 8

-- The bytes of a buffer at `la`, each with the byte of the keystream at its address.
unfoldable pub stream_xor : List ℕ → ℕ → List ℕ → List ℕ
stream_xor key la [] = []
stream_xor key la (x ∷ xs) = bit_xor x (stream_byte key la) ∷ stream_xor key (la + 1) xs

get-mask_loop :
    (left k base end : ℕ) (key : List ℕ)
    → k < left
    → end + 8 ≤ 2 ^ 64
    → base + 8 * k < end
    → get_or (mask_loop left base end key) k 0 ≡ ascon64b_stream (base + 8 * k) key
unfolding mask_loop
get-mask_loop zero k base end key h small inside = absurd (omega arith)
get-mask_loop (suc left) zero base end key h small inside =
    ap
      (λ b.
        get_or
          (if b then ascon64b_stream base key ∷ mask_loop left (add64 base (2 ^ 3)) end key else [])
          0 0)
      (lt→ltb base end (omega arith))
    ∙ ap (λ t. ascon64b_stream t key) {x = base} {y = base + 8 * 0} (omega arith)
get-mask_loop (suc left) (suc k) base end key h small inside =
    ap
      (λ b.
        get_or
          (if b then ascon64b_stream base key ∷ mask_loop left (add64 base (2 ^ 3)) end key else [])
          (suc k) 0)
      (lt→ltb base end (omega arith))
    ∙ ap (λ t. get_or (mask_loop left t end key) k 0) {x = add64 base (2 ^ 3)} {y = base + 8}
        (omega arith)
    ∙ get-mask_loop left k (base + 8) end key (omega arith) small (omega arith)
    ∙ ap (λ t. ascon64b_stream t key) {x = base + 8 + 8 * k} {y = base + 8 * suc k} (omega arith)

mask_byte-stream :
    (la size j : ℕ) (key : List ℕ)
    → la + size + 8 ≤ 2 ^ 64
    → j < size
    → mask_byte (get_countermode_mask la key size) (j + bit_and la 0x7) ≡ stream_byte key (la + j)
unfolding mask_byte get_countermode_mask stream_byte
mask_byte-stream la size j key small h =
    let low : bit_and la 0x7 ≡ la % 8 = bit_and_mask 3 la in
    let word : get_or (mask_loop (size + 1) ((la >>> 3) <<< 3) (add64 la size) key)
          ((j + bit_and la 0x7) / 8) 0
        ≡ ascon64b_stream ((la + j) / 8 * 8) key =
      get-mask_loop (size + 1) ((j + bit_and la 0x7) / 8) ((la >>> 3) <<< 3) (add64 la size) key
        (omega (arith, low)) (omega arith) (omega (arith, low))
      ∙ ap (λ t. ascon64b_stream t key) (omega (arith, low)) in
    let place : (j + bit_and la 0x7) % 8 ≡ (la + j) % 8 = omega (arith, low) in
    ap₂ (λ w t. w / 2 ^ (8 * t) % 2 ^ 8) word place

-- From byte `i` of a chunk of `size` bytes on.
xor_loop-stream :
    (la size i : ℕ) (key input : List ℕ)
    → la + size + 8 ≤ 2 ^ 64
    → i + length input ≤ size
    → xor_loop (get_countermode_mask la key size) (bit_and la 0x7) i input
      ≡ stream_xor key (la + i) input
unfolding xor_loop stream_xor
xor_loop-stream la size i key [] small h = refl
xor_loop-stream la size i key (x ∷ input) small h =
    ap₂ (λ b t. bit_xor x b ∷ t) (mask_byte-stream la size i key small (omega arith))
      (xor_loop-stream la size (i + 1) key input small (omega arith)
        ∙ ap (λ t. stream_xor key t input) {x = la + (i + 1)} {y = la + i + 1} (omega arith))

pub encrypt_decrypt_bytes-stream :
    (la : ℕ) (key input : List ℕ)
    → la + length input + 8 ≤ 2 ^ 64
    → encrypt_decrypt_bytes la key input ≡ stream_xor key la input
unfolding encrypt_decrypt_bytes
encrypt_decrypt_bytes-stream la key input small =
    xor_loop-stream la (length input) 0 key input small (omega arith)
    ∙ ap (λ t. stream_xor key t input) {x = la + 0} {y = la} (omega arith)

stream_xor-split :
    (key : List ℕ) (n la : ℕ) (xs : List ℕ)
    → stream_xor key la (take n xs) ++ stream_xor key (la + n) (drop n xs) ≡ stream_xor key la xs
unfolding take drop stream_xor
stream_xor-split key zero la xs = ap (λ t. stream_xor key t xs) {x = la + 0} {y = la} (omega arith)
stream_xor-split key (suc n) la [] = refl
stream_xor-split key (suc n) la (x ∷ xs) =
    ap (λ t. bit_xor x (stream_byte key la) ∷ t)
      (ap (λ t. stream_xor key (la + 1) (take n xs) ++ stream_xor key t (drop n xs))
          {x = la + suc n} {y = la + 1 + n} (omega arith)
        ∙ stream_xor-split key n (la + 1) xs)

pub drop-all : (n : ℕ) (xs : List ℕ) → length xs ≤ n → drop n xs ≡ []
unfolding drop
drop-all zero [] h = refl
drop-all zero (x ∷ xs) h = absurd (omega arith)
drop-all (suc n) [] h = refl
drop-all (suc n) (x ∷ xs) h = drop-all n xs (omega arith)

length-drop : (n : ℕ) (xs : List ℕ) → length (drop n xs) ≡ length xs - n
unfolding drop
length-drop zero xs = omega arith
length-drop (suc n) [] = omega arith
length-drop (suc n) (x ∷ xs) = omega (arith, length-drop n xs)

length-take_le : (n : ℕ) (xs : List ℕ) → length (take n xs) ≤ length xs
unfolding take
length-take_le zero xs = omega arith
length-take_le (suc n) [] = omega arith
length-take_le (suc n) (x ∷ xs) = omega (arith, length-take_le n xs)

many_loop-nil : (left la i : ℕ) (key : List ℕ) → many_loop left la key i [] ≡ []
unfolding many_loop
many_loop-nil zero la i key = refl
many_loop-nil (suc left) la i key = refl

stream_xor-nil : (key : List ℕ) (la : ℕ) → stream_xor key la [] ≡ []
unfolding stream_xor
stream_xor-nil key la = refl

many_loop-stream :
    (left la i : ℕ) (key input : List ℕ)
    → length input ≤ left
    → la + i + length input + 8 ≤ 2 ^ 64
    → i + length input + 64 < 2 ^ 32
    → many_loop left la key i input ≡ stream_xor key (la + i) input
unfolding many_loop
many_loop-stream zero la i key [] h small fits = sym (stream_xor-nil key (la + i))
many_loop-stream zero la i key (x ∷ input) h small fits = absurd (omega arith)
many_loop-stream (suc left) la i key [] h small fits = sym (stream_xor-nil key (la + i))
many_loop-stream (suc left) la i key (x ∷ input) h small fits =
    let rest : many_loop left la key (u32 (i + block_size)) (drop block_size (x ∷ input))
        ≡ stream_xor key (la + i + block_size) (drop block_size (x ∷ input)) =
      elim (dec_le (length (x ∷ input)) block_size) [
        | yes short ↦
            let none_left = drop-all block_size (x ∷ input) short in
            ap (many_loop left la key (u32 (i + block_size))) none_left
            ∙ many_loop-nil left la (u32 (i + block_size)) key
            ∙ sym (stream_xor-nil key (la + i + block_size))
            ∙ ap (stream_xor key (la + i + block_size)) (sym none_left)
        | no long ↦
            let left_over = length-drop block_size (x ∷ input) in
            many_loop-stream left la (u32 (i + block_size)) key (drop block_size (x ∷ input))
              (omega (arith, left_over)) (omega (arith, left_over, long))
              (omega (arith, left_over, long))
            ∙ ap (λ t. stream_xor key t (drop block_size (x ∷ input)))
                {x = la + u32 (i + block_size)} {y = la + i + block_size} (omega arith)
      ] in
    ap₂ (λ a b. a ++ b)
      (encrypt_decrypt_bytes-stream (add64 la i) key (take block_size (x ∷ input))
          (omega (arith, length-take_le block_size (x ∷ input)))
        ∙ ap (λ t. stream_xor key t (take block_size (x ∷ input))) {x = add64 la i} {y = la + i}
            (omega arith))
      rest
    ∙ stream_xor-split key block_size (la + i) (x ∷ input)

-- For a buffer of less than 2^32 - 64 bytes that ends at least 8 bytes below 2^64, every byte of
-- the result is the byte of the buffer xor the byte of one keystream at its address, in whatever
-- chunks the code goes.
pub encrypt_decrypt_many_bytes-stream :
    (la : ℕ) (key input : List ℕ)
    → la + length input + 8 ≤ 2 ^ 64
    → length input + 64 < 2 ^ 32
    → encrypt_decrypt_many_bytes la key input ≡ stream_xor key la input
unfolding encrypt_decrypt_many_bytes
encrypt_decrypt_many_bytes-stream la key input small fits =
    many_loop-stream (length input) la 0 key input (omega arith) (omega arith) (omega arith)
    ∙ ap (λ t. stream_xor key t input) {x = la + 0} {y = la} (omega arith)

stream_byte-lt : (key : List ℕ) (a : ℕ) → stream_byte key a < 2 ^ 8
unfolding stream_byte
stream_byte-lt key a = omega arith

-- Every element is a byte.
unfoldable pub AreBytes : List ℕ → Type 0
AreBytes [] = Unit
AreBytes (x ∷ xs) = (x < 2 ^ 8) × AreBytes xs

stream_xor-stream_xor :
    (key : List ℕ) (la : ℕ) (xs : List ℕ)
    → AreBytes xs
    → stream_xor key la (stream_xor key la xs) ≡ xs
unfolding stream_xor AreBytes
stream_xor-stream_xor key la [] h = refl
stream_xor-stream_xor key la (x ∷ xs) h =
    ap₂ (λ a t. a ∷ t) (bit_xor_cancel 8 x (stream_byte key la) h.0 (stream_byte-lt key la))
      (stream_xor-stream_xor key (la + 1) xs h.1)

length-stream_xor :
    (key : List ℕ) (la : ℕ) (xs : List ℕ) → length (stream_xor key la xs) ≡ length xs
unfolding stream_xor
length-stream_xor key la [] = refl
length-stream_xor key la (x ∷ xs) = ap suc (length-stream_xor key (la + 1) xs)

-- For a buffer of bytes under the same bounds, encrypting the encrypted bytes at the same address
-- gives the bytes back.
pub encrypt_decrypt_many_bytes-twice :
    (la : ℕ) (key input : List ℕ)
    → la + length input + 8 ≤ 2 ^ 64
    → length input + 64 < 2 ^ 32
    → AreBytes input
    → encrypt_decrypt_many_bytes la key (encrypt_decrypt_many_bytes la key input) ≡ input
encrypt_decrypt_many_bytes-twice la key input small fits bytes =
    let once = encrypt_decrypt_many_bytes-stream la key input small fits in
    let same = length-stream_xor key la input in
    ap (encrypt_decrypt_many_bytes la key) once
    ∙ encrypt_decrypt_many_bytes-stream la key (stream_xor key la input) (omega (arith, same))
        (omega (arith, same))
    ∙ stream_xor-stream_xor key la input bytes
