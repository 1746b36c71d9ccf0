-- ===== src/Data/Ascon.antt =====
-- The keystream of crypto/ascon_cipher.cpp: 8 bytes for each 8-byte aligned address.
use c3_simulator.Common.{
  ℕ, ◌+◌, ◌-◌, ◌*◌, ◌^◌, bit_and, bit_or, bit_xor, List, [], ◌∷◌, get_or, u64, not64, ◌<<<◌, ◌>>>◌,
}

-- `ascon_state_t` as its five words.
pub record AsconState : Type 0 where
  pub x0 : ℕ
  pub x1 : ℕ
  pub x2 : ℕ
  pub x3 : ℕ
  pub x4 : ℕ

abbrev pub s_x0_init : ℕ
s_x0_init = 0x80808c0000000000

abbrev pub round_constants : List ℕ
round_constants =
    0xf0 ∷ 0xe1 ∷ 0xd2 ∷ 0xc3 ∷ 0xb4 ∷ 0xa5 ∷ 0x96 ∷ 0x87 ∷ 0x78 ∷ 0x69 ∷ 0x5a ∷ 0x4b ∷ []

-- `-n & 63` is `64 - n`, since `n` is 1 to 63 in every call.
unfoldable pub ror : ℕ → ℕ → ℕ
ror x n = bit_or (x >>> n) (u64 (x <<< (64 - n)))

-- `^` is `^^` here, and `~a & b` is `and_not a b`.
infixl 45 ◌^^◌
abbrev ◌^^◌ : ℕ → ℕ → ℕ
a ^^ b = bit_xor a b

abbrev and_not : ℕ → ℕ → ℕ
and_not a b = bit_and (not64 a) b

unfoldable pub linear_layer : AsconState → AsconState
linear_layer t =
    let x2 = t.x2 ^^ ror t.x2 (6 - 1) in
    let x3 = t.x3 ^^ ror t.x3 (17 - 10) in
    let x4 = t.x4 ^^ ror t.x4 (41 - 7) in
    let x0 = t.x0 ^^ ror t.x0 (28 - 19) in
    let x1 = t.x1 ^^ ror t.x1 (61 - 39) in
    record {
      x0 = t.x0 ^^ ror x0 19;
      x1 = t.x1 ^^ ror x1 39;
      x2 = not64 (t.x2 ^^ ror x2 1);
      x3 = t.x3 ^^ ror x3 10;
      x4 = t.x4 ^^ ror x4 7;
    }

unfoldable pub round : AsconState → ℕ → AsconState
round s c =
    let x0 = s.x0 ^^ s.x4 in
    let x4 = s.x4 ^^ s.x3 in
    let x2 = s.x2 ^^ c ^^ s.x1 in
    let t0 = x0 ^^ and_not s.x1 x2 in
    let t2 = x2 ^^ and_not s.x3 x4 in
    let t4 = x4 ^^ and_not x0 s.x1 in
    let t1 = s.x1 ^^ and_not x2 s.x3 in
    let t3 = s.x3 ^^ and_not x4 x0 in
    linear_layer (record { x0 = t0 ^^ t4; x1 = t1 ^^ t0; x2 = t2; x3 = t3 ^^ t2; x4 = t4 })

unfoldable pub rounds : List ℕ → AsconState → AsconState
rounds [] s = s
rounds (c ∷ cs) s = rounds cs (round s c)

unfoldable pub p12_rounds : AsconState → AsconState
p12_rounds s = rounds round_constants s

unfoldable pub pad : ℕ → ℕ
pad i = u64 (0x80 <<< (56 - 8 * i))

-- The 8 bytes of the key from byte `i` on, as a little-endian word.
unfoldable pub key_word : List ℕ → ℕ → ℕ
key_word key i =
    get_or key i 0
    + get_or key (i + 1) 0 * 2 ^ 8
    + get_or key (i + 2) 0 * 2 ^ 16
    + get_or key (i + 3) 0 * 2 ^ 24
    + get_or key (i + 4) 0 * 2 ^ 32
    + get_or key (i + 5) 0 * 2 ^ 40
    + get_or key (i + 6) 0 * 2 ^ 48
    + get_or key (i + 7) 0 * 2 ^ 56

unfoldable pub ascon64b_stream : ℕ → List ℕ → ℕ
ascon64b_stream data_in key =
    let s0 : AsconState = record {
      x0 = s_x0_init;
      x1 = key_word key 0;
      x2 = key_word key 8;
      x3 = 0;
      x4 = 0;
    } in
    let s1 = p12_rounds s0 in
    let s2 : AsconState = record {
      x0 = s1.x0 ^^ data_in;
      x1 = s1.x1 ^^ pad 0;
      x2 = s1.x2;
      x3 = s1.x3;
      x4 = s1.x4 ^^ 1;
    } in
    (p12_rounds s2).x0
