-- ===== src/Bipbip/Schedule.antt =====
-- The tweak path and the schedules of crypto/bipbip.cpp: CHI, LML2, LML3, the round key
-- extractions, RGC, RGP, `TwkSc`, `pad_tweak` and `GenKeySchedule`. A tweak is a `uint64_t`.
use c3_simulator.Common.{
  ℕ, zero, suc, ◌+◌, ◌-◌, ◌*◌, ◌/◌, ◌%◌, bit_and, bit_or, bit_xor, List, [], ◌∷◌, get_or, u32, u64,
  not64, ◌<<<◌, ◌>>>◌, low_mask,
}
use c3_simulator.Bipbip.Tables.{pi4, pi5}
use c3_simulator.Bipbip.Layers.{get_bit, bpl}
use c3_simulator.Bipbip.Rounds.{TweakSchedule}

-- `(x >> k) | (x << (53 - k))` on `uint64_t`
abbrev rot53 : ℕ → ℕ → ℕ
rot53 k x = bit_or (x >>> k) (u64 (x <<< (53 - k)))

unfoldable pub chi : ℕ → ℕ
chi state_in =
    let x = bit_and state_in (low_mask 53) in
    bit_and (bit_xor x (bit_and (not64 (rot53 1 x)) (rot53 2 x))) (low_mask 53)

unfoldable pub lml2 : ℕ → ℕ
lml2 state_in =
    let x = bit_and state_in (low_mask 53) in
    bit_and (bit_xor (bit_xor x (rot53 1 x)) (rot53 8 x)) (low_mask 53)

unfoldable pub lml3 : ℕ → ℕ
lml3 state_in = let x = bit_and state_in (low_mask 53) in bit_xor x (x >>> 1)

unfoldable pub deinterleave_odd_bits : ℕ → ℕ
deinterleave_odd_bits x =
    let x = bit_and x 0x555555555555 in
    let x = bit_and (bit_or x (x >>> 1)) 0x3333333333333333 in
    let x = bit_and (bit_or x (x >>> 2)) 0x0f0f0f0f0f0f0f0f in
    let x = bit_and (bit_or x (x >>> 4)) 0x00ff00ff00ff00ff in
    let x = bit_and (bit_or x (x >>> 8)) 0x0000ffff0000ffff in
    u32 (bit_and (bit_or x (x >>> 16)) (low_mask 24))

unfoldable pub rke0 : ℕ → ℕ
rke0 x = deinterleave_odd_bits x

unfoldable pub rke1 : ℕ → ℕ
rke1 x = deinterleave_odd_bits (x >>> 1)

unfoldable pub rgc : ℕ → ℕ
rgc state = chi (bpl (lml2 (bpl state pi4 53)) pi5 53)

unfoldable pub rgp : ℕ → ℕ
rgp state = chi (bpl (lml3 (bpl state pi4 53)) pi5 53)

pub record KeySchedule : Type 0 where
  pub data_round_key : ℕ
  pub tweak_round_key : List ℕ

abbrev pub key_of : KeySchedule → ℕ → ℕ
key_of ks i = get_or ks.tweak_round_key i 0

unfoldable pub twk_sc : ℕ → KeySchedule → TweakSchedule
twk_sc tweak_padded ks =
    let t1 = chi (bit_xor tweak_padded (key_of ks 0)) in
    let t3 = rgc (bit_xor t1 (key_of ks 1)) in
    let t5 = rgp (rgc (bit_xor t3 (key_of ks 2))) in
    let t6 = rgc (bit_xor t5 (key_of ks 3)) in
    let t7 = rgp t6 in
    let t8 = rgc (bit_xor t7 (key_of ks 4)) in
    let t9 = rgp t8 in
    let t10 = rgc (bit_xor t9 (key_of ks 5)) in
    ks.data_round_key
    ∷ rke0 t1
    ∷ rke1 t1
    ∷ rke0 t3
    ∷ rke1 t3
    ∷ rke0 t5
    ∷ rke0 t6
    ∷ rke0 t7
    ∷ rke0 t8
    ∷ rke0 t9
    ∷ rke0 t10
    ∷ rke1 t10
    ∷ []

unfoldable pub pad_tweak : ℕ → ℕ
pad_tweak tweak =
    let padded = bit_and tweak (low_mask 40) in
    let padded = u64 (padded <<< 1) in let padded = bit_or padded 1 in u64 (padded <<< 12)

-- The loop over `i` that gathers the data round key, with `left` rounds to go.
unfoldable pub data_key_loop : List ℕ → ℕ → ℕ → ℕ → ℕ → ℕ
data_key_loop mk zero i position key = key
data_key_loop mk (suc left) i position key =
    let position = position * 3 % 256 in
    let b = get_bit (get_or mk (position / 64) 0) (position % 64) in
    data_key_loop mk left (i + 1) position (bit_or key (u32 (b <<< i)))

-- The loop over `j` that gathers one tweak round key; `position` goes on round the master key.
unfoldable pub tweak_key_loop : List ℕ → ℕ → ℕ → ℕ → ℕ → ℕ × ℕ
tweak_key_loop mk zero j position key = (key, position)
tweak_key_loop mk (suc left) j position key =
    let b = get_bit (get_or mk (position / 64) 0) (position % 64) in
    tweak_key_loop mk left (j + 1) ((position + 1) % 256) (bit_or key (u64 (b <<< j)))

unfoldable pub tweak_keys : List ℕ → ℕ → ℕ → List ℕ
tweak_keys mk zero position = []
tweak_keys mk (suc left) position =
    let (key, position') = tweak_key_loop mk 53 0 position 0 in key ∷ tweak_keys mk left position'

unfoldable pub gen_key_schedule : List ℕ → KeySchedule
unfolding data_key_loop tweak_key_loop tweak_keys get_bit
gen_key_schedule mk = record {
  data_round_key = data_key_loop mk 24 0 1 0;
  tweak_round_key = tweak_keys mk 6 53;
}
