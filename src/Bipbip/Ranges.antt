-- ===== src/Bipbip/Ranges.antt =====
-- Every round tweak that the schedules of crypto/bipbip.cpp produce is a 24-bit block.
use c3_simulator.Common.{ℕ, zero, suc, ◌+◌, ◌^◌, ◌≤◌, ◌<◌, u32, arith, List, [], ◌∷◌, ◌<<<◌, ◌>>>◌}
use c3_simulator.Common.Bits.{bit_and_mask, bit_or-lt}
use native.Mathlib.Nat.{pow-suc, pow-le-pow_right}
use c3_simulator.Bipbip.Rounds.{TweakSchedule}
use c3_simulator.Bipbip.Schedule.{
  KeySchedule, twk_sc, rke0, rke1, deinterleave_odd_bits, data_key_loop, gen_key_schedule,
}
use c3_simulator.Bipbip.Permutation.{get_bit-lt}
use c3_simulator.Bipbip.Inverse.{IsBlock, AreBlocks}

deinterleave-lt : (x : ℕ) → IsBlock (deinterleave_odd_bits x)
unfolding deinterleave_odd_bits
deinterleave-lt x = rw (bit_and_mask 24) (omega arith)

rke0-lt : (x : ℕ) → IsBlock (rke0 x)
unfolding rke0
rke0-lt x = deinterleave-lt x

rke1-lt : (x : ℕ) → IsBlock (rke1 x)
unfolding rke1
rke1-lt x = deinterleave-lt (x >>> 1)

AreBlocks-nil : AreBlocks []
AreBlocks-nil i = omega arith

AreBlocks-cons : (x : ℕ) (ts : TweakSchedule) → IsBlock x → AreBlocks ts → AreBlocks (x ∷ ts)
AreBlocks-cons x ts h t zero = h
AreBlocks-cons x ts h t (suc i) = t i

pub twk_sc-AreBlocks :
    (tweak : ℕ) (ks : KeySchedule) → IsBlock ks.data_round_key → AreBlocks (twk_sc tweak ks)
unfolding twk_sc
twk_sc-AreBlocks tweak ks h = search (AreBlocks-nil, AreBlocks-cons, rke0-lt, rke1-lt) depth 20

bit-placed-lt : (b i : ℕ) → b < 2 → i < 24 → b <<< i < 2 ^ 24
bit-placed-lt zero i p q = omega arith
bit-placed-lt (suc zero) i p q =
    omega (arith, pow-le-pow_right {n = 2} (omega arith) {i = suc i} {j = 24} q, pow-suc 2 i)
bit-placed-lt (suc (suc b)) i p q = absurd (omega arith)

data_key_loop-lt :
    (mk : List ℕ) (left i position key : ℕ)
    → i + left ≤ 24
    → IsBlock key
    → IsBlock (data_key_loop mk left i position key)
unfolding data_key_loop
data_key_loop-lt mk zero i position key p h = h
data_key_loop-lt mk (suc left) i position key p h =
    data_key_loop-lt mk left (i + 1) _ _ (omega arith)
      (bit_or-lt 24 key _ h (placed _ (get_bit-lt _ _)))
  where
    placed : (b : ℕ) → b < 2 → u32 (b <<< i) < 2 ^ 24
    placed b q = omega (arith, bit-placed-lt b i q (omega arith))

pub data_round_key-IsBlock : (mk : List ℕ) → IsBlock (gen_key_schedule mk).data_round_key
unfolding gen_key_schedule
data_round_key-IsBlock mk = data_key_loop-lt mk 24 0 1 0 (omega arith) (omega arith)
