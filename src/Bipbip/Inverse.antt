-- ===== src/Bipbip/Inverse.antt =====
-- Encryption and decryption of crypto/bipbip.cpp are inverse permutations of the 24-bit blocks.

use c3_simulator.Common.{ℕ, ◌^◌, ◌<◌, ◌≡◌, ap, ◌∙◌, u32, arith}
use c3_simulator.Common.Bits.{bit_xor-lt, bit_xor_cancel}
use c3_simulator.Bipbip.Tables.{pi1, pi2, pi3, pi1_inv, pi2_inv, pi3_inv}
use c3_simulator.Bipbip.Layers.{sbl, lml1, lml1_inv, bpl, kad}
use c3_simulator.Bipbip.Rounds.{
  rfc, rfc_inv, rfs, rfs_inv, TweakSchedule, round_of, bip_bip_enc, bip_bip_dec,
}
use c3_simulator.Bipbip.Permutation.{
  bpl-lt, bpl-pi1-pi1_inv, bpl-pi1_inv-pi1, bpl-pi2-pi2_inv, bpl-pi2_inv-pi2, bpl-pi3-pi3_inv,
  bpl-pi3_inv-pi3,
}
use c3_simulator.Bipbip.Substitution.{sbl-lt, sbl_inv-lt, sbl_inv-sbl, sbl-sbl_inv}
use c3_simulator.Bipbip.Mixing.{lml1-lt, lml1_inv-lt, lml1_inv-lml1, lml1-lml1_inv}

abbrev pub IsBlock : ℕ → Type 0
IsBlock x = x < 2 ^ 24

-- The conversion of a permuted block to `uint32_t` changes nothing.
u32-bpl : (x : ℕ) (pi : _) → u32 (bpl x pi 24) ≡ bpl x pi 24
u32-bpl x pi = omega (arith, bpl-lt x pi 24 (omega arith))

rfs-lt : (x : ℕ) → IsBlock (rfs x)
unfolding rfs
rfs-lt x = omega (arith, bpl-lt (sbl x) pi3 24 (omega arith))

rfs_inv-lt : (x : ℕ) → IsBlock (rfs_inv x)
unfolding rfs_inv
rfs_inv-lt x = sbl_inv-lt _

rfc-lt : (x : ℕ) → IsBlock (rfc x)
unfolding rfc
rfc-lt x = omega (arith, bpl-lt (lml1 (u32 (bpl (sbl x) pi1 24))) pi2 24 (omega arith))

rfc_inv-lt : (x : ℕ) → IsBlock (rfc_inv x)
unfolding rfc_inv
rfc_inv-lt x = sbl_inv-lt _

pub rfs-rfs_inv : (x : ℕ) → IsBlock x → rfs (rfs_inv x) ≡ x
unfolding rfs rfs_inv
rfs-rfs_inv x h =
    simp u32-bpl (rw (sbl-sbl_inv _ (bpl-lt x pi3_inv 24 (omega arith))) (bpl-pi3_inv-pi3 x h))

pub rfs_inv-rfs : (x : ℕ) → IsBlock x → rfs_inv (rfs x) ≡ x
unfolding rfs rfs_inv
rfs_inv-rfs x h = simp u32-bpl (rw (bpl-pi3-pi3_inv (sbl x) (sbl-lt x)) (sbl_inv-sbl x h))

pub rfc-rfc_inv : (x : ℕ) → IsBlock x → rfc (rfc_inv x) ≡ x
unfolding rfc rfc_inv
rfc-rfc_inv x h = simp u32-bpl (
    rw
      (
        sbl-sbl_inv _ (bpl-lt (lml1_inv (bpl x pi2_inv 24)) pi1_inv 24 (omega arith)),
        bpl-pi1_inv-pi1 _ (lml1_inv-lt _ (bpl-lt x pi2_inv 24 (omega arith))),
        lml1-lml1_inv _ (bpl-lt x pi2_inv 24 (omega arith)),
      )
      (bpl-pi2_inv-pi2 x h))

pub rfc_inv-rfc : (x : ℕ) → IsBlock x → rfc_inv (rfc x) ≡ x
unfolding rfc rfc_inv
rfc_inv-rfc x h = simp u32-bpl (
    rw
      (
        bpl-pi2-pi2_inv _ (lml1-lt _ (bpl-lt (sbl x) pi1 24 (omega arith))),
        lml1_inv-lml1 _ (bpl-lt (sbl x) pi1 24 (omega arith)),
        bpl-pi1-pi1_inv (sbl x) (sbl-lt x),
      )
      (sbl_inv-sbl x h))

kad-kad : (x k : ℕ) → IsBlock x → IsBlock k → kad (kad x k) k ≡ x
unfolding kad
kad-kad x k p q = bit_xor_cancel 24 x k p q

pub kad-lt : (x k : ℕ) → IsBlock x → IsBlock k → IsBlock (kad x k)
unfolding kad
kad-lt x k p q = bit_xor-lt 24 x k p q

-- The round tweaks are 24-bit blocks.
abbrev pub AreBlocks : TweakSchedule → Type 0
AreBlocks ts = (i : ℕ) → IsBlock (round_of ts i)

module _ (ts : TweakSchedule) (keys : AreBlocks ts) where
  -- A round `f` that follows its inverse `g` takes one layer off; `h` is the round before.
  peel :
      (f g h : ℕ → ℕ)
      → ((x : ℕ) → IsBlock x → f (g x) ≡ x)
      → ((x : ℕ) → IsBlock (g x))
      → ((x : ℕ) → IsBlock (h x))
      → (i j t : ℕ)
      → f (kad (kad (g (kad (h t) (round_of ts j))) (round_of ts i)) (round_of ts i))
        ≡ kad (h t) (round_of ts j)
  peel f g h inverse g-lt h-lt i j t =
      ap f (kad-kad _ _ (g-lt (kad (h t) (round_of ts j))) (keys i))
      ∙ inverse _ (kad-lt (h t) _ (h-lt t) (keys j))

  peel_last :
      (f g : ℕ → ℕ)
      → ((x : ℕ) → IsBlock x → f (g x) ≡ x)
      → ((x : ℕ) → IsBlock (g x))
      → (i j x : ℕ) → IsBlock x
      → f (kad (kad (g (kad x (round_of ts j))) (round_of ts i)) (round_of ts i))
        ≡ kad x (round_of ts j)
  peel_last f g inverse g-lt i j x h =
      ap f (kad-kad _ _ (g-lt (kad x (round_of ts j))) (keys i)) ∙ inverse _ (kad-lt x _ h (keys j))

  -- Decrypting an encrypted block gives the block back.
  pub bip_bip_dec-bip_bip_enc : (x : ℕ) → IsBlock x → bip_bip_dec (bip_bip_enc x ts) ts ≡ x
  unfolding bip_bip_enc bip_bip_dec
  bip_bip_dec-bip_bip_enc x h =
      rw
        (
          peel rfs rfs_inv rfs_inv rfs-rfs_inv rfs_inv-lt rfs_inv-lt 0 1,
          peel rfs rfs_inv rfs_inv rfs-rfs_inv rfs_inv-lt rfs_inv-lt 1 2,
          peel rfs rfs_inv rfc_inv rfs-rfs_inv rfs_inv-lt rfc_inv-lt 2 3,
          peel rfc rfc_inv rfc_inv rfc-rfc_inv rfc_inv-lt rfc_inv-lt 3 4,
          peel rfc rfc_inv rfc_inv rfc-rfc_inv rfc_inv-lt rfc_inv-lt 4 5,
          peel rfc rfc_inv rfc_inv rfc-rfc_inv rfc_inv-lt rfc_inv-lt 5 6,
          peel rfc rfc_inv rfc_inv rfc-rfc_inv rfc_inv-lt rfc_inv-lt 6 7,
          peel rfc rfc_inv rfs_inv rfc-rfc_inv rfc_inv-lt rfs_inv-lt 7 8,
          peel rfs rfs_inv rfs_inv rfs-rfs_inv rfs_inv-lt rfs_inv-lt 8 9,
          peel rfs rfs_inv rfs_inv rfs-rfs_inv rfs_inv-lt rfs_inv-lt 9 10,
          peel_last rfs rfs_inv rfs-rfs_inv rfs_inv-lt 10 11 x h,
        )
        (kad-kad x _ h (keys 11))

  -- Encrypting a decrypted block gives the block back.
  pub bip_bip_enc-bip_bip_dec : (x : ℕ) → IsBlock x → bip_bip_enc (bip_bip_dec x ts) ts ≡ x
  unfolding bip_bip_enc bip_bip_dec
  bip_bip_enc-bip_bip_dec x h =
      rw
        (
          peel rfs_inv rfs rfs rfs_inv-rfs rfs-lt rfs-lt 11 10,
          peel rfs_inv rfs rfs rfs_inv-rfs rfs-lt rfs-lt 10 9,
          peel rfs_inv rfs rfc rfs_inv-rfs rfs-lt rfc-lt 9 8,
          peel rfc_inv rfc rfc rfc_inv-rfc rfc-lt rfc-lt 8 7,
          peel rfc_inv rfc rfc rfc_inv-rfc rfc-lt rfc-lt 7 6,
          peel rfc_inv rfc rfc rfc_inv-rfc rfc-lt rfc-lt 6 5,
          peel rfc_inv rfc rfc rfc_inv-rfc rfc-lt rfc-lt 5 4,
          peel rfc_inv rfc rfs rfc_inv-rfc rfc-lt rfs-lt 4 3,
          peel rfs_inv rfs rfs rfs_inv-rfs rfs-lt rfs-lt 3 2,
          peel rfs_inv rfs rfs rfs_inv-rfs rfs-lt rfs-lt 2 1,
          peel_last rfs_inv rfs rfs_inv-rfs rfs-lt 1 0 x h,
        )
        (kad-kad x _ h (keys 0))

  pub bip_bip_enc-lt : (x : ℕ) → IsBlock (bip_bip_enc x ts)
  unfolding bip_bip_enc
  bip_bip_enc-lt x = kad-lt _ _ (rfs_inv-lt _) (keys 0)

  pub bip_bip_dec-lt : (x : ℕ) → IsBlock (bip_bip_dec x ts)
  unfolding bip_bip_dec
  bip_bip_dec-lt x = kad-lt _ _ (rfs-lt _) (keys 11)
