-- ===== src/Bipbip/Caching.antt =====
-- The tweak schedule that `PointerCipher24b` keeps between calls is a cache that cannot be seen:
-- crypto/bipbip.cpp, lines 313 to 343.
use c3_simulator.Common.{
  ℕ, ◌≡◌, refl, ap, sym, subst, ◌∙◌, arith, List, true, none, some, ◌==◌, ◌↔◌, inl, inr,
  if◌then◌else◌, ◌≢◌, Bool-cases, ==→eq,
}
use c3_simulator.Bipbip.Rounds.{TweakSchedule, bip_bip_enc, bip_bip_dec}
use c3_simulator.Bipbip.Schedule.{KeySchedule, twk_sc, pad_tweak}
use c3_simulator.Bipbip.Cipher.{
  PointerCipher, keyed, init_key, regenerate_tweak_schedule_for_new_tweak, encrypt, decrypt,
  key_size_in_bytes, master_key,
}
use c3_simulator.Bipbip.Ranges.{twk_sc-AreBlocks, data_round_key-IsBlock}
use c3_simulator.Bipbip.Inverse.{IsBlock, AreBlocks, bip_bip_dec-bip_bip_enc, bip_bip_enc-lt}

-- The cached schedule is that of the cached tweak.
pub record IsCoherent (c : PointerCipher) : Type 0 where
  pub initialized : c.key_initialized ≡ true
  pub key_block : IsBlock c.key_schedule.data_round_key
  pub cached : c.tweak_schedule ≡ twk_sc (pad_tweak c.tweak) c.key_schedule

-- The schedule that a call under `tweak` uses.
abbrev pub schedule_of : KeySchedule → ℕ → TweakSchedule
schedule_of ks tweak = twk_sc (pad_tweak tweak) ks

regenerate_lem :
    (c : PointerCipher) (tweak : ℕ)
    → IsCoherent c
    → let c' = regenerate_tweak_schedule_for_new_tweak c tweak in
      IsCoherent c'
      × (c'.tweak_schedule ≡ schedule_of c.key_schedule tweak)
      × (c'.key_schedule ≡ c.key_schedule)
unfolding regenerate_tweak_schedule_for_new_tweak
regenerate_lem c tweak h = elim (Bool-cases (tweak == c.tweak)) [
  | inl same ↦ rw (same, ==→eq tweak c.tweak same) (h, h.cached, refl)
  | inr other ↦
      rw other
        (record { initialized = h.initialized; key_block = h.key_block; cached = refl }, refl, refl)
]

pub keyed-IsCoherent : (key : List ℕ) → IsCoherent (keyed key)
unfolding keyed
keyed-IsCoherent key = record {
  initialized = refl;
  key_block = data_round_key-IsBlock (master_key key);
  cached = refl;
}

-- Whatever the state before, `init_key` fails exactly on keys that are not 32 bytes, and a state
-- that it leaves is coherent.
pub init_key-IsCoherent :
    (c : PointerCipher) (key : List ℕ) (key_size : ℕ)
    → ((init_key c key key_size ≡ none) ↔ (key_size ≢ key_size_in_bytes))
      × ((c' : PointerCipher) → init_key c key key_size ≡ some c' → IsCoherent c')
unfolding init_key
init_key-IsCoherent c key key_size = (
  ground arith,
  λ c' e. let same : keyed key ≡ c' = ground arith in subst IsCoherent same (keyed-IsCoherent key),
)

-- On a coherent cipher `encrypt` is the block cipher under the schedule of its key and tweak,
-- whatever tweak was cached before; the cipher stays coherent and keeps its key.
pub encrypt_lem :
    (c : PointerCipher) (x tweak : ℕ)
    → IsCoherent c
    → (c' : PointerCipher) × (encrypt c x tweak
        ≡ some (bip_bip_enc x (schedule_of c.key_schedule tweak), c'))
      × IsCoherent c'
      × (c'.key_schedule ≡ c.key_schedule)
unfolding encrypt
encrypt_lem c x tweak h =
    let r = regenerate_lem c tweak h in
    (
      c',
      ap (λ b. if b then some (bip_bip_enc x c'.tweak_schedule, c') else none) h.initialized
          ∙ ap (λ ts. some (bip_bip_enc x ts, c')) r.1,
      r.0,
      r.2,
    )
  where
    c' : PointerCipher
    c' = regenerate_tweak_schedule_for_new_tweak c tweak

pub decrypt_lem :
    (c : PointerCipher) (x tweak : ℕ)
    → IsCoherent c
    → (c' : PointerCipher) × (decrypt c x tweak
        ≡ some (bip_bip_dec x (schedule_of c.key_schedule tweak), c'))
      × IsCoherent c'
      × (c'.key_schedule ≡ c.key_schedule)
unfolding decrypt
decrypt_lem c x tweak h =
    let r = regenerate_lem c tweak h in
    (
      c',
      ap (λ b. if b then some (bip_bip_dec x c'.tweak_schedule, c') else none) h.initialized
          ∙ ap (λ ts. some (bip_bip_dec x ts, c')) r.1,
      r.0,
      r.2,
    )
  where
    c' : PointerCipher
    c' = regenerate_tweak_schedule_for_new_tweak c tweak

-- What one coherent cipher encrypts of a 24-bit block, any coherent cipher with the same key schedule decrypts under
-- the same tweak, whatever tweaks the two have used before: both calls succeed, the ciphertext is
-- a 24-bit block, and the plaintext comes back.
pub decrypt-encrypt :
    (c d : PointerCipher) (x tweak : ℕ)
    → IsCoherent c
    → IsCoherent d
    → c.key_schedule ≡ d.key_schedule
    → IsBlock x
    → (y : ℕ) × (c' : PointerCipher) × (d' : PointerCipher) × (encrypt c x tweak ≡ some (y, c'))
      × IsBlock y
      × (decrypt d y tweak ≡ some (x, d'))
decrypt-encrypt c d x tweak hc hd same hx =
    let ts = schedule_of c.key_schedule tweak in
    let keys = twk_sc-AreBlocks (pad_tweak tweak) c.key_schedule hc.key_block in
    let e = encrypt_lem c x tweak hc in
    let r = decrypt_lem d (bip_bip_enc x ts) tweak hd in
    (
      bip_bip_enc x ts,
      e.0,
      r.0,
      e.1,
      bip_bip_enc-lt ts keys x,
      r.1
          ∙ ap (λ ks. some (bip_bip_dec (bip_bip_enc x ts) (schedule_of ks tweak), r.0)) (sym same)
          ∙ ap (λ z. some (z, r.0)) (bip_bip_dec-bip_bip_enc ts keys x hx),
    )

pub schedule-AreBlocks :
    (c : PointerCipher) (tweak : ℕ) → IsCoherent c → AreBlocks (schedule_of c.key_schedule tweak)
schedule-AreBlocks c tweak h = twk_sc-AreBlocks (pad_tweak tweak) c.key_schedule h.key_block
