-- ===== src/Bipbip/Cipher.antt =====
-- The class `PointerCipher24b` of crypto/bipbip.h and crypto/bipbip.cpp. `none` is a failed
-- assertion. The cached tweak schedule is part of the state; `previous_decryption_pair` is written
-- by `init_key` and read only by code that is commented out.
use c3_simulator.Common.{
  ℕ, zero, suc, ◌+◌, ◌*◌, List, [], ◌∷◌, get_or, Bool, true, Option, none, some, ◌==◌,
  if◌then◌else◌,
}
use c3_simulator.Bipbip.Rounds.{TweakSchedule, bip_bip_enc, bip_bip_dec}
use c3_simulator.Bipbip.Schedule.{KeySchedule, twk_sc, pad_tweak, gen_key_schedule}

pub record DecryptionPair : Type 0 where
  pub tweak : ℕ
  pub ciphertext_in : ℕ
  pub plaintext_out : ℕ

pub record PointerCipher : Type 0 where
  pub key_schedule : KeySchedule
  pub tweak : ℕ
  pub tweak_schedule : TweakSchedule
  pub key_initialized : Bool
  pub previous : DecryptionPair

-- The 64-bit word of eight key bytes, lowest first, as the cast to `uint64_t *` reads it.
unfoldable pub word_of : List ℕ → ℕ → ℕ → ℕ
word_of key at zero = 0
word_of key at (suc left) = get_or key at 0 + 256 * word_of key (at + 1) left

unfoldable pub master_key : List ℕ → List ℕ
unfolding word_of
master_key key = word_of key 0 8 ∷ word_of key 8 8 ∷ word_of key 16 8 ∷ word_of key 24 8 ∷ []

abbrev pub key_size_in_bytes : ℕ
key_size_in_bytes = 32

-- What `init_key` leaves after its assertion.
unfoldable pub keyed : List ℕ → PointerCipher
keyed key =
    let ks = gen_key_schedule (master_key key) in
    let ts = twk_sc (pad_tweak 0) ks in
    record {
      key_schedule = ks;
      tweak = 0;
      tweak_schedule = ts;
      key_initialized = true;
      previous = record { tweak = 0; ciphertext_in = 0; plaintext_out = bip_bip_dec 0 ts };
    }

unfoldable pub init_key : PointerCipher → List ℕ → ℕ → Option PointerCipher
init_key c key key_size = if key_size == key_size_in_bytes then some (keyed key) else none

unfoldable pub regenerate_tweak_schedule_for_new_tweak : PointerCipher → ℕ → PointerCipher
regenerate_tweak_schedule_for_new_tweak c new_tweak = if new_tweak == c.tweak then c else record c {
  tweak = new_tweak;
  tweak_schedule = twk_sc (pad_tweak new_tweak) c.key_schedule;
}

unfoldable pub encrypt : PointerCipher → ℕ → ℕ → Option (ℕ × PointerCipher)
encrypt c plaintext tweak =
    if c.key_initialized
    then (let c' = regenerate_tweak_schedule_for_new_tweak c tweak in
        some (bip_bip_enc plaintext c'.tweak_schedule, c'))
    else none

unfoldable pub decrypt : PointerCipher → ℕ → ℕ → Option (ℕ × PointerCipher)
decrypt c ciphertext tweak =
    if c.key_initialized
    then (let c' = regenerate_tweak_schedule_for_new_tweak c tweak in
        some (bip_bip_dec ciphertext c'.tweak_schedule, c'))
    else none
