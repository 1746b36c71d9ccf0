-- ===== src/LimModel/Words.antt =====
-- The metadata that `address_before` of modules/lim_model/model.cpp reads, on a simulator that translates
-- its addresses.
use c3_simulator.Common.{ℕ, zero, suc, ◌+◌, ◌*◌, ◌^◌, ◌<◌, ◌≡◌, refl, ◌∙◌, arith, add64}
use c3_simulator.Integrity.Machine.{read}
use c3_simulator.LimModel.State.{LimSimulator, LimOptions, LimState, done, after_done}
use c3_simulator.LimModel.Memory.{little_endian}
use c3_simulator.LimModel.Before.{read_metadata_word, read_metadata_words}
use c3_simulator.LimModel.Bytes.{bytes_at}
use c3_simulator.LimModel.Mapped.{IsMapped}
use c3_simulator.LimModel.Views.{settled}

-- The 8 bytes from the place of word `i` on, as a number, and the words from word `i` on.
unfoldable pub metadata_word : {sim : LimSimulator} → IsMapped sim → sim.Memory → ℕ → ℕ → ℕ
metadata_word i m la_meta k = little_endian (bytes_at (i.byte m) (i.pa (la_meta + k * 8)) 8)

unfoldable pub metadata_words : {sim : LimSimulator} → IsMapped sim → sim.Memory → ℕ → ℕ → ℕ → ℕ
metadata_words i m la_meta k zero = 0
metadata_words i m la_meta k (suc left) =
    metadata_word i m la_meta k + 2 ^ 64 * metadata_words i m la_meta (k + 1) left

module _ {sim : LimSimulator} (i : IsMapped sim) (o : LimOptions) (fuel : ℕ) where
  word_lem :
      (la_meta k : ℕ) (s : LimState sim)
      → la_meta + k * 8 < 2 ^ 56
      → read_metadata_word sim o fuel la_meta k s
        ≡ done (i.pa (la_meta + k * 8), metadata_word i s.memory la_meta k) (settled i s)
  unfolding read_metadata_word metadata_word
  word_lem la_meta k s h =
      let same : add64 la_meta (k * 8) ≡ la_meta + k * 8 = omega (arith, h) in
      rw
        (
          read_metadata_word,
          same,
          i.valid (la_meta + k * 8) read h,
          same,
          i.address (la_meta + k * 8) read h,
          i.reads s.memory (i.pa (la_meta + k * 8)) 8 (omega arith),
        )
        refl

  rest_lem :
      (la_meta k left : ℕ) (s : LimState sim)
      → la_meta + (k + left) * 8 < 2 ^ 56
      → (p : ℕ) × (read_metadata_words sim o fuel la_meta k left (settled i s)
          ≡ done
              (record { value = metadata_words i s.memory la_meta k left; first_pa = p })
              (settled i s))
  unfolding read_metadata_words metadata_words
  rest_lem la_meta k zero s h = (0, refl)
  rest_lem la_meta k (suc left) s h =
      let (p, e) = rest_lem la_meta (k + 1) left s (omega arith) in
      (_, after_done _ (word_lem la_meta k (settled i s) (omega arith)) ∙ after_done _ e)

  -- One word at least is read.
  pub read_metadata_words_lem :
      (la_meta left : ℕ) (s : LimState sim)
      → la_meta + (1 + left) * 8 < 2 ^ 56
      → (p : ℕ) × (read_metadata_words sim o fuel la_meta 0 (suc left) s
          ≡ done
              (record { value = metadata_words i s.memory la_meta 0 (suc left); first_pa = p })
              (settled i s))
  unfolding read_metadata_words metadata_words
  read_metadata_words_lem la_meta left s h =
      let (p, e) = rest_lem la_meta 1 left s (omega arith) in
      (_, after_done _ (word_lem la_meta 0 s (omega arith)) ∙ after_done _ e)
