-- ===== src/LimModel/Mapped.antt =====
-- The loops over physical memory, on a simulator whose memory reads back what was written:
-- modules/lim_model/model.cpp.
use c3_simulator.Common.{
  ℕ, zero, suc, ◌+◌, ◌-◌, ◌*◌, ◌%◌, ◌^◌, ◌≤◌, ◌<◌, ◌≡◌, refl, ap, sym, ◌∙◌, arith, true, false,
  List, [], ◌∷◌, ◌++◌, length, dec_le, if_false, add64, ne→==,
}
use mathlib.Core.List.{append-nil}
use c3_simulator.Base.Words.{bytes_of}
use c3_simulator.Data.Countermode.{take, drop}
use c3_simulator.Data.Stream.{AreBytes}
use c3_simulator.Integrity.Machine.{Rw}
use c3_simulator.LimModel.State.{LimSimulator, LimState, done, after_done}
use c3_simulator.LimModel.Memory.{
  min_uint64, little_endian, read_word, write_word, read_loop, write_loop,
}
use c3_simulator.LimModel.Bytes.{
  bytes_at, overlay, bytes_of-little_endian, bytes_at-append, bytes_at-AreBytes, length-bytes_at,
  overlay_nil, overlay_ext, overlay_split, length-take, length-drop, take-AreBytes, drop-AreBytes,
}

-- Linear addresses below 2^56 are translated, page by page and each to a place of its own, and never
-- to 0; physical memory holds bytes, a read gives those of the range, lowest first, and a write stores
-- those of its value.
pub record IsMapped (sim : LimSimulator) : Type 0 where
  pub pa : ℕ → ℕ
  pub byte : sim.Memory → ℕ → ℕ
  pub valid : (la : ℕ) (rw : Rw) → la < 2 ^ 56 → (sim.logical_to_physical la rw).valid ≡ true
  pub address : (la : ℕ) (rw : Rw) → la < 2 ^ 56 → (sim.logical_to_physical la rw).address ≡ pa la
  pub pa_pos : (la : ℕ) → la < 2 ^ 56 → 1 ≤ pa la
  pub pa-lt : (la : ℕ) → la < 2 ^ 56 → pa la < 2 ^ 60
  pub pa-add : (la i : ℕ) → la < 2 ^ 56 → la % 2 ^ 12 + i < 2 ^ 12 → pa (la + i) ≡ pa la + i
  pub pa_inj : (x y : ℕ) → x < 2 ^ 56 → y < 2 ^ 56 → pa x ≡ pa y → x ≡ y
  pub byte-lt : (m : sim.Memory) (x : ℕ) → byte m x < 2 ^ 8
  pub reads :
      (m : sim.Memory) (p n : ℕ)
      → n ≤ 8
      → sim.read_phys_memory m p n ≡ (little_endian (bytes_at (byte m) p n), false)
  pub no_exception : (m : sim.Memory) (p v n : ℕ) → (sim.write_phys_memory m p v n).1 ≡ false
  pub writes :
      (m : sim.Memory) (p v n x : ℕ)
      → n ≤ 8
      → byte (sim.write_phys_memory m p v n).0 x ≡ overlay (byte m) p (bytes_of n v) x

module _ {sim : LimSimulator} (i : IsMapped sim) where
  read_word_lem :
      (p n : ℕ) (s : LimState sim)
      → n ≤ 8
      → read_word sim p n s ≡ done (little_endian (bytes_at (i.byte s.memory) p n)) s
  unfolding read_word
  read_word_lem p n s h = rw (i.reads s.memory p n h) refl

  -- The bytes of a word that was read.
  word_bytes :
      (m : sim.Memory) (p n : ℕ)
      → bytes_of n (little_endian (bytes_at (i.byte m) p n)) ≡ bytes_at (i.byte m) p n
  word_bytes m p n =
      ap (λ t. bytes_of t (little_endian (bytes_at (i.byte m) p n)))
        (sym (length-bytes_at (i.byte m) p n))
      ∙ bytes_of-little_endian _ (bytes_at-AreBytes (i.byte m) (i.byte-lt m) p n)

  split_word :
      (f : ℕ → ℕ) (p n : ℕ)
      → bytes_at f p (min_uint64 n 8) ++ bytes_at f (p + 8) (n - 8) ≡ bytes_at f p n
  unfolding bytes_at
  split_word f p n = elim (dec_le 8 n) [
    | yes h ↦
        ap (λ k. bytes_at f p k ++ bytes_at f (p + 8) (n - 8)) {x = min_uint64 n 8} {y = 8}
          (ground arith)
        ∙ bytes_at-append f p 8 (n - 8)
        ∙ ap (bytes_at f p) {x = 8 + (n - 8)} {y = n} (omega (arith, h))
    | no h ↦
        ap (λ k. bytes_at f p k ++ bytes_at f (p + 8) (n - 8)) {x = min_uint64 n 8} {y = n}
          (ground arith)
        ∙ ap (λ k. bytes_at f p n ++ bytes_at f (p + 8) k) {x = n - 8} {y = 0} (omega (arith, h))
        ∙ append-nil (bytes_at f p n)
  ]

  read_zero : (left p : ℕ) (s : LimState sim) → read_loop sim left p 0 s ≡ done [] s
  unfolding read_loop
  read_zero zero p s = refl
  read_zero (suc left) p s = refl

  read_turn :
      (left p n : ℕ) (s : LimState sim)
      → 1 ≤ n
      → p + 8 < 2 ^ 64
      → read_loop sim left (p + 8) (n - 8) s ≡ done (bytes_at (i.byte s.memory) (p + 8) (n - 8)) s
      → read_loop sim (suc left) p n s ≡ done (bytes_at (i.byte s.memory) p n) s
  unfolding read_loop
  read_turn left p n s pos small rest =
      if_false _ (ne→== n 0 (λ e. absurd (omega (arith, e))))
      ∙ after_done _ (read_word_lem p (min_uint64 n 8) s (ground arith))
      ∙ after_done _ (
          ap (λ t. read_loop sim left t (n - 8) s) {x = add64 p 8} {y = p + 8} (omega arith) ∙ rest)
      ∙ ap (λ b. done (b ++ bytes_at (i.byte s.memory) (p + 8) (n - 8)) s)
          (word_bytes s.memory p (min_uint64 n 8))
      ∙ ap (λ b. done b s) (split_word (i.byte s.memory) p n)

  pub read_loop_lem :
      (left p n : ℕ) (s : LimState sim)
      → n ≤ left
      → p + n + 8 < 2 ^ 64
      → read_loop sim left p n s ≡ done (bytes_at (i.byte s.memory) p n) s
  unfolding bytes_at
  read_loop_lem left p zero s h small = read_zero left p s
  read_loop_lem zero p (suc n) s h small = absurd (omega arith)
  read_loop_lem (suc left) p (suc n) s h small =
      let rest : read_loop sim left (p + 8) (suc n - 8) s
          ≡ done (bytes_at (i.byte s.memory) (p + 8) (suc n - 8)) s =
        elim (dec_le 8 (suc n)) [
          | yes long ↦ read_loop_lem left (p + 8) (suc n - 8) s (omega arith) (omega (arith, long))
          | no short ↦
              ap (λ k. read_loop sim left (p + 8) k s) {x = suc n - 8} {y = 0}
                (omega (arith, short))
              ∙ read_zero left (p + 8) s
              ∙ ap (λ k. done (bytes_at (i.byte s.memory) (p + 8) k) s) {x = 0} {y = suc n - 8}
                  (omega (arith, short))
        ] in
      read_turn left p (suc n) s (omega arith) (omega arith) rest

  -- A memory after a write of these bytes.
  unfoldable pub Stores : sim.Memory → ℕ → List ℕ → sim.Memory → Type 0
  Stores m p bytes m' = (x : ℕ) → i.byte m' x ≡ overlay (i.byte m) p bytes x

  write_word_lem :
      (p : ℕ) (bytes : List ℕ) (s : LimState sim)
      → AreBytes bytes
      → length bytes ≤ 8
      → (m : sim.Memory) × (write_word sim p (little_endian bytes) (length bytes) s
          ≡ done tt (record s { memory = m }))
        × Stores s.memory p bytes m
  unfolding write_word Stores
  write_word_lem p bytes s h small =
      let r = sim.write_phys_memory s.memory p (little_endian bytes) (length bytes) in
      (
        r.0,
        if_false _ (i.no_exception s.memory p (little_endian bytes) (length bytes)),
        λ x.
            i.writes s.memory p (little_endian bytes) (length bytes) x small
            ∙ ap (λ b. overlay (i.byte s.memory) p b x) (bytes_of-little_endian bytes h),
      )

  write_turn :
      (left p : ℕ) (xs : List ℕ) (s : LimState sim) (m1 m2 : sim.Memory)
      → 1 ≤ length xs
      → p + 8 < 2 ^ 64
      → write_word sim p (little_endian (take 8 xs)) (length (take 8 xs)) s
        ≡ done tt (record s { memory = m1 })
      → write_loop sim left (p + 8) (drop 8 xs) (record s { memory = m1 })
        ≡ done tt (record s { memory = m2 })
      → write_loop sim (suc left) p xs s ≡ done tt (record s { memory = m2 })
  unfolding write_loop
  write_turn left p xs s m1 m2 pos small e1 e2 =
      if_false _ (ne→== (length xs) 0 (λ e. absurd (omega (arith, e))))
      ∙ after_done _
          (ap (λ n. write_word sim p (little_endian (take 8 xs)) n s) (sym (length-take 8 xs)) ∙ e1)
      ∙ ap (λ t. write_loop sim left t (drop 8 xs) (record s { memory = m1 })) {x = add64 p 8}
          {y = p + 8} (omega arith)
      ∙ e2

  pub write_loop_lem :
      (left p : ℕ) (bytes : List ℕ) (s : LimState sim)
      → AreBytes bytes
      → length bytes ≤ left
      → p + 8 * left < 2 ^ 64
      → (m : sim.Memory) × (write_loop sim left p bytes s ≡ done tt (record s { memory = m }))
        × Stores s.memory p bytes m
  unfolding write_loop Stores
  write_loop_lem zero p [] s h fits small =
      (s.memory, refl, λ x. sym (overlay_nil (i.byte s.memory) p x))
  write_loop_lem (suc left) p [] s h fits small =
      (s.memory, refl, λ x. sym (overlay_nil (i.byte s.memory) p x))
  write_loop_lem zero p (b ∷ bytes) s h fits small = absurd (omega arith)
  write_loop_lem (suc left) p (b ∷ bytes) s h fits small =
      let xs = b ∷ bytes in
      let eight : length (take 8 xs) ≤ 8 = rw (length-take 8 xs) (ground arith) in
      let left_over = length-drop 8 xs in
      let (m1, e1, stores1) =
        write_word_lem p (take 8 xs) s (take-AreBytes 8 xs h) (omega (arith, eight)) in
      let (m2, e2, stores2) =
        write_loop_lem left (p + 8) (drop 8 xs) (record s { memory = m1 }) (drop-AreBytes 8 xs h)
          (omega (arith, left_over)) (omega arith) in
      (
        m2,
        write_turn left p xs s m1 m2 (omega arith) (omega arith) e1 e2,
        λ x.
            stores2 x
            ∙ overlay_ext (i.byte m1) (overlay (i.byte s.memory) p (take 8 xs)) (p + 8) (drop 8 xs)
                x (stores1 x)
            ∙ overlay_split (i.byte s.memory) p xs x,
      )
