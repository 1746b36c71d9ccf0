-- ===== src/LimModel/Faults.antt =====
-- Translations that fail, in modules/lim_model/model.cpp.
use c3_simulator.Common.{
  ℕ, suc, ◌+◌, ◌-◌, ◌%◌, ◌^◌, ◌≤◌, ◌<◌, ◌≡◌, refl, ap, ◌∙◌, arith, Bool, true, false, not, leb,
  ◌==◌, if◌then◌else◌, if_true, if_false, List, ◌++◌, add64, ne→==,
}
use c3_simulator.Base.Words.{bytes_of}
use c3_simulator.Integrity.Machine.{Rw, read}
use c3_simulator.LimModel.State.{
  LimSimulator, LimState, Outcome, done, page_fault, aborted, ◌>>=◌, ◌>>◌, return, after,
  after_done,
}
use c3_simulator.LimModel.Memory.{
  min_uint64, calc_bytes_before_pg_bndry, little_endian, ecode, read_word, read_loop,
  read_from_linear_addr_samepage, read_rest, read_from_linear_addr_crosspage,
  curr_instr_is_prefetch, raise_page_fault, raise_page_fault_exception, translate_la_to_pa,
}

-- The current instruction can be read: its first two bytes stand in one page, which is mapped to a
-- place other than 0, and physical memory gives the word `v` for them.
pub record IsFetched (sim : LimSimulator) (s : LimState sim) (v : ℕ) : Type 0 where
  pub pa : ℕ
  pub page : sim.program_counter % 2 ^ 12 + 2 ≤ 2 ^ 12
  pub mapped : (sim.logical_to_physical sim.program_counter read).valid ≡ true
  pub address : (sim.logical_to_physical sim.program_counter read).address ≡ pa
  pub pa_pos : 1 ≤ pa
  pub reads : sim.read_phys_memory s.memory pa 2 ≡ (v, false)
  pub is_word : v < 2 ^ 16

module _ (sim : LimSimulator) (fuel v : ℕ) (s : LimState sim) (f : IsFetched sim s v) where
  abbrev tr : ℕ → Rw → LimState sim → Outcome sim ℕ
  tr = translate_la_to_pa sim (suc fuel)

  -- The state after the instruction is translated.
  abbrev fetched : LimState sim
  fetched = record s { is_page_fault = false }

  word_lem : read_word sim f.pa 2 fetched ≡ done v fetched
  unfolding read_word
  word_lem = rw f.reads refl

  loop_lem : read_loop sim 2 f.pa 2 fetched ≡ done (bytes_of 2 v) fetched
  unfolding read_loop bytes_of
  loop_lem = after_done _ word_lem

  same_lem :
      read_from_linear_addr_samepage sim tr sim.program_counter 2 s ≡ done (bytes_of 2 v) fetched
  unfolding read_from_linear_addr_samepage translate_la_to_pa
  same_lem =
      after_done _ (if_true _ f.mapped ∙ ap (λ a. done a fetched) f.address)
      ∙ after_done _ (if_true _ (ap not (ne→== f.pa 0 (λ z. absurd (omega (arith, z, f.pa_pos))))))
      ∙ loop_lem

  -- The read, with the number of bytes before the end of the page.
  abbrev cross_from : ℕ → LimState sim → Outcome sim (List ℕ)
  cross_from b = do
    before ← read_from_linear_addr_samepage sim tr sim.program_counter b
    rest ← read_rest sim tr (add64 sim.program_counter b) (2 - b)
    return (before ++ rest)

  cross_lem :
      read_from_linear_addr_crosspage sim tr sim.program_counter 2 s ≡ done (bytes_of 2 v) fetched
  unfolding read_from_linear_addr_crosspage calc_bytes_before_pg_bndry read_rest bytes_of
  cross_lem =
      let pc = sim.program_counter in
      let page = f.page in
      let in_limit : leb 2 64 ≡ true = ground arith in
      let all : min_uint64 (2 ^ 12 - pc % 2 ^ 12) 2 ≡ 2 = ground arith in
      after_done (λ _. cross_from (min_uint64 (2 ^ 12 - pc % 2 ^ 12) 2)) {t = s} {a = tt}
        (ap (λ b. if b then done tt s else aborted) in_limit)
      ∙ ap (λ b. cross_from b s) all
      ∙ after_done _ same_lem

  prefetch_lem : curr_instr_is_prefetch sim tr s ≡ done (v == 0x180f) fetched
  unfolding curr_instr_is_prefetch little_endian bytes_of
  prefetch_lem =
      after_done _ cross_lem
      ∙ ap (λ x. done (x == 0x180f) fetched) {x = little_endian (bytes_of 2 v)} {y = v}
          (omega (arith, f.is_word))

  raise_lem :
      (b : Bool) (la pa : ℕ) (access_type : Rw)
      → (do (if b then return tt else raise_page_fault sim tr la access_type); return pa) fetched
        ≡ (if b
            then done pa fetched
            else page_fault la
                (ecode access_type)
                (record s { is_encoded_pointer = false; is_page_fault = true }))
  unfolding raise_page_fault
  raise_lem true la pa access_type = refl
  raise_lem false la pa access_type = refl

  raise_exception_lem :
      (la : ℕ) (access_type : Rw)
      → raise_page_fault_exception sim tr la access_type s
        ≡ (if v == 0x180f then return tt else raise_page_fault sim tr la access_type) fetched
  unfolding raise_page_fault_exception
  raise_exception_lem la access_type = after_done _ prefetch_lem

  -- When the first two bytes of the current instruction stand in one page that the simulator maps,
  -- not to 0, and memory gives the word of them, a translation that fails, of whatever address,
  -- ends with two levels of nested translations or more: it returns the address that the simulator
  -- gave if the word is that of a prefetch, and otherwise raises a page fault with the error code
  -- of the access, the pointer forgotten, also when a page fault is already pending.
  pub translate_la_to_pa-ends :
      (la : ℕ) (access_type : Rw)
      → (sim.logical_to_physical la access_type).valid ≡ false
      → translate_la_to_pa sim (suc (suc fuel)) la access_type s ≡ (
          if v == 0x180f
          then done
              (sim.logical_to_physical la access_type).address
              (record s { is_page_fault = false })
          else page_fault la
              (ecode access_type)
              (record s { is_encoded_pointer = false; is_page_fault = true }))
  unfolding translate_la_to_pa
  translate_la_to_pa-ends la access_type invalid =
      if_false _ invalid
      ∙ ap (after λ _. return (sim.logical_to_physical la access_type).address)
          (raise_exception_lem la access_type)
      ∙ raise_lem (v == 0x180f) la (sim.logical_to_physical la access_type).address access_type
