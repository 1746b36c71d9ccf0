-- ===== src/LimModel/State.antt =====
-- What the LIM model reads and changes: the members of `lim_class`, the options and the simulator, in
-- modules/lim_model (model.h, model.cpp, lim_simics_connection.h).
-- A fault does not come back to its caller: it ends the callback with the state of that moment.
use c3_simulator.Common.{ℕ, ◌+◌, ◌≡◌, ap, Bool, true, false, if◌then◌else◌, Option, none, some}
use c3_simulator.Base.Access.{PageCrossing}
use c3_simulator.Integrity.Machine.{Rw}
use c3_simulator.Lim.Metadata.{DecodedMetadata}

pub record PhysicalBlock : Type 0 where
  pub valid : Bool
  pub address : ℕ

-- The simulator. A read gives a value and a write a memory; both say whether an exception is pending.
-- `uninitialized` is what the words of an array hold before they are set.
pub record LimSimulator : Type 1 where
  pub Memory : Type 0
  pub logical_to_physical : ℕ → Rw → PhysicalBlock
  pub read_phys_memory : Memory → ℕ → ℕ → ℕ × Bool
  pub write_phys_memory : Memory → ℕ → ℕ → ℕ → Memory × Bool
  pub program_counter : ℕ
  pub uninitialized : ℕ → ℕ

pub record LimOptions : Type 0 where
  pub debug_on : Bool
  pub trace_only : Bool
  pub disable_meta_check : Bool
  pub break_on_decode_fault : Bool
  pub data_disp : Bool

-- `breaks` counts the calls of `SIM_break_simulation`.
pub record LimState (sim : LimSimulator) : Type 0 where
  pub memory : sim.Memory
  pub breaks : ℕ
  pub la_encoded : ℕ
  pub la_decoded : ℕ
  pub is_encoded_pointer : Bool
  pub is_crossing_page_first : Bool
  pub is_crossing_page_second : Bool
  pub is_page_fault : Bool
  pub encoded_addr_callback_cnt : ℕ
  pub total_read_cnt : ℕ
  pub total_write_cnt : ℕ
  pub encoded_read_cnt : ℕ
  pub encoded_write_cnt : ℕ
  pub total_addr_callback_cnt : ℕ
  pub ptr_tag : ℕ
  pub encoded_size : ℕ
  pub la_middle : ℕ
  pub la_meta : ℕ
  pub pa_meta : ℕ
  pub meta_size : ℕ
  pub dec_meta : DecodedMetadata
  pub page_crossing_type : PageCrossing

-- How a callback ends: it returns, a page fault or a general protection fault is raised, an assertion
-- fails, or the fuel for nested translations is used up.
pub data Outcome (sim : LimSimulator) (A : Type 0) : Type 0 where
  done : A → LimState sim → Outcome sim A
  page_fault : ℕ → ℕ → LimState sim → Outcome sim A
  gp_fault : LimState sim → Outcome sim A
  aborted : Outcome sim A
  exhausted : Outcome sim A

-- What comes after an outcome: a callback goes on only where it returns.
abbrev pub after :
    {sim : LimSimulator} {A B : Type 0}
    → (A → LimState sim → Outcome sim B)
    → Outcome sim A
    → Outcome sim B
after k (done a t) = k a t
after k (page_fault la ecode t) = page_fault la ecode t
after k (gp_fault t) = gp_fault t
after k aborted = aborted
after k exhausted = exhausted

infixl 5 ◌>>=◌ ◌>>◌
abbrev pub ◌>>=◌ :
    {sim : LimSimulator} {A B : Type 0}
    → (LimState sim → Outcome sim A)
    → (A → LimState sim → Outcome sim B)
    → LimState sim
    → Outcome sim B
◌>>=◌ m k s = after k (m s)

abbrev pub ◌>>◌ :
    {sim : LimSimulator} {B : Type 0}
    → (LimState sim → Outcome sim (Unit {0}))
    → (LimState sim → Outcome sim B)
    → LimState sim
    → Outcome sim B
◌>>◌ m k = m >>= λ _. k

module _ {sim : LimSimulator} where
  abbrev pub return : {A : Type 0} → A → LimState sim → Outcome sim A
  return a s = done a s

  abbrev pub get_state : LimState sim → Outcome sim (LimState sim)
  get_state s = done s s

  abbrev pub put_state : LimState sim → LimState sim → Outcome sim (Unit {0})
  put_state t s = done tt t

  abbrev pub change : (LimState sim → LimState sim) → LimState sim → Outcome sim (Unit {0})
  change f s = done tt (f s)

  abbrev pub assert_that : Bool → LimState sim → Outcome sim (Unit {0})
  assert_that b s = if b then done tt s else aborted

  -- What may be `none` where an assertion fails.
  abbrev pub expect : {A : Type 0} → Option A → LimState sim → Outcome sim A
  expect none s = aborted
  expect (some a) s = done a s

  -- `break_on_decode_fault`
  abbrev pub break_if : Bool → LimState sim → Outcome sim (Unit {0})
  break_if b s = done tt (if b then record s { breaks = s.breaks + 1 } else s)

-- A step that returns goes on with what comes after it.
pub after_done :
    {sim : LimSimulator} {A B : Type 0} (k : A → LimState sim → Outcome sim B) {r : Outcome sim A}
    {t : LimState sim} {a : A}
    → r ≡ done a t
    → after k r ≡ k a t
after_done k e = ap (after k) e

-- Nothing comes after a fault.
pub after_fault :
    {sim : LimSimulator} {A B : Type 0} (k : A → LimState sim → Outcome sim B) {r : Outcome sim A}
    {t : LimState sim}
    → r ≡ gp_fault t
    → after k r ≡ gp_fault t
after_fault k e = ap (after k) e

-- To take a branch of code that is run on a state.
pub run_true :
    {sim : LimSimulator} {A : Type 0} {b : Bool} (f g : LimState sim → Outcome sim A)
    (s : LimState sim)
    → b ≡ true
    → (if b then f else g) s ≡ f s
run_true {b = b} f g s e = ap (λ c. (if c then f else g) s) e

pub run_false :
    {sim : LimSimulator} {A : Type 0} {b : Bool} (f g : LimState sim → Outcome sim A)
    (s : LimState sim)
    → b ≡ false
    → (if b then f else g) s ≡ g s
run_false {b = b} f g s e = ap (λ c. (if c then f else g) s) e
