-- ===== src/Tripwire/Modes.antt =====
-- Faults are suppressed during a copy only: modules/common/ccsimics/rep_movsb_tripwire.h.
use c3_simulator.Common.{ℕ, ◌≡◌, false, if◌then◌else◌, Option, none, some, ◌>>=◌, ◌⊎◌}
use c3_simulator.Integrity.Machine.{
  Simulator, Machine, SuppressMode, suppress_none, set_suppress_icv_mode,
}
use c3_simulator.Integrity.Instructions.{copy_icvs}
use c3_simulator.Tripwire.Copy.{CopyVals, TripwireState, current_vals}

-- Between two instructions, no fault is suppressed and no copy is pending.
unfoldable pub IsQuiet : TripwireState → Type 0
IsQuiet s = (s.fixup_dst_icvs ≡ false) × (s.machine.suppress_mode ≡ suppress_none)

-- What the processor leaves of a state in which it carries out an instruction.
pub record Carries (s t : TripwireState) : Type 0 where
  pub fixup : t.fixup_dst_icvs ≡ s.fixup_dst_icvs
  pub vals : t.fixup_dst_icvs_vals ≡ s.fixup_dst_icvs_vals
  pub mode : t.machine.suppress_mode ≡ s.machine.suppress_mode

-- The copy that is made after an instruction, if its emulation asks for one.
unfoldable pub copied :
    Simulator → TripwireState → Option (SuppressMode × ℕ) → Machine → Option Machine
copied sim s none m = some m
copied sim s (some (mode, length)) m =
    if s.machine.icv_enabled
    then (do
      m' ← copy_icvs sim s.rdi s.rsi s.rcx (current_vals s).df_flag m
      some (set_suppress_icv_mode suppress_none m'))
    else some m

-- The outcome of an instruction by that of its copy.
abbrev pub finished : TripwireState → Option Machine → Option TripwireState
finished t m = do m' ← m; some (record t { machine = m'; fixup_dst_icvs = false })

-- A copy that fails, or leaves no fault suppressed.
abbrev pub Ends : Option Machine → Type 0
Ends m = (m ≡ none) ⊎ ((m' : Machine) × (m ≡ some m') × (m'.suppress_mode ≡ suppress_none))

module _ (sim : Simulator) where
  abbrev replaced : CopyVals → Machine → Option Machine
  replaced v m = do
    m' ← copy_icvs sim v.dst v.src v.n v.df_flag m
    some (set_suppress_icv_mode suppress_none m')
