-- ===== src/Shadow/Stack.antt =====
-- The return address in memory: modules/common/ccsimics/shadow_rip.h.
use c3_simulator.Common.{
  ℕ, ◌^◌, ◌<◌, ◌≡◌, ap, ◌∙◌, some, List, ◌∷◌, if_true, if_false, if_either, if◌then◌else◌,
  Bool-cases, inl, inr,
}
use c3_simulator.Ca.Format.{is_encoded_cc_ptr}
use c3_simulator.Base.Words.{encrypt_decrypt_u64}
use c3_simulator.Base.RoundTrip.{encrypt_decrypt_u64_lem, encrypt_decrypt_u64-lt}
use c3_simulator.Integrity.Machine.{Event, write_phys_memory, Simulator, Options, record_call}
use c3_simulator.Integrity.Check.{read_mem_8B, read_phys_at}
use c3_simulator.Integrity.Instructions.{write_mem_8B, write_at}
use c3_simulator.Shadow.State.{RipState, read_8, write_8, read_ra_at_rsp, write_ra_at_rsp}

-- A word that was the last to be written to an address of physical memory is read back.
unfoldable pub ReadsBack : Simulator → Type 0
ReadsBack sim =
    (calls : List Event) (pa v : ℕ)
    → v < 2 ^ 64
    → sim.read_phys_memory (write_phys_memory pa v ∷ calls) pa ≡ v

-- A word on the stack, as memory holds it, and the state after it is written at `pa`.
module _ (o : Options) (rsp : ℕ) where
  abbrev pub stored : ℕ → ℕ
  stored v = if is_encoded_cc_ptr rsp then encrypt_decrypt_u64 rsp v o.dp_key else v

  unfoldable pub written : ℕ → ℕ → RipState → RipState
  written pa x s = record s { core = record_call s.core (write_phys_memory pa (stored x)) }

module _ (sim : Simulator) (o : Options) (rsp pa : ℕ)
    (translates : sim.logical_to_physical rsp ≡ some pa) where
  stored-lt : (v : ℕ) → v < 2 ^ 64 → stored o rsp v < 2 ^ 64
  stored-lt v small =
      if_either (λ t. t < 2 ^ 64) (is_encoded_cc_ptr rsp) _ _
        (encrypt_decrypt_u64-lt rsp o.dp_key v) small

  stored-twice : (v : ℕ) → v < 2 ^ 64 → stored o rsp (stored o rsp v) ≡ v
  stored-twice v small = elim (Bool-cases (is_encoded_cc_ptr rsp)) [
    | inl is ↦
        if_true _ is
        ∙ ap (λ t. encrypt_decrypt_u64 rsp t o.dp_key) (if_true v is)
        ∙ encrypt_decrypt_u64_lem rsp v o.dp_key small
    | inr is ↦ if_false _ is ∙ if_false _ is
  ]

  pub read_ra_lem :
      (s : RipState)
      → read_ra_at_rsp sim o rsp s ≡ (stored o rsp (sim.read_phys_memory s.core.calls pa), s)
  unfolding read_ra_at_rsp read_8 read_mem_8B read_phys_at
  read_ra_lem s =
      ap
        (λ t. (
          stored o rsp ((read_phys_at sim t s.core).0),
          record s { core = (read_phys_at sim t s.core).1 },
        ))
        translates

  pub write_ra_lem : (x : ℕ) (s : RipState) → write_ra_at_rsp sim o rsp x s ≡ written o rsp pa x s
  unfolding write_ra_at_rsp write_8 write_mem_8B write_at written
  write_ra_lem x s = ap (λ t. record s { core = write_at t (stored o rsp x) s.core }) translates

  pub read-written :
      (x : ℕ) (s : RipState)
      → x < 2 ^ 64
      → ReadsBack sim
      → read_ra_at_rsp sim o rsp (written o rsp pa x s) ≡ (x, written o rsp pa x s)
  unfolding written ReadsBack
  read-written x s small reads =
      read_ra_lem (written o rsp pa x s)
      ∙ ap (λ t. (stored o rsp t, written o rsp pa x s))
          (reads s.core.calls pa (stored o rsp x) (stored-lt x small))
      ∙ ap (λ t. (t, written o rsp pa x s)) (stored-twice x small)
