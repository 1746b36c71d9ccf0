-- ===== src/Integrity/Loop.antt =====
-- The loop over the granules of an access: modules/common/ccsimics/integrity.h.
use c3_simulator.Common.{
  ℕ, zero, suc, ◌+◌, ◌*◌, ◌^◌, ◌<◌, ◌≤◌, ◌≡◌, refl, ap, ap₂, sym, ◌∙◌, Bool, Bool-cases, inl, inr,
  ◌||◌, true, false, if◌then◌else◌, if_true, if_false, some, arith, add64, bind_some,
}
use c3_simulator.IcvMap.Page.{IcvMap}
use c3_simulator.IcvMap.Sparse.{IsWf}
use c3_simulator.Integrity.Machine.{Rw, read, write, Simulator, Options, Machine}
use c3_simulator.Integrity.Check.{
  slot_offset, la_to_check, ca_to_check, set_or_check_icv, slot_loop,
}
use c3_simulator.Integrity.Granule.{Checking, mismatch, checked, faulting}
use c3_simulator.Integrity.Step.{faults, bool_count, fails, left_by, Agrees, fails-Agrees}
use c3_simulator.Integrity.Access.{IsPhysical, index, set_or_check_icv_lem}
use c3_simulator.Integrity.Kept.{
  Kept, Checked, Kept-trans, Kept-refl, Agrees-refl, la_to_check-lt, granule_lem,
}

-- The access fails at one of the slots from slot `i` on.
unfoldable pub slots_fail : Simulator → Rw → IcvMap → Machine → ℕ → ℕ → ℕ → Bool
slots_fail sim op m s la zero i = false
slots_fail sim op m s la (suc left) i =
    let at = index sim (la_to_check la i) in
    fails op (mismatch m at (ca_to_check s i)) m at || slots_fail sim op m s la left (i + 1)

ca_to_check-Kept : (s s' : Machine) (i : ℕ) → Kept s s' → ca_to_check s' i ≡ ca_to_check s i
unfolding ca_to_check
ca_to_check-Kept s s' i k =
    ap₂ (λ b x. if b then add64 x (slot_offset i) else 0) k.pointer k.encoded

pub slots_fail-Agrees :
    (sim : Simulator) (op : Rw) (m m' : IcvMap) (s s' : Machine) (la left i : ℕ)
    → Agrees op m m'
    → Kept s s'
    → slots_fail sim op m' s' la left i ≡ slots_fail sim op m s la left i
unfolding slots_fail
slots_fail-Agrees sim op m m' s s' la zero i h k = refl
slots_fail-Agrees sim op m m' s s' la (suc left) i h k =
    let at = index sim (la_to_check la i) in
    ap₂ (λ x y. x || y)
      (ap (λ ca. fails op (mismatch m' at ca) m' at) (ca_to_check-Kept s s' i k)
        ∙ fails-Agrees op m m' at _ h)
      (slots_fail-Agrees sim op m m' s s' la left (i + 1) h k)

Agrees-trans : (op : Rw) (m m' m'' : IcvMap) → Agrees op m m' → Agrees op m' m'' → Agrees op m m''
unfolding Agrees
Agrees-trans read m m' m'' p q = q ∙ p
Agrees-trans write m m' m'' p q = λ j. q j ∙ p j

module _ (sim : Simulator) (o : Options) where
  pub set_or_check_icv-Checked :
      (op : Rw) (la ca : ℕ) (m : IcvMap) (s : Machine)
      → Checking o s m
      → IsWf m
      → faulting o op ≡ true
      → IsPhysical sim
      → la < 2 ^ 47
      → let at = index sim la in
        (s' : Machine) × (set_or_check_icv sim o la ca op s ≡ some (false, s'))
        × Checked o op m
            (left_by op (mismatch m at ca) m at)
            s
            s'
            (fails op (mismatch m at ca) m at)
  set_or_check_icv-Checked op la ca m s h wf on phys small = (
    checked o op (mismatch m (index sim la) ca) m (index sim la) s,
    set_or_check_icv_lem sim o op la ca m s h phys small on,
    granule_lem o op (index sim la) ca m s h wf on,
  )

  pub slot_loop_lem :
      (op : Rw) (la left i : ℕ) (m : IcvMap) (s : Machine)
      → Checking o s m
      → IsWf m
      → faulting o op ≡ true
      → IsPhysical sim
      → i + left ≤ 2 ^ 28
      → la + (i + left) * 8 < 2 ^ 47 + 8
      → s.faulted ≡ false
      → (s' : Machine) × (m' : IcvMap) × (slot_loop sim o left i la op s ≡ some s')
        × Checked o op m m' s s' (slots_fail sim op m s la left i)
  unfolding slot_loop slots_fail bool_count
  slot_loop_lem op la zero i m s h wf on phys short hi running = (
    s,
    m,
    refl,
    record {
      checking = h;
      wf = wf;
      agrees = Agrees-refl op m;
      raised = omega arith;
      ended = running;
      kept = Kept-refl s;
    },
  )
  slot_loop_lem op la (suc left) i m s h wf on phys short hi running =
      let at = index sim (la_to_check la i) in
      let ca = ca_to_check s i in
      let b = mismatch m at ca in
      let s1 = checked o op b m at s in
      let m1 = left_by op b m at in
      let c1 = granule_lem o op at ca m s h wf on in
      let rest = slots_fail sim op m s la left (i + 1) in
      let small : la_to_check la i < 2 ^ 47 = la_to_check-lt la i (omega arith) (omega arith) in
      let turn =
        bind_some _ (set_or_check_icv_lem sim o op (la_to_check la i) ca m s h phys small on) in
      elim (Bool-cases (fails op b m at)) [
        | inl bad ↦
            let all = bad ∙ sym (ap (λ x. x || rest) bad) in
            (
              s1,
              m1,
              turn ∙ if_true _ (c1.ended ∙ bad),
              record {
                checking = c1.checking;
                wf = c1.wf;
                agrees = c1.agrees;
                raised = c1.raised ∙ ap (λ x. bool_count x + faults s.calls) all;
                ended = c1.ended ∙ all;
                kept = c1.kept;
              },
            )
        | inr good ↦
            let (s', m', e, c) =
              slot_loop_lem op la left (i + 1) m1 s1 c1.checking c1.wf on phys (omega arith)
                (omega arith) (c1.ended ∙ good) in
            let same : slots_fail sim op m1 s1 la left (i + 1) ≡ (fails op b m at || rest) =
              slots_fail-Agrees sim op m m1 s s1 la left (i + 1) c1.agrees c1.kept
              ∙ sym (ap (λ x. x || rest) good) in
            let none_yet : faults s1.calls ≡ faults s.calls =
              c1.raised ∙ ap (λ x. bool_count x + faults s.calls) good ∙ omega arith in
            (
              s',
              m',
              turn ∙ if_false _ (c1.ended ∙ good) ∙ e,
              record {
                checking = c.checking;
                wf = c.wf;
                agrees = Agrees-trans op m m1 m' c1.agrees c.agrees;
                raised = c.raised ∙ ap₂ (λ x n. bool_count x + n) same none_yet;
                ended = c.ended ∙ same;
                kept = Kept-trans s s1 s' c1.kept c.kept;
              },
            )
      ]
