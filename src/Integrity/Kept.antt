-- ===== src/Integrity/Kept.antt =====
-- What the check of one granule keeps of the machine: modules/common/ccsimics/integrity.h.
use c3_simulator.Common.{ℕ, ◌+◌, ◌*◌, ◌^◌, ◌<◌, ◌≡◌, refl, ◌∙◌, Bool, true, false, some, arith}
use c3_simulator.IcvMap.Page.{IcvMap}
use c3_simulator.IcvMap.Sparse.{IsWf}
use c3_simulator.Integrity.Machine.{Rw, read, write, Options, Machine}
use c3_simulator.Integrity.Check.{report_mismatch, slot_offset, la_to_check}
use c3_simulator.Integrity.Granule.{
  Checking, mismatch, marked, settled, finished, checked, faulting,
}
use c3_simulator.Integrity.Step.{
  faults, bool_count, fails, left_by, Agrees, faults-checked, checked-faulted, left_by-Agrees,
  left_by-IsWf,
}

-- What a check keeps of the machine.
pub record Kept (s s' : Machine) : Type 0 where
  pub enabled : s'.icv_enabled ≡ s.icv_enabled
  pub locked : s'.icv_lock ≡ s.icv_lock
  pub mode : s'.suppress_mode ≡ s.suppress_mode
  pub encoded : s'.la_encoded ≡ s.la_encoded
  pub pointer : s'.is_encoded_pointer ≡ s.is_encoded_pointer

settled-Kept : (o : Options) (op : Rw) (b : Bool) (s : Machine) → Kept s (settled o op b s)
unfolding settled report_mismatch
settled-Kept o op false s = record {
  enabled = refl;
  locked = refl;
  mode = refl;
  encoded = refl;
  pointer = refl;
}
settled-Kept o read true s = record {
  enabled = refl;
  locked = refl;
  mode = refl;
  encoded = refl;
  pointer = refl;
}
settled-Kept o write true s = record {
  enabled = refl;
  locked = refl;
  mode = refl;
  encoded = refl;
  pointer = refl;
}

finished-Kept :
    (o : Options) (op : Rw) (m : IcvMap) (i : ℕ) (s : Machine) → Kept s (finished o op m i s)
unfolding finished
finished-Kept o write m i s = record {
  enabled = refl;
  locked = refl;
  mode = refl;
  encoded = refl;
  pointer = refl;
}
finished-Kept o read m i s = record {
  enabled = refl;
  locked = refl;
  mode = refl;
  encoded = refl;
  pointer = refl;
}

map-settled :
    (o : Options) (op : Rw) (b : Bool) (s : Machine) → (settled o op b s).icv_map ≡ s.icv_map
unfolding settled report_mismatch
map-settled o op false s = refl
map-settled o read true s = refl
map-settled o write true s = refl

map-finished :
    (o : Options) (op : Rw) (m : IcvMap) (i : ℕ) (s : Machine)
    → s.icv_map ≡ some m
    → (finished o op m i s).icv_map ≡ some (marked op m i)
unfolding finished marked
map-finished o write m i s h = refl
map-finished o read m i s h = h

map-checked :
    (o : Options) (op : Rw) (b : Bool) (m : IcvMap) (i : ℕ) (s : Machine)
    → s.icv_map ≡ some m
    → (checked o op b m i s).icv_map ≡ some (left_by op b m i)
unfolding checked left_by
map-checked o op true m i s h = map-settled o op true s ∙ h
map-checked o op false m i s h = map-finished o op m i _ (map-settled o op false s ∙ h)

pub Kept-trans : (s t u : Machine) → Kept s t → Kept t u → Kept s u
Kept-trans s t u p q = record {
  enabled = q.enabled ∙ p.enabled;
  locked = q.locked ∙ p.locked;
  mode = q.mode ∙ p.mode;
  encoded = q.encoded ∙ p.encoded;
  pointer = q.pointer ∙ p.pointer;
}

Kept-Checking :
    (o : Options) (s t : Machine) (m m' : IcvMap)
    → Kept s t
    → t.icv_map ≡ some m'
    → Checking o s m
    → Checking o t m'
Kept-Checking o s t m m' k has h = record {
  enabled = k.enabled ∙ h.enabled;
  locked = k.locked ∙ h.locked;
  has_map = has;
  unsuppressed = k.mode ∙ h.unsuppressed;
  uncorrected = h.uncorrected;
}

pub Kept-refl : (s : Machine) → Kept s s
Kept-refl s = record { enabled = refl; locked = refl; mode = refl; encoded = refl; pointer = refl }

pub Agrees-refl : (op : Rw) (m : IcvMap) → Agrees op m m
unfolding Agrees
Agrees-refl read m = refl
Agrees-refl write m = λ j. refl

pub slot_offset_lem : (i : ℕ) → i < 2 ^ 28 → slot_offset i ≡ i * 8
unfolding slot_offset
slot_offset_lem i h = ground arith

pub la_to_check-lt : (la i : ℕ) → i < 2 ^ 28 → la + i * 8 < 2 ^ 47 → la_to_check la i < 2 ^ 47
unfolding la_to_check
la_to_check-lt la i small h = omega (arith, slot_offset_lem i small)

checked-Kept :
    (o : Options) (op : Rw) (b : Bool) (m : IcvMap) (i : ℕ) (s : Machine)
    → Kept s (checked o op b m i s)
unfolding checked
checked-Kept o op true m i s = settled-Kept o op true s
checked-Kept o op false m i s =
    Kept-trans s (settled o op false s) _ (settled-Kept o op false s) (finished-Kept o op m i _)

-- What some checks do to the machine: they raise one fault and end if `failed` says so and raise none
-- otherwise, and change only what `Agrees` allows.
pub record Checked (o : Options) (op : Rw) (m m' : IcvMap) (s s' : Machine) (failed : Bool)
    : Type 0 where
  pub checking : Checking o s' m'
  pub wf : IsWf m'
  pub agrees : Agrees op m m'
  pub raised : faults s'.calls ≡ bool_count failed + faults s.calls
  pub ended : s'.faulted ≡ failed
  pub kept : Kept s s'

module _ (o : Options) where
  -- One turn.
  pub granule_lem :
      (op : Rw) (i ca : ℕ) (m : IcvMap) (s : Machine)
      → Checking o s m
      → IsWf m
      → faulting o op ≡ true
      → Checked o op m
          (left_by op (mismatch m i ca) m i)
          s
          (checked o op (mismatch m i ca) m i s)
          (fails op (mismatch m i ca) m i)
  granule_lem op i ca m s h wf on =
      let b = mismatch m i ca in
      let k = checked-Kept o op b m i s in
      record {
        checking =
            Kept-Checking o s _ m (left_by op b m i) k (map-checked o op b m i s h.has_map) h;
        wf = left_by-IsWf op b m i wf;
        agrees = left_by-Agrees op b m i wf;
        raised = faults-checked o op b m i s h.enabled on;
        ended = checked-faulted o op b m i s h.enabled on;
        kept = k;
      }
