-- ===== src/Integrity/Step.antt =====
-- One check of a granule as a step: how many faults it raises, and what it leaves as it was:
-- modules/common/ccsimics/integrity.h.
use c3_simulator.Common.{
  ℕ, suc, ◌+◌, ◌≡◌, refl, ap, ap₂, ◌&&◌, ◌||◌, or_true, or_false, sym, ◌∙◌, Bool, true, false, not,
  ◌==◌, if◌then◌else◌, List, [], ◌∷◌, arith, ℕ_discrete, ==_eq, ne→==, if_true, if_false,
}
use c3_simulator.IcvMap.Page.{IcvMap, map_set, map_get}
use c3_simulator.IcvMap.Sparse.{IsWf, map_set-IsWf, map_get-map_set}
use c3_simulator.Integrity.Icv.{
  icv_addr, icv_initialize, is_icv_uninitialized, is_icv_preinit_enabled, icv_addr-icv_initialize,
}
use c3_simulator.Integrity.Machine.{
  Rw, read, write, Event, gp_fault, break_simulation, cwe457, write_phys_memory, Message, Options,
  Machine, icv_fault_on_write_mismatch, icv_fault_on_read_mismatch, icv_break_on_read_mismatch,
}
use c3_simulator.Integrity.Check.{this_icv, report_mismatch}
use c3_simulator.Integrity.Granule.{
  mismatch, marked, settled, finished, checked, uninitialized_read, faulting, report-faulted,
}

-- The GP faults among some calls.
unfoldable pub faults : List Event → ℕ
faults [] = 0
faults (gp_fault msg ∷ calls) = suc (faults calls)
faults (break_simulation msg ∷ calls) = faults calls
faults (write_phys_memory pa v ∷ calls) = faults calls

unfoldable pub bool_count : Bool → ℕ
bool_count true = 1
bool_count false = 0

-- An access of granule `i` fails: its ICV differs, or a read finds the granule uninitialized.
unfoldable pub fails : Rw → Bool → IcvMap → ℕ → Bool
fails write differs m i = differs
fails read differs m i = is_icv_uninitialized (map_get m i) || differs

-- The faults that an access of granule `i` with `ca` deserves.
abbrev pub granule_faults : Rw → IcvMap → ℕ → ℕ → ℕ
granule_faults op m i ca = bool_count (fails op (mismatch m i ca) m i)

-- The map after the access: a fault on a mismatch leaves it as it is.
unfoldable pub left_by : Rw → Bool → IcvMap → ℕ → IcvMap
left_by op true m i = m
left_by op false m i = marked op m i

-- A read leaves the map as it is, and a write the addresses in it.
unfoldable pub Agrees : Rw → IcvMap → IcvMap → Type 0
Agrees read m m' = m' ≡ m
Agrees write m m' = (j : ℕ) → icv_addr (map_get m' j) ≡ icv_addr (map_get m j)

faults-break :
    (b : Bool) (msg : Message) (l : List Event)
    → faults (if b then break_simulation msg ∷ l else l) ≡ faults l
unfolding faults
faults-break true msg l = refl
faults-break false msg l = refl

pub faults-fault :
    (b : Bool) (msg : Message) (l : List Event)
    → b ≡ true
    → faults (if b then gp_fault msg ∷ l else l) ≡ suc (faults l)
unfolding faults
faults-fault true msg l e = refl
faults-fault false msg l e = ground arith

module _ (o : Options) where
  report_faults :
      (op : Rw) (s : Machine)
      → s.icv_enabled ≡ true
      → faulting o op ≡ true
      → faults (report_mismatch o op s).calls ≡ 1 + faults s.calls
  unfolding report_mismatch icv_fault_on_write_mismatch icv_fault_on_read_mismatch
  report_faults read s en on =
      faults-fault _ _ _ (ap₂ (λ a b. a && b) en on)
      ∙ ap suc (faults-break _ _ s.calls)
      ∙ omega arith
  report_faults write s en on =
      faults-fault _ _ _ (ap₂ (λ a b. a && b) en on)
      ∙ ap suc (faults-break _ _ s.calls)
      ∙ omega arith

  uninitialized_faults :
      (b : Bool) (s : Machine)
      → s.icv_enabled ≡ true
      → faulting o read ≡ true
      → faults (if b then (uninitialized_read o s).calls else s.calls)
        ≡ bool_count b + faults s.calls
  unfolding bool_count icv_fault_on_read_mismatch uninitialized_read
  uninitialized_faults false s en on = omega arith
  uninitialized_faults true s en on =
      faults-fault (icv_fault_on_read_mismatch o s) cwe457 _ (ap₂ (λ a b. a && b) en on)
      ∙ ap suc (faults-break (icv_break_on_read_mismatch o s) cwe457 s.calls)
      ∙ omega arith

  uninitialized-faulted :
      (b : Bool) (s : Machine)
      → s.icv_enabled ≡ true
      → faulting o read ≡ true
      → s.faulted ≡ false
      → (if b then (uninitialized_read o s).faulted else s.faulted) ≡ b
  unfolding icv_fault_on_read_mismatch uninitialized_read
  uninitialized-faulted false s en on none_yet = none_yet
  uninitialized-faulted true s en on none_yet = ap₂ (λ a b. a && b || s.faulted) en on

  pub faults-checked :
      (op : Rw) (b : Bool) (m : IcvMap) (i : ℕ) (s : Machine)
      → s.icv_enabled ≡ true
      → faulting o op ≡ true
      → faults (checked o op b m i s).calls ≡ bool_count (fails op b m i) + faults s.calls
  unfolding checked settled finished fails bool_count
  faults-checked write true m i s en on = report_faults write _ en on
  faults-checked write false m i s en on = omega arith
  faults-checked read true m i s en on =
      report_faults read _ en on
      ∙ ap (λ b. bool_count b + faults s.calls) {x = true}
          (sym (or_true (is_icv_uninitialized (map_get m i))))
  faults-checked read false m i s en on =
      uninitialized_faults (is_icv_uninitialized (map_get m i)) (settled o read false s) en on
      ∙ ap (λ b. bool_count b + faults s.calls)
          (sym (or_false (is_icv_uninitialized (map_get m i))))

  pub checked-faulted :
      (op : Rw) (b : Bool) (m : IcvMap) (i : ℕ) (s : Machine)
      → s.icv_enabled ≡ true
      → faulting o op ≡ true
      → (checked o op b m i s).faulted ≡ fails op b m i
  unfolding checked settled finished fails
  checked-faulted write true m i s en on = report-faulted o write _ en on
  checked-faulted write false m i s en on = refl
  checked-faulted read true m i s en on =
      report-faulted o read _ en on ∙ sym (or_true (is_icv_uninitialized (map_get m i)))
  checked-faulted read false m i s en on =
      uninitialized-faulted (is_icv_uninitialized (map_get m i)) (settled o read false s) en on refl
      ∙ sym (or_false (is_icv_uninitialized (map_get m i)))

pub fails-Agrees :
    (op : Rw) (m m' : IcvMap) (i ca : ℕ)
    → Agrees op m m'
    → fails op (mismatch m' i ca) m' i ≡ fails op (mismatch m i ca) m i
unfolding fails Agrees mismatch
fails-Agrees read m m' i ca h = ap (λ x. fails read (mismatch x i ca) x i) h
fails-Agrees write m m' i ca h = ap (λ x. not (icv_addr (this_icv ca) == x)) (h i)

-- `icv_initialize` of the entry keeps its address.
initialized-Agrees :
    (m : IcvMap) (i j : ℕ)
    → IsWf m
    → icv_addr (map_get (map_set m i (icv_initialize (map_get m i))) j) ≡ icv_addr (map_get m j)
initialized-Agrees m i j wf =
    ap icv_addr (map_get-map_set m i j (icv_initialize (map_get m i)) wf)
    ∙ same_addr (ℕ_discrete j i)
  where
    same_addr :
        Dec (j ≡ i)
        → icv_addr (if j == i then icv_initialize (map_get m i) else map_get m j)
          ≡ icv_addr (map_get m j)
    same_addr (yes e) =
        ap icv_addr (if_true _ (==_eq j i e))
        ∙ icv_addr-icv_initialize (map_get m i)
        ∙ ap (λ k. icv_addr (map_get m k)) (sym e)
    same_addr (no ne) = ap icv_addr (if_false _ (ne→== j i ne))

marked-Agrees : (op : Rw) (m : IcvMap) (i : ℕ) → IsWf m → Agrees op m (marked op m i)
unfolding Agrees marked
marked-Agrees read m i wf = refl
marked-Agrees write m i wf = λ j.
    elim (is_icv_preinit_enabled (map_get m i))
      as (λ b.
        icv_addr (map_get (if b then map_set m i (icv_initialize (map_get m i)) else m) j)
        ≡ icv_addr (map_get m j)) [ true ↦ initialized-Agrees m i j wf | false ↦ refl ]

marked-IsWf : (op : Rw) (m : IcvMap) (i : ℕ) → IsWf m → IsWf (marked op m i)
unfolding marked
marked-IsWf read m i wf = wf
marked-IsWf write m i wf =
    elim (is_icv_preinit_enabled (map_get m i))
      as (λ b. IsWf (if b then map_set m i (icv_initialize (map_get m i)) else m)) [
        | true ↦ map_set-IsWf m i _ wf
        | false ↦ wf
      ]

pub left_by-Agrees :
    (op : Rw) (b : Bool) (m : IcvMap) (i : ℕ) → IsWf m → Agrees op m (left_by op b m i)
unfolding left_by Agrees
left_by-Agrees read true m i wf = refl
left_by-Agrees write true m i wf = λ j. refl
left_by-Agrees op false m i wf = marked-Agrees op m i wf

pub left_by-IsWf : (op : Rw) (b : Bool) (m : IcvMap) (i : ℕ) → IsWf m → IsWf (left_by op b m i)
unfolding left_by
left_by-IsWf op true m i wf = wf
left_by-IsWf op false m i wf = marked-IsWf op m i wf
