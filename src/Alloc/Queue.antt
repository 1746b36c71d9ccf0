-- ===== src/Alloc/Queue.antt =====
-- The two quarantine buffers of malloc/cc_malloc.c are one queue that delays every free.
use c3_simulator.Common.{
  ℕ, zero, suc, ◌+◌, ◌≤◌, ◌<◌, ◌≡◌, ◌≢◌, refl, ap, ap₂, sym, subst, ◌∙◌, ◌⊎◌, inl, inr, arith, Bool,
  true, false, if◌then◌else◌, ◌==◌, List, [], ◌∷◌, ◌++◌, length, Bool-cases, ne→==, ==_refl, tests,
}
use mathlib.Core.List.{append-nil, append_assoc}
use c3_simulator.Alloc.Heap.{
  HeapEnv, Allocator, quarantine_depth, quarantine_width, cc_pre_real_free_clear_icv, real_free,
}
use c3_simulator.Alloc.Quarantine.{
  q_next, set_slot, quarantine_buffer_free, insert_enabled, quarantine_insert,
}
use c3_simulator.Alloc.Release.{
  released-freed, released, entries, entries-snoc, entries-cong, Frees, buffer_free_loop-Frees,
}

module _ (buffers : ℕ → ℕ → ℕ) (b i ptr : ℕ) where
  set_here : set_slot buffers b i ptr b i ≡ ptr
  set_here =
      ap₂ (λ x y. if x then (if y then ptr else buffers b i) else buffers b i) (==_refl b)
        (==_refl i)

  set_other_entry : (j : ℕ) → j ≢ i → set_slot buffers b i ptr b j ≡ buffers b j
  set_other_entry j ne =
      ap₂ (λ x y. if x then (if y then ptr else buffers b j) else buffers b j) (==_refl b)
        (ne→== j i ne)

  set_other_buffer : (c j : ℕ) → c ≢ b → set_slot buffers b i ptr c j ≡ buffers c j
  set_other_buffer c j ne =
      ap (λ x. if x then (if j == i then ptr else buffers c j) else buffers c j) (ne→== c b ne)

  filled : entries (set_slot buffers b i ptr b) 0 (suc i) ≡ entries (buffers b) 0 i ++ (ptr ∷ [])
  filled =
      entries-snoc (set_slot buffers b i ptr b) 0 i
      ∙ ap₂ (λ t x. t ++ (x ∷ []))
          (entries-cong (set_slot buffers b i ptr b) (buffers b) 0 i
            (λ j h. set_other_entry j (λ e. absurd (omega arith))))
          (ap (set_slot buffers b i ptr b) {x = 0 + i} {y = i} (omega arith) ∙ set_here)

  untouched : (c n : ℕ) → c ≢ b → entries (set_slot buffers b i ptr c) 0 n ≡ entries (buffers c) 0 n
  untouched c n ne =
      entries-cong (set_slot buffers b i ptr c) (buffers c) 0 n (λ j h. set_other_buffer c j ne)

pending_at : (ℕ → ℕ → ℕ) → ℕ → ℕ → List ℕ
pending_at buffers b i =
    entries (buffers (q_next b quarantine_width)) 0 quarantine_depth ++ entries (buffers b) 0 i

-- The pointers in quarantine, the oldest first: those of the other buffer, then those of the current
-- buffer up to the current index.
pub pending : Allocator → List ℕ
unfolding pending_at
pending s = pending_at s.quarantine_buffers s.quarantine_current_buffer s.quarantine_current_index

pub record IsWf (s : Allocator) : Type 0 where
  pub index : s.quarantine_current_index < quarantine_depth
  pub buffer : s.quarantine_current_buffer < quarantine_width

entries-zero : (f : ℕ → ℕ) (i : ℕ) → entries f i 0 ≡ []
unfolding entries
entries-zero f i = refl

length-entries : (f : ℕ → ℕ) (i n : ℕ) → length (entries f i n) ≡ n
unfolding entries
length-entries f i zero = refl
length-entries f i (suc n) = ap suc (length-entries f (i + 1) n)

length-append : (xs ys : List ℕ) → length (xs ++ ys) ≡ length xs + length ys
length-append [] ys = omega arith
length-append (x ∷ xs) ys = omega (arith, length-append xs ys)

length-pending :
    (s : Allocator) → length (pending s) ≡ quarantine_depth + s.quarantine_current_index
unfolding pending pending_at
length-pending s = omega (
  arith,
  length-append
      (entries (s.quarantine_buffers (q_next s.quarantine_current_buffer quarantine_width)) 0
        quarantine_depth)
      (entries (s.quarantine_buffers s.quarantine_current_buffer) 0 s.quarantine_current_index),
  length-entries (s.quarantine_buffers (q_next s.quarantine_current_buffer quarantine_width)) 0
      quarantine_depth,
  length-entries (s.quarantine_buffers s.quarantine_current_buffer) 0 s.quarantine_current_index,
)

length-pending_le : (s : Allocator) → quarantine_depth ≤ length (pending s)
length-pending_le s = omega (arith, length-pending s)

regroup : (r a b p : List ℕ) → r ++ (a ++ (b ++ p)) ≡ (r ++ (a ++ b)) ++ p
regroup r a b p = ap (λ t. r ++ t) (sym (append_assoc a b p)) ∙ sym (append_assoc r (a ++ b) p)

-- `ptr` joins the queue of all pointers, released and pending, and at least as many as one buffer
-- holds are pending.
pub record Enqueues (s s' : Allocator) (ptr : ℕ) : Type 0 where
  pub wf : IsWf s'
  pub order : released s'.calls ++ pending s' ≡ (released s.calls ++ pending s) ++ (ptr ∷ [])
  pub delay : quarantine_depth ≤ length (pending s')

module _ (env : HeapEnv) (s : Allocator) (ptr : ℕ) (wf : IsWf s) where
  abbrev b : ℕ
  b = s.quarantine_current_buffer

  abbrev i : ℕ
  i = s.quarantine_current_index

  abbrev other : ℕ
  other = q_next b quarantine_width

  abbrev buffers : ℕ → ℕ → ℕ
  buffers = set_slot s.quarantine_buffers b i ptr

  abbrev stored : Allocator
  stored = record s {
    quarantine_buffers = buffers;
    quarantine_current_index = q_next i quarantine_depth;
  }

  abbrev moved : Allocator
  moved = record stored { quarantine_current_buffer = other }

  apart : other ≢ b
  apart e = absurd (omega (arith, wf.buffer, e))

  other_entries :
      entries (buffers other) 0 quarantine_depth
      ≡ entries (s.quarantine_buffers other) 0 quarantine_depth
  other_entries = untouched s.quarantine_buffers b i ptr other quarantine_depth apart

  here_entries :
      (n : ℕ)
      → n ≡ suc i
      → entries (buffers b) 0 n ≡ entries (s.quarantine_buffers b) 0 i ++ (ptr ∷ [])
  here_entries n e = ap (entries (buffers b) 0) e ∙ filled s.quarantine_buffers b i ptr

  stored-Enqueues : suc i < quarantine_depth → Enqueues s stored ptr
  unfolding pending pending_at
  stored-Enqueues room = record {
    wf = record { index = omega arith; buffer = wf.buffer };
    order =
        ap₂ (λ x y. released s.calls ++ (x ++ y)) other_entries
          (here_entries (q_next i quarantine_depth) (omega arith))
        ∙ regroup (released s.calls) (entries (s.quarantine_buffers other) 0 quarantine_depth)
            (entries (s.quarantine_buffers b) 0 i) (ptr ∷ []);
    delay = length-pending_le stored;
  }

  turned : Allocator
  turned = quarantine_buffer_free env moved other

  turned-Frees : Frees (entries (buffers other) 0 quarantine_depth) moved turned
  unfolding turned quarantine_buffer_free
  turned-Frees = buffer_free_loop-Frees env other quarantine_depth 0 moved

  pending-full :
      suc i ≡ quarantine_depth
      → pending_at buffers other 0 ≡ entries (s.quarantine_buffers b) 0 i ++ (ptr ∷ [])
  unfolding pending_at
  pending-full full =
      ap₂ (λ x y. x ++ y)
        (ap (λ c. entries (buffers c) 0 quarantine_depth) {x = q_next other quarantine_width}
            {y = b} (omega (arith, wf.buffer))
          ∙ here_entries quarantine_depth (sym full))
        (entries-zero (buffers other) 0)
      ∙ append-nil (entries (s.quarantine_buffers b) 0 i ++ (ptr ∷ []))

  pending-turned :
      suc i ≡ quarantine_depth → pending turned ≡ entries (s.quarantine_buffers b) 0 i ++ (ptr ∷ [])
  unfolding pending
  pending-turned full =
      ap₂ (λ f c. pending_at f c turned.quarantine_current_index) turned-Frees.buffers
        turned-Frees.buffer
      ∙ ap (pending_at buffers other) (turned-Frees.index ∙ omega (arith, full))
      ∙ pending-full full

  turned-Enqueues : suc i ≡ quarantine_depth → Enqueues s turned ptr
  unfolding pending pending_at
  turned-Enqueues full = record {
    wf = record {
      index = omega (arith, turned-Frees.index, full);
      buffer = omega (arith, turned-Frees.buffer);
    };
    order =
        ap₂ (λ x y. x ++ y) (turned-Frees.order ∙ ap (λ t. released s.calls ++ t) other_entries)
          (pending-turned full)
        ∙ append_assoc (released s.calls) (entries (s.quarantine_buffers other) 0 quarantine_depth)
            (entries (s.quarantine_buffers b) 0 i ++ (ptr ∷ []))
        ∙ regroup (released s.calls) (entries (s.quarantine_buffers other) 0 quarantine_depth)
            (entries (s.quarantine_buffers b) 0 i) (ptr ∷ []);
    delay = length-pending_le turned;
  }

  pub insert_enabled-Enqueues : Enqueues s (insert_enabled env s ptr) ptr
  unfolding insert_enabled turned
  insert_enabled-Enqueues = elim (Bool-cases (q_next i quarantine_depth == 0)) [
    | inl full ↦
        subst (λ c. Enqueues s (if c then turned else stored) ptr) (sym full)
          (turned-Enqueues (omega (tests, wf.index)))
    | inr room ↦
        subst (λ c. Enqueues s (if c then turned else stored) ptr) (sym room)
          (stored-Enqueues (omega (tests, wf.index)))
  ]

abbrev insert_if : HeapEnv → Allocator → ℕ → Bool → Allocator
insert_if env s ptr c =
    if c then insert_enabled env s ptr else real_free (cc_pre_real_free_clear_icv env s ptr) ptr

-- In a well-formed state, and with the quarantine enabled, inserting a pointer keeps the state
-- well-formed, puts the pointer at the end of the sequence of all released and pending pointers,
-- which otherwise stays as it is, and leaves at least 373 pointers pending; with the quarantine
-- disabled, the pointer is released at once and nothing else.
pub quarantine_insert-queue :
    (env : HeapEnv) (s : Allocator) (ptr : ℕ)
    → IsWf s
    → ((env.cc_quarantine_enabled ≡ true) × Enqueues s (quarantine_insert env s ptr) ptr)
      ⊎ ((env.cc_quarantine_enabled ≡ false)
          × (released (quarantine_insert env s ptr).calls ≡ released s.calls ++ (ptr ∷ [])))
unfolding quarantine_insert
quarantine_insert-queue env s ptr wf = elim (Bool-cases env.cc_quarantine_enabled) [
  | inl on ↦ inl (
    on,
    subst (λ c. Enqueues s (insert_if env s ptr c) ptr) (sym on)
        (insert_enabled-Enqueues env s ptr wf),
  )
  | inr off ↦
      inr (off, ap (λ c. released (insert_if env s ptr c).calls) off ∙ released-freed env s ptr)
]
