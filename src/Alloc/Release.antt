-- ===== src/Alloc/Release.antt =====
-- What `quarantine_buffer_free` of malloc/cc_malloc.c does to the state.
use c3_simulator.Common.{
  ℕ, zero, suc, ◌+◌, ◌<◌, ◌≡◌, refl, ap, ap₂, sym, ◌∙◌, arith, Bool, true, false, if◌then◌else◌,
  List, [], ◌∷◌, ◌++◌,
}
use mathlib.Core.List.{append-nil, append_assoc}
use c3_simulator.Ca.Format.{is_encoded_cc_ptr}
use c3_simulator.Alloc.Heap.{
  HeapCall, real_freed, allocated, icv_set, icv_set_and_zeroed, byte_copied, HeapEnv, Allocator,
  log, cc_pre_real_free_clear_icv, real_free,
}
use c3_simulator.Alloc.Quarantine.{buffer_free_loop}

-- The pointers that have been given to REAL_FREE, in order.
pub released : List HeapCall → List ℕ
released [] = []
released (real_freed ptr ∷ calls) = ptr ∷ released calls
released (allocated size ptr ∷ calls) = released calls
released (icv_set ptr size ∷ calls) = released calls
released (icv_set_and_zeroed ptr size ∷ calls) = released calls
released (byte_copied dst src ∷ calls) = released calls

released-append : (xs ys : List HeapCall) → released (xs ++ ys) ≡ released xs ++ released ys
unfolding released
released-append [] ys = refl
released-append (real_freed ptr ∷ xs) ys = ap (λ t. ptr ∷ t) (released-append xs ys)
released-append (allocated size ptr ∷ xs) ys = released-append xs ys
released-append (icv_set ptr size ∷ xs) ys = released-append xs ys
released-append (icv_set_and_zeroed ptr size ∷ xs) ys = released-append xs ys
released-append (byte_copied dst src ∷ xs) ys = released-append xs ys

-- The `n` entries of a buffer from entry `i` on.
unfoldable pub entries : (ℕ → ℕ) → ℕ → ℕ → List ℕ
entries f i zero = []
entries f i (suc n) = f i ∷ entries f (i + 1) n

pub entries-snoc : (f : ℕ → ℕ) (i n : ℕ) → entries f i (suc n) ≡ entries f i n ++ (f (i + n) ∷ [])
unfolding entries
entries-snoc f i zero = ap (λ t. f t ∷ []) {x = i} {y = i + 0} (omega arith)
entries-snoc f i (suc n) =
    ap (λ t. f i ∷ t)
      (entries-snoc f (i + 1) n
        ∙ ap (λ t. entries f (i + 1) n ++ (f t ∷ [])) {x = i + 1 + n} {y = i + suc n} (omega arith))

pub entries-cong :
    (f g : ℕ → ℕ) (i n : ℕ) → ((j : ℕ) → j < i + n → f j ≡ g j) → entries f i n ≡ entries g i n
unfolding entries
entries-cong f g i zero same = refl
entries-cong f g i (suc n) same =
    ap₂ (λ a t. a ∷ t) (same i (omega arith))
      (entries-cong f g (i + 1) n (λ j h. same j (omega arith)))

module _ (env : HeapEnv) (s : Allocator) (ptr : ℕ) where
  cleared : Bool → Allocator
  cleared b = if b then s else log s (icv_set ptr (env.malloc_usable_size s.calls ptr))

  released-cleared : (b : Bool) → released (cleared b).calls ≡ released s.calls
  unfolding cleared released
  released-cleared true = refl
  released-cleared false =
      released-append s.calls (icv_set ptr (env.malloc_usable_size s.calls ptr) ∷ [])
      ∙ append-nil (released s.calls)

  same_buffers : (b : Bool) → (cleared b).quarantine_buffers ≡ s.quarantine_buffers
  unfolding cleared
  same_buffers true = refl
  same_buffers false = refl

  same_index : (b : Bool) → (cleared b).quarantine_current_index ≡ s.quarantine_current_index
  unfolding cleared
  same_index true = refl
  same_index false = refl

  same_buffer : (b : Bool) → (cleared b).quarantine_current_buffer ≡ s.quarantine_current_buffer
  unfolding cleared
  same_buffer true = refl
  same_buffer false = refl

  abbrev freed : Allocator
  freed = real_free (cc_pre_real_free_clear_icv env s ptr) ptr

  pub released-freed : released freed.calls ≡ released s.calls ++ (ptr ∷ [])
  unfolding released cc_pre_real_free_clear_icv cleared
  released-freed =
      released-append (cc_pre_real_free_clear_icv env s ptr).calls (real_freed ptr ∷ [])
      ∙ ap (λ t. t ++ (ptr ∷ [])) (released-cleared (is_encoded_cc_ptr ptr))

  freed-buffers : freed.quarantine_buffers ≡ s.quarantine_buffers
  unfolding cc_pre_real_free_clear_icv cleared
  freed-buffers = same_buffers (is_encoded_cc_ptr ptr)

  freed-index : freed.quarantine_current_index ≡ s.quarantine_current_index
  unfolding cc_pre_real_free_clear_icv cleared
  freed-index = same_index (is_encoded_cc_ptr ptr)

  freed-buffer : freed.quarantine_current_buffer ≡ s.quarantine_current_buffer
  unfolding cc_pre_real_free_clear_icv cleared
  freed-buffer = same_buffer (is_encoded_cc_ptr ptr)

-- What freeing entries of a buffer does to a state: their pointers are released in order, and the
-- buffers and their positions stay.
pub record Frees (list : List ℕ) (s s' : Allocator) : Type 0 where
  pub order : released s'.calls ≡ released s.calls ++ list
  pub buffers : s'.quarantine_buffers ≡ s.quarantine_buffers
  pub index : s'.quarantine_current_index ≡ s.quarantine_current_index
  pub buffer : s'.quarantine_current_buffer ≡ s.quarantine_current_buffer

pub buffer_free_loop-Frees :
    (env : HeapEnv) (b n i : ℕ) (s : Allocator)
    → Frees (entries (s.quarantine_buffers b) i n) s (buffer_free_loop env b n i s)
unfolding buffer_free_loop entries
buffer_free_loop-Frees env b zero i s = record {
  order = sym (append-nil (released s.calls));
  buffers = refl;
  index = refl;
  buffer = refl;
}
buffer_free_loop-Frees env b (suc n) i s =
    let ptr = s.quarantine_buffers b i in
    let rest = buffer_free_loop-Frees env b n (i + 1) (freed env s ptr) in
    record {
      order =
          rest.order
          ∙ ap₂ (λ t u. t ++ u) (released-freed env s ptr)
              (ap (λ f. entries (f b) (i + 1) n) (freed-buffers env s ptr))
          ∙ append_assoc (released s.calls) (ptr ∷ []) (entries (s.quarantine_buffers b) (i + 1) n);
      buffers = rest.buffers ∙ freed-buffers env s ptr;
      index = rest.index ∙ freed-index env s ptr;
      buffer = rest.buffer ∙ freed-buffer env s ptr;
    }
