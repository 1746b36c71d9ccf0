-- ===== src/Alloc/Tests.antt =====
-- The theorems on the quarantine at a concrete state: malloc/cc_malloc.c.
use c3_simulator.Common.{refl, some, ℕ, ◌+◌, ◌≡◌, ◌⊎◌, arith, true, false, [], ◌∷◌, ◌++◌}
use c3_simulator.Bipbip.Cipher.{PointerCipher, keyed}
use c3_simulator.Alloc.Heap.{cc_pre_real_free_clear_icv, HeapEnv, Allocator}
use c3_simulator.Alloc.Quarantine.{quarantine_insert}
use c3_simulator.Alloc.Release.{released}
use c3_simulator.Alloc.Free.{cc_free_encoded-cc_malloc_encoded}
use c3_simulator.Alloc.Entry.{cc_malloc_encoded, cc_free_encoded}
use c3_simulator.Bipbip.Caching.{keyed-IsCoherent}
use c3_simulator.Ca.Format.{is_encoded_cc_ptr}
use c3_simulator.Alloc.Queue.{IsWf, Enqueues, quarantine_insert-queue}

-- An allocator that hands out addresses by the size asked for.
abbrev test_env : HeapEnv
test_env = record {
  real_malloc = λ calls size. 0x7fff00001000 + size;
  malloc_usable_size = λ calls ptr. 24;
  cc_quarantine_enabled = true;
}

-- A state in which the next insertion fills a buffer.
abbrev nearly_full : Allocator
nearly_full = record {
  quarantine_buffers = λ b i. i;
  quarantine_current_buffer = 1;
  quarantine_current_index = 372;
  curr_version = 0;
  pointer_encoder = keyed [];
  calls = [];
}

nearly_full-IsWf : IsWf nearly_full
nearly_full-IsWf = record { index = omega arith; buffer = omega arith }

quarantine_insert-queue_example :
    ((true ≡ true) × Enqueues nearly_full (quarantine_insert test_env nearly_full 0x1000) 0x1000)
    ⊎ ((true ≡ false)
        × (released (quarantine_insert test_env nearly_full 0x1000).calls
            ≡ released [] ++ (0x1000 ∷ [])))
quarantine_insert-queue_example =
    quarantine_insert-queue test_env nearly_full 0x1000 nearly_full-IsWf

-- A state in which nothing has been allocated.
abbrev fresh : Allocator
fresh = record nearly_full { quarantine_current_buffer = 0; quarantine_current_index = 0 }

cc_free_encoded-cc_malloc_encoded_example :
    (ca : ℕ) × (s' : Allocator) × (c : PointerCipher) × (cc_malloc_encoded test_env fresh 20
      ≡ some (ca, s'))
    × (is_encoded_cc_ptr ca ≡ true)
    × (cc_free_encoded test_env s' ca
        ≡ some (
            quarantine_insert test_env
              (cc_pre_real_free_clear_icv test_env
                (record s' { pointer_encoder = c })
                0x7fff00001014)
              0x7fff00001014))
cc_free_encoded-cc_malloc_encoded_example =
    cc_free_encoded-cc_malloc_encoded test_env fresh 20 (keyed-IsCoherent [])
      (λ e. absurd (omega (arith, e))) (omega arith) (omega arith) refl
