-- ===== src/Alloc/Heap.antt =====
-- The state of malloc/cc_malloc.c and its calls of the allocator below it. The build is that of
-- c3lib/c3/generic/defines.h for x86: CC_ICV_ENABLE and USE_CC_ISA are set, CC_DETECT_1B_OVF and
-- CC_ARCH_NOT_SUPPORT_MEMORY_ACCESS are not.
use c3_simulator.Common.{ℕ, ◌+◌, ◌%◌, ◌^◌, Bool, if◌then◌else◌, List, [], ◌∷◌, ◌++◌, u8}
use c3_simulator.Bipbip.Cipher.{PointerCipher}
use c3_simulator.Ca.Format.{PtrMetadata, is_encoded_cc_ptr}

-- What the code asks of its surroundings, in the order of the calls.
pub data HeapCall : Type 0 where
  allocated : ℕ → ℕ → HeapCall
  real_freed : ℕ → HeapCall
  icv_set : ℕ → ℕ → HeapCall
  icv_set_and_zeroed : ℕ → ℕ → HeapCall
  byte_copied : ℕ → ℕ → HeapCall

-- REAL_MALLOC and MALLOC_USABLE_SIZE, which may depend on all calls so far, and the switch
-- `cc_quarantine_enabled`. A null pointer is 0.
pub record HeapEnv : Type 0 where
  pub real_malloc : List HeapCall → ℕ → ℕ
  pub malloc_usable_size : List HeapCall → ℕ → ℕ
  pub cc_quarantine_enabled : Bool

pub record Allocator : Type 0 where
  pub quarantine_buffers : ℕ → ℕ → ℕ
  pub quarantine_current_buffer : ℕ
  pub quarantine_current_index : ℕ
  pub curr_version : ℕ
  pub pointer_encoder : PointerCipher
  pub calls : List HeapCall

abbrev pub quarantine_depth : ℕ
quarantine_depth = 373

abbrev pub quarantine_width : ℕ
quarantine_width = 2

abbrev pub log : Allocator → HeapCall → Allocator
log s call = record s { calls = s.calls ++ (call ∷ []) }

-- The call returns `ptr`, which it does not change in this build.
unfoldable pub cc_pre_real_free_clear_icv : HeapEnv → Allocator → ℕ → Allocator
cc_pre_real_free_clear_icv env s ptr =
    if is_encoded_cc_ptr ptr then s else log s (icv_set ptr (env.malloc_usable_size s.calls ptr))

abbrev pub real_free : Allocator → ℕ → Allocator
real_free s ptr = log s (real_freed ptr)

-- The metadata with the version, and the next version in a uint8_t.
unfoldable pub assign_version : Allocator → PtrMetadata → PtrMetadata × Allocator
assign_version s md = (
  record md { version = s.curr_version },
  record s { curr_version = u8 ((s.curr_version + 1) % 2 ^ 9) },
)
