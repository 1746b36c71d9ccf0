-- ===== src/Alloc/Entry.antt =====
-- malloc, calloc, realloc and free of malloc/cc_malloc.c. `none` is a failed assertion.
use c3_simulator.Common.{
  ℕ, ◌^◌, zero, suc, ◌+◌, ◌*◌, Bool, true, false, not, ◌&&◌, ◌||◌, if◌then◌else◌, ◌==◌, ltb, Option,
  none, some, ◌>>=◌, assert◌then◌, u64, add64,
}
use c3_simulator.Ca.Format.{PtrMetadata, is_encoded_cc_ptr, get_size_in_bytes}
use c3_simulator.Ca.Boxing.{try_box}
use c3_simulator.Ca.Encoding.{encode_pointer, decode_pointer}
use c3_simulator.Alloc.Heap.{
  allocated, icv_set, icv_set_and_zeroed, byte_copied, HeapEnv, Allocator, log,
  cc_pre_real_free_clear_icv, real_free, assign_version,
}
use c3_simulator.Alloc.Quarantine.{quarantine_insert}

-- The pointer and its encoding under the metadata of `try_box`, or the pointer itself.
unfoldable pub encode_if_boxed : Allocator → ℕ → Option PtrMetadata → Option (ℕ × Allocator)
encode_if_boxed s ptr none = some (ptr, s)
encode_if_boxed s ptr (some md) = do
  let versioned = assign_version s md
  (p_encoded, c) ← encode_pointer s.pointer_encoder ptr versioned.0
  some (p_encoded, record versioned.1 { pointer_encoder = c })

-- `cc_setup_icv_for_alloc`
unfoldable pub setup_icv_for_alloc : Allocator → ℕ → ℕ → Bool → Allocator
setup_icv_for_alloc s p_encoded usable_size zeroed =
    if zeroed
    then log s (icv_set_and_zeroed p_encoded usable_size)
    else log s (icv_set p_encoded usable_size)

-- What malloc, calloc and realloc share: the real allocation, its boxing and its ICVs. The pointer 0
-- is the result of a failed allocation.
unfoldable pub allocate : HeapEnv → Allocator → ℕ → Bool → Option (ℕ × Allocator)
allocate env s size zeroed =
    let ptr = env.real_malloc s.calls size in
    let s1 = log s (allocated size ptr) in
    let malloc_size = env.malloc_usable_size s1.calls ptr in
    if ptr == 0 then some (0, s1) else (do
      (p_encoded, s2) ←
          encode_if_boxed s1 ptr
            (try_box ptr malloc_size (record { size = 0; version = 0; adjust = 0 }))
      some (p_encoded, setup_icv_for_alloc s2 p_encoded malloc_size zeroed))

unfoldable pub cc_malloc_encoded : HeapEnv → Allocator → ℕ → Option (ℕ × Allocator)
cc_malloc_encoded env s size = allocate env s size false

unfoldable pub cc_calloc_encoded : HeapEnv → Allocator → ℕ → ℕ → Option (ℕ × Allocator)
cc_calloc_encoded env s num size = allocate env s (u64 (num * size)) true

abbrev pub min_size : ℕ → ℕ → ℕ
min_size a b = if ltb a b then a else b

-- `cc_isa_decptr` on a CA, the pointer itself otherwise.
unfoldable pub decode_if_encoded : Allocator → ℕ → Option (ℕ × Allocator)
decode_if_encoded s p =
    if is_encoded_cc_ptr p
    then (do
      (ptr, c) ← decode_pointer s.pointer_encoder p
      some (ptr, record s { pointer_encoder = c }))
    else some (p, s)

-- The bytes that the old allocation may hold.
unfoldable pub old_size : HeapEnv → Allocator → ℕ → ℕ → ℕ
old_size env s p_old_encoded p_old_decoded =
    let old_malloc_size = env.malloc_usable_size s.calls p_old_decoded in
    if is_encoded_cc_ptr p_old_encoded
    then min_size (get_size_in_bytes p_old_encoded) old_malloc_size
    else old_malloc_size

-- The turns of the loop below: its index is an `int`, which after 2^31 turns is negative and, as a
-- `size_t`, not below the size.
abbrev pub copy_turns : ℕ → ℕ
copy_turns size_to_copy = min_size size_to_copy (2 ^ 31)

-- The loop that copies the old bytes, with `left` turns to go.
unfoldable pub copy_loop : ℕ → ℕ → ℕ → ℕ → Allocator → Allocator
copy_loop dst src zero i s = s
copy_loop dst src (suc left) i s =
    copy_loop dst src left (i + 1) (log s (byte_copied (add64 dst i) (add64 src i)))

-- The end of realloc, from the new pointer on; without one, nothing is copied and nothing freed.
unfoldable pub finish_realloc : HeapEnv → Allocator → ℕ → ℕ → ℕ → ℕ → ℕ → Option (ℕ × Allocator)
finish_realloc env s p_old_encoded p_old_decoded p_new_decoded p_new_encoded size_to_copy =
    let copied = copy_loop p_new_encoded p_old_encoded (copy_turns size_to_copy) 0 s in
    let cleared = cc_pre_real_free_clear_icv env copied p_old_decoded in
    if p_new_decoded == 0
    then some (0, s)
    else (assert size_to_copy == 0 || (not (p_old_encoded == 0) && not (p_new_encoded == 0))
        then some (p_new_encoded, real_free cleared p_old_decoded))

unfoldable pub cc_realloc_encoded : HeapEnv → Allocator → ℕ → ℕ → Option (ℕ × Allocator)
cc_realloc_encoded env s p_old_encoded size = do
  (p_old_decoded, s1) ← decode_if_encoded s p_old_encoded
  let size_old = old_size env s1 p_old_encoded p_old_decoded
  let size_to_copy = min_size size size_old
  (p_new_encoded, s2) ← allocate env s1 size false
  finish_realloc env s2 p_old_encoded p_old_decoded (env.real_malloc s1.calls size) p_new_encoded
      size_to_copy

unfoldable pub cc_free_encoded : HeapEnv → Allocator → ℕ → Option Allocator
cc_free_encoded env s p_in = do
  (ptr, s1) ← decode_if_encoded s p_in
  some (quarantine_insert env (cc_pre_real_free_clear_icv env s1 ptr) ptr)
