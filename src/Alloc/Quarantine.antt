-- ===== src/Alloc/Quarantine.antt =====
-- The quarantine buffers of malloc/cc_malloc.c.
use c3_simulator.Common.{ℕ, zero, suc, ◌+◌, ◌%◌, if◌then◌else◌, ◌==◌}
use c3_simulator.Alloc.Heap.{
  HeapEnv, Allocator, quarantine_depth, quarantine_width, cc_pre_real_free_clear_icv, real_free,
}

abbrev pub q_next : ℕ → ℕ → ℕ
q_next idx max = (idx + 1) % max

abbrev pub set_slot : (ℕ → ℕ → ℕ) → ℕ → ℕ → ℕ → ℕ → ℕ → ℕ
set_slot buffers b i ptr b' i' =
    if b' == b then (if i' == i then ptr else buffers b' i') else buffers b' i'

-- The loop of `quarantine_buffer_free` with `left` turns to go.
unfoldable pub buffer_free_loop : HeapEnv → ℕ → ℕ → ℕ → Allocator → Allocator
buffer_free_loop env buf_index zero i s = s
buffer_free_loop env buf_index (suc left) i s =
    let ptr = s.quarantine_buffers buf_index i in
    buffer_free_loop env buf_index left (i + 1)
      (real_free (cc_pre_real_free_clear_icv env s ptr) ptr)

unfoldable pub quarantine_buffer_free : HeapEnv → Allocator → ℕ → Allocator
quarantine_buffer_free env s buf_index = buffer_free_loop env buf_index quarantine_depth 0 s

-- `quarantine_insert` once the quarantine is enabled.
unfoldable pub insert_enabled : HeapEnv → Allocator → ℕ → Allocator
insert_enabled env s ptr =
    let next_index = q_next s.quarantine_current_index quarantine_depth in
    let next_buffer = q_next s.quarantine_current_buffer quarantine_width in
    let stored = record s {
      quarantine_buffers =
          set_slot s.quarantine_buffers s.quarantine_current_buffer s.quarantine_current_index ptr;
      quarantine_current_index = next_index;
    } in
    if next_index == 0
    then quarantine_buffer_free env (record stored { quarantine_current_buffer = next_buffer })
        next_buffer
    else stored

unfoldable pub quarantine_insert : HeapEnv → Allocator → ℕ → Allocator
quarantine_insert env s ptr =
    if env.cc_quarantine_enabled
    then insert_enabled env s ptr
    else real_free (cc_pre_real_free_clear_icv env s ptr) ptr
