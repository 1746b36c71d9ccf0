-- ===== src/LimModel/Logical.antt =====
-- The callback on a memory access of modules/lim_model/model.cpp, where `data_disp` is set, against a
-- memory from which the metadata is hidden.
use c3_simulator.Common.{
  ℕ, suc, ◌+◌, ◌≤◌, ◌<◌, ◌≡◌, refl, ap, sym, ◌∙◌, arith, true, false, Option, none, some, List,
  ◌++◌, length, ◌⊎◌, inl, inr, add64, sub64, subst,
}
use c3_simulator.Base.Access.{PageCrossing}
use c3_simulator.Data.Countermode.{take, drop}
use c3_simulator.Data.Stream.{AreBytes}
use c3_simulator.Integrity.Machine.{read, write}
use c3_simulator.LimModel.State.{LimSimulator, LimOptions, LimState, done, run_true}
use c3_simulator.LimModel.Access.{overlap, displace}
use c3_simulator.LimModel.Callback.{reset_flags, modify_data_on_mem_access}
use c3_simulator.LimModel.Bytes.{
  bytes_at, overlay, append-AreBytes, take-AreBytes, drop-AreBytes, bytes_at-AreBytes,
  length-bytes_at,
}
use c3_simulator.LimModel.Mapped.{IsMapped}
use c3_simulator.LimModel.Views.{view, Holds, settled}
use c3_simulator.LimModel.Places.{
  displaced_base, IsOverlap, data_address_small, data_address, read_plain, write_plain, meta_plain,
}
use c3_simulator.LimModel.Spliced.{write_data, write_meta}
use c3_simulator.LimModel.Displaced.{Fits, overlap_lem, displace_read, displace_write}
use c3_simulator.LimModel.Refines.{
  or_given, with_bytes, crossed, callback_lem, reset_memory, crossed-Fits, displace-none,
  overlap_cases,
}

-- The byte at an address as the program sees it.
abbrev pub logical : {sim : LimSimulator} → IsMapped sim → LimState sim → sim.Memory → ℕ → ℕ
logical i s m x = view i m (data_address s.la_meta s.meta_size s.dec_meta.upper_la x)

module _ {sim : LimSimulator} (i : IsMapped sim) (o : LimOptions) (fuel la : ℕ)
    (crossing : PageCrossing) (traced : o.trace_only ≡ false) (disp : o.data_disp ≡ true) where
  -- On a simulator that maps the addresses below 2^56 and reads back what it has written, outside a
  -- trace, with displaced data, a read through an encoded pointer of 1 to 64 bytes that starts at
  -- the lower bound or after it and ends at least as far below the upper bound as the metadata is
  -- long, with metadata of one byte at least, and it and the upper bound below 2^56 - 1, returns,
  -- leaves memory alone, and gives the program each byte from the place of its data.
  pub read_logical :
      (n : ℕ) (s : LimState sim)
      → Fits la n s
      → (r : Option (List ℕ)) × (t : LimState sim) × (modify_data_on_mem_access sim o
            (suc fuel)
            la
            (with_bytes (bytes_at (view i s.memory) la n))
            crossing
            read
            s
          ≡ done r t)
        × (or_given r (bytes_at (view i s.memory) la n) ≡ bytes_at (logical i s s.memory) la n)
        × (t.memory ≡ s.memory)
  read_logical n s h =
      let given : List ℕ = bytes_at (view i s.memory) la n in
      let same : length given ≡ n = length-bytes_at (view i s.memory) la n in
      let h' = crossed-Fits crossing la n s h in
      let given_fits : Fits la (length given) s = subst (λ k. Fits la k s) (sym same) h in
      let (lm, ms, upper) : ℕ × ℕ × ℕ = (s.la_meta, s.meta_size, s.dec_meta.upper_la) in
      elim (overlap_cases la n s) [
        | inl out ↦ (
          none,
          reset_flags (crossed crossing s),
          callback_lem o (suc fuel) la crossing traced read given s _ _ given_fits (
              run_true _ _ _ disp
              ∙ ap
                  (λ k.
                    displace sim o (suc fuel) la (sub64 (add64 la k) 1) given read
                      (crossed crossing s))
                  same
              ∙ displace-none o (suc fuel) la n given read _ h' out),
          read_plain s.la_meta s.meta_size s.dec_meta.upper_la la (view i s.memory) n out,
          reset_memory _,
        )
        | inr (before, after) ↦ (
          some (bytes_at (logical i s s.memory) la n),
          reset_flags (settled i (crossed crossing s)),
          callback_lem o (suc fuel) la crossing traced read given s _ _ given_fits (
              run_true _ _ _ disp
              ∙ ap
                  (λ k.
                    displace sim o (suc fuel) la (sub64 (add64 la k) 1) given read
                      (crossed crossing s))
                  same
              ∙ displace_read o fuel la n _ h' before after i),
          refl,
          reset_memory _,
        )
      ]

  module _ (store : sim.Memory → ℕ → List ℕ → sim.Memory)
      (stores : (m : sim.Memory) (p : ℕ) (b : List ℕ)
        → AreBytes b
        → Holds i m p b (store m p b)) where
    -- The data after a write, at an address `x`, and the metadata, at an address `y`.
    abbrev Kept : ℕ → ℕ → List ℕ → LimState sim → sim.Memory → Type 0
    Kept x y bytes s m =
        (logical i s m x ≡ overlay (logical i s s.memory) la bytes x)
        × (view i m y ≡ view i s.memory y)

    kept_plain :
        (x y : ℕ) (bytes : List ℕ) (s : LimState sim)
        → AreBytes bytes
        → Fits la (length bytes) s
        → (la + length bytes ≤ s.la_meta ⊎ s.la_meta + s.meta_size ≤ la)
        → x + s.meta_size ≤ s.dec_meta.upper_la
        → s.la_meta ≤ y
        → y < s.la_meta + s.meta_size
        → Kept x y bytes s (store s.memory la bytes)
    unfolding Holds
    kept_plain x y bytes s are_bytes h out hx low high =
        let (lm, ms, upper) : ℕ × ℕ × ℕ = (s.la_meta, s.meta_size, s.dec_meta.upper_la) in
        let f : ℕ → ℕ = view i s.memory in
        (
          stores s.memory la bytes are_bytes _
                (omega (arith, h.top, data_address_small lm ms upper x hx))
              ∙ write_plain lm ms upper la f bytes out h.upper x,
          stores s.memory la bytes are_bytes y (omega (arith, high, h.meta_top))
              ∙ meta_plain lm ms upper la f bytes out y low high,
        )

    kept_displaced :
        (x y : ℕ) (bytes : List ℕ) (s : LimState sim) (off start amt : ℕ) (m : sim.Memory)
        → AreBytes bytes
        → (h : Fits la (length bytes) s)
        → IsOverlap la (length bytes) s.la_meta s.meta_size off start amt
        → Holds i s.memory
            (displaced_base s.la_meta s.meta_size s.dec_meta.upper_la + start)
            (take amt (drop off bytes))
            m
        → s.la_meta + s.meta_size ≤ s.dec_meta.upper_la + 1
        → x + s.meta_size ≤ s.dec_meta.upper_la
        → s.la_meta ≤ y
        → y < s.la_meta + s.meta_size
        → let fixup : List ℕ =
            take off bytes
            ++ (bytes_at (view i s.memory) (la + off) amt ++ drop (off + amt) bytes) in
          Kept x y bytes s (store m la fixup)
    unfolding Holds
    kept_displaced x y bytes s off start amt m are_bytes h over holds room hx low high =
        let (lm, ms, upper) : ℕ × ℕ × ℕ = (s.la_meta, s.meta_size, s.dec_meta.upper_la) in
        let f : ℕ → ℕ = view i s.memory in
        let fixup : List ℕ =
          take off bytes ++ (bytes_at f (la + off) amt ++ drop (off + amt) bytes) in
        let fixup_bytes : AreBytes fixup =
          append-AreBytes (take off bytes) _ (take-AreBytes off bytes are_bytes) (
            append-AreBytes (bytes_at f (la + off) amt) _
              (bytes_at-AreBytes f (λ z. i.byte-lt s.memory (i.pa z)) (la + off) amt)
              (drop-AreBytes (off + amt) bytes are_bytes)) in
        let stored : Holds i m la fixup (store m la fixup) = stores m la fixup fixup_bytes in
        (
          write_data lm ms upper la off start amt bytes over h.upper h.top f (view i m)
              (view i (store m la fixup)) holds stored x hx,
          write_meta lm ms upper la off start amt bytes over h.upper h.top f (view i m)
              (view i (store m la fixup)) holds stored room y low high,
        )

    -- Displaced data is a memory without the metadata, of which the processor stores what the
    -- callback returns: on a simulator that maps the addresses below 2^56 and reads back what it
    -- has written, outside a trace, after a write through an encoded pointer of 1 to 64 bytes that
    -- starts at the lower bound or after it and ends at least as far below the upper bound as the
    -- metadata is long, with metadata of one byte at least, and it and the upper bound below 2^56 -
    -- 1, the callback returns, the data at every address up to that limit is that of the write
    -- where it reaches and as before elsewhere, and every byte of the metadata is as before.
    pub write_logical :
        (x y : ℕ) (bytes : List ℕ) (s : LimState sim)
        → AreBytes bytes
        → Fits la (length bytes) s
        → x + s.meta_size ≤ s.dec_meta.upper_la
        → s.la_meta ≤ y
        → y < s.la_meta + s.meta_size
        → (r : Option (List ℕ)) × (t : LimState sim) × (modify_data_on_mem_access sim o
              (suc fuel)
              la
              (with_bytes bytes)
              crossing
              write
              s
            ≡ done r t)
          × (logical i s (store t.memory la (or_given r bytes)) x
              ≡ overlay (logical i s s.memory) la bytes x)
          × (view i (store t.memory la (or_given r bytes)) y ≡ view i s.memory y)
    write_logical x y bytes s are_bytes h hx low high =
        let h' = crossed-Fits crossing la (length bytes) s h in
        elim (overlap_cases la (length bytes) s) [
          | inl out ↦
              let t = crossed crossing s in
              let moved : (reset_flags t).memory ≡ s.memory = reset_memory t in
              let kept : Kept x y bytes s (store (reset_flags t).memory la bytes) =
                subst (λ m. Kept x y bytes s (store m la bytes)) (sym moved)
                  (kept_plain x y bytes s are_bytes h out hx low high) in
              (
                none,
                reset_flags t,
                callback_lem o (suc fuel) la crossing traced write bytes s _ _ h (
                    run_true _ _ _ disp
                    ∙ displace-none o (suc fuel) la (length bytes) bytes write _ h' out),
                kept.0,
                kept.1,
              )
          | inr (before, after) ↦
              let (m, e, holds) =
                displace_write o fuel la (length bytes) (crossed crossing s) h' before after i bytes
                  are_bytes refl in
              let over =
                overlap_lem o fuel la (length bytes) (crossed crossing s) h' before after in
              let t : LimState sim = record (settled i (crossed crossing s)) { memory = m } in
              let moved : (reset_flags t).memory ≡ m = reset_memory t in
              let fixup : List ℕ =
                let d =
                  overlap sim o (suc fuel) la (sub64 (add64 la (length bytes)) 1)
                    (crossed crossing s) in
                take d.disp_off bytes
                ++ (bytes_at (view i s.memory) (la + d.disp_off) d.disp_amt
                    ++ drop (d.disp_off + d.disp_amt) bytes) in
              let kept : Kept x y bytes s (store (reset_flags t).memory la fixup) =
                subst (λ m'. Kept x y bytes s (store m' la fixup)) (sym moved)
                  (kept_displaced x y bytes s _ _ _ m are_bytes h over holds
                    (omega (arith, h.upper, before)) hx low high) in
              (
                some fixup,
                reset_flags t,
                callback_lem o (suc fuel) la crossing traced write bytes s _ _ h
                    (run_true _ _ _ disp ∙ e),
                kept.0,
                kept.1,
              )
        ]
