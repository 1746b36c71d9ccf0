-- ===== src/LimModel/ShiftedWrite.antt =====
-- Shifted data: a write through the callback on a memory access of modules/lim_model/model.cpp, where
-- `data_disp` is not set, against a memory from which the metadata is cut out.
use c3_simulator.Common.{
  ℕ, suc, ◌+◌, ◌-◌, ◌^◌, ◌≤◌, ◌<◌, ◌≡◌, ap, sym, ◌∙◌, arith, true, false, ltb, leb, if_true,
  if_false, Option, none, some, List, ◌++◌, length, dec_lt, add64, sub64, subst,
}
use c3_simulator.Base.Access.{PageCrossing}
use c3_simulator.Data.Countermode.{take, drop}
use c3_simulator.Data.Stream.{AreBytes}
use c3_simulator.Integrity.Machine.{write}
use c3_simulator.LimModel.State.{LimSimulator, LimOptions, LimState, done, after_done, run_false}
use c3_simulator.LimModel.Memory.{min_uint64, translate_la_to_pa, write_to_linear_addr_crosspage}
use c3_simulator.LimModel.Callback.{
  reset_flags, shifted_after, shifted_over, shift, modify_data_on_mem_access,
}
use c3_simulator.LimModel.Bytes.{
  bytes_at, overlay, overlay_above, overlay_ext, length-drop, take-AreBytes, drop-AreBytes,
  append-AreBytes, bytes_at-AreBytes,
}
use c3_simulator.LimModel.Mapped.{IsMapped}
use c3_simulator.LimModel.Views.{view, Holds, settled, read_cross, write_cross}
use c3_simulator.LimModel.Displaced.{Fits}
use c3_simulator.LimModel.Refines.{
  or_given, with_bytes, crossed, callback_lem, reset_memory, crossed-Fits,
}
use c3_simulator.LimModel.Shifted.{
  shifted_address, before, past, shift_before, next_page, not_before, shifted_small,
}
use c3_simulator.LimModel.Moved.{moved_old, moved_after}
use c3_simulator.LimModel.Cut.{over_meta, moved_over}

module _ {sim : LimSimulator} (i : IsMapped sim) (o : LimOptions) (fuel la : ℕ) (bytes : List ℕ)
    (s : LimState sim) (h : Fits la (length bytes) s) (are_bytes : AreBytes bytes)
    (over : s.la_meta < la + length bytes) where
  abbrev last_byte : ℕ
  last_byte = sub64 (add64 la (length bytes)) 1

  write_after :
      s.la_meta ≤ la
      → let fixup =
          bytes_at (view i s.memory) la (min_uint64 (length bytes) s.meta_size)
          ++ take (length bytes - s.meta_size) bytes in
        (m : sim.Memory) × (shift sim o (suc fuel) la last_byte bytes write s
          ≡ done (some fixup) (record (settled i s) { memory = m }))
        × Holds i s.memory (la + s.meta_size) bytes m
  unfolding shift shifted_after
  write_after start =
      let after_start : leb s.la_meta la ≡ true = ground (arith, start) in
      let low : la + s.meta_size + length bytes < 2 ^ 56 = omega (arith, h.upper, h.top) in
      let kept = min_uint64 (length bytes) s.meta_size in
      let short : kept ≤ length bytes = ground arith in
      let (m, e, holds) =
        write_cross i fuel (la + s.meta_size) bytes (settled i s) are_bytes h.size_pos h.size_fits
          low in
      (
        m,
        if_true _ after_start
            ∙ after_done _ (
                run_false _ _ s (not_before i o fuel la (length bytes) s h over)
                ∙ next_page i o fuel la (length bytes) s h la (add64 last_byte s.meta_size) write
                    (shifted_small i o fuel la (length bytes) s h over))
            ∙ after_done _ (
                after_done _ (
                  read_cross i fuel la kept (settled i s) (omega (arith, short, h.size_fits))
                    (omega (arith, short, low)))
                ∙ after_done _ (
                    ap
                      (λ p.
                        write_to_linear_addr_crosspage sim (translate_la_to_pa sim (suc fuel)) p
                          bytes (settled i s))
                      {x = add64 la s.meta_size} (omega (arith, low))
                    ∙ e)),
        holds,
      )

  write_over :
      la < s.la_meta
      → s.meta_size ≤ 64
      → let split = s.la_meta - la in
        let fixup = take (length bytes) (
          take split bytes
          ++ (bytes_at (view i s.memory) s.la_meta s.meta_size ++ drop split bytes)) in
        (m : sim.Memory) × (shift sim o (suc fuel) la last_byte bytes write s
          ≡ done (some fixup) (record (settled i s) { memory = m }))
        × Holds i s.memory (s.la_meta + s.meta_size) (drop split bytes) m
  unfolding shift shifted_over
  write_over start small =
      let split = s.la_meta - la in
      let before_start : leb s.la_meta la ≡ false = ground (arith, start) in
      let part : ltb split (length bytes) ≡ true = ground (arith, start, over) in
      let low : la + length bytes + s.meta_size < 2 ^ 56 = omega (arith, h.upper, h.top) in
      let left = length-drop split bytes in
      let (m, e, holds) =
        write_cross i fuel (s.la_meta + s.meta_size) (drop split bytes) (settled i s)
          (drop-AreBytes split bytes are_bytes) (omega (arith, left, start, over))
          (omega (arith, left, h.size_fits)) (omega (arith, left, low, start, over)) in
      (
        m,
        if_false _ before_start
            ∙ if_false _ (not_before i o fuel la (length bytes) s h over)
            ∙ after_done _ (
                next_page i o fuel la (length bytes) s h la (add64 last_byte s.meta_size) write
                  (shifted_small i o fuel la (length bytes) s h over))
            ∙ after_done _ (if_true _ part)
            ∙ after_done _ (
                after_done _
                  (read_cross i fuel s.la_meta s.meta_size (settled i s) small h.meta_top)
                ∙ after_done _ (
                    ap
                      (λ p.
                        write_to_linear_addr_crosspage sim (translate_la_to_pa sim (suc fuel)) p
                          (drop split bytes) (settled i s))
                      {x = add64 s.la_meta s.meta_size} (omega (arith, low, over))
                    ∙ e)),
        holds,
      )

module _ {sim : LimSimulator} (i : IsMapped sim) (o : LimOptions) (fuel la : ℕ)
    (crossing : PageCrossing) (traced : o.trace_only ≡ false) (disp : o.data_disp ≡ false)
    (store : sim.Memory → ℕ → List ℕ → sim.Memory)
    (stores : (m : sim.Memory) (p : ℕ) (b : List ℕ)
      → AreBytes b
      → Holds i m p b (store m p b)) where
  -- What a program sees at an address.
  abbrev Sees : ℕ → ℕ → List ℕ → LimState sim → sim.Memory → Type 0
  Sees x y bytes s m =
      (view i m (shifted_address s.la_meta s.meta_size x)
        ≡ overlay (λ z. view i s.memory (shifted_address s.la_meta s.meta_size z)) la bytes x)
      × (view i m y ≡ view i s.memory y)

  Sees-before :
      (x y : ℕ) (bytes : List ℕ) (s : LimState sim)
      → AreBytes bytes
      → la + length bytes ≤ s.la_meta
      → x + s.meta_size < 2 ^ 56
      → y < 2 ^ 56
      → s.la_meta ≤ y
      → Sees x y bytes s (store s.memory la bytes)
  unfolding Holds
  Sees-before x y bytes s are_bytes out hx hy low =
      let (lm, ms) : ℕ × ℕ = (s.la_meta, s.meta_size) in
      let f : ℕ → ℕ = view i s.memory in
      let g : ℕ → ℕ = λ z. f (shifted_address lm ms z) in
      let stored = stores s.memory la bytes are_bytes in
      (
        elim (dec_lt x lm) [
          | yes p ↦
              ap (view i (store s.memory la bytes)) (before lm ms x p)
              ∙ stored x (omega (arith, hx))
              ∙ overlay_ext f g la bytes x (ap f (sym (before lm ms x p)))
          | no p ↦
              ap (view i (store s.memory la bytes)) (past lm ms x (omega (arith, p)))
              ∙ stored (x + ms) hx
              ∙ overlay_above f la bytes (x + ms) (omega (arith, p, out))
              ∙ ap f (sym (past lm ms x (omega (arith, p))))
              ∙ sym (overlay_above g la bytes x (omega (arith, p, out)))
        ],
        stored y hy ∙ overlay_above f la bytes y (omega (arith, out, low)),
      )

  -- Shifted data is a memory from which the metadata is cut out, of which the processor stores what
  -- the callback returns: on a simulator that maps the addresses below 2^56 and reads back what it
  -- has written, outside a trace, after a write through an encoded pointer of 1 to 64 bytes that
  -- starts at the lower bound or after it and ends at least as far below the upper bound as the
  -- metadata is long, with metadata of 1 to 64 bytes, and it and the upper bound below 2^56 - 1,
  -- the callback returns, the data at every address up to that limit is that of the write where it
  -- reaches and as before elsewhere, and every byte of the metadata is as before.
  pub write_shifted :
      (x y : ℕ) (bytes : List ℕ) (s : LimState sim)
      → AreBytes bytes
      → Fits la (length bytes) s
      → s.meta_size ≤ 64
      → x + s.meta_size ≤ s.dec_meta.upper_la
      → s.la_meta ≤ y
      → y < s.la_meta + s.meta_size
      → (r : Option (List ℕ)) × (t : LimState sim) × (modify_data_on_mem_access sim o
            (suc fuel)
            la
            (with_bytes bytes)
            crossing
            write
            s
          ≡ done r t)
        × (view i (store t.memory la (or_given r bytes)) (shifted_address s.la_meta s.meta_size x)
            ≡ overlay (λ z. view i s.memory (shifted_address s.la_meta s.meta_size z)) la bytes x)
        × (view i (store t.memory la (or_given r bytes)) y ≡ view i s.memory y)
  unfolding Holds
  write_shifted x y bytes s are_bytes h small hx low high =
      let s' : LimState sim = crossed crossing s in
      let h' = crossed-Fits crossing la (length bytes) s h in
      let f : ℕ → ℕ = view i s.memory in
      let (lm, ms, n) : ℕ × ℕ × ℕ = (s.la_meta, s.meta_size, length bytes) in
      let x_small : x + ms < 2 ^ 56 = omega (arith, hx, h.top) in
      let y_small : y < 2 ^ 56 = omega (arith, high, h.meta_top) in
      let top : la + n + ms < 2 ^ 56 = omega (arith, h.upper, h.top) in
      let f-AreBytes = bytes_at-AreBytes f (λ z. i.byte-lt s.memory (i.pa z)) in
      let result : (r : Option (List ℕ)) (t : LimState sim)
          → shift sim o (suc fuel) la (sub64 (add64 la n) 1) bytes write s' ≡ done r t
          → Sees x y bytes s (store t.memory la (or_given r bytes))
          → (r' : Option (List ℕ)) × (t' : LimState sim) × (modify_data_on_mem_access sim o
                (suc fuel) la (with_bytes bytes) crossing write s
              ≡ done r' t')
            × (view i (store t'.memory la (or_given r' bytes))
                  (shifted_address s.la_meta s.meta_size x)
                ≡ overlay (λ z. view i s.memory (shifted_address s.la_meta s.meta_size z)) la bytes
                    x)
            × (view i (store t'.memory la (or_given r' bytes)) y ≡ view i s.memory y) =
        λ r t e sees.
          let kept : Sees x y bytes s (store (reset_flags t).memory la (or_given r bytes)) =
            subst (λ m. Sees x y bytes s (store m la (or_given r bytes))) (sym (reset_memory t))
              sees in
          (
            r,
            reset_flags t,
            callback_lem o (suc fuel) la crossing traced write bytes s _ _ h
                (run_false _ _ s' disp ∙ e),
            kept.0,
            kept.1,
          ) in
      elim (dec_lt lm (la + n)) [
        | no out ↦
            result none s' (shift_before i o fuel la n s' h' bytes write (omega (arith, out)))
              (Sees-before x y bytes s are_bytes (omega (arith, out)) x_small y_small low)
        | yes over ↦ elim (dec_lt la lm) [
          | yes start ↦
              let (m, e, holds) = write_over i o fuel la bytes s' h' are_bytes over start small in
              let fixup : List ℕ =
                take n (take (lm - la) bytes ++ (bytes_at f lm ms ++ drop (lm - la) bytes)) in
              let fixup_bytes : AreBytes fixup = take-AreBytes n _ (
                append-AreBytes _ _ (take-AreBytes (lm - la) bytes are_bytes) (
                  append-AreBytes _ _ (f-AreBytes lm ms)
                    (drop-AreBytes (lm - la) bytes are_bytes))) in
              let stored = stores m la fixup fixup_bytes in
              result _ _ e (
                moved_over lm ms la bytes start over top f (view i m) (view i (store m la fixup))
                    holds stored x x_small,
                over_meta lm ms la bytes start over top f (view i m) (view i (store m la fixup))
                    holds stored y low high,
              )
          | no start ↦
              let at_la : lm ≤ la = omega (arith, start) in
              let (m, e, holds) = write_after i o fuel la bytes s' h' are_bytes over at_la in
              let fixup : List ℕ = bytes_at f la (min_uint64 n ms) ++ take (n - ms) bytes in
              let fixup_bytes : AreBytes fixup =
                append-AreBytes _ _ (f-AreBytes la (min_uint64 n ms))
                  (take-AreBytes (n - ms) bytes are_bytes) in
              let stored = stores m la fixup fixup_bytes in
              result _ _ e (
                moved_after lm ms la bytes at_la top f (view i m) (view i (store m la fixup)) holds
                    stored x x_small,
                moved_old lm ms la bytes at_la top f (view i m) (view i (store m la fixup)) holds
                    stored y y_small (omega (arith, high, start)),
              )
        ]
      ]
