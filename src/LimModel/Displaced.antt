-- ===== src/LimModel/Displaced.antt =====
-- Displaced data: the callback on a memory access of modules/lim_model/model.cpp, where metadata stands
-- in the middle of an object and `data_disp` is set.
use c3_simulator.Common.{
  ℕ, suc, ◌+◌, ◌^◌, ◌≤◌, ◌<◌, ◌≡◌, ap, ◌∙◌, arith, true, false, ltb, leb, ◌&&◌, some, List, [],
  ◌++◌, length, if_true, add64, sub64,
}
use c3_simulator.Data.Countermode.{take, drop}
use c3_simulator.Data.Stream.{AreBytes}
use c3_simulator.Integrity.Machine.{read, write}
use c3_simulator.Lim.Metadata.{lim_compute_disp_base, lim_compute_disp_size}
use c3_simulator.LimModel.State.{
  LimSimulator, LimOptions, LimState, done, return, after_done, expect, run_false,
}
use c3_simulator.LimModel.Memory.{translate_la_to_pa, write_to_linear_addr_crosspage}
use c3_simulator.LimModel.Access.{
  overlap, overwrites_metadata, displaced_bytes, displace, bad_configuration,
}
use c3_simulator.LimModel.Bytes.{
  bytes_at, length-take, length-drop, take-AreBytes, drop-AreBytes, min_eq,
}
use c3_simulator.LimModel.Mapped.{IsMapped}
use c3_simulator.LimModel.Views.{view, Holds, settled, read_cross, write_cross}
use c3_simulator.LimModel.Places.{
  displaced_base, base_after, base_small, place_fits, read_splice, IsOverlap, data_address,
}

-- An access through an encoded pointer, of at most 64 bytes, that ends `meta_size` below the upper bound.
pub record Fits {sim : LimSimulator} (la n : ℕ) (s : LimState sim) : Type 0 where
  pub encoded : s.is_encoded_pointer ≡ true
  pub decoded : s.la_decoded ≡ la
  pub la_pos : 1 ≤ la
  pub size_pos : 1 ≤ n
  pub size_fits : n ≤ 64
  pub meta_pos : 1 ≤ s.meta_size
  pub lower : s.dec_meta.lower_la ≤ la
  pub upper : la + n + s.meta_size ≤ s.dec_meta.upper_la + 1
  pub top : s.dec_meta.upper_la + 1 < 2 ^ 56
  pub meta_top : s.la_meta + s.meta_size < 2 ^ 56

module _ {sim : LimSimulator} (o : LimOptions) (fuel la n : ℕ) (s : LimState sim)
    (h : Fits la n s) where
  abbrev base : ℕ
  base = displaced_base s.la_meta s.meta_size s.dec_meta.upper_la

  abbrev last_byte : ℕ
  last_byte = sub64 (add64 la n) 1

  module _ (before : s.la_meta < la + n) (after : la < s.la_meta + s.meta_size) where
    room : s.la_meta + s.meta_size ≤ s.dec_meta.upper_la + 1
    room = omega (arith, h.upper)

    pub overlap_lem :
        let d = overlap sim o (suc fuel) la last_byte s in
        IsOverlap la n s.la_meta s.meta_size d.disp_off d.disp_acc_start d.disp_amt
    unfolding overlap
    overlap_lem =
        let top = h.top in
        let upper = h.upper in
        let size_pos = h.size_pos in
        let meta_pos = h.meta_pos in
        let meta_top = h.meta_top in
        record {
          same = ground arith;
          in_access = ground arith;
          not_empty = ground arith;
          in_meta = ground arith;
          first = λ x h1 h2. ground arith;
          last = λ x h1 h2. ground arith;
        }

    pub disp_base_lem : lim_compute_disp_base s.la_meta s.meta_size s.dec_meta ≡ some base
    unfolding lim_compute_disp_base lim_compute_disp_size displaced_base
    disp_base_lem =
        let top = h.top in
        let upper = h.upper in
        let size_pos = h.size_pos in
        let meta_pos = h.meta_pos in let meta_top = h.meta_top in ground arith

    pub overlaps : (leb s.la_meta last_byte && ltb la (add64 s.la_meta s.meta_size)) ≡ true
    overlaps = let top = h.top in let upper = h.upper in let meta_top = h.meta_top in ground arith

    module _ (i : IsMapped sim) where
      not_overwritten :
          (start amt : ℕ)
          → start ≤ s.meta_size
          → amt ≤ s.meta_size
          → overwrites_metadata sim o (suc fuel) (add64 base start) amt (settled i s) ≡ false
      unfolding overwrites_metadata
      not_overwritten start amt h1 h2 =
          let top = h.top in
          let upper = h.upper in
          let meta_top = h.meta_top in
          let size_pos = h.size_pos in
          let after = base_after s.la_meta s.meta_size s.dec_meta.upper_la (omega arith) in
          let small = base_small s.la_meta s.meta_size s.dec_meta.upper_la in ground arith

      -- The bytes that stand at the place of the metadata in the result of a read.
      pub displace_read :
          displace sim o (suc fuel) la last_byte (bytes_at (view i s.memory) la n) read s
          ≡ done
              (some (
                bytes_at
                  (λ x. view i s.memory (data_address s.la_meta s.meta_size s.dec_meta.upper_la x))
                  la
                  n))
              (settled i s)
      unfolding displace displaced_bytes
      displace_read =
          let d = overlap sim o (suc fuel) la last_byte s in
          let over = overlap_lem in
          let amt : d.disp_amt ≤ 64 = omega (arith, over.in_access, h.size_fits) in
          let there : base + d.disp_acc_start + d.disp_amt < 2 ^ 56 = omega (
            arith,
            h.top,
            place_fits s.la_meta s.meta_size s.dec_meta.upper_la la n _ _ _ over h.upper room,
          ) in
          if_true _ overlaps
          ∙ after_done _ (ap (λ t. expect t s) disp_base_lem)
          ∙ after_done _ (
              ap
                (λ t. displaced_bytes sim o (suc fuel) read (add64 la d.disp_off) t d.disp_amt [] s)
                {x = add64 base d.disp_acc_start} {y = base + d.disp_acc_start}
                (omega (arith, there))
              ∙ read_cross i fuel (base + d.disp_acc_start) d.disp_amt s amt there)
          ∙ ap (λ t. done (some t) (settled i s))
              (read_splice s.la_meta s.meta_size s.dec_meta.upper_la la n _ _ _ over
                (view i s.memory))

      -- A write of the bytes in the middle to their place, after a read of the metadata there.
      displaced_bytes_write :
          (access_start start amt : ℕ) (bytes : List ℕ)
          → AreBytes bytes
          → length bytes ≡ amt
          → 1 ≤ amt
          → amt ≤ 64
          → start + amt ≤ s.meta_size
          → access_start + amt < 2 ^ 56
          → base + start + amt < 2 ^ 56
          → (m : sim.Memory) × (displaced_bytes sim o
                (suc fuel)
                write
                access_start
                (add64 base start)
                amt
                bytes
                s
              ≡ done
                  (bytes_at (view i s.memory) access_start amt)
                  (record (settled i s) { memory = m }))
            × Holds i s.memory (base + start) bytes m
      unfolding displaced_bytes
      displaced_bytes_write access_start start amt bytes are_bytes same pos short in_meta here
            there =
          let (m, e, holds) =
            write_cross i fuel (base + start) bytes (settled i s) are_bytes
              (omega (arith, same, pos)) (omega (arith, same, short))
              (omega (arith, same, there)) in
          (
            m,
            after_done _ (read_cross i fuel access_start amt s short here)
                ∙ after_done _ (
                    run_false (bad_configuration sim o (suc fuel)) (return tt) (settled i s)
                      (not_overwritten start amt (omega (arith, in_meta)) (omega (arith, in_meta))))
                ∙ after_done _ (
                    ap
                      (λ t.
                        write_to_linear_addr_crosspage sim (translate_la_to_pa sim (suc fuel)) t
                          bytes (settled i s))
                      {x = add64 base start} {y = base + start} (omega (arith, there))
                    ∙ e),
            holds,
          )

      -- The bytes of a write around the metadata, and the others at their place.
      pub displace_write :
          (bytes : List ℕ)
          → AreBytes bytes
          → length bytes ≡ n
          → let d = overlap sim o (suc fuel) la last_byte s in
            (m : sim.Memory) × (displace sim o (suc fuel) la last_byte bytes write s
              ≡ done
                  (some (
                    take d.disp_off bytes
                    ++ (bytes_at (view i s.memory) (la + d.disp_off) d.disp_amt
                        ++ drop (d.disp_off + d.disp_amt) bytes)))
                  (record (settled i s) { memory = m }))
            × Holds i s.memory (base + d.disp_acc_start) (take d.disp_amt (drop d.disp_off bytes)) m
      unfolding displace
      displace_write bytes are_bytes same =
          let d = overlap sim o (suc fuel) la last_byte s in
          let over = overlap_lem in
          let middle : List ℕ = take d.disp_amt (drop d.disp_off bytes) in
          let length_middle : length middle ≡ d.disp_amt =
            length-take d.disp_amt (drop d.disp_off bytes)
            ∙ min_eq (length (drop d.disp_off bytes)) d.disp_amt
                (omega (arith, length-drop d.disp_off bytes, same, over.in_access)) in
          let here : la + d.disp_off + d.disp_amt < 2 ^ 56 =
            omega (arith, h.upper, h.top, over.in_access) in
          let there : base + d.disp_acc_start + d.disp_amt < 2 ^ 56 = omega (
            arith,
            h.top,
            place_fits s.la_meta s.meta_size s.dec_meta.upper_la la n _ _ _ over h.upper room,
          ) in
          let (m, e, holds) =
            displaced_bytes_write (la + d.disp_off) d.disp_acc_start d.disp_amt middle
              (take-AreBytes d.disp_amt _ (drop-AreBytes d.disp_off bytes are_bytes)) length_middle
              over.not_empty (omega (arith, over.in_access, h.size_fits)) over.in_meta here there in
          (
            m,
            if_true _ overlaps
                ∙ after_done _ (ap (λ t. expect t s) disp_base_lem)
                ∙ after_done _ (
                    ap
                      (λ t.
                        displaced_bytes sim o (suc fuel) write t (add64 base d.disp_acc_start)
                          d.disp_amt middle s)
                      {x = add64 la d.disp_off} {y = la + d.disp_off} (omega (arith, here))
                    ∙ e),
            holds,
          )
