-- ===== src/LimModel/Views.antt =====
-- Memory by linear addresses, over the pages of physical memory: modules/lim_model/model.cpp.
use c3_simulator.Common.{
  ℕ, zero, suc, ◌+◌, ◌-◌, ◌%◌, ◌^◌, ◌≤◌, ◌<◌, ◌≡◌, ◌≢◌, refl, ap, sym, ◌∙◌, arith, true, false, not,
  leb, ◌==◌, List, [], ◌∷◌, length, dec_le, dec_lt, if_true, add64, sub64, ==_eq, ne→==,
}
use c3_simulator.Data.Countermode.{take, drop}
use c3_simulator.Data.Stream.{AreBytes}
use c3_simulator.Integrity.Machine.{Rw, read, write}
use c3_simulator.Lim.Pointer.{get_page_addr}
use c3_simulator.LimModel.State.{LimSimulator, LimState, Outcome, done, after_done}
use c3_simulator.LimModel.Memory.{
  min_uint64, calc_bytes_before_pg_bndry, translate_la_to_pa, read_from_linear_addr_samepage,
  read_from_linear_addr_crosspage, read_rest, write_rest, write_to_linear_addr_samepage,
  write_to_linear_addr_crosspage,
}
use c3_simulator.LimModel.Bytes.{
  bytes_at, overlay, bytes_at-append, bytes_at_ext, overlay_in, overlay_below, overlay_above,
  overlay-append, overlay_ext, min_eq, take-drop, length-take, length-drop, take-AreBytes,
  drop-AreBytes,
}
use c3_simulator.LimModel.Mapped.{IsMapped, Stores, read_loop_lem, write_loop_lem}

module _ {sim : LimSimulator} (i : IsMapped sim) where
  -- The byte at a linear address.
  abbrev pub view : sim.Memory → ℕ → ℕ
  view m la = i.byte m (i.pa la)

  -- A memory after a write of these bytes from a linear address on.
  unfoldable pub Holds : sim.Memory → ℕ → List ℕ → sim.Memory → Type 0
  Holds m la bytes m' = (x : ℕ) → x < 2 ^ 56 → view m' x ≡ overlay (view m) la bytes x

  -- A translation that succeeds.
  abbrev pub settled : LimState sim → LimState sim
  settled s = record s { is_page_fault = false }

  pub translate_lem :
      (fuel la : ℕ) (rw' : Rw) (s : LimState sim)
      → la < 2 ^ 56
      → translate_la_to_pa sim (suc fuel) la rw' s ≡ done (i.pa la) (settled s)
  unfolding translate_la_to_pa
  translate_lem fuel la rw' s h =
      if_true _ (i.valid la rw' h) ∙ ap (λ t. done t (settled s)) (i.address la rw' h)

  pa_ne : (la : ℕ) → la < 2 ^ 56 → not (i.pa la == 0) ≡ true
  pa_ne la h = ap not (ne→== (i.pa la) 0 (λ e. absurd (omega (arith, e, i.pa_pos la h))))

  page_bytes :
      (m : sim.Memory) (la n : ℕ)
      → la % 2 ^ 12 + n ≤ 2 ^ 12
      → la < 2 ^ 56
      → bytes_at (i.byte m) (i.pa la) n ≡ bytes_at (view m) la n
  page_bytes m la n page h =
      bytes_at_ext (i.byte m) (view m) (i.pa la) la n
        λ k small. ap (i.byte m) (sym (i.pa-add la k h (omega arith)))

  outside :
      (m : sim.Memory) (la : ℕ) (bytes : List ℕ) (x : ℕ)
      → x < 2 ^ 56
      → la < 2 ^ 56
      → la % 2 ^ 12 + length bytes ≤ 2 ^ 12
      → ((k : ℕ) → k < length bytes → i.pa x ≢ i.pa la + k)
      → overlay (view m) la bytes x ≡ view m x
  outside m la bytes x hx h page out = elim (dec_lt x la) [
    | yes p ↦ overlay_below (view m) la bytes x p
    | no p ↦ elim (dec_le (la + length bytes) x) [
      | yes q ↦ overlay_above (view m) la bytes x q
      | no q ↦
          let k = x - la in
          let small : k < length bytes = omega (arith, p, q) in
          absurd (
            out k small (
              ap i.pa {x = x} {y = la + k} (omega (arith, p))
              ∙ i.pa-add la k h (omega (arith, small))))
    ]
  ]

  overlay_page :
      (m : sim.Memory) (la : ℕ) (bytes : List ℕ) (x : ℕ)
      → x < 2 ^ 56
      → la < 2 ^ 56
      → la + length bytes < 2 ^ 56
      → la % 2 ^ 12 + length bytes ≤ 2 ^ 12
      → overlay (i.byte m) (i.pa la) bytes (i.pa x) ≡ overlay (view m) la bytes x
  overlay_page m la bytes x hx h top page = elim (dec_lt (i.pa x) (i.pa la)) [
    | yes p ↦
        overlay_below (i.byte m) (i.pa la) bytes (i.pa x) p
        ∙ sym (outside m la bytes x hx h page λ k small e. absurd (omega (arith, e, p)))
    | no p ↦ elim (dec_le (i.pa la + length bytes) (i.pa x)) [
      | yes q ↦
          overlay_above (i.byte m) (i.pa la) bytes (i.pa x) q
          ∙ sym (outside m la bytes x hx h page λ k small e. absurd (omega (arith, e, q)))
      | no q ↦
          let k = i.pa x - i.pa la in
          let small : k < length bytes = omega (arith, p, q) in
          let at_k : i.pa (la + k) ≡ i.pa la + k = i.pa-add la k h (omega (arith, small)) in
          let same : x ≡ la + k =
            i.pa_inj x (la + k) hx (omega (arith, small)) (omega (arith, at_k, p)) in
          ap (overlay (i.byte m) (i.pa la) bytes) {x = i.pa x} {y = i.pa la + k} (omega (arith, p))
          ∙ overlay_in (i.byte m) (i.pa la) bytes k small
          ∙ sym (overlay_in (view m) la bytes k small)
          ∙ ap (overlay (view m) la bytes) (sym same)
    ]
  ]

  module _ (fuel : ℕ) where
    abbrev tr : ℕ → Rw → LimState sim → Outcome sim ℕ
    tr = translate_la_to_pa sim (suc fuel)

    pub read_same :
        (la n : ℕ) (s : LimState sim)
        → n ≤ 64
        → la % 2 ^ 12 + n ≤ 2 ^ 12
        → la < 2 ^ 56
        → read_from_linear_addr_samepage sim tr la n s
          ≡ done (bytes_at (view s.memory) la n) (settled s)
    unfolding read_from_linear_addr_samepage
    read_same la n s short page h =
        after_done _ (translate_lem fuel la read s h)
        ∙ after_done _ (if_true _ (pa_ne la h))
        ∙ read_loop_lem i n (i.pa la) n (settled s) (omega arith) (omega (arith, i.pa-lt la h))
        ∙ ap (λ b. done b (settled s)) (page_bytes s.memory la n page h)

    read_rest_lem :
        (la n : ℕ) (s : LimState sim)
        → n ≤ 64
        → la % 2 ^ 12 + n ≤ 2 ^ 12
        → la < 2 ^ 56
        → read_rest sim tr la n (settled s) ≡ done (bytes_at (view s.memory) la n) (settled s)
    unfolding read_rest bytes_at
    read_rest_lem la zero s short page h = refl
    read_rest_lem la (suc n) s short page h = read_same la (suc n) (settled s) short page h

    pub read_cross :
        (la n : ℕ) (s : LimState sim)
        → n ≤ 64
        → la + n < 2 ^ 56
        → read_from_linear_addr_crosspage sim tr la n s
          ≡ done (bytes_at (view s.memory) la n) (settled s)
    unfolding read_from_linear_addr_crosspage calc_bytes_before_pg_bndry
    read_cross la n s short h =
        let b = min_uint64 (2 ^ 12 - la % 2 ^ 12) n in
        let le : b ≤ n = ground arith in
        let page : la % 2 ^ 12 + b ≤ 2 ^ 12 = ground arith in
        let rest_page : (la + b) % 2 ^ 12 + (n - b) ≤ 2 ^ 12 = ground arith in
        let in_limit : leb n 64 ≡ true = ground arith in
        after_done _ (if_true _ in_limit)
        ∙ after_done _ (read_same la b s (omega (arith, le)) page (omega arith))
        ∙ after_done _ (
            ap (λ t. read_rest sim tr t (n - b) (settled s)) {x = add64 la b} {y = la + b}
              (omega (arith, le))
            ∙ read_rest_lem (la + b) (n - b) s (omega arith) rest_page (omega (arith, le)))
        ∙ ap (λ t. done t (settled s))
            (bytes_at-append (view s.memory) la b (n - b)
              ∙ ap (bytes_at (view s.memory) la) {x = b + (n - b)} {y = n} (omega (arith, le)))

    page_eq :
        (la n : ℕ)
        → 1 ≤ n
        → la % 2 ^ 12 + n ≤ 2 ^ 12
        → la + n < 2 ^ 56
        → (get_page_addr la == get_page_addr (sub64 (add64 la n) 1)) ≡ true
    unfolding get_page_addr
    page_eq la n pos page top = ==_eq _ _ (omega arith)

    write_same :
        (la : ℕ) (bytes : List ℕ) (s : LimState sim)
        → AreBytes bytes
        → 1 ≤ length bytes
        → length bytes ≤ 64
        → la % 2 ^ 12 + length bytes ≤ 2 ^ 12
        → la + length bytes < 2 ^ 56
        → (m : sim.Memory) × (write_to_linear_addr_samepage sim tr la bytes s
            ≡ done tt (record (settled s) { memory = m }))
          × Holds s.memory la bytes m
    unfolding write_to_linear_addr_samepage Holds Stores
    write_same la bytes s h pos short page top =
        let small : la < 2 ^ 56 = omega arith in
        let (m, e, stores) =
          write_loop_lem i (length bytes) (i.pa la) bytes (settled s) h (omega arith)
            (omega (arith, i.pa-lt la small)) in
        (
          m,
          after_done _ (if_true _ (page_eq la (length bytes) pos page top))
              ∙ after_done _ (translate_lem fuel la write s small)
              ∙ after_done _ (if_true _ (pa_ne la small))
              ∙ e,
          λ x hx. stores (i.pa x) ∙ overlay_page s.memory la bytes x hx small top page,
        )

    write_rest_lem :
        (la : ℕ) (bytes : List ℕ) (s : LimState sim)
        → AreBytes bytes
        → length bytes ≤ 64
        → la % 2 ^ 12 + length bytes ≤ 2 ^ 12
        → la + length bytes < 2 ^ 56
        → (m : sim.Memory) × (write_rest sim tr la bytes (settled s)
            ≡ done tt (record (settled s) { memory = m }))
          × Holds s.memory la bytes m
    unfolding write_rest Holds
    write_rest_lem la [] s h short page top = (
      s.memory,
      refl,
      λ x hx. sym (
          outside s.memory la [] x hx (omega (arith, top)) page
            λ k small. absurd (omega (arith, small))),
    )
    write_rest_lem la (b ∷ bytes) s h short page top =
        write_same la (b ∷ bytes) (settled s) h (omega arith) short page top

    pub write_cross :
        (la : ℕ) (bytes : List ℕ) (s : LimState sim)
        → AreBytes bytes
        → 1 ≤ length bytes
        → length bytes ≤ 64
        → la + length bytes < 2 ^ 56
        → (m : sim.Memory) × (write_to_linear_addr_crosspage sim tr la bytes s
            ≡ done tt (record (settled s) { memory = m }))
          × Holds s.memory la bytes m
    unfolding write_to_linear_addr_crosspage calc_bytes_before_pg_bndry Holds
    write_cross la bytes s h pos short top =
        let n = length bytes in
        let b = min_uint64 (2 ^ 12 - la % 2 ^ 12) n in
        let le : b ≤ n = ground arith in
        let b_pos : 1 ≤ b = ground arith in
        let page : la % 2 ^ 12 + b ≤ 2 ^ 12 = ground arith in
        let rest_page : (la + b) % 2 ^ 12 + (n - b) ≤ 2 ^ 12 = ground arith in
        let taken : length (take b bytes) ≡ b = length-take b bytes ∙ min_eq n b le in
        let dropped = length-drop b bytes in
        let in_limit : leb n 64 ≡ true = ground arith in
        let (m1, e1, holds1) =
          write_same la (take b bytes) s (take-AreBytes b bytes h) (omega (arith, taken, b_pos))
            (omega (arith, taken, le)) (omega (arith, taken, page)) (omega (arith, taken, le)) in
        let s1 : LimState sim = record s { memory = m1 } in
        let (m2, e2, holds2) =
          write_rest_lem (la + b) (drop b bytes) s1 (drop-AreBytes b bytes h)
            (omega (arith, dropped)) (omega (arith, dropped, rest_page))
            (omega (arith, dropped, le)) in
        (
          m2,
          after_done _ (if_true _ in_limit)
              ∙ after_done _ e1
              ∙ ap (λ t. write_rest sim tr t (drop b bytes) (settled s1)) {x = add64 la b}
                  {y = la + b} (omega (arith, le))
              ∙ e2,
          λ x hx.
              holds2 x hx
              ∙ overlay_ext (view m1) (overlay (view s.memory) la (take b bytes)) (la + b)
                  (drop b bytes) x (holds1 x hx)
              ∙ ap (λ q. overlay (overlay (view s.memory) la (take b bytes)) q (drop b bytes) x)
                  {x = la + b} {y = la + length (take b bytes)} (omega (arith, taken))
              ∙ overlay-append (view s.memory) la (take b bytes) (drop b bytes) x
              ∙ ap (λ t. overlay (view s.memory) la t x) (take-drop b bytes),
        )
