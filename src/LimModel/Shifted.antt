-- ===== src/LimModel/Shifted.antt =====
-- Shifted data: a read through the callback on a memory access of modules/lim_model/model.cpp, where
-- `data_disp` is not set, against a memory from which the metadata is cut out.
use c3_simulator.Common.{
  ℕ, suc, ◌+◌, ◌-◌, ◌%◌, ◌^◌, ◌≤◌, ◌<◌, ◌≡◌, refl, ap, ap₂, sym, ◌∙◌, arith, Bool, true, false, not,
  ltb, leb, ◌==◌, if◌then◌else◌, if_true, if_false, Option, none, some, List, ◌++◌, length, dec_lt,
  add64, sub64, bit_and, subst,
}
use c3_simulator.Common.Bits.{bit_and-lt}
use c3_simulator.Base.Access.{PageCrossing}
use c3_simulator.Integrity.Machine.{Rw, read}
use c3_simulator.Lim.Pointer.{get_page_addr}
use c3_simulator.LimModel.State.{
  LimSimulator, LimOptions, LimState, Outcome, done, after_done, run_false,
}
use c3_simulator.LimModel.Memory.{translate_la_to_pa, read_from_linear_addr_crosspage}
use c3_simulator.LimModel.Callback.{
  reset_flags, check_next_page, shifted_after, shifted_over, shift, modify_data_on_mem_access,
}
use c3_simulator.LimModel.Bytes.{bytes_at, bytes_at-append, bytes_at_ext, length-bytes_at}
use c3_simulator.LimModel.Mapped.{IsMapped}
use c3_simulator.LimModel.Views.{view, settled, translate_lem, read_same, read_cross}
use c3_simulator.LimModel.Displaced.{Fits}
use c3_simulator.LimModel.Refines.{
  or_given, with_bytes, crossed, callback_lem, reset_memory, crossed-Fits,
}

-- Where the data of an address stands.
unfoldable pub shifted_address : ℕ → ℕ → ℕ → ℕ
shifted_address la_meta meta_size x = if ltb x la_meta then x else x + meta_size

module _ (lm ms : ℕ) where
  pub before : (x : ℕ) → x < lm → shifted_address lm ms x ≡ x
  unfolding shifted_address
  before x h = ground arith

  pub past : (x : ℕ) → lm ≤ x → shifted_address lm ms x ≡ x + ms
  unfolding shifted_address
  past x h = ground arith

  before_bytes :
      (f : ℕ → ℕ) (la n : ℕ)
      → la + n ≤ lm
      → bytes_at f la n ≡ bytes_at (λ x. f (shifted_address lm ms x)) la n
  before_bytes f la n h =
      bytes_at_ext f _ la la n λ k small. ap f (sym (before (la + k) (omega (arith, h, small))))

  past_bytes :
      (f : ℕ → ℕ) (la n : ℕ)
      → lm ≤ la
      → bytes_at f (la + ms) n ≡ bytes_at (λ x. f (shifted_address lm ms x)) la n
  past_bytes f la n h = bytes_at_ext f _ (la + ms) la n λ k small.
      ap f {x = la + ms + k} {y = la + k + ms} (omega arith)
      ∙ ap f (sym (past (la + k) (omega (arith, h))))

  over_bytes :
      (f : ℕ → ℕ) (la n : ℕ)
      → la < lm
      → lm < la + n
      → bytes_at f la (lm - la) ++ bytes_at f (lm + ms) (n - (lm - la))
        ≡ bytes_at (λ x. f (shifted_address lm ms x)) la n
  over_bytes f la n h1 h2 =
      let g : ℕ → ℕ = λ x. f (shifted_address lm ms x) in
      ap₂ (λ a b. a ++ b) (before_bytes f la (lm - la) (omega (arith, h1)))
        (past_bytes f lm (n - (lm - la)) (omega arith))
      ∙ ap (λ q. bytes_at g la (lm - la) ++ bytes_at g q (n - (lm - la))) {x = lm}
          {y = la + (lm - la)} (omega (arith, h1))
      ∙ bytes_at-append g la (lm - la) (n - (lm - la))
      ∙ ap (bytes_at g la) {x = lm - la + (n - (lm - la))} {y = n} (omega (arith, h1, h2))

either_way :
    {sim : LimSimulator} {A : Type 0} (b : Bool) (f g : LimState sim → Outcome sim A)
    (s : LimState sim) {r : Outcome sim A}
    → f s ≡ r
    → g s ≡ r
    → (if b then f else g) s ≡ r
either_way true f g s e e' = e
either_way false f g s e e' = e'

module _ {sim : LimSimulator} (i : IsMapped sim) (o : LimOptions) (fuel la n : ℕ) (s : LimState sim)
    (h : Fits la n s) where
  abbrev last_byte : ℕ
  last_byte = sub64 (add64 la n) 1

  abbrev given : List ℕ
  given = bytes_at (view i s.memory) la n

  abbrev data_at : ℕ → ℕ
  data_at x = view i s.memory (shifted_address s.la_meta s.meta_size x)

  pub next_page :
      (b x : ℕ) (rw' : Rw)
      → x < 2 ^ 56
      → check_next_page sim o (suc fuel) b x rw' s ≡ done tt (settled i s)
  unfolding check_next_page
  next_page b x rw' small =
      either_way (not (get_page_addr b == get_page_addr x)) _ _ s
        (after_done _ (
          translate_lem i fuel (bit_and x 0xFFFFFFFFFFFFF000) rw' s
            (bit_and-lt 56 x 0xFFFFFFFFFFFFF000 small)))
        refl

  pub shift_before :
      (bytes : List ℕ) (rw' : Rw)
      → la + n ≤ s.la_meta
      → shift sim o (suc fuel) la last_byte bytes rw' s ≡ done none s
  unfolding shift
  shift_before bytes rw' out =
      let (upper, top, pos) : (la + n + s.meta_size ≤ s.dec_meta.upper_la + 1)
          × (s.dec_meta.upper_la + 1 < 2 ^ 56)
          × (1 ≤ n) =
        (h.upper, h.top, h.size_pos) in
      let out_of : ltb last_byte s.la_meta ≡ true = ground arith in
      let before_start : leb s.la_meta la ≡ false = ground arith in
      if_false _ before_start ∙ if_true _ out_of

  module _ (over : s.la_meta < la + n) where
    pub not_before : ltb last_byte s.la_meta ≡ false
    not_before =
        let (upper, top, pos) : (la + n + s.meta_size ≤ s.dec_meta.upper_la + 1)
            × (s.dec_meta.upper_la + 1 < 2 ^ 56)
            × (1 ≤ n) =
          (h.upper, h.top, h.size_pos) in
        ground arith

    pub shifted_small : add64 last_byte s.meta_size < 2 ^ 56
    shifted_small =
        let (upper, top, pos) : (la + n + s.meta_size ≤ s.dec_meta.upper_la + 1)
            × (s.dec_meta.upper_la + 1 < 2 ^ 56)
            × (1 ≤ n) =
          (h.upper, h.top, h.size_pos) in
        omega arith

    shift_after :
        s.la_meta ≤ la
        → shift sim o (suc fuel) la last_byte given read s
          ≡ done (some (bytes_at data_at la n)) (settled i s)
    unfolding shift shifted_after
    shift_after start =
        let same : length given ≡ n = length-bytes_at (view i s.memory) la n in
        let after_start : leb s.la_meta la ≡ true = ground (arith, start) in
        let low : la + s.meta_size + n < 2 ^ 56 = omega (arith, h.upper, h.top) in
        if_true _ after_start
        ∙ after_done _ (
            run_false _ _ s not_before
            ∙ next_page la (add64 last_byte s.meta_size) read shifted_small)
        ∙ after_done _ (
            ap₂
              (λ p k.
                read_from_linear_addr_crosspage sim (translate_la_to_pa sim (suc fuel)) p k
                  (settled i s))
              {x = add64 la s.meta_size} (omega (arith, low)) same
            ∙ read_cross i fuel (la + s.meta_size) n (settled i s) h.size_fits low)
        ∙ ap (λ b. done (some b) (settled i s))
            (past_bytes s.la_meta s.meta_size (view i s.memory) la n start)

    shift_over :
        la < s.la_meta
        → la % 2 ^ 12 + n ≤ 2 ^ 12
        → shift sim o (suc fuel) la last_byte given read s
          ≡ done (some (bytes_at data_at la n)) (settled i s)
    unfolding shift shifted_over
    shift_over start page =
        let same : length given ≡ n = length-bytes_at (view i s.memory) la n in
        let before_start : leb s.la_meta la ≡ false = ground (arith, start) in
        let part : ltb (s.la_meta - la) (length given) ≡ true = ground (arith, start, over, same) in
        let low : la + n + s.meta_size < 2 ^ 56 = omega (arith, h.upper, h.top) in
        let (lm, ms) : ℕ × ℕ = (s.la_meta, s.meta_size) in
        if_false _ before_start
        ∙ if_false _ not_before
        ∙ after_done _ (next_page la (add64 last_byte s.meta_size) read shifted_small)
        ∙ after_done _ (if_true _ part)
        ∙ after_done _ (
            after_done _ (
              read_same i fuel la (lm - la) (settled i s) (omega (arith, over, start, h.size_fits))
                (omega (arith, page, start, over)) (omega (arith, low)))
            ∙ after_done _ (
                ap₂
                  (λ p k.
                    read_from_linear_addr_crosspage sim (translate_la_to_pa sim (suc fuel)) p k
                      (settled i s))
                  {x = add64 lm ms} (omega (arith, low, over)) (omega (arith, same))
                ∙ read_cross i fuel (lm + ms) (n - (lm - la)) (settled i s)
                    (omega (arith, h.size_fits)) (omega (arith, low, over, start))))
        ∙ ap (λ b. done (some b) (settled i s)) (over_bytes lm ms (view i s.memory) la n start over)

-- On a simulator that maps the addresses below 2^56 and reads back what it has written, outside a
-- trace, with shifted data, a read through an encoded pointer of 1 to 64 bytes in one page that
-- starts at the lower bound or after it and ends at least as far below the upper bound as the
-- metadata is long, with metadata of one byte at least, and it and the upper bound below 2^56 - 1,
-- returns, leaves memory alone, and gives the program each byte from the place of its data, which
-- is past the metadata if the byte is not before it.
pub read_shifted :
    {sim : LimSimulator} (i : IsMapped sim) (o : LimOptions) (fuel la n : ℕ)
    (crossing : PageCrossing) (s : LimState sim)
    → o.trace_only ≡ false
    → o.data_disp ≡ false
    → Fits la n s
    → la % 2 ^ 12 + n ≤ 2 ^ 12
    → (r : Option (List ℕ)) × (t : LimState sim) × (modify_data_on_mem_access sim o
          (suc fuel)
          la
          (with_bytes (bytes_at (view i s.memory) la n))
          crossing
          read
          s
        ≡ done r t)
      × (or_given r (bytes_at (view i s.memory) la n)
          ≡ bytes_at (λ x. view i s.memory (shifted_address s.la_meta s.meta_size x)) la n)
      × (t.memory ≡ s.memory)
read_shifted {sim = sim} i o fuel la n crossing s traced disp h page =
    let given : List ℕ = bytes_at (view i s.memory) la n in
    let same : length given ≡ n = length-bytes_at (view i s.memory) la n in
    let s' : LimState sim = crossed crossing s in
    let h' = crossed-Fits crossing la n s h in
    let given_fits : Fits la (length given) s = subst (λ k. Fits la k s) (sym same) h in
    let result : (r : Option (List ℕ)) (t : LimState sim)
        → shift sim o (suc fuel) la (sub64 (add64 la n) 1) given read s' ≡ done r t
        → modify_data_on_mem_access sim o (suc fuel) la (with_bytes given) crossing read s
          ≡ done r (reset_flags t) =
      λ r t e. callback_lem o (suc fuel) la crossing traced read given s _ _ given_fits (
        run_false _ _ s' disp
        ∙ ap (λ k. shift sim o (suc fuel) la (sub64 (add64 la k) 1) given read s') same
        ∙ e) in
    elim (dec_lt s.la_meta (la + n)) [
      | no out ↦ (
        none,
        _,
        result _ _ (shift_before i o fuel la n s' h' given read (omega (arith, out))),
        before_bytes s.la_meta s.meta_size (view i s.memory) la n (omega (arith, out)),
        reset_memory _,
      )
      | yes over ↦ elim (dec_lt la s.la_meta) [
        | yes start ↦ (
          some _,
          _,
          result _ _ (shift_over i o fuel la n s' h' over start page),
          refl,
          reset_memory _,
        )
        | no start ↦ (
          some _,
          _,
          result _ _ (shift_after i o fuel la n s' h' over (omega (arith, start))),
          refl,
          reset_memory _,
        )
      ]
    ]
