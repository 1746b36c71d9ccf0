-- ===== src/Castack/Restore.antt =====
-- What an instruction on a CA sees, and what it leaves: modules/common/ccsimics/castack.h.
use c3_simulator.Common.{
  ℕ, ◌≡◌, refl, ap, sym, ◌∙◌, if◌then◌else◌, some, bind_some, List, [], ◌∷◌, Bool, true, false,
  ◌&&◌, ◌||◌, ◌==◌, ltb, ◌/◌, ◌%◌, ◌≢◌, arith, Bool-cases, inl, inr, if_true, if_false,
}
use c3_simulator.Bipbip.Cipher.{PointerCipher}
use c3_simulator.Bipbip.Schedule.{KeySchedule}
use c3_simulator.Bipbip.Caching.{IsCoherent}
use c3_simulator.Ca.Format.{is_encoded_cc_ptr}
use c3_simulator.Ca.Decoding.{decoded, decode_pointer_lem}
use c3_simulator.Castack.Fixup.{
  modrm_reg, StackInst, fxsave, fxrstor, jmprdx, other, StackState, decode_opcode,
  save_and_decode_if_encoded, fix_operand, instruction_before_cb, restore_operand,
  instruction_after_cb,
}

-- An operand without its encoding.
unfoldable pub plain : KeySchedule → ℕ → ℕ
plain ks x = if is_encoded_cc_ptr x then decoded ks x else x

-- What the instructions are to see of RSP and RDX: the operand of the three instructions is plain.
unfoldable seen_rsp : StackInst → KeySchedule → ℕ → ℕ
seen_rsp fxsave ks x = plain ks x
seen_rsp fxrstor ks x = plain ks x
seen_rsp jmprdx ks x = x
seen_rsp other ks x = x

unfoldable seen_rdx : StackInst → KeySchedule → ℕ → ℕ
seen_rdx fxsave ks x = x
seen_rdx fxrstor ks x = x
seen_rdx jmprdx ks x = plain ks x
seen_rdx other ks x = x

save_lem :
    (x : ℕ) (s : StackState)
    → IsCoherent s.ptrenc
    → (c : PointerCipher) × (save_and_decode_if_encoded x s
        ≡ some (plain s.ptrenc.key_schedule x, record s { ptrenc = c; saved_reg = x }))
unfolding save_and_decode_if_encoded plain
save_lem x s h = elim (Bool-cases (is_encoded_cc_ptr x)) [
  | inl is ↦
      let (c, e, _, _) = decode_pointer_lem s.ptrenc x h in
      (
        c,
        if_true _ is
            ∙ bind_some _ e
            ∙ ap (λ t. some (t, record s { ptrenc = c; saved_reg = x })) (sym (if_true x is)),
      )
  | inr is ↦ (
    s.ptrenc,
    if_false _ is
        ∙ ap (λ t. some (t, record s { saved_reg = x }))
            (sym (if_false (decoded s.ptrenc.key_schedule x) is)),
  )
]

fix_lem :
    (i : StackInst) (s : StackState)
    → IsCoherent s.ptrenc
    → s.current_instruction ≡ i
    → (s1 : StackState) × (fix_operand i s ≡ some s1)
      × (s1.rsp ≡ seen_rsp i s.ptrenc.key_schedule s.rsp)
      × (s1.rdx ≡ seen_rdx i s.ptrenc.key_schedule s.rdx)
      × ((instruction_after_cb s1).rsp ≡ s.rsp)
      × ((instruction_after_cb s1).rdx ≡ s.rdx)
unfolding fix_operand seen_rsp seen_rdx instruction_after_cb restore_operand
fix_lem fxsave s h is =
    let (c, e) = save_lem s.rsp s h in
    let s1 : StackState = record s {
      ptrenc = c;
      saved_reg = s.rsp;
      rsp = plain s.ptrenc.key_schedule s.rsp;
    } in
    (
      s1,
      bind_some _ e,
      refl,
      refl,
      ap (λ i. (restore_operand i s1).rsp) is,
      ap (λ i. (restore_operand i s1).rdx) is,
    )
fix_lem fxrstor s h is =
    let (c, e) = save_lem s.rsp s h in
    let s1 : StackState = record s {
      ptrenc = c;
      saved_reg = s.rsp;
      rsp = plain s.ptrenc.key_schedule s.rsp;
    } in
    (
      s1,
      bind_some _ e,
      refl,
      refl,
      ap (λ i. (restore_operand i s1).rsp) is,
      ap (λ i. (restore_operand i s1).rdx) is,
    )
fix_lem jmprdx s h is =
    let (c, e) = save_lem s.rdx s h in
    let s1 : StackState = record s {
      ptrenc = c;
      saved_reg = s.rdx;
      rdx = plain s.ptrenc.key_schedule s.rdx;
    } in
    (
      s1,
      bind_some _ e,
      refl,
      refl,
      ap (λ i. (restore_operand i s1).rsp) is,
      ap (λ i. (restore_operand i s1).rdx) is,
    )
fix_lem other s h is = (
  s,
  refl,
  refl,
  refl,
  ap (λ i. (restore_operand i s).rsp) is,
  ap (λ i. (restore_operand i s).rdx) is,
)

-- The bytes 0F AE with a reg field of 0 or 1 in the third byte.
unfoldable pub is_fx : List ℕ → Bool
is_fx (b0 ∷ b1 ∷ b2 ∷ bytes) = b0 == 0x0F && (b1 == 0xAE && ltb (b2 / 8 % 8) 2)
is_fx (b0 ∷ b1 ∷ []) = false
is_fx (b0 ∷ []) = false
is_fx [] = false

-- The bytes FF E2 and one more at least.
unfoldable pub is_long_jmp_rdx : List ℕ → Bool
is_long_jmp_rdx (b0 ∷ b1 ∷ b2 ∷ bytes) = b0 == 0xFF && b1 == 0xE2
is_long_jmp_rdx (b0 ∷ b1 ∷ []) = false
is_long_jmp_rdx (b0 ∷ []) = false
is_long_jmp_rdx [] = false

true≢false : true ≢ false
true≢false p = ground arith

seen_inst_rsp :
    (a b c : Bool) (ks : KeySchedule) (x : ℕ)
    → seen_rsp (if a then fxsave else if b then fxrstor else if c then jmprdx else other) ks x
      ≡ (if a || b then plain ks x else x)
unfolding seen_rsp
seen_inst_rsp true b c ks x = refl
seen_inst_rsp false true c ks x = refl
seen_inst_rsp false false true ks x = refl
seen_inst_rsp false false false ks x = refl

seen_inst_rdx :
    (a b c : Bool) (ks : KeySchedule) (x : ℕ)
    → (c ≡ true → (a || b) ≡ false)
    → seen_rdx (if a then fxsave else if b then fxrstor else if c then jmprdx else other) ks x
      ≡ (if c then plain ks x else x)
unfolding seen_rdx
seen_inst_rdx true b true ks x h = absurd (true≢false (h refl))
seen_inst_rdx false true true ks x h = absurd (true≢false (h refl))
seen_inst_rdx true b false ks x h = refl
seen_inst_rdx false true false ks x h = refl
seen_inst_rdx false false true ks x h = refl
seen_inst_rdx false false false ks x h = refl

either_reg :
    (b0 b1 b2 : ℕ)
    → ((b0 == 0x0F && b1 == 0xAE && modrm_reg b2 == 0)
        || (b0 == 0x0F && b1 == 0xAE && modrm_reg b2 == 1))
      ≡ is_fx (b0 ∷ b1 ∷ b2 ∷ [])
unfolding modrm_reg is_fx
either_reg b0 b1 b2 = ground arith

apart :
    (b0 b1 b2 : ℕ)
    → is_long_jmp_rdx (b0 ∷ b1 ∷ b2 ∷ []) ≡ true
    → ((b0 == 0x0F && b1 == 0xAE && modrm_reg b2 == 0)
        || (b0 == 0x0F && b1 == 0xAE && modrm_reg b2 == 1))
      ≡ false
unfolding modrm_reg is_long_jmp_rdx
apart b0 b1 b2 h = ground (arith, h)

seen_rsp_lem :
    (opcode : List ℕ) (ks : KeySchedule) (x : ℕ)
    → seen_rsp (decode_opcode opcode) ks x ≡ (if is_fx opcode then plain ks x else x)
unfolding decode_opcode seen_rsp is_fx
seen_rsp_lem [] ks x = refl
seen_rsp_lem (b0 ∷ []) ks x = refl
seen_rsp_lem (b0 ∷ b1 ∷ []) ks x = refl
seen_rsp_lem (b0 ∷ b1 ∷ b2 ∷ bytes) ks x =
    seen_inst_rsp _ _ _ ks x ∙ ap (λ b. if b then plain ks x else x) (either_reg b0 b1 b2)

seen_rdx_lem :
    (opcode : List ℕ) (ks : KeySchedule) (x : ℕ)
    → seen_rdx (decode_opcode opcode) ks x ≡ (if is_long_jmp_rdx opcode then plain ks x else x)
unfolding decode_opcode seen_rdx is_long_jmp_rdx
seen_rdx_lem [] ks x = refl
seen_rdx_lem (b0 ∷ []) ks x = refl
seen_rdx_lem (b0 ∷ b1 ∷ []) ks x = refl
seen_rdx_lem (b0 ∷ b1 ∷ b2 ∷ bytes) ks x = seen_inst_rdx _ _ _ ks x (apart b0 b1 b2)

-- With a coherent encoder, the callback before an instruction succeeds and decodes, if it is a CA,
-- RSP for the bytes 0F AE and a third byte with a reg field of 0 or 1 (FXSAVE and FXRSTOR), and RDX
-- for the bytes FF E2 with at least one byte more; it leaves RSP and RDX alone for all other bytes,
-- also for FF E2 alone, which is JMP RDX. The callback after the instruction, if the registers are
-- still the same, gives back the values from before it.
pub instruction_after_cb-instruction_before_cb :
    (opcode : List ℕ) (s : StackState)
    → IsCoherent s.ptrenc
    → let ks = s.ptrenc.key_schedule in
      (s1 : StackState) × (instruction_before_cb opcode s ≡ some s1)
      × (s1.rsp ≡ (if is_fx opcode then plain ks s.rsp else s.rsp))
      × (s1.rdx ≡ (if is_long_jmp_rdx opcode then plain ks s.rdx else s.rdx))
      × ((instruction_after_cb s1).rsp ≡ s.rsp)
      × ((instruction_after_cb s1).rdx ≡ s.rdx)
unfolding instruction_before_cb
instruction_after_cb-instruction_before_cb opcode s h =
    let ks = s.ptrenc.key_schedule in
    let (s1, e, rsp, rdx, rsp', rdx') =
      fix_lem (decode_opcode opcode) (record s { current_instruction = decode_opcode opcode }) h
        refl in
    (s1, e, rsp ∙ seen_rsp_lem opcode ks s.rsp, rdx ∙ seen_rdx_lem opcode ks s.rdx, rsp', rdx')
