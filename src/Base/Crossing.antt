-- ===== src/Base/Crossing.antt =====
-- An access through a CA that crosses pages: modules/common/ccsimics/c3_base_model.h.
use c3_simulator.Common.{
  ℕ, ◌+◌, ◌^◌, ◌≤◌, ◌<◌, ◌≡◌, refl, ap, ap₂, sym, ◌∙◌, arith, Bool, true, false, not, ◌||◌, ◌==◌,
  leb, none, some, List, [], ◌∷◌, ◌++◌, length, if_true, if_false, bind_some, ==_eq, ne→==,
  if◌then◌else◌, add64, suc, bit_xor,
}
use c3_simulator.Bipbip.Cipher.{PointerCipher}
use c3_simulator.Bipbip.Caching.{IsCoherent}
use c3_simulator.Ca.Format.{is_encoded_cc_ptr}
use c3_simulator.Ca.Decoding.{decoded, decode_pointer_lem}
use c3_simulator.Ca.Allocation.{user-canonical}
use c3_simulator.Data.Countermode.{encrypt_decrypt_bytes}
use c3_simulator.Data.Stream.{stream_byte, stream_xor, encrypt_decrypt_bytes-stream}
use c3_simulator.Integrity.Machine.{Simulator, Options, decode_la}
use c3_simulator.Base.Access.{
  page_crossing_first, page_crossing_second, BaseState, set_encoded, set_decoded, mark_crossing,
  is_second, address_before, next_part, has_data, bytes_or_memory, modified,
  modify_data_on_mem_access,
}

stream_xor-append :
    (key : List ℕ) (la : ℕ) (xs ys : List ℕ)
    → stream_xor key la (xs ++ ys) ≡ stream_xor key la xs ++ stream_xor key (la + length xs) ys
unfolding stream_xor
stream_xor-append key la [] ys = ap (λ t. stream_xor key t ys) {x = la} {y = la + 0} (omega arith)
stream_xor-append key la (x ∷ xs) ys =
    ap (λ t. bit_xor x (stream_byte key la) ∷ t)
      (stream_xor-append key (la + 1) xs ys
        ∙ ap (λ t. stream_xor key (la + 1) xs ++ stream_xor key t ys) {x = la + 1 + length xs}
            {y = la + suc (length xs)} (omega arith))

length-append : (xs ys : List ℕ) → length (xs ++ ys) ≡ length xs + length ys
length-append [] ys = omega arith
length-append (x ∷ xs) ys = omega (arith, length-append xs ys)

-- The two parts are encrypted as the whole.
parts :
    (key : List ℕ) (ca : ℕ) (xs ys : List ℕ)
    → ca + length xs + length ys + 8 ≤ 2 ^ 64
    → encrypt_decrypt_bytes ca key xs ++ encrypt_decrypt_bytes (add64 ca (length xs)) key ys
      ≡ encrypt_decrypt_bytes ca key (xs ++ ys)
parts key ca xs ys small =
    ap₂ (λ a b. a ++ b) (encrypt_decrypt_bytes-stream ca key xs (omega arith))
      (ap (λ t. encrypt_decrypt_bytes t key ys) {x = add64 ca (length xs)} {y = ca + length xs}
          (omega arith)
        ∙ encrypt_decrypt_bytes-stream (ca + length xs) key ys (omega arith))
    ∙ sym (stream_xor-append key ca xs ys)
    ∙ sym (encrypt_decrypt_bytes-stream ca key (xs ++ ys) (omega (arith, length-append xs ys)))

leb_of_le : (a b : ℕ) → a ≤ b → leb a b ≡ true
leb_of_le a b h = ground arith

user_is_no_ca : (p : ℕ) → p < 2 ^ 47 → is_encoded_cc_ptr p ≡ false
unfolding is_encoded_cc_ptr
user_is_no_ca p user = ground arith

-- The linear address that a CA decodes to.
unfoldable pub la_of : BaseState → ℕ → ℕ
la_of s ca = decoded s.core.pointer_encoder.key_schedule ca

-- An access of `m` and then `n` bytes through a CA, in user space, neither at 0 nor at the end of the
-- words.
pub record Crosses (o : Options) (s : BaseState) (ca m n : ℕ) : Type 0 where
  pub coherent : IsCoherent s.core.pointer_encoder
  pub cc_on : s.core.cc_enabled ≡ true
  pub encrypting : o.disable_data_encryption ≡ false
  pub is_ca : is_encoded_cc_ptr ca ≡ true
  pub la_pos : 1 ≤ la_of s ca
  pub user : la_of s ca + m < 2 ^ 47
  pub first_size : 1 ≤ m
  pub first_fits : m ≤ 64
  pub second_size : 1 ≤ n
  pub second_fits : n ≤ 64
  pub below_end : ca + m + n + 8 ≤ 2 ^ 64

module _ (sim : Simulator) (o : Options) (encrypting : o.disable_data_encryption ≡ false) where
  modified_lem :
      (s : BaseState) (la pa : ℕ) (xs : List ℕ)
      → s.core.is_encoded_pointer ≡ true
      → s.core.la_decoded ≡ la
      → 1 ≤ la
      → 1 ≤ length xs
      → length xs ≤ 64
      → modify_data_on_mem_access sim o la pa
          (record { size = length xs; data_or_null = some xs })
          s
        ≡ some (some (encrypt_decrypt_bytes s.core.la_encoded o.dp_key xs), next_part (length xs) s)
  unfolding modify_data_on_mem_access modified bytes_or_memory has_data
  modified_lem s la pa xs through same la_pos pos short =
      let zero_la = ne→== la 0 (λ e. absurd (omega (arith, e))) in
      let nonempty = ne→== (length xs) 0 (λ e. absurd (omega (arith, e))) in
      if_false _
        (ap₂ (λ a b. not a || la == 0 || b) through nonempty ∙ ap (λ b. b || false) zero_la)
      ∙ if_true _ (==_eq la s.core.la_decoded (sym same))
      ∙ if_true _ (leb_of_le (length xs) 64 short)
      ∙ ap
          (λ d. some (
            (if d then none else some (encrypt_decrypt_bytes s.core.la_encoded o.dp_key xs)),
            next_part (length xs) s,
          ))
          encrypting

module _ (sim : Simulator) (o : Options) (brk : Bool) (s : BaseState) (ca m n : ℕ)
    (i : Crosses o s ca m n) where
  -- The state after the address of the first part, whose encoder is then `c`.
  abbrev first_state : PointerCipher → BaseState
  first_state c = record s {
    core = record s.core {
      is_encoded_pointer = true;
      pointer_encoder = c;
      la_decoded = la_of s ca;
      la_encoded = ca;
    };
    is_crossing_page_first = true;
    total_addr_callback_cnt = s.total_addr_callback_cnt + 1;
    encoded_addr_callback_cnt = s.encoded_addr_callback_cnt + 1;
  }

  first_lem :
      (c : PointerCipher) × (address_before brk ca (some page_crossing_first) s
        ≡ some (la_of s ca, first_state c))
  unfolding address_before mark_crossing set_decoded decode_la la_of
  first_lem =
      let (c, e, _, _) = decode_pointer_lem s.core.pointer_encoder ca i.coherent in
      (
        c,
        if_true _ i.is_ca
            ∙ bind_some _ (if_true _ i.cc_on ∙ bind_some _ e)
            ∙ ap (λ t. some (la_of s ca, mark_crossing (some page_crossing_first) t))
                (if_true _ (user-canonical (la_of s ca) (omega (arith, i.user)))),
      )

  second_lem :
      (t : BaseState)
      → t.is_crossing_page_second ≡ true
      → address_before brk (la_of s ca + m) (some page_crossing_second) t
        ≡ some (
          la_of s ca + m,
          set_encoded true (record t { total_addr_callback_cnt = t.total_addr_callback_cnt + 1 }),
        )
  unfolding address_before is_second
  second_lem t second = if_false _ (user_is_no_ca (la_of s ca + m) i.user) ∙ if_true _ second

-- With data encryption and a coherent encoder enabled, an access through a CA to user space,
-- neither at 0 nor within 8 bytes of the end of the 64-bit words, that crosses pages in two parts
-- of 1 to 64 bytes: the two callbacks succeed for each part, the address of the first part is the
-- decoded CA, and the bytes of the parts together are those that one encryption of the whole access
-- by the CA gives; no crossing is pending afterwards.
pub modify_data_on_mem_access_crossing :
    (sim : Simulator) (o : Options) (brk : Bool) (s : BaseState) (ca pa1 pa2 : ℕ) (xs ys : List ℕ)
    → Crosses o s ca (length xs) (length ys)
    → (s1 : BaseState) × (s2 : BaseState) × (s3 : BaseState) × (s4 : BaseState) × (a : List ℕ)
      × (b : List ℕ) × (address_before brk ca (some page_crossing_first) s ≡ some (la_of s ca, s1))
      × (modify_data_on_mem_access sim o
            (la_of s ca)
            pa1
            (record { size = length xs; data_or_null = some xs })
            s1
          ≡ some (some a, s2))
      × (address_before brk (la_of s ca + length xs) (some page_crossing_second) s2
          ≡ some (la_of s ca + length xs, s3))
      × (modify_data_on_mem_access sim o
            (la_of s ca + length xs)
            pa2
            (record { size = length ys; data_or_null = some ys })
            s3
          ≡ some (some b, s4))
      × (a ++ b ≡ encrypt_decrypt_bytes ca o.dp_key (xs ++ ys))
      × (s4.is_crossing_page_first ≡ false)
      × (s4.is_crossing_page_second ≡ false)
unfolding next_part
modify_data_on_mem_access_crossing sim o brk s ca pa1 pa2 xs ys i =
    let (c, e) = first_lem sim o brk s ca (length xs) (length ys) i in
    let s1 = first_state sim o brk s ca (length xs) (length ys) i c in
    let s2 = next_part (length xs) s1 in
    let s3 =
      set_encoded true (record s2 { total_addr_callback_cnt = s2.total_addr_callback_cnt + 1 }) in
    (
      s1,
      s2,
      s3,
      next_part (length ys) s3,
      encrypt_decrypt_bytes ca o.dp_key xs,
      encrypt_decrypt_bytes (add64 ca (length xs)) o.dp_key ys,
      e,
      modified_lem sim o i.encrypting s1 (la_of s ca) pa1 xs refl refl i.la_pos i.first_size
          i.first_fits,
      second_lem sim o brk s ca (length xs) (length ys) i s2 refl,
      modified_lem sim o i.encrypting s3 (la_of s ca + length xs) pa2 ys refl
          (omega (arith, i.user)) (omega (arith, i.la_pos)) i.second_size i.second_fits,
      parts o.dp_key ca xs ys i.below_end,
      refl,
      refl,
    )
