-- ===== src/Base/Tests.antt =====
-- The encryption of words and accesses at concrete values: modules/common/ccsimics/c3_base_model.h.
use c3_simulator.Common.{ℕ, ◌+◌, ◌≡◌, refl, arith, false, none, some, List, [], ◌∷◌, ◌++◌}
use c3_simulator.Bipbip.Caching.{keyed-IsCoherent}
use c3_simulator.Ca.Emulation.{enc_size-encoded, encoded-lt, is_encoded-encoded, decoded-encoded}
use c3_simulator.Ca.Allocation.{user-canonical}
use c3_simulator.Data.Countermode.{encrypt_decrypt_bytes}
use c3_simulator.Integrity.Samples.{
  test_sim, integrity_options, metadata, test_la, test_ca, machine, cipher,
}
use c3_simulator.Base.Access.{
  BaseState, page_crossing_first, page_crossing_second, address_before, modify_data_on_mem_access,
}
use c3_simulator.Base.Crossing.{la_of, Crosses, modify_data_on_mem_access_crossing}

abbrev base_state : BaseState
base_state = record {
  core = machine none;
  is_crossing_page_first = false;
  is_crossing_page_second = false;
  total_addr_callback_cnt = 0;
  encoded_addr_callback_cnt = 0;
  non_canonical_count = 1;
  la_mismatch_count = 0;
}

abbrev two_bytes : List ℕ
two_bytes = 7 ∷ 8 ∷ []

base_state_la : la_of base_state test_ca ≡ test_la
unfolding la_of
base_state_la =
    decoded-encoded cipher test_la metadata (keyed-IsCoherent []) (omega arith) (omega arith)
      (omega arith) (user-canonical test_la (omega arith))

crosses : Crosses integrity_options base_state test_ca 2 1
crosses = record {
  coherent = keyed-IsCoherent [];
  cc_on = refl;
  encrypting = refl;
  is_ca =
      is_encoded-encoded cipher test_la metadata (keyed-IsCoherent []) (omega arith) (omega arith)
        (omega arith);
  la_pos = omega (arith, base_state_la);
  user = omega (arith, base_state_la);
  first_size = omega arith;
  first_fits = omega arith;
  second_size = omega arith;
  second_fits = omega arith;
  below_end = omega (
    arith,
    encoded-lt cipher test_la metadata (keyed-IsCoherent []) (omega arith),
    enc_size-encoded cipher test_la metadata (keyed-IsCoherent []) (omega arith),
  );
}

modify_data_on_mem_access_crossing_example :
    (s1 : BaseState) × (s2 : BaseState) × (s3 : BaseState) × (s4 : BaseState) × (a : List ℕ)
    × (b : List ℕ) × (address_before false test_ca (some page_crossing_first) base_state
        ≡ some (la_of base_state test_ca, s1))
    × (modify_data_on_mem_access test_sim integrity_options
          (la_of base_state test_ca)
          0x1000
          (record { size = 2; data_or_null = some two_bytes })
          s1
        ≡ some (some a, s2))
    × (address_before false (la_of base_state test_ca + 2) (some page_crossing_second) s2
        ≡ some (la_of base_state test_ca + 2, s3))
    × (modify_data_on_mem_access test_sim integrity_options
          (la_of base_state test_ca + 2)
          0x2000
          (record { size = 1; data_or_null = some (9 ∷ []) })
          s3
        ≡ some (some b, s4))
    × (a ++ b ≡ encrypt_decrypt_bytes test_ca [] (two_bytes ++ (9 ∷ [])))
    × (s4.is_crossing_page_first ≡ false)
    × (s4.is_crossing_page_second ≡ false)
modify_data_on_mem_access_crossing_example =
    modify_data_on_mem_access_crossing test_sim integrity_options false base_state test_ca 0x1000
      0x2000 two_bytes (9 ∷ []) crosses
