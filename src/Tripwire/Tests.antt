-- ===== src/Tripwire/Tests.antt =====
-- The theorem on copies at a concrete input.
use c3_simulator.Common.{ℕ, true, false, Option, none, some, List, [], ◌∷◌}
use c3_simulator.Integrity.Machine.{suppress_strict, set_suppress_icv_mode}
use c3_simulator.Integrity.Samples.{empty_map, machine}
use c3_simulator.Tripwire.Copy.{DecodedInst, TripwireState}

-- What the decoder says of 3E F3 A4.
abbrev xed_decode : List ℕ → Option DecodedInst
xed_decode [] = none
xed_decode (prefix ∷ bytes) = some (record { is_rep_movsb = true; byte_0 = prefix; length = 3 })

abbrev ds_rep_movsb : List ℕ
ds_rep_movsb = 0x3e ∷ 0xf3 ∷ 0xa4 ∷ []

abbrev start : TripwireState
start = record {
  machine = machine (some empty_map);
  rdi = 0x2000;
  rsi = 0x1000;
  rcx = 16;
  eflags = 0x202;
  is_64_bit_mode = true;
  fixup_dst_icvs = false;
  fixup_dst_icvs_vals = record { dst = 0; src = 0; n = 0; df_flag = false };
}

-- After a copy of 16 bytes.
abbrev copied_state : TripwireState
copied_state = record start {
  machine = set_suppress_icv_mode suppress_strict (machine (some empty_map));
  rdi = 0x2010;
  rsi = 0x1010;
  rcx = 0;
  fixup_dst_icvs = true;
  fixup_dst_icvs_vals = record { dst = 0x2000; src = 0x1000; n = 16; df_flag = false };
}
