-- ===== src/Bipbip/Rounds.antt =====
-- The rounds of crypto/bipbip.cpp: RFC, RFS and their inverses, and the whole of encryption and
-- decryption under a tweak schedule.
use c3_simulator.Common.{ℕ, u32, List, get_or}
use c3_simulator.Bipbip.Tables.{pi1, pi2, pi3, pi1_inv, pi2_inv, pi3_inv}
use c3_simulator.Bipbip.Layers.{sbl, sbl_inv, lml1, lml1_inv, bpl, kad}

unfoldable pub rfc : ℕ → ℕ
rfc state_in =
    let state = sbl state_in in
    let state = u32 (bpl state pi1 24) in let state = lml1 state in u32 (bpl state pi2 24)

unfoldable pub rfc_inv : ℕ → ℕ
rfc_inv state_in =
    let state = u32 (bpl state_in pi2_inv 24) in
    let state = lml1_inv state in let state = u32 (bpl state pi1_inv 24) in sbl_inv state

unfoldable pub rfs : ℕ → ℕ
rfs x = let tmp = sbl x in u32 (bpl tmp pi3 24)

unfoldable pub rfs_inv : ℕ → ℕ
rfs_inv x = let tmp = u32 (bpl x pi3_inv 24) in sbl_inv tmp

-- `tweak_schedule_t` is its array of twelve round tweaks.
abbrev pub TweakSchedule : Type 0
TweakSchedule = List ℕ

abbrev pub round_of : TweakSchedule → ℕ → ℕ
round_of ts i = get_or ts i 0

unfoldable pub bip_bip_enc : ℕ → TweakSchedule → ℕ
bip_bip_enc plaintext ts =
    let state = kad plaintext (round_of ts 11) in
    let state = kad (rfs_inv state) (round_of ts 10) in
    let state = kad (rfs_inv state) (round_of ts 9) in
    let state = kad (rfs_inv state) (round_of ts 8) in
    let state = kad (rfc_inv state) (round_of ts 7) in
    let state = kad (rfc_inv state) (round_of ts 6) in
    let state = kad (rfc_inv state) (round_of ts 5) in
    let state = kad (rfc_inv state) (round_of ts 4) in
    let state = kad (rfc_inv state) (round_of ts 3) in
    let state = kad (rfs_inv state) (round_of ts 2) in
    let state = kad (rfs_inv state) (round_of ts 1) in kad (rfs_inv state) (round_of ts 0)

unfoldable pub bip_bip_dec : ℕ → TweakSchedule → ℕ
bip_bip_dec ciphertext ts =
    let state = kad ciphertext (round_of ts 0) in
    let state = kad (rfs state) (round_of ts 1) in
    let state = kad (rfs state) (round_of ts 2) in
    let state = kad (rfs state) (round_of ts 3) in
    let state = kad (rfc state) (round_of ts 4) in
    let state = kad (rfc state) (round_of ts 5) in
    let state = kad (rfc state) (round_of ts 6) in
    let state = kad (rfc state) (round_of ts 7) in
    let state = kad (rfc state) (round_of ts 8) in
    let state = kad (rfs state) (round_of ts 9) in
    let state = kad (rfs state) (round_of ts 10) in kad (rfs state) (round_of ts 11)
