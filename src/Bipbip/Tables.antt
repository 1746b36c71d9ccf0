-- ===== src/Bipbip/Tables.antt =====
-- The constant tables of crypto/bipbip.cpp, lines 16 to 69: bit permutations and S-boxes.
use c3_simulator.Common.{ℕ, List, [], ◌∷◌}

abbrev pub pi1 : List ℕ
pi1 =
    1 ∷ 7 ∷ 6 ∷ 0 ∷ 2 ∷ 8 ∷ 12 ∷ 18 ∷ 19 ∷ 13 ∷ 14 ∷ 20 ∷ 21 ∷ 15 ∷ 16 ∷ 22 ∷ 23 ∷ 17 ∷ 9 ∷ 3 ∷ 4
    ∷ 10 ∷ 11 ∷ 5 ∷ []

abbrev pub pi2 : List ℕ
pi2 =
    0 ∷ 1 ∷ 4 ∷ 5 ∷ 8 ∷ 9 ∷ 2 ∷ 3 ∷ 6 ∷ 7 ∷ 10 ∷ 11 ∷ 16 ∷ 12 ∷ 13 ∷ 17 ∷ 20 ∷ 21 ∷ 15 ∷ 14 ∷ 18
    ∷ 19 ∷ 22 ∷ 23 ∷ []

abbrev pub pi3 : List ℕ
pi3 =
    16 ∷ 22 ∷ 11 ∷ 5 ∷ 2 ∷ 8 ∷ 0 ∷ 6 ∷ 19 ∷ 13 ∷ 12 ∷ 18 ∷ 14 ∷ 15 ∷ 1 ∷ 7 ∷ 21 ∷ 20 ∷ 4 ∷ 3 ∷ 17
    ∷ 23 ∷ 10 ∷ 9 ∷ []

abbrev pub pi1_inv : List ℕ
pi1_inv =
    3 ∷ 0 ∷ 4 ∷ 19 ∷ 20 ∷ 23 ∷ 2 ∷ 1 ∷ 5 ∷ 18 ∷ 21 ∷ 22 ∷ 6 ∷ 9 ∷ 10 ∷ 13 ∷ 14 ∷ 17 ∷ 7 ∷ 8 ∷ 11
    ∷ 12 ∷ 15 ∷ 16 ∷ []

abbrev pub pi2_inv : List ℕ
pi2_inv =
    0 ∷ 1 ∷ 6 ∷ 7 ∷ 2 ∷ 3 ∷ 8 ∷ 9 ∷ 4 ∷ 5 ∷ 10 ∷ 11 ∷ 13 ∷ 14 ∷ 19 ∷ 18 ∷ 12 ∷ 15 ∷ 20 ∷ 21 ∷ 16
    ∷ 17 ∷ 22 ∷ 23 ∷ []

abbrev pub pi3_inv : List ℕ
pi3_inv =
    6 ∷ 14 ∷ 4 ∷ 19 ∷ 18 ∷ 3 ∷ 7 ∷ 15 ∷ 5 ∷ 23 ∷ 22 ∷ 2 ∷ 10 ∷ 9 ∷ 12 ∷ 13 ∷ 0 ∷ 20 ∷ 11 ∷ 8 ∷ 17
    ∷ 16 ∷ 1 ∷ 21 ∷ []

abbrev pub pi4 : List ℕ
pi4 =
    0 ∷ 13 ∷ 26 ∷ 39 ∷ 52 ∷ 12 ∷ 25 ∷ 38 ∷ 51 ∷ 11 ∷ 24 ∷ 37 ∷ 50 ∷ 10 ∷ 23 ∷ 36 ∷ 49 ∷ 9 ∷ 22 ∷ 35
    ∷ 48 ∷ 8 ∷ 21 ∷ 34 ∷ 47 ∷ 7 ∷ 20 ∷ 33 ∷ 46 ∷ 6 ∷ 19 ∷ 32 ∷ 45 ∷ 5 ∷ 18 ∷ 31 ∷ 44 ∷ 4 ∷ 17 ∷ 30
    ∷ 43 ∷ 3 ∷ 16 ∷ 29 ∷ 42 ∷ 2 ∷ 15 ∷ 28 ∷ 41 ∷ 1 ∷ 14 ∷ 27 ∷ 40 ∷ []

abbrev pub pi5 : List ℕ
pi5 =
    0 ∷ 11 ∷ 22 ∷ 33 ∷ 44 ∷ 2 ∷ 13 ∷ 24 ∷ 35 ∷ 46 ∷ 4 ∷ 15 ∷ 26 ∷ 37 ∷ 48 ∷ 6 ∷ 17 ∷ 28 ∷ 39 ∷ 50
    ∷ 8 ∷ 19 ∷ 30 ∷ 41 ∷ 52 ∷ 10 ∷ 21 ∷ 32 ∷ 43 ∷ 1 ∷ 12 ∷ 23 ∷ 34 ∷ 45 ∷ 3 ∷ 14 ∷ 25 ∷ 36 ∷ 47 ∷ 5
    ∷ 16 ∷ 27 ∷ 38 ∷ 49 ∷ 7 ∷ 18 ∷ 29 ∷ 40 ∷ 51 ∷ 9 ∷ 20 ∷ 31 ∷ 42 ∷ []

abbrev pub sbox_table : List ℕ
sbox_table =
    0x00 ∷ 0x01 ∷ 0x02 ∷ 0x03 ∷ 0x04 ∷ 0x06 ∷ 0x3e ∷ 0x3c ∷ 0x08 ∷ 0x11 ∷ 0x0e ∷ 0x17 ∷ 0x2b ∷ 0x33
    ∷ 0x35 ∷ 0x2d ∷ 0x19 ∷ 0x1c ∷ 0x09 ∷ 0x0c ∷ 0x15 ∷ 0x13 ∷ 0x3d ∷ 0x3b ∷ 0x31 ∷ 0x2c ∷ 0x25
    ∷ 0x38 ∷ 0x3a ∷ 0x26 ∷ 0x36 ∷ 0x2a ∷ 0x34 ∷ 0x1d ∷ 0x37 ∷ 0x1e ∷ 0x30 ∷ 0x1a ∷ 0x0b ∷ 0x21
    ∷ 0x2e ∷ 0x1f ∷ 0x29 ∷ 0x18 ∷ 0x0f ∷ 0x3f ∷ 0x10 ∷ 0x20 ∷ 0x28 ∷ 0x05 ∷ 0x39 ∷ 0x14 ∷ 0x24
    ∷ 0x0a ∷ 0x0d ∷ 0x23 ∷ 0x12 ∷ 0x27 ∷ 0x07 ∷ 0x32 ∷ 0x1b ∷ 0x2f ∷ 0x16 ∷ 0x22 ∷ []

abbrev pub sbox_inv_table : List ℕ
sbox_inv_table =
    0x00 ∷ 0x01 ∷ 0x02 ∷ 0x03 ∷ 0x04 ∷ 0x31 ∷ 0x05 ∷ 0x3a ∷ 0x08 ∷ 0x12 ∷ 0x35 ∷ 0x26 ∷ 0x13 ∷ 0x36
    ∷ 0x0a ∷ 0x2c ∷ 0x2e ∷ 0x09 ∷ 0x38 ∷ 0x15 ∷ 0x33 ∷ 0x14 ∷ 0x3e ∷ 0x0b ∷ 0x2b ∷ 0x10 ∷ 0x25
    ∷ 0x3c ∷ 0x11 ∷ 0x21 ∷ 0x23 ∷ 0x29 ∷ 0x2f ∷ 0x27 ∷ 0x3f ∷ 0x37 ∷ 0x34 ∷ 0x1a ∷ 0x1d ∷ 0x39
    ∷ 0x30 ∷ 0x2a ∷ 0x1f ∷ 0x0c ∷ 0x19 ∷ 0x0f ∷ 0x28 ∷ 0x3d ∷ 0x24 ∷ 0x18 ∷ 0x3b ∷ 0x0d ∷ 0x20
    ∷ 0x0e ∷ 0x1e ∷ 0x22 ∷ 0x1b ∷ 0x32 ∷ 0x1c ∷ 0x17 ∷ 0x07 ∷ 0x16 ∷ 0x06 ∷ 0x2d ∷ []
