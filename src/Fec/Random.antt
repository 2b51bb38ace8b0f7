-- ===== src/Fec/Random.antt =====
-- The masks of src/rtp_rtcp/fec_private_tables_random.cc. `mask_random_N` lists the macros
-- kMaskRandomN_1 to kMaskRandomN_N: for N media packets, the rows for one FEC packet, for two, and so on.
use qo_srtp.Common.{ℕ, List, [], ◌∷◌}
use qo_srtp.Fec.Joined.{joined}

unfoldable pub mask_random_1 : List (List ℕ)
mask_random_1 = (0x80 ∷ 0x00 ∷ []) ∷ []

unfoldable pub mask_random_2 : List (List ℕ)
mask_random_2 = (0xc0 ∷ 0x00 ∷ []) ∷ (0xc0 ∷ 0x00 ∷ 0x80 ∷ 0x00 ∷ []) ∷ []

unfoldable pub mask_random_3 : List (List ℕ)
mask_random_3 =
    (0xe0 ∷ 0x00 ∷ [])
    ∷ (0xc0 ∷ 0x00 ∷ 0xa0 ∷ 0x00 ∷ [])
    ∷ (0xc0 ∷ 0x00 ∷ 0xa0 ∷ 0x00 ∷ 0x60 ∷ 0x00 ∷ [])
    ∷ []

unfoldable pub mask_random_4 : List (List ℕ)
mask_random_4 =
    (0xf0 ∷ 0x00 ∷ [])
    ∷ (0xc0 ∷ 0x00 ∷ 0xb0 ∷ 0x00 ∷ [])
    ∷ (0xc0 ∷ 0x00 ∷ 0xb0 ∷ 0x00 ∷ 0x60 ∷ 0x00 ∷ [])
    ∷ (0xc0 ∷ 0x00 ∷ 0xa0 ∷ 0x00 ∷ 0x30 ∷ 0x00 ∷ 0x50 ∷ 0x00 ∷ [])
    ∷ []

unfoldable pub mask_random_5 : List (List ℕ)
mask_random_5 =
    (0xf8 ∷ 0x00 ∷ [])
    ∷ (0xa8 ∷ 0x00 ∷ 0xd0 ∷ 0x00 ∷ [])
    ∷ (0xb0 ∷ 0x00 ∷ 0xc8 ∷ 0x00 ∷ 0x50 ∷ 0x00 ∷ [])
    ∷ (0xc8 ∷ 0x00 ∷ 0xb0 ∷ 0x00 ∷ 0x50 ∷ 0x00 ∷ 0x28 ∷ 0x00 ∷ [])
    ∷ (0xc0 ∷ 0x00 ∷ 0x30 ∷ 0x00 ∷ 0x18 ∷ 0x00 ∷ 0xa0 ∷ 0x00 ∷ 0x48 ∷ 0x00 ∷ [])
    ∷ []

unfoldable pub mask_random_6 : List (List ℕ)
mask_random_6 =
    (0xfc ∷ 0x00 ∷ [])
    ∷ (0xa8 ∷ 0x00 ∷ 0xd4 ∷ 0x00 ∷ [])
    ∷ (0xd0 ∷ 0x00 ∷ 0x68 ∷ 0x00 ∷ 0xa4 ∷ 0x00 ∷ [])
    ∷ (0xa8 ∷ 0x00 ∷ 0x58 ∷ 0x00 ∷ 0x64 ∷ 0x00 ∷ 0x94 ∷ 0x00 ∷ [])
    ∷ (0xa8 ∷ 0x00 ∷ 0x84 ∷ 0x00 ∷ 0x64 ∷ 0x00 ∷ 0x90 ∷ 0x00 ∷ 0x58 ∷ 0x00 ∷ [])
    ∷ (0x98 ∷ 0x00 ∷ 0x64 ∷ 0x00 ∷ 0x50 ∷ 0x00 ∷ 0x14 ∷ 0x00 ∷ 0xa8 ∷ 0x00 ∷ 0xe0 ∷ 0x00 ∷ [])
    ∷ []

unfoldable pub mask_random_7 : List (List ℕ)
mask_random_7 =
    (0xfe ∷ 0x00 ∷ [])
    ∷ (0xd4 ∷ 0x00 ∷ 0xaa ∷ 0x00 ∷ [])
    ∷ (0xd0 ∷ 0x00 ∷ 0xaa ∷ 0x00 ∷ 0x64 ∷ 0x00 ∷ [])
    ∷ (0xd0 ∷ 0x00 ∷ 0xaa ∷ 0x00 ∷ 0x64 ∷ 0x00 ∷ 0x1c ∷ 0x00 ∷ [])
    ∷ (0x0c ∷ 0x00 ∷ 0xb0 ∷ 0x00 ∷ 0x1a ∷ 0x00 ∷ 0xc4 ∷ 0x00 ∷ 0x62 ∷ 0x00 ∷ [])
    ∷ (0x8c ∷ 0x00 ∷ 0x4a ∷ 0x00 ∷ 0x64 ∷ 0x00 ∷ 0xd0 ∷ 0x00 ∷ 0xa0 ∷ 0x00 ∷ 0x32 ∷ 0x00 ∷ [])
    ∷ (0x4a ∷ 0x00 ∷ 0x94 ∷ 0x00 ∷ 0x1a ∷ 0x00 ∷ 0xc4 ∷ 0x00 ∷ 0x28 ∷ 0x00 ∷ 0xc2 ∷ 0x00 ∷ 0x34
        ∷ 0x00 ∷ [])
    ∷ []

unfoldable pub mask_random_8 : List (List ℕ)
mask_random_8 =
    (0xff ∷ 0x00 ∷ [])
    ∷ (0xaa ∷ 0x00 ∷ 0xd5 ∷ 0x00 ∷ [])
    ∷ (0xc5 ∷ 0x00 ∷ 0x92 ∷ 0x00 ∷ 0x6a ∷ 0x00 ∷ [])
    ∷ (0x45 ∷ 0x00 ∷ 0xb4 ∷ 0x00 ∷ 0x6a ∷ 0x00 ∷ 0x89 ∷ 0x00 ∷ [])
    ∷ (0x8c ∷ 0x00 ∷ 0x92 ∷ 0x00 ∷ 0x2b ∷ 0x00 ∷ 0x51 ∷ 0x00 ∷ 0x64 ∷ 0x00 ∷ [])
    ∷ (0xa1 ∷ 0x00 ∷ 0x52 ∷ 0x00 ∷ 0x91 ∷ 0x00 ∷ 0x2a ∷ 0x00 ∷ 0xc4 ∷ 0x00 ∷ 0x4c ∷ 0x00 ∷ [])
    ∷ (0x15 ∷ 0x00 ∷ 0xc2 ∷ 0x00 ∷ 0x25 ∷ 0x00 ∷ 0x62 ∷ 0x00 ∷ 0x58 ∷ 0x00 ∷ 0x8c ∷ 0x00 ∷ 0xa3
        ∷ 0x00 ∷ [])
    ∷ (0x25 ∷ 0x00 ∷ 0x8a ∷ 0x00 ∷ 0x91 ∷ 0x00 ∷ 0x68 ∷ 0x00 ∷ 0x32 ∷ 0x00 ∷ 0x43 ∷ 0x00 ∷ 0xc4
        ∷ 0x00 ∷ 0x1c ∷ 0x00 ∷ [])
    ∷ []

unfoldable pub mask_random_9 : List (List ℕ)
mask_random_9 =
    (0xff ∷ 0x80 ∷ [])
    ∷ (0xaa ∷ 0x80 ∷ 0xd5 ∷ 0x00 ∷ [])
    ∷ (0xa5 ∷ 0x00 ∷ 0xc8 ∷ 0x00 ∷ 0x52 ∷ 0x80 ∷ [])
    ∷ (0xa2 ∷ 0x00 ∷ 0xc9 ∷ 0x00 ∷ 0x52 ∷ 0x80 ∷ 0x24 ∷ 0x80 ∷ [])
    ∷ (0x8c ∷ 0x00 ∷ 0x25 ∷ 0x00 ∷ 0x92 ∷ 0x80 ∷ 0x41 ∷ 0x80 ∷ 0x58 ∷ 0x00 ∷ [])
    ∷ (0x84 ∷ 0x80 ∷ 0x27 ∷ 0x00 ∷ 0x51 ∷ 0x80 ∷ 0x1a ∷ 0x00 ∷ 0x68 ∷ 0x00 ∷ 0x89 ∷ 0x00 ∷ [])
    ∷ (0x8c ∷ 0x00 ∷ 0x47 ∷ 0x00 ∷ 0x81 ∷ 0x80 ∷ 0x12 ∷ 0x80 ∷ 0x58 ∷ 0x00 ∷ 0x28 ∷ 0x80 ∷ 0xb4
        ∷ 0x00 ∷ [])
    ∷ (0x2c ∷ 0x00 ∷ 0x91 ∷ 0x00 ∷ 0x40 ∷ 0x80 ∷ 0x06 ∷ 0x80 ∷ 0xc8 ∷ 0x00 ∷ 0x45 ∷ 0x00 ∷ 0x30
        ∷ 0x80 ∷ 0xa2 ∷ 0x00 ∷ [])
    ∷ (0x4c ∷ 0x00 ∷ 0x62 ∷ 0x00 ∷ 0x91 ∷ 0x00 ∷ 0x42 ∷ 0x80 ∷ 0xa4 ∷ 0x00 ∷ 0x13 ∷ 0x00 ∷ 0x30
        ∷ 0x80 ∷ 0x88 ∷ 0x80 ∷ 0x09 ∷ 0x00 ∷ [])
    ∷ []

unfoldable pub mask_random_10 : List (List ℕ)
mask_random_10 =
    (0xff ∷ 0xc0 ∷ [])
    ∷ (0xaa ∷ 0x80 ∷ 0xd5 ∷ 0x40 ∷ [])
    ∷ (0xa4 ∷ 0x40 ∷ 0xc9 ∷ 0x00 ∷ 0x52 ∷ 0x80 ∷ [])
    ∷ (0xca ∷ 0x00 ∷ 0x32 ∷ 0x80 ∷ 0xa1 ∷ 0x40 ∷ 0x55 ∷ 0x00 ∷ [])
    ∷ (0xca ∷ 0x00 ∷ 0x32 ∷ 0x80 ∷ 0xa1 ∷ 0x40 ∷ 0x55 ∷ 0x00 ∷ 0x08 ∷ 0xc0 ∷ [])
    ∷ (0x0e ∷ 0x00 ∷ 0x33 ∷ 0x00 ∷ 0x10 ∷ 0xc0 ∷ 0x45 ∷ 0x40 ∷ 0x88 ∷ 0x80 ∷ 0xe0 ∷ 0x00 ∷ [])
    ∷ (0x46 ∷ 0x00 ∷ 0x33 ∷ 0x00 ∷ 0x80 ∷ 0xc0 ∷ 0x0c ∷ 0x40 ∷ 0x28 ∷ 0x80 ∷ 0x94 ∷ 0x00 ∷ 0xc1
        ∷ 0x00 ∷ [])
    ∷ (0x2c ∷ 0x00 ∷ 0x81 ∷ 0x80 ∷ 0xa0 ∷ 0x40 ∷ 0x05 ∷ 0x40 ∷ 0x18 ∷ 0x80 ∷ 0xc2 ∷ 0x00 ∷ 0x22
        ∷ 0x80 ∷ 0x50 ∷ 0x40 ∷ [])
    ∷ (0x4c ∷ 0x00 ∷ 0x23 ∷ 0x00 ∷ 0x88 ∷ 0xc0 ∷ 0x21 ∷ 0x40 ∷ 0x52 ∷ 0x80 ∷ 0x94 ∷ 0x00 ∷ 0x26
        ∷ 0x00 ∷ 0x48 ∷ 0x40 ∷ 0x91 ∷ 0x80 ∷ [])
    ∷ (0x4c ∷ 0x00 ∷ 0x51 ∷ 0x00 ∷ 0xa0 ∷ 0x40 ∷ 0x04 ∷ 0xc0 ∷ 0x03 ∷ 0x80 ∷ 0x86 ∷ 0x00 ∷ 0x29
        ∷ 0x00 ∷ 0x42 ∷ 0x40 ∷ 0x98 ∷ 0x00 ∷ 0x30 ∷ 0x80 ∷ [])
    ∷ []

unfoldable pub mask_random_11 : List (List ℕ)
mask_random_11 =
    (0xff ∷ 0xe0 ∷ [])
    ∷ (0xec ∷ 0xc0 ∷ 0x9b ∷ 0xa0 ∷ [])
    ∷ (0xca ∷ 0xc0 ∷ 0xf1 ∷ 0x40 ∷ 0xb6 ∷ 0x20 ∷ [])
    ∷ (0xc4 ∷ 0xc0 ∷ 0x31 ∷ 0x60 ∷ 0x4b ∷ 0x20 ∷ 0x2c ∷ 0xa0 ∷ [])
    ∷ (0x86 ∷ 0x80 ∷ 0x23 ∷ 0x20 ∷ 0x16 ∷ 0x20 ∷ 0x4c ∷ 0x20 ∷ 0x41 ∷ 0xc0 ∷ [])
    ∷ (0x64 ∷ 0x40 ∷ 0x51 ∷ 0x40 ∷ 0x0c ∷ 0xa0 ∷ 0xa1 ∷ 0x20 ∷ 0x12 ∷ 0xa0 ∷ 0x8a ∷ 0x40 ∷ [])
    ∷ (0x46 ∷ 0x40 ∷ 0x33 ∷ 0x20 ∷ 0x91 ∷ 0x80 ∷ 0xa4 ∷ 0x20 ∷ 0x50 ∷ 0xa0 ∷ 0x84 ∷ 0xc0 ∷ 0x09
        ∷ 0x60 ∷ [])
    ∷ (0x0c ∷ 0x80 ∷ 0x80 ∷ 0x60 ∷ 0xa0 ∷ 0x80 ∷ 0x05 ∷ 0x40 ∷ 0x43 ∷ 0x00 ∷ 0x1a ∷ 0x00 ∷ 0x60
        ∷ 0x20 ∷ 0x14 ∷ 0x20 ∷ [])
    ∷ (0x46 ∷ 0x40 ∷ 0x62 ∷ 0x60 ∷ 0x8c ∷ 0x00 ∷ 0x01 ∷ 0x60 ∷ 0x07 ∷ 0x80 ∷ 0xa0 ∷ 0x80 ∷ 0x18
        ∷ 0xa0 ∷ 0x91 ∷ 0x00 ∷ 0x78 ∷ 0x00 ∷ [])
    ∷ (0x64 ∷ 0x40 ∷ 0x51 ∷ 0x40 ∷ 0xa9 ∷ 0x00 ∷ 0x04 ∷ 0xc0 ∷ 0xd0 ∷ 0x00 ∷ 0x82 ∷ 0x40 ∷ 0x21
        ∷ 0x20 ∷ 0x0c ∷ 0x20 ∷ 0x4a ∷ 0x00 ∷ 0x12 ∷ 0xa0 ∷ [])
    ∷ (0x46 ∷ 0x40 ∷ 0x33 ∷ 0x20 ∷ 0x99 ∷ 0x00 ∷ 0x05 ∷ 0x80 ∷ 0x80 ∷ 0xa0 ∷ 0x84 ∷ 0x40 ∷ 0x40
        ∷ 0x60 ∷ 0x0a ∷ 0x80 ∷ 0x68 ∷ 0x00 ∷ 0x10 ∷ 0x20 ∷ 0x30 ∷ 0x40 ∷ [])
    ∷ []

unfoldable pub mask_random_12 : List (List ℕ)
mask_random_12 =
    (0xff ∷ 0xf0 ∷ [])
    ∷ (0xec ∷ 0xc0 ∷ 0x93 ∷ 0xb0 ∷ [])
    ∷ (0x9b ∷ 0x80 ∷ 0x4f ∷ 0x10 ∷ 0x3c ∷ 0x60 ∷ [])
    ∷ (0x8b ∷ 0x20 ∷ 0x14 ∷ 0xb0 ∷ 0x22 ∷ 0xd0 ∷ 0x45 ∷ 0x50 ∷ [])
    ∷ (0x53 ∷ 0x60 ∷ 0x64 ∷ 0x20 ∷ 0x0c ∷ 0xc0 ∷ 0x82 ∷ 0xa0 ∷ 0x09 ∷ 0x30 ∷ [])
    ∷ (0x51 ∷ 0x40 ∷ 0xc5 ∷ 0x10 ∷ 0x21 ∷ 0x80 ∷ 0x12 ∷ 0x30 ∷ 0x08 ∷ 0xe0 ∷ 0x2e ∷ 0x00 ∷ [])
    ∷ (0x53 ∷ 0x60 ∷ 0x21 ∷ 0x30 ∷ 0x90 ∷ 0x90 ∷ 0x02 ∷ 0x50 ∷ 0x06 ∷ 0xa0 ∷ 0x2c ∷ 0x00 ∷ 0x88
        ∷ 0x60 ∷ [])
    ∷ (0x20 ∷ 0x60 ∷ 0x80 ∷ 0x30 ∷ 0x42 ∷ 0x40 ∷ 0x01 ∷ 0x90 ∷ 0x14 ∷ 0x10 ∷ 0x0a ∷ 0x80 ∷ 0x38
        ∷ 0x00 ∷ 0xc5 ∷ 0x00 ∷ [])
    ∷ (0x53 ∷ 0x60 ∷ 0xe4 ∷ 0x20 ∷ 0x24 ∷ 0x40 ∷ 0xa1 ∷ 0x10 ∷ 0x18 ∷ 0x30 ∷ 0x03 ∷ 0x90 ∷ 0x8a
        ∷ 0x10 ∷ 0x04 ∷ 0x90 ∷ 0x00 ∷ 0xe0 ∷ [])
    ∷ (0x51 ∷ 0x40 ∷ 0x45 ∷ 0x10 ∷ 0x80 ∷ 0xd0 ∷ 0x24 ∷ 0x20 ∷ 0x0a ∷ 0x20 ∷ 0x00 ∷ 0xe0 ∷ 0xb8
        ∷ 0x00 ∷ 0x09 ∷ 0x10 ∷ 0x56 ∷ 0x00 ∷ 0xa2 ∷ 0x80 ∷ [])
    ∷ (0x53 ∷ 0x60 ∷ 0x21 ∷ 0x30 ∷ 0x10 ∷ 0x90 ∷ 0x00 ∷ 0x70 ∷ 0x0c ∷ 0x10 ∷ 0x40 ∷ 0xc0 ∷ 0x6a
        ∷ 0x00 ∷ 0x86 ∷ 0x00 ∷ 0x24 ∷ 0x80 ∷ 0x89 ∷ 0x00 ∷ 0xc0 ∷ 0x20 ∷ [])
    ∷ (0x10 ∷ 0x60 ∷ 0x02 ∷ 0x30 ∷ 0x40 ∷ 0x50 ∷ 0x21 ∷ 0x80 ∷ 0x81 ∷ 0x10 ∷ 0x14 ∷ 0x80 ∷ 0x98
        ∷ 0x00 ∷ 0x08 ∷ 0x90 ∷ 0x62 ∷ 0x00 ∷ 0x24 ∷ 0x20 ∷ 0x8a ∷ 0x00 ∷ 0x84 ∷ 0x40 ∷ [])
    ∷ []

unfoldable pub packet_mask_random_1 : List ℕ
unfolding mask_random_1 joined
packet_mask_random_1 = 1 ∷ joined mask_random_1

unfoldable pub packet_mask_random_2 : List ℕ
unfolding mask_random_2 joined
packet_mask_random_2 = 2 ∷ joined mask_random_2

unfoldable pub packet_mask_random_3 : List ℕ
unfolding mask_random_3 joined
packet_mask_random_3 = 3 ∷ joined mask_random_3

unfoldable pub packet_mask_random_4 : List ℕ
unfolding mask_random_4 joined
packet_mask_random_4 = 4 ∷ joined mask_random_4

unfoldable pub packet_mask_random_5 : List ℕ
unfolding mask_random_5 joined
packet_mask_random_5 = 5 ∷ joined mask_random_5

unfoldable pub packet_mask_random_6 : List ℕ
unfolding mask_random_6 joined
packet_mask_random_6 = 6 ∷ joined mask_random_6

unfoldable pub packet_mask_random_7 : List ℕ
unfolding mask_random_7 joined
packet_mask_random_7 = 7 ∷ joined mask_random_7

unfoldable pub packet_mask_random_8 : List ℕ
unfolding mask_random_8 joined
packet_mask_random_8 = 8 ∷ joined mask_random_8

unfoldable pub packet_mask_random_9 : List ℕ
unfolding mask_random_9 joined
packet_mask_random_9 = 9 ∷ joined mask_random_9

unfoldable pub packet_mask_random_10 : List ℕ
unfolding mask_random_10 joined
packet_mask_random_10 = 10 ∷ joined mask_random_10

unfoldable pub packet_mask_random_11 : List ℕ
unfolding mask_random_11 joined
packet_mask_random_11 = 11 ∷ joined mask_random_11

unfoldable pub packet_mask_random_12 : List ℕ
unfolding mask_random_12 joined
packet_mask_random_12 = 12 ∷ joined mask_random_12

unfoldable pub packet_mask_random_tbl : List ℕ
unfolding joined packet_mask_random_1 packet_mask_random_2 packet_mask_random_3 packet_mask_random_4
    packet_mask_random_5 packet_mask_random_6 packet_mask_random_7 packet_mask_random_8
    packet_mask_random_9 packet_mask_random_10 packet_mask_random_11 packet_mask_random_12
packet_mask_random_tbl =
    12
    ∷ joined (
        packet_mask_random_1 ∷ packet_mask_random_2 ∷ packet_mask_random_3 ∷ packet_mask_random_4
        ∷ packet_mask_random_5 ∷ packet_mask_random_6 ∷ packet_mask_random_7 ∷ packet_mask_random_8
        ∷ packet_mask_random_9 ∷ packet_mask_random_10 ∷ packet_mask_random_11
        ∷ packet_mask_random_12 ∷ [])

-- The macros by number of media packets.
unfoldable pub random_masks : List (List (List ℕ))
unfolding mask_random_1 mask_random_2 mask_random_3 mask_random_4 mask_random_5 mask_random_6
    mask_random_7 mask_random_8 mask_random_9 mask_random_10 mask_random_11 mask_random_12
random_masks =
    mask_random_1 ∷ mask_random_2 ∷ mask_random_3 ∷ mask_random_4 ∷ mask_random_5 ∷ mask_random_6
    ∷ mask_random_7 ∷ mask_random_8 ∷ mask_random_9 ∷ mask_random_10 ∷ mask_random_11
    ∷ mask_random_12 ∷ []
