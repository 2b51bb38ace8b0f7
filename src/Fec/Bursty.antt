-- ===== src/Fec/Bursty.antt =====
-- The masks of src/rtp_rtcp/fec_private_tables_bursty.cc. `mask_bursty_N` lists the macros
-- kMaskBurstyN_1 to kMaskBurstyN_N: for N media packets, the rows for one FEC packet, for two, and so on.
use qo_srtp.Common.{ℕ, List, [], ◌∷◌}
use qo_srtp.Fec.Joined.{joined}

unfoldable pub mask_bursty_1 : List (List ℕ)
mask_bursty_1 = (0x80 ∷ 0x00 ∷ []) ∷ []

unfoldable pub mask_bursty_2 : List (List ℕ)
mask_bursty_2 = (0xc0 ∷ 0x00 ∷ []) ∷ (0x80 ∷ 0x00 ∷ 0xc0 ∷ 0x00 ∷ []) ∷ []

unfoldable pub mask_bursty_3 : List (List ℕ)
mask_bursty_3 =
    (0xe0 ∷ 0x00 ∷ [])
    ∷ (0xc0 ∷ 0x00 ∷ 0xa0 ∷ 0x00 ∷ [])
    ∷ (0x80 ∷ 0x00 ∷ 0xc0 ∷ 0x00 ∷ 0x60 ∷ 0x00 ∷ [])
    ∷ []

unfoldable pub mask_bursty_4 : List (List ℕ)
mask_bursty_4 =
    (0xf0 ∷ 0x00 ∷ [])
    ∷ (0xa0 ∷ 0x00 ∷ 0xd0 ∷ 0x00 ∷ [])
    ∷ (0xc0 ∷ 0x00 ∷ 0x60 ∷ 0x00 ∷ 0x90 ∷ 0x00 ∷ [])
    ∷ (0x80 ∷ 0x00 ∷ 0xc0 ∷ 0x00 ∷ 0x60 ∷ 0x00 ∷ 0x30 ∷ 0x00 ∷ [])
    ∷ []

unfoldable pub mask_bursty_5 : List (List ℕ)
mask_bursty_5 =
    (0xf8 ∷ 0x00 ∷ [])
    ∷ (0xd0 ∷ 0x00 ∷ 0xa8 ∷ 0x00 ∷ [])
    ∷ (0x70 ∷ 0x00 ∷ 0x90 ∷ 0x00 ∷ 0xc8 ∷ 0x00 ∷ [])
    ∷ (0xc0 ∷ 0x00 ∷ 0x60 ∷ 0x00 ∷ 0x30 ∷ 0x00 ∷ 0x88 ∷ 0x00 ∷ [])
    ∷ (0x80 ∷ 0x00 ∷ 0xc0 ∷ 0x00 ∷ 0x60 ∷ 0x00 ∷ 0x30 ∷ 0x00 ∷ 0x18 ∷ 0x00 ∷ [])
    ∷ []

unfoldable pub mask_bursty_6 : List (List ℕ)
mask_bursty_6 =
    (0xfc ∷ 0x00 ∷ [])
    ∷ (0xa8 ∷ 0x00 ∷ 0xd4 ∷ 0x00 ∷ [])
    ∷ (0x94 ∷ 0x00 ∷ 0xc8 ∷ 0x00 ∷ 0x64 ∷ 0x00 ∷ [])
    ∷ (0x60 ∷ 0x00 ∷ 0x38 ∷ 0x00 ∷ 0x88 ∷ 0x00 ∷ 0xc4 ∷ 0x00 ∷ [])
    ∷ (0xc0 ∷ 0x00 ∷ 0x60 ∷ 0x00 ∷ 0x30 ∷ 0x00 ∷ 0x18 ∷ 0x00 ∷ 0x84 ∷ 0x00 ∷ [])
    ∷ (0x80 ∷ 0x00 ∷ 0xc0 ∷ 0x00 ∷ 0x60 ∷ 0x00 ∷ 0x30 ∷ 0x00 ∷ 0x18 ∷ 0x00 ∷ 0x0c ∷ 0x00 ∷ [])
    ∷ []

unfoldable pub mask_bursty_7 : List (List ℕ)
mask_bursty_7 =
    (0xfe ∷ 0x00 ∷ [])
    ∷ (0xd4 ∷ 0x00 ∷ 0xaa ∷ 0x00 ∷ [])
    ∷ (0xc8 ∷ 0x00 ∷ 0x74 ∷ 0x00 ∷ 0x92 ∷ 0x00 ∷ [])
    ∷ (0x38 ∷ 0x00 ∷ 0x8a ∷ 0x00 ∷ 0xc4 ∷ 0x00 ∷ 0x62 ∷ 0x00 ∷ [])
    ∷ (0x60 ∷ 0x00 ∷ 0x30 ∷ 0x00 ∷ 0x1c ∷ 0x00 ∷ 0x84 ∷ 0x00 ∷ 0xc2 ∷ 0x00 ∷ [])
    ∷ (0xc0 ∷ 0x00 ∷ 0x60 ∷ 0x00 ∷ 0x30 ∷ 0x00 ∷ 0x18 ∷ 0x00 ∷ 0x0c ∷ 0x00 ∷ 0x82 ∷ 0x00 ∷ [])
    ∷ (0x80 ∷ 0x00 ∷ 0xc0 ∷ 0x00 ∷ 0x60 ∷ 0x00 ∷ 0x30 ∷ 0x00 ∷ 0x18 ∷ 0x00 ∷ 0x0c ∷ 0x00 ∷ 0x06
        ∷ 0x00 ∷ [])
    ∷ []

unfoldable pub mask_bursty_8 : List (List ℕ)
mask_bursty_8 =
    (0xff ∷ 0x00 ∷ [])
    ∷ (0xaa ∷ 0x00 ∷ 0xd5 ∷ 0x00 ∷ [])
    ∷ (0x74 ∷ 0x00 ∷ 0x92 ∷ 0x00 ∷ 0xc9 ∷ 0x00 ∷ [])
    ∷ (0x8a ∷ 0x00 ∷ 0xc5 ∷ 0x00 ∷ 0x62 ∷ 0x00 ∷ 0x31 ∷ 0x00 ∷ [])
    ∷ (0x30 ∷ 0x00 ∷ 0x1c ∷ 0x00 ∷ 0x85 ∷ 0x00 ∷ 0xc2 ∷ 0x00 ∷ 0x61 ∷ 0x00 ∷ [])
    ∷ (0x60 ∷ 0x00 ∷ 0x30 ∷ 0x00 ∷ 0x18 ∷ 0x00 ∷ 0x0e ∷ 0x00 ∷ 0x82 ∷ 0x00 ∷ 0xc1 ∷ 0x00 ∷ [])
    ∷ (0xc0 ∷ 0x00 ∷ 0x60 ∷ 0x00 ∷ 0x30 ∷ 0x00 ∷ 0x18 ∷ 0x00 ∷ 0x0c ∷ 0x00 ∷ 0x06 ∷ 0x00 ∷ 0x81
        ∷ 0x00 ∷ [])
    ∷ (0x80 ∷ 0x00 ∷ 0xc0 ∷ 0x00 ∷ 0x60 ∷ 0x00 ∷ 0x30 ∷ 0x00 ∷ 0x18 ∷ 0x00 ∷ 0x0c ∷ 0x00 ∷ 0x06
        ∷ 0x00 ∷ 0x03 ∷ 0x00 ∷ [])
    ∷ []

unfoldable pub mask_bursty_9 : List (List ℕ)
mask_bursty_9 =
    (0xff ∷ 0x80 ∷ [])
    ∷ (0xd5 ∷ 0x00 ∷ 0xaa ∷ 0x80 ∷ [])
    ∷ (0x92 ∷ 0x00 ∷ 0xc9 ∷ 0x00 ∷ 0x74 ∷ 0x80 ∷ [])
    ∷ (0xc5 ∷ 0x00 ∷ 0x62 ∷ 0x00 ∷ 0x39 ∷ 0x00 ∷ 0x8a ∷ 0x80 ∷ [])
    ∷ (0x1c ∷ 0x00 ∷ 0x85 ∷ 0x00 ∷ 0xc2 ∷ 0x80 ∷ 0x61 ∷ 0x00 ∷ 0x30 ∷ 0x80 ∷ [])
    ∷ (0x30 ∷ 0x00 ∷ 0x18 ∷ 0x00 ∷ 0x0e ∷ 0x00 ∷ 0x82 ∷ 0x80 ∷ 0xc1 ∷ 0x00 ∷ 0x60 ∷ 0x80 ∷ [])
    ∷ (0x60 ∷ 0x00 ∷ 0x30 ∷ 0x00 ∷ 0x18 ∷ 0x00 ∷ 0x0c ∷ 0x00 ∷ 0x07 ∷ 0x00 ∷ 0x81 ∷ 0x00 ∷ 0xc0
        ∷ 0x80 ∷ [])
    ∷ (0xc0 ∷ 0x00 ∷ 0x60 ∷ 0x00 ∷ 0x30 ∷ 0x00 ∷ 0x18 ∷ 0x00 ∷ 0x0c ∷ 0x00 ∷ 0x06 ∷ 0x00 ∷ 0x03
        ∷ 0x00 ∷ 0x80 ∷ 0x80 ∷ [])
    ∷ (0x80 ∷ 0x00 ∷ 0xc0 ∷ 0x00 ∷ 0x60 ∷ 0x00 ∷ 0x30 ∷ 0x00 ∷ 0x18 ∷ 0x00 ∷ 0x0c ∷ 0x00 ∷ 0x06
        ∷ 0x00 ∷ 0x03 ∷ 0x00 ∷ 0x01 ∷ 0x80 ∷ [])
    ∷ []

unfoldable pub mask_bursty_10 : List (List ℕ)
mask_bursty_10 =
    (0xff ∷ 0xc0 ∷ [])
    ∷ (0xaa ∷ 0x80 ∷ 0xd5 ∷ 0x40 ∷ [])
    ∷ (0xc9 ∷ 0x00 ∷ 0x74 ∷ 0x80 ∷ 0x92 ∷ 0x40 ∷ [])
    ∷ (0x62 ∷ 0x00 ∷ 0x39 ∷ 0x00 ∷ 0x8a ∷ 0x80 ∷ 0xc5 ∷ 0x40 ∷ [])
    ∷ (0x85 ∷ 0x00 ∷ 0xc2 ∷ 0x80 ∷ 0x61 ∷ 0x40 ∷ 0x30 ∷ 0x80 ∷ 0x18 ∷ 0x40 ∷ [])
    ∷ (0x18 ∷ 0x00 ∷ 0x0e ∷ 0x00 ∷ 0x82 ∷ 0x80 ∷ 0xc1 ∷ 0x40 ∷ 0x60 ∷ 0x80 ∷ 0x30 ∷ 0x40 ∷ [])
    ∷ (0x30 ∷ 0x00 ∷ 0x18 ∷ 0x00 ∷ 0x0c ∷ 0x00 ∷ 0x07 ∷ 0x00 ∷ 0x81 ∷ 0x40 ∷ 0xc0 ∷ 0x80 ∷ 0x60
        ∷ 0x40 ∷ [])
    ∷ (0x60 ∷ 0x00 ∷ 0x30 ∷ 0x00 ∷ 0x18 ∷ 0x00 ∷ 0x0c ∷ 0x00 ∷ 0x06 ∷ 0x00 ∷ 0x03 ∷ 0x00 ∷ 0x80
        ∷ 0x80 ∷ 0xc0 ∷ 0x40 ∷ [])
    ∷ (0xc0 ∷ 0x00 ∷ 0x60 ∷ 0x00 ∷ 0x30 ∷ 0x00 ∷ 0x18 ∷ 0x00 ∷ 0x0c ∷ 0x00 ∷ 0x06 ∷ 0x00 ∷ 0x03
        ∷ 0x00 ∷ 0x01 ∷ 0x80 ∷ 0x80 ∷ 0x40 ∷ [])
    ∷ (0x80 ∷ 0x00 ∷ 0xc0 ∷ 0x00 ∷ 0x60 ∷ 0x00 ∷ 0x30 ∷ 0x00 ∷ 0x18 ∷ 0x00 ∷ 0x0c ∷ 0x00 ∷ 0x06
        ∷ 0x00 ∷ 0x03 ∷ 0x00 ∷ 0x01 ∷ 0x80 ∷ 0x00 ∷ 0xc0 ∷ [])
    ∷ []

unfoldable pub mask_bursty_11 : List (List ℕ)
mask_bursty_11 =
    (0xff ∷ 0xe0 ∷ [])
    ∷ (0xd5 ∷ 0x40 ∷ 0xaa ∷ 0xa0 ∷ [])
    ∷ (0x74 ∷ 0x80 ∷ 0x92 ∷ 0x40 ∷ 0xc9 ∷ 0x20 ∷ [])
    ∷ (0x39 ∷ 0x00 ∷ 0x8a ∷ 0x80 ∷ 0xc5 ∷ 0x40 ∷ 0x62 ∷ 0x20 ∷ [])
    ∷ (0xc2 ∷ 0xc0 ∷ 0x61 ∷ 0x00 ∷ 0x30 ∷ 0xa0 ∷ 0x1c ∷ 0x40 ∷ 0x85 ∷ 0x20 ∷ [])
    ∷ (0x0e ∷ 0x00 ∷ 0x82 ∷ 0x80 ∷ 0xc1 ∷ 0x40 ∷ 0x60 ∷ 0xa0 ∷ 0x30 ∷ 0x40 ∷ 0x18 ∷ 0x20 ∷ [])
    ∷ (0x18 ∷ 0x00 ∷ 0x0c ∷ 0x00 ∷ 0x07 ∷ 0x00 ∷ 0x81 ∷ 0x40 ∷ 0xc0 ∷ 0xa0 ∷ 0x60 ∷ 0x40 ∷ 0x30
        ∷ 0x20 ∷ [])
    ∷ (0x30 ∷ 0x00 ∷ 0x18 ∷ 0x00 ∷ 0x0c ∷ 0x00 ∷ 0x06 ∷ 0x00 ∷ 0x03 ∷ 0x40 ∷ 0x80 ∷ 0xa0 ∷ 0xc0
        ∷ 0x40 ∷ 0x60 ∷ 0x20 ∷ [])
    ∷ (0x60 ∷ 0x00 ∷ 0x30 ∷ 0x00 ∷ 0x18 ∷ 0x00 ∷ 0x0c ∷ 0x00 ∷ 0x06 ∷ 0x00 ∷ 0x03 ∷ 0x00 ∷ 0x01
        ∷ 0x80 ∷ 0x80 ∷ 0x40 ∷ 0xc0 ∷ 0x20 ∷ [])
    ∷ (0xc0 ∷ 0x00 ∷ 0x60 ∷ 0x00 ∷ 0x30 ∷ 0x00 ∷ 0x18 ∷ 0x00 ∷ 0x0c ∷ 0x00 ∷ 0x06 ∷ 0x00 ∷ 0x03
        ∷ 0x00 ∷ 0x01 ∷ 0x80 ∷ 0x00 ∷ 0xc0 ∷ 0x80 ∷ 0x20 ∷ [])
    ∷ (0x80 ∷ 0x00 ∷ 0xc0 ∷ 0x00 ∷ 0x60 ∷ 0x00 ∷ 0x30 ∷ 0x00 ∷ 0x18 ∷ 0x00 ∷ 0x0c ∷ 0x00 ∷ 0x06
        ∷ 0x00 ∷ 0x03 ∷ 0x00 ∷ 0x01 ∷ 0x80 ∷ 0x00 ∷ 0xc0 ∷ 0x00 ∷ 0x60 ∷ [])
    ∷ []

unfoldable pub mask_bursty_12 : List (List ℕ)
mask_bursty_12 =
    (0xff ∷ 0xf0 ∷ [])
    ∷ (0xaa ∷ 0xa0 ∷ 0xd5 ∷ 0x50 ∷ [])
    ∷ (0x92 ∷ 0x40 ∷ 0xc9 ∷ 0x20 ∷ 0x74 ∷ 0x90 ∷ [])
    ∷ (0x8a ∷ 0x80 ∷ 0xc5 ∷ 0x40 ∷ 0x62 ∷ 0x20 ∷ 0x39 ∷ 0x10 ∷ [])
    ∷ (0x61 ∷ 0x00 ∷ 0x30 ∷ 0xa0 ∷ 0x1c ∷ 0x50 ∷ 0x85 ∷ 0x20 ∷ 0xc2 ∷ 0x90 ∷ [])
    ∷ (0x82 ∷ 0x90 ∷ 0xc1 ∷ 0x40 ∷ 0x60 ∷ 0xa0 ∷ 0x30 ∷ 0x50 ∷ 0x18 ∷ 0x20 ∷ 0x0c ∷ 0x10 ∷ [])
    ∷ (0x0c ∷ 0x00 ∷ 0x07 ∷ 0x00 ∷ 0x81 ∷ 0x40 ∷ 0xc0 ∷ 0xa0 ∷ 0x60 ∷ 0x50 ∷ 0x30 ∷ 0x20 ∷ 0x18
        ∷ 0x10 ∷ [])
    ∷ (0x18 ∷ 0x00 ∷ 0x0c ∷ 0x00 ∷ 0x06 ∷ 0x00 ∷ 0x03 ∷ 0x00 ∷ 0x80 ∷ 0xa0 ∷ 0xc0 ∷ 0x50 ∷ 0x60
        ∷ 0x20 ∷ 0x30 ∷ 0x10 ∷ [])
    ∷ (0x30 ∷ 0x00 ∷ 0x18 ∷ 0x00 ∷ 0x0c ∷ 0x00 ∷ 0x06 ∷ 0x00 ∷ 0x03 ∷ 0x00 ∷ 0x01 ∷ 0x80 ∷ 0x80
        ∷ 0x50 ∷ 0xc0 ∷ 0x20 ∷ 0x60 ∷ 0x10 ∷ [])
    ∷ (0x60 ∷ 0x00 ∷ 0x30 ∷ 0x00 ∷ 0x18 ∷ 0x00 ∷ 0x0c ∷ 0x00 ∷ 0x06 ∷ 0x00 ∷ 0x03 ∷ 0x00 ∷ 0x01
        ∷ 0x80 ∷ 0x00 ∷ 0xc0 ∷ 0x80 ∷ 0x20 ∷ 0xc0 ∷ 0x10 ∷ [])
    ∷ (0xc0 ∷ 0x00 ∷ 0x60 ∷ 0x00 ∷ 0x30 ∷ 0x00 ∷ 0x18 ∷ 0x00 ∷ 0x0c ∷ 0x00 ∷ 0x06 ∷ 0x00 ∷ 0x03
        ∷ 0x00 ∷ 0x01 ∷ 0x80 ∷ 0x00 ∷ 0xc0 ∷ 0x00 ∷ 0x60 ∷ 0x80 ∷ 0x10 ∷ [])
    ∷ (0x80 ∷ 0x00 ∷ 0xc0 ∷ 0x00 ∷ 0x60 ∷ 0x00 ∷ 0x30 ∷ 0x00 ∷ 0x18 ∷ 0x00 ∷ 0x0c ∷ 0x00 ∷ 0x06
        ∷ 0x00 ∷ 0x03 ∷ 0x00 ∷ 0x01 ∷ 0x80 ∷ 0x00 ∷ 0xc0 ∷ 0x00 ∷ 0x60 ∷ 0x00 ∷ 0x30 ∷ [])
    ∷ []

unfoldable pub packet_mask_bursty_1 : List ℕ
unfolding mask_bursty_1 joined
packet_mask_bursty_1 = 1 ∷ joined mask_bursty_1

unfoldable pub packet_mask_bursty_2 : List ℕ
unfolding mask_bursty_2 joined
packet_mask_bursty_2 = 2 ∷ joined mask_bursty_2

unfoldable pub packet_mask_bursty_3 : List ℕ
unfolding mask_bursty_3 joined
packet_mask_bursty_3 = 3 ∷ joined mask_bursty_3

unfoldable pub packet_mask_bursty_4 : List ℕ
unfolding mask_bursty_4 joined
packet_mask_bursty_4 = 4 ∷ joined mask_bursty_4

unfoldable pub packet_mask_bursty_5 : List ℕ
unfolding mask_bursty_5 joined
packet_mask_bursty_5 = 5 ∷ joined mask_bursty_5

unfoldable pub packet_mask_bursty_6 : List ℕ
unfolding mask_bursty_6 joined
packet_mask_bursty_6 = 6 ∷ joined mask_bursty_6

unfoldable pub packet_mask_bursty_7 : List ℕ
unfolding mask_bursty_7 joined
packet_mask_bursty_7 = 7 ∷ joined mask_bursty_7

unfoldable pub packet_mask_bursty_8 : List ℕ
unfolding mask_bursty_8 joined
packet_mask_bursty_8 = 8 ∷ joined mask_bursty_8

unfoldable pub packet_mask_bursty_9 : List ℕ
unfolding mask_bursty_9 joined
packet_mask_bursty_9 = 9 ∷ joined mask_bursty_9

unfoldable pub packet_mask_bursty_10 : List ℕ
unfolding mask_bursty_10 joined
packet_mask_bursty_10 = 10 ∷ joined mask_bursty_10

unfoldable pub packet_mask_bursty_11 : List ℕ
unfolding mask_bursty_11 joined
packet_mask_bursty_11 = 11 ∷ joined mask_bursty_11

unfoldable pub packet_mask_bursty_12 : List ℕ
unfolding mask_bursty_12 joined
packet_mask_bursty_12 = 12 ∷ joined mask_bursty_12

unfoldable pub packet_mask_bursty_tbl : List ℕ
unfolding joined packet_mask_bursty_1 packet_mask_bursty_2 packet_mask_bursty_3 packet_mask_bursty_4
    packet_mask_bursty_5 packet_mask_bursty_6 packet_mask_bursty_7 packet_mask_bursty_8
    packet_mask_bursty_9 packet_mask_bursty_10 packet_mask_bursty_11 packet_mask_bursty_12
packet_mask_bursty_tbl =
    12
    ∷ joined (
        packet_mask_bursty_1 ∷ packet_mask_bursty_2 ∷ packet_mask_bursty_3 ∷ packet_mask_bursty_4
        ∷ packet_mask_bursty_5 ∷ packet_mask_bursty_6 ∷ packet_mask_bursty_7 ∷ packet_mask_bursty_8
        ∷ packet_mask_bursty_9 ∷ packet_mask_bursty_10 ∷ packet_mask_bursty_11
        ∷ packet_mask_bursty_12 ∷ [])

-- The macros by number of media packets.
unfoldable pub bursty_masks : List (List (List ℕ))
unfolding mask_bursty_1 mask_bursty_2 mask_bursty_3 mask_bursty_4 mask_bursty_5 mask_bursty_6
    mask_bursty_7 mask_bursty_8 mask_bursty_9 mask_bursty_10 mask_bursty_11 mask_bursty_12
bursty_masks =
    mask_bursty_1 ∷ mask_bursty_2 ∷ mask_bursty_3 ∷ mask_bursty_4 ∷ mask_bursty_5 ∷ mask_bursty_6
    ∷ mask_bursty_7 ∷ mask_bursty_8 ∷ mask_bursty_9 ∷ mask_bursty_10 ∷ mask_bursty_11
    ∷ mask_bursty_12 ∷ []
