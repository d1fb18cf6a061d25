-- ===== src/Driver/Edid/Block.antt =====
-- The EDID of driver/src/Driver.cpp, k_TwinScreenEdid, and what LoadConfiguration keeps of it.
use m_extender.Prelude.{ℕ, ◌%◌, ◌≡◌, refl, List, [], ◌∷◌, length, drop}
use m_extender.Driver.Edid.{sum_first, with_checksum, calculate_edid_checksum}

abbrev pub twin_screen_edid : List ℕ
twin_screen_edid =
    0x00 ∷ 0xff ∷ 0xff ∷ 0xff ∷ 0xff ∷ 0xff ∷ 0xff ∷ 0x00 ∷ 0x36 ∷ 0x94 ∷ 0x37 ∷ 0x13 ∷ 0xe7 ∷ 0x1e
    ∷ 0xe7 ∷ 0x1e ∷ 0x1c ∷ 0x22 ∷ 0x01 ∷ 0x03 ∷ 0x80 ∷ 0x32 ∷ 0x1f ∷ 0x78 ∷ 0x07 ∷ 0xee ∷ 0x95
    ∷ 0xa3 ∷ 0x54 ∷ 0x4c ∷ 0x99 ∷ 0x26 ∷ 0x0f ∷ 0x50 ∷ 0x54 ∷ 0x00 ∷ 0x00 ∷ 0x00 ∷ 0x01 ∷ 0x01
    ∷ 0x01 ∷ 0x01 ∷ 0x01 ∷ 0x01 ∷ 0x01 ∷ 0x01 ∷ 0x01 ∷ 0x01 ∷ 0x01 ∷ 0x01 ∷ 0x01 ∷ 0x01 ∷ 0x01
    ∷ 0x01 ∷ 0x02 ∷ 0x3a ∷ 0x80 ∷ 0x18 ∷ 0x71 ∷ 0x38 ∷ 0x2d ∷ 0x40 ∷ 0x58 ∷ 0x2c ∷ 0x45 ∷ 0x00
    ∷ 0x63 ∷ 0xc8 ∷ 0x10 ∷ 0x00 ∷ 0x00 ∷ 0x06 ∷ 0x00 ∷ 0x00 ∷ 0x00 ∷ 0xfd ∷ 0x00 ∷ 0x17 ∷ 0xf0
    ∷ 0x0f ∷ 0xff ∷ 0x37 ∷ 0x00 ∷ 0x0a ∷ 0x20 ∷ 0x20 ∷ 0x20 ∷ 0x20 ∷ 0x20 ∷ 0x20 ∷ 0x00 ∷ 0x00
    ∷ 0x00 ∷ 0x10 ∷ 0x00 ∷ 0x00 ∷ 0x00 ∷ 0x00 ∷ 0x00 ∷ 0x00 ∷ 0x00 ∷ 0x00 ∷ 0x00 ∷ 0x00 ∷ 0x00
    ∷ 0x00 ∷ 0x00 ∷ 0x00 ∷ 0x00 ∷ 0x00 ∷ 0x00 ∷ 0xfc ∷ 0x00 ∷ 0x56 ∷ 0x44 ∷ 0x44 ∷ 0x20 ∷ 0x62
    ∷ 0x79 ∷ 0x20 ∷ 0x4d ∷ 0x54 ∷ 0x54 ∷ 0x0a ∷ 0x20 ∷ 0x20 ∷ 0x01 ∷ 0xc2 ∷ 0x02 ∷ 0x03 ∷ 0x20
    ∷ 0x40 ∷ 0xe6 ∷ 0x06 ∷ 0x0d ∷ 0x01 ∷ 0xa2 ∷ 0xa2 ∷ 0x10 ∷ 0xe3 ∷ 0x05 ∷ 0xd8 ∷ 0x00 ∷ 0x67
    ∷ 0xd8 ∷ 0x5d ∷ 0xc4 ∷ 0x01 ∷ 0x6e ∷ 0x80 ∷ 0x00 ∷ 0x68 ∷ 0x03 ∷ 0x0c ∷ 0x00 ∷ 0x00 ∷ 0x00
    ∷ 0x30 ∷ 0x00 ∷ 0x0b ∷ 0x00 ∷ 0x00 ∷ 0x00 ∷ 0x00 ∷ 0x00 ∷ 0x00 ∷ 0x00 ∷ 0x00 ∷ 0x00 ∷ 0x00
    ∷ 0x00 ∷ 0x00 ∷ 0x00 ∷ 0x00 ∷ 0x00 ∷ 0x00 ∷ 0x00 ∷ 0x00 ∷ 0x00 ∷ 0x00 ∷ 0x00 ∷ 0x00 ∷ 0x00
    ∷ 0x00 ∷ 0x00 ∷ 0x00 ∷ 0x00 ∷ 0x00 ∷ 0x00 ∷ 0x00 ∷ 0x00 ∷ 0x00 ∷ 0x00 ∷ 0x00 ∷ 0x00 ∷ 0x00
    ∷ 0x00 ∷ 0x00 ∷ 0x00 ∷ 0x00 ∷ 0x00 ∷ 0x00 ∷ 0x00 ∷ 0x00 ∷ 0x00 ∷ 0x00 ∷ 0x00 ∷ 0x00 ∷ 0x00
    ∷ 0x00 ∷ 0x00 ∷ 0x00 ∷ 0x00 ∷ 0x00 ∷ 0x00 ∷ 0x00 ∷ 0x00 ∷ 0x00 ∷ 0x00 ∷ 0x00 ∷ 0x00 ∷ 0x00
    ∷ 0x00 ∷ 0x00 ∷ 0x00 ∷ 0x00 ∷ 0x00 ∷ 0x00 ∷ 0x00 ∷ 0x00 ∷ 0x00 ∷ 0x00 ∷ 0x00 ∷ 0x00 ∷ 0x00
    ∷ 0x00 ∷ 0x00 ∷ 0x00 ∷ 0x00 ∷ 0x00 ∷ 0x00 ∷ 0x00 ∷ 0x00 ∷ 0x00 ∷ 0x00 ∷ 0x00 ∷ 0x00 ∷ 0x00
    ∷ 0x00 ∷ 0x00 ∷ 0x00 ∷ 0x00 ∷ 0x00 ∷ 0x00 ∷ 0x00 ∷ 0x8c ∷ []

-- s_KnownMonitorEdid after LoadConfiguration.
unfoldable pub known_monitor_edid : List ℕ
unfolding with_checksum
known_monitor_edid = with_checksum twin_screen_edid

-- The sum of the whole base block, and of the extension that follows it, is 0 modulo 256.
blocks_valid :
    (length known_monitor_edid ≡ 256)
    × (sum_first 128 known_monitor_edid % 256 ≡ 0)
    × (sum_first 128 (drop 128 known_monitor_edid) % 256 ≡ 0)
unfolding known_monitor_edid sum_first calculate_edid_checksum
blocks_valid = (refl, refl, refl)

-- The byte in the array is the one that is computed.
checksum_kept : known_monitor_edid ≡ twin_screen_edid
unfolding known_monitor_edid sum_first calculate_edid_checksum
checksum_kept = refl
