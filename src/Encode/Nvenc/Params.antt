-- ===== src/Encode/Nvenc/Params.antt =====
-- The parameters that NvEncoder of host/src/encode/nvenc.cpp hands to the NVENC library in Configure and in SetBitrate.
-- Versions, GUIDs and handles are left out.
use m_extender.Prelude.{ℕ, ◌*◌, ◌/◌, ◌≤◌, ◌≡◌, refl, Bool, true, false, arith}
use m_extender.Prelude.Words.{u32}
use m_extender.Encode.Nvenc.{NvEncoder, Answers, set_bitrate}
use m_extender.Session.{clamp_bitrate}

-- rcParams, with a constant bitrate.
pub record RateControl : Type 0 where
  pub average_bit_rate : ℕ
  pub max_bit_rate : ℕ
  pub vbv_buffer_size : ℕ
  pub vbv_initial_delay : ℕ
  pub enable_lookahead : Bool
  pub enable_temporal_aq : Bool

-- NV_ENC_CONFIG.
pub record EncodeConfig : Type 0 where
  pub gop_length : ℕ
  pub frame_interval_p : ℕ
  pub rc_params : RateControl
  pub disable_sps_pps : Bool
  pub repeat_sps_pps : Bool
  pub idr_period : ℕ

-- NV_ENC_INITIALIZE_PARAMS, with the config that it points to.
pub record InitializeParams : Type 0 where
  pub encode_width : ℕ
  pub encode_height : ℕ
  pub dar_width : ℕ
  pub dar_height : ℕ
  pub frame_rate_num : ℕ
  pub frame_rate_den : ℕ
  pub enable_encode_async : Bool
  pub enable_ptd : Bool
  pub encode_config : EncodeConfig

-- bitrate * 12 / 10 of uint32_t.
abbrev pub max_of : ℕ → ℕ
max_of bitrate = u32 (bitrate * 12) / 10

-- The frame rate is not 0: the host starts every encoder with 30.
unfoldable pub configure : NvEncoder → InitializeParams
configure e = record {
  encode_width = e.w;
  encode_height = e.h;
  dar_width = e.w;
  dar_height = e.h;
  frame_rate_num = e.fps;
  frame_rate_den = 1;
  enable_encode_async = false;
  enable_ptd = true;
  encode_config = record {
    gop_length = u32 (e.fps * 2);
    frame_interval_p = 1;
    rc_params = record {
      average_bit_rate = e.bitrate;
      max_bit_rate = max_of e.bitrate;
      vbv_buffer_size = e.bitrate / e.fps;
      vbv_initial_delay = e.bitrate / e.fps;
      enable_lookahead = false;
      enable_temporal_aq = true;
    };
    disable_sps_pps = false;
    repeat_sps_pps = true;
    idr_period = u32 (e.fps * 2);
  };
}

-- What SetBitrate writes into the parameters that Configure kept.
unfoldable pub reconfigure : ℕ → ℕ → InitializeParams → InitializeParams
reconfigure bitrate fps p =
    let config = p.encode_config in
    record p {
      encode_config = record config {
        rc_params = record (config.rc_params) {
          average_bit_rate = bitrate;
          max_bit_rate = max_of bitrate;
          vbv_buffer_size = bitrate / fps;
          vbv_initial_delay = bitrate / fps;
        };
      };
    }

-- What a bitrate has to be for the library: the maximum is the average and a fifth of it, with no wrap-around.
abbrev pub Consistent : RateControl → Type 0
Consistent r =
    (r.max_bit_rate ≡ r.average_bit_rate * 12 / 10)
    × (r.average_bit_rate ≤ r.max_bit_rate)
    × (r.vbv_initial_delay ≡ r.vbv_buffer_size)

max_of_lem : (b : ℕ) → b ≤ 40000000 → (max_of b ≡ b * 12 / 10) × (b ≤ max_of b)
max_of_lem b h = (omega arith, omega arith)

clamp_bitrate-le : (asked : ℕ) → clamp_bitrate asked ≤ 40000000
unfolding clamp_bitrate
clamp_bitrate-le asked = ground arith

-- For every bitrate that the tablet can ask for, after main has clamped it, and whether the reconfiguration
-- succeeds or not: SetBitrate on a configured encoder with its library hands over exactly the parameters that Configure would
-- build for the encoder that it leaves, and their rates are consistent.
pub reconfigure-configure :
    (a : Answers) (asked : ℕ) (e : NvEncoder)
    → e.configured ≡ true
    → e.api ≡ true
    → let bitrate = clamp_bitrate asked in
      let p = reconfigure bitrate e.fps (configure e) in
      (p ≡ configure (set_bitrate a bitrate e).0) × Consistent (p.encode_config.rc_params)
unfolding configure reconfigure set_bitrate
reconfigure-configure a asked e c l =
    let (m, n) = max_of_lem (clamp_bitrate asked) (clamp_bitrate-le asked) in
    (rw (c, l) refl, (m, n, refl))
