-- ===== src/Session/Encoder/Raw.antt =====
-- NullEncoder of host/src/encode/encoder.cpp as the encoder of the main loop: what Resize sets, and what keeps it.
use m_extender.Prelude.{ℕ, ◌≡◌, refl, false}
use m_extender.Encode.Buffers.{Direct3D, Texture}
use m_extender.Encode.Null
use m_extender.Encode.Null.{NullEncoder}
use m_extender.Scale.{Source}
use m_extender.Session.Encoder.{Encoder}
use m_extender.Session.Encoder.Size.{Sizes}

-- Direct3D, and the texture for each source.
abbrev pub null_encoder : Encoder
null_encoder = record {
  E = NullEncoder;
  A = Direct3D × (Source → Texture);
  encode = λ a source e. Null.encode a.0 (a.1 source) e;
  resize = λ a w h e. Null.resize w h e;
  request = λ e. e;
  change_bitrate = λ a b e. (e, false);
}

-- The size that the next raw frames have.
abbrev pub IsAt : NullEncoder → ℕ × ℕ → Type 0
IsAt e p = (e.w, e.h) ≡ p

pub resize-IsAt : (w h : ℕ) (e : NullEncoder) → IsAt (Null.resize w h e).0 (w, h)
unfolding Null.resize
resize-IsAt w h e = refl

pub encode-IsAt :
    (d3d : Direct3D) (frame : Texture) (e : NullEncoder) (p : ℕ × ℕ)
    → IsAt e p
    → IsAt (Null.encode d3d frame e).0 p
unfolding Null.encode
encode-IsAt d3d frame e p at = at

abbrev pub null-Sizes : Sizes null_encoder
null-Sizes = record {
  At = IsAt;
  At-resize = λ a w k e p at ok. resize-IsAt w k e;
  At-encode = λ a source e p at. encode-IsAt a.0 (a.1 source) e p at;
  At-request = λ e p at. at;
  At-change_bitrate = λ a b e p at. at;
}
