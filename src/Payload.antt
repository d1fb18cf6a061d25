-- ===== src/Payload.antt =====
-- The video payload: BuildVideoPayload of host/src/main.cpp, and the length-prefixed container that
-- NvEncoder::Encode reads (the parse loop in host/src/encode/nvenc.cpp). `pos`, `len` and `size`
-- there are uint32_t, so their sums wrap. A range past the buffer is cut at its end here.
pub mod RoundTrip
use m_extender.Prelude.{
  ℕ, Bool, zero, suc, ◌+◌, ◌-◌, ◌%◌, List, [], ◌∷◌, ◌++◌, length, take, drop, ltb, leb, ◌==◌, ◌||◌,
  if◌then◌else◌,
}
use m_extender.Prelude.Words.{u32}
use m_extender.Wire.{le, field}

-- struct EncodedFrame of host/src/encode/encoder.h.
pub record EncodedFrame : Type 0 where
  pub keyframe : Bool
  pub codec : ℕ
  pub nals : List (List ℕ)
  pub raw : List ℕ

-- The loop over the NAL units.
unfoldable pub append_nals : List (List ℕ) → List ℕ
unfolding le
append_nals [] = []
append_nals (nal ∷ nals) = le 4 (u32 (length nal)) ++ (nal ++ append_nals nals)

unfoldable pub build_video_payload : EncodedFrame → List ℕ
unfolding append_nals
build_video_payload f = le 4 (u32 (length f.nals)) ++ append_nals f.nals

-- `size - pos` on uint32_t.
unfoldable pub left : ℕ → ℕ → ℕ
left size pos = (size + 4294967296 - pos) % 4294967296

unfoldable pub parse_container : ℕ → List ℕ → ℕ → List (List ℕ) → List (List ℕ)
unfolding left
parse_container zero bytes pos nals = nals
parse_container (suc fuel) bytes pos nals =
    let size = u32 (length bytes) in
    let len = field pos 4 bytes in
    let begin = u32 (pos + 4) in
    let rest =
      parse_container fuel bytes (u32 (begin + len)) (nals ++ take len (drop begin bytes) ∷ []) in
    if leb 4 (left size pos)
    then (if len == 0 || ltb size (u32 (begin + len)) then nals else rest)
    else nals

unfoldable pub nvenc_nals : List ℕ → List (List ℕ)
nvenc_nals bytes = parse_container (length bytes) bytes 0 []
