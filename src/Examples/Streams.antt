-- ===== src/Examples/Streams.antt =====
-- A small Annex B stream and its container, and a picture of two by two pixels.
use m_extender.Prelude.{ℕ, ◌≡◌, ◌<◌, true, false, List, [], ◌∷◌, length, drop, arith}
use m_extender.Wire.{field, le}
use m_extender.Nal.{split_annex_b}
use m_extender.Nal.Split.{Unit3, annex_b, IsNal, split_annex_b-annex_b}
use m_extender.Payload.{EncodedFrame, append_nals, build_video_payload, nvenc_nals}
use m_extender.Payload.RoundTrip.{build_video_payload_lem}

abbrev units : List Unit3
units =
    record { long_code = true; nal = 103 ∷ 0 ∷ 66 ∷ [] }
    ∷ record { long_code = false; nal = 101 ∷ 9 ∷ [] }
    ∷ []

first-IsNal : IsNal (103 ∷ 0 ∷ 66 ∷ [])
first-IsNal = ground arith

second-IsNal : IsNal (101 ∷ 9 ∷ [])
second-IsNal = ground arith

split_annex_b-annex_b_example :
    split_annex_b (annex_b units) ≡ (103 ∷ 0 ∷ 66 ∷ []) ∷ (101 ∷ 9 ∷ []) ∷ []
split_annex_b-annex_b_example = split_annex_b-annex_b units (first-IsNal, (second-IsNal, tt))

abbrev nals : List (List ℕ)
nals = (103 ∷ 66 ∷ []) ∷ (101 ∷ []) ∷ []

abbrev encoded : EncodedFrame
encoded = record { keyframe = true; codec = 0; nals = nals; raw = [] }

small_payload : length (build_video_payload encoded) < 4294967296
unfolding build_video_payload append_nals le
small_payload = omega arith

build_video_payload_lem_example :
    (field 0 4 (build_video_payload encoded) ≡ 2)
    × (nvenc_nals (drop 4 (build_video_payload encoded)) ≡ nals)
build_video_payload_lem_example =
    build_video_payload_lem encoded small_payload (omega arith, (omega arith, tt))
