-- ===== src/Payload/RoundTrip.antt =====
-- The NAL container read back: what BuildVideoPayload writes is what the container loop reads.
use m_extender.Prelude.{
  ℕ, zero, suc, ◌+◌, ◌-◌, ◌≤◌, ◌<◌, ◌^◌, ◌≡◌, ◌⊎◌, inl, refl, sym, ap, ◌∙◌, List, [], ◌∷◌, ◌++◌,
  length, take, drop, arith, append_assoc, append-nil, length-append, length-drop, drop-add,
  take-append, drop-append, All,
}
use m_extender.Prelude.Words.{u32}
use m_extender.Wire.{le, un_le, field}
use m_extender.Wire.Fields.{length-le, un_le-le}
use m_extender.Payload.{EncodedFrame, append_nals, build_video_payload, parse_container, nvenc_nals}

-- What may follow the container: fewer than four bytes, or a zero count.
abbrev pub IsTrailer : List ℕ → Type 0
IsTrailer t = (length t < 4) ⊎ (field 0 4 t ≡ 0)

field-le :
    (bytes rest : List ℕ) (pos n : ℕ)
    → n < 2 ^ 32
    → drop pos bytes ≡ le 4 n ++ rest
    → field pos 4 bytes ≡ n
unfolding field le
field-le bytes rest pos n h d = rw d (ap un_le (take-append (le 4 n) rest) ∙ un_le-le 4 n h)

stop :
    (fuel : ℕ) (bytes t : List ℕ) (pos : ℕ) (acc : List (List ℕ))
    → length bytes < 2 ^ 32
    → pos ≤ length bytes
    → drop pos bytes ≡ t
    → IsTrailer t
    → parse_container fuel bytes pos acc ≡ acc
unfolding parse_container field
stop zero bytes t pos acc b p d h = refl
stop (suc fuel) bytes t pos acc b p d h =
    ground (arith, ap length d, length-drop pos bytes, ap (field 0 4) d)

one_nal :
    (fuel : ℕ) (bytes nal : List ℕ) (pos n : ℕ) (acc : List (List ℕ))
    → length bytes < 2 ^ 32
    → field pos 4 bytes ≡ n
    → 0 < n
    → pos + 4 + n ≤ length bytes
    → take n (drop (pos + 4) bytes) ≡ nal
    → parse_container (suc fuel) bytes pos acc
      ≡ parse_container fuel bytes (pos + 4 + n) (acc ++ nal ∷ [])
unfolding parse_container
one_nal fuel bytes nal pos n acc b e z p t =
    let e1 : u32 (pos + 4) ≡ pos + 4 = omega arith in
    let e2 : u32 (pos + 4 + n) ≡ pos + 4 + n = omega arith in rw (e, e1, e2, t) (ground arith)

parse_nals :
    (nals : List (List ℕ)) (fuel : ℕ) (bytes t : List ℕ) (pos : ℕ) (acc : List (List ℕ))
    → length bytes < 2 ^ 32
    → pos ≤ length bytes
    → drop pos bytes ≡ append_nals nals ++ t
    → All (λ nal. 0 < length nal) nals
    → IsTrailer t
    → length (append_nals nals) ≤ fuel
    → parse_container fuel bytes pos acc ≡ acc ++ nals
unfolding append_nals
parse_nals [] fuel bytes t pos acc b p d a h f =
    stop fuel bytes t pos acc b p d h ∙ sym (append-nil acc)
parse_nals (nal ∷ nals) zero bytes t pos acc b p d a h f = absurd (omega arith)
parse_nals (nal ∷ nals) (suc fuel) bytes t pos acc b p d a h f =
    let n = length nal in
    let rest = append_nals nals ++ t in
    let d' : drop pos bytes ≡ le 4 (u32 n) ++ (nal ++ rest) =
      d
      ∙ append_assoc (le 4 (u32 n)) (nal ++ append_nals nals) t
      ∙ ap (λ l. le 4 (u32 n) ++ l) (append_assoc nal (append_nals nals) t) in
    let total : length bytes - pos ≡ 4 + (n + length rest) = omega (
      arith,
      length-drop pos bytes,
      ap length d',
      length-append (le 4 (u32 n)) (nal ++ rest),
      length-append nal rest,
      length-le 4 (u32 n),
    ) in
    let d4 : drop (pos + 4) bytes ≡ nal ++ rest = drop-add pos 4 bytes ∙ ap (drop 4) d' in
    let w : u32 n ≡ n = omega arith in
    one_nal fuel bytes nal pos n acc b
      (field-le bytes (nal ++ rest) pos (u32 n) (omega arith) d' ∙ w) a.0 (omega arith)
      (ap (take n) d4 ∙ take-append nal rest)
    ∙ parse_nals nals fuel bytes t (pos + 4 + n) (acc ++ nal ∷ []) b (omega arith)
        (drop-add (pos + 4) n bytes ∙ ap (drop n) d4 ∙ drop-append nal rest) a.1 h
        (omega (arith, length-append nal (append_nals nals)))
    ∙ append_assoc acc (nal ∷ []) nals

-- The container loop of the NVENC encoder returns exactly the units of a length-prefixed container
-- of less than 4 GiB, in order, when none of them is empty and what follows the container is a zero
-- count or shorter than a length field.
pub nvenc_nals-append_nals :
    (nals : List (List ℕ)) (trailer : List ℕ)
    → length (append_nals nals ++ trailer) < 2 ^ 32
    → All (λ nal. 0 < length nal) nals
    → IsTrailer trailer
    → nvenc_nals (append_nals nals ++ trailer) ≡ nals
unfolding nvenc_nals
nvenc_nals-append_nals nals t b a h =
    let bytes = append_nals nals ++ t in
    parse_nals nals (length bytes) bytes t 0 [] b (omega arith) refl a h
      (omega (arith, length-append (append_nals nals) t))

length-append_nals : (nals : List (List ℕ)) → length nals ≤ length (append_nals nals)
unfolding append_nals
length-append_nals [] = omega arith
length-append_nals (nal ∷ nals) =
    omega (arith, length-append nal (append_nals nals), length-append_nals nals)

-- A video payload starts with the number of its units, and the rest reads back as those units, for
-- a frame of less than 4 GiB with no empty unit.
pub build_video_payload_lem :
    (f : EncodedFrame)
    → length (build_video_payload f) < 2 ^ 32
    → All (λ nal. 0 < length nal) f.nals
    → (field 0 4 (build_video_payload f) ≡ length f.nals)
      × (nvenc_nals (drop 4 (build_video_payload f)) ≡ f.nals)
unfolding build_video_payload
build_video_payload_lem f b a =
    let n = length f.nals in
    let count = length-append_nals f.nals in
    let w : u32 n ≡ n = omega arith in
    let e = append-nil (append_nals f.nals) in
    (
      field-le _ (append_nals f.nals) 0 (u32 n) (omega arith) refl ∙ w,
      ap nvenc_nals (sym e)
          ∙ nvenc_nals-append_nals f.nals [] (rw e (omega arith)) a (inl (omega arith)),
    )
