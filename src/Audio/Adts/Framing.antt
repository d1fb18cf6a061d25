-- ===== src/Audio/Adts/Framing.antt =====
-- The ADTS framing of host/src/audio/aac.cpp, and the output type that is chosen.
use m_extender.Prelude.Words.{u32}
use m_extender.Prelude.{
  append-nil, ℕ, zero, suc, ◌+◌, ◌*◌, ◌/◌, ◌%◌, ◌<◌, ◌≡◌, refl, ap, ap₂, sym, ◌∙◌, Bool, true,
  false, ◌&&◌, List, [], ◌∷◌, ◌++◌, some, length, get_or, take, drop, arith, All, ltb, ◌==◌,
  all_below, all_below_sound, bit_or, ==_iff, append_assoc, take-append, drop-append,
}
use m_extender.Audio.Adts.{
  sampling_frequency_index, write_adts, Impl, Outputs, need_more_input, failed, produced,
  encode_loop, encode,
}

-- The fields of an ADTS header as a decoder reads them: ISO/IEC 13818-7, 6.2.
pub record AdtsFields : Type 0 where
  pub sync : ℕ
  pub profile : ℕ
  pub frequency_index : ℕ
  pub channels : ℕ
  pub frame_length : ℕ

abbrev byte_at : List ℕ → ℕ → ℕ
byte_at bs i = get_or bs i 0

unfoldable pub read_adts : List ℕ → AdtsFields
read_adts bs = record {
  sync = byte_at bs 0 * 16 + byte_at bs 1 / 16;
  profile = byte_at bs 2 / 64;
  frequency_index = byte_at bs 2 / 4 % 16;
  channels = byte_at bs 2 % 2 * 4 + byte_at bs 3 / 64;
  frame_length = byte_at bs 3 % 4 * 2048 + byte_at bs 4 * 8 + byte_at bs 5 / 32;
}

-- The OR of disjoint fields is their sum.
byte_two_test : ℕ → ℕ → Bool
byte_two_test f c = bit_or (bit_or 64 (f * 4)) (c / 4) == 64 + f * 4 + c / 4

byte_two :
    (sf ch : ℕ) → sf < 16 → ch < 8 → bit_or (bit_or 64 (sf * 4)) (ch / 4) ≡ 64 + sf * 4 + ch / 4
unfolding byte_two_test
byte_two sf ch h k = (==_iff _ _).0 (
    all_below_sound 8 (byte_two_test sf) ch
      (all_below_sound 16 (λ f. all_below 8 (byte_two_test f)) sf refl h) k)

byte_three_test : ℕ → ℕ → Bool
byte_three_test c f = bit_or (c * 64) f == c * 64 + f

byte_three : (c f : ℕ) → c < 4 → f < 4 → bit_or (c * 64) f ≡ c * 64 + f
unfolding byte_three_test
byte_three c f h k = (==_iff _ _).0 (
    all_below_sound 4 (byte_three_test c) f
      (all_below_sound 4 (λ c. all_below 4 (byte_three_test c)) c refl h) k)

byte_five_test : ℕ → Bool
byte_five_test f = bit_or (f * 32) 31 == f * 32 + 31

byte_five : (f : ℕ) → f < 8 → bit_or (f * 32) 31 ≡ f * 32 + 31
unfolding byte_five_test
byte_five f h = (==_iff _ _).0 (all_below_sound 8 byte_five_test f refl h)

sampling_frequency_index_bound : (rate : ℕ) → sampling_frequency_index rate < 16
unfolding sampling_frequency_index
sampling_frequency_index_bound rate = ground arith

-- The header of a frame of fewer than 8192 bytes, header included, for fewer than 8 channels: a decoder reads
-- the sync word, the LC profile, the index of the rate, the channels and the length of the frame.
pub read_adts-write_adts :
    (frame_len rate channels : ℕ) (rest : List ℕ)
    → frame_len < 8192
    → channels < 8
    → read_adts (write_adts frame_len rate channels ++ rest) ≡ record {
      sync = 4095;
      profile = 1;
      frequency_index = sampling_frequency_index rate;
      channels = channels;
      frame_length = frame_len;
    }
unfolding read_adts write_adts
read_adts-write_adts frame_len rate channels rest l c =
    let b = sampling_frequency_index_bound rate in
    let two = byte_two (sampling_frequency_index rate) (channels % 256) b (omega (arith, c)) in
    let three =
      byte_three (channels % 256 % 4) (frame_len / 2048 % 4) (omega arith) (omega arith) in
    let five = byte_five (frame_len % 8) (omega arith) in ground (arith, l, c, b, two, three, five)

-- A decoder's walk over at most n frames: the length in each header leads to the next one.
unfoldable pub split_adts : ℕ → List ℕ → List (List ℕ)
unfolding read_adts
split_adts zero bytes = []
split_adts (suc n) bytes =
    let len = (read_adts bytes).frame_length in
    drop 7 (take len bytes) ∷ split_adts n (drop len bytes)

-- The raw frames that the transform produced, and whether it ended without a failure.
abbrev pub raw_frames : Outputs → List (List ℕ)
raw_frames need_more_input = []
raw_frames failed = []
raw_frames (produced raw rest) = raw ∷ raw_frames rest

abbrev pub succeeds : Outputs → Bool
succeeds need_more_input = true
succeeds failed = false
succeeds (produced raw rest) = succeeds rest

-- A raw frame that fits the 13 bits of the header's length.
abbrev pub Fits : List ℕ → Type 0
Fits raw = length raw + 7 < 8192

adts_stream : Impl → List (List ℕ) → List ℕ
adts_stream impl [] = []
adts_stream impl (raw ∷ raws) =
    write_adts (length raw + 7) impl.rate impl.channels ++ (raw ++ adts_stream impl raws)

encode_loop_lem :
    (impl : Impl) (o : Outputs) (out : List ℕ)
    → All Fits (raw_frames o)
    → encode_loop impl o out ≡ (succeeds o, out ++ adts_stream impl (raw_frames o))
unfolding encode_loop adts_stream
encode_loop_lem impl need_more_input out f = ap (λ l. (true, l)) (sym (append-nil out))
encode_loop_lem impl failed out f = ap (λ l. (false, l)) (sym (append-nil out))
encode_loop_lem impl (produced raw rest) out f =
    let w = write_adts (length raw + 7) impl.rate impl.channels in
    let tail = adts_stream impl (raw_frames rest) in
    let u : u32 (length raw + 7) ≡ length raw + 7 = omega (arith, f.0) in
    ap (λ n. encode_loop impl rest (out ++ (write_adts n impl.rate impl.channels ++ raw))) u
    ∙ encode_loop_lem impl rest (out ++ (w ++ raw)) f.1
    ∙ ap (λ l. (succeeds rest, l))
        (append_assoc out (w ++ raw) tail ∙ ap (λ l. out ++ l) (append_assoc w raw tail))

seven_more : (n : ℕ) → n + 7 ≡ suc (suc (suc (suc (suc (suc (suc n))))))
seven_more n = omega arith

take-adts :
    (n rate channels : ℕ) (raw tail : List ℕ)
    → take (length raw + 7) (write_adts n rate channels ++ (raw ++ tail))
      ≡ write_adts n rate channels ++ raw
unfolding write_adts
take-adts n rate channels raw tail =
    rw (seven_more (length raw)) (ap (λ l. write_adts n rate channels ++ l) (take-append raw tail))

drop-adts :
    (n rate channels : ℕ) (raw tail : List ℕ)
    → drop (length raw + 7) (write_adts n rate channels ++ (raw ++ tail)) ≡ tail
unfolding write_adts
drop-adts n rate channels raw tail = rw (seven_more (length raw)) (drop-append raw tail)

drop_seven : (n rate channels : ℕ) (raw : List ℕ) → drop 7 (write_adts n rate channels ++ raw) ≡ raw
unfolding write_adts
drop_seven n rate channels raw = refl

split_adts-adts_stream :
    (impl : Impl) (raws : List (List ℕ))
    → impl.channels < 8
    → All Fits raws
    → split_adts (length raws) (adts_stream impl raws) ≡ raws
unfolding split_adts adts_stream
split_adts-adts_stream impl [] c f = refl
split_adts-adts_stream impl (raw ∷ raws) c f =
    let n = length raw + 7 in
    let tail = adts_stream impl raws in
    let bytes = write_adts n impl.rate impl.channels ++ (raw ++ tail) in
    let e : (read_adts bytes).frame_length ≡ n =
      ap (λ r. r.frame_length)
        (read_adts-write_adts n impl.rate impl.channels (raw ++ tail) f.0 c) in
    ap (λ k. drop 7 (take k bytes) ∷ split_adts (length raws) (drop k bytes)) e
    ∙ ap₂ (λ l m. drop 7 l ∷ split_adts (length raws) m)
        (take-adts n impl.rate impl.channels raw tail)
        (drop-adts n impl.rate impl.channels raw tail)
    ∙ ap₂ (λ l m. l ∷ m) (drop_seven n impl.rate impl.channels raw)
        (split_adts-adts_stream impl raws c f.1)

nonempty :
    (impl : Impl) (raws : List (List ℕ))
    → ltb 0 (length (adts_stream impl raws)) ≡ ltb 0 (length raws)
unfolding adts_stream write_adts
nonempty impl [] = refl
nonempty impl (raw ∷ raws) = ground arith

-- Encode into an empty buffer, with a prepared input that the transform took, fewer than 8 channels and raw frames
-- of fewer than 8185 bytes: a decoder that walks the bytes gets the raw frames back, in order. The call
-- succeeds exactly when the transform did and there are bytes, and the clock of the samples moves on by their
-- duration in units of 100 ns.
pub split_adts-encode :
    (impl : Impl) (o : Outputs) (samples : ℕ)
    → impl.channels < 8
    → All Fits (raw_frames o)
    → let r = encode (some impl) true true o samples [] in
      (split_adts (length (raw_frames o)) r.1.1 ≡ raw_frames o)
      × (r.1.0 ≡ (succeeds o && ltb 0 (length (raw_frames o))))
      × (r.0
          ≡ some (record impl { sample_time = impl.sample_time + samples * 10000000 / impl.rate }))
unfolding encode
split_adts-encode impl o samples c f =
    let later = record impl { sample_time = impl.sample_time + samples * 10000000 / impl.rate } in
    let e = encode_loop_lem later o [] f in
    (
      ap (λ p. split_adts (length (raw_frames o)) p.1) e
          ∙ split_adts-adts_stream later (raw_frames o) c f,
      ap (λ p. p.0 && ltb 0 (length p.1)) e
          ∙ ap (λ b. succeeds o && b) (nonempty later (raw_frames o)),
      refl,
    )
