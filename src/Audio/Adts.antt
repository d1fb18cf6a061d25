-- ===== src/Audio/Adts.antt =====
-- host/src/audio/aac.cpp: the ADTS header and the Encode loop around the Media Foundation transform, and the choice of
-- an output type.
pub mod Choice
pub mod Framing
use m_extender.Prelude.{
  ℕ, zero, suc, ◌+◌, ◌-◌, ◌*◌, ◌/◌, ◌%◌, Bool, true, false, ◌&&◌, not, ◌||◌, List, [], ◌∷◌, ◌++◌,
  Option, none, some, length, ltb, leb, ◌==◌, if◌then◌else◌, bit_or,
}
use m_extender.Prelude.Words.{u8, u32}

unfoldable pub sampling_frequency_index : ℕ → ℕ
sampling_frequency_index rate =
    if rate == 96000
    then 0
    else if rate == 88200
    then 1
    else if rate == 64000
    then 2
    else if rate == 48000
    then 3
    else if rate == 44100
    then 4
    else if rate == 32000
    then 5
    else if rate == 24000
    then 6
    else if rate == 22050
    then 7
    else if rate == 16000
    then 8
    else 3

-- The seven bytes of the header. The casts to uint8_t are of values below 256 but for the channels.
unfoldable pub write_adts : ℕ → ℕ → ℕ → List ℕ
unfolding sampling_frequency_index
write_adts frame_len rate channels =
    let sf = sampling_frequency_index rate in
    let cc = u8 channels in
    255
    ∷ 241
    ∷ u8 (bit_or (bit_or 64 (sf * 4)) (cc / 4))
    ∷ bit_or (cc % 4 * 64) (frame_len / 2048 % 4)
    ∷ frame_len / 8 % 256
    ∷ bit_or (frame_len % 8 * 32) 31
    ∷ 252
    ∷ []

-- Impl, the fields that the loop uses.
pub record Impl : Type 0 where
  pub rate : ℕ
  pub channels : ℕ
  pub block_align : ℕ
  pub sample_time : ℕ

-- What the transform answers to ProcessOutput (and the calls around it) until the loop ends.
pub data Outputs : Type 0 where
  need_more_input : Outputs
  failed : Outputs
  produced : List ℕ → Outputs → Outputs

-- The loop of Encode: the bytes appended, and false on a failure.
unfoldable pub encode_loop : Impl → Outputs → List ℕ → Bool × List ℕ
unfolding write_adts
encode_loop impl need_more_input out = (true, out)
encode_loop impl failed out = (false, out)
encode_loop impl (produced raw rest) out =
    encode_loop impl rest
      (out ++ (write_adts (u32 (length raw + 7)) impl.rate impl.channels ++ raw))

-- Encode on `samples` frames; `prepared` and `taken` tell whether the input buffer could be made and whether
-- ProcessInput succeeded.
unfoldable pub encode :
    Option Impl → Bool → Bool → Outputs → ℕ → List ℕ → Option Impl × (Bool × List ℕ)
unfolding encode_loop
encode none prepared taken outputs samples out = (none, (false, out))
encode (some impl) prepared taken outputs samples out =
    let later = record impl { sample_time = impl.sample_time + samples * 10000000 / impl.rate } in
    let (ok, out') = encode_loop later outputs out in
    if prepared && taken
    then (some later, (ok && ltb (length out) (length out'), out'))
    else (some impl, (false, out))

-- An output type that the transform offers: `aac` for the subtype test.
pub record OutputType : Type 0 where
  pub aac : Bool
  pub rate : ℕ
  pub channels : ℕ
  pub bytes : ℕ

-- |a - b| on int, for rates below 2 ^ 31.
abbrev pub distance : ℕ → ℕ → ℕ
distance a b = if ltb a b then b - a else a - b

abbrev pub suits : ℕ → ℕ → OutputType → Bool
suits rate channels t = t.aac && (t.rate == rate && t.channels == channels)

-- The loop of ChooseOutputType, with the best type and its difference so far.
unfoldable pub choose_loop : ℕ → ℕ → ℕ → List OutputType → ℕ → Option OutputType → Option OutputType
choose_loop rate channels target [] best_diff best = best
choose_loop rate channels target (t ∷ ts) best_diff best =
    let diff = distance t.bytes target in
    let better = suits rate channels t && ltb diff best_diff in
    choose_loop rate channels target ts (if better then diff else best_diff)
      (if better then some t else best)

unfoldable pub choose_output_type : ℕ → ℕ → ℕ → List OutputType → Option OutputType
unfolding choose_loop
choose_output_type rate channels bitrate_bps types =
    choose_loop rate channels (bitrate_bps / 8) types 2147483647 none
