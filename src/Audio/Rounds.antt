-- ===== src/Audio/Rounds.antt =====
-- One round of AudioCapture::CaptureLoop in host/src/audio/capture.cpp: the packets that are pending, converted and
-- resampled, and then the full frames. An int16_t is its 16-bit pattern.
pub mod Flow
use m_extender.Prelude.{
  ℕ, zero, suc, ◌-◌, ◌*◌, Bool, true, false, ◌||◌, List, [], ◌∷◌, ◌++◌, Option, none, some, length,
  replicate, ltb, ◌==◌, if◌then◌else◌,
}
use m_extender.Prelude.Int.{ℤ, pos, negsuc}
use m_extender.Audio.Convert.{CaptureFormat, convert_to_stereo}
use m_extender.Audio.Resampler.{process, room}
use m_extender.Audio.Queue.{Queue, emit_frames}

-- GetMixFormat: what the format tag, the subformat and the sizes say.
unfoldable pub mix_format : Bool → Bool → Bool → ℕ → ℕ → ℕ → CaptureFormat
mix_format extensible float_subformat float_tag rate channels bits = record {
  rate = rate;
  channels = channels;
  bits = bits;
  is_float = if extensible then float_subformat else float_tag;
}

-- What GetBuffer gives: a failure, or whether the packet is silent, its bytes if the pointer is not null, and its frames.
pub data Packet : Type 0 where
  broken : Packet
  packet : Bool → Option (List ℕ) → ℕ → Packet

abbrev pub to_int : ℕ → ℤ
to_int p = if ltb p 32768 then pos p else negsuc (65535 - p)

abbrev pub to_pattern : ℤ → ℕ
to_pattern (pos n) = n
to_pattern (negsuc n) = 65535 - n

abbrev pub pairs : List ℕ → List (ℤ × ℤ)
pairs [] = []
pairs (l ∷ []) = []
pairs (l ∷ r ∷ rest) = (to_int l, to_int r) ∷ pairs rest

abbrev pub unpaired : List (ℤ × ℤ) → List ℕ
unpaired [] = []
unpaired ((l, r) ∷ rest) = to_pattern l ∷ to_pattern r ∷ unpaired rest

-- The variables of the loop: the accumulator and the shared queue, the phase of the resampler, and running_.
pub record Capturing : Type 0 where
  pub queue : Queue ℕ
  pub phase : ℤ
  pub running : Bool

unfoldable pub gather : Capturing → Option (List (ℤ × ℤ) × ℤ) → Option Capturing
gather c none = none
gather c (some (out, phase)) =
    some (record c { queue = record c.queue { acc = c.queue.acc ++ unpaired out }; phase = phase })

module _ (float_to_s16 : List ℕ → ℕ) (fmt : CaptureFormat) (target_rate : ℕ) where
  unfoldable pub stereo : Bool → Option (List ℕ) → ℕ → List ℕ
  unfolding convert_to_stereo
  stereo silent none frame_count = replicate (frame_count * 2) 0
  stereo silent (some bytes) frame_count =
      if silent
      then replicate (frame_count * 2) 0
      else convert_to_stereo float_to_s16 fmt bytes frame_count

  -- The samples of a packet at the end of the accumulator; `none` is the resampler's index out of range.
  unfoldable pub take_samples : List ℕ → ℕ → Capturing → Option Capturing
  unfolding gather process room
  take_samples tmp frame_count c =
      if fmt.rate == target_rate
      then some (record c { queue = record c.queue { acc = c.queue.acc ++ tmp } })
      else gather c
          (process target_rate fmt.rate (pairs tmp) (room target_rate fmt.rate frame_count) c.phase)

  unfoldable pub take_packet : Packet → Capturing → Option Capturing
  unfolding take_samples stereo
  take_packet broken c = some (record c { running = false })
  take_packet (packet silent bytes zero) c = some c
  take_packet (packet silent bytes (suc n)) c = take_samples (stereo silent bytes (suc n)) (suc n) c

  abbrev pub and_then : Option Capturing → (Capturing → Option Capturing) → Option Capturing
  and_then none next = none
  and_then (some c) next = next c

  -- The loop over the pending packets; a failure ends it.
  unfoldable pub drain_packets : List Packet → Capturing → Option Capturing
  unfolding take_packet
  drain_packets [] c = some c
  drain_packets (broken ∷ ps) c = take_packet broken c
  drain_packets (packet silent bytes n ∷ ps) c =
      and_then (take_packet (packet silent bytes n) c) (drain_packets ps)

  unfoldable pub emit : Capturing → Option Capturing
  unfolding emit_frames
  emit c = some (record c { queue = emit_frames (length c.queue.acc) c.queue })

  unfoldable pub capture_round : List Packet → Capturing → Option Capturing
  unfolding drain_packets emit
  capture_round ps c = and_then (drain_packets ps c) emit
