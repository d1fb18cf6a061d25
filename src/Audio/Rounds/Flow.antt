-- ===== src/Audio/Rounds/Flow.antt =====
-- What one round of the capture loop in host/src/audio/capture.cpp queues.
use m_extender.Prelude.{
  ℕ, zero, suc, ◌≡◌, refl, ◌∙◌, ap, Bool, true, false, List, [], ◌∷◌, ◌++◌, some, append_assoc,
  append-nil, if_true, ◌==◌,
}
use m_extender.Audio.Convert.{CaptureFormat}
use m_extender.Audio.Queue.{on_packet}
use m_extender.Audio.Rounds.{
  Packet, broken, packet, Capturing, stereo, take_samples, take_packet, and_then, drain_packets,
  emit, capture_round,
}

module _ (float_to_s16 : List ℕ → ℕ) (fmt : CaptureFormat) (target_rate : ℕ) where
  -- The stereo samples of the packets up to the first failure.
  abbrev pub samples_of : List Packet → List ℕ
  samples_of [] = []
  samples_of (broken ∷ ps) = []
  samples_of (packet silent bytes zero ∷ ps) = samples_of ps
  samples_of (packet silent bytes (suc n) ∷ ps) =
      stereo float_to_s16 fmt target_rate silent bytes (suc n) ++ samples_of ps

  -- running_ after them.
  abbrev pub still_running : Bool → List Packet → Bool
  still_running running [] = running
  still_running running (broken ∷ ps) = false
  still_running running (packet silent bytes n ∷ ps) = still_running running ps

  drain_packets_lem :
      (ps : List Packet) (c : Capturing)
      → (fmt.rate == target_rate) ≡ true
      → drain_packets float_to_s16 fmt target_rate ps c
        ≡ some record {
          queue = record c.queue { acc = c.queue.acc ++ samples_of ps };
          phase = c.phase;
          running = still_running c.running ps;
        }
  unfolding drain_packets take_packet take_samples
  drain_packets_lem [] c e = rw (append-nil c.queue.acc) refl
  drain_packets_lem (broken ∷ ps) c e = rw (append-nil c.queue.acc) refl
  drain_packets_lem (packet silent bytes zero ∷ ps) c e = drain_packets_lem ps c e
  drain_packets_lem (packet silent bytes (suc n) ∷ ps) c e =
      let tmp = stereo float_to_s16 fmt target_rate silent bytes (suc n) in
      let d = record c { queue = record c.queue { acc = c.queue.acc ++ tmp } } in
      ap
        (λ r.
          and_then float_to_s16 fmt target_rate r (drain_packets float_to_s16 fmt target_rate ps))
        (if_true (fmt.rate == target_rate) (some d) _ e)
      ∙ drain_packets_lem ps d e
      ∙ rw (append_assoc c.queue.acc tmp (samples_of ps)) refl

  -- When the device captures at the target rate, a round queues exactly what the queue does with the samples of the packets
  -- up to the first failure, all at once and in their order, keeps the phase, and goes on running unless
  -- a packet could not be had.
  pub capture_round-on_packet :
      (ps : List Packet) (c : Capturing)
      → (fmt.rate == target_rate) ≡ true
      → capture_round float_to_s16 fmt target_rate ps c
        ≡ some record {
          queue = on_packet (samples_of ps) c.queue;
          phase = c.phase;
          running = still_running c.running ps;
        }
  unfolding capture_round emit on_packet
  capture_round-on_packet ps c e =
      ap (λ r. and_then float_to_s16 fmt target_rate r (emit float_to_s16 fmt target_rate))
        (drain_packets_lem ps c e)
