-- ===== src/Examples/Rounds.antt =====
-- A round of the audio capture loop of host/src/audio/capture.cpp at a concrete input.
use m_extender.Prelude.{ℕ, ◌≡◌, refl, true, false, List, [], ◌∷◌, some, none}
use m_extender.Prelude.Int.{pos}
use m_extender.Audio.Convert.{CaptureFormat}
use m_extender.Audio.Queue.{on_packet}
use m_extender.Audio.Rounds.{Packet, broken, packet, Capturing, capture_round}
use m_extender.Audio.Rounds.Flow.{samples_of, still_running, capture_round-on_packet}

abbrev still : Capturing
still = record { queue = record { acc = 9 ∷ []; frames = [] }; phase = pos 0; running = true }

abbrev cd_quality : CaptureFormat
cd_quality = record { rate = 44100; channels = 2; bits = 16; is_float = false }

abbrev pending_packets : List Packet
pending_packets =
    packet false (some (1 ∷ 0 ∷ 2 ∷ 0 ∷ [])) 1
    ∷ packet true none 2
    ∷ broken
    ∷ packet true none 1
    ∷ []

abbrev to_s16 : List ℕ → ℕ
to_s16 bytes = 0

capture_round-on_packet_example :
    capture_round to_s16 cd_quality 44100 pending_packets still
    ≡ some record {
      queue = on_packet (samples_of to_s16 cd_quality 44100 pending_packets) still.queue;
      phase = pos 0;
      running = still_running to_s16 cd_quality 44100 true pending_packets;
    }
capture_round-on_packet_example =
    capture_round-on_packet to_s16 cd_quality 44100 pending_packets still refl
