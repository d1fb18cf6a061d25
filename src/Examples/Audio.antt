-- ===== src/Examples/Audio.antt =====
-- Small packets through the audio path of host/src/audio.
use m_extender.Prelude.{ℕ, ◌≡◌, ◌<◌, true, false, List, [], ◌∷◌, ◌++◌, some, arith, length}
use m_extender.Audio.Queue
use m_extender.Audio.Queue.{per_frame, on_packet}
use m_extender.Audio.Queue.Frames.{Inv, waiting, on_packet-Inv, on_packet-waiting}
use m_extender.Audio.Adts.{Impl, OutputType, Outputs, need_more_input, produced, encode}
use m_extender.Audio.Thread
use m_extender.Audio.Thread.{AudioCapture, Setup, device_lost}
use m_extender.Audio.Thread.Life.{idle, active, start_lem}
use m_extender.Audio.Adts.Framing.{split_adts, split_adts-encode}

abbrev two_samples : Queue.Queue ℕ
two_samples = record { acc = 1 ∷ 2 ∷ []; frames = [] }

two_samples-Inv : Inv two_samples
two_samples-Inv = record { bounded = omega arith; sized = tt }

on_packet-Inv_example :
    Inv (on_packet (3 ∷ []) two_samples) × (length (on_packet (3 ∷ []) two_samples).acc < per_frame)
on_packet-Inv_example = on_packet-Inv (3 ∷ []) two_samples two_samples-Inv

on_packet-waiting_example : waiting (on_packet (3 ∷ []) two_samples) ≡ waiting two_samples ++ 3 ∷ []
on_packet-waiting_example = on_packet-waiting (3 ∷ []) two_samples (omega arith)

abbrev impl : Impl
impl = record { rate = 48000; channels = 2; block_align = 4; sample_time = 0 }

abbrev one_frame : Outputs
one_frame = produced (33 ∷ 16 ∷ []) need_more_input

split_adts-encode_example :
    (split_adts 1 (encode (some impl) true true one_frame 1024 []).1.1 ≡ (33 ∷ 16 ∷ []) ∷ [])
    × ((encode (some impl) true true one_frame 1024 []).1.0 ≡ true)
    × ((encode (some impl) true true one_frame 1024 []).0
        ≡ some (record impl { sample_time = 213333 }))
split_adts-encode_example = split_adts-encode impl one_frame 1024 (omega arith) (omega arith, tt)

abbrev offered : List OutputType
offered =
    record { aac = true; rate = 44100; channels = 2; bytes = 16000 }
    ∷ record { aac = true; rate = 48000; channels = 2; bytes = 12000 }
    ∷ record { aac = true; rate = 48000; channels = 2; bytes = 20000 }
    ∷ []

abbrev no_endpoint : Setup
no_endpoint = record {
  co_initialize = true;
  enumerator = true;
  endpoint = false;
  activate = true;
  mix_format = true;
  create_event = true;
  initialize = true;
  set_event_handle = true;
  get_service = true;
  client_start = true;
}

start_lem_example :
    (Thread.start no_endpoint idle ≡ some (idle, false))
    × (Thread.stop active ≡ idle)
    × (Thread.stop idle ≡ idle)
    × (Thread.stop (device_lost active) ≡ idle)
start_lem_example = start_lem no_endpoint
