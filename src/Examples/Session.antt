-- ===== src/Examples/Session.antt =====
-- A session of host/src/main.cpp at concrete inputs: a tablet that greets, and a turn with a video and an audio message.
use m_extender.Prelude.{
  ℕ, ◌≡◌, refl, true, false, List, [], ◌∷◌, ◌++◌, Option, none, some, replicate, All, arith,
}
use m_extender.Prelude.Int.{pos}
use m_extender.Wire.{encode_header, encode_ack, encode_video, encode_audio}
use m_extender.Payload.{build_video_payload, append_nals}
use m_extender.Scale.{apply_scale, back_to_native}
use m_extender.Adapt.{after_send, smooth, classify, on_signal}
use m_extender.Session.{video_message, drain}
use m_extender.Session.Sound.{audio_message}
use m_extender.Launch.{Args, Build}
use m_extender.Net.{frame_header}
use m_extender.Session.{handshake_ack}
use m_extender.Net.{
  recv_loop, recv_exact, read_frame, read_header, check_header, read_payload, received, send_frame,
  send_payload, send_all, send_loop, sent, resize,
}
use m_extender.Wire.{decode_header, field, un_le, le}
use m_extender.Session.{handshake}
use m_extender.Session.Inbound.{Inbound, read_frames, read_all, read_all_lem}
use m_extender.Session.Loop.{Host, Turn, turn, run}
use m_extender.Adapt.{congested, after_sends}
use m_extender.Adapt.Streaks.{Inv}
use m_extender.Session.Loop.Adaptive.{
  Shows, control, signals, Smaller, run-after_sends, congested_turns,
}
use m_extender.Session.Loop.Bounds.{Stepped}
use m_extender.Session.Loop.Resync.{Resynced}
use m_extender.Session.Loop.Stream.{Small}
use m_extender.Session.Loop.Stream.Turns.{messages_of, turn-messages_of}
use m_extender.Session.Begin.Whole.{SessionWire, session_wire, session_safe, session_resync}
use m_extender.Session.Begin.{Reports, Begun, begin}
use m_extender.Examples.Net.{Pipe, pipe, live}
use m_extender.Examples.Main.{whole, works, screen}

abbrev tablet : Pipe
tablet = (encode_header (frame_header live 1 42 5000) ++ replicate 42 0, [])

abbrev plain_args : Args
plain_args = record { port = 9000; monitor = 0; keep_raw = true; encoder = [] }

abbrev both : Build
both = record { have_qsv = false; have_amf = false }

abbrev all_well : Reports
all_well = record {
  primary = some 1;
  monitors = [];
  capture = record {
    factory = true;
    adapters = (1 ∷ []) ∷ [];
    create_device = true;
    duplicate = some 3;
    desktop = record { left = pos 0; top = pos 0; right = pos 1920; bottom = pos 1080 };
  };
  starts = λ e. false;
  wsa = true;
  opens = true;
  binds = true;
  listens = true;
  client_ready = true;
  accepts = true;
  connect_ns = 1000;
  ack_ns = 5000;
  touch = true;
  pen = none;
  scaler = true;
  audio = record {
    co_initialize = true;
    enumerator = true;
    endpoint = true;
    activate = true;
    mix_format = true;
    create_event = true;
    initialize = true;
    set_event_handle = true;
    get_service = true;
    client_start = true;
  };
  aac = record {
    startup = true;
    enumerated = true;
    activate = true;
    create_media_type = true;
    set_input_type = true;
    choose_output = true;
    set_output_type = true;
  };
}

-- The connection after the handshake, and what the loop starts from.
abbrev pub greeted : Pipe
greeted = (
  [],
  encode_header (frame_header (record live { seq = 0 }) 2 20 5000)
      ++ encode_ack (handshake_ack 1920 1080),
)

abbrev pub begun : Begun Pipe ℕ
begun = record {
  encoder = none;
  capture = record {
    running = true;
    device = true;
    dup = some 3;
    output = true;
    copy = false;
    next_reacquire = 0;
    width = 1920;
    height = 1080;
    offset_x = pos 0;
    offset_y = pos 0;
  };
  config = record {
    adaptive = true;
    keep_raw = true;
    audio_on = true;
    cap_w = 1920;
    cap_h = 1080;
    inject = record {
      offset_x = pos 0;
      offset_y = pos 0;
      monitor_w = 1920;
      monitor_h = 1080;
      touch_ok = true;
      pen_dev = none;
      pen_ok = false;
    };
  };
  host = record {
    server = record { listening = true; connected = true; seq = 1; ts0_ns = 1000 };
    socket = greeted;
    payload = replicate 42 0;
    sizing = record { scale_idx = 0; cur_w = 1920; cur_h = 1080; keyframe_pending = true };
    avg_send_ms = 0;
    send_up_streak = 0;
    send_down_streak = 0;
  };
  audio = record { running = true; joinable = true; client = true; capture = true; event = true };
  aac = record {
    impl = some record { rate = 48000; channels = 2; block_align = 4; sample_time = 0 };
    mft = true;
    startups = 1;
    shutdowns = 0;
    activations = 1;
    releases = 0;
  };
}

begins : begin pipe whole both plain_args all_well 0 tablet ≡ some begun
unfolding begin encode_header encode_ack frame_header handshake_ack recv_loop recv_exact read_frame
    read_header check_header read_payload received send_frame send_payload send_all send_loop sent
    decode_header field un_le le resize handshake m_extender.Prelude.Words.as_int
    m_extender.Prelude.Int.◌-ℤ◌
begins = refl

-- A turn that captures, and has a frame of sound.
abbrev pub busy : Turn ℕ
busy = record {
  captured = true;
  gpu = works;
  encode = λ source. some record { keyframe = false; codec = 0; nals = []; raw = 7 ∷ [] };
  video_ns = 6000;
  send_ms = 3;
  audio = (some (1 ∷ 2 ∷ []), 7000) ∷ (none, 8000) ∷ [];
  screen = screen;
  beyond = [];
}

busy_goes_on : (turn pipe whole begun.config busy begun.host).going ≡ true
unfolding turn apply_scale back_to_native video_message encode_video encode_audio audio_message
    build_video_payload append_nals after_send smooth classify on_signal encode_header encode_ack
    frame_header handshake_ack send_frame send_payload send_all send_loop sent le read_all
    read_frames read_frame drain m_extender.Prelude.Words.as_int
busy_goes_on = refl

session_safe_example :
    let q = run pipe whole begun.config (busy ∷ busy ∷ []) begun.host in
    (q.going ≡ q.host.server.connected) × Stepped 1920 1080 q.host.sizing
session_safe_example =
    session_safe pipe whole both plain_args all_well 0 tablet begun (busy ∷ busy ∷ []) begins

session_resync_example :
    Resynced [] (run pipe whole begun.config (busy ∷ busy ∷ []) begun.host).sent
session_resync_example =
    session_resync pipe whole both plain_args all_well 0 tablet begun (busy ∷ busy ∷ []) begins
      ((λ w h. refl), ((λ w h. refl), tt))

read_all_lem_example : Inbound pipe live ([], []) (read_all pipe live [] ([], []))
read_all_lem_example = read_all_lem pipe live [] ([], [])

turn-messages_of_example :
    (turn pipe whole begun.config busy begun.host).sent
    ≡ messages_of pipe whole begun.config busy begun.host
turn-messages_of_example = turn-messages_of pipe whole begun.config busy begun.host busy_goes_on

busy_runs :
    ((run pipe whole begun.config (busy ∷ []) begun.host).going ≡ true)
    × All Small (run pipe whole begun.config (busy ∷ []) begun.host).sent
unfolding run turn apply_scale back_to_native video_message encode_video encode_audio audio_message
    build_video_payload append_nals after_send smooth classify on_signal encode_header encode_ack
    frame_header handshake_ack send_frame send_payload send_all send_loop sent le read_all
    read_frames read_frame drain m_extender.Prelude.Words.as_int
busy_runs = (refl, (omega arith, (omega arith, tt)))

session_wire_example : SessionWire pipe whole all_well tablet begun (busy ∷ [])
session_wire_example =
    session_wire pipe whole both plain_args all_well 0 tablet begun (busy ∷ []) begins busy_runs.0
      busy_runs.1

-- A turn with a picture that took long to send, when 44 frames in a row did.
abbrev slow : Turn ℕ
slow = record busy {
  encode = λ source. some record { keyframe = false; codec = 0; nals = (101 ∷ []) ∷ []; raw = [] };
  send_ms = 20;
}

slow-Shows : Shows pipe whole begun.config slow
slow-Shows = record {
  captured = refl;
  resizes = λ w h. refl;
  encodes = λ source. (_, refl, omega arith);
}

abbrev nearly : Host Pipe ℕ
nearly = record (begun.host) { send_up_streak = 44 }

nearly-Inv : Inv (control pipe whole begun.config nearly).1
nearly-Inv = ground arith

slow_runs : (run pipe whole begun.config (slow ∷ []) nearly).going ≡ true
unfolding run turn apply_scale back_to_native video_message encode_video encode_audio audio_message
    build_video_payload append_nals after_send smooth classify on_signal encode_header encode_ack
    frame_header handshake_ack send_frame send_payload send_all send_loop sent le read_all
    read_frames read_frame drain m_extender.Prelude.Words.as_int
slow_runs = refl

slow_signals : signals pipe whole begun.config (20 ∷ []) 0 ≡ congested ∷ []
unfolding smooth classify
slow_signals = refl

run-after_sends_example :
    control pipe whole begun.config (run pipe whole begun.config (slow ∷ []) nearly).host
    ≡ after_sends whole (20 ∷ []) (control pipe whole begun.config nearly)
run-after_sends_example =
    run-after_sends pipe whole begun.config (slow ∷ []) nearly refl (slow-Shows, tt) slow_runs

congested_turns_example :
    Smaller pipe whole begun.config works 1
      (run pipe whole begun.config (slow ∷ []) nearly).host.sizing
congested_turns_example =
    congested_turns pipe whole begun.config (slow ∷ []) nearly works refl (slow-Shows, tt) slow_runs
      nearly-Inv (omega arith) slow_signals (λ w h. refl) (λ w h. refl) (omega arith) (omega arith)
