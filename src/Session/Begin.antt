-- ===== src/Session/Begin.antt =====
-- main of host/src/main.cpp up to its loop: the components are started one after the other, and each failure but those of the
-- scaler and of the sound returns 1. It joins Launch, Capture, Net, Inject and Audio with the start of Session.Loop.
pub mod Ready
pub mod Whole
use m_extender.Prelude.{
  ℕ, Bool, true, false, ◌&&◌, ◌==◌, List, [], ◌∷◌, Option, none, some, length, if◌then◌else◌,
}
use m_extender.Prelude.Int.{ℤ, pos}
use m_extender.Wire.Msg
use m_extender.Wire.{encode_ack}
use m_extender.Launch.{Args, Build, Hardware, resolve_monitor, choose_encoder}
use m_extender.Capture
use m_extender.Capture.{Capture}
use m_extender.Encode.Null
use m_extender.Net
use m_extender.Net.{Sockets, Server, wait_for_client, read_frame, send_frame}
use m_extender.Inject
use m_extender.Inject.{Injector}
use m_extender.Audio.Thread
use m_extender.Audio.Thread.{AudioCapture}
use m_extender.Audio.Aac
use m_extender.Audio.Aac.{AacEncoder}
use m_extender.Adapt.{Doubles}
use m_extender.Session.{handshake}
use m_extender.Session.Loop.{Config, Host}

infixl 5 ◌>>=◌ ◌>>◌
abbrev pub ◌>>=◌ {ℓ κ} : {A : Type ℓ} {B : Type κ} → Option A → (A → Option B) → Option B
none >>= f = none
some a >>= f = f a

abbrev pub ◌>>◌ {ℓ} : {B : Type ℓ} → Option (Unit {0}) → Option B → Option B
m >> k = m >>= λ _. k

-- `if (!ok) return 1`.
abbrev pub guard : Bool → Option (Unit {0})
guard true = some tt
guard false = none

-- sizeof(sp_handshake_ack).
abbrev pub ack_size : ℕ
ack_size = 20

-- kAudioRate and kAudioChannels.
abbrev audio_rate : ℕ
audio_rate = 48000

-- What the calls of main report up to the loop.
pub record Reports : Type 0 where
  pub primary : Option ℕ
  pub monitors : List ℕ
  pub capture : Capture.Setup
  pub starts : Hardware → Bool
  pub wsa : Bool
  pub opens : Bool
  pub binds : Bool
  pub listens : Bool
  pub client_ready : Bool
  pub accepts : Bool
  pub connect_ns : ℕ
  pub ack_ns : ℕ
  pub touch : Bool
  pub pen : Option ℕ
  pub scaler : Bool
  pub audio : Thread.Setup
  pub aac : Aac.Answers

-- The objects as main declares them.
abbrev pub new_capture : Capture
new_capture = record {
  running = false;
  device = false;
  dup = none;
  output = false;
  copy = false;
  next_reacquire = 0;
  width = 0;
  height = 0;
  offset_x = pos 0;
  offset_y = pos 0;
}

abbrev pub new_server : Server
new_server = record { listening = false; connected = false; seq = 0; ts0_ns = 0 }

abbrev pub new_audio : AudioCapture
new_audio = record {
  running = false;
  joinable = false;
  client = false;
  capture = false;
  event = false;
}

abbrev new_aac : AacEncoder
new_aac = record {
  impl = none;
  mft = false;
  startups = 0;
  shutdowns = 0;
  activations = 0;
  releases = 0;
}

-- What the loop starts from; `encoder` is `none` for the NullEncoder.
pub record Begun (S D : Type 0) : Type 0 where
  pub encoder : Option Hardware
  pub capture : Capture
  pub config : Config
  pub host : Host S D
  pub audio : AudioCapture
  pub aac : AacEncoder

-- A step whose result says whether it succeeded.
abbrev pub succeeded {ℓ} : {A : Type ℓ} → A × Bool → Option A
succeeded (a, true) = some a
succeeded (a, false) = none

unfoldable pub started_encoder : Option Hardware → ℕ → ℕ → Bool
unfolding Null.start
started_encoder (some e) w h = true
started_encoder none w h = (Null.start w h record { staging = none; w = 0; h = 0 }).1

-- aac.Init is called only if the capture of sound started.
unfoldable pub init_aac : Bool → Aac.Answers → AacEncoder × Bool
unfolding Aac.init
init_aac true a = Aac.init a audio_rate 2 new_aac
init_aac false a = (new_aac, false)

module _ (net : Sockets) where
  open net use {S}

  -- The frame that ReadFrame gave, with the server and the socket after it.
  abbrev pub got : (Server × S) × Option (ℕ × List ℕ) → Option ((Server × S) × (ℕ × List ℕ))
  got (link, none) = none
  got (link, some f) = some (link, f)

  -- WaitForClient and the handshake, for a capture of w by h, over the socket `s` of the client; the payload stays in
  -- its vector.
  unfoldable pub greet : Reports → ℕ → ℕ → S → Server → Option ((Server × S) × List ℕ)
  unfolding wait_for_client handshake read_frame send_frame encode_ack
  greet r w h s listening = do
    srv ← succeeded (wait_for_client listening r.client_ready r.accepts r.connect_ns)
    (link, f) ← got (read_frame net srv [] s)
    ack ← handshake w h (some f)
    acked ←
        succeeded
          (send_frame net link.0 Msg.handshake_ack (encode_ack ack) ack_size r.ack_ns link.1)
    some (acked, f.1)

module _ (net : Sockets) (doubles : Doubles) where
  open net use {S}
  open doubles use {D}

  -- Up to the loop; `zero` is 0.0. `none`: main returned 1.
  unfoldable pub begin : Build → Args → Reports → D → S → Option (Begun S D)
  unfolding greet resolve_monitor Capture.start choose_encoder started_encoder Net.start init_aac
      Inject.init Thread.start
  begin build args r zero s = do
    hmon ← resolve_monitor r.primary r.monitors args.monitor
    cap ← succeeded (Capture.start hmon r.capture new_capture)
    let encoder = choose_encoder build args r.starts
    guard (started_encoder encoder cap.width cap.height)
    listening ← succeeded (Net.start new_server r.wsa r.opens r.binds r.listens)
    (link, payload) ← greet net r cap.width cap.height s listening
    audio ← Thread.start r.audio new_audio
    let aac = init_aac audio.1 r.aac
    some record {
      encoder = encoder;
      capture = cap;
      config = record {
        adaptive = r.scaler;
        keep_raw = args.keep_raw;
        audio_on = audio.1 && aac.1;
        cap_w = cap.width;
        cap_h = cap.height;
        inject = Inject.init cap.offset_x cap.offset_y cap.width cap.height r.touch r.pen;
      };
      host = record {
        server = link.0;
        socket = link.1;
        payload = payload;
        sizing = record {
          scale_idx = 0;
          cur_w = cap.width;
          cur_h = cap.height;
          keyframe_pending = true;
        };
        avg_send_ms = zero;
        send_up_streak = 0;
        send_down_streak = 0;
      };
      audio = audio.0;
      aac = aac.0;
    }
