-- ===== src/Session/Loop.antt =====
-- The main loop of host/src/main.cpp, `while (true)`, and the end of main: a turn captures, scales, encodes and sends a
-- video frame, adapts the scale, sends the audio, drains what the tablet sent, and goes on while there is a
-- client. It joins Scale, Adapt, Net and the parts of Session; what the other components report in a turn is
-- an argument.
pub mod Adaptive
pub mod Bounds
pub mod Client
pub mod Resync
pub mod Stream
use m_extender.Prelude.{
  ℕ, Bool, true, false, List, [], ◌∷◌, ◌++◌, Option, none, some, length, if◌then◌else◌,
}
use m_extender.Prelude.Words.{u32}
use m_extender.Wire.Msg
use m_extender.Payload.{EncodedFrame}
use m_extender.Inject.{Injector, VirtualScreen}
use m_extender.Net.{Sockets, Server, send_frame}
use m_extender.Adapt.{Doubles, Controller, after_send}
use m_extender.Scale.{Sizing, Source, Gpu, apply_scale}
use m_extender.Session.{Action, video_message, drain}
use m_extender.Session.Sound.{audio_message}
use m_extender.Session.Inbound.{read_all}

-- What does not change during the loop.
pub record Config : Type 0 where
  pub adaptive : Bool
  pub keep_raw : Bool
  pub audio_on : Bool
  pub cap_w : ℕ
  pub cap_h : ℕ
  pub inject : Injector

-- The variables of the loop: those of the scale step are in `sizing`, `payload` is the vector of ReadFrame.
pub record Host (S D : Type 0) : Type 0 where
  pub server : Server
  pub socket : S
  pub payload : List ℕ
  pub sizing : Sizing
  pub avg_send_ms : D
  pub send_up_streak : ℕ
  pub send_down_streak : ℕ

-- What the components report in one turn: whether Capture gave a texture, what Encode gives for the texture that it
-- is handed, the clock when the video message is sent and how long that took, what aac.Encode gives for each
-- queued frame with the clock of its message, the virtual screen, and the memory behind a received payload.
pub record Turn (D : Type 0) : Type 0 where
  pub captured : Bool
  pub gpu : Gpu
  pub encode : Source → Option EncodedFrame
  pub video_ns : ℕ
  pub send_ms : D
  pub audio : List (Option (List ℕ) × ℕ)
  pub screen : VirtualScreen
  pub beyond : List ℕ

-- A message for which SendFrame returned true: its type, its payload, and the clock.
pub record Message : Type 0 where
  pub type : ℕ
  pub body : List ℕ
  pub now_ns : ℕ

-- The state after a part of a turn, the messages sent, and whether no `break` was met.
pub record Part (S D : Type 0) : Type 0 where
  pub host : Host S D
  pub sent : List Message
  pub going : Bool

-- A whole turn, with what the inbound frames asked for.
pub record Turned (S D : Type 0) : Type 0 where
  pub host : Host S D
  pub sent : List Message
  pub actions : List Action
  pub going : Bool

module _ (net : Sockets) (doubles : Doubles) (config : Config) where
  open net use {S}
  open doubles use {D}
  open config use {adaptive, keep_raw, audio_on, cap_w, cap_h, inject}

  -- srv.SendFrame of a vector, and whether it succeeded.
  unfoldable pub send : Host S D → Message → Host S D × Bool
  send h m =
      let r = send_frame net h.server m.type m.body (u32 (length m.body)) m.now_ns h.socket in
      (record h { server = r.0.0; socket = r.0.1 }, r.1)

  -- What follows a video frame that was sent.
  unfoldable pub adapt : D → Host S D → Host S D
  adapt send_ms h =
      let (avg, c) = after_send doubles send_ms (
        h.avg_send_ms,
        record {
          scale_idx = h.sizing.scale_idx;
          send_up_streak = h.send_up_streak;
          send_down_streak = h.send_down_streak;
        },
      ) in
      record h {
        sizing = record (h.sizing) { scale_idx = c.scale_idx };
        avg_send_ms = avg;
        send_up_streak = c.send_up_streak;
        send_down_streak = c.send_down_streak;
      }

  unfoldable pub after_video : D → Message → Host S D × Bool → Part S D
  unfolding adapt
  after_video send_ms m (h, true) = record {
    host = if adaptive then adapt send_ms h else h;
    sent = m ∷ [];
    going = true;
  }
  after_video send_ms m (h, false) = record { host = h; sent = []; going = false }

  unfoldable pub set_pending : Bool → Host S D → Host S D
  set_pending pending h = record h { sizing = record (h.sizing) { keyframe_pending = pending } }

  unfoldable pub send_video : Turn D → Host S D → Bool × Option (List ℕ) → Part S D
  unfolding send after_video set_pending
  send_video t h (pending, none) = record { host = set_pending pending h; sent = []; going = true }
  send_video t h (pending, some body) =
      let m : Message = record { type = Msg.video_frame; body = body; now_ns = t.video_ns } in
      after_video t.send_ms m (send (set_pending pending h) m)

  -- What follows Encode; `none` when it returned false.
  unfoldable pub after_encode : Turn D → Host S D → Option EncodedFrame → Part S D
  unfolding send_video
  after_encode t h none = record { host = h; sent = []; going = true }
  after_encode t h (some ef) =
      send_video t h
        (video_message keep_raw h.sizing.keyframe_pending (h.sizing.cur_w, h.sizing.cur_h) ef)

  unfoldable pub video_turn : Turn D → Host S D → Part S D
  unfolding after_encode
  video_turn t h =
      let r = apply_scale adaptive t.gpu cap_w cap_h h.sizing in
      if t.captured
      then after_encode t (record h { sizing = r.0 }) (t.encode r.1)
      else record { host = h; sent = []; going = true }

  -- One message of the audio loop, then the rest of the queue, or a `break`, which leaves only that loop.
  unfoldable pub after_audio : Message → Host S D × Bool → (Host S D → Part S D) → Part S D
  after_audio m (h, true) rest = let p = rest h in record p { sent = m ∷ p.sent }
  after_audio m (h, false) rest = record { host = h; sent = []; going = true }

  unfoldable pub audio_turn : List (Option (List ℕ) × ℕ) → Host S D → Part S D
  unfolding send after_audio
  audio_turn [] h = record { host = h; sent = []; going = true }
  audio_turn ((none, now_ns) ∷ queue) h = audio_turn queue h
  audio_turn ((some aac_frame, now_ns) ∷ queue) h =
      let m : Message = record {
        type = Msg.audio_frame;
        body = audio_message aac_frame;
        now_ns = now_ns;
      } in
      after_audio m (send h m) (audio_turn queue)

  -- The inbound frames, and `if (!srv.HasClient()) break`.
  unfoldable pub inbound_turn : Turn D → List Message → Host S D → Turned S D
  unfolding set_pending
  inbound_turn t sent h =
      let r = read_all net h.server h.payload h.socket in
      let (pending, actions) = drain inject t.screen t.beyond h.sizing.keyframe_pending r.frames in
      record {
        host =
            set_pending pending
              (record h { server = r.server; socket = r.socket; payload = r.payload });
        sent = sent;
        actions = actions;
        going = r.server.connected;
      }

  unfoldable pub turn : Turn D → Host S D → Turned S D
  unfolding video_turn audio_turn inbound_turn
  turn t h =
      let v = video_turn t h in
      let a = audio_turn (if audio_on then t.audio else []) v.host in
      if v.going
      then inbound_turn t (v.sent ++ a.sent) a.host
      else record { host = v.host; sent = v.sent; actions = []; going = false }

  unfoldable pub then_run : Turned S D → (Host S D → Turned S D) → Turned S D
  then_run r rest =
      let q = rest r.host in
      if r.going then record q { sent = r.sent ++ q.sent; actions = r.actions ++ q.actions } else r

  -- The turns, one after another, until one breaks.
  unfoldable pub run : List (Turn D) → Host S D → Turned S D
  unfolding turn then_run
  run [] h = record { host = h; sent = []; actions = []; going = true }
  run (t ∷ ts) h = then_run (turn t h) (run ts)
