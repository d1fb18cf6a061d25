-- ===== src/Session/Begin/Whole.antt =====
-- A session of host/src/main.cpp as a whole: main up to its loop, and then any number of turns.
use m_extender.Prelude.{ℕ, ◌≡◌, sym, ap, ◌∙◌, true, List, [], ◌++◌, some, All, append_assoc}
use m_extender.Launch.{Args, Build}
use m_extender.Net.{Sockets, Server}
use m_extender.Adapt.{Doubles}
use m_extender.Session.Loop.{Turn, run}
use m_extender.Session.Loop.Bounds.{Stepped, run-Stepped}
use m_extender.Session.Loop.Client.{next_seq, run-GoesOn}
use m_extender.Session.Loop.Resync.{Resynced}
use m_extender.Session.Loop.Resync.Turns.{run-Resynced}
use m_extender.Session.Loop.Stream.{Small, frames_of}
use m_extender.Session.Loop.Stream.Turns.{run-Streams}
use m_extender.Session.Begin.{Reports, Begun, begin}
use m_extender.Session.Begin.Ready.{begin-IsReady, acknowledgement, greeter, listening}

module _ (net : Sockets) (doubles : Doubles) where
  open net use {S, wire}
  open doubles use {D}

  -- The server when the loop starts.
  abbrev pub greeted_server : Reports → Server
  greeted_server r = next_seq (greeter r listening)

  -- What the tablet is sent in a session: the acknowledgement, and then the frames of the messages.
  abbrev pub SessionWire : Reports → S → Begun S D → List (Turn D) → Type 0
  SessionWire r s b ts =
      let q = run net doubles b.config ts b.host in
      wire q.host.socket
      ≡ wire s
        ++ (acknowledgement net r (greeter r listening) b.config.cap_w b.config.cap_h
            ++ frames_of (greeted_server r) q.sent)

  -- When main comes to its loop and the client is still there after some turns, of messages shorter than 2 ^ 31
  -- bytes: the connection carries the acknowledgement of the captured size, numbered 1, and then exactly the
  -- frames of the messages counted as sent, numbered from 2 in their order, and nothing else.
  pub session_wire :
      (build : Build) (args : Args) (r : Reports) (zero : D) (s : S) (b : Begun S D)
      (ts : List (Turn D))
      → begin net doubles build args r zero s ≡ some b
      → (run net doubles b.config ts b.host).going ≡ true
      → All Small (run net doubles b.config ts b.host).sent
      → SessionWire r s b ts
  session_wire build args r zero s b ts e g a =
      let v = begin-IsReady net doubles build args r zero s b e in
      let q = run net doubles b.config ts b.host in
      let c : b.host.server.connected ≡ true = ap (λ z. z.connected) v.server in
      let here = sym (run-GoesOn net doubles b.config ts b.host c) ∙ g in
      let ack = acknowledgement net r (greeter r listening) b.config.cap_w b.config.cap_h in
      (run-Streams net doubles b.config ts b.host here).1 a
      ∙ ap (λ l. l ++ frames_of b.host.server q.sent) v.acknowledged
      ∙ append_assoc (wire s) ack (frames_of b.host.server q.sent)
      ∙ ap (λ z. wire s ++ (ack ++ frames_of z q.sent)) v.server

  -- When main comes to its loop, after any number of turns, whatever the components report: they stop exactly when
  -- the client is gone; the scale step is in its table of four; and the size of the video is the captured
  -- one, or both ways that of one step.
  pub session_safe :
      (build : Build) (args : Args) (r : Reports) (zero : D) (s : S) (b : Begun S D)
      (ts : List (Turn D))
      → begin net doubles build args r zero s ≡ some b
      → let q = run net doubles b.config ts b.host in
        (q.going ≡ q.host.server.connected) × Stepped b.config.cap_w b.config.cap_h q.host.sizing
  session_safe build args r zero s b ts e =
      let v = begin-IsReady net doubles build args r zero s b e in
      (
        run-GoesOn net doubles b.config ts b.host (ap (λ z. z.connected) v.server),
        run-Stepped net doubles b.config ts b.host v.stepped,
      )

  -- When main comes to its loop and every resize of the encoder succeeds, in any number of turns: each video message
  -- that is sent has the display size of the video message before it, or is marked as a keyframe. Before the
  -- first one stands a size of no bytes, so that it is marked.
  pub session_resync :
      (build : Build) (args : Args) (r : Reports) (zero : D) (s : S) (b : Begun S D)
      (ts : List (Turn D))
      → begin net doubles build args r zero s ≡ some b
      → All (λ t. (w h : ℕ) → t.gpu.resize_ok w h ≡ true) ts
      → Resynced [] (run net doubles b.config ts b.host).sent
  session_resync build args r zero s b ts e ok =
      run-Resynced net doubles b.config ts [] b.host ok
        (begin-IsReady net doubles build args r zero s b e).pending
