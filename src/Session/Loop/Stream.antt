-- ===== src/Session/Loop/Stream.antt =====
-- What the main loop of host/src/main.cpp puts on the connection: its messages, framed and numbered, in their order.
pub mod Turns
use m_extender.Prelude.{
  ℕ, ◌<◌, ◌^◌, ◌≡◌, refl, sym, ap, ap₂, ◌∙◌, Bool, true, false, Bool-cases, inl, inr, List, [], ◌∷◌,
  ◌++◌, Option, none, some, length, arith, if◌then◌else◌, subst, if_false, All, append_assoc,
  append-nil,
}
use m_extender.Prelude.Words.{u32}
use m_extender.Payload.{EncodedFrame}
use m_extender.Wire.Msg
use m_extender.Wire.{encode_header}
use m_extender.Net.{Sockets, Server, send_frame, frame_header}
use m_extender.Net.Frames.{Delivered, send_frame_lem}
use m_extender.Adapt.{Doubles}
use m_extender.Session.Sound.{audio_message}
use m_extender.Session.Inbound.{read_all, read_all_lem}
use m_extender.Session.Loop.{
  Config, Host, Turn, Message, Part, Turned, send, adapt, after_video, set_pending, send_video,
  after_encode, video_turn, after_audio, audio_turn, inbound_turn, turn, then_run, run,
}
use m_extender.Session.Loop.Client.{next_seq, Tells, send_frame-Tells}

-- The bytes of one message, and of several: each header has the next sequence number.
abbrev pub frame_of : Server → Message → List ℕ
frame_of srv m = encode_header (frame_header srv m.type (length m.body) m.now_ns) ++ m.body

abbrev pub frames_of : Server → List Message → List ℕ
frames_of srv [] = []
frames_of srv (m ∷ ms) = frame_of srv m ++ frames_of (next_seq srv) ms

-- The server after them.
abbrev pub advance : Server → List Message → Server
advance srv [] = srv
advance srv (m ∷ ms) = advance (next_seq srv) ms

abbrev pub Small : Message → Type 0
Small m = length m.body < 2 ^ 31

advance-append :
    (srv : Server) (ms ns : List Message) → advance srv (ms ++ ns) ≡ advance (advance srv ms) ns
advance-append srv [] ns = refl
advance-append srv (m ∷ ms) ns = advance-append (next_seq srv) ms ns

advance-connected : (srv : Server) (ms : List Message) → (advance srv ms).connected ≡ srv.connected
advance-connected srv [] = refl
advance-connected srv (m ∷ ms) = advance-connected (next_seq srv) ms

frames_of-append :
    (srv : Server) (ms ns : List Message)
    → frames_of srv (ms ++ ns) ≡ frames_of srv ms ++ frames_of (advance srv ms) ns
frames_of-append srv [] ns = refl
frames_of-append srv (m ∷ ms) ns =
    ap (λ l. frame_of srv m ++ l) (frames_of-append (next_seq srv) ms ns)
    ∙ sym (append_assoc (frame_of srv m) (frames_of (next_seq srv) ms) _)

All-split : (ms ns : List Message) → All Small (ms ++ ns) → All Small ms × All Small ns
All-split [] ns a = (tt, a)
All-split (m ∷ ms) ns (p, a) = let (b, c) = All-split ms ns a in ((p, b), c)

u32_small : (n : ℕ) → n < 2 ^ 31 → u32 n ≡ n
u32_small n h = omega arith

module _ (net : Sockets) where
  open net use {S, wire}

  -- From one connection to another: if the client is still there, exactly these messages went out.
  abbrev pub Streams : Server → S → List Message → Server → S → Type 0
  Streams srv s ms srv' s' =
      srv'.connected ≡ true
      → (srv' ≡ advance srv ms) × (All Small ms → wire s' ≡ wire s ++ frames_of srv ms)

  Streams-none : (srv : Server) (s : S) → Streams srv s [] srv s
  Streams-none srv s c = (refl, λ a. sym (append-nil (wire s)))

  Streams-append :
      (srv : Server) (s : S) (ms : List Message) (srv1 : Server) (s1 : S) (ns : List Message)
      (srv2 : Server) (s2 : S)
      → Streams srv s ms srv1 s1
      → Streams srv1 s1 ns srv2 s2
      → Streams srv s (ms ++ ns) srv2 s2
  Streams-append srv s ms srv1 s1 ns srv2 s2 p q c =
      let (e2, w2) = q c in
      let c1 : srv1.connected ≡ true =
        sym (advance-connected srv1 ns) ∙ ap (λ z. z.connected) (sym e2) ∙ c in
      let (e1, w1) = p c1 in
      (
        e2 ∙ ap (λ z. advance z ns) e1 ∙ sym (advance-append srv ms ns),
        λ a.
            let (b, d) = All-split ms ns a in
            w2 d
            ∙ ap₂ (λ l z. l ++ frames_of z ns) (w1 b) e1
            ∙ append_assoc (wire s) (frames_of srv ms) (frames_of (advance srv ms) ns)
            ∙ ap (λ l. wire s ++ l) (sym (frames_of-append srv ms ns)),
      )

  -- One SendFrame.
  abbrev SendStreams : Server → S → Message → (Server × S) × Bool → Type 0
  SendStreams srv s m ((srv', s'), true) = Streams srv s (m ∷ []) srv' s'
  SendStreams srv s m ((srv', s'), false) = srv'.connected ≡ false

  SendStreams-from :
      (srv : Server) (s : S) (m : Message) (r : (Server × S) × Bool)
      → Tells net srv r
      → (Small m → Delivered net r s (frame_of srv m))
      → SendStreams srv s m r
  SendStreams-from srv s m ((srv', s'), true) e d = λ c. (
    e,
    λ a. elim (d a.0) [
      | inl (o, w) ↦ w ∙ ap (λ l. wire s ++ l) (sym (append-nil (frame_of srv m)))
      | inr (o, n) ↦ absurd (ground (arith, o))
    ],
  )
  SendStreams-from srv s m ((srv', s'), false) e d = e

  send_frame-SendStreams :
      (srv : Server) (s : S) (m : Message)
      → SendStreams srv s m (send_frame net srv m.type m.body (u32 (length m.body)) m.now_ns s)
  send_frame-SendStreams srv s m = elim (Bool-cases srv.connected) [
    | inl c ↦
        SendStreams-from srv s m _
          (send_frame-Tells net srv m.type m.body (u32 (length m.body)) m.now_ns s)
          (λ small.
            subst
              (λ k.
                Delivered net (send_frame net srv m.type m.body k m.now_ns s) s (frame_of srv m))
              (sym (u32_small (length m.body) small))
              (send_frame_lem net srv m.type m.body m.now_ns s c small))
    | inr c ↦
        unfold send_frame in subst (SendStreams srv s m) (sym (if_false srv.connected _ _ c)) c
  ]
