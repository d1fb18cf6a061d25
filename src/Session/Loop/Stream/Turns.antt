-- ===== src/Session/Loop/Stream/Turns.antt =====
-- What the turns of the main loop of host/src/main.cpp put on the connection: the messages of the video and of the sound.
use m_extender.Prelude.{
  ℕ, ◌≡◌, refl, sym, ap, ◌∙◌, Bool, true, false, Bool-cases, inl, inr, List, [], ◌∷◌, ◌++◌, Option,
  none, some, arith, if◌then◌else◌, subst, append-nil,
}
use m_extender.Payload.{EncodedFrame}
use m_extender.Wire.Msg
use m_extender.Net.{Sockets}
use m_extender.Adapt.{Doubles}
use m_extender.Session.Sound.{audio_message}
use m_extender.Session.Inbound.{read_all, read_all_lem}
use m_extender.Session.Loop.{
  Config, Host, Turn, Message, Part, Turned, send, adapt, after_video, set_pending, send_video,
  after_encode, video_turn, after_audio, audio_turn, inbound_turn, turn, then_run, run,
}
use m_extender.Session.Loop.Stream.{
  Streams, Streams-none, Streams-append, SendStreams, send_frame-SendStreams,
}

-- The audio messages of a queue: one for each frame that could be encoded.
abbrev pub audio_messages : List (Option (List ℕ) × ℕ) → List Message
audio_messages [] = []
audio_messages ((none, now_ns) ∷ queue) = audio_messages queue
audio_messages ((some aac_frame, now_ns) ∷ queue) =
    record { type = Msg.audio_frame; body = audio_message aac_frame; now_ns = now_ns }
    ∷ audio_messages queue

module _ (net : Sockets) (doubles : Doubles) (config : Config) where
  open net use {S, wire}
  open doubles use {D}

  abbrev pub HostStreams : Host S D → List Message → Host S D → Type 0
  HostStreams h ms h' = Streams net h.server h.socket ms h'.server h'.socket

  gone :
      (h : Host S D) (ms : List Message) (h' : Host S D)
      → h'.server.connected ≡ false
      → HostStreams h ms h'
  gone h ms h' e c = absurd (ground (arith, e, c))

  after_video-Streams :
      (send_ms : D) (m : Message) (h h' : Host S D) (ok : Bool)
      → SendStreams net h.server h.socket m ((h'.server, h'.socket), ok)
      → let p = after_video net doubles config send_ms m (h', ok) in HostStreams h p.sent p.host
  unfolding after_video adapt
  after_video-Streams send_ms m h h' true k = elim (Bool-cases config.adaptive) [
    | inl a ↦ rw a k
    | inr a ↦ rw a k
  ]
  after_video-Streams send_ms m h h' false k = gone h [] h' k

  send_video-Streams :
      (t : Turn D) (h : Host S D) (o : Bool × Option (List ℕ))
      → let p = send_video net doubles config t h o in HostStreams h p.sent p.host
  unfolding send_video set_pending send
  send_video-Streams t h (pending, none) = Streams-none net h.server h.socket
  send_video-Streams t h (pending, some body) =
      let m : Message = record { type = Msg.video_frame; body = body; now_ns = t.video_ns } in
      after_video-Streams t.send_ms m h _ _ (send_frame-SendStreams net h.server h.socket m)

  after_encode-Streams :
      (t : Turn D) (h : Host S D) (o : Option EncodedFrame)
      → let p = after_encode net doubles config t h o in HostStreams h p.sent p.host
  unfolding after_encode
  after_encode-Streams t h none = Streams-none net h.server h.socket
  after_encode-Streams t h (some ef) = send_video-Streams t h _

  video_turn-Streams :
      (t : Turn D) (h : Host S D)
      → let p = video_turn net doubles config t h in HostStreams h p.sent p.host
  unfolding video_turn
  video_turn-Streams t h = elim (Bool-cases t.captured) [
    | inl e ↦ rw e (after_encode-Streams t _ _)
    | inr e ↦ rw e (Streams-none net h.server h.socket)
  ]

  -- The audio loop streams its messages, and while the client is there it has sent the whole queue.
  abbrev AudioRight : Host S D → List (Option (List ℕ) × ℕ) → Part S D → Type 0
  AudioRight h queue p =
      HostStreams h p.sent p.host × (p.host.server.connected ≡ true → p.sent ≡ audio_messages queue)

  after_audio-Right :
      (f : List ℕ) (now_ns : ℕ) (queue : List (Option (List ℕ) × ℕ)) (h h' : Host S D) (ok : Bool)
      (rest : Host S D → Part S D)
      → let m : Message = record {
        type = Msg.audio_frame;
        body = audio_message f;
        now_ns = now_ns;
      } in
        SendStreams net h.server h.socket m ((h'.server, h'.socket), ok)
        → AudioRight h' queue (rest h')
        → AudioRight h ((some f, now_ns) ∷ queue) (after_audio net doubles config m (h', ok) rest)
  unfolding after_audio
  after_audio-Right f now_ns queue h h' true rest k (r, e) =
      let m : Message = record {
        type = Msg.audio_frame;
        body = audio_message f;
        now_ns = now_ns;
      } in
      let p = rest h' in
      (
        Streams-append net h.server h.socket (m ∷ []) h'.server h'.socket p.sent p.host.server
            p.host.socket k r,
        λ c. ap (λ ms. m ∷ ms) (e c),
      )
  after_audio-Right f now_ns queue h h' false rest k a =
      (gone h [] h' k, λ c. absurd (ground (arith, k, c)))

  audio_turn-Right :
      (queue : List (Option (List ℕ) × ℕ)) (h : Host S D)
      → AudioRight h queue (audio_turn net doubles config queue h)
  unfolding audio_turn send
  audio_turn-Right [] h = (Streams-none net h.server h.socket, λ c. refl)
  audio_turn-Right ((none, now_ns) ∷ queue) h = audio_turn-Right queue h
  audio_turn-Right ((some f, now_ns) ∷ queue) h =
      let m : Message = record {
        type = Msg.audio_frame;
        body = audio_message f;
        now_ns = now_ns;
      } in
      after_audio-Right f now_ns queue h _ _ (audio_turn net doubles config queue)
        (send_frame-SendStreams net h.server h.socket m) (audio_turn-Right queue _)

  abbrev inbound : Host S D → Host S D
  inbound h =
      let r = read_all net h.server h.payload h.socket in
      record h { server = r.server; socket = r.socket; payload = r.payload }

  inbound-Streams :
      (h : Host S D)
      → let r = read_all net h.server h.payload h.socket in
        Streams net h.server h.socket [] r.server r.socket
  inbound-Streams h =
      let (ended, w, k) = read_all_lem net h.server h.payload h.socket in
      λ c. elim k [
        | inl e ↦ (e, λ a. w ∙ sym (append-nil (wire h.socket)))
        | inr e ↦ absurd (ground (arith, e, c))
      ]

  -- What a turn sends, if it is followed by another.
  abbrev pub messages_of : Turn D → Host S D → List Message
  messages_of t h =
      (video_turn net doubles config t h).sent
      ++ audio_messages (if config.audio_on then t.audio else [])

  abbrev pub TurnRight : Turn D → Host S D → Turned S D → Type 0
  TurnRight t h r = HostStreams h r.sent r.host × (r.going ≡ true → r.sent ≡ messages_of t h)

  turn-Right : (t : Turn D) (h : Host S D) → TurnRight t h (turn net doubles config t h)
  unfolding turn inbound_turn set_pending
  turn-Right t h =
      let v = video_turn net doubles config t h in
      let queue = if config.audio_on then t.audio else [] in
      let a = audio_turn net doubles config queue v.host in
      let (sa, ea) = audio_turn-Right queue v.host in
      let sv = video_turn-Streams t h in
      elim (Bool-cases v.going) [
        | inl e ↦ rw e (
          subst (λ ms. HostStreams h ms (inbound a.host)) (append-nil (v.sent ++ a.sent))
              (Streams-append net h.server h.socket (v.sent ++ a.sent) a.host.server a.host.socket
                [] (inbound a.host).server (inbound a.host).socket
                (Streams-append net h.server h.socket v.sent v.host.server v.host.socket a.sent
                  a.host.server a.host.socket sv sa)
                (inbound-Streams a.host)),
          λ c.
              ap (λ ms. v.sent ++ ms)
                (ea (ap (λ z. z.connected) (sym (inbound-Streams a.host c).0) ∙ c)),
        )
        | inr e ↦ rw e (sv, λ g. absurd (ground (arith, g)))
      ]

  then_run-Streams :
      (h : Host S D) (r : Turned S D) (rest : Host S D → Turned S D)
      → HostStreams h r.sent r.host
      → HostStreams r.host (rest r.host).sent (rest r.host).host
      → let q = then_run net doubles config r rest in HostStreams h q.sent q.host
  unfolding then_run
  then_run-Streams h r rest p q = elim (Bool-cases r.going) [
    | inl e ↦ rw e (
        Streams-append net h.server h.socket r.sent r.host.server r.host.socket (rest r.host).sent
          (rest r.host).host.server (rest r.host).host.socket p q)
    | inr e ↦ rw e p
  ]

  -- Whatever the components report in any number of turns: if the client is still there after them, each message
  -- counted as sent has the next sequence number, and when all bodies are shorter than 2 ^ 31 bytes, what the
  -- connection carries has grown by exactly their frames, in their order.
  pub run-Streams :
      (ts : List (Turn D)) (h : Host S D)
      → let r = run net doubles config ts h in HostStreams h r.sent r.host
  unfolding run
  run-Streams [] h = Streams-none net h.server h.socket
  run-Streams (t ∷ ts) h =
      then_run-Streams h (turn net doubles config t h) (run net doubles config ts)
        (turn-Right t h).0 (run-Streams ts _)

  -- A turn that is followed by another has sent what its video part sent and then an audio message for each
  -- queued frame that could be encoded, in their order, and nothing else.
  pub turn-messages_of :
      (t : Turn D) (h : Host S D)
      → (turn net doubles config t h).going ≡ true
      → (turn net doubles config t h).sent ≡ messages_of t h
  turn-messages_of t h = (turn-Right t h).1
