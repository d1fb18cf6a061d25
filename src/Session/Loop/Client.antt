-- ===== src/Session/Loop/Client.antt =====
-- How the main loop of host/src/main.cpp goes on and ends: with its client.
use m_extender.Prelude.{
  ℕ, ◌+◌, ◌≡◌, refl, sym, ◌∙◌, Bool, true, false, Bool-cases, inl, inr, List, [], ◌∷◌, Option, none,
  some, length, ◌==◌, subst, if_true, if_false,
}
use m_extender.Prelude.Int.{pos}
use m_extender.Prelude.Words.{u32, as_int}
use m_extender.Wire.{encode_header, header_size}
use m_extender.Net.{
  Sockets, Server, Outcome, done, failed, out_of_fuel, send_frame, send_payload, sent, send_all,
  disconnect, frame_header,
}
use m_extender.Adapt.{Doubles}
use m_extender.Payload.{EncodedFrame}
use m_extender.Session.Loop.{
  Config, Host, Turn, Message, Part, Turned, send, adapt, after_video, set_pending, send_video,
  after_encode, video_turn, inbound_turn, turn, then_run, run,
}

-- The server after one more frame.
abbrev pub next_seq : Server → Server
next_seq srv = record srv { seq = u32 (srv.seq + 1) }

module _ (net : Sockets) where
  open net use {S}

  -- A send succeeds and counts its frame, or the client is gone.
  abbrev pub Tells : Server → (Server × S) × Bool → Type 0
  Tells srv ((srv', s), true) = srv' ≡ next_seq srv
  Tells srv ((srv', s), false) = srv'.connected ≡ false

  sent-Tells : (srv : Server) (r : S × Outcome (Unit {0})) → Tells srv (sent net (next_seq srv) r)
  unfolding sent disconnect
  sent-Tells srv (s, done _) = refl
  sent-Tells srv (s, failed) = refl
  sent-Tells srv (s, out_of_fuel) = refl

  send_payload-Tells :
      (srv : Server) (payload : List ℕ) (len : ℕ) (r : S × Outcome (Unit {0}))
      → Tells srv (send_payload net (next_seq srv) payload len r)
  unfolding send_payload disconnect
  send_payload-Tells srv payload len (s, done _) = elim (Bool-cases (len == 0)) [
    | inl e ↦ rw e refl
    | inr e ↦ rw e (sent-Tells srv (send_all net s payload (as_int len)))
  ]
  send_payload-Tells srv payload len (s, failed) = refl
  send_payload-Tells srv payload len (s, out_of_fuel) = refl

  pub send_frame-Tells :
      (srv : Server) (type : ℕ) (payload : List ℕ) (len now_ns : ℕ) (s : S)
      → Tells srv (send_frame net srv type payload len now_ns s)
  unfolding send_frame
  send_frame-Tells srv type payload len now_ns s = elim (Bool-cases srv.connected) [
    | inl c ↦ subst (Tells srv) (sym (if_true srv.connected _ _ c)) (
        send_payload-Tells srv payload len
          (send_all net s (encode_header (frame_header srv type len now_ns)) (pos header_size)))
    | inr c ↦ subst (Tells srv) (sym (if_false srv.connected _ _ c)) c
  ]

module _ (net : Sockets) (doubles : Doubles) (config : Config) where
  open net use {S}
  open doubles use {D}

  -- A part of a turn goes on exactly when the client is still there.
  abbrev Goes : Part S D → Type 0
  Goes p = p.going ≡ p.host.server.connected

  after_video-Goes :
      (send_ms : D) (m : Message) (srv : Server) (h : Host S D) (ok : Bool)
      → srv.connected ≡ true
      → Tells net srv ((h.server, h.socket), ok)
      → Goes (after_video net doubles config send_ms m (h, ok))
  unfolding after_video adapt
  after_video-Goes send_ms m srv h true c e = elim (Bool-cases config.adaptive) [
    | inl a ↦ rw (a, e) (sym c)
    | inr a ↦ rw (a, e) (sym c)
  ]
  after_video-Goes send_ms m srv h false c e = sym e

  send_video-Goes :
      (t : Turn D) (h : Host S D) (o : Bool × Option (List ℕ))
      → h.server.connected ≡ true
      → Goes (send_video net doubles config t h o)
  unfolding send_video set_pending send
  send_video-Goes t h (pending, none) c = sym c
  send_video-Goes t h (pending, some body) c =
      after_video-Goes t.send_ms _ h.server _ _ c
        (send_frame-Tells net h.server 3 body (u32 (length body)) t.video_ns h.socket)

  after_encode-Goes :
      (t : Turn D) (h : Host S D) (o : Option EncodedFrame)
      → h.server.connected ≡ true
      → Goes (after_encode net doubles config t h o)
  unfolding after_encode
  after_encode-Goes t h none c = sym c
  after_encode-Goes t h (some ef) c = send_video-Goes t h _ c

  video_turn-Goes :
      (t : Turn D) (h : Host S D)
      → h.server.connected ≡ true
      → Goes (video_turn net doubles config t h)
  unfolding video_turn
  video_turn-Goes t h c = elim (Bool-cases t.captured) [
    | inl e ↦ rw e (after_encode-Goes t _ _ c)
    | inr e ↦ rw e (sym c)
  ]

  -- A whole turn, or a sequence of them, goes on exactly when the client is still there.
  abbrev pub GoesOn : Turned S D → Type 0
  GoesOn r = r.going ≡ r.host.server.connected

  -- With a client at its start, a turn is followed by another one exactly when the client is there at its end.
  pub turn-GoesOn :
      (t : Turn D) (h : Host S D) → h.server.connected ≡ true → GoesOn (turn net doubles config t h)
  unfolding turn inbound_turn set_pending
  turn-GoesOn t h c =
      let v = video_turn net doubles config t h in
      elim (Bool-cases v.going) [ inl e ↦ rw e refl | inr e ↦ rw e (sym e ∙ video_turn-Goes t h c) ]

  then_run-GoesOn :
      (r : Turned S D) (rest : Host S D → Turned S D)
      → GoesOn r
      → (r.host.server.connected ≡ true → GoesOn (rest r.host))
      → GoesOn (then_run net doubles config r rest)
  unfolding then_run
  then_run-GoesOn r rest g k = elim (Bool-cases r.going) [
    | inl e ↦ rw e (k (sym g ∙ e))
    | inr e ↦ rw e (sym e ∙ g)
  ]

  -- With a client at the start, whatever the components report: after any number of turns the loop goes on exactly
  -- when the client is still there.
  pub run-GoesOn :
      (ts : List (Turn D)) (h : Host S D)
      → h.server.connected ≡ true
      → GoesOn (run net doubles config ts h)
  unfolding run
  run-GoesOn [] h c = sym c
  run-GoesOn (t ∷ ts) h c =
      then_run-GoesOn (turn net doubles config t h) (run net doubles config ts) (turn-GoesOn t h c)
        (run-GoesOn ts _)
