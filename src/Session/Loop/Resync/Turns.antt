-- ===== src/Session/Loop/Resync/Turns.antt =====
-- The keyframe marks over the turns of the main loop of host/src/main.cpp.
use m_extender.Prelude.{
  ℕ, ◌≡◌, ◌⊎◌, refl, sym, ap, ◌∙◌, Bool, true, false, ◌||◌, Bool-cases, inl, inr, List, [], ◌∷◌,
  Option, none, some, All, arith, if◌then◌else◌, subst,
}
use m_extender.Payload.{EncodedFrame}
use m_extender.Wire.Msg
use m_extender.Net.{Sockets}
use m_extender.Adapt.{Doubles}
use m_extender.Scale.{Sizing}
use m_extender.Session.{drain}
use m_extender.Session.Messages.{marked}
use m_extender.Session.Drain.{drain_lem, asks_keyframe}
use m_extender.Session.Inbound.{read_all}
use m_extender.Session.Loop.{
  Config, Host, Turn, Message, Part, Turned, send, adapt, after_video, set_pending, send_video,
  after_encode, video_turn, after_audio, audio_turn, inbound_turn, turn, then_run, run,
}
use m_extender.Session.Loop.Bounds.{audio_turn-sizing}
use m_extender.Session.Loop.Resync.{
  display_of, size_bytes, display_after, Resynced, Resynced-append, display_after-append, Fresh,
  apply_scale-Fresh, Made, video_message-Made,
}

module _ (net : Sockets) (doubles : Doubles) (config : Config) where
  open net use {S}
  open doubles use {D}

  -- From the last size, what is sent is in step, and if the loop goes on, what comes next will be.
  abbrev pub InSync : List ℕ → List Message → Host S D → Bool → Type 0
  InSync last sent h going =
      Resynced last sent × (going ≡ true → Fresh (display_after last sent) h.sizing)

  after_video-InSync :
      (last body : List ℕ) (t : Turn D) (h : Host S D) (ok : Bool)
      → display_of body ≡ size_bytes h.sizing
      → (display_of body ≡ last) ⊎ (marked (some body) ≡ true)
      → let m : Message = record { type = Msg.video_frame; body = body; now_ns = t.video_ns } in
        let p = after_video net doubles config t.send_ms m (h, ok) in
        InSync last p.sent p.host p.going
  unfolding after_video adapt
  after_video-InSync last body t h true e d = elim (Bool-cases config.adaptive) [
    | inl a ↦ rw a ((inr d, tt), (λ g. inr (sym e)))
    | inr a ↦ rw a ((inr d, tt), (λ g. inr (sym e)))
  ]
  after_video-InSync last body t h false e d = (tt, λ g. absurd (ground (arith, g)))

  send_video-InSync :
      (last : List ℕ) (t : Turn D) (h : Host S D) (o : Bool × Option (List ℕ))
      → Fresh last h.sizing
      → Made last h.sizing o
      → let p = send_video net doubles config t h o in InSync last p.sent p.host p.going
  unfolding send_video set_pending send
  send_video-InSync last t h (pending, none) f m =
      (tt, λ g. elim f [ inl p ↦ inl (m ∙ p) | inr q ↦ inr q ])
  send_video-InSync last t h (pending, some body) f (e, d) = after_video-InSync last body t _ _ e d

  after_encode-InSync :
      (last : List ℕ) (t : Turn D) (h : Host S D) (o : Option EncodedFrame)
      → Fresh last h.sizing
      → let p = after_encode net doubles config t h o in InSync last p.sent p.host p.going
  unfolding after_encode
  after_encode-InSync last t h none f = (tt, λ g. f)
  after_encode-InSync last t h (some ef) f =
      send_video-InSync last t h _ f (video_message-Made last config.keep_raw h.sizing ef f)

  video_turn-InSync :
      (last : List ℕ) (t : Turn D) (h : Host S D)
      → ((w h : ℕ) → t.gpu.resize_ok w h ≡ true)
      → Fresh last h.sizing
      → let p = video_turn net doubles config t h in InSync last p.sent p.host p.going
  unfolding video_turn
  video_turn-InSync last t h ok f = elim (Bool-cases t.captured) [
    | inl e ↦ rw e (
        after_encode-InSync last t _ _
          (apply_scale-Fresh last config.adaptive t.gpu config.cap_w config.cap_h h.sizing ok f))
    | inr e ↦ rw e (tt, λ g. f)
  ]

  -- Audio messages show no size.
  abbrev Silent : List ℕ → Part S D → Type 0
  Silent last p = Resynced last p.sent × (display_after last p.sent ≡ last)

  after_audio-Silent :
      (last body : List ℕ) (now_ns : ℕ) (h : Host S D) (ok : Bool) (rest : Host S D → Part S D)
      → Silent last (rest h)
      → let m : Message = record { type = Msg.audio_frame; body = body; now_ns = now_ns } in
        Silent last (after_audio net doubles config m (h, ok) rest)
  unfolding after_audio
  after_audio-Silent last body now_ns h true rest (r, e) = ((inl refl, r), e)
  after_audio-Silent last body now_ns h false rest k = (tt, refl)

  audio_turn-Silent :
      (last : List ℕ) (queue : List (Option (List ℕ) × ℕ)) (h : Host S D)
      → Silent last (audio_turn net doubles config queue h)
  unfolding audio_turn send
  audio_turn-Silent last [] h = (tt, refl)
  audio_turn-Silent last ((none, now_ns) ∷ queue) h = audio_turn-Silent last queue h
  audio_turn-Silent last ((some f, now_ns) ∷ queue) h =
      after_audio-Silent last _ now_ns _ _ (audio_turn net doubles config queue)
        (audio_turn-Silent last queue _)

  asked-Fresh :
      (last : List ℕ) (s : Sizing) (p asked : Bool)
      → p ≡ (s.keyframe_pending || asked)
      → Fresh last s
      → Fresh last (record s { keyframe_pending = p })
  asked-Fresh last s p asked e (inl q) = inl (e ∙ ap (λ z. z || asked) q)
  asked-Fresh last s p asked e (inr q) = inr q

  turn-InSync :
      (last : List ℕ) (t : Turn D) (h : Host S D)
      → ((w h : ℕ) → t.gpu.resize_ok w h ≡ true)
      → Fresh last h.sizing
      → let r = turn net doubles config t h in InSync last r.sent r.host r.going
  unfolding turn inbound_turn set_pending
  turn-InSync last t h ok f =
      let v = video_turn net doubles config t h in
      let queue = if config.audio_on then t.audio else [] in
      let a = audio_turn net doubles config queue v.host in
      let frames = (read_all net a.host.server a.host.payload a.host.socket).frames in
      let p = drain config.inject t.screen t.beyond a.host.sizing.keyframe_pending frames in
      let d = display_after last v.sent in
      let (sv, fv) = video_turn-InSync last t h ok f in
      let (sa, da) = audio_turn-Silent d queue v.host in
      let fresh_audio = λ (g : v.going ≡ true).
        subst (Fresh d) (sym (audio_turn-sizing net doubles config queue v.host)) (fv g) in
      elim (Bool-cases v.going) [
        | inl e ↦ rw e (
          Resynced-append last v.sent a.sent sv sa,
          λ g.
              subst (λ l. Fresh l (record (a.host.sizing) { keyframe_pending = p.0 }))
                (sym (display_after-append last v.sent a.sent ∙ da))
                (asked-Fresh d a.host.sizing p.0 (asks_keyframe frames)
                  (drain_lem config.inject t.screen t.beyond a.host.sizing.keyframe_pending
                    frames).1
                  (fresh_audio e)),
        )
        | inr e ↦ rw e (sv, λ g. absurd (ground (arith, g)))
      ]

  then_run-InSync :
      (last : List ℕ) (r : Turned S D) (rest : Host S D → Turned S D)
      → InSync last r.sent r.host r.going
      → (Fresh (display_after last r.sent) r.host.sizing
          → let q = rest r.host in InSync (display_after last r.sent) q.sent q.host q.going)
      → let q = then_run net doubles config r rest in InSync last q.sent q.host q.going
  unfolding then_run
  then_run-InSync last r rest (s, f) k = elim (Bool-cases r.going) [
    | inl e ↦
        let (sq, fq) = k (f e) in
        rw e (
          Resynced-append last r.sent (rest r.host).sent s sq,
          λ g.
              subst (λ l. Fresh l (rest r.host).host.sizing)
                (sym (display_after-append last r.sent (rest r.host).sent)) (fq g),
        )
    | inr e ↦ rw e (s, λ g. absurd (ground (arith, g)))
  ]

  run-InSync :
      (ts : List (Turn D)) (last : List ℕ) (h : Host S D)
      → All (λ t. (w h : ℕ) → t.gpu.resize_ok w h ≡ true) ts
      → Fresh last h.sizing
      → let r = run net doubles config ts h in InSync last r.sent r.host r.going
  unfolding run
  run-InSync [] last h ok f = (tt, λ g. f)
  run-InSync (t ∷ ts) last h ok f =
      let r = turn net doubles config t h in
      then_run-InSync last r (run net doubles config ts) (turn-InSync last t h ok.0 f)
        (run-InSync ts (display_after last r.sent) r.host ok.1)

  -- When every resize of the encoder succeeds, from a state with a keyframe pending, as the loop starts: of the
  -- video messages that are sent in any number of turns, each whose display size is not that of the video message
  -- before it, the first one included, is marked as a keyframe; so the tablet can set up its decoder anew.
  pub run-Resynced :
      (ts : List (Turn D)) (last : List ℕ) (h : Host S D)
      → All (λ t. (w h : ℕ) → t.gpu.resize_ok w h ≡ true) ts
      → h.sizing.keyframe_pending ≡ true
      → Resynced last (run net doubles config ts h).sent
  run-Resynced ts last h ok p = (run-InSync ts last h ok (inl p)).0
