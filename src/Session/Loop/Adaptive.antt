-- ===== src/Session/Loop/Adaptive.antt =====
-- The adaptive resolution inside the main loop of host/src/main.cpp: the turns drive the controller of Adapt.
use m_extender.Prelude.{
  ℕ, suc, ◌-◌, ◌<◌, ◌≤◌, ◌≡◌, refl, sym, ap, ◌∙◌, Bool, true, false, ◌||◌, Bool-cases, inl, inr,
  List, [], ◌∷◌, Option, none, some, length, ltb, map, replicate, All, arith, if◌then◌else◌,
  if_true, subst,
}
use m_extender.Payload.{EncodedFrame}
use m_extender.Net.{Sockets}
use m_extender.Adapt.{
  Doubles, Controller, Signal, congested, smooth, classify, after_send, after_sends, on_signal,
  on_signals, send_up_frames,
}
use m_extender.Adapt.Streaks.{Inv, congestion_scales_down}
use m_extender.Scale.{Sizing, Source, Gpu, downscaled, scaled, apply_scale}
use m_extender.Scale.Sizes.{Handed, apply_scale_lem}
use m_extender.Scale.Cases.{apply_scale-cases}
use m_extender.Session.{video_message}
use m_extender.Session.Loop.{
  Config, Host, Turn, Message, Part, send, adapt, after_video, set_pending, send_video,
  after_encode, video_turn, after_audio, audio_turn, inbound_turn, turn, then_run, run,
}

-- The scale step keeps its index when the resizes succeed.
apply_scale-idx :
    (adaptive : Bool) (gpu : Gpu) (cap_w cap_h : ℕ) (s : Sizing)
    → ((w h : ℕ) → gpu.resize_ok w h ≡ true)
    → (apply_scale adaptive gpu cap_w cap_h s).0.scale_idx ≡ s.scale_idx
apply_scale-idx adaptive gpu cap_w cap_h s ok =
    apply_scale-cases (λ t. t.scale_idx ≡ s.scale_idx) gpu cap_w cap_h s refl adaptive (λ r. refl)
      (λ bad.
        absurd (ground (arith, bad, ok (scaled cap_w s.scale_idx) (scaled cap_h s.scale_idx))))
      (λ r. refl)

video_message-some :
    (keep_raw pending : Bool) (display : ℕ × ℕ) (ef : EncodedFrame)
    → 0 < length ef.nals
    → (body : List ℕ) × (video_message keep_raw pending display ef ≡ (false, some body))
unfolding video_message
video_message-some keep_raw pending display ef n =
    let e : (ltb 0 (length ef.nals) || keep_raw) ≡ true = ground arith in (_, if_true _ _ _ e)

module _ (net : Sockets) (doubles : Doubles) (config : Config) where
  open net use {S}
  open doubles use {D}

  -- What the controller of Adapt sees of the loop.
  abbrev pub control : Host S D → D × Controller
  control h = (
    h.avg_send_ms,
    record {
      scale_idx = h.sizing.scale_idx;
      send_up_streak = h.send_up_streak;
      send_down_streak = h.send_down_streak;
    },
  )

  -- A turn with a picture: Capture gives one, every resize succeeds, and Encode gives units for any texture.
  pub record Shows (t : Turn D) : Type 0 where
    pub captured : t.captured ≡ true
    pub resizes : (w h : ℕ) → t.gpu.resize_ok w h ≡ true
    pub encodes :
        (source : Source) → (ef : EncodedFrame) × (t.encode source ≡ some ef) × (0 < length ef.nals)

  -- A part of a turn that goes on has told the controller the send time.
  abbrev Told : D → Host S D → Part S D → Type 0
  Told send_ms h p = p.going ≡ true → control p.host ≡ after_send doubles send_ms (control h)

  after_video-Told :
      (send_ms : D) (m : Message) (h : Host S D) (ok : Bool)
      → config.adaptive ≡ true
      → Told send_ms h (after_video net doubles config send_ms m (h, ok))
  unfolding after_video adapt after_send
  after_video-Told send_ms m h true a g = rw a refl
  after_video-Told send_ms m h false a g = absurd (ground (arith, g))

  send_video-Told :
      (t : Turn D) (h : Host S D) (pending : Bool) (body : List ℕ)
      → config.adaptive ≡ true
      → Told t.send_ms h (send_video net doubles config t h (pending, some body))
  unfolding send_video send set_pending
  send_video-Told t h pending body a = after_video-Told t.send_ms _ _ _ a

  after_encode-Told :
      (t : Turn D) (h : Host S D) (ef : EncodedFrame)
      → config.adaptive ≡ true
      → 0 < length ef.nals
      → Told t.send_ms h (after_encode net doubles config t h (some ef))
  unfolding after_encode
  after_encode-Told t h ef a n =
      let (body, e) =
        video_message-some config.keep_raw h.sizing.keyframe_pending
          (h.sizing.cur_w, h.sizing.cur_h) ef n in
      subst (λ o. Told t.send_ms h (send_video net doubles config t h o)) (sym e)
        (send_video-Told t h false body a)

  video_turn-Told :
      (t : Turn D) (h : Host S D)
      → config.adaptive ≡ true
      → Shows t
      → Told t.send_ms h (video_turn net doubles config t h)
  unfolding video_turn
  video_turn-Told t h a v =
      let r = apply_scale config.adaptive t.gpu config.cap_w config.cap_h h.sizing in
      let same =
        apply_scale-idx config.adaptive t.gpu config.cap_w config.cap_h h.sizing v.resizes in
      let (ef, e, n) = v.encodes r.1 in
      let scaled_host = record h { sizing = r.0 } in
      let told = after_encode-Told t scaled_host ef a n in
      rw (v.captured, e)
        (λ g.
          told g
          ∙ ap
              (λ i. after_send doubles t.send_ms (
                h.avg_send_ms,
                record {
                  scale_idx = i;
                  send_up_streak = h.send_up_streak;
                  send_down_streak = h.send_down_streak;
                },
              ))
              same)

  after_audio-control :
      (m : Message) (h : Host S D) (ok : Bool) (rest : Host S D → Part S D)
      → control (rest h).host ≡ control h
      → control (after_audio net doubles config m (h, ok) rest).host ≡ control h
  unfolding after_audio
  after_audio-control m h true rest e = e
  after_audio-control m h false rest e = refl

  audio_turn-control :
      (queue : List (Option (List ℕ) × ℕ)) (h : Host S D)
      → control (audio_turn net doubles config queue h).host ≡ control h
  unfolding audio_turn send
  audio_turn-control [] h = refl
  audio_turn-control ((none, now_ns) ∷ queue) h = audio_turn-control queue h
  audio_turn-control ((some f, now_ns) ∷ queue) h =
      after_audio-control _ _ _ (audio_turn net doubles config queue) (audio_turn-control queue _)

  turn-control :
      (t : Turn D) (h : Host S D)
      → config.adaptive ≡ true
      → Shows t
      → (turn net doubles config t h).going ≡ true
      → control (turn net doubles config t h).host ≡ after_send doubles t.send_ms (control h)
  unfolding turn inbound_turn set_pending
  turn-control t h a s =
      let v = video_turn net doubles config t h in
      let queue = if config.audio_on then t.audio else [] in
      elim (Bool-cases v.going) [
        | inl e ↦ rw e (λ g. audio_turn-control queue v.host ∙ video_turn-Told t h a s e)
        | inr e ↦ rw e (λ g. absurd (ground (arith, g)))
      ]

  -- The refinement: with adaptive resolution on, in turns that each have a picture and whose resizes succeed, and after
  -- which the client is still there, the loop has the smoothed time, the scale step and the streaks that the
  -- controller of Adapt reaches from its own by the send times of the turns alone, whatever sound and
  -- whatever inbound frames come between them.
  pub run-after_sends :
      (ts : List (Turn D)) (h : Host S D)
      → config.adaptive ≡ true
      → All Shows ts
      → (run net doubles config ts h).going ≡ true
      → control (run net doubles config ts h).host
        ≡ after_sends doubles (map (λ t. t.send_ms) ts) (control h)
  unfolding run then_run after_sends
  run-after_sends [] h a s = λ g. refl
  run-after_sends (t ∷ ts) h a s =
      let r = turn net doubles config t h in
      elim (Bool-cases r.going) [
        | inl e ↦ rw e (λ g.
            run-after_sends ts r.host a s.1 g
            ∙ ap (after_sends doubles (map (λ t. t.send_ms) ts)) (turn-control t h a s.0 e))
        | inr e ↦ rw e (λ g. absurd (ground (arith, e, g)))
      ]

  -- What the send times say, one after another.
  abbrev pub signals : List D → D → List Signal
  signals [] avg = []
  signals (ms ∷ rest) avg =
      let avg' = smooth doubles avg ms in classify doubles avg' ∷ signals rest avg'

  after_sends-on_signals :
      (times : List D) (avg : D) (c : Controller)
      → (after_sends doubles times (avg, c)).1 ≡ on_signals (signals times avg) c
  unfolding after_sends after_send on_signals
  after_sends-on_signals [] avg c = refl
  after_sends-on_signals (ms ∷ rest) avg c =
      after_sends-on_signals rest (smooth doubles avg ms)
        (on_signal (classify doubles (smooth doubles avg ms)) c)

  -- From the end of congested turns to the texture of the turn that follows: its GPU succeeds too.
  abbrev pub Smaller : Gpu → ℕ → Sizing → Type 0
  Smaller gpu idx s =
      (s.scale_idx ≡ idx)
      × ((apply_scale true gpu config.cap_w config.cap_h s).1
          ≡ downscaled (scaled config.cap_w idx) (scaled config.cap_h idx))

  Handed-Smaller :
      (gpu : Gpu) (idx : ℕ) (s : Sizing) (r : Sizing × Source)
      → s.scale_idx ≡ suc idx
      → Handed config.cap_w config.cap_h s r
      → r.1 ≡ downscaled (scaled config.cap_w (suc idx)) (scaled config.cap_h (suc idx))
  Handed-Smaller gpu idx s (t, source) e h =
      let (z, p) = h.1 (λ n. absurd (omega (arith, e, n))) in
      p
      ∙ ap (λ w. downscaled w t.cur_h) (z.1 ∙ ap (scaled config.cap_w) e)
      ∙ ap (downscaled (scaled config.cap_w (suc idx))) (z.2 ∙ ap (scaled config.cap_h) e)

  -- Congestion makes the picture smaller: with adaptive resolution on, from a reachable state of the controller that is
  -- not at the smallest step, turns that each have a picture, whose resizes succeed, whose send times all
  -- signal congestion and complete a streak of 45, and after which the client is there, leave the next step;
  -- and a next turn whose GPU calls succeed hands the encoder a texture of exactly the size of that step. The
  -- captured size is at least 6 each way.
  pub congested_turns :
      (ts : List (Turn D)) (h : Host S D) (gpu : Gpu)
      → config.adaptive ≡ true
      → All Shows ts
      → (run net doubles config ts h).going ≡ true
      → Inv (control h).1
      → h.sizing.scale_idx < 3
      → signals (map (λ t. t.send_ms) ts) h.avg_send_ms
        ≡ replicate (send_up_frames - h.send_up_streak) congested
      → ((w k : ℕ) → gpu.resize_ok w k ≡ true)
      → ((w k : ℕ) → gpu.scale_ok w k ≡ true)
      → 6 ≤ config.cap_w
      → 6 ≤ config.cap_h
      → Smaller gpu (suc h.sizing.scale_idx) (run net doubles config ts h).host.sizing
  congested_turns ts h gpu a s g v i e r k w l =
      let q = run net doubles config ts h in
      let times = map (λ t. t.send_ms) ts in
      let c = (control h).1 in
      let moved =
        ap (λ z. z.1) (run-after_sends ts h a s g)
        ∙ after_sends-on_signals times h.avg_send_ms c
        ∙ ap (λ l. on_signals l c) e
        ∙ congestion_scales_down c v i in
      let idx : q.host.sizing.scale_idx ≡ suc h.sizing.scale_idx =
        ap (λ z. z.scale_idx) moved ∙ omega arith in
      (
        idx,
        Handed-Smaller gpu h.sizing.scale_idx q.host.sizing _ idx
            (apply_scale_lem gpu config.cap_w config.cap_h q.host.sizing (r _ _) (r _ _) k w l),
      )
