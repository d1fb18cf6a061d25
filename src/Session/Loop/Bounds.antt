-- ===== src/Session/Loop/Bounds.antt =====
-- The scale step and the encoded size during the main loop of host/src/main.cpp, whatever the encoder and the GPU do.
use m_extender.Prelude.{
  ℕ, ◌<◌, ◌≡◌, ◌⊎◌, refl, sym, Bool, true, false, Bool-cases, inl, inr, List, [], ◌∷◌, Option, none,
  some, arith, if◌then◌else◌, subst,
}
use m_extender.Payload.{EncodedFrame}
use m_extender.Net.{Sockets}
use m_extender.Adapt.{Doubles, Signal, congested, clear, between, Controller, on_signal, after_send}
use m_extender.Scale.{Sizing, Gpu, scaled, apply_scale}
use m_extender.Scale.Cases.{apply_scale-cases}
use m_extender.Session.Loop.{
  Config, Host, Turn, Message, Part, Turned, send, adapt, after_video, set_pending, send_video,
  after_encode, video_turn, after_audio, audio_turn, inbound_turn, turn, then_run, run,
}

-- The step is in its table, and the size is the native one or that of a step.
pub record Stepped (cap_w cap_h : ℕ) (s : Sizing) : Type 0 where
  pub in_table : s.scale_idx < 4
  pub of_step :
      ((s.cur_w ≡ cap_w) × (s.cur_h ≡ cap_h))
      ⊎ ((i : ℕ) × (i < 4) × (s.cur_w ≡ scaled cap_w i) × (s.cur_h ≡ scaled cap_h i))

apply_scale-Stepped :
    (adaptive : Bool) (gpu : Gpu) (cap_w cap_h : ℕ) (s : Sizing)
    → Stepped cap_w cap_h s
    → Stepped cap_w cap_h (apply_scale adaptive gpu cap_w cap_h s).0
apply_scale-Stepped adaptive gpu cap_w cap_h s v =
    apply_scale-cases (Stepped cap_w cap_h) gpu cap_w cap_h s v adaptive
      (λ ok. record { in_table = v.in_table; of_step = inr (s.scale_idx, v.in_table, refl, refl) })
      (λ bad. record { in_table = omega arith; of_step = inl (refl, refl) })
      (λ ok. record { in_table = v.in_table; of_step = inl (refl, refl) })

on_signal_table : (g : Signal) (c : Controller) → c.scale_idx < 4 → (on_signal g c).scale_idx < 4
unfolding on_signal
on_signal_table congested c h = ground arith
on_signal_table clear c h = ground arith
on_signal_table between c h = ground arith

module _ (net : Sockets) (doubles : Doubles) (config : Config) where
  open net use {S}
  open doubles use {D}
  open config use {cap_w, cap_h}

  abbrev pub HostStepped : Host S D → Type 0
  HostStepped h = Stepped cap_w cap_h h.sizing

  adapt-Stepped :
      (send_ms : D) (h : Host S D)
      → HostStepped h
      → HostStepped (adapt net doubles config send_ms h)
  unfolding adapt after_send
  adapt-Stepped send_ms h v = record {
    in_table = on_signal_table _ _ v.in_table;
    of_step = v.of_step;
  }

  after_video-Stepped :
      (send_ms : D) (m : Message) (h : Host S D) (ok : Bool)
      → HostStepped h
      → HostStepped (after_video net doubles config send_ms m (h, ok)).host
  unfolding after_video
  after_video-Stepped send_ms m h true v = elim (Bool-cases config.adaptive) [
    | inl a ↦ rw a (adapt-Stepped send_ms h v)
    | inr a ↦ rw a v
  ]
  after_video-Stepped send_ms m h false v = v

  set_pending-Stepped :
      (p : Bool) (h : Host S D) → HostStepped h → HostStepped (set_pending net doubles config p h)
  unfolding set_pending
  set_pending-Stepped p h v = record { in_table = v.in_table; of_step = v.of_step }

  send_video-Stepped :
      (t : Turn D) (h : Host S D) (o : Bool × Option (List ℕ))
      → HostStepped h
      → HostStepped (send_video net doubles config t h o).host
  unfolding send_video send
  send_video-Stepped t h (pending, none) v = set_pending-Stepped pending h v
  send_video-Stepped t h (pending, some body) v =
      after_video-Stepped t.send_ms _ _ _ (set_pending-Stepped pending h v)

  after_encode-Stepped :
      (t : Turn D) (h : Host S D) (o : Option EncodedFrame)
      → HostStepped h
      → HostStepped (after_encode net doubles config t h o).host
  unfolding after_encode
  after_encode-Stepped t h none v = v
  after_encode-Stepped t h (some ef) v = send_video-Stepped t h _ v

  video_turn-Stepped :
      (t : Turn D) (h : Host S D)
      → HostStepped h
      → HostStepped (video_turn net doubles config t h).host
  unfolding video_turn
  video_turn-Stepped t h v = elim (Bool-cases t.captured) [
    | inl e ↦ rw e (
        after_encode-Stepped t _ _
          (apply_scale-Stepped config.adaptive t.gpu cap_w cap_h h.sizing v))
    | inr e ↦ rw e v
  ]

  after_audio-sizing :
      (m : Message) (h : Host S D) (ok : Bool) (rest : Host S D → Part S D)
      → (rest h).host.sizing ≡ h.sizing
      → (after_audio net doubles config m (h, ok) rest).host.sizing ≡ h.sizing
  unfolding after_audio
  after_audio-sizing m h true rest e = e
  after_audio-sizing m h false rest e = refl

  pub audio_turn-sizing :
      (queue : List (Option (List ℕ) × ℕ)) (h : Host S D)
      → (audio_turn net doubles config queue h).host.sizing ≡ h.sizing
  unfolding audio_turn send
  audio_turn-sizing [] h = refl
  audio_turn-sizing ((none, now_ns) ∷ queue) h = audio_turn-sizing queue h
  audio_turn-sizing ((some f, now_ns) ∷ queue) h =
      after_audio-sizing _ _ _ (audio_turn net doubles config queue) (audio_turn-sizing queue _)

  turn-Stepped :
      (t : Turn D) (h : Host S D) → HostStepped h → HostStepped (turn net doubles config t h).host
  unfolding turn inbound_turn
  turn-Stepped t h k =
      let v = video_turn net doubles config t h in
      let queue = if config.audio_on then t.audio else [] in
      let s = video_turn-Stepped t h k in
      elim (Bool-cases v.going) [
        | inl e ↦ rw e (
            set_pending-Stepped _ (audio_turn net doubles config queue v.host).host
              (subst (Stepped cap_w cap_h) (sym (audio_turn-sizing queue v.host)) s))
        | inr e ↦ rw e s
      ]

  then_run-Stepped :
      (r : Turned S D) (rest : Host S D → Turned S D)
      → HostStepped r.host
      → HostStepped (rest r.host).host
      → HostStepped (then_run net doubles config r rest).host
  unfolding then_run
  then_run-Stepped r rest p q = elim (Bool-cases r.going) [ inl e ↦ rw e q | inr e ↦ rw e p ]

  -- Whatever is captured, encoded, sent and received, and whichever resizes fail: from a step in the table of four and
  -- a size that is the native one or that of a step, both ways, every number of turns leaves such a step and
  -- such a size.
  pub run-Stepped :
      (ts : List (Turn D)) (h : Host S D)
      → HostStepped h
      → HostStepped (run net doubles config ts h).host
  unfolding run
  run-Stepped [] h v = v
  run-Stepped (t ∷ ts) h v =
      let w = turn-Stepped t h v in
      then_run-Stepped (turn net doubles config t h) (run net doubles config ts) w
        (run-Stepped ts _ w)
