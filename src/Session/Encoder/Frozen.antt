-- ===== src/Session/Encoder/Frozen.antt =====
-- NVENC inside the main loop of host/src/main.cpp, when the resolution is adapted.
use m_extender.Prelude.{
  ℕ, ◌≡◌, refl, sym, ap, Bool, true, false, Bool-cases, inl, inr, List, [], ◌∷◌, ◌++◌, Option, none,
  some, All, arith, if◌then◌else◌, if_true, if_false, subst, ◌∙◌, ap₂, ◌⊎◌,
}
use m_extender.Wire.Msg
use m_extender.Net.{Sockets}
use m_extender.Adapt.{Doubles}
use m_extender.Scale.{Source, apply_scale}
use m_extender.Encode.Nvenc
use m_extender.Encode.Nvenc.{NvEncoder, Answers, loads, load_api}
use m_extender.Encode.Nvenc.Resized.{
  RefusesNull, Dead, encode-Dead, resize-Dead, resize_again-Dead, set_bitrate-Dead,
}
use m_extender.Session.{Action, inject, request_keyframe, set_bitrate}
use m_extender.Session.Loop.{
  Config, Host, Turn, Message, Part, Turned, after_encode, video_turn, after_audio, audio_turn,
  inbound_turn, turn, then_run,
}
use m_extender.Session.Loop.Stream.Turns.{audio_messages, turn-messages_of}
use m_extender.Session.Encoder.{
  Encoder, resize_call, resized, perform, ready, with_encoder, encoder_turn, encoder_run,
}

-- NvEncoder as the encoder of the loop: it reads the texture that it is handed.
abbrev pub nvenc : Encoder
nvenc = record {
  E = NvEncoder;
  A = Answers;
  encode = λ a source e. let r = Nvenc.encode a e in (r.0, r.1.frame);
  resize = Nvenc.resize;
  request = Nvenc.request_keyframe;
  change_bitrate = Nvenc.set_bitrate;
}

abbrev pub IsAudio : Message → Type 0
IsAudio m = m.type ≡ Msg.audio_frame

resized-Dead :
    (a : Answers) (call : Option (ℕ × ℕ)) (e : NvEncoder) → Dead e → Dead (resized nvenc a call e)
unfolding resized
resized-Dead a none e d = d
resized-Dead a (some (w, h)) e d = resize_again-Dead a w h e d

perform-Dead :
    (a : Answers) (actions : List Action) (e : NvEncoder)
    → Dead e
    → Dead (perform nvenc a actions e)
unfolding perform Nvenc.request_keyframe
perform-Dead a [] e d = d
perform-Dead a (inject calls ∷ rest) e d = perform-Dead a rest e d
perform-Dead a (request_keyframe ∷ rest) e d =
    perform-Dead a rest _
      (record { device = d.device; encoder = d.encoder; configured = d.configured })
perform-Dead a (set_bitrate b ∷ rest) e d = perform-Dead a rest _ (set_bitrate-Dead a b e d)

All-append : (xs ys : List Message) → All IsAudio xs → All IsAudio ys → All IsAudio (xs ++ ys)
All-append [] ys p q = q
All-append (x ∷ xs) ys p q = (p.0, All-append xs ys p.1 q)

module _ (net : Sockets) (doubles : Doubles) (config : Config) where
  open net use {S}
  open doubles use {D}
  open config use {adaptive, cap_w, cap_h}

  video_turn-none :
      (t : Turn D) (h : Host S D)
      → ((source : Source) → t.encode source ≡ none)
      → (video_turn net doubles config t h).sent ≡ []
  unfolding video_turn after_encode
  video_turn-none t h n =
      let r = apply_scale adaptive t.gpu cap_w cap_h h.sizing in
      elim (Bool-cases t.captured) [ inl e ↦ rw (e, n r.1) refl | inr e ↦ rw e refl ]

  after_audio-IsAudio :
      (m : Message) (h : Host S D) (ok : Bool) (rest : Host S D → Part S D)
      → IsAudio m
      → All IsAudio (rest h).sent
      → All IsAudio (after_audio net doubles config m (h, ok) rest).sent
  unfolding after_audio
  after_audio-IsAudio m h true rest k r = (k, r)
  after_audio-IsAudio m h false rest k r = tt

  audio_turn-IsAudio :
      (queue : List (Option (List ℕ) × ℕ)) (h : Host S D)
      → All IsAudio (audio_turn net doubles config queue h).sent
  unfolding audio_turn
  audio_turn-IsAudio [] h = tt
  audio_turn-IsAudio ((none, now_ns) ∷ queue) h = audio_turn-IsAudio queue h
  audio_turn-IsAudio ((some f, now_ns) ∷ queue) h =
      after_audio-IsAudio _ _ _ (audio_turn net doubles config queue) refl
        (audio_turn-IsAudio queue _)

  turn-IsAudio :
      (t : Turn D) (h : Host S D)
      → ((source : Source) → t.encode source ≡ none)
      → All IsAudio (turn net doubles config t h).sent
  unfolding turn inbound_turn
  turn-IsAudio t h n =
      let v = video_turn net doubles config t h in
      let queue = if config.audio_on then t.audio else [] in
      let s = subst (All IsAudio) (sym (video_turn-none t h n)) tt in
      elim (Bool-cases v.going) [
        | inl e ↦ rw e (All-append v.sent _ s (audio_turn-IsAudio queue v.host))
        | inr e ↦ rw e s
      ]

  -- The audio messages of a turn, and those of several.
  abbrev pub audio_of : Turn D → List Message
  audio_of t = audio_messages (if config.audio_on then t.audio else [])

  abbrev pub all_audio : List (Answers × Turn D) → List Message
  all_audio [] = []
  all_audio ((a, t) ∷ ts) = audio_of t ++ all_audio ts

  -- Only sound is sent, and all of it as long as the loop goes on.
  abbrev OnlySound : List Message → Turned S D → Type 0
  OnlySound sound r = All IsAudio r.sent × (r.going ≡ true → r.sent ≡ sound)

  turn-OnlySound :
      (t : Turn D) (h : Host S D)
      → ((source : Source) → t.encode source ≡ none)
      → OnlySound (audio_of t) (turn net doubles config t h)
  turn-OnlySound t h n = (
    turn-IsAudio t h n,
    λ g.
        turn-messages_of net doubles config t h g
        ∙ ap (λ ms. ms ++ audio_of t) (video_turn-none t h n),
  )

  -- A turn whose Encode finds a dead encoder sends only sound and leaves a dead encoder.
  encoder_turn-Dead :
      (a : Answers) (t : Turn D) (e : NvEncoder) (h : Host S D)
      → RefusesNull a
      → Dead (ready nvenc net doubles config a h e)
      → (t.captured ≡ false → Dead e)
      → let r = encoder_turn nvenc net doubles config a t (e, h) in
        Dead r.0 × OnlySound (audio_of t) r.1
  unfolding encoder_turn with_encoder
  encoder_turn-Dead a t e h n d k =
      let e1 = ready nvenc net doubles config a h e in
      let (d', f) = encode-Dead a e1 n d in
      let t' = with_encoder nvenc net doubles config a e h t in
      let actions = (turn net doubles config t' h).actions in
      let left : Dead (if t.captured then (Nvenc.encode a e1).0 else e) =
        elim (Bool-cases t.captured) [
          | inl c ↦ subst Dead (sym (if_true t.captured _ _ c)) d'
          | inr c ↦ subst Dead (sym (if_false t.captured _ _ c)) (k c)
        ] in
      (
        perform-Dead a actions (if t.captured then (Nvenc.encode a e1).0 else e) left,
        turn-OnlySound t' h (λ source. ap (λ z. z.frame) f),
      )

  then_run-OnlySound :
      (first later : List Message) (r : Turned S D) (rest : Host S D → Turned S D)
      → OnlySound first r
      → OnlySound later (rest r.host)
      → OnlySound (first ++ later) (then_run net doubles config r rest)
  unfolding then_run
  then_run-OnlySound first later r rest (p, u) (q, v) = elim (Bool-cases r.going) [
    | inl e ↦
        rw e (All-append r.sent (rest r.host).sent p q, λ g. ap₂ (λ ms ns. ms ++ ns) (u e) (v g))
    | inr e ↦ rw e (p, λ g. absurd (ground (arith, e, g)))
  ]

  encoder_run-Dead :
      (ts : List (Answers × Turn D)) (e : NvEncoder) (h : Host S D)
      → All (λ p. RefusesNull p.0) ts
      → Dead e
      → OnlySound (all_audio ts) (encoder_run nvenc net doubles config ts (e, h))
  unfolding encoder_run ready
  encoder_run-Dead [] e h n d = (tt, λ g. refl)
  encoder_run-Dead ((a, t) ∷ ts) e h n d =
      let r = encoder_turn nvenc net doubles config a t (e, h) in
      let call = resize_call adaptive cap_w cap_h h.sizing in
      let (d', s) = encoder_turn-Dead a t e h n.0 (resized-Dead a call e d) (λ c. d) in
      then_run-OnlySound (audio_of t) (all_audio ts) r.1
        (λ h'. encoder_run nvenc net doubles config ts (r.0, h')) s
        (encoder_run-Dead ts r.0 r.1.host n.1 d')

  -- The fault in the loop: when a turn that captures a picture calls Resize on an NVENC encoder that has its device, its
  -- configuration and its library, and NVENC refuses in every turn to initialise an encoder that was never opened,
  -- then in that turn and in all that follow not one video message is sent, however many pictures are captured;
  -- and either the loop has ended, or what was sent is an audio message for each queued frame of sound that
  -- could be encoded, in their order.
  pub nvenc_frozen :
      (a : Answers) (t : Turn D) (ts : List (Answers × Turn D)) (e : NvEncoder) (h : Host S D)
      (w k : ℕ)
      → e.device ≡ true
      → e.configured ≡ true
      → e.api ≡ true
      → t.captured ≡ true
      → resize_call adaptive cap_w cap_h h.sizing ≡ some (w, k)
      → All (λ p. RefusesNull p.0) ((a, t) ∷ ts)
      → let q = encoder_run nvenc net doubles config ((a, t) ∷ ts) (e, h) in
        All IsAudio q.sent × ((q.going ≡ false) ⊎ (q.sent ≡ all_audio ((a, t) ∷ ts)))
  unfolding encoder_run ready resized
  nvenc_frozen a t ts e h w k d c p g call n =
      let r = encoder_turn nvenc net doubles config a t (e, h) in
      let q = encoder_run nvenc net doubles config ((a, t) ∷ ts) (e, h) in
      let dead : Dead (resized nvenc a (resize_call adaptive cap_w cap_h h.sizing) e) =
        subst (λ z. Dead (resized nvenc a z e)) (sym call) (resize-Dead a w k e d c p) in
      let (d', s) = encoder_turn-Dead a t e h n.0 dead (λ f. absurd (ground (arith, f, g))) in
      let (only, all) =
        then_run-OnlySound (audio_of t) (all_audio ts) r.1
          (λ h'. encoder_run nvenc net doubles config ts (r.0, h')) s
          (encoder_run-Dead ts r.0 r.1.host n.1 d') in
      (only, elim (Bool-cases q.going) [ inl y ↦ inr (all y) | inr x ↦ inl x ])
