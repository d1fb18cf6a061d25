-- ===== src/Session/Encoder/Size.antt =====
-- cur_w and cur_h of the main loop of host/src/main.cpp, "size the encoder is configured for", and that size.
use m_extender.Prelude.{
  ℕ, ◌≤◌, ◌<◌, ◌≡◌, refl, sym, ap, ap₂, ◌∙◌, Bool, true, false, not, ◌||◌, ◌==◌, Bool-cases, inl,
  inr, List, [], ◌∷◌, Option, none, some, All, arith, ltb, if◌then◌else◌, subst,
}
use m_extender.Payload.{EncodedFrame}
use m_extender.Net.{Sockets}
use m_extender.Adapt.{Doubles}
use m_extender.Scale.{
  Sizing, Source, native, downscaled, Gpu, scaled, resize_to, back_to_native, apply_scale,
}
use m_extender.Scale.Sizes.{scaled_bounds, apply_scale_lem}
use m_extender.Session.{Action, inject, request_keyframe, set_bitrate}
use m_extender.Session.Loop.{
  Config, Host, Turn, Message, send, adapt, after_video, set_pending, send_video, after_encode,
  video_turn, inbound_turn, turn,
}
use m_extender.Session.Loop.Bounds.{audio_turn-sizing}
use m_extender.Session.Encoder.{
  Encoder, resize_call, resized, perform, ready, with_encoder, encoder_turn,
}

-- When an encoder runs and is configured for a size: a resize that succeeds sets it, and nothing else changes it.
pub record Sizes (encoder : Encoder) : Type 1 where
  pub At : encoder.E → ℕ × ℕ → Type 0
  pub At-resize :
      (a : encoder.A) (w k : ℕ) (e : encoder.E) (p : ℕ × ℕ)
      → At e p
      → (encoder.resize a w k e).1 ≡ true
      → At (encoder.resize a w k e).0 (w, k)
  pub At-encode :
      (a : encoder.A) (source : Source) (e : encoder.E) (p : ℕ × ℕ)
      → At e p
      → At (encoder.encode a source e).0 p
  pub At-request : (e : encoder.E) (p : ℕ × ℕ) → At e p → At (encoder.request e) p
  pub At-change_bitrate :
      (a : encoder.A) (b : ℕ) (e : encoder.E) (p : ℕ × ℕ)
      → At e p
      → At (encoder.change_bitrate a b e).0 p

abbrev pub current : Sizing → ℕ × ℕ
current s = (s.cur_w, s.cur_h)

-- The size of the texture that is handed over, when the captured one has the size cap.
abbrev pub texture_size : ℕ × ℕ → Source → ℕ × ℕ
texture_size cap native = cap
texture_size cap (downscaled w k) = (w, k)

module _ (net : Sockets) (doubles : Doubles) (config : Config) where
  open net use {S}
  open doubles use {D}
  open config use {adaptive, cap_w, cap_h}

  after_video-current :
      (send_ms : D) (m : Message) (h : Host S D) (ok : Bool)
      → current (after_video net doubles config send_ms m (h, ok)).host.sizing ≡ current h.sizing
  unfolding after_video adapt
  after_video-current send_ms m h true = elim (Bool-cases adaptive) [
    | inl a ↦ rw a refl
    | inr a ↦ rw a refl
  ]
  after_video-current send_ms m h false = refl

  send_video-current :
      (t : Turn D) (h : Host S D) (o : Bool × Option (List ℕ))
      → current (send_video net doubles config t h o).host.sizing ≡ current h.sizing
  unfolding send_video set_pending send
  send_video-current t h (pending, none) = refl
  send_video-current t h (pending, some body) = after_video-current t.send_ms _ _ _

  after_encode-current :
      (t : Turn D) (h : Host S D) (o : Option EncodedFrame)
      → current (after_encode net doubles config t h o).host.sizing ≡ current h.sizing
  unfolding after_encode
  after_encode-current t h none = refl
  after_encode-current t h (some ef) = send_video-current t h _

  -- A turn leaves the size that its scale step made.
  turn-current :
      (t : Turn D) (h : Host S D)
      → current (turn net doubles config t h).host.sizing ≡ (
          if t.captured
          then current (apply_scale adaptive t.gpu cap_w cap_h h.sizing).0
          else current h.sizing)
  unfolding turn inbound_turn video_turn set_pending
  turn-current t h =
      let v = video_turn net doubles config t h in
      let queue = if config.audio_on then t.audio else [] in
      let video : current v.host.sizing ≡ (
          if t.captured
          then current (apply_scale adaptive t.gpu cap_w cap_h h.sizing).0
          else current h.sizing) =
        elim (Bool-cases t.captured) [
          | inl c ↦ rw c (after_encode-current t _ _)
          | inr c ↦ rw c refl
        ] in
      elim (Bool-cases v.going) [
        | inl g ↦ rw g (ap current (audio_turn-sizing net doubles config queue v.host) ∙ video)
        | inr g ↦ rw g video
      ]

  module _ (encoder : Encoder) (sizes : Sizes encoder) where
    open encoder use {E, A, encode, resize, request, change_bitrate}
    open sizes use {At, At-resize, At-encode, At-request, At-change_bitrate}

    perform-At :
        (a : A) (actions : List Action) (e : E) (p : ℕ × ℕ)
        → At e p
        → At (perform encoder a actions e) p
    unfolding perform
    perform-At a [] e p at = at
    perform-At a (inject calls ∷ rest) e p at = perform-At a rest e p at
    perform-At a (request_keyframe ∷ rest) e p at = perform-At a rest _ p (At-request e p at)
    perform-At a (set_bitrate b ∷ rest) e p at =
        perform-At a rest _ p (At-change_bitrate a b e p at)

    -- The sizes that Resize is called with.
    abbrev pub Within : ℕ → ℕ → Type 0
    Within w k = (0 < w) × (w ≤ cap_w) × (0 < k) × (k ≤ cap_h)

    scaled-Within : (i : ℕ) → 6 ≤ cap_w → 6 ≤ cap_h → Within (scaled cap_w i) (scaled cap_h i)
    scaled-Within i bw bh =
        let w = scaled_bounds cap_w i in let k = scaled_bounds cap_h i in (w.3 bw, w.1, k.3 bh, k.1)

    native-Within : 6 ≤ cap_w → 6 ≤ cap_h → Within cap_w cap_h
    native-Within bw bh = (omega arith, omega arith, omega arith, omega arith)

    -- The size for which the encoder is configured when Encode is called.
    ready-At :
        (a : A) (gpu : Gpu) (h : Host S D) (e : E)
        → (let nw = scaled cap_w h.sizing.scale_idx in
            let nh = scaled cap_h h.sizing.scale_idx in
            ((resize a nw nh e).1 ≡ true) × (gpu.resize_ok nw nh ≡ true))
        → ((resize a cap_w cap_h e).1 ≡ true) × (gpu.resize_ok cap_w cap_h ≡ true)
        → At e (current h.sizing)
        → At
            (ready encoder net doubles config a h e)
            (current (apply_scale adaptive gpu cap_w cap_h h.sizing).0)
    unfolding ready resized resize_call apply_scale resize_to back_to_native
    ready-At a gpu h e step_ok cap_ok fits =
        let s = h.sizing in
        let nw = scaled cap_w s.scale_idx in
        let nh = scaled cap_h s.scale_idx in
        elim (Bool-cases adaptive) [
          | inr off ↦ rw off fits
          | inl on ↦ elim (Bool-cases (ltb 0 s.scale_idx)) [
            | inl step ↦ elim (Bool-cases (not (nw == s.cur_w) || not (nh == s.cur_h))) [
              | inl new ↦
                  rw (on, step, new, step_ok.1) (At-resize a nw nh e (current s) fits step_ok.0)
              | inr same ↦ rw (on, step, same) fits
            ]
            | inr base ↦ elim (Bool-cases (not (s.cur_w == cap_w) || not (s.cur_h == cap_h))) [
              | inl new ↦
                  rw (on, base, new, cap_ok.1) (At-resize a cap_w cap_h e (current s) fits cap_ok.0)
              | inr same ↦ rw (on, base, same) fits
            ]
          ]
        ]

    -- In a turn that captures, the encoder is configured for the size of what Encode is handed, which is the size in
    -- the variables of the loop.
    abbrev pub Fits : A → Turn D → E × Host S D → Type 0
    Fits a t (e, h) =
        let t' = with_encoder encoder net doubles config a e h t in
        let r = encoder_turn encoder net doubles config a t (e, h) in
        let source = (apply_scale adaptive t'.gpu cap_w cap_h h.sizing).1 in
        t.captured ≡ true
        → At (ready encoder net doubles config a h e) (texture_size (cap_w, cap_h) source)
          × (texture_size (cap_w, cap_h) source ≡ current r.1.host.sizing)

    abbrev pub AllFit : List (A × Turn D) → E × Host S D → Type 0
    AllFit [] p = Unit
    AllFit ((a, t) ∷ ts) p =
        let r = encoder_turn encoder net doubles config a t p in
        Fits a t p × (r.1.going ≡ true → AllFit ts (r.0, r.1.host))

    -- Resize of an encoder that runs succeeds at a size up to the captured one, and so does the scaler.
    abbrev pub Works : A × Turn D → Type 0
    Works (a, t) =
        ((w k : ℕ) (e : E) (p : ℕ × ℕ) → Within w k → At e p → (resize a w k e).1 ≡ true)
        × ((w k : ℕ) → t.gpu.scale_ok w k ≡ true)

    handed-size :
        (gpu : Gpu) (s : Sizing)
        → adaptive ≡ true
        → gpu.resize_ok (scaled cap_w s.scale_idx) (scaled cap_h s.scale_idx) ≡ true
        → gpu.resize_ok cap_w cap_h ≡ true
        → ((w k : ℕ) → gpu.scale_ok w k ≡ true)
        → 6 ≤ cap_w
        → 6 ≤ cap_h
        → let r = apply_scale adaptive gpu cap_w cap_h s in
          texture_size (cap_w, cap_h) r.1 ≡ current r.0
    handed-size gpu s on step_ok cap_ok sok bw bh =
        let handed = apply_scale_lem gpu cap_w cap_h s step_ok cap_ok sok bw bh in
        rw on (elim (Bool-cases (s.scale_idx == 0)) [
          | inl z ↦
              let (sized, source) = handed.0 (ground (arith, z)) in
              rw source (ap₂ (λ w k. (w, k)) (sym sized.1) (sym sized.2))
          | inr n ↦
              let (sized, source) = handed.1 (λ z. absurd (ground (arith, n, z))) in rw source refl
        ])

    encoder_turn-Fits :
        (a : A) (t : Turn D) (e : E) (h : Host S D)
        → adaptive ≡ true
        → 6 ≤ cap_w
        → 6 ≤ cap_h
        → Works (a, t)
        → At e (current h.sizing)
        → let r = encoder_turn encoder net doubles config a t (e, h) in
          Fits a t (e, h) × At r.0 (current r.1.host.sizing)
    unfolding encoder_turn with_encoder
    encoder_turn-Fits a t e h on bw bh (rok, sok) fits =
        let t' = with_encoder encoder net doubles config a e h t in
        let r = turn net doubles config t' h in
        let now = ready encoder net doubles config a h e in
        let scaled_to = apply_scale adaptive t'.gpu cap_w cap_h h.sizing in
        let left = if t.captured then (encode a scaled_to.1 now).0 else e in
        let nw = scaled cap_w h.sizing.scale_idx in
        let nh = scaled cap_h h.sizing.scale_idx in
        let step_ok : (resize a nw nh e).1 ≡ true =
          rok nw nh e _ (scaled-Within h.sizing.scale_idx bw bh) fits in
        let cap_ok : (resize a cap_w cap_h e).1 ≡ true =
          rok cap_w cap_h e _ (native-Within bw bh) fits in
        let configured = ready-At a t'.gpu h e (step_ok, step_ok) (cap_ok, cap_ok) fits in
        let loop = turn-current t' h in
        let handed = handed-size t'.gpu h.sizing on step_ok cap_ok sok bw bh in
        let kept : At left (current r.host.sizing) = elim (Bool-cases t.captured) [
          | inl c ↦ rw (loop, c) (At-encode a scaled_to.1 now _ configured)
          | inr c ↦ rw (loop, c) fits
        ] in
        (
          (λ c. (subst (At now) (sym handed) configured, handed ∙ sym (loop ∙ rw c refl))),
          perform-At a r.actions left _ kept,
        )

    -- When adaptive resolution is on, the captured size is at least 6 each way, the encoder runs at the size in the
    -- variables, the scaler succeeds, and Resize does for an encoder that runs and a size up to the captured one: in every turn of the loop that captures, whatever is sent and
    -- received, the encoder is configured for the size of the texture that Encode is handed, and cur_w and cur_h
    -- are that size.
    pub encoder_run-AllFit :
        (ts : List (A × Turn D)) (e : E) (h : Host S D)
        → adaptive ≡ true
        → 6 ≤ cap_w
        → 6 ≤ cap_h
        → All Works ts
        → At e (current h.sizing)
        → AllFit ts (e, h)
    encoder_run-AllFit [] e h on bw bh works fits = tt
    encoder_run-AllFit ((a, t) ∷ ts) e h on bw bh works fits =
        let r = encoder_turn encoder net doubles config a t (e, h) in
        let (now, later) = encoder_turn-Fits a t e h on bw bh works.0 fits in
        (now, λ going. encoder_run-AllFit ts r.0 r.1.host on bw bh works.1 later)
