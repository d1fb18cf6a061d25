-- ===== src/Session/Encoder.antt =====
-- The encoder inside the main loop of host/src/main.cpp: which of its operations a turn calls, and with what. An encoder is an
-- interface of operations; what its library reports in a turn is an argument of them.
pub mod Frozen
pub mod Size
pub mod Raw
pub mod Pooled
use m_extender.Prelude.{
  ℕ, Bool, true, false, not, ◌&&◌, ◌||◌, List, [], ◌∷◌, ◌++◌, Option, none, some, ltb, ◌==◌,
  if◌then◌else◌,
}
use m_extender.Payload.{EncodedFrame}
use m_extender.Net.{Sockets}
use m_extender.Adapt.{Doubles}
use m_extender.Scale.{Sizing, Source, Gpu, scaled, apply_scale}
use m_extender.Session.{Action, inject, request_keyframe, set_bitrate}
use m_extender.Session.Loop.{Config, Host, Turn, Turned, turn, then_run}

-- twin::Encoder: an encoder E, and what its library reports, A. `none` of encode stands for false.
pub record Encoder : Type 1 where
  pub E : Type 0
  pub A : Type 0
  pub encode : A → Source → E → E × Option EncodedFrame
  pub resize : A → ℕ → ℕ → E → E × Bool
  pub request : E → E
  pub change_bitrate : A → ℕ → E → E × Bool

-- The call of Resize in a turn, if there is one.
unfoldable pub resize_call : Bool → ℕ → ℕ → Sizing → Option (ℕ × ℕ)
resize_call adaptive cap_w cap_h s =
    let nw = scaled cap_w s.scale_idx in
    let nh = scaled cap_h s.scale_idx in
    if adaptive && ltb 0 s.scale_idx
    then (if not (nw == s.cur_w) || not (nh == s.cur_h) then some (nw, nh) else none)
    else if adaptive
    then (if not (s.cur_w == cap_w) || not (s.cur_h == cap_h) then some (cap_w, cap_h) else none)
    else none

module _ (encoder : Encoder) where
  open encoder use {E, A, encode, resize, request, change_bitrate}

  unfoldable pub resized : A → Option (ℕ × ℕ) → E → E
  resized a none e = e
  resized a (some (w, h)) e = (resize a w h e).0

  -- What the inbound frames make of the encoder.
  unfoldable pub perform : A → List Action → E → E
  perform a [] e = e
  perform a (inject calls ∷ rest) e = perform a rest e
  perform a (request_keyframe ∷ rest) e = perform a rest (request e)
  perform a (set_bitrate b ∷ rest) e = perform a rest (change_bitrate a b e).0

  module _ (net : Sockets) (doubles : Doubles) (config : Config) where
    open net use {S}
    open doubles use {D}
    open config use {adaptive, cap_w, cap_h}

    -- The encoder when Encode is called.
    unfoldable pub ready : A → Host S D → E → E
    unfolding resized resize_call
    ready a h e = resized a (resize_call adaptive cap_w cap_h h.sizing) e

    -- A turn in which the outcomes of Resize and of Encode are those of the encoder.
    unfoldable pub with_encoder : A → E → Host S D → Turn D → Turn D
    unfolding ready
    with_encoder a e h t = record t {
      gpu = record { resize_ok = λ w k. (resize a w k e).1; scale_ok = t.gpu.scale_ok };
      encode = λ source. (encode a source (ready a h e)).1;
    }

    unfoldable pub encoder_turn : A → Turn D → E × Host S D → E × Turned S D
    unfolding with_encoder perform turn
    encoder_turn a t (e, h) =
        let t' = with_encoder a e h t in
        let r = turn net doubles config t' h in
        let source = (apply_scale adaptive t'.gpu cap_w cap_h h.sizing).1 in
        let e' = if t.captured then (encode a source (ready a h e)).0 else e in
        (perform a r.actions e', r)

    unfoldable pub encoder_run : List (A × Turn D) → E × Host S D → Turned S D
    unfolding encoder_turn then_run
    encoder_run [] (e, h) = record { host = h; sent = []; actions = []; going = true }
    encoder_run ((a, t) ∷ ts) (e, h) =
        let r = encoder_turn a t (e, h) in
        then_run net doubles config r.1 (λ h'. encoder_run ts (r.0, h'))
