-- ===== src/Session/Drain.antt =====
-- The inbound loop of host/src/main.cpp: what the tablet can make the host do.
use m_extender.Prelude.{
  ℕ, ◌≤◌, ◌≡◌, refl, ◌∙◌, Bool, true, false, ◌||◌, List, [], ◌∷◌, ◌++◌, arith, All, ◌==◌,
}
use m_extender.Wire.Msg
use m_extender.Inject.{Injector, VirtualScreen}
use m_extender.Wire.{decode_control, Control}
use m_extender.Session.{
  Action, inject, request_keyframe, set_bitrate, on_control, on_frame, drain, clamp_bitrate,
}

-- A bitrate that an encoder is given is one that it accepts.
abbrev pub InRange : Action → Type 0
InRange (inject calls) = Unit
InRange request_keyframe = Unit
InRange (set_bitrate b) = (250000 ≤ b) × (b ≤ 40000000)

-- Is there a keyframe request among the frames?
abbrev pub asks_keyframe : List (ℕ × List ℕ) → Bool
asks_keyframe [] = false
asks_keyframe (f ∷ fs) = f.0 == Msg.keyframe_req || asks_keyframe fs

All-append : (xs ys : List Action) → All InRange xs → All InRange ys → All InRange (xs ++ ys)
All-append [] ys p q = q
All-append (x ∷ xs) ys p q = (p.0, All-append xs ys p.1 q)

on_control-InRange : (c : Control) → All InRange (on_control c)
unfolding on_control clamp_bitrate
on_control-InRange c = ground arith

on_frame-InRange :
    (inj : Injector) (vs : VirtualScreen) (beyond : List ℕ) (pending : Bool) (f : ℕ × List ℕ)
    → All InRange (on_frame inj vs beyond pending f).1
unfolding on_frame
on_frame-InRange inj vs beyond pending (type, payload) =
    ground (arith, on_control-InRange (decode_control payload))

on_frame-pending :
    (inj : Injector) (vs : VirtualScreen) (beyond : List ℕ) (pending : Bool) (f : ℕ × List ℕ)
    → (on_frame inj vs beyond pending f).0 ≡ (pending || f.0 == Msg.keyframe_req)
unfolding on_frame
on_frame-pending inj vs beyond pending (type, payload) = ground arith

or_assoc : (a b c : Bool) → ((a || b) || c) ≡ (a || (b || c))
or_assoc true b c = refl
or_assoc false b c = refl

or_false : (a : Bool) → a ≡ (a || false)
or_false true = refl
or_false false = refl

-- Whatever frames the tablet sends, with whatever payloads: every bitrate handed to the encoder lies between
-- 250000 and 40000000, and a keyframe is pending afterwards exactly when one was before or a frame asks for one.
pub drain_lem :
    (inj : Injector) (vs : VirtualScreen) (beyond : List ℕ) (pending : Bool)
    (fs : List (ℕ × List ℕ))
    → All InRange (drain inj vs beyond pending fs).1
      × ((drain inj vs beyond pending fs).0 ≡ (pending || asks_keyframe fs))
unfolding drain
drain_lem inj vs beyond pending [] = (tt, or_false pending)
drain_lem inj vs beyond pending (f ∷ fs) =
    let p = (on_frame inj vs beyond pending f).0 in
    let (a, e) = drain_lem inj vs beyond p fs in
    (
      All-append (on_frame inj vs beyond pending f).1 (drain inj vs beyond p fs).1
          (on_frame-InRange inj vs beyond pending f) a,
      e
          ∙ rw (on_frame-pending inj vs beyond pending f)
              (or_assoc pending (f.0 == Msg.keyframe_req) (asks_keyframe fs)),
    )
