-- ===== src/Session/Messages.antt =====
-- The video messages of host/src/main.cpp between the requests for keyframes.
use m_extender.Prelude.{
  ℕ, ◌≡◌, refl, Bool, true, false, ◌==◌, ◌||◌, ◌⊎◌, inl, inr, Bool-cases, List, [], ◌∷◌, Option,
  none, some, length, ltb,
}
use m_extender.Payload.{EncodedFrame}
use m_extender.Session.{video_message}

-- Is a video message sent, and is it marked as a keyframe? The mark is its first byte.
abbrev pub marked : Option (List ℕ) → Bool
marked none = false
marked (some []) = false
marked (some (b ∷ bs)) = b == 1

-- The frames that the encoder gave, one after the other, with no request in between.
abbrev pub messages : Bool → Bool → ℕ × ℕ → List EncodedFrame → List (Option (List ℕ))
messages keep_raw pending display [] = []
messages keep_raw pending display (f ∷ fs) =
    let r = video_message keep_raw pending display f in r.1 ∷ messages keep_raw r.0 display fs

-- The first message that is sent at all carries the mark.
abbrev pub FirstMarked : List (Option (List ℕ)) → Type 0
FirstMarked [] = Unit
FirstMarked (none ∷ ms) = FirstMarked ms
FirstMarked (some m ∷ ms) = marked (some m) ≡ true

video_message-pending :
    (keep_raw : Bool) (display : ℕ × ℕ) (f : EncodedFrame)
    → let r = video_message keep_raw true display f in
      (r ≡ (true, none)) ⊎ ((m : List ℕ) × (r ≡ (false, some m)) × (marked (some m) ≡ true))
unfolding video_message m_extender.Wire.encode_video
video_message-pending keep_raw display f = elim (Bool-cases (ltb 0 (length f.nals) || keep_raw)) [
  | inl t ↦ rw t (inr (_, refl, refl))
  | inr e ↦ rw e (inl refl)
]

-- After a keyframe is asked for, and while frames are encoded without another request, whether or not some of
-- them have nothing to send: the first message that is sent is marked as a keyframe.
pub messages-FirstMarked :
    (keep_raw : Bool) (display : ℕ × ℕ) (fs : List EncodedFrame)
    → FirstMarked (messages keep_raw true display fs)
messages-FirstMarked keep_raw display [] = tt
messages-FirstMarked keep_raw display (f ∷ fs) = elim (video_message-pending keep_raw display f) [
  | inl e ↦ rw e (messages-FirstMarked keep_raw display fs)
  | inr (m, e, k) ↦ rw e k
]
