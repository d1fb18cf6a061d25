-- ===== src/Session/Loop/Resync.antt =====
-- The size of the video in the messages of the main loop of host/src/main.cpp, and their keyframe marks.
pub mod Turns
use m_extender.Prelude.{
  ℕ, ◌≡◌, ◌⊎◌, refl, sym, ap, ◌∙◌, Bool, true, false, ◌||◌, Bool-cases, inl, inr, List, [], ◌∷◌,
  ◌++◌, Option, none, some, length, ltb, ◌==◌, take, drop, All, arith, if◌then◌else◌, subst,
}
use m_extender.Payload.{EncodedFrame}
use m_extender.Wire.Msg
use m_extender.Wire.{le, encode_video}
use m_extender.Net.{Sockets}
use m_extender.Adapt.{Doubles}
use m_extender.Scale.{Sizing, Gpu, scaled, apply_scale}
use m_extender.Scale.Cases.{apply_scale-cases}
use m_extender.Session.{video_message, drain}
use m_extender.Session.Messages.{marked}
use m_extender.Session.Drain.{drain_lem, asks_keyframe}
use m_extender.Session.Inbound.{read_all}
use m_extender.Session.Loop.{
  Config, Host, Turn, Message, Part, Turned, send, adapt, after_video, set_pending, send_video,
  after_encode, video_turn, after_audio, audio_turn, inbound_turn, turn, then_run, run,
}
use m_extender.Session.Loop.Bounds.{audio_turn-sizing}

-- display_w and display_h in a video message, and the bytes of a size.
abbrev pub display_of : List ℕ → List ℕ
display_of body = take 8 (drop 4 body)

abbrev pub size_bytes : Sizing → List ℕ
size_bytes s = le 4 s.cur_w ++ le 4 s.cur_h

abbrev pub is_video : Message → Bool
is_video m = m.type == Msg.video_frame

-- The size of the last video message, after one message and after several.
abbrev pub next_display : List ℕ → Message → List ℕ
next_display last m = if is_video m then display_of m.body else last

abbrev pub display_after : List ℕ → List Message → List ℕ
display_after last [] = last
display_after last (m ∷ ms) = display_after (next_display last m) ms

-- A video message whose size is not that of the one before is marked as a keyframe.
abbrev pub InStep : List ℕ → Message → Type 0
InStep last m = (is_video m ≡ false) ⊎ (display_of m.body ≡ last) ⊎ (marked (some m.body) ≡ true)

abbrev pub Resynced : List ℕ → List Message → Type 0
Resynced last [] = Unit
Resynced last (m ∷ ms) = InStep last m × Resynced (next_display last m) ms

Resynced-append :
    (last : List ℕ) (ms ns : List Message)
    → Resynced last ms
    → Resynced (display_after last ms) ns
    → Resynced last (ms ++ ns)
Resynced-append last [] ns a b = b
Resynced-append last (m ∷ ms) ns (s, a) b = (s, Resynced-append (next_display last m) ms ns a b)

display_after-append :
    (last : List ℕ) (ms ns : List Message)
    → display_after last (ms ++ ns) ≡ display_after (display_after last ms) ns
display_after-append last [] ns = refl
display_after-append last (m ∷ ms) ns = display_after-append (next_display last m) ms ns

-- The next video message is marked, or it has the size of the last one.
abbrev pub Fresh : List ℕ → Sizing → Type 0
Fresh last s = (s.keyframe_pending ≡ true) ⊎ (size_bytes s ≡ last)

apply_scale-Fresh :
    (last : List ℕ) (adaptive : Bool) (gpu : Gpu) (cap_w cap_h : ℕ) (s : Sizing)
    → ((w h : ℕ) → gpu.resize_ok w h ≡ true)
    → Fresh last s
    → Fresh last (apply_scale adaptive gpu cap_w cap_h s).0
apply_scale-Fresh last adaptive gpu cap_w cap_h s ok f =
    apply_scale-cases (Fresh last) gpu cap_w cap_h s f adaptive (λ r. inl refl)
      (λ bad.
        absurd (ground (arith, bad, ok (scaled cap_w s.scale_idx) (scaled cap_h s.scale_idx))))
      (λ r. inl refl)

-- A message that is made from such variables, and what is pending after it.
abbrev Made : List ℕ → Sizing → Bool × Option (List ℕ) → Type 0
Made last s (pending, none) = pending ≡ s.keyframe_pending
Made last s (pending, some body) =
    (display_of body ≡ size_bytes s) × ((display_of body ≡ last) ⊎ (marked (some body) ≡ true))

video_message-Made :
    (last : List ℕ) (keep_raw : Bool) (s : Sizing) (ef : EncodedFrame)
    → Fresh last s
    → Made last s (video_message keep_raw s.keyframe_pending (s.cur_w, s.cur_h) ef)
unfolding video_message encode_video le
video_message-Made last keep_raw s ef f = elim (Bool-cases (ltb 0 (length ef.nals) || keep_raw)) [
  | inr e ↦ rw e refl
  | inl e ↦ rw e (refl, elim f [ inl p ↦ inr (rw p refl) | inr q ↦ inl q ])
]
