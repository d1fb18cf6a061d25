-- ===== src/Audio/Queue.antt =====
-- The bounded queue of 1024-sample frames of host/src/audio/capture.cpp: the end of CaptureLoop, and PopFrame.
pub mod Frames
use m_extender.Prelude.{
  ℕ, zero, suc, ◌+◌, List, [], ◌∷◌, ◌++◌, Option, none, some, length, take, drop, leb,
  if◌then◌else◌,
}

-- kFrameSamples * 2.
abbrev pub per_frame : ℕ
per_frame = 2048

abbrev pub max_queued_frames : ℕ
max_queued_frames = 20

-- The accumulator of the capture thread and the deque that the threads share; samples are of any type.
pub record Queue {ℓ} (A : Type ℓ) : Type ℓ where
  pub acc : List A
  pub frames : List (List A)

module _ {ℓ} {A : Type ℓ} where
  unfoldable pub pop_front : List (List A) → List (List A)
  pop_front [] = []
  pop_front (f ∷ fs) = fs

  -- Under the lock: the oldest frame makes room.
  unfoldable pub push_frame : List A → List (List A) → List (List A)
  unfolding pop_front
  push_frame frame frames =
      (if leb max_queued_frames (length frames) then pop_front frames else frames) ++ frame ∷ []

  unfoldable pub emit_one : Queue A → Queue A
  unfolding push_frame
  emit_one q = record {
    acc = drop per_frame q.acc;
    frames = push_frame (take per_frame q.acc) q.frames;
  }

  unfoldable pub emit_frames : ℕ → Queue A → Queue A
  emit_frames zero q = q
  emit_frames (suc fuel) q =
      let rest = emit_frames fuel (emit_one q) in if leb per_frame (length q.acc) then rest else q

  -- The samples of a packet arrive, and every full frame is queued.
  unfoldable pub on_packet : List A → Queue A → Queue A
  unfolding emit_frames
  on_packet samples q =
      let acc = q.acc ++ samples in emit_frames (length acc) (record q { acc = acc })

  unfoldable pub pop_frame : Queue A → Queue A × Option (List A)
  pop_frame q = elim q.frames [ [] ↦ (q, none) | f ∷ fs ↦ (record q { frames = fs }, some f) ]
