-- ===== src/Audio/Queue/Frames.antt =====
-- What the queue keeps of host/src/audio/capture.cpp: frames of one size, at most twenty, and no sample lost before them.
use mathlib.Core.List.{flatten}
use m_extender.Prelude.{
  ℕ, zero, suc, ◌+◌, ◌-◌, ◌≤◌, ◌<◌, ◌≡◌, refl, sym, ap, ◌∙◌, List, [], ◌∷◌, ◌++◌, length, take,
  drop, leb, arith, All, append_assoc, append-nil, ◌*◌, length-append, length-drop, length-take,
  take-append-drop, false, Bool-cases, inl, inr,
}
use m_extender.Audio.Queue.{
  per_frame, max_queued_frames, Queue, pop_front, push_frame, emit_one, emit_frames, on_packet,
}

module _ {ℓ} {A : Type ℓ} where
  abbrev pub IsFrame : List A → Type 0
  IsFrame f = length f ≡ per_frame

  pub record Inv (q : Queue A) : Type 0 where
    pub bounded : length q.frames ≤ max_queued_frames
    pub sized : All IsFrame q.frames

  All-append : (fs gs : List (List A)) → All IsFrame fs → All IsFrame gs → All IsFrame (fs ++ gs)
  All-append [] gs a b = b
  All-append (f ∷ fs) gs a b = (a.0, All-append fs gs a.1 b)

  pop_front-All : (fs : List (List A)) → All IsFrame fs → All IsFrame (pop_front fs)
  unfolding pop_front
  pop_front-All [] a = a
  pop_front-All (f ∷ fs) a = a.1

  length-pop_front : (fs : List (List A)) → length (pop_front fs) ≡ length fs - 1
  unfolding pop_front
  length-pop_front [] = omega arith
  length-pop_front (f ∷ fs) = omega arith

  push_frame-Inv :
      (f : List A) (fs : List (List A))
      → IsFrame f
      → length fs ≤ max_queued_frames
      → All IsFrame fs
      → (length (push_frame f fs) ≤ max_queued_frames) × All IsFrame (push_frame f fs)
  unfolding push_frame
  push_frame-Inv f fs e b a = elim (Bool-cases (leb max_queued_frames (length fs))) [
    | inl full ↦ rw full (
      omega (arith, length-append (pop_front fs) (f ∷ []), length-pop_front fs),
      All-append (pop_front fs) (f ∷ []) (pop_front-All fs a) (e, tt),
    )
    | inr free ↦
        rw free (ground (arith, length-append fs (f ∷ [])), All-append fs (f ∷ []) a (e, tt))
  ]

  emit_one-Inv : (q : Queue A) → per_frame ≤ length q.acc → Inv q → Inv (emit_one q)
  unfolding emit_one
  emit_one-Inv q h v =
      let p =
        push_frame-Inv (take per_frame q.acc) q.frames (omega (arith, length-take per_frame q.acc))
          v.bounded v.sized in
      record { bounded = p.0; sized = p.1 }

  emit_frames-Inv : (fuel : ℕ) (q : Queue A) → Inv q → Inv (emit_frames fuel q)
  unfolding emit_frames
  emit_frames-Inv zero q v = v
  emit_frames-Inv (suc fuel) q v = elim (Bool-cases (leb per_frame (length q.acc))) [
    | inl more ↦ rw more (emit_frames-Inv fuel (emit_one q) (emit_one-Inv q (ground arith) v))
    | inr done ↦ rw done v
  ]

  emit_frames_short :
      (fuel : ℕ) (q : Queue A) → length q.acc ≤ fuel → length (emit_frames fuel q).acc < per_frame
  unfolding emit_frames emit_one
  emit_frames_short zero q h = omega arith
  emit_frames_short (suc fuel) q h = elim (Bool-cases (leb per_frame (length q.acc))) [
    | inl more ↦
        rw more (emit_frames_short fuel (emit_one q) (ground (arith, length-drop per_frame q.acc)))
    | inr done ↦ rw done (ground arith)
  ]

  -- After every packet of any length the queue holds at most twenty frames, each of exactly 2048
  -- samples, and less than one frame stays in the accumulator.
  pub on_packet-Inv :
      (samples : List A) (q : Queue A)
      → Inv q
      → Inv (on_packet samples q) × (length (on_packet samples q).acc < per_frame)
  unfolding on_packet
  on_packet-Inv samples q v =
      let acc = q.acc ++ samples in
      let q' : Queue A = record q { acc = acc } in
      (
        emit_frames-Inv (length acc) q' (record { bounded = v.bounded; sized = v.sized }),
        emit_frames_short (length acc) q' (omega arith),
      )

  -- The samples that wait, oldest first.
  abbrev pub waiting : Queue A → List A
  waiting q = flatten q.frames ++ q.acc

  flatten-append : (fs : List (List A)) (f : List A) → flatten (fs ++ f ∷ []) ≡ flatten fs ++ f
  unfolding flatten
  flatten-append [] f = append-nil f
  flatten-append (g ∷ fs) f =
      ap (λ l. g ++ l) (flatten-append fs f) ∙ sym (append_assoc g (flatten fs) f)

  emit_one-waiting :
      (q : Queue A) → length q.frames < max_queued_frames → waiting (emit_one q) ≡ waiting q
  unfolding emit_one push_frame
  emit_one-waiting q h =
      let free : leb max_queued_frames (length q.frames) ≡ false = ground arith in
      simp free (
        ap (λ l. l ++ drop per_frame q.acc) (flatten-append q.frames (take per_frame q.acc))
        ∙ append_assoc (flatten q.frames) (take per_frame q.acc) (drop per_frame q.acc)
        ∙ ap (λ l. flatten q.frames ++ l) (take-append-drop per_frame q.acc))

  emit_one_total :
      (q : Queue A)
      → length q.frames < max_queued_frames
      → per_frame ≤ length q.acc
      → per_frame * length (emit_one q).frames + length (emit_one q).acc
        ≡ per_frame * length q.frames + length q.acc
  unfolding emit_one push_frame
  emit_one_total q h m =
      let free : leb max_queued_frames (length q.frames) ≡ false = ground arith in
      simp free (
        omega
          (arith, length-append q.frames (take per_frame q.acc ∷ []), length-drop per_frame q.acc))

  emit_frames-waiting :
      (fuel : ℕ) (q : Queue A)
      → per_frame * length q.frames + length q.acc < per_frame * suc max_queued_frames
      → waiting (emit_frames fuel q) ≡ waiting q
  unfolding emit_frames
  emit_frames-waiting zero q h = refl
  emit_frames-waiting (suc fuel) q h = elim (Bool-cases (leb per_frame (length q.acc))) [
    | inr done ↦ rw done
    | inl more ↦ rw more (
        emit_frames-waiting fuel (emit_one q)
          (rw (emit_one_total q (ground arith) (ground arith)) h)
        ∙ emit_one-waiting q (ground arith))
  ]

  -- While the queue has room, no sample is lost or reordered: a packet goes behind all that waits, as long as
  -- what waits with the packet is less than 21 frames.
  pub on_packet-waiting :
      (samples : List A) (q : Queue A)
      → per_frame * length q.frames + length q.acc + length samples
        < per_frame * suc max_queued_frames
      → waiting (on_packet samples q) ≡ waiting q ++ samples
  unfolding on_packet
  on_packet-waiting samples q h =
      emit_frames-waiting _ (record q { acc = q.acc ++ samples })
        (omega (arith, length-append q.acc samples))
      ∙ sym (append_assoc (flatten q.frames) q.acc samples)
