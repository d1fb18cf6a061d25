-- ===== src/Audio/Resampler/Phase.antt =====
-- The phase of the resampler, and how many frames it writes.
use native.Mathlib.Nat.{add-zero, zero-add}
use m_extender.Prelude.{
  ℕ, zero, suc, ◌+◌, ◌-◌, ◌*◌, ◌≤◌, ◌<◌, ◌≡◌, ◌⊎◌, inl, inr, refl, ap, ◌∙◌, List, [], ◌∷◌, none,
  some, length, ltb, arith, Bool-cases,
}
use m_extender.Prelude.Int.{ℤ, pos, negsuc, ◌-ℤ◌, sub_ℕ}
use m_extender.Audio.Resampler.{lerp_frame, resample_loop, next_packet, process}

mul_mono : (n a b : ℕ) → a ≤ b → n * a ≤ n * b
mul_mono n a b h = grind arith

mul_mono_left : (n m a : ℕ) → n ≤ m → n * a ≤ m * a
mul_mono_left n m a h = grind arith

cancel_le : (n m t : ℕ) → 0 < t → (n ≡ 0) ⊎ (n * t < m * t + t) → n ≤ m
cancel_le n m t h (inl e) = omega arith
cancel_le n m t h (inr l) = grind arith

module _ (target rate : ℕ) (input : List (ℤ × ℤ)) where
  abbrev pub span : ℕ
  span = length input * rate

  -- What the loop wrote from phase p, and where it stopped: out of room, or past the packet.
  abbrev pub Wrote : ℕ → ℕ → List (ℤ × ℤ) → ℕ → Type 0
  Wrote p cap out q =
      (q ≡ p + length out * target)
      × ((length out ≡ cap) ⊎ ((length out < cap) × (span ≤ q)))
      × ((length out ≡ 0) ⊎ (q < span + target))

  loop_writes :
      (cap p : ℕ)
      → (out : List (ℤ × ℤ)) × (q : ℕ) × (resample_loop target rate input cap (pos p)
          ≡ some (out, pos q))
        × Wrote p cap out q
  unfolding resample_loop
  loop_writes zero p = ([], p, refl, (omega arith, inl refl, inl refl))
  loop_writes (suc cap) p = elim (Bool-cases (ltb p span)) [
    | inl more ↦
        let (out, q, e, w) = loop_writes cap (p + target) in
        (
          lerp_frame rate input p ∷ out,
          q,
          rw (more, e),
          (ground (arith, w), ground (arith, w), ground (arith, w)),
        )
    | inr done ↦ ([], p, rw done, (omega arith, inr (omega arith, ground arith), inl refl))
  ]

  -- From a phase that is not negative the loop is defined and ends, and the phase of the next packet
  -- accounts for every step: `target` forward for a frame written, the packet's span back.
  pub process_phase :
      (cap p : ℕ)
      → (out : List (ℤ × ℤ)) × (q : ℕ) × (process target rate input cap (pos p)
          ≡ some (out, sub_ℕ q span))
        × Wrote p cap out q
  unfolding process next_packet ◌-ℤ◌
  process_phase cap p =
      let (out, q, e, w) = loop_writes cap p in
      (out, q, ap (next_packet span) e ∙ rw (add-zero, zero-add), w)

  -- The fault of the direction: when the target rate is not below the input rate, a packet never
  -- yields more frames than it holds, although more are needed to keep the pace.
  pub upsampling_shrinks :
      (cap p : ℕ)
      → 0 < target
      → rate ≤ target
      → (out : List (ℤ × ℤ)) × (phase : ℤ) × (process target rate input cap (pos p)
          ≡ some (out, phase))
        × (length out ≤ length input)
  upsampling_shrinks cap p t r =
      let (out, q, e, w) = process_phase cap p in
      let step : length out * target ≤ q = omega (arith, w.0) in
      let pace : span ≤ length input * target = mul_mono (length input) rate target r in
      (
        out,
        sub_ℕ q span,
        e,
        cancel_le (length out) (length input) target t (ground (arith, w.2, step, pace)),
      )

  -- The fault of the room: when it runs out before the packet does, the phase that is left is negative,
  -- and the next packet with any room reads its input at an undefined index.
  pub starved_faults :
      (next : List (ℤ × ℤ)) (cap room' p : ℕ)
      → p + cap * target < span
      → (out : List (ℤ × ℤ)) × (phase : ℤ) × (process target rate input cap (pos p)
          ≡ some (out, phase))
        × (process target rate next (suc room') phase ≡ none)
  unfolding process resample_loop next_packet
  starved_faults next cap room' p h =
      let (out, q, e, w) = process_phase cap p in
      let most : length out ≤ cap = ground (arith, w.1) in
      let short : q < span = omega (arith, w.0, mul_mono_left (length out) cap target most) in
      let minus : sub_ℕ q span ≡ negsuc (span - q - 1) = ground (arith, short) in
      (out, negsuc (span - q - 1), e ∙ ap (λ k. some (out, k)) minus, refl)
