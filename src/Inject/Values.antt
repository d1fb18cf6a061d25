-- ===== src/Inject/Values.antt =====
-- The numbers that host/src/input/inject.cpp hands to Windows.
use native.Mathlib.Nat.{mul-le-mul_right, suc-mul, div-add-mod', mod-lt}
use m_extender.Prelude.{
  Bool-cases, sym, ◌%◌, leb, ℕ, ◌+◌, inl, inr, ◌*◌, ◌/◌, ◌≤◌, ◌<◌, ◌≡◌, refl, some, arith,
}
use m_extender.Prelude.Int.{pos}
use m_extender.Inject.{normalized, pen_pressure}

top_bound : (q size : ℕ) → q * size + 65536 ≤ size * 65536 → size ≤ 32768 → q + 1 ≤ 65535
top_bound q size h b = elim (Bool-cases (leb 65535 q)) [
  | inl t ↦
      let l : 65535 * size ≤ q * size = mul-le-mul_right size (ground (t, arith)) in
      absurd (omega arith)
  | inr f ↦ ground (f, arith)
]

quotient_back :
    (q r d size : ℕ)
    → d < size
    → size ≤ 32768
    → d * 65536 ≡ q * size + r
    → r < size
    → ((q + 1) ≤ 65535) × ((q + 1) * size / 65536 ≡ d)
quotient_back q r d size h b e l = (top_bound q size (omega arith) b, omega (arith, suc-mul q size))

-- Mouse coordinates come back: for a pixel d of a screen of at most 32768 pixels, the normalized
-- coordinate is within the range 1 to 65535 of SendInput, and scaled back to pixels it is d.
pub normalized_lem :
    (d size : ℕ)
    → d < size
    → size ≤ 32768
    → (n : ℕ) × (normalized (pos d) size ≡ some n) × (n ≤ 65535) × (n * size / 65536 ≡ d)
unfolding normalized
normalized_lem d size h b =
    let (a, c) =
      quotient_back (d * 65536 / size) (d * 65536 % size) d size h b
        (sym (div-add-mod' (d * 65536) size)) (mod-lt (d * 65536) (omega arith)) in
    (d * 65536 / size + 1, refl, a, c)

-- The pen pressure covers the range of Windows: the ends 0 and 255 go to 0 and 1024, and more
-- pressure on the tablet is never less on the host.
pub pen_pressure_range :
    (p q : ℕ)
    → p ≤ q
    → q ≤ 255
    → (pen_pressure 0 ≡ 0)
      × (pen_pressure p ≤ pen_pressure q)
      × (pen_pressure q ≤ 1024)
      × (pen_pressure 255 ≡ 1024)
unfolding pen_pressure
pen_pressure_range p q h b = (refl, omega arith, omega arith, refl)
