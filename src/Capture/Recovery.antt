-- ===== src/Capture/Recovery.antt =====
-- What becomes of the capture when the desktop duplication is lost.
use m_extender.Prelude.{
  ℕ, ◌+◌, ◌≤◌, ◌<◌, ◌≡◌, refl, true, false, none, some, List, [], ◌∷◌, arith, ◌⊎◌, inl, inr, ap,
  ◌∙◌, Bool-cases,
}
use m_extender.Prelude.Words.{u32}
use m_extender.Prelude.Int.{pos}
use m_extender.Capture.{
  Capture, Round, frame, access_lost, reacquire, on_acquired, acquire_from, capture, captures,
  copy_box,
}

deaf : (r : Round) (c : Capture) → c.dup ≡ none → capture r c ≡ (c, none)
unfolding capture acquire_from
deaf r c d = ground (arith, d)

-- A capture without its duplication stays as it is and gives no frame, whatever is called and however often.
captures_deaf : (rs : List Round) (c : Capture) → c.dup ≡ none → captures rs c ≡ (c, false)
unfolding captures
captures_deaf [] c d = refl
captures_deaf (r ∷ rs) c d = rw (deaf r c d, captures_deaf rs c d)

-- What a lost access comes to.
lost :
    (r : Round) (c : Capture) (old : ℕ)
    → c.output ≡ true
    → c.running ≡ true
    → c.dup ≡ some old
    → r.acquired old ≡ access_lost
    → capture r c ≡ (reacquire r c, none)
unfolding capture acquire_from on_acquired
lost r c old o u d a = rw (u, d, a, o) refl

reacquire_deaf :
    (r : Round) (c : Capture)
    → (r.duplicates ≡ none) ⊎ (r.now < c.next_reacquire)
    → (reacquire r c).dup ≡ none
unfolding reacquire
reacquire_deaf r c h = ground arith

-- The fault: the retry that Capture announces never comes. When the access is lost while the output
-- cannot be duplicated again, or less than a second after the last attempt, then no later call gives
-- a frame or changes the state, though every later DuplicateOutput would succeed.
pub access_lost_deaf :
    (r : Round) (rs : List Round) (c : Capture) (old : ℕ)
    → c.output ≡ true
    → c.running ≡ true
    → c.dup ≡ some old
    → r.acquired old ≡ access_lost
    → (r.duplicates ≡ none) ⊎ (r.now < c.next_reacquire)
    → captures rs (capture r c).0 ≡ ((capture r c).0, false)
access_lost_deaf r rs c old o u d a h =
    rw (lost r c old o u d a) (captures_deaf rs (reacquire r c) (reacquire_deaf r c h))

reacquire_now :
    (r : Round) (c : Capture)
    → c.next_reacquire ≤ r.now
    → reacquire r c ≡ record c { dup = r.duplicates; next_reacquire = u32 (r.now + 1000) }
unfolding reacquire
reacquire_now r c t = ground arith

handed_out :
    (r : Round) (c : Capture) (d : ℕ)
    → c.running ≡ true
    → c.dup ≡ some d
    → r.acquired d ≡ frame
    → r.creates ≡ true
    → capture r c ≡ (record c { copy = true }, some (copy_box c))
unfolding capture acquire_from on_acquired
handed_out r c d u e a k =
    rw (u, e, a, k) (elim (Bool-cases c.copy) [ inl y ↦ rw y refl | inr n ↦ rw n refl ])

-- When the access to a duplication is lost while the capture is running and knows its output, the throttle has run out
-- and DuplicateOutput makes a new duplication, that call gives no frame and changes the capture only in two
-- things: it has the new duplication in place of the old one, and the earliest time of the next attempt is a
-- second later, in 32 bits. If then AcquireNextFrame of the new duplication gives a frame, and the texture of
-- the copy can be made, the next call hands out the region of the monitor, and the
-- capture is still running.
pub access_lost_recovers :
    (r next : Round) (c : Capture) (old new : ℕ)
    → c.output ≡ true
    → c.running ≡ true
    → c.dup ≡ some old
    → r.acquired old ≡ access_lost
    → r.duplicates ≡ some new
    → c.next_reacquire ≤ r.now
    → next.acquired new ≡ frame
    → next.creates ≡ true
    → let s = record c { dup = some new; next_reacquire = u32 (r.now + 1000) } in
      (capture r c ≡ (s, none))
      × (capture next s ≡ (record s { copy = true }, some (copy_box c)))
      × ((capture next s).0.running ≡ true)
unfolding copy_box
access_lost_recovers r next c old new o u d a g t n k =
    let s = record c { dup = some new; next_reacquire = u32 (r.now + 1000) } in
    let out = handed_out next s new u refl n k in
    (
      lost r c old o u d a
          ∙ ap (λ x. (x, none)) (reacquire_now r c t)
          ∙ ap (λ x. (record c { dup = x; next_reacquire = u32 (r.now + 1000) }, none)) g,
      out,
      ap (λ x. x.0.running) out ∙ u,
    )

-- With a monitor right of and below the primary's corner, within the 32-bit plane, the copied box
-- has exactly the size of the monitor.
pub copy_box_size :
    (c : Capture) (x y : ℕ)
    → c.offset_x ≡ pos x
    → c.offset_y ≡ pos y
    → x + c.width < 4294967296
    → y + c.height < 4294967296
    → let b = copy_box c in (b.left + c.width ≡ b.right) × (b.top + c.height ≡ b.bottom)
unfolding copy_box
copy_box_size c x y ex ey w h = ground arith
