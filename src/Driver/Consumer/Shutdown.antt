-- ===== src/Driver/Consumer/Shutdown.antt =====
-- How the consumer thread of driver/src/Driver.cpp ends.
use m_extender.Prelude.{
  ℕ, zero, suc, ◌+◌, ◌≤◌, ◌<◌, ◌≡◌, ◌≢◌, refl, ◌∙◌, true, false, List, [], ◌∷◌, ◌++◌, replicate,
  arith, All,
}
use m_extender.Driver.Consumer.{
  new_frame, terminate, other, Round, pending, acquired, access_lost, failed, Consumer, again,
  break, round, run_loop, bound, run_core,
}

-- The thread does not outlive a terminate event that it waits for.
terminate_breaks :
    (c : Consumer)
    → c.has_frame_event ≡ true
    → c.has_terminate_event ≡ true
    → round (pending terminate) c ≡ break
unfolding round
terminate_breaks c f t = ground arith

-- The rounds of an idle or busy presenter, with no failure among them.
abbrev pub IsHealthy : Round → Type 0
IsHealthy (pending new_frame) = Unit {0}
IsHealthy (pending terminate) = ⊥
IsHealthy (pending other) = Unit {0}
IsHealthy (acquired finished) = finished ≡ true
IsHealthy access_lost = ⊥
IsHealthy failed = ⊥

-- A consumer with the two events.
abbrev pub HasEvents : Consumer → Type 0
HasEvents c = (c.has_frame_event ≡ true) × (c.has_terminate_event ≡ true)

healthy_round :
    (r : Round) (c : Consumer)
    → IsHealthy r
    → HasEvents c
    → (d : Consumer) × (round r c ≡ again d) × HasEvents d
unfolding round
healthy_round (pending new_frame) c h e = (c, ground arith, e)
healthy_round (pending terminate) c h e = absurd h
healthy_round (pending other) c h e = (c, ground arith, e)
healthy_round (acquired finished) c h e = (record c { retry_count = 0 }, ground arith, e)
healthy_round access_lost c h e = absurd h
healthy_round failed c h e = absurd h

run_loop-again :
    (r : Round) (rs : List Round) (c d : Consumer)
    → round r c ≡ again d
    → run_loop (r ∷ rs) c ≡ run_loop rs d
unfolding run_loop
run_loop-again r rs c d e = rw (e, run_loop)

run_loop-break :
    (r : Round) (rs : List Round) (c : Consumer) → round r c ≡ break → run_loop (r ∷ rs) c ≡ break
unfolding run_loop
run_loop-break r rs c e = rw (e, run_loop)

healthy_loop :
    (rs : List Round) (c : Consumer)
    → All IsHealthy rs
    → HasEvents c
    → (d : Consumer) × (run_loop rs c ≡ again d)
      × HasEvents d
      × (run_loop (rs ++ pending terminate ∷ []) c ≡ break)
unfolding run_loop
healthy_loop [] c a e =
    (c, refl, e, run_loop-break (pending terminate) [] c (terminate_breaks c e.0 e.1))
healthy_loop (r ∷ rs) c a e =
    let (c', step, e') = healthy_round r c a.0 e in
    let (d, go, ed, stop) = healthy_loop rs c' a.1 e' in
    (
      d,
      run_loop-again r rs c c' step ∙ go,
      ed,
      run_loop-again r (rs ++ pending terminate ∷ []) c c' step ∙ stop,
    )

-- With both events, the thread runs on over any rounds without a failure, and leaves the loop
-- at the first wait that the terminate event ends.
pub terminate_stops :
    (rs : List Round) (c : Consumer)
    → All IsHealthy rs
    → HasEvents c
    → (run_core bound rs c ≢ break) × (run_core bound (rs ++ pending terminate ∷ []) c ≡ break)
unfolding run_core
terminate_stops rs c a e =
    let (d, go, _, stop) = healthy_loop rs (record c { retry_count = 0 }) a e in ((λ b. cc), stop)

-- The fault: without a usable frame event the terminate event is taken for a new frame, and the
-- loop goes on in the same state after every such wait; the destructor waits for the thread for ever.
pub terminate_missed :
    (n : ℕ) (c : Consumer)
    → c.has_frame_event ≡ false
    → run_loop (replicate n (pending terminate)) c ≡ again c
unfolding run_loop
terminate_missed zero c f = refl
terminate_missed (suc n) c f =
    run_loop-again (pending terminate) _ c c (unfold round in ground arith) ∙ terminate_missed n c f

lost_round :
    (c : Consumer)
    → c.retry_count < 5
    → round access_lost c ≡ again (record c { retry_count = c.retry_count + 1 })
unfolding round
lost_round c h = ground arith

lost_last : (c : Consumer) → 5 ≤ c.retry_count → round access_lost c ≡ break
unfolding round
lost_last c h = ground arith

-- The retries are bounded: from a state with k retries left, k lost accesses in a row are survived
-- and the next one ends the loop.
pub access_lost_bounded :
    (k : ℕ) (c : Consumer)
    → c.retry_count + k ≡ 5
    → (run_loop (replicate k access_lost) c ≡ again (record c { retry_count = 5 }))
      × (run_loop (replicate (suc k) access_lost) c ≡ break)
unfolding run_loop
access_lost_bounded zero c h =
    (ground arith, run_loop-break access_lost [] c (lost_last c (omega arith)))
access_lost_bounded (suc k) c h =
    let d : Consumer = record c { retry_count = c.retry_count + 1 } in
    let e = lost_round c (omega arith) in
    let ih = access_lost_bounded k d (omega arith) in
    (
      run_loop-again access_lost (replicate k access_lost) c d e ∙ ih.0,
      run_loop-again access_lost (replicate (suc k) access_lost) c d e ∙ ih.1,
    )
