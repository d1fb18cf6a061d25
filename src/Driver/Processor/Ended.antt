-- ===== src/Driver/Processor/Ended.antt =====
-- How a processor of driver/src/Driver.cpp ends, and what becomes of its swap-chain.
use m_extender.Prelude.{
  ℕ, ◌≡◌, ◌≢◌, refl, sym, ◌∙◌, append_assoc, ap, true, false, List, [], ◌∷◌, ◌++◌, none, some,
  arith, All, if◌then◌else◌,
}
use m_extender.Driver.Consumer.{
  Consumer, bound, Round, pending, acquired, new_frame, terminate, Next, again, break, run_loop,
  run_core, round,
}
use m_extender.Driver.Consumer.Shutdown.{IsHealthy, terminate_stops}
use m_extender.Driver.Processor.{
  Processor, Met, waits, serves, loses, fails, rounds, create, run_end, after_core, run, destroy,
}

-- A loop that is over is over whatever comes later.
run_loop-break_append :
    (rs more : List Round) (c : Consumer) → run_loop rs c ≡ break → run_loop (rs ++ more) c ≡ break
unfolding run_loop
run_loop-break_append [] more c e = absurd (ground (arith, e))
run_loop-break_append (r ∷ rs) more c e =
    go (round r c) (λ d f. run_loop-break_append rs more d f) e
  where
    go :
        (n : Next)
        → ((d : Consumer) → run_loop rs d ≡ break → run_loop (rs ++ more) d ≡ break)
        → elim n [ again d ↦ run_loop rs d | break ↦ break ] ≡ break
        → elim n [ again d ↦ run_loop (rs ++ more) d | break ↦ break ] ≡ break
    go (again d) f e = f d e
    go break f e = refl

run_core-break_append :
    (rs more : List Round) (c : Consumer)
    → run_core bound rs c ≡ break
    → run_core bound (rs ++ more) c ≡ break
unfolding run_core
run_core-break_append rs more c e = run_loop-break_append rs more (record c { retry_count = 0 }) e

-- A frame is served, or waited for while the frame event is set.
abbrev pub IsServed : Met → Type 0
IsServed (waits frame) = frame ≡ true
IsServed (serves finished) = finished ≡ true
IsServed loses = ⊥
IsServed fails = ⊥

All-append : (xs ys : List Round) → All IsHealthy xs → All IsHealthy ys → All IsHealthy (xs ++ ys)
All-append [] ys p q = q
All-append (x ∷ xs) ys p q = (p.0, All-append xs ys p.1 q)

module _ (c : Consumer) (frame_event : c.has_frame_event ≡ true) where
  rounds-IsHealthy :
      (served : List Met) → All IsServed served → All IsHealthy (rounds true c served)
  unfolding rounds
  rounds-IsHealthy [] h = tt
  rounds-IsHealthy (waits frame ∷ ms) h = simp (frame_event, h.0) (tt, rounds-IsHealthy ms h.1)
  rounds-IsHealthy (serves finished ∷ ms) h = (h.0, rounds-IsHealthy ms h.1)
  rounds-IsHealthy (loses ∷ ms) h = absurd h.0
  rounds-IsHealthy (fails ∷ ms) h = absurd h.0

  -- The first wait without a new frame is ended by the signal.
  rounds-append :
      (served more : List Met)
      → All IsServed served
      → rounds true c (served ++ waits false ∷ more)
        ≡ rounds true c served ++ pending terminate ∷ rounds false c more
  unfolding rounds
  rounds-append [] more h = simp frame_event refl
  rounds-append (waits frame ∷ ms) more h =
      simp (frame_event, h.0) (ap (λ l. pending new_frame ∷ l) (rounds-append ms more h.1))
  rounds-append (serves finished ∷ ms) more h =
      ap (λ l. acquired finished ∷ l) (rounds-append ms more h.1)
  rounds-append (loses ∷ ms) more h = absurd h.0
  rounds-append (fails ∷ ms) more h = absurd h.0

-- A processor whose thread, events and device could be made and bound, and that meets no failure until it is destroyed:
-- while after the signal there is always a frame to acquire or the frame event is set, and no failure, the
-- destructor does not return; at the first wait for which the frame event is not set the signal ends the
-- thread, the destructor returns, and the swap-chain has been deleted exactly once.
pub destroy_ends :
    (swap_chain : ℕ) (before : List Round) (served more : List Met)
    → All IsHealthy before
    → All IsServed served
    → let p = create swap_chain true true true in
      (destroy bound before served p ≡ none)
      × (destroy bound before (served ++ waits false ∷ more) p
          ≡ some (record p { swap_chain = none; running = false; deleted = swap_chain ∷ [] }))
unfolding destroy run after_core run_end create
destroy_ends swap_chain before served more h k =
    let p = create swap_chain true true true in
    let c = p.consumer in
    let later = rounds true c served in
    let healthy = All-append before later h (rounds-IsHealthy c refl served k) in
    let (on, off) = terminate_stops (before ++ later) c healthy (refl, refl) in
    let ended = λ (n : Next). let q = after_core p n in if q.running then none else some q in
    (
      still_running (run_core bound (before ++ later) c) p refl on,
      ap (λ l. ended (run_core bound (before ++ l) c)) (rounds-append c refl served more k)
          ∙ ap (λ l. ended (run_core bound l c)) (regrouped before later (rounds false c more))
          ∙ ap ended (
              run_core-break_append ((before ++ later) ++ pending terminate ∷ [])
                (rounds false c more) c off),
    )
  where
    still_running :
        (n : Next) (p : Processor)
        → p.running ≡ true
        → n ≢ break
        → (let q = after_core p n in if q.running then none else some q) ≡ none
    still_running (again d) p r n = rw r refl
    still_running break p r n = absurd (n refl)

    regrouped :
        (xs ys zs : List Round)
        → xs ++ (ys ++ pending terminate ∷ zs) ≡ ((xs ++ ys) ++ pending terminate ∷ []) ++ zs
    regrouped xs ys zs =
        sym (append_assoc xs ys (pending terminate ∷ zs))
        ∙ sym (append_assoc (xs ++ ys) (pending terminate ∷ []) zs)
