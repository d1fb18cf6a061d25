-- ===== src/Driver/Consumer.antt =====
-- SwapChainProcessor::RunCore of driver/src/Driver.cpp, the loop of the thread that consumes a swap chain. What the
-- framework reports is a list of rounds. The events are auto-reset: a wait that a signal ends also clears it.
pub mod Shutdown
use m_extender.Prelude.{
  ℕ, zero, suc, ◌+◌, Bool, true, false, not, ◌&&◌, List, [], ◌∷◌, ltb, ◌==◌, if◌then◌else◌,
}

-- The binding of the device: none at hand, or what As and IddCxSwapChainSetDevice report.
pub data Binding : Type 0 where
  no_device no_dxgi_device set_failed bound : Binding

-- How a wait for the two events came back.
pub data Wait : Type 0 where
  new_frame terminate other : Wait

-- What a round of the loop meets: ReleaseAndAcquireBuffer, and what follows it.
pub data Round : Type 0 where
  pending : Wait → Round
  acquired : Bool → Round
  access_lost : Round
  failed : Round

-- The members that the loop reads, and the retries.
pub record Consumer : Type 0 where
  pub has_frame_event : Bool
  pub has_terminate_event : Bool
  pub retry_count : ℕ

-- The number that WaitForMultipleObjects returns, WAIT_OBJECT_0 being 0; 2 stands for all else.
-- The frame event comes first, where there is one.
unfoldable pub wait_result : Consumer → Wait → ℕ
wait_result c new_frame = if c.has_frame_event then 0 else 2
wait_result c terminate = if c.has_terminate_event then (if c.has_frame_event then 1 else 0) else 2
wait_result c other = 2

unfoldable pub handle_count : Consumer → ℕ
handle_count c = (if c.has_frame_event then 1 else 0) + (if c.has_terminate_event then 1 else 0)

-- What a round does: go on in a state, or leave the loop.
pub data Next : Type 0 where
  again : Consumer → Next
  break : Next

unfoldable pub round : Round → Consumer → Next
unfolding wait_result handle_count
round (pending w) c =
    let r = wait_result c w in
    if r == 0 then again c else if ltb 1 (handle_count c) && r == 1 then break else again c
round (acquired finished) c = if finished then again (record c { retry_count = 0 }) else break
round access_lost c =
    if ltb c.retry_count 5 then again (record c { retry_count = c.retry_count + 1 }) else break
round failed c = break

-- How the thread stands after the rounds so far: running in a state, or out of the loop.
unfoldable pub run_loop : List Round → Consumer → Next
run_loop [] c = again c
run_loop (r ∷ rs) c = elim (round r c) [ again c' ↦ run_loop rs c' | break ↦ break ]

unfoldable pub run_core : Binding → List Round → Consumer → Next
unfolding run_loop
run_core no_dxgi_device rs c = break
run_core set_failed rs c = break
run_core no_device rs c = run_loop rs (record c { retry_count = 0 })
run_core bound rs c = run_loop rs (record c { retry_count = 0 })
