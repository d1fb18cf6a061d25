-- ===== src/Driver/Processor.antt =====
-- The life of a SwapChainProcessor in driver/src/Driver.cpp: its constructor, Run on its thread, and its destructor, and
-- Direct3DDevice::Init. What Windows reports is an argument; the thread's rounds are those of Consumer.
pub mod Ended
use m_extender.Prelude.{
  ℕ, Bool, true, false, ◌&&◌, List, [], ◌∷◌, ◌++◌, Option, none, some, if◌then◌else◌, ◌==◌,
}
use m_extender.Driver.Consumer.{
  Consumer, Binding, Round, pending, acquired, access_lost, failed, new_frame, terminate, other,
  Next, again, break, handle_count, run_core,
}

-- `thread` says whether CreateThread succeeded, and `swap_chain` is m_hSwapChain; `deleted` has the swap-chains that
-- WdfObjectDelete was called on.
pub record Processor : Type 0 where
  pub swap_chain : Option ℕ
  pub thread : Bool
  pub running : Bool
  pub consumer : Consumer
  pub deleted : List ℕ

-- The constructor; `frame_event` says whether NewFrameEvent is not null.
unfoldable pub create : ℕ → Bool → Bool → Bool → Processor
create swap_chain frame_event terminate_event thread = record {
  swap_chain = some swap_chain;
  thread = thread;
  running = thread;
  consumer = record {
    has_frame_event = frame_event;
    has_terminate_event = terminate_event;
    retry_count = 0;
  };
  deleted = [];
}

abbrev pub to_list : Option ℕ → List ℕ
to_list none = []
to_list (some s) = s ∷ []

-- The end of Run, after RunCore.
unfoldable pub run_end : Processor → Processor
run_end p = record p {
  swap_chain = none;
  running = false;
  deleted = p.deleted ++ to_list p.swap_chain;
}

unfoldable pub after_core : Processor → Next → Processor
unfolding run_end
after_core p (again c) = p
after_core p break = run_end p

-- Run, as far as the rounds go.
unfoldable pub run : Binding → List Round → Processor → Processor
unfolding run_core after_core
run b rs p = if p.running then after_core p (run_core b rs p.consumer) else p

-- What the thread meets in one round after SetEvent: no buffer, and whether the frame event is set when it waits; a
-- buffer, and what IddCxSwapChainFinishedProcessingFrame reports; or an error of the acquisition.
pub data Met : Type 0 where
  waits : Bool → Met
  serves : Bool → Met
  loses : Met
  fails : Met

-- The rounds that this makes; `set` is whether the terminate event is set. Of two events that are set, the wait takes the
-- frame event, which comes first, and a wait that the terminate event ends resets it. A wait for events that are
-- not set does not end, so that no more is met; a wait for no event at all fails at once.
unfoldable pub rounds : Bool → Consumer → List Met → List Round
unfolding handle_count
rounds set c [] = []
rounds set c (serves finished ∷ rest) = acquired finished ∷ rounds set c rest
rounds set c (loses ∷ rest) = access_lost ∷ rounds set c rest
rounds set c (fails ∷ rest) = failed ∷ rounds set c rest
rounds set c (waits frame ∷ rest) =
    let same = rounds set c rest in
    let reset = rounds false c rest in
    if c.has_frame_event && frame
    then pending new_frame ∷ same
    else if set
    then pending terminate ∷ reset
    else if handle_count c == 0
    then pending other ∷ same
    else []

-- The destructor: the rounds of the thread before SetEvent, and what it meets after it. It returns when the thread has
-- ended, `none` if by then it has not.
unfoldable pub destroy : Binding → List Round → List Met → Processor → Option Processor
unfolding run rounds
destroy b before after p =
    let later = rounds p.consumer.has_terminate_event p.consumer after in
    let q = run b (before ++ later) p in if p.thread && q.running then none else some q

-- Direct3DDevice::Init: each call is made only if those before it succeeded.
unfoldable pub device_init : Bool → Bool → Bool → Bool
device_init create_factory enum_adapter create_device =
    create_factory && enum_adapter && create_device
