-- ===== src/Examples/Device.antt =====
-- The device of driver/src/Driver.cpp and its swap-chains at concrete inputs.
use m_extender.Prelude.{
  ◌+◌, ◌≡◌, refl, true, false, [], ◌∷◌, ◌++◌, List, some, none, arith, ◌==◌, if◌then◌else◌, All,
}
use m_extender.Driver.Chains.{Context, find, destroy_context}
use m_extender.Driver.Chains.Leaks.{times_freed, held, times_given, destroy_context-run}
use m_extender.Driver.Chains.Refine.{
  Callback, assigned, unassigned, run, Display, display_run, Represents, run-Represents,
}
use m_extender.Driver.Adapter.{Device, Answers, adapter_init_finished, reaches}
use m_extender.Driver.Adapter.Bound.{created, call_all, IsFor, Shows, adapter_init_finished_lem}

abbrev two_monitors : Context
two_monitors = record { processors = (1, 70) ∷ (2, 80) ∷ []; devices = (9, 5) ∷ [] }

abbrev two_shown : Display
two_shown = record {
  shown = λ m. if 1 == m then some 70 else if 2 == m then some 80 else none;
  has_device = λ a. if 9 == a then true else false;
}

two_monitors-Represents : Represents two_monitors two_shown
unfolding find
two_monitors-Represents = record {
  keyed = (refl, (refl, tt));
  shown = λ m. refl;
  has_device = λ a. ground arith;
}

abbrev calls : List Callback
calls = assigned none 1 71 9 ∷ assigned none 3 90 8 ∷ unassigned 2 ∷ assigned (some 6) 3 91 8 ∷ []

run-Represents_example :
    ((run calls two_monitors).1 ≡ (display_run calls two_shown).1)
    × Represents (run calls two_monitors).0 (display_run calls two_shown).0
run-Represents_example = run-Represents calls two_monitors two_shown two_monitors-Represents

destroy_context-run_example :
    let (c', during) = run calls two_monitors in
    let (last, finally) = destroy_context c' in
    (times_freed 70 during + times_freed 70 finally
      ≡ held 70 two_monitors.processors + times_given 70 calls)
    × (last.processors ≡ [])
destroy_context-run_example = destroy_context-run 70 calls two_monitors

-- An adapter, object 20, of a device with two displays, of which the second cannot be created.
abbrev adapter : Device
adapter = record {
  present = true;
  adapter = some 20;
  monitors = [];
  display_count = 2;
  wrapped = 20 ∷ 10 ∷ [];
  context = two_monitors;
}

abbrev first_only : Answers
first_only = record {
  driver_create = true;
  idd_initialize = true;
  init_config = true;
  device_create = true;
  device_initialize = true;
  adapter_init = some 20;
  monitor_create = λ i. if i == 0 then some 30 else none;
  monitor_arrival = λ i. true;
  has_wrapper = λ o. true;
}

reached : reaches 20 (20 ∷ 10 ∷ []) ≡ true
unfolding reaches
reached = refl

-- The monitor 30 is assigned a swap-chain twice, without a device for the second, and is unassigned.
abbrev for_new : List Callback
for_new = assigned none 30 71 9 ∷ assigned none 30 72 8 ∷ unassigned 30 ∷ []

for_new-IsFor : All (IsFor (created first_only 2 0)) for_new
unfolding reaches
for_new-IsFor = (refl, (refl, (refl, tt)))

adapter_init_finished_lem_example :
    let f = (adapter_init_finished first_only true 20 adapter).0 in
    (f.monitors ≡ [] ++ created first_only 2 0)
    × Shows (call_all for_new f) (display_run for_new two_shown)
adapter_init_finished_lem_example =
    adapter_init_finished_lem first_only 20 adapter two_shown for_new (λ o. refl) refl reached
      two_monitors-Represents for_new-IsFor
