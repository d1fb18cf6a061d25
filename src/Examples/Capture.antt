-- ===== src/Examples/Capture.antt =====
-- The capture of host/src/capture/capture.cpp with a monitor right of the primary one.
use m_extender.Prelude.{◌≡◌, refl, true, false, none, some, arith, ◌==◌, if◌then◌else◌}
use m_extender.Prelude.Words.{u32}
use m_extender.Prelude.Int.{pos}
use m_extender.Capture
use m_extender.Capture.{Round, access_lost, frame, capture, captures, copy_box}
use m_extender.Capture.Recovery.{access_lost_recovers}

abbrev second_monitor : Capture.Capture
second_monitor = record {
  running = true;
  device = true;
  dup = some 3;
  output = true;
  copy = false;
  next_reacquire = 100;
  width = 1280;
  height = 800;
  offset_x = pos 1920;
  offset_y = pos 0;
}

-- The access to the duplication 3 is lost, and the output can be duplicated again as the duplication 4.
abbrev mode_change : Round
mode_change = record { acquired = λ d. access_lost; now = 500; duplicates = some 4; creates = true }

abbrev good : Round
good = record {
  acquired = λ d. if d == 4 then frame else access_lost;
  now = 5000;
  duplicates = none;
  creates = true;
}

access_lost_recovers_example :
    let s = record second_monitor { dup = some 4; next_reacquire = u32 1500 } in
    (capture mode_change second_monitor ≡ (s, none))
    × (capture good s ≡ (record s { copy = true }, some (copy_box second_monitor)))
    × ((capture good s).0.running ≡ true)
access_lost_recovers_example =
    access_lost_recovers mode_change good second_monitor 3 4 refl refl refl refl refl (omega arith)
      refl refl
