-- ===== src/Audio/Thread/Life.antt =====
-- How the capture thread of host/src/audio/capture.cpp starts, stops and fails.
use m_extender.Prelude.{◌≡◌, refl, Bool, true, false, ◌&&◌, none, some, arith, if◌then◌else◌}
use m_extender.Audio.Thread.{AudioCapture, Setup, start, device_lost, stop}

-- No thread, nothing held.
abbrev pub idle : AudioCapture
idle = record { running = false; joinable = false; client = false; capture = false; event = false }

-- The thread runs with all its handles.
abbrev pub active : AudioCapture
active = record { running = true; joinable = true; client = true; capture = true; event = true }

abbrev pub all_ok : Setup → Bool
all_ok e =
    e.co_initialize
    && (e.enumerator
        && (e.endpoint
            && (e.activate
                && (e.mix_format
                    && (e.create_event
                        && (e.initialize
                            && (e.set_event_handle && (e.get_service && e.client_start))))))))

-- From an idle capture Start returns true with the thread running and holding every handle if all ten calls of the
-- set-up succeed; if any fails it returns false with nothing left behind, as before. Stop makes both idle again, and also
-- a capture whose device was lost.
pub start_lem :
    (e : Setup)
    → (start e idle ≡ (if all_ok e then some (active, true) else some (idle, false)))
      × (stop active ≡ idle)
      × (stop idle ≡ idle)
      × (stop (device_lost active) ≡ idle)
unfolding start stop device_lost
start_lem e = (ground arith, refl, refl, refl)

-- The fault: after the device is lost the thread has ended but was never joined. A Start then, before any Stop, assigns over it,
-- which ends the process, though the capture is not running.
pub restart_fault :
    (e later : Setup)
    → all_ok e ≡ true
    → (start e idle ≡ some (active, true))
      × ((device_lost active).running ≡ false)
      × (start later (device_lost active) ≡ none)
unfolding start device_lost
restart_fault e later h = (start_ok, refl, refl)
  where
    start_ok : start e idle ≡ some (active, true)
    start_ok = ground (arith, (start_lem e).0, h)
