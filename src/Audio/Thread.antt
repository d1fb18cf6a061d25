-- ===== src/Audio/Thread.antt =====
-- The life of the capture thread of host/src/audio/capture.cpp: Start, Stop and the set-up and the end of
-- CaptureLoop. What the audio library reports is an argument of Start; a handle is its presence.
pub mod Life
use m_extender.Prelude.{Bool, true, false, not, ◌&&◌, ◌||◌, Option, none, some, if◌then◌else◌}

-- The members of AudioCapture; `joinable` is that of its thread.
pub record AudioCapture : Type 0 where
  pub running : Bool
  pub joinable : Bool
  pub client : Bool
  pub capture : Bool
  pub event : Bool

-- Whether each call of the set-up succeeds, in their order.
pub record Setup : Type 0 where
  pub co_initialize : Bool
  pub enumerator : Bool
  pub endpoint : Bool
  pub activate : Bool
  pub mix_format : Bool
  pub create_event : Bool
  pub initialize : Bool
  pub set_event_handle : Bool
  pub get_service : Bool
  pub client_start : Bool

-- The lambda `finish`, and the same resets at the end of the thread.
unfoldable pub finish : AudioCapture → AudioCapture
finish c = record c { client = false; capture = false; event = false }

-- The rest of the set-up once there is an event.
unfoldable pub set_up_stream : Setup → AudioCapture → AudioCapture × Bool
unfolding finish
set_up_stream e c =
    if not e.initialize
    then (finish c, false)
    else if not e.set_event_handle
    then (finish c, false)
    else if not e.get_service
    then (finish c, false)
    else if not e.client_start
    then (finish (record c { capture = true }), false)
    else (record c { capture = true; running = true }, true)

-- CaptureLoop up to the value of `ready`.
unfoldable pub set_up : Setup → AudioCapture → AudioCapture × Bool
unfolding set_up_stream finish
set_up e c =
    let activated = record c { client = true } in
    if not e.co_initialize
    then (c, false)
    else if not e.enumerator
    then (finish c, false)
    else if not e.endpoint
    then (finish c, false)
    else if not e.activate
    then (finish c, false)
    else if not e.mix_format
    then (finish activated, false)
    else if not e.create_event
    then (finish activated, false)
    else set_up_stream e (record activated { event = true })

-- Start waits for `ready`, and joins a thread that failed.
unfoldable pub started : AudioCapture × Bool → AudioCapture × Bool
started (c, true) = (c, true)
started (c, false) = (record c { joinable = false }, false)

-- Start. A new thread assigned to one that is still joinable ends the process: `none`.
unfoldable pub start : Setup → AudioCapture → Option (AudioCapture × Bool)
unfolding set_up started
start e c =
    if c.running
    then some (c, true)
    else if c.joinable
    then none
    else some (started (set_up e (record c { joinable = true })))

-- The last lines of CaptureLoop.
unfoldable pub thread_end : AudioCapture → AudioCapture
unfolding finish
thread_end c = finish c

-- The thread ends on its own when GetBuffer fails, and releases what it holds.
unfoldable pub device_lost : AudioCapture → AudioCapture
unfolding thread_end
device_lost c = thread_end (record c { running = false })

-- Stop; the thread is joined, so it has released its handles too.
unfoldable pub stop : AudioCapture → AudioCapture
unfolding finish
stop c =
    if not c.running
    then record c { joinable = false }
    else finish (record c { running = false; joinable = false })
