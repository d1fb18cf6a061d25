-- ===== src/Examples/Input.antt =====
-- Input batches of host/src/input/inject.cpp, and an encoder of host/src/encode/nvenc.cpp.
use m_extender.Prelude.{some, ◌≡◌, refl, true, false, List, [], ◌∷◌, ◌++◌, arith, All}
use m_extender.Prelude.Int.{pos}
use m_extender.Wire.{InputEvent, le}
use m_extender.Wire.RoundTrip.{EventFits}
use m_extender.Inject.{Injector, VirtualScreen, init, inject_batch}
use m_extender.Inject.Device.{Routed, inject_batch-Routed}
use m_extender.Inject.Events.{encode_events, calls, inject_batch_lem}
use m_extender.Encode.Nvenc.{NvEncoder, Answers}
use m_extender.Encode.Nvenc.{set_bitrate}
use m_extender.Encode.Nvenc.Params.{configure, reconfigure, Consistent, reconfigure-configure}
use m_extender.Session.{clamp_bitrate}

abbrev tablet_only : Injector
tablet_only = record {
  offset_x = pos 0;
  offset_y = pos 0;
  monitor_w = 1920;
  monitor_h = 1080;
  touch_ok = true;
  pen_dev = some 1;
  pen_ok = true;
}

abbrev desktop : VirtualScreen
desktop = record { x = pos 0; y = pos 0; w = pos 1920; h = pos 1080 }

abbrev click : InputEvent
click = record {
  x = 100;
  y = 200;
  type = 1;
  buttons = 1;
  pointer_id = 0;
  pressure = 0;
  tilt_x = 0;
  tilt_y = 0;
}

click-EventFits : EventFits click
click-EventFits = record {
  x = omega arith;
  y = omega arith;
  type = omega arith;
  buttons = omega arith;
  pointer_id = omega arith;
  pressure = omega arith;
  tilt_x = omega arith;
  tilt_y = omega arith;
}

abbrev clicks : List InputEvent
clicks = click ∷ []

inject_batch_lem_example :
    inject_batch tablet_only desktop (le 4 1 ++ (encode_events clicks ++ 99 ∷ []))
    ≡ calls tablet_only desktop clicks
inject_batch_lem_example =
    inject_batch_lem tablet_only desktop clicks (99 ∷ []) (omega arith) (click-EventFits, tt)

inject_batch-Routed_example : All (Routed (some 7)) (
    inject_batch
      (init (pos 0) (pos 0) 1920 1080 true (some 7))
      desktop
      (le 4 1 ++ encode_events clicks))
inject_batch-Routed_example =
    inject_batch-Routed (pos 0) (pos 0) 1920 1080 true (some 7) desktop
      (le 4 1 ++ encode_events clicks)

abbrev pub encoding : NvEncoder
encoding = record {
  w = 1920;
  h = 1080;
  fps = 30;
  bitrate = 12000000;
  keyframe_requested = false;
  nvenc_dll = true;
  device = true;
  encoder = true;
  api = true;
  registered_input = true;
  bitstream_buffer = true;
  frame_index = 7;
  configured = true;
}

abbrev pub granted : Answers
granted = record {
  load = record { library = true; create_instance = true; succeeds = true; list = true };
  open_session = true;
  initialize = λ handle. handle;
  register_resource = true;
  create_bitstream = true;
  map_input = true;
  encode_picture = true;
  lock = true;
  reconfigure = true;
  is_idr = true;
  bitstream = 1 ∷ 0 ∷ 0 ∷ 0 ∷ 101 ∷ [];
}

reconfigure-configure_example :
    let p = reconfigure (clamp_bitrate 3000000) 30 (configure encoding) in
    (p ≡ configure (set_bitrate granted (clamp_bitrate 3000000) encoding).0)
    × Consistent (p.encode_config.rc_params)
reconfigure-configure_example = reconfigure-configure granted 3000000 encoding refl refl
