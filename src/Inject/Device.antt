-- ===== src/Inject/Device.antt =====
-- The synthetic pen of an InputInjector of host/src/input/inject.cpp, from Init to the destructor.
use m_extender.Prelude.{
  ℕ, zero, suc, ◌≡◌, refl, Bool, true, false, not, ◌||◌, Option, none, some, List, [], ◌∷◌, ◌++◌,
  All, leb, ◌==◌, drop, if◌then◌else◌,
}
use m_extender.Prelude.Int.{ℤ, pos, ◌+ℤ◌, ◌-ℤ◌}
use m_extender.Wire.{InputEvent, decode_event, field}
use m_extender.Inject.{
  Injector, VirtualScreen, Call, send_input, touch_input, pen_input, init, destroy_injector,
  size_of, normalized, button_flags, move, absolute, input_up, input_cancel, device_list,
  inject_mouse, inject_touch, inject_pen, inject_event, inject_events, inject_batch,
}

-- What the destructor gives back is what Init got, and a second destruction gives back nothing.
pub destroy_injector-init :
    (x y : ℤ) (w h : ℕ) (touch : Bool) (pen : Option ℕ)
    → ((destroy_injector (init x y w h touch pen)).1 ≡ device_list pen)
      × ((i : Injector) → (destroy_injector (destroy_injector i).0).1 ≡ [])
unfolding init destroy_injector
destroy_injector-init x y w h touch pen = (refl, λ i. refl)

-- The calls that an injector may make: those of the mouse, and those of the pen with a pen device,
-- those of the touch screen without one.
abbrev pub Routed : Option ℕ → Call → Type 0
Routed pen (send_input x y flags) = Unit {0}
Routed none (touch_input contact flags x y) = Unit {0}
Routed (some device) (touch_input contact flags x y) = ⊥
Routed none (pen_input flags x y pressure tilt_x tilt_y) = ⊥
Routed (some device) (pen_input flags x y pressure tilt_x tilt_y) = Unit {0}

-- A list of calls on one route.
record Sent (pen : Option ℕ) (cs : List Call) : Type 0 where
  all : All (Routed pen) cs

All-append : (P : Call → Type 0) (xs ys : List Call) → All P xs → All P ys → All P (xs ++ ys)
All-append P [] ys p q = q
All-append P (x ∷ xs) ys p q = (p.0, All-append P xs ys p.1 q)

if_Sent :
    (pen : Option ℕ) (b : Bool) (x y : List Call)
    → Sent pen x
    → Sent pen y
    → Sent pen (if b then x else y)
if_Sent pen true x y p q = p
if_Sent pen false x y p q = q

inject_mouse-Sent :
    (pen : Option ℕ) (inj : Injector) (vs : VirtualScreen) (x y buttons type : ℕ)
    → Sent pen (inject_mouse inj vs x y buttons type)
unfolding inject_mouse
inject_mouse-Sent pen inj vs x y buttons type =
    let px = normalized (inj.offset_x +ℤ pos x -ℤ vs.x) (size_of vs.w) in
    let py = normalized (inj.offset_y +ℤ pos y -ℤ vs.y) (size_of vs.h) in
    let flags = move ∷ absolute ∷ button_flags type buttons in
    if_Sent pen (size_of vs.w == 0 || size_of vs.h == 0) [] (send_input px py flags ∷ [])
      (record { all = tt }) (record { all = (tt, tt) })

inject_touch-Sent :
    (inj : Injector) (x y type contact : ℕ) → Sent none (inject_touch inj x y type contact)
unfolding inject_touch
inject_touch-Sent inj x y type contact =
    if_Sent none inj.touch_ok _ [] (record { all = (tt, tt) }) (record { all = tt })

inject_event-Sent :
    (ox oy : ℤ) (w h : ℕ) (touch : Bool) (pen : Option ℕ) (vs : VirtualScreen) (ev : InputEvent)
    → Sent pen (inject_event (init ox oy w h touch pen) vs ev)
unfolding init inject_event inject_pen
inject_event-Sent ox oy w h touch none vs ev =
    let inj = init ox oy w h touch none in
    let mouse = inject_mouse inj vs ev.x ev.y ev.buttons ev.type in
    let touched = inject_touch inj ev.x ev.y ev.type ev.pointer_id in
    if_Sent none (leb ev.type input_up) mouse (if leb ev.type input_cancel then touched else [])
      (inject_mouse-Sent none inj vs ev.x ev.y ev.buttons ev.type)
      (if_Sent none (leb ev.type input_cancel) touched []
        (inject_touch-Sent inj ev.x ev.y ev.type ev.pointer_id) (record { all = tt }))
inject_event-Sent ox oy w h touch (some device) vs ev =
    let inj = init ox oy w h touch (some device) in
    let mouse = inject_mouse inj vs ev.x ev.y ev.buttons ev.type in
    let over = inject_pen inj ev.x ev.y ev.type ev.pressure ev.tilt_x ev.tilt_y in
    let cancelled = inject_pen inj 0 0 ev.type 0 0 0 in
    let pen_calls = if not (ev.type == input_cancel) then over else cancelled in
    if_Sent (some device) (leb ev.type input_up) mouse
      (if leb ev.type input_cancel then pen_calls else [])
      (inject_mouse-Sent (some device) inj vs ev.x ev.y ev.buttons ev.type)
      (if_Sent (some device) (leb ev.type input_cancel) pen_calls []
        (if_Sent (some device) (not (ev.type == input_cancel)) over cancelled
          (record { all = (tt, tt) }) (record { all = (tt, tt) }))
        (record { all = tt }))

inject_events-Routed :
    (ox oy : ℤ) (w h : ℕ) (touch : Bool) (pen : Option ℕ) (vs : VirtualScreen) (n : ℕ)
    (memory : List ℕ)
    → All (Routed pen) (inject_events (init ox oy w h touch pen) vs n memory)
unfolding inject_events
inject_events-Routed ox oy w h touch pen vs zero memory = tt
inject_events-Routed ox oy w h touch pen vs (suc n) memory =
    let first = inject_event-Sent ox oy w h touch pen vs (decode_event memory) in
    All-append (Routed pen) (inject_event (init ox oy w h touch pen) vs (decode_event memory))
      (inject_events (init ox oy w h touch pen) vs n (drop 12 memory)) first.all
      (inject_events-Routed ox oy w h touch pen vs n (drop 12 memory))

-- Whatever the bytes of a batch are, the injector that Init leaves makes mouse calls and either pen calls, when
-- Init got a pen device, or touch calls, when it got none: never both.
pub inject_batch-Routed :
    (ox oy : ℤ) (w h : ℕ) (touch : Bool) (pen : Option ℕ) (vs : VirtualScreen) (memory : List ℕ)
    → All (Routed pen) (inject_batch (init ox oy w h touch pen) vs memory)
unfolding inject_batch
inject_batch-Routed ox oy w h touch pen vs memory =
    inject_events-Routed ox oy w h touch pen vs (field 0 4 memory) (drop 4 memory)
