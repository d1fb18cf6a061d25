-- ===== src/Capture.antt =====
-- host/src/capture/capture.h and capture.cpp: the Desktop Duplication capture of one monitor. What DXGI reports
-- is an argument of each call, and a COM pointer is the Boolean that it is not null,
-- but for the duplication, which is a number, since one that is lost is replaced by another.
pub mod Recovery
use m_extender.Prelude.{
  ℕ, ◌+◌, ◌-◌, Bool, true, false, not, ◌&&◌, ◌||◌, Option, none, some, List, [], ◌∷◌, ltb, leb,
  ◌==◌, if◌then◌else◌,
}
use m_extender.Prelude.Int.{ℤ, pos, negsuc, ◌+ℤ◌, ◌-ℤ◌}
use m_extender.Prelude.Words.{u32}

-- The members of ScreenCapture that its operations read and write. A monitor is a number.
pub record Capture : Type 0 where
  pub running : Bool
  pub device : Bool
  pub dup : Option ℕ
  pub output : Bool
  pub copy : Bool
  pub next_reacquire : ℕ
  pub width : ℕ
  pub height : ℕ
  pub offset_x : ℤ
  pub offset_y : ℤ

-- RECT, in desktop coordinates.
pub record Rect : Type 0 where
  pub left : ℤ
  pub top : ℤ
  pub right : ℤ
  pub bottom : ℤ

-- The cast of an int to uint32_t.
unfoldable pub to_u32 : ℤ → ℕ
to_u32 (pos n) = u32 n
to_u32 (negsuc n) = u32 (4294967295 - u32 n)

-- The outputs of one adapter, then of all: is the monitor among them?
unfoldable pub on_adapter : ℕ → List ℕ → Bool
on_adapter hmon [] = false
on_adapter hmon (m ∷ outs) = m == hmon || on_adapter hmon outs

unfoldable pub find_output : ℕ → List (List ℕ) → Bool
unfolding on_adapter
find_output hmon [] = false
find_output hmon (outs ∷ adapters) = on_adapter hmon outs || find_output hmon adapters

-- What the calls of Start report, in their order.
pub record Setup : Type 0 where
  pub factory : Bool
  pub adapters : List (List ℕ)
  pub create_device : Bool
  pub duplicate : Option ℕ
  pub desktop : Rect

-- What follows DuplicateOutput, which leaves a null pointer when it fails.
unfoldable pub duplicated : Option ℕ → Setup → Capture → Capture × Bool
unfolding to_u32
duplicated none e c = (record c { dup = none }, false)
duplicated (some d) e c = (
  record c {
    dup = some d;
    width = to_u32 (e.desktop.right -ℤ e.desktop.left);
    height = to_u32 (e.desktop.bottom -ℤ e.desktop.top);
    offset_x = e.desktop.left;
    offset_y = e.desktop.top;
    running = true;
  },
  true,
)

unfoldable pub start_found : Setup → Capture → Capture × Bool
unfolding duplicated
start_found e c =
    if e.create_device then duplicated e.duplicate e (record c { device = true }) else (c, false)

unfoldable pub start : ℕ → Setup → Capture → Capture × Bool
unfolding find_output start_found
start hmon e c =
    if e.factory
    then (if c.output || find_output hmon e.adapters
        then start_found e (record c { output = true })
        else (c, false))
    else (c, false)

unfoldable pub stop : Capture → Capture
stop c = record c { running = false; dup = none; copy = false; output = false; device = false }

-- What AcquireNextFrame reports.
pub data Acquired : Type 0 where
  frame timeout access_lost other_error : Acquired

-- What the calls of Capture report: AcquireNextFrame of each duplication, GetTickCount, the duplication that
-- DuplicateOutput makes, if it succeeds, and CreateTexture2D.
pub record Round : Type 0 where
  pub acquired : ℕ → Acquired
  pub now : ℕ
  pub duplicates : Option ℕ
  pub creates : Bool

-- The region that is copied to the texture: left, top, right and bottom as unsigned numbers.
pub record Box : Type 0 where
  pub left : ℕ
  pub top : ℕ
  pub right : ℕ
  pub bottom : ℕ

unfoldable pub copy_box : Capture → Box
unfolding to_u32
copy_box c = record {
  left = to_u32 c.offset_x;
  top = to_u32 c.offset_y;
  right = u32 (to_u32 c.offset_x + c.width);
  bottom = u32 (to_u32 c.offset_y + c.height);
}

unfoldable pub reacquire : Round → Capture → Capture
reacquire r c =
    if leb c.next_reacquire r.now
    then record c { dup = r.duplicates; next_reacquire = u32 (r.now + 1000) }
    else record c { dup = none }

unfoldable pub on_acquired : Acquired → Round → Capture → Capture × Option Box
unfolding copy_box reacquire
on_acquired frame r c =
    if c.copy
    then (c, some (copy_box c))
    else if r.creates
    then (record c { copy = true }, some (copy_box c))
    else (c, none)
on_acquired timeout r c = (c, none)
on_acquired access_lost r c = if c.output then (reacquire r c, none) else (c, none)
on_acquired other_error r c = (c, none)

-- The frame that Capture hands out is the box it copied; `none` stands for false.
unfoldable pub acquire_from : Option ℕ → Round → Capture → Capture × Option Box
unfolding on_acquired
acquire_from none r c = (c, none)
acquire_from (some d) r c = on_acquired (r.acquired d) r c

unfoldable pub capture : Round → Capture → Capture × Option Box
unfolding acquire_from
capture r c = if c.running then acquire_from c.dup r c else (c, none)

abbrev gave : Option Box → Bool
gave none = false
gave (some b) = true

-- The calls of the main loop, one after another: the last state, and whether any gave a frame.
unfoldable pub captures : List Round → Capture → Capture × Bool
captures [] c = (c, false)
captures (r ∷ rs) c =
    let (c', got) = capture r c in let (d, later) = captures rs c' in (d, gave got || later)
