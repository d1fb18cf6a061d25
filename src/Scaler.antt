-- ===== src/Scaler.antt =====
-- GpuScaler of host/src/util/scaler.h and scaler.cpp: its state, Init and Scale, and the vertices of its shader. The
-- answers of Direct3D are an argument of each call; an object is a Bool, its presence.
pub mod Blit
pub mod Target
use m_extender.Prelude.{
  ℕ, ◌*◌, ◌/◌, ◌%◌, Bool, true, false, not, ◌&&◌, ◌||◌, Option, none, some, ◌==◌, if◌then◌else◌,
}
use m_extender.Prelude.Int.{ℤ, sub_ℕ}

-- `dst` is the size of the texture that there is.
pub record GpuScaler : Type 0 where
  pub device : Bool
  pub ctx : Bool
  pub vs : Bool
  pub ps : Bool
  pub sampler : Bool
  pub dst : Option (ℕ × ℕ)
  pub rtv : Bool
  pub dst_w : ℕ
  pub dst_h : ℕ

pub record Answers : Type 0 where
  pub context : Bool
  pub compile_vs : Bool
  pub compile_ps : Bool
  pub create_vs : Bool
  pub create_ps : Bool
  pub create_sampler : Bool
  pub create_texture : Bool
  pub create_rtv : Bool
  pub create_srv : Bool

-- `device` says whether it is not null; each call is made only if those before it succeeded.
unfoldable pub init : Answers → Bool → GpuScaler → GpuScaler × Bool
init a device s =
    let compiled = device && a.context && a.compile_vs && a.compile_ps in
    let vs = compiled && a.create_vs in
    let ps = vs && a.create_ps in
    let sampler = ps && a.create_sampler in
    (
      record s {
        device = device;
        ctx = if device then a.context else s.ctx;
        vs = if compiled then vs else s.vs;
        ps = if vs then ps else s.ps;
        sampler = if ps then sampler else s.sampler;
      },
      sampler,
    )

-- What Scale drew: the size of the texture that it returns, whether it was bound as the target, and the viewport.
pub record Drawn : Type 0 where
  pub size : ℕ × ℕ
  pub target : Bool
  pub viewport : ℕ × ℕ

abbrev pub is_null : Option (ℕ × ℕ) → Bool
is_null none = true
is_null (some size) = false

-- The texture and its view, made again for another size.
unfoldable pub ensure_dst : Answers → ℕ → ℕ → GpuScaler → GpuScaler × Bool
ensure_dst a w h s =
    if is_null s.dst || not (s.dst_w == w) || not (s.dst_h == h)
    then (if not a.create_texture
        then (record s { dst = none }, false)
        else if not a.create_rtv
        then (record s { dst = some (w, h); rtv = false }, false)
        else (record s { dst = some (w, h); rtv = true; dst_w = w; dst_h = h }, true))
    else (s, true)

unfoldable pub drawn_on : ℕ → ℕ → Bool → Option (ℕ × ℕ) → Option Drawn
drawn_on w h rtv none = none
drawn_on w h rtv (some size) = some record { size = size; target = rtv; viewport = (w, h) }

-- The blit into the texture that there is.
unfoldable pub draw : Answers → ℕ → ℕ → GpuScaler → Option Drawn
unfolding drawn_on
draw a w h s = if a.create_srv then drawn_on w h s.rtv s.dst else none

-- `src` says whether the source texture is not null.
unfoldable pub scale : Answers → Bool → ℕ → ℕ → GpuScaler → GpuScaler × Option Drawn
unfolding ensure_dst draw
scale a src w h s =
    let e = ensure_dst a w h s in
    if not s.ctx || not src || w == 0 || h == 0
    then (s, none)
    else if not e.1
    then (e.0, none)
    else (e.0, draw a w h e.0)

-- VSMain: the texture coordinates of a vertex and its position in clip space.
unfoldable pub vertex_uv : ℕ → ℕ × ℕ
vertex_uv id = (id % 2, id / 2 % 2)

unfoldable pub vertex_pos : ℕ → ℤ × ℤ
unfolding vertex_uv
vertex_pos id = (sub_ℕ ((vertex_uv id).0 * 4) 1, sub_ℕ ((vertex_uv id).1 * 4) 1)
