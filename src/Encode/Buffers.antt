-- ===== src/Encode/Buffers.antt =====
-- What the encoders that read a frame back to the CPU share: AlignedBytes of host/src/util/aligned.h, the staging
-- texture of their CopyFrameToNv12, and the rounding of a size to 16. Direct3D is a parameter.
pub mod Fit
use m_extender.Prelude.{
  ℕ, zero, ◌+◌, ◌-◌, ◌%◌, Bool, true, false, not, ◌&&◌, List, [], ◌∷◌, Option, none, some,
  replicate, set, ◌==◌, if◌then◌else◌,
}
use m_extender.Prelude.Words.{u32}

-- A texture with what Map would read from it.
pub record Texture : Type 0 where
  pub w : ℕ
  pub h : ℕ
  pub pixels : List ℕ

-- The calls of Direct3D. `copy_resource dst src` is the destination afterwards; `map` gives RowPitch and pData.
pub record Direct3D : Type 0 where
  pub context : Bool
  pub create_staging : ℕ → ℕ → Option Texture
  pub copy_resource : Texture → Texture → Texture
  pub map_read : Texture → Option (ℕ × List ℕ)

-- AlignedBytes::Allocate: the new buffer, empty when there is none. `malloc` says whether there is memory.
unfoldable pub allocate : (ℕ → Bool) → ℕ → List ℕ × Bool
allocate malloc bytes =
    if not (bytes == 0) && malloc bytes then (replicate bytes 0, true) else ([], false)

-- (x + 15) & ~15u.
unfoldable pub round_up_16 : ℕ → ℕ
round_up_16 x = u32 (x + 15) - u32 (x + 15) % 16

-- The staging texture there is, or a new one with the size of the frame.
unfoldable pub ensure_staging : Direct3D → Texture → Option Texture → Option Texture
ensure_staging d3d frame none = d3d.create_staging frame.w frame.h
ensure_staging d3d frame (some t) = some t

-- CopyResource and Map: the staging texture afterwards and what is read.
unfoldable pub read_back :
    Direct3D → Texture → Option Texture → Option Texture × Option (ℕ × List ℕ)
read_back d3d frame none = (none, none)
read_back d3d frame (some t) = let u = d3d.copy_resource t frame in (some u, d3d.map_read u)

-- The writes of BgraToNv12 to a buffer, in their order.
unfoldable pub write_all : List ℕ → List (ℕ × ℕ) → List ℕ
write_all buffer [] = buffer
write_all buffer ((at, value) ∷ writes) = write_all (set buffer at value) writes
