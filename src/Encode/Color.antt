-- ===== src/Encode/Color.antt =====
-- BgraToNv12 of host/src/encode/color.cpp: the writes to the NV12 buffer, each an index and a byte, in their order. The
-- BGRA buffer is a list of bytes.
pub mod Range
use m_extender.Prelude.{
  ℕ, zero, suc, ◌+◌, ◌-◌, ◌*◌, ◌/◌, List, [], ◌∷◌, ◌++◌, get_or, ltb, if◌then◌else◌,
}
use m_extender.Prelude.Int.{ℤ, pos, negsuc, ◌+ℤ◌, sub_ℕ}

unfoldable pub clip_byte : ℤ → ℕ
clip_byte (negsuc n) = 0
clip_byte (pos n) = if ltb 255 n then 255 else n

-- `>> 10` on int rounds towards minus infinity.
unfoldable pub shift_ten : ℤ → ℤ
shift_ten (pos n) = pos (n / 1024)
shift_ten (negsuc n) = negsuc (n / 1024)

-- The byte of the Y plane for a pixel; nothing in it is negative.
unfoldable pub luma : ℕ → ℕ → ℕ → ℕ
unfolding clip_byte
luma r g b = clip_byte (pos ((66 * r + 129 * g + 25 * b + 128) / 256 + 16))

-- A byte of the UV plane from the sums over four pixels: 112 of one colour less `wg` and `wo` of the others.
unfoldable pub chroma : ℕ → ℕ → ℕ → ℕ → ℕ → ℕ
unfolding clip_byte shift_ten ◌+ℤ◌
chroma main wg gs wo other =
    clip_byte (pos 128 +ℤ shift_ten (sub_ℕ (112 * main + 512) (wg * gs + wo * other)))

abbrev byte : List ℕ → ℕ → ℕ
byte bgra at = get_or bgra at 0

-- The inner loop of the Y plane: `n` pixels from x on, of the row that starts at `src` and goes to `dst`.
unfoldable pub luma_row : List ℕ → ℕ → ℕ → ℕ → ℕ → List (ℕ × ℕ)
unfolding luma
luma_row bgra src dst zero x = []
luma_row bgra src dst (suc n) x =
    (
      dst + x,
      luma (byte bgra (src + 4 * x + 2)) (byte bgra (src + 4 * x + 1)) (byte bgra (src + 4 * x)),
    )
    ∷ luma_row bgra src dst n (x + 1)

-- The rows of the Y plane: `n` of them, from y on.
unfoldable pub luma_rows : List ℕ → ℕ → ℕ → ℕ → ℕ → ℕ → List (ℕ × ℕ)
unfolding luma_row
luma_rows bgra bgra_pitch nv12_pitch w zero y = []
luma_rows bgra bgra_pitch nv12_pitch w (suc n) y =
    luma_row bgra (y * bgra_pitch) (y * nv12_pitch) w 0
    ++ luma_rows bgra bgra_pitch nv12_pitch w n (y + 1)

-- The sum of one colour over the four pixels at x of the rows at r0 and r1.
unfoldable pub sum_four : List ℕ → ℕ → ℕ → ℕ → ℕ → ℕ
sum_four bgra r0 r1 x colour =
    byte bgra (r0 + 4 * x + colour)
    + byte bgra (r0 + 4 * x + 4 + colour)
    + byte bgra (r1 + 4 * x + colour)
    + byte bgra (r1 + 4 * x + 4 + colour)

-- The inner loop of the UV plane: `n` pairs of pixels, from pair p on.
unfoldable pub chroma_row : List ℕ → ℕ → ℕ → ℕ → ℕ → ℕ → List (ℕ × ℕ)
unfolding chroma sum_four
chroma_row bgra r0 r1 dst zero p = []
chroma_row bgra r0 r1 dst (suc n) p =
    let rs = sum_four bgra r0 r1 (2 * p) 2 in
    let gs = sum_four bgra r0 r1 (2 * p) 1 in
    let bs = sum_four bgra r0 r1 (2 * p) 0 in
    (dst + 2 * p, chroma bs 74 gs 38 rs)
    ∷ (dst + 2 * p + 1, chroma rs 94 gs 18 bs)
    ∷ chroma_row bgra r0 r1 dst n (p + 1)

unfoldable pub chroma_rows : List ℕ → ℕ → ℕ → ℕ → ℕ → ℕ → ℕ → List (ℕ × ℕ)
unfolding chroma_row
chroma_rows bgra bgra_pitch nv12_pitch base w zero y = []
chroma_rows bgra bgra_pitch nv12_pitch base w (suc n) y =
    chroma_row bgra (2 * y * bgra_pitch) (2 * y * bgra_pitch + bgra_pitch) (base + y * nv12_pitch)
      ((w + 1) / 2) 0
    ++ chroma_rows bgra bgra_pitch nv12_pitch base w n (y + 1)

unfoldable pub bgra_to_nv12 : List ℕ → ℕ → ℕ → ℕ → ℕ → List (ℕ × ℕ)
unfolding luma_rows chroma_rows
bgra_to_nv12 bgra bgra_pitch nv12_pitch w h =
    luma_rows bgra bgra_pitch nv12_pitch w h 0
    ++ chroma_rows bgra bgra_pitch nv12_pitch (h * nv12_pitch) w (h / 2) 0
