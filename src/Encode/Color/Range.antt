-- ===== src/Encode/Color/Range.antt =====
-- Where BgraToNv12 of host/src/encode/color.cpp writes, and what.
use native.Mathlib.Nat.{mul-le-mul_right, add-mul}
use m_extender.Prelude.{
  ℕ, zero, suc, ◌+◌, ◌*◌, ◌/◌, ◌%◌, ◌≤◌, ◌<◌, ◌≡◌, refl, List, [], ◌∷◌, ◌++◌, get_or, arith, All,
}
use m_extender.Prelude.Int.{◌+ℤ◌}
use m_extender.Encode.Color.{
  clip_byte, shift_ten, luma, chroma, luma_row, luma_rows, sum_four, chroma_row, chroma_rows,
  bgra_to_nv12,
}

-- A write inside a range of the buffer, of a byte of the limited range of video.
abbrev pub Video : ℕ → ℕ → ℕ × ℕ → Type 0
Video begin end (index, value) = (begin ≤ index) × (index < end) × (16 ≤ value) × (value ≤ 240)

abbrev pub AllBytes : List ℕ → Type 0
AllBytes bytes = All (λ b. b < 256) bytes

luma_range : (r g b : ℕ) → r < 256 → g < 256 → b < 256 → (16 ≤ luma r g b) × (luma r g b ≤ 240)
unfolding luma clip_byte
luma_range r g b x y z = ground arith

chroma_range :
    (main wg gs wo other : ℕ)
    → wg + wo ≡ 112
    → main < 1021
    → gs < 1021
    → other < 1021
    → wg * gs ≤ wg * 1020
    → wo * other ≤ wo * 1020
    → (16 ≤ chroma main wg gs wo other) × (chroma main wg gs wo other ≤ 240)
unfolding chroma clip_byte shift_ten ◌+ℤ◌
chroma_range main wg gs wo other s m g o a b = ground (arith)

get_or-bound : (bs : List ℕ) (i : ℕ) → AllBytes bs → get_or bs i 0 < 256
get_or-bound [] i a = omega arith
get_or-bound (b ∷ bs) zero a = a.0
get_or-bound (b ∷ bs) (suc i) a = get_or-bound bs i a.1

sum_four-bound :
    (bs : List ℕ) (r0 r1 x colour : ℕ) → AllBytes bs → sum_four bs r0 r1 x colour < 1021
unfolding sum_four
sum_four-bound bs r0 r1 x colour a = omega (
  arith,
  get_or-bound bs (r0 + 4 * x + colour) a,
  get_or-bound bs (r0 + 4 * x + 4 + colour) a,
  get_or-bound bs (r1 + 4 * x + colour) a,
  get_or-bound bs (r1 + 4 * x + 4 + colour) a,
)

Video-append :
    (begin end : ℕ) (xs ys : List (ℕ × ℕ))
    → All (Video begin end) xs
    → All (Video begin end) ys
    → All (Video begin end) (xs ++ ys)
Video-append begin end [] ys a b = b
Video-append begin end (x ∷ xs) ys a b = (a.0, Video-append begin end xs ys a.1 b)

row_fits : (y n h p w : ℕ) → y + suc n ≤ h → w ≤ p → y * p + w ≤ h * p
row_fits y n h p w l f =
    let m : (y + 1) * p ≤ h * p = mul-le-mul_right p (omega arith) in
    omega (arith, m, add-mul y 1 p)

module _ (bgra : List ℕ) (bytes : AllBytes bgra) where
  luma_row-Video :
      (end src dst n x : ℕ) → dst + x + n ≤ end → All (Video 0 end) (luma_row bgra src dst n x)
  unfolding luma_row
  luma_row-Video end src dst zero x l = tt
  luma_row-Video end src dst (suc n) x l =
      let (lo, hi) =
        luma_range (get_or bgra (src + 4 * x + 2) 0) (get_or bgra (src + 4 * x + 1) 0)
          (get_or bgra (src + 4 * x) 0) (get_or-bound bgra _ bytes) (get_or-bound bgra _ bytes)
          (get_or-bound bgra _ bytes) in
      ((omega arith, omega arith, lo, hi), luma_row-Video end src dst n (x + 1) (omega arith))

  luma_rows-Video :
      (bgra_pitch p w h n y end : ℕ)
      → w ≤ p
      → y + n ≤ h
      → h * p ≤ end
      → All (Video 0 end) (luma_rows bgra bgra_pitch p w n y)
  unfolding luma_rows
  luma_rows-Video bgra_pitch p w h zero y end f l e = tt
  luma_rows-Video bgra_pitch p w h (suc n) y end f l e =
      Video-append 0 end _ _
        (luma_row-Video end (y * bgra_pitch) (y * p) w 0 (omega (arith, row_fits y n h p w l f)))
        (luma_rows-Video bgra_pitch p w h n (y + 1) end f (omega arith) e)

  chroma_row-Video :
      (end r0 r1 dst n p : ℕ)
      → dst + 2 * p + 2 * n ≤ end
      → All (Video 0 end) (chroma_row bgra r0 r1 dst n p)
  unfolding chroma_row
  chroma_row-Video end r0 r1 dst zero p l = tt
  chroma_row-Video end r0 r1 dst (suc n) p l =
      let rs = sum_four bgra r0 r1 (2 * p) 2 in
      let gs = sum_four bgra r0 r1 (2 * p) 1 in
      let bs = sum_four bgra r0 r1 (2 * p) 0 in
      let r = sum_four-bound bgra r0 r1 (2 * p) 2 bytes in
      let g = sum_four-bound bgra r0 r1 (2 * p) 1 bytes in
      let b = sum_four-bound bgra r0 r1 (2 * p) 0 bytes in
      let (ulo, uhi) = chroma_range bs 74 gs 38 rs refl b g r (omega arith) (omega arith) in
      let (vlo, vhi) = chroma_range rs 94 gs 18 bs refl r g b (omega arith) (omega arith) in
      (
        (omega arith, omega arith, ulo, uhi),
        (
          (omega arith, omega arith, vlo, vhi),
          chroma_row-Video end r0 r1 dst n (p + 1) (omega arith),
        ),
      )

  chroma_rows-Video :
      (bgra_pitch p base w h n y end : ℕ)
      → w % 2 ≡ 0
      → w ≤ p
      → y + n ≤ h
      → base + h * p ≤ end
      → All (Video 0 end) (chroma_rows bgra bgra_pitch p base w n y)
  unfolding chroma_rows
  chroma_rows-Video bgra_pitch p base w h zero y end v f l e = tt
  chroma_rows-Video bgra_pitch p base w h (suc n) y end v f l e =
      Video-append 0 end _ _
        (chroma_row-Video end (2 * y * bgra_pitch) (2 * y * bgra_pitch + bgra_pitch) (base + y * p)
          ((w + 1) / 2) 0 (omega (arith, v, row_fits y n h p w l f)))
        (chroma_rows-Video bgra_pitch p base w h n (y + 1) end v f (omega arith) e)

-- For an even width that is at most the pitch of the NV12 buffer, and whatever the pixels: every write is
-- within the h + h / 2 rows of that buffer, and every byte written is between 16 and 240, the range of video.
pub bgra_to_nv12-Video :
    (bgra : List ℕ) (bgra_pitch nv12_pitch w h : ℕ)
    → AllBytes bgra
    → w % 2 ≡ 0
    → w ≤ nv12_pitch
    → All (Video 0 ((h + h / 2) * nv12_pitch)) (bgra_to_nv12 bgra bgra_pitch nv12_pitch w h)
unfolding bgra_to_nv12
bgra_to_nv12-Video bgra bgra_pitch p w h bytes v f =
    let e = add-mul h (h / 2) p in
    Video-append 0 ((h + h / 2) * p) _ _
      (luma_rows-Video bgra bytes bgra_pitch p w h h 0 ((h + h / 2) * p) f (omega arith)
        (omega (arith, e)))
      (chroma_rows-Video bgra bytes bgra_pitch p (h * p) w (h / 2) (h / 2) 0 ((h + h / 2) * p) v f
        (omega arith) (omega (arith, e)))
