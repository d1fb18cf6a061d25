-- ===== src/Scaler/Blit.antt =====
-- Which part of the source GpuScaler's shader of host/src/util/scaler.cpp puts on the target. A point of the triangle is a
-- weighting `a`, `b`, `c` of its three vertices, out of n = a + b + c; the rasterizer gives it the weighted
-- mean of what VSMain gives for the vertices, here times n. A target shows the points of clip space between
-- -1 and 1, with 1 at the top, and texture coordinates have 0 at the top.
use m_extender.Prelude.{ℕ, ◌+◌, ◌*◌, ◌≤◌, ◌≡◌, ap₂, subst, sym, ◌∙◌, arith}
use m_extender.Prelude.Int.{ℤ, pos, negsuc, sub_ℕ, ◌+ℤ◌, ◌*ℤ◌, ◌≤ℤ◌}
use m_extender.Scaler.{vertex_uv, vertex_pos}

abbrev pub u : ℕ → ℕ → ℕ → ℕ
u a b c = a * (vertex_uv 0).0 + b * (vertex_uv 1).0 + c * (vertex_uv 2).0

abbrev pub v : ℕ → ℕ → ℕ → ℕ
v a b c = a * (vertex_uv 0).1 + b * (vertex_uv 1).1 + c * (vertex_uv 2).1

abbrev pub x : ℕ → ℕ → ℕ → ℤ
x a b c = pos a *ℤ (vertex_pos 0).0 +ℤ pos b *ℤ (vertex_pos 1).0 +ℤ pos c *ℤ (vertex_pos 2).0

abbrev pub y : ℕ → ℕ → ℕ → ℤ
y a b c = pos a *ℤ (vertex_pos 0).1 +ℤ pos b *ℤ (vertex_pos 1).1 +ℤ pos c *ℤ (vertex_pos 2).1

add-sub_ℕ : (a b c d : ℕ) → sub_ℕ a b +ℤ sub_ℕ c d ≡ sub_ℕ (a + c) (b + d)
unfolding ◌+ℤ◌
add-sub_ℕ a b c d = ground arith

less : (a : ℕ) → pos a *ℤ negsuc 0 ≡ sub_ℕ 0 a
unfolding ◌*ℤ◌
less a = ground arith

thrice : (a : ℕ) → pos a *ℤ pos 3 ≡ sub_ℕ (3 * a) 0
unfolding ◌*ℤ◌
thrice a = ground arith

x_lem : (a b c : ℕ) → x a b c ≡ sub_ℕ (3 * b) (a + c)
unfolding vertex_pos vertex_uv
x_lem a b c =
    rw (less a, thrice b, less c, add-sub_ℕ 0 a (3 * b) 0, add-sub_ℕ (0 + 3 * b) (a + 0) 0 c)
      (ap₂ sub_ℕ (omega arith) (omega arith))

y_lem : (a b c : ℕ) → y a b c ≡ sub_ℕ (3 * c) (a + b)
unfolding vertex_pos vertex_uv
y_lem a b c =
    rw (less a, less b, thrice c, add-sub_ℕ 0 a 0 b, add-sub_ℕ (0 + 0) (a + b) (3 * c) 0)
      (ap₂ sub_ℕ (omega arith) (omega arith))

-- The fault: every point that the target shows takes its colour from the quarter of the source where both
-- coordinates are at most one half, and the picture is upside down: the top edge of the target is the row at one half
-- of the source, and the bottom edge is the source's top row.
pub blit_quarter :
    (a b c : ℕ)
    → x a b c ≤ℤ pos (a + b + c)
    → y a b c ≤ℤ pos (a + b + c)
    → (2 * u a b c ≤ a + b + c)
      × (2 * v a b c ≤ a + b + c)
      × (y a b c ≡ pos (a + b + c) → 2 * v a b c ≡ a + b + c)
      × (y a b c ≡ sub_ℕ 0 (a + b + c) → v a b c ≡ 0)
unfolding vertex_uv
blit_quarter a b c p q =
    let p' : sub_ℕ (3 * b) (a + c) ≤ℤ pos (a + b + c) =
      subst (λ t. t ≤ℤ pos (a + b + c)) (x_lem a b c) p in
    let q' : sub_ℕ (3 * c) (a + b) ≤ℤ pos (a + b + c) =
      subst (λ t. t ≤ℤ pos (a + b + c)) (y_lem a b c) q in
    (
      ground (arith, p'),
      ground (arith, q'),
      λ e. ground (arith, sym (y_lem a b c) ∙ e),
      λ e. ground (arith, sym (y_lem a b c) ∙ e),
    )
