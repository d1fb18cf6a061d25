-- ===== src/Scaler/Target.antt =====
-- The texture that GpuScaler::Scale of host/src/util/scaler.cpp returns, over a sequence of calls.
use m_extender.Prelude.{
  ℕ, ◌≡◌, refl, ◌⊎◌, inl, inr, Bool, true, false, not, ◌||◌, ◌&&◌, Option, none, some, ◌==◌, arith,
  ap, ap₂, ◌∙◌, if_cases, if_true, if_false, sym,
}
use m_extender.Scaler.{GpuScaler, Answers, Drawn, is_null, ensure_dst, drawn_on, draw, scale}

-- The remembered size is the texture's, and the texture has its view.
abbrev pub Fresh : GpuScaler → Type 0
Fresh s = (s.dst ≡ none) ⊎ ((s.dst ≡ some (s.dst_w, s.dst_h)) × (s.rtv ≡ true))

-- Creating a view of a texture that was just created does not fail.
abbrev pub ViewsCreated : Answers → Type 0
ViewsCreated a = (a.create_texture && not a.create_rtv) ≡ false

-- What is asked for is returned, with its view bound.
abbrev pub Right : ℕ → ℕ → Option Drawn → Type 0
Right w h r =
    (d : Drawn) → r ≡ some d → (d.size ≡ (w, h)) × (d.target ≡ true) × (d.viewport ≡ (w, h))

-- A result of the first part of Scale that a blit can use.
abbrev Usable : ℕ → ℕ → GpuScaler × Bool → Type 0
Usable w h r = Fresh r.0 × (r.1 ≡ true → (r.0.dst ≡ some (w, h)) × (r.0.rtv ≡ true))

kept-Usable :
    (w h : ℕ) (s : GpuScaler)
    → Fresh s
    → is_null s.dst ≡ false
    → s.dst_w ≡ w
    → s.dst_h ≡ h
    → Usable w h (s, true)
kept-Usable w h s (inl e) n x y = absurd (ground (arith, ap is_null e, n))
kept-Usable w h s (inr (e, r)) n x y = (inr (e, r), λ t. (e ∙ ap₂ (λ v u. some (v, u)) x y, r))

ensure_dst-Usable :
    (a : Answers) (w h : ℕ) (s : GpuScaler)
    → ViewsCreated a
    → Fresh s
    → Usable w h (ensure_dst a w h s)
unfolding ensure_dst
ensure_dst-Usable a w h s v f =
    if_cases (Usable w h) (is_null s.dst || not (s.dst_w == w) || not (s.dst_h == h)) _ _
      (λ y.
        if_cases (Usable w h) (not a.create_texture) _ _
          (λ t. (inl refl, λ e. absurd (ground (arith, e))))
          (λ t.
            if_cases (Usable w h) (not a.create_rtv) _ _ (λ r. absurd (ground (arith, v, t, r)))
              (λ r. (inr (refl, refl), λ e. (refl, refl)))))
      (λ n. kept-Usable w h s f (ground (arith, n)) (ground (arith, n)) (ground (arith, n)))

abbrev or_else : Option Drawn → Drawn → Drawn
or_else none d = d
or_else (some x) d = x

drawn_on-Right :
    (w h : ℕ) (rtv : Bool) (dst : Option (ℕ × ℕ))
    → dst ≡ some (w, h)
    → rtv ≡ true
    → Right w h (drawn_on w h rtv dst)
unfolding drawn_on
drawn_on-Right w h rtv dst e r d q =
    let q' : some record { size = (w, h); target = true; viewport = (w, h) } ≡ some d =
      sym (ap₂ (drawn_on w h) r e) ∙ q in
    let p = ap (λ o. or_else o d) q' in
    (
      sym (ap (λ (x : Drawn). x.size) p),
      sym (ap (λ (x : Drawn). x.target) p),
      sym (ap (λ (x : Drawn). x.viewport) p),
    )

draw-Right :
    (a : Answers) (w h : ℕ) (s : GpuScaler)
    → s.dst ≡ some (w, h)
    → s.rtv ≡ true
    → Right w h (draw a w h s)
unfolding draw
draw-Right a w h s e r =
    if_cases (Right w h) a.create_srv _ _ (λ y. drawn_on-Right w h s.rtv s.dst e r)
      (λ n d q. absurd (ground (arith, q)))

-- Scale, when no view of a new texture fails to be created: whatever else fails, the size that it remembers is the
-- texture's afterwards if it was before, and a texture that it returns has the size asked for and was the target of a
-- blit over all of it.
pub scale-Right :
    (a : Answers) (src : Bool) (w h : ℕ) (s : GpuScaler)
    → ViewsCreated a
    → Fresh s
    → Fresh (scale a src w h s).0 × Right w h (scale a src w h s).1
unfolding scale
scale-Right a src w h s v f =
    let u = ensure_dst-Usable a w h s v f in
    let P = λ (r : GpuScaler × Option Drawn). Fresh r.0 × Right w h r.1 in
    if_cases P (not s.ctx || not src || w == 0 || h == 0) _ _
      (λ y. (f, λ d q. absurd (ground (arith, q))))
      (λ n.
        if_cases P (not (ensure_dst a w h s).1) _ _ (λ y. (u.0, λ d q. absurd (ground (arith, q))))
          (λ m.
            let (e, r) = u.1 (ground (arith, m)) in
            (u.0, draw-Right a w h (ensure_dst a w h s).0 e r)))

ensure_dst_refused :
    (a : Answers) (v u : ℕ) (s : GpuScaler)
    → (s.dst_w == v && s.dst_h == u) ≡ false
    → (a.create_texture && not a.create_rtv) ≡ true
    → ensure_dst a v u s ≡ (record s { dst = some (v, u); rtv = false }, false)
unfolding ensure_dst
ensure_dst_refused a v u s n f =
    if_true (is_null s.dst || not (s.dst_w == v) || not (s.dst_h == u)) _ _ (ground (arith, n))
    ∙ if_false (not a.create_texture) _ _ (ground (arith, f))
    ∙ if_true (not a.create_rtv) _ _ (ground (arith, f))

ensure_dst_kept :
    (b : Answers) (s : GpuScaler)
    → is_null s.dst ≡ false
    → ensure_dst b s.dst_w s.dst_h s ≡ (s, true)
unfolding ensure_dst
ensure_dst_kept b s n =
    if_false (is_null s.dst || not (s.dst_w == s.dst_w) || not (s.dst_h == s.dst_h)) _ _
      (ground (arith, n))

scale_refused :
    (a : Answers) (v u : ℕ) (s : GpuScaler)
    → (not s.ctx || v == 0 || u == 0) ≡ false
    → (s.dst_w == v && s.dst_h == u) ≡ false
    → (a.create_texture && not a.create_rtv) ≡ true
    → scale a true v u s ≡ (record s { dst = some (v, u); rtv = false }, none)
unfolding scale
scale_refused a v u s z n f =
    let e = ensure_dst_refused a v u s n f in
    if_false (not s.ctx || not true || v == 0 || u == 0) _ _ (ground (arith, z))
    ∙ if_true (not (ensure_dst a v u s).1) _ _ (ap (λ (r : GpuScaler × Bool). not r.1) e)
    ∙ ap (λ (r : GpuScaler × Bool). (r.0, none)) e

-- The fault: a view that could not be created leaves the new texture with the old size remembered. A scaler that
-- remembers a size, is asked for another and is refused the view, returns, when the remembered size is asked for again,
-- a texture of the other size, drawn without a target.
pub scale_stale :
    (a b : Answers) (v u : ℕ) (s : GpuScaler)
    → (not s.ctx || s.dst_w == 0 || s.dst_h == 0 || v == 0 || u == 0) ≡ false
    → (s.dst_w == v && s.dst_h == u) ≡ false
    → (a.create_texture && not a.create_rtv) ≡ true
    → b.create_srv ≡ true
    → (scale b true s.dst_w s.dst_h (scale a true v u s).0).1
      ≡ some record { size = (v, u); target = false; viewport = (s.dst_w, s.dst_h) }
unfolding scale draw drawn_on
scale_stale a b v u s z n f g =
    let t = record s { dst = some (v, u); rtv = false } in
    let e = scale_refused a v u s (ground (arith, z)) n f in
    let k = ensure_dst_kept b t refl in
    ap (λ (r : GpuScaler × Option Drawn). (scale b true s.dst_w s.dst_h r.0).1) e
    ∙ ap (λ (r : GpuScaler × Option Drawn). r.1)
        (if_false (not s.ctx || not true || s.dst_w == 0 || s.dst_h == 0) _ _ (ground (arith, z))
          ∙ if_false (not (ensure_dst b s.dst_w s.dst_h t).1) _ _
              (ap (λ (r : GpuScaler × Bool). not r.1) k)
          ∙ ap (λ (r : GpuScaler × Bool). (r.0, draw b s.dst_w s.dst_h r.0)) k)
    ∙ if_true b.create_srv _ _ g
