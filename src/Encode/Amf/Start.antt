-- ===== src/Encode/Amf/Start.antt =====
-- Start of host/src/encode/amf.cpp: it leaves the encoder running, with its whole pool, or holding nothing.
use native.Mathlib.Numerals.{unary_clauses}
use m_extender.Prelude.{
  ℕ, zero, suc, ◌+◌, ◌<◌, ◌≡◌, refl, ◌⊎◌, inl, inr, Bool, true, false, ◌&&◌, List, [], ◌∷◌, ◌++◌,
  Option, none, some, length, length-append, arith, ap, subst, ◌∙◌, ◌==◌, if◌then◌else◌, Bool-cases,
}
use m_extender.Encode.Buffers.{round_up_16}
use m_extender.Encode.Amf.{
  AmfEncoder, Answers, surface_pool, stop, open_encoder, allocate_frame, push_surface, push_texture,
  fill_pool, or_stop, start,
}

-- The first surfaces of the pool, each with the texture of its own index.
abbrev pub upto : ℕ → List ℕ
upto zero = []
upto (suc n) = upto n ++ n ∷ []

-- An encoder whose pool has `n` textures and surfaces.
pub record Pooled (n : ℕ) (e : AmfEncoder) : Type 0 where
  pub amf_dll : e.amf_dll ≡ true
  pub context : e.context ≡ true
  pub encoder : e.encoder ≡ true
  pub device : e.device ≡ true
  pub surface_index : e.surface_index < 3
  pub surfaces : e.surfaces ≡ upto n
  pub nv12_tex : length e.nv12_tex ≡ n

abbrev pub Running : AmfEncoder → Type 0
Running e = Pooled 3 e

pub record Stopped (e : AmfEncoder) : Type 0 where
  pub amf_dll : e.amf_dll ≡ false
  pub context : e.context ≡ false
  pub encoder : e.encoder ≡ false
  pub surface_index : e.surface_index < 3
  pub surfaces : e.surfaces ≡ []
  pub nv12_tex : e.nv12_tex ≡ []

-- A result that says truly which of the two the encoder is.
abbrev pub Told : AmfEncoder × Bool → Type 0
Told r = ((r.1 ≡ true) × Running r.0) ⊎ ((r.1 ≡ false) × Stopped r.0)

abbrev pub Life : AmfEncoder → Type 0
Life e = Running e ⊎ Stopped e

pub stop-Stopped : (e : AmfEncoder) → e.surface_index < 3 → Stopped (stop e)
unfolding stop
stop-Stopped e l = record {
  amf_dll = refl;
  context = refl;
  encoder = refl;
  surface_index = l;
  surfaces = refl;
  nv12_tex = refl;
}

or_stop-Told :
    (r : AmfEncoder × Bool) (next : AmfEncoder → AmfEncoder × Bool)
    → r.0.surface_index < 3
    → (r.1 ≡ true → Told (next r.0))
    → Told (or_stop r next)
unfolding or_stop
or_stop-Told (e, true) next l t = t refl
or_stop-Told (e, false) next l t = inr (refl, stop-Stopped e l)

-- What filling the pool leaves: all of it, or a failure.
abbrev Filled : ℕ → AmfEncoder × Bool → Type 0
Filled n r = (r.0.surface_index < 3) × (r.1 ≡ true → Pooled n r.0)

push_surface-Filled :
    (b : Bool) (i n : ℕ) (next : AmfEncoder → AmfEncoder × Bool) (e : AmfEncoder)
    → e.surface_index < 3
    → Filled n (next (record e { surfaces = e.surfaces ++ i ∷ [] }))
    → Filled n (push_surface b i next e)
unfolding push_surface
push_surface-Filled true i n next e l f = f
push_surface-Filled false i n next e l f = (l, λ h. absurd (ground (arith, h)))

push_texture-Filled :
    (o : Option (List ℕ)) (n : ℕ) (next : AmfEncoder → AmfEncoder × Bool) (e : AmfEncoder)
    → e.surface_index < 3
    → ((c : List ℕ) → Filled n (next (record e { nv12_tex = e.nv12_tex ++ c ∷ [] })))
    → Filled n (push_texture o next e)
unfolding push_texture
push_texture-Filled none n next e l f = (l, λ h. absurd (ground (arith, h)))
push_texture-Filled (some c) n next e l f = f c

fill_pool-Filled :
    (a : Answers) (n i : ℕ) (e : AmfEncoder) → Pooled i e → Filled (i + n) (fill_pool a n i e)
unfolding fill_pool
fill_pool-Filled a zero i e p = (p.surface_index, λ h. simp unary_clauses p)
fill_pool-Filled a (suc n) i e p =
    push_texture-Filled (a.create_texture i) (i + suc n) _ e p.surface_index (λ c.
      let e1 = record e { nv12_tex = e.nv12_tex ++ c ∷ [] } in
      let e2 = record e1 { surfaces = e1.surfaces ++ i ∷ [] } in
      push_surface-Filled (a.wrap_texture i) i (i + suc n) (fill_pool a n (i + 1)) e1
        p.surface_index
        (subst (λ k. Filled k (fill_pool a n (i + 1) e2)) (omega arith)
          (fill_pool-Filled a n (i + 1) e2 (record {
            amf_dll = p.amf_dll;
            context = p.context;
            encoder = p.encoder;
            device = p.device;
            surface_index = p.surface_index;
            surfaces = simp unary_clauses (ap (λ l. l ++ i ∷ []) p.surfaces);
            nv12_tex = length-append e.nv12_tex (c ∷ []) ∙ ap (λ k. k + 1) p.nv12_tex;
          }))))

-- Start with a Direct3D device or without, on an encoder that holds nothing, whatever the libraries answer: it returns
-- true and the encoder is running, with its runtime, its context, its component and a pool of three textures, each
-- wrapped by the surface of its index, or it returns false and the encoder holds nothing.
pub start-Told :
    (a : Answers) (w h fps bitrate : ℕ) (e : AmfEncoder)
    → Stopped e
    → Told (start a w h fps bitrate e)
unfolding start open_encoder allocate_frame
start-Told a w h fps bitrate e s =
    let e0 = record e {
      w = w;
      h = h;
      fps = if fps == 0 then 30 else fps;
      bitrate = bitrate;
      keyframe_requested = true;
      enc_w = round_up_16 w;
      enc_h = round_up_16 h;
    } in
    let e1 = (open_encoder a e0).0 in
    let e2 = (allocate_frame a e1).0 in
    let pooled : (open_encoder a e0).1 ≡ true → e.device ≡ true → Pooled 0 e2 = λ h d. record {
      amf_dll = refl;
      context = ground (arith, h);
      encoder = ground (arith, h);
      device = d;
      surface_index = s.surface_index;
      surfaces = s.surfaces;
      nv12_tex = ap length s.nv12_tex;
    } in
    elim (Bool-cases (e.device && a.load)) [
      | inl y ↦ rw y (
          or_stop-Told (open_encoder a e0) _ s.surface_index (λ h.
            or_stop-Told (allocate_frame a e1) _ s.surface_index (λ h'.
              let f = fill_pool-Filled a surface_pool 0 e2 (pooled h (ground (arith, y))) in
              or_stop-Told (fill_pool a surface_pool 0 e2) _ f.0 (λ h''. inl (refl, f.1 h'')))))
      | inr n ↦ rw n (
          inr (
            refl,
            record {
              amf_dll = s.amf_dll;
              context = s.context;
              encoder = s.encoder;
              surface_index = s.surface_index;
              surfaces = s.surfaces;
              nv12_tex = s.nv12_tex;
            },
          ))
    ]
