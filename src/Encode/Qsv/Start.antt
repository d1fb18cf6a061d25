-- ===== src/Encode/Qsv/Start.antt =====
-- Start of host/src/encode/qsv.cpp: it leaves the encoder running or holding nothing.
use m_extender.Prelude.{
  ℕ, ◌≡◌, refl, ◌⊎◌, inl, inr, Bool, true, false, ◌&&◌, List, [], ◌∷◌, Option, none, some, map,
  arith, ap, ◌∙◌, if◌then◌else◌, ◌==◌,
}
use m_extender.Encode.Buffers.{round_up_16}
use m_extender.Encode.Qsv.{
  QsvEncoder, Exports, Answers, Param, param_for, resolve_all, load_from, load_runtime,
  unload_runtime, stop, init_session, allocate_buffers, initialized, configure, start, start_ends,
}

-- Every function that Encode, Resize and Stop call is there.
abbrev pub required : Exports → Bool
required x = x.init_ex && (x.close && (x.enc_init && (x.enc_close && (x.enc_frame && x.sync_op))))

pub record Running (e : QsvEncoder) : Type 0 where
  pub qsv_dll : e.qsv_dll ≡ true
  pub exports : required e.exports ≡ true
  pub session : e.session ≡ true
  pub configured : e.configured ≡ true

pub record Stopped (e : QsvEncoder) : Type 0 where
  pub qsv_dll : e.qsv_dll ≡ false
  pub session : e.session ≡ false
  pub configured : e.configured ≡ false

-- A result that says truly which of the two the encoder is.
abbrev pub Told : QsvEncoder × Bool → Type 0
Told r = ((r.1 ≡ true) × Running r.0) ⊎ ((r.1 ≡ false) × Stopped r.0)

abbrev pub Life : QsvEncoder → Type 0
Life e = Running e ⊎ Stopped e

resolve_all-required :
    (d p : Exports) → (resolve_all d p).1 ≡ true → required (resolve_all d p).0 ≡ true
unfolding resolve_all
resolve_all-required d p h = ground arith

-- What loading leaves: the library and its functions, or the encoder without a library.
record Loaded (session configured : Bool) (r : QsvEncoder × Bool) : Type 0 where
  qsv_dll : r.0.qsv_dll ≡ r.1
  exports : r.1 ≡ true → required r.0.exports ≡ true
  same_session : r.0.session ≡ session
  same_configured : r.0.configured ≡ configured

chosen-Loaded :
    (e : QsvEncoder) (x : Exports) (b : Bool) (next : QsvEncoder × Bool)
    → (b ≡ true → required x ≡ true)
    → Loaded e.session e.configured next
    → Loaded e.session e.configured
        (if b then (record e { qsv_dll = true; exports = x }, true) else next)
chosen-Loaded e x true next q l = record {
  qsv_dll = refl;
  exports = q;
  same_session = refl;
  same_configured = refl;
}
chosen-Loaded e x false next q l = l

load_from-Loaded :
    (ds : List (Option Exports)) (e : QsvEncoder)
    → e.qsv_dll ≡ false
    → Loaded e.session e.configured (load_from ds e)
unfolding load_from
load_from-Loaded [] e n = record {
  qsv_dll = n;
  exports = λ h. ground arith;
  same_session = refl;
  same_configured = refl;
}
load_from-Loaded (none ∷ ds) e n = load_from-Loaded ds e n
load_from-Loaded (some d ∷ ds) e n =
    let r = resolve_all d e.exports in
    chosen-Loaded e r.0 r.1 (load_from ds (record e { exports = r.0 }))
      (resolve_all-required d e.exports) (load_from-Loaded ds (record e { exports = r.0 }) n)

-- Configuring touches neither the library nor the session, and ends configured when it succeeds.
record Kept (dll : Bool) (x : Exports) (session : Bool) (r : QsvEncoder × Bool) : Type 0 where
  same_dll : r.0.qsv_dll ≡ dll
  same_exports : r.0.exports ≡ x
  same_session : r.0.session ≡ session
  configured : r.1 ≡ true → r.0.configured ≡ true

initialized-Kept :
    (a : Answers) (e : QsvEncoder) (p : Option Param)
    → Kept e.qsv_dll e.exports e.session (initialized a e p)
unfolding initialized allocate_buffers
initialized-Kept a e none = record {
  same_dll = refl;
  same_exports = refl;
  same_session = refl;
  configured = λ h. ground arith;
}
initialized-Kept a e (some p) = record {
  same_dll = ground arith;
  same_exports = ground arith;
  same_session = ground arith;
  configured = λ h. ground arith;
}

configure-Kept : (a : Answers) (e : QsvEncoder) → Kept e.qsv_dll e.exports e.session (configure a e)
unfolding configure
configure-Kept a e =
    let e1 = record e { enc_w = round_up_16 e.w; enc_h = round_up_16 e.h } in
    initialized-Kept a e1 (a.enc_init (param_for e1))

start_ends-Told :
    (l c : QsvEncoder × Bool) (ok : Bool)
    → Loaded false false l
    → Kept l.0.qsv_dll l.0.exports ok c
    → Told (start_ends l (record l.0 { session = ok }, ok) c)
unfolding start_ends stop unload_runtime
start_ends-Told (e, false) c ok l k =
    inr (
      refl,
      record { qsv_dll = l.qsv_dll; session = l.same_session; configured = l.same_configured },
    )
start_ends-Told (e, true) c false l k =
    inr (refl, record { qsv_dll = refl; session = refl; configured = l.same_configured })
start_ends-Told (e, true) (f, false) true l k =
    inr (refl, record { qsv_dll = refl; session = refl; configured = refl })
start_ends-Told (e, true) (f, true) true l k = inl (
  refl,
  record {
    qsv_dll = k.same_dll ∙ l.qsv_dll;
    exports = ap required k.same_exports ∙ l.exports refl;
    session = k.same_session;
    configured = k.configured refl;
  },
)

-- Start, on an encoder that holds nothing, whatever the libraries answer: it returns true and the encoder is
-- running, with its library, all the functions it calls, its session and its configuration, or it returns false and
-- the encoder holds nothing.
pub start-Told :
    (a : Answers) (w h fps bitrate : ℕ) (e : QsvEncoder)
    → Stopped e
    → Told (start a w h fps bitrate e)
unfolding start load_runtime init_session
start-Told a w h fps bitrate e s =
    let e0 = record e {
      w = w;
      h = h;
      fps = if fps == 0 then 30 else fps;
      bitrate = bitrate;
      keyframe_requested = true;
    } in
    let l = load_runtime a e0 in
    let i = init_session a l.0 in
    let loaded = load_from-Loaded (map a.library (0 ∷ 1 ∷ 2 ∷ [])) e0 s.qsv_dll in
    start_ends-Told l (configure a i.0) i.1
      (record {
        qsv_dll = loaded.qsv_dll;
        exports = loaded.exports;
        same_session = loaded.same_session ∙ s.session;
        same_configured = loaded.same_configured ∙ s.configured;
      })
      (configure-Kept a i.0)
