-- ===== src/Encode/Nvenc/Resized.antt =====
-- What becomes of NvEncoder of host/src/encode/nvenc.cpp when it is resized, and of its requests for keyframes.
use m_extender.Prelude.{ℕ, ◌≡◌, refl, true, false, List, [], ◌∷◌, arith, All}
use m_extender.Encode.Nvenc.{
  NvEncoder, Answers, Encoded, no_frame, ensure_session, ensure_configured, and_then, prepare,
  prepared, encode, resize, start, stop, loads, load_api, set_bitrate,
}

-- NVENC refuses to initialise an encoder that was never opened.
abbrev pub RefusesNull : Answers → Type 0
RefusesNull a = a.initialize false ≡ false

-- The state in which no frame comes out any more: a device is kept, but there is no session.
pub record Dead (e : NvEncoder) : Type 0 where
  pub device : e.device ≡ true
  pub encoder : e.encoder ≡ false
  pub configured : e.configured ≡ false

-- The frames of a sequence of calls.
abbrev pub frames : List Answers → NvEncoder → List Encoded
frames [] e = []
frames (a ∷ rest) e = let r = encode a e in r.1 ∷ frames rest r.0

pub encode-Dead :
    (a : Answers) (e : NvEncoder)
    → RefusesNull a
    → Dead e
    → Dead (encode a e).0 × ((encode a e).1 ≡ no_frame)
unfolding encode prepared prepare and_then ensure_session ensure_configured
encode-Dead a e r d = ground arith

frames-Dead :
    (answers : List Answers) (e : NvEncoder)
    → All RefusesNull answers
    → Dead e
    → All (λ r. r ≡ no_frame) (frames answers e)
frames-Dead [] e r d = tt
frames-Dead (a ∷ rest) e r d =
    let (d', n) = encode-Dead a e r.0 d in (n, frames-Dead rest (encode a e).0 r.1 d')

-- A resize of a working encoder, and one of an encoder that is dead already.
pub resize-Dead :
    (a : Answers) (w h : ℕ) (e : NvEncoder)
    → e.device ≡ true
    → e.configured ≡ true
    → e.api ≡ true
    → Dead (resize a w h e).0
unfolding resize stop start load_api
resize-Dead a w h e d c p = rw (c, p) (record { device = d; encoder = refl; configured = refl })

pub resize_again-Dead : (a : Answers) (w h : ℕ) (e : NvEncoder) → Dead e → Dead (resize a w h e).0
unfolding resize
resize_again-Dead a w h e d = simp (d.configured) d

pub set_bitrate-Dead : (a : Answers) (b : ℕ) (e : NvEncoder) → Dead e → Dead (set_bitrate a b e).0
unfolding set_bitrate
set_bitrate-Dead a b e d = simp (d.configured) d

-- The fault: an encoder that has encoded, with its device, its session and its configuration, and that is resized
-- successfully, never submits nor gives a frame again. Stop keeps the device, so Encode does not open a new session.
pub resize_dead :
    (a : Answers) (w h : ℕ) (e : NvEncoder) (later : List Answers)
    → e.device ≡ true
    → e.configured ≡ true
    → e.api ≡ true
    → loads a.load ≡ true
    → All RefusesNull later
    → ((resize a w h e).1 ≡ true) × All (λ r. r ≡ no_frame) (frames later (resize a w h e).0)
unfolding resize stop start load_api
resize_dead a w h e later d c p l r =
    (rw c l, frames-Dead later (resize a w h e).0 r (resize-Dead a w h e d c p))
