-- ===== src/Encode/Amf/Pool.antt =====
-- The pool of textures and the submission of AmfEncoder::Encode in host/src/encode/amf.cpp.

use m_extender.Prelude.{
  ℕ, zero, suc, ◌+◌, ◌%◌, ◌<◌, ◌≡◌, ◌≢◌, refl, Bool, true, not, ◌||◌, List, [], ◌∷◌, ◌++◌, Option,
  none, some, length, get_or, set, arith, ap, sym, subst, ◌∙◌, if_cases, if_false,
}
use m_extender.Payload.{EncodedFrame}
use m_extender.Encode.Buffers.{Texture, Direct3D, ensure_staging, read_back}
use m_extender.Encode.Amf.{AmfEncoder, Answers, accepted, input_full}
use m_extender.Encode.Amf.Start.{Running}
use m_extender.Encode.Amf.Frames.{
  Encoded, converted, copy_frame_to_nv12, read_output, to_list, submit_loop, submitted_with,
  take_turn, after_try, encode,
}

-- The frames that the questions for output from the n-th on give, `k` of them.
abbrev pub outputs : Answers → ℕ → ℕ → List EncodedFrame
outputs a n zero = []
outputs a n (suc k) = to_list (read_output (a.query n)) ++ outputs a (n + 1) k

submit_loop_lem :
    (a : Answers) (left n k : ℕ)
    → k < left
    → ((j : ℕ) → j < k → a.submit (n + j) ≡ input_full)
    → a.submit (n + k) ≡ accepted
    → submit_loop a left n ≡ (accepted, n + k, outputs a n k)
unfolding submit_loop after_try
submit_loop_lem a zero n k l f s = absurd (omega arith)
submit_loop_lem a (suc left) n zero l f s =
    let z : n + 0 ≡ n = omega arith in
    let s0 : a.submit n ≡ accepted = ap a.submit (sym z) ∙ s in rw (s0, z) refl
submit_loop_lem a (suc left) n (suc k) l f s =
    let z : n + 0 ≡ n = omega arith in
    let f0 : a.submit n ≡ input_full = ap a.submit (sym z) ∙ f 0 (omega arith) in
    let e : n + suc k ≡ n + 1 + k = omega arith in
    let r =
      submit_loop_lem a left (n + 1) k (omega arith)
        (λ j m. subst (λ i. a.submit i ≡ input_full) (omega arith) (f (suc j) (omega arith)))
        (subst (λ i. a.submit i ≡ accepted) e s) in
    rw (f0, r, e) refl

-- What one converted frame does to the pool.
record Turn (e f : AmfEncoder) : Type 0 where
  written : get_or f.nv12_tex e.surface_index [] ≡ f.nv12
  others : (j : ℕ) → j ≢ e.surface_index → get_or f.nv12_tex j [] ≡ get_or e.nv12_tex j []

get_or-set_same :
    {A : Type 0} (xs : List A) (i : ℕ) (v d : A) → i < length xs → get_or (set xs i v) i d ≡ v
get_or-set_same [] i v d l = absurd (omega arith)
get_or-set_same (x ∷ xs) zero v d l = refl
get_or-set_same (x ∷ xs) (suc i) v d l = get_or-set_same xs i v d (omega arith)

get_or-set_other :
    {A : Type 0} (xs : List A) (i j : ℕ) (v d : A) → j ≢ i → get_or (set xs i v) j d ≡ get_or xs j d
get_or-set_other [] i j v d n = refl
get_or-set_other (x ∷ xs) zero zero v d n = absurd (n refl)
get_or-set_other (x ∷ xs) zero (suc j) v d n = refl
get_or-set_other (x ∷ xs) (suc i) zero v d n = refl
get_or-set_other (x ∷ xs) (suc i) (suc j) v d n = get_or-set_other xs i j v d (λ e. n (ap suc e))

converted-Turn :
    (e : AmfEncoder) (r : Option (ℕ × List ℕ))
    → e.surface_index < length e.nv12_tex
    → (converted e r).1 ≡ true
    → Turn e (converted e r).0
unfolding converted
converted-Turn e none l h = absurd (ground (arith, h))
converted-Turn e (some (p, b)) l h = record {
  written = get_or-set_same e.nv12_tex e.surface_index _ [] l;
  others = λ j n. get_or-set_other e.nv12_tex e.surface_index j _ [] n;
}

copy-Turn :
    (d3d : Direct3D) (frame : Texture) (e : AmfEncoder)
    → e.surface_index < length e.nv12_tex
    → (copy_frame_to_nv12 d3d frame e).1 ≡ true
    → Turn e (copy_frame_to_nv12 d3d frame e).0
unfolding copy_frame_to_nv12
copy-Turn d3d frame e l =
    let dctx = e.dctx || d3d.context in
    let e1 = record e { device = e.device || not e.dctx; dctx = dctx } in
    let r = read_back d3d frame (ensure_staging d3d frame e.staging) in
    if_cases (λ (x : AmfEncoder × Bool). x.1 ≡ true → Turn e x.0) (not dctx) _ _
      (λ y h. absurd (ground (arith, h)))
      (λ n h.
        let t = converted-Turn (record e1 { staging = r.0 }) r.1 l h in
        record { written = t.written; others = t.others })

encode-take_turn :
    (d3d : Direct3D) (a : Answers) (frame : Texture) (e : AmfEncoder)
    → Running e
    → (copy_frame_to_nv12 d3d frame e).1 ≡ true
    → encode d3d a frame e ≡ take_turn a e (copy_frame_to_nv12 d3d frame e).0
unfolding encode
encode-take_turn d3d a frame e g c =
    if_false (not e.encoder) _ _ (ap not g.encoder)
    ∙ if_false (not (copy_frame_to_nv12 d3d frame e).1) _ _ (ap not c)

third : (i : ℕ) → i < 3 → get_or (0 ∷ 1 ∷ 2 ∷ []) (i % 3) 0 ≡ i
third zero l = refl
third (suc zero) l = refl
third (suc (suc zero)) l = refl
third (suc (suc (suc i))) l = absurd (omega arith)

take_turn_accepted :
    (a : Answers) (e c : AmfEncoder) (k : ℕ)
    → e.surfaces ≡ 0 ∷ 1 ∷ 2 ∷ []
    → e.surface_index < 3
    → get_or c.nv12_tex e.surface_index [] ≡ c.nv12
    → submit_loop a 30 0 ≡ (accepted, k, outputs a 0 k)
    → (take_turn a e c).1 ≡ record {
      submitted = some record { content = c.nv12; force_idr = e.keyframe_requested };
      dropped = outputs a 0 k;
      frame = read_output (a.query k);
    }
unfolding take_turn submitted_with
take_turn_accepted a e c k s i t l = rw (l, s, third e.surface_index i, t) refl

-- A running encoder that could convert a frame, and that AMF answers with a full queue for less than 30 tries and then
-- accepts: it submits exactly what was just converted, forced to be a keyframe if one was asked for, and Encode gives
-- what the question for output after that try gives. The frames that the questions before it gave are thrown away.
pub encode_accepted :
    (d3d : Direct3D) (a : Answers) (frame : Texture) (e : AmfEncoder) (k : ℕ)
    → Running e
    → (copy_frame_to_nv12 d3d frame e).1 ≡ true
    → k < 30
    → ((j : ℕ) → j < k → a.submit j ≡ input_full)
    → a.submit k ≡ accepted
    → (encode d3d a frame e).1 ≡ record {
      submitted = some record {
        content = (copy_frame_to_nv12 d3d frame e).0.nv12;
        force_idr = e.keyframe_requested;
      };
      dropped = outputs a 0 k;
      frame = read_output (a.query k);
    }
encode_accepted d3d a frame e k g c l f s =
    let t = copy-Turn d3d frame e (omega (arith, g.surface_index, g.nv12_tex)) c in
    let loop =
      submit_loop_lem a 30 0 k l (λ j m. subst (λ i. a.submit i ≡ input_full) (omega arith) (f j m))
        (subst (λ i. a.submit i ≡ accepted) (omega arith) s) in
    ap (λ (r : AmfEncoder × Encoded). r.1) (encode-take_turn d3d a frame e g c)
    ∙ take_turn_accepted a e (copy_frame_to_nv12 d3d frame e).0 k g.surfaces g.surface_index
        t.written
        (subst (λ i. submit_loop a 30 0 ≡ (accepted, i, outputs a 0 k)) (omega arith) loop)

-- One frame turns the pool by one: a running encoder that converts a frame writes it to the texture whose turn it is,
-- leaves the textures of the two frames before it as they were, and takes the next texture the next time.
pub encode_turns :
    (d3d : Direct3D) (a : Answers) (frame : Texture) (e : AmfEncoder)
    → Running e
    → (copy_frame_to_nv12 d3d frame e).1 ≡ true
    → let f = (encode d3d a frame e).0 in
      (f.surface_index ≡ (e.surface_index + 1) % 3)
      × (get_or f.nv12_tex e.surface_index [] ≡ f.nv12)
      × ((j : ℕ) → j ≢ e.surface_index → get_or f.nv12_tex j [] ≡ get_or e.nv12_tex j [])
unfolding take_turn
encode_turns d3d a frame e g c =
    let t = copy-Turn d3d frame e (omega (arith, g.surface_index, g.nv12_tex)) c in
    subst
      (λ (r : AmfEncoder × Encoded).
        (r.0.surface_index ≡ (e.surface_index + 1) % 3)
        × (get_or r.0.nv12_tex e.surface_index [] ≡ r.0.nv12)
        × ((j : ℕ) → j ≢ e.surface_index → get_or r.0.nv12_tex j [] ≡ get_or e.nv12_tex j []))
      (sym (encode-take_turn d3d a frame e g c))
      (ap (λ l. (e.surface_index + 1) % length l) g.surfaces, t.written, t.others)
