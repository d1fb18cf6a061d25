-- ===== src/Audio/Aac/Balance.antt =====
-- What AacEncoder of host/src/audio/aac.cpp takes from Media Foundation, it gives back.
use m_extender.Prelude.{
  ℕ, ◌+◌, ◌≡◌, refl, ◌∙◌, ap, sym, Bool, false, not, ◌&&◌, ◌||◌, List, [], ◌∷◌, Option, none, some,
  arith, if_cases, ◌==◌,
}
use m_extender.Audio.Adts.{Impl, Outputs, encode}
use m_extender.Audio.Aac.{
  AacEncoder, Answers, count, is_some, shutdown, new_impl, set_up, init, encode_frame,
}

-- One start-up is open exactly while there is an Impl, and one transform is held exactly while it has one.
pub record Balanced (e : AacEncoder) : Type 0 where
  pub startups : e.startups ≡ e.shutdowns + count (is_some e.impl)
  pub activations : e.activations ≡ e.releases + count e.mft
  pub held : (not (is_some e.impl) && e.mft) ≡ false

shutdown-Balanced :
    (e : AacEncoder) → Balanced e → Balanced (shutdown e) × (is_some (shutdown e).impl ≡ false)
unfolding shutdown
shutdown-Balanced e b =
    if_cases (λ f. Balanced f × (is_some f.impl ≡ false)) (is_some e.impl) _ _
      (λ y. (
        record {
          startups = ground (arith, b.startups, y);
          activations = ground (arith, b.activations);
          held = refl;
        },
        refl,
      ))
      (λ n. (b, n))

set_up-Balanced :
    (a : Answers) (rate channels : ℕ) (e : AacEncoder)
    → Balanced e
    → is_some e.impl ≡ false
    → Balanced (set_up a rate channels e).0
      × (is_some (set_up a rate channels e).0.impl ≡ (set_up a rate channels e).1)
unfolding set_up
set_up-Balanced a rate channels e b n =
    let activated = a.enumerated && a.activate in
    let f = record e {
      impl = some (new_impl rate channels);
      mft = activated;
      startups = e.startups + 1;
      activations = e.activations + count activated;
    } in
    let g : Balanced f = record {
      startups = ground (arith, b.startups, n);
      activations = ground (arith, b.activations, b.held, n);
      held = refl;
    } in
    let s = shutdown-Balanced f g in
    if_cases (λ (r : AacEncoder × Bool). Balanced r.0 × (is_some r.0.impl ≡ r.1))
      (activated && a.create_media_type && a.set_input_type && a.choose_output && a.set_output_type)
      _ _ (λ y. (g, refl)) (λ m. s)

init-Balanced :
    (a : Answers) (rate channels : ℕ) (e : AacEncoder)
    → Balanced e
    → Balanced (init a rate channels e).0
      × (is_some (init a rate channels e).0.impl ≡ (init a rate channels e).1)
unfolding init
init-Balanced a rate channels e b =
    let (s, n) = shutdown-Balanced e b in
    if_cases (λ (r : AacEncoder × Bool). Balanced r.0 × (is_some r.0.impl ≡ r.1))
      (not (rate == 44100) && not (rate == 48000) || not a.startup) _ _ (λ y. (s, n))
      (λ m. set_up-Balanced a rate channels (shutdown e) s n)

encode-is_some :
    (i : Option Impl) (prepared taken : Bool) (outputs : Outputs) (samples : ℕ) (out : List ℕ)
    → is_some (encode i prepared taken outputs samples out).0 ≡ is_some i
unfolding encode
encode-is_some none prepared taken outputs samples out = refl
encode-is_some (some i) prepared taken outputs samples out = ground arith

pub data Operation : Type 0 where
  initializing : Answers → ℕ → ℕ → Operation
  encoding : Bool → Bool → Outputs → ℕ → Operation
  shutting_down : Operation

abbrev pub perform : Operation → AacEncoder → AacEncoder
perform (initializing a rate channels) e = (init a rate channels e).0
perform (encoding prepared taken outputs samples) e =
    (encode_frame prepared taken outputs samples [] e).0
perform shutting_down e = shutdown e

abbrev pub perform_all : List Operation → AacEncoder → AacEncoder
perform_all [] e = e
perform_all (c ∷ cs) e = perform_all cs (perform c e)

perform-Balanced : (c : Operation) (e : AacEncoder) → Balanced e → Balanced (perform c e)
unfolding encode_frame
perform-Balanced (initializing a rate channels) e b = (init-Balanced a rate channels e b).0
perform-Balanced (encoding prepared taken outputs samples) e b =
    let s = encode-is_some e.impl prepared taken outputs samples [] in
    record {
      startups = b.startups ∙ ap (λ p. e.shutdowns + count p) (sym s);
      activations = b.activations;
      held = ap (λ p. not p && e.mft) s ∙ b.held;
    }
perform-Balanced shutting_down e b = (shutdown-Balanced e b).0

-- After any sequence of Init, with any rate and whatever Media Foundation answers, Encode and Shutdown, from a balanced
-- encoder: one start-up of Media Foundation is open exactly while there is an Impl and one transform is held exactly while
-- it has one; and a last Shutdown leaves as many calls of MFShutdown as start-ups, and as many releases as
-- activations.
pub perform_all-Balanced :
    (cs : List Operation) (e : AacEncoder)
    → Balanced e
    → let f = shutdown (perform_all cs e) in
      Balanced (perform_all cs e) × (f.startups ≡ f.shutdowns) × (f.activations ≡ f.releases)
perform_all-Balanced cs e b =
    let g = go cs e b in
    let (s, n) = shutdown-Balanced (perform_all cs e) g in
    (g, ground (arith, s.startups, n), ground (arith, s.activations, s.held, n))
  where
    go : (cs : List Operation) (e : AacEncoder) → Balanced e → Balanced (perform_all cs e)
    go [] e b = b
    go (c ∷ cs) e b = go cs (perform c e) (perform-Balanced c e b)
