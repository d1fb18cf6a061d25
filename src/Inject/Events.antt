-- ===== src/Inject/Events.antt =====
-- The events of a batch of host/src/input/inject.cpp, in their order.
use m_extender.Prelude.{
  ℕ, ◌<◌, ◌^◌, ◌≡◌, refl, ap, ap₂, ◌∙◌, List, [], ◌∷◌, ◌++◌, length, drop, arith, All, append_assoc,
  sym,
}
use m_extender.Wire.{InputEvent, encode_event, decode_event, le, field, un_le}
use m_extender.Wire.RoundTrip.{EventFits, decode_event-encode_event}
use m_extender.Inject.{Injector, VirtualScreen, Call, inject_event, inject_events, inject_batch}

-- The bytes of the events, and the calls that they stand for.
abbrev pub encode_events : List InputEvent → List ℕ
encode_events [] = []
encode_events (e ∷ es) = encode_event e ++ encode_events es

abbrev pub calls : Injector → VirtualScreen → List InputEvent → List Call
calls inj vs [] = []
calls inj vs (e ∷ es) = inject_event inj vs e ++ calls inj vs es

encode_events-append :
    (xs ys : List InputEvent) → encode_events (xs ++ ys) ≡ encode_events xs ++ encode_events ys
encode_events-append [] ys = refl
encode_events-append (x ∷ xs) ys =
    ap (λ l. encode_event x ++ l) (encode_events-append xs ys)
    ∙ sym (append_assoc (encode_event x) (encode_events xs) (encode_events ys))

calls-append :
    (inj : Injector) (vs : VirtualScreen) (xs ys : List InputEvent)
    → calls inj vs (xs ++ ys) ≡ calls inj vs xs ++ calls inj vs ys
calls-append inj vs [] ys = refl
calls-append inj vs (x ∷ xs) ys =
    ap (λ l. inject_event inj vs x ++ l) (calls-append inj vs xs ys)
    ∙ sym (append_assoc (inject_event inj vs x) (calls inj vs xs) (calls inj vs ys))

All-append :
    (P : InputEvent → Type 0) (xs ys : List InputEvent) → All P xs → All P ys → All P (xs ++ ys)
All-append P [] ys p q = q
All-append P (x ∷ xs) ys p q = (p.0, All-append P xs ys p.1 q)

drop-encode_event : (e : InputEvent) (m : List ℕ) → drop 12 (encode_event e ++ m) ≡ m
unfolding encode_event
drop-encode_event e m = refl

inject_events-encode_events :
    (inj : Injector) (vs : VirtualScreen) (es : List InputEvent) (beyond : List ℕ)
    → All EventFits es
    → inject_events inj vs (length es) (encode_events es ++ beyond) ≡ calls inj vs es
unfolding inject_events
inject_events-encode_events inj vs [] beyond f = refl
inject_events-encode_events inj vs (e ∷ es) beyond f =
    let m = encode_events es ++ beyond in
    ap (λ l. inject_event inj vs (decode_event l) ++ inject_events inj vs (length es) (drop 12 l))
      (append_assoc (encode_event e) (encode_events es) beyond)
    ∙ ap₂ (λ k l. inject_event inj vs k ++ inject_events inj vs (length es) l)
        (decode_event-encode_event e m f.0) (drop-encode_event e m)
    ∙ ap (λ l. inject_event inj vs e ++ l) (inject_events-encode_events inj vs es beyond f.1)

field-le : (n : ℕ) (rest : List ℕ) → n < 2 ^ 32 → field 0 4 (le 4 n ++ rest) ≡ n
unfolding field le un_le
field-le n rest h = omega arith

drop-le : (n : ℕ) (rest : List ℕ) → drop 4 (le 4 n ++ rest) ≡ rest
unfolding le
drop-le n rest = refl

-- A batch of fewer than 2 ^ 32 well-formed events makes exactly the calls of its events, in order, and
-- nothing of the memory behind it matters.
pub inject_batch_lem :
    (inj : Injector) (vs : VirtualScreen) (es : List InputEvent) (beyond : List ℕ)
    → length es < 2 ^ 32
    → All EventFits es
    → inject_batch inj vs (le 4 (length es) ++ (encode_events es ++ beyond)) ≡ calls inj vs es
unfolding inject_batch
inject_batch_lem inj vs es beyond b f =
    let m = encode_events es ++ beyond in
    ap₂ (λ n l. inject_events inj vs n l) (field-le (length es) m b) (drop-le (length es) m)
    ∙ inject_events-encode_events inj vs es beyond f

-- The fault: the count is not checked against the payload. A batch of `inside` whose count also covers
-- the events that the memory behind it happens to hold makes the calls of both.
pub inject_batch_overread :
    (inj : Injector) (vs : VirtualScreen) (inside outside : List InputEvent) (beyond : List ℕ)
    → length (inside ++ outside) < 2 ^ 32
    → All EventFits inside
    → All EventFits outside
    → inject_batch inj vs (
        le 4 (length (inside ++ outside))
        ++ (encode_events inside ++ (encode_events outside ++ beyond)))
      ≡ calls inj vs inside ++ calls inj vs outside
inject_batch_overread inj vs ins out beyond b f g =
    ap (λ l. inject_batch inj vs (le 4 (length (ins ++ out)) ++ l))
      (sym (append_assoc (encode_events ins) (encode_events out) beyond)
        ∙ ap (λ l. l ++ beyond) (sym (encode_events-append ins out)))
    ∙ inject_batch_lem inj vs (ins ++ out) beyond b (All-append EventFits ins out f g)
    ∙ calls-append inj vs ins out
