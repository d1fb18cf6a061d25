-- ===== src/Driver/Chains/Refine.antt =====
-- The maps of IndirectDeviceContext in driver/src/Driver.cpp against what they stand for: which swap-chain each monitor
-- shows, and for which adapters there is a device.
use m_extender.Prelude.{
  ℕ, ◌≡◌, ◌≢◌, refl, sym, ◌∙◌, ap, ap₂, inl, inr, Bool, true, false, ◌||◌, List, [], ◌∷◌, Option,
  none, some, ◌==◌, arith, if◌then◌else◌, if_true, if_false, Bool-cases, ==_iff,
}
use m_extender.Driver.Chains.{
  Context, find, put, erase, Released, swap_chain_deleted, released, get_or_create_device,
  with_device, assign_swap_chain, unassign_swap_chain,
}
use m_extender.Driver.Chains.Assigned.{
  Keyed, find-put, find-put_other, find-erase, find-erase_other, put-Keyed, erase-Keyed,
}

-- The calls of the two callbacks; `assigned` carries what Init of a new device would give.
pub data Callback : Type 0 where
  assigned : Option ℕ → ℕ → ℕ → ℕ → Callback
  unassigned : ℕ → Callback

abbrev pub step : Callback → Context → Context × Released
step (assigned init monitor swap_chain adapter) c =
    assign_swap_chain init monitor swap_chain adapter c
step (unassigned monitor) c = unassign_swap_chain monitor c

abbrev pub run : List Callback → Context → Context × List Released
run [] c = (c, [])
run (call ∷ calls) c = let r = step call c in let rest = run calls r.0 in (rest.0, r.1 ∷ rest.1)

-- What the maps stand for.
pub record Display : Type 0 where
  pub shown : ℕ → Option ℕ
  pub has_device : ℕ → Bool

abbrev pub is_some : Option ℕ → Bool
is_some none = false
is_some (some x) = true

abbrev pub update {ℓ} : {A : Type ℓ} → ℕ → A → (ℕ → A) → ℕ → A
update key value f other = if other == key then value else f other

-- A monitor shows what it is assigned, in place of what it showed, if the adapter has a device or one can be made.
abbrev pub display_step : Callback → Display → Display × Released
display_step (assigned init monitor swap_chain adapter) d =
    if d.has_device adapter || is_some init
    then (
      record {
        shown = update monitor (some swap_chain) d.shown;
        has_device = update adapter true d.has_device;
      },
      released (d.shown monitor),
    )
    else (d, swap_chain_deleted swap_chain)
display_step (unassigned monitor) d =
    (record d { shown = update monitor none d.shown }, released (d.shown monitor))

abbrev pub display_run : List Callback → Display → Display × List Released
display_run [] d = (d, [])
display_run (call ∷ calls) d =
    let r = display_step call d in let rest = display_run calls r.0 in (rest.0, r.1 ∷ rest.1)

pub record Represents (c : Context) (d : Display) : Type 0 where
  pub keyed : Keyed c.processors
  pub shown : (monitor : ℕ) → find monitor c.processors ≡ d.shown monitor
  pub has_device : (adapter : ℕ) → is_some (find adapter c.devices) ≡ d.has_device adapter

put_stands :
    (key value other : ℕ) (m : List (ℕ × ℕ)) (f : ℕ → Option ℕ)
    → ((k : ℕ) → find k m ≡ f k)
    → find other (put key value m) ≡ update key (some value) f other
put_stands key value other m f e = elim (Bool-cases (other == key)) [
  | inl y ↦
      let q : other ≡ key = (==_iff other key).0 y in
      ap (λ k. find k (put key value m)) q
      ∙ find-put key value m
      ∙ sym (if_true (other == key) _ _ y)
  | inr n ↦
      let q : other ≢ key = λ e. absurd (ground (arith, n, e)) in
      find-put_other key value other m q ∙ e other ∙ sym (if_false (other == key) _ _ n)
]

erase_stands :
    (key other : ℕ) (m : List (ℕ × ℕ)) (f : ℕ → Option ℕ)
    → Keyed m
    → ((k : ℕ) → find k m ≡ f k)
    → find other (erase key m) ≡ update key none f other
erase_stands key other m f d e = elim (Bool-cases (other == key)) [
  | inl y ↦
      let q : other ≡ key = (==_iff other key).0 y in
      ap (λ k. find k (erase key m)) q ∙ find-erase key m d ∙ sym (if_true (other == key) _ _ y)
  | inr n ↦
      let q : other ≢ key = λ e. absurd (ground (arith, n, e)) in
      find-erase_other key other m q ∙ e other ∙ sym (if_false (other == key) _ _ n)
]

-- One result and what it stands for: the same is released, and the maps still stand for the display.
abbrev pub Simulates : Context × Released → Display × Released → Type 0
Simulates r q = (r.1 ≡ q.1) × Represents r.0 q.0

served-Simulates :
    (monitor swap_chain device : ℕ) (c : Context) (d : Display) (has : ℕ → Bool)
    → Keyed c.processors
    → ((m : ℕ) → find m c.processors ≡ d.shown m)
    → ((a : ℕ) → is_some (find a c.devices) ≡ has a)
    → Simulates (with_device monitor swap_chain (c, some device)) (
      record { shown = update monitor (some swap_chain) d.shown; has_device = has },
      released (d.shown monitor),
    )
unfolding with_device
served-Simulates monitor swap_chain device c d has k s h = (
  ap released (s monitor),
  record {
    keyed = put-Keyed monitor swap_chain c.processors k;
    shown = λ m. put_stands monitor swap_chain m c.processors d.shown s;
    has_device = h;
  },
)

get_found :
    (init : Option ℕ) (adapter device : ℕ) (c : Context)
    → find adapter c.devices ≡ some device
    → get_or_create_device init adapter c ≡ (c, some device)
unfolding get_or_create_device
get_found init adapter device c e = rw (get_or_create_device, e) refl

get_created :
    (adapter device : ℕ) (c : Context)
    → find adapter c.devices ≡ none
    → get_or_create_device (some device) adapter c
      ≡ (record c { devices = put adapter device c.devices }, some device)
unfolding get_or_create_device
get_created adapter device c e = rw (get_or_create_device, e) refl

get_refused :
    (adapter : ℕ) (c : Context)
    → find adapter c.devices ≡ none
    → get_or_create_device none adapter c ≡ (c, none)
unfolding get_or_create_device
get_refused adapter c e = rw (get_or_create_device, e) refl

found_device :
    (adapter device : ℕ) (c : Context) (d : Display)
    → Represents c d
    → find adapter c.devices ≡ some device
    → (a : ℕ) → is_some (find a c.devices) ≡ update adapter true d.has_device a
found_device adapter device c d r e a = elim (Bool-cases (a == adapter)) [
  | inl y ↦
      ap (λ k. is_some (find k c.devices)) ((==_iff a adapter).0 y)
      ∙ ap is_some e
      ∙ sym (if_true (a == adapter) _ _ y)
  | inr n ↦ r.has_device a ∙ sym (if_false (a == adapter) _ _ n)
]

created_device :
    (adapter device : ℕ) (c : Context) (d : Display)
    → Represents c d
    → (a : ℕ) → is_some (find a (put adapter device c.devices)) ≡ update adapter true d.has_device a
created_device adapter device c d r a = elim (Bool-cases (a == adapter)) [
  | inl y ↦
      ap (λ k. is_some (find k (put adapter device c.devices))) ((==_iff a adapter).0 y)
      ∙ ap is_some (find-put adapter device c.devices)
      ∙ sym (if_true (a == adapter) _ _ y)
  | inr n ↦
      let q : a ≢ adapter = λ e. absurd (ground (arith, n, e)) in
      ap is_some (find-put_other adapter device a c.devices q)
      ∙ r.has_device a
      ∙ sym (if_false (a == adapter) _ _ n)
]

-- The display's side of an assignment, by whether there is or can be a device.
display_granted :
    (init : Option ℕ) (monitor swap_chain adapter : ℕ) (d : Display)
    → (d.has_device adapter || is_some init) ≡ true
    → display_step (assigned init monitor swap_chain adapter) d ≡ (
      record {
        shown = update monitor (some swap_chain) d.shown;
        has_device = update adapter true d.has_device;
      },
      released (d.shown monitor),
    )
display_granted init monitor swap_chain adapter d g =
    if_true (d.has_device adapter || is_some init) _ _ g

assigned-Simulates :
    (init o : Option ℕ) (monitor swap_chain adapter : ℕ) (c : Context) (d : Display)
    → Represents c d
    → find adapter c.devices ≡ o
    → Simulates
        (assign_swap_chain init monitor swap_chain adapter c)
        (display_step (assigned init monitor swap_chain adapter) d)
unfolding assign_swap_chain
assigned-Simulates init (some device) monitor swap_chain adapter c d r e =
    let h : d.has_device adapter ≡ true = sym (r.has_device adapter) ∙ ap is_some e in
    rw
      (
        get_found init adapter device c e,
        display_granted init monitor swap_chain adapter d (ground (arith, h)),
      )
      (served-Simulates monitor swap_chain device c d _ r.keyed r.shown
        (found_device adapter device c d r e))
assigned-Simulates (some device) none monitor swap_chain adapter c d r e =
    rw
      (
        get_created adapter device c e,
        display_granted (some device) monitor swap_chain adapter d (ground arith),
      )
      (served-Simulates monitor swap_chain device
        (record c { devices = put adapter device c.devices }) d _ r.keyed r.shown
        (created_device adapter device c d r))
assigned-Simulates none none monitor swap_chain adapter c d r e =
    let h : d.has_device adapter ≡ false = sym (r.has_device adapter) ∙ ap is_some e in
    rw (get_refused adapter c e, if_false (d.has_device adapter || false) _ _ (ground (arith, h)))
      (unfold with_device in (refl, r))

step-Simulates :
    (call : Callback) (c : Context) (d : Display)
    → Represents c d
    → Simulates (step call c) (display_step call d)
unfolding unassign_swap_chain
step-Simulates (assigned init monitor swap_chain adapter) c d r =
    assigned-Simulates init (find adapter c.devices) monitor swap_chain adapter c d r refl
step-Simulates (unassigned monitor) c d r = (
  ap released (r.shown monitor),
  record {
    keyed = erase-Keyed monitor c.processors r.keyed;
    shown = λ m. erase_stands monitor m c.processors d.shown r.keyed r.shown;
    has_device = r.has_device;
  },
)

-- Any sequence of assignments and unassignments, with or without a device for each, on maps with distinct monitors that
-- stand for a display: the same swap-chains are deleted and the same processors stopped, in the same order, as the
-- display's own steps say, and the maps stand for the display that these lead to.
pub run-Represents :
    (calls : List Callback) (c : Context) (d : Display)
    → Represents c d
    → ((run calls c).1 ≡ (display_run calls d).1)
      × Represents (run calls c).0 (display_run calls d).0
run-Represents [] c d r = (refl, r)
run-Represents (call ∷ calls) c d r =
    let s = step-Simulates call c d r in
    let t = run-Represents calls (step call c).0 (display_step call d).0 s.1 in
    (ap₂ (λ x l. x ∷ l) s.0 t.0, t.1)
