-- ===== src/Driver/Adapter/Bound.antt =====
-- Which objects of driver/src/Driver.cpp reach the context of the device, and what the callbacks then answer.
use m_extender.Prelude.{
  ℕ, zero, suc, ◌+◌, ◌≡◌, refl, sym, subst, ◌∙◌, ap, true, ◌&&◌, List, [], ◌∷◌, ◌++◌, Option, none,
  some, arith, All, append_assoc, append-nil, if_true, Bool-cases, inl, inr, ◌==◌, ==_iff,
}
use m_extender.Driver.Chains.{Context, Released}
use m_extender.Driver.Chains.Refine.{
  Callback, assigned, unassigned, step, run, Display, display_run, Represents, run-Represents,
}
use m_extender.Driver.Adapter.{
  Device, Answers, Status, success, wrap, monitor_created, create_monitor, create_monitors,
  finish_init, reaches, monitor_assign_swap_chain, monitor_unassign_swap_chain,
  adapter_init_finished,
}

abbrev pub some_first : Option ℕ → List ℕ → List ℕ
some_first none objects = objects
some_first (some object) objects = object ∷ objects

-- The handles of the monitors that can be created, among `n` from index i on.
abbrev pub created : Answers → ℕ → ℕ → List ℕ
created a zero i = []
created a (suc n) i = some_first (a.monitor_create i) (created a n (i + 1))

abbrev pub Reached : Device → List ℕ → Type 0
Reached d objects = All (λ o. reaches o d.wrapped ≡ true) objects

-- Growing: nothing that is reached is lost, and the context of the device stays.
pub record Grows (d f : Device) : Type 0 where
  pub present : f.present ≡ d.present
  pub context : f.context ≡ d.context
  pub reached : (o : ℕ) → reaches o d.wrapped ≡ true → reaches o f.wrapped ≡ true

Grows-trans : (d e f : Device) → Grows d e → Grows e f → Grows d f
Grows-trans d e f g h = record {
  present = h.present ∙ g.present;
  context = h.context ∙ g.context;
  reached = λ o r. h.reached o (g.reached o r);
}

wrap-Grows : (a : Answers) (object : ℕ) (d : Device) → Grows d (wrap a object d)
unfolding wrap reaches
wrap-Grows a object d = record {
  present = ground arith;
  context = ground arith;
  reached = λ o r. ground (arith, r);
}

wrap-reaches :
    (a : Answers) (object : ℕ) (d : Device)
    → a.has_wrapper object ≡ true
    → reaches object (wrap a object d).wrapped ≡ true
unfolding wrap reaches
wrap-reaches a object d h = ground (arith, h)

wrap-monitors : (a : Answers) (object : ℕ) (d : Device) → (wrap a object d).monitors ≡ d.monitors
unfolding wrap
wrap-monitors a object d = ground arith

-- The monitors of a run of CreateMonitor: those that can be created, in the order of their connectors, each reached.
record Made (d f : Device) (objects : List ℕ) : Type 0 where
  grows : Grows d f
  monitors : f.monitors ≡ d.monitors ++ objects
  reached : Reached f objects

Reached-Grows :
    (d f : Device) (objects : List ℕ) → Grows d f → Reached d objects → Reached f objects
Reached-Grows d f [] g r = tt
Reached-Grows d f (o ∷ objects) g (x, r) = (g.reached o x, Reached-Grows d f objects g r)

Reached-append : (d : Device) (xs ys : List ℕ) → Reached d xs → Reached d ys → Reached d (xs ++ ys)
Reached-append d [] ys p q = q
Reached-append d (x ∷ xs) ys (r, p) q = (r, Reached-append d xs ys p q)

Made-trans : (d e f : Device) (xs ys : List ℕ) → Made d e xs → Made e f ys → Made d f (xs ++ ys)
Made-trans d e f xs ys m n = record {
  grows = Grows-trans d e f m.grows n.grows;
  monitors = n.monitors ∙ ap (λ l. l ++ ys) m.monitors ∙ append_assoc d.monitors xs ys;
  reached = Reached-append f xs ys (Reached-Grows e f xs n.grows m.reached) n.reached;
}

module _ (a : Answers) (wrappers : (object : ℕ) → a.has_wrapper object ≡ true) where
  monitor_created-Made :
      (o : Option ℕ) (d : Device) → Made d (monitor_created a o d) (some_first o [])
  unfolding monitor_created
  monitor_created-Made none d = record {
    grows = record { present = refl; context = refl; reached = λ o r. r };
    monitors = sym (append-nil d.monitors);
    reached = tt;
  }
  monitor_created-Made (some object) d =
      let e = record d { monitors = d.monitors ++ object ∷ [] } in
      let g = wrap-Grows a object e in
      record {
        grows = record { present = g.present; context = g.context; reached = g.reached };
        monitors = wrap-monitors a object e;
        reached = (wrap-reaches a object e (wrappers object), tt);
      }

  first-append : (o : Option ℕ) (ys : List ℕ) → some_first o [] ++ ys ≡ some_first o ys
  first-append none ys = refl
  first-append (some object) ys = refl

  create_monitors-Made : (n i : ℕ) (d : Device) → Made d (create_monitors a n i d) (created a n i)
  unfolding create_monitors create_monitor
  create_monitors-Made zero i d = record {
    grows = record { present = refl; context = refl; reached = λ o r. r };
    monitors = sym (append-nil d.monitors);
    reached = tt;
  }
  create_monitors-Made (suc n) i d =
      let o = a.monitor_create i in
      let e = monitor_created a o d in
      subst (Made d (create_monitors a n (i + 1) e)) (first-append o (created a n (i + 1))) (
        Made-trans d e (create_monitors a n (i + 1) e) (some_first o []) (created a n (i + 1))
          (monitor_created-Made o d) (create_monitors-Made n (i + 1) e))

-- The callbacks of the framework for a swap-chain.
abbrev pub call_back : Callback → Device → Device × Released × Status
call_back (assigned init monitor swap_chain luid) d =
    monitor_assign_swap_chain init monitor swap_chain luid d
call_back (unassigned monitor) d = monitor_unassign_swap_chain monitor d

abbrev pub call_all : List Callback → Device → Device × List (Released × Status)
call_all [] d = (d, [])
call_all (c ∷ cs) d =
    let r = call_back c d in let rest = call_all cs r.0 in (rest.0, (r.1, r.2) ∷ rest.1)

abbrev pub monitor_of : Callback → ℕ
monitor_of (assigned init monitor swap_chain luid) = monitor
monitor_of (unassigned monitor) = monitor

-- A callback is for one of some monitors.
abbrev pub IsFor : List ℕ → Callback → Type 0
IsFor monitors c = reaches (monitor_of c) monitors ≡ true

abbrev pub all_success : List Released → List (Released × Status)
all_success [] = []
all_success (r ∷ rs) = (r, success) ∷ all_success rs

call_back-step :
    (c : Callback) (d : Device)
    → d.present ≡ true
    → reaches (monitor_of c) d.wrapped ≡ true
    → call_back c d ≡ (record d { context = (step c d.context).0 }, (step c d.context).1, success)
unfolding monitor_assign_swap_chain monitor_unassign_swap_chain
call_back-step (assigned init monitor swap_chain luid) d p r =
    if_true (d.present && reaches monitor d.wrapped) _ _ (ground (arith, p, r))
call_back-step (unassigned monitor) d p r =
    if_true (d.present && reaches monitor d.wrapped) _ _ (ground (arith, p, r))

call_all-run :
    (cs : List Callback) (d : Device)
    → d.present ≡ true
    → All (λ c. reaches (monitor_of c) d.wrapped ≡ true) cs
    → call_all cs d
      ≡ (record d { context = (run cs d.context).0 }, all_success (run cs d.context).1)
call_all-run [] d p a = refl
call_all-run (c ∷ cs) d p a =
    let e = record d { context = (step c d.context).0 } in
    let rest = call_all-run cs e p a.1 in
    ap (λ (r : Device × Released × Status). let q = call_all cs r.0 in (q.0, (r.1, r.2) ∷ q.1))
      (call_back-step c d p a.0)
    ∙ ap (λ (q : Device × List (Released × Status)). (q.0, ((step c d.context).1, success) ∷ q.1))
        rest

Reached-one :
    (d : Device) (objects : List ℕ) (o : ℕ)
    → Reached d objects
    → reaches o objects ≡ true
    → reaches o d.wrapped ≡ true
unfolding reaches
Reached-one d [] o r h = absurd (ground (arith, h))
Reached-one d (x ∷ objects) o (y, r) h = elim (Bool-cases (o == x)) [
  | inl same ↦ subst (λ z. reaches z d.wrapped ≡ true) (sym ((==_iff o x).0 same)) y
  | inr other ↦ Reached-one d objects o r (ground (arith, other, h))
]

Reached-All :
    (d : Device) (objects : List ℕ) (cs : List Callback)
    → Reached d objects
    → All (IsFor objects) cs
    → All (λ c. reaches (monitor_of c) d.wrapped ≡ true) cs
Reached-All d objects [] r a = tt
Reached-All d objects (c ∷ cs) r a =
    (Reached-one d objects (monitor_of c) r a.0, Reached-All d objects cs r a.1)

-- The state after the callbacks, what they released and their statuses, against a display.
abbrev pub Shows : Device × List (Released × Status) → Display × List Released → Type 0
Shows q e = (q.1 ≡ all_success e.1) × Represents q.0.context e.0

-- When the adapter's initialisation succeeds, on a device whose context the adapter reaches, every object has a wrapper
-- and the context's maps stand for a display: the monitors are those before and then each that can be created, one
-- for each connector below the display count, in their order. Any sequence of assignments and unassignments of
-- swap-chains for these new monitors then returns success each time, releases what the display's own steps say,
-- in their order, and leaves maps that stand for the display that these lead to. In the display's steps an
-- assignment puts the swap-chain in place of what the monitor showed if its adapter has a device or one can be
-- made, and else deletes it; an unassignment leaves the monitor with nothing.
pub adapter_init_finished_lem :
    (a : Answers) (object : ℕ) (d : Device) (shown : Display) (cs : List Callback)
    → ((object : ℕ) → a.has_wrapper object ≡ true)
    → d.present ≡ true
    → reaches object d.wrapped ≡ true
    → Represents d.context shown
    → All (IsFor (created a d.display_count 0)) cs
    → let f = (adapter_init_finished a true object d).0 in
      (f.monitors ≡ d.monitors ++ created a d.display_count 0)
      × Shows (call_all cs f) (display_run cs shown)
unfolding adapter_init_finished finish_init
adapter_init_finished_lem a object d shown cs wrappers p r s for_these =
    let m = create_monitors-Made a wrappers d.display_count 0 d in
    let f = create_monitors a d.display_count 0 d in
    let new = created a d.display_count 0 in
    let (released, stands) = run-Represents cs d.context shown s in
    let called : call_all cs f
        ≡ (record f { context = (run cs d.context).0 }, all_success (run cs d.context).1) =
      call_all-run cs f (m.grows.present ∙ p) (Reached-All f new cs m.reached for_these)
      ∙ ap (λ (c : Context). (record f { context = (run cs c).0 }, all_success (run cs c).1))
          m.grows.context in
    subst
      (λ (x : Device × Status).
        (x.0.monitors ≡ d.monitors ++ new) × Shows (call_all cs x.0) (display_run cs shown))
      (sym (
        if_true (d.present && reaches object d.wrapped) (f, success) (d, success)
          (ground (arith, p, r))))
      (
        m.monitors,
        subst (λ (q : Device × List (Released × Status)). Shows q (display_run cs shown))
            (sym called) (ap all_success released, stands),
      )
