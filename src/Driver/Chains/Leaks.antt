-- ===== src/Driver/Chains/Leaks.antt =====
-- Every swap-chain that IndirectDeviceContext of driver/src/Driver.cpp is given is released, once.
use m_extender.Prelude.{
  ℕ, ◌+◌, ◌≡◌, refl, ap, ◌∙◌, inl, inr, List, [], ◌∷◌, Option, none, some, ◌==◌, arith,
  if◌then◌else◌, Bool-cases,
}
use m_extender.Driver.Chains.{
  Context, find, put, erase, Released, nothing, swap_chain_deleted, processor_stopped, released,
  get_or_create_device, with_device, assign_swap_chain, unassign_swap_chain, stop_all,
  destroy_context,
}
use m_extender.Driver.Chains.Refine.{Callback, assigned, unassigned, step, run}

-- Is it this one?
abbrev pub same : ℕ → ℕ → ℕ
same a b = if a == b then 1 else 0

-- How often a swap-chain is released, is in a map, and was assigned.
abbrev pub freed : ℕ → Released → ℕ
freed a nothing = 0
freed a (swap_chain_deleted s) = same a s
freed a (processor_stopped s) = same a s

abbrev pub times_freed : ℕ → List Released → ℕ
times_freed a [] = 0
times_freed a (r ∷ rs) = freed a r + times_freed a rs

abbrev pub held : ℕ → List (ℕ × ℕ) → ℕ
held a [] = 0
held a ((monitor, s) ∷ m) = same a s + held a m

abbrev pub given : ℕ → Callback → ℕ
given a (assigned init monitor s adapter) = same a s
given a (unassigned monitor) = 0

abbrev pub times_given : ℕ → List Callback → ℕ
times_given a [] = 0
times_given a (call ∷ calls) = given a call + times_given a calls

held-put :
    (a key value : ℕ) (m : List (ℕ × ℕ))
    → held a (put key value m) + freed a (released (find key m)) ≡ held a m + same a value
unfolding put find released
held-put a key value [] = omega arith
held-put a key value ((k, v) ∷ m) = elim (Bool-cases (k == key)) [
  | inl e ↦ rw e (omega arith)
  | inr e ↦ rw e (omega (arith, held-put a key value m))
]

held-erase :
    (a key : ℕ) (m : List (ℕ × ℕ))
    → held a (erase key m) + freed a (released (find key m)) ≡ held a m
unfolding erase find released
held-erase a key [] = omega arith
held-erase a key ((k, v) ∷ m) = elim (Bool-cases (k == key)) [
  | inl e ↦ rw e (omega arith)
  | inr e ↦ rw e (omega (arith, held-erase a key m))
]

-- A step frees what was held or given and is held no more.
abbrev Kept : ℕ → ℕ → Context → Context × Released → Type 0
Kept a new c (c', r) = held a c'.processors + freed a r ≡ held a c.processors + new

with_device-Kept :
    (a monitor s : ℕ) (c : Context) (r : Context × Option ℕ)
    → r.0.processors ≡ c.processors
    → Kept a (same a s) c (with_device monitor s r)
unfolding with_device
with_device-Kept a monitor s c (c', none) e = ap (λ m. held a m + same a s) e
with_device-Kept a monitor s c (c', some d) e =
    held-put a monitor s c'.processors ∙ ap (λ m. held a m + same a s) e

get_or_create_device-processors :
    (init : Option ℕ) (adapter : ℕ) (c : Context)
    → (get_or_create_device init adapter c).0.processors ≡ c.processors
unfolding get_or_create_device
get_or_create_device-processors init adapter c = ground arith

step-Kept : (a : ℕ) (call : Callback) (c : Context) → Kept a (given a call) c (step call c)
unfolding assign_swap_chain unassign_swap_chain
step-Kept a (assigned init monitor s adapter) c =
    with_device-Kept a monitor s c _ (get_or_create_device-processors init adapter c)
step-Kept a (unassigned monitor) c = omega (arith, held-erase a monitor c.processors)

run-held :
    (a : ℕ) (calls : List Callback) (c : Context)
    → held a (run calls c).0.processors + times_freed a (run calls c).1
      ≡ held a c.processors + times_given a calls
run-held a [] c = refl
run-held a (call ∷ calls) c = omega (arith, step-Kept a call c, run-held a calls (step call c).0)

times_freed-stop_all : (a : ℕ) (m : List (ℕ × ℕ)) → times_freed a (stop_all m) ≡ held a m
unfolding stop_all
times_freed-stop_all a [] = refl
times_freed-stop_all a ((k, v) ∷ m) = ap (λ n. same a v + n) (times_freed-stop_all a m)

-- Whatever calls the driver gets, with or without a device for each: by the end of the destructor every swap-chain
-- has been deleted, or has had its processor stopped, exactly as often as it was assigned in these calls or
-- had a processor before them; and no processor is left.
pub destroy_context-run :
    (a : ℕ) (calls : List Callback) (c : Context)
    → let (c', during) = run calls c in
      let (last, finally) = destroy_context c' in
      (times_freed a during + times_freed a finally ≡ held a c.processors + times_given a calls)
      × (last.processors ≡ [])
unfolding destroy_context
destroy_context-run a calls c =
    let c' = (run calls c).0 in
    (omega (arith, run-held a calls c, times_freed-stop_all a c'.processors), refl)
