-- ===== src/Driver/Chains/Assigned.antt =====
-- Which processor serves which monitor in driver/src/Driver.cpp.
use m_extender.Prelude.{
  ℕ, ◌≡◌, ◌≢◌, ◌⊎◌, inl, inr, refl, ◌∙◌, ap, List, [], ◌∷◌, Option, none, some, ◌==◌, arith,
  Bool-cases, ==_iff, subst, Option-cases,
}
use m_extender.Driver.Chains.{
  Context, find, put, erase, swap_chain_deleted, released, get_or_create_device, with_device,
  assign_swap_chain, unassign_swap_chain,
}

-- The keys of a map are distinct.
abbrev pub Keyed : List (ℕ × ℕ) → Type 0
Keyed [] = Unit
Keyed ((k, v) ∷ m) = (find k m ≡ none) × Keyed m

pub find-put : (key value : ℕ) (m : List (ℕ × ℕ)) → find key (put key value m) ≡ some value
unfolding find put
find-put key value [] = ground arith
find-put key value ((k, v) ∷ m) = ground (arith, find-put key value m)

pub find-put_other :
    (key value other : ℕ) (m : List (ℕ × ℕ))
    → other ≢ key
    → find other (put key value m) ≡ find other m
unfolding find put
find-put_other key value other [] n = ground (arith, n)
find-put_other key value other ((k, v) ∷ m) n =
    ground (arith, n, find-put_other key value other m n)

pub find-erase_other :
    (key other : ℕ) (m : List (ℕ × ℕ)) → other ≢ key → find other (erase key m) ≡ find other m
unfolding find erase
find-erase_other key other [] n = refl
find-erase_other key other ((k, v) ∷ m) n = ground (arith, n, find-erase_other key other m n)

pub find-erase : (key : ℕ) (m : List (ℕ × ℕ)) → Keyed m → find key (erase key m) ≡ none
unfolding find erase
find-erase key [] d = refl
find-erase key ((k, v) ∷ m) d = ground (arith, d.0, find-erase key m d.1)

pub put-Keyed : (key value : ℕ) (m : List (ℕ × ℕ)) → Keyed m → Keyed (put key value m)
unfolding put find
put-Keyed key value [] d = (refl, tt)
put-Keyed key value ((k, v) ∷ m) d = elim (Bool-cases (k == key)) [
  | inl t ↦ let e : k ≡ key = (==_iff k key).0 t in rw t (subst (λ x. find x m ≡ none) e d.0, d.1)
  | inr f ↦
      let n : k ≢ key = λ e. absurd (ground (arith, f, e)) in
      rw f (find-put_other key value k m n ∙ d.0, put-Keyed key value m d.1)
]

pub erase-Keyed : (key : ℕ) (m : List (ℕ × ℕ)) → Keyed m → Keyed (erase key m)
unfolding erase
erase-Keyed key [] d = tt
erase-Keyed key ((k, v) ∷ m) d = elim (Bool-cases (k == key)) [
  | inl t ↦ rw t d.1
  | inr f ↦
      let n : k ≢ key = λ e. absurd (ground (arith, f, e)) in
      rw f (find-erase_other key k m n ∙ d.0, erase-Keyed key m d.1)
]

-- A device is found or not, and the processors are left alone.
get_or_create_device_lem :
    (init : Option ℕ) (adapter : ℕ) (c : Context)
    → (((get_or_create_device init adapter c) ≡ (c, none)) × (init ≡ none))
      ⊎ ((d : ℕ) × (c' : Context) × (get_or_create_device init adapter c ≡ (c', some d))
          × (c'.processors ≡ c.processors))
unfolding get_or_create_device
get_or_create_device_lem init adapter c = elim (Option-cases (find adapter c.devices)) [
  | inr (d, e) ↦ rw (e, get_or_create_device) (inr (d, c, refl, refl))
  | inl n ↦
      rw (n, get_or_create_device)
        (elim (Option-cases init) [
          | inl i ↦ rw i (inl (refl, refl))
          | inr (d, e) ↦ rw e (inr (d, record c { devices = put adapter d c.devices }, refl, refl))
        ])
]

with_none :
    (monitor swap_chain : ℕ) (c : Context)
    → with_device monitor swap_chain (c, none) ≡ (c, swap_chain_deleted swap_chain)
unfolding with_device
with_none monitor swap_chain c = refl

with_some :
    (monitor swap_chain d : ℕ) (c c' : Context)
    → c'.processors ≡ c.processors
    → Keyed c.processors
    → let r = with_device monitor swap_chain (c', some d) in
      (find monitor r.0.processors ≡ some swap_chain)
      × ((other : ℕ) → other ≢ monitor → find other r.0.processors ≡ find other c.processors)
      × Keyed r.0.processors
      × (r.1 ≡ released (find monitor c.processors))
unfolding with_device
with_some monitor swap_chain d c c' p k = simp p (
  find-put monitor swap_chain c.processors,
  (λ other n. find-put_other monitor swap_chain other c.processors n),
  put-Keyed monitor swap_chain c.processors k,
  refl,
)

-- Assigning a swap-chain with a device that could be had: the monitor is served by it, every other monitor as
-- before, the keys stay distinct, and the processor that served the monitor, if any, is stopped. Without a
-- device nothing changes, and the swap-chain is deleted.
pub assign_swap_chain_lem :
    (init : Option ℕ) (monitor swap_chain adapter : ℕ) (c : Context)
    → Keyed c.processors
    → let r = assign_swap_chain init monitor swap_chain adapter c in
      ((r ≡ (c, swap_chain_deleted swap_chain)) × (init ≡ none))
      ⊎ ((find monitor r.0.processors ≡ some swap_chain)
          × ((other : ℕ) → other ≢ monitor → find other r.0.processors ≡ find other c.processors)
          × Keyed r.0.processors
          × (r.1 ≡ released (find monitor c.processors)))
unfolding assign_swap_chain
assign_swap_chain_lem init monitor swap_chain adapter c k =
    elim (get_or_create_device_lem init adapter c) [
      | inl (e, i) ↦ inl (ap (with_device monitor swap_chain) e ∙ with_none monitor swap_chain c, i)
      | inr (d, c', e, p) ↦ inr (rw e (with_some monitor swap_chain d c c' p k))
    ]

-- Unassigning stops the processor of the monitor, if any; afterwards none serves it, and every other monitor is
-- served as before.
pub unassign_swap_chain_lem :
    (monitor : ℕ) (c : Context)
    → Keyed c.processors
    → let r = unassign_swap_chain monitor c in
      (find monitor r.0.processors ≡ none)
      × ((other : ℕ) → other ≢ monitor → find other r.0.processors ≡ find other c.processors)
      × Keyed r.0.processors
      × (r.1 ≡ released (find monitor c.processors))
unfolding unassign_swap_chain
unassign_swap_chain_lem monitor c k = (
  find-erase monitor c.processors k,
  (λ other n. find-erase_other monitor other c.processors n),
  erase-Keyed monitor c.processors k,
  refl,
)
