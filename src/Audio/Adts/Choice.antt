-- ===== src/Audio/Adts/Choice.antt =====
-- ChooseOutputType of host/src/audio/aac.cpp.
use m_extender.Prelude.{
  ℕ, ◌/◌, ◌≤◌, ◌<◌, ◌≡◌, refl, true, ◌&&◌, List, [], ◌∷◌, Option, none, some, arith, All, ltb,
  Bool-cases, ◌⊎◌, inl, inr,
}
use m_extender.Audio.Adts.{OutputType, distance, suits, choose_loop, choose_output_type}

-- No type of the list that suits is closer than `bound` to the target.
abbrev pub NoneCloser : ℕ → ℕ → ℕ → ℕ → List OutputType → Type 0
NoneCloser rate channels target bound types =
    All (λ u. suits rate channels u ≡ true → bound ≤ distance u.bytes target) types

-- The type is one of the list.
abbrev pub Among : OutputType → List OutputType → Type 0
Among t [] = ⊥
Among t (u ∷ us) = (t ≡ u) ⊎ Among t us

-- What the choice gives: a type of the list that suits and that no other is closer than, or none when none
-- that suits is within the bound.
abbrev pub Chosen : ℕ → ℕ → ℕ → ℕ → List OutputType → Option OutputType → Type 0
Chosen rate channels target bound types none = NoneCloser rate channels target bound types
Chosen rate channels target bound types (some t) =
    Among t types
    × (suits rate channels t ≡ true)
    × NoneCloser rate channels target (distance t.bytes target) types

-- The difference that is kept is that of the type that is kept.
abbrev Kept : ℕ → ℕ → ℕ → ℕ → Option OutputType → Type 0
Kept rate channels target best_diff none = Unit {0}
Kept rate channels target best_diff (some t) =
    (suits rate channels t ≡ true) × (distance t.bytes target ≡ best_diff)

-- What the loop gives from the best type so far.
abbrev Result : ℕ → ℕ → ℕ → ℕ → List OutputType → Option OutputType → Option OutputType → Type 0
Result rate channels target bound types best none =
    (best ≡ none) × NoneCloser rate channels target bound types
Result rate channels target bound types best (some t) =
    ((best ≡ some t) ⊎ Among t types)
    × (suits rate channels t ≡ true)
    × (distance t.bytes target ≤ bound)
    × NoneCloser rate channels target (distance t.bytes target) types

module _ (rate channels target : ℕ) where
  skipped :
      (t : OutputType) (ts : List OutputType) (bound : ℕ) (best r : Option OutputType)
      → (suits rate channels t ≡ true → bound ≤ distance t.bytes target)
      → Result rate channels target bound ts best r
      → Result rate channels target bound (t ∷ ts) best r
  skipped t ts bound best none far h = (h.0, (far, h.1))
  skipped t ts bound best (some u) far (a, s, b, n) =
      (later t u ts best a, s, b, ((λ w. omega (arith, b, far w)), n))
    where
      later :
          (t u : OutputType) (ts : List OutputType) (best : Option OutputType)
          → (best ≡ some u) ⊎ Among u ts
          → (best ≡ some u) ⊎ ((u ≡ t) ⊎ Among u ts)
      later t u ts best (inl e) = inl e
      later t u ts best (inr m) = inr (inr m)

  taken :
      (t : OutputType) (ts : List OutputType) (bound : ℕ) (best r : Option OutputType)
      → distance t.bytes target < bound
      → Result rate channels target (distance t.bytes target) ts (some t) r
      → Result rate channels target bound (t ∷ ts) best r
  taken t ts bound best none near h = absurd (ground (arith, h.0))
  taken t ts bound best (some u) near (a, s, b, n) =
      (now t u ts best a, s, omega (arith, b, near), ((λ _. b), n))
    where
      now :
          (t u : OutputType) (ts : List OutputType) (best : Option OutputType)
          → (some t ≡ some u) ⊎ Among u ts
          → (best ≡ some u) ⊎ ((u ≡ t) ⊎ Among u ts)
      now t u ts best (inl e) = inr (inl (ground (arith, e)))
      now t u ts best (inr m) = inr (inr m)

  choose_loop_lem :
      (types : List OutputType) (best_diff : ℕ) (best : Option OutputType)
      → Kept rate channels target best_diff best
      → Result rate channels target best_diff types best
          (choose_loop rate channels target types best_diff best)
  unfolding choose_loop
  choose_loop_lem [] best_diff none k = (refl, tt)
  choose_loop_lem [] best_diff (some t) k = (inl refl, k.0, omega (arith, k.1), tt)
  choose_loop_lem (t ∷ ts) best_diff best k =
      let d = distance t.bytes target in
      elim (Bool-cases (suits rate channels t && ltb d best_diff)) [
        | inl y ↦
            let s : suits rate channels t ≡ true = ground (arith, y) in
            let l : d < best_diff = ground (arith, y) in
            rw y (taken t ts best_diff best _ l (choose_loop_lem ts d (some t) (s, refl)))
        | inr f ↦ rw f (
            skipped t ts best_diff best _ (λ s. ground (arith, f, s))
              (choose_loop_lem ts best_diff best k))
      ]

chosen :
    (rate channels target : ℕ) (types : List OutputType) (r : Option OutputType)
    → Result rate channels target 2147483647 types none r
    → Chosen rate channels target 2147483647 types r
chosen rate channels target types none h = h.1
chosen rate channels target types (some t) (inl e, s, b, n) = absurd (ground (arith, e))
chosen rate channels target types (some t) (inr m, s, b, n) = (m, s, n)

-- For whatever types the transform offers: the choice is one of them with the rate and the channels asked for, and
-- none that suits is closer to the bitrate; there is no choice only if none that suits is within
-- 2147483646 bytes per second of it.
pub choose_output_type_lem :
    (rate channels bitrate_bps : ℕ) (types : List OutputType)
    → Chosen rate channels
        (bitrate_bps / 8)
        2147483647
        types
        (choose_output_type rate channels bitrate_bps types)
unfolding choose_output_type
choose_output_type_lem rate channels bitrate_bps types =
    chosen rate channels (bitrate_bps / 8) types _
      (choose_loop_lem rate channels (bitrate_bps / 8) types 2147483647 none tt)
