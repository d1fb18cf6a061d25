-- ===== src/Examples/Options.antt =====
-- option.txt, read by driver/src/Driver.cpp, at a concrete file.
use m_extender.Prelude.{
  ℕ, ◌-◌, ◌≡◌, ◌≢◌, refl, [], ◌∷◌, List, some, map, arith, ◌+◌, ◌*◌, leb, ltb, ◌&&◌, if◌then◌else◌,
}
use m_extender.Prelude.Int.{ℤ, pos}
use m_extender.Driver.Options.{display_count, if_any, line_feed, load_options, load_configuration}
use m_extender.Driver.Options.File.{
  Spec, mode, comment, blank, joined, text_of, modes_of, load_options-joined,
}
use m_extender.Driver.Options.Offers.{Offers, load_configuration-Offers}

-- Decimal digits, up to the first character that is none.
abbrev digits : ℕ → List ℕ → ℕ
digits n [] = n
digits n (c ∷ cs) =
    let rest = digits (10 * n + (c - 48)) cs in if leb 48 c && ltb c 58 then rest else n

abbrev atoi : List ℕ → ℤ
atoi cs = pos (digits 0 cs)

abbrev rate : List ℕ → ℕ
rate cs = 10000 * digits 0 cs

-- 640,480,60
abbrev vga : Spec
vga = record { width = 54 ∷ 52 ∷ 48 ∷ []; height = 52 ∷ 56 ∷ 48 ∷ []; rate = 54 ∷ 48 ∷ [] }

something : {A : Type 0} (a : A) (as' : List A) → (a ∷ as') ≢ []
something a as' e = absurd (ground (arith, e))

load_options-joined_example :
    load_options atoi rate (
      some (
        joined line_feed
          (50 ∷ [])
          (map text_of (comment [] (33 ∷ []) ∷ mode (32 ∷ []) vga ∷ blank (9 ∷ []) ∷ []))))
    ≡ (
      display_count (atoi (50 ∷ [])),
      if_any (modes_of atoi rate (comment [] (33 ∷ []) ∷ mode (32 ∷ []) vga ∷ blank (9 ∷ []) ∷ [])),
    )
load_options-joined_example =
    load_options-joined atoi rate (50 ∷ [])
      (comment [] (33 ∷ []) ∷ mode (32 ∷ []) vga ∷ blank (9 ∷ []) ∷ []) ((refl, tt), something _ _)
      (
        (tt, ((refl, (refl, tt)), something _ _)),
        (
          (
            (refl, tt),
            record {
              starts = (refl, refl);
              width = ((refl, (refl, (refl, tt))), something _ _);
              height = ((refl, (refl, (refl, tt))), something _ _);
              rate = ((refl, (refl, tt)), something _ _);
              line = (
                (refl, (refl, (refl, (refl, (refl, (refl, (refl, (refl, (refl, (refl, tt)))))))))),
                something _ _,
              );
            },
            (
              (
                refl,
                (refl, (refl, (refl, (refl, (refl, (refl, (refl, (refl, (refl, (refl, tt)))))))))),
              ),
              something _ _,
            ),
          ),
          (((refl, tt), ((refl, tt), something _ _)), tt),
        ),
      )

load_configuration-Offers_example :
    Offers (load_configuration atoi rate [] (some (48 ∷ 10 ∷ 35 ∷ [])))
load_configuration-Offers_example =
    load_configuration-Offers atoi rate [] (some (48 ∷ 10 ∷ 35 ∷ []))
