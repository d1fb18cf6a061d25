-- ===== src/Driver/Options/Offers.antt =====
-- What LoadConfiguration of driver/src/Driver.cpp offers, whatever is in the file.
use m_extender.Prelude.{ℕ, ◌≤◌, List, [], ◌∷◌, Option, none, some, arith, length}
use m_extender.Prelude.Int.{ℤ, pos, negsuc}
use m_extender.Driver.Modes.{known_modes, fallback_modes}
use m_extender.Driver.Options.{
  line_feed, Mode, split, line_modes, display_count, if_any, load_lines, load_options,
  Configuration, configured_with, load_configuration,
}

-- At least one display and at least one mode.
abbrev pub Offers : Configuration → Type 0
Offers c = (1 ≤ c.m_display_count) × (1 ≤ length c.known_monitor_modes)

display_count-pos : (z : ℤ) → 1 ≤ display_count z
display_count-pos (pos n) = omega arith
display_count-pos (negsuc n) = omega arith

configured_with-Offers :
    (edid : List ℕ) (count : ℕ) (modes : List Mode)
    → 1 ≤ count
    → Offers (configured_with edid (count, if_any modes))
unfolding configured_with known_modes fallback_modes
configured_with-Offers edid count [] l = (omega arith, omega arith)
configured_with-Offers edid count (m ∷ modes) l = (l, omega arith)

module _ (atoi : List ℕ → ℤ) (rate : List ℕ → ℕ) where
  load_lines-Offers :
      (edid : List ℕ) (lines : List (List ℕ))
      → Offers (configured_with edid (load_lines atoi rate lines))
  unfolding load_lines
  load_lines-Offers edid [] = configured_with-Offers edid 1 [] (omega arith)
  load_lines-Offers edid (line ∷ lines) =
      configured_with-Offers edid (display_count (atoi line)) (line_modes atoi rate lines)
        (display_count-pos (atoi line))

  -- Whatever the file holds, or when it cannot be opened: the driver offers at least one display and at least one mode.
  pub load_configuration-Offers :
      (edid : List ℕ) (file : Option (List ℕ)) → Offers (load_configuration atoi rate edid file)
  unfolding load_configuration load_options
  load_configuration-Offers edid none = configured_with-Offers edid 1 [] (omega arith)
  load_configuration-Offers edid (some file) = load_lines-Offers edid (split file line_feed)
