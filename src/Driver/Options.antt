-- ===== src/Driver/Options.antt =====
-- LoadOptions and LoadConfiguration of driver/src/Driver.cpp: option.txt and the modes that the driver offers. The file
-- is a list of characters, with a line feed at each line's end; `atoi` and `rate`, which is lround of the
-- 10000-fold of atof, are parameters.
pub mod File
pub mod Offers
use m_extender.Prelude.{
  ℕ, zero, suc, ◌-◌, Bool, true, false, not, ◌||◌, List, [], ◌∷◌, ◌++◌, Option, none, some, length,
  max, ◌==◌, if◌then◌else◌,
}
use m_extender.Prelude.Int.{ℤ, pos, negsuc}
use m_extender.Prelude.Words.{u32}
use m_extender.Driver.Modes.{TargetMode, spec_mode, fallback_modes, known_modes}
use m_extender.Driver.Edid.{with_checksum}

abbrev pub line_feed : ℕ
line_feed = 10

abbrev pub comma : ℕ
comma = 44

abbrev pub hash : ℕ
hash = 35

abbrev pub Mode : Type 0
Mode = ℕ × ℕ × ℕ × ℕ

-- The end of the input: a part of which nothing was read is none.
unfoldable pub last_part : List ℕ → List (List ℕ)
last_part [] = []
last_part (i ∷ item) = (i ∷ item) ∷ []

-- split: what std::getline reads with a delimiter, until it reads nothing; `item` is the part read so far.
unfoldable pub split_from : ℕ → List ℕ → List ℕ → List (List ℕ)
unfolding last_part
split_from delimiter item [] = last_part item
split_from delimiter item (c ∷ cs) =
    let next = split_from delimiter [] cs in
    let more = split_from delimiter (item ++ c ∷ []) cs in
    if c == delimiter then item ∷ next else more

unfoldable pub split : List ℕ → ℕ → List (List ℕ)
unfolding split_from
split input delimiter = split_from delimiter [] input

-- The characters of find_first_not_of.
abbrev pub is_space : ℕ → Bool
is_space c = c == 32 || c == 9 || c == 13 || c == 10

-- substr from the first of the others, or nothing.
unfoldable pub strip : List ℕ → List ℕ
strip [] = []
strip (c ∷ cs) = let rest = strip cs in if is_space c then rest else c ∷ cs

-- The conversion of an int to UINT.
abbrev pub to_uint : ℤ → ℕ
to_uint (pos n) = u32 n
to_uint (negsuc n) = u32 (4294967295 - u32 n)

unfoldable pub push_mode : Option Mode → List Mode → List Mode
push_mode none modes = modes
push_mode (some m) modes = m ∷ modes

-- std::max(1, count), as a UINT.
abbrev pub display_count : ℤ → ℕ
display_count (pos n) = max 1 n
display_count (negsuc n) = 1

abbrev pub if_any : List Mode → Option (List Mode)
if_any [] = none
if_any (m ∷ modes) = some (m ∷ modes)

-- What LoadConfiguration publishes: m_DisplayCount, s_KnownMonitorModes and s_KnownMonitorEdid.
pub record Configuration : Type 0 where
  pub m_display_count : ℕ
  pub known_monitor_modes : List TargetMode
  pub known_monitor_edid : List ℕ

unfoldable pub configured_with : List ℕ → ℕ × Option (List Mode) → Configuration
unfolding known_modes with_checksum fallback_modes
configured_with edid (count, none) = record {
  m_display_count = 1;
  known_monitor_modes = known_modes fallback_modes;
  known_monitor_edid = with_checksum edid;
}
configured_with edid (count, some modes) = record {
  m_display_count = count;
  known_monitor_modes = known_modes modes;
  known_monitor_edid = with_checksum edid;
}

module _ (atoi : List ℕ → ℤ) (rate : List ℕ → ℕ) where
  unfoldable pub mode_of : List (List ℕ) → Option Mode
  unfolding spec_mode
  mode_of (w ∷ h ∷ r ∷ []) = some (spec_mode (to_uint (atoi w), to_uint (atoi h), rate r))
  mode_of _ = none

  -- A line with its leading whitespace stripped.
  unfoldable pub stripped_mode : List ℕ → Option Mode
  unfolding mode_of split
  stripped_mode [] = none
  stripped_mode (c ∷ cs) = if c == hash then none else mode_of (split (c ∷ cs) comma)

  unfoldable pub line_modes : List (List ℕ) → List Mode
  unfolding stripped_mode strip push_mode
  line_modes [] = []
  line_modes (line ∷ lines) = push_mode (stripped_mode (strip line)) (line_modes lines)

  unfoldable pub load_lines : List (List ℕ) → ℕ × Option (List Mode)
  unfolding line_modes
  load_lines [] = (1, none)
  load_lines (line ∷ lines) = (display_count (atoi line), if_any (line_modes lines))

  -- outDisplayCount, and outModes when LoadOptions returns true; no file stands for one that cannot be opened.
  unfoldable pub load_options : Option (List ℕ) → ℕ × Option (List Mode)
  unfolding load_lines split
  load_options none = (1, none)
  load_options (some file) = load_lines (split file line_feed)

  unfoldable pub load_configuration : List ℕ → Option (List ℕ) → Configuration
  unfolding configured_with load_options
  load_configuration edid file = configured_with edid (load_options file)
