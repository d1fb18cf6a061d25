-- ===== src/Driver/Options/File.antt =====
-- What LoadOptions of driver/src/Driver.cpp reads from a file that somebody wrote.
use m_extender.Prelude.{
  ℕ, ◌≡◌, ◌≢◌, refl, true, false, List, [], ◌∷◌, ◌++◌, none, some, map, arith, All, ◌==◌, if_true,
  if_false, ◌∙◌, ap, ap₂, sym, append_assoc, append-nil,
}
use m_extender.Prelude.Int.{ℤ}
use m_extender.Driver.Modes.{spec_mode}
use m_extender.Driver.Options.{
  line_feed, comma, hash, Mode, last_part, split_from, split, is_space, strip, to_uint, mode_of,
  stripped_mode, push_mode, line_modes, display_count, if_any, load_lines, load_options,
}

-- No such character.
abbrev pub Without : ℕ → List ℕ → Type 0
Without c cs = All (λ d. (d == c) ≡ false) cs

module _ (d : ℕ) where
  split_from-part :
      (item part rest : List ℕ)
      → Without d part
      → split_from d item (part ++ d ∷ rest) ≡ ((item ++ part) ∷ split rest d)
  unfolding split_from split
  split_from-part item [] rest w =
      if_true (d == d) _ _ (ground arith)
      ∙ ap (λ i. i ∷ split_from d [] rest) (sym (append-nil item))
  split_from-part item (c ∷ part) rest (n, w) =
      if_false (c == d) _ _ n
      ∙ split_from-part (item ++ c ∷ []) part rest w
      ∙ ap (λ i. i ∷ split_from d [] rest) (append_assoc item (c ∷ []) part)

  split_from-last :
      (item part : List ℕ) → Without d part → split_from d item part ≡ last_part (item ++ part)
  unfolding split_from
  split_from-last item [] w = ap last_part (sym (append-nil item))
  split_from-last item (c ∷ part) (n, w) =
      if_false (c == d) _ _ n
      ∙ split_from-last (item ++ c ∷ []) part w
      ∙ ap last_part (append_assoc item (c ∷ []) part)

  -- Parts with the delimiter before each but the first.
  abbrev pub joined : List ℕ → List (List ℕ) → List ℕ
  joined part [] = part
  joined part (next ∷ parts) = part ++ d ∷ joined next parts

  -- A part that is there even if it is the last.
  abbrev pub Part : List ℕ → Type 0
  Part part = Without d part × (part ≢ [])

  last_part-Part : (part : List ℕ) → part ≢ [] → last_part part ≡ part ∷ []
  unfolding last_part
  last_part-Part [] n = absurd (n refl)
  last_part-Part (c ∷ part) n = refl

  -- What was written with a delimiter between parts, each without the delimiter and not empty, is split into them.
  pub split-joined :
      (part : List ℕ) (parts : List (List ℕ))
      → Part part
      → All Part parts
      → split (joined part parts) d ≡ part ∷ parts
  unfolding split
  split-joined part [] (w, n) a = split_from-last [] part w ∙ last_part-Part part n
  split-joined part (next ∷ parts) (w, n) (q, a) =
      split_from-part [] part (joined next parts) w
      ∙ ap (λ l. part ∷ l) (split-joined next parts q a)

-- A mode as it is written: width, height and rate.
pub record Spec : Type 0 where
  pub width : List ℕ
  pub height : List ℕ
  pub rate : List ℕ

abbrev pub line_of : Spec → List ℕ
line_of s = joined comma s.width (s.height ∷ s.rate ∷ [])

-- Numbers as they are written: nothing that ends a line or a part, and no space nor # at the front.
abbrev pub Starts : List ℕ → Type 0
Starts [] = ⊥
Starts (c ∷ cs) = (is_space c ≡ false) × ((c == hash) ≡ false)

pub record Plain (s : Spec) : Type 0 where
  pub starts : Starts s.width
  pub width : Part comma s.width
  pub height : Part comma s.height
  pub rate : Part comma s.rate
  pub line : Part line_feed (line_of s)

-- A line of the file after the first: a mode, a comment or nothing, after whitespace.
pub data Entry : Type 0 where
  mode : List ℕ → Spec → Entry
  comment : List ℕ → List ℕ → Entry
  blank : List ℕ → Entry

abbrev pub text_of : Entry → List ℕ
text_of (mode spaces s) = spaces ++ line_of s
text_of (comment spaces text) = spaces ++ hash ∷ text
text_of (blank spaces) = spaces

abbrev pub Spaces : List ℕ → Type 0
Spaces cs = All (λ c. is_space c ≡ true) cs

abbrev pub Written : Entry → Type 0
Written (mode spaces s) = Spaces spaces × Plain s × Part line_feed (spaces ++ line_of s)
Written (comment spaces text) = Spaces spaces × Part line_feed (spaces ++ hash ∷ text)
Written (blank spaces) = Spaces spaces × Part line_feed spaces

strip-Spaces : (spaces rest : List ℕ) → Spaces spaces → strip (spaces ++ rest) ≡ strip rest
unfolding strip
strip-Spaces [] rest a = refl
strip-Spaces (c ∷ spaces) rest (e, a) = if_true (is_space c) _ _ e ∙ strip-Spaces spaces rest a

strip-Starts : (cs rest : List ℕ) → Starts cs → strip (cs ++ rest) ≡ cs ++ rest
unfolding strip
strip-Starts [] rest s = absurd s
strip-Starts (c ∷ cs) rest (e, n) = if_false (is_space c) _ _ e

parts : (entries : List Entry) → All Written entries → All (Part line_feed) (map text_of entries)
parts [] a = tt
parts (mode spaces s ∷ entries) ((w, p, l), a) = (l, parts entries a)
parts (comment spaces text ∷ entries) ((w, l), a) = (l, parts entries a)
parts (blank spaces ∷ entries) ((w, l), a) = (l, parts entries a)

strip-hash : (text : List ℕ) → strip (hash ∷ text) ≡ hash ∷ text
unfolding strip
strip-hash text = refl

module _ (atoi : List ℕ → ℤ) (rate : List ℕ → ℕ) where
  -- The mode that is meant by what is written.
  abbrev pub meant : Spec → Mode
  meant s = spec_mode (to_uint (atoi s.width), to_uint (atoi s.height), rate s.rate)

  -- The modes among the lines.
  abbrev pub modes_of : List Entry → List Mode
  modes_of [] = []
  modes_of (mode spaces s ∷ entries) = meant s ∷ modes_of entries
  modes_of (comment spaces text ∷ entries) = modes_of entries
  modes_of (blank spaces ∷ entries) = modes_of entries

  stripped_mode-line : (s : Spec) → Plain s → stripped_mode atoi rate (line_of s) ≡ some (meant s)
  unfolding stripped_mode mode_of
  stripped_mode-line s p =
      go s.width s.height s.rate p.starts
        (split-joined comma s.width (s.height ∷ s.rate ∷ []) p.width (p.height, (p.rate, tt)))
    where
      go :
          (w h r : List ℕ)
          → Starts w
          → split (joined comma w (h ∷ r ∷ [])) comma ≡ w ∷ h ∷ r ∷ []
          → stripped_mode atoi rate (joined comma w (h ∷ r ∷ []))
            ≡ some (spec_mode (to_uint (atoi w), to_uint (atoi h), rate r))
      go [] h r s e = absurd s
      go (c ∷ w) h r (x, y) e = if_false (c == hash) _ _ y ∙ ap (mode_of atoi rate) e

  stripped_mode-hash : (text : List ℕ) → stripped_mode atoi rate (hash ∷ text) ≡ none
  unfolding stripped_mode
  stripped_mode-hash text = refl

  stripped_mode-nil : stripped_mode atoi rate [] ≡ none
  unfolding stripped_mode
  stripped_mode-nil = refl

  line_modes-modes_of :
      (entries : List Entry)
      → All Written entries
      → line_modes atoi rate (map text_of entries) ≡ modes_of entries
  unfolding line_modes push_mode
  line_modes-modes_of [] a = refl
  line_modes-modes_of (mode spaces s ∷ entries) ((w, p, l), a) =
      ap (λ m. push_mode (stripped_mode atoi rate m) (line_modes atoi rate (map text_of entries)))
        (strip-Spaces spaces (line_of s) w ∙ strip-Starts s.width _ p.starts)
      ∙ ap₂ push_mode (stripped_mode-line s p) (line_modes-modes_of entries a)
  line_modes-modes_of (comment spaces text ∷ entries) ((w, l), a) =
      ap (λ m. push_mode (stripped_mode atoi rate m) (line_modes atoi rate (map text_of entries)))
        (strip-Spaces spaces (hash ∷ text) w ∙ strip-hash text)
      ∙ ap₂ push_mode (stripped_mode-hash text) (line_modes-modes_of entries a)
  line_modes-modes_of (blank spaces ∷ entries) ((w, l), a) =
      ap (λ m. push_mode (stripped_mode atoi rate m) (line_modes atoi rate (map text_of entries)))
        (ap strip (sym (append-nil spaces)) ∙ strip-Spaces spaces [] w)
      ∙ ap₂ push_mode (stripped_mode-nil) (line_modes-modes_of entries a)

  -- A file with a count on its first line and, on each line after it, a mode as width, height and rate between commas, a
  -- comment after #, or nothing, all after any whitespace, no line of length 0: LoadOptions gives the count, or 1 if it is
  -- less, and exactly the modes that are written, in their order, or fails when there is none.
  pub load_options-joined :
      (count : List ℕ) (entries : List Entry)
      → Part line_feed count
      → All Written entries
      → load_options atoi rate (some (joined line_feed count (map text_of entries)))
        ≡ (display_count (atoi count), if_any (modes_of entries))
  unfolding load_options load_lines
  load_options-joined count entries p a =
      ap (load_lines atoi rate)
        (split-joined line_feed count (map text_of entries) p (parts entries a))
      ∙ ap (λ m. (display_count (atoi count), if_any m)) (line_modes-modes_of entries a)
