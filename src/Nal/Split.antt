-- ===== src/Nal/Split.antt =====
-- SplitAnnexB undoes the framing of Annex B, with 3-byte and 4-byte start codes.
use native.Mathlib.Nat.{add-zero}
use m_extender.Prelude.{
  ℕ, zero, suc, ◌+◌, ◌-◌, ◌≤◌, ◌<◌, ◌≡◌, ◌≢◌, refl, sym, ap, ◌∙◌, Bool, true, false, ◌&&◌, List, [],
  ◌∷◌, ◌++◌, map, length, get_or, drop, arith, leb, ◌==◌, if◌then◌else◌, append_assoc, append-nil,
  length-append, length-drop, get_or-drop, drop-add, take-append, drop-append, Bool-cases, inl, inr,
  ◌⊎◌, get_or-append, take-length,
}
use m_extender.Nal.{
  Scan, is_start, slice, prev_end, scan_step, scan, scan_start, scan_finish, split_annex_b,
}

-- A NAL unit with the length of the start code before it.
pub record Unit3 : Type 0 where
  pub long_code : Bool
  pub nal : List ℕ

abbrev pub code : Bool → List ℕ
code false = 0 ∷ 0 ∷ 1 ∷ []
code true = 0 ∷ 0 ∷ 0 ∷ 1 ∷ []

-- The byte stream of a list of units.
abbrev pub annex_b : List Unit3 → List ℕ
annex_b [] = []
annex_b (u ∷ us) = code u.long_code ++ (u.nal ++ annex_b us)

abbrev pub starts : List ℕ → Bool
starts bytes = get_or bytes 0 0 == 0 && (get_or bytes 1 0 == 0 && get_or bytes 2 0 == 1)

-- No start code begins in the bytes of the unit.
abbrev pub Clear : List ℕ → List ℕ → Type 0
Clear [] tail = Unit
Clear (b ∷ bs) tail = (starts (b ∷ (bs ++ tail)) ≡ false) × Clear bs tail

-- What the H.264 syntax guarantees of a unit: emulation prevention keeps start codes out, and its last
-- byte is not 0.
pub record IsNal (nal : List ℕ) : Type 0 where
  pub clear : Clear nal []
  pub last : get_or nal (length nal - 1) 1 ≢ 0

abbrev pub AllNals : List Unit3 → Type 0
AllNals [] = Unit
AllNals (u ∷ us) = IsNal u.nal × AllNals us

Clear-zeros : (bs t : List ℕ) → Clear bs [] → Clear bs (0 ∷ 0 ∷ t)
Clear-zeros [] t c = tt
Clear-zeros (a ∷ []) t c = (ground arith, tt)
Clear-zeros (a ∷ b ∷ []) t c = (ground arith, (ground arith, tt))
Clear-zeros (a ∷ b ∷ d ∷ r) t c = (ground arith, Clear-zeros (b ∷ d ∷ r) t c.1)

is_start-drop : (bytes : List ℕ) (i : ℕ) → is_start bytes i ≡ starts (drop i bytes)
unfolding is_start
is_start-drop bytes i =
    rw (get_or-drop i 0 bytes 0, get_or-drop i 1 bytes 0, get_or-drop i 2 bytes 0) (ground arith)

size :
    (bytes xs : List ℕ) (i : ℕ) → drop i bytes ≡ xs → 1 ≤ length xs → length bytes ≡ i + length xs
size bytes xs i d h = omega (arith, ap length d, length-drop i bytes)

plain_round :
    (bytes : List ℕ) (fuel : ℕ) (s : Scan)
    → starts (drop s.i bytes) ≡ false
    → s.i + 3 ≤ length bytes
    → scan (suc fuel) bytes s ≡ scan fuel bytes (record s { i = s.i + 1 })
unfolding scan scan_step
plain_round bytes fuel s c h = ground (arith, is_start-drop bytes s.i)

code_round :
    (bytes : List ℕ) (fuel : ℕ) (s : Scan)
    → starts (drop s.i bytes) ≡ true
    → s.i + 3 ≤ length bytes
    → scan (suc fuel) bytes s
      ≡ scan fuel bytes (record {
        i = s.i + 3;
        payload_begin = s.i + 3;
        have_nal = true;
        nals =
            if s.have_nal
            then s.nals ++ slice bytes s.payload_begin (prev_end bytes s.i) ∷ []
            else s.nals;
      })
unfolding scan scan_step
code_round bytes fuel s c h = ground (arith, is_start-drop bytes s.i)

-- Rounds that find no start code only move the cursor.
walk :
    (bytes body tail : List ℕ) (fuel : ℕ) (s : Scan)
    → drop s.i bytes ≡ body ++ tail
    → Clear body tail
    → 3 ≤ length tail
    → length (body ++ tail) ≤ fuel
    → (f : ℕ) × (length tail ≤ f)
      × (scan fuel bytes s ≡ scan f bytes (record s { i = s.i + length body }))
walk bytes [] tail fuel s d c t h = (fuel, h, ground arith)
walk bytes (b ∷ bs) tail zero s d c t h = absurd (omega arith)
walk bytes (b ∷ bs) tail (suc fuel) s d c t h =
    let m = size bytes (b ∷ bs ++ tail) s.i d (omega arith) in
    let long = length-append bs tail in
    let (f, p, q) =
      walk bytes bs tail fuel (record s { i = s.i + 1 }) (drop-add s.i 1 bytes ∙ ap (drop 1) d) c.1
        t (omega arith) in
    (
      f,
      p,
      plain_round bytes fuel s (rw d c.0) (omega arith)
          ∙ q
          ∙ ap (λ (k : ℕ). scan f bytes (record s { i = k })) {x = s.i + 1 + length bs}
              {y = s.i + suc (length bs)} (omega arith),
    )

-- At the end of the stream the remaining rounds change nothing but the cursor.
walk_end :
    (bytes body : List ℕ) (fuel : ℕ) (s : Scan)
    → drop s.i bytes ≡ body
    → Clear body []
    → scan_finish bytes (scan fuel bytes s) ≡ scan_finish bytes s
unfolding scan scan_finish
walk_end bytes body zero s d c = refl
walk_end bytes [] (suc fuel) s d c = ground (arith, ap length d, length-drop s.i bytes)
walk_end bytes (b ∷ bs) (suc fuel) s d c = elim (Bool-cases (leb (s.i + 3) (length bytes))) [
  | inl more ↦
      ap (scan_finish bytes) (
        plain_round bytes fuel s (rw d (ap starts (sym (append-nil (b ∷ bs))) ∙ c.0))
          (ground arith))
      ∙ walk_end bytes bs fuel (record s { i = s.i + 1 }) (drop-add s.i 1 bytes ∙ ap (drop 1) d) c.1
  | inr done ↦ rw done
]

at_offset :
    (bytes xs : List ℕ) (i k : ℕ) → drop i bytes ≡ xs → get_or bytes (i + k) 0 ≡ get_or xs k 0
at_offset bytes xs i k d = sym (get_or-drop i k bytes 0) ∙ ap (λ l. get_or l k 0) d

module _ (bytes rest : List ℕ) (s : Scan) where
  abbrev entered : ℕ → Scan
  entered k = record {
    i = s.i + k;
    payload_begin = s.i + k;
    have_nal = true;
    nals = if s.have_nal then s.nals ++ slice bytes s.payload_begin s.i ∷ [] else s.nals;
  }

  -- A start code closes the open unit at its first byte, whichever its length.
  enter_short :
      (fuel : ℕ)
      → drop s.i bytes ≡ code false ++ rest
      → (s.i ≡ 0) ⊎ (get_or bytes (s.i - 1) 0 ≢ 0)
      → scan (suc fuel) bytes s ≡ scan fuel bytes (entered 3)
  enter_short fuel d p =
      let e : prev_end bytes s.i ≡ s.i = unfold prev_end in ground arith in
      code_round bytes fuel s (ap starts d) (omega (arith, size bytes _ s.i d (omega arith))) ∙ rw e

  enter_long :
      (fuel : ℕ)
      → drop s.i bytes ≡ code true ++ rest
      → scan (suc (suc fuel)) bytes s ≡ scan fuel bytes (entered 4)
  enter_long fuel d =
      let m = size bytes _ s.i d (omega arith) in
      let z = at_offset bytes _ s.i 0 d in
      let e : prev_end bytes (s.i + 1) ≡ s.i = unfold prev_end in ground arith in
      plain_round bytes (suc fuel) s (ap starts d) (omega arith)
      ∙ code_round bytes fuel (record s { i = s.i + 1 })
          (ap starts (drop-add s.i 1 bytes ∙ ap (drop 1) d)) (omega arith)
      ∙ rw e (ground arith)

  enter :
      (long : Bool) (fuel : ℕ)
      → drop s.i bytes ≡ code long ++ rest
      → (s.i ≡ 0) ⊎ (get_or bytes (s.i - 1) 0 ≢ 0)
      → length (code long ++ rest) ≤ fuel
      → (f : ℕ) × (length rest ≤ f)
        × (scan fuel bytes s ≡ scan f bytes (entered (length (code long))))
  enter false zero d p h = absurd (omega arith)
  enter false (suc fuel) d p h = (fuel, omega arith, enter_short fuel d p)
  enter true zero d p h = absurd (omega arith)
  enter true (suc zero) d p h = absurd (omega arith)
  enter true (suc (suc fuel)) d p h = (fuel, omega arith, enter_long fuel d)

-- The state just behind a start code, with that unit and more to come.
record Behind (bytes : List ℕ) (s : Scan) (rest : List ℕ) : Type 0 where
  here : drop s.i bytes ≡ rest
  begun : s.payload_begin ≡ s.i
  have : s.have_nal ≡ true
  marker : (0 < s.i) × (get_or bytes (s.i - 1) 0 ≡ 1)

slice_unit :
    (bytes nal rest : List ℕ) (i : ℕ)
    → drop i bytes ≡ nal ++ rest
    → slice bytes i (i + length nal) ≡ nal
unfolding slice
slice_unit bytes nal rest i d =
    let e : i + length nal - i ≡ length nal = omega arith in rw (d, e) (take-append nal rest)

-- The last byte of a unit, or the 1 of the start code before an empty one.
before_code :
    (bytes nal rest : List ℕ) (i : ℕ)
    → drop i bytes ≡ nal ++ rest
    → (0 < i) × (get_or bytes (i - 1) 0 ≡ 1)
    → get_or nal (length nal - 1) 1 ≢ 0
    → get_or bytes (i + length nal - 1) 0 ≢ 0
before_code bytes [] rest i d m l = rw add-zero (ground (arith, m))
before_code bytes (b ∷ bs) rest i d m l =
    let at_end = at_offset bytes _ i (length bs) d in
    let kept = get_or-append (b ∷ bs) rest (length bs) 0 1 (omega arith) in
    let e : i + suc (length bs) - 1 ≡ i + length bs = omega arith in
    let e' : suc (length bs) - 1 ≡ length bs = omega arith in rw e (rw (at_end ∙ kept) (rw e' at l))

code_marker :
    (bytes rest : List ℕ) (i : ℕ) (long : Bool)
    → drop i bytes ≡ code long ++ rest
    → (0 < i + length (code long)) × (get_or bytes (i + length (code long) - 1) 0 ≡ 1)
code_marker bytes rest i false d = (omega arith, ground (arith, at_offset bytes _ i 2 d))
code_marker bytes rest i true d = (omega arith, ground (arith, at_offset bytes _ i 3 d))

Behind-entered :
    (bytes rest : List ℕ) (s : Scan) (long : Bool)
    → drop s.i bytes ≡ code long ++ rest
    → Behind bytes (entered bytes rest s (length (code long))) rest
Behind-entered bytes rest s long d = record {
  here =
      drop-add s.i (length (code long)) bytes
      ∙ ap (drop (length (code long))) d
      ∙ drop-append (code long) rest;
  begun = refl;
  have = refl;
  marker = code_marker bytes rest s.i long d;
}

Clear-code : (nal rest : List ℕ) (long : Bool) → Clear nal [] → Clear nal (code long ++ rest)
Clear-code nal rest false c = Clear-zeros nal (1 ∷ rest) c
Clear-code nal rest true c = Clear-zeros nal (0 ∷ 1 ∷ rest) c

code_long : (long : Bool) (rest : List ℕ) → 3 ≤ length (code long ++ rest)
code_long false rest = omega arith
code_long true rest = omega arith

units :
    (us : List Unit3) (bytes nal : List ℕ) (fuel : ℕ) (s : Scan)
    → Behind bytes s (nal ++ annex_b us)
    → IsNal nal
    → AllNals us
    → length (nal ++ annex_b us) ≤ fuel
    → scan_finish bytes (scan fuel bytes s) ≡ s.nals ++ (nal ∷ map (λ u. u.nal) us)
units [] bytes nal fuel s v n a h =
    walk_end bytes nal fuel s (v.here ∙ append-nil nal) n.clear ∙ last
  where
    last : scan_finish bytes s ≡ s.nals ++ nal ∷ []
    last =
        unfold scan_finish in
        rw (v.have, v.begun)
          (rw (← length-drop s.i bytes, v.here ∙ append-nil nal, take-length nal))
units (u ∷ us) bytes nal fuel s v n a h =
    let rest = u.nal ++ annex_b us in
    let (f, p, q) =
      walk bytes nal (code u.long_code ++ rest) fuel s v.here
        (Clear-code nal rest u.long_code n.clear) (code_long u.long_code rest) h in
    let s' : Scan = record s { i = s.i + length nal } in
    let d = drop-add s.i (length nal) bytes ∙ ap (drop (length nal)) v.here ∙ drop-append nal _ in
    let (g, pg, qg) =
      enter bytes rest s' u.long_code f d (inr (before_code bytes nal _ s.i v.here v.marker n.last))
        p in
    let ih =
      units us bytes u.nal g (entered bytes rest s' (length (code u.long_code)))
        (Behind-entered bytes rest s' u.long_code d) a.0 a.1 pg in
    ap (scan_finish bytes) (q ∙ qg)
    ∙ ih
    ∙ rw (v.have, v.begun, slice_unit bytes nal _ s.i v.here) (append_assoc s.nals (nal ∷ []) _)

-- A stream built from units, each behind a start code of 3 or of 4 bytes, is split into exactly
-- those units in order, provided that no unit contains a start code or ends in a zero byte.
pub split_annex_b-annex_b :
    (us : List Unit3) → AllNals us → split_annex_b (annex_b us) ≡ map (λ u. u.nal) us
unfolding split_annex_b
split_annex_b-annex_b [] a = refl
split_annex_b-annex_b (u ∷ us) a =
    let bytes = annex_b (u ∷ us) in
    let rest = u.nal ++ annex_b us in
    let (f, p, q) =
      enter bytes rest scan_start u.long_code (length bytes) refl (inl refl) (omega arith) in
    ap (scan_finish bytes) q
    ∙ units us bytes u.nal f (entered bytes rest scan_start (length (code u.long_code)))
        (Behind-entered bytes rest scan_start u.long_code refl) a.0 a.1 p
