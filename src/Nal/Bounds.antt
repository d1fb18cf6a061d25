-- ===== src/Nal/Bounds.antt =====
-- SplitAnnexB reads and slices within its buffer, and its loop ends by its own test.
use m_extender.Prelude.{ℕ, zero, suc, ◌+◌, ◌-◌, ◌≤◌, ◌<◌, ◌≡◌, true, List, length, get_or, arith}
use m_extender.Nal.{Scan, is_start, prev_end, scan_step, scan, scan_start}

-- Between two rounds: the payload lies before the cursor, the cursor within the buffer, and the
-- byte before a payload that has just begun is the 1 of its start code.
pub record InBounds (bytes : List ℕ) (s : Scan) : Type 0 where
  pub begin_le : s.payload_begin ≤ s.i
  pub cursor_le : s.i ≤ length bytes
  pub after_code : s.have_nal ≡ true → s.payload_begin ≡ s.i → get_or bytes (s.i - 1) 0 ≡ 1

scan_step-InBounds :
    (bytes : List ℕ) (s : Scan)
    → s.i + 3 ≤ length bytes
    → InBounds bytes s
    → InBounds bytes (scan_step bytes s)
unfolding scan_step is_start
scan_step-InBounds bytes s h v = ground arith

scan-InBounds :
    (fuel : ℕ) (bytes : List ℕ) (s : Scan) → InBounds bytes s → InBounds bytes (scan fuel bytes s)
unfolding scan
scan-InBounds zero bytes s v = v
scan-InBounds (suc fuel) bytes s v =
    ground (arith, scan_step-InBounds bytes s, scan-InBounds fuel bytes (scan_step bytes s))

scan_start-InBounds : (bytes : List ℕ) → InBounds bytes scan_start
scan_start-InBounds bytes = ground arith

-- At every round that the loop reaches, for any number of rounds, the range that a start code
-- would close is a range of the buffer: it does not end before it begins, nor past the end.
pub scan_ranges :
    (rounds : ℕ) (bytes : List ℕ)
    → let s = scan rounds bytes scan_start in
      s.have_nal ≡ true
      → is_start bytes s.i ≡ true
      → (s.payload_begin ≤ prev_end bytes s.i) × (prev_end bytes s.i ≤ length bytes)
unfolding prev_end
scan_ranges rounds bytes have code =
    let v = scan-InBounds rounds bytes scan_start (scan_start-InBounds bytes) in ground (arith, v)

step_advances : (bytes : List ℕ) (s : Scan) → s.i + 1 ≤ (scan_step bytes s).i
unfolding scan_step
step_advances bytes s = ground arith

scan_ends_from :
    (fuel : ℕ) (bytes : List ℕ) (s : Scan)
    → length bytes ≤ s.i + fuel
    → length bytes < (scan fuel bytes s).i + 3
unfolding scan
scan_ends_from zero bytes s h = omega arith
scan_ends_from (suc fuel) bytes s h =
    ground (arith, step_advances bytes s, scan_ends_from fuel bytes (scan_step bytes s))

-- One unit of fuel for each byte is enough: the loop stops because its test `i + 3 <= size` fails.
pub scan_ends : (bytes : List ℕ) → length bytes < (scan (length bytes) bytes scan_start).i + 3
scan_ends bytes = scan_ends_from (length bytes) bytes scan_start (omega arith)
