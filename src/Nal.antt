-- ===== src/Nal.antt =====
-- host/src/encode/nal.h and nal.cpp: Annex B byte streams and their NAL units. `data` with `size` is a list
-- of bytes; the loop over `i` runs on fuel, one unit for each byte.
pub mod Bounds
pub mod Split
use m_extender.Prelude.{
  ℕ, zero, suc, ◌+◌, ◌-◌, ◌%◌, Bool, true, false, ◌&&◌, ◌||◌, List, [], ◌∷◌, ◌++◌, length, get_or,
  take, drop, ltb, leb, ◌==◌, if◌then◌else◌,
}

unfoldable pub is_start : List ℕ → ℕ → Bool
is_start bytes i =
    get_or bytes i 0 == 0 && (get_or bytes (i + 1) 0 == 0 && get_or bytes (i + 2) 0 == 1)

-- The variables of the loop.
pub record Scan : Type 0 where
  pub i : ℕ
  pub payload_begin : ℕ
  pub have_nal : Bool
  pub nals : List (List ℕ)

-- The iterator range [data + from, data + to).
unfoldable pub slice : List ℕ → ℕ → ℕ → List ℕ
slice bytes from to = take (to - from) (drop from bytes)

unfoldable pub prev_end : List ℕ → ℕ → ℕ
prev_end bytes i = if ltb 0 i && get_or bytes (i - 1) 0 == 0 then i - 1 else i

unfoldable pub scan_step : List ℕ → Scan → Scan
unfolding is_start slice prev_end
scan_step bytes s =
    if is_start bytes s.i
    then record {
      i = s.i + 3;
      payload_begin = s.i + 3;
      have_nal = true;
      nals =
          if s.have_nal
          then s.nals ++ slice bytes s.payload_begin (prev_end bytes s.i) ∷ []
          else s.nals;
    }
    else record s { i = s.i + 1 }

unfoldable pub scan : ℕ → List ℕ → Scan → Scan
scan zero bytes s = s
scan (suc fuel) bytes s =
    let rest = scan fuel bytes (scan_step bytes s) in
    if leb (s.i + 3) (length bytes) then rest else s

abbrev pub scan_start : Scan
scan_start = record { i = 0; payload_begin = 0; have_nal = false; nals = [] }

-- What follows the loop.
unfoldable pub scan_finish : List ℕ → Scan → List (List ℕ)
unfolding slice
scan_finish bytes s =
    if s.have_nal then s.nals ++ slice bytes s.payload_begin (length bytes) ∷ [] else s.nals

unfoldable pub split_annex_b : List ℕ → List (List ℕ)
unfolding scan_step scan scan_finish
split_annex_b bytes = scan_finish bytes (scan (length bytes) bytes scan_start)

-- `nal[0] & 0x1F` is a remainder.
unfoldable pub has_idr_slice : List (List ℕ) → Bool
has_idr_slice [] = false
has_idr_slice ([] ∷ nals) = has_idr_slice nals
has_idr_slice ((b ∷ bs) ∷ nals) = b % 32 == 5 || has_idr_slice nals
