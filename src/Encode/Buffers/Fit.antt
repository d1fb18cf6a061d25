-- ===== src/Encode/Buffers/Fit.antt =====
-- The NV12 buffer of the encoders below host/src/encode that convert on the CPU, against what BgraToNv12 writes to it.
use native.Mathlib.Nat.{mul-le-mul_right}
use m_extender.Prelude.{
  ℕ, zero, suc, ◌+◌, ◌*◌, ◌/◌, ◌%◌, ◌≤◌, ◌<◌, ◌≡◌, refl, List, [], ◌∷◌, get_or, set, length,
  length-set, arith, ◌∙◌, All, ap, map, Bool, true, not, ◌&&◌, ◌==◌, replicate, length-replicate,
  Bool-cases, inl, inr,
}
use m_extender.Prelude.Words.{u64}
use m_extender.Encode.Color.{bgra_to_nv12}
use m_extender.Encode.Color.Range.{AllBytes, Video, bgra_to_nv12-Video}
use m_extender.Encode.Buffers.{allocate, write_all, round_up_16}

pub round_up_16_lem : (x : ℕ) → x < 65536 → (x ≤ round_up_16 x) × (round_up_16 x ≤ x + 15)
unfolding round_up_16
round_up_16_lem x l = (omega arith, omega arith)

-- Every write stays in the buffer that the encoders allocate.
pub rows_fit : (h p r : ℕ) → h ≤ r → (h + h / 2) * p ≤ p * r * 3 / 2
rows_fit h p r l =
    let m : (h + h / 2) * 2 * p ≤ r * 3 * p = mul-le-mul_right p (omega arith) in omega (arith, m)

get_or-set : (xs : List ℕ) (i v k d : ℕ) → i < k → get_or (set xs i v) k d ≡ get_or xs k d
get_or-set [] i v k d l = refl
get_or-set (x ∷ xs) zero v (suc k) d l = refl
get_or-set (x ∷ xs) zero v zero d l = absurd (omega arith)
get_or-set (x ∷ xs) (suc i) v zero d l = absurd (omega arith)
get_or-set (x ∷ xs) (suc i) v (suc k) d l = get_or-set xs i v k d (omega arith)

-- What lies beyond all the writes stays as it was.
pub write_all_beyond :
    (writes : List (ℕ × ℕ)) (buffer : List ℕ) (end k d : ℕ)
    → All (Video 0 end) writes
    → end ≤ k
    → get_or (write_all buffer writes) k d ≡ get_or buffer k d
unfolding write_all
write_all_beyond [] buffer end k d a l = refl
write_all_beyond ((at, value) ∷ writes) buffer end k d (v, a) l =
    write_all_beyond writes (set buffer at value) end k d a l
    ∙ get_or-set buffer at value k d (omega arith)

pub length-write_all :
    (writes : List (ℕ × ℕ)) (buffer : List ℕ) → length (write_all buffer writes) ≡ length buffer
unfolding write_all
length-write_all [] buffer = refl
length-write_all ((at, value) ∷ writes) buffer =
    length-write_all writes (set buffer at value) ∙ length-set buffer at value

length-const : {A : Type 0} (xs : List A) (v : ℕ) → length (map (λ _. v) xs) ≡ length xs
length-const [] v = refl
length-const (x ∷ xs) v = ap suc (length-const xs v)

-- A buffer that could be allocated has the size asked for, also when it is filled.
pub length-allocate :
    (malloc : ℕ → Bool) (n v : ℕ)
    → (allocate malloc n).1 ≡ true
    → length (map (λ _. v) (allocate malloc n).0) ≡ n
unfolding allocate
length-allocate malloc n v h = elim (Bool-cases (not (n == 0) && malloc n)) [
  | inl y ↦ rw y (length-const (replicate n 0) v ∙ length-replicate n 0)
  | inr m ↦ absurd (ground (arith, h, m))
]

Video-widen :
    (writes : List (ℕ × ℕ)) (end end' : ℕ)
    → end ≤ end'
    → All (Video 0 end) writes
    → All (Video 0 end') writes
Video-widen [] end end' l a = tt
Video-widen ((at, value) ∷ writes) end end' l ((x, y, z, u), a) =
    ((x, omega arith, z, u), Video-widen writes end end' l a)

-- The buffer of a size rounded up to 16 has room for every write of a conversion at that size.
pub writes_fit :
    (bgra : List ℕ) (row_pitch w h : ℕ)
    → AllBytes bgra
    → w % 2 ≡ 0
    → w < 65536
    → h < 65536
    → All
        (Video 0 (u64 (round_up_16 w * round_up_16 h * 3) / 2))
        (bgra_to_nv12 bgra row_pitch (round_up_16 w) w h)
writes_fit bgra row_pitch w h b v x y =
    let (wl, wu) = round_up_16_lem w x in
    let (hl, hu) = round_up_16_lem h y in
    let p = round_up_16 w in
    let q = round_up_16 h in
    let m : p * q ≤ 65551 * q = mul-le-mul_right q (omega arith) in
    Video-widen _ ((h + h / 2) * p) (u64 (p * q * 3) / 2) (omega (arith, rows_fit h p q hl, m))
      (bgra_to_nv12-Video bgra row_pitch p w h b v wl)
