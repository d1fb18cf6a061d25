-- ===== src/Launch/Options.antt =====
-- What the arguments of host/src/main.cpp are parsed to, and which monitor is meant.
use m_extender.Prelude.{
  ℕ, zero, suc, ◌+◌, ◌<◌, ◌≡◌, refl, ◌∙◌, ap, true, List, [], ◌∷◌, Option, get_elem?, arith,
  if_false, ◌==◌,
}
use m_extender.Prelude.Int.{ℤ}
use m_extender.Prelude.Words.{u64}
use m_extender.Launch.{
  Args, same_text, port_option, monitor_option, encoder_option, raw_option, int_to_u16, raw_if,
  parse_from, enum_monitors, resolve_monitor,
}

-- A request on the command line.
pub data Request : Type 0 where
  port : List ℕ → Request
  monitor : List ℕ → Request
  encoder : List ℕ → Request
  raw : Request

-- The arguments that ask for it.
abbrev pub written : List Request → List (List ℕ)
written [] = []
written (port v ∷ rs) = port_option ∷ v ∷ written rs
written (monitor v ∷ rs) = monitor_option ∷ v ∷ written rs
written (encoder v ∷ rs) = encoder_option ∷ v ∷ written rs
written (raw ∷ rs) = raw_option ∷ written rs

module _ (atoi : List ℕ → ℤ) (strtoull : List ℕ → ℕ) where
  -- What a request asks for.
  abbrev pub granted : List Request → Args → Args
  granted [] a = a
  granted (port v ∷ rs) a = granted rs (record a { port = int_to_u16 (atoi v) })
  granted (monitor v ∷ rs) a = granted rs (record a { monitor = u64 (strtoull v) })
  granted (encoder v ∷ rs) a = granted rs (record a { encoder = v })
  granted (raw ∷ rs) a = granted rs (record a { keep_raw = true })

  parse_from-raw :
      (args : List (List ℕ)) (a : Args)
      → parse_from atoi strtoull (raw_option ∷ args) a
        ≡ parse_from atoi strtoull args (record a { keep_raw = true })
  unfolding parse_from raw_if same_text
  parse_from-raw [] a = refl
  parse_from-raw (v ∷ args) a = refl

  -- Any sequence of options, each with its value: the arguments that write them down, in their order, are parsed to what
  -- they ask for, the later of two for the same thing winning; a value may look like an option.
  pub parse_from-written :
      (rs : List Request) (a : Args) → parse_from atoi strtoull (written rs) a ≡ granted rs a
  unfolding parse_from same_text
  parse_from-written [] a = refl
  parse_from-written (port v ∷ rs) a =
      parse_from-written rs (record a { port = int_to_u16 (atoi v) })
  parse_from-written (monitor v ∷ rs) a =
      parse_from-written rs (record a { monitor = u64 (strtoull v) })
  parse_from-written (encoder v ∷ rs) a = parse_from-written rs (record a { encoder = v })
  parse_from-written (raw ∷ rs) a =
      parse_from-raw (written rs) a ∙ parse_from-written rs (record a { keep_raw = true })

enum_monitors-get_elem? :
    (monitors : List ℕ) (k : ℕ)
    → k < 18446744073709551615
    → enum_monitors (k + 1) monitors ≡ get_elem? monitors k
unfolding enum_monitors
enum_monitors-get_elem? [] k l = refl
enum_monitors-get_elem? (h ∷ monitors) zero l = refl
enum_monitors-get_elem? (h ∷ monitors) (suc k) l =
    let e : u64 (suc k + 1 + 18446744073709551615) ≡ k + 1 = omega arith in
    if_false (suc k + 1 == 1) _ _ (ground arith)
    ∙ ap (λ i. enum_monitors i monitors) e
    ∙ enum_monitors-get_elem? monitors k (omega arith)

-- The index 0 means the primary monitor, and any other the monitor at that place of the enumeration, counted from 1,
-- or none when there are fewer: the count-down of the callback is the look-up in the list.
pub resolve_monitor-get_elem? :
    (primary : Option ℕ) (monitors : List ℕ) (k : ℕ)
    → k < 18446744073709551615
    → (resolve_monitor primary monitors 0 ≡ primary)
      × (resolve_monitor primary monitors (k + 1) ≡ get_elem? monitors k)
unfolding resolve_monitor
resolve_monitor-get_elem? primary monitors k l =
    (refl, if_false (k + 1 == 0) _ _ (ground arith) ∙ enum_monitors-get_elem? monitors k l)
