-- ===== src/Launch.antt =====
-- The start of main in host/src/main.cpp: its arguments, the monitor that they name, and the choice of the encoder. A
-- string is a list of characters; atoi and strtoull are parameters.
pub mod Choice
pub mod Options
use m_extender.Prelude.{
  ℕ, zero, suc, ◌+◌, ◌-◌, ◌%◌, Bool, true, false, not, ◌&&◌, ◌||◌, List, [], ◌∷◌, ◌++◌, Option,
  none, some, ◌==◌, if◌then◌else◌,
}
use m_extender.Prelude.Int.{ℤ, pos, negsuc}
use m_extender.Prelude.Words.{u16, u64}

-- `port` starts as SP_PROTO_PORT, and an empty `encoder` forces none.
pub record Args : Type 0 where
  pub port : ℕ
  pub monitor : ℕ
  pub keep_raw : Bool
  pub encoder : List ℕ

-- std::strcmp(a, b) == 0.
unfoldable pub same_text : List ℕ → List ℕ → Bool
same_text [] [] = true
same_text [] (d ∷ ds) = false
same_text (c ∷ cs) [] = false
same_text (c ∷ cs) (d ∷ ds) = c == d && same_text cs ds

-- "--port", "--monitor", "--encoder" and "--raw".
abbrev pub port_option : List ℕ
port_option = 45 ∷ 45 ∷ 112 ∷ 111 ∷ 114 ∷ 116 ∷ []

abbrev pub monitor_option : List ℕ
monitor_option = 45 ∷ 45 ∷ 109 ∷ 111 ∷ 110 ∷ 105 ∷ 116 ∷ 111 ∷ 114 ∷ []

abbrev pub encoder_option : List ℕ
encoder_option = 45 ∷ 45 ∷ 101 ∷ 110 ∷ 99 ∷ 111 ∷ 100 ∷ 101 ∷ 114 ∷ []

abbrev pub raw_option : List ℕ
raw_option = 45 ∷ 45 ∷ 114 ∷ 97 ∷ 119 ∷ []

-- static_cast<uint16_t>(int).
abbrev pub int_to_u16 : ℤ → ℕ
int_to_u16 (pos n) = u16 n
int_to_u16 (negsuc n) = 65535 - u16 n

-- An argument without a value: the last test of the loop.
unfoldable pub raw_if : List ℕ → Args → Args
unfolding same_text
raw_if arg a = if same_text arg raw_option then record a { keep_raw = true } else a

module _ (atoi : List ℕ → ℤ) (strtoull : List ℕ → ℕ) where
  -- The loop over argv, from the arguments that are left.
  unfoldable pub parse_from : List (List ℕ) → Args → Args
  unfolding raw_if same_text
  parse_from [] a = a
  parse_from (arg ∷ []) a = raw_if arg a
  parse_from (arg ∷ value ∷ rest) a =
      let port = parse_from rest (record a { port = int_to_u16 (atoi value) }) in
      let monitor = parse_from rest (record a { monitor = u64 (strtoull value) }) in
      let encoder = parse_from rest (record a { encoder = value }) in
      let next = parse_from (value ∷ rest) (raw_if arg a) in
      if same_text arg port_option
      then port
      else if same_text arg monitor_option
      then monitor
      else if same_text arg encoder_option
      then encoder
      else next

-- The callback of EnumDisplayMonitors on the monitors in their order: the one at which the count is 1 ends it.
unfoldable pub enum_monitors : ℕ → List ℕ → Option ℕ
enum_monitors idx [] = none
enum_monitors idx (h ∷ monitors) =
    let next = enum_monitors (u64 (idx + 18446744073709551615)) monitors in
    if idx == 1 then some h else next

unfoldable pub resolve_monitor : Option ℕ → List ℕ → ℕ → Option ℕ
unfolding enum_monitors
resolve_monitor primary monitors idx = if idx == 0 then primary else enum_monitors idx monitors

-- The encoders that a build can have; `name` is Name().
pub data Hardware : Type 0 where
  nvenc : Hardware
  qsv : Hardware
  amf : Hardware

abbrev pub name : Hardware → List ℕ
name nvenc = 110 ∷ 118 ∷ 101 ∷ 110 ∷ 99 ∷ []
name qsv = 113 ∷ 115 ∷ 118 ∷ []
name amf = 97 ∷ 109 ∷ 102 ∷ []

abbrev pub is_empty : List ℕ → Bool
is_empty [] = true
is_empty (c ∷ cs) = false

unfoldable pub add_hw : Args → List Hardware → Hardware → List Hardware
unfolding same_text
add_hw args out enc =
    if args.keep_raw || not (is_empty args.encoder) && not (same_text args.encoder (name enc))
    then out
    else out ++ enc ∷ []

-- Whether the build defines TWIN_HAVE_QSV and TWIN_HAVE_AMF.
pub record Build : Type 0 where
  pub have_qsv : Bool
  pub have_amf : Bool

unfoldable pub candidates : Build → Args → List Hardware
unfolding add_hw
candidates build args =
    let first = add_hw args [] nvenc in
    let second = if build.have_qsv then add_hw args first qsv else first in
    if build.have_amf then add_hw args second amf else second

-- The loop over the candidates: the first that starts, and those that were started.
unfoldable pub first_started : (Hardware → Bool) → List Hardware → Option Hardware
first_started starts [] = none
first_started starts (e ∷ rest) =
    let next = first_started starts rest in if starts e then some e else next

-- The encoder that main uses, `none` for the NullEncoder, whose Start does not fail.
unfoldable pub choose_encoder : Build → Args → (Hardware → Bool) → Option Hardware
unfolding candidates first_started
choose_encoder build args starts = first_started starts (candidates build args)
