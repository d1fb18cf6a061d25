-- ===== src/Launch/Choice.antt =====
-- Which encoder main of host/src/main.cpp uses.
use m_extender.Prelude.{◌≡◌, Bool, true, not, ◌&&◌, ◌||◌, Option, none, some, arith, if◌then◌else◌}
use m_extender.Launch.{
  Args, Build, Hardware, nvenc, qsv, amf, name, is_empty, same_text, add_hw, candidates,
  first_started, choose_encoder,
}

abbrev pub in_build : Build → Hardware → Bool
in_build build nvenc = true
in_build build qsv = build.have_qsv
in_build build amf = build.have_amf

-- May be tried: the build has it, and the arguments neither force raw frames nor another encoder.
abbrev pub allowed : Build → Args → Hardware → Bool
allowed build args e =
    in_build build e
    && not args.keep_raw
    && (is_empty args.encoder || same_text args.encoder (name e))

-- The first in the order of preference of which something holds.
abbrev pub preferred : (Hardware → Bool) → Option Hardware
preferred holds =
    if holds nvenc
    then some nvenc
    else if holds qsv
    then some qsv
    else if holds amf
    then some amf
    else none

-- Whatever the build has, whatever the arguments force, and whichever encoders start: main uses the first of NVENC, QSV and
-- AMF that may be tried and starts, and NullEncoder exactly when there is none.
pub choose_encoder-preferred :
    (build : Build) (args : Args) (starts : Hardware → Bool)
    → choose_encoder build args starts ≡ preferred (λ e. allowed build args e && starts e)
unfolding choose_encoder candidates add_hw first_started
choose_encoder-preferred build args starts = ground arith
