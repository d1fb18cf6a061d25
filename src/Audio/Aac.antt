-- ===== src/Audio/Aac.antt =====
-- The life of AacEncoder in host/src/audio/aac.cpp: Init, Encode and Shutdown with what they take from Media Foundation
-- and give back. What Media Foundation reports is an argument of each call.
pub mod Balance
pub mod Pcm
use m_extender.Prelude.{
  ℕ, ◌+◌, ◌*◌, Bool, true, false, not, ◌&&◌, ◌||◌, List, Option, none, some, ◌==◌, if◌then◌else◌,
}
use m_extender.Prelude.Words.{u32}
use m_extender.Audio.Adts.{Impl, Outputs, OutputType, choose_output_type, encode}

-- `mft` says whether impl_->mft is not null. The counters have the calls of MFStartup that succeeded, of MFShutdown, of
-- ActivateObject that succeeded, and of Release on a transform.
pub record AacEncoder : Type 0 where
  pub impl : Option Impl
  pub mft : Bool
  pub startups : ℕ
  pub shutdowns : ℕ
  pub activations : ℕ
  pub releases : ℕ

pub record Answers : Type 0 where
  pub startup : Bool
  pub enumerated : Bool
  pub activate : Bool
  pub create_media_type : Bool
  pub set_input_type : Bool
  pub choose_output : Bool
  pub set_output_type : Bool

abbrev pub count : Bool → ℕ
count true = 1
count false = 0

abbrev pub is_some : Option Impl → Bool
is_some none = false
is_some (some i) = true

unfoldable pub shutdown : AacEncoder → AacEncoder
shutdown e =
    if is_some e.impl
    then record e {
      impl = none;
      mft = false;
      shutdowns = e.shutdowns + 1;
      releases = e.releases + count e.mft;
    }
    else e

abbrev pub new_impl : ℕ → ℕ → Impl
new_impl rate channels = record {
  rate = rate;
  channels = channels;
  block_align = u32 (channels * 2);
  sample_time = 0;
}

-- Init after MFStartup: the transform that is found and activated, and whether all the calls after it succeeded.
unfoldable pub set_up : Answers → ℕ → ℕ → AacEncoder → AacEncoder × Bool
unfolding shutdown
set_up a rate channels e =
    let activated = a.enumerated && a.activate in
    let f = record e {
      impl = some (new_impl rate channels);
      mft = activated;
      startups = e.startups + 1;
      activations = e.activations + count activated;
    } in
    if activated && a.create_media_type && a.set_input_type && a.choose_output && a.set_output_type
    then (f, true)
    else (shutdown f, false)

unfoldable pub init : Answers → ℕ → ℕ → AacEncoder → AacEncoder × Bool
unfolding set_up shutdown
init a rate channels e =
    let f = shutdown e in
    if not (rate == 44100) && not (rate == 48000) || not a.startup
    then (f, false)
    else set_up a rate channels f

-- Encode keeps the encoder but for the time stamp.
unfoldable pub encode_frame :
    Bool → Bool → Outputs → ℕ → List ℕ → AacEncoder → AacEncoder × Bool × List ℕ
unfolding encode
encode_frame prepared taken outputs samples out e =
    let r = encode e.impl prepared taken outputs samples out in
    (record e { impl = r.0 }, r.1.0, r.1.1)
