-- ===== src/Examples/Start.antt =====
-- The choice of the encoder in host/src/main.cpp, and the AAC encoder, at concrete inputs.
use m_extender.Prelude.{◌≡◌, refl, Bool, true, false, ◌&&◌, [], ◌∷◌, List, none}
use m_extender.Launch.{Args, Build, Hardware, nvenc, qsv, amf, choose_encoder}
use m_extender.Launch.Choice.{allowed, preferred, choose_encoder-preferred}
use m_extender.Audio.Adts.{need_more_input}
use m_extender.Audio.Aac.{AacEncoder, Answers, shutdown}
use m_extender.Audio.Aac.Balance.{
  Operation, initializing, encoding, Balanced, perform_all, perform_all-Balanced,
}

abbrev defaults : Args
defaults = record { port = 27000; monitor = 0; keep_raw = false; encoder = [] }

abbrev both : Build
both = record { have_qsv = true; have_amf = true }

abbrev not_nvenc : Hardware → Bool
not_nvenc nvenc = false
not_nvenc qsv = true
not_nvenc amf = true

choose_encoder-preferred_example :
    choose_encoder both defaults not_nvenc ≡ preferred (λ e. allowed both defaults e && not_nvenc e)
choose_encoder-preferred_example = choose_encoder-preferred both defaults not_nvenc

abbrev unborn : AacEncoder
unborn = record {
  impl = none;
  mft = false;
  startups = 0;
  shutdowns = 0;
  activations = 0;
  releases = 0;
}

-- The transform refuses the input type.
abbrev refusing : Answers
refusing = record {
  startup = true;
  enumerated = true;
  activate = true;
  create_media_type = true;
  set_input_type = false;
  choose_output = true;
  set_output_type = true;
}

abbrev life : List Operation
life =
    initializing refusing 48000 2
    ∷ initializing (record refusing { set_input_type = true }) 48000 2
    ∷ encoding true true need_more_input 1024
    ∷ initializing refusing 8000 2
    ∷ []

perform_all-Balanced_example :
    let f = shutdown (perform_all life unborn) in
    Balanced (perform_all life unborn) × (f.startups ≡ f.shutdowns) × (f.activations ≡ f.releases)
perform_all-Balanced_example =
    perform_all-Balanced life unborn (record { startups = refl; activations = refl; held = refl })
