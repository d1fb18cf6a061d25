-- ===== src/Audio/Aac/Pcm.antt =====
-- MakePcmType of host/src/audio/aac.cpp: the type of the samples that the AAC transform is given.
use m_extender.Prelude.{
  ℕ, ◌*◌, ◌/◌, ◌<◌, ◌^◌, ◌≡◌, refl, Bool, true, false, Option, none, some, arith,
}
use m_extender.Prelude.Words.{u32}

-- The attributes that are set, but for the two GUIDs.
pub record MediaType : Type 0 where
  pub samples_per_second : ℕ
  pub num_channels : ℕ
  pub bits_per_sample : ℕ
  pub block_alignment : ℕ
  pub avg_bytes_per_second : ℕ

-- `creates` says whether MFCreateMediaType succeeds.
unfoldable pub make_pcm_type : Bool → ℕ → ℕ → Option MediaType
make_pcm_type false rate channels = none
make_pcm_type true rate channels = some record {
  samples_per_second = rate;
  num_channels = channels;
  bits_per_sample = 16;
  block_alignment = channels * 2;
  avg_bytes_per_second = u32 (rate * channels * 2);
}

-- As long as the byte rate fits 32 bits, the type is consistent: a block is a sample of each channel, and the
-- byte rate is that of the blocks.
pub make_pcm_type_lem :
    (rate channels : ℕ)
    → rate * channels * 2 < 2 ^ 32
    → (t : MediaType) × (make_pcm_type true rate channels ≡ some t)
      × (t.block_alignment ≡ t.num_channels * (t.bits_per_sample / 8))
      × (t.avg_bytes_per_second ≡ t.samples_per_second * t.block_alignment)
unfolding make_pcm_type
make_pcm_type_lem rate channels h = (_, refl, refl, grind arith)
