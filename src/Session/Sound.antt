-- ===== src/Session/Sound.antt =====
-- The part of the main loop in host/src/main.cpp that drains the captured audio: each frame that PopFrame gives is encoded
-- and sent, until none is left or a send fails.
use m_extender.Prelude.{
  ℕ, ◌≡◌, refl, ap, Bool, true, false, List, [], ◌∷◌, ◌++◌, Option, none, some, arith, All, not,
  if◌then◌else◌,
}
use m_extender.Wire.{AudioFrame, encode_audio}

-- kAudioRate, AAC ADTS and kAudioChannels.
abbrev pub aac_header : AudioFrame
aac_header = record { sample_rate = 48000; codec = 1; channels = 2; bytes_per_sample = 0 }

unfoldable pub audio_message : List ℕ → List ℕ
unfolding encode_audio
audio_message aac_frame = encode_audio aac_header ++ aac_frame

-- The frames of the queue, each with what Encode gives for it, if it returns true, and whether SendFrame succeeds.
pub record Popped : Type 0 where
  pub pcm : List ℕ
  pub encoded : Option (List ℕ)
  pub sends : Bool

pub record Drained : Type 0 where
  pub sent : List (List ℕ)
  pub left : List Popped

unfoldable pub if_sent : Bool → List ℕ → List Popped → Drained → Drained
if_sent true message rest d = record d { sent = message ∷ d.sent }
if_sent false message rest d = record { sent = message ∷ []; left = rest }

unfoldable pub after_encode : Option (List ℕ) → Bool → List Popped → Drained → Drained
unfolding if_sent audio_message
after_encode none sends rest d = d
after_encode (some aac_frame) sends rest d = if_sent sends (audio_message aac_frame) rest d

-- The loop; what is left stays in the queue.
unfoldable pub drain_audio : List Popped → Drained
unfolding after_encode
drain_audio [] = record { sent = []; left = [] }
drain_audio (p ∷ rest) = after_encode p.encoded p.sends rest (drain_audio rest)

abbrev pub is_lost : Option (List ℕ) → Bool → Bool
is_lost none sends = false
is_lost (some aac_frame) sends = not sends

abbrev pub message_of : Option (List ℕ) → List (List ℕ)
message_of none = []
message_of (some aac_frame) = audio_message aac_frame ∷ []

-- The frames up to and with the first whose message is not sent.
abbrev pub tried : List Popped → List Popped
tried [] = []
tried (p ∷ rest) = p ∷ (if is_lost p.encoded p.sends then [] else tried rest)

-- The messages of the frames that could be encoded.
abbrev pub messages : List Popped → List (List ℕ)
messages [] = []
messages (p ∷ rest) = message_of p.encoded ++ messages rest

-- What holds of the loop on a queue.
abbrev pub Right : List Popped → Drained → Type 0
Right ps d =
    (tried ps ++ d.left ≡ ps)
    × (d.sent ≡ messages (tried ps))
    × (All (λ p. p.sends ≡ true) ps → d.left ≡ [])

step-Right :
    (pcm : List ℕ) (encoded : Option (List ℕ)) (sends : Bool) (rest : List Popped) (d : Drained)
    → Right rest d
    → Right
        (record { pcm = pcm; encoded = encoded; sends = sends } ∷ rest)
        (after_encode encoded sends rest d)
unfolding after_encode if_sent
step-Right pcm none sends rest d (l, m, a) =
    (ap (λ ps. record { pcm = pcm; encoded = none; sends = sends } ∷ ps) l, m, λ s. a s.1)
step-Right pcm (some f) true rest d (l, m, a) = (
  ap (λ ps. record { pcm = pcm; encoded = some f; sends = true } ∷ ps) l,
  ap (λ ms. audio_message f ∷ ms) m,
  λ s. a s.1,
)
step-Right pcm (some f) false rest d (l, m, a) = (refl, refl, λ s. absurd (ground (arith, s.0)))

-- Whatever is encoded and sent: what is tried and what is left are together the queue, in its order; a message is
-- handed to SendFrame for each frame tried that could be encoded, in the same order; and if every send succeeds,
-- nothing is left.
pub drain_audio_lem : (ps : List Popped) → Right ps (drain_audio ps)
unfolding drain_audio
drain_audio_lem [] = (refl, refl, λ a. refl)
drain_audio_lem (p ∷ rest) =
    step-Right p.pcm p.encoded p.sends rest (drain_audio rest) (drain_audio_lem rest)
