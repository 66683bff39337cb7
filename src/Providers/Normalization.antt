-- ===== src/Providers/Normalization.antt =====
-- providers/normalization.py: names of speakers and languages. The two digits of a number are an
-- argument; a key of a speaker is its text.
pub mod Speakers
use open_transcribe_mcp.Base.{
  ℕ, ◌+◌, String, Bool, true, false, ◌&&◌, Option, none, some, List, [], ◌∷◌, length, leb, ◌==◌,
  if◌then◌else◌, str_eq, take,
}
use open_transcribe_mcp.Base.Text.{◌+s◌, strip, split, codes}
use open_transcribe_mcp.Base.Dict.{Dict, lookup, insert}

lower_codes : List ℕ → List ℕ
lower_codes [] = []
lower_codes (c ∷ cs) = (if leb b'A' c && leb c b'Z' then c + 32 else c) ∷ lower_codes cs

dashes : List ℕ → List ℕ
dashes [] = []
dashes (c ∷ cs) = (if c == b'_' then b'-' else c) ∷ dashes cs

first_part : List (List ℕ) → List ℕ
first_part [] = []
first_part (p ∷ ps) = p

or_none : List ℕ → Option (List ℕ)
or_none [] = none
or_none (c ∷ cs) = some (c ∷ cs)

-- value.strip().replace("_", "-").split("-")[0].lower() or None
unfoldable pub normalize_language : Option (List ℕ) → Option (List ℕ)
unfolding lower_codes dashes first_part or_none strip split
normalize_language none = none
normalize_language (some value) =
    or_none (lower_codes (first_part (split b'-' (dashes (strip value)))))

-- The first header of the four that is there and not empty, cut at 200 characters.
first_header : List (Option (List ℕ)) → Option (List ℕ)
first_header [] = none
first_header (none ∷ hs) = first_header hs
first_header (some [] ∷ hs) = first_header hs
first_header (some (c ∷ cs) ∷ hs) = some (take 200 (c ∷ cs))

unfoldable pub provider_request_id : (String → Option (List ℕ)) → Option (List ℕ)
unfolding first_header
provider_request_id header = first_header (
    header "request-id"
    ∷ header "x-request-id"
    ∷ header "apim-request-id"
    ∷ header "x-groq-request-id"
    ∷ [])

abbrev pub SpeakerNormalizer : Type 0
SpeakerNormalizer = Dict String

module _ (two_digits : ℕ → String) where
  unfoldable pub label : ℕ → String
  label n = "SPEAKER_" +s two_digits (n + 1)

  known_or_new : String → SpeakerNormalizer → Option String → SpeakerNormalizer × String
  unfolding label
  known_or_new value s (some name) = (s, name)
  known_or_new value s none = (insert value (label (length s)) s, label (length s))

  unfoldable pub normalize : String → SpeakerNormalizer → SpeakerNormalizer × String
  unfolding known_or_new
  normalize value s = known_or_new value s (lookup value s)

  -- A missing speaker stays missing.
  unfoldable pub normalize_speaker :
      Option String → SpeakerNormalizer → SpeakerNormalizer × Option String
  unfolding normalize
  normalize_speaker none s = (s, none)
  normalize_speaker (some value) s = let (s', name) = normalize value s in (s', some name)
