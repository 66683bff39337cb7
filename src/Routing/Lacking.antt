-- ===== src/Routing/Lacking.antt =====
-- What a model lacks of what a request asks for: `missing_capabilities` finds exactly that.
use mathlib.Core.List.{Memᴰ}
use open_transcribe_mcp.Base.{
  ℕ, String, ◌≡◌, ◌≢◌, ◌<◌, refl, sym, ◌∙◌, Bool, true, false, not, ◌&&◌, Option, none, some, List,
  [], ◌∷◌, All, arith, inl, inr, ◌⊎◌,
}
use open_transcribe_mcp.Base.Float.{Float, of_int}
use open_transcribe_mcp.Base.Text.{◌+s◌}
use open_transcribe_mcp.Base.Sequences.{is_nonempty}
use open_transcribe_mcp.Domain.Audio.{
  TranscribeAudioRequest, TimestampMode, TranscriptStyle, mode_value, style_value, is_given,
}
use open_transcribe_mcp.Domain.Capabilities.{
  ModelDescriptor, ModelLifecycle, preview, ga, deprecated,
}
use open_transcribe_mcp.Routing.Candidate.{
  missing_capabilities, note, has_mode, has_style, lacks_timestamps, lacks_style, is_true, too_long,
  is_preview,
}
use open_transcribe_mcp.Base.Members.{append-All, in_seven}
use open_transcribe_mcp.Routing.Offers.{
  absent-has_mode, has_mode-absent, absent-has_style, has_style-absent,
}

-- The request asks for something that the model does not offer, by the name it is reported under.
pub data Lacks (request : TranscribeAudioRequest) (m : ModelDescriptor) : String → Type 0 where
  preview_model :
      m.lifecycle ≡ preview → request.allow_preview_models ≡ false → Lacks request m "preview_model"
  diarization :
      request.diarization ≡ some true
      → m.supports_diarization ≡ false
      → Lacks request m "diarization"
  timestamps :
      (t : TimestampMode)
      → request.timestamps ≡ some t
      → (Memᴰ t m.timestamp_modes → ⊥)
      → Lacks request m ("timestamps:" +s mode_value t)
  style :
      (s : TranscriptStyle)
      → request.transcript_style ≡ some s
      → (Memᴰ s m.transcript_styles → ⊥)
      → Lacks request m ("transcript_style:" +s style_value s)
  language_detection :
      request.language ≡ none
      → m.supports_language_detection ≡ false
      → Lacks request m "language_detection"
  phrase_hints :
      request.phrase_hints ≢ [] → m.supports_phrase_hints ≡ false → Lacks request m "phrase_hints"
  duration :
      (hint : Float) (limit : ℕ)
      → request.duration_seconds_hint ≡ some hint
      → m.max_audio_seconds ≡ some limit
      → limit ≢ 0
      → of_int limit < hint
      → Lacks request m "max_audio_seconds"

-- What is noted under a test, and what is put together.
note-All :
    (P : String → Type 0) (b : Bool) (name : String) → (b ≡ true → P name) → All P (note b name)
note-All P true name h = (h refl, tt)
note-All P false name h = tt

note-Mem : (b : Bool) (name : String) → b ≡ true → Memᴰ name (note b name)
note-Mem true name h = Memᴰ.head refl
note-Mem false name h = cc

module _ (request : TranscribeAudioRequest) (m : ModelDescriptor) where
  preview-Lacks :
      (l : ModelLifecycle)
      → m.lifecycle ≡ l
      → (is_preview l && not request.allow_preview_models) ≡ true
      → Lacks request m "preview_model"
  unfolding is_preview
  preview-Lacks preview e h = preview_model e (ground arith)
  preview-Lacks ga e h = cc
  preview-Lacks deprecated e h = cc

  diarization-Lacks :
      (o : Option Bool)
      → request.diarization ≡ o
      → (is_true o && not m.supports_diarization) ≡ true
      → Lacks request m "diarization"
  unfolding is_true
  diarization-Lacks none e h = cc
  diarization-Lacks (some true) e h = diarization e (ground arith)
  diarization-Lacks (some false) e h = cc

  timestamps-Lacks :
      (o : Option TimestampMode)
      → request.timestamps ≡ o
      → All (Lacks request m) (lacks_timestamps o m.timestamp_modes)
  unfolding lacks_timestamps
  timestamps-Lacks none e = tt
  timestamps-Lacks (some t) e =
      note-All _ _ _ (λ h. timestamps t e (has_mode-absent t m.timestamp_modes (ground arith)))

  style-Lacks :
      (o : Option TranscriptStyle)
      → request.transcript_style ≡ o
      → All (Lacks request m) (lacks_style o m.transcript_styles)
  unfolding lacks_style
  style-Lacks none e = tt
  style-Lacks (some t) e =
      note-All _ _ _ (λ h. style t e (has_style-absent t m.transcript_styles (ground arith)))

  detection-Lacks :
      (o : Option String)
      → request.language ≡ o
      → (not (is_given o) && not m.supports_language_detection) ≡ true
      → Lacks request m "language_detection"
  unfolding is_given
  detection-Lacks none e h = language_detection e (ground arith)
  detection-Lacks (some l) e h = cc

  hints-Lacks :
      (hs : List String)
      → request.phrase_hints ≡ hs
      → (is_nonempty hs && not m.supports_phrase_hints) ≡ true
      → Lacks request m "phrase_hints"
  unfolding is_nonempty
  hints-Lacks [] e h = cc
  hints-Lacks (x ∷ xs) e h = phrase_hints (λ k. let f = sym e ∙ k in cc) (ground arith)

  duration-Lacks :
      (o : Option Float) (l : Option ℕ)
      → request.duration_seconds_hint ≡ o
      → m.max_audio_seconds ≡ l
      → too_long o l ≡ true
      → Lacks request m "max_audio_seconds"
  unfolding too_long
  duration-Lacks none l e f h = cc
  duration-Lacks (some hint) none e f h = cc
  duration-Lacks (some hint) (some limit) e f h =
      duration hint limit e f (ground arith) (ground arith)

  pub missing-Lacks : All (Lacks request m) (missing_capabilities request m)
  unfolding missing_capabilities
  missing-Lacks = append-All _ _ _ (note-All _ _ _ (preview-Lacks m.lifecycle refl)) (
      append-All _ _ _ (note-All _ _ _ (diarization-Lacks request.diarization refl)) (
        append-All _ _ _ (timestamps-Lacks request.timestamps refl) (
          append-All _ _ _ (style-Lacks request.transcript_style refl) (
            append-All _ _ _ (note-All _ _ _ (detection-Lacks request.language refl)) (
              append-All _ _ _ (note-All _ _ _ (hints-Lacks request.phrase_hints refl)) (
                note-All _ _ _
                  (duration-Lacks request.duration_seconds_hint m.max_audio_seconds refl refl)))))))

  nonempty_test : (hs : List String) → hs ≢ [] → is_nonempty hs ≡ true
  unfolding is_nonempty
  nonempty_test [] h = absurd (h refl)
  nonempty_test (x ∷ xs) h = refl

  timestamps-noted :
      (t : TimestampMode) (o : Option TimestampMode)
      → o ≡ some t
      → (Memᴰ t m.timestamp_modes → ⊥)
      → Memᴰ ("timestamps:" +s mode_value t) (lacks_timestamps o m.timestamp_modes)
  unfolding lacks_timestamps
  timestamps-noted t o a b =
      let lacking : not (has_mode t m.timestamp_modes) ≡ true =
        rw (absent-has_mode t m.timestamp_modes b) refl in
      rw a (note-Mem _ _ lacking)

  style-noted :
      (t : TranscriptStyle) (o : Option TranscriptStyle)
      → o ≡ some t
      → (Memᴰ t m.transcript_styles → ⊥)
      → Memᴰ ("transcript_style:" +s style_value t) (lacks_style o m.transcript_styles)
  unfolding lacks_style
  style-noted t o a b =
      let lacking : not (has_style t m.transcript_styles) ≡ true =
        rw (absent-has_style t m.transcript_styles b) refl in
      rw a (note-Mem _ _ lacking)

  abbrev of_preview : List String
  of_preview = note (is_preview m.lifecycle && not request.allow_preview_models) "preview_model"

  abbrev of_diarization : List String
  of_diarization = note (is_true request.diarization && not m.supports_diarization) "diarization"

  abbrev of_timestamps : List String
  of_timestamps = lacks_timestamps request.timestamps m.timestamp_modes

  abbrev of_style : List String
  of_style = lacks_style request.transcript_style m.transcript_styles

  abbrev of_detection : List String
  of_detection =
      note (not (is_given request.language) && not m.supports_language_detection)
        "language_detection"

  abbrev of_hints : List String
  of_hints = note (is_nonempty request.phrase_hints && not m.supports_phrase_hints) "phrase_hints"

  abbrev of_duration : List String
  of_duration =
      note (too_long request.duration_seconds_hint m.max_audio_seconds) "max_audio_seconds"

  -- Where a capability that is lacked is noted.
  Lacks-noted :
      (name : String)
      → Lacks request m name
      → Memᴰ name of_preview
        ⊎ (Memᴰ name of_diarization
            ⊎ (Memᴰ name of_timestamps
                ⊎ (Memᴰ name of_style
                    ⊎ (Memᴰ name of_detection ⊎ (Memᴰ name of_hints ⊎ (Memᴰ name of_duration))))))
  unfolding is_preview is_true is_given too_long
  Lacks-noted name (preview_model a b) =
      let is_noted : (is_preview m.lifecycle && not request.allow_preview_models) ≡ true =
        rw (a, b) refl in
      inl (note-Mem _ _ is_noted)
  Lacks-noted name (diarization a b) =
      let is_noted : (is_true request.diarization && not m.supports_diarization) ≡ true =
        rw (a, b) refl in
      inr (inl (note-Mem _ _ is_noted))
  Lacks-noted name (timestamps t a b) = inr (inr (inl (timestamps-noted t request.timestamps a b)))
  Lacks-noted name (style t a b) =
      inr (inr (inr (inl (style-noted t request.transcript_style a b))))
  Lacks-noted name (language_detection a b) =
      let is_noted : (not (is_given request.language) && not m.supports_language_detection) ≡ true =
        rw (a, b) refl in
      inr (inr (inr (inr (inl (note-Mem _ _ is_noted)))))
  Lacks-noted name (phrase_hints a b) =
      let is_noted : (is_nonempty request.phrase_hints && not m.supports_phrase_hints) ≡ true =
        rw (nonempty_test request.phrase_hints a, b) refl in
      inr (inr (inr (inr (inr (inl (note-Mem _ _ is_noted))))))
  Lacks-noted name (duration hint limit a b c d) =
      let is_noted : (too_long request.duration_seconds_hint m.max_audio_seconds) ≡ true =
        rw (a, b) (ground arith) in
      inr (inr (inr (inr (inr (inr (note-Mem _ _ is_noted))))))

  pub Lacks-missing :
      (name : String) → Lacks request m name → Memᴰ name (missing_capabilities request m)
  unfolding missing_capabilities
  Lacks-missing name h =
      in_seven of_preview of_diarization of_timestamps of_style of_detection of_hints of_duration
        name (Lacks-noted name h)
