-- ===== src/Service/Transcribe.antt =====
-- `transcribe` and `_format_result` of service.py. `serialized_size` measures the JSON text of a
-- transcript.
use open_transcribe_mcp.Base.{
  ℕ, ◌*◌, String, Bool, true, false, not, ◌&&◌, ◌||◌, Option, none, some, List, [], ◌∷◌, ◌++◌, map,
  ltb, ◌==◌, length, if◌then◌else◌,
}
use open_transcribe_mcp.Domain.Errors.{
  Result, ok, err, ◌>>=◌, raise, Detail, attempts, open_transcribe_error, result_store_disabled,
  source_duration_exceeded, provider_unavailable, runtime_error,
}
use open_transcribe_mcp.Domain.Audio.{TranscribeAudioRequest, ResultMode, automatic, inline, stored}
use open_transcribe_mcp.Domain.Transcript.{
  CanonicalTranscript, TranscriptionMetadata, FallbackAttempt, TranscriptionResult, inline_result,
  stored_result,
}
use open_transcribe_mcp.Settings.{Settings}
use open_transcribe_mcp.ResultStore.Chunks.{or_empty}
use open_transcribe_mcp.Routing.Candidate.{RouteCandidate}
use open_transcribe_mcp.Routing.Route.{route}
use open_transcribe_mcp.Sources.Broker.{World}
use open_transcribe_mcp.Service.Attempts.{Service, Trial, try_all, stop}
use open_transcribe_mcp.Service.Limits.{enforce_preflight_limits}

unfoldable pub is_too_large : Settings → ℕ → CanonicalTranscript → Bool
is_too_large s size t =
    ltb s.max_inline_text_chars (length (or_empty t.text))
    || ltb s.max_inline_segments (length (or_empty t.segments))
    || ltb s.max_inline_response_bytes size

unfoldable pub should_store : ResultMode → Bool → Bool
should_store stored too_large = true
should_store automatic too_large = too_large
should_store inline too_large = false

unfoldable pub is_inline : ResultMode → Bool
is_inline inline = true
is_inline _ = false

-- A store of results, by its `put`.
abbrev pub Put : Type 0 → Type 0
Put S = CanonicalTranscript → S → S × Result (Unit {0})

unfoldable pub stored_answer :
    {S : Type 0} → CanonicalTranscript → S × Result (Unit {0}) → S × Result TranscriptionResult
stored_answer t (s, err e) = (s, err e)
stored_answer t (s, ok u) = (
  s,
  ok (
      stored_result (record {
        transcript_id = t.transcript_id;
        provider = t.provider;
        model = t.model;
        text_chars = length (or_empty t.text);
        segment_count = length (or_empty t.segments);
        warnings = t.warnings;
      })),
)

module _ {S : Type 0} (put : Put S) (serialized_size : CanonicalTranscript → ℕ) where
  unfoldable pub format_result :
      Settings → ResultMode → CanonicalTranscript → S → S × Result TranscriptionResult
  unfolding is_too_large should_store is_inline stored_answer
  format_result settings requested t s =
      let size = serialized_size t in
      if is_inline requested && ltb settings.max_inline_response_bytes size
      then (
        s,
        raise result_store_disabled
            "The transcript exceeds the hard inline response limit; use stored mode.",
      )
      else if should_store requested (is_too_large settings size t)
      then stored_answer t (put t s)
      else (s, ok (inline_result t))

-- failures[-1].reason
unfoldable pub last_reason : List FallbackAttempt → Option String
last_reason [] = none
last_reason (f ∷ []) = some f.reason
last_reason (f ∷ g ∷ fs) = last_reason (g ∷ fs)

-- if failures: ...
unfoldable pub note_fallback : List FallbackAttempt → TranscriptionMetadata → TranscriptionMetadata
unfolding last_reason
note_fallback [] m = m
note_fallback (f ∷ fs) m = record m {
  fallback_used = true;
  fallback_reason = last_reason (f ∷ fs);
  fallback_history = f ∷ fs;
}

unfoldable pub annotate :
    List FallbackAttempt → RouteCandidate → CanonicalTranscript → CanonicalTranscript
unfolding note_fallback
annotate failures selected t = record t {
  warnings = t.warnings ++ selected.warnings;
  metadata = note_fallback failures t.metadata;
}

-- source_duration_ms and source_duration_ms / 1000 > max_audio_duration_seconds. The quotient is
-- compared exactly.
unfoldable pub exceeds_duration : ℕ → Option ℕ → Bool
exceeds_duration limit none = false
exceeds_duration limit (some ms) = not (ms == 0) && ltb (limit * 1000) ms

abbrev pub attempt_of : FallbackAttempt → String × String × String
attempt_of f = (f.provider, f.model, f.reason)

-- After the loop: the transcript to answer with.
unfoldable pub conclude :
    Settings
    → List FallbackAttempt
    → Option (CanonicalTranscript × RouteCandidate)
    → Result CanonicalTranscript
unfolding annotate exceeds_duration
conclude settings failures none = err (
    open_transcribe_error (record {
      code = provider_unavailable;
      message = "All compatible transcription providers failed.";
      provider = none;
      model = none;
      retryable = true;
      details = ("attempts", attempts (map attempt_of failures)) ∷ [];
    }))
conclude settings failures (some (t, selected)) =
    if exceeds_duration settings.max_audio_duration_seconds t.source_duration_ms
    then raise source_duration_exceeded "The audio exceeds the configured duration limit."
    else ok (annotate failures selected t)

module _ (show : Detail → String) (service : Service) (worlds : ℕ → World) where
  unfoldable pub after_preflight :
      TranscribeAudioRequest → List RouteCandidate → Result (Unit {0}) → Trial
  after_preflight request cs (err e) = stop [] (err e)
  after_preflight request cs (ok u) = try_all show service request worlds 0 [] cs

  -- candidates[0], before the loop
  unfoldable pub try_routed : TranscribeAudioRequest → Result (List RouteCandidate) → Trial
  unfolding after_preflight
  try_routed request (err e) = stop [] (err e)
  try_routed request (ok []) = stop [] (err (runtime_error "IndexError"))
  try_routed request (ok (c ∷ cs)) =
      after_preflight request (c ∷ cs) (enforce_preflight_limits service request c.model)

  -- The attempts that a request leads to.
  unfoldable pub trial : TranscribeAudioRequest → Trial
  unfolding try_routed
  trial request = try_routed request (route service.router request)

  module _ {S : Type 0} (put : Put S) (serialized_size : CanonicalTranscript → ℕ) where
    unfoldable pub answer_with :
        ResultMode → Result CanonicalTranscript → S → S × Result TranscriptionResult
    answer_with mode (err e) s = (s, err e)
    answer_with mode (ok t) s = format_result put serialized_size service.settings mode t s

    unfoldable pub transcribe : TranscribeAudioRequest → S → S × Result TranscriptionResult
    unfolding conclude answer_with
    transcribe request s =
        let t = trial request in
        answer_with request.result_mode (t.outcome >>= conclude service.settings t.failures) s
