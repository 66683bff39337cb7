-- ===== src/Service/Results.antt =====
-- What a result of the service tells: its size, its duration, its fallbacks, and where it is kept.
use open_transcribe_mcp.Base.{
  ℕ, ◌*◌, ◌≡◌, ◌≤◌, refl, sym, subst, ◌∙◌, ap, String, false, ◌&&◌, Option, none, some, List, [],
  ◌∷◌, ◌++◌, true, arith, ltb, Bool-cases, inl, inr,
}
use open_transcribe_mcp.Domain.Errors.{Result, ok, err, ◌>>=◌, Detail}
use open_transcribe_mcp.Domain.Outcomes.{>>=-eq-ok, ok-injective, err-ne-ok}
use open_transcribe_mcp.Domain.Audio.{TranscribeAudioRequest, ResultMode, automatic, inline, stored}
use open_transcribe_mcp.Domain.Transcript.{
  CanonicalTranscript, TranscriptionMetadata, FallbackAttempt, TranscriptionResult, inline_result,
  stored_result, StoredTranscriptionResult,
}
use open_transcribe_mcp.Settings.{Settings}
use open_transcribe_mcp.Routing.Candidate.{RouteCandidate}
use open_transcribe_mcp.Routing.Route.{route}
use open_transcribe_mcp.Service.History.{IsHistory, trial-IsAnswered}
use open_transcribe_mcp.Sources.Broker.{World}
use open_transcribe_mcp.Service.Attempts.{Service, Trial}
use open_transcribe_mcp.Service.Transcribe.{
  Put, format_result, is_too_large, should_store, is_inline, stored_answer, conclude, annotate,
  note_fallback, last_reason, exceeds_duration, answer_with, transcribe, trial,
}

module _ {S : Type 0} (put : Put S) (serialized_size : CanonicalTranscript → ℕ)
    (settings : Settings) where
  -- What is answered about a transcript, from one store to the next.
  pub record IsAnswer (t : CanonicalTranscript) (s s' : S) (a : TranscriptionResult) : Type 0 where
    -- A whole transcript is within the response limit, and the store is untouched.
    pub whole :
        (u : CanonicalTranscript)
        → a ≡ inline_result u
        → (u ≡ t) × (s' ≡ s) × (serialized_size t ≤ settings.max_inline_response_bytes)
    -- A reference stands for a transcript that was put into the store, by its id.
    pub kept :
        (u : StoredTranscriptionResult)
        → a ≡ stored_result u
        → (u.transcript_id ≡ t.transcript_id) × (put t s ≡ (s', ok tt))

  inline-ne-stored :
      {t : CanonicalTranscript} {u : StoredTranscriptionResult}
      → inline_result t ≡ stored_result u
      → ⊥
  inline-ne-stored e = cc

  stored_answer-IsAnswer :
      (t : CanonicalTranscript) (s s' : S) (a : TranscriptionResult) (p : S × Result (Unit {0}))
      → put t s ≡ p
      → stored_answer t p ≡ (s', ok a)
      → IsAnswer t s s' a
  unfolding stored_answer
  stored_answer-IsAnswer t s s' a (s1, err x) h e =
      absurd (err-ne-ok (ap (λ (q : S × Result TranscriptionResult). q.1) e))
  stored_answer-IsAnswer t s s' a (s1, ok u) h e =
      let same = ap (λ (q : S × Result TranscriptionResult). q.0) e in
      let answer = ok-injective (ap (λ (q : S × Result TranscriptionResult). q.1) e) in
      record { whole = λ v w. cc; kept = λ v w. (cc, h ∙ ap (λ z. (z, ok tt)) same) }

  unstored_fits :
      (r : ResultMode) (t : CanonicalTranscript)
      → (is_inline r && ltb settings.max_inline_response_bytes (serialized_size t)) ≡ false
      → should_store r (is_too_large settings (serialized_size t) t) ≡ false
      → serialized_size t ≤ settings.max_inline_response_bytes
  unfolding is_inline should_store is_too_large
  unstored_fits automatic t h k = ground arith
  unstored_fits inline t h k = ground arith
  unstored_fits stored t h k = cc

  format_result-IsAnswer :
      (requested : ResultMode) (t : CanonicalTranscript) (s s' : S) (a : TranscriptionResult)
      → format_result put serialized_size settings requested t s ≡ (s', ok a)
      → IsAnswer t s s' a
  unfolding format_result
  format_result-IsAnswer requested t s s' a e =
      elim (Bool-cases
        (is_inline requested && ltb settings.max_inline_response_bytes (serialized_size t))) [
          | inl over ↦
              absurd (err-ne-ok (ap (λ (q : S × Result TranscriptionResult). q.1) (rw over at e)))
          | inr under ↦
              elim (Bool-cases
                (should_store requested (is_too_large settings (serialized_size t) t))) [
                  | inl keep ↦
                      stored_answer-IsAnswer t s s' a (put t s) refl (rw (under, keep) at e)
                  | inr whole ↦
                      let e' : (s, ok (inline_result t)) ≡ (s', ok a) = rw (under, whole) at e in
                      let same = ap (λ (q : S × Result TranscriptionResult). q.0) e' in
                      let answer =
                        ok-injective (ap (λ (q : S × Result TranscriptionResult). q.1) e') in
                      record {
                        whole = λ u w. (cc, sym same, unstored_fits requested t under whole);
                        kept = λ u w. cc;
                      }
                ]
        ]

-- The failures before an answer, in its metadata: none, or all of them and the reason of the last.
pub data AreNoted
    : List FallbackAttempt → TranscriptionMetadata → TranscriptionMetadata → Type 0 where
  direct : (m : TranscriptionMetadata) → AreNoted [] m m
  fallback :
      (earlier : List FallbackAttempt) (last : FallbackAttempt) (m : TranscriptionMetadata)
      → AreNoted (earlier ++ last ∷ []) m (record m {
        fallback_used = true;
        fallback_reason = some last.reason;
        fallback_history = earlier ++ last ∷ [];
      })

-- A transcript is what a provider returned, but for what the service adds: the warnings of the
-- candidate after the provider's, and the failures before it.
pub record IsAnnotated (failures : List FallbackAttempt) (selected : RouteCandidate)
    (returned t : CanonicalTranscript) : Type 0 where
  pub warnings : t.warnings ≡ returned.warnings ++ selected.warnings
  pub noted : AreNoted failures returned.metadata t.metadata
  pub rest : record t { warnings = returned.warnings; metadata = returned.metadata } ≡ returned

last_reason-append :
    (earlier : List FallbackAttempt) (last : FallbackAttempt)
    → last_reason (earlier ++ last ∷ []) ≡ some last.reason
unfolding last_reason
last_reason-append [] last = refl
last_reason-append (f ∷ []) last = refl
last_reason-append (f ∷ g ∷ earlier) last = last_reason-append (g ∷ earlier) last

last_of :
    (f : FallbackAttempt) (fs : List FallbackAttempt)
    → (earlier : List FallbackAttempt) × (last : FallbackAttempt) × (earlier ++ last ∷ [] ≡ f ∷ fs)
last_of f [] = ([], f, refl)
last_of f (g ∷ fs) = let (earlier, last, e) = last_of g fs in (f ∷ earlier, last, ap (λ x. f ∷ x) e)

noted_as : TranscriptionMetadata → List FallbackAttempt → Option String → TranscriptionMetadata
noted_as m fs reason = record m {
  fallback_used = true;
  fallback_reason = reason;
  fallback_history = fs;
}

note_fallback-AreNoted :
    (failures : List FallbackAttempt) (m : TranscriptionMetadata)
    → AreNoted failures m (note_fallback failures m)
unfolding note_fallback noted_as
note_fallback-AreNoted [] m = direct m
note_fallback-AreNoted (f ∷ fs) m =
    let (earlier, last, e) = last_of f fs in
    let reason = sym (last_reason-append earlier last) in
    subst (λ x. AreNoted x m (noted_as m x (last_reason x))) e
      (subst (λ r. AreNoted (earlier ++ last ∷ []) m (noted_as m (earlier ++ last ∷ []) r)) reason
        (fallback earlier last m))

annotate-IsAnnotated :
    (failures : List FallbackAttempt) (selected : RouteCandidate) (returned : CanonicalTranscript)
    → IsAnnotated failures selected returned (annotate failures selected returned)
unfolding annotate
annotate-IsAnnotated failures selected returned = record {
  warnings = refl;
  noted = note_fallback-AreNoted failures returned.metadata;
  rest = refl;
}

-- The transcript behind an answer: the one a provider returned in the attempts, with the history of
-- the failures before it, and within the duration limit.
pub record IsOutcome (settings : Settings) (trial : Trial) (t : CanonicalTranscript) : Type 0 where
  pub returned : CanonicalTranscript
  pub selected : RouteCandidate
  pub outcome : trial.outcome ≡ ok (some (returned, selected))
  pub annotated : IsAnnotated trial.failures selected returned t
  pub within :
      (ms : ℕ) → t.source_duration_ms ≡ some ms → ms ≤ settings.max_audio_duration_seconds * 1000

within_limit :
    (limit : ℕ) (d : Option ℕ) (ms : ℕ)
    → exceeds_duration limit d ≡ false
    → d ≡ some ms
    → ms ≤ limit * 1000
unfolding exceeds_duration
within_limit limit none ms h e = cc
within_limit limit (some d) ms h e = let same : d ≡ ms = ground arith in rw (← same) (ground arith)

conclude-IsOutcome :
    (settings : Settings) (trial : Trial) (o : Option (CanonicalTranscript × RouteCandidate))
    (t : CanonicalTranscript)
    → trial.outcome ≡ ok o
    → conclude settings trial.failures o ≡ ok t
    → IsOutcome settings trial t
unfolding conclude
conclude-IsOutcome settings trial none t h e = absurd (err-ne-ok e)
conclude-IsOutcome settings trial (some (u, c)) t h e =
    elim (Bool-cases (exceeds_duration settings.max_audio_duration_seconds u.source_duration_ms)) [
      | inl over ↦ absurd (err-ne-ok (rw over at e))
      | inr fits ↦ rw (← ok-injective (rw fits at e)) (record {
        returned = u;
        selected = c;
        outcome = h;
        annotated = annotate-IsAnnotated trial.failures c u;
        within =
            λ ms w. within_limit settings.max_audio_duration_seconds u.source_duration_ms ms fits w;
      })
    ]

module _ {S : Type 0} (put : Put S) (serialized_size : CanonicalTranscript → ℕ) where
  answer_with-IsAnswer :
      (service : Service) (mode : ResultMode) (r : Result CanonicalTranscript) (s s' : S)
      (a : TranscriptionResult) (show : Detail → String) (worlds : ℕ → World)
      → answer_with show service worlds put serialized_size mode r s ≡ (s', ok a)
      → (t : CanonicalTranscript) × (r ≡ ok t)
        × IsAnswer put serialized_size service.settings t s s' a
  unfolding answer_with
  answer_with-IsAnswer service mode (err x) s s' a show worlds e =
      absurd (err-ne-ok (ap (λ (q : S × Result TranscriptionResult). q.1) e))
  answer_with-IsAnswer service mode (ok t) s s' a show worlds e =
      (t, refl, format_result-IsAnswer put serialized_size service.settings mode t s s' a e)

-- A successful `transcribe` answers with the transcript that a provider returned in the attempts of
-- the request, with the warnings of its candidate after its own and, if attempts failed before it,
-- their history and the reason of the last; the failures are of the candidates of the route before
-- the one that answered, in their order. The rest is as it was returned, and its duration is within
-- the limit. If the answer is the whole transcript, its JSON text is
-- within the response limit and the store is unchanged; if it is a reference, then that transcript
-- was put into the store, under the id of the reference.
pub transcribe-IsAnswer :
    {S : Type 0} (put : Put S) (serialized_size : CanonicalTranscript → ℕ) (show : Detail → String)
    (service : Service) (worlds : ℕ → World) (request : TranscribeAudioRequest) (s s' : S)
    (a : TranscriptionResult)
    → transcribe show service worlds put serialized_size request s ≡ (s', ok a)
    → (t : CanonicalTranscript) × (o : IsOutcome service.settings
        (trial show service worlds request)
        t)
      × ((cs : List RouteCandidate) × (route service.router request ≡ ok cs)
          × IsHistory cs o.selected (trial show service worlds request).failures)
      × IsAnswer put serialized_size service.settings t s s' a
unfolding transcribe
transcribe-IsAnswer put serialized_size show service worlds request s s' a e =
    let tried = trial show service worlds request in
    let (t, concluded, answer) =
      answer_with-IsAnswer put serialized_size service request.result_mode
        (tried.outcome >>= conclude service.settings tried.failures) s s' a show worlds e in
    let (o, outcome, last) =
      >>=-eq-ok tried.outcome (conclude service.settings tried.failures) concluded in
    let from = conclude-IsOutcome service.settings tried o t outcome last in
    (
      t,
      from,
      trial-IsAnswered show service request worlds from.returned from.selected from.outcome,
      answer,
    )
