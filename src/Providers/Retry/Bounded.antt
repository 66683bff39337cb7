-- ===== src/Providers/Retry/Bounded.antt =====
-- How often a request is sent, and what its result says.
use open_transcribe_mcp.Base.{
  ℕ, zero, suc, ◌≡◌, ◌≤◌, ◌<◌, refl, String, true, false, ◌||◌, leb, ltb, ◌==◌, arith, ap, length,
  Bool-cases, inl, inr,
}
use open_transcribe_mcp.Base.Float.{Float}
use open_transcribe_mcp.Domain.Errors.{
  ErrorResponse, Result, ok, err, provider_error, runtime_error,
}
use open_transcribe_mcp.Domain.Outcomes.{ok-injective, err-ne-ok}
use open_transcribe_mcp.Providers.Retry.{
  HttpResponse, Sent, timed_out, network_failure, responded, escaping, TransientRequestError,
  raise_for_status, give_up, Retried, once, again, judge, attempt_from, request_with_retry,
}

-- The last allowed attempt is `most`.
pub record IsBounded (most : ℕ) (r : Retried) : Type 0 where
  pub few : r.sends ≤ most
  pub waited : suc (length r.waits) ≡ r.sends
  pub succeeded : (h : HttpResponse) → r.result ≡ ok h → h.status_code < 400
  pub exhausted :
      (e : ErrorResponse) → r.result ≡ err (provider_error e) → e.retryable ≡ true → r.sends ≡ most

provider_error-injective :
    {e f : ErrorResponse}
    → ◌≡◌ {A = Result HttpResponse} (err (provider_error e)) (err (provider_error f))
    → e ≡ f
provider_error-injective h = cc

ended-IsBounded :
    (most : ℕ) (provider model : String) (h : HttpResponse)
    → 1 ≤ most
    → (h.status_code == 429 || leb 500 h.status_code) ≡ false
    → IsBounded most (once (raise_for_status provider model h))
unfolding raise_for_status
ended-IsBounded most provider model h low final = elim (Bool-cases (ltb h.status_code 400)) [
  | inl fine ↦ rw fine (record {
    few = low;
    waited = refl;
    succeeded = λ g e. let same = ok-injective e in rw (← same) (ground arith);
    exhausted = λ g e r. cc;
  })
  | inr bad ↦ rw bad (record {
    few = low;
    waited = refl;
    succeeded = λ g e. absurd (err-ne-ok e);
    exhausted = λ g e r.
        let same = ap (λ (x : ErrorResponse). x.retryable) (provider_error-injective e) in
        absurd (ground arith);
  })
]

escaped-IsBounded :
    (most : ℕ) (name : String) → 1 ≤ most → IsBounded most (once (err (runtime_error name)))
escaped-IsBounded most name low = record {
  few = low;
  waited = refl;
  succeeded = λ g e. absurd (err-ne-ok e);
  exhausted = λ g e r. cc;
}

given_up-IsBounded :
    (provider model : String) (e : TransientRequestError)
    → IsBounded 1 (once (give_up provider model e))
unfolding give_up
given_up-IsBounded provider model e = record {
  few = omega arith;
  waited = refl;
  succeeded = λ g h. absurd (err-ne-ok h);
  exhausted = λ g h r. refl;
}

again-IsBounded :
    (most : ℕ) (wait : Float) (r : Retried) → IsBounded most r → IsBounded (suc most) (again wait r)
again-IsBounded most wait r h = record {
  few = omega (arith, h.few);
  waited = omega (arith, h.waited);
  succeeded = h.succeeded;
  exhausted = λ e k l. ap suc (h.exhausted e k l);
}

module _ (decimal : ℕ → String) (send : ℕ → Sent) (backoff : ℕ → Float)
    (provider model : String) where
  judge-IsBounded :
      (most : ℕ) (s : Sent) (retry : TransientRequestError → Retried)
      → 1 ≤ most
      → ((e : TransientRequestError) → IsBounded most (retry e))
      → IsBounded most (judge decimal send backoff provider model s retry)
  unfolding judge
  judge-IsBounded most timed_out retry low h = h _
  judge-IsBounded most network_failure retry low h = h _
  judge-IsBounded most (escaping name) retry low h = escaped-IsBounded most name low
  judge-IsBounded most (responded r) retry low h =
      elim (Bool-cases (r.status_code == 429 || leb 500 r.status_code)) [
        | inl transient ↦ rw transient (h _)
        | inr final ↦ rw final (ended-IsBounded most provider model r low final)
      ]

  attempt_from-IsBounded :
      (left n : ℕ) → IsBounded (suc left) (attempt_from decimal send backoff provider model left n)
  unfolding attempt_from
  attempt_from-IsBounded zero n =
      judge-IsBounded 1 (send n) _ (omega arith) (given_up-IsBounded provider model)
  attempt_from-IsBounded (suc left) n =
      judge-IsBounded (suc (suc left)) (send n) _ (omega arith)
        (λ e. again-IsBounded (suc left) _ _ (attempt_from-IsBounded left (suc n)))

-- Whatever the service answers, a request is sent at least once and at most three times, with one
-- wait between two sends; a response that is returned has a status below 400; and a failure is
-- reported as retryable, so that another provider may be tried, only after all three.
pub request_with_retry-IsBounded :
    (decimal : ℕ → String) (send : ℕ → Sent) (backoff : ℕ → Float) (provider model : String)
    → IsBounded 3 (request_with_retry decimal send backoff provider model)
unfolding request_with_retry
request_with_retry-IsBounded decimal send backoff provider model =
    attempt_from-IsBounded decimal send backoff provider model 2 0
