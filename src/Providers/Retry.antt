-- ===== src/Providers/Retry.antt =====
-- The retry loop of providers/base.py and its reading of status codes. What each `send` does, the
-- parsed Retry-After header, the backoff, and Python's `str` of an integer are arguments.
pub mod Bounded
use open_transcribe_mcp.Base.{
  ℕ, zero, suc, ◌+◌, String, Bool, true, false, ◌||◌, Option, none, some, List, [], ◌∷◌, leb, ltb,
  ◌==◌, min, max, if◌then◌else◌, str_eq,
}
use open_transcribe_mcp.Base.Float.{Float, of_int}
use open_transcribe_mcp.Base.Text.{◌+s◌}
use open_transcribe_mcp.Domain.Errors.{
  ErrorCode, Result, ok, err, provider_error, runtime_error, text, number, provider_timeout,
  rate_limited, provider_unavailable, provider_authentication_failed, invalid_audio, Detail,
}

pub record HttpResponse : Type 0 where
  pub status_code : ℕ
  pub retry_after : Option Float
  pub content : List ℕ

-- A timeout, a network error, a response, or another exception, by its name.
pub data Sent : Type 0 where
  timed_out network_failure : Sent
  responded : HttpResponse → Sent
  escaping : String → Sent

-- TransientRequestError
pub record TransientRequestError : Type 0 where
  pub reason : String
  pub retry_after : Option Float

unfoldable pub transient_outcome : String → ErrorCode × String
transient_outcome reason =
    if str_eq reason "provider_timeout"
    then (provider_timeout, "The transcription provider did not respond in time.")
    else if str_eq reason "provider_http_429"
    then (rate_limited, "The transcription provider rate limit was exceeded.")
    else (provider_unavailable, "The transcription provider is temporarily unavailable.")

-- response.status_code in {...}
unfoldable pub is_bad_audio : ℕ → Bool
is_bad_audio s = s == 400 || s == 404 || s == 409 || s == 413 || s == 415 || s == 422

unfoldable pub status_outcome : ℕ → ErrorCode × String
unfolding is_bad_audio
status_outcome s =
    if s == 401 || s == 403
    then (
      provider_authentication_failed,
      "The transcription provider rejected its configured credentials.",
    )
    else if s == 429
    then (rate_limited, "The transcription provider rate limit was exceeded.")
    else if is_bad_audio s
    then (invalid_audio, "The provider rejected the audio or transcription parameters.")
    else (provider_unavailable, "The transcription provider returned an error.")

unfoldable pub raise_for_status : String → String → HttpResponse → Result HttpResponse
unfolding status_outcome
raise_for_status provider model r =
    if ltb r.status_code 400
    then ok r
    else err (
        provider_error (record {
          code = (status_outcome r.status_code).0;
          message = (status_outcome r.status_code).1;
          provider = some provider;
          model = some model;
          retryable = r.status_code == 429 || leb 500 r.status_code;
          details = ("status_code", number r.status_code) ∷ [];
        }))

abbrev pub max_retry_after : Float
max_retry_after = of_int 30

-- `_retry_wait`, for the backoff of that attempt
unfoldable pub retry_wait : Float → Option Float → Float
retry_wait backoff none = backoff
retry_wait backoff (some hint) = min (max hint backoff) max_retry_after

-- After the last attempt the error is raised again, and becomes a provider's error.
unfoldable pub give_up : String → String → TransientRequestError → Result HttpResponse
unfolding transient_outcome
give_up provider model e = err (
    provider_error (record {
      code = (transient_outcome e.reason).0;
      message = (transient_outcome e.reason).1;
      provider = some provider;
      model = some model;
      retryable = true;
      details = ("reason", text e.reason) ∷ [];
    }))

-- How often the request was sent, the waits between, and the result.
pub record Retried : Type 0 where
  pub sends : ℕ
  pub waits : List Float
  pub result : Result HttpResponse

abbrev pub once : Result HttpResponse → Retried
once result = record { sends = 1; waits = []; result = result }

abbrev pub again : Float → Retried → Retried
again wait r = record r { sends = suc r.sends; waits = wait ∷ r.waits }

module _ (decimal : ℕ → String) (send : ℕ → Sent) (backoff : ℕ → Float)
    (provider model : String) where
  -- One pass of the loop: a transient failure, or the end.
  unfoldable pub judge : Sent → (TransientRequestError → Retried) → Retried
  judge timed_out retry = retry (record { reason = "provider_timeout"; retry_after = none })
  judge network_failure retry =
      retry (record { reason = "provider_network_failure"; retry_after = none })
  judge (escaping name) retry = once (err (runtime_error name))
  judge (responded r) retry =
      if r.status_code == 429 || leb 500 r.status_code
      then retry (record {
        reason = "provider_http_" +s decimal r.status_code;
        retry_after = r.retry_after;
      })
      else once (raise_for_status provider model r)

  -- `left` attempts may follow the n-th.
  unfoldable pub attempt_from : ℕ → ℕ → Retried
  unfolding judge give_up retry_wait
  attempt_from zero n = judge (send n) (λ e. once (give_up provider model e))
  attempt_from (suc left) n =
      let rest = attempt_from left (suc n) in
      judge (send n) (λ e. again (retry_wait (backoff n) e.retry_after) rest)

  -- stop_after_attempt(3)
  unfoldable pub request_with_retry : Retried
  unfolding attempt_from
  request_with_retry = attempt_from 2 0
