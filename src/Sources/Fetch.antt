-- ===== src/Sources/Fetch.antt =====
-- The loop over the redirects in `_download` of sources/resolver.py. The result says which
-- connections were made and what the temporary file holds afterwards (`none` if it is gone).
pub mod Confined
pub mod Complete
use open_transcribe_mcp.Base.{
  ℕ, suc, zero, ◌+◌, String, Bool, true, false, Option, none, some, List, [], ◌∷◌, leb, str_eq,
  ◌||◌, if◌then◌else◌, not,
}
use open_transcribe_mcp.Domain.Errors.{
  Result, ok, err, ◌>>=◌, ◌>>◌, raise, Exception, open_transcribe_error, runtime_error,
  source_url_rejected, source_unavailable, number,
}
use open_transcribe_mcp.Settings.{is_falsy}
use open_transcribe_mcp.Sources.Ssrf.{Network, ValidatedUrl, UrlPolicy, validate_source_url}
use open_transcribe_mcp.Sources.Download.{
  Connection, connection_target, Response, Web, Limits, Download, Written, write_chunks,
  check_length, validate_audio, interrupted, HttpFailure, Exchange, failed, answered, failure_of,
}

pub record Fetch : Type 0 where
  pub connections : List Connection
  pub result : Result Download
  pub file : Option (List ℕ)

-- except Exception: unlink; raise
unfoldable pub finish : Result Download → Fetch
finish (err e) = record { connections = []; result = err e; file = none }
finish (ok d) = record { connections = []; result = ok d; file = some d.content }

abbrev pub visit : Connection → Fetch → Fetch
visit c f = record f { connections = c ∷ f.connections }

abbrev pub nothing_written : Written
nothing_written = record { content = []; prefix = []; size = 0 }

abbrev pub bad_status : ℕ → Result Download
bad_status status = err (
    open_transcribe_error (record {
      code = source_unavailable;
      message = "The audio source could not be downloaded.";
      provider = none;
      model = none;
      retryable = false;
      details = ("status_code", number status) ∷ [];
    }))

-- A connection may break while the chunks are read.
unfoldable pub unbroken : String → Option HttpFailure → Written → Result Written
unfolding failure_of
unbroken redacted none w = ok w
unbroken redacted (some f) w = failure_of redacted f

unfoldable pub read_body : Limits → String → Response → Result Download
unfolding check_length write_chunks validate_audio unbroken
read_body limits redacted r =
    if leb 400 r.status_code
    then bad_status r.status_code
    else (check_length limits r.content_length
        >> (write_chunks limits.max_audio_bytes nothing_written r.chunks
            >>= unbroken redacted r.broken
            >>= λ w.
                validate_audio w.prefix r.media_type w.size
                >> ok (record { content = w.content; media_type = r.media_type; size = w.size })))

abbrev bad_redirect : Result String
bad_redirect = raise source_url_rejected "The source redirect chain is invalid or too long."

unfoldable pub location_of : Option String → Bool → Result String
location_of none too_many = bad_redirect
location_of (some location) too_many =
    if str_eq location "" || too_many then bad_redirect else ok location

module _ (net : Network) (web : Web) (policy : UrlPolicy) (limits : Limits) where
  -- After the redirect has been validated in its turn.
  unfoldable pub continue : (String → ValidatedUrl → Fetch) → String → Result ValidatedUrl → Fetch
  unfolding finish
  continue next current (err e) = finish (err e)
  continue next current (ok v) = next current v

  unfoldable pub follow : (String → ValidatedUrl → Fetch) → ℕ → String → Result String → Fetch
  unfolding continue
  follow next count current (err e) = finish (err e)
  follow next count current (ok location) =
      let target = web.urljoin current location in
      continue next target (validate_source_url net policy (suc count) target)

  unfoldable pub on_response : (String → ValidatedUrl → Fetch) → ℕ → String → Exchange → Fetch
  unfolding follow location_of read_body failure_of
  on_response next count current (failed f) = finish (failure_of (web.redact_url current) f)
  on_response next count current (answered r) =
      if r.is_redirect
      then follow next count current (location_of r.location (leb limits.max_redirects count))
      else finish (read_body limits (web.redact_url current) r)

  -- validated.resolved_ips[0]
  unfoldable pub connect :
      (String → ValidatedUrl → Fetch) → ℕ → String → ValidatedUrl → List String → Fetch
  unfolding on_response connection_target
  connect next count current v [] = finish (err (runtime_error "IndexError"))
  connect next count current v (ip ∷ ips) =
      let c = connection_target v ip in visit c (on_response next count current (web.get count c))

  -- `fuel` is what is left of range(max_redirects + 1). The last line of the source, after the
  -- loop, stands outside the `try`, so the file would be left there.
  unfoldable pub fetch_from : ℕ → ℕ → String → ValidatedUrl → Fetch
  unfolding connect
  fetch_from zero count current v = record {
    connections = [];
    result = raise source_url_rejected "The redirect limit was exceeded.";
    file = some [];
  }
  fetch_from (suc fuel) count current v =
      connect (λ target w. fetch_from fuel (suc count) target w) count current v v.resolved_ips

  unfoldable pub download : String → ValidatedUrl → Fetch
  unfolding fetch_from
  download source_url v = fetch_from (suc limits.max_redirects) 0 source_url v
