-- ===== src/Sources/Fetch/Complete.antt =====
-- What a download leaves in the temporary file, and how large that is.
use open_transcribe_mcp.Base.{
  ℕ, suc, zero, ◌+◌, ◌≤◌, ◌≡◌, ◌≢◌, refl, sym, ◌∙◌, inl, inr, String, Bool, false, Option, none,
  some, List, [], ◌∷◌, ◌++◌, arith, length, length-append, Bool-cases, leb, ltb,
}
use open_transcribe_mcp.Domain.Errors.{Result, ok, err, ◌>>=◌, Exception}
use open_transcribe_mcp.Domain.Outcomes.{>>=-eq-ok, ok-injective, err-ne-ok}
use open_transcribe_mcp.Sources.Ssrf.{Network, ValidatedUrl, UrlPolicy, validate_source_url}
use open_transcribe_mcp.Sources.Download.{
  connection_target, Response, Web, Limits, Download, Written, grow, write_chunks, check_length,
  validate_audio, HttpFailure, network, escaping, Exchange, failed, answered, failure_of,
}
use open_transcribe_mcp.Sources.Fetch.{
  Fetch, finish, continue, follow, on_response, connect, fetch_from, download, location_of,
  read_body, unbroken, nothing_written,
}

-- The bytes of all the chunks, in order.
abbrev pub concat : List (List ℕ) → List ℕ
concat [] = []
concat (x ∷ xs) = x ++ concat xs

append_assoc : (xs ys zs : List ℕ) → (xs ++ ys) ++ zs ≡ xs ++ (ys ++ zs)
append_assoc [] ys zs = refl
append_assoc (x ∷ xs) ys zs = rw (append_assoc xs ys zs) refl

append_nil : (xs : List ℕ) → xs ++ [] ≡ xs
append_nil [] = refl
append_nil (x ∷ xs) = rw (append_nil xs) refl

record IsWritten (limit : ℕ) (before after : Written) (chunks : List (List ℕ)) : Type 0 where
  content : after.content ≡ before.content ++ concat chunks
  size : after.size ≡ length after.content
  bounded : after.size ≤ limit

write_chunks-IsWritten :
    (limit : ℕ) (w : Written) (chunks : List (List ℕ)) (w' : Written)
    → w.size ≡ length w.content
    → w.size ≤ limit
    → write_chunks limit w chunks ≡ ok w'
    → IsWritten limit w w' chunks
unfolding write_chunks
write_chunks-IsWritten limit w [] w' counted fits e =
    rw (← ok-injective e)
      (record { content = sym (append_nil w.content); size = counted; bounded = fits })
write_chunks-IsWritten limit w (chunk ∷ chunks) w' counted fits e =
    elim (Bool-cases (ltb limit (w.size + length chunk))) [
      | inl over ↦ absurd (err-ne-ok (rw over at e))
      | inr under ↦
          let rest =
            write_chunks-IsWritten limit (grow w chunk) chunks w'
              (omega (arith, counted, length-append w.content chunk)) (ground arith)
              (rw under at e) in
          record {
            content = rest.content ∙ append_assoc w.content chunk (concat chunks);
            size = rest.size;
            bounded = rest.bounded;
          }
    ]

-- The body of an audio file that may be kept.
pub record IsKept (limits : Limits) (d : Download) : Type 0 where
  pub size : d.size ≡ length d.content
  pub bounded : d.size ≤ limits.max_audio_bytes
  pub nonempty : d.size ≢ 0

validate_audio-nonempty :
    (prefix : List ℕ) (media_type : Option String) (size : ℕ) (u : Unit {0})
    → validate_audio prefix media_type size ≡ ok u
    → size ≢ 0
unfolding validate_audio
validate_audio-nonempty prefix media_type size u e zero' = absurd (err-ne-ok (rw zero' at e))

unbroken-eq :
    (redacted : String) (f : Option HttpFailure) (w w' : Written)
    → unbroken redacted f w ≡ ok w'
    → w ≡ w'
unfolding unbroken failure_of
unbroken-eq redacted none w w' e = ok-injective e
unbroken-eq redacted (some network) w w' e = absurd (err-ne-ok e)
unbroken-eq redacted (some (escaping name)) w w' e = absurd (err-ne-ok e)

read_body-IsKept :
    (limits : Limits) (redacted : String) (r : Response) (d : Download)
    → read_body limits redacted r ≡ ok d
    → IsKept limits d × (d.content ≡ concat r.chunks)
unfolding read_body
read_body-IsKept limits redacted r d e = elim (Bool-cases (leb 400 r.status_code)) [
  | inl bad ↦ absurd (err-ne-ok (rw bad at e))
  | inr good ↦
      let e' = rw good at e in
      let (u, e_length, e1) = >>=-eq-ok (check_length limits r.content_length) _ e' in
      let (w, e_read, e2) =
        >>=-eq-ok
          (write_chunks limits.max_audio_bytes nothing_written r.chunks
            >>= unbroken redacted r.broken)
          _ e1 in
      let (w0, e_written, e_unbroken) =
        >>=-eq-ok (write_chunks limits.max_audio_bytes nothing_written r.chunks)
          (unbroken redacted r.broken) e_read in
      let same = unbroken-eq redacted r.broken w0 w e_unbroken in
      let (u', e_valid, e3) = >>=-eq-ok (validate_audio w.prefix r.media_type w.size) _ e2 in
      let written =
        write_chunks-IsWritten limits.max_audio_bytes nothing_written r.chunks w0 refl (omega arith)
          e_written in
      let nonempty = validate_audio-nonempty w.prefix r.media_type w.size u' e_valid in
      rw (← ok-injective e3, ← same)
        (
          record {
            size = written.size;
            bounded = written.bounded;
            nonempty = λ z. nonempty (rw (← same) z);
          },
          written.content,
        )
]

-- After a download the file holds the audio, or it is gone.
pub record IsComplete (limits : Limits) (f : Fetch) : Type 0 where
  pub saved : (d : Download) → f.result ≡ ok d → (f.file ≡ some d.content) × IsKept limits d
  pub removed : (x : Exception) → f.result ≡ err x → f.file ≡ none

module _ (net : Network) (web : Web) (policy : UrlPolicy) (limits : Limits) where
  finish_err-IsComplete : (x : Exception) → IsComplete limits (finish (err x))
  unfolding finish
  finish_err-IsComplete x = record { saved = λ d e. absurd (err-ne-ok e); removed = λ y e. refl }

  finish-IsComplete :
      (r : Result Download)
      → ((d : Download) → r ≡ ok d → IsKept limits d)
      → IsComplete limits (finish r)
  unfolding finish
  finish-IsComplete (err x) h = finish_err-IsComplete x
  finish-IsComplete (ok d) h = record {
    saved = λ d' e. let same = ok-injective e in rw (← same) (refl, h d refl);
    removed = λ y e. cc;
  }

  module _ (next : String → ValidatedUrl → Fetch) (count : ℕ)
      (complete : leb limits.max_redirects count ≡ false
        → (target : String) (w : ValidatedUrl) → IsComplete limits (next target w)) where
    continue-IsComplete :
        (current : String) (r : Result ValidatedUrl)
        → leb limits.max_redirects count ≡ false
        → IsComplete limits (continue net web policy limits next current r)
    unfolding continue
    continue-IsComplete current (err x) h = finish_err-IsComplete x
    continue-IsComplete current (ok v) h = complete h current v

    follow-IsComplete :
        (current : String) (r : Result String)
        → ((location : String) → r ≡ ok location → leb limits.max_redirects count ≡ false)
        → IsComplete limits (follow net web policy limits next count current r)
    unfolding follow
    follow-IsComplete current (err x) h = finish_err-IsComplete x
    follow-IsComplete current (ok location) h =
        let target = web.urljoin current location in
        continue-IsComplete target (validate_source_url net policy (suc count) target)
          (h location refl)

    location_of-early :
        (location : Option String) (b : Bool) (found : String)
        → location_of location b ≡ ok found
        → b ≡ false
    unfolding location_of
    location_of-early none b found e = absurd (err-ne-ok e)
    location_of-early (some location) b found e = ground arith

    failure-IsComplete :
        (redacted : String) (f : HttpFailure) → IsComplete limits (finish (failure_of redacted f))
    unfolding failure_of
    failure-IsComplete redacted network = finish_err-IsComplete _
    failure-IsComplete redacted (escaping name) = finish_err-IsComplete _

    on_response-IsComplete :
        (current : String) (r : Exchange)
        → IsComplete limits (on_response net web policy limits next count current r)
    unfolding on_response
    on_response-IsComplete current (failed f) = failure-IsComplete (web.redact_url current) f
    on_response-IsComplete current (answered r) = elim (Bool-cases r.is_redirect) [
      | inl yes' ↦ rw yes' (
          follow-IsComplete current (location_of r.location (leb limits.max_redirects count))
            (location_of-early r.location (leb limits.max_redirects count)))
      | inr no' ↦ rw no' (
          finish-IsComplete (read_body limits (web.redact_url current) r)
            (λ d e. (read_body-IsKept limits (web.redact_url current) r d e).0))
    ]

    connect-IsComplete :
        (current : String) (v : ValidatedUrl) (ips : List String)
        → IsComplete limits (connect net web policy limits next count current v ips)
    unfolding connect
    connect-IsComplete current v [] = finish_err-IsComplete _
    connect-IsComplete current v (ip ∷ ips) =
        let rest = on_response-IsComplete current (web.get count (connection_target v ip)) in
        record { saved = rest.saved; removed = rest.removed }

  fetch_from-IsComplete :
      (fuel count : ℕ) (current : String) (v : ValidatedUrl)
      → fuel + count ≡ limits.max_redirects
      → IsComplete limits (fetch_from net web policy limits (suc fuel) count current v)
  unfolding fetch_from
  fetch_from-IsComplete zero count current v h =
      connect-IsComplete (λ target w. fetch_from net web policy limits zero (suc count) target w)
        count (λ early. absurd (ground arith)) current v v.resolved_ips
  fetch_from-IsComplete (suc fuel) count current v h =
      connect-IsComplete
        (λ target w. fetch_from net web policy limits (suc fuel) (suc count) target w) count
        (λ early target w. fetch_from-IsComplete fuel (suc count) target w (omega (arith, h)))
        current v v.resolved_ips

-- Whatever the web answers, a download ends with the temporary file removed if it fails, also when
-- the redirects are used up; and if it succeeds the file holds exactly the returned audio, whose
-- size is its length, at most the size limit, and not 0.
pub download-IsComplete :
    (net : Network) (web : Web) (policy : UrlPolicy) (limits : Limits) (source_url : String)
    (v : ValidatedUrl)
    → IsComplete limits (download net web policy limits source_url v)
unfolding download
download-IsComplete net web policy limits source_url v =
    fetch_from-IsComplete net web policy limits limits.max_redirects 0 source_url v (omega arith)
