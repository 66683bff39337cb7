-- ===== src/Sources/Broker/Served.antt =====
-- Which models a session hands audio to: those that its body calls.
use open_transcribe_mcp.Base.{ℕ, String, Option, List, All, arith, ◌≤◌, length}
use open_transcribe_mcp.Domain.Errors.{Result, ok, err, Exception}
use open_transcribe_mcp.Domain.Audio.{
  SourceDelivery, automatic, passthrough, proxy, ResolvedAudioSource,
}
use open_transcribe_mcp.Domain.Capabilities.{ModelDescriptor}
use open_transcribe_mcp.Settings.{Settings}
use open_transcribe_mcp.Policy.{TranscriptionPolicy, require_temporary_audio}
use open_transcribe_mcp.Sources.Ssrf.{ValidatedUrl, validate_source_url}
use open_transcribe_mcp.Sources.Download.{Connection, Download}
use open_transcribe_mcp.Sources.Fetch.{download}
use open_transcribe_mcp.Sources.Broker.{
  World, Called, Session, resolve, validated_then, deliver, relay, relay_with, pass_on, refused,
  url_policy, limits_of, select_delivery,
}

-- What holds of every call of the body holds of the session.
module _ (s : Settings) (policy : TranscriptionPolicy) (world : World)
    (body : ResolvedAudioSource → Called) (P : ModelDescriptor → Type 0) (n : ℕ)
    (all : (source : ResolvedAudioSource) → All P (body source).recipients)
    (few : (source : ResolvedAudioSource) → length (body source).recipients ≤ n) where
  record IsServed (session : Session) : Type 0 where
    served : All P session.recipients
    limited : length session.recipients ≤ n

  refused-IsServed : (e : Exception) → IsServed (refused e)
  refused-IsServed e = record { served = tt; limited = omega arith }

  pass_on-IsServed : (source_url : String) → IsServed (pass_on s policy world body source_url)
  unfolding pass_on
  pass_on-IsServed source_url = record { served = all _; limited = few _ }

  relay_with-IsServed :
      (source_url : String) (connections : List Connection) (file : Option (List ℕ))
      (r : Result Download)
      → IsServed (relay_with s policy world body source_url connections file r)
  unfolding relay_with
  relay_with-IsServed source_url connections file (err e) = record {
    served = tt;
    limited = omega arith;
  }
  relay_with-IsServed source_url connections file (ok d) = record {
    served = all _;
    limited = few _;
  }

  relay-IsServed :
      (source_url : String) (v : ValidatedUrl) (r : Result (Unit {0}))
      → IsServed (relay s policy world body source_url v r)
  unfolding relay
  relay-IsServed source_url v (err e) = refused-IsServed e
  relay-IsServed source_url v (ok u) =
      let f = download world.net world.web (url_policy s) (limits_of s) source_url v in
      relay_with-IsServed source_url f.connections f.file f.result

  deliver-IsServed :
      (source_url : String) (m : ModelDescriptor) (v : ValidatedUrl) (r : Result SourceDelivery)
      → IsServed (deliver s policy world body source_url m v r)
  unfolding deliver
  deliver-IsServed source_url m v (err e) = refused-IsServed e
  deliver-IsServed source_url m v (ok passthrough) = pass_on-IsServed source_url
  deliver-IsServed source_url m v (ok automatic) =
      relay-IsServed source_url v (require_temporary_audio policy m.provider m.model)
  deliver-IsServed source_url m v (ok proxy) =
      relay-IsServed source_url v (require_temporary_audio policy m.provider m.model)

  validated_then-IsServed :
      (source_url : String) (requested : SourceDelivery) (m : ModelDescriptor)
      (r : Result ValidatedUrl)
      → IsServed (validated_then s policy world body source_url requested m r)
  unfolding validated_then
  validated_then-IsServed source_url requested m (err e) = refused-IsServed e
  validated_then-IsServed source_url requested m (ok v) =
      deliver-IsServed source_url m v (select_delivery requested m)

  pub resolve-served :
      (source_url : String) (requested : SourceDelivery) (m : ModelDescriptor)
      → All P (resolve s policy world body source_url requested m).recipients
        × (length (resolve s policy world body source_url requested m).recipients ≤ n)
  unfolding resolve
  resolve-served source_url requested m =
      let h =
        validated_then-IsServed source_url requested m
          (validate_source_url world.net (url_policy s) 0 source_url) in
      (h.served, h.limited)
