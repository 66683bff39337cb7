-- ===== src/Sources/Broker.antt =====
-- `select_delivery` and `resolve` of sources/resolver.py. The context that `resolve` yields is used
-- by a body, which is an argument; what the body did comes back in `Session`.
pub mod Clean
pub mod Served
use open_transcribe_mcp.Base.{
  ℕ, String, Bool, true, false, not, ◌&&◌, Option, none, some, List, [], ◌∷◌, str_eq, if◌then◌else◌,
}
use open_transcribe_mcp.Domain.Errors.{
  Result, ok, err, ◌>>=◌, ◌>>◌, raise_for, Exception, unsupported_capability,
}
use open_transcribe_mcp.Domain.Audio.{
  SourceDelivery, automatic, passthrough, proxy, ResolvedAudioSource,
}
use open_transcribe_mcp.Domain.Capabilities.{ModelDescriptor}
use open_transcribe_mcp.Domain.Transcript.{CanonicalTranscript}
use open_transcribe_mcp.Settings.{Settings, max_audio_bytes}
use open_transcribe_mcp.Policy.{TranscriptionPolicy, require_temporary_audio}
use open_transcribe_mcp.Sources.Ssrf.{Network, ValidatedUrl, UrlPolicy, validate_source_url}
use open_transcribe_mcp.Sources.Download.{Connection, Web, Limits, Download}
use open_transcribe_mcp.Sources.Fetch.{Fetch, download}

-- The world of one attempt: the network, the web and the file that `workspace` creates.
pub record World : Type 0 where
  pub net : Network
  pub web : Web
  pub path : String

-- The models whose providers were called, and with what result.
pub record Called : Type 0 where
  pub recipients : List ModelDescriptor
  pub result : Result CanonicalTranscript

pub record Session : Type 0 where
  pub connections : List Connection
  pub recipients : List ModelDescriptor
  pub result : Result CanonicalTranscript
  pub file : Option (List ℕ)

abbrev pub url_policy : Settings → UrlPolicy
url_policy s = record {
  require_https = s.security.require_https_sources;
  allow_private_urls = s.security.allow_private_urls;
  allowed_hosts = s.security.allowed_source_hosts;
}

abbrev pub limits_of : Settings → Limits
limits_of s = record {
  max_redirects = s.security.max_redirects;
  max_audio_bytes = max_audio_bytes s;
}

unfoldable pub select_delivery : SourceDelivery → ModelDescriptor → Result SourceDelivery
select_delivery automatic m = ok (if m.supports_url_input then passthrough else proxy)
select_delivery passthrough m =
    if m.supports_url_input
    then ok passthrough
    else raise_for unsupported_capability "The selected model does not support URL passthrough."
        (some m.provider) (some m.model)
select_delivery proxy m = ok proxy

abbrev pub refused : Exception → Session
refused e = record { connections = []; recipients = []; result = err e; file = none }

-- if path: unlink
abbrev pub unlink : String → Option (List ℕ) → Option (List ℕ)
unlink path file = if str_eq path "" then file else none

module _ (s : Settings) (policy : TranscriptionPolicy) (world : World)
    (body : ResolvedAudioSource → Called) where
  unfoldable pub pass_on : String → Session
  pass_on source_url =
      let called = body (record {
        original_url = source_url;
        delivery = passthrough;
        local_path = none;
        media_type = none;
        size_bytes = none;
      }) in
      record {
        connections = [];
        recipients = called.recipients;
        result = called.result;
        file = none;
      }

  unfoldable pub relay_with : String → List Connection → Option (List ℕ) → Result Download → Session
  relay_with source_url connections file (err e) = record {
    connections = connections;
    recipients = [];
    result = err e;
    file = file;
  }
  relay_with source_url connections file (ok d) =
      let called = body (record {
        original_url = source_url;
        delivery = proxy;
        local_path = some world.path;
        media_type = d.media_type;
        size_bytes = some d.size;
      }) in
      record {
        connections = connections;
        recipients = called.recipients;
        result = called.result;
        file = unlink world.path file;
      }

  unfoldable pub relay : String → ValidatedUrl → Result (Unit {0}) → Session
  unfolding relay_with
  relay source_url v (err e) = refused e
  relay source_url v (ok u) =
      let f = download world.net world.web (url_policy s) (limits_of s) source_url v in
      relay_with source_url f.connections f.file f.result

  unfoldable pub deliver : String → ModelDescriptor → ValidatedUrl → Result SourceDelivery → Session
  unfolding pass_on relay
  deliver source_url m v (err e) = refused e
  deliver source_url m v (ok passthrough) = pass_on source_url
  deliver source_url m v (ok automatic) =
      relay source_url v (require_temporary_audio policy m.provider m.model)
  deliver source_url m v (ok proxy) =
      relay source_url v (require_temporary_audio policy m.provider m.model)

  unfoldable pub validated_then :
      String → SourceDelivery → ModelDescriptor → Result ValidatedUrl → Session
  unfolding deliver select_delivery
  validated_then source_url requested m (err e) = refused e
  validated_then source_url requested m (ok v) =
      deliver source_url m v (select_delivery requested m)

  unfoldable pub resolve : String → SourceDelivery → ModelDescriptor → Session
  unfolding validated_then
  resolve source_url requested m =
      validated_then source_url requested m
        (validate_source_url world.net (url_policy s) 0 source_url)
