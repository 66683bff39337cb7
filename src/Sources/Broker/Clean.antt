-- ===== src/Sources/Broker/Clean.antt =====
-- What a session with a source connects to, leaves behind and hands to its body.
use open_transcribe_mcp.Base.{
  ℕ, suc, ◌≡◌, refl, String, true, false, Option, none, List, [], All, arith, str_eq, ◌≤◌, length,
}
use open_transcribe_mcp.Domain.Errors.{Result, ok, err, Exception}
use open_transcribe_mcp.Domain.Audio.{
  SourceDelivery, automatic, passthrough, proxy, ResolvedAudioSource,
}
use open_transcribe_mcp.Domain.Capabilities.{ModelDescriptor}
use open_transcribe_mcp.Settings.{Settings}
use open_transcribe_mcp.Policy.{TranscriptionPolicy, require_temporary_audio}
use open_transcribe_mcp.Sources.Ssrf.{ValidatedUrl, IsValidated}
use open_transcribe_mcp.Sources.Ssrf.Validated.{validate_source_url-IsValidated}
use open_transcribe_mcp.Sources.Download.{Connection, Download}
use open_transcribe_mcp.Sources.Fetch.Confined.{IsConfined, download-IsGood}
use open_transcribe_mcp.Sources.Fetch.Complete.{download-IsComplete}
use open_transcribe_mcp.Sources.Broker.{
  World, Called, Session, resolve, validated_then, deliver, relay, relay_with, pass_on, refused,
  url_policy, limits_of, select_delivery,
}

module _ (s : Settings) (policy : TranscriptionPolicy) (world : World)
    (body : ResolvedAudioSource → Called) where
  -- A session that behaved: its connections are confined and no more than the settings allow, its
  -- file is gone, and it made no connection at all where temporary audio is not permitted.
  pub record IsClean (session : Session) : Type 0 where
    pub confined : All (IsConfined world.net (url_policy s)) session.connections
    pub short : length session.connections ≤ suc s.security.max_redirects
    pub removed : session.file ≡ none
    pub consented : policy.allow_temporary_audio ≡ false → session.connections ≡ []

  refused-IsClean : (e : Exception) → IsClean (refused e)
  refused-IsClean e = record {
    confined = tt;
    short = omega arith;
    removed = refl;
    consented = λ h. refl;
  }

  pass_on-IsClean : (source_url : String) → IsClean (pass_on s policy world body source_url)
  unfolding pass_on
  pass_on-IsClean source_url = record {
    confined = tt;
    short = omega arith;
    removed = refl;
    consented = λ h. refl;
  }

  module _ (named : str_eq world.path "" ≡ false) where
    relay_with-IsClean :
        (source_url : String) (connections : List Connection) (file : Option (List ℕ))
        (r : Result Download)
        → All (IsConfined world.net (url_policy s)) connections
        → length connections ≤ suc s.security.max_redirects
        → ((e : Exception) → r ≡ err e → file ≡ none)
        → policy.allow_temporary_audio ≡ true
        → IsClean (relay_with s policy world body source_url connections file r)
    unfolding relay_with
    relay_with-IsClean source_url connections file (err e) confined short gone allowed = record {
      confined = confined;
      short = short;
      removed = gone e refl;
      consented = λ h. cc;
    }
    relay_with-IsClean source_url connections file (ok d) confined short gone allowed = record {
      confined = confined;
      short = short;
      removed = rw named refl;
      consented = λ h. cc;
    }

    relay-IsClean :
        (source_url : String) (v : ValidatedUrl) (r : Result (Unit {0}))
        → IsValidated world.net (url_policy s) v
        → ((u : Unit {0}) → r ≡ ok u → policy.allow_temporary_audio ≡ true)
        → IsClean (relay s policy world body source_url v r)
    unfolding relay
    relay-IsClean source_url v (err e) valid allowed = refused-IsClean e
    relay-IsClean source_url v (ok u) valid allowed =
        let good =
          download-IsGood world.net world.web (url_policy s) (limits_of s) source_url v valid in
        let complete =
          download-IsComplete world.net world.web (url_policy s) (limits_of s) source_url v in
        relay_with-IsClean source_url _ _ _ good.confined good.short complete.removed
          (allowed u refl)

    require_temporary_audio-allowed :
        (provider model : String) (u : Unit {0})
        → require_temporary_audio policy provider model ≡ ok u
        → policy.allow_temporary_audio ≡ true
    unfolding require_temporary_audio
    require_temporary_audio-allowed provider model u e = ground arith

    deliver-IsClean :
        (source_url : String) (m : ModelDescriptor) (v : ValidatedUrl) (r : Result SourceDelivery)
        → IsValidated world.net (url_policy s) v
        → IsClean (deliver s policy world body source_url m v r)
    unfolding deliver
    deliver-IsClean source_url m v (err e) valid = refused-IsClean e
    deliver-IsClean source_url m v (ok passthrough) valid = pass_on-IsClean source_url
    deliver-IsClean source_url m v (ok automatic) valid =
        relay-IsClean source_url v _ valid (require_temporary_audio-allowed m.provider m.model)
    deliver-IsClean source_url m v (ok proxy) valid =
        relay-IsClean source_url v _ valid (require_temporary_audio-allowed m.provider m.model)

    validated_then-IsClean :
        (source_url : String) (requested : SourceDelivery) (m : ModelDescriptor)
        (r : Result ValidatedUrl)
        → ((v : ValidatedUrl) → r ≡ ok v → IsValidated world.net (url_policy s) v)
        → IsClean (validated_then s policy world body source_url requested m r)
    unfolding validated_then
    validated_then-IsClean source_url requested m (err e) valid = refused-IsClean e
    validated_then-IsClean source_url requested m (ok v) valid =
        deliver-IsClean source_url m v (select_delivery requested m) (valid v refl)

-- Whatever the source, the network and the provider do, a session connects only to addresses that
-- the settings allow, at most once more than the redirects they allow, leaves no temporary file,
-- and makes no connection of its own where the policy does not permit temporary audio. (The file's
-- path must not be empty.)
pub resolve-IsClean :
    (s : Settings) (policy : TranscriptionPolicy) (world : World)
    (body : ResolvedAudioSource → Called) (source_url : String) (requested : SourceDelivery)
    (m : ModelDescriptor)
    → str_eq world.path "" ≡ false
    → IsClean s policy world body (resolve s policy world body source_url requested m)
unfolding resolve
resolve-IsClean s policy world body source_url requested m named =
    validated_then-IsClean s policy world body named source_url requested m _
      (validate_source_url-IsValidated world.net (url_policy s) 0 source_url)
