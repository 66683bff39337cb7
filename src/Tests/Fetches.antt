-- ===== src/Tests/Fetches.antt =====
-- Sources that are fetched from a network with one host.
use open_transcribe_mcp.Base.{◌≡◌, refl, true, false, [], ◌∷◌, none, some, str_eq}
use open_transcribe_mcp.Base.Sequences.{is_nonempty}
use open_transcribe_mcp.Settings.{is_falsy}
use open_transcribe_mcp.Domain.Errors.{ok}
use open_transcribe_mcp.Sources.Ssrf.{
  Network, UrlPolicy, ValidatedUrl, IsValidated, validate_source_url,
}
use open_transcribe_mcp.Sources.Download.{Web, Limits, declared, answered}
use open_transcribe_mcp.Sources.Fetch.{download}
use open_transcribe_mcp.Sources.Fetch.Confined.{IsGood, download-IsGood}
use open_transcribe_mcp.Sources.Fetch.Complete.{IsComplete, download-IsComplete}
use open_transcribe_mcp.Base.{suc}
use open_transcribe_mcp.Sources.Ssrf.Validated.{validate_source_url-IsValidated}

abbrev pub network : Network
network = record {
  urlsplit = λ url. some (record {
    scheme = "https";
    username = none;
    password = none;
    hostname = some "audio.example";
    port = some none;
  });
  idna = λ host. some host;
  normal_host = λ host. host;
  in_localhost = λ host. false;
  resolve = λ round host port. some ("93.184.216.34" ∷ []);
  is_global = λ ip. str_eq ip "93.184.216.34";
}

-- The host answers with an Ogg file in two chunks.
abbrev pub web : Web
web = record {
  get = λ count c. answered (record {
    is_redirect = false;
    location = none;
    status_code = 200;
    content_length = declared 6;
    media_type = some "audio/ogg";
    chunks = (79 ∷ 103 ∷ 103 ∷ []) ∷ (83 ∷ 0 ∷ 1 ∷ []) ∷ [];
    broken = none;
  });
  urljoin = λ current location. location;
  redact_url = λ url. "https://audio.example";
}

abbrev limits : Limits
limits = record { max_redirects = 3; max_audio_bytes = 100 }

abbrev public : UrlPolicy
public = record { require_https = true; allow_private_urls = false; allowed_hosts = [] }

abbrev fetched : ValidatedUrl
fetched = record {
  url = "https://audio.example/a.mp3";
  scheme = "https";
  host = "audio.example";
  port = 443;
  resolved_ips = "93.184.216.34" ∷ [];
}

accepted : validate_source_url network public 0 "https://audio.example/a.mp3" ≡ ok fetched
unfolding validate_source_url is_falsy is_nonempty
accepted = refl

validate_source_url_example : IsValidated network public fetched
validate_source_url_example =
    validate_source_url-IsValidated network public 0 "https://audio.example/a.mp3" fetched accepted

download-IsGood_example :
    IsGood network public
      (suc 3)
      (download network web public limits "https://audio.example/a.mp3" fetched)
download-IsGood_example =
    download-IsGood network web public limits "https://audio.example/a.mp3" fetched (
      validate_source_url-IsValidated network public 0 "https://audio.example/a.mp3" fetched
        accepted)

download-IsComplete_example :
    IsComplete limits (download network web public limits "https://audio.example/a.mp3" fetched)
download-IsComplete_example =
    download-IsComplete network web public limits "https://audio.example/a.mp3" fetched
