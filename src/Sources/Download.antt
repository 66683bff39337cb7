-- ===== src/Sources/Download.antt =====
-- `_download` and `_validate_audio` of sources/resolver.py. The web and `urljoin` are arguments.
-- The result says which connections were made and what became of the temporary file.
use open_transcribe_mcp.Base.{
  ℕ, ◌+◌, ◌-◌, String, Bool, true, not, ◌&&◌, ◌||◌, Option, none, some, List, [], ◌∷◌, ◌++◌, leb,
  ltb, ◌==◌, length, take, drop, str_eq, if◌then◌else◌,
}
use open_transcribe_mcp.Base.Text.{codes, codes_eq, strip, ◌+s◌}
use open_transcribe_mcp.Domain.Errors.{
  Result, ok, err, open_transcribe_error, raise, source_unavailable, source_too_large,
  invalid_audio, runtime_error,
}
use open_transcribe_mcp.Sources.Ssrf.{ValidatedUrl}

-- A request to one address, for the host that was validated. `port` in the Host header is left out
-- if it is the default of the scheme.
pub record Connection : Type 0 where
  pub scheme : String
  pub address : String
  pub port : ℕ
  pub server_name : String
  pub host_port : Option ℕ

unfoldable pub connection_target : ValidatedUrl → String → Connection
connection_target v address =
    let default_port = if str_eq v.scheme "https" then 443 else 80 in
    record {
      scheme = v.scheme;
      address = address;
      port = v.port;
      server_name = v.host;
      host_port = if v.port == default_port then none else some v.port;
    }

-- The header `content-length`, as `int` reads it.
pub data ContentLength : Type 0 where
  absent invalid negative : ContentLength
  declared : ℕ → ContentLength

-- A timeout or a network error, or another exception, by its name.
pub data HttpFailure : Type 0 where
  network : HttpFailure
  escaping : String → HttpFailure

pub record Response : Type 0 where
  pub is_redirect : Bool
  pub location : Option String
  pub status_code : ℕ
  pub content_length : ContentLength
  pub media_type : Option String
  pub chunks : List (List ℕ)
  pub broken : Option HttpFailure

-- What a request ends in.
pub data Exchange : Type 0 where
  failed : HttpFailure → Exchange
  answered : Response → Exchange

pub record Web : Type 0 where
  pub get : ℕ → Connection → Exchange
  pub urljoin : String → String → String
  pub redact_url : String → String

pub record Limits : Type 0 where
  pub max_redirects : ℕ
  pub max_audio_bytes : ℕ

pub record Download : Type 0 where
  pub content : List ℕ
  pub media_type : Option String
  pub size : ℕ

-- xs.startswith(prefix)
unfoldable pub has_prefix : List ℕ → List ℕ → Bool
unfolding codes_eq
has_prefix prefix xs = codes_eq (take (length prefix) xs) prefix

before_semicolon : List ℕ → List ℕ
before_semicolon [] = []
before_semicolon (c ∷ cs) = let rest = before_semicolon cs in if c == b';' then [] else c ∷ rest

lower : List ℕ → List ℕ
lower [] = []
lower (c ∷ cs) = (if leb b'A' c && leb c b'Z' then c + 32 else c) ∷ lower cs

-- (media_type or "").split(";", 1)[0].strip().lower(), with `lower` on ASCII
unfoldable pub normalized_type : Option String → List ℕ
unfolding before_semicolon lower codes strip
normalized_type none = []
normalized_type (some media_type) = lower (strip (before_semicolon (codes media_type)))

unfoldable pub type_ok : List ℕ → Bool
unfolding has_prefix codes
type_ok t =
    has_prefix (codes "audio/") t
    || has_prefix (codes "video/") t
    || codes_eq t (codes "application/octet-stream")
    || codes_eq t (codes "binary/octet-stream")
    || codes_eq t []

unfoldable pub magic_ok : List ℕ → Bool
unfolding has_prefix codes
magic_ok prefix =
    has_prefix (codes "ID3") prefix
    || has_prefix (codes "RIFF") prefix
    || has_prefix (codes "OggS") prefix
    || has_prefix (codes "fLaC") prefix
    || has_prefix (0x1a ∷ 0x45 ∷ 0xdf ∷ 0xa3 ∷ []) prefix
    || (leb 8 (length prefix) && codes_eq (take 4 (drop 4 prefix)) (codes "ftyp"))
    || codes_eq (take 2 prefix) (0xff ∷ 0xfb ∷ [])
    || codes_eq (take 2 prefix) (0xff ∷ 0xf3 ∷ [])
    || codes_eq (take 2 prefix) (0xff ∷ 0xf2 ∷ [])

-- normalized_type in {"", "application/octet-stream"}
unfoldable pub needs_magic : List ℕ → Bool
unfolding codes
needs_magic t = codes_eq t [] || codes_eq t (codes "application/octet-stream")

unfoldable pub validate_audio : List ℕ → Option String → ℕ → Result (Unit {0})
unfolding type_ok magic_ok needs_magic normalized_type
validate_audio prefix media_type size =
    let t = normalized_type media_type in
    if size == 0
    then raise invalid_audio "The audio source is empty."
    else if not (type_ok t) || (needs_magic t && not (magic_ok prefix))
    then raise invalid_audio "The source does not appear to contain supported audio."
    else ok tt

abbrev pub too_large {ℓ} : {A : Type ℓ} → Result A
too_large = raise source_too_large "The audio source exceeds the configured size limit."

abbrev pub bad_length {ℓ} : {A : Type ℓ} → Result A
bad_length = raise source_unavailable "The audio source returned an invalid content length."

-- raise OpenTranscribeError(SOURCE_UNAVAILABLE, ..., retryable=True)
abbrev pub interrupted {ℓ} : {A : Type ℓ} → String → Result A
interrupted redacted = err (
    open_transcribe_error (record {
      code = source_unavailable;
      message = "The audio source at " +s redacted +s " could not be downloaded.";
      provider = none;
      model = none;
      retryable = true;
      details = [];
    }))

-- except (httpx.TimeoutException, httpx.NetworkError); any other goes on.
unfoldable pub failure_of {ℓ} : {A : Type ℓ} → String → HttpFailure → Result A
failure_of redacted network = interrupted redacted
failure_of redacted (escaping name) = err (runtime_error name)

unfoldable pub check_length : Limits → ContentLength → Result (Unit {0})
check_length limits absent = ok tt
check_length limits invalid = bad_length
check_length limits negative = bad_length
check_length limits (declared n) = if ltb limits.max_audio_bytes n then too_large else ok tt

-- The loop over the chunks; `written` is the file.
pub record Written : Type 0 where
  pub content : List ℕ
  pub prefix : List ℕ
  pub size : ℕ

abbrev pub grow : Written → List ℕ → Written
grow w chunk = record {
  content = w.content ++ chunk;
  prefix =
      if ltb (length w.prefix) 16 then w.prefix ++ take (16 - length w.prefix) chunk else w.prefix;
  size = w.size + length chunk;
}

unfoldable pub write_chunks : ℕ → Written → List (List ℕ) → Result Written
write_chunks limit w [] = ok w
write_chunks limit w (chunk ∷ chunks) =
    let rest = write_chunks limit (grow w chunk) chunks in
    if ltb limit (w.size + length chunk) then too_large else rest
