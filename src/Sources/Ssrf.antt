-- ===== src/Sources/Ssrf.antt =====
-- security/ssrf.py: which URLs audio may be fetched from. `urlsplit`, IDNA, the resolver and the
-- test for global addresses belong to Python's library and the network: they are arguments.
pub mod Validated
use open_transcribe_mcp.Base.{
  ℕ, ◌≡◌, String, Bool, true, false, not, ◌&&◌, ◌||◌, Option, none, some, List, [], ◌∷◌, map,
  str_eq, if◌then◌else◌, arith, eq_iff, ◌⊎◌, inl, inr, Bool-cases, refl, ◌==◌, All,
}
use open_transcribe_mcp.Base.Text.{contains, ◌+s◌}
use open_transcribe_mcp.Base.Sequences.{is_nonempty}
use open_transcribe_mcp.Domain.Errors.{
  Result, ok, err, raise, source_url_rejected, source_unavailable, ◌>>=◌, ◌>>◌,
}
use open_transcribe_mcp.Settings.{is_falsy}

-- What the program reads of `urlsplit(url)`. A port that is no number in range is `none`; a URL
-- with no port has `some none`.
pub record UrlParts : Type 0 where
  pub scheme : String
  pub username : Option String
  pub password : Option String
  pub hostname : Option String
  pub port : Option (Option ℕ)

-- A resolver may answer differently each time: `round` is the count of the resolutions so far.
pub record Network : Type 0 where
  pub urlsplit : String → Option UrlParts
  -- hostname.rstrip(".").lower().encode("idna").decode("ascii")
  pub idna : String → Option String
  -- item.rstrip(".").lower()
  pub normal_host : String → String
  -- host.endswith(".localhost")
  pub in_localhost : String → Bool
  -- sorted({record[4][0] for record in getaddrinfo(host, port)})
  pub resolve : ℕ → String → ℕ → Option (List String)
  pub is_global : String → Bool

pub record ValidatedUrl : Type 0 where
  pub url : String
  pub scheme : String
  pub host : String
  pub port : ℕ
  pub resolved_ips : List String

pub record UrlPolicy : Type 0 where
  pub require_https : Bool
  pub allow_private_urls : Bool
  pub allowed_hosts : List String

abbrev pub reject {ℓ} : {A : Type ℓ} → String → Result A
reject message = raise source_url_rejected message

module _ (net : Network) where
  unfoldable pub is_prohibited_ip : String → Bool
  is_prohibited_ip ip = not (net.is_global ip)

  -- any(is_prohibited_ip(value) for value in addresses)
  unfoldable pub any_prohibited : List String → Bool
  unfolding is_prohibited_ip
  any_prohibited [] = false
  any_prohibited (ip ∷ ips) = is_prohibited_ip ip || any_prohibited ips

  split_url : Option UrlParts → Result UrlParts
  split_url none = reject "The audio source URL could not be parsed."
  split_url (some parts) = ok parts

  unfoldable pub check_scheme : UrlPolicy → UrlParts → Result (Unit {0})
  check_scheme policy parts =
      if not (str_eq parts.scheme "http" || str_eq parts.scheme "https")
      then reject "Only HTTP(S) sources are allowed."
      else if policy.require_https && not (str_eq parts.scheme "https")
      then reject "The audio source must use HTTPS."
      else if not (is_falsy parts.username) || not (is_falsy parts.password)
      then reject "User-info credentials are not allowed in source URLs."
      else ok tt

  ascii_host : Option String → Result String
  ascii_host none = reject "The audio source hostname is not a valid domain name."
  ascii_host (some host) =
      if str_eq host "" then reject "The audio source has no hostname." else ok host

  unfoldable pub read_host : Option String → Result String
  unfolding ascii_host
  read_host none = reject "The audio source has no hostname."
  read_host (some hostname) =
      if str_eq hostname ""
      then reject "The audio source has no hostname."
      else ascii_host (net.idna hostname)

  unfoldable pub check_host : UrlPolicy → String → Result (Unit {0})
  check_host policy host =
      if str_eq host "localhost" || net.in_localhost host
      then reject "Localhost sources are prohibited."
      else if is_nonempty policy.allowed_hosts
          && not (contains host (map net.normal_host policy.allowed_hosts))
      then reject "The source host is not allow-listed."
      else ok tt

  -- parts.port or (443 if parts.scheme == "https" else 80)
  unfoldable pub read_port : String → Option (Option ℕ) → Result ℕ
  read_port scheme none = reject "The audio source port is invalid."
  read_port scheme (some none) = ok (if str_eq scheme "https" then 443 else 80)
  read_port scheme (some (some port)) =
      ok (if port == 0 then (if str_eq scheme "https" then 443 else 80) else port)

  unfoldable pub check_addresses : UrlPolicy → Option (List String) → Result (List String)
  unfolding any_prohibited
  check_addresses policy none =
      raise source_unavailable "The audio source hostname could not be resolved."
  check_addresses policy (some []) =
      raise source_unavailable "The source hostname has no addresses."
  check_addresses policy (some (ip ∷ ips)) =
      if not policy.allow_private_urls && any_prohibited (ip ∷ ips)
      then reject "The source resolves to a prohibited network destination."
      else ok (ip ∷ ips)

  unfoldable pub validate_source_url : UrlPolicy → ℕ → String → Result ValidatedUrl
  unfolding split_url check_scheme read_host check_host read_port check_addresses
  validate_source_url policy round url = do
    parts ← split_url (net.urlsplit url)
    check_scheme policy parts
    host ← read_host parts.hostname
    check_host policy host
    port ← read_port parts.scheme parts.port
    addresses ← check_addresses policy (net.resolve round host port)
    ok (record {
      url = url;
      scheme = parts.scheme;
      host = host;
      port = port;
      resolved_ips = addresses;
    })

  -- What the caller of an accepted URL may rely on.
  pub record IsValidated (policy : UrlPolicy) (v : ValidatedUrl) : Type 0 where
    pub scheme : (v.scheme ≡ "https") ⊎ ((v.scheme ≡ "http") × (policy.require_https ≡ false))
    pub named : str_eq v.host "" ≡ false
    pub remote : (str_eq v.host "localhost" || net.in_localhost v.host) ≡ false
    pub listed :
        (policy.allowed_hosts ≡ [])
        ⊎ (contains v.host (map net.normal_host policy.allowed_hosts) ≡ true)
    pub resolved : is_nonempty v.resolved_ips ≡ true
    pub global :
        policy.allow_private_urls ≡ false → All (λ ip. net.is_global ip ≡ true) v.resolved_ips
