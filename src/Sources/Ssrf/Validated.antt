-- ===== src/Sources/Ssrf/Validated.antt =====
-- What an accepted source URL guarantees.
use mathlib.Core.List.{map}
use open_transcribe_mcp.Base.{
  ℕ, ◌≡◌, refl, String, Bool, true, false, not, ◌&&◌, ◌||◌, Option, none, some, List, [], ◌∷◌,
  str_eq, arith, eq_iff, ◌⊎◌, inl, inr, Bool-cases, All,
}
use open_transcribe_mcp.Base.Text.{contains}
use open_transcribe_mcp.Base.Sequences.{is_nonempty}
use open_transcribe_mcp.Domain.Errors.{ok}
use open_transcribe_mcp.Domain.Outcomes.{>>=-eq-ok, ok-injective}
use open_transcribe_mcp.Sources.Ssrf.{
  UrlParts, Network, ValidatedUrl, UrlPolicy, split_url, check_scheme, read_host, check_host,
  read_port, check_addresses, any_prohibited, validate_source_url, IsValidated,
}

module _ (net : Network) (policy : UrlPolicy) where
  check_scheme-eq-ok :
      (parts : UrlParts) (u : Unit {0})
      → check_scheme net policy parts ≡ ok u
      → (parts.scheme ≡ "https") ⊎ ((parts.scheme ≡ "http") × (policy.require_https ≡ false))
  unfolding check_scheme
  check_scheme-eq-ok parts u e =
      ground (arith, eq_iff parts.scheme "https", eq_iff parts.scheme "http")

  read_host-eq-ok :
      (hostname : Option String) (host : String)
      → read_host net hostname ≡ ok host
      → str_eq host "" ≡ false
  unfolding read_host
  read_host-eq-ok none host e = cc
  read_host-eq-ok (some hostname) host e = ground arith

  check_host-eq-ok :
      (host : String) (u : Unit {0})
      → check_host net policy host ≡ ok u
      → ((str_eq host "localhost" || net.in_localhost host) ≡ false)
        × ((is_nonempty policy.allowed_hosts
              && not (contains host (map net.normal_host policy.allowed_hosts)))
            ≡ false)
  unfolding check_host
  check_host-eq-ok host u e = ground arith

  listed-or-open :
      (hosts : List String) (listed : Bool)
      → (is_nonempty hosts && not listed) ≡ false
      → (hosts ≡ []) ⊎ (listed ≡ true)
  unfolding is_nonempty
  listed-or-open [] listed e = inl refl
  listed-or-open (h ∷ hosts) listed e = ground arith

  any_prohibited-global :
      (ips : List String) → any_prohibited net ips ≡ false → All (λ ip. net.is_global ip ≡ true) ips
  unfolding any_prohibited
  any_prohibited-global [] e = tt
  any_prohibited-global (ip ∷ ips) e = (ground arith, any_prohibited-global ips (ground arith))

  check_addresses-eq-ok :
      (found : Option (List String)) (ips : List String)
      → check_addresses net policy found ≡ ok ips
      → (is_nonempty ips ≡ true)
        × (policy.allow_private_urls ≡ false → All (λ ip. net.is_global ip ≡ true) ips)
  unfolding check_addresses is_nonempty
  check_addresses-eq-ok none ips e = cc
  check_addresses-eq-ok (some []) ips e = cc
  check_addresses-eq-ok (some (ip ∷ more)) ips e =
      elim (Bool-cases (not policy.allow_private_urls && any_prohibited net (ip ∷ more))) [
        | inl prohibited ↦ ground arith
        | inr free ↦
            rw (← ok-injective (rw free at e))
              (refl, λ closed. any_prohibited-global (ip ∷ more) (ground arith))
      ]

  -- An accepted source URL has the scheme https, or http where the settings allow it, and a named
  -- host that is not the local host and is on the allow-list, if there is one; it resolves to at
  -- least one address, and unless private URLs are allowed every resolved address is global.
  pub validate_source_url-IsValidated :
      (round : ℕ) (url : String) (v : ValidatedUrl)
      → validate_source_url net policy round url ≡ ok v
      → IsValidated net policy v
  unfolding validate_source_url
  validate_source_url-IsValidated round url v e =
      let (parts, e_parts, e1) = >>=-eq-ok (split_url net (net.urlsplit url)) _ e in
      let (u, e_scheme, e2) = >>=-eq-ok (check_scheme net policy parts) _ e1 in
      let (host, e_host, e3) = >>=-eq-ok (read_host net parts.hostname) _ e2 in
      let (u', e_listed, e4) = >>=-eq-ok (check_host net policy host) _ e3 in
      let (port, e_port, e5) = >>=-eq-ok (read_port net parts.scheme parts.port) _ e4 in
      let (ips, e_ips, e6) =
        >>=-eq-ok (check_addresses net policy (net.resolve round host port)) _ e5 in
      let (remote, listed) = check_host-eq-ok host u' e_listed in
      let (some_ip, global) = check_addresses-eq-ok (net.resolve round host port) ips e_ips in
      rw (← ok-injective e6) (record {
        scheme = check_scheme-eq-ok parts u e_scheme;
        named = read_host-eq-ok parts.hostname host e_host;
        remote = remote;
        listed = listed-or-open policy.allowed_hosts _ listed;
        resolved = some_ip;
        global = global;
      })
