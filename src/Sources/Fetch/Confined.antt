-- ===== src/Sources/Fetch/Confined.antt =====
-- Every connection of a download goes to an address that was validated for its host.
use open_transcribe_mcp.Base.{
  ℕ, suc, zero, ◌≤◌, ◌≡◌, refl, ◌⊎◌, inl, inr, String, true, false, List, [], ◌∷◌, All, arith,
  length, map, subst, Bool-cases, leb,
}
use open_transcribe_mcp.Base.Text.{contains}
use open_transcribe_mcp.Domain.Errors.{Result, ok, err, runtime_error}
use open_transcribe_mcp.Sources.Ssrf.{
  Network, ValidatedUrl, UrlPolicy, IsValidated, validate_source_url,
}
use open_transcribe_mcp.Sources.Ssrf.Validated.{validate_source_url-IsValidated}
use open_transcribe_mcp.Sources.Download.{
  Connection, connection_target, Web, Limits, Download, Exchange, failed, answered, failure_of,
}
use open_transcribe_mcp.Sources.Fetch.{
  Fetch, finish, continue, follow, on_response, connect, fetch_from, download, location_of,
  read_body,
}

module _ (net : Network) (policy : UrlPolicy) where
  -- What the settings ask of a connection.
  pub record IsConfined (c : Connection) : Type 0 where
    pub global : policy.allow_private_urls ≡ false → net.is_global c.address ≡ true
    pub secure : policy.require_https ≡ true → c.scheme ≡ "https"
    pub listed :
        (policy.allowed_hosts ≡ [])
        ⊎ (contains c.server_name (map net.normal_host policy.allowed_hosts) ≡ true)

  -- At most `fuel` connections, all of them confined.
  pub record IsGood (fuel : ℕ) (f : Fetch) : Type 0 where
    pub confined : All IsConfined f.connections
    pub short : length f.connections ≤ fuel

  secure_of :
      (v : ValidatedUrl)
      → (v.scheme ≡ "https") ⊎ ((v.scheme ≡ "http") × (policy.require_https ≡ false))
      → policy.require_https ≡ true
      → v.scheme ≡ "https"
  secure_of v (inl e) h = e
  secure_of v (inr (e, k)) h = cc

  target-IsConfined :
      (v : ValidatedUrl) (ip : String) (ips : List String)
      → IsValidated net policy v
      → v.resolved_ips ≡ ip ∷ ips
      → IsConfined (connection_target v ip)
  unfolding connection_target
  target-IsConfined v ip ips h e = record {
    global = λ off. (subst (All (λ i. net.is_global i ≡ true)) e (h.global off)).0;
    secure = secure_of v h.scheme;
    listed = h.listed;
  }

  finish-IsGood : (fuel : ℕ) (r : Result Download) → IsGood fuel (finish r)
  unfolding finish
  finish-IsGood fuel (ok d) = record { confined = tt; short = omega arith }
  finish-IsGood fuel (err e) = record { confined = tt; short = omega arith }

  module _ (web : Web) (limits : Limits) (fuel : ℕ) (next : String → ValidatedUrl → Fetch)
      (good : (target : String) (w : ValidatedUrl)
        → IsValidated net policy w
        → IsGood fuel (next target w)) where
    continue-IsGood :
        (current : String) (r : Result ValidatedUrl)
        → ((v : ValidatedUrl) → r ≡ ok v → IsValidated net policy v)
        → IsGood fuel (continue net web policy limits next current r)
    unfolding continue
    continue-IsGood current (err e) h = finish-IsGood fuel (err e)
    continue-IsGood current (ok v) h = good current v (h v refl)

    follow-IsGood :
        (count : ℕ) (current : String) (r : Result String)
        → IsGood fuel (follow net web policy limits next count current r)
    unfolding follow
    follow-IsGood count current (err e) = finish-IsGood fuel (err e)
    follow-IsGood count current (ok location) =
        let target = web.urljoin current location in
        continue-IsGood target (validate_source_url net policy (suc count) target)
          (validate_source_url-IsValidated net policy (suc count) target)

    on_response-IsGood :
        (count : ℕ) (current : String) (r : Exchange)
        → IsGood fuel (on_response net web policy limits next count current r)
    unfolding on_response
    on_response-IsGood count current (failed f) =
        finish-IsGood fuel (failure_of (web.redact_url current) f)
    on_response-IsGood count current (answered r) = elim (Bool-cases r.is_redirect) [
      | inl yes' ↦
          rw yes'
            (follow-IsGood count current (location_of r.location (leb limits.max_redirects count)))
      | inr no' ↦ rw no' (finish-IsGood fuel (read_body limits (web.redact_url current) r))
    ]

    connect-IsGood :
        (count : ℕ) (current : String) (v : ValidatedUrl) (ips : List String)
        → IsValidated net policy v
        → v.resolved_ips ≡ ips
        → IsGood (suc fuel) (connect net web policy limits next count current v ips)
    unfolding connect
    connect-IsGood count current v [] h e =
        finish-IsGood (suc fuel) (err (runtime_error "IndexError"))
    connect-IsGood count current v (ip ∷ ips) h e =
        let rest = on_response-IsGood count current (web.get count (connection_target v ip)) in
        record {
          confined = (target-IsConfined v ip ips h e, rest.confined);
          short = omega (arith, rest.short);
        }

  fetch_from-IsGood :
      (web : Web) (limits : Limits) (fuel count : ℕ) (current : String) (v : ValidatedUrl)
      → IsValidated net policy v
      → IsGood fuel (fetch_from net web policy limits fuel count current v)
  unfolding fetch_from
  fetch_from-IsGood web limits zero count current v h = record {
    confined = tt;
    short = omega arith;
  }
  fetch_from-IsGood web limits (suc fuel) count current v h =
      connect-IsGood web limits fuel _
        (λ target w. fetch_from-IsGood web limits fuel (suc count) target w) count current v
        v.resolved_ips h refl

-- Whatever the web answers, and however it redirects, the download of a validated URL makes at most
-- one connection more than the settings allow redirects, and each of them goes to an address that
-- is global unless private URLs are allowed, by https if the settings require it, and for a host
-- on the allow-list, if there is one.
pub download-IsGood :
    (net : Network) (web : Web) (policy : UrlPolicy) (limits : Limits) (source_url : String)
    (v : ValidatedUrl)
    → IsValidated net policy v
    → IsGood net policy (suc limits.max_redirects) (download net web policy limits source_url v)
unfolding download
download-IsGood net web policy limits source_url v h =
    fetch_from-IsGood net policy web limits (suc limits.max_redirects) 0 source_url v h
