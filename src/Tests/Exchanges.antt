-- ===== src/Tests/Exchanges.antt =====
-- Requests that are retried, and callers that are let in.
use open_transcribe_mcp.Base.{ℕ, ◌≡◌, refl, String, true, [], ◌∷◌, none, some, ◌⊎◌}
use open_transcribe_mcp.Base.Text.{codes}
use open_transcribe_mcp.Providers.Retry.{Sent, timed_out, responded, request_with_retry}
use open_transcribe_mcp.Providers.Normalization.{normalize}
use open_transcribe_mcp.Providers.Normalization.Speakers.{IsNamed, normalize-IsNamed}
use open_transcribe_mcp.Providers.Retry.Bounded.{IsBounded, request_with_retry-IsBounded}
use open_transcribe_mcp.Security.Auth.{BearerAuthMiddleware, Scope, authorize, pass, verify_token}
use open_transcribe_mcp.Base.Json.{Fields, end, field, number, array, nil, cons, text}
use open_transcribe_mcp.Security.Auth.Bearer.{IsBearer}
use open_transcribe_mcp.Security.Auth.Entitled.{
  IsProtected, IsEntitled, authorize-pass, verify_token-IsEntitled,
}

-- A service that times out once.
abbrev slow : ℕ → Sent
slow ℕ.zero = timed_out
slow (ℕ.suc n) = responded (record { status_code = 200; retry_after = none; content = [] })

request_with_retry-IsBounded_example :
    IsBounded 3 (request_with_retry (λ n. "500") slow (λ n. n) "groq" "whisper-large-v3")
request_with_retry-IsBounded_example =
    request_with_retry-IsBounded (λ n. "500") slow (λ n. n) "groq" "whisper-large-v3"

abbrev middleware : BearerAuthMiddleware
middleware = record { token = some "s3cret"; enabled = true }

abbrev scope : Scope
scope = record { is_http = true; path = "/mcp/tools"; authorization = "Bearer s3cret" }

passed : authorize middleware scope ≡ pass
unfolding authorize
passed = refl

protected : IsProtected middleware scope
unfolding codes
protected = record { on = refl; http = refl; rest = codes "/tools"; path = refl }

authorize-pass_example :
    (token : String) × (middleware.token ≡ some token)
    × ((codes token ≡ []) ⊎ IsBearer (codes scope.authorization) (codes token))
authorize-pass_example = authorize-pass middleware scope passed protected

abbrev claims : Fields
claims =
    field "exp" (number 9)
      (field "nbf" (number 4) (field "roles" (array (cons (text "user") nil)) end))

verified : verify_token ("roles" ∷ []) "user" 5 claims ≡ true
unfolding verify_token
verified = refl

verify_token-IsEntitled_example : IsEntitled ("roles" ∷ []) "user" 5 claims
verify_token-IsEntitled_example = verify_token-IsEntitled ("roles" ∷ []) "user" 5 claims verified

normalize-IsNamed_example :
    IsNamed
      (λ n. "01")
      "guest"
      []
      (normalize (λ n. "01") "guest" []).0
      (normalize (λ n. "01") "guest" []).1
normalize-IsNamed_example = normalize-IsNamed (λ n. "01") "guest" []
