-- ===== src/Security/Auth.antt =====
-- `BearerAuthMiddleware` and `ClaimRestrictedJWTVerifier` of security/auth.py. The constant-time
-- comparison is equality of texts; the verification of the token itself is FastMCP's.
pub mod Bearer
pub mod Entitled
use open_transcribe_mcp.Base.{
  ℕ, ◌+◌, String, Bool, true, false, not, ◌&&◌, ◌||◌, Option, none, some, List, [], ◌∷◌, leb, ltb,
  ◌==◌, take, drop, length, if◌then◌else◌, str_eq, map,
}
use open_transcribe_mcp.Base.Float.{Float, one}
use open_transcribe_mcp.Base.Json.{
  Json, Items, Fields, null, boolean, number, text, array, object, nil, cons, end, field, get_field,
}
use open_transcribe_mcp.Base.Text.{codes, codes_eq}
use open_transcribe_mcp.Base.Dict.{Dict, lookup}

-- What the middleware reads of the scope; a missing path or header is the empty text.
pub record Scope : Type 0 where
  pub is_http : Bool
  pub path : String
  pub authorization : String

pub data Verdict : Type 0 where
  pass unauthorized crashed : Verdict

pub record BearerAuthMiddleware : Type 0 where
  pub token : Option String
  pub enabled : Bool

-- s.startswith(prefix)
unfoldable pub starts_with : List ℕ → List ℕ → Bool
unfolding codes_eq
starts_with s prefix = codes_eq (take (length prefix) s) prefix

unfoldable pub lower_code : ℕ → ℕ
lower_code c = if leb b'A' c && leb c b'Z' then c + 32 else c

-- header[7:] if header.lower().startswith("bearer ") else ""
unfoldable pub supplied : List ℕ → List ℕ
unfolding starts_with lower_code codes
supplied header =
    if starts_with (map lower_code header) (codes "bearer ") then drop 7 header else []

-- `hmac.compare_digest` raises TypeError on a text that is not ASCII.
unfoldable pub is_ascii : List ℕ → Bool
is_ascii [] = true
is_ascii (c ∷ cs) = ltb c 128 && is_ascii cs

unfoldable pub compare_with : List ℕ → Option String → Verdict
unfolding codes_eq codes is_ascii
compare_with given none = unauthorized
compare_with given (some token) =
    if not (is_ascii given && is_ascii (codes token))
    then crashed
    else if codes_eq given (codes token)
    then pass
    else unauthorized

unfoldable pub is_guarded : BearerAuthMiddleware → Scope → Bool
unfolding starts_with codes
is_guarded m scope = m.enabled && scope.is_http && starts_with (codes scope.path) (codes "/mcp")

-- `pass` calls the application, the others do not.
unfoldable pub authorize : BearerAuthMiddleware → Scope → Verdict
unfolding is_guarded compare_with supplied codes
authorize m scope =
    if not (is_guarded m scope)
    then pass
    else compare_with (supplied (codes scope.authorization)) m.token

-- isinstance(value, (int, float)), which holds of a Boolean too
unfoldable pub numeric : Json → Option Float
numeric (number n) = some n
numeric (boolean b) = some (if b then one else 0)
numeric _ = none

unfoldable pub is_live : Float → Option Float → Bool
is_live now none = false
is_live now (some expiry) = ltb now expiry

-- not_before is None, or a number that is not after now
unfoldable pub is_started : Float → Json → Bool
unfolding numeric
is_started now null = true
is_started now (number n) = leb n now
is_started now (boolean b) = leb (if b then one else 0) now
is_started now _ = false

-- value == claim_value
unfoldable pub is_text : String → Json → Bool
is_text expected (text s) = str_eq s expected
is_text expected _ = false

unfoldable pub has_text : String → Items → Bool
unfolding is_text
has_text expected nil = false
has_text expected (cons v vs) = is_text expected v || has_text expected vs

-- The loop over the components: `none` where a value is no object.
unfoldable pub walk : List String → Json → Option Json
unfolding get_field
walk [] v = some v
walk (k ∷ ks) (object fs) = walk ks (get_field k fs)
walk (k ∷ ks) _ = none

unfoldable pub grants : String → Option Json → Bool
unfolding has_text is_text
grants expected none = false
grants expected (some (array vs)) = has_text expected vs
grants expected (some v) = is_text expected v

-- After FastMCP has verified the token: whether `verify_token` gives access.
unfoldable pub verify_token : List String → String → Float → Fields → Bool
unfolding get_field is_live numeric is_started grants walk
verify_token claim_path claim_value now claims =
    is_live now (numeric (get_field "exp" claims))
    && is_started now (get_field "nbf" claims)
    && grants claim_value (walk claim_path (object claims))
