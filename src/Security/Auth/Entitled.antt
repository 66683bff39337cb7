-- ===== src/Security/Auth/Entitled.antt =====
-- Which callers are let in: the bearer of the deployment's token, and the holder of the entitlement.
use open_transcribe_mcp.Base.{
  ◌<◌, ◌≤◌, ◌≡◌, refl, subst, ◌++◌, ap, ◌⊎◌, inl, inr, ℕ, String, true, false, not, ◌&&◌, Option,
  none, some, List, [], ◌∷◌, arith, Bool-cases, eq_iff,
}
use open_transcribe_mcp.Base.Float.{Float, one}
use open_transcribe_mcp.Base.Json.{
  Json, Items, Fields, null, boolean, number, text, array, object, nil, cons, get_field,
}
use open_transcribe_mcp.Base.Text.{codes, codes_eq}
use open_transcribe_mcp.Security.Auth.Bearer.{IsBearer, supplied-IsBearer, starts_with-append}
use open_transcribe_mcp.Security.Auth.{
  Scope, pass, starts_with, BearerAuthMiddleware, is_guarded, compare_with, supplied, authorize,
  is_ascii, numeric, is_live, is_started, is_text, has_text, walk, grants, verify_token,
}

codes_eq-eq : (xs ys : List ℕ) → codes_eq xs ys ≡ true → xs ≡ ys
unfolding codes_eq
codes_eq-eq [] [] h = refl
codes_eq-eq [] (y ∷ ys) h = cc
codes_eq-eq (x ∷ xs) [] h = cc
codes_eq-eq (x ∷ xs) (y ∷ ys) h =
    let rest = codes_eq-eq xs ys (ground arith) in let same : x ≡ y = ground arith in cc

compare_with-pass :
    (given : List ℕ) (token : Option String)
    → compare_with given token ≡ pass
    → (t : String) × (token ≡ some t) × (given ≡ codes t)
unfolding compare_with
compare_with-pass given none h = cc
compare_with-pass given (some token) h =
    elim (Bool-cases (not (is_ascii given && is_ascii (codes token)))) [
      | inl foreign ↦ let e = rw foreign at h in cc
      | inr plain ↦ elim (Bool-cases (codes_eq given (codes token))) [
        | inl same ↦ (token, refl, codes_eq-eq given (codes token) same)
        | inr differ ↦ let e = rw (plain, differ) at h in cc
      ]
    ]

-- A request that the middleware has to check: it is on, and the path is /mcp with any text after it.
pub record IsProtected (m : BearerAuthMiddleware) (scope : Scope) : Type 0 where
  pub on : m.enabled ≡ true
  pub http : scope.is_http ≡ true
  pub rest : List ℕ
  pub path : codes scope.path ≡ codes "/mcp" ++ rest

unguarded-IsProtected :
    (m : BearerAuthMiddleware) (scope : Scope)
    → is_guarded m scope ≡ false
    → IsProtected m scope
    → ⊥
unfolding is_guarded
unguarded-IsProtected m scope h p =
    let starts : starts_with (codes scope.path) (codes "/mcp") ≡ true =
      rw p.path (starts_with-append (codes "/mcp") p.rest) in
    let on = p.on in let http = p.http in ground arith

-- The application is called for an HTTP request whose path starts with /mcp, while the middleware is
-- on, only if the deployment has a token, and the header is the scheme `bearer `, in any case, with
-- exactly that token after it, or that token is the empty text.
pub authorize-pass :
    (m : BearerAuthMiddleware) (scope : Scope)
    → authorize m scope ≡ pass
    → IsProtected m scope
    → (token : String) × (m.token ≡ some token)
      × ((codes token ≡ []) ⊎ IsBearer (codes scope.authorization) (codes token))
unfolding authorize
authorize-pass m scope h p = elim (Bool-cases (is_guarded m scope)) [
  | inl guarded ↦
      let (token, is_set, same) =
        compare_with-pass (supplied (codes scope.authorization)) m.token (rw guarded at h) in
      (token, is_set, supplied-IsBearer (codes scope.authorization) (codes token) same)
  | inr free ↦ absurd (unguarded-IsProtected m scope free p)
]

-- `w` stands at the end of the path from `v`.
pub data Reaches : List String → Json → Json → Type 0 where
  here : (v : Json) → Reaches [] v v
  there :
      (k : String) (ks : List String) (fs : Fields) (w : Json)
      → Reaches ks (get_field k fs) w
      → Reaches (k ∷ ks) (object fs) w

pub data IsElement : Json → Items → Type 0 where
  first : (v : Json) (vs : Items) → IsElement v (cons v vs)
  later : (v w : Json) (vs : Items) → IsElement v vs → IsElement v (cons w vs)

-- A number of a claim, as Python compares it: a Boolean is 1 or 0.
pub data IsNumber : Json → Float → Type 0 where
  plain : (n : Float) → IsNumber (number n) n
  yes : IsNumber (boolean true) one
  no : IsNumber (boolean false) 0

-- The token is in its time, and the value at the path is the entitlement or a list with it.
pub record IsEntitled (path : List String) (value : String) (now : Float) (claims : Fields)
    : Type 0 where
  pub expiry : Float
  pub expires : IsNumber (get_field "exp" claims) expiry
  pub live : now < expiry
  pub started :
      (get_field "nbf" claims ≡ null)
      ⊎ ((start : Float) × IsNumber (get_field "nbf" claims) start × (start ≤ now))
  pub claim : Json
  pub reached : Reaches path (object claims) claim
  pub granted :
      (claim ≡ text value) ⊎ ((vs : Items) × (claim ≡ array vs) × IsElement (text value) vs)

is_live-expiry :
    (now : Float) (e : Option Float)
    → is_live now e ≡ true
    → (expiry : Float) × (e ≡ some expiry) × (now < expiry)
unfolding is_live
is_live-expiry now none h = cc
is_live-expiry now (some expiry) h = (expiry, refl, ground arith)

numeric-IsNumber : (v : Json) (n : Float) → numeric v ≡ some n → IsNumber v n
unfolding numeric
numeric-IsNumber (number m) n h =
    let same : m ≡ n = cc in subst (IsNumber (number m)) same (plain m)
numeric-IsNumber (boolean true) n h = let same : one ≡ n = cc in subst (IsNumber _) same yes
numeric-IsNumber (boolean false) n h = let same : 0 ≡ n = cc in subst (IsNumber _) same no
numeric-IsNumber null n h = cc
numeric-IsNumber (text s) n h = cc
numeric-IsNumber (array vs) n h = cc
numeric-IsNumber (object fs) n h = cc

is_started-IsNumber :
    (now : Float) (v : Json)
    → is_started now v ≡ true
    → (v ≡ null) ⊎ ((start : Float) × IsNumber v start × (start ≤ now))
unfolding is_started
is_started-IsNumber now null h = inl refl
is_started-IsNumber now (number n) h = inr (n, plain n, ground arith)
is_started-IsNumber now (boolean true) h = inr (one, yes, ground arith)
is_started-IsNumber now (boolean false) h = inr (0, no, ground arith)
is_started-IsNumber now (text s) h = cc
is_started-IsNumber now (array vs) h = cc
is_started-IsNumber now (object fs) h = cc

is_text-eq : (value : String) (v : Json) → is_text value v ≡ true → v ≡ text value
unfolding is_text
is_text-eq value (text s) h = ap text ((eq_iff s value).0 h)
is_text-eq value null h = cc
is_text-eq value (boolean b) h = cc
is_text-eq value (number n) h = cc
is_text-eq value (array vs) h = cc
is_text-eq value (object fs) h = cc

has_text-IsElement :
    (value : String) (vs : Items) → has_text value vs ≡ true → IsElement (text value) vs
unfolding has_text
has_text-IsElement value nil h = cc
has_text-IsElement value (cons v vs) h = elim (Bool-cases (is_text value v)) [
  | inl same ↦ rw (is_text-eq value v same) (first (text value) vs)
  | inr other ↦ later (text value) v vs (has_text-IsElement value vs (ground arith))
]

walk-Reaches : (path : List String) (v w : Json) → walk path v ≡ some w → Reaches path v w
unfolding walk
walk-Reaches [] v w h = let same : v ≡ w = cc in rw same (here w)
walk-Reaches (k ∷ ks) (object fs) w h = there k ks fs w (walk-Reaches ks (get_field k fs) w h)
walk-Reaches (k ∷ ks) null w h = cc
walk-Reaches (k ∷ ks) (boolean b) w h = cc
walk-Reaches (k ∷ ks) (number n) w h = cc
walk-Reaches (k ∷ ks) (text s) w h = cc
walk-Reaches (k ∷ ks) (array vs) w h = cc

grants-granted :
    (value : String) (o : Option Json)
    → grants value o ≡ true
    → (w : Json) × (o ≡ some w)
      × ((w ≡ text value) ⊎ ((vs : Items) × (w ≡ array vs) × IsElement (text value) vs))
unfolding grants
grants-granted value none h = cc
grants-granted value (some (array vs)) h =
    (array vs, refl, inr (vs, refl, has_text-IsElement value vs h))
grants-granted value (some (text s)) h = (text s, refl, inl (is_text-eq value (text s) h))
grants-granted value (some null) h = (null, refl, inl (is_text-eq value null h))
grants-granted value (some (boolean b)) h = (boolean b, refl, inl (is_text-eq value (boolean b) h))
grants-granted value (some (number n)) h = (number n, refl, inl (is_text-eq value (number n) h))
grants-granted value (some (object fs)) h = (object fs, refl, inl (is_text-eq value (object fs) h))

-- Access is given only to a token whose expiry is a number after now, whose start, if it has one,
-- is a number that is not after now, and whose claim at the configured path is the entitlement or
-- a list that has it as an element.
pub verify_token-IsEntitled :
    (path : List String) (value : String) (now : Float) (claims : Fields)
    → verify_token path value now claims ≡ true
    → IsEntitled path value now claims
unfolding verify_token
verify_token-IsEntitled path value now claims h =
    let (expiry, expires, live) =
      is_live-expiry now (numeric (get_field "exp" claims)) (ground arith) in
    let (w, reached, granted) = grants-granted value (walk path (object claims)) (ground arith) in
    record {
      expiry = expiry;
      expires = numeric-IsNumber (get_field "exp" claims) expiry expires;
      live = live;
      started = is_started-IsNumber now (get_field "nbf" claims) (ground arith);
      claim = w;
      reached = walk-Reaches path (object claims) w reached;
      granted = granted;
    }
