-- ===== src/ResultStore/Cursor.antt =====
-- result_store/cursor.py: signed cursors. HMAC-SHA256, base64url and JSON belong to Python's
-- library and are an argument, with the documented behaviour that the codec relies on.
pub mod RoundTrip
use open_transcribe_mcp.Base.{
  ℕ, ◌+◌, ◌-◌, ◌%◌, ◌≤◌, ◌≡◌, ◌≢◌, Bool, true, false, ◌&&◌, Option, none, some, List, [], ◌∷◌, ◌++◌,
  ◌==◌, All, length, take, drop, replicate, if◌then◌else◌,
}
use open_transcribe_mcp.Base.Text.{codes_eq}
use open_transcribe_mcp.Domain.Errors.{Result, ok, raise, result_not_found}

-- The dict that a cursor carries, with its texts as code points.
pub record Payload : Type 0 where
  pub id : List ℕ
  pub format : List ℕ
  pub index : ℕ

abbrev pub equals_sign : ℕ
equals_sign = 61

pub record Primitives : Type 0 where
  -- hmac.new(secret, body, hashlib.sha256).digest()
  pub digest : List ℕ → List ℕ → List ℕ
  pub b64encode : List ℕ → List ℕ
  pub b64decode : List ℕ → Option (List ℕ)
  pub dumps : Payload → List ℕ
  -- `none` is a text that is no JSON, `some none` is JSON that is no dict.
  pub loads : List ℕ → Option (Option Payload)

-- base64 text: four characters for each group, the last one filled up by at most two `=`.
pub record IsPadded (xs : List ℕ) : Type 0 where
  pub body : List ℕ
  pub pad : ℕ
  pub shape : xs ≡ body ++ replicate pad equals_sign
  pub short : pad ≤ 2
  pub grouped : length xs % 4 ≡ 0
  pub plain : All (λ c. c ≢ equals_sign) body

pub record IsLawful (p : Primitives) : Type 0 where
  pub length-digest : (secret body : List ℕ) → length (p.digest secret body) ≡ 32
  pub b64encode-IsPadded : (xs : List ℕ) → IsPadded (p.b64encode xs)
  pub b64decode-b64encode : (xs : List ℕ) → p.b64decode (p.b64encode xs) ≡ some xs
  pub b64decode-nil : p.b64decode [] ≡ some []
  pub loads-dumps : (x : Payload) → p.loads (p.dumps x) ≡ some (some x)

-- A character before what is left of the rest of the text.
unfoldable pub strip_before : ℕ → List ℕ → List ℕ
strip_before c [] = if c == equals_sign then [] else c ∷ []
strip_before c (d ∷ ds) = c ∷ d ∷ ds

-- s.rstrip("=")
unfoldable pub rstrip_equals : List ℕ → List ℕ
unfolding strip_before
rstrip_equals [] = []
rstrip_equals (c ∷ cs) = strip_before c (rstrip_equals cs)

abbrev pub invalid_cursor : Result Payload
invalid_cursor = raise result_not_found "The transcript cursor is invalid."

module _ (p : Primitives) where
  unfoldable pub encode : List ℕ → Payload → List ℕ
  encode secret payload =
      let body = p.dumps payload in rstrip_equals (p.b64encode (body ++ p.digest secret body))

  unfoldable pub read_payload : Option (Option Payload) → Result Payload
  read_payload none = invalid_cursor
  read_payload (some none) = invalid_cursor
  read_payload (some (some payload)) = ok payload

  -- body, signature = raw[:-32], raw[-32:]
  unfoldable pub verify : List ℕ → List ℕ → Result Payload
  unfolding read_payload codes_eq
  verify secret raw =
      let body = take (length raw - 32) raw in
      let signature = drop (length raw - 32) raw in
      if codes_eq signature (p.digest secret body)
      then read_payload (p.loads body)
      else invalid_cursor

  unfoldable pub decode_raw : List ℕ → Option (List ℕ) → Result Payload
  unfolding verify
  decode_raw secret none = invalid_cursor
  decode_raw secret (some raw) = verify secret raw

  -- The padding is "=" * (-len(token) % 4).
  unfoldable pub decode : List ℕ → List ℕ → Result Payload
  unfolding decode_raw
  decode secret token =
      decode_raw secret (p.b64decode (token ++ replicate ((4 - length token % 4) % 4) equals_sign))
