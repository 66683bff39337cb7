-- ===== src/Tests/Base64.antt =====
-- A stand-in for Python's base64, HMAC and JSON, for which the documented laws are proved. A
-- number is carried by a group of four characters, of which the last group ends with two `=`.
use open_transcribe_mcp.Base.{
  ℕ, ◌+◌, ◌*◌, ◌-◌, ◌/◌, ◌%◌, ◌≤◌, ◌≡◌, ◌≢◌, refl, Option, none, some, List, [], ◌∷◌, ◌++◌, length,
  All, replicate, arith, take, drop, take-append-length, drop-append-length,
}
use open_transcribe_mcp.ResultStore.Cursor.{Payload, Primitives, IsLawful, equals_sign}

abbrev high : ℕ → ℕ
high b = b / 16 + 65

abbrev low : ℕ → ℕ
low b = b % 16 + 65

abbrev byte : ℕ → ℕ → ℕ
byte h l = (h - 65) * 16 + (l - 65)

abbrev pub b64encode : List ℕ → List ℕ
b64encode [] = []
b64encode (a ∷ []) = high a ∷ low a ∷ 61 ∷ 61 ∷ []
b64encode (a ∷ b ∷ bs) = high a ∷ low a ∷ 65 ∷ 65 ∷ b64encode (b ∷ bs)

abbrev put_byte : ℕ → Option (List ℕ) → Option (List ℕ)
put_byte b none = none
put_byte b (some bs) = some (b ∷ bs)

abbrev pub b64decode : List ℕ → Option (List ℕ)
b64decode [] = some []
b64decode (h ∷ []) = none
b64decode (h ∷ l ∷ []) = none
b64decode (h ∷ l ∷ c ∷ []) = none
b64decode (h ∷ l ∷ c ∷ d ∷ rest) = put_byte (byte h l) (b64decode rest)

byte-high-low : (b : ℕ) → byte (high b) (low b) ≡ b
byte-high-low b = omega arith

b64decode-b64encode : (xs : List ℕ) → b64decode (b64encode xs) ≡ some xs
b64decode-b64encode [] = refl
b64decode-b64encode (a ∷ []) = rw (byte-high-low a) refl
b64decode-b64encode (a ∷ b ∷ bs) = rw (b64decode-b64encode (b ∷ bs), byte-high-low a) refl

-- The characters before the padding.
abbrev body_of : List ℕ → List ℕ
body_of [] = []
body_of (a ∷ []) = high a ∷ low a ∷ []
body_of (a ∷ b ∷ bs) = high a ∷ low a ∷ 65 ∷ 65 ∷ body_of (b ∷ bs)

abbrev pad_of : List ℕ → ℕ
pad_of [] = 0
pad_of (a ∷ bs) = 2

b64encode-shape : (xs : List ℕ) → b64encode xs ≡ body_of xs ++ replicate (pad_of xs) equals_sign
b64encode-shape [] = refl
b64encode-shape (a ∷ []) = refl
b64encode-shape (a ∷ b ∷ bs) = rw (b64encode-shape (b ∷ bs)) refl

b64encode-grouped : (xs : List ℕ) → length (b64encode xs) % 4 ≡ 0
b64encode-grouped [] = refl
b64encode-grouped (a ∷ []) = refl
b64encode-grouped (a ∷ b ∷ bs) = omega (arith, b64encode-grouped (b ∷ bs))

pad_of-short : (xs : List ℕ) → pad_of xs ≤ 2
pad_of-short [] = omega arith
pad_of-short (a ∷ bs) = omega arith

body_of-plain : (xs : List ℕ) → All (λ c. c ≢ equals_sign) (body_of xs)
body_of-plain [] = tt
body_of-plain (a ∷ []) = (λ e. omega arith, (λ e. omega arith, tt))
body_of-plain (a ∷ b ∷ bs) = (
  λ e. omega arith,
  (λ e. omega arith, (λ e. omega arith, (λ e. omega arith, body_of-plain (b ∷ bs)))),
)

abbrev loads : List ℕ → Option (Option Payload)
loads [] = none
loads (i ∷ []) = none
loads (i ∷ n ∷ rest) = some (some (record { id = take n rest; format = drop n rest; index = i }))

abbrev pub primitives : Primitives
primitives = record {
  digest = λ secret body. replicate 32 (length secret);
  b64encode = b64encode;
  b64decode = b64decode;
  dumps = λ x. x.index ∷ length x.id ∷ (x.id ++ x.format);
  loads = loads;
}

pub primitives-IsLawful : IsLawful primitives
primitives-IsLawful = record {
  length-digest = λ secret body. refl;
  b64encode-IsPadded = λ xs. record {
    body = body_of xs;
    pad = pad_of xs;
    shape = b64encode-shape xs;
    short = pad_of-short xs;
    grouped = b64encode-grouped xs;
    plain = body_of-plain xs;
  };
  b64decode-b64encode = b64decode-b64encode;
  b64decode-nil = refl;
  loads-dumps = λ x. rw (take-append-length x.id x.format, drop-append-length x.id x.format) refl;
}
