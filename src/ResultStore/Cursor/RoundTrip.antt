-- ===== src/ResultStore/Cursor/RoundTrip.antt =====
-- A cursor that the codec made is read back, and what it reads it has signed.
use open_transcribe_mcp.Base.{
  ℕ, zero, suc, ◌+◌, ◌-◌, ◌%◌, ◌≤◌, ◌≡◌, ◌≢◌, refl, sym, ◌∙◌, ap, true, Option, none, some, List,
  [], ◌∷◌, ◌++◌, All, length, take, drop, replicate, arith, length-append, take-append-length,
  take-append-drop, drop-append-length, Bool-cases, inl, inr, subst,
}
use open_transcribe_mcp.Base.Text.{codes_eq}
use open_transcribe_mcp.Domain.Errors.{Result, ok}
use open_transcribe_mcp.ResultStore.Cursor.{
  Payload, Primitives, IsLawful, IsPadded, equals_sign, strip_before, rstrip_equals, encode, decode,
  decode_raw, verify, read_payload, invalid_cursor,
}

pub codes_eq_refl : (xs : List ℕ) → codes_eq xs xs ≡ true
unfolding codes_eq
codes_eq_refl [] = refl
codes_eq_refl (x ∷ xs) = ground (arith, codes_eq_refl xs)

pub codes_eq_sound : (xs ys : List ℕ) → codes_eq xs ys ≡ true → xs ≡ ys
unfolding codes_eq
codes_eq_sound [] [] e = refl
codes_eq_sound [] (y ∷ ys) e = cc
codes_eq_sound (x ∷ xs) [] e = cc
codes_eq_sound (x ∷ xs) (y ∷ ys) e = ground (arith, codes_eq_sound xs ys)

length-replicate : (n : ℕ) (c : ℕ) → length (replicate n c) ≡ n
length-replicate zero c = refl
length-replicate (suc n) c = ap suc (length-replicate n c)

rstrip-replicate : (n : ℕ) → rstrip_equals (replicate n equals_sign) ≡ []
unfolding rstrip_equals
rstrip-replicate zero = refl
rstrip-replicate (suc n) = ap (strip_before equals_sign) (rstrip-replicate n)

strip_before-plain : (c : ℕ) (cs : List ℕ) → c ≢ equals_sign → strip_before c cs ≡ c ∷ cs
unfolding strip_before
strip_before-plain c [] h = ground arith
strip_before-plain c (d ∷ ds) h = refl

-- Taking the padding off leaves the characters before it.
rstrip-append :
    (body : List ℕ) (pad : ℕ)
    → All (λ c. c ≢ equals_sign) body
    → rstrip_equals (body ++ replicate pad equals_sign) ≡ body
unfolding rstrip_equals
rstrip-append [] pad h = rstrip-replicate pad
rstrip-append (c ∷ body) pad (h, hs) =
    ap (strip_before c) (rstrip-append body pad hs) ∙ strip_before-plain c body h

-- and the padding is known again from the length of what is left.
padding_again :
    (body : List ℕ) (pad : ℕ)
    → pad ≤ 2
    → length (body ++ replicate pad equals_sign) % 4 ≡ 0
    → (4 - length body % 4) % 4 ≡ pad
padding_again body pad short grouped =
    let total : length (body ++ replicate pad equals_sign) ≡ length body + pad =
      length-append body (replicate pad equals_sign)
      ∙ ap (λ n. length body + n) (length-replicate pad equals_sign) in
    omega (arith, total)

module _ (p : Primitives) (lawful : IsLawful p) where
  open lawful use {
    length-digest, b64encode-IsPadded, b64decode-b64encode, b64decode-nil, loads-dumps,
  }

  padding-restored :
      (xs : List ℕ)
      → rstrip_equals (p.b64encode xs)
          ++ replicate ((4 - length (rstrip_equals (p.b64encode xs)) % 4) % 4) equals_sign
        ≡ p.b64encode xs
  padding-restored xs =
      let padded = b64encode-IsPadded xs in
      let stripped : rstrip_equals (p.b64encode xs) ≡ padded.body =
        ap rstrip_equals padded.shape ∙ rstrip-append padded.body padded.pad padded.plain in
      let again =
        padding_again padded.body padded.pad padded.short
          (subst (λ ys. length ys % 4 ≡ 0) padded.shape padded.grouped) in
      rw (stripped, again) (sym padded.shape)

  verify-signed :
      (secret : List ℕ) (payload : Payload)
      → verify p secret (p.dumps payload ++ p.digest secret (p.dumps payload)) ≡ ok payload
  unfolding verify
  verify-signed secret payload =
      let body = p.dumps payload in
      let signature = p.digest secret body in
      let size : length (body ++ signature) - 32 ≡ length body =
        omega (arith, length-append body signature, length-digest secret body) in
      rw
        (
          size,
          take-append-length body signature,
          drop-append-length body signature,
          codes_eq_refl signature,
          loads-dumps payload,
        )
        refl

  -- A cursor that was encoded with a secret decodes, with that secret, to the same payload: the
  -- padding that `encode` takes off is the one that `decode` puts back, and the signature is found
  -- in the last 32 bytes.
  pub decode-encode :
      (secret : List ℕ) (payload : Payload) → decode p secret (encode p secret payload) ≡ ok payload
  unfolding decode encode
  decode-encode secret payload =
      let body = p.dumps payload in
      rw (padding-restored (body ++ p.digest secret body), b64decode-b64encode)
        (verify-signed secret payload)

abbrev length_of : Option (List ℕ) → ℕ
length_of none = 0
length_of (some xs) = length xs

length-eq-zero : (xs : List ℕ) → length xs ≡ 0 → xs ≡ []
length-eq-zero [] h = refl
length-eq-zero (x ∷ xs) h = absurd (omega arith)

-- A padded text that is all padding is empty.
all_padding : {xs : List ℕ} → IsPadded xs → rstrip_equals xs ≡ [] → xs ≡ []
all_padding {xs} padded none_left =
    let bare : padded.body ≡ [] =
      sym (ap rstrip_equals padded.shape ∙ rstrip-append padded.body padded.pad padded.plain)
      ∙ none_left in
    let size : length xs ≡ padded.pad =
      ap length (padded.shape ∙ ap (λ ys. ys ++ replicate padded.pad equals_sign) bare)
      ∙ length-replicate padded.pad equals_sign in
    let grouped = padded.grouped in let short = padded.short in length-eq-zero xs (omega arith)

module _ (p : Primitives) (lawful : IsLawful p) where
  open lawful use {length-digest, b64encode-IsPadded, b64decode-b64encode, b64decode-nil}

  -- A cursor is never the empty text, which would be read as no cursor at all.
  pub encode-nonempty : (secret : List ℕ) (payload : Payload) → encode p secret payload ≢ []
  unfolding encode
  encode-nonempty secret payload e =
      let body = p.dumps payload in
      let raw = body ++ p.digest secret body in
      let whole : p.b64encode raw ≡ [] = all_padding (b64encode-IsPadded raw) e in
      let decoded : some raw ≡ some [] =
        sym (b64decode-b64encode raw) ∙ ap p.b64decode whole ∙ b64decode-nil in
      let size : length raw ≡ 0 = ap length_of decoded in
      absurd (omega (arith, length-append body (p.digest secret body), length-digest secret body))

read_payload-eq-ok :
    (p : Primitives) (found : Option (Option Payload)) (payload : Payload)
    → read_payload p found ≡ ok payload
    → found ≡ some (some payload)
unfolding read_payload
read_payload-eq-ok p none payload e = cc
read_payload-eq-ok p (some none) payload e = cc
read_payload-eq-ok p (some (some found)) payload e = cc

verify_sound :
    (p : Primitives) (secret raw : List ℕ) (payload : Payload)
    → verify p secret raw ≡ ok payload
    → (body signature : List ℕ) × (some raw ≡ some (body ++ signature))
      × (signature ≡ p.digest secret body)
      × (p.loads body ≡ some (some payload))
unfolding verify
verify_sound p secret raw payload e =
    let n = length raw - 32 in
    elim (Bool-cases (codes_eq (drop n raw) (p.digest secret (take n raw)))) [
      | inl valid ↦ (
        take n raw,
        drop n raw,
        ap some (sym (take-append-drop n raw)),
        codes_eq_sound (drop n raw) _ valid,
        read_payload-eq-ok p (p.loads (take n raw)) payload (rw valid at e),
      )
      | inr forged ↦ absurd (never (rw forged at e))
    ]
  where
    never : ◌≡◌ {A = Result Payload} invalid_cursor (ok payload) → ⊥
    never e' = cc

decode_raw_sound :
    (p : Primitives) (secret : List ℕ) (decoded : Option (List ℕ)) (payload : Payload)
    → decode_raw p secret decoded ≡ ok payload
    → (body signature : List ℕ) × (decoded ≡ some (body ++ signature))
      × (signature ≡ p.digest secret body)
      × (p.loads body ≡ some (some payload))
unfolding decode_raw
decode_raw_sound p secret none payload e = absurd (cc)
decode_raw_sound p secret (some raw) payload e = verify_sound p secret raw payload e

-- A token that decodes to a payload is base64 of a body and of that body's signature under the
-- secret, and the payload is what the body holds: no unsigned payload is ever read.
pub decode-signed :
    (p : Primitives) (secret token : List ℕ) (payload : Payload)
    → decode p secret token ≡ ok payload
    → (body signature : List ℕ) × (p.b64decode
          (token ++ replicate ((4 - length token % 4) % 4) equals_sign)
        ≡ some (body ++ signature))
      × (signature ≡ p.digest secret body)
      × (p.loads body ≡ some (some payload))
unfolding decode
decode-signed p secret token payload e = decode_raw_sound p secret _ payload e
