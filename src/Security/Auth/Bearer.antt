-- ===== src/Security/Auth/Bearer.antt =====
-- The scheme of the bearer middleware's header.
use open_transcribe_mcp.Base.{
  ◌≤◌, ◌+◌, ◌≡◌, refl, sym, ◌∙◌, subst, ◌++◌, map, drop, length, leb, ap, ◌⊎◌, inl, inr, ℕ, true,
  ◌&&◌, List, [], ◌∷◌, arith, Bool-cases,
}
use open_transcribe_mcp.Base.Text.{codes, codes_eq}
use open_transcribe_mcp.Security.Auth.{starts_with, lower_code, supplied}

-- Two codes are one letter, whose case may differ.
pub data IsSameLetter : ℕ → ℕ → Type 0 where
  unchanged : (c : ℕ) → IsSameLetter c c
  upper : (c : ℕ) → 65 ≤ c → c ≤ 90 → IsSameLetter c (c + 32)

-- Two texts are the same but for the case of their letters.
pub data IsSpelling : List ℕ → List ℕ → Type 0 where
  empty : IsSpelling [] []
  letter :
      (c d : ℕ) (cs ds : List ℕ)
      → IsSameLetter c d
      → IsSpelling cs ds
      → IsSpelling (c ∷ cs) (d ∷ ds)

lower_code-IsSameLetter : (c : ℕ) → IsSameLetter c (lower_code c)
unfolding lower_code
lower_code-IsSameLetter c = elim (Bool-cases (leb 65 c && leb c 90)) [
  | inl capital ↦ rw capital (upper c (ground arith) (ground arith))
  | inr other ↦ rw other (unchanged c)
]

-- What starts with a text but for case is a spelling of that text and the rest.
lower-starts :
    (header prefix : List ℕ)
    → starts_with (map lower_code header) prefix ≡ true
    → (scheme : List ℕ) × IsSpelling scheme prefix
      × (header ≡ scheme ++ drop (length prefix) header)
unfolding starts_with codes_eq
lower-starts header [] h = ([], empty, refl)
lower-starts [] (p ∷ prefix) h = cc
lower-starts (c ∷ header) (p ∷ prefix) h =
    let (scheme, spelt, rest) = lower-starts header prefix (ground arith) in
    let here : lower_code c ≡ p = ground arith in
    (
      c ∷ scheme,
      letter c p scheme prefix (subst (IsSameLetter c) here (lower_code-IsSameLetter c)) spelt,
      ap (λ x. c ∷ x) rest,
    )

pub starts_with-append : (prefix rest : List ℕ) → starts_with (prefix ++ rest) prefix ≡ true
unfolding starts_with codes_eq
starts_with-append [] rest = refl
starts_with-append (p ∷ prefix) rest = ground (arith, starts_with-append prefix rest)

-- The header has the scheme `bearer ` in any case, and then the text.
pub IsBearer : List ℕ → List ℕ → Type 0
IsBearer header given =
    (scheme : List ℕ) × IsSpelling scheme (codes "bearer ") × (header ≡ scheme ++ given)

pub supplied-IsBearer :
    (header given : List ℕ) → supplied header ≡ given → (given ≡ []) ⊎ IsBearer header given
unfolding supplied IsBearer
supplied-IsBearer header given e =
    elim (Bool-cases (starts_with (map lower_code header) (codes "bearer "))) [
      | inl bearer ↦
          let (scheme, spelt, rest) = lower-starts header (codes "bearer ") bearer in
          inr (scheme, spelt, rest ∙ ap (λ x. scheme ++ x) (rw bearer at e))
      | inr other ↦ inl (sym (rw other at e))
    ]
