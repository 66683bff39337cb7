-- ===== src/Desktop/Clients/TomlStore/Lines.antt =====
-- The lines of a client's TOML text: which start a table, and which are the header of one.
use open_transcribe_mcp.Base.{
  ℕ, ◌≡◌, ◌≢◌, refl, ap, true, ◌||◌, some, List, [], ◌∷◌, ◌++◌, ◌==◌, All, arith, Bool-cases, inl,
  inr, ◌⊎◌,
}
use open_transcribe_mcp.Desktop.Clients.TomlStore.{
  Line, lines_of, with_code, after_blanks, after_prefix,
}

-- A space or a tab.
abbrev pub IsBlank : ℕ → Type 0
IsBlank c = (c ≡ 32) ⊎ (c ≡ 9)

-- The lines of a text: each but the last ends with the end of line, which is nowhere else.
pub data IsLines : List Line → List ℕ → Type 0 where
  empty : IsLines [] []
  last : (c : ℕ) (l : Line) → c ≢ 10 → All (λ d. d ≢ 10) l → IsLines ((c ∷ l) ∷ []) (c ∷ l)
  next :
      (l : Line) (ls : List Line) (text : List ℕ)
      → All (λ d. d ≢ 10) l
      → IsLines ls text
      → IsLines ((l ++ 10 ∷ []) ∷ ls) (l ++ 10 ∷ text)

-- A line that starts a table has a bracket after its blanks.
pub record StartsTable (l : Line) : Type 0 where
  pub blanks : List ℕ
  pub rest : List ℕ
  pub are_blanks : All IsBlank blanks
  pub line : l ≡ blanks ++ 91 ∷ rest

-- The header's line has the header in brackets, with blanks around and inside them, and no more.
pub record IsHeaderLine (header : List ℕ) (l : Line) : Type 0 where
  pub before : List ℕ
  pub inside : List ℕ
  pub behind : List ℕ
  pub after : List ℕ
  pub end : List ℕ
  pub before_blank : All IsBlank before
  pub inside_blank : All IsBlank inside
  pub behind_blank : All IsBlank behind
  pub after_blank : All IsBlank after
  pub ends : (end ≡ []) ⊎ (end ≡ 10 ∷ [])
  pub line : l ≡ before ++ 91 ∷ (inside ++ (header ++ (behind ++ 93 ∷ (after ++ end))))

-- A header that starts with no blank.
pub data IsSolid : List ℕ → Type 0 where
  solid : (c : ℕ) (cs : List ℕ) → (IsBlank c → ⊥) → IsSolid (c ∷ cs)

with_code-IsLines :
    (c : ℕ) (ls : List Line) (text : List ℕ)
    → c ≢ 10
    → IsLines ls text
    → IsLines (with_code c ls) (c ∷ text)
unfolding with_code
with_code-IsLines c ls text n empty = last c [] n tt
with_code-IsLines c ls text n (last d l m all) = last c (d ∷ l) n (m, all)
with_code-IsLines c ls text n (next l ls' text' all h) = next (c ∷ l) ls' text' (n, all) h

pub lines_of-IsLines : (text : List ℕ) → IsLines (lines_of text) text
unfolding lines_of
lines_of-IsLines [] = empty
lines_of-IsLines (c ∷ cs) = elim (Bool-cases (c == 10)) [
  | inl ending ↦
      let same : c ≡ 10 = ground arith in
      rw (ending, same) (next [] (lines_of cs) cs tt (lines_of-IsLines cs))
  | inr inner ↦
      rw inner (with_code-IsLines c (lines_of cs) cs (λ e. ground arith) (lines_of-IsLines cs))
]

test-IsBlank : (c : ℕ) → (c == 32 || c == 9) ≡ true → IsBlank c
test-IsBlank c h = elim (Bool-cases (c == 32)) [
  | inl space ↦ inl (ground arith)
  | inr other ↦ inr (ground arith)
]

IsBlank-test : (c : ℕ) → IsBlank c → (c == 32 || c == 9) ≡ true
IsBlank-test c (inl e) = rw e refl
IsBlank-test c (inr e) = rw e refl

pub after_blanks-split :
    (cs : List ℕ) → (blanks : List ℕ) × All IsBlank blanks × (cs ≡ blanks ++ after_blanks cs)
unfolding after_blanks
after_blanks-split [] = ([], tt, refl)
after_blanks-split (c ∷ cs) = elim (Bool-cases (c == 32 || c == 9)) [
  | inl blank ↦
      let (blanks, all, e) = after_blanks-split cs in
      rw blank (c ∷ blanks, (test-IsBlank c blank, all), ap (λ x. c ∷ x) e)
  | inr other ↦ rw other ([], tt, refl)
]

pub blanks-after :
    (blanks cs : List ℕ) → All IsBlank blanks → after_blanks (blanks ++ cs) ≡ after_blanks cs
unfolding after_blanks
blanks-after [] cs all = refl
blanks-after (b ∷ blanks) cs (p, all) = rw (IsBlank-test b p) (blanks-after blanks cs all)

pub solid-after : (header cs : List ℕ) → IsSolid header → after_blanks (header ++ cs) ≡ header ++ cs
unfolding after_blanks
solid-after header cs (solid c rest n) = elim (Bool-cases (c == 32 || c == 9)) [
  | inl blank ↦ absurd (n (test-IsBlank c blank))
  | inr other ↦ rw other refl
]

pub after_prefix-eq :
    (prefix cs rest : List ℕ) → after_prefix prefix cs ≡ some rest → cs ≡ prefix ++ rest
unfolding after_prefix
after_prefix-eq [] cs rest h = cc
after_prefix-eq (p ∷ prefix) [] rest h = cc
after_prefix-eq (p ∷ prefix) (c ∷ cs) rest h = elim (Bool-cases (p == c)) [
  | inl same ↦
      let e = after_prefix-eq prefix cs rest (rw same at h) in let q : p ≡ c = ground arith in cc
  | inr other ↦ let e = rw other at h in cc
]

pub prefix-after : (prefix rest : List ℕ) → after_prefix prefix (prefix ++ rest) ≡ some rest
unfolding after_prefix
prefix-after [] rest = refl
prefix-after (p ∷ prefix) rest =
    let same : (p == p) ≡ true = ground arith in rw same (prefix-after prefix rest)
