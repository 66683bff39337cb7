-- ===== src/Base/Text.antt =====
-- Python's operations on `str`, over the native texts and their code points.
use Prim.Native.Char.{Char, code}
use Prim.Native.String.{String, ◌++◌ as append}
use mathlib.Core.List.{reverse}
use open_transcribe_mcp.Base.{
  if◌then◌else◌, ℕ, Bool, true, false, ◌&&◌, ◌||◌, List, [], ◌∷◌, leb, ltb, ◌==◌, str_eq,
}

-- list(s)
unfoldable pub characters : String → List Char
characters String.[] = []
characters (String.◌∷◌ c s) = c ∷ characters s

-- [ord(c) for c in s]
unfoldable pub codes : String → List ℕ
codes String.[] = []
codes (String.◌∷◌ c s) = code c ∷ codes s

-- The ASCII characters for which `str.isspace` holds.
unfoldable pub is_space : ℕ → Bool
is_space c = c == 32 || (leb 9 c && leb c 13) || (leb 28 c && leb c 31)

-- not s.strip()
unfoldable pub is_blank : String → Bool
unfolding is_space
is_blank String.[] = true
is_blank (String.◌∷◌ c s) = is_space (code c) && is_blank s

-- s < t: by code points, the shorter first among equals.
unfoldable pub codes_lt : List ℕ → List ℕ → Bool
codes_lt [] [] = false
codes_lt [] (d ∷ ds) = true
codes_lt (c ∷ cs) [] = false
codes_lt (c ∷ cs) (d ∷ ds) = ltb c d || (c == d && codes_lt cs ds)

unfoldable pub str_lt : String → String → Bool
unfolding codes codes_lt
str_lt s t = codes_lt (codes s) (codes t)

-- s in xs
unfoldable pub contains : String → List String → Bool
contains s [] = false
contains s (x ∷ xs) = str_eq x s || contains s xs

infixl 65 ◌+s◌
abbrev pub ◌+s◌ : String → String → String
s +s t = append s t

-- f"SEP".join(xs)
unfoldable pub join : String → List String → String
join sep [] = ""
join sep (x ∷ []) = x
join sep (x ∷ y ∷ xs) = x +s sep +s join sep (y ∷ xs)

unfoldable pub codes_eq : List ℕ → List ℕ → Bool
codes_eq [] [] = true
codes_eq [] (d ∷ ds) = false
codes_eq (c ∷ cs) [] = false
codes_eq (c ∷ cs) (d ∷ ds) = c == d && codes_eq cs ds

-- s.lstrip(), s.rstrip(), s.strip() on code points
unfoldable pub lstrip : List ℕ → List ℕ
unfolding is_space
lstrip [] = []
lstrip (c ∷ cs) = let rest = lstrip cs in if is_space c then rest else c ∷ cs

unfoldable pub strip : List ℕ → List ℕ
unfolding lstrip
strip cs = reverse (lstrip (reverse (lstrip cs)))

-- any(c.isspace() for c in s)
unfoldable pub any_space : List ℕ → Bool
unfolding is_space
any_space [] = false
any_space (c ∷ cs) = is_space c || any_space cs

-- s.split(sep) for a separator of one character; `part` is the part being read, backwards.
unfoldable pub split_from : ℕ → List ℕ → List ℕ → List (List ℕ)
split_from sep part [] = reverse part ∷ []
split_from sep part (c ∷ cs) =
    let closed = split_from sep [] cs in
    let longer = split_from sep (c ∷ part) cs in if c == sep then reverse part ∷ closed else longer

unfoldable pub split : ℕ → List ℕ → List (List ℕ)
unfolding split_from
split sep cs = split_from sep [] cs

unfoldable pub is_letter : ℕ → Bool
is_letter c = (leb b'a' c && leb c b'z') || (leb b'A' c && leb c b'Z') || c == b'_'

unfoldable pub all_word : List ℕ → Bool
unfolding is_letter
all_word [] = true
all_word (c ∷ cs) = (is_letter c || (leb b'0' c && leb c b'9')) && all_word cs

-- s.isidentifier(), for ASCII text
unfoldable pub is_identifier : List ℕ → Bool
unfolding is_letter all_word
is_identifier [] = false
is_identifier (c ∷ cs) = is_letter c && all_word cs

unfoldable pub all_identifiers : List (List ℕ) → Bool
unfolding is_identifier
all_identifiers [] = true
all_identifiers (p ∷ ps) = is_identifier p && all_identifiers ps
