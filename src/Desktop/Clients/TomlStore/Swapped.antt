-- ===== src/Desktop/Clients/TomlStore/Swapped.antt =====
-- What an edit of one table leaves of the text around it.
use open_transcribe_mcp.Base.{
  ℕ, ◌≡◌, refl, ap, sym, ◌∙◌, subst, false, Option, none, some, List, [], ◌∷◌, ◌++◌, All,
  Bool-cases, inl, inr,
}
use open_transcribe_mcp.Desktop.Clients.TomlStore.{
  Line, lines_of, joined, starts_table, is_header, Bounds, until_header, behind, table_bounds,
  or_empty, appended, separator, ends_with, replaced, replace_table,
}
use open_transcribe_mcp.Desktop.Clients.TomlStore.Lines.{
  IsLines, StartsTable, IsHeaderLine, IsSolid, lines_of-IsLines,
}
use open_transcribe_mcp.Desktop.Clients.TomlStore.Headers.{
  starts_table-StartsTable, StartsTable-starts_table, is_header-IsHeaderLine,
  IsHeaderLine-is_header,
}

some-injective : {A : Type 0} {a b : A} → some a ≡ some b → a ≡ b
some-injective e = cc

append_nil {ℓ} : {A : Type ℓ} (xs : List A) → xs ++ [] ≡ xs
append_nil [] = refl
append_nil (x ∷ xs) = ap (λ l. x ∷ l) (append_nil xs)

append_assoc : (xs ys zs : List ℕ) → (xs ++ ys) ++ zs ≡ xs ++ (ys ++ zs)
append_assoc [] ys zs = refl
append_assoc (x ∷ xs) ys zs = ap (λ l. x ∷ l) (append_assoc xs ys zs)

-- The lines of a table are its header's line and lines after it that start no table.
pub data IsTable (header : List ℕ) : List Line → Type 0 where
  headed :
      (l : Line) (ls : List Line)
      → IsHeaderLine header l
      → All (λ x. StartsTable x → ⊥) ls
      → IsTable header (l ∷ ls)

-- The text ends here, or the next line starts a table.
pub data IsBreak : List Line → Type 0 where
  end : IsBreak []
  at_table : (l : Line) (ls : List Line) → StartsTable l → IsBreak (l ∷ ls)

-- No line is the header's.
abbrev pub Lacks : List ℕ → List Line → Type 0
Lacks header = All (λ l. IsHeaderLine header l → ⊥)

-- At most two ends of line.
pub data IsGap : List ℕ → Type 0 where
  closed : IsGap []
  one_line : IsGap (10 ∷ [])
  two_lines : IsGap (10 ∷ 10 ∷ [])

-- What is put at the end, where there is a table to put.
pub data IsAppended : Option (List ℕ) → List ℕ → Type 0 where
  nothing : IsAppended none []
  behind_gap : (table gap : List ℕ) → IsGap gap → IsAppended (some table) (gap ++ table)

pub data Swap (header : List ℕ) (table : Option (List ℕ))
    : List Line → List Line → List ℕ → Type 0 where
  nowhere : (new : List ℕ) → IsAppended table new → Swap header table [] [] new
  swapped :
      (piece after : List Line)
      → IsTable header piece
      → IsBreak after
      → Swap header table piece after (or_empty table)

pub record IsSwapped (header text : List ℕ) (table : Option (List ℕ)) (result : List ℕ)
    : Type 0 where
  pub before : List Line
  pub piece : List Line
  pub after : List Line
  pub new : List ℕ
  pub text_lines : IsLines (before ++ (piece ++ after)) text
  pub lacking : Lacks header before
  pub swap : Swap header table piece after new
  pub result_is : result ≡ joined before ++ (new ++ joined after)

until_header-append : (ls : List Line) → (until_header ls).0 ++ (until_header ls).1 ≡ ls
unfolding until_header
until_header-append [] = refl
until_header-append (l ∷ ls) = elim (Bool-cases (starts_table l)) [
  | inl next ↦ rw next refl
  | inr inside ↦ rw inside (ap (λ x. l ∷ x) (until_header-append ls))
]

until_header-inside : (ls : List Line) → All (λ l. StartsTable l → ⊥) (until_header ls).0
unfolding until_header
until_header-inside [] = tt
until_header-inside (l ∷ ls) = elim (Bool-cases (starts_table l)) [
  | inl next ↦ rw next tt
  | inr inside ↦
      rw inside (λ s. let starts = StartsTable-starts_table l s in cc, until_header-inside ls)
]

until_header-IsBreak : (ls : List Line) → IsBreak (until_header ls).1
unfolding until_header
until_header-IsBreak [] = end
until_header-IsBreak (l ∷ ls) = elim (Bool-cases (starts_table l)) [
  | inl next ↦ rw next (at_table l ls (starts_table-StartsTable l next))
  | inr inside ↦ rw inside (until_header-IsBreak ls)
]

-- The bounds cut the lines, at the first table of the header.
pub record AreBounds (header : List ℕ) (ls : List Line) (b : Bounds) : Type 0 where
  pub lines : b.before ++ (b.table ++ b.after) ≡ ls
  pub lacking : Lacks header b.before
  pub table : IsTable header b.table
  pub break : IsBreak b.after

not_header :
    (header l : List ℕ) → IsSolid header → is_header header l ≡ false → IsHeaderLine header l → ⊥
not_header header l h other s = let found = IsHeaderLine-is_header header l h s in cc

behind-AreBounds :
    (header : List ℕ) (l : Line) (ls : List Line) (m : Option Bounds) (b : Bounds)
    → (IsHeaderLine header l → ⊥)
    → ((b' : Bounds) → m ≡ some b' → AreBounds header ls b')
    → behind l m ≡ some b
    → AreBounds header (l ∷ ls) b
unfolding behind
behind-AreBounds header l ls none b n h e = cc
behind-AreBounds header l ls (some b') b n h e =
    let found = h b' refl in
    subst (λ x. AreBounds header (l ∷ ls) x) (some-injective e)
      (record {
        lines = ap (λ x. l ∷ x) found.lines;
        lacking = (n, found.lacking);
        table = found.table;
        break = found.break;
      })

table_bounds-AreBounds :
    (header : List ℕ) (ls : List Line) (b : Bounds)
    → IsSolid header
    → table_bounds header ls ≡ some b
    → AreBounds header ls b
unfolding table_bounds
table_bounds-AreBounds header [] b h e = cc
table_bounds-AreBounds header (l ∷ ls) b h e = elim (Bool-cases (is_header header l)) [
  | inl here ↦
      subst (λ x. AreBounds header (l ∷ ls) x) (some-injective (rw here at e))
        (record {
          lines = ap (λ x. l ∷ x) (until_header-append ls);
          lacking = tt;
          table =
              headed l (until_header ls).0 (is_header-IsHeaderLine header l here)
                (until_header-inside ls);
          break = until_header-IsBreak ls;
        })
  | inr other ↦
      behind-AreBounds header l ls (table_bounds header ls) b (not_header header l h other)
        (λ b' e'. table_bounds-AreBounds header ls b' h e') (rw other at e)
]

behind-none : (l : Line) (m : Option Bounds) → behind l m ≡ none → m ≡ none
unfolding behind
behind-none l none e = refl
behind-none l (some b) e = cc

some-ne-none : {A : Type 0} {a : A} → some a ≡ none → ⊥
some-ne-none e = cc

table_bounds-Lacks :
    (header : List ℕ) (ls : List Line)
    → IsSolid header
    → table_bounds header ls ≡ none
    → Lacks header ls
unfolding table_bounds
table_bounds-Lacks header [] h e = tt
table_bounds-Lacks header (l ∷ ls) h e = elim (Bool-cases (is_header header l)) [
  | inl here ↦ absurd (some-ne-none (rw here at e))
  | inr other ↦ (
    not_header header l h other,
    table_bounds-Lacks header ls h (behind-none l (table_bounds header ls) (rw other at e)),
  )
]

separator-IsGap : (text : List ℕ) → IsGap (separator text)
unfolding separator
separator-IsGap [] = closed
separator-IsGap (c ∷ cs) = elim (Bool-cases (ends_with (10 ∷ 10 ∷ []) (c ∷ cs))) [
  | inl two ↦ rw two closed
  | inr fewer ↦ elim (Bool-cases (ends_with (10 ∷ []) (c ∷ cs))) [
    | inl one ↦ rw (fewer, one) one_line
    | inr none' ↦ rw (fewer, none') two_lines
  ]
]

appended-IsAppended :
    (text : List ℕ) (table : Option (List ℕ)) → IsAppended table (appended text table)
unfolding appended
appended-IsAppended text none = nothing
appended-IsAppended text (some table) = behind_gap table (separator text) (separator-IsGap text)

IsLines-joined : (ls : List Line) (text : List ℕ) → IsLines ls text → joined ls ≡ text
unfolding joined
IsLines-joined ls text IsLines.empty = refl
IsLines-joined ls text (IsLines.last c l n all) = append_nil (c ∷ l)
IsLines-joined ls text (IsLines.next l ls' text' all h) =
    append_assoc l (10 ∷ []) (joined ls') ∙ ap (λ x. l ++ 10 ∷ x) (IsLines-joined ls' text' h)

replaced-IsSwapped :
    (header text : List ℕ) (table : Option (List ℕ)) (m : Option Bounds)
    → IsSolid header
    → table_bounds header (lines_of text) ≡ m
    → IsSwapped header text table (replaced text table m)
unfolding replaced joined
replaced-IsSwapped header text table none h e = record {
  before = lines_of text;
  piece = [];
  after = [];
  new = appended text table;
  text_lines =
      subst (λ x. IsLines x text) (sym (append_nil (lines_of text))) (lines_of-IsLines text);
  lacking = table_bounds-Lacks header (lines_of text) h e;
  swap = nowhere (appended text table) (appended-IsAppended text table);
  result_is =
      ap (λ x. x ++ appended text table)
        (sym (IsLines-joined (lines_of text) text (lines_of-IsLines text)))
      ∙ ap (λ x. joined (lines_of text) ++ x) (sym (append_nil (appended text table)));
}
replaced-IsSwapped header text table (some b) h e =
    let bounds = table_bounds-AreBounds header (lines_of text) b h e in
    record {
      before = b.before;
      piece = b.table;
      after = b.after;
      new = or_empty table;
      text_lines = subst (λ x. IsLines x text) (sym bounds.lines) (lines_of-IsLines text);
      lacking = bounds.lacking;
      swap = swapped b.table b.after bounds.table bounds.break;
      result_is = refl;
    }

-- An edit of a client's TOML text, under a header that starts with no blank, takes out one piece and
-- puts another in its place, and leaves the lines before and after it. Before the piece no line is
-- the header in brackets. Either the piece is the table of that header, from its line up to the next
-- line that starts a table or to the end, and the new table or nothing is put in; or the piece is
-- empty and at the end, and the new table, if there is one, is put there after at most two ends of
-- line.
pub replace_table-IsSwapped :
    (header text : List ℕ) (table : Option (List ℕ))
    → IsSolid header
    → IsSwapped header text table (replace_table text header table)
unfolding replace_table
replace_table-IsSwapped header text table h =
    replaced-IsSwapped header text table (table_bounds header (lines_of text)) h refl
