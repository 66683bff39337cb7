-- ===== src/Desktop/Clients/TomlStore.antt =====
-- desktop/clients/toml_store.py: one table in the text of a client's TOML file, as code points. The
-- TOML parser is an argument, as the servers that it finds in a text; so is whether the file can be
-- written.
pub mod Lines
pub mod Headers
pub mod Swapped
use open_transcribe_mcp.Base.{
  ℕ, String, Bool, true, false, not, ◌&&◌, ◌||◌, Option, none, some, List, [], ◌∷◌, ◌++◌, ltb, leb,
  ◌==◌, if◌then◌else◌,
}
use open_transcribe_mcp.Base.Text.{codes, ◌+s◌, contains}
use open_transcribe_mcp.Desktop.Errors.{Try, done, raised, fail, os_error, client_conflict, ◌>>=◌}
use open_transcribe_mcp.Desktop.Clients.{
  ServerRegistration, RegistrationPlan, args, blocked, changes_nothing,
}

abbrev pub Line : Type 0
Line = List ℕ

-- The lines with their ends, so that their joint is the text.
unfoldable pub with_code : ℕ → List Line → List Line
with_code c [] = (c ∷ []) ∷ []
with_code c (l ∷ ls) = (c ∷ l) ∷ ls

unfoldable pub lines_of : List ℕ → List Line
unfolding with_code
lines_of [] = []
lines_of (c ∷ cs) = if c == 10 then (c ∷ []) ∷ lines_of cs else with_code c (lines_of cs)

unfoldable pub joined : List Line → List ℕ
joined [] = []
joined (l ∷ ls) = l ++ joined ls

-- [ \t]*
unfoldable pub after_blanks : List ℕ → List ℕ
after_blanks [] = []
after_blanks (c ∷ cs) = let rest = after_blanks cs in if c == 32 || c == 9 then rest else c ∷ cs

unfoldable pub after_prefix : List ℕ → List ℕ → Option (List ℕ)
after_prefix [] cs = some cs
after_prefix (p ∷ ps) [] = none
after_prefix (p ∷ ps) (c ∷ cs) = let rest = after_prefix ps cs in if p == c then rest else none

pub is_at : ℕ → List ℕ → Bool
is_at c [] = false
is_at c (d ∷ cs) = c == d

-- ^[ \t]*\[
unfoldable pub starts_table : Line → Bool
unfolding after_blanks is_at
starts_table l = is_at 91 (after_blanks l)

pub is_end : List ℕ → Bool
is_end [] = true
is_end (c ∷ []) = c == 10
is_end _ = false

pub ends_header : Option (List ℕ) → Bool
unfolding after_blanks is_end
ends_header none = false
ends_header (some cs) = elim (after_prefix (93 ∷ []) (after_blanks cs)) [
  | none ↦ false
  | some rest ↦ is_end (after_blanks rest)
]

-- ^[ \t]*\[[ \t]*HEADER[ \t]*\][ \t]*$
unfoldable pub is_header : List ℕ → Line → Bool
unfolding after_blanks after_prefix ends_header
is_header header l = elim (after_prefix (91 ∷ []) (after_blanks l)) [
  | none ↦ false
  | some rest ↦ ends_header (after_prefix header (after_blanks rest))
]

pub record Bounds : Type 0 where
  pub before : List Line
  pub table : List Line
  pub after : List Line

-- The lines up to the next header.
unfoldable pub until_header : List Line → List Line × List Line
unfolding starts_table
until_header [] = ([], [])
until_header (l ∷ ls) =
    let q = until_header ls in if starts_table l then ([], l ∷ ls) else (l ∷ q.0, q.1)

unfoldable pub behind : Line → Option Bounds → Option Bounds
behind l none = none
behind l (some b) = some (record b { before = l ∷ b.before })

-- `_table_bounds`
unfoldable pub table_bounds : List ℕ → List Line → Option Bounds
unfolding is_header until_header behind
table_bounds header [] = none
table_bounds header (l ∷ ls) =
    let rest = table_bounds header ls in
    if is_header header l
    then some (record { before = []; table = l ∷ (until_header ls).0; after = (until_header ls).1 })
    else behind l rest

pub ends_with : List ℕ → List ℕ → Bool
ends_with suffix [] = elim suffix [ [] ↦ true | ◌∷◌ c cs ↦ false ]
ends_with suffix (c ∷ cs) =
    let rest = ends_with suffix cs in
    (elim (after_prefix suffix (c ∷ cs)) [ none ↦ false | some left ↦ is_nil left ]) || rest
  where
    is_nil : List ℕ → Bool
    is_nil [] = true
    is_nil _ = false

unfoldable pub separator : List ℕ → List ℕ
unfolding ends_with
separator [] = []
separator (c ∷ cs) =
    if ends_with (10 ∷ 10 ∷ []) (c ∷ cs)
    then []
    else if ends_with (10 ∷ []) (c ∷ cs)
    then 10 ∷ []
    else 10 ∷ 10 ∷ []

unfoldable pub or_empty : Option (List ℕ) → List ℕ
or_empty none = []
or_empty (some table) = table

unfoldable pub appended : List ℕ → Option (List ℕ) → List ℕ
unfolding separator
appended text none = []
appended text (some table) = separator text ++ table

unfoldable pub replaced : List ℕ → Option (List ℕ) → Option Bounds → List ℕ
unfolding appended joined or_empty
replaced text table none = text ++ appended text table
replaced text table (some b) = joined b.before ++ (or_empty table ++ joined b.after)

-- `_replace_table`
unfoldable pub replace_table : List ℕ → List ℕ → Option (List ℕ) → List ℕ
unfolding replaced table_bounds lines_of
replace_table text header table = replaced text table (table_bounds header (lines_of text))

-- [A-Za-z0-9_-]
is_bare : ℕ → Bool
is_bare c =
    leb 65 c && leb c 90 || leb 97 c && leb c 122 || leb 48 c && leb c 57 || c == 95 || c == 45

-- `$` also matches before a last end of line.
all_bare : List ℕ → Bool
unfolding is_bare
all_bare [] = true
all_bare (c ∷ []) = is_bare c || c == 10
all_bare (c ∷ cs) = is_bare c && all_bare cs

is_bare_key : List ℕ → Bool
unfolding all_bare is_bare
is_bare_key [] = false
is_bare_key (c ∷ cs) = is_bare c && all_bare cs

escaped_key : List ℕ → List ℕ
escaped_key [] = []
escaped_key (c ∷ cs) =
    let rest = escaped_key cs in if c == 92 || c == 34 then 92 ∷ c ∷ rest else c ∷ rest

unfoldable pub quote_key : List ℕ → List ℕ
unfolding is_bare_key escaped_key
quote_key name = if is_bare_key name then name else 34 ∷ (escaped_key name ++ 34 ∷ [])

escaped_value : List ℕ → List ℕ
escaped_value [] = []
escaped_value (c ∷ cs) =
    let rest = escaped_value cs in
    if c == 92 || c == 34
    then 92 ∷ c ∷ rest
    else if c == 10
    then 92 ∷ 110 ∷ rest
    else if c == 13
    then 92 ∷ 114 ∷ rest
    else if c == 9
    then 92 ∷ 116 ∷ rest
    else c ∷ rest

unfoldable pub quote_value : List ℕ → List ℕ
unfolding escaped_value
quote_value value = 34 ∷ (escaped_value value ++ 34 ∷ [])

-- ".".join(quote_key(part) for part in (*self.table_path, name))
unfoldable pub header_of : List String → String → List ℕ
unfolding quote_key
header_of [] name = quote_key (codes name)
header_of (part ∷ path) name = quote_key (codes part) ++ 46 ∷ header_of path name

arguments : List String → List ℕ
unfolding quote_value
arguments [] = []
arguments (a ∷ as') = codes "  " ++ (quote_value (codes a) ++ (44 ∷ 10 ∷ arguments as'))

unfoldable pub table_of : List String → ServerRegistration → List ℕ
unfolding header_of quote_value arguments args
table_of path r =
    91
    ∷ (header_of path r.name
        ++ (93 ∷ 10 ∷ codes "command = ")
        ++ (quote_value (codes r.command)
            ++ (10 ∷ codes "args = [")
            ++ (10 ∷ arguments (args r))
            ++ (93 ∷ 10 ∷ [])))

-- The file is its text or why it cannot be read; `servers` are the names that the parser finds.
module _ (display_name : String) (path : List String) (servers : List ℕ → Try (List String)) where
  written : Bool → List ℕ → Try (List ℕ) → Try (List ℕ) × Try (Unit {0})
  written writable text file = if writable then (done text, done tt) else (file, raised os_error)

  saved : Bool → Try (List ℕ) → Try (List ℕ) → Try (List ℕ) × Try (Unit {0})
  unfolding written
  saved writable file (raised f) = (file, raised f)
  saved writable file (done text) = written writable text file

  unfoldable pub apply : Bool → RegistrationPlan → Try (List ℕ) → Try (List ℕ) × Try (Unit {0})
  unfolding saved replace_table header_of table_of blocked changes_nothing
  apply writable p file =
      if blocked p
      then (
        file,
        fail client_conflict
            (display_name +s " already has a server named " +s p.registration.name
              +s " that this installation did not create.")
            (some "Choose to take it over, or rename the existing entry in your client."),
      )
      else if changes_nothing p
      then (file, done tt)
      else saved writable file (
          file >>= λ text. servers text >>= λ names. done (
            replace_table text (header_of path p.registration.name)
              (some (table_of path p.registration))))

  removal : Try (List ℕ) × Try (Unit {0}) → Try (List ℕ) × Try Bool
  removal (file, raised f) = (file, raised f)
  removal (file, done u) = (file, done true)

  removed : Bool → String → List ℕ → Try (List String) → Try (List ℕ) → Try (List ℕ) × Try Bool
  unfolding written removal replace_table header_of contains
  removed writable name text (raised f) file = (file, raised f)
  removed writable name text (done names) file =
      if not (contains name names)
      then (file, done false)
      else removal (written writable (replace_table text (header_of path name) none) file)

  unfoldable pub remove : Bool → String → Try (List ℕ) → Try (List ℕ) × Try Bool
  unfolding removed
  remove writable name (raised f) = (raised f, raised f)
  remove writable name (done text) = removed writable name text (servers text) (done text)
