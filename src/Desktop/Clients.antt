-- ===== src/Desktop/Clients.antt =====
-- desktop/clients/base.py: registrations, the entries that are observed, and whose they are. The
-- digest of a launch is an argument.
pub mod JsonStore
pub mod TomlStore
use open_transcribe_mcp.Base.{
  ℕ, String, Bool, true, false, not, ◌&&◌, ◌||◌, Option, none, some, List, [], ◌∷◌, str_eq,
  if◌then◌else◌,
}
use open_transcribe_mcp.Base.Text.{contains}
use open_transcribe_mcp.Base.Sequences.{is_nonempty}
use open_transcribe_mcp.Base.Json.{
  Json, null, boolean, number, text, array, object, Items, nil, cons, Fields, field, end,
}
use open_transcribe_mcp.Desktop.Errors.{Try, done, raised, exception, ◌>>=◌}

pub data Ownership : Type 0 where
  ours foreign unknown : Ownership

pub record ServerRegistration : Type 0 where
  pub name : String
  pub command : String
  pub config_path : String

-- __post_init__; the test for an absolute path is an argument.
unfoldable pub make_registration : (String → Bool) → ServerRegistration → Try ServerRegistration
make_registration is_absolute r =
    if not (is_absolute r.command) || not (is_absolute r.config_path)
    then raised (exception "a registration must use absolute paths")
    else done r

unfoldable pub args : ServerRegistration → List String
args r = "serve" ∷ "--transport" ∷ "stdio" ∷ "--config" ∷ r.config_path ∷ []

unfoldable pub argv : ServerRegistration → List String
unfolding args
argv r = r.command ∷ args r

-- The command is what the client's file holds, which need not be a text.
pub record ExistingEntry : Type 0 where
  pub name : String
  pub command : Json
  pub args : List String

pub record PlannedAction : Type 0 where
  pub kind : String
  pub target : String
  pub detail : String

pub record RegistrationPlan : Type 0 where
  pub adapter_id : String
  pub registration : ServerRegistration
  pub actions : List PlannedAction
  pub conflicts : List ExistingEntry
  pub takeover : List ExistingEntry
  pub target_description : String

unfoldable pub blocked : RegistrationPlan → Bool
unfolding is_nonempty
blocked p = is_nonempty p.conflicts

unfoldable pub changes_nothing : RegistrationPlan → Bool
unfolding is_nonempty
changes_nothing p = not (is_nonempty p.actions)

-- What the setup calls of a client whose own configuration is a value of `S`.
pub record ClientAdapter (S : Type 0) : Type 0 where
  pub adapter_id : String
  pub display_name : String
  pub restart_required : Bool
  pub plan : ServerRegistration → List String → Bool → S → Try RegistrationPlan
  pub apply : RegistrationPlan → S → S × Try (Unit {0})
  pub readback : String → S → Try (Option ExistingEntry)
  pub remove : String → S → S × Try Bool

-- [str(item) for item in value] if all are texts, else nothing
unfoldable pub texts_of : Items → Option (List String)
texts_of nil = some []
texts_of (cons (text s) xs) = elim (texts_of xs) [ none ↦ none | some ss ↦ some (s ∷ ss) ]
texts_of (cons _ xs) = none

or_nothing : Option (List String) → List String
or_nothing none = []
or_nothing (some ss) = ss

unfoldable pub parse_argv : Json → List String
unfolding texts_of or_nothing
parse_argv (array xs) = or_nothing (texts_of xs)
parse_argv _ = []

-- list(args)
unfoldable pub items_of : List String → Items
items_of [] = nil
items_of (s ∷ ss) = cons (text s) (items_of ss)

module _ (digest : List String → String) where
  unfoldable pub fingerprint : ServerRegistration → String
  unfolding argv
  fingerprint r = digest (argv r)

  -- The join raises a TypeError if the command is no text.
  unfoldable pub entry_fingerprint : ExistingEntry → Try (Option String)
  entry_fingerprint e = elim e.command [
    | null ↦ done none
    | text command ↦ done (some (digest (command ∷ e.args)))
    | _ ↦ raised (exception "TypeError")
  ]

  unfoldable pub whose : ServerRegistration → List String → Option String → Ownership
  unfolding contains fingerprint
  whose registration owned none = unknown
  whose registration owned (some print) =
      if contains print owned || str_eq print (fingerprint registration) then ours else foreign

  unfoldable pub classify : ExistingEntry → ServerRegistration → List String → Try Ownership
  unfolding entry_fingerprint whose
  classify entry registration owned =
      entry_fingerprint entry >>= λ print. done (whose registration owned print)
