-- ===== src/Desktop/Journal.antt =====
-- desktop/journal.py: the journal of what the setup intended, finished and owns. The clock's reading
-- is an argument. Reading and writing the file is the file system's.
pub mod Settled
use open_transcribe_mcp.Base.{
  ℕ, ◌-◌, String, Bool, true, false, not, ◌&&◌, ◌||◌, Option, none, some, List, [], ◌∷◌, ◌++◌,
  length, drop, str_eq, ◌==◌, if◌then◌else◌,
}
use open_transcribe_mcp.Desktop.Errors.{
  Try, done, raised, fail, is_config_missing, config_unsupported_version,
}
use open_transcribe_mcp.Base.Dict.{Dict, insert, values}
use open_transcribe_mcp.Base.Sequences.{keep_if}

pub data ResourceKind : Type 0 where
  config credential client_registration client_asset cleanup_timer temporary_audio_area :
      ResourceKind

unfoldable pub kind_eq : ResourceKind → ResourceKind → Bool
kind_eq config config = true
kind_eq credential credential = true
kind_eq client_registration client_registration = true
kind_eq client_asset client_asset = true
kind_eq cleanup_timer cleanup_timer = true
kind_eq temporary_audio_area temporary_audio_area = true
kind_eq _ _ = false

pub data PhaseState : Type 0 where
  intended applied failed compensated : PhaseState

pub record OwnedResource : Type 0 where
  pub kind : ResourceKind
  pub identifier : String
  pub fingerprint : Option String
  pub created_at : ℕ

pub record PhaseRecord : Type 0 where
  pub name : String
  pub state : PhaseState
  pub at : ℕ
  pub outcome_code : Option String

pub record InstallJournal : Type 0 where
  pub schema_version : ℕ
  pub installation_id : String
  pub application_version : Option String
  pub phases : List PhaseRecord
  pub owned : List OwnedResource
  pub pending_cleanup : List OwnedResource

-- self.phases.append(...); del self.phases[:-200]
unfoldable pub record_phase : PhaseRecord → InstallJournal → InstallJournal
record_phase p j =
    let phases = j.phases ++ p ∷ [] in record j { phases = drop (length phases - 200) phases }

unfoldable pub is_resource : ResourceKind → String → OwnedResource → Bool
unfolding kind_eq
is_resource kind identifier r = kind_eq r.kind kind && str_eq r.identifier identifier

-- The first match is taken out.
unfoldable pub pop_first : ResourceKind → String → List OwnedResource → List OwnedResource
unfolding is_resource
pop_first kind identifier [] = []
pop_first kind identifier (r ∷ rs) =
    let rest = pop_first kind identifier rs in
    if is_resource kind identifier r then rs else r ∷ rest

unfoldable pub disown : ResourceKind → String → InstallJournal → InstallJournal
unfolding pop_first
disown kind identifier j = record j { owned = pop_first kind identifier j.owned }

unfoldable pub own : OwnedResource → InstallJournal → InstallJournal
unfolding disown
own r j = let j' = disown r.kind r.identifier j in record j' { owned = j'.owned ++ r ∷ [] }

unfoldable pub any_resource : ResourceKind → String → List OwnedResource → Bool
unfolding is_resource
any_resource kind identifier [] = false
any_resource kind identifier (r ∷ rs) =
    is_resource kind identifier r || any_resource kind identifier rs

unfoldable pub owns : ResourceKind → String → InstallJournal → Bool
unfolding any_resource
owns kind identifier j = any_resource kind identifier j.owned

unfoldable pub resources : ResourceKind → InstallJournal → List OwnedResource
unfolding kind_eq
resources kind j = keep_if (λ r. kind_eq r.kind kind) j.owned

-- latest[phase.name] = phase, for each phase in order
unfoldable pub latest_from : Dict PhaseRecord → List PhaseRecord → Dict PhaseRecord
latest_from latest [] = latest
latest_from latest (p ∷ ps) = latest_from (insert p.name p latest) ps

unfoldable pub is_open : PhaseState → Bool
is_open intended = true
is_open failed = true
is_open _ = false

unfoldable pub incomplete : InstallJournal → List PhaseRecord
unfolding latest_from is_open
incomplete j = keep_if (λ p. is_open p.state) (values (latest_from [] j.phases))

unfoldable pub new_journal : String → InstallJournal
new_journal installation_id = record {
  schema_version = 1;
  installation_id = installation_id;
  application_version = none;
  phases = [];
  owned = [];
  pending_cleanup = [];
}

-- A file that is missing is a journal that is new; `contents` is the file, read and validated.
unfoldable pub load_journal : Try InstallJournal → String → Try InstallJournal
unfolding new_journal is_config_missing
load_journal (done j) installation_id =
    if not (j.schema_version == 1)
    then fail config_unsupported_version "The recovery journal uses another schema version."
        (some "Use the OpenTranscribe Setup version that wrote it.")
    else done j
load_journal (raised f) installation_id =
    if is_config_missing f then done (new_journal installation_id) else raised f
