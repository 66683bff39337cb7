-- ===== src/Desktop/Setup/Steps.antt =====
-- desktop/setup.py: what a step of the setup does to the journal, the keyring and the file of the
-- journal.
use open_transcribe_mcp.Base.{ℕ, String, Bool, Option, none, List, [], ◌∷◌, ◌++◌}
use open_transcribe_mcp.Desktop.Errors.{Try, done, raised, os_error}
use open_transcribe_mcp.Desktop.Schema.{CredentialRef}
use open_transcribe_mcp.Desktop.Credentials.{Keyring, put, delete}
use open_transcribe_mcp.Desktop.CleanupTimer.{Units}
use open_transcribe_mcp.Desktop.Journal.{
  OwnedResource, PhaseState, ResourceKind, credential, record_phase, own, disown,
}
use open_transcribe_mcp.Desktop.Setup.{SetupService, SaveEnd, saved, refused, unsynced}
use open_transcribe_mcp.Desktop.Setup.Progress.{Session, Progress, go, escaped}

unfoldable pub attempt : {S A : Type 0} → Session S → Try A → Session S × Progress A
attempt s (done a) = (s, go a)
attempt s (raised f) = (s, escaped f)

unfoldable pub resource : ℕ → ResourceKind → String → Option String → OwnedResource
resource now kind identifier print = record {
  kind = kind;
  identifier = identifier;
  fingerprint = print;
  created_at = now;
}

module _ {S : Type 0} (service : SetupService) where
  unfoldable pub noted : String → PhaseState → Option String → Session S → Session S
  unfolding record_phase
  noted name state code s = record s {
    journal =
        record_phase (record { name = name; state = state; at = service.now; outcome_code = code })
          s.journal;
  }

  unfoldable pub owned : ResourceKind → String → Option String → Session S → Session S
  unfolding own resource
  owned kind identifier print s = record s {
    journal = own (resource service.now kind identifier print) s.journal;
  }

  unfoldable pub disowned : ResourceKind → String → Session S → Session S
  unfolding disown
  disowned kind identifier s = record s { journal = disown kind identifier s.journal }

  unfoldable pub pending : CredentialRef → Session S → Session S
  unfolding resource
  pending ref s =
      let j = s.journal in
      record s {
        journal = record j {
          pending_cleanup =
              j.pending_cleanup ++ resource service.now credential ref.account none ∷ [];
        };
      }

  unfoldable pub with_keyring : Keyring → Session S → Session S
  with_keyring k s = let w = s.world in record s { world = record w { keyring = k } }

  unfoldable pub saved_as : Session S → List SaveEnd → Session S × Progress (Unit {0})
  saved_as s [] =
      let w = s.world in (record s { world = record w { journal_file = done s.journal } }, go tt)
  saved_as s (saved ∷ saves) =
      let w = s.world in
      (
        record s { world = record w { journal_file = done s.journal; journal_saves = saves } },
        go tt,
      )
  saved_as s (refused f ∷ saves) =
      let w = s.world in (record s { world = record w { journal_saves = saves } }, escaped f)
  saved_as s (unsynced ∷ saves) =
      let w = s.world in
      (
        record s { world = record w { journal_file = done s.journal; journal_saves = saves } },
        escaped os_error,
      )

  unfoldable pub save_journal : Session S → Session S × Progress (Unit {0})
  unfolding saved_as
  save_journal s = saved_as s s.world.journal_saves

  unfoldable pub put_credential :
      CredentialRef → String → Session S → Session S × Progress (Unit {0})
  unfolding with_keyring attempt put
  put_credential ref secret s =
      let q = put service.faults ref secret s.world.keyring in attempt (with_keyring q.0 s) q.1

  unfoldable pub delete_credential : CredentialRef → Session S → Session S × Try Bool
  unfolding with_keyring delete
  delete_credential ref s =
      let q = delete service.faults ref s.world.keyring in (with_keyring q.0 s, q.1)

  unfoldable pub with_units : Units → Session S → Session S
  with_units units s = let w = s.world in record s { world = record w { units = units } }

  unfoldable pub with_client : S → Session S → Session S
  with_client client s = let w = s.world in record s { world = record w { client = client } }
