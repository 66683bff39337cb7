-- ===== src/Desktop/Setup/Phases.antt =====
-- desktop/setup.py: the phases of `apply` that write the keys and the configuration, and how they are
-- undone.
use open_transcribe_mcp.Base.{String, Bool, Option, none, some, List, [], ◌∷◌, ◌++◌, if◌then◌else◌}
use open_transcribe_mcp.Base.Text.{◌+s◌}
use open_transcribe_mcp.Base.Dict.{Dict, lookup}
use open_transcribe_mcp.Base.Sequences.{is_nonempty}
use open_transcribe_mcp.Desktop.Errors.{
  Try, done, raised, Failure, desktop, exception, DesktopError, error_value, config_invalid,
  os_error,
}
use open_transcribe_mcp.Desktop.Schema.{CredentialRef, ManagedProvider, ManagedConfig}
use open_transcribe_mcp.Desktop.Journal.{intended, applied, failed, config, credential}
use open_transcribe_mcp.Desktop.Setup.{
  ProviderIntent, SetupIntent, SetupPlan, no_outcome, SetupService, SaveEnd, saved, refused,
  unsynced,
}
use open_transcribe_mcp.Desktop.Setup.Steps.{
  noted, owned, disowned, pending, save_journal, put_credential, delete_credential,
}
use open_transcribe_mcp.Desktop.Setup.Progress.{
  Session, Progress, go, returned, escaped, onward, except, ◌>>>◌,
}

-- A label, and the reference that was written.
abbrev pub Written : Type 0
Written = List (String × CredentialRef)

-- as_desktop_error
unfoldable pub as_desktop_error : Failure → DesktopError
as_desktop_error (desktop e) = e
as_desktop_error _ = record {
  code = config_invalid;
  message = "The saved setup could not be written.";
  recovery = none;
}

unfoldable pub labels : Written → List String
labels [] = []
labels ((label, ref) ∷ written) = label ∷ labels written

module _ {S : Type 0} (service : SetupService) where
  unfoldable pub write_role :
      String
      → Option CredentialRef
      → String
      → (Written → Session S → Session S × Progress Written)
      → Written
      → Session S
      → Session S × Progress Written
  unfolding put_credential onward
  write_role label none secret rest written s = rest written s
  write_role label (some ref) secret rest written s =
      put_credential service ref secret s >>> λ u s'. rest (written ++ (label, ref) ∷ []) s'

  unfoldable pub write_roles :
      String → Dict CredentialRef → Dict String → Written → Session S → Session S × Progress Written
  unfolding write_role
  write_roles id refs [] written s = (s, go written)
  write_roles id refs ((role, secret) ∷ secrets) written s =
      write_role (id +s ":" +s role) (lookup role refs) secret
        (λ written' s'. write_roles id refs secrets written' s') written s

  unfoldable pub write_provider :
      ProviderIntent → Option ManagedProvider → Written → Session S → Session S × Progress Written
  unfolding write_roles
  write_provider item none written s = (s, escaped (exception "KeyError"))
  write_provider item (some managed) written s =
      write_roles item.provider_id managed.credentials item.secrets written s

  -- `_write_credentials`
  unfoldable pub write_credentials :
      ManagedConfig → List ProviderIntent → Written → Session S → Session S × Progress Written
  unfolding write_provider onward
  write_credentials c [] written s = (s, go written)
  write_credentials c (item ∷ items) written s =
      write_provider item (lookup item.provider_id c.providers) written s >>> λ written' s'.
      write_credentials c items written' s'

  unfoldable pub compensated : String × CredentialRef → Try Bool → Session S → Session S
  unfolding pending disowned
  compensated (label, ref) (raised f) s = pending service ref s
  compensated (label, ref) (done b) s = disowned service credential (ref.account +s "|" +s label) s

  -- `_compensate_credentials`
  unfoldable pub compensate_credentials : Written → Session S → Session S
  unfolding compensated delete_credential
  compensate_credentials [] s = s
  compensate_credentials (x ∷ written) s =
      let q = delete_credential service x.1 s in
      compensate_credentials written (compensated x q.1 q.0)

  unfoldable pub own_all : Written → Session S → Session S
  unfolding owned
  own_all [] s = s
  own_all ((label, ref) ∷ written) s =
      own_all written (owned service credential (ref.account +s "|" +s label) none s)

  unfoldable pub fail_credentials : Written → Failure → Session S → Session S × Progress Written
  unfolding noted compensate_credentials save_journal onward error_value
  fail_credentials written (desktop e) s =
      save_journal service (
        compensate_credentials written
          (noted service "credentials" failed (some (error_value e.code)) s))
      >>> λ u s'. (s', returned (record no_outcome { failure = some e }))
  fail_credentials written f s = (s, escaped f)

  unfoldable pub own_credentials : Written → Session S → Session S × Progress Written
  unfolding own_all noted save_journal onward
  own_credentials written s =
      save_journal service (noted service "credentials" applied none (own_all written s))
      >>> λ u s'. (s', go written)

  -- While the keys are written nothing is known to be written: `written` is assigned after them.
  unfoldable pub credentials_phase :
      SetupPlan → SetupIntent S → Session S → Session S × Progress Written
  unfolding noted write_credentials own_credentials fail_credentials onward except
  credentials_phase p intent s =
      let q =
        write_credentials p.config intent.providers []
          (noted service "credentials" intended none s) in
      except q.0 q.1 (fail_credentials []) >>> λ written s'.
      let r = own_credentials written s' in except r.0 r.1 (fail_credentials written)

  unfoldable pub saved_config :
      ManagedConfig → SaveEnd → Session S → Session S × Progress (Unit {0})
  saved_config c (refused f) s = (s, escaped f)
  saved_config c saved s =
      let w = s.world in (record s { world = record w { config = done c } }, go tt)
  saved_config c unsynced s =
      let w = s.world in (record s { world = record w { config = done c } }, escaped os_error)

  unfoldable pub fail_config : Written → Failure → Session S → Session S × Progress (Unit {0})
  unfolding noted compensate_credentials save_journal onward as_desktop_error labels
  fail_config written (exception name) s = (s, escaped (exception name))
  fail_config written f s =
      save_journal service (compensate_credentials written (noted service "config" failed none s))
      >>> λ u s'. (
        s',
        returned (record no_outcome {
          credentials_written = labels written;
          failure = some (as_desktop_error f);
        }),
      )

  unfoldable pub config_phase : SetupPlan → Written → Session S → Session S × Progress (Unit {0})
  unfolding saved_config noted owned save_journal fail_config onward except
  config_phase p written s =
      let q =
        saved_config p.config (service.save_config p.config)
          (noted service "config" intended none s)
        >>> λ u s'. save_journal service (
            noted service "config" applied none
              (owned service config service.config_file none s')) in
      except q.0 q.1 (fail_config written)

  unfoldable pub retired_one : CredentialRef → Try Bool → Session S → Session S
  unfolding pending
  retired_one ref (raised f) s = pending service ref s
  retired_one ref (done b) s = s

  unfoldable pub retire_all : List CredentialRef → Session S → Session S
  unfolding retired_one delete_credential
  retire_all [] s = s
  retire_all (ref ∷ refs) s =
      let q = delete_credential service ref s in retire_all refs (retired_one ref q.1 q.0)

  -- `_retire`
  unfoldable pub retire : List CredentialRef → Session S → Session S × Progress (Unit {0})
  unfolding retire_all save_journal is_nonempty
  retire refs s = if is_nonempty refs then save_journal service (retire_all refs s) else (s, go tt)
