-- ===== src/Tests/Journals.antt =====
-- A journal that owns a registration, claims it and gives it up; and an area of temporary audio.
use open_transcribe_mcp.Base.{refl, false, List, [], ◌∷◌, none, some, ◌||◌, ◌==◌, if◌then◌else◌}
use open_transcribe_mcp.Desktop.Journal.{
  ResourceKind, client_registration, OwnedResource, InstallJournal, own, disown, owns, is_resource,
}
use open_transcribe_mcp.Desktop.Tempaudio.{
  Area, Entry, regular, both, neither, claimed, absent, ticks, sweep,
}
use open_transcribe_mcp.Desktop.Tempaudio.Sweeps.{IsSwept, sweep-IsSwept}
use open_transcribe_mcp.Desktop.Journal.Settled.{
  IsLedger, same_place, own-IsLedger, disown-IsLedger,
}

abbrev registration : OwnedResource
registration = record {
  kind = client_registration;
  identifier = "claude";
  fingerprint = none;
  created_at = 7;
}

abbrev journal : InstallJournal
journal = record {
  schema_version = 1;
  installation_id = "a";
  application_version = none;
  phases = [];
  owned = registration ∷ [];
  pending_cleanup = [];
}

own-IsLedger_example :
    IsLedger (own registration journal) (λ k i. is_resource k i registration || owns k i journal)
own-IsLedger_example =
    own-IsLedger registration journal
      (unfold open_transcribe_mcp.Desktop.Journal.any_resource in (refl, tt))

disown-IsLedger_example :
    IsLedger
      (disown client_registration "claude" journal)
      (λ k i. if same_place k i client_registration "claude" then false else owns k i journal)
disown-IsLedger_example =
    disown-IsLedger client_registration "claude" journal
      (unfold open_transcribe_mcp.Desktop.Journal.any_resource in (refl, tt))

-- One file is held by process 7, one is abandoned and cannot be removed.
abbrev area : Area
area = record {
  ttl_seconds = 60;
  now = 100;
  boot = "b";
  process_start_ticks = λ pid. if pid == 7 then some 3 else none;
}

abbrev entries : List Entry
entries =
    record {
      token = "held";
      stat = regular 90;
      unlink = both;
      meta = claimed (record {
        boot_id = some "b";
        expires_at = some 150;
        pid = some 7;
        pid_start_ticks = ticks 3;
      });
    }
    ∷ record { token = "lost"; stat = regular 10; meta = absent; unlink = neither }
    ∷ []

sweep-IsSwept_example : IsSwept area entries (sweep area false entries)
sweep-IsSwept_example = sweep-IsSwept area entries
