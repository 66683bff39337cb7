-- ===== src/Desktop/Setup/Verified.antt =====
-- What holds when the setup has saved the configuration and probed the engine.
use open_transcribe_mcp.Base.{
  ◌≡◌, refl, ◌&&◌, sym, subst, String, Bool, true, false, Option, none, some, List, [], ◌∷◌, All,
  Bool-cases, inl, inr,
}
use open_transcribe_mcp.Base.Sequences.{is_nonempty}
use open_transcribe_mcp.Domain.Audio.{is_given}
use open_transcribe_mcp.Desktop.Errors.{
  Try, done, raised, desktop, os_error, exception, DesktopError,
}
use open_transcribe_mcp.Desktop.Schema.{CredentialRef}
use open_transcribe_mcp.Desktop.Credentials.{put, delete}
use open_transcribe_mcp.Desktop.CleanupTimer
use open_transcribe_mcp.Desktop.CleanupTimer.{CleanupTimer, Units}
use open_transcribe_mcp.Desktop.Journal.{intended, owns, cleanup_timer}
use open_transcribe_mcp.Desktop.Setup.{
  SetupPlan, EngineProbeResult, ApplyOutcome, World, SetupService, is_ok,
}
use open_transcribe_mcp.Desktop.Setup.Progress.{
  Session, Progress, ◌>>>◌, Ends, Ends-onward, Ends-map,
}
use open_transcribe_mcp.Desktop.Setup.Steps.{
  noted, owned, disowned, pending, save_journal, delete_credential, with_units,
}
use open_transcribe_mcp.Desktop.Setup.Phases.{Written, retire, retire_all, retired_one}
use open_transcribe_mcp.Desktop.Setup.Apply.{
  timer_installed, timer_removed, reconcile, reconcile_with, verdict, reconcile_cleanup_timer,
  timer_reconciled, committed, probed, engine_phase, verify,
}
use open_transcribe_mcp.Desktop.Setup.Frame.{
  IsSaved, Keeps, save_journal-Keeps, save_journal-IsSaved, delete_credential-keeps, Keeps-onward,
  after_save-Keeps,
}

-- The configuration was saved, and something after it failed.
abbrev pub Failed : ApplyOutcome → Type 0
Failed o = (o.config_saved ≡ true) × (is_given o.failure ≡ true) × (o.registered ≡ false)

-- The engine answered under the plan's configuration and the keyring as it is.
pub record IsVerified {S : Type 0} (service : SetupService) (X : World S → Type 0) (p : SetupPlan)
    (o : ApplyOutcome) (s : Session S) : Type 0 where
  pub saved : o.config_saved ≡ true
  pub engine : is_ok o.engine ≡ true
  pub failure : o.failure ≡ none
  pub registered : o.registered ≡ false
  pub answered : (service.probe_engine s.world.config s.world.keyring).ok ≡ true
  pub world : X s.world

module _ {S : Type 0} (service : SetupService) (Allowed : CredentialRef → Type 0)
    (X : World S → Type 0) (kept_saved : (w w' : World S) → IsSaved w w' → X w → X w')
    (kept_put : (w : World S) (ref : CredentialRef) (secret : String)
      → Allowed ref
      → X w
      → X (record w { keyring = (put service.faults ref secret w.keyring).0 }))
    (kept_delete : (w : World S) (ref : CredentialRef)
      → Allowed ref
      → X w
      → X (record w { keyring = (delete service.faults ref w.keyring).0 }))
    (kept_units : (w : World S) (units : Units) → X w → X (record w { units = units })) where
  abbrev pub Keeping :
      {A : Type 0} → (A → Type 0) → (ApplyOutcome → Type 0) → Session S × Progress A → Type 0
  Keeping P Q q = Keeps service Allowed X kept_saved kept_put kept_delete P Q q

  abbrev pub AnyOf : {A : Type 0} → A → Type 0
  AnyOf a = Unit {0}

  abbrev pub NoReturn : ApplyOutcome → Type 0
  NoReturn o = ⊥

  saves :
      {B : Type 0} (P' : B → Type 0) (Q' : ApplyOutcome → Type 0) (s : Session S)
      (next : Unit {0} → Session S → Session S × Progress B)
      → X s.world
      → ((s' : Session S) → X s'.world → Keeping P' Q' (next tt s'))
      → Keeping P' Q' (save_journal service s >>> next)
  saves P' Q' s next x step =
      after_save-Keeps service Allowed X kept_saved kept_put kept_delete P' Q' s next x step

  retired_one-world :
      (ref : CredentialRef) (a : Try Bool) (s : Session S)
      → (retired_one service ref a s).world ≡ s.world
  unfolding retired_one pending
  retired_one-world ref (raised f) s = refl
  retired_one-world ref (done b) s = refl

  retire_all-keeps :
      (refs : List CredentialRef) (s : Session S)
      → All Allowed refs
      → X s.world
      → X (retire_all service refs s).world
  unfolding retire_all
  retire_all-keeps [] s all x = x
  retire_all-keeps (ref ∷ refs) s (a, all) x =
      let q = delete_credential service ref s in
      retire_all-keeps refs _ all (
        subst X (sym (retired_one-world ref q.1 q.0))
          (delete_credential-keeps service Allowed X kept_saved kept_put kept_delete ref s a x))

  retire-keeps :
      (refs : List CredentialRef) (s : Session S)
      → All Allowed refs
      → X s.world
      → Keeping AnyOf NoReturn (retire service refs s)
  unfolding retire Ends
  retire-keeps refs s all x = elim (Bool-cases (is_nonempty refs)) [
    | inl some' ↦ rw some' (
        save_journal-Keeps service Allowed X kept_saved kept_put kept_delete
          (retire_all service refs s) (retire_all-keeps refs s all x))
    | inr none' ↦ rw none' (tt, x)
  ]

  timer_installed-keeps :
      (p : SetupPlan) (q : Units × Try (Unit {0})) (s : Session S)
      → X s.world
      → Keeping AnyOf NoReturn (timer_installed service p q s)
  unfolding timer_installed noted owned with_units Ends
  timer_installed-keeps p (units, raised (desktop e)) s x =
      saves AnyOf NoReturn _ _ (kept_units s.world units x) (λ s' x'. (tt, x'))
  timer_installed-keeps p (units, raised os_error) s x = kept_units s.world units x
  timer_installed-keeps p (units, raised (exception name)) s x = kept_units s.world units x
  timer_installed-keeps p (units, done u) s x =
      saves AnyOf NoReturn _ _ (kept_units s.world units x) (λ s' x'. (tt, x'))

  timer_removed-keeps :
      (q : Units × Bool) (s : Session S)
      → X s.world
      → Keeping AnyOf NoReturn (timer_removed service q s)
  unfolding timer_removed noted disowned with_units Ends
  timer_removed-keeps (units, true) s x =
      saves AnyOf NoReturn _ _ (kept_units s.world units x) (λ s' x'. (tt, x'))
  timer_removed-keeps (units, false) s x =
      saves AnyOf NoReturn _ _ (kept_units s.world units x) (λ s' x'. (tt, x'))

  reconcile-keeps :
      (p : SetupPlan) (t : CleanupTimer) (s : Session S)
      → X s.world
      → Keeping AnyOf NoReturn (reconcile service p t s)
  unfolding reconcile noted Ends
  reconcile-keeps p t s x = elim (Bool-cases p.needs_cleanup_timer) [
    | inl wanted ↦
        elim (Bool-cases (
          owns cleanup_timer CleanupTimer.timer_name s.journal
          && CleanupTimer.installed s.world.units)) [
            | inl there ↦ rw (wanted, there) (tt, x)
            | inr missing ↦ rw (wanted, missing) (timer_installed-keeps p _ _ x)
          ]
    | inr unwanted ↦ elim (Bool-cases (owns cleanup_timer CleanupTimer.timer_name s.journal)) [
      | inl there ↦ rw (unwanted, there) (timer_removed-keeps _ _ x)
      | inr missing ↦ rw (unwanted, missing) (tt, x)
    ]
  ]

  timer_phase-keeps :
      (p : SetupPlan) (t : Option CleanupTimer) (s : Session S)
      → X s.world
      → Keeping AnyOf NoReturn (reconcile_with service p t s)
  unfolding reconcile_with Ends
  timer_phase-keeps p none s x = (tt, x)
  timer_phase-keeps p (some t) s x = reconcile-keeps p t s x

  timer_reconciled-keeps :
      (failure : Option DesktopError) (written : Written) (s : Session S)
      → X s.world
      → Keeping
          (λ o. o ≡ committed written)
          Failed
          (timer_reconciled service failure (committed written) s)
  unfolding timer_reconciled Ends is_given
  timer_reconciled-keeps none written s x = (refl, x)
  timer_reconciled-keeps (some e) written s x = ((refl, refl, refl), x)

  abbrev pub Verified : SetupPlan → Session S × Progress ApplyOutcome → Type 0
  Verified p q =
      Ends (λ o s. IsVerified service X p o s) (λ o s. Failed o × X s.world) (λ f s. X s.world) q.0
        q.1

  verdict-Verified :
      (p : SetupPlan) (written : Written) (engine : EngineProbeResult) (ok : Bool) (s : Session S)
      → engine.ok ≡ ok
      → (service.probe_engine s.world.config s.world.keyring).ok ≡ ok
      → X s.world
      → Verified p (verdict service engine ok (committed written) s)
  unfolding verdict Ends is_ok is_given
  verdict-Verified p written engine true s ok answered x = record {
    saved = refl;
    engine = ok;
    failure = refl;
    registered = refl;
    answered = answered;
    world = x;
  }
  verdict-Verified p written engine false s ok answered x = ((refl, refl, refl), x)

  probed-Verified :
      (p : SetupPlan) (written : Written) (s : Session S)
      → X s.world
      → Verified p (
          probed service
            (service.probe_engine s.world.config s.world.keyring)
            (committed written)
            s)
  unfolding probed noted
  probed-Verified p written s x =
      let engine = service.probe_engine s.world.config s.world.keyring in
      Ends-onward _ _ (λ u s'. IsSaved s.world s'.world) _ _ _ _
        (Ends-map _ _ _ _ _ _ _ _ (save_journal-IsSaved service _) (λ u s' h. h)
          (λ o s' h. absurd h) (λ f s' h. kept_saved s.world s'.world h x))
        (λ u s' h.
          verdict-Verified p written engine engine.ok s' refl (rw (h.config, h.keyring) refl)
            (kept_saved s.world s'.world h x))

  -- What is saved stays true, and where the step goes on the engine has answered.
  pub verify-Verified :
      (p : SetupPlan) (written : Written) (s : Session S)
      → All Allowed p.retired_credentials
      → X s.world
      → Verified p (verify service p written s)
  unfolding verify reconcile_cleanup_timer engine_phase noted
  verify-Verified p written s all x =
      Ends-onward _ _ (λ o s'. (o ≡ committed written) × X s'.world) _ _ _ _
        (Keeps-onward service Allowed X kept_saved kept_put kept_delete AnyOf
          (λ o. o ≡ committed written) NoReturn Failed _ _
          (Keeps-onward service Allowed X kept_saved kept_put kept_delete AnyOf AnyOf NoReturn
            NoReturn _ _ (retire-keeps p.retired_credentials s all x) (λ o h. h)
            (λ u s' a x'. timer_phase-keeps p service.cleanup_timer s' x'))
          (λ o h. absurd h) (λ failure s' a x'. timer_reconciled-keeps failure written s' x'))
        (λ o s' h. rw h.0 (probed-Verified p written (noted service "engine" intended none s') h.1))
