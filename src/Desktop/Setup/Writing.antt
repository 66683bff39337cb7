-- ===== src/Desktop/Setup/Writing.antt =====
-- What the setup keeps while it writes the keys and undoes them.
use open_transcribe_mcp.Base.{
  ◌≡◌, refl, sym, subst, String, Bool, true, false, Option, none, some, List, [], ◌∷◌, ◌++◌, All,
}
use open_transcribe_mcp.Base.Text.{◌+s◌}
use open_transcribe_mcp.Base.Dict.{Dict, lookup}
use open_transcribe_mcp.Domain.Audio.{is_given}
use open_transcribe_mcp.Desktop.Errors.{
  Try, done, raised, Failure, desktop, os_error, exception, error_value,
}
use open_transcribe_mcp.Desktop.Schema.{CredentialRef, ManagedProvider, ManagedConfig}
use open_transcribe_mcp.Desktop.Credentials.{put, delete}
use open_transcribe_mcp.Desktop.Journal.{failed}
use open_transcribe_mcp.Desktop.Setup.{
  ProviderIntent, SetupIntent, SetupPlan, ApplyOutcome, World, SetupService,
}
use open_transcribe_mcp.Desktop.Setup.Progress.{
  Session, Progress, returned, onward, except, ◌>>>◌, Ends, Ends-except, Ends-map,
}
use open_transcribe_mcp.Desktop.Setup.Steps.{
  noted, owned, disowned, pending, save_journal, put_credential, delete_credential,
}
use open_transcribe_mcp.Desktop.Setup.Phases.{
  Written, write_role, write_roles, write_provider, write_credentials, compensated,
  compensate_credentials, own_all, fail_credentials, own_credentials, credentials_phase,
  fail_config,
}
use open_transcribe_mcp.Desktop.Setup.Frame.{
  IsSaved, Keeps, AllAllowed, Any, Never, put_credential-Keeps, delete_credential-keeps,
  Keeps-onward, after_save-Keeps,
}

-- The references that the intent has a key for.
unfoldable pub role_target : Option CredentialRef → List CredentialRef → List CredentialRef
role_target none rest = rest
role_target (some ref) rest = ref ∷ rest

unfoldable pub targets_of : Dict CredentialRef → Dict String → List CredentialRef
unfolding role_target
targets_of refs [] = []
targets_of refs ((role, secret) ∷ secrets) =
    role_target (lookup role refs) (targets_of refs secrets)

unfoldable pub provider_targets :
    Option ManagedProvider → Dict String → List CredentialRef → List CredentialRef
unfolding targets_of
provider_targets none secrets rest = []
provider_targets (some managed) secrets rest = targets_of managed.credentials secrets ++ rest

unfoldable pub targets : ManagedConfig → List ProviderIntent → List CredentialRef
unfolding provider_targets
targets c [] = []
targets c (item ∷ items) =
    provider_targets (lookup item.provider_id c.providers) item.secrets (targets c items)

module _ {S : Type 0} (service : SetupService) where
  pub compensated-world :
      (x : String × CredentialRef) (a : Try Bool) (s : Session S)
      → (compensated service x a s).world ≡ s.world
  unfolding compensated pending disowned
  compensated-world (label, ref) (raised f) s = refl
  compensated-world (label, ref) (done b) s = refl

  pub own_all-world :
      (written : Written) (s : Session S) → (own_all service written s).world ≡ s.world
  unfolding own_all owned
  own_all-world [] s = refl
  own_all-world ((label, ref) ∷ written) s = own_all-world written _

pub some-injective : {A : Type 0} {a b : A} → some a ≡ some b → a ≡ b
some-injective e = cc

module _ {S : Type 0} (service : SetupService) (Allowed : CredentialRef → Type 0)
    (X : World S → Type 0) (kept_saved : (w w' : World S) → IsSaved w w' → X w → X w')
    (kept_put : (w : World S) (ref : CredentialRef) (secret : String)
      → Allowed ref
      → X w
      → X (record w { keyring = (put service.faults ref secret w.keyring).0 }))
    (kept_delete : (w : World S) (ref : CredentialRef)
      → Allowed ref
      → X w
      → X (record w { keyring = (delete service.faults ref w.keyring).0 })) where
  All-snoc :
      (written : Written) (x : String × CredentialRef)
      → (AllAllowed service Allowed X kept_saved kept_put kept_delete) written
      → Allowed x.1
      → (AllAllowed service Allowed X kept_saved kept_put kept_delete) (written ++ x ∷ [])
  All-snoc [] x h a = (a, tt)
  All-snoc (y ∷ written) x (b, h) a = (b, All-snoc written x h a)

  All-append_left : (xs ys : List CredentialRef) → All Allowed (xs ++ ys) → All Allowed xs
  All-append_left [] ys h = tt
  All-append_left (x ∷ xs) ys (a, h) = (a, All-append_left xs ys h)

  All-append_right : (xs ys : List CredentialRef) → All Allowed (xs ++ ys) → All Allowed ys
  All-append_right [] ys h = h
  All-append_right (x ∷ xs) ys (a, h) = All-append_right xs ys h

  write_role-Keeps :
      (label : String) (found : Option CredentialRef) (secret : String)
      (rest : Written → Session S → Session S × Progress Written) (written : Written)
      (s : Session S)
      → ((ref : CredentialRef) → found ≡ some ref → Allowed ref)
      → X s.world
      → (AllAllowed service Allowed X kept_saved kept_put kept_delete) written
      → ((written' : Written) (s' : Session S)
          → X s'.world
          → (AllAllowed service Allowed X kept_saved kept_put kept_delete) written'
          → (Keeps service Allowed X kept_saved kept_put kept_delete)
              (AllAllowed service Allowed X kept_saved kept_put kept_delete)
              (Never service Allowed X kept_saved kept_put kept_delete)
              (rest written' s'))
      → (Keeps service Allowed X kept_saved kept_put kept_delete)
          (AllAllowed service Allowed X kept_saved kept_put kept_delete)
          (Never service Allowed X kept_saved kept_put kept_delete)
          (write_role service label found secret rest written s)
  unfolding write_role
  write_role-Keeps label none secret rest written s allowed x all step = step written s x all
  write_role-Keeps label (some ref) secret rest written s allowed x all step =
      (Keeps-onward service Allowed X kept_saved kept_put kept_delete)
        (Any service Allowed X kept_saved kept_put kept_delete)
        (AllAllowed service Allowed X kept_saved kept_put kept_delete)
        (Never service Allowed X kept_saved kept_put kept_delete)
        (Never service Allowed X kept_saved kept_put kept_delete)
        (put_credential service ref secret s) _
        ((put_credential-Keeps service Allowed X kept_saved kept_put kept_delete) ref secret s
          (allowed ref refl) x)
        (λ o h. h)
        (λ u s' p x'. step _ s' x' (All-snoc written (label, ref) all (allowed ref refl)))

  All-role_target :
      (found : Option CredentialRef) (rest : List CredentialRef)
      → All Allowed (role_target found rest)
      → ((ref : CredentialRef) → found ≡ some ref → Allowed ref) × All Allowed rest
  unfolding role_target
  All-role_target none rest h = ((λ ref e. cc), h)
  All-role_target (some r) rest (a, h) = ((λ ref e. subst Allowed (some-injective e) a), h)

  write_roles-Keeps :
      (id : String) (refs : Dict CredentialRef) (secrets : Dict String) (written : Written)
      (s : Session S)
      → All Allowed (targets_of refs secrets)
      → X s.world
      → (AllAllowed service Allowed X kept_saved kept_put kept_delete) written
      → (Keeps service Allowed X kept_saved kept_put kept_delete)
          (AllAllowed service Allowed X kept_saved kept_put kept_delete)
          (Never service Allowed X kept_saved kept_put kept_delete)
          (write_roles service id refs secrets written s)
  unfolding write_roles targets_of Ends
  write_roles-Keeps id refs [] written s allowed x all = (all, x)
  write_roles-Keeps id refs ((role, secret) ∷ secrets) written s allowed x all =
      let (here, later) = All-role_target (lookup role refs) (targets_of refs secrets) allowed in
      write_role-Keeps (id +s ":" +s role) (lookup role refs) secret _ written s here x all
        (λ written' s' x' all'. write_roles-Keeps id refs secrets written' s' later x' all')

  compensate_credentials-keeps :
      (written : Written) (s : Session S)
      → (AllAllowed service Allowed X kept_saved kept_put kept_delete) written
      → X s.world
      → X (compensate_credentials service written s).world
  unfolding compensate_credentials
  compensate_credentials-keeps [] s all x = x
  compensate_credentials-keeps (y ∷ written) s (a, all) x =
      let q = delete_credential service y.1 s in
      compensate_credentials-keeps written _ all (
        subst X (sym (compensated-world service y q.1 q.0))
          ((delete_credential-keeps service Allowed X kept_saved kept_put kept_delete) y.1 s a x))

  -- The journal is saved, and an outcome is returned.
  save_and_return-Keeps :
      {B : Type 0} (P' : B → Type 0) (Q' : ApplyOutcome → Type 0) (s : Session S) (o : ApplyOutcome)
      → X s.world
      → Q' o
      → (Keeps service Allowed X kept_saved kept_put kept_delete) P' Q'
          (save_journal service s >>> (λ u s'. (s', returned o)))
  unfolding Ends
  save_and_return-Keeps P' Q' s o x holds =
      (after_save-Keeps service Allowed X kept_saved kept_put kept_delete) P' Q' s _ x
        (λ s' x'. (holds, x'))

  abbrev pub Unsaved : ApplyOutcome → Type 0
  Unsaved o = (o.config_saved ≡ false) × (is_given o.failure ≡ true) × (o.registered ≡ false)

  fail_credentials-Keeps :
      (written : Written) (f : Failure) (s : Session S)
      → (AllAllowed service Allowed X kept_saved kept_put kept_delete) written
      → X s.world
      → (Keeps service Allowed X kept_saved kept_put kept_delete)
          (AllAllowed service Allowed X kept_saved kept_put kept_delete)
          Unsaved
          (fail_credentials service written f s)
  unfolding fail_credentials noted Ends is_given
  fail_credentials-Keeps written (desktop e) s all x =
      save_and_return-Keeps (AllAllowed service Allowed X kept_saved kept_put kept_delete) Unsaved _
        _
        (compensate_credentials-keeps written
          (noted service "credentials" failed (some (error_value e.code)) s) all x)
        (refl, refl, refl)
  fail_credentials-Keeps written os_error s all x = x
  fail_credentials-Keeps written (exception name) s all x = x

  own_credentials-Keeps :
      (written : Written) (s : Session S)
      → (AllAllowed service Allowed X kept_saved kept_put kept_delete) written
      → X s.world
      → (Keeps service Allowed X kept_saved kept_put kept_delete)
          (AllAllowed service Allowed X kept_saved kept_put kept_delete)
          (Never service Allowed X kept_saved kept_put kept_delete)
          (own_credentials service written s)
  unfolding own_credentials noted Ends
  own_credentials-Keeps written s all x =
      (after_save-Keeps service Allowed X kept_saved kept_put kept_delete)
        (AllAllowed service Allowed X kept_saved kept_put kept_delete)
        (Never service Allowed X kept_saved kept_put kept_delete) _ _
        (subst X (sym (own_all-world service written s)) x) (λ s' x'. (all, x'))

  Keeps-except :
      {A : Type 0} (P : A → Type 0) (Q Q' : ApplyOutcome → Type 0) (q : Session S × Progress A)
      (handler : Failure → Session S → Session S × Progress A)
      → (Keeps service Allowed X kept_saved kept_put kept_delete) P Q q
      → ((o : ApplyOutcome) → Q o → Q' o)
      → ((f : Failure) (s : Session S)
          → X s.world
          → (Keeps service Allowed X kept_saved kept_put kept_delete) P Q' (handler f s))
      → (Keeps service Allowed X kept_saved kept_put kept_delete) P Q' (except q.0 q.1 handler)
  Keeps-except P Q Q' q handler h weaken step =
      Ends-except _ _ (λ a s. P a × X s.world) (λ f s. X s.world) q.0 q.1 handler
        (Ends-map _ _ _ _ _ _ q.0 q.1 h (λ a s x. x) (λ o s x. (weaken o x.0, x.1)) (λ f s x. x))
        step

  write_first-Keeps :
      (item : ProviderIntent) (found : Option ManagedProvider) (later : List CredentialRef)
      (written : Written) (s : Session S)
      (rest : Written → Session S → Session S × Progress Written)
      → All Allowed (provider_targets found item.secrets later)
      → X s.world
      → (AllAllowed service Allowed X kept_saved kept_put kept_delete) written
      → ((written' : Written) (s' : Session S)
          → X s'.world
          → All Allowed later
          → (AllAllowed service Allowed X kept_saved kept_put kept_delete) written'
          → (Keeps service Allowed X kept_saved kept_put kept_delete)
              (AllAllowed service Allowed X kept_saved kept_put kept_delete)
              (Never service Allowed X kept_saved kept_put kept_delete)
              (rest written' s'))
      → (Keeps service Allowed X kept_saved kept_put kept_delete)
          (AllAllowed service Allowed X kept_saved kept_put kept_delete)
          (Never service Allowed X kept_saved kept_put kept_delete)
          (write_provider service item found written s >>> rest)
  unfolding write_provider provider_targets onward Ends
  write_first-Keeps item none later written s rest allowed x all step = x
  write_first-Keeps item (some managed) later written s rest allowed x all step =
      (Keeps-onward service Allowed X kept_saved kept_put kept_delete)
        (AllAllowed service Allowed X kept_saved kept_put kept_delete)
        (AllAllowed service Allowed X kept_saved kept_put kept_delete)
        (Never service Allowed X kept_saved kept_put kept_delete)
        (Never service Allowed X kept_saved kept_put kept_delete)
        (write_roles service item.provider_id managed.credentials item.secrets written s) _
        (write_roles-Keeps item.provider_id managed.credentials item.secrets written s
          (All-append_left (targets_of managed.credentials item.secrets) later allowed) x all)
        (λ o h. h)
        (λ written' s' all' x'.
          step written' s' x'
            (All-append_right (targets_of managed.credentials item.secrets) later allowed) all')

  write_credentials-Keeps :
      (c : ManagedConfig) (items : List ProviderIntent) (written : Written) (s : Session S)
      → All Allowed (targets c items)
      → X s.world
      → (AllAllowed service Allowed X kept_saved kept_put kept_delete) written
      → (Keeps service Allowed X kept_saved kept_put kept_delete)
          (AllAllowed service Allowed X kept_saved kept_put kept_delete)
          (Never service Allowed X kept_saved kept_put kept_delete)
          (write_credentials service c items written s)
  unfolding write_credentials targets Ends
  write_credentials-Keeps c [] written s allowed x all = (all, x)
  write_credentials-Keeps c (item ∷ items) written s allowed x all =
      write_first-Keeps item (lookup item.provider_id c.providers) (targets c items) written s _
        allowed x all
        (λ written' s' x' later all'. write_credentials-Keeps c items written' s' later x' all')

  -- The keys are written and their references are owned, or the step is undone and reported.
  pub credentials_phase-Keeps :
      (p : SetupPlan) (intent : SetupIntent S) (s : Session S)
      → All Allowed (targets p.config intent.providers)
      → X s.world
      → (Keeps service Allowed X kept_saved kept_put kept_delete)
          (AllAllowed service Allowed X kept_saved kept_put kept_delete)
          Unsaved
          (credentials_phase service p intent s)
  unfolding credentials_phase noted
  credentials_phase-Keeps p intent s allowed x =
      (Keeps-onward service Allowed X kept_saved kept_put kept_delete)
        (AllAllowed service Allowed X kept_saved kept_put kept_delete)
        (AllAllowed service Allowed X kept_saved kept_put kept_delete) Unsaved Unsaved _ _
        (Keeps-except (AllAllowed service Allowed X kept_saved kept_put kept_delete)
          (Never service Allowed X kept_saved kept_put kept_delete) Unsaved _ _
          (write_credentials-Keeps p.config intent.providers [] _ allowed x tt) (λ o h. absurd h)
          (λ f s' x'. fail_credentials-Keeps [] f s' tt x'))
        (λ o h. h)
        (λ written s' all x'.
          Keeps-except (AllAllowed service Allowed X kept_saved kept_put kept_delete)
            (Never service Allowed X kept_saved kept_put kept_delete) Unsaved _ _
            (own_credentials-Keeps written s' all x') (λ o h. absurd h)
            (λ f s'' x''. fail_credentials-Keeps written f s'' all x''))

  pub fail_config-Keeps :
      (P : Unit {0} → Type 0) (written : Written) (f : Failure) (s : Session S)
      → (AllAllowed service Allowed X kept_saved kept_put kept_delete) written
      → X s.world
      → (Keeps service Allowed X kept_saved kept_put kept_delete) P Unsaved
          (fail_config service written f s)
  unfolding fail_config noted Ends is_given
  fail_config-Keeps P written (desktop e) s all x =
      save_and_return-Keeps P Unsaved _ _
        (compensate_credentials-keeps written (noted service "config" failed none s) all x)
        (refl, refl, refl)
  fail_config-Keeps P written os_error s all x =
      save_and_return-Keeps P Unsaved _ _
        (compensate_credentials-keeps written (noted service "config" failed none s) all x)
        (refl, refl, refl)
  fail_config-Keeps P written (exception name) s all x = x
