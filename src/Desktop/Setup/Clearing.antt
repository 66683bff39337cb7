-- ===== src/Desktop/Setup/Clearing.antt =====
-- What is cleared while the keys of a configuration are deleted.
use package.text.Mathlib.TextPositions.{eq_refl}
use open_transcribe_mcp.Base.{
  ◌≡◌, refl, ap, ◌∙◌, arith, String, Bool, true, ◌||◌, none, List, [], ◌∷◌, ◌++◌, All, ◌⊎◌, inl,
  inr,
}
use open_transcribe_mcp.Base.Text.{contains, ◌+s◌}
use open_transcribe_mcp.Base.Dict.{Dict}
use open_transcribe_mcp.Desktop.Errors.{Try, done, raised, Failure}
use open_transcribe_mcp.Desktop.Schema.{CredentialRef, ManagedProvider}
use open_transcribe_mcp.Desktop.Credentials.{get_password, delete-removes, delete-absent}
use open_transcribe_mcp.Desktop.Setup.{World, SetupService}
use open_transcribe_mcp.Desktop.Setup.Progress.{Session}
use open_transcribe_mcp.Desktop.Setup.Steps.{disowned, delete_credential, with_keyring}
use open_transcribe_mcp.Desktop.Setup.Lifecycle.{erased_one, erase_credentials, erase_providers}

-- The references of a configuration.
refs_of : Dict CredentialRef → List CredentialRef
refs_of [] = []
refs_of ((role, ref) ∷ refs) = ref ∷ refs_of refs

unfoldable pub references : Dict ManagedProvider → List CredentialRef
unfolding refs_of
references [] = []
references ((name, provider) ∷ providers) = refs_of provider.credentials ++ references providers

-- No key is stored under the reference, or it is named as pending.
unfoldable pub Cleared : {S : Type 0} → World S → List String → CredentialRef → Type 0
Cleared w pending ref =
    (get_password ref w.keyring ≡ none) ⊎ (contains ("credential:" +s ref.account) pending ≡ true)

contains-append :
    (x : String) (xs ys : List String) → contains x (xs ++ ys) ≡ (contains x xs || contains x ys)
unfolding contains
contains-append x [] ys = refl
contains-append x (y ∷ xs) ys = ground (arith, contains-append x xs ys)

contains_right :
    (x : String) (xs ys : List String) → contains x ys ≡ true → contains x (xs ++ ys) ≡ true
contains_right x xs ys h = ground (arith, contains-append x xs ys)

contains_left :
    (x : String) (xs ys : List String) → contains x xs ≡ true → contains x (xs ++ ys) ≡ true
contains_left x xs ys h = ground (arith, contains-append x xs ys)

module _ {S : Type 0} (service : SetupService) where
  erased_one-keyring :
      (ref : CredentialRef) (a : Try Bool) (s : Session S)
      → (erased_one service ref a s).0.world.keyring ≡ s.world.keyring
  unfolding erased_one disowned
  erased_one-keyring ref (raised f) s = refl
  erased_one-keyring ref (done b) s = refl

  erased_one-pending :
      (ref : CredentialRef) (a : Try Bool) (s : Session S)
      → ((f : Failure) × (a ≡ raised f))
      → contains ("credential:" +s ref.account) (erased_one service ref a s).1 ≡ true
  unfolding erased_one contains
  erased_one-pending ref (raised f) s h = rw (eq_refl ("credential:" +s ref.account)) refl
  erased_one-pending ref (done b) s (f, e) = cc

  deleted-absent :
      (a b : CredentialRef) (s : Session S)
      → get_password b s.world.keyring ≡ none
      → get_password b (delete_credential service a s).0.world.keyring ≡ none
  unfolding delete_credential with_keyring
  deleted-absent a b s h = delete-absent service.faults a b s.world.keyring h

  deleted-removes :
      (a : CredentialRef) (s : Session S)
      → (get_password a (delete_credential service a s).0.world.keyring ≡ none)
        ⊎ ((f : Failure) × ((delete_credential service a s).1 ≡ raised f))
  unfolding delete_credential with_keyring
  deleted-removes a s = delete-removes service.faults a s.world.keyring

  erase_credentials-absent :
      (refs : Dict CredentialRef) (b : CredentialRef) (s : Session S)
      → get_password b s.world.keyring ≡ none
      → get_password b (erase_credentials service refs s).0.world.keyring ≡ none
  unfolding erase_credentials
  erase_credentials-absent [] b s h = h
  erase_credentials-absent ((role, ref) ∷ refs) b s h =
      let q = delete_credential service ref s in
      erase_credentials-absent refs b _
        (ap (λ k. get_password b k) (erased_one-keyring ref q.1 q.0) ∙ deleted-absent ref b s h)

  erase_providers-absent :
      (providers : Dict ManagedProvider) (b : CredentialRef) (s : Session S)
      → get_password b s.world.keyring ≡ none
      → get_password b (erase_providers service providers s).0.world.keyring ≡ none
  unfolding erase_providers
  erase_providers-absent [] b s h = h
  erase_providers-absent ((name, provider) ∷ providers) b s h =
      erase_providers-absent providers b _ (erase_credentials-absent provider.credentials b s h)

  pub All-Cleared_right :
      (w : World S) (xs ys : List String) (refs : List CredentialRef)
      → All (Cleared w ys) refs
      → All (Cleared w (xs ++ ys)) refs
  unfolding Cleared
  All-Cleared_right w xs ys [] h = tt
  All-Cleared_right w xs ys (ref ∷ refs) (inl gone, h) =
      (inl gone, All-Cleared_right w xs ys refs h)
  All-Cleared_right w xs ys (ref ∷ refs) (inr named, h) =
      (inr (contains_right _ xs ys named), All-Cleared_right w xs ys refs h)

  All-Cleared_later :
      (w w' : World S) (xs ys : List String) (refs : List CredentialRef)
      → ((b : CredentialRef) → get_password b w.keyring ≡ none → get_password b w'.keyring ≡ none)
      → All (Cleared w xs) refs
      → All (Cleared w' (xs ++ ys)) refs
  unfolding Cleared
  All-Cleared_later w w' xs ys [] stay h = tt
  All-Cleared_later w w' xs ys (ref ∷ refs) stay (inl gone, h) =
      (inl (stay ref gone), All-Cleared_later w w' xs ys refs stay h)
  All-Cleared_later w w' xs ys (ref ∷ refs) stay (inr named, h) =
      (inr (contains_left _ xs ys named), All-Cleared_later w w' xs ys refs stay h)

  All-joined :
      (w : World S) (pending : List String) (xs ys : List CredentialRef)
      → All (Cleared w pending) xs
      → All (Cleared w pending) ys
      → All (Cleared w pending) (xs ++ ys)
  All-joined w pending [] ys h h' = h'
  All-joined w pending (x ∷ xs) ys (a, h) h' = (a, All-joined w pending xs ys h h')

  first-Cleared :
      (refs : Dict CredentialRef) (ref : CredentialRef) (s : Session S)
      → (get_password ref (delete_credential service ref s).0.world.keyring ≡ none)
        ⊎ ((f : Failure) × ((delete_credential service ref s).1 ≡ raised f))
      → let q = delete_credential service ref s in
        let e = erased_one service ref q.1 q.0 in
        let rest = erase_credentials service refs e.0 in Cleared rest.0.world (e.1 ++ rest.1) ref
  unfolding Cleared
  first-Cleared refs ref s (inl gone) =
      let q = delete_credential service ref s in
      inl (
        erase_credentials-absent refs ref _
          (ap (λ k. get_password ref k) (erased_one-keyring ref q.1 q.0) ∙ gone))
  first-Cleared refs ref s (inr failed) =
      let q = delete_credential service ref s in
      inr (
        contains_left _ (erased_one service ref q.1 q.0).1 _
          (erased_one-pending ref q.1 q.0 failed))

  erase_credentials-Cleared :
      (refs : Dict CredentialRef) (s : Session S)
      → All
          (Cleared (erase_credentials service refs s).0.world (erase_credentials service refs s).1)
          (refs_of refs)
  unfolding erase_credentials refs_of
  erase_credentials-Cleared [] s = tt
  erase_credentials-Cleared ((role, ref) ∷ refs) s =
      let q = delete_credential service ref s in
      let e = erased_one service ref q.1 q.0 in
      let rest = erase_credentials service refs e.0 in
      (
        first-Cleared refs ref s (deleted-removes ref s),
        All-Cleared_right rest.0.world e.1 rest.1 (refs_of refs)
            (erase_credentials-Cleared refs e.0),
      )

  pub erase_providers-Cleared :
      (providers : Dict ManagedProvider) (s : Session S)
      → All
          (Cleared
            (erase_providers service providers s).0.world
            (erase_providers service providers s).1)
          (references providers)
  unfolding erase_providers references
  erase_providers-Cleared [] s = tt
  erase_providers-Cleared ((name, provider) ∷ providers) s =
      let e = erase_credentials service provider.credentials s in
      let rest = erase_providers service providers e.0 in
      All-joined rest.0.world (e.1 ++ rest.1) (refs_of provider.credentials) (references providers)
        (All-Cleared_later e.0.world rest.0.world e.1 rest.1 (refs_of provider.credentials)
          (λ b h. erase_providers-absent providers b e.0 h)
          (erase_credentials-Cleared provider.credentials s))
        (All-Cleared_right rest.0.world e.1 rest.1 (references providers)
          (erase_providers-Cleared providers e.0))
