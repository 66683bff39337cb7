-- ===== src/Desktop/Credentials.antt =====
-- desktop/credentials.py: the keys in the session keyring. What the keyring refuses is an argument;
-- the new random token of a reference is one too.
use package.text.Mathlib.TextPositions.{eq_refl}
use open_transcribe_mcp.Base.{
  ◌≡◌, ◌↔◌, ◌⊎◌, ◌∙◌, refl, Bool-cases, inl, inr, String, Bool, true, false, ◌&&◌, Option, none,
  some, List, [], ◌∷◌, arith, eq_iff, str_eq, if◌then◌else◌,
}
use open_transcribe_mcp.Base.Text.{◌+s◌}
use open_transcribe_mcp.Desktop.Errors.{
  Try, Failure, done, raised, fail, ◌>>=◌, credential_missing, keyring_locked, keyring_unavailable,
}
use open_transcribe_mcp.Desktop.Schema.{CredentialRef, credential_namespace}

unfoldable pub new_credential_ref : String → String → String → String → CredentialRef
new_credential_ref installation_id provider role token = record {
  service = credential_namespace;
  account = installation_id +s ":" +s provider +s ":" +s role +s ":" +s token;
}

unfoldable pub ref_eq : CredentialRef → CredentialRef → Bool
ref_eq a b = str_eq a.service b.service && str_eq a.account b.account

-- The items of the Secret Service backend.
abbrev pub Keyring : Type 0
Keyring = List (CredentialRef × String)

unfoldable pub get_password : CredentialRef → Keyring → Option String
unfolding ref_eq
get_password ref [] = none
get_password ref ((r, password) ∷ k) = if ref_eq r ref then some password else get_password ref k

unfoldable pub delete_password : CredentialRef → Keyring → Keyring
unfolding ref_eq
delete_password ref [] = []
delete_password ref ((r, password) ∷ k) =
    let rest = delete_password ref k in if ref_eq r ref then rest else (r, password) ∷ rest

unfoldable pub set_password : CredentialRef → String → Keyring → Keyring
unfolding delete_password
set_password ref password k = (ref, password) ∷ delete_password ref k

-- KeyringLocked, or another KeyringError.
pub data KeyringError : Type 0 where
  locked unreachable : KeyringError

pub record KeyringFaults : Type 0 where
  pub on_get : CredentialRef → Option KeyringError
  pub on_put : CredentialRef → Option KeyringError
  pub on_delete : CredentialRef → Option KeyringError

-- `_call`: what an error of the backend becomes.
unfoldable pub call {ℓ} : {A : Type ℓ} → Option KeyringError → A → Try A
call none answer = done answer
call (some locked) answer =
    fail keyring_locked "Your session keyring is locked."
      (some "Unlock the keyring when your desktop asks, then try again.")
call (some unreachable) answer =
    fail keyring_unavailable "The session keyring could not be reached." (
      some
        "Sign in to a normal graphical session with a running keyring service, then open OpenTranscribe Setup again.")

unfoldable pub as_secret : Option String → Option String
as_secret none = none
as_secret (some value) = if str_eq value "" then none else some value

unfoldable pub is_stored : Option String → Bool
is_stored none = false
is_stored (some password) = true

-- What is done to the keyring if the call succeeds.
unfoldable pub when_done : Try Keyring → Keyring → Keyring
when_done (done k') k = k'
when_done (raised f) k = k

ref_eq_iff : (a b : CredentialRef) → (ref_eq a b ≡ true) ↔ (a ≡ b)
unfolding ref_eq
ref_eq_iff a b = (
  (λ e. grind (arith, eq_iff a.service b.service, eq_iff a.account b.account)),
  (λ e. rw (e, eq_refl b.service, eq_refl b.account) refl),
)

pub get_password-delete_password :
    (a b : CredentialRef) (k : Keyring)
    → get_password b (delete_password a k) ≡ (if ref_eq a b then none else get_password b k)
unfolding get_password delete_password
get_password-delete_password a b [] = elim (Bool-cases (ref_eq a b)) [
  | inl same ↦ rw same refl
  | inr apart ↦ rw apart refl
]
get_password-delete_password a b ((r, password) ∷ k) =
    ground
      (arith, ref_eq_iff a b, ref_eq_iff r a, ref_eq_iff r b, get_password-delete_password a b k)

pub get_password-set_password :
    (a b : CredentialRef) (password : String) (k : Keyring)
    → get_password b (set_password a password k)
      ≡ (if ref_eq a b then some password else get_password b k)
unfolding get_password set_password
get_password-set_password a b password k = elim (Bool-cases (ref_eq a b)) [
  | inl same ↦ rw same refl
  | inr apart ↦ rw (apart, get_password-delete_password a b k, apart) refl
]

when_done-keeps :
    (b : CredentialRef) (error : Option KeyringError) (k k' : Keyring)
    → get_password b k' ≡ get_password b k
    → get_password b (when_done (call error k') k) ≡ get_password b k
unfolding when_done call
when_done-keeps b none k k' h = h
when_done-keeps b (some locked) k k' h = refl
when_done-keeps b (some unreachable) k k' h = refl

ref_eq_refl : (a : CredentialRef) → ref_eq a a ≡ true
ref_eq_refl a = (ref_eq_iff a a).1 refl

called-removes :
    (a : CredentialRef) (k : Keyring) (error : Option KeyringError)
    → (get_password a (when_done (call error (delete_password a k)) k) ≡ none)
      ⊎ ((f : Failure) × ((call error (delete_password a k) >>= λ k'.
              done (is_stored (get_password a k)))
            ≡ raised f))
unfolding call when_done
called-removes a k none = inl (get_password-delete_password a a k ∙ rw (ref_eq_refl a) refl)
called-removes a k (some locked) = inr (_, refl)
called-removes a k (some unreachable) = inr (_, refl)

called-absent :
    (a b : CredentialRef) (k : Keyring) (error : Option KeyringError)
    → get_password b k ≡ none
    → get_password b (when_done (call error (delete_password a k)) k) ≡ none
unfolding call when_done
called-absent a b k none h = elim (Bool-cases (ref_eq a b)) [
  | inl same ↦ get_password-delete_password a b k ∙ rw same refl
  | inr apart ↦ get_password-delete_password a b k ∙ rw apart h
]
called-absent a b k (some locked) h = h
called-absent a b k (some unreachable) h = h

module _ (faults : KeyringFaults) where
  unfoldable pub get : CredentialRef → Keyring → Try (Option String)
  unfolding call as_secret get_password
  get ref k = call (faults.on_get ref) (as_secret (get_password ref k))

  unfoldable pub put : CredentialRef → String → Keyring → Keyring × Try (Unit {0})
  unfolding call
  put ref secret k =
      if str_eq secret ""
      then (k, fail credential_missing "An empty credential cannot be stored." none)
      else let answer = call (faults.on_put ref) (set_password ref secret k) in
        (when_done answer k, answer >>= λ k'. done tt)

  -- A PasswordDeleteError says that nothing was stored.
  unfoldable pub delete : CredentialRef → Keyring → Keyring × Try Bool
  unfolding call get_password is_stored
  delete ref k =
      let answer = call (faults.on_delete ref) (delete_password ref k) in
      (when_done answer k, answer >>= λ k'. done (is_stored (get_password ref k)))

  pub put-keeps :
      (a b : CredentialRef) (secret : String) (k : Keyring)
      → ref_eq a b ≡ false
      → get_password b (put a secret k).0 ≡ get_password b k
  unfolding put
  put-keeps a b secret k apart = elim (Bool-cases (str_eq secret "")) [
    | inl empty ↦ rw empty refl
    | inr given ↦ rw given (
        when_done-keeps b (faults.on_put a) k (set_password a secret k)
          (rw (get_password-set_password a b secret k, apart) refl))
  ]

  pub delete-keeps :
      (a b : CredentialRef) (k : Keyring)
      → ref_eq a b ≡ false
      → get_password b (delete a k).0 ≡ get_password b k
  unfolding delete
  delete-keeps a b k apart =
      when_done-keeps b (faults.on_delete a) k (delete_password a k)
        (rw (get_password-delete_password a b k, apart) refl)

  pub delete-removes :
      (a : CredentialRef) (k : Keyring)
      → (get_password a (delete a k).0 ≡ none) ⊎ ((f : Failure) × ((delete a k).1 ≡ raised f))
  unfolding delete
  delete-removes a k = called-removes a k (faults.on_delete a)

  pub delete-absent :
      (a b : CredentialRef) (k : Keyring)
      → get_password b k ≡ none
      → get_password b (delete a k).0 ≡ none
  unfolding delete
  delete-absent a b k h = called-absent a b k (faults.on_delete a) h
