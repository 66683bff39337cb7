-- ===== src/Desktop/Clients/JsonStore/Registered.antt =====
-- What a client's file holds after a registration, a refusal and a removal.
use package.text.Mathlib.TextPositions.{eq_refl}
use open_transcribe_mcp.Base.{
  ℕ, ◌≡◌, ◌≢◌, refl, ap, sym, ◌∙◌, subst, String, Bool, true, false, not, ◌||◌, Option, none, some,
  List, [], ◌∷◌, arith, str_eq, eq_iff, length, ltb, if◌then◌else◌, Bool-cases, inl, inr,
}
use open_transcribe_mcp.Base.Text.{contains}
use open_transcribe_mcp.Base.Json.{
  text, object, Fields, get_field, has_field, set_field, remove_field, get_field-set_field,
  get_field-set_field_self, get_field-remove_field, has_field-remove_field,
  has_field-set_field_self, has_field-set_field,
}
use open_transcribe_mcp.Desktop.Errors.{
  Try, done, raised, >>=-eq-done, done-injective, raised-ne-done,
}
use open_transcribe_mcp.Desktop.Clients.{
  ServerRegistration, ExistingEntry, RegistrationPlan, Ownership, ours, foreign, unknown, args,
  argv, texts_of, parse_argv, fingerprint, entry_fingerprint, whose, classify, blocked,
  changes_nothing,
}
use open_transcribe_mcp.Desktop.Clients.JsonStore.{
  ConfigFile, regular, JsonText, IsJsonText, JsonMcpServersAdapter, max_client_config_bytes, read,
  read_document, write, mode_of, servers, entry_of, inventory, readback, plan, plan_for, plan_owned,
  is_current, planned, server_json, save, apply, delete_server, remove, remove_from, removed_answer,
}
use open_transcribe_mcp.Desktop.Clients.JsonStore.Frame.{
  put_server-servers, delete_server-servers, find_entry-entries,
}

-- The file is not larger than the adapter reads.
unfoldable pub fits : {Byte : Type 0} → ConfigFile Byte → Bool
fits (regular mode raw) = not (ltb max_client_config_bytes (length raw))
fits _ = true

-- The entry that `server_json` is read as.
abbrev pub registered_entry : ServerRegistration → ExistingEntry
registered_entry r = record { name = r.name; command = text r.command; args = args r }

if-same : {A : Type 0} (x y : A) (s : String) → (if str_eq s s then x else y) ≡ x
if-same x y s = rw (eq_refl s) refl

whose_known : (b : Bool) (s : String) → (if b || str_eq s s then ours else foreign) ≡ ours
whose_known true s = refl
whose_known false s = if-same ours foreign s

-- What is one thing at `k` and as before elsewhere.
but_at :
    {A : Type 0} (k name : String) (f g : String → A) (x : A)
    → g k ≡ x
    → (str_eq k name ≡ false → g name ≡ f name)
    → g name ≡ (if str_eq k name then x else f name)
but_at k name f g x here other = elim (Bool-cases (str_eq k name)) [
  | inl same ↦ rw same (subst (λ z. g z ≡ x) ((eq_iff k name).0 same) here)
  | inr apart ↦ rw apart (other apart)
]

module _ {Byte : Type 0} (t : JsonText Byte) (lawful : IsJsonText t) (digest : List String → String)
    (a : JsonMcpServersAdapter) where
  -- What was written is read back.
  read-regular :
      (mode : ℕ) (document : Fields)
      → fits (regular mode (t.dumps (object document))) ≡ true
      → read t digest a (regular mode (t.dumps (object document))) ≡ done document
  unfolding read read_document fits
  read-regular mode document small =
      let over : ltb max_client_config_bytes (length (t.dumps (object document))) ≡ false =
        ground arith in
      rw (over, lawful.is_blank-dumps, lawful.loads-dumps) refl

  readback-read :
      (name : String) (file : ConfigFile Byte) (document : Fields)
      → read t digest a file ≡ done document
      → readback t digest a name file
        ≡ done (
            if has_field name (servers t digest a a.key_path document)
            then some
                (entry_of t digest a name (get_field name (servers t digest a a.key_path document)))
            else none)
  unfolding readback inventory
  readback-read name file document e =
      rw (e, find_entry-entries t digest a name (servers t digest a a.key_path document)) refl

  -- A save that succeeds has written what was computed.
  save-eq-done :
      (file file' : ConfigFile Byte) (m : Try Fields) (u : Unit {0})
      → save t digest a true file m ≡ (file', done u)
      → (document : Fields) × (m ≡ done document)
        × (file' ≡ regular (mode_of t digest a file) (t.dumps (object document)))
  unfolding save write mode_of
  save-eq-done file file' (raised f) u e =
      absurd (raised-ne-done (ap (λ (q : ConfigFile Byte × Try (Unit {0})). q.1) e))
  save-eq-done file file' (done document) u e =
      (document, refl, sym (ap (λ (q : ConfigFile Byte × Try (Unit {0})). q.0) e))

  entry_of-server_json :
      (r : ServerRegistration)
      → entry_of t digest a r.name (server_json t digest a r) ≡ registered_entry r
  unfolding entry_of server_json get_field parse_argv texts_of args
  entry_of-server_json r = refl

  abbrev pub nothing_to_do : ServerRegistration → RegistrationPlan
  nothing_to_do r = planned t digest a r [] [] []

  whose-fingerprint :
      (r : ServerRegistration) (owned : List String)
      → whose digest r owned (some (fingerprint digest r)) ≡ ours
  unfolding whose
  whose-fingerprint r owned =
      whose_known (contains (fingerprint digest r) owned) (fingerprint digest r)

  plan_owned-ours :
      (r : ServerRegistration) (takeover : Bool) (e : ExistingEntry)
      → plan_owned t digest a r takeover e ours (some (fingerprint digest r)) ≡ nothing_to_do r
  unfolding plan_owned is_current
  plan_owned-ours r takeover e = if-same _ _ (fingerprint digest r)

  plan_for-registered :
      (r : ServerRegistration) (owned : List String) (takeover : Bool)
      → plan_for t digest a r owned takeover (some (registered_entry r)) ≡ done (nothing_to_do r)
  unfolding plan_for classify entry_fingerprint
  plan_for-registered r owned takeover =
      let print : digest (r.command ∷ args r) ≡ fingerprint digest r =
        unfold fingerprint argv in refl in
      ap
        (λ x. done (
          plan_owned t digest a r takeover (registered_entry r) (whose digest r owned (some x))
            (some x)))
        print
      ∙ ap
          (λ x.
            done (
              plan_owned t digest a r takeover (registered_entry r) x
                (some (fingerprint digest r))))
          (whose-fingerprint r owned)
      ∙ ap (λ x. done x) (plan_owned-ours r takeover (registered_entry r))

  -- What follows a registration.
  pub record IsRegistered (r : ServerRegistration) (file file' : ConfigFile Byte) : Type 0 where
    pub again :
        (owned : List String) (takeover : Bool)
        → plan t digest a r owned takeover file' ≡ done (nothing_to_do r)
    pub servers_are :
        (name : String)
        → readback t digest a name file' ≡ (
            if str_eq r.name name
            then done (some (registered_entry r))
            else readback t digest a name file)

  registered-others :
      (r : ServerRegistration) (name : String) (fs gs : Fields)
      → gs ≡ set_field r.name (server_json t digest a r) fs
      → str_eq r.name name ≡ false
      → (if has_field name gs then some (entry_of t digest a name (get_field name gs)) else none)
        ≡ (if has_field name fs then some (entry_of t digest a name (get_field name fs)) else none)
  registered-others r name fs gs e apart = rw e (
      rw
        (
          has_field-set_field r.name name (server_json t digest a r) fs,
          get_field-set_field r.name name (server_json t digest a r) fs,
          apart,
        )
        refl)

  -- A registration that is applied, where the plan is not blocked and changes something, is read
  -- back as it was made; planning it again changes nothing, whoever owns what; and every other
  -- server of the client is read back as before. (JSON is read as it was printed, and the new file
  -- is not larger than the adapter reads.)
  pub apply-IsRegistered :
      (p : RegistrationPlan) (file file' : ConfigFile Byte) (u : Unit {0})
      → blocked p ≡ false
      → changes_nothing p ≡ false
      → apply t digest a true p file ≡ (file', done u)
      → fits file' ≡ true
      → IsRegistered p.registration file file'
  unfolding apply
  apply-IsRegistered p file file' u free change e small =
      let r = p.registration in
      let v = server_json t digest a r in
      let (d, computed, same) = save-eq-done file file' _ u (rw (free, change) at e) in
      let (d0, was, put) = >>=-eq-done (read t digest a file) _ computed in
      let table = put_server-servers t digest a a.key_path r.name v d0 d put in
      let small' = subst (λ x. fits x ≡ true) same small in
      let now =
        ap (λ x. read t digest a x) same ∙ read-regular (mode_of t digest a file) d small' in
      let here : readback t digest a r.name file' ≡ done (some (registered_entry r)) =
        readback-read r.name file' d now
        ∙ rw
            (
              table,
              has_field-set_field_self r.name v (servers t digest a a.key_path d0),
              get_field-set_field_self r.name v (servers t digest a a.key_path d0),
              entry_of-server_json r,
            )
            refl in
      record {
        again = λ owned takeover. unfold plan in rw here (plan_for-registered r owned takeover);
        servers_are = λ name.
            but_at r.name name (λ x. readback t digest a x file) (λ x. readback t digest a x file')
              _ here
              (λ apart.
                readback-read name file' d now
                ∙ ap (λ x. done x)
                    (registered-others r name (servers t digest a a.key_path d0)
                      (servers t digest a a.key_path d) table apart)
                ∙ sym (readback-read name file d0 was));
      }

  -- What follows a removal.
  pub record IsRemoved (name : String) (file file' : ConfigFile Byte) : Type 0 where
    pub servers_are :
        (other : String)
        → readback t digest a other file'
          ≡ (if str_eq name other then done none else readback t digest a other file)

  removed-others :
      (name other : String) (fs gs : Fields)
      → gs ≡ remove_field name fs
      → str_eq name other ≡ false
      → (if has_field other gs then some (entry_of t digest a other (get_field other gs)) else none)
        ≡ (if has_field other fs
            then some (entry_of t digest a other (get_field other fs))
            else none)
  removed-others name other fs gs e apart =
      rw e (
        rw (has_field-remove_field name other fs, get_field-remove_field name other fs, apart) refl)

  removed_answer-eq :
      (file' : ConfigFile Byte) (b : Bool) (q : ConfigFile Byte × Try (Unit {0}))
      → removed_answer t digest a q ≡ (file', done b)
      → (u : Unit {0}) × (q ≡ (file', done u))
  unfolding removed_answer
  removed_answer-eq file' b (file, raised f) e =
      absurd (raised-ne-done (ap (λ (q : ConfigFile Byte × Try Bool). q.1) e))
  removed_answer-eq file' b (file, done u) e =
      (u, ap (λ x. (x, done u)) (ap (λ (q : ConfigFile Byte × Try Bool). q.0) e))

  write-eq :
      (file file' : ConfigFile Byte) (d : Fields) (u : Unit {0})
      → write t digest a true d file ≡ (file', done u)
      → file' ≡ regular (mode_of t digest a file) (t.dumps (object d))
  unfolding write
  write-eq file file' d u e = sym (ap (λ (q : ConfigFile Byte × Try (Unit {0})). q.0) e)

  remove_from-IsRemoved :
      (name : String) (file file' : ConfigFile Byte) (m : Try Fields) (b : Bool)
      → read t digest a file ≡ m
      → remove_from t digest a true name file m ≡ (file', done b)
      → fits file' ≡ true
      → IsRemoved name file file'
  unfolding remove_from
  remove_from-IsRemoved name file file' (raised f) b was e small =
      absurd (raised-ne-done (ap (λ (q : ConfigFile Byte × Try Bool). q.1) e))
  remove_from-IsRemoved name file file' (done d0) b was e small =
      elim (Bool-cases (has_field name (servers t digest a a.key_path d0))) [
        | inr out ↦
            let same = ap (λ (q : ConfigFile Byte × Try Bool). q.0) (rw out at e) in
            record {
              servers_are = λ other.
                  but_at name other (λ x. readback t digest a x file)
                    (λ x. readback t digest a x file') _
                    (rw (← same) (readback-read name file d0 was ∙ rw out refl))
                    (λ apart. rw (← same) refl);
            }
        | inl found ↦
            let d = delete_server t digest a a.key_path name d0 in
            let table = delete_server-servers t digest a a.key_path name d0 in
            let (u, written) =
              removed_answer-eq file' b (write t digest a true d file) (rw found at e) in
            let same = write-eq file file' d u written in
            let now =
              ap (λ x. read t digest a x) same
              ∙ read-regular (mode_of t digest a file) d (subst (λ x. fits x ≡ true) same small) in
            record {
              servers_are = λ other.
                  but_at name other (λ x. readback t digest a x file)
                    (λ x. readback t digest a x file') _
                    (readback-read name file' d now
                      ∙ rw
                          (
                            table,
                            has_field-remove_field name name (servers t digest a a.key_path d0),
                            eq_refl name,
                          )
                          refl)
                    (λ apart.
                      readback-read other file' d now
                      ∙ ap (λ x. done x)
                          (removed-others name other (servers t digest a a.key_path d0)
                            (servers t digest a a.key_path d) table apart)
                      ∙ sym (readback-read other file d0 was));
            }
      ]

  -- A removal that succeeds leaves no server of that name, and every other server of the client is
  -- read back as before. (JSON is read as it was printed, and the new file is not larger than the
  -- adapter reads.)
  pub remove-IsRemoved :
      (name : String) (file file' : ConfigFile Byte) (b : Bool)
      → remove t digest a true name file ≡ (file', done b)
      → fits file' ≡ true
      → IsRemoved name file file'
  unfolding remove
  remove-IsRemoved name file file' b e small =
      remove_from-IsRemoved name file file' (read t digest a file) b refl e small

-- Without a takeover a server that is not this installation's is not touched.
module _ {Byte : Type 0} (t : JsonText Byte) (digest : List String → String)
    (a : JsonMcpServersAdapter) where
  plan_owned-blocked :
      (r : ServerRegistration) (current : ExistingEntry) (o : Ownership) (print : Option String)
      → o ≢ ours
      → blocked (plan_owned t digest a r false current o print) ≡ true
  unfolding plan_owned blocked
  plan_owned-blocked r current ours print h = absurd (h refl)
  plan_owned-blocked r current foreign print h = refl
  plan_owned-blocked r current unknown print h = refl

  apply-blocked :
      (writable : Bool) (p : RegistrationPlan) (file : ConfigFile Byte)
      → blocked p ≡ true
      → (apply t digest a writable p file).0 ≡ file
  unfolding apply
  apply-blocked writable p file h = rw h refl

  -- Where the client has a server of that name that is not this installation's, planning without
  -- a takeover gives a plan whose application leaves the file as it is, whatever it answers.
  pub apply-foreign :
      (writable : Bool) (r : ServerRegistration) (owned : List String) (file : ConfigFile Byte)
      (current : ExistingEntry) (o : Ownership) (p : RegistrationPlan)
      → readback t digest a r.name file ≡ done (some current)
      → classify digest current r owned ≡ done o
      → o ≢ ours
      → plan t digest a r owned false file ≡ done p
      → (apply t digest a writable p file).0 ≡ file
  unfolding plan plan_for
  apply-foreign writable r owned file current o p there whose' foreign' e =
      let e1 = rw there at e in
      let (o', h, e2) = >>=-eq-done (classify digest current r owned) _ e1 in
      let (print, h', e3) = >>=-eq-done (entry_fingerprint digest current) _ e2 in
      let same : o' ≡ o = done-injective (sym h ∙ whose') in
      apply-blocked writable p file (
        rw (← done-injective e3)
          (plan_owned-blocked r current o' print (λ z. foreign' (sym same ∙ z))))
