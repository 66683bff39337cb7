-- ===== src/Desktop/Clients/JsonStore.antt =====
-- desktop/clients/json_store.py: one server in a client's JSON file. JSON's parser and printer are
-- arguments; so is whether the new file can be written.
pub mod Frame
pub mod Registered
use open_transcribe_mcp.Base.{
  ℕ, ◌*◌, ◌≡◌, String, Bool, true, false, not, ◌&&◌, ◌||◌, Option, none, some, List, [], ◌∷◌,
  length, ltb, str_eq, if◌then◌else◌,
}
use open_transcribe_mcp.Base.Text.{◌+s◌}
use open_transcribe_mcp.Base.Json.{
  Json, null, boolean, number, text, array, object, Items, Fields, field, end, get_field, has_field,
  set_field, remove_field,
}
use open_transcribe_mcp.Desktop.Errors.{
  Try, done, raised, fail, os_error, ◌>>=◌, client_conflict, client_registration_failed,
  client_unsupported,
}
use open_transcribe_mcp.Desktop.Clients.{
  Ownership, ours, foreign, unknown, ServerRegistration, ExistingEntry, PlannedAction,
  RegistrationPlan, ClientAdapter, blocked, changes_nothing, parse_argv, items_of, args,
  fingerprint, entry_fingerprint, classify,
}

abbrev pub max_client_config_bytes : ℕ
max_client_config_bytes = 4 * 1024 * 1024

pub record JsonMcpServersAdapter : Type 0 where
  pub adapter_id : String
  pub display_name : String
  pub config_path : String
  pub key_path : List String

-- The file at `config_path`, as `lstat` and a read find it.
pub data ConfigFile (Byte : Type 0) : Type 0 where
  missing unreadable symlink : ConfigFile Byte
  regular : (mode : ℕ) → List Byte → ConfigFile Byte

-- What the adapter takes of JSON's text, whatever a byte is.
pub record JsonText (Byte : Type 0) : Type 0 where
  -- json.loads(raw.decode("utf-8")), `none` for an error
  pub loads : List Byte → Option Json
  -- dumps_client_json
  pub dumps : Json → List Byte
  -- not raw.strip()
  pub is_blank : List Byte → Bool

-- What is documented: a printed document is not blank, and is read back as it was.
pub record IsJsonText {Byte : Type 0} (t : JsonText Byte) : Type 0 where
  pub loads-dumps : (d : Json) → t.loads (t.dumps d) ≡ some d
  pub is_blank-dumps : (d : Json) → t.is_blank (t.dumps d) ≡ false

module _ {Byte : Type 0} (t : JsonText Byte) (digest : List String → String)
    (a : JsonMcpServersAdapter) where
  unfoldable pub read_document : Option Json → Try Fields
  read_document (some (object fs)) = done fs
  read_document none =
      fail client_unsupported (a.display_name +s "'s configuration is not valid JSON.") (
        some
          "Fix or remove that file in your client, then repair the connection. OpenTranscribe will not rewrite a file it cannot read.")
  read_document (some _) =
      fail client_unsupported (a.display_name +s "'s configuration has an unexpected shape.") none

  unfoldable pub read : ConfigFile Byte → Try Fields
  unfolding read_document
  read missing = done end
  read unreadable =
      fail client_registration_failed (a.display_name +s "'s configuration could not be read.") none
  read symlink =
      fail client_unsupported (a.display_name +s "'s configuration is a symbolic link.")
        (some "Register OpenTranscribe manually in that client instead.")
  read (regular mode raw) =
      if ltb max_client_config_bytes (length raw)
      then fail client_unsupported
          (a.display_name +s "'s configuration is larger than this build will rewrite.")
          (some "Register OpenTranscribe manually in that client instead.")
      else if t.is_blank raw
      then done end
      else read_document (t.loads raw)

  below : (Fields → Fields) → Json → Fields
  below f (object child) = f child
  below f _ = end

  -- `_servers` without `create`: no table where the path leaves the objects.
  unfoldable pub servers : List String → Fields → Fields
  unfolding below
  servers [] node = node
  servers (k ∷ path) node = below (λ child. servers path child) (get_field k node)

  unfoldable pub mode_of : ConfigFile Byte → ℕ
  mode_of (regular mode raw) = mode
  mode_of _ = 384

  -- `_write`: 0o600 for a new file; a failure leaves the file as it was.
  unfoldable pub write : Bool → Fields → ConfigFile Byte → ConfigFile Byte × Try (Unit {0})
  unfolding mode_of
  write writable document file =
      if writable
      then (regular (mode_of file) (t.dumps (object document)), done tt)
      else (file, raised os_error)

  unfoldable pub entry_of : String → Json → ExistingEntry
  entry_of name (object fs) = record {
    name = name;
    command = get_field "command" fs;
    args = parse_argv (get_field "args" fs);
  }
  entry_of name _ = record { name = name; command = null; args = [] }

  unfoldable pub entries : Fields → List ExistingEntry
  unfolding entry_of
  entries end = []
  entries (field name v fs) = entry_of name v ∷ entries fs

  unfoldable pub inventory : ConfigFile Byte → Try (List ExistingEntry)
  unfolding read entries servers
  inventory file = read file >>= λ document. done (entries (servers a.key_path document))

  unfoldable pub find_entry : String → List ExistingEntry → Option ExistingEntry
  find_entry name [] = none
  find_entry name (e ∷ es) = if str_eq e.name name then some e else find_entry name es

  unfoldable pub readback : String → ConfigFile Byte → Try (Option ExistingEntry)
  unfolding inventory find_entry
  readback name file = inventory file >>= λ es. done (find_entry name es)

  abbrev pub action : String → ServerRegistration → PlannedAction
  action kind r = record { kind = kind; target = r.name; detail = a.config_path }

  abbrev pub planned :
      ServerRegistration
      → List PlannedAction
      → List ExistingEntry
      → List ExistingEntry
      → RegistrationPlan
  planned r actions conflicts takeover = record {
    adapter_id = a.adapter_id;
    registration = r;
    actions = actions;
    conflicts = conflicts;
    takeover = takeover;
    target_description = a.config_path;
  }

  unfoldable pub is_current : Option String → String → Bool
  is_current none print = false
  is_current (some p) print = str_eq p print

  unfoldable pub plan_owned :
      ServerRegistration → Bool → ExistingEntry → Ownership → Option String → RegistrationPlan
  unfolding is_current fingerprint
  plan_owned r takeover current ours print =
      if is_current print (fingerprint digest r)
      then planned r [] [] []
      else planned r (action "update_server" r ∷ []) [] []
  plan_owned r takeover current _ print =
      if takeover
      then planned r (action "replace_server" r ∷ []) [] (current ∷ [])
      else planned r [] (current ∷ []) []

  unfoldable pub plan_for :
      ServerRegistration → List String → Bool → Option ExistingEntry → Try RegistrationPlan
  unfolding plan_owned classify entry_fingerprint
  plan_for r owned takeover none = done (planned r (action "add_server" r ∷ []) [] [])
  plan_for r owned takeover (some current) = classify digest current r owned >>= λ ownership.
      entry_fingerprint digest current >>= λ print.
      done (plan_owned r takeover current ownership print)

  -- A name stands once in the file, so the dictionary of the entries finds what `readback` finds.
  unfoldable pub plan :
      ServerRegistration → List String → Bool → ConfigFile Byte → Try RegistrationPlan
  unfolding readback plan_for
  plan r owned takeover file = readback r.name file >>= plan_for r owned takeover

  -- A missing table is made, and anything else in its place is refused.
  into : (Fields → Try Fields) → String → Fields → Json → Try Fields
  into put k node null = put end >>= λ child. done (set_field k (object child) node)
  into put k node (object fs) = put fs >>= λ child. done (set_field k (object child) node)
  into put k node _ =
      fail client_unsupported
        (a.display_name +s "'s configuration uses '" +s k +s "' for something else.") none

  -- `_servers` with `create`, and the assignment to one name in the table that it returns.
  unfoldable pub put_server : List String → String → Json → Fields → Try Fields
  unfolding into
  put_server [] name v node = done (set_field name v node)
  put_server (k ∷ path) name v node =
      into (λ child. put_server path name v child) k node (get_field k node)

  unfoldable pub server_json : ServerRegistration → Json
  unfolding items_of args
  server_json r =
      object (field "command" (text r.command) (field "args" (array (items_of (args r))) end))

  unfoldable pub save : Bool → ConfigFile Byte → Try Fields → ConfigFile Byte × Try (Unit {0})
  unfolding write
  save writable file (raised f) = (file, raised f)
  save writable file (done document) = write writable document file

  unfoldable pub apply :
      Bool → RegistrationPlan → ConfigFile Byte → ConfigFile Byte × Try (Unit {0})
  unfolding save put_server server_json read blocked changes_nothing
  apply writable p file =
      if blocked p
      then (
        file,
        fail client_conflict
            (a.display_name +s " already has a server named " +s p.registration.name
              +s " that this installation did not create.")
            (some "Choose to take it over, or rename the existing entry in your client."),
      )
      else if changes_nothing p
      then (file, done tt)
      else save writable file
          (read file >>= put_server a.key_path p.registration.name (server_json p.registration))

  within : (Fields → Fields) → String → Fields → Json → Fields
  within delete k node (object fs) = set_field k (object (delete fs)) node
  within delete k node _ = node

  -- `del servers[name]`, where the table is there.
  unfoldable pub delete_server : List String → String → Fields → Fields
  unfolding within
  delete_server [] name node = remove_field name node
  delete_server (k ∷ path) name node =
      within (λ child. delete_server path name child) k node (get_field k node)

  unfoldable pub removed_answer : ConfigFile Byte × Try (Unit {0}) → ConfigFile Byte × Try Bool
  removed_answer (file, raised f) = (file, raised f)
  removed_answer (file, done u) = (file, done true)

  unfoldable pub remove_from :
      Bool → String → ConfigFile Byte → Try Fields → ConfigFile Byte × Try Bool
  unfolding write delete_server servers removed_answer
  remove_from writable name file (raised f) = (file, raised f)
  remove_from writable name file (done document) =
      if has_field name (servers a.key_path document)
      then removed_answer (write writable (delete_server a.key_path name document) file)
      else (file, done false)

  unfoldable pub remove : Bool → String → ConfigFile Byte → ConfigFile Byte × Try Bool
  unfolding remove_from read
  remove writable name file = remove_from writable name file (read file)

  -- The adapter as the setup uses it; `getattr(adapter, "restart_required", True)`.
  unfoldable pub json_adapter : Bool → ClientAdapter (ConfigFile Byte)
  unfolding plan apply readback remove
  json_adapter writable = record {
    adapter_id = a.adapter_id;
    display_name = a.display_name;
    restart_required = true;
    plan = plan;
    apply = apply writable;
    readback = readback;
    remove = remove writable;
  }
