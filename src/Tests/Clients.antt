-- ===== src/Tests/Clients.antt =====
-- A client with one server of its own and one of somebody else under the name of this
-- installation. Its JSON is written as one letter, which is the document.
use open_transcribe_mcp.Base.{
  arith, ℕ, ◌≡◌, ◌≢◌, inl, inr, refl, String, Bool, true, false, Option, none, some, List, [], ◌∷◌,
}
use open_transcribe_mcp.Base.Text.{codes}
use open_transcribe_mcp.Desktop.Clients.TomlStore.{replace_table}
use open_transcribe_mcp.Desktop.Clients.TomlStore.Lines.{IsBlank, IsSolid, solid}
use open_transcribe_mcp.Desktop.Clients.TomlStore.Swapped.{IsSwapped, replace_table-IsSwapped}
use open_transcribe_mcp.Base.Json.{Json, text, array, object, nil, cons, Fields, field, end}
use open_transcribe_mcp.Desktop.Errors.{done}
use open_transcribe_mcp.Desktop.Clients.{
  ServerRegistration, ExistingEntry, RegistrationPlan, ours, foreign, args, argv, fingerprint,
  blocked, changes_nothing, classify, parse_argv,
}
use open_transcribe_mcp.Desktop.Clients.JsonStore.{
  ConfigFile, regular, JsonText, IsJsonText, JsonMcpServersAdapter, apply, remove, plan, readback,
  server_json,
}
use open_transcribe_mcp.Desktop.Clients.JsonStore.Registered.{
  fits, IsRegistered, IsRemoved, apply-IsRegistered, remove-IsRemoved, apply-foreign,
}

unfoldable pub only_letter : List Json → Option Json
only_letter (d ∷ []) = some d
only_letter _ = none

unfoldable pub no_letters : List Json → Bool
no_letters [] = true
no_letters _ = false

abbrev pub one_letter : JsonText Json
one_letter = record { loads = only_letter; dumps = λ d. d ∷ []; is_blank = no_letters }

one_letter-IsJsonText : IsJsonText one_letter
unfolding only_letter no_letters
one_letter-IsJsonText = record { loads-dumps = λ d. refl; is_blank-dumps = λ d. refl }

unfoldable pub digest : List String → String
digest [] = "launch:"
digest (s ∷ ss) = s

abbrev pub adapter : JsonMcpServersAdapter
adapter = record {
  adapter_id = "cursor";
  display_name = "Cursor";
  config_path = "/home/u/.cursor/mcp.json";
  key_path = "mcpServers" ∷ [];
}

abbrev pub registration : ServerRegistration
registration = record {
  name = "open-transcribe";
  command = "/opt/open-transcribe/engine";
  config_path = "/home/u/.config/open-transcribe/config.toml";
}

abbrev server_of : String → Json
server_of command = object (field "command" (text command) (field "args" (array nil) end))

abbrev client_with : Fields → ConfigFile Json
client_with table =
    regular 420 (object (field "theme" (text "dark") (field "mcpServers" (object table) end)) ∷ [])

abbrev pub files_only : ConfigFile Json
files_only = client_with (field "files" (server_of "/usr/bin/files") end)

abbrev with_registration : ConfigFile Json
with_registration = client_with (
    field "files" (server_of "/usr/bin/files")
      (field "open-transcribe" (server_json one_letter digest adapter registration) end))

abbrev taken_name : ConfigFile Json
taken_name = client_with (field "open-transcribe" (server_of "/usr/bin/other") end)

abbrev pub adding : RegistrationPlan
adding = record {
  adapter_id = "cursor";
  registration = registration;
  actions =
      record {
        kind = "add_server";
        target = "open-transcribe";
        detail = "/home/u/.cursor/mcp.json";
      }
      ∷ [];
  conflicts = [];
  takeover = [];
  target_description = "/home/u/.cursor/mcp.json";
}

abbrev other_server : ExistingEntry
other_server = record { name = "open-transcribe"; command = text "/usr/bin/other"; args = [] }

abbrev refused : RegistrationPlan
refused = record adding { actions = []; conflicts = other_server ∷ [] }

plan_is_adding : plan one_letter digest adapter registration [] false files_only ≡ done adding
unfolding plan no_letters only_letter open_transcribe_mcp.Base.Json.get_field
plan_is_adding = refl

apply_registers :
    apply one_letter digest adapter true adding files_only ≡ (with_registration, done tt)
unfolding apply no_letters only_letter open_transcribe_mcp.Base.Json.get_field
    open_transcribe_mcp.Base.Json.set_field
apply_registers = refl

with_registration-fits : fits with_registration ≡ true
unfolding fits
with_registration-fits = refl

adding_is_free : blocked adding ≡ false
unfolding blocked
adding_is_free = refl

adding_changes : changes_nothing adding ≡ false
unfolding changes_nothing
adding_changes = refl

apply-IsRegistered_example :
    IsRegistered one_letter one_letter-IsJsonText digest adapter registration files_only
      with_registration
apply-IsRegistered_example =
    apply-IsRegistered one_letter one_letter-IsJsonText digest adapter adding files_only
      with_registration tt adding_is_free adding_changes apply_registers with_registration-fits

remove_unregisters :
    remove one_letter digest adapter true "open-transcribe" with_registration
    ≡ (files_only, done true)
unfolding remove no_letters only_letter open_transcribe_mcp.Base.Json.has_field
    open_transcribe_mcp.Base.Json.get_field open_transcribe_mcp.Base.Json.set_field
    open_transcribe_mcp.Base.Json.remove_field
remove_unregisters = refl

files_only-fits : fits files_only ≡ true
unfolding fits
files_only-fits = refl

remove-IsRemoved_example :
    IsRemoved one_letter one_letter-IsJsonText digest adapter "open-transcribe" with_registration
      files_only
remove-IsRemoved_example =
    remove-IsRemoved one_letter one_letter-IsJsonText digest adapter "open-transcribe"
      with_registration files_only true remove_unregisters files_only-fits

plan_is_refused : plan one_letter digest adapter registration [] false taken_name ≡ done refused
unfolding plan no_letters only_letter open_transcribe_mcp.Base.Json.get_field digest parse_argv
plan_is_refused = refl

readback_is_other :
    readback one_letter digest adapter "open-transcribe" taken_name ≡ done (some other_server)
unfolding readback no_letters only_letter open_transcribe_mcp.Base.Json.get_field parse_argv
readback_is_other = refl

other_is_foreign : classify digest other_server registration [] ≡ done foreign
unfolding classify fingerprint digest argv args
other_is_foreign = refl

foreign_ne_ours : foreign ≢ ours
foreign_ne_ours e = cc

apply-foreign_example : (apply one_letter digest adapter true refused taken_name).0 ≡ taken_name
apply-foreign_example =
    apply-foreign one_letter digest adapter true registration [] taken_name other_server foreign
      refused readback_is_other other_is_foreign foreign_ne_ours plan_is_refused

-- A file with the header of another server before and after this one.
abbrev toml : List ℕ
toml = codes "[a.x]\nk = 1\n[a.b]\nold = 2\n[a.y]\n"

abbrev new_table : Option (List ℕ)
new_table = some (codes "[a.b]\nnew = 3\n")

swaps_table :
    replace_table toml (codes "a.b") new_table ≡ codes "[a.x]\nk = 1\n[a.b]\nnew = 3\n[a.y]\n"
unfolding replace_table codes
swaps_table = refl

letter-IsBlank : (c : ℕ) → c ≡ 97 → IsBlank c → ⊥
letter-IsBlank c e (inl h) = ground arith
letter-IsBlank c e (inr h) = ground arith

header-IsSolid : IsSolid (codes "a.b")
unfolding codes
header-IsSolid = solid 97 (46 ∷ 98 ∷ []) (letter-IsBlank 97 refl)

replace_table-IsSwapped_example :
    IsSwapped (codes "a.b") toml new_table (replace_table toml (codes "a.b") new_table)
replace_table-IsSwapped_example =
    replace_table-IsSwapped (codes "a.b") toml new_table header-IsSolid
