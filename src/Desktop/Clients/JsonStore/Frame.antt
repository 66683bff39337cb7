-- ===== src/Desktop/Clients/JsonStore/Frame.antt =====
-- What a change of one server does to the table of servers, and what it leaves alone.
use open_transcribe_mcp.Base.{
  ◌≡◌, refl, ap, sym, ◌∙◌, String, false, none, some, List, [], ◌∷◌, eq_iff, str_eq, if◌then◌else◌,
  Bool-cases, inl, inr,
}
use open_transcribe_mcp.Base.Json.{
  Json, null, boolean, number, text, array, object, Fields, field, end, get_field, has_field,
  set_field, remove_field, get_field-set_field, get_field-set_field_self,
}
use open_transcribe_mcp.Desktop.Errors.{Try, done, >>=-eq-done, done-injective, raised-ne-done}
use open_transcribe_mcp.Desktop.Clients.JsonStore.{
  JsonText, JsonMcpServersAdapter, servers, below, put_server, into, delete_server, within, entries,
  entry_of, find_entry,
}

module _ {Byte : Type 0} (t : JsonText Byte) (digest : List String → String)
    (a : JsonMcpServersAdapter) where
  servers-end : (path : List String) → servers t digest a path end ≡ end
  unfolding servers get_field
  servers-end [] = refl
  servers-end (k ∷ path) = refl

  servers-set_field :
      (k : String) (path : List String) (child node : Fields)
      → servers t digest a (k ∷ path) (set_field k (object child) node)
        ≡ servers t digest a path child
  unfolding servers
  servers-set_field k path child node = rw (get_field-set_field_self k (object child) node) refl

  -- The field that `into` sets, and what it sets there.
  into-eq-done :
      (put : Fields → Try Fields) (k : String) (node node' : Fields) (w : Json)
      → into t digest a put k node w ≡ done node'
      → (fs child : Fields) × (node' ≡ set_field k (object child) node)
        × (put fs ≡ done child)
        × ((path : List String)
            → below t digest a (λ c. servers t digest a path c) w ≡ servers t digest a path fs)
  unfolding into below
  into-eq-done put k node node' null e =
      let (child, h, same) = >>=-eq-done (put end) _ e in
      (end, child, sym (done-injective same), h, λ path. sym (servers-end path))
  into-eq-done put k node node' (object fs) e =
      let (child, h, same) = >>=-eq-done (put fs) _ e in
      (fs, child, sym (done-injective same), h, λ path. refl)
  into-eq-done put k node node' (boolean b) e = absurd (raised-ne-done e)
  into-eq-done put k node node' (number n) e = absurd (raised-ne-done e)
  into-eq-done put k node node' (text s) e = absurd (raised-ne-done e)
  into-eq-done put k node node' (array xs) e = absurd (raised-ne-done e)

  -- The table of the changed document is the changed table.
  pub put_server-servers :
      (path : List String) (name : String) (v : Json) (node node' : Fields)
      → put_server t digest a path name v node ≡ done node'
      → servers t digest a path node' ≡ set_field name v (servers t digest a path node)
  unfolding put_server servers
  put_server-servers [] name v node node' e = sym (done-injective e)
  put_server-servers (k ∷ path) name v node node' e =
      let (fs, child, same, h, table) =
        into-eq-done (λ c. put_server t digest a path name v c) k node node' (get_field k node) e in
      ap (λ d. servers t digest a (k ∷ path) d) same
      ∙ servers-set_field k path child node
      ∙ put_server-servers path name v fs child h
      ∙ ap (λ x. set_field name v x) (sym (table path))

  -- Whatever does not lie on the path keeps its value.
  pub put_server-outside :
      (k : String) (path : List String) (name : String) (v : Json) (node node' : Fields)
      (j : String)
      → put_server t digest a (k ∷ path) name v node ≡ done node'
      → str_eq k j ≡ false
      → get_field j node' ≡ get_field j node
  unfolding put_server
  put_server-outside k path name v node node' j e apart =
      let (fs, child, same, h, table) =
        into-eq-done (λ c. put_server t digest a path name v c) k node node' (get_field k node) e in
      ap (λ d. get_field j d) same ∙ get_field-set_field k j (object child) node ∙ rw apart refl

  within-servers :
      (delete : Fields → Fields) (k : String) (path : List String) (name : String) (node : Fields)
      (w : Json)
      → ((fs : Fields)
          → servers t digest a path (delete fs) ≡ remove_field name (servers t digest a path fs))
      → get_field k node ≡ w
      → servers t digest a (k ∷ path) (within t digest a delete k node w)
        ≡ remove_field name (below t digest a (λ c. servers t digest a path c) w)
  unfolding within below servers remove_field
  within-servers delete k path name node (object fs) h e =
      servers-set_field k path (delete fs) node ∙ h fs
  within-servers delete k path name node null h e = rw e refl
  within-servers delete k path name node (boolean b) h e = rw e refl
  within-servers delete k path name node (number n) h e = rw e refl
  within-servers delete k path name node (text s) h e = rw e refl
  within-servers delete k path name node (array xs) h e = rw e refl

  pub delete_server-servers :
      (path : List String) (name : String) (node : Fields)
      → servers t digest a path (delete_server t digest a path name node)
        ≡ remove_field name (servers t digest a path node)
  unfolding delete_server servers
  delete_server-servers [] name node = refl
  delete_server-servers (k ∷ path) name node =
      within-servers (λ c. delete_server t digest a path name c) k path name node (get_field k node)
        (delete_server-servers path name) refl

  entry_of-name : (k : String) (v : Json) → (entry_of t digest a k v).name ≡ k
  unfolding entry_of
  entry_of-name k (object fs) = refl
  entry_of-name k null = refl
  entry_of-name k (boolean b) = refl
  entry_of-name k (number n) = refl
  entry_of-name k (text s) = refl
  entry_of-name k (array xs) = refl

  -- The first entry of a name is that of the field that Python's dictionary finds.
  pub find_entry-entries :
      (name : String) (fs : Fields)
      → find_entry t digest a name (entries t digest a fs)
        ≡ (if has_field name fs then some (entry_of t digest a name (get_field name fs)) else none)
  unfolding find_entry entries has_field get_field
  find_entry-entries name end = refl
  find_entry-entries name (field k v fs) = elim (Bool-cases (str_eq k name)) [
    | inl same ↦
        let e : k ≡ name = (eq_iff k name).0 same in
        rw (entry_of-name k v, same) (ap (λ x. some (entry_of t digest a x v)) e)
    | inr other ↦ rw (entry_of-name k v, other) (find_entry-entries name fs)
  ]
