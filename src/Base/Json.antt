-- ===== src/Base/Json.antt =====
-- JSON as Python reads it: a `dict` is the list of its fields in the order of insertion.
use package.text.Mathlib.TextPositions.{eq_refl}
use open_transcribe_mcp.Base.{
  String, ◌≡◌, refl, Bool, true, false, arith, eq_iff, str_eq, if◌then◌else◌,
}
use open_transcribe_mcp.Base.Float.{Float}

mutual
  pub data Json : Type 0 where
    null : Json
    boolean : Bool → Json
    number : Float → Json
    text : String → Json
    array : Items → Json
    object : Fields → Json

  pub data Items : Type 0 where
    nil : Items
    cons : Json → Items → Items

  pub data Fields : Type 0 where
    end : Fields
    field : String → Json → Fields → Fields

-- d.get(name): `None` for a missing name and for null.
unfoldable pub get_field : String → Fields → Json
get_field name end = null
get_field name (field k v fs) = if str_eq k name then v else get_field name fs

-- name in d
unfoldable pub has_field : String → Fields → Bool
has_field name end = false
has_field name (field k v fs) = if str_eq k name then true else has_field name fs

-- d[name] = v: a known name keeps its place.
unfoldable pub set_field : String → Json → Fields → Fields
set_field name v end = field name v end
set_field name v (field k w fs) =
    if str_eq k name then field k v fs else field k w (set_field name v fs)

-- del d[name]
unfoldable pub remove_field : String → Fields → Fields
remove_field name end = end
remove_field name (field k v fs) =
    let rest = remove_field name fs in if str_eq k name then rest else field k v rest

pub get_field-set_field :
    (k j : String) (v : Json) (d : Fields)
    → get_field j (set_field k v d) ≡ (if str_eq k j then v else get_field j d)
unfolding get_field set_field
get_field-set_field k j v end = refl
get_field-set_field k j v (field i w d) =
    ground (arith, eq_iff k j, eq_iff i k, eq_iff i j, get_field-set_field k j v d)

pub get_field-set_field_self :
    (k : String) (v : Json) (d : Fields) → get_field k (set_field k v d) ≡ v
get_field-set_field_self k v d = simp (get_field-set_field, eq_refl)

pub get_field-remove_field :
    (k j : String) (d : Fields)
    → get_field j (remove_field k d) ≡ (if str_eq k j then null else get_field j d)
unfolding get_field remove_field
get_field-remove_field k j end = ground arith
get_field-remove_field k j (field i w d) =
    ground (arith, eq_iff k j, eq_iff i k, eq_iff i j, get_field-remove_field k j d)

pub has_field-remove_field :
    (k j : String) (d : Fields)
    → has_field j (remove_field k d) ≡ (if str_eq k j then false else has_field j d)
unfolding has_field remove_field
has_field-remove_field k j end = ground arith
has_field-remove_field k j (field i w d) =
    ground (arith, eq_iff k j, eq_iff i k, eq_iff i j, has_field-remove_field k j d)

-- A name that has a value is there.
pub has_field-set_field_self :
    (k : String) (v : Json) (d : Fields) → has_field k (set_field k v d) ≡ true
unfolding has_field set_field
has_field-set_field_self k v end = rw (eq_refl k) refl
has_field-set_field_self k v (field i w d) =
    ground (arith, eq_iff i k, eq_refl k, has_field-set_field_self k v d)

pub has_field-set_field :
    (k j : String) (v : Json) (d : Fields)
    → has_field j (set_field k v d) ≡ (if str_eq k j then true else has_field j d)
unfolding has_field set_field
has_field-set_field k j v end = refl
has_field-set_field k j v (field i w d) =
    ground (arith, eq_iff k j, eq_iff i k, eq_iff i j, has_field-set_field k j v d)
