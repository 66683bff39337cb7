-- ===== src/Base/Dict.antt =====
-- Python's `dict` with text keys, as the list of its items in the order of insertion.
use text.Mathlib.TextPositions.{eq_refl}
use mathlib.Core.Path.{subst₂}
use open_transcribe_mcp.Base.{
  String, ◌≡◌, refl, Bool, true, false, Option, none, some, List, [], ◌∷◌, arith, eq_iff, str_eq,
  if◌then◌else◌, All, Bool-cases, inl, inr,
}

abbrev pub Dict {ℓ} : Type ℓ → Type ℓ
Dict V = List (String × V)

module _ {ℓ} {V : Type ℓ} where
  -- d.get(k)
  unfoldable pub lookup : String → Dict V → Option V
  lookup k [] = none
  lookup k ((j, v) ∷ d) = if str_eq j k then some v else lookup k d

  -- d[k] = v: a known key keeps its place.
  unfoldable pub insert : String → V → Dict V → Dict V
  insert k v [] = (k, v) ∷ []
  insert k v ((j, w) ∷ d) = if str_eq j k then (j, v) ∷ d else (j, w) ∷ insert k v d

  -- d.pop(k, None), del d[k]
  unfoldable pub remove : String → Dict V → Dict V
  remove k [] = []
  remove k ((j, v) ∷ d) = let rest = remove k d in if str_eq j k then rest else (j, v) ∷ rest

  -- k in d
  unfoldable pub has_key : String → Dict V → Bool
  has_key k [] = false
  has_key k ((j, v) ∷ d) = if str_eq j k then true else has_key k d

  -- d.values()
  unfoldable pub values : Dict V → List V
  values [] = []
  values ((k, v) ∷ d) = v ∷ values d

  pub lookup-insert :
      (k j : String) (v : V) (d : Dict V)
      → lookup j (insert k v d) ≡ (if str_eq k j then some v else lookup j d)
  unfolding lookup insert
  lookup-insert k j v [] = refl
  lookup-insert k j v ((i, w) ∷ d) =
      ground (arith, eq_iff k j, eq_iff i k, eq_iff i j, lookup-insert k j v d)

  pub lookup-insert_self : (k : String) (v : V) (d : Dict V) → lookup k (insert k v d) ≡ some v
  lookup-insert_self k v d = simp (lookup-insert, eq_refl)

  pub lookup-remove :
      (k j : String) (d : Dict V)
      → lookup j (remove k d) ≡ (if str_eq k j then none else lookup j d)
  unfolding lookup remove
  lookup-remove k j [] = ground arith
  lookup-remove k j ((i, w) ∷ d) =
      ground (arith, eq_iff k j, eq_iff i k, eq_iff i j, lookup-remove k j d)

  pub All-insert {κ} :
      (P : String × V → Type κ) (k : String) (v : V) (d : Dict V)
      → ((j : String) → j ≡ k → P (j, v))
      → All P d
      → All P (insert k v d)
  unfolding insert
  All-insert P k v [] h a = (h k refl, tt)
  All-insert P k v ((j, w) ∷ d) h (p, a) = elim (Bool-cases (str_eq j k)) [
    | inl same ↦ rw same (h j ((eq_iff j k).0 same), a)
    | inr other ↦ rw other (p, All-insert P k v d h a)
  ]

  pub All-lookup {κ} :
      (P : String × V → Type κ) (k : String) (v : V) (d : Dict V)
      → All P d
      → lookup k d ≡ some v
      → P (k, v)
  unfolding lookup
  All-lookup P k v [] a e = cc
  All-lookup P k v ((j, w) ∷ d) (p, a) e = elim (Bool-cases (str_eq j k)) [
    | inl same ↦
        let e' : w ≡ v = ground arith in subst₂ (λ x y. P (x, y)) ((eq_iff j k).0 same) e' p
    | inr other ↦ All-lookup P k v d a (ground arith)
  ]
