-- ===== src/Base/Sequences.antt =====
-- Comprehensions, `next`, and Python's stable `sorted`, over Boolean tests; and what they preserve.
use mathlib.Core.List.{Perm}
use mathlib.Core.List.Perm
use open_transcribe_mcp.Base.{
  ℕ, suc, ◌≡◌, ◌≢◌, Bool, true, false, List, [], ◌∷◌, ◌++◌, map, arith, All, take, if◌then◌else◌,
  Bool-cases, inl, inr,
}

module _ {ℓ} {A : Type ℓ} where
  -- [x for x in xs if test(x)]
  unfoldable pub keep_if : (A → Bool) → List A → List A
  keep_if test [] = []
  keep_if test (x ∷ xs) = let rest = keep_if test xs in if test x then x ∷ rest else rest

  -- next((x for x in xs if test(x)), default)
  unfoldable pub next_or : (A → Bool) → List A → A → A
  next_or test [] default = default
  next_or test (x ∷ xs) default = if test x then x else next_or test xs default

  -- bool(xs)
  unfoldable pub is_nonempty : List A → Bool
  is_nonempty [] = false
  is_nonempty (x ∷ xs) = true

  -- `x` goes before the elements that are not below it, so equal elements keep their order.
  unfoldable pub insert_by : (A → A → Bool) → A → List A → List A
  insert_by before x [] = x ∷ []
  insert_by before x (y ∷ ys) = if before y x then y ∷ insert_by before x ys else x ∷ y ∷ ys

  -- sorted(xs), for an order `before`
  unfoldable pub sort_by : (A → A → Bool) → List A → List A
  unfolding insert_by
  sort_by before [] = []
  sort_by before (x ∷ xs) = insert_by before x (sort_by before xs)

module _ {ℓ κ} {A : Type ℓ} (P : A → Type κ) where
  pub All-keep_if_of : (test : A → Bool) (xs : List A) → All P xs → All P (keep_if test xs)
  unfolding keep_if
  All-keep_if_of test [] h = tt
  All-keep_if_of test (x ∷ xs) (p, h) = elim (Bool-cases (test x)) [
    | inl yes' ↦ rw yes' (p, All-keep_if_of test xs h)
    | inr no' ↦ rw no' (All-keep_if_of test xs h)
  ]

  pub All-keep_if :
      (test : A → Bool) (xs : List A) → ((x : A) → test x ≡ true → P x) → All P (keep_if test xs)
  unfolding keep_if
  All-keep_if test [] h = tt
  All-keep_if test (x ∷ xs) h = elim (Bool-cases (test x)) [
    | inl yes' ↦ rw yes' (h x yes', All-keep_if test xs h)
    | inr no' ↦ rw no' (All-keep_if test xs h)
  ]

  pub All-take : (n : ℕ) (xs : List A) → All P xs → All P (take n xs)
  All-take ℕ.zero xs h = tt
  All-take (suc n) [] h = tt
  All-take (suc n) (x ∷ xs) (p, h) = (p, All-take n xs h)

  All-insert_by :
      (before : A → A → Bool) (x : A) (xs : List A) → P x → All P xs → All P (insert_by before x xs)
  unfolding insert_by
  All-insert_by before x [] p h = (p, tt)
  All-insert_by before x (y ∷ ys) p (q, h) = elim (Bool-cases (before y x)) [
    | inl yes' ↦ rw yes' (q, All-insert_by before x ys p h)
    | inr no' ↦ rw no' (p, (q, h))
  ]

  pub All-sort_by : (before : A → A → Bool) (xs : List A) → All P xs → All P (sort_by before xs)
  unfolding sort_by
  All-sort_by before [] h = tt
  All-sort_by before (x ∷ xs) (p, h) =
      All-insert_by before x (sort_by before xs) p (All-sort_by before xs h)

  pub All-append : (xs ys : List A) → All P xs → All P ys → All P (xs ++ ys)
  All-append [] ys h k = k
  All-append (x ∷ xs) ys (p, h) k = (p, All-append xs ys h k)

module _ {ℓ κ ν} {A : Type ℓ} {B : Type κ} where
  pub All-map :
      (P : B → Type ν) (f : A → B) (xs : List A) → All (λ x. P (f x)) xs → All P (map f xs)
  All-map P f [] h = tt
  All-map P f (x ∷ xs) (p, h) = (p, All-map P f xs h)

pub All-impl {ℓ κ ν} :
    {A : Type ℓ} (P : A → Type κ) (Q : A → Type ν) (xs : List A)
    → ((x : A) → P x → Q x)
    → All P xs
    → All Q xs
All-impl P Q [] f h = tt
All-impl P Q (x ∷ xs) f (p, h) = (f x p, All-impl P Q xs f h)

module _ {ℓ} {A : Type ℓ} where
  -- Every later element is not below an earlier one.
  abbrev pub IsSorted : (A → A → Bool) → List A → Type ℓ
  IsSorted before [] = Unit
  IsSorted before (x ∷ xs) = All (λ y. before y x ≡ false) xs × IsSorted before xs

  module _ (before : A → A → Bool) (asym : (x y : A) → before x y ≡ true → before y x ≡ false)
      (trans : (x y z : A) → before y x ≡ false → before z y ≡ false → before z x ≡ false) where
    insert_by-IsSorted :
        (x : A) (xs : List A) → IsSorted before xs → IsSorted before (insert_by before x xs)
    unfolding insert_by
    insert_by-IsSorted x [] h = (tt, tt)
    insert_by-IsSorted x (y ∷ ys) (below, h) = elim (Bool-cases (before y x)) [
      | inl yes' ↦
          rw yes' (All-insert_by _ before x ys (asym y x yes') below, insert_by-IsSorted x ys h)
      | inr no' ↦ rw no' (
        (no', All-impl (λ z. before z y ≡ false) _ ys (λ z p. trans x y z no' p) below),
        (below, h),
      )
    ]

    pub sort_by-IsSorted : (xs : List A) → IsSorted before (sort_by before xs)
    unfolding sort_by
    sort_by-IsSorted [] = tt
    sort_by-IsSorted (x ∷ xs) = insert_by-IsSorted x (sort_by before xs) (sort_by-IsSorted xs)

  insert_by-perm :
      (before : A → A → Bool) (x : A) (xs : List A) → Perm (insert_by before x xs) (x ∷ xs)
  unfolding insert_by
  insert_by-perm before x [] = Perm.refl (x ∷ [])
  insert_by-perm before x (y ∷ ys) = elim (Bool-cases (before y x)) [
    | inl yes' ↦ rw yes' (Perm.trans (Perm.cons y (insert_by-perm before x ys)) (Perm.swap x y ys))
    | inr no' ↦ rw no' (Perm.refl (x ∷ y ∷ ys))
  ]

  pub sort_by-perm : (before : A → A → Bool) (xs : List A) → Perm (sort_by before xs) xs
  unfolding sort_by
  sort_by-perm before [] = Perm.refl []
  sort_by-perm before (x ∷ xs) =
      Perm.trans (insert_by-perm before x (sort_by before xs))
        (Perm.cons x (sort_by-perm before xs))

  insert_by-nonempty : (before : A → A → Bool) (x : A) (xs : List A) → insert_by before x xs ≢ []
  unfolding insert_by
  insert_by-nonempty before x [] = cc
  insert_by-nonempty before x (y ∷ ys) = ground arith

  pub sort_by-nonempty : (before : A → A → Bool) (xs : List A) → xs ≢ [] → sort_by before xs ≢ []
  unfolding sort_by
  sort_by-nonempty before [] h = h
  sort_by-nonempty before (x ∷ xs) h = insert_by-nonempty before x (sort_by before xs)
