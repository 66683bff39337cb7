-- ===== src/Base/Members.antt =====
-- The elements of a list.
use mathlib.Core.List.Memᴰ
use mathlib.Core.List.{Memᴰ}
use open_transcribe_mcp.Base.{
  String, ◌≡◌, refl, sym, ap, subst, List, [], ◌∷◌, ◌++◌, map, All, inl, inr, ◌⊎◌,
}

pub append-All :
    (P : String → Type 0) (xs ys : List String) → All P xs → All P ys → All P (xs ++ ys)
append-All P [] ys h k = k
append-All P (x ∷ xs) ys (p, h) k = (p, append-All P xs ys h k)

pub All-Mem : (P : String → Type 0) (xs : List String) → All P xs → (x : String) → Memᴰ x xs → P x
All-Mem P [] h x k = absurd (Memᴰ.not-nil k)
All-Mem P (y ∷ xs) (p, h) x (Memᴰ.head e) = subst P (sym e) p
All-Mem P (y ∷ xs) (p, h) x (Memᴰ.tail k) = All-Mem P xs h x k

pub Mem-map :
    (f : String → String) (xs : List String) (w : String)
    → Memᴰ w (map f xs)
    → (x : String) × (w ≡ f x) × Memᴰ x xs
Mem-map f [] w k = absurd (Memᴰ.not-nil k)
Mem-map f (x ∷ xs) w (Memᴰ.head e) = (x, e, Memᴰ.head refl)
Mem-map f (x ∷ xs) w (Memᴰ.tail k) = let (y, e, m) = Mem-map f xs w k in (y, e, Memᴰ.tail m)

pub map-Mem :
    (f : String → String) (xs : List String) (x : String) → Memᴰ x xs → Memᴰ (f x) (map f xs)
map-Mem f [] x k = absurd (Memᴰ.not-nil k)
map-Mem f (y ∷ xs) x (Memᴰ.head e) = Memᴰ.head (ap f e)
map-Mem f (y ∷ xs) x (Memᴰ.tail k) = Memᴰ.tail (map-Mem f xs x k)

in_either : (xs ys : List String) (x : String) → Memᴰ x xs ⊎ Memᴰ x ys → Memᴰ x (xs ++ ys)
in_either xs ys x (inl h) = Memᴰ.append_left ys h
in_either xs ys x (inr h) = Memᴰ.append_right xs h

or_later : {P Q R : Type 0} → (Q → R) → P ⊎ Q → P ⊎ R
or_later f (inl p) = inl p
or_later f (inr q) = inr (f q)

pub in_seven :
    (a b c d e f g : List String) (x : String)
    → Memᴰ x a ⊎ (Memᴰ x b ⊎ (Memᴰ x c ⊎ (Memᴰ x d ⊎ (Memᴰ x e ⊎ (Memᴰ x f ⊎ (Memᴰ x g))))))
    → Memᴰ x (a ++ (b ++ (c ++ (d ++ (e ++ (f ++ g))))))
in_seven a b c d e f g x h = in_either a _ x (
    or_later
      (λ h1. in_either b _ x (
        or_later
          (λ h2. in_either c _ x (
            or_later
              (λ h3.
                in_either d _ x
                  (or_later (λ h4. in_either e _ x (or_later (in_either f g x) h4)) h3))
              h2))
          h1))
      h)

pub All-always : {A : Type 0} (P : A → Type 0) (xs : List A) → ((x : A) → P x) → All P xs
All-always P [] h = tt
All-always P (x ∷ xs) h = (h x, All-always P xs h)
