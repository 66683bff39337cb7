-- ===== src/Desktop/Journal/Settled.antt =====
-- What the journal owns: each resource once, and just those that were claimed and not given up.
use open_transcribe_mcp.Base.{
  ◌≡◌, ◌↔◌, refl, ◌∙◌, sym, String, Bool, true, false, ◌&&◌, ◌||◌, List, [], ◌∷◌, ◌++◌, str_eq,
  arith, Bool-cases, inl, inr, eq_iff, if◌then◌else◌, subst,
}
use open_transcribe_mcp.Desktop.Journal.{
  ResourceKind, kind_eq, OwnedResource, InstallJournal, is_resource, pop_first, disown, own,
  any_resource, owns,
}

-- No resource is listed twice.
abbrev pub IsUnique : List OwnedResource → Type 0
IsUnique [] = Unit
IsUnique (r ∷ rs) = (any_resource r.kind r.identifier rs ≡ false) × IsUnique rs

same_kind : (a b : ResourceKind) → kind_eq a b ≡ true → a ≡ b
unfolding kind_eq
same_kind ResourceKind.config ResourceKind.config h = refl
same_kind ResourceKind.credential ResourceKind.credential h = refl
same_kind ResourceKind.client_registration ResourceKind.client_registration h = refl
same_kind ResourceKind.client_asset ResourceKind.client_asset h = refl
same_kind ResourceKind.cleanup_timer ResourceKind.cleanup_timer h = refl
same_kind ResourceKind.temporary_audio_area ResourceKind.temporary_audio_area h = refl
same_kind _ _ h = cc

kind_eq_refl : (a : ResourceKind) → kind_eq a a ≡ true
unfolding kind_eq
kind_eq_refl ResourceKind.config = refl
kind_eq_refl ResourceKind.credential = refl
kind_eq_refl ResourceKind.client_registration = refl
kind_eq_refl ResourceKind.client_asset = refl
kind_eq_refl ResourceKind.cleanup_timer = refl
kind_eq_refl ResourceKind.temporary_audio_area = refl

kind_iff : (a b : ResourceKind) → (kind_eq a b ≡ true) ↔ (a ≡ b)
kind_iff a b = (same_kind a b, λ e. rw e (kind_eq_refl b))

-- A resource is at a kind and an identifier just if both are its own.
is_resource-eq :
    (k : ResourceKind) (i : String) (r : OwnedResource)
    → is_resource k i r ≡ true
    → (r.kind ≡ k) × (r.identifier ≡ i)
unfolding is_resource
is_resource-eq k i r h =
    ((kind_iff r.kind k).0 (ground arith), (eq_iff r.identifier i).0 (ground arith))

-- What holds of a resource's own place holds at any place it is at.
at_place :
    (k : ResourceKind) (i : String) (r : OwnedResource) (rs : List OwnedResource) (b : Bool)
    → is_resource k i r ≡ true
    → any_resource r.kind r.identifier rs ≡ b
    → any_resource k i rs ≡ b
at_place k i r rs b h e =
    let (e1, e2) = is_resource-eq k i r h in
    subst (λ y. any_resource k y rs ≡ b) e2 (subst (λ x. any_resource x r.identifier rs ≡ b) e1 e)

pop_first-none :
    (k : ResourceKind) (i : String) (rs : List OwnedResource)
    → IsUnique rs
    → any_resource k i (pop_first k i rs) ≡ false
unfolding any_resource pop_first
pop_first-none k i [] u = refl
pop_first-none k i (r ∷ rs) (fresh, u) = elim (Bool-cases (is_resource k i r)) [
  | inl same ↦ rw same (at_place k i r rs false same fresh)
  | inr other ↦ let rest = pop_first-none k i rs u in ground arith
]

-- Two places are the same.
abbrev pub same_place : ResourceKind → String → ResourceKind → String → Bool
same_place k i k' i' = kind_eq k' k && str_eq i' i

elsewhere :
    (k k' : ResourceKind) (i i' : String) (r : OwnedResource)
    → same_place k i k' i' ≡ false
    → is_resource k' i' r ≡ true
    → is_resource k i r ≡ false
unfolding is_resource
elsewhere k k' i i' r apart h =
    let (e1, e2) = is_resource-eq k' i' r h in
    subst (λ y. (kind_eq r.kind k && str_eq y i) ≡ false) (sym e2)
      (subst (λ x. (kind_eq x k && str_eq i' i) ≡ false) (sym e1) apart)

pop_first-other :
    (k k' : ResourceKind) (i i' : String) (rs : List OwnedResource)
    → same_place k i k' i' ≡ false
    → any_resource k i (pop_first k' i' rs) ≡ any_resource k i rs
unfolding any_resource pop_first
pop_first-other k k' i i' [] apart = refl
pop_first-other k k' i i' (r ∷ rs) apart = elim (Bool-cases (is_resource k' i' r)) [
  | inl same ↦ let here = elsewhere k k' i i' r apart same in rw (same, here) refl
  | inr other ↦ let rest = pop_first-other k k' i i' rs apart in ground arith
]

or_false : (a b : Bool) → (a || b) ≡ false → (a ≡ false) × (b ≡ false)
or_false true b h = cc
or_false false b h = (refl, h)

pop_first-fewer :
    (k k' : ResourceKind) (i i' : String) (rs : List OwnedResource)
    → any_resource k i rs ≡ false
    → any_resource k i (pop_first k' i' rs) ≡ false
unfolding any_resource pop_first
pop_first-fewer k k' i i' [] h = refl
pop_first-fewer k k' i i' (r ∷ rs) h =
    let (out, outs) = or_false (is_resource k i r) (any_resource k i rs) h in
    elim (Bool-cases (is_resource k' i' r)) [
      | inl same ↦ rw same outs
      | inr other ↦ rw (other, out) (pop_first-fewer k k' i i' rs outs)
    ]

pop_first-IsUnique :
    (k : ResourceKind) (i : String) (rs : List OwnedResource)
    → IsUnique rs
    → IsUnique (pop_first k i rs)
unfolding pop_first
pop_first-IsUnique k i [] u = tt
pop_first-IsUnique k i (r ∷ rs) (fresh, u) = elim (Bool-cases (is_resource k i r)) [
  | inl same ↦ rw same u
  | inr other ↦
      rw other (pop_first-fewer r.kind k r.identifier i rs fresh, pop_first-IsUnique k i rs u)
]

any_resource-append :
    (k : ResourceKind) (i : String) (rs : List OwnedResource) (r : OwnedResource)
    → any_resource k i (rs ++ r ∷ []) ≡ (any_resource k i rs || is_resource k i r)
unfolding any_resource
any_resource-append k i [] r = ground arith
any_resource-append k i (x ∷ rs) r = ground (arith, any_resource-append k i rs r)

append-IsUnique :
    (rs : List OwnedResource) (r : OwnedResource)
    → IsUnique rs
    → any_resource r.kind r.identifier rs ≡ false
    → IsUnique (rs ++ r ∷ [])
unfolding any_resource
append-IsUnique [] r u h = (refl, tt)
append-IsUnique (x ∷ rs) r (fresh, u) h =
    let apart : is_resource x.kind x.identifier r ≡ false =
      elim (Bool-cases (is_resource x.kind x.identifier r)) [
        | inl same ↦
            let (e1, e2) = is_resource-eq x.kind x.identifier r same in
            let here : is_resource r.kind r.identifier x ≡ true =
              unfold is_resource in
              rw (e1, e2) (ground (arith, kind_eq_refl x.kind, eq_iff x.identifier x.identifier)) in
            absurd (ground arith)
        | inr other ↦ other
      ] in
    (
      any_resource-append x.kind x.identifier rs r ∙ ground arith,
      append-IsUnique rs r u (ground arith),
    )

-- What a change of the journal leaves owned: `expected` says at each place whether it is owned.
pub record IsLedger (j : InstallJournal) (expected : ResourceKind → String → Bool) : Type 0 where
  pub unique : IsUnique j.owned
  pub exact : (k : ResourceKind) (i : String) → owns k i j ≡ expected k i

-- In a journal that lists no resource twice, giving up a resource leaves exactly the others owned,
-- and again none twice.
pub disown-IsLedger :
    (k' : ResourceKind) (i' : String) (j : InstallJournal)
    → IsUnique j.owned
    → IsLedger (disown k' i' j) (λ k i. if same_place k i k' i' then false else owns k i j)
unfolding disown owns
disown-IsLedger k' i' j u = record {
  unique = pop_first-IsUnique k' i' j.owned u;
  exact = λ k i. elim (Bool-cases (same_place k i k' i')) [
    | inl same ↦
        let e1 = (kind_iff k' k).0 (ground arith) in
        let e2 = (eq_iff i' i).0 (ground arith) in
        rw same (
          subst (λ y. any_resource k y (pop_first k' i' j.owned) ≡ false) e2
            (subst (λ x. any_resource x i' (pop_first k' i' j.owned) ≡ false) e1
              (pop_first-none k' i' j.owned u)))
    | inr apart ↦ rw apart (pop_first-other k k' i i' j.owned apart)
  ];
}

-- In a journal that lists no resource twice, claiming a resource leaves it and what was owned
-- before owned, nothing else, and again none twice, also when it was owned already.
pub own-IsLedger :
    (r : OwnedResource) (j : InstallJournal)
    → IsUnique j.owned
    → IsLedger (own r j) (λ k i. is_resource k i r || owns k i j)
unfolding own owns is_resource
own-IsLedger r j u =
    let given_up = disown-IsLedger r.kind r.identifier j u in
    record {
      unique = append-IsUnique _ r given_up.unique (pop_first-none r.kind r.identifier j.owned u);
      exact = λ k i.
          any_resource-append k i (pop_first r.kind r.identifier j.owned) r
          ∙ placed k i (given_up.exact k i);
    }
  where
    placed :
        (k : ResourceKind) (i : String)
        → owns k i (disown r.kind r.identifier j)
          ≡ (if same_place k i r.kind r.identifier then false else owns k i j)
        → (any_resource k i (pop_first r.kind r.identifier j.owned) || is_resource k i r)
          ≡ (is_resource k i r || any_resource k i j.owned)
    placed k i e = unfold disown owns in ground arith
