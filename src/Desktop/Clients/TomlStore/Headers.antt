-- ===== src/Desktop/Clients/TomlStore/Headers.antt =====
-- The tests of a line are of its shape.
use open_transcribe_mcp.Base.{
  ℕ, ◌≡◌, refl, ap, sym, ◌∙◌, subst, true, false, Option, none, some, List, [], ◌∷◌, ◌++◌, ◌==◌,
  ◌||◌, All, arith, inl, inr, ◌⊎◌,
}
use open_transcribe_mcp.Desktop.Clients.TomlStore.{
  Line, after_blanks, after_prefix, is_at, starts_table, is_end, ends_header, is_header,
}
use open_transcribe_mcp.Desktop.Clients.TomlStore.Lines.{
  IsBlank, StartsTable, IsHeaderLine, IsSolid, after_blanks-split, blanks-after, solid-after,
  after_prefix-eq, prefix-after,
}

is_at-eq : (c : ℕ) (cs : List ℕ) → is_at c cs ≡ true → (rest : List ℕ) × (cs ≡ c ∷ rest)
unfolding is_at
is_at-eq c [] h = cc
is_at-eq c (d ∷ cs) h = let same : d ≡ c = ground arith in (cs, ap (λ x. x ∷ cs) same)

pub starts_table-StartsTable : (l : Line) → starts_table l ≡ true → StartsTable l
unfolding starts_table
starts_table-StartsTable l h =
    let (blanks, all, e) = after_blanks-split l in
    let (rest, bracket) = is_at-eq 91 (after_blanks l) h in
    record {
      blanks = blanks;
      rest = rest;
      are_blanks = all;
      line = e ∙ ap (λ x. blanks ++ x) bracket;
    }

pub StartsTable-starts_table : (l : Line) → StartsTable l → starts_table l ≡ true
unfolding starts_table after_blanks is_at
StartsTable-starts_table l s = rw (s.line, blanks-after s.blanks (91 ∷ s.rest) s.are_blanks) refl

is_end-ends : (cs : List ℕ) → is_end cs ≡ true → (cs ≡ []) ⊎ (cs ≡ 10 ∷ [])
unfolding is_end
is_end-ends [] h = inl refl
is_end-ends (c ∷ []) h = let same : c ≡ 10 = ground arith in inr (ap (λ x. x ∷ []) same)
is_end-ends (c ∷ d ∷ cs) h = cc

-- What is behind a header.
record Closes (cs : List ℕ) : Type 0 where
  behind : List ℕ
  after : List ℕ
  end : List ℕ
  behind_blank : All IsBlank behind
  after_blank : All IsBlank after
  ends : (end ≡ []) ⊎ (end ≡ 10 ∷ [])
  text : cs ≡ behind ++ 93 ∷ (after ++ end)

bracket-Closes :
    (cs : List ℕ) (o : Option (List ℕ))
    → after_prefix (93 ∷ []) (after_blanks cs) ≡ o
    → (elim o [ none ↦ false | some rest ↦ is_end (after_blanks rest) ]) ≡ true
    → Closes cs
bracket-Closes cs none e h = cc
bracket-Closes cs (some rest) e h =
    let (behind, behind_blank, split) = after_blanks-split cs in
    let (after, after_blank, split') = after_blanks-split rest in
    let bracket = after_prefix-eq (93 ∷ []) (after_blanks cs) rest e in
    record {
      behind = behind;
      after = after;
      end = after_blanks rest;
      behind_blank = behind_blank;
      after_blank = after_blank;
      ends = is_end-ends (after_blanks rest) h;
      text = split ∙ ap (λ x. behind ++ x) (bracket ∙ ap (λ x. 93 ∷ x) split');
    }

ends_header-Closes :
    (o : Option (List ℕ)) → ends_header o ≡ true → (cs : List ℕ) × (o ≡ some cs) × Closes cs
unfolding ends_header
ends_header-Closes none h = cc
ends_header-Closes (some cs) h =
    (cs, refl, bracket-Closes cs (after_prefix (93 ∷ []) (after_blanks cs)) refl h)

opened-IsHeaderLine :
    (header l : List ℕ) (o : Option (List ℕ))
    → after_prefix (91 ∷ []) (after_blanks l) ≡ o
    → (elim o [ none ↦ false | some rest ↦ ends_header (after_prefix header (after_blanks rest)) ])
      ≡ true
    → IsHeaderLine header l
opened-IsHeaderLine header l none e h = cc
opened-IsHeaderLine header l (some rest) e h =
    let (before, before_blank, split) = after_blanks-split l in
    let (inside, inside_blank, split') = after_blanks-split rest in
    let (cs, found, closes) = ends_header-Closes (after_prefix header (after_blanks rest)) h in
    let bracket = after_prefix-eq (91 ∷ []) (after_blanks l) rest e in
    let named = after_prefix-eq header (after_blanks rest) cs found in
    record {
      before = before;
      inside = inside;
      behind = closes.behind;
      after = closes.after;
      end = closes.end;
      before_blank = before_blank;
      inside_blank = inside_blank;
      behind_blank = closes.behind_blank;
      after_blank = closes.after_blank;
      ends = closes.ends;
      line =
          split
          ∙ ap (λ x. before ++ x)
              (bracket
                ∙ ap (λ x. 91 ∷ x)
                    (split' ∙ ap (λ x. inside ++ x) (named ∙ ap (λ x. header ++ x) closes.text)));
    }

pub is_header-IsHeaderLine : (header l : List ℕ) → is_header header l ≡ true → IsHeaderLine header l
unfolding is_header
is_header-IsHeaderLine header l h =
    opened-IsHeaderLine header l (after_prefix (91 ∷ []) (after_blanks l)) refl h

end-is_end :
    (after end : List ℕ)
    → All IsBlank after
    → (end ≡ []) ⊎ (end ≡ 10 ∷ [])
    → is_end (after_blanks (after ++ end)) ≡ true
unfolding is_end after_blanks
end-is_end after end all (inl e) = rw (blanks-after after end all, e) refl
end-is_end after end all (inr e) = rw (blanks-after after end all, e) refl

bracket-closed :
    (o : Option (List ℕ)) (rest : List ℕ)
    → o ≡ some rest
    → is_end (after_blanks rest) ≡ true
    → (elim o [ none ↦ false | some rest' ↦ is_end (after_blanks rest') ]) ≡ true
bracket-closed none rest e h = cc
bracket-closed (some x) rest e h = let same : x ≡ rest = cc in rw same h

bracket-after :
    (c : ℕ) (blanks rest : List ℕ)
    → All IsBlank blanks
    → (c == 32 || c == 9) ≡ false
    → after_prefix (c ∷ []) (after_blanks (blanks ++ c ∷ rest)) ≡ some rest
unfolding after_blanks
bracket-after c blanks rest all other =
    let start : after_blanks (c ∷ rest) ≡ c ∷ rest = rw other refl in
    ap (after_prefix (c ∷ [])) (blanks-after blanks (c ∷ rest) all ∙ start)
    ∙ prefix-after (c ∷ []) rest

closed-ends_header :
    (behind after end : List ℕ)
    → All IsBlank behind
    → All IsBlank after
    → (end ≡ []) ⊎ (end ≡ 10 ∷ [])
    → ends_header (some (behind ++ 93 ∷ (after ++ end))) ≡ true
unfolding ends_header
closed-ends_header behind after end b a e =
    bracket-closed _ (after ++ end) (bracket-after 93 behind (after ++ end) b refl)
      (end-is_end after end a e)

opening :
    (header : List ℕ) (o : Option (List ℕ)) (rest : List ℕ)
    → o ≡ some rest
    → ends_header (after_prefix header (after_blanks rest)) ≡ true
    → (elim o [
      | none ↦ false
      | some rest' ↦ ends_header (after_prefix header (after_blanks rest'))
    ])
      ≡ true
opening header none rest e h = cc
opening header (some x) rest e h = let same : x ≡ rest = cc in rw same h

pub IsHeaderLine-is_header :
    (header l : List ℕ) → IsSolid header → IsHeaderLine header l → is_header header l ≡ true
unfolding is_header
IsHeaderLine-is_header header l h s =
    let close = s.behind ++ 93 ∷ (s.after ++ s.end) in
    let found : after_prefix header (after_blanks (s.inside ++ (header ++ close))) ≡ some close =
      ap (after_prefix header)
        (blanks-after s.inside (header ++ close) s.inside_blank ∙ solid-after header close h)
      ∙ prefix-after header close in
    let opened : after_prefix (91 ∷ []) (after_blanks l) ≡ some (s.inside ++ (header ++ close)) =
      ap (λ x. after_prefix (91 ∷ []) (after_blanks x)) s.line
      ∙ bracket-after 91 s.before (s.inside ++ (header ++ close)) s.before_blank refl in
    opening header _ (s.inside ++ (header ++ close)) opened (
      subst (λ o. ends_header o ≡ true) (sym found)
        (closed-ends_header s.behind s.after s.end s.behind_blank s.after_blank s.ends))
