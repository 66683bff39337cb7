-- ===== src/Providers/Normalization/Speakers.antt =====
-- A speaker keeps the name given first, and other speakers' names are not touched.
use open_transcribe_mcp.Base.{ℕ, ◌≡◌, refl, length, String, Option, none, some, arith, eq_iff}
use open_transcribe_mcp.Base.Dict.{lookup, lookup-insert, lookup-insert_self}
use open_transcribe_mcp.Providers.Normalization.{SpeakerNormalizer, normalize, known_or_new, label}

module _ (two_digits : ℕ → String) where
  -- From now on the speaker has this name, and whoever had a name has it still.
  pub record IsNamed (value : String) (s s' : SpeakerNormalizer) (name : String) : Type 0 where
    pub remembered : lookup value s' ≡ some name
    pub kept : (other known : String) → lookup other s ≡ some known → lookup other s' ≡ some known
    pub again : normalize two_digits value s' ≡ (s', name)

  known_or_new-IsNamed :
      (value : String) (s : SpeakerNormalizer) (o : Option String)
      → lookup value s ≡ o
      → IsNamed value s (known_or_new two_digits value s o).0 (known_or_new two_digits value s o).1
  unfolding known_or_new normalize
  known_or_new-IsNamed value s (some name) e = record {
    remembered = e;
    kept = λ other known h. h;
    again = rw e refl;
  }
  known_or_new-IsNamed value s none e = record {
    remembered = lookup-insert_self value _ s;
    kept = λ other known h.
        ground
          (arith, lookup-insert value other (label two_digits (length s)) s, eq_iff value other);
    again = rw (lookup-insert_self value (label two_digits (length s)) s) refl;
  }

-- Whatever speakers were met before, naming one gives it a name that it keeps: asking again gives
-- the same name and changes nothing, and every speaker named before has its name still.
pub normalize-IsNamed :
    (two_digits : ℕ → String) (value : String) (s : SpeakerNormalizer)
    → IsNamed two_digits value s (normalize two_digits value s).0 (normalize two_digits value s).1
unfolding normalize
normalize-IsNamed two_digits value s = known_or_new-IsNamed two_digits value s (lookup value s) refl
