-- ===== src/Desktop/Setup/Progress.antt =====
-- How the setup runs (desktop/setup.py): its steps change the world and the journal in memory, and
-- each goes on, returns an outcome early, or raises.
use open_transcribe_mcp.Desktop.Errors.{Failure}
use open_transcribe_mcp.Desktop.Journal.{InstallJournal}
use open_transcribe_mcp.Desktop.Setup.{World, ApplyOutcome}

pub record Session (S : Type 0) : Type 0 where
  pub world : World S
  pub journal : InstallJournal

pub data Progress (A : Type 0) : Type 0 where
  go : A → Progress A
  returned : ApplyOutcome → Progress A
  escaped : Failure → Progress A

module _ {S : Type 0} where
  unfoldable pub onward :
      {A B : Type 0}
      → Session S
      → Progress A
      → (A → Session S → Session S × Progress B)
      → Session S × Progress B
  onward s (go a) next = next a s
  onward s (returned o) next = (s, returned o)
  onward s (escaped f) next = (s, escaped f)

  -- except ...: the handler sees what was raised.
  unfoldable pub except :
      {A : Type 0}
      → Session S
      → Progress A
      → (Failure → Session S → Session S × Progress A)
      → Session S × Progress A
  except s (escaped f) handler = handler f s
  except s (go a) handler = (s, go a)
  except s (returned o) handler = (s, returned o)

infixl 5 ◌>>>◌
abbrev pub ◌>>>◌ :
    {S A B : Type 0}
    → Session S × Progress A
    → (A → Session S → Session S × Progress B)
    → Session S × Progress B
q >>> next = onward q.0 q.1 next

-- What holds of the session at the end of a step, `P` where it goes on and `Q` where it returns.
unfoldable pub Ends :
    {S A : Type 0}
    → (A → Session S → Type 0)
    → (ApplyOutcome → Session S → Type 0)
    → (Failure → Session S → Type 0)
    → Session S
    → Progress A
    → Type 0
Ends P Q R s (go a) = P a s
Ends P Q R s (returned o) = Q o s
Ends P Q R s (escaped f) = R f s

module _ {S : Type 0} (Q : ApplyOutcome → Session S → Type 0)
    (R : Failure → Session S → Type 0) where
  pub Ends-onward :
      {A B : Type 0} (P : A → Session S → Type 0) (P' : B → Session S → Type 0) (s : Session S)
      (m : Progress A) (next : A → Session S → Session S × Progress B)
      → Ends P Q R s m
      → ((a : A) (s' : Session S) → P a s' → Ends P' Q R (next a s').0 (next a s').1)
      → Ends P' Q R (onward s m next).0 (onward s m next).1
  unfolding Ends onward
  Ends-onward P P' s (go a) next h step = step a s h
  Ends-onward P P' s (returned o) next h step = h
  Ends-onward P P' s (escaped f) next h step = h

  pub Ends-except :
      {A : Type 0} (P : A → Session S → Type 0) (R' : Failure → Session S → Type 0) (s : Session S)
      (m : Progress A) (handler : Failure → Session S → Session S × Progress A)
      → Ends P Q R' s m
      → ((f : Failure) (s' : Session S) → R' f s' → Ends P Q R (handler f s').0 (handler f s').1)
      → Ends P Q R (except s m handler).0 (except s m handler).1
  unfolding Ends except
  Ends-except P R' s (go a) handler h step = h
  Ends-except P R' s (returned o) handler h step = h
  Ends-except P R' s (escaped f) handler h step = step f s h

module _ {S A : Type 0} where
  pub Ends-map :
      (P P' : A → Session S → Type 0) (Q Q' : ApplyOutcome → Session S → Type 0)
      (R R' : Failure → Session S → Type 0) (s : Session S) (m : Progress A)
      → Ends P Q R s m
      → ((a : A) (s' : Session S) → P a s' → P' a s')
      → ((o : ApplyOutcome) (s' : Session S) → Q o s' → Q' o s')
      → ((f : Failure) (s' : Session S) → R f s' → R' f s')
      → Ends P' Q' R' s m
  unfolding Ends
  Ends-map P P' Q Q' R R' s (go a) h p q r = p a s h
  Ends-map P P' Q Q' R R' s (returned o) h p q r = q o s h
  Ends-map P P' Q Q' R R' s (escaped f) h p q r = r f s h

  pub Ends-go :
      (P : A → Session S → Type 0) (Q : ApplyOutcome → Session S → Type 0)
      (R : Failure → Session S → Type 0) (a : A) (s : Session S)
      → P a s
      → Ends P Q R s (go a)
  unfolding Ends
  Ends-go P Q R a s h = h

  pub Ends-returned :
      (P : A → Session S → Type 0) (Q : ApplyOutcome → Session S → Type 0)
      (R : Failure → Session S → Type 0) (o : ApplyOutcome) (s : Session S)
      → Q o s
      → Ends P Q R s (returned o)
  unfolding Ends
  Ends-returned P Q R o s h = h
