-- ===== src/Domain/Outcomes.antt =====
-- How a successful result came about.
use open_transcribe_mcp.Base.{◌≡◌, refl, Bool, true, false, if◌then◌else◌}
use open_transcribe_mcp.Domain.Errors.{Result, ok, err, Exception, ◌>>=◌}

module _ {ℓ κ} {A : Type ℓ} {B : Type κ} where
  pub >>=-eq-ok :
      (first : Result A) (next : A → Result B) {answer : B}
      → (first >>= next) ≡ ok answer
      → (x : A) × (first ≡ ok x) × (next x ≡ ok answer)
  >>=-eq-ok (err failure) next e = cc
  >>=-eq-ok (ok x) next e = (x, refl, e)

pub ok-injective : {A : Type 0} {a b : A} → ◌≡◌ {A = Result A} (ok a) (ok b) → a ≡ b
ok-injective e = cc

pub err-ne-ok : {A : Type 0} {x : Exception} {a : A} → ◌≡◌ {A = Result A} (err x) (ok a) → ⊥
err-ne-ok e = cc

-- A refusal that did not happen.
pub if-err-ok :
    {A : Type 0} (b : Bool) (x : Exception) {y z : A} → (if b then err x else ok y) ≡ ok z → y ≡ z
if-err-ok true x e = absurd (err-ne-ok e)
if-err-ok false x e = ok-injective e
