-- ===== src/Run.antt =====
-- Methods that change an object and may fail: what was changed before the failure stays changed.
use ntee_db.Result.{Error, Result, ok, err}

abbrev pub Run : Type 0 → Type 0 → Type 0
Run S A = S → Result A × S

module _ {S A B : Type 0} where
  abbrev pub continue : Result A × S → (A → Run S B) → Result B × S
  continue (ok a, s) f = f a s
  continue (err e, s) f = (err e, s)

  infixl 10 ◌>>=◌ ◌>>◌
  abbrev pub ◌>>=◌ : Run S A → (A → Run S B) → Run S B
  ◌>>=◌ m f s = continue (m s) f

  abbrev pub ◌>>◌ : Run S A → Run S B → Run S B
  ◌>>◌ m n s = continue (m s) (λ _. n)

module _ {S A : Type 0} where
  abbrev pub pure : A → Run S A
  pure a s = (ok a, s)

  abbrev pub fail : Error → Run S A
  fail e s = (err e, s)

  abbrev pub lift : Result A → Run S A
  lift r s = (r, s)
