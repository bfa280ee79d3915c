-- ===== src/Exec.antt =====
-- Asynchronous methods that mutate state and may throw. What was written before a throw stays
-- written, so the state comes back beside an error too.
pub mod Laws
use jiffy_messaging.Errors.{Error}

pub data Result {ℓ} (A : Type ℓ) : Type ℓ where
  ok : A → Result A
  err : Error → Result A

abbrev pub Exec {ℓ} : Type ℓ → Type ℓ → Type ℓ
Exec S A = S → Result A × S

module _ {ℓ} {S A : Type ℓ} where
  abbrev pub pure : A → Exec S A
  pure a s = (ok a, s)

  abbrev pub throw : Error → Exec S A
  throw e s = (err e, s)

module _ {ℓ} {S A B : Type ℓ} where
  abbrev pub continue : (A → Exec S B) → Result A → S → Result B × S
  continue f (ok a) s = f a s
  continue f (err e) s = (err e, s)

  infixl 5 ◌>>=◌ ◌>>◌
  abbrev pub ◌>>=◌ : Exec S A → (A → Exec S B) → Exec S B
  ◌>>=◌ m f s = continue f (m s).0 (m s).1

  abbrev pub ◌>>◌ : Exec S A → Exec S B → Exec S B
  ◌>>◌ m n s = continue (λ _. n) (m s).0 (m s).1

-- `void p.catch(() => {})`: what `p` did stays done, and its failure is dropped.
unfoldable pub detached : {S A : Type 0} → Exec S A → Exec S (Unit {0})
detached m s = (ok tt, (m s).1)
