-- ===== src/Exec/Laws.antt =====
-- Inversion of a step that succeeds, and the state after actions that change none.
use jiffy_messaging.Base.{◌≡◌, ◌⊎◌, inl, inr, refl, arith}
use jiffy_messaging.Errors.{Error}
use jiffy_messaging.Exec.{Result, ok, err, Exec, pure, continue, ◌>>=◌}

module _ {S A B : Type 0} where
  continue-eq-ok :
      (f : A → Exec S B) (r : Result A) (s : S) {b : B} {s' : S}
      → continue f r s ≡ (ok b, s')
      → (a : A) × (r ≡ ok a) × (f a s ≡ (ok b, s'))
  continue-eq-ok f (ok a) s h = (a, refl, h)
  continue-eq-ok f (err e) s h = ground arith

  -- If a chain returns then so do its first step and the rest after it.
  pub >>=-eq-ok :
      (m : Exec S A) (f : A → Exec S B) (s : S) {b : B} {s' : S}
      → (m >>= f) s ≡ (ok b, s')
      → (a : A) × (s1 : S) × (m s ≡ (ok a, s1)) × (f a s1 ≡ (ok b, s'))
  >>=-eq-ok m f s h =
      let (a, e, k) = continue-eq-ok f (m s).0 (m s).1 h in (a, (m s).1, (λ i. (e i, (m s).1)), k)

pub pure-eq-ok : {S A : Type 0} (a b : A) (s s' : S) → pure a s ≡ (ok b, s') → (a ≡ b) × (s ≡ s')
pure-eq-ok a b s s' h = ground arith

pub Result-cases :
    {A : Type 0} (r : Result A) → ((a : A) × (r ≡ ok a)) ⊎ ((e : Error) × (r ≡ err e))
Result-cases (ok a) = inl (a, refl)
Result-cases (err e) = inr (e, refl)

-- What is to be shown of the end of a chain, by how its first step ended.
pub continue_cases :
    {S A B : Type 0} (Q : Result B × S → Type 0) (f : A → Exec S B) (r : Result A) (s : S)
    → ((a : A) → r ≡ ok a → Q (f a s))
    → ((e : Error) → r ≡ err e → Q (err e, s))
    → Q (continue f r s)
continue_cases Q f (ok a) s on_ok on_err = on_ok a refl
continue_cases Q f (err e) s on_ok on_err = on_err e refl
