-- ===== src/Base/Orders.antt =====
-- Predicates over lists that are in another order, or cut in two.
use Prim.Native.Nat.{ℕ, zero, suc, min}
use mathlib.Core.Path.{◌≡◌, refl, ◌∙◌, ap}
use mathlib.Core.Bool.{Bool, true, ◌||◌}
use mathlib.Core.Logic.{inl, inr}
use mathlib.Core.List.{List, [], ◌∷◌, ◌++◌, map}
use native.Mathlib.Omega.{arith}
use jiffy_messaging.Base.Tests.{Bool-cases}
use jiffy_messaging.Base.Lists.{length, take, any, keep_if, All}

-- The same elements, each as often, in any order. The library's `Perm` says so only as a
-- proposition; this one is data, on which predicates are carried over by recursion.
pub data Rearranged {ℓ} {A : Type ℓ} : List A → List A → Type ℓ where
  nil : Rearranged [] []
  cons : (x : A) {xs ys : List A} → Rearranged xs ys → Rearranged (x ∷ xs) (x ∷ ys)
  swap : (x y : A) (xs : List A) → Rearranged (x ∷ y ∷ xs) (y ∷ x ∷ xs)
  trans : {xs ys zs : List A} → Rearranged xs ys → Rearranged ys zs → Rearranged xs zs

module _ {ℓ κ} {A : Type ℓ} (P : A → Type κ) where
  pub All-Rearranged : {xs ys : List A} → Rearranged xs ys → All P xs → All P ys
  All-Rearranged nil h = h
  All-Rearranged (cons x d) (p, h) = (p, All-Rearranged d h)
  All-Rearranged (swap x y xs) (p, (q, h)) = (q, (p, h))
  All-Rearranged (trans d e) h = All-Rearranged e (All-Rearranged d h)

  pub All-take : (n : ℕ) (xs : List A) → All P xs → All P (take n xs)
  All-take zero xs h = tt
  All-take (suc n) [] h = tt
  All-take (suc n) (x ∷ xs) (p, h) = (p, All-take n xs h)

  pub All-left : (xs ys : List A) → All P (xs ++ ys) → All P xs
  All-left [] ys h = tt
  All-left (x ∷ xs) ys (p, h) = (p, All-left xs ys h)

  pub All-right : (xs ys : List A) → All P (xs ++ ys) → All P ys
  All-right [] ys h = h
  All-right (x ∷ xs) ys (p, h) = All-right xs ys h

module _ {ℓ} {A : Type ℓ} where
  pub Rearranged-refl : (xs : List A) → Rearranged xs xs
  Rearranged-refl [] = nil
  Rearranged-refl (x ∷ xs) = cons x (Rearranged-refl xs)

  pub Rearranged-sym : {xs ys : List A} → Rearranged xs ys → Rearranged ys xs
  Rearranged-sym nil = nil
  Rearranged-sym (cons x d) = cons x (Rearranged-sym d)
  Rearranged-sym (swap x y xs) = swap y x xs
  Rearranged-sym (trans d e) = trans (Rearranged-sym e) (Rearranged-sym d)

  pub Rearranged-append :
      {xs ys : List A} (zs : List A) → Rearranged xs ys → Rearranged (xs ++ zs) (ys ++ zs)
  Rearranged-append zs nil = Rearranged-refl zs
  Rearranged-append zs (cons x d) = cons x (Rearranged-append zs d)
  Rearranged-append zs (swap x y xs) = swap x y (xs ++ zs)
  Rearranged-append zs (trans d e) = trans (Rearranged-append zs d) (Rearranged-append zs e)

  pub length-Rearranged : {xs ys : List A} → Rearranged xs ys → length xs ≡ length ys
  length-Rearranged nil = refl
  length-Rearranged (cons x d) = ap suc (length-Rearranged d)
  length-Rearranged (swap x y xs) = refl
  length-Rearranged (trans d e) = length-Rearranged d ∙ length-Rearranged e

  pub any-Rearranged : (p : A → Bool) {xs ys : List A} → Rearranged xs ys → any p xs ≡ any p ys
  any-Rearranged p nil = refl
  any-Rearranged p (cons x d) = ap (λ b. p x || b) (any-Rearranged p d)
  any-Rearranged p (swap x y xs) = ground arith
  any-Rearranged p (trans d e) = any-Rearranged p d ∙ any-Rearranged p e

  pub keep_if-Rearranged :
      (p : A → Bool) {xs ys : List A} → Rearranged xs ys → Rearranged (keep_if p xs) (keep_if p ys)
  keep_if-Rearranged p nil = nil
  keep_if-Rearranged p (cons x d) = elim (Bool-cases (p x)) [
    | inl kept ↦ rw kept (cons x (keep_if-Rearranged p d))
    | inr gone ↦ rw gone (keep_if-Rearranged p d)
  ]
  keep_if-Rearranged p (swap x y xs) = elim (Bool-cases (p x)) [
    | inl kept ↦ (elim (Bool-cases (p y)) [
      | inl too ↦ rw (kept, too) (swap x y (keep_if p xs))
      | inr gone ↦ rw (kept, gone) (Rearranged-refl _)
    ])
    | inr gone ↦ rw gone (Rearranged-refl _)
  ]
  keep_if-Rearranged p (trans d e) = trans (keep_if-Rearranged p d) (keep_if-Rearranged p e)

  pub map-Rearranged {κ} :
      {B : Type κ} (f : A → B) {xs ys : List A}
      → Rearranged xs ys
      → Rearranged (map f xs) (map f ys)
  map-Rearranged f nil = nil
  map-Rearranged f (cons x d) = cons (f x) (map-Rearranged f d)
  map-Rearranged f (swap x y xs) = swap (f x) (f y) (map f xs)
  map-Rearranged f (trans d e) = trans (map-Rearranged f d) (map-Rearranged f e)

  pub length-take : (n : ℕ) (xs : List A) → length (take n xs) ≡ min n (length xs)
  length-take zero xs = omega arith
  length-take (suc n) [] = omega arith
  length-take (suc n) (x ∷ xs) = omega (arith, length-take n xs)

  pub length-map {κ} : {B : Type κ} (f : A → B) (xs : List A) → length (map f xs) ≡ length xs
  length-map f [] = refl
  length-map f (x ∷ xs) = ap suc (length-map f xs)

  -- What holds of the kept elements: the test, and what held of all.
  pub All-keep_if_both {κ} :
      (P Q : A → Type κ) (p : A → Bool)
      → ((x : A) → P x → p x ≡ true → Q x)
      → (xs : List A) → All P xs
      → All Q (keep_if p xs)
  All-keep_if_both P Q p f [] h = tt
  All-keep_if_both P Q p f (x ∷ xs) (a, h) = ground (arith, f x a, All-keep_if_both P Q p f xs h)
