-- ===== src/Text/Order.antt =====
-- The order of JavaScript's texts, by the codes of their characters, and `Array.sort` on texts. For
-- texts with characters beyond U+FFFF the order of JavaScript is another.
use Prim.Native.Char.{code}
use jiffy_messaging.Base.{
  ◌≡◌, refl, String, Bool, true, false, List, [], ◌∷◌, arith, ltb, if◌then◌else◌, All, Rearranged,
  Rearranged-refl, Bool-cases, inl, inr, All-map,
}

unfoldable pub is_at_most : String → String → Bool
is_at_most String.[] t = true
is_at_most (String.◌∷◌ c s) String.[] = false
is_at_most (String.◌∷◌ c s) (String.◌∷◌ d t) =
    let rest = is_at_most s t in
    if ltb (code c) (code d) then true else if ltb (code d) (code c) then false else rest

is_at_most_total : (s t : String) → is_at_most s t ≡ false → is_at_most t s ≡ true
unfolding is_at_most
is_at_most_total String.[] t h = ground arith
is_at_most_total (String.◌∷◌ c s) String.[] h = refl
is_at_most_total (String.◌∷◌ c s) (String.◌∷◌ d t) h = ground (arith, is_at_most_total s t)

is_at_most_trans :
    (s t u : String) → is_at_most s t ≡ true → is_at_most t u ≡ true → is_at_most s u ≡ true
unfolding is_at_most
is_at_most_trans String.[] t u h k = refl
is_at_most_trans (String.◌∷◌ c s) String.[] u h k = ground arith
is_at_most_trans (String.◌∷◌ c s) (String.◌∷◌ d t) String.[] h k = ground arith
is_at_most_trans (String.◌∷◌ c s) (String.◌∷◌ d t) (String.◌∷◌ e u) h k =
    ground (arith, is_at_most_trans s t u)

unfoldable pub insert_text : String → List String → List String
insert_text s [] = s ∷ []
insert_text s (t ∷ ts) =
    let rest = insert_text s ts in if is_at_most s t then s ∷ t ∷ ts else t ∷ rest

unfoldable pub sort_texts : List String → List String
unfolding insert_text
sort_texts [] = []
sort_texts (t ∷ ts) = insert_text t (sort_texts ts)

abbrev pub IsSorted : List String → Type 0
IsSorted [] = Unit
IsSorted (t ∷ ts) = All (λ u. is_at_most t u ≡ true) ts × IsSorted ts

from_insert :
    (a s : String) (ts : List String)
    → is_at_most a s ≡ true
    → All (λ u. is_at_most a u ≡ true) ts
    → All (λ u. is_at_most a u ≡ true) (insert_text s ts)
unfolding insert_text
from_insert a s [] p h = (p, tt)
from_insert a s (t ∷ ts) p (q, h) = ground (arith, from_insert a s ts p h)

insert-IsSorted : (s : String) (ts : List String) → IsSorted ts → IsSorted (insert_text s ts)
unfolding insert_text
insert-IsSorted s [] h = (tt, tt)
insert-IsSorted s (t ∷ ts) (q, h) = elim (Bool-cases (is_at_most s t)) [
  | inl before ↦
      rw before ((before, All-map _ _ (λ u k. is_at_most_trans s t u before k) ts q), (q, h))
  | inr behind ↦
      rw behind (from_insert t s ts (is_at_most_total s t behind) q, insert-IsSorted s ts h)
]

pub sort-IsSorted : (ts : List String) → IsSorted (sort_texts ts)
unfolding sort_texts
sort-IsSorted [] = tt
sort-IsSorted (t ∷ ts) = insert-IsSorted t (sort_texts ts) (sort-IsSorted ts)

insert-Rearranged : (s : String) (ts : List String) → Rearranged (insert_text s ts) (s ∷ ts)
unfolding insert_text
insert-Rearranged s [] = Rearranged.cons s Rearranged.nil
insert-Rearranged s (t ∷ ts) = elim (Bool-cases (is_at_most s t)) [
  | inl before ↦ rw before (Rearranged-refl (s ∷ t ∷ ts))
  | inr behind ↦
      rw behind
        (Rearranged.trans (Rearranged.cons t (insert-Rearranged s ts)) (Rearranged.swap t s ts))
]

pub sort-Rearranged : (ts : List String) → Rearranged (sort_texts ts) ts
unfolding sort_texts
sort-Rearranged [] = Rearranged.nil
sort-Rearranged (t ∷ ts) =
    Rearranged.trans (insert-Rearranged t (sort_texts ts)) (Rearranged.cons t (sort-Rearranged ts))
