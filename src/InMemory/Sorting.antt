-- ===== src/InMemory/Sorting.antt =====
-- The stable sort by `createdAt` of src/adapters/in-memory/message-store.ts.
use mathlib.Core.List.{Perm}
use mathlib.Core.List.Perm
use jiffy_messaging.Base.{
  ℕ, ◌≤◌, ◌≡◌, refl, Bool, true, List, [], ◌∷◌, ◌++◌, arith, keep_if, drop, leb, All, All-keep_if,
  if◌then◌else◌, Bool-cases, inl, inr, false,
}
use jiffy_messaging.Domain.{Instant, Message}
use jiffy_messaging.Ports.Listing.{IsOldestFirst}
use jiffy_messaging.InMemory.{insert_by_created_at, sort_by_created_at}

module _ (a : Instant) where
  from_insert :
      (m : Message) (ms : List Message)
      → a ≤ m.created_at
      → All (λ n. a ≤ n.created_at) ms
      → All (λ n. a ≤ n.created_at) (insert_by_created_at m ms)
  unfolding insert_by_created_at
  from_insert m [] p h = (p, tt)
  from_insert m (n ∷ ns) p (q, h) = ground (arith, from_insert m ns p h)

from_weaken :
    (a b : Instant) (ms : List Message)
    → a ≤ b
    → All (λ n. b ≤ n.created_at) ms
    → All (λ n. a ≤ n.created_at) ms
from_weaken a b [] p h = tt
from_weaken a b (m ∷ ms) p (q, h) = (omega arith, from_weaken a b ms p h)

insert-IsOldestFirst :
    (m : Message) (ms : List Message) → IsOldestFirst ms → IsOldestFirst (insert_by_created_at m ms)
unfolding insert_by_created_at
insert-IsOldestFirst m [] h = (tt, tt)
insert-IsOldestFirst m (n ∷ ns) (q, h) = ground (
  arith,
  insert-IsOldestFirst m ns h,
  from_insert n.created_at m ns,
  from_weaken m.created_at n.created_at ns,
)

pub sort-IsOldestFirst : (ms : List Message) → IsOldestFirst (sort_by_created_at ms)
unfolding sort_by_created_at
sort-IsOldestFirst [] = tt
sort-IsOldestFirst (m ∷ ms) = insert-IsOldestFirst m (sort_by_created_at ms) (sort-IsOldestFirst ms)

keep_if-IsOldestFirst :
    (p : Message → Bool) (ms : List Message) → IsOldestFirst ms → IsOldestFirst (keep_if p ms)
keep_if-IsOldestFirst p [] h = tt
keep_if-IsOldestFirst p (m ∷ ms) (q, h) = ground (
  arith,
  keep_if-IsOldestFirst p ms h,
  All-keep_if (λ (n : Message). m.created_at ≤ n.created_at) p ms q,
)

pub drop-IsOldestFirst : (n : ℕ) (ms : List Message) → IsOldestFirst ms → IsOldestFirst (drop n ms)
drop-IsOldestFirst ℕ.zero ms h = h
drop-IsOldestFirst (ℕ.suc n) [] h = tt
drop-IsOldestFirst (ℕ.suc n) (m ∷ ms) (q, h) = drop-IsOldestFirst n ms h

insert-perm : (m : Message) (ms : List Message) → Perm (insert_by_created_at m ms) (m ∷ ms)
unfolding insert_by_created_at
insert-perm m [] = Perm.refl _
insert-perm m (n ∷ ns) = elim (Bool-cases (leb m.created_at n.created_at)) [
  | inl e ↦ rw (e, insert_by_created_at) (Perm.refl _)
  | inr e ↦
      rw (e, insert_by_created_at) (Perm.trans (Perm.cons n (insert-perm m ns)) (Perm.swap m n ns))
]

pub sort-perm : (ms : List Message) → Perm (sort_by_created_at ms) ms
unfolding sort_by_created_at
sort-perm [] = Perm.refl _
sort-perm (m ∷ ms) = Perm.trans (insert-perm m (sort_by_created_at ms)) (Perm.cons m (sort-perm ms))

insert-at_front :
    (m : Message) (ns : List Message)
    → All (λ n. m.created_at ≤ n.created_at) ns
    → insert_by_created_at m ns ≡ m ∷ ns
unfolding insert_by_created_at
insert-at_front m [] h = refl
insert-at_front m (n ∷ ns) h = ground arith

-- Sorting and filtering commute, since the sort is stable.
keep_if-insert :
    (p : Message → Bool) (m : Message) (ms : List Message)
    → IsOldestFirst ms
    → keep_if p (insert_by_created_at m ms)
      ≡ (if p m then insert_by_created_at m (keep_if p ms) else keep_if p ms)
unfolding insert_by_created_at
keep_if-insert p m [] h = ground arith
keep_if-insert p m (n ∷ ns) (q, h) = ground (
  arith,
  keep_if-insert p m ns h,
  insert-at_front m (keep_if p ns),
  All-keep_if (λ (k : Message). m.created_at ≤ k.created_at) p ns,
  from_weaken m.created_at n.created_at ns,
)

pub keep_if-sort :
    (p : Message → Bool) (ms : List Message)
    → keep_if p (sort_by_created_at ms) ≡ sort_by_created_at (keep_if p ms)
unfolding sort_by_created_at
keep_if-sort p [] = refl
keep_if-sort p (m ∷ ms) =
    ground
      (arith, keep_if-insert p m (sort_by_created_at ms) (sort-IsOldestFirst ms), keep_if-sort p ms)

insert-append_newest :
    (k m : Message) (ms : List Message)
    → k.created_at ≤ m.created_at
    → insert_by_created_at k (ms ++ m ∷ []) ≡ insert_by_created_at k ms ++ m ∷ []
unfolding insert_by_created_at
insert-append_newest k m [] h = ground arith
insert-append_newest k m (n ∷ ns) h = ground (arith, insert-append_newest k m ns h)

pub sort-append_newest :
    (m : Message) (ms : List Message)
    → All (λ n. n.created_at ≤ m.created_at) ms
    → sort_by_created_at (ms ++ m ∷ []) ≡ sort_by_created_at ms ++ m ∷ []
unfolding sort_by_created_at insert_by_created_at
sort-append_newest m [] h = refl
sort-append_newest m (n ∷ ns) (p, h) =
    rw (sort-append_newest m ns h) (insert-append_newest n m (sort_by_created_at ns) p)

pub keep_if-append_kept :
    (p : Message → Bool) (m : Message)
    → p m ≡ true
    → (ms : List Message) → keep_if p (ms ++ m ∷ []) ≡ keep_if p ms ++ m ∷ []
keep_if-append_kept p m h [] = rw h
keep_if-append_kept p m h (n ∷ ns) = ground (arith, keep_if-append_kept p m h ns)

pub keep_if-none :
    (p : Message → Bool) (ms : List Message) → All (λ m. p m ≡ false) ms → keep_if p ms ≡ []
keep_if-none p [] h = refl
keep_if-none p (m ∷ ms) (q, h) = ground (arith, keep_if-none p ms h)
