-- ===== src/InMemory/Newest.antt =====
-- The newest message of a listing of src/adapters/in-memory/message-store.ts, which a limit of one
-- asks for.
use jiffy_messaging.Base.{
  ◌≤◌, ◌≡◌, refl, sym, ap, ◌∙◌, subst, String, Bool, true, Option, none, some, List, [], ◌∷◌, arith,
  keep_if, head?, length, drop, All, All-map, All-keep_if_both, inl, inr, ◌⊎◌,
}
use jiffy_messaging.Domain.{Message}
use jiffy_messaging.Ports.{ListMessagesOptions}
use jiffy_messaging.Ports.Listing.{IsOldestFirst}
use jiffy_messaging.InMemory.{insert_by_created_at, sort_by_created_at, slice_last, select_messages}
use jiffy_messaging.InMemory.Sorting.{sort-IsOldestFirst}
use jiffy_messaging.InMemory.Listing.{is_shown, select_messages-eq-sort, sort-All}

abbrev pub IsIn : Message → List Message → Type 0
IsIn m [] = ⊥
IsIn m (n ∷ ns) = (m ≡ n) ⊎ IsIn m ns

All-IsIn : (ms : List Message) → All (λ m. IsIn m ms) ms
All-IsIn [] = tt
All-IsIn (n ∷ ns) = (inl refl, All-map _ _ (λ m h. inr h) ns (All-IsIn ns))

module _ (P : Message → Type 0) where
  -- What holds of all that was sorted held of it before.
  insert-All_back :
      (m : Message) (ms : List Message) → All P (insert_by_created_at m ms) → P m × All P ms
  unfolding insert_by_created_at
  insert-All_back m [] h = h
  insert-All_back m (n ∷ ns) h = ground (arith, insert-All_back m ns)

  sort-All_back : (ms : List Message) → All P (sort_by_created_at ms) → All P ms
  unfolding sort_by_created_at
  sort-All_back [] h = tt
  sort-All_back (m ∷ ms) h =
      let (p, k) = insert-All_back m (sort_by_created_at ms) h in (p, sort-All_back ms k)

  keep_if-All_back :
      (q : Message → Bool) (ms : List Message)
      → All P (keep_if q ms)
      → All (λ m. q m ≡ true → P m) ms
  keep_if-All_back q [] h = tt
  keep_if-All_back q (m ∷ ms) h = (λ kept. ground arith, keep_if-All_back q ms (ground arith))

  -- The last of a list in order, and what holds of all of it.
  last_of :
      (m : Message) (ms : List Message)
      → IsOldestFirst (m ∷ ms)
      → All P (m ∷ ms)
      → (k : Message) × (head? (drop (length ms) (m ∷ ms)) ≡ some k)
        × P k
        × All (λ n. n.created_at ≤ k.created_at) (m ∷ ms)
  last_of m [] h (p, all) = (m, refl, p, (omega arith, tt))
  last_of m (n ∷ ns) ((first, from), h) (p, all) =
      let (k, e, q, (older, rest)) = last_of n ns h all in (k, e, q, (omega arith, (older, rest)))

-- What a listing with the limit 1 has of the messages that may be shown: nothing, and then there is
-- no such message, or one of them that is newest.
abbrev pub IsNewest : (Message → Type 0) → List Message → Option Message → Type 0
IsNewest IsShown ms none = All (λ n. ¬ IsShown n) ms
IsNewest IsShown ms (some m) =
    IsIn m ms × IsShown m × All (λ n. IsShown n → n.created_at ≤ m.created_at) ms

slice_last-one :
    (m : Message) (ms : List Message) → slice_last 1 (m ∷ ms) ≡ drop (length ms) (m ∷ ms)
unfolding slice_last
slice_last-one m ms = ap (λ k. drop k (m ∷ ms)) (omega arith)

sort-keep_if-IsNewest :
    (q : Message → Bool) (ms : List Message) (sorted : List Message)
    → sort_by_created_at (keep_if q ms) ≡ sorted
    → IsNewest (λ n. q n ≡ true) ms (head? (slice_last 1 sorted))
unfolding slice_last
sort-keep_if-IsNewest q ms [] e =
    keep_if-All_back (λ n. ⊥) q ms
      (sort-All_back (λ n. ⊥) (keep_if q ms) (subst (All (λ n. ⊥)) (sym e) tt))
sort-keep_if-IsNewest q ms (m ∷ sorted) e =
    let shown : All (λ n. IsIn n ms × (q n ≡ true)) (keep_if q ms) =
      All-keep_if_both (λ n. IsIn n ms) _ q (λ n a b. (a, b)) ms (All-IsIn ms) in
    let (k, last, (stored, is_shown), newest) =
      last_of (λ n. IsIn n ms × (q n ≡ true)) m sorted
        (subst IsOldestFirst e (sort-IsOldestFirst (keep_if q ms)))
        (subst (All (λ n. IsIn n ms × (q n ≡ true))) e (sort-All _ (keep_if q ms) shown)) in
    subst (IsNewest (λ n. q n ≡ true) ms) {x = some k}
      (sym (ap head? (slice_last-one m sorted) ∙ last))
      (
        stored,
        is_shown,
        keep_if-All_back (λ n. n.created_at ≤ k.created_at) q ms
            (sort-All_back (λ n. n.created_at ≤ k.created_at) (keep_if q ms)
              (subst (All (λ n. n.created_at ≤ k.created_at)) (sym e) newest)),
      )

pub select_messages-IsNewest :
    (cid : String) (options : ListMessagesOptions) (ms : List Message)
    → options.limit ≡ some 1
    → IsNewest (λ n. is_shown cid options n ≡ true) ms (head? (select_messages cid options ms))
select_messages-IsNewest cid options ms one =
    rw (select_messages-eq-sort cid options ms, one)
      (sort-keep_if-IsNewest (is_shown cid options) ms _ refl)
