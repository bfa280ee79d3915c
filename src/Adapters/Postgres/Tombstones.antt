-- ===== src/Adapters/Postgres/Tombstones.antt =====
-- `softDelete` of src/adapters/postgres/message-store.ts against that of the in-memory store.
use jiffy_messaging.Base.{
  ◌≡◌, refl, sym, ap, ◌∙◌, subst, String, true, false, none, some, List, [], ◌∷◌, map, arith,
  keep_if, any, find, update_first, is_some, ◌==◌, if◌then◌else◌, Bool-cases, Option-cases, inl,
  inr, eq_iff,
}
use jiffy_messaging.Exec.{ok}
use jiffy_messaging.Exec.Laws.{>>=-eq-ok, pure-eq-ok}
use jiffy_messaging.Domain.{Instant, Message}
use jiffy_messaging.InMemory
use jiffy_messaging.InMemory.{Memory, tombstone}
use jiffy_messaging.Adapters.Rows.{MessageRow, row_to_message, first_row}
use jiffy_messaging.Adapters.Postgres.{Pool, text, instant}
use jiffy_messaging.Adapters.Postgres.Messages.{
  soft_delete, updated_or_existing, first_message, select_text, update_text,
}
use jiffy_messaging.Adapters.Postgres.MessagesTable.{
  StoredMessage, MessagesTable, message_of, row_of, has_id, is_standing, marked,
}

-- The primary key.
abbrev pub HasDistinctIds : List StoredMessage → Type 0
HasDistinctIds [] = Unit
HasDistinctIds (r ∷ rs) = (any (has_id r.id) rs ≡ false) × HasDistinctIds rs

abbrev mark_if : String → Instant → StoredMessage → StoredMessage
mark_if id at r = if is_standing id r then marked at r else r

abbrev first_or : MessageRow → List MessageRow → MessageRow
first_or row [] = row
first_or row (r ∷ rs) = r

-- What the id picks out of the table.
data Picked (id : String) (at : Instant) (rs : List StoredMessage) : Type 0 where
  missing :
      keep_if (has_id id) rs ≡ []
      → keep_if (is_standing id) rs ≡ []
      → map (mark_if id at) rs ≡ rs
      → Picked id at rs
  tombstone_found :
      (r : StoredMessage)
      → is_some r.deleted_us ≡ true
      → keep_if (has_id id) rs ≡ r ∷ []
      → keep_if (is_standing id) rs ≡ []
      → find (InMemory.has_id id) (map message_of rs) ≡ some (message_of r)
      → map (mark_if id at) rs ≡ rs
      → Picked id at rs
  standing_found :
      (r : StoredMessage)
      → r.deleted_us ≡ none
      → keep_if (is_standing id) rs ≡ r ∷ []
      → find (InMemory.has_id id) (map message_of rs) ≡ some (message_of r)
      → map message_of (map (mark_if id at) rs)
        ≡ update_first (InMemory.has_id id) (tombstone at) (map message_of rs)
      → Picked id at rs

none_left :
    (id : String) (at : Instant) (rs : List StoredMessage)
    → any (has_id id) rs ≡ false
    → (keep_if (has_id id) rs ≡ [])
      × (keep_if (is_standing id) rs ≡ [])
      × (map (mark_if id at) rs ≡ rs)
none_left id at [] h = (refl, refl, refl)
none_left id at (r ∷ rs) h =
    let (a, b, c) = none_left id at rs (ground arith) in
    (ground arith, ground arith, ground (arith, c))

message_of-marked :
    (at : Instant) (r : StoredMessage) → message_of (marked at r) ≡ tombstone at (message_of r)
message_of-marked at r = ap (λ n. tombstone n (message_of r)) (omega arith)

pick : (id : String) (at : Instant) (rs : List StoredMessage) → HasDistinctIds rs → Picked id at rs
pick id at [] d = missing refl refl refl
pick id at (r ∷ rs) (alone, d) = elim (Bool-cases (r.id == id)) [
  | inl same ↦
      let e : r.id ≡ id = (eq_iff r.id id).0 same in
      let (a, b, c) = none_left id at rs (subst (λ i. any (has_id i) rs ≡ false) e alone) in
      (elim (Option-cases r.deleted_us) [
        | inl standing ↦
            standing_found r standing (ground arith) (ground arith)
              (ground (arith, ap (map message_of) c, message_of-marked at r))
        | inr (us, gone) ↦
            tombstone_found r (ground arith) (ground arith) (ground arith) (ground arith)
              (ground (arith, c))
      ])
  | inr other ↦ (elim (pick id at rs d) [
    | missing a b m ↦ missing (ground arith) (ground arith) (ground (arith, m))
    | tombstone_found q g a b f m ↦
        tombstone_found q g (ground arith) (ground arith) (ground arith) (ground (arith, m))
    | standing_found q g b f m ↦
        standing_found q g (ground arith) (ground arith) (ground (arith, m))
  ])
]

-- The in-memory deletion, from what it finds.
soft_delete_again :
    (id : String) (at : Instant) (memory : Memory) (m : Message) (messages : List Message)
    → find (InMemory.has_id id) memory.messages ≡ some m
    → is_some m.deleted_at ≡ true
    → messages ≡ memory.messages
    → InMemory.soft_delete id at memory ≡ (ok m, record memory { messages = messages })
unfolding InMemory.soft_delete
soft_delete_again id at memory m messages found gone same = ground arith

soft_delete_first :
    (id : String) (at : Instant) (memory : Memory) (m : Message) (messages : List Message)
    → find (InMemory.has_id id) memory.messages ≡ some m
    → m.deleted_at ≡ none
    → messages ≡ update_first (InMemory.has_id id) (tombstone at) memory.messages
    → InMemory.soft_delete id at memory
      ≡ (ok (tombstone at m), record memory { messages = messages })
unfolding InMemory.soft_delete
soft_delete_first id at memory m messages found standing same = ground arith

message_of-row : (r : StoredMessage) → row_to_message (row_of r) ≡ message_of r
unfolding row_to_message
message_of-row r = refl

module _ {S : Type 0} (pool : Pool S) where
  updated_row :
      (id : String) (row : MessageRow) (rows : List MessageRow) (s s' : S) (m : Message)
      → rows ≡ row ∷ []
      → updated_or_existing pool id rows s ≡ (ok m, s')
      → (row_to_message row ≡ m) × (s ≡ s')
  updated_row id row rows s s' m e h =
      pure-eq-ok (row_to_message row) m s s'
        (subst (λ rs. updated_or_existing pool id rs s ≡ (ok m, s')) e h)

  -- The first of the rows that the second query answered.
  IsFirst : List MessageRow → Message → Type 0
  IsFirst rows m =
      (row : MessageRow) × (more : List MessageRow) × (rows ≡ row ∷ more) × (row_to_message row ≡ m)

  first_message-ok :
      (rows : List MessageRow) (s s' : S) (m : Message)
      → first_message pool rows s ≡ (ok m, s')
      → IsFirst rows m × (s ≡ s')
  unfolding IsFirst first_row
  first_message-ok [] s s' m h = absurd (ground arith)
  first_message-ok (row ∷ more) s s' m h =
      let (e, k) = pure-eq-ok (row_to_message row) m s s' h in ((row, more, refl, e), k)

  existing_row :
      (id : String) (rows : List MessageRow) (s s' : S) (m : Message)
      → rows ≡ []
      → updated_or_existing pool id rows s ≡ (ok m, s')
      → (existing : List MessageRow) × (pool.query_messages select_text (text id ∷ []) s
          ≡ (ok existing, s'))
        × IsFirst existing m
  existing_row id rows s s' m e h =
      let (existing, s2, answered, last) =
        >>=-eq-ok (pool.query_messages select_text (text id ∷ [])) (first_message pool) s
          (subst (λ rs. updated_or_existing pool id rs s ≡ (ok m, s')) e h) in
      let (first, same) = first_message-ok existing s2 s' m last in
      (
        existing,
        subst (λ z. pool.query_messages select_text (text id ∷ []) s ≡ (ok existing, z)) same
            answered,
        first,
      )

module _ {S : Type 0} (pool : Pool S) (table : MessagesTable pool) where
  -- If the database does with the statements what MessagesTable says, and the ids of the stored
  -- messages are distinct: whatever `softDelete` of the Postgres store does with success for an
  -- id, that of the in-memory store does for the canonical spelling of the id, on the messages
  -- that the stored ones are read as. It returns the same tombstone and leaves the same messages.
  pub soft_delete-refines :
      (id : String) (at : Instant) (s s' : S) (m : Message) (memory : Memory)
      → HasDistinctIds (table.stored s)
      → memory.messages ≡ map message_of (table.stored s)
      → soft_delete pool id at s ≡ (ok m, s')
      → InMemory.soft_delete (table.canonical id) at memory
        ≡ (ok m, record memory { messages = map message_of (table.stored s') })
  unfolding soft_delete IsFirst
  soft_delete-refines id at s s' m memory distinct same h =
      let (rows, s1, updated, rest) =
        >>=-eq-ok (pool.query_messages update_text (text id ∷ instant at ∷ []))
          (updated_or_existing pool id) s h in
      let (answered, left) = table.updates id at s s1 rows updated in
      elim (pick (table.canonical id) at (table.stored s) distinct) [
        | missing a b unmarked ↦
            let none_updated : rows ≡ [] =
              answered ∙ ap (λ rs. map row_of (map (marked at) rs)) b in
            let (existing, selected, (row, more, e, k)) =
              existing_row pool id rows s1 s' m none_updated rest in
            let (found, kept) = table.selects id s1 s' existing selected in
            let nothing : row ∷ more ≡ [] =
              sym e
              ∙ found
              ∙ ap (λ rs. map row_of (keep_if (has_id (table.canonical id)) rs)) (left ∙ unmarked)
              ∙ ap (map row_of) a in
            absurd (ground arith)
        | tombstone_found r gone a b f unmarked ↦
            let none_updated : rows ≡ [] =
              answered ∙ ap (λ rs. map row_of (map (marked at) rs)) b in
            let (existing, selected, (row, more, e, k)) =
              existing_row pool id rows s1 s' m none_updated rest in
            let (found, kept) = table.selects id s1 s' existing selected in
            let only : row ∷ more ≡ row_of r ∷ [] =
              sym e
              ∙ found
              ∙ ap (λ rs. map row_of (keep_if (has_id (table.canonical id)) rs)) (left ∙ unmarked)
              ∙ ap (map row_of) a in
            let answer : message_of r ≡ m =
              sym (message_of-row r)
              ∙ ap row_to_message (sym (ap (λ rs. first_or (row_of r) rs) only))
              ∙ k in
            soft_delete_again (table.canonical id) at memory m (map message_of (table.stored s'))
              (ap (find (InMemory.has_id (table.canonical id))) same ∙ f ∙ ap some answer)
              (ap (λ (x : Message). is_some x.deleted_at) (sym answer) ∙ ground arith)
              (ap (map message_of) (kept ∙ left ∙ unmarked) ∙ sym same)
        | standing_found r standing a f done ↦
            let one : rows ≡ row_of (marked at r) ∷ [] =
              answered ∙ ap (λ rs. map row_of (map (marked at) rs)) a in
            let (k, same_s) = updated_row pool id (row_of (marked at r)) rows s1 s' m one rest in
            let answer : tombstone at (message_of r) ≡ m =
              sym (message_of-marked at r) ∙ sym (message_of-row (marked at r)) ∙ k in
            subst
              (λ x.
                InMemory.soft_delete (table.canonical id) at memory
                ≡ (ok x, record memory { messages = map message_of (table.stored s') }))
              answer
              (soft_delete_first (table.canonical id) at memory (message_of r)
                (map message_of (table.stored s'))
                (ap (find (InMemory.has_id (table.canonical id))) same ∙ f) (ground arith)
                (ap (λ z. map message_of (table.stored z)) (sym same_s)
                  ∙ ap (map message_of) left
                  ∙ done
                  ∙ ap (update_first (InMemory.has_id (table.canonical id)) (tombstone at))
                      (sym same)))
      ]
