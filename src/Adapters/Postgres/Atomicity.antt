-- ===== src/Adapters/Postgres/Atomicity.antt =====
-- The transaction of `create` in src/adapters/postgres/conversation-store.ts, on one connection:
-- what it relies on of PostgreSQL and of the pool, and that it stores all or nothing.
use mathlib.Core.List.{append-nil}
use jiffy_messaging.Base.{
  ℕ, ◌+◌, ◌-◌, ◌≡◌, refl, sym, ap, ◌∙◌, subst, String, List, [], ◌∷◌, ◌++◌, map, arith,
}
use jiffy_messaging.Errors.{Error}
use jiffy_messaging.Exec.{Result, ok, err, ◌>>=◌, ◌>>◌, pure}
use jiffy_messaging.Exec.Laws.{continue_cases}
use jiffy_messaging.Domain.{Conversation}
use jiffy_messaging.Adapters.Rows.{first_row}
use jiffy_messaging.Adapters.Postgres.{text, texts, InsertedRow, Client, Pool}
use jiffy_messaging.Adapters.Postgres.Conversations.{
  insert_text, insert_participants_text, insert_participants, create_body, settled, rethrown,
  create, created,
}

-- The tables `conversations` and `conversation_participants`: of the second the columns of the key.
pub record Tables : Type 0 where
  pub conversations : List InsertedRow
  pub participants : List (String × String)

abbrev pub with_conversation : InsertedRow → Tables → Tables
with_conversation row t = record t { conversations = t.conversations ++ row ∷ [] }

abbrev pub with_participants : String → List String → Tables → Tables
with_participants id ids t = record t { participants = t.participants ++ map (λ u. (id, u)) ids }

-- `committed` is what every other connection reads, `working` what the transaction of this one
-- reads, and `leased` how many connections are out of the pool.
pub record Views (S : Type 0) : Type 0 where
  pub committed : S → Tables
  pub working : S → Tables
  pub leased : S → ℕ

abbrev pub LeavesCommitted : {S A : Type 0} → Views S → S → Result A × S → Type 0
LeavesCommitted v s (r, s') = (v.committed s' ≡ v.committed s) × (v.leased s' ≡ v.leased s)

-- A connection that the pool handed out. A commit that answers an error has not been done: that the
-- connection breaks between the two is left out.
pub record Connection {S : Type 0} (v : Views S) (client : Client S) : Type 0 where
  pub begins :
      (s : S)
      → LeavesCommitted v s (client.execute "BEGIN" [] s)
        × ((client.execute "BEGIN" [] s).0 ≡ ok tt
            → v.working (client.execute "BEGIN" [] s).1 ≡ v.committed s)
  pub inserts :
      (s : S)
      → LeavesCommitted v s (client.query_inserted insert_text [] s)
        × ((rows : List InsertedRow)
            → (client.query_inserted insert_text [] s).0 ≡ ok rows
            → (row : InsertedRow) × (rows ≡ row ∷ [])
              × (v.working (client.query_inserted insert_text [] s).1
                  ≡ with_conversation row (v.working s)))
  pub inserts_participants :
      (id : String) (ids : List String) (s : S)
      → LeavesCommitted v s (client.execute insert_participants_text (text id ∷ texts ids ∷ []) s)
        × ((client.execute insert_participants_text (text id ∷ texts ids ∷ []) s).0 ≡ ok tt
            → v.working (client.execute insert_participants_text (text id ∷ texts ids ∷ []) s).1
              ≡ with_participants id ids (v.working s))
  pub commits :
      (s : S)
      → (v.leased (client.execute "COMMIT" [] s).1 ≡ v.leased s)
        × ((client.execute "COMMIT" [] s).0 ≡ ok tt
            → v.committed (client.execute "COMMIT" [] s).1 ≡ v.working s)
        × ((e : Error)
            → (client.execute "COMMIT" [] s).0 ≡ err e
            → v.committed (client.execute "COMMIT" [] s).1 ≡ v.committed s)
  pub rolls_back : (s : S) → LeavesCommitted v s (client.execute "ROLLBACK" [] s)
  pub releases :
      (s : S)
      → (v.committed (client.release s) ≡ v.committed s)
        × (v.leased (client.release s) ≡ v.leased s - 1)

pub record Transactions {S : Type 0} (pool : Pool S) : Type 0 where
  pub views : Views S
  pub connects :
      (s s' : S) (client : Client S)
      → pool.connect s ≡ (ok client, s')
      → Connection views client
        × (views.committed s' ≡ views.committed s)
        × (views.leased s' ≡ views.leased s + 1)
  pub refuses :
      (s s' : S) (e : Error)
      → pool.connect s ≡ (err e, s')
      → (views.committed s' ≡ views.committed s) × (views.leased s' ≡ views.leased s)

-- The conversation that is returned: the inserted row, with exactly these participants.
abbrev pub IsReturned : InsertedRow → List String → Conversation → Type 0
IsReturned row ids c =
    (c ≡ created row ids)
    × (c.id ≡ row.id)
    × (c.created_at ≡ row.created_at)
    × (map (λ p. p.user_id) c.participants ≡ ids)

created-IsReturned : (row : InsertedRow) (ids : List String) → IsReturned row ids (created row ids)
created-IsReturned row ids = (refl, refl, refl, same ids)
  where
    same : (ids : List String) → map (λ p. p.user_id) (created row ids).participants ≡ ids
    same [] = refl
    same (id ∷ ids) = ap (◌∷◌ id) (same ids)

-- The conversation and its participants are stored, or nothing is.
abbrev pub IsStored : List String → Result Conversation → Tables → Tables → Type 0
IsStored ids (ok c) before after =
    (row : InsertedRow) × IsReturned row ids c
    × (after ≡ with_participants row.id ids (with_conversation row before))
IsStored ids (err e) before after = after ≡ before

module _ {S : Type 0} (v : Views S) (client : Client S) (on : Connection v client)
    (ids : List String) (before : Tables) (leases : ℕ) where
  -- Stored or not, with so many connections out of the pool.
  abbrev Outcome : Result Conversation × S → Type 0
  Outcome (r, s) = IsStored ids r before (v.committed s) × (v.leased s ≡ leases)

  commit-Outcome :
      (row : InsertedRow) (s : S)
      → v.committed s ≡ before
      → v.working s ≡ with_participants row.id ids (with_conversation row before)
      → v.leased s ≡ leases
      → Outcome ((client.execute "COMMIT" [] >> pure (created row ids)) s)
  commit-Outcome row s a b l =
      let (lease, done, failed) = on.commits s in
      continue_cases Outcome (λ _. pure (created row ids)) (client.execute "COMMIT" [] s).0
        (client.execute "COMMIT" [] s).1
        (λ _ e. ((row, created-IsReturned row ids, done e ∙ b), lease ∙ l))
        (λ e h. (failed e h ∙ a, lease ∙ l))

  -- The insertion of the participants, which is left out where there are none.
  participants-Outcome :
      (row : InsertedRow) (s : S) (ps : List String)
      → ps ≡ ids
      → v.committed s ≡ before
      → v.working s ≡ with_conversation row before
      → v.leased s ≡ leases
      → Outcome (
          (insert_participants client row.id ps
              >> (client.execute "COMMIT" [] >> pure (created row ids)))
            s)
  participants-Outcome row s [] same a b l =
      commit-Outcome row s a
        (b
          ∙ sym (nobody row)
          ∙ ap (λ ps. with_participants row.id ps (with_conversation row before)) same)
        l
    where
      nobody :
          (row : InsertedRow)
          → with_participants row.id [] (with_conversation row before)
            ≡ with_conversation row before
      nobody row =
          ap (λ ps. record { conversations = before.conversations ++ row ∷ []; participants = ps })
            (append-nil before.participants)
  participants-Outcome row s (p ∷ ps) same a b l =
      let ((kept, lease), done) = on.inserts_participants row.id (p ∷ ps) s in
      continue_cases Outcome (λ _. client.execute "COMMIT" [] >> pure (created row ids))
        (client.execute insert_participants_text (text row.id ∷ texts (p ∷ ps) ∷ []) s).0
        (client.execute insert_participants_text (text row.id ∷ texts (p ∷ ps) ∷ []) s).1
        (λ _ e.
          commit-Outcome row _ (kept ∙ a)
            (done e
              ∙ ap (with_participants row.id (p ∷ ps)) b
              ∙ ap (λ us. with_participants row.id us (with_conversation row before)) same)
            (lease ∙ l))
        (λ e h. (kept ∙ a, lease ∙ l))

  -- What is done with the rows that the first insertion returned.
  rows-Outcome :
      (rows : List InsertedRow) (row : InsertedRow) (s : S)
      → rows ≡ row ∷ []
      → v.committed s ≡ before
      → v.working s ≡ with_conversation row before
      → v.leased s ≡ leases
      → Outcome (
          ((λ s. (first_row rows, s)) >>= λ row.
          insert_participants client row.id ids
          >> (client.execute "COMMIT" [] >> pure (created row ids)))
            s)
  unfolding first_row
  rows-Outcome rows row s only a b l =
      subst
        (λ rs. Outcome (
          ((λ s. (first_row rs, s)) >>= λ row.
          insert_participants client row.id ids
          >> (client.execute "COMMIT" [] >> pure (created row ids)))
            s))
        (sym only) (participants-Outcome row s ids refl a b l)

  create_body-Outcome :
      (s : S) → v.committed s ≡ before → v.leased s ≡ leases → Outcome (create_body client ids s)
  unfolding create_body
  create_body-Outcome s a l =
      let s1 = (client.execute "BEGIN" [] s).1 in
      let ((kept, lease), began) = on.begins s in
      continue_cases Outcome _ (client.execute "BEGIN" [] s).0 s1
        (λ _ e.
          let ((kept', lease'), inserted) = on.inserts s1 in
          continue_cases Outcome _ (client.query_inserted insert_text [] s1).0
            (client.query_inserted insert_text [] s1).1
            (λ rows answered.
              let (row, only, stored) = inserted rows answered in
              rows-Outcome rows row _ only (kept' ∙ kept ∙ a)
                (stored ∙ ap (with_conversation row) (began e ∙ a)) (lease' ∙ lease ∙ l))
            (λ e h. (kept' ∙ kept ∙ a, lease' ∙ lease ∙ l)))
        (λ e h. (kept ∙ a, lease ∙ l))

  -- What is left when the connection is back in the pool.
  abbrev Settled : Result Conversation × S → Type 0
  Settled (r, s) = IsStored ids r before (v.committed s) × (v.leased s ≡ leases - 1)

  rethrown-Settled :
      (e : Error) (p : Result (Unit {0}) × S)
      → v.committed p.1 ≡ before
      → v.leased p.1 ≡ leases
      → Settled (rethrown client e p)
  rethrown-Settled e (ok _, s) a l =
      let (kept, back) = on.releases s in (kept ∙ a, omega (arith, back, l))
  rethrown-Settled e (err f, s) a l =
      let (kept, back) = on.releases s in (kept ∙ a, omega (arith, back, l))

  settled-Settled : (p : Result Conversation × S) → Outcome p → Settled (settled client p)
  settled-Settled (ok c, s) ((row, e, stored), l) =
      let (kept, back) = on.releases s in ((row, e, kept ∙ stored), omega (arith, back, l))
  settled-Settled (err e, s) (same, l) =
      let (kept, lease) = on.rolls_back s in
      rethrown-Settled e (client.execute "ROLLBACK" [] s) (kept ∙ same) (lease ∙ l)

module _ {S : Type 0} (pool : Pool S) (tx : Transactions pool) where
  -- If the connections of the pool do with the statements what Connection says: creating a
  -- conversation stores it with a row for each participant, and returns it with just these
  -- participants, under the id and with the date that the database gave it, or stores nothing
  -- and throws, whichever statement fails, the rollback included; and every connection that it
  -- took is back in the pool afterwards.
  pub create-IsStored :
      (ids : List String) (s : S)
      → IsStored ids
          (create pool ids s).0
          (tx.views.committed s)
          (tx.views.committed (create pool ids s).1)
        × (tx.views.leased (create pool ids s).1 ≡ tx.views.leased s)
  unfolding create
  create-IsStored ids s =
      continue_cases
        (λ p.
          IsStored ids p.0 (tx.views.committed s) (tx.views.committed p.1)
          × (tx.views.leased p.1 ≡ tx.views.leased s))
        (λ client s. settled client (create_body client ids s)) (pool.connect s).0
        (pool.connect s).1
        (λ client e.
          let (on, kept, taken) =
            tx.connects s (pool.connect s).1 client (ap (λ r. (r, (pool.connect s).1)) e) in
          let (stored, back) =
            settled-Settled tx.views client on ids (tx.views.committed s) (tx.views.leased s + 1) _
              (create_body-Outcome tx.views client on ids (tx.views.committed s)
                (tx.views.leased s + 1) (pool.connect s).1 kept taken) in
          (stored, omega (arith, back)))
        (λ e h. tx.refuses s (pool.connect s).1 e (ap (λ r. (r, (pool.connect s).1)) h))
