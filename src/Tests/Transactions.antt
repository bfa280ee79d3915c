-- ===== src/Tests/Transactions.antt =====
-- Instances of the theorems on src/adapters/postgres/conversation-store.ts, and the database that
-- they are about in small.
use jiffy_messaging.Base.{
  ℕ, ◌+◌, ◌-◌, ◌≡◌, ◌==◌, refl, sym, ap, subst, String, true, if◌then◌else◌, none, some, List, [],
  ◌∷◌, arith, All, any, keep_if, Rearranged, Rearranged-refl,
}
use jiffy_messaging.Errors.{Error, other}
use jiffy_messaging.Exec.{Result, ok, err}
use jiffy_messaging.Exec.Laws.{pure-eq-ok}
use jiffy_messaging.Domain.{Conversation, is_participant}
use jiffy_messaging.JsMap
use jiffy_messaging.InMemory.{fresh_participant}
use jiffy_messaging.Adapters.Rows.{
  ConversationParticipantRow, rows_to_conversations, add_row, add_rows,
}
use jiffy_messaging.Adapters.Postgres.{Param, text, texts, InsertedRow, Client, Pool}
use jiffy_messaging.Adapters.Postgres.Conversations.{
  create, insert_participants_text, find_by_id, find_by_participant, find_by_id_text,
  find_by_participant_text,
}
use jiffy_messaging.Adapters.Postgres.Atomicity.{
  Tables, Views, Connection, Transactions, with_conversation, with_participants, IsStored,
  create-IsStored,
}
use jiffy_messaging.Adapters.Postgres.Lookups.{
  ParticipantsTable, takes_part, is_in, IsComplete, IsFound, find_by_participant-IsComplete,
  find_by_id-IsComplete,
}

record Database : Type 0 where
  committed : Tables
  working : Tables
  leased : ℕ

abbrev execute : String → List Param → Database → Result (Unit {0}) × Database
execute t (text id ∷ texts ids ∷ []) d =
    if t == insert_participants_text
    then (ok tt, record d { working = with_participants id ids d.working })
    else (err (other "syntax error"), d)
execute t params d =
    if t == "BEGIN"
    then (ok tt, record d { working = d.committed })
    else if t == "COMMIT"
    then (ok tt, record d { committed = d.working })
    else if t == "ROLLBACK"
    then (ok tt, record d { working = d.committed })
    else (err (other "syntax error"), d)

abbrev inserted_row : InsertedRow
inserted_row = record { id = "c1"; created_at = 7 }

abbrev connection : Client Database
connection = record {
  query_inserted = λ t params d.
      (ok (inserted_row ∷ []), record d { working = with_conversation inserted_row d.working });
  execute = execute;
  release = λ d. record d { leased = d.leased - 1 };
}

abbrev database : Pool Database
database = record {
  query_messages = λ t params d. (err (other "refused"), d);
  query_participants = λ t params d. (err (other "refused"), d);
  execute = execute;
  connect = λ d. (ok connection, record d { leased = d.leased + 1 });
}

abbrev views : Views Database
views = record { committed = λ d. d.committed; working = λ d. d.working; leased = λ d. d.leased }

ok≢err : {A : Type 0} {a : A} {e : Error} → ¬ (ok a ≡ err e)
ok≢err h = ground arith

abbrev connection_laws : Connection views connection
connection_laws = record {
  begins = λ d. ((refl, refl), λ _. refl);
  inserts = λ d. (
    (refl, refl),
    λ rows h.
        (inserted_row, sym (pure-eq-ok (inserted_row ∷ []) rows d d (ap (λ r. (r, d)) h)).0, refl),
  );
  inserts_participants = λ id ids d. ((refl, refl), λ _. refl);
  commits = λ d. (refl, (λ _. refl), λ e h. absurd (ok≢err h));
  rolls_back = λ d. (refl, refl);
  releases = λ d. (refl, refl);
}

abbrev database_laws : Transactions database
database_laws = record {
  views = views;
  connects = λ d d' client h. connects d d' client (pure-eq-ok connection client _ d' h);
  refuses = λ d d' e h. absurd (ok≢err (ap (λ p. p.0) h));
}
  where
    connects :
        (d d' : Database) (client : Client Database)
        → (connection ≡ client) × (record d { leased = d.leased + 1 } ≡ d')
        → Connection views client × (d'.committed ≡ d.committed) × (d'.leased ≡ d.leased + 1)
    connects d d' client (same, next) = (
      subst (Connection views) same connection_laws,
      ap (λ (x : Database). x.committed) (sym next),
      ap (λ (x : Database). x.leased) (sym next),
    )

abbrev empty : Database
empty = record {
  committed = record { conversations = []; participants = [] };
  working = record { conversations = []; participants = [] };
  leased = 0;
}

create-IsStored_example :
    IsStored
      ("alice" ∷ "bob" ∷ [])
      (create database ("alice" ∷ "bob" ∷ []) empty).0
      empty.committed
      (create database ("alice" ∷ "bob" ∷ []) empty).1.committed
    × ((create database ("alice" ∷ "bob" ∷ []) empty).1.leased ≡ 0)
create-IsStored_example = create-IsStored database database_laws ("alice" ∷ "bob" ∷ []) empty

-- The spellings that the instances use.
abbrev canonical : String → String
canonical id = if id == "C1" then "c1" else if id == "C2" then "c2" else id

-- The join as the state.
abbrev pub joined_query :
    String
    → List Param
    → List ConversationParticipantRow
    → Result (List ConversationParticipantRow) × List ConversationParticipantRow
joined_query t (text v ∷ []) rows =
    if t == find_by_id_text
    then (ok (keep_if (is_in (canonical v)) rows), rows)
    else if t == find_by_participant_text
    then (ok (keep_if (λ r. takes_part rows v r.id) rows), rows)
    else (err (other "syntax error"), rows)
joined_query t params rows = (err (other "syntax error"), rows)

abbrev joined_pool : Pool (List ConversationParticipantRow)
joined_pool = record {
  query_messages = λ t params s. (err (other "refused"), s);
  query_participants = joined_query;
  execute = λ t params s. (err (other "refused"), s);
  connect = λ s. (err (other "refused"), s);
}

abbrev joined_table : ParticipantsTable joined_pool
joined_table = record {
  joined = λ rows. rows;
  canonical = canonical;
  finds = λ id s s' rows h.
      subst (λ rs. Rearranged rs (keep_if (is_in (canonical id)) s)) (pure-eq-ok _ rows s s' h).0
        (Rearranged-refl _);
  finds_by_participant = λ user_id s s' rows h.
      subst (λ rs. Rearranged rs (keep_if (λ r. takes_part s user_id r.id) s))
        (pure-eq-ok _ rows s s' h).0 (Rearranged-refl _);
}

abbrev row : String → String → ConversationParticipantRow
row id user_id = record {
  id = id;
  created_at = 4;
  user_id = user_id;
  last_read_at = none;
  cleared_at = none;
}

abbrev pub joined : List ConversationParticipantRow
joined = row "c1" "alice" ∷ row "c1" "bob" ∷ row "c2" "bob" ∷ []

abbrev c1 : Conversation
c1 = record {
  id = "c1";
  participants = fresh_participant "alice" ∷ fresh_participant "bob" ∷ [];
  created_at = 4;
  last_message = none;
}

find_by_participant-IsComplete_example :
    All (λ c. IsComplete joined c × (is_participant c "alice" ≡ true)) (c1 ∷ [])
    × ((id : String) → any (λ c. c.id == id) (c1 ∷ []) ≡ takes_part joined "alice" id)
find_by_participant-IsComplete_example =
    find_by_participant-IsComplete joined_pool joined_table "alice" joined joined (c1 ∷ []) (
      unfold find_by_participant rows_to_conversations add_rows add_row JsMap.get JsMap.set
        JsMap.lookup JsMap.store JsMap.values in
      refl)

find_by_id-IsComplete_example : IsFound "c1" joined (some c1)
find_by_id-IsComplete_example =
    find_by_id-IsComplete joined_pool joined_table "C1" joined joined (some c1) (
      unfold find_by_id rows_to_conversations add_rows add_row JsMap.get JsMap.set JsMap.lookup
        JsMap.store JsMap.values in
      refl)
