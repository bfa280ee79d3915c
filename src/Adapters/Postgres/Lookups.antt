-- ===== src/Adapters/Postgres/Lookups.antt =====
-- What the two look-ups of src/adapters/postgres/conversation-store.ts find, in terms of the join of
-- the tables `conversations` and `conversation_participants`.
use jiffy_messaging.Base.{
  ◌≡◌, refl, sym, ap, ◌∙◌, subst, String, Bool, true, false, Option, none, some, List, [], ◌∷◌, map,
  arith, keep_if, any, head?, All, ◌↔◌, ◌&&◌, ◌==◌, eq_iff, eq_refl, Rearranged, any-Rearranged,
  keep_if-Rearranged, map-Rearranged,
}
use jiffy_messaging.Exec.{ok, pure}
use jiffy_messaging.Exec.Laws.{>>=-eq-ok, pure-eq-ok}
use jiffy_messaging.Domain.{Conversation, is_participant, is_user}
use jiffy_messaging.Adapters.Rows.{
  ConversationParticipantRow, row_participant, rows_to_conversations,
}
use jiffy_messaging.Adapters.Rows.Grouping.{
  participants_in, mentions, rows_to_conversations-participants,
}
use jiffy_messaging.Adapters.Postgres.{Pool, text}
use jiffy_messaging.Adapters.Postgres.Conversations.{
  find_by_id_text, find_by_participant_text, find_by_id, find_by_participant,
}

-- The row is one of the conversation `id`, and is the user's.
abbrev pub is_in : String → ConversationParticipantRow → Bool
is_in id r = r.id == id

abbrev pub is_of : String → String → ConversationParticipantRow → Bool
is_of id user_id r = r.id == id && r.user_id == user_id

-- `id IN (SELECT conversation_id FROM conversation_participants WHERE user_id = $1)`
abbrev pub takes_part : List ConversationParticipantRow → String → String → Bool
takes_part joined user_id id = any (is_of id user_id) joined

-- The columns of ids have the type UUID: PostgreSQL compares the values, which it reads in several
-- spellings and gives out in the one that `canonical` stands for; a text that is no UUID makes the
-- statement fail. The column `user_id` has the type TEXT. What the statements answer; `joined` is the join, in the order of the tables. Equal instants stand
-- in any order.
pub record ParticipantsTable {S : Type 0} (pool : Pool S) : Type 0 where
  pub joined : S → List ConversationParticipantRow
  pub canonical : String → String
  pub finds :
      (id : String) (s s' : S) (rows : List ConversationParticipantRow)
      → pool.query_participants find_by_id_text (text id ∷ []) s ≡ (ok rows, s')
      → Rearranged rows (keep_if (is_in (canonical id)) (joined s))
  pub finds_by_participant :
      (user_id : String) (s s' : S) (rows : List ConversationParticipantRow)
      → pool.query_participants find_by_participant_text (text user_id ∷ []) s ≡ (ok rows, s')
      → Rearranged rows (keep_if (λ r. takes_part (joined s) user_id r.id) (joined s))

-- The conversation has exactly the participants that the tables have for it.
abbrev pub IsComplete : List ConversationParticipantRow → Conversation → Type 0
IsComplete joined c = Rearranged c.participants (participants_in c.id joined)

keep_if-all :
    (p q : ConversationParticipantRow → Bool) (rows : List ConversationParticipantRow)
    → ((r : ConversationParticipantRow) → q r ≡ true → p r ≡ true)
    → keep_if q (keep_if p rows) ≡ keep_if q rows
keep_if-all p q [] h = refl
keep_if-all p q (r ∷ rs) h = ground (arith, h r, keep_if-all p q rs h)

any-keep_if :
    (p q : ConversationParticipantRow → Bool) (rows : List ConversationParticipantRow)
    → any q (keep_if p rows) ≡ any (λ r. p r && q r) rows
any-keep_if p q [] = refl
any-keep_if p q (r ∷ rs) = ground (arith, any-keep_if p q rs)

-- Rows of which only those with another id are left out.
complete :
    (joined rows : List ConversationParticipantRow) (p : ConversationParticipantRow → Bool)
    (c : Conversation)
    → Rearranged rows (keep_if p joined)
    → ((r : ConversationParticipantRow) → (r.id == c.id) ≡ true → p r ≡ true)
    → c.participants ≡ participants_in c.id rows
    → IsComplete joined c
complete joined rows p c d all e =
    subst (λ ps. Rearranged ps (participants_in c.id joined)) (sym e)
      (subst (λ rs. Rearranged (participants_in c.id rows) (map row_participant rs))
        (keep_if-all p (λ r. r.id == c.id) joined all)
        (map-Rearranged row_participant (keep_if-Rearranged (λ r. r.id == c.id) d)))

any-participants_in :
    (id user_id : String) (rows : List ConversationParticipantRow)
    → any (is_user user_id) (participants_in id rows) ≡ takes_part rows user_id id
any-participants_in id user_id [] = refl
any-participants_in id user_id (r ∷ rs) = ground (arith, any-participants_in id user_id rs)

any-fixed_id :
    (g : String → Bool) (id : String) (rows : List ConversationParticipantRow)
    → any (λ r. g r.id && r.id == id) rows ≡ (g id && any (λ r. r.id == id) rows)
any-fixed_id g id [] = ground arith
any-fixed_id g id (r ∷ rs) = ground (arith, any-fixed_id g id rs, eq_iff r.id id)

takes_part-any :
    (user_id id : String) (rows : List ConversationParticipantRow)
    → (takes_part rows user_id id && any (λ r. r.id == id) rows) ≡ takes_part rows user_id id
takes_part-any user_id id [] = refl
takes_part-any user_id id (r ∷ rs) = ground (arith, takes_part-any user_id id rs)

-- What holds of every id that stands in the list.
All-ids :
    (g : String → Bool) (cs : List Conversation)
    → ((id : String) → any (λ c. c.id == id) cs ≡ true → g id ≡ true)
    → All (λ c. g c.id ≡ true) cs
All-ids g [] h = tt
All-ids g (c ∷ cs) h =
    (h c.id (ground (arith, eq_refl c.id)), All-ids g cs (λ id k. h id (ground arith)))

both :
    (P Q R : Conversation → Type 0) (cs : List Conversation)
    → ((c : Conversation) → P c → Q c → R c)
    → All P cs
    → All Q cs
    → All R cs
both P Q R [] f a b = tt
both P Q R (c ∷ cs) f (p, a) (q, b) = (f c p q, both P Q R cs f a b)

-- The conversation of the id, complete, or none where no row of the join has the id.
abbrev pub IsFound : String → List ConversationParticipantRow → Option Conversation → Type 0
IsFound id joined o =
    ((c : Conversation) → o ≡ some c → (c.id ≡ id) × IsComplete joined c)
    × ((o ≡ none) ↔ (any (is_in id) joined ≡ false))

mentions-found :
    (id other : String) (joined rows : List ConversationParticipantRow)
    → Rearranged rows (keep_if (is_in id) joined)
    → mentions rows other ≡ (other == id && any (is_in other) joined)
mentions-found id other joined rows d =
    any-Rearranged (is_in other) d
    ∙ any-keep_if (is_in id) (is_in other) joined
    ∙ any-fixed_id (λ i. i == id) other joined

head-IsFound :
    (id : String) (joined rows : List ConversationParticipantRow)
    → Rearranged rows (keep_if (is_in id) joined)
    → (cs : List Conversation) → All (λ c. c.participants ≡ participants_in c.id rows) cs
    → ((i : String) → any (λ c. c.id == i) cs ≡ mentions rows i)
    → IsFound id joined (head? cs)
head-IsFound id joined rows d [] parts ids = (
  (λ c k. absurd (ground arith)),
  ((λ _. ground (arith, ids id, mentions-found id id joined rows d, eq_refl id)), λ _. refl),
)
head-IsFound id joined rows d (c ∷ cs) (p, parts) ids =
    let same : (c.id == id) ≡ true =
      ground (arith, ids c.id, mentions-found id c.id joined rows d, eq_refl c.id) in
    let e : c.id ≡ id = (eq_iff c.id id).0 same in
    let whole : IsComplete joined c =
      complete joined rows (is_in id) c d (λ r k. (eq_iff r.id id).1 ((eq_iff r.id c.id).0 k ∙ e))
        p in
    (
      (λ b k.
          let q : c ≡ b = ground arith in
          subst (λ b. (b.id ≡ id) × IsComplete joined b) q (e, whole)),
      (
        (λ k. absurd (ground arith)),
        λ k. absurd (ground (arith, ids id, mentions-found id id joined rows d, same)),
      ),
    )

module _ {S : Type 0} (pool : Pool S) (table : ParticipantsTable pool) where
  -- If the database answers the statements as ParticipantsTable says: the list of a user's
  -- conversations, where the query succeeds, has exactly those that the user takes part in,
  -- each with exactly the participants that the tables have for it.
  pub find_by_participant-IsComplete :
      (user_id : String) (s s' : S) (cs : List Conversation)
      → find_by_participant pool user_id s ≡ (ok cs, s')
      → All (λ c. IsComplete (table.joined s) c × (is_participant c user_id ≡ true)) cs
        × ((id : String) → any (λ c. c.id == id) cs ≡ takes_part (table.joined s) user_id id)
  unfolding find_by_participant is_participant
  find_by_participant-IsComplete user_id s s' cs h =
      let joined = table.joined s in
      let (rows, s1, answered, last) =
        >>=-eq-ok (pool.query_participants find_by_participant_text (text user_id ∷ []))
          (λ rows. pure (rows_to_conversations rows)) s h in
      let (e, _) = pure-eq-ok (rows_to_conversations rows) cs s1 s' last in
      let d = table.finds_by_participant user_id s s1 rows answered in
      let (parts, ids) = rows_to_conversations-participants rows in
      let listed : (id : String)
          → any (λ c. c.id == id) (rows_to_conversations rows) ≡ takes_part joined user_id id =
        (λ id.
          ids id
          ∙ any-Rearranged (λ r. r.id == id) d
          ∙ any-keep_if (λ r. takes_part joined user_id r.id) (λ r. r.id == id) joined
          ∙ any-fixed_id (takes_part joined user_id) id joined
          ∙ takes_part-any user_id id joined) in
      let member : All (λ c. takes_part joined user_id c.id ≡ true) (rows_to_conversations rows) =
        All-ids (takes_part joined user_id) (rows_to_conversations rows)
          (λ id k. sym (listed id) ∙ k) in
      subst
        (λ cs.
          All (λ c. IsComplete joined c × (is_participant c user_id ≡ true)) cs
          × ((id : String) → any (λ c. c.id == id) cs ≡ takes_part joined user_id id))
        e
        (
          both _ _ _ (rows_to_conversations rows)
              (λ c p q.
                let whole : IsComplete joined c =
                  complete joined rows (λ r. takes_part joined user_id r.id) c d
                    (λ r k. ap (takes_part joined user_id) ((eq_iff r.id c.id).0 k) ∙ q) p in
                (
                  whole,
                  any-Rearranged (is_user user_id) whole
                      ∙ any-participants_in c.id user_id joined
                      ∙ q,
                ))
              parts member,
          listed,
        )

  -- If the database answers the statements as ParticipantsTable says: the look-up of an id,
  -- where the query succeeds, finds the conversation whose id is the canonical spelling of the
  -- UUID that was asked for, with exactly the participants that the tables have for it, and
  -- nothing exactly where they have none.
  pub find_by_id-IsComplete :
      (id : String) (s s' : S) (o : Option Conversation)
      → find_by_id pool id s ≡ (ok o, s')
      → IsFound (table.canonical id) (table.joined s) o
  unfolding find_by_id
  find_by_id-IsComplete id s s' o h =
      let joined = table.joined s in
      let (rows, s1, answered, last) =
        >>=-eq-ok (pool.query_participants find_by_id_text (text id ∷ []))
          (λ rows. pure (head? (rows_to_conversations rows))) s h in
      let (e, _) = pure-eq-ok (head? (rows_to_conversations rows)) o s1 s' last in
      let d = table.finds id s s1 rows answered in
      let (parts, ids) = rows_to_conversations-participants rows in
      subst (IsFound (table.canonical id) joined) e
        (head-IsFound (table.canonical id) joined rows d (rows_to_conversations rows) parts ids)
