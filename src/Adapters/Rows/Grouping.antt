-- ===== src/Adapters/Rows/Grouping.antt =====
-- `rowsToConversations` of src/adapters/postgres/rows.ts groups the rows by their id.
use jiffy_messaging.Base.{
  ◌≡◌, refl, sym, ap, ◌∙◌, String, Bool, false, Option, none, some, List, [], ◌∷◌, ◌++◌, map, arith,
  any, keep_if, All, ◌==◌, ◌||◌, eq_iff, eq_refl, Bool-cases, inl, inr, if◌then◌else◌, subst,
}
use mathlib.Core.List.{append_assoc, append-nil}
use jiffy_messaging.Domain.{ConversationParticipant, Conversation}
use jiffy_messaging.JsMap
use jiffy_messaging.JsMap.{JsMap, lookup, store, has_key, HasDistinctKeys}
use jiffy_messaging.JsMap.Laws.{set-HasDistinctKeys, has_key-store}
use jiffy_messaging.Adapters.Rows.{
  ConversationParticipantRow, row_participant, found_or_new, pushed, add_row, add_rows,
  rows_to_conversations,
}

-- The participants whose rows carry the id, in the order of the rows.
abbrev pub participants_in : String → List ConversationParticipantRow → List ConversationParticipant
participants_in id rows = map row_participant (keep_if (λ r. r.id == id) rows)

abbrev pub mentions : List ConversationParticipantRow → String → Bool
mentions rows id = any (λ r. r.id == id) rows

participants_in-append :
    (id : String) (rows : List ConversationParticipantRow) (row : ConversationParticipantRow)
    → participants_in id (rows ++ row ∷ [])
      ≡ participants_in id rows ++ (if row.id == id then row_participant row ∷ [] else [])
participants_in-append id [] row = ground arith
participants_in-append id (r ∷ rs) row = ground (arith, participants_in-append id rs row)

participants_in-none :
    (id : String) (rows : List ConversationParticipantRow)
    → mentions rows id ≡ false
    → participants_in id rows ≡ []
participants_in-none id [] h = refl
participants_in-none id (r ∷ rs) h = ground (arith, participants_in-none id rs)

mentions-append :
    (id : String) (rows : List ConversationParticipantRow) (row : ConversationParticipantRow)
    → mentions (rows ++ row ∷ []) id ≡ (mentions rows id || row.id == id)
mentions-append id [] row = ground arith
mentions-append id (r ∷ rs) row = ground (arith, mentions-append id rs row)

-- The entry stands under its conversation's id and has the participants of the rows so far.
abbrev IsGroup : List ConversationParticipantRow → String × Conversation → Type 0
IsGroup done (k, c) = (c.id ≡ k) × (c.participants ≡ participants_in k done)

IsGroup-other :
    (done : List ConversationParticipantRow) (row : ConversationParticipantRow) (k : String)
    (c : Conversation)
    → (k == row.id) ≡ false
    → IsGroup done (k, c)
    → IsGroup (done ++ row ∷ []) (k, c)
IsGroup-other done row k c other (named, has) = (
  named,
  ground (
    arith,
    participants_in-append k done row,
    eq_iff k row.id,
    eq_iff row.id k,
    append-nil (participants_in k done),
  ),
)

rest-IsGroup :
    (done : List ConversationParticipantRow) (row : ConversationParticipantRow)
    (es : List (String × Conversation))
    → has_key row.id es ≡ false
    → All (IsGroup done) es
    → All (IsGroup (done ++ row ∷ [])) es
rest-IsGroup done row [] h g = tt
rest-IsGroup done row ((k, c) ∷ es) h (e, g) =
    (IsGroup-other done row k c (ground arith) e, rest-IsGroup done row es (ground arith) g)

store-IsGroup :
    (done : List ConversationParticipantRow) (row : ConversationParticipantRow) (new : Conversation)
    (es : List (String × Conversation))
    → HasDistinctKeys es
    → IsGroup (done ++ row ∷ []) (row.id, new)
    → All (IsGroup done) es
    → All (IsGroup (done ++ row ∷ [])) (store row.id new es)
unfolding store
store-IsGroup done row new [] d n g = (n, tt)
store-IsGroup done row new ((k, c) ∷ es) (alone, d) n (e, g) = elim (Bool-cases (k == row.id)) [
  | inl same ↦
      let q : k ≡ row.id = (eq_iff k row.id).0 same in
      rw same (
        subst (λ j. IsGroup (done ++ row ∷ []) (j, new)) (sym q) n,
        rest-IsGroup done row es (ap (λ j. has_key j es) (sym q) ∙ alone) g,
      )
  | inr other ↦ rw other (IsGroup-other done row k c other e, store-IsGroup done row new es d n g)
]

lookup-IsGroup :
    (done : List ConversationParticipantRow) (k : String) (es : List (String × Conversation))
    (c : Conversation)
    → All (IsGroup done) es
    → lookup k es ≡ some c
    → IsGroup done (k, c)
unfolding lookup
lookup-IsGroup done k [] c g h = ground arith
lookup-IsGroup done k ((j, d) ∷ es) c (e, g) h = elim (Bool-cases (j == k)) [
  | inl same ↦
      let q : d ≡ c = ground arith in
      subst (λ i. IsGroup done (i, c)) ((eq_iff j k).0 same) (subst (λ x. IsGroup done (j, x)) q e)
  | inr other ↦ lookup-IsGroup done k es c g (ground arith)
]

lookup-has_key :
    (k : String) (es : List (String × Conversation)) → lookup k es ≡ none → has_key k es ≡ false
unfolding lookup
lookup-has_key k [] h = refl
lookup-has_key k ((j, d) ∷ es) h = ground (arith, lookup-has_key k es)

record IsGrouped (done : List ConversationParticipantRow) (m : JsMap Conversation) : Type 0 where
  distinct : HasDistinctKeys m.entries
  groups : All (IsGroup done) m.entries
  keys : (k : String) → has_key k m.entries ≡ mentions done k

add_row-IsGrouped :
    (done : List ConversationParticipantRow) (row : ConversationParticipantRow)
    (m : JsMap Conversation)
    → IsGrouped done m
    → IsGrouped (done ++ row ∷ []) (add_row m row)
unfolding add_row JsMap.set JsMap.get
add_row-IsGrouped done row m w = record {
  distinct = set-HasDistinctKeys row.id _ m.entries w.distinct;
  groups =
      store-IsGroup done row _ m.entries w.distinct (new_group (lookup row.id m.entries) refl)
        w.groups;
  keys = λ k. ground (
    arith,
    has_key-store row.id k
        (pushed (found_or_new (lookup row.id m.entries) row) (row_participant row)) m.entries,
    w.keys k,
    mentions-append k done row,
  );
}
  where
    new_group :
        (o : Option Conversation)
        → lookup row.id m.entries ≡ o
        → IsGroup (done ++ row ∷ []) (row.id, pushed (found_or_new o row) (row_participant row))
    new_group none h = (
      refl,
      ground (
        arith,
        participants_in-append row.id done row,
        eq_refl row.id,
        participants_in-none row.id done,
        w.keys row.id,
        lookup-has_key row.id m.entries h,
      ),
    )
    new_group (some c) h =
        let old : IsGroup done (row.id, c) = lookup-IsGroup done row.id m.entries c w.groups h in
        (old.0, ground (arith, old.1, participants_in-append row.id done row, eq_refl row.id))

add_rows-IsGrouped :
    (done rows : List ConversationParticipantRow) (m : JsMap Conversation)
    → IsGrouped done m
    → IsGrouped (done ++ rows) (add_rows m rows)
unfolding add_rows
add_rows-IsGrouped done [] m w = subst (λ d. IsGrouped d m) (sym (append-nil done)) w
add_rows-IsGrouped done (row ∷ rows) m w =
    subst (λ d. IsGrouped d (add_rows (add_row m row) rows)) (append_assoc done (row ∷ []) rows)
      (add_rows-IsGrouped (done ++ row ∷ []) rows (add_row m row) (add_row-IsGrouped done row m w))

All-values :
    (rows : List ConversationParticipantRow) (es : List (String × Conversation))
    → All (IsGroup rows) es
    → All (λ c. c.participants ≡ participants_in c.id rows) (map (λ e. e.1) es)
All-values rows [] g = tt
All-values rows ((k, c) ∷ es) (e, g) =
    (e.1 ∙ ap (λ i. participants_in i rows) (sym e.0), All-values rows es g)

has_id_values :
    (rows : List ConversationParticipantRow) (es : List (String × Conversation)) (id : String)
    → All (IsGroup rows) es
    → any (λ c. c.id == id) (map (λ e. e.1) es) ≡ has_key id es
has_id_values rows [] id g = refl
has_id_values rows ((k, c) ∷ es) id (e, g) =
    ap (λ i. i == id || any (λ c. c.id == id) (map (λ e. e.1) es)) (e.0)
    ∙ ap (λ b. k == id || b) (has_id_values rows es id g)

-- The conversation of every id has exactly the participants of the rows with that id, in the order
-- of the rows; and an id has a conversation exactly when some row carries it.
pub rows_to_conversations-participants :
    (rows : List ConversationParticipantRow)
    → All (λ c. c.participants ≡ participants_in c.id rows) (rows_to_conversations rows)
      × ((id : String) → any (λ c. c.id == id) (rows_to_conversations rows) ≡ mentions rows id)
unfolding rows_to_conversations JsMap.values
rows_to_conversations-participants rows =
    let w : IsGrouped rows (add_rows JsMap.new_map rows) =
      add_rows-IsGrouped [] rows JsMap.new_map
        (record { distinct = tt; groups = tt; keys = λ k. refl }) in
    (All-values rows _ w.groups, λ id. has_id_values rows _ id w.groups ∙ w.keys id)
