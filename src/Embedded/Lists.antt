-- ===== src/Embedded/Lists.antt =====
-- `listConversations` of the embedded service, in terms of what the in-memory stores hold.
use jiffy_messaging.Base.{
  ℕ, ◌<◌, ◌≡◌, ◌⊎◌, inl, inr, refl, sym, ◌∙◌, subst, String, Bool, true, false, Option, none, some,
  List, [], ◌∷◌, arith, map, keep_if, head?, find, All, All-map, eq_iff, Option-cases, Bool-cases,
}
use jiffy_messaging.InMemory.Newest.{IsNewest, select_messages-IsNewest}
use jiffy_messaging.InMemory.Listing.{is_shown}
use jiffy_messaging.Exec.{ok, Exec}
use jiffy_messaging.Ports.{TokenVerifier}
use jiffy_messaging.Domain.{
  Instant, Message, Conversation, ConversationParticipant, is_participant, is_user, participant_of,
}
use jiffy_messaging.JsMap
use jiffy_messaging.Core.{
  all_of, preview, Preview, is_listed, with_last_message, with_after, cleared_at_of,
  list_conversations,
}
use jiffy_messaging.Core.Reading.{newest, find_of_any}
use jiffy_messaging.InMemory
use jiffy_messaging.InMemory.{Memory, select_messages}
use jiffy_messaging.Embedded.{in_memory_messaging}

module _ {S A B : Type 0} (f : A → Exec S B) (g : A → B) (s : S)
    (each : (x : A) → f x s ≡ (ok (g x), s)) where
  -- Calls that return and change nothing, all together.
  pub all_of-reads : (xs : List A) → all_of f xs s ≡ (ok (map g xs), s)
  unfolding all_of
  all_of-reads [] = refl
  all_of-reads (x ∷ xs) = ground (arith, each x, all_of-reads xs)

-- The preview that the stores give of a conversation.
abbrev pub stored_preview : String → List Message → Conversation → Preview
stored_preview user_id ms c = record {
  conversation = c;
  cleared_at = cleared_at_of c user_id;
  last_message = head? (select_messages c.id (with_after newest (cleared_at_of c user_id)) ms);
}

abbrev pub stored_list : String → List Message → List Conversation → List Conversation
stored_list user_id ms cs = map with_last_message (
    keep_if is_listed
      (map (stored_preview user_id ms) (keep_if (λ c. is_participant c user_id) cs)))

-- The user may see the message, who takes part in the conversation `c` as `p`.
abbrev pub IsVisible : Conversation → ConversationParticipant → Message → Type 0
IsVisible c p m =
    (m.conversation_id ≡ c.id) × ((at : Instant) → p.cleared_at ≡ some at → at < m.created_at)

-- A list of a user's conversations, from those that are stored and from the stored messages. `newest`
-- is nothing or a newest of the messages that the user may see.
pub data IsListOf (user_id : String) (ms : List Message)
    : List Conversation → List Conversation → Type 0 where
  end : IsListOf user_id ms [] []
  of_others :
      (c : Conversation) (stored cs : List Conversation)
      → is_participant c user_id ≡ false
      → IsListOf user_id ms stored cs
      → IsListOf user_id ms (c ∷ stored) cs
  cleared :
      (c : Conversation) (stored cs : List Conversation) (p : ConversationParticipant)
      (at : Instant)
      → find (is_user user_id) c.participants ≡ some p
      → p.cleared_at ≡ some at
      → All (λ m. ¬ IsVisible c p m) ms
      → IsListOf user_id ms stored cs
      → IsListOf user_id ms (c ∷ stored) cs
  listed :
      (c : Conversation) (stored cs : List Conversation) (p : ConversationParticipant)
      (newest : Option Message)
      → find (is_user user_id) c.participants ≡ some p
      → IsNewest (IsVisible c p) ms newest
      → (p.cleared_at ≡ none) ⊎ ((m : Message) × (newest ≡ some m))
      → IsListOf user_id ms stored cs
      → IsListOf user_id ms (c ∷ stored) (record c { last_message = some newest } ∷ cs)

IsVisible-is_shown :
    (c : Conversation) (p : ConversationParticipant) (o : Option Instant) (m : Message)
    → p.cleared_at ≡ o
    → (IsVisible c p m → is_shown c.id (with_after newest o) m ≡ true)
      × (is_shown c.id (with_after newest o) m ≡ true → IsVisible c p m)
IsVisible-is_shown c p none m e = (
  λ (there, later). ground (arith, eq_iff m.conversation_id c.id),
  λ h. (ground (arith, eq_iff m.conversation_id c.id), λ at f. absurd (ground arith)),
)
IsVisible-is_shown c p (some at) m e = (
  λ (there, later). ground (arith, eq_iff m.conversation_id c.id, later at e),
  λ h. (ground (arith, eq_iff m.conversation_id c.id), λ at f. ground arith),
)

IsNewest-iff :
    (P Q : Message → Type 0) (ms : List Message) (o : Option Message)
    → ((m : Message) → (P m → Q m) × (Q m → P m))
    → IsNewest Q ms o
    → IsNewest P ms o
IsNewest-iff P Q ms none same h = All-map _ _ (λ m none_of p. none_of ((same m).0 p)) ms h
IsNewest-iff P Q ms (some k) same (stored, shown, newest) =
    (stored, (same k).1 shown, All-map _ _ (λ m up p. up ((same m).0 p)) ms newest)

with_after-limit : (o : Option Instant) → (with_after newest o).limit ≡ some 1
with_after-limit none = refl
with_after-limit (some at) = refl

stored_preview-IsNewest :
    (user_id : String) (ms : List Message) (c : Conversation) (p : ConversationParticipant)
    → cleared_at_of c user_id ≡ p.cleared_at
    → IsNewest (IsVisible c p) ms (stored_preview user_id ms c).last_message
stored_preview-IsNewest user_id ms c p same =
    IsNewest-iff (IsVisible c p) _ ms _
      (λ m. IsVisible-is_shown c p (cleared_at_of c user_id) m (sym same))
      (select_messages-IsNewest c.id (with_after newest (cleared_at_of c user_id)) ms
        (with_after-limit (cleared_at_of c user_id)))

-- Listed, or deleted and with nothing to show.
is_listed-cases :
    (q : Preview)
    → ((is_listed q ≡ true) × ((q.cleared_at ≡ none) ⊎ ((m : Message) × (q.last_message ≡ some m))))
      ⊎ ((is_listed q ≡ false)
          × ((at : Instant) × (q.cleared_at ≡ some at))
          × (q.last_message ≡ none))
is_listed-cases q = elim (Option-cases q.cleared_at) [
  | inl never ↦ inl (ground arith, inl never)
  | inr (at, deleted) ↦ elim (Option-cases q.last_message) [
    | inl nothing ↦ inr (ground arith, (at, deleted), nothing)
    | inr (m, there) ↦ inl (ground arith, inr (m, there))
  ]
]

stored_list-IsListOf :
    (user_id : String) (ms : List Message) (cs : List Conversation)
    → IsListOf user_id ms cs (stored_list user_id ms cs)
stored_list-IsListOf user_id ms [] = end
stored_list-IsListOf user_id ms (c ∷ cs) =
    let rest = stored_list-IsListOf user_id ms cs in
    elim (Bool-cases (is_participant c user_id)) [
      | inr outsider ↦ rw outsider (of_others c cs _ outsider rest)
      | inl member ↦
          let (p, found) =
            find_of_any (is_user user_id) c.participants (unfold is_participant in member) in
          let same : cleared_at_of c user_id ≡ p.cleared_at =
            (unfold cleared_at_of participant_of in ground arith) in
          let newest = stored_preview-IsNewest user_id ms c p same in
          elim (is_listed-cases (stored_preview user_id ms c)) [
            | inl (there, inl never) ↦
                rw (member, there) (listed c cs _ p _ found newest (inl (sym same ∙ never)) rest)
            | inl (there, inr last) ↦
                rw (member, there) (listed c cs _ p _ found newest (inr last) rest)
            | inr (left_out, (at, deleted), nothing) ↦
                rw (member, left_out)
                  (cleared c cs _ p at found (sym same ∙ deleted)
                    (subst (IsNewest (IsVisible c p) ms) nothing newest) rest)
          ]
    ]

module _ (random_uuid : ℕ → String) (verifier : TokenVerifier Memory)
    (rule : String → List String → Bool) where
  pub list_conversations-stored :
      (user_id : String) (s : Memory)
      → list_conversations (in_memory_messaging random_uuid verifier rule) user_id s
        ≡ (ok (stored_list user_id s.messages (JsMap.values s.conversations)), s)
  unfolding list_conversations InMemory.find_by_participant
  list_conversations-stored user_id s = ground (
    arith,
    all_of-reads (preview (in_memory_messaging random_uuid verifier rule) user_id)
        (stored_preview user_id s.messages) s
        (λ (c : Conversation). unfold preview InMemory.list_by_conversation in refl)
        (keep_if (λ (c : Conversation). is_participant c user_id) (JsMap.values s.conversations)),
  )

  -- On the in-memory stores, the list of a user's conversations always succeeds and writes nothing.
  -- In the order in which they are stored, it has exactly those that the user takes part in, but for
  -- those that they deleted for themselves and of which no later message is stored. Each comes with
  -- a newest of its messages, where one that the user deleted counts only what was created after
  -- that, or with none if there is no such message.
  pub list_conversations-IsListOf :
      (user_id : String) (s : Memory)
      → (cs : List Conversation) × (list_conversations
            (in_memory_messaging random_uuid verifier rule)
            user_id
            s
          ≡ (ok cs, s))
        × IsListOf user_id s.messages (JsMap.values s.conversations) cs
  list_conversations-IsListOf user_id s = (
    stored_list user_id s.messages (JsMap.values s.conversations),
    list_conversations-stored user_id s,
    stored_list-IsListOf user_id s.messages (JsMap.values s.conversations),
  )
