-- ===== src/Embedded/Invariant.antt =====
-- What holds of the in-memory stores after any history of calls of the service.
use jiffy_messaging.Base.{
  ℕ, ◌+◌, ◌≤◌, ◌<◌, ◌≡◌, refl, sym, ◌∙◌, ap, String, true, false, some, List, [], ◌∷◌, arith, All,
  All-append, All-map, All-update_first, is_some, update_first, any, ◌==◌, eq_iff, Option-cases,
  Bool-cases, inl, inr,
}
use jiffy_messaging.Ports.{NewMessage}
use jiffy_messaging.Domain.{
  Instant, Message, ConversationParticipant, Conversation, is_user, is_participant,
}
use jiffy_messaging.JsMap
use jiffy_messaging.JsMap.{JsMap}
use jiffy_messaging.JsMap.Laws.{get-set}
use jiffy_messaging.InMemory
use jiffy_messaging.InMemory.{Memory, set_participant, in_conversation, tombstone, has_id}

abbrev pub HasBlankTombstone : Message → Type 0
HasBlankTombstone m = is_some m.deleted_at ≡ true → m.body ≡ ""

-- The message stands in a conversation that exists, and its sender takes part in it.
abbrev pub HasAuthor : JsMap Conversation → Message → Type 0
HasAuthor convs m =
    (c : Conversation) × (JsMap.get convs m.conversation_id ≡ some c)
    × (is_participant c m.sender_id ≡ true)

module _ (random_uuid : ℕ → String) where
  abbrev pub IsKeyed : Memory → String → Conversation → Type 0
  IsKeyed s k c = (c.id ≡ k) × ((i : ℕ) × (i < s.drawn) × (k ≡ random_uuid i))

  pub record IsWellFormed (s : Memory) : Type 0 where
    pub blank : All HasBlankTombstone s.messages
    pub authored : All (HasAuthor s.conversations) s.messages
    pub past : All (λ m. m.created_at ≤ s.clock) s.messages
    pub keyed :
        (k : String) (c : Conversation) → JsMap.get s.conversations k ≡ some c → IsKeyed s k c

-- Every conversation is still there, with all who took part in it.
abbrev Extends : JsMap Conversation → JsMap Conversation → Type 0
Extends convs convs' =
    (k : String) (c : Conversation)
    → JsMap.get convs k ≡ some c
    → (c' : Conversation) × (JsMap.get convs' k ≡ some c')
      × ((u : String) → is_participant c u ≡ true → is_participant c' u ≡ true)

HasAuthor-Extends :
    (convs convs' : JsMap Conversation)
    → Extends convs convs'
    → (m : Message) → HasAuthor convs m
    → HasAuthor convs' m
HasAuthor-Extends convs convs' ext m (c, found, member) =
    let (c', found', keeps) = ext m.conversation_id c found in
    (c', found', keeps m.sender_id member)

module _ (f : ConversationParticipant → ConversationParticipant)
    (keeps_id : (p : ConversationParticipant) → (f p).user_id ≡ p.user_id) where
  any-update :
      (u v : String) (ps : List ConversationParticipant)
      → any (is_user v) (update_first (is_user u) f ps) ≡ any (is_user v) ps
  any-update u v [] = refl
  any-update u v (p ∷ ps) = ground (arith, keeps_id p, any-update u v ps)

  -- Changing a participant's dates changes neither who takes part nor which conversation it is.
  pub is_participant-set_participant :
      (u v : String) (c : Conversation)
      → is_participant (set_participant f u c) v ≡ is_participant c v
  unfolding is_participant set_participant
  is_participant-set_participant u v c = any-update u v c.participants

  set-Extends :
      (convs : JsMap Conversation) (cid u : String) (c : Conversation)
      → JsMap.get convs cid ≡ some c
      → Extends convs (JsMap.set convs cid (set_participant f u c))
  set-Extends convs cid u c found k d e = elim (Bool-cases (cid == k)) [
    | inl same ↦ (
      set_participant f u c,
      ground (arith, get-set convs cid k (set_participant f u c)),
      λ v h. ground (arith, eq_iff cid k, is_participant-set_participant u v c),
    )
    | inr other ↦ (d, ground (arith, get-set convs cid k (set_participant f u c)), λ v h. h)
  ]

  set-IsKeyed :
      (random_uuid : ℕ → String) (s : Memory) (cid u : String) (c : Conversation)
      → IsWellFormed random_uuid s
      → JsMap.get s.conversations cid ≡ some c
      → (k : String) (d : Conversation)
      → JsMap.get (JsMap.set s.conversations cid (set_participant f u c)) k ≡ some d
      → IsKeyed random_uuid s k d
  unfolding set_participant
  set-IsKeyed random_uuid s cid u c w found k d h = elim (Bool-cases (cid == k)) [
    | inl same ↦
        let e : cid ≡ k = (eq_iff cid k).0 same in
        let (named, drawn) = w.keyed cid c found in
        (
          ground (arith, get-set s.conversations cid k (set_participant f u c)),
          (drawn.0, drawn.1, sym e ∙ drawn.2),
        )
    | inr other ↦
        w.keyed k d (ground (arith, get-set s.conversations cid k (set_participant f u c)))
  ]

  pub in_conversation-IsWellFormed :
      (random_uuid : ℕ → String) (cid u : String) (s : Memory)
      → IsWellFormed random_uuid s
      → IsWellFormed random_uuid (in_conversation f cid u s).1
  in_conversation-IsWellFormed random_uuid cid u s w =
      elim (Option-cases (JsMap.get s.conversations cid)) [
        | inl missing ↦ unfold in_conversation in rw (missing, in_conversation) w
        | inr (c, found) ↦
            unfold in_conversation in
            rw (found, in_conversation)
              (record {
                blank = w.blank;
                authored =
                    All-map (HasAuthor s.conversations)
                      (HasAuthor (JsMap.set s.conversations cid (set_participant f u c)))
                      (HasAuthor-Extends s.conversations _
                        (set-Extends s.conversations cid u c found))
                      s.messages w.authored;
                past = w.past;
                keyed = set-IsKeyed random_uuid s cid u c w found;
              })
      ]

soft_delete_cases :
    (P : Memory → Type 0) (id : String) (at : Instant) (s : Memory)
    → P s
    → P (record s { messages = update_first (has_id id) (tombstone at) s.messages })
    → P (InMemory.soft_delete id at s).1
unfolding InMemory.soft_delete
soft_delete_cases P id at s same marked = ground arith

module _ (random_uuid : ℕ → String) where
  pub soft_delete-IsWellFormed :
      (id : String) (at : Instant) (s : Memory)
      → IsWellFormed random_uuid s
      → IsWellFormed random_uuid (InMemory.soft_delete id at s).1
  soft_delete-IsWellFormed id at s w =
      soft_delete_cases (IsWellFormed random_uuid) id at s w (record {
        blank =
            All-update_first HasBlankTombstone (has_id id) (tombstone at) (λ m h _. refl) s.messages
              w.blank;
        authored =
            All-update_first (HasAuthor s.conversations) (has_id id) (tombstone at) (λ m h. h)
              s.messages w.authored;
        past =
            All-update_first (λ m. m.created_at ≤ s.clock) (has_id id) (tombstone at) (λ m h. h)
              s.messages w.past;
        keyed = w.keyed;
      })

  author-of :
      (s : Memory) (cid sender : String) (c : Conversation)
      → IsWellFormed random_uuid s
      → JsMap.get s.conversations cid ≡ some c
      → is_participant c sender ≡ true
      → (d : Conversation) × (JsMap.get s.conversations c.id ≡ some d)
        × (is_participant d sender ≡ true)
  author-of s cid sender c w found member =
      (c, ap (JsMap.get s.conversations) (w.keyed cid c found).0 ∙ found, member)

  grow-IsKeyed :
      (s : Memory) (more : List Message) (k : String) (c : Conversation)
      → IsKeyed random_uuid s k c
      → IsKeyed random_uuid (record s { drawn = s.drawn + 1; messages = more }) k c
  grow-IsKeyed s more k c (named, (i, below, e)) = (named, (i, omega arith, e))

  pub create_message-IsWellFormed :
      (input : NewMessage) (c : Conversation) (s : Memory)
      → IsWellFormed random_uuid s
      → JsMap.get s.conversations input.conversation_id ≡ some c
      → is_participant c input.sender_id ≡ true
      → IsWellFormed random_uuid
          (InMemory.create_message random_uuid (record input { conversation_id = c.id }) s).1
  unfolding InMemory.create_message
  create_message-IsWellFormed input c s w found member = record {
    blank = All-append HasBlankTombstone s.messages _ w.blank ((λ h. cc), tt);
    authored =
        All-append (HasAuthor s.conversations) s.messages _ w.authored
          (author-of s input.conversation_id input.sender_id c w found member, tt);
    past = All-append (λ m. m.created_at ≤ s.clock) s.messages _ w.past (omega arith, tt);
    keyed = λ k d h.
        grow-IsKeyed s
          (InMemory.create_message random_uuid (record input { conversation_id = c.id })
            s).1.messages
          k d (w.keyed k d h);
  }

  module _ (uuid_injective : (i j : ℕ) → random_uuid i ≡ random_uuid j → i ≡ j) where
    -- A key that is in use is not drawn again.
    drawn-ne :
        (s : Memory) (k : String) (c : Conversation)
        → IsWellFormed random_uuid s
        → JsMap.get s.conversations k ≡ some c
        → (random_uuid s.drawn == k) ≡ false
    drawn-ne s k c w found =
        let (i, below, e) = (w.keyed k c found).1 in
        elim (Bool-cases (random_uuid s.drawn == k)) [
          | inl same ↦ absurd (
              omega (arith, uuid_injective s.drawn i ((eq_iff (random_uuid s.drawn) k).0 same ∙ e)))
          | inr other ↦ other
        ]

    drawn-Extends :
        (s : Memory) (new : Conversation)
        → IsWellFormed random_uuid s
        → Extends s.conversations (JsMap.set s.conversations (random_uuid s.drawn) new)
    drawn-Extends s new w k c found = (
      c,
      ground (arith, get-set s.conversations (random_uuid s.drawn) k new, drawn-ne s k c w found),
      λ u h. h,
    )

    drawn-IsKeyed :
        (s : Memory) (new : Conversation) (k : String) (c : Conversation)
        → IsWellFormed random_uuid s
        → new.id ≡ random_uuid s.drawn
        → JsMap.get (JsMap.set s.conversations (random_uuid s.drawn) new) k ≡ some c
        → IsKeyed random_uuid (record s { drawn = s.drawn + 1 }) k c
    drawn-IsKeyed s new k c w named h = elim (Bool-cases (random_uuid s.drawn == k)) [
      | inl same ↦
          let e : random_uuid s.drawn ≡ k = (eq_iff (random_uuid s.drawn) k).0 same in
          (
            ground (arith, get-set s.conversations (random_uuid s.drawn) k new),
            (s.drawn, omega arith, sym e),
          )
      | inr other ↦
          grow-IsKeyed s s.messages k c
            (w.keyed k c (ground (arith, get-set s.conversations (random_uuid s.drawn) k new)))
    ]

    pub create_conversation-IsWellFormed :
        (ids : List String) (s : Memory)
        → IsWellFormed random_uuid s
        → IsWellFormed random_uuid (InMemory.create_conversation random_uuid ids s).1
    unfolding InMemory.create_conversation
    create_conversation-IsWellFormed ids s w = record {
      blank = w.blank;
      authored =
          All-map (HasAuthor s.conversations) _
            (HasAuthor-Extends s.conversations _
              (drawn-Extends s (InMemory.new_conversation random_uuid ids s) w))
            s.messages w.authored;
      past = w.past;
      keyed = λ k c h. drawn-IsKeyed s (InMemory.new_conversation random_uuid ids s) k c w refl h;
    }
