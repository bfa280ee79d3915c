-- ===== src/Core/Reading.antt =====
-- What the two listing methods of src/core/messaging-service.ts show to a participant, over any
-- message store that lists in order.
use jiffy_messaging.Base.{
  ◌<◌, ◌≡◌, refl, String, true, some, List, [], ◌∷◌, map, arith, All, keep_if, head?, inl, inr,
  Option, Bool, Option-cases, any, find, All-map, none, ap, ◌∙◌, sym, subst, Bool-cases,
}
use jiffy_messaging.Exec.{Result, Exec, ok, err, ◌>>=◌, pure}
use jiffy_messaging.Exec.Laws.{>>=-eq-ok}
use jiffy_messaging.Domain.{
  Instant, Message, Conversation, ConversationParticipant, is_user, is_participant, participant_of,
}
use jiffy_messaging.Ports.{ListMessagesOptions, no_options}
use jiffy_messaging.Ports.Listing.{IsOldestFirst, IsBefore, IsAfter, IsShown, ListsInOrder}
use jiffy_messaging.Core.{
  MessagingService, require_participant, list_messages, list_conversations, all_of, preview,
  Preview, combine, is_listed, with_last_message, with_after, cleared_at_of,
}
use jiffy_messaging.Core.Access.{require_participant-eq-ok}

-- The message is later than the user's deletion of the conversation, if there is one, and otherwise
-- later than `after`, if that is given. `p` is how the user takes part.
abbrev pub IsFreshFor : Option Instant → ConversationParticipant → Message → Type 0
IsFreshFor after p m =
    ((at : Instant) → p.cleared_at ≡ some at → at < m.created_at)
    × ((at : Instant) → p.cleared_at ≡ none → after ≡ some at → at < m.created_at)

-- A message that the listing of `cid` may show to a participant.
abbrev pub IsShownTo : String → ListMessagesOptions → ConversationParticipant → Message → Type 0
IsShownTo cid options p m =
    (m.conversation_id ≡ cid) × IsBefore options.before m × IsFreshFor options.after p m

-- Of a conversation that the user deleted for themselves, only what came later counts.
abbrev pub IsFresh : String → Conversation → Type 0
IsFresh user_id c =
    (p : ConversationParticipant) (at : Instant)
    → find (is_user user_id) c.participants ≡ some p
    → p.cleared_at ≡ some at
    → (m : Message) × (c.last_message ≡ some (some m))
      × (at < m.created_at)
      × (m.conversation_id ≡ c.id)

pub find_of_any :
    {A : Type 0} (q : A → Bool) (xs : List A) → any q xs ≡ true → (x : A) × (find q xs ≡ some x)
find_of_any q [] h = absurd (ground arith)
find_of_any q (x ∷ xs) h = elim (Bool-cases (q x)) [
  | inl here ↦ (x, ground arith)
  | inr there ↦ let (y, e) = find_of_any q xs (ground arith) in (y, ground arith)
]

combine-eq-ok :
    {A : Type 0} (r : Result A) (rest : Result (List A)) (ys : List A)
    → combine r rest ≡ ok ys
    → (y : A) × (zs : List A) × (r ≡ ok y) × (rest ≡ ok zs) × (ys ≡ y ∷ zs)
unfolding combine
combine-eq-ok (ok y) (ok zs) ys h = (y, zs, refl, refl, ground arith)
combine-eq-ok (ok y) (err e) ys h = ground arith
combine-eq-ok (err e) rest ys h = ground arith

module _ {S A B : Type 0} (f : A → Exec S B) (Q : B → Type 0)
    (each : (x : A) (s s' : S) (y : B) → f x s ≡ (ok y, s') → Q y) where
  -- What each call returns, if it returns, all of them return together.
  all_of-All : (xs : List A) (s : S) (ys : List B) → (all_of f xs s).0 ≡ ok ys → All Q ys
  unfolding all_of
  all_of-All [] s ys h = let e : ys ≡ [] = ground arith in rw e tt
  all_of-All (x ∷ xs) s ys h =
      let (y, zs, head, rest, e) = combine-eq-ok (f x s).0 (all_of f xs (f x s).1).0 ys h in
      rw e (each x s (f x s).1 y (λ i. (head i, (f x s).1)), all_of-All xs (f x s).1 zs rest)

abbrev pub newest : ListMessagesOptions
newest = record no_options { limit = some 1 }

-- A preview knows the user's own deletion, and its last message is one that survives it.
abbrev IsHonest : String → Preview → Type 0
IsHonest user_id p =
    (p.cleared_at ≡ cleared_at_of p.conversation user_id)
    × ((at : Instant) (m : Message)
        → p.cleared_at ≡ some at
        → p.last_message ≡ some m
        → (at < m.created_at) × (m.conversation_id ≡ p.conversation.id))

IsHonest-IsFresh :
    (user_id : String) (p : Preview)
    → IsHonest user_id p
    → is_listed p ≡ true
    → IsFresh user_id (with_last_message p)
unfolding cleared_at_of participant_of
IsHonest-IsFresh user_id p (same, survives) listed q at found e =
    elim (Option-cases p.last_message) [
      | inl nothing ↦ absurd (ground arith)
      | inr (m, last) ↦
          let (later, of_it) = survives at m (same ∙ ground arith) last in
          (m, ap some last, later, of_it)
    ]

keep_if-IsFresh :
    (user_id : String) (ps : List Preview)
    → All (IsHonest user_id) ps
    → All (IsFresh user_id) (map with_last_message (keep_if is_listed ps))
keep_if-IsFresh user_id [] h = tt
keep_if-IsFresh user_id (p ∷ ps) (honest, h) = elim (Bool-cases (is_listed p)) [
  | inl listed ↦ rw listed (IsHonest-IsFresh user_id p honest listed, keep_if-IsFresh user_id ps h)
  | inr left_out ↦ rw left_out (keep_if-IsFresh user_id ps h)
]

-- The same of an instant of deletion that stands on its own.
shown_by_case :
    (cid : String) (options : ListMessagesOptions) (o : Option Instant) (m : Message)
    → IsShown cid (with_after options o) m
    → (m.conversation_id ≡ cid)
      × IsBefore options.before m
      × ((at : Instant) → o ≡ some at → at < m.created_at)
      × ((at : Instant) → o ≡ none → options.after ≡ some at → at < m.created_at)
shown_by_case cid options none m (there, before, after) =
    (there, before, λ at e. absurd (ground arith), λ at e f. subst (λ o. IsAfter o m) f after)
shown_by_case cid options (some later) m (there, before, after) =
    (there, before, λ at e. ground arith, λ at e f. absurd (ground arith))

IsShown-IsShownTo :
    (cid uid : String) (options : ListMessagesOptions) (c : Conversation)
    (p : ConversationParticipant) (m : Message)
    → find (is_user uid) c.participants ≡ some p
    → IsShown cid (with_after options (cleared_at_of c uid)) m
    → IsShownTo cid options p m
unfolding cleared_at_of participant_of
IsShown-IsShownTo cid uid options c p m found shown =
    let same : cleared_at_of c uid ≡ p.cleared_at = ground arith in
    let (there, before, later, after) =
      shown_by_case cid options p.cleared_at m
        (subst (λ o. IsShown cid (with_after options o) m) same shown) in
    (there, before, (later, after))

module _ {S : Type 0} (service : MessagingService S) (law : ListsInOrder service.messages) where
  head-after :
      (cid : String) (options : ListMessagesOptions) (at : Instant) (ms : List Message)
      (m : Message)
      → All (IsShown cid (with_after options (some at))) ms
      → head? ms ≡ some m
      → (at < m.created_at) × (m.conversation_id ≡ cid)
  head-after cid options at [] m h e = ground arith
  head-after cid options at (n ∷ ns) m (p, h) e = ground arith

  preview-IsHonest :
      (user_id : String) (c : Conversation) (s s' : S) (p : Preview)
      → preview service user_id c s ≡ (ok p, s')
      → IsHonest user_id p
  unfolding preview
  preview-IsHonest user_id c s s' p h =
      let (ms, s1, listed, made) =
        >>=-eq-ok
          (service.messages.list_by_conversation c.id (with_after newest (cleared_at_of c user_id)))
          (λ ms. pure (record {
            conversation = c;
            cleared_at = cleared_at_of c user_id;
            last_message = head? ms;
          }))
          s h in
      let (shown, sorted) = law.shown c.id _ s s1 ms listed in
      let own : p.conversation ≡ c = ground arith in
      let cleared : p.cleared_at ≡ cleared_at_of c user_id = ground arith in
      let last : p.last_message ≡ head? ms = ground arith in
      (
        cleared ∙ ap (λ d. cleared_at_of d user_id) (sym own),
        λ at m e f.
            let after =
              subst (λ o. All (IsShown c.id (with_after newest o)) ms) (sym cleared ∙ e) shown in
            let (later, of_it) = head-after c.id newest at ms m after (sym last ∙ f) in
            (later, of_it ∙ ap (λ (d : Conversation). d.id) (sym own)),
      )

  -- If the message store keeps what its port promises of listings: whoever lists the messages
  -- of a conversation with success takes part in it and sees, oldest first, only messages of that
  -- conversation that were created before the bound that they gave. If they deleted the
  -- conversation for themselves, each was created after that; if not, each was created after the
  -- other bound, if they gave one.
  pub list_messages-IsShown :
      (cid uid : String) (options : ListMessagesOptions) (s s' : S) (ms : List Message)
      → list_messages service cid uid options s ≡ (ok ms, s')
      → (c : Conversation) × (p : ConversationParticipant) × (looked_up : S)
        × (service.conversations.find_by_id cid s ≡ (ok (some c), looked_up))
        × (find (is_user uid) c.participants ≡ some p)
        × All (IsShownTo cid options p) ms
        × IsOldestFirst ms
  unfolding list_messages is_participant
  list_messages-IsShown cid uid options s s' ms h =
      let (c, s1, required, listed) =
        >>=-eq-ok (require_participant service cid uid)
          (λ c.
            service.messages.list_by_conversation cid (with_after options (cleared_at_of c uid)))
          s h in
      let (found, member) = require_participant-eq-ok service cid uid s required in
      let (p, takes_part) = find_of_any (is_user uid) c.participants member in
      let (shown, sorted) =
        law.shown cid (with_after options (cleared_at_of c uid)) s1 s' ms listed in
      (
        c,
        p,
        s1,
        found,
        takes_part,
        All-map _ _ (λ m. IsShown-IsShownTo cid uid options c p m takes_part) ms shown,
        sorted,
      )

  -- If the message store keeps what its port promises of listings: in a list of a user's
  -- conversations that is returned, one that the user deleted for themselves stands only with a
  -- last message that was created after that.
  pub list_conversations-IsFresh :
      (user_id : String) (s s' : S) (cs : List Conversation)
      → list_conversations service user_id s ≡ (ok cs, s')
      → All (IsFresh user_id) cs
  unfolding list_conversations
  list_conversations-IsFresh user_id s s' cs h =
      let (found, s1, e1, rest) =
        >>=-eq-ok (service.conversations.find_by_participant user_id)
          (λ found. all_of (preview service user_id) found >>= λ ps.
            pure (map with_last_message (keep_if is_listed ps)))
          s h in
      let (ps, s2, e2, last) =
        >>=-eq-ok (all_of (preview service user_id) found)
          (λ ps. pure (map with_last_message (keep_if is_listed ps))) s1 rest in
      let e : map with_last_message (keep_if is_listed ps) ≡ cs = ground arith in
      rw (← e) (
        keep_if-IsFresh user_id ps (
          all_of-All (preview service user_id) (IsHonest user_id) (preview-IsHonest user_id) found
            s1 ps (ground arith)))
