-- ===== src/Server/Quiet.antt =====
-- The requests to the server of src/server/create-server.ts that put nothing on the sockets.
use jiffy_messaging.Base.{
  ◌≡◌, refl, ap, ◌∙◌, ℕ, not, leb, length, String, Bool, Option, none, some, List, [], ◌∷◌, inl,
  inr, Bool-cases, Option-cases,
}
use jiffy_messaging.Exec.{Result, ok, err, Exec, ◌>>=◌, ◌>>◌}
use jiffy_messaging.Exec.Laws.{continue_cases}
use jiffy_messaging.Domain.{Instant, is_participant}
use jiffy_messaging.Ports.{ListMessagesOptions}
use jiffy_messaging.Core.{
  MessagingService, require_participant, create_conversation, get_conversation, list_conversations,
  list_messages, mark_read, delete_conversation, all_of, preview,
}
use jiffy_messaging.Http.Responses.{Response, respond}
use jiffy_messaging.Http.Router.{
  Call, post_conversation, get_conversations, get_conversation_by_id, post_message, get_messages,
  post_read, delete_message_by_id, delete_conversation_by_id, handle, post_checked, list_checked,
  texts_of, checked_limit, checked_before, max_participants, includes,
}
use jiffy_messaging.Http.App.{Packages, api}
use jiffy_messaging.Http.App.Passage.{
  serve-Passage, too_many_from_address, no_token, bad_token, too_many_of_user, handled,
}
use jiffy_messaging.Websocket.Registry.{Socket}
use jiffy_messaging.Server.{
  Process, CreateServerConfig, lifted, messaging, lifted_packages, readiness_check, request,
}
use jiffy_messaging.Server.Sending.{gate_or_default-live}

-- The call neither sends nor deletes a message.
abbrev pub IsQuiet : Call → Type 0
IsQuiet (post_message id body) = ⊥
IsQuiet (delete_message_by_id id message_id) = ⊥
IsQuiet call = Unit

module _ {S : Type 0} where
  -- The action leaves alone what the process keeps itself.
  abbrev pub Keeps : {A : Type 0} → Exec (Process S) A → Type 0
  Keeps m = (p : Process S) → (m p).1.live ≡ p.live

  abbrev Keeps' : (Process S → Response × Process S) → Type 0
  Keeps' m = (p : Process S) → (m p).1.live ≡ p.live

  >>=-Keeps :
      {A B : Type 0} (m : Exec (Process S) A) (f : A → Exec (Process S) B)
      → Keeps m
      → ((a : A) → Keeps (f a))
      → Keeps (m >>= f)
  >>=-Keeps m f km kf p =
      continue_cases (λ q. q.1.live ≡ p.live) f (m p).0 (m p).1 (λ a e. kf a (m p).1 ∙ km p)
        (λ e h. km p)

  >>-Keeps :
      {A B : Type 0} (m : Exec (Process S) A) (n : Exec (Process S) B)
      → Keeps m
      → Keeps n
      → Keeps (m >> n)
  >>-Keeps m n km kn p =
      continue_cases (λ q. q.1.live ≡ p.live) (λ _. n) (m p).0 (m p).1 (λ a e. kn (m p).1 ∙ km p)
        (λ e h. km p)

  all_of-Keeps :
      {A B : Type 0} (f : A → Exec (Process S) B)
      → ((a : A) → Keeps (f a))
      → (xs : List A) → Keeps (all_of f xs)
  unfolding all_of
  all_of-Keeps f kf [] p = refl
  all_of-Keeps f kf (x ∷ xs) p = all_of-Keeps f kf xs (f x p).1 ∙ kf x p

  live-respond :
      {A : Type 0} (send : A → Response) (q : Result A × Process S)
      → (respond send q).1.live ≡ q.1.live
  unfolding respond
  live-respond send (ok a, p) = refl
  live-respond send (err e, p) = refl

module _ {S : Type 0} (config : CreateServerConfig S) (is_open : Socket → Bool)
    (now : S → Instant) where
  abbrev service : MessagingService (Process S)
  service = messaging config is_open now

  pub require_participant-Keeps :
      (id user_id : String) → Keeps (require_participant service id user_id)
  unfolding require_participant messaging
  require_participant-Keeps id user_id =
      >>=-Keeps (service.conversations.find_by_id id) _ (λ p. refl)
        (λ found p. elim (Option-cases found) [
          | inl missing ↦ rw missing refl
          | inr (c, there) ↦ rw there (elim (Bool-cases (is_participant c user_id)) [
            | inl member ↦ rw member refl
            | inr outsider ↦ rw outsider refl
          ])
        ])

  create_conversation-Keeps :
      (requester : String) (ids : List String) → Keeps (create_conversation service requester ids)
  unfolding create_conversation messaging
  create_conversation-Keeps requester ids =
      >>=-Keeps (service.gate.can_create_conversation requester ids) _
        (gate_or_default-live config.conversation_gate requester ids)
        (λ allowed p. elim (Bool-cases allowed) [
          | inl said_yes ↦ rw said_yes refl
          | inr said_no ↦ rw said_no refl
        ])

  list_conversations-Keeps : (user_id : String) → Keeps (list_conversations service user_id)
  unfolding list_conversations preview messaging
  list_conversations-Keeps user_id =
      >>=-Keeps (service.conversations.find_by_participant user_id) _ (λ p. refl)
        (λ found.
          >>=-Keeps (all_of (preview service user_id) found) _
            (all_of-Keeps (preview service user_id)
              (λ c. >>=-Keeps _ _ (λ p. refl) (λ last p. refl)) found)
            (λ previews p. refl))

  list_messages-Keeps :
      (id user_id : String) (options : ListMessagesOptions)
      → Keeps (list_messages service id user_id options)
  unfolding list_messages messaging
  list_messages-Keeps id user_id options =
      >>=-Keeps _ _ (require_participant-Keeps id user_id) (λ c p. refl)

  mark_read-Keeps : (id user_id : String) (at : Instant) → Keeps (mark_read service id user_id at)
  unfolding mark_read messaging
  mark_read-Keeps id user_id at =
      >>-Keeps (require_participant service id user_id) _ (require_participant-Keeps id user_id)
        (λ p. refl)

  delete_conversation-Keeps : (id user_id : String) → Keeps (delete_conversation service id user_id)
  unfolding delete_conversation messaging
  delete_conversation-Keeps id user_id =
      >>-Keeps (require_participant service id user_id) _ (require_participant-Keeps id user_id)
        (λ p. refl)

  post_checked-Keeps :
      (count_published : Process S → Process S) (user_id : String) (o : Option (List String))
      → Keeps' (post_checked service count_published user_id o)
  post_checked-Keeps count user_id none p = refl
  post_checked-Keeps count user_id (some ids) p =
      elim (Bool-cases (not (leb (length ids) max_participants))) [
        | inl many ↦ rw many refl
        | inr few ↦ elim (Bool-cases (not (includes ids user_id))) [
          | inl outside ↦ rw (few, outside) refl
          | inr inside ↦
              rw (few, inside)
                (live-respond _ (create_conversation service user_id ids p)
                  ∙ create_conversation-Keeps user_id ids p)
        ]
      ]

  list_checked-Keeps :
      (count_published : Process S → Process S) (user_id id : String) (limit : Option (Option ℕ))
      (before : Option (Option Instant))
      → Keeps' (list_checked service count_published user_id id limit before)
  list_checked-Keeps count user_id id none before p = refl
  list_checked-Keeps count user_id id (some limit) none p = refl
  list_checked-Keeps count user_id id (some limit) (some before) p =
      live-respond _ (list_messages service id user_id _ p) ∙ list_messages-Keeps id user_id _ p

  handle-Keeps :
      (count_published : Process S → Process S) (user_id : String) (call : Call) (p : Process S)
      → IsQuiet call
      → (handle service count_published user_id call p).1.live ≡ p.live
  unfolding handle get_conversation
  handle-Keeps count user_id (post_message id body) p h = absurd h
  handle-Keeps count user_id (delete_message_by_id id message_id) p h = absurd h
  handle-Keeps count user_id (post_conversation participant_ids) p h =
      post_checked-Keeps count user_id (texts_of participant_ids) p
  handle-Keeps count user_id get_conversations p h =
      live-respond _ (list_conversations service user_id p) ∙ list_conversations-Keeps user_id p
  handle-Keeps count user_id (get_conversation_by_id id) p h =
      live-respond _ (require_participant service id user_id p)
      ∙ require_participant-Keeps id user_id p
  handle-Keeps count user_id (get_messages id limit before) p h =
      list_checked-Keeps count user_id id (checked_limit limit) (checked_before before) p
  handle-Keeps count user_id (post_read id) p h =
      live-respond _ (mark_read service id user_id (service.now p) p)
      ∙ mark_read-Keeps id user_id (service.now p) p
  handle-Keeps count user_id (delete_conversation_by_id id) p h =
      live-respond _ (delete_conversation service id user_id p)
      ∙ delete_conversation-Keeps id user_id p

  -- A call that neither sends nor deletes a message, however it is answered, puts nothing on any
  -- socket, opens and closes none, and leaves no rejection unhandled.
  pub request-quiet :
      (packages : Packages S) (count_published : S → S) (ip : String)
      (authorization : Option String) (call : Call) (p : Process S)
      → IsQuiet call
      → (request config is_open now packages count_published
          (record { ip = ip; authorization = authorization; target = api call })
          p).1.live
        ≡ p.live
  unfolding request
  request-quiet packages count_published ip authorization call p quiet =
      elim (serve-Passage (lifted_packages packages) service
        (λ p. record p { outside = count_published p.outside })
        (λ token. lifted (config.token_verifier.verify token))
        (some (lifted (readiness_check config is_open))) ip authorization call p) [
          | too_many_from_address full e ↦ ap (λ q. q.1.live) e
          | no_token missing e ↦ ap (λ q. q.1.live) e
          | bad_token token f given refused e ↦ ap (λ q. q.1.live) e
          | too_many_of_user token identity given accepted full e ↦ ap (λ q. q.1.live) e
          | handled token identity let_in given accepted let_in' e ↦
              ap (λ q. q.1.live) e
              ∙ handle-Keeps (λ p. record p { outside = count_published p.outside })
                  identity.user_id call _ quiet
        ]
