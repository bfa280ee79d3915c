-- ===== src/Server/Deleting.antt =====
-- What a request to the server of src/server/create-server.ts that deletes a message puts on the
-- sockets, where messages are delivered in the process.
use jiffy_messaging.Base.{
  ◌≡◌, refl, sym, ap, subst, ◌∙◌, String, Bool, true, Option, none, some, ◌⊎◌, inl, inr, arith, not,
  is_some, ◌==◌, Bool-cases,
}
use jiffy_messaging.Errors.{Error}
use jiffy_messaging.Exec.{Result, ok, err, pure, detached, ◌>>=◌, ◌>>◌}
use jiffy_messaging.Exec.Laws.{continue_cases}
use jiffy_messaging.Domain.{Instant, Message}
use jiffy_messaging.Core.Deleting as Core
use jiffy_messaging.Core.Deleting.{delete_message-ok_iff}
use jiffy_messaging.Ports.{VerifiedIdentity}
use jiffy_messaging.Http.App.{bearer_token}
use jiffy_messaging.Server.Frames.{IsOnSockets, publish-IsOnSockets}
use jiffy_messaging.Core.{MessagingService, delete_message, delete_found, require_participant}
use jiffy_messaging.Http.Responses.{
  Response, reply, message_json, error_handler, error_handler_lem, respond,
}
use jiffy_messaging.Http.Router.{delete_message_by_id, handle}
use jiffy_messaging.Http.App.{Packages, api}
use jiffy_messaging.Http.App.Passage.{
  serve-Passage, too_many_from_address, no_token, bad_token, too_many_of_user, handled,
}
use jiffy_messaging.Websocket.Registry.{Socket}
use jiffy_messaging.Adapters.Postgres.Messages.{soft_delete}
use jiffy_messaging.Server.{
  Live, Process, CreateServerConfig, lifted, messaging, lifted_packages, readiness_check, request,
}
use jiffy_messaging.Server.Posting.{limited, at_handler}
use jiffy_messaging.Server.Quiet.{require_participant-Keeps}

error_handler-not_ok : (e : Error) → ¬ ((error_handler e).status ≡ 200)
error_handler-not_ok e h = elim (error_handler_lem e) [
  | inl (core, payload, inl bad_request) ↦ ground arith
  | inl (core, payload, inr (inl forbidden)) ↦ ground arith
  | inl (core, payload, inr (inr not_found)) ↦ ground arith
  | inr (foreign, internal) ↦ ground (arith, ap (λ (r : Response). r.status) internal)
]

module _ {S : Type 0} (config : CreateServerConfig S) (is_open : Socket → Bool) where
  -- A deletion that fails has put nothing on the sockets.
  abbrev Outcome : Live → Result Message × Process S → Type 0
  Outcome before (ok message, p) = Unit
  Outcome before (err e, p) = p.live ≡ before

  module _ (in_process : config.message_bus ≡ none) (now : S → Instant) where
    abbrev service : MessagingService (Process S)
    service = messaging config is_open now

    announce-Outcome :
        (id : String) (at : Instant) (before : Live) (p : Process S)
        → p.live ≡ before
        → Outcome before (
            (do
              deleted ← service.messages.soft_delete id at
              detached (service.message_bus.publish deleted)
              pure deleted)
              p)
    unfolding messaging detached
    announce-Outcome id at before p same =
        continue_cases (Outcome before) _ (service.messages.soft_delete id at p).0
          (service.messages.soft_delete id at p).1 (λ message e. tt) (λ e h. same)

    delete_found-Outcome :
        (id message_id user_id : String) (o : Option Message) (before : Live) (p : Process S)
        → p.live ≡ before
        → Outcome before (delete_found service id message_id user_id o p)
    unfolding delete_found
    delete_found-Outcome id message_id user_id none before p same = same
    delete_found-Outcome id message_id user_id (some m) before p same =
        elim (Bool-cases (not (m.conversation_id == id))) [
          | inl elsewhere ↦ rw elsewhere same
          | inr there ↦ elim (Bool-cases (not (m.sender_id == user_id))) [
            | inl foreign ↦ rw (there, foreign) same
            | inr own ↦ elim (Bool-cases (is_some m.deleted_at)) [
              | inl gone ↦ rw (there, own, gone) tt
              | inr standing ↦
                  rw (there, own, standing)
                    (announce-Outcome message_id (service.now p) before p same)
            ]
          ]
        ]

    delete_message-Outcome :
        (id message_id user_id : String) (p : Process S)
        → Outcome p.live (delete_message service id message_id user_id p)
    unfolding delete_message messaging
    delete_message-Outcome id message_id user_id p =
        continue_cases (Outcome p.live) _ (require_participant service id user_id p).0
          (require_participant service id user_id p).1
          (λ c e.
            let q = (require_participant service id user_id p).1 in
            continue_cases (Outcome p.live) _ (service.messages.find_by_id message_id q).0
              (service.messages.find_by_id message_id q).1
              (λ found f.
                delete_found-Outcome id message_id user_id found p.live _
                  (require_participant-Keeps config is_open now id user_id p))
              (λ e h. require_participant-Keeps config is_open now id user_id p))
          (λ e h. require_participant-Keeps config is_open now id user_id p)

    -- What became of the message that was found: a tombstone comes back as it is and nothing goes
    -- out, or the store marked it as deleted at the present time and what it returned went out.
    abbrev pub IsToldOf : String → Message → Process S → Message → Live → Type 0
    IsToldOf message_id original read message after =
        ((is_some original.deleted_at ≡ true) × (message ≡ original) × (after ≡ read.live))
        ⊎ ((original.deleted_at ≡ none)
            × ((soft_delete config.pool message_id (now read.outside) read.outside).0 ≡ ok message)
            × IsOnSockets config is_open message
                (soft_delete config.pool message_id (now read.outside) read.outside).1 read.live
                after)

    Outcome-IsToldOf :
        (id message_id user_id : String) (original message : Message) (read p' : Process S)
        → Core.Outcome service id message_id user_id original read message p'
        → IsToldOf message_id original read message p'.live
    unfolding messaging
    Outcome-IsToldOf id message_id user_id original message read p' (inl (gone, same, kept)) =
        inl (gone, same, ap (λ (q : Process S). q.live) kept)
    Outcome-IsToldOf id message_id user_id original message read p' (inr (standing, made, told)) =
        inr (
          standing,
          ap (λ q. q.0) made,
          subst
              (IsOnSockets config is_open message
                (soft_delete config.pool message_id (now read.outside) read.outside).1 read.live)
              (sym (ap (λ (q : Process S). q.live) told))
              (publish-IsOnSockets config is_open message _ read.live in_process refl),
        )

    -- The core deleted the message that the request names, for the user. `at_handler` is the state
    -- that the core is called in.
    abbrev pub IsAccepted : String → String → String → Process S → Response × Process S → Type 0
    IsAccepted id message_id user_id at_handler q =
        (message : Message) × (deleted : Core.Deleted service id message_id user_id at_handler
          message q.1)
        × (q.0 ≡ reply 200 (message_json message))
        × (deleted.read.live ≡ at_handler.live)
        × IsToldOf message_id deleted.original deleted.read message q.1.live

    abbrev pub IsRefused : Live → Response × Process S → Type 0
    IsRefused before q = ¬ (q.0.status ≡ 200) × (q.1.live ≡ before)

    respond-cases :
        (id message_id user_id : String) (p : Process S) (r : Result Message × Process S)
        → delete_message service id message_id user_id p ≡ r
        → Outcome p.live r
        → IsAccepted id message_id user_id p (respond (λ m. reply 200 (message_json m)) r)
          ⊎ IsRefused p.live (respond (λ m. reply 200 (message_json m)) r)
    unfolding respond messaging
    respond-cases id message_id user_id p (ok message, p') e h =
        let deleted = (delete_message-ok_iff service id message_id user_id p message p').0 e in
        inl (
          message,
          deleted,
          refl,
          sym (ap (λ q. q.1.live) deleted.found_message) ∙ sym (ap (λ q. q.1.live) deleted.found),
          Outcome-IsToldOf id message_id user_id deleted.original message deleted.read p'
              deleted.outcome,
        )
    respond-cases id message_id user_id p (err f, p') e h = inr (error_handler-not_ok f, h)

    module _ (packages : Packages S) (ip : String) (authorization : Option String) where
      -- Accepted for the user of the token that the request carries.
      abbrev pub IsDeleted : String → String → Process S → Response × Process S → Type 0
      IsDeleted id message_id p q =
          (token : String) × (identity : VerifiedIdentity) × (bearer_token authorization
            ≡ some token)
          × ((config.token_verifier.verify token
                (limited config is_open in_process now packages ip authorization p)).0
              ≡ ok identity)
          × IsAccepted id message_id identity.user_id
              (at_handler config is_open in_process now packages ip authorization token
                identity.user_id p)
              q

      -- With the bus of the process, a request to delete a message either is answered 200, or is
      -- answered otherwise and has put nothing on any socket. Where it is answered 200, the verifier
      -- accepted its token; the user of the token takes part in the conversation that the request
      -- names, and the message that it names was found, is one of that conversation and theirs, as
      -- `delete_message-ok_iff` says. If the message was a tombstone, the answer is that tombstone,
      -- and nothing was put on any socket. If not, the answer is what the store returned when it was
      -- told to delete this message at the present time, and exactly that went to the open sockets
      -- that are registered for the participants of its conversation, as a look-up of it found them,
      -- participant by participant, or that look-up failed, which nothing handles. The answer of the
      -- limiters is taken to be 429.
      pub request-Deleted :
          (count_published : S → S) (id message_id : String) (p : Process S)
          → packages.limited_response.status ≡ 429
          → IsDeleted id message_id p (
              request config is_open now packages count_published
                (record {
                  ip = ip;
                  authorization = authorization;
                  target = api (delete_message_by_id id message_id);
                })
                p)
            ⊎ IsRefused p.live (
                request config is_open now packages count_published
                  (record {
                    ip = ip;
                    authorization = authorization;
                    target = api (delete_message_by_id id message_id);
                  })
                  p)
      unfolding request handle
      request-Deleted count_published id message_id p limited_429 =
          elim (serve-Passage (lifted_packages packages) service
            (λ p. record p { outside = count_published p.outside })
            (λ token. lifted (config.token_verifier.verify token))
            (some (lifted (readiness_check config is_open))) ip authorization
            (delete_message_by_id id message_id) p) [
              | too_many_from_address full e ↦
                  inr (subst (IsRefused p.live) (sym e) ((λ h. ground arith), refl))
              | no_token missing e ↦
                  inr (subst (IsRefused p.live) (sym e) ((λ h. ground arith), refl))
              | bad_token token f given refused e ↦
                  inr (subst (IsRefused p.live) (sym e) ((λ h. ground arith), refl))
              | too_many_of_user token identity given accepted full e ↦
                  inr (subst (IsRefused p.live) (sym e) ((λ h. ground arith), refl))
              | handled token identity let_in given accepted let_in' e ↦
                  elim (respond-cases id message_id identity.user_id _ _ refl (
                    delete_message-Outcome id message_id identity.user_id (
                      at_handler config is_open in_process now packages ip authorization token
                        identity.user_id p))) [
                          | inl done ↦ inl (
                            token,
                            identity,
                            given,
                            accepted,
                            subst
                                (IsAccepted id message_id identity.user_id (
                                  at_handler config is_open in_process now packages ip authorization
                                    token identity.user_id p))
                                (sym e) done,
                          )
                          | inr refused ↦ inr (subst (IsRefused p.live) (sym e) refused)
                        ]
            ]
