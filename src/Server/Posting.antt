-- ===== src/Server/Posting.antt =====
-- What a request to the server of src/server/create-server.ts that sends a message puts on the
-- sockets, where messages are delivered in the process.
use jiffy_messaging.Base.{
  ◌≡◌, refl, sym, ap, subst, String, Bool, Option, none, some, ◌⊎◌, inl, inr, arith,
}
use jiffy_messaging.Errors.{Error}
use jiffy_messaging.Exec.{Result, ok, err}
use jiffy_messaging.Domain.{Instant, Message}
use jiffy_messaging.Server.Frames.{IsOnSockets}
use jiffy_messaging.Ports.{VerifiedIdentity}
use jiffy_messaging.Core.Sending.{Sent, send_message-ok_iff}
use jiffy_messaging.Http.App.{bearer_token}
use jiffy_messaging.Core.{send_message, MessagingService}
use jiffy_messaging.Http.Responses.{Response, reply, message_json, error_handler, error_handler_lem}
use jiffy_messaging.Http.Router.{
  JsonField, text, array, something_else, counted, post_message, handle,
}
use jiffy_messaging.Http.App.{Packages, api}
use jiffy_messaging.Http.App.Passage.{
  serve-Passage, too_many_from_address, no_token, bad_token, too_many_of_user, handled,
}
use jiffy_messaging.Websocket.Registry.{Socket}
use jiffy_messaging.Server.Sending as Sending
use jiffy_messaging.Server.{
  Live, Process, CreateServerConfig, lifted, messaging, lifted_packages, readiness_check, request,
}

error_handler-not_created : (e : Error) → ¬ ((error_handler e).status ≡ 201)
error_handler-not_created e h = elim (error_handler_lem e) [
  | inl (core, payload, inl bad_request) ↦ ground arith
  | inl (core, payload, inr (inl forbidden)) ↦ ground arith
  | inl (core, payload, inr (inr not_found)) ↦ ground arith
  | inr (foreign, internal) ↦ ground (arith, ap (λ (r : Response). r.status) internal)
]

module _ {S : Type 0} (config : CreateServerConfig S) (is_open : Socket → Bool) where
  module _ (in_process : config.message_bus ≡ none) (now : S → Instant) where
    abbrev service : MessagingService (Process S)
    service = messaging config is_open now

    -- The core sent what the request asked for, by the user, and the message that the store made of
    -- it went to the sockets. `at_handler` is the state that the core is called in.
    abbrev pub IsAccepted : String → String → String → Process S → Response × Process S → Type 0
    IsAccepted id user_id body at_handler q =
        (message : Message) × (p' : Process S) × (sent : Sent service
          (record { conversation_id = id; sender_id = user_id; body = body }) at_handler message p')
        × (q.0 ≡ reply 201 (message_json message))
        × IsOnSockets config is_open message sent.created.outside at_handler.live q.1.live

    counted-cases :
        (count_published : Process S → Process S) (id user_id body : String) (p : Process S)
        (r : Result Message × Process S)
        → ((p : Process S) → (count_published p).live ≡ p.live)
        → send_message service (record { conversation_id = id; sender_id = user_id; body = body }) p
          ≡ r
        → Sending.Outcome config is_open p.live r
        → IsAccepted id user_id body p (counted service count_published user_id r)
          ⊎ (¬ ((counted service count_published user_id r).0.status ≡ 201)
              × ((counted service count_published user_id r).1.live ≡ p.live))
    counted-cases count id user_id body p (ok message, p') kept e h =
        let sent = (send_message-ok_iff service _ p message p').0 e in
        inl (
          message,
          p',
          sent,
          refl,
          subst (IsOnSockets config is_open message sent.created.outside p.live) (sym (kept p'))
              (Sending.Sent-IsOnSockets config is_open now _ p p' message in_process sent),
        )
    counted-cases count id user_id body p (err f, p') kept e h =
        inr (error_handler-not_created f, h)

    abbrev pub IsRefused : Live → Response × Process S → Type 0
    IsRefused before q = ¬ (q.0.status ≡ 201) × (q.1.live ≡ before)

    handle-cases :
        (count_published : Process S → Process S) (user_id id : String) (body : JsonField)
        (p : Process S)
        → ((p : Process S) → (count_published p).live ≡ p.live)
        → ((b : String) × (body ≡ text b)
            × IsAccepted id user_id b p
                (handle service count_published user_id (post_message id body) p))
          ⊎ IsRefused p.live (handle service count_published user_id (post_message id body) p)
    unfolding handle
    handle-cases count user_id id (text body) p kept =
        elim (counted-cases count id user_id body p _ kept refl
          (Sending.send_message-Outcome config is_open now _ p)) [
            | inl accepted ↦ inl (body, refl, accepted)
            | inr refused ↦ inr refused
          ]
    handle-cases count user_id id (array ts) p kept = inr ((λ h. ground arith), refl)
    handle-cases count user_id id something_else p kept = inr ((λ h. ground arith), refl)

    module _ (packages : Packages S) (ip : String) (authorization : Option String) where
      -- The state behind the limiter by address, and that behind the verifier and the limiter by user.
      abbrev pub limited : Process S → S
      limited p = (packages.ip_limit ip p.outside).1

      abbrev pub at_handler : String → String → Process S → Process S
      at_handler token user_id p = record p {
        outside =
            (packages.user_limit user_id (config.token_verifier.verify token (limited p)).1).1;
      }

      -- Accepted for the user of the token that the request carries.
      abbrev pub IsPosted : String → JsonField → Process S → Response × Process S → Type 0
      IsPosted id body p q =
          (token : String) × (identity : VerifiedIdentity) × (b : String) × (bearer_token
              authorization
            ≡ some token)
          × ((config.token_verifier.verify token (limited p)).0 ≡ ok identity)
          × (body ≡ text b)
          × IsAccepted id identity.user_id b (at_handler token identity.user_id p) q

      -- With the bus of the process, a request to send a message either is answered 201, or is
      -- answered otherwise and has put nothing on any socket. Where it is answered 201, the verifier
      -- accepted its token; the body is a text; the core sent it, by the user of the token, in the
      -- conversation that the request names, as `send_message-ok_iff` says; the answer is the message
      -- that the store made; and exactly this message went to the open sockets that are registered for
      -- the participants of its conversation, as a look-up of it found them, participant by
      -- participant, or that look-up failed, which nothing handles. Neither opens or
      -- closes a connection. The answer of the limiters is taken to be 429.
      pub request-Posted :
          (count_published : S → S) (id : String) (body : JsonField) (p : Process S)
          → packages.limited_response.status ≡ 429
          → IsPosted id body p (
              request config is_open now packages count_published
                (record {
                  ip = ip;
                  authorization = authorization;
                  target = api (post_message id body);
                })
                p)
            ⊎ IsRefused p.live (
                request config is_open now packages count_published
                  (record {
                    ip = ip;
                    authorization = authorization;
                    target = api (post_message id body);
                  })
                  p)
      unfolding request
      request-Posted count_published id body p limited_429 =
          elim (serve-Passage (lifted_packages packages) service
            (λ p. record p { outside = count_published p.outside })
            (λ token. lifted (config.token_verifier.verify token))
            (some (lifted (readiness_check config is_open))) ip authorization (post_message id body)
            p) [
              | too_many_from_address full e ↦
                  inr (subst (IsRefused p.live) (sym e) ((λ h. ground arith), refl))
              | no_token missing e ↦
                  inr (subst (IsRefused p.live) (sym e) ((λ h. ground arith), refl))
              | bad_token token f given refused e ↦
                  inr (subst (IsRefused p.live) (sym e) ((λ h. ground arith), refl))
              | too_many_of_user token identity given accepted full e ↦
                  inr (subst (IsRefused p.live) (sym e) ((λ h. ground arith), refl))
              | handled token identity let_in given accepted let_in' e ↦
                  elim (handle-cases (λ p. record p { outside = count_published p.outside })
                    identity.user_id id body (at_handler token identity.user_id p) (λ p. refl)) [
                      | inl (b, is_text, posted) ↦ inl (
                        token,
                        identity,
                        b,
                        given,
                        accepted,
                        is_text,
                        subst
                            (IsAccepted id identity.user_id b (at_handler token identity.user_id p))
                            (sym e) posted,
                      )
                      | inr refused ↦ inr (subst (IsRefused p.live) (sym e) refused)
                    ]
            ]
