-- ===== src/Adapters/Notifier.antt =====
-- src/adapters/message-notifier/http-message-notifier.ts. What `fetch` comes to is a parameter.
use jiffy_messaging.Base.{◌≡◌, refl, ◌↔◌, String, Bool, true, false, List, [], ◌∷◌, arith}
use jiffy_messaging.Exec.{Result, ok, err}
use jiffy_messaging.Domain.{Instant, Message}

-- The body of the request.
pub record Notification : Type 0 where
  pub message_id : String
  pub conversation_id : String
  pub sender_id : String
  pub recipient_ids : List String
  pub body : String
  pub created_at : Instant

abbrev pub notification : Message → List String → Notification
notification message recipient_ids = record {
  message_id = message.id;
  conversation_id = message.conversation_id;
  sender_id = message.sender_id;
  recipient_ids = recipient_ids;
  body = message.body;
  created_at = message.created_at;
}

-- What is logged: `warn` for a status that is not ok, `error` for a `fetch` that rejects.
pub data Log : Type 0 where
  rejected unreachable : Log

abbrev log_of : Result Bool → List Log
log_of (ok true) = []
log_of (ok false) = rejected ∷ []
log_of (err e) = unreachable ∷ []

-- What `notify` does: the requests that it makes, what it logs, and how its promise ends.
pub record Notified : Type 0 where
  pub requests : List Notification
  pub logs : List Log
  pub result : Result (Unit {0})

-- `fetch` answers whether the status is ok.
module _ (fetch : Notification → Result Bool) where
  unfoldable pub notify : Message → List String → Notified
  notify message [] = record { requests = []; logs = []; result = ok tt }
  notify message (r ∷ rs) = record {
    requests = notification message (r ∷ rs) ∷ [];
    logs = log_of (fetch (notification message (r ∷ rs)));
    result = ok tt;
  }

  -- Notifying never fails, whatever the host does: it makes one request, with the message and all of
  -- its recipients, or none where there is no recipient.
  pub notify_lem :
      (message : Message) (recipient_ids : List String)
      → ((notify message recipient_ids).result ≡ ok tt)
        × (((notify message recipient_ids).requests ≡ []) ↔ (recipient_ids ≡ []))
        × ((r : String) (rs : List String)
            → recipient_ids ≡ r ∷ rs
            → (notify message recipient_ids).requests ≡ notification message recipient_ids ∷ [])
  unfolding notify
  notify_lem message [] = (refl, ((λ _. refl), (λ _. refl)), λ r rs h. ground arith)
  notify_lem message (x ∷ xs) = (refl, ((λ h. ground arith), (λ h. ground arith)), λ r rs h. refl)
