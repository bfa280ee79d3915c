-- ===== src/Tests/Http.antt =====
-- Instances of the theorems on src/http.
use jiffy_messaging.Base.{
  ◌==◌, Option, ◌≡◌, ◌≢◌, refl, ap, false, String, true, none, some, [], ◌∷◌, arith, ◌⊎◌, ℕ,
}
use jiffy_messaging.Exec.{ok}
use jiffy_messaging.Domain.{is_participant, Instant}
use jiffy_messaging.JsMap
use jiffy_messaging.JsMap.{lookup, store}
use jiffy_messaging.InMemory
use jiffy_messaging.InMemory.{Memory}
use jiffy_messaging.Core.{delete_conversation, require_participant, list_messages}
use jiffy_messaging.Http.Responses.{failure, reply, respond, messages_json}
use jiffy_messaging.Http.Router.{
  handle, natural, not_natural, array, JsonField, get_conversations, get_messages,
}
use jiffy_messaging.Http.Validation.{
  CallsCore, IsTurnedDown, IsLimit, IsDate, post_conversation-checked, get_messages-checked,
}
use jiffy_messaging.Http.Privacy.{delete_conversation-unseen}
use jiffy_messaging.Http.App.{Packages, serve, api}
use jiffy_messaging.Http.App.Passage.{Passage, serve-Passage}
use jiffy_messaging.Tests.Data.{uuid, open_verifier, everyone, service, memory, cleared}

abbrev uncounted : Memory → Memory
uncounted s = s

alice_clears : delete_conversation service "x" "alice" memory ≡ (ok tt, cleared)
unfolding delete_conversation require_participant is_participant InMemory.find_conversation
    InMemory.clear InMemory.in_conversation InMemory.set_participant JsMap.get JsMap.set lookup
    store
alice_clears = refl

alice-ne-bob : ◌≢◌ {A = String} "alice" "bob"
alice-ne-bob h = let e : false ≡ true = ap (λ s. s == "bob") h in ground arith

delete_conversation-unseen_example :
    (handle service uncounted "bob" get_conversations cleared).0
    ≡ (handle service uncounted "bob" get_conversations memory).0
delete_conversation-unseen_example =
    (delete_conversation-unseen uuid open_verifier everyone uncounted "x" "alice" "bob" memory
      cleared alice_clears alice-ne-bob).0

abbrev pair : JsonField
pair = array (some "alice" ∷ some "bob" ∷ [])

post_conversation-checked_example :
    CallsCore service uncounted "alice" pair memory
    ⊎ IsTurnedDown service uncounted "alice" pair memory
post_conversation-checked_example = post_conversation-checked service uncounted "alice" pair memory

abbrev no_date : Option (Option Instant)
no_date = none

get_messages-checked_example :
    ((n : Option ℕ) × (at : Option Instant) × IsLimit (some (natural 1)) n
      × IsDate none at
      × (handle service uncounted "bob" (get_messages "x" (some (natural 1)) none) memory
          ≡ respond
              (λ ms. reply 200 (messages_json ms))
              (list_messages service "x" "bob"
                (record { limit = n; before = at; after = none })
                memory)))
    ⊎ (((some (natural 1) ≡ some not_natural)
          ⊎ (some (natural 1) ≡ some (natural 0))
          ⊎ (no_date ≡ some none))
        × ((handle service uncounted "bob" (get_messages "x" (some (natural 1)) none) memory).1
            ≡ memory)
        × ((handle service uncounted "bob"
              (get_messages "x" (some (natural 1)) none)
              memory).0.status
            ≡ 400))
get_messages-checked_example =
    get_messages-checked service uncounted "bob" "x" (some (natural 1)) none memory

-- A limiter by address that lets nobody in but the local host.
abbrev packages : Packages Memory
packages = record {
  cors_response = failure 204 "";
  ip_limit = λ ip s. (ip == "127.0.0.1", s);
  user_limit = λ user_id s. (true, s);
  limited_response = failure 429 "Too many requests";
  not_found_response = failure 404 "Not found";
}

serve-Passage_example :
    Passage packages service uncounted open_verifier.verify none "127.0.0.1"
      (some "Bearer alice")
      get_conversations
      memory
      (serve packages service uncounted open_verifier.verify none
        (record {
          ip = "127.0.0.1";
          authorization = some "Bearer alice";
          target = api get_conversations;
        })
        memory)
serve-Passage_example =
    serve-Passage packages service uncounted open_verifier.verify none "127.0.0.1"
      (some "Bearer alice") get_conversations memory
