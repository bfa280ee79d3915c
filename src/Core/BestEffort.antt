-- ===== src/Core/BestEffort.antt =====
-- Delivery is best effort: what the bus and the notifier do never shows in an answer.
use jiffy_messaging.Base.{◌≡◌, String, arith}
use jiffy_messaging.Exec.{detached}
use jiffy_messaging.Ports.{MessageBus, MessageNotifier}
use jiffy_messaging.Core.{
  MessagingService, SendMessageInput, require_participant, send_message, delete_message,
  delete_found,
}

module _ {S : Type 0} (service : MessagingService S) (bus : MessageBus S)
    (notifier : MessageNotifier S) where
  -- Put any bus and any notifier in the place of the service's, failing ones too: a send and a delete
  -- give the answer that they gave before, an error or a message.
  pub delivery-irrelevant :
      (input : SendMessageInput) (cid message_id requester_id : String) (s : S)
      → ((send_message (record service { message_bus = bus; notifier = notifier }) input s).0
          ≡ (send_message service input s).0)
        × ((delete_message
              (record service { message_bus = bus; notifier = notifier })
              cid
              message_id
              requester_id
              s).0
            ≡ (delete_message service cid message_id requester_id s).0)
  unfolding send_message delete_message delete_found require_participant detached
  delivery-irrelevant input cid message_id requester_id s = (ground arith, ground arith)
