-- ===== src/Notification/Examples.antt =====
-- The theorems on notifications at one message each.
use snbmodules.Common.{none, some, List, [], ◌∷◌, text, arith, Option, ltb}
use snbmodules.Enums.NotificationType.{start_transfer}
use snbmodules.Notification.Interface.{
  NotificationData, Connections, notification_of, send_notification, listen_tries,
}
use snbmodules.Notification.Sending.{Sent, send_notification-Sent}
use snbmodules.Notification.Listening.{Listened, listen_tries-Listened}

abbrev connections : Connections
connections = record {
  bookkeepers_conn = text "bk1" ∷ [];
  clients_conn = text "c1" ∷ [];
  max_tries = 3;
}

-- The second try succeeds.
send_notification-Sent_example :
    Sent
      (λ n. ltb 0 n)
      connections
      (notification_of start_transfer (text "s") (text "c1") [])
      (text "c1")
      3
      (send_notification
        (λ n. ltb 0 n)
        connections
        start_transfer
        (text "s")
        (text "c1")
        (text "c1")
        []
        []).0
      []
      (send_notification
        (λ n. ltb 0 n)
        connections
        start_transfer
        (text "s")
        (text "c1")
        (text "c1")
        []
        []).1
send_notification-Sent_example =
    send_notification-Sent (λ n. ltb 0 n) connections start_transfer (text "s") (text "c1")
      (text "c1") [] [] (omega arith)

abbrev from_client : NotificationData
from_client = notification_of start_transfer (text "c1") (text "c2") []

abbrev inbox : List (Option NotificationData)
inbox = some (record from_client { source_id = text "x" }) ∷ some from_client ∷ none ∷ []

listen_tries-Listened_example :
    Listened
      (text "c1")
      3
      inbox
      (listen_tries 3 (text "c1") inbox).0
      (listen_tries 3 (text "c1") inbox).1
listen_tries-Listened_example =
    listen_tries-Listened 3 (text "c1") inbox (omega arith) (omega arith)
