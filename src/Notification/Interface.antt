-- ===== src/Notification/Interface.antt =====
-- send_notification and listen_for_notification. The connections of IOManager are parameters:
-- whether the n-th try_send succeeds, and what the receiver's next calls of try_receive return.
use snbmodules.Common.{
  length, ℕ, zero, suc, Bool, true, false, ◌&&◌, not, Option, none, some, List, [], ◌∷◌, Text,
  text_eq, contains_text, if◌then◌else◌, TextSet,
}
use snbmodules.Enums.NotificationType.{NotificationType, notification_to_string}

pub record NotificationData : Type 0 where
  pub source_id : Text
  pub target_id : Text
  pub notification : Text
  pub data_text : Text

-- The members of NotificationInterface that it reads; m_max_tries is 3.
pub record Connections : Type 0 where
  pub bookkeepers_conn : List Text
  pub clients_conn : TextSet
  pub max_tries : ℕ

-- A try_send: the connection, what was sent, and its result.
pub record Attempt : Type 0 where
  pub connection : Text
  pub notif_data : NotificationData
  pub success : Bool

-- The first connection whose name has `id_conn` in it.
unfoldable pub find_conn : Text → List Text → Option Text
find_conn id_conn [] = none
find_conn id_conn (conn ∷ conns) =
    let rest = find_conn id_conn conns in if contains_text id_conn conn then some conn else rest

or_else : Option Text → Text → Text
or_else none t = t
or_else (some s) t = s

-- The two loops over the connections: a client's one wins.
unfoldable pub resolve : Connections → Text → Text
unfolding or_else
resolve c id_conn =
    or_else (find_conn id_conn c.clients_conn)
      (or_else (find_conn id_conn c.bookkeepers_conn) id_conn)

abbrev pub attempt : Connections → NotificationData → Text → Bool → Attempt
attempt c n id_conn success = record {
  connection = resolve c id_conn;
  notif_data = n;
  success = success;
}

abbrev pub notification_of : NotificationType → Text → Text → Text → NotificationData
notification_of notif source dst content = record {
  source_id = source;
  target_id = dst;
  notification = notification_to_string notif;
  data_text = content;
}

module _ (delivers : ℕ → Bool) where
  -- send_notification for a count of tries. The log of tries is newest first, and its length
  -- numbers the next one. The retry looks the connection up again.
  unfoldable pub send_tries :
      ℕ → Connections → NotificationData → Text → List Attempt → Bool × List Attempt
  send_tries zero c n id_conn log =
      (delivers (length log), attempt c n id_conn (delivers (length log)) ∷ log)
  send_tries (suc zero) c n id_conn log =
      (delivers (length log), attempt c n id_conn (delivers (length log)) ∷ log)
  send_tries (suc (suc tries)) c n id_conn log =
      let again =
        send_tries (suc tries) c n (resolve c id_conn) (attempt c n id_conn false ∷ log) in
      if delivers (length log) then (true, attempt c n id_conn true ∷ log) else again

  -- With the default of `tries`.
  unfoldable pub send_notification :
      Connections
      → NotificationType
      → Text
      → Text
      → Text
      → Text
      → List Attempt
      → Bool × List Attempt
  unfolding send_tries
  send_notification c notif source dst id_conn content log =
      send_tries c.max_tries c (notification_of notif source dst content) id_conn log

-- Is the message to be ignored?
unfoldable pub unexpected : Text → NotificationData → Bool
unexpected expected_from msg =
    not (text_eq expected_from []) && not (contains_text msg.source_id expected_from)

-- listen_for_notification: the result and the receptions that are left. A receiver with nothing
-- more to give times out.
unfoldable pub listen_tries :
    ℕ
    → Text
    → List (Option NotificationData)
    → Option NotificationData × List (Option NotificationData)
listen_tries tries expected_from [] = (none, [])
listen_tries tries expected_from (none ∷ inbox) = (none, inbox)
listen_tries zero expected_from (some msg ∷ inbox) =
    if unexpected expected_from msg then (none, inbox) else (some msg, inbox)
listen_tries (suc tries) expected_from (some msg ∷ inbox) =
    let again = listen_tries tries expected_from inbox in
    if unexpected expected_from msg
    then elim tries [ zero ↦ (none, inbox) | suc k ↦ again ]
    else (some msg, inbox)
