-- ===== src/Client/Work.antt =====
-- The loops start and do_work of src/client/transfer_client.cpp. What a round finds, the connections and
-- a message, is an argument.
use snbmodules.Common.{
  Option, none, some, List, [], ◌∷◌, Bool, false, ◌>>=◌, length, ◌==◌, if◌then◌else◌,
}
use snbmodules.Notification.Interface.{NotificationData}
use snbmodules.Notification.Lookup.{Found, lookups_connections}
use snbmodules.Client.State.{ClientEnv, Client}
use snbmodules.Client.Connection.{get_my_conn}
use snbmodules.Client.Messages.{action_on_receive_notification}

pub record Round : Type 0 where
  pub found : Found
  pub heard : Option NotificationData

module _ {e : ClientEnv} where
  -- The search when no bookkeeper is connected.
  unfoldable pub look_for : Found → Client e → Client e
  unfolding lookups_connections
  look_for found c =
      if length c.connections.bookkeepers_conn == 0
      then record c { connections = lookups_connections found c.connections }
      else c

  unfoldable pub hear : Option NotificationData → Client e → Option (Client e)
  unfolding action_on_receive_notification
  hear none c = some c
  hear (some notif) c = action_on_receive_notification notif c >>= λ (handled, after). some after

  -- The messages are those that come before the first time that none comes.
  unfoldable pub start : List NotificationData → Client e → Option (Bool × Client e)
  unfolding get_my_conn action_on_receive_notification
  start [] c = some (false, (get_my_conn c).1)
  start (notif ∷ notifs) c =
      action_on_receive_notification notif (get_my_conn c).1 >>= λ (handled, after).
      start notifs after

  -- The rounds that begin while `running_flag` is set.
  unfoldable pub do_work : List Round → Client e → Option (Client e)
  unfolding look_for get_my_conn hear
  do_work [] c = some c
  do_work (r ∷ rs) c =
      hear r.heard (get_my_conn (look_for r.found c)).1 >>= λ after. do_work rs after
