-- ===== src/Bookkeeper/Work.antt =====
-- The loop do_work of src/bookkeeper/bookkeeper.cpp. What a round finds (the connections, a message, the
-- clock in ms) is an argument; the display and the pause between rounds are left out.
use snbmodules.Common.{
  ℕ, ◌-◌, ◌/◌, Bool, Option, none, some, List, [], ◌∷◌, Text, leb, if◌then◌else◌, ◌>>=◌,
}
use snbmodules.Notification.Interface.{NotificationData}
use snbmodules.Notification.Lookup.{Found, lookups_connections}
use snbmodules.Bookkeeper.State.{Surroundings, Bookkeeper}
use snbmodules.Bookkeeper.Operations.{
  request_connection_and_available_files, request_update_metadata,
}
use snbmodules.Bookkeeper.Messages.{action_on_receive_notification}

pub record Round : Type 0 where
  pub found : Found
  pub heard : Option NotificationData
  pub now : ℕ

module _ (env : Surroundings) where
  -- The requests to the clients that are known at the start.
  unfoldable pub request_clients : List Text → Bookkeeper → Bookkeeper
  unfolding request_connection_and_available_files
  request_clients [] b = b
  request_clients (c ∷ cs) b = request_clients cs (request_connection_and_available_files env c b)

  unfoldable pub hear : Option NotificationData → Bookkeeper → Option Bookkeeper
  hear none b = some b
  hear (some notif) b =
      action_on_receive_notification env notif b >>= λ (handled, after). some after

  -- listen_for_notification on the first of the bookkeeper's connections; `none` is the first of none.
  unfoldable pub listen : List Text → Option NotificationData → Bookkeeper → Option Bookkeeper
  unfolding hear
  listen [] heard b = none
  listen (c ∷ cs) heard b = hear heard b

  -- The update that is due after `refresh_rate` seconds, and when the last one was.
  unfoldable pub refresh : ℕ → ℕ → ℕ → Bookkeeper → ℕ × Bookkeeper
  unfolding request_update_metadata
  refresh refresh_rate now time_point b =
      if leb refresh_rate ((now - time_point) / 1000)
      then (now, request_update_metadata env Bool.false b)
      else (time_point, b)

  unfoldable pub rounds : ℕ → List Round → ℕ → Bookkeeper → Option Bookkeeper
  unfolding listen refresh lookups_connections
  rounds refresh_rate [] time_point b = some b
  rounds refresh_rate (r ∷ rs) time_point b =
      let looked = record b { connections = lookups_connections r.found b.connections } in
      listen looked.connections.bookkeepers_conn r.heard looked >>= λ after.
      let (next_point, b') = refresh refresh_rate r.now time_point after in
      rounds refresh_rate rs next_point b'

  unfoldable pub do_work : ℕ → ℕ → List Round → Bookkeeper → Option Bookkeeper
  unfolding request_clients rounds
  do_work refresh_rate time_point rs b =
      rounds refresh_rate rs time_point (request_clients b.connections.clients_conn b)
