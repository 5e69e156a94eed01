-- ===== src/Bookkeeper/Operations.antt =====
-- The operations of the bookkeeper on its state (src/bookkeeper/bookkeeper.cpp).
use snbmodules.Common.{
  ℕ, suc, Bool, ◌||◌, Option, none, some, List, [], ◌∷◌, ◌++◌, Text, text, text_eq, Map, lookup,
  insert, TextSet, if◌then◌else◌, ◌>>=◌,
}
use snbmodules.Enums.NotificationType.{
  NotificationType, start_transfer, connection_request, update_request,
}
use snbmodules.Metadata.Transfer.{TransferMetadata}
use snbmodules.Metadata.Json.{from_string}
use snbmodules.Metadata.Import.{load_metadata}
use snbmodules.Notification.Interface.{notification_of, send_tries, send_notification}
use snbmodules.Group.Metadata.{GroupMetadata, store, get_group_status, add_file}
use snbmodules.Bookkeeper.State.{
  Surroundings, Issue, invalid_group, Bookkeeper, entry, touch, find_same,
  get_client_name_from_session_name, is_dynamic,
}

unfoldable pub warn : Issue → Bookkeeper → Bookkeeper
warn i b = record b { issues = i ∷ b.issues }

-- The new file joins the list of the client.
abbrev pub push_transfer : Text → ℕ → Bookkeeper → Bookkeeper
push_transfer client_id p b = record b {
  transfers = insert client_id (entry (lookup client_id b.transfers) ++ p ∷ []) b.transfers;
}

-- The group that the file names, when it is known, gets the file.
unfoldable pub join_group : ℕ → Text → Option GroupMetadata → Bookkeeper → Option Bookkeeper
join_group p group_id none b = some b
join_group p group_id (some g) b = add_file p b.heap g >>= λ a.
    some (record b { heap = a.heap; grp_transfers = insert group_id a.group b.grp_transfers })

unfoldable pub insert_transfer : Text → TransferMetadata → Bookkeeper → Option Bookkeeper
unfolding join_group
insert_transfer client_id file b =
    let p = b.next in
    let made : Bookkeeper = record b { heap = store p file b.heap; next = suc p } in
    let known = if text_eq file.group_id [] then none else lookup file.group_id b.grp_transfers in
    join_group p file.group_id known made >>= λ joined. some (push_transfer client_id p joined)

module _ (env : Surroundings) where
  -- send_notification from the bookkeeper, with no data; its result is not used.
  unfoldable pub send : NotificationType → Text → Text → Bookkeeper → Bookkeeper
  send t dst id_conn b = record b {
    log = (send_notification env.delivers b.connections t b.bookkeeper_id dst id_conn [] b.log).1;
  }

  -- The loop of start_transfers over the clients.
  unfoldable pub start_clients : Text → List Text → Bookkeeper → Bookkeeper
  unfolding send
  start_clients transfer_id [] b = b
  start_clients transfer_id (client ∷ clients) b =
      start_clients transfer_id clients
        (send start_transfer (client ++ text "_ses" ++ transfer_id) client b)

  unfoldable pub start_known : Text → Option TextSet → Bookkeeper → Bookkeeper
  unfolding start_clients
  start_known transfer_id none b = warn (invalid_group transfer_id) b
  start_known transfer_id (some clients) b = start_clients transfer_id clients b

  unfoldable pub start_transfers : Text → Bookkeeper → Bookkeeper
  unfolding start_known
  start_transfers transfer_id b =
      start_known transfer_id (lookup transfer_id b.clients_per_grp_transfer) b

  -- One try.
  unfoldable pub request_connection_and_available_files : Text → Bookkeeper → Bookkeeper
  request_connection_and_available_files client b = record b {
    log =
        (send_tries env.delivers 1 b.connections
          (notification_of connection_request b.bookkeeper_id client b.bookkeeper_id) client
          b.log).1;
  }

  -- The loops of request_update_metadata: over the sessions of a group, and over the groups.
  unfoldable pub request_sessions : List Text → Bookkeeper → Bookkeeper
  unfolding send
  request_sessions [] b = b
  request_sessions (session ∷ sessions) b =
      request_sessions sessions
        (send update_request session (get_client_name_from_session_name session) b)

  unfoldable pub request_group : GroupMetadata → Bookkeeper → Bookkeeper
  unfolding request_sessions
  request_group g b =
      request_sessions (entry (lookup g.group_id b.clients_per_grp_transfer))
        (record b { clients_per_grp_transfer = touch g.group_id b.clients_per_grp_transfer })

  unfoldable pub request_groups : Bool → Map GroupMetadata → Bookkeeper → Bookkeeper
  unfolding request_group
  request_groups force [] b = b
  request_groups force ((id, g) ∷ gs) b =
      request_groups force gs
        (if is_dynamic (get_group_status b.heap g) || force then request_group g b else b)

  unfoldable pub request_update_metadata : Bool → Bookkeeper → Bookkeeper
  unfolding request_groups
  request_update_metadata force b = request_groups force b.grp_transfers b

  unfoldable pub update_transfer : ℕ → Text → Bookkeeper → Option Bookkeeper
  update_transfer p data_text b =
      from_string env.parse env.reader.cwd (env.clock b.instant) data_text (b.heap p) >>= λ m.
      some (record b { heap = store p m b.heap; instant = suc b.instant })

  unfoldable pub place_transfer :
      Text → Text → TransferMetadata → Option ℕ → Bookkeeper → Option Bookkeeper
  unfolding insert_transfer update_transfer
  place_transfer client_id data_text file none b = insert_transfer client_id file b
  place_transfer client_id data_text file (some p) b = update_transfer p data_text b

  -- `none` is an exception.
  unfoldable pub add_update_transfer : Text → Text → Bookkeeper → Option Bookkeeper
  unfolding place_transfer
  add_update_transfer client_id data_text b =
      load_metadata env.parse env.reader.cwd (env.clock b.instant) data_text >>= λ file.
      let read : Bookkeeper = record b {
        instant = suc b.instant;
        transfers = touch client_id b.transfers;
      } in
      place_transfer client_id data_text file
        (find_same b.heap file (entry (lookup client_id b.transfers))) read
