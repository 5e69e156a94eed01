-- ===== src/Bookkeeper/Messages.antt =====
-- The messages that the bookkeeper handles (src/bookkeeper/bookkeeper.cpp).
use snbmodules.Common.{
  Bool, true, false, not, ◌&&◌, Option, none, some, List, [], ◌∷◌, Text, text, text_eq,
  contains_text, lookup, insert, erase, set_insert, if◌then◌else◌, ◌>>=◌,
}
use snbmodules.Enums.NotificationType.{
  NotificationType, string_to_notification, start_transfer, connection_request, new_transfer,
  update_request, transfer_metadata, transfer_error, group_metadata, pause_transfer,
  resume_transfer, cancel_transfer,
}
use snbmodules.Notification.Interface.{NotificationData}
use snbmodules.Group.Metadata.{GroupMetadata}
use snbmodules.Group.Import.{load_group}
use snbmodules.Bookkeeper.State.{
  Surroundings, wrong_destination, not_handled, Bookkeeper, entry, touch,
}
use snbmodules.Bookkeeper.Operations.{warn, add_update_transfer}

-- What is known of the group is copied into the new object.
unfoldable pub with_known : Option GroupMetadata → GroupMetadata → GroupMetadata
with_known none g = g
with_known (some old) g = record g {
  transfers_meta = old.transfers_meta;
  expected_files = old.expected_files;
}

unfoldable pub add_update_grp_transfer : GroupMetadata → Bookkeeper → Bookkeeper
unfolding with_known
add_update_grp_transfer g b = record b {
  grp_transfers =
      insert g.group_id (with_known (lookup g.group_id b.grp_transfers) g)
        (erase g.group_id b.grp_transfers);
}

-- The client is one of the group's.
unfoldable pub add_client : Text → Text → Bookkeeper → Bookkeeper
add_client group_id client b = record b {
  clients_per_grp_transfer =
      insert group_id (set_insert client (entry (lookup group_id b.clients_per_grp_transfer)))
        b.clients_per_grp_transfer;
}

abbrev pub misdirected : NotificationData → Bookkeeper → Bool
misdirected notif b =
    not (contains_text b.bookkeeper_id notif.target_id)
    && not (text_eq notif.target_id (text "all"))

module _ (env : Surroundings) where
  unfoldable pub take_file : NotificationData → Bookkeeper → Option Bookkeeper
  take_file notif b =
      if text_eq notif.data_text (text "end")
      then some (record b { transfers = touch notif.source_id b.transfers })
      else add_update_transfer env notif.source_id notif.data_text b

  unfoldable pub take_group : NotificationData → Bookkeeper → Option Bookkeeper
  unfolding add_update_grp_transfer add_client
  take_group notif b = load_group env.reader notif.data_text >>= λ g.
      some (add_update_grp_transfer g (add_client g.group_id notif.source_id b))

  -- The cases of action_on_receive_notification.
  unfoldable pub act : NotificationType → NotificationData → Bookkeeper → Option Bookkeeper
  unfolding take_file take_group
  act transfer_metadata notif b = take_file notif b
  act transfer_error notif b = take_group notif b
  act group_metadata notif b = take_group notif b
  act connection_request notif b = some (warn (not_handled notif.source_id notif.notification) b)
  act new_transfer notif b = some (warn (not_handled notif.source_id notif.notification) b)
  act update_request notif b = some (warn (not_handled notif.source_id notif.notification) b)
  act start_transfer notif b = some (warn (not_handled notif.source_id notif.notification) b)
  act pause_transfer notif b = some (warn (not_handled notif.source_id notif.notification) b)
  act resume_transfer notif b = some (warn (not_handled notif.source_id notif.notification) b)
  act cancel_transfer notif b = some (warn (not_handled notif.source_id notif.notification) b)

  -- `none` is an exception: of a name that is unknown, or of data that cannot be read.
  unfoldable pub action_on_receive_notification :
      NotificationData → Bookkeeper → Option (Bool × Bookkeeper)
  unfolding act
  action_on_receive_notification notif b =
      if misdirected notif b
      then some (false, warn (wrong_destination notif.source_id notif.target_id) b)
      else string_to_notification notif.notification >>= λ t.
          act t notif b >>= λ after. some (true, after)

  -- A sequence of messages, each of which is handled.
  unfoldable pub handle_all : List NotificationData → Bookkeeper → Option Bookkeeper
  unfolding action_on_receive_notification
  handle_all [] b = some b
  handle_all (notif ∷ notifs) b =
      action_on_receive_notification notif b >>= λ r. handle_all notifs r.1
