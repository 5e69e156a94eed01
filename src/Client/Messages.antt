-- ===== src/Client/Messages.antt =====
-- The messages that the client handles (src/client/transfer_client.cpp).
use snbmodules.Common.{
  ℕ, suc, Bool, true, false, not, ◌&&◌, Option, none, some, List, [], ◌∷◌, Text, text, text_eq,
  contains_text, Map, lookup, if◌then◌else◌, ◌>>=◌,
}
use snbmodules.Enums.NotificationType.{
  NotificationType, string_to_notification, connection_request, new_transfer, update_request,
  group_metadata, transfer_error, start_transfer, transfer_metadata, pause_transfer,
  resume_transfer, cancel_transfer,
}
use snbmodules.IpFormat.Address.{default_ip}
use snbmodules.Metadata.Transfer.{TransferMetadata, set_dest}
use snbmodules.Metadata.Import.{load_metadata}
use snbmodules.Notification.Interface.{NotificationData}
use snbmodules.Group.Metadata.{get_transfer_meta_from_file_path}
use snbmodules.Group.Import.{load_group}
use snbmodules.Session.World.{
  downloader, uploader, Session, World, update_metadata_to_bookkeeper,
  update_metadatas_to_bookkeeper,
}
use snbmodules.Session.Files.{pause_file, resume_file, cancel_file, start_file}
use snbmodules.Session.Groups.{start_all, pause_all, resume_all, cancel_all}
use snbmodules.Client.State.{
  ClientEnv, ClientSession, Client, wrong_destination, not_handled, session_not_found,
  file_not_expected, warn,
}
use snbmodules.Client.Sessions.{get_session, create_session, at_session, session_add_file, operate}
use snbmodules.Client.Sharing.{
  send, allocate, share_available_files, scan_available_files, path_append,
}

-- Is one of the files available here?
unfoldable pub any_available : List Text → Map ℕ → Bool
any_available [] available = false
any_available (f ∷ fs) available =
    let rest = any_available fs available in
    elim (lookup f available) [ none ↦ rest | some p ↦ true ]

module _ {e : ClientEnv} where
  unfoldable pub on_connection_request : NotificationData → Client e → Option (Client e)
  on_connection_request notif c = scan_available_files true c.listening_dir ([], c) >>= λ scan.
      share_available_files scan.0 notif.source_id scan.1 >>= λ d.
      some (send transfer_metadata notif.source_id notif.source_id (text "end") d)

  unfoldable pub on_new_transfer : NotificationData → Client e → Option (Client e)
  unfolding any_available
  on_new_transfer notif c = load_group e.reader notif.data_text >>= λ g. some (
      create_session g
        (if any_available g.expected_files c.available_files then uploader else downloader)
        notif.target_id (path_append c.listening_dir g.group_id) default_ip [] c)

  -- The first session whose id contains the target.
  unfoldable pub find_target : Text → List (ClientSession e) → Option ℕ
  find_target target [] = none
  find_target target (s ∷ ss) =
      let rest = find_target target ss in
      if contains_text target s.session.session_id then some 0 else rest >>= λ i. some (suc i)

  -- The file goes to the session's address, and into its group.
  unfoldable pub receive_file :
      TransferMetadata → ClientSession e → Client e → Option (ClientSession e × Client e)
  receive_file m s c = set_dest s.ip m >>= λ k. session_add_file c.next s (allocate k c)

  unfoldable pub hand_over : Text → TransferMetadata → Option ℕ → Client e → Option (Client e)
  unfolding receive_file
  hand_over target m none c = some (warn (session_not_found target) c)
  hand_over target m (some i) c = at_session (receive_file m) i c

  unfoldable pub on_transfer_metadata : NotificationData → Client e → Option (Client e)
  unfolding hand_over find_target
  on_transfer_metadata notif c =
      load_metadata e.parse e.reader.cwd (e.env.clock c.instant) notif.data_text >>= λ m.
      hand_over notif.target_id m (find_target notif.target_id c.sessions)
        (record c { instant = suc c.instant })

  -- The operation of a session on all files, or on the file that is named.
  unfoldable pub on_files :
      (Session → World e.env → World e.env)
      → (Session → ℕ → World e.env → World e.env)
      → Text
      → ClientSession e
      → Client e
      → Option (ClientSession e × Client e)
  on_files all one path s c =
      if text_eq path []
      then some (operate (all s.session) s c)
      else get_transfer_meta_from_file_path c.heap s.session.transfer_options path >>= λ l.
          some (operate (one s.session l.0) s (if l.1 then warn file_not_expected c else c))

  unfoldable pub control_at :
      (Session → World e.env → World e.env)
      → (Session → ℕ → World e.env → World e.env)
      → NotificationData
      → Option ℕ
      → Client e
      → Option (Client e)
  unfolding on_files
  control_at all one notif none c = some (warn (session_not_found notif.target_id) c)
  control_at all one notif (some i) c = at_session (on_files all one notif.data_text) i c

  unfoldable pub control :
      (Session → World e.env → World e.env)
      → (Session → ℕ → World e.env → World e.env)
      → NotificationData
      → Client e
      → Option (Client e)
  unfolding control_at
  control all one notif c = control_at all one notif (get_session notif.target_id c) c

  -- The cases of action_on_receive_notification.
  unfoldable pub act : NotificationType → NotificationData → Client e → Option (Client e)
  unfolding on_connection_request on_new_transfer on_transfer_metadata control
  act connection_request notif c = on_connection_request notif c
  act new_transfer notif c = on_new_transfer notif c
  act transfer_metadata notif c = on_transfer_metadata notif c
  act start_transfer notif c =
      control (λ s w. (start_all s w).1) (λ s p w. (start_file s p w).1) notif c
  act pause_transfer notif c =
      control (λ s w. (pause_all s w).1) (λ s p w. (pause_file s false p w).1) notif c
  act resume_transfer notif c =
      control (λ s w. (resume_all s w).1) (λ s p w. (resume_file s false p w).1) notif c
  act cancel_transfer notif c =
      control (λ s w. (cancel_all s w).1) (λ s p w. (cancel_file s false p w).1) notif c
  act update_request notif c =
      control (λ s w. (update_metadatas_to_bookkeeper s w).1)
        (λ s p w. (update_metadata_to_bookkeeper s p w).1) notif c
  act group_metadata notif c = some (warn (not_handled notif.source_id notif.notification) c)
  act transfer_error notif c = some (warn (not_handled notif.source_id notif.notification) c)

  abbrev pub misdirected : NotificationData → Client e → Bool
  misdirected notif c =
      not (contains_text c.client_id notif.target_id) && not (text_eq notif.target_id (text "all"))

  -- `none` is an exception, or the use of the first file of an empty group.
  unfoldable pub action_on_receive_notification :
      NotificationData → Client e → Option (Bool × Client e)
  unfolding act
  action_on_receive_notification notif c =
      if misdirected notif c
      then some (false, warn (wrong_destination notif.source_id notif.target_id) c)
      else string_to_notification notif.notification >>= λ t.
          act t notif c >>= λ after. some (true, after)

  -- A sequence of messages, each of which is handled.
  unfoldable pub handle_all : List NotificationData → Client e → Option (Client e)
  unfolding action_on_receive_notification
  handle_all [] c = some c
  handle_all (notif ∷ notifs) c =
      action_on_receive_notification notif c >>= λ r. handle_all notifs r.1
