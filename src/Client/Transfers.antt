-- ===== src/Client/Transfers.antt =====
-- The transfers that the client begins and steers (src/client/transfer_client.cpp).
use snbmodules.Common.{
  ℕ, Bool, true, false, Option, none, some, List, [], ◌∷◌, Text, text, TextSet, if◌then◌else◌,
  ◌>>=◌,
}
use snbmodules.Enums.Protocol.{Protocol, string_to_protocols}
use snbmodules.Enums.NotificationType.{new_transfer, group_metadata}
use snbmodules.Notification.Interface.{send_notification}
use snbmodules.Group.Metadata.{GroupMetadata, add_expected_file, add_file}
use snbmodules.Session.World.{uploader, Session, World, export_group}
use snbmodules.Session.Groups.{start_all, pause_all, resume_all, cancel_all}
use snbmodules.Client.State.{
  ClientEnv, Client, session_not_found, invalid_protocol, file_not_exist, file_not_expected, warn,
  generate_session_id,
}
use snbmodules.Client.Sessions.{get_session, create_session, at_session, operate}
use snbmodules.Client.Sharing.{send, send_file, allocate, create_metadata_from_file, path_append}

unfoldable pub is_empty : List ℕ → Bool
is_empty [] = true
is_empty (p ∷ ps) = false

module _ {e : ClientEnv} where
  -- A file that is there is expected, made and added.
  unfoldable pub add_made : Text → GroupMetadata → Client e → Option (GroupMetadata × Client e)
  add_made file g c = do
    g1 ← add_expected_file e.reader.cwd file g
    m ← create_metadata_from_file file c
    a ← add_file c.next (allocate m c).heap g1
    some (
      a.group,
      if a.reported
          then warn file_not_expected (record (allocate m c) { heap = a.heap })
          else record (allocate m c) { heap = a.heap },
    )

  -- The loop of create_new_transfer over the files.
  unfoldable pub add_files :
      List Text → GroupMetadata → Client e → Option (GroupMetadata × Client e)
  unfolding add_made
  add_files [] g c = some (g, c)
  add_files (file ∷ files) g c =
      if e.exists file
      then (add_made file g c >>= λ r. add_files files r.0 r.1)
      else add_files files g (warn (file_not_exist file) c)

  -- The state that is being prepared goes to the bookkeepers.
  unfoldable pub announce : Text → GroupMetadata → List Text → Client e → Client e
  announce name g [] c = c
  announce name g (bk ∷ bks) c = announce name g bks (record c {
    log =
        (send_notification e.env.delivers c.connections group_metadata name bk bk
          (e.env.dump_group (export_group c.heap g)) c.log).1;
  })

  unfoldable pub send_files : Text → Text → List ℕ → Client e → Client e
  send_files dst client [] c = c
  send_files dst client (p ∷ ps) c = send_files dst client ps (send_file dst client p c)

  -- The clients are told of the transfer and of its files.
  unfoldable pub notify_clients : Text → GroupMetadata → List Text → Client e → Client e
  unfolding send_files
  notify_clients transfer_id g [] c = c
  notify_clients transfer_id g (client ∷ clients) c =
      let name = generate_session_id transfer_id client c in
      let told = send new_transfer name client (e.env.dump_group (export_group c.heap g)) c in
      notify_clients transfer_id g clients (send_files name client g.transfers_meta told)

  -- create_new_transfer with its files.
  unfoldable pub launch : Text → Text → TextSet → GroupMetadata → Client e → Client e
  unfolding announce notify_clients is_empty
  launch transfer_id name dest_clients g c =
      if is_empty g.transfers_meta
      then warn (file_not_exist (text "All files")) c
      else let told = announce name g c.connections.bookkeepers_conn c in
        let made =
          create_session g uploader name (path_append c.listening_dir transfer_id) c.listening_ip
            dest_clients told in
        notify_clients transfer_id g dest_clients made

  unfoldable pub new_group : Text → Text → Protocol → Text → Client e → GroupMetadata
  new_group transfer_id name p options c = record {
    group_id = transfer_id;
    protocol = p;
    protocol_options = options;
    transfers_meta = [];
    expected_files = [];
    source_id = name;
    source_ip = c.listening_ip;
  }

  unfoldable pub with_protocol :
      Text
      → Text
      → Option Protocol
      → Text
      → TextSet
      → List Text
      → Text
      → Client e
      → Option (Client e)
  unfolding launch new_group add_files
  with_protocol transfer_id name none protocol dest_clients files options c =
      some (warn (invalid_protocol protocol) c)
  with_protocol transfer_id name (some p) protocol dest_clients files options c =
      add_files files (new_group transfer_id name p options c) c >>= λ r.
      some (launch transfer_id name dest_clients r.0 r.1)

  unfoldable pub create_new_transfer :
      Text → Text → TextSet → List Text → Text → Client e → Option (Client e)
  unfolding with_protocol
  create_new_transfer transfer_id protocol dest_clients files options c =
      let name = generate_session_id transfer_id [] c in
      elim (get_session name c) [
        | some i ↦ some c
        | none ↦
            with_protocol transfer_id name (string_to_protocols protocol) protocol dest_clients
              files options c
      ]

  -- The four functions that steer a transfer.
  unfoldable pub steer_at :
      (Session → World e.env → World e.env) → Text → Option ℕ → Client e → Option (Client e)
  steer_at f transfer_id none c = some (warn (session_not_found transfer_id) c)
  steer_at f transfer_id (some i) c = at_session (λ s d. some (operate (f s.session) s d)) i c

  unfoldable pub steer : (Session → World e.env → World e.env) → Text → Client e → Option (Client e)
  unfolding steer_at
  steer f transfer_id c = steer_at f transfer_id (get_session transfer_id c) c

  unfoldable pub start_transfer : Text → Client e → Option (Client e)
  unfolding steer
  start_transfer = steer (λ s w. (start_all s w).1)

  unfoldable pub pause_transfer : Text → Client e → Option (Client e)
  unfolding steer
  pause_transfer = steer (λ s w. (pause_all s w).1)

  unfoldable pub resume_transfer : Text → Client e → Option (Client e)
  unfolding steer
  resume_transfer = steer (λ s w. (resume_all s w).1)

  unfoldable pub cancel_transfer : Text → Client e → Option (Client e)
  unfolding steer
  cancel_transfer = steer (λ s w. (cancel_all s w).1)
