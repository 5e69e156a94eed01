-- ===== src/Session/World.antt =====
-- What a session works on: its members, the store of the files' metadata, and the parts of the
-- environment that are parameters (the clock, the delivery of messages, the JSON printer, the
-- transfer interface of include/snbmodules/interfaces/transfer_interface_abstract.hpp).
use snbmodules.Common.{
  ◌&&◌, ℕ, suc, Bool, true, false, List, [], ◌∷◌, ◌++◌, map, Text, text, TextSet, ℤ, if◌then◌else◌,
}
use snbmodules.Enums.Status.{Status}
use snbmodules.Enums.Protocol.{protocols_to_string}
use snbmodules.Enums.NotificationType.{NotificationType, group_metadata, transfer_metadata}
use snbmodules.IpFormat.Address.{get_ip_port}
use snbmodules.Metadata.Transfer.{TransferMetadata, set_status}
use snbmodules.Metadata.Json.{Object, export_to_string_partial}
use snbmodules.Notification.Interface.{Connections, Attempt, send_notification}
use snbmodules.Group.Metadata.{Heap, GroupMetadata, store}

-- TransferInterfaceAbstract: each call may change the file's metadata and its own state.
pub record TransferInterface : Type 1 where
  pub State : Type 0
  pub upload_file : TransferMetadata → State → Bool × TransferMetadata × State
  pub download_file : Text → TransferMetadata → State → Bool × TransferMetadata × State
  pub pause_file : TransferMetadata → State → Bool × TransferMetadata × State
  pub resume_file : TransferMetadata → State → Bool × TransferMetadata × State
  pub hash_file : TransferMetadata → State → Bool × TransferMetadata × State
  pub cancel_file : TransferMetadata → State → Bool × TransferMetadata × State

-- The JSON object of GroupMetadata::export_to_string.
pub record GroupObject : Type 0 where
  pub transfer_id : Text
  pub source_id : Text
  pub source_ip : Text
  pub protocol : Text
  pub protocol_options : Text
  pub files : List Text

unfoldable pub export_group : Heap → GroupMetadata → GroupObject
export_group heap g = record {
  transfer_id = g.group_id;
  source_id = g.source_id;
  source_ip = get_ip_port g.source_ip;
  protocol = protocols_to_string g.protocol;
  protocol_options = g.protocol_options;
  files = map (λ p. (heap p).file_path) g.transfers_meta;
}

pub record Env : Type 1 where
  pub clock : ℕ → ℤ
  pub delivers : ℕ → Bool
  pub dump : Object → Text
  pub dump_group : GroupObject → Text
  pub interface : TransferInterface

pub data SessionType : Type 0 where
  downloader uploader : SessionType

pub record Session : Type 0 where
  pub session_type : SessionType
  pub session_id : Text
  pub connections : Connections
  pub transfer_options : GroupMetadata
  pub work_dir : Text
  pub target_clients : TextSet

-- The warnings that are reported: a file's name, its status and the one asked for; and the name
-- of an action of the other kind of session.
pub data Issue : Type 0 where
  wrong_state_transition : Text → Text → Text → Issue
  incorrect_action : Text → Issue

pub record World (env : Env) : Type 0 where
  pub heap : Heap
  pub instant : ℕ
  pub log : List Attempt
  pub interface : env.interface.State
  pub issues : List Issue

abbrev pub Result : Env → Type 0
Result env = Bool × World env

module _ {env : Env} where
  -- set_status of a file; each call reads the clock once.
  unfoldable pub set_status_at : ℕ → Status → World env → World env
  set_status_at p s w = record w {
    heap = store p (set_status (env.clock w.instant) s (w.heap p)) w.heap;
    instant = suc w.instant;
  }

  -- send_notification, with the result and the log.
  unfoldable pub send : Session → NotificationType → Text → Text → Text → World env → Result env
  send s t dst id_conn content w =
      let (r, log) =
        send_notification env.delivers s.connections t s.session_id dst id_conn content w.log in
      (r, record w { log = log })

  -- export_to_string_partial(false) of a file and its notification to one bookkeeper.
  unfoldable pub send_metadata : Session → ℕ → Text → World env → Result env
  unfolding send
  send_metadata s p bk w =
      let (content, m) = export_to_string_partial env.dump false (w.heap p) in
      send s transfer_metadata bk bk content (record w { heap = store p m w.heap })

  -- `for (x : xs) result = result && f(x);`, which calls nothing more after a failure.
  unfoldable pub all_while :
      {A : Type 0} → (A → World env → Result env) → List A → Result env → Result env
  all_while f [] r = r
  all_while f (x ∷ xs) (r, w) =
      let go = all_while f xs (f x w) in
      let stop = all_while f xs (false, w) in if r then go else stop

  unfoldable pub update_metadata_to_bookkeeper : Session → ℕ → World env → Result env
  unfolding all_while send_metadata
  update_metadata_to_bookkeeper s p w =
      all_while (send_metadata s p) s.connections.bookkeepers_conn (true, w)

  unfoldable pub send_group : Session → Text → World env → Result env
  send_group s bk w =
      send s group_metadata bk bk (env.dump_group (export_group w.heap s.transfer_options)) w

  unfoldable pub update_metadatas_to_bookkeeper : Session → World env → Result env
  unfolding all_while send_group
  update_metadatas_to_bookkeeper s w =
      all_while (update_metadata_to_bookkeeper s) s.transfer_options.transfers_meta
        (all_while (send_group s) s.connections.bookkeepers_conn (true, w))

  -- send_notification_to_targets; it goes on after a failure.
  unfoldable pub send_to_clients :
      Session → NotificationType → Text → List Text → Result env → Result env
  unfolding send
  send_to_clients s t content [] r = r
  send_to_clients s t content (client ∷ clients) (r, w) =
      let (sent, w') =
        send s t (client ++ text "_ses" ++ s.transfer_options.group_id) client content w in
      send_to_clients s t content clients (r && sent, w')

  unfoldable pub send_notification_to_targets :
      Session → NotificationType → Text → World env → Result env
  unfolding send_to_clients
  send_notification_to_targets s t content w =
      send_to_clients s t content s.target_clients (true, w)
