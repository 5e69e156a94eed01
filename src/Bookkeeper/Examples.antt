-- ===== src/Bookkeeper/Examples.antt =====
-- The theorems on the bookkeeper at three messages of one session, and test runs.
use snbmodules.Common.{
  >>=-some, ◌≡◌, refl, true, none, some, [], ◌∷◌, text, pos, arith, lookup, insert, erase,
  set_insert, member, set_erase,
}
use snbmodules.Enums.NotificationType.{string_to_notification}
use snbmodules.Enums.Protocol.{scp, string_to_protocols}
use snbmodules.IpFormat.Address.{IpFormat, make, set_ip, set_port, close, ip_eq}
use snbmodules.FilePath.Path.{normalise, path_eq}
use snbmodules.FilePath.Strip.{strip}
use snbmodules.Metadata.Transfer.{TransferMetadata, set_file_path, set_src, set_group_id, meta_eq}
use snbmodules.Metadata.Json.{
  Object, string, key_file_path, key_source, key_group_id, from_string, from_object, as_text,
  set_src_text,
}
use snbmodules.Metadata.Import.{blank_metadata, load_metadata}
use snbmodules.Notification.Interface.{NotificationData}
use snbmodules.Group.Metadata.{GroupMetadata, store, add_file, add_expected_file}
use snbmodules.Group.Import
use snbmodules.Group.Import.{
  set_protocol, GroupReader, GroupFields, blank_group, load_group, from_fields, add_expected_files,
}
use snbmodules.Bookkeeper.State.{Surroundings, Bookkeeper, entry, touch, find_same}
use snbmodules.Bookkeeper.Operations.{
  request_update_metadata, add_update_transfer, place_transfer, insert_transfer, update_transfer,
  join_group,
}
use snbmodules.Bookkeeper.Messages.{
  handle_all, action_on_receive_notification, act, take_file, take_group, add_update_grp_transfer,
  with_known, add_client,
}
use snbmodules.Bookkeeper.Evolution.{BookInv}
use snbmodules.Bookkeeper.Memory.{Keeps}
use snbmodules.Bookkeeper.Work.{Round, do_work}
use snbmodules.Bookkeeper.Lifetime.{do_work-Lasts}
use snbmodules.Bookkeeper.Invariant.{handle_all-BookInv}
use snbmodules.Bookkeeper.Requests.{sessions_of, request_update_metadata-Asked, Asked}

abbrev host : IpFormat
host = record { ip = text "n"; port = 0 }

abbrev object : Object
object key_file_path = some (string (text "/a"))
object key_source = some (string (text "n"))
object key_group_id = some (string (text "g"))
object k = none

abbrev env : Surroundings
env = record {
  clock = λ n. pos n;
  delivers = λ n. true;
  parse = λ t. some object;
  reader = record {
    cwd = text "/w";
    parse_group = λ t. some (record {
      transfer_id = some (text "g");
      source_id = none;
      source_ip = none;
      protocol = some (text "SCP");
      protocol_options = none;
      files = some (text "/a" ∷ []);
    });
    parse_options = λ t. some t;
    unset = scp;
  };
}

abbrev start : Bookkeeper
start = record {
  bookkeeper_id = text "bk";
  connections = record { bookkeepers_conn = text "bk" ∷ []; clients_conn = []; max_tries = 3 };
  grp_transfers = [];
  clients_per_grp_transfer = [];
  transfers = [];
  heap = λ p. blank_metadata;
  next = 0;
  instant = 0;
  log = [];
  issues = [];
}

abbrev group_message : NotificationData
group_message = record {
  source_id = text "c_sesg";
  target_id = text "bk";
  notification = text "GROUP_METADATA";
  data_text = text "{}";
}

abbrev file_message : NotificationData
file_message = record {
  source_id = text "c_sesg";
  target_id = text "bk";
  notification = text "TRANSFER_METADATA";
  data_text = text "{}";
}

abbrev file : TransferMetadata
file = record blank_metadata { file_path = text "/a"; src = host; group_id = text "g" }

abbrev group : GroupMetadata
group = record (blank_group env.reader) { group_id = text "g"; expected_files = text "/a" ∷ [] }

abbrev first : Bookkeeper
first = record start {
  grp_transfers = (text "g", group) ∷ [];
  clients_per_grp_transfer = (text "g", text "c_sesg" ∷ []) ∷ [];
}

group_run : load_group env.reader (text "{}") ≡ some group
unfolding load_group snbmodules.Group.Import.from_string from_fields add_expected_files
    add_expected_file normalise strip set_insert set_protocol string_to_protocols
group_run = refl

file_run : load_metadata env.parse env.reader.cwd (env.clock 0) (text "{}") ≡ some file
unfolding load_metadata from_string from_object as_text set_src_text set_src set_file_path
    set_group_id make set_port set_ip close normalise strip ip_eq
file_run = refl

first_run : action_on_receive_notification env group_message start ≡ some (true, first)
unfolding action_on_receive_notification string_to_notification act take_group
    add_update_grp_transfer with_known add_client set_insert lookup insert erase entry
first_run = >>=-some _ _ (>>=-some _ _ group_run refl) refl

-- The file is on the heap, and in the group.
abbrev second : Bookkeeper
second = record first {
  heap = store 0 (set_group_id (text "g") file) (store 0 file start.heap);
  next = 1;
  instant = 1;
  transfers = (text "c_sesg", 0 ∷ []) ∷ [];
  grp_transfers = (text "g", record group { transfers_meta = 0 ∷ []; expected_files = [] }) ∷ [];
}

second_run : action_on_receive_notification env file_message first ≡ some (true, second)
unfolding action_on_receive_notification string_to_notification act take_file add_update_transfer
    place_transfer insert_transfer join_group find_same touch lookup insert entry add_file store
    member set_erase set_group_id
second_run = >>=-some _ _ (>>=-some _ _ file_run refl) refl

-- It is found again.
abbrev third : Bookkeeper
third = record second { heap = store 0 file second.heap; instant = 3 }

third_run : action_on_receive_notification env file_message second ≡ some (true, third)
unfolding action_on_receive_notification string_to_notification act take_file add_update_transfer
    place_transfer update_transfer load_metadata find_same touch lookup insert entry store
    set_group_id meta_eq path_eq ip_eq from_string from_object as_text set_src_text set_src
    set_file_path make set_port set_ip close normalise strip
third_run = refl

group_message_run : handle_all env (group_message ∷ []) start ≡ some first
unfolding handle_all
group_message_run = >>=-some _ _ first_run refl

start-BookInv : BookInv start
unfolding lookup
start-BookInv = record { groups = λ k. tt; lists = λ k. tt }

first-BookInv : BookInv first
first-BookInv =
    handle_all-BookInv env (group_message ∷ []) start first start-BookInv group_message_run

request_update_metadata-Asked_example :
    Asked env.delivers
      (sessions_of second.heap second.clients_per_grp_transfer true second.grp_transfers)
      second
      (request_update_metadata env true second)
request_update_metadata-Asked_example = request_update_metadata-Asked env true second (omega arith)

abbrev file_round : Round
file_round = record {
  found = record { bookkeepers = []; clients = [] };
  heard = some file_message;
  now = 100;
}

work_run : do_work env 5 0 (file_round ∷ file_round ∷ []) first ≡ some third
unfolding do_work
work_run =
    >>=-some _ _ (>>=-some _ _ second_run refl) (>>=-some _ _ (>>=-some _ _ third_run refl) refl)

do_work-Lasts_example : BookInv third × Keeps first third
do_work-Lasts_example =
    do_work-Lasts env 5 0 (file_round ∷ file_round ∷ []) first third first-BookInv work_run
