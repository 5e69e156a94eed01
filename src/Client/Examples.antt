-- ===== src/Client/Examples.antt =====
-- The theorems on the client at one with two sessions, and test runs.
use snbmodules.Common.{List, ◌≡◌, refl, true, false, none, some, [], ◌∷◌, text, pos, Text}
use snbmodules.Enums.Protocol.{dummy}
use snbmodules.Enums.NotificationType.{string_to_notification}
use snbmodules.IpFormat.Address.{default_ip}
use snbmodules.Metadata.Import.{blank_metadata}
use snbmodules.Notification.Interface.{NotificationData}
use snbmodules.Session.World.{TransferInterface, Env, uploader, Session}
use snbmodules.Session.Groups.{start_all}
use snbmodules.Session.Transitions.{KeepsStatus}
use snbmodules.Client.State.{ClientEnv, ClientSession, Client, nothing}
use snbmodules.Client.Sessions.{
  find_session, session_name, get_session, remove_session, at_session, operate,
}
use snbmodules.Client.Messages.{
  handle_all, action_on_receive_notification, act, control, control_at, on_files,
}
use snbmodules.Client.Steps.{OpensQuietly, Advanced}
use snbmodules.Client.Connection.{get_my_conn}
use snbmodules.Client.Work.{Round, look_for, hear, do_work}
use snbmodules.Client.Lifetime.{do_work-Advanced}
use snbmodules.Client.Lookup.{remove_session-first}

-- TransferInterfaceDummy: every call succeeds.
abbrev dummy_interface : TransferInterface
dummy_interface = record {
  State = Unit;
  upload_file = λ m s. (true, m, s);
  download_file = λ dest m s. (true, m, s);
  pause_file = λ m s. (true, m, s);
  resume_file = λ m s. (true, m, s);
  hash_file = λ m s. (true, m, s);
  cancel_file = λ m s. (true, m, s);
}

abbrev session_env : Env
session_env = record {
  clock = λ n. pos n;
  delivers = λ n. true;
  dump = λ j. [];
  dump_group = λ j. [];
  interface = dummy_interface;
}

abbrev env : ClientEnv
env = record {
  env = session_env;
  parse = λ t. none;
  reader = record {
    cwd = text "/w";
    parse_group = λ t. none;
    parse_options = λ t. some t;
    unset = dummy;
  };
  has_port = λ t. false;
  open_interface = λ s ip h. (tt, h);
  missing = tt;
  exists = λ f. true;
  file_size = λ f. 300;
  entries = λ f. nothing;
  read_file = λ f. [];
}

env-KeepsStatus : KeepsStatus dummy_interface
env-KeepsStatus = record {
  upload = λ m s. refl;
  download = λ dest m s. refl;
  pause = λ m s. refl;
  resume = λ m s. refl;
  hash = λ m s. refl;
  cancel = λ m s. refl;
}

env-OpensQuietly : OpensQuietly env
env-OpensQuietly s ip h q = refl

abbrev session : Text → Session
session id = record {
  session_type = uploader;
  session_id = id;
  connections = record { bookkeepers_conn = text "b1" ∷ []; clients_conn = []; max_tries = 3 };
  transfer_options = record {
    group_id = text "g";
    protocol = dummy;
    protocol_options = [];
    transfers_meta = 0 ∷ [];
    expected_files = text "/w/a" ∷ [];
    source_id = text "c";
    source_ip = default_ip;
  };
  work_dir = text "/w";
  target_clients = [];
}

abbrev own : Text → ClientSession env
own id = record { session = session id; ip = default_ip; interface = tt }

abbrev client : Client env
client = record {
  client_id = text "c";
  listening_ip = default_ip;
  listening_dir = text "/w";
  connections = (session []).connections;
  sessions = own (text "c_sesg") ∷ own (text "c_sesh") ∷ [];
  available_files = [];
  my_conn = text "c";
  heap = λ p. blank_metadata;
  next = 1;
  instant = 0;
  log = [];
  session_issues = [];
  issues = [];
}

abbrev start_message : NotificationData
start_message = record {
  source_id = text "b1";
  target_id = text "c_sesg";
  notification = text "START_TRANSFER";
  data_text = [];
}

abbrev started : ClientSession env × Client env
started = operate (λ w. (start_all (session (text "c_sesg")) w).1) (own (text "c_sesg")) client

abbrev after : Client env
after = record (started.1) { sessions = started.0 ∷ own (text "c_sesh") ∷ [] }

start_run : handle_all (start_message ∷ []) client ≡ some after
unfolding handle_all action_on_receive_notification act control control_at on_files
    string_to_notification get_session session_name find_session at_session
start_run = refl

abbrev work : List Round
work =
    record { found = record { bookkeepers = []; clients = [] }; heard = some start_message }
    ∷ record { found = record { bookkeepers = []; clients = [] }; heard = none }
    ∷ []

work_run : do_work work client ≡ some after
unfolding do_work hear look_for get_my_conn action_on_receive_notification act control control_at
    on_files string_to_notification get_session session_name find_session at_session
work_run = refl

do_work-Advanced_example : Advanced client after
do_work-Advanced_example =
    do_work-Advanced env-KeepsStatus env-OpensQuietly work client after work_run

second_run : find_session (text "c_sesh") (own (text "c_sesh") ∷ []) ≡ some 0
unfolding find_session
second_run = refl

-- The second session is to be removed, and the first one is.
remove_session-first_example :
    (remove_session (text "c_sesh") client).sessions ≡ own (text "c_sesh") ∷ []
remove_session-first_example =
    remove_session-first (text "c_sesh") client (own (text "c_sesg")) (own (text "c_sesh") ∷ []) 0
      refl refl refl second_run

-- A transfer named "c_sesg" finds the session of the transfer "g".
ses_run : get_session (text "c_sesg") client ≡ some 0
unfolding get_session session_name find_session
ses_run = refl
