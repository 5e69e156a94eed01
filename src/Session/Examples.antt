-- ===== src/Session/Examples.antt =====
-- The theorems on sessions at a session of two files.
use snbmodules.Common.{ℕ, zero, suc, ◌≡◌, refl, true, [], ◌∷◌, text, pos}
use snbmodules.Enums.Status.{Status, waiting, finished, cancelled}
use snbmodules.Enums.Protocol.{dummy}
use snbmodules.IpFormat.Address.{default_ip}
use snbmodules.Metadata.Transfer.{TransferMetadata}
use snbmodules.Session.World.{TransferInterface, Env, uploader, Session, World}
use snbmodules.Session.Transitions.{KeepsStatus}
use snbmodules.Session.Moves.{Advances}
use snbmodules.Session.Runs.{upload, start_group, cancel_group, run_all, run_all-Advances}
use snbmodules.Session.Stops.{run_all-cancelled}

-- TransferInterfaceDummy: every call succeeds.
abbrev dummy_interface : TransferInterface
dummy_interface = record {
  State = Unit;
  upload_file = λ m s. (true, m, s);
  download_file = λ dest m s. (true, m, s);
  pause_file = λ m s. (true, m, s);
  resume_file = λ m s. (true, m, s);
  hash_file = λ m s. (true, m, s);
  cancel_file = λ m s. (true, m, s);
}

abbrev env : Env
env = record {
  clock = λ n. pos n;
  delivers = λ n. true;
  dump = λ j. [];
  dump_group = λ j. [];
  interface = dummy_interface;
}

env-KeepsStatus : KeepsStatus dummy_interface
env-KeepsStatus = record {
  upload = λ m s. refl;
  download = λ dest m s. refl;
  pause = λ m s. refl;
  resume = λ m s. refl;
  hash = λ m s. refl;
  cancel = λ m s. refl;
}

abbrev status_of_file : ℕ → Status
status_of_file zero = finished
status_of_file (suc zero) = cancelled
status_of_file (suc (suc n)) = waiting

abbrev file : ℕ → TransferMetadata
file n = record {
  file_path = n ∷ [];
  hash = [];
  size = 300;
  bytes_transferred = 0;
  transmission_speed = pos 0;
  status = status_of_file n;
  src = default_ip;
  dest = default_ip;
  magnet_link = [];
  group_id = text "g";
  error_code = [];
  start_time = pos 0;
  end_time = pos 0;
  duration = pos 0;
  modified_fields = λ f. true;
}

abbrev session : Session
session = record {
  session_type = uploader;
  session_id = text "s";
  connections = record {
    bookkeepers_conn = text "b1" ∷ text "b2" ∷ [];
    clients_conn = [];
    max_tries = 3;
  };
  transfer_options = record {
    group_id = text "g";
    protocol = dummy;
    protocol_options = [];
    transfers_meta = 0 ∷ 2 ∷ [];
    expected_files = [];
    source_id = text "c";
    source_ip = default_ip;
  };
  work_dir = text "/w";
  target_clients = text "c2" ∷ [];
}

abbrev world : World env
world = record { heap = file; instant = 1; log = []; interface = tt; issues = [] }

run_all-Advances_example : Advances world (run_all session (upload 2 ∷ cancel_group ∷ []) world)
run_all-Advances_example =
    run_all-Advances env-KeepsStatus session (upload 2 ∷ cancel_group ∷ []) world

run_all-cancelled_example : ((run_all session (start_group ∷ []) world).heap 1).status ≡ cancelled
run_all-cancelled_example =
    run_all-cancelled env-KeepsStatus session (start_group ∷ []) world 1 refl
