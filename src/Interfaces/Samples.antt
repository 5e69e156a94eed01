-- ===== src/Interfaces/Samples.antt =====
-- Test data: files and a session.
use snbmodules.Common.{ℕ, true, [], ◌∷◌, text, pos}
use snbmodules.Enums.Status.{Status}
use snbmodules.Enums.Protocol.{dummy}
use snbmodules.IpFormat.Address.{IpFormat, default_ip}
use snbmodules.Metadata.Transfer.{TransferMetadata}
use snbmodules.Session.World.{Session, SessionType}

abbrev host : IpFormat
host = record { ip = text "10.0.0.1"; port = 80 }

abbrev pub file : Status → ℕ → TransferMetadata
file now n = record {
  file_path = 47 ∷ 97 ∷ n ∷ [];
  hash = [];
  size = 300;
  bytes_transferred = 20;
  transmission_speed = pos 0;
  status = now;
  src = host;
  dest = default_ip;
  magnet_link = text "m";
  group_id = text "g";
  error_code = [];
  start_time = pos 3;
  end_time = pos 0;
  duration = pos 0;
  modified_fields = λ f. true;
}

abbrev pub session : SessionType → Session
session side = record {
  session_type = side;
  session_id = text "s";
  connections = record { bookkeepers_conn = []; clients_conn = []; max_tries = 3 };
  transfer_options = record {
    group_id = text "g";
    protocol = dummy;
    protocol_options = [];
    transfers_meta = 0 ∷ 1 ∷ [];
    expected_files = [];
    source_id = text "c";
    source_ip = default_ip;
  };
  work_dir = text "/w";
  target_clients = [];
}
