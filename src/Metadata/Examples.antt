-- ===== src/Metadata/Examples.antt =====
-- The theorems on metadata at one file each, and test runs.
use snbmodules.Common.{◌≡◌, refl, text, pos, some, [], arith, true, false}
use snbmodules.Enums.Status.{waiting}
use snbmodules.IpFormat.Address.{IpFormat, default_ip, ip_eq, make, close, set_ip, set_port}
use snbmodules.IpFormat.Valid.{make-IsValid}
use snbmodules.FilePath.Path.{normalise}
use snbmodules.FilePath.Strip.{strip}
use snbmodules.Metadata.Transfer.{TransferMetadata, set_progress, bytes_transferred, mark}
use snbmodules.Metadata.Json.{from_string, export_to_string_partial}
use snbmodules.Metadata.Codec.{dump, parse, parse-dump}
use snbmodules.Metadata.RoundTrip.{SameContent, Sendable, from_string-export}

abbrev host : IpFormat
host = record { ip = text "n1"; port = 80 }

abbrev other : IpFormat
other = record { ip = text "n2"; port = 81 }

host_run : make (text "n1") (pos 80) ≡ some host
unfolding make set_port set_ip close
host_run = refl

other_run : make (text "n2") (pos 81) ≡ some other
unfolding make set_port set_ip close
other_run = refl

abbrev file : TransferMetadata
file = record {
  file_path = text "/a/b";
  hash = text "h";
  size = 300;
  bytes_transferred = 7;
  transmission_speed = pos 5;
  status = waiting;
  src = host;
  dest = other;
  magnet_link = [];
  group_id = text "g";
  error_code = [];
  start_time = pos 0;
  end_time = pos 0;
  duration = pos 0;
  modified_fields = λ f. false;
}

abbrev blank : TransferMetadata
blank = record file { file_path = []; src = default_ip; dest = default_ip }

file_path_run : normalise (text "/w") (text "/a/b") ≡ some (text "/a/b")
unfolding normalise strip
file_path_run = refl

file-Sendable : Sendable (text "/w") file
unfolding ip_eq
file-Sendable = record {
  path = file_path_run;
  src_valid = make-IsValid (text "n1") (pos 80) host host_run;
  dest_valid = make-IsValid (text "n2") (pos 81) other other_run;
  distinct = refl;
  size_range = omega arith;
  transferred_range = omega arith;
  speed_range = omega arith;
  start_range = omega arith;
  end_range = omega arith;
  duration_range = omega arith;
}

fresh_dest : ip_eq host default_ip ≡ false
unfolding ip_eq
fresh_dest = refl

from_string-export_example :
    (m' : TransferMetadata) × (from_string parse
        (text "/w")
        (pos 9)
        (export_to_string_partial dump true file).0
        blank
      ≡ some m')
    × SameContent file m'
from_string-export_example =
    from_string-export dump parse parse-dump (text "/w") (pos 9) file blank file-Sendable fresh_dest

abbrev half : TransferMetadata
half = record file {
  bytes_transferred = 150;
  modified_fields = mark bytes_transferred file.modified_fields;
}

half_run : set_progress (pos 50) file ≡ some half
unfolding set_progress
half_run = refl
