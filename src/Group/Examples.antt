-- ===== src/Group/Examples.antt =====
-- The theorems on groups at a group of two files.
use snbmodules.Common.{ℕ, ◌≡◌, refl, some, false, [], ◌∷◌, text, pos, All, arith, member, set_erase}
use snbmodules.Enums.Status.{waiting}
use snbmodules.Enums.Protocol.{scp, dummy}
use snbmodules.IpFormat.Address.{default_ip}
use snbmodules.FilePath.Path.{path_eq, normalise}
use snbmodules.Metadata.Transfer.{TransferMetadata, set_group_id}
use snbmodules.Group.Metadata.{
  Heap, GroupMetadata, Added, add_file, store, get_transfer_meta_from_file_path, find_file,
}
use snbmodules.IpFormat.Address.{IpFormat, make, set_ip, set_port, close}
use snbmodules.IpFormat.Valid.{make-IsValid}
use snbmodules.FilePath.Strip.{strip}
use snbmodules.Session.World.{export_group}
use snbmodules.Group.Import.{GroupReader, load_group}
use snbmodules.Group.RoundTrip.{fields_of, ReadBack, load_group-export_group}
use snbmodules.Group.Invariant.{GroupInv, add_file-GroupInv}

abbrev file : ℕ → TransferMetadata
file n = record {
  file_path = n ∷ [];
  hash = [];
  size = 300;
  bytes_transferred = 0;
  transmission_speed = pos 0;
  status = waiting;
  src = default_ip;
  dest = default_ip;
  magnet_link = [];
  group_id = text "g";
  error_code = [];
  start_time = pos 0;
  end_time = pos 0;
  duration = pos 0;
  modified_fields = λ f. false;
}

abbrev heap : Heap
heap n = file n

abbrev group : GroupMetadata
group = record {
  group_id = text "g";
  protocol = scp;
  protocol_options = [];
  transfers_meta = 1 ∷ 2 ∷ [];
  expected_files = (3 ∷ []) ∷ [];
  source_id = text "c";
  source_ip = default_ip;
}

abbrev added : Added
added = record {
  file = 3;
  reported = false;
  heap = store 3 (set_group_id (text "g") (file 3)) heap;
  group = record group { transfers_meta = 1 ∷ 2 ∷ 3 ∷ []; expected_files = [] };
}

added_run : add_file 3 heap group ≡ some added
unfolding add_file member set_erase
added_run = refl

group-GroupInv : GroupInv heap group
unfolding member
group-GroupInv = record {
  settled = ((refl, refl), ((refl, refl), tt));
  distinct = (((λ e. omega (arith, e)), tt), (tt, tt));
}

add_file-GroupInv_example : GroupInv added.heap added.group
add_file-GroupInv_example = add_file-GroupInv 3 heap group added group-GroupInv added_run

found_run : get_transfer_meta_from_file_path heap group (2 ∷ []) ≡ some (2, false)
unfolding get_transfer_meta_from_file_path find_file path_eq
found_run = refl

-- A group that is announced: its two files have paths that are stored as they are.
abbrev sent_heap : Heap
sent_heap p = record (file p) { file_path = 47 ∷ p ∷ [] }

abbrev address : IpFormat
address = record { ip = text "n1"; port = 80 }

address_run : make (text "n1") (pos 80) ≡ some address
unfolding make set_port set_ip close
address_run = refl

abbrev sent : GroupMetadata
sent = record group { transfers_meta = 97 ∷ 98 ∷ []; source_ip = address }

abbrev reader : GroupReader
reader = record {
  cwd = text "/w";
  parse_group = λ t. some (fields_of (export_group sent_heap sent));
  parse_options = λ t. some t;
  unset = dummy;
}

stored_as_they_are :
    All
      (λ p. normalise (text "/w") (sent_heap p).file_path ≡ some (sent_heap p).file_path)
      sent.transfers_meta
unfolding normalise strip
stored_as_they_are = (refl, (refl, tt))

load_group-export_group_example :
    (o : GroupMetadata) × (load_group reader [] ≡ some o) × ReadBack sent_heap sent o
load_group-export_group_example =
    load_group-export_group reader (λ o. []) sent_heap sent refl refl
      (make-IsValid (text "n1") (pos 80) address address_run) stored_as_they_are
