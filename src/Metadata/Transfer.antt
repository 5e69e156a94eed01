-- ===== src/Metadata/Transfer.antt =====
-- TransferMetadata: its members, setters and getters. std::map m_modified_fields is the function
-- from the names that the code uses; operator[] of a missing name is false. Sizes are uint64_t.
use snbmodules.Common.{
  ℕ, ◌*◌, ◌/◌, ◌%◌, ◌^◌, Bool, true, false, [], ◌&&◌, ◌||◌, not, Option, none, some, Text, text_eq,
  ℤ, pos, negsuc, ◌+ℤ◌, ◌-ℤ◌, leb, ◌==◌, if◌then◌else◌,
}
use snbmodules.Enums.Status.{Status, status_eq, error, finished, paused, uploading, downloading}
use snbmodules.IpFormat.Address.{IpFormat, ip_eq}
use snbmodules.FilePath.Path.{normalise, path_eq, filename}

-- The names of m_modified_fields that the code sets and reads.
pub data Field : Type 0 where
  hash size bytes_transferred transmission_speed status magnet_link error_code start_time end_time
        duration :
      Field

abbrev pub field_rank : Field → ℕ
field_rank hash = 0
field_rank size = 1
field_rank bytes_transferred = 2
field_rank transmission_speed = 3
field_rank status = 4
field_rank magnet_link = 5
field_rank error_code = 6
field_rank start_time = 7
field_rank end_time = 8
field_rank duration = 9

pub record TransferMetadata : Type 0 where
  pub file_path : Text
  pub hash : Text
  pub size : ℕ
  pub bytes_transferred : ℕ
  pub transmission_speed : ℤ
  pub status : Status
  pub src : IpFormat
  pub dest : IpFormat
  pub magnet_link : Text
  pub group_id : Text
  pub error_code : Text
  pub start_time : ℤ
  pub end_time : ℤ
  pub duration : ℤ
  pub modified_fields : Field → Bool

-- m_modified_fields[f] = true.
unfoldable pub mark : Field → (Field → Bool) → Field → Bool
mark f m g = (field_rank f == field_rank g) || m g

unfoldable pub set_file_path : Text → Text → TransferMetadata → Option TransferMetadata
set_file_path cwd p m = elim (normalise cwd p) [
  | none ↦ none
  | some q ↦ some (record m { file_path = q })
]

-- `none` is std::invalid_argument.
unfoldable pub set_src : IpFormat → TransferMetadata → Option TransferMetadata
set_src source m = if not (ip_eq source m.dest) then some (record m { src = source }) else none

unfoldable pub set_dest : IpFormat → TransferMetadata → Option TransferMetadata
set_dest dest m = if not (ip_eq dest m.src) then some (record m { dest = dest }) else none

unfoldable pub set_group_id : Text → TransferMetadata → TransferMetadata
set_group_id t m = record m { group_id = t }

unfoldable pub set_hash : Text → TransferMetadata → TransferMetadata
set_hash t m = record m { hash = t; modified_fields = mark hash m.modified_fields }

unfoldable pub set_size : ℕ → TransferMetadata → TransferMetadata
set_size n m = record m { size = n; modified_fields = mark size m.modified_fields }

unfoldable pub set_bytes_transferred : ℕ → TransferMetadata → TransferMetadata
set_bytes_transferred n m = record m {
  bytes_transferred = n;
  modified_fields = mark bytes_transferred m.modified_fields;
}

unfoldable pub set_magnet_link : Text → TransferMetadata → TransferMetadata
set_magnet_link t m = record m {
  magnet_link = t;
  modified_fields = mark magnet_link m.modified_fields;
}

unfoldable pub set_error_code : Text → TransferMetadata → TransferMetadata
set_error_code t m = record m {
  error_code = t;
  modified_fields = mark error_code m.modified_fields;
}

unfoldable pub set_transmission_speed : ℤ → TransferMetadata → TransferMetadata
set_transmission_speed n m = record m {
  transmission_speed = n;
  modified_fields = mark transmission_speed m.modified_fields;
}

unfoldable pub set_duration : ℤ → TransferMetadata → TransferMetadata
set_duration n m = record m { duration = n; modified_fields = mark duration m.modified_fields }

unfoldable pub set_start_time : ℤ → TransferMetadata → TransferMetadata
set_start_time n m = record m {
  start_time = n;
  modified_fields = mark start_time m.modified_fields;
}

unfoldable pub set_end_time : ℤ → TransferMetadata → TransferMetadata
set_end_time n m = record m { end_time = n; modified_fields = mark end_time m.modified_fields }

-- The product wraps at 64 bits.
unfoldable pub set_progress : ℤ → TransferMetadata → Option TransferMetadata
unfolding set_bytes_transferred
set_progress (pos percent) m =
    if leb percent 100
    then some (set_bytes_transferred (percent * m.size % 2 ^ 64 / 100) m)
    else none
set_progress (negsuc n) m = none

unfoldable pub get_progress : TransferMetadata → ℕ
get_progress m = if m.size == 0 then 0 else (m.bytes_transferred * 100 % 2 ^ 64 / m.size) % 2 ^ 32

-- The three tests of set_status, in their order; `now` is the system clock in ms.
at_start : ℤ → Status → TransferMetadata → TransferMetadata
at_start now s m =
    if status_eq s downloading || status_eq s uploading then record m { start_time = now } else m

at_end : ℤ → Status → TransferMetadata → TransferMetadata
at_end now s m =
    if status_eq s finished || status_eq s error
    then record m { end_time = now; duration = m.duration +ℤ (now -ℤ m.start_time) }
    else m

at_pause : ℤ → Status → TransferMetadata → TransferMetadata
at_pause now s m =
    if status_eq s paused then record m { duration = m.duration +ℤ (now -ℤ m.start_time) } else m

unfoldable pub set_status : ℤ → Status → TransferMetadata → TransferMetadata
unfolding at_start at_end at_pause
set_status now s m =
    let timed = at_pause now s (at_end now s (at_start now s (record m { status = s }))) in
    record timed { modified_fields = mark status timed.modified_fields }

is_zero : ℤ → Bool
is_zero (pos n) = n == 0
is_zero (negsuc n) = false

unfoldable pub get_total_duration_ms : ℤ → TransferMetadata → ℤ
unfolding is_zero
get_total_duration_ms now m =
    if is_zero m.start_time
    then pos 0
    else if is_zero m.end_time
    then m.duration +ℤ (now -ℤ m.start_time)
    else m.end_time -ℤ m.start_time

unfoldable pub get_file_name : TransferMetadata → Text
get_file_name m = filename m.file_path

-- operator==.
unfoldable pub meta_eq : TransferMetadata → TransferMetadata → Bool
meta_eq m o =
    path_eq m.file_path o.file_path
    && ip_eq m.src o.src
    && ip_eq m.dest o.dest
    && text_eq m.group_id o.group_id

-- The constructor from values: every field counts as modified.
unfoldable pub make_metadata :
    Text → Text → ℕ → IpFormat → Text → IpFormat → Text → ℕ → Status → Option TransferMetadata
make_metadata cwd path bytes source h destination group transferred s = elim (normalise cwd path) [
  | none ↦ none
  | some p ↦ some (record {
    file_path = p;
    hash = h;
    size = bytes;
    bytes_transferred = transferred;
    transmission_speed = pos 0;
    status = s;
    src = source;
    dest = destination;
    magnet_link = [];
    group_id = group;
    error_code = [];
    start_time = pos 0;
    end_time = pos 0;
    duration = pos 0;
    modified_fields = λ f. true;
  })
]
