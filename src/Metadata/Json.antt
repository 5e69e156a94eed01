-- ===== src/Metadata/Json.antt =====
-- export_to_string_partial and from_string of src/common/transfer_metadata.cpp. A JSON object is
-- the function from the keys that the code uses to its values; dump and parse of nlohmann::json
-- are parameters.
use snbmodules.Common.{
  Bool, false, ◌||◌, Option, none, some, Text, ℤ, pos, negsuc, ℕ, ◌%◌, ◌-◌, ◌*◌, ltb, if◌then◌else◌,
  ◌>>=◌,
}
use snbmodules.Enums.Status.{status_to_string, string_to_status}
use snbmodules.IpFormat.Address.{make, get_ip_port}
use snbmodules.Metadata.Transfer.{
  TransferMetadata, set_file_path, set_src, set_dest, set_group_id, set_hash, set_size,
  set_bytes_transferred, set_magnet_link, set_error_code, set_transmission_speed, set_duration,
  set_start_time, set_end_time, set_status, hash, size, bytes_transferred, transmission_speed,
  status, magnet_link, error_code, start_time, end_time, duration,
}

pub data Key : Type 0 where
  key_file_path key_source key_destination key_group_id key_hash key_size key_transfered key_speed
        key_status key_magnet_link key_error_code key_start_t key_end_t key_duration :
      Key

pub data Value : Type 0 where
  string : Text → Value
  number : ℤ → Value

abbrev pub Object : Type 0
Object = Key → Option Value

-- A value that is written only when it is wanted.
abbrev pub when : Bool → Value → Option Value
when b v = if b then some v else none

unfoldable pub export_object : Bool → TransferMetadata → Object
export_object force_all m key_file_path = some (string m.file_path)
export_object force_all m key_source = some (string (get_ip_port m.src))
export_object force_all m key_destination = some (string (get_ip_port m.dest))
export_object force_all m key_group_id = some (string m.group_id)
export_object force_all m key_hash = when (force_all || m.modified_fields hash) (string m.hash)
export_object force_all m key_size =
    when (force_all || m.modified_fields size) (number (pos m.size))
export_object force_all m key_transfered =
    when (force_all || m.modified_fields bytes_transferred) (number (pos m.bytes_transferred))
export_object force_all m key_speed =
    when (force_all || m.modified_fields transmission_speed) (number m.transmission_speed)
export_object force_all m key_status =
    when (force_all || m.modified_fields status) (string (status_to_string m.status))
export_object force_all m key_magnet_link =
    when (force_all || m.modified_fields magnet_link) (string m.magnet_link)
export_object force_all m key_error_code =
    when (force_all || m.modified_fields error_code) (string m.error_code)
export_object force_all m key_start_t =
    when (force_all || m.modified_fields start_time) (number m.start_time)
export_object force_all m key_end_t =
    when (force_all || m.modified_fields end_time) (number m.end_time)
export_object force_all m key_duration =
    when (force_all || m.modified_fields duration) (number m.duration)

-- get<std::string>(), which throws on a value of another type.
unfoldable pub as_text : Value → Option Text
as_text (string t) = some t
as_text (number n) = none

-- get<uint64_t>(): a number is converted, as in C++.
unfoldable pub as_unsigned : Value → Option ℕ
as_unsigned (string t) = none
as_unsigned (number (pos n)) = some (n % 18446744073709551616)
as_unsigned (number (negsuc n)) = some (18446744073709551615 - n % 18446744073709551616)

-- The conversion to the signed integers from -half to half - 1.
unfoldable pub to_signed : ℕ → ℤ → ℤ
to_signed half (pos n) =
    let k = n % (2 * half) in if ltb k half then pos k else negsuc (2 * half - 1 - k)
to_signed half (negsuc n) =
    let k = n % (2 * half) in if ltb k half then negsuc k else pos (2 * half - 1 - k)

abbrev pub int32_half : ℕ
int32_half = 2147483648

abbrev pub int64_half : ℕ
int64_half = 9223372036854775808

-- get<int32_t>() and get<int64_t>().
unfoldable pub as_signed : ℕ → Value → Option ℤ
unfolding to_signed
as_signed half (string t) = none
as_signed half (number n) = some (to_signed half n)

-- `if (j.contains(key)) { set(j[key]); }`.
abbrev pub reading {ℓ} :
    {A : Type ℓ}
    → (Value → Option A)
    → (A → TransferMetadata → Option TransferMetadata)
    → Option Value
    → TransferMetadata
    → Option TransferMetadata
reading get set none m = some m
reading get set (some v) m = get v >>= λ a. set a m

-- A status that has no name is reported and not set.
unfoldable pub set_status_text : ℤ → Text → TransferMetadata → TransferMetadata
set_status_text now t m = elim (string_to_status t) [ none ↦ m | some s ↦ set_status now s m ]

unfoldable pub set_src_text : Text → TransferMetadata → Option TransferMetadata
set_src_text t m = make t (pos 0) >>= λ ip. set_src ip m

unfoldable pub set_dest_text : Text → TransferMetadata → Option TransferMetadata
set_dest_text t m = make t (pos 0) >>= λ ip. set_dest ip m

-- from_string behind the parser: `cwd` is the working directory, `now` the clock. `none` is an
-- exception.
unfoldable pub from_object : Text → ℤ → Object → TransferMetadata → Option TransferMetadata
unfolding set_src_text set_dest_text
from_object cwd now j m = do
  m1 ← reading as_text (set_file_path cwd) (j key_file_path) m
  m2 ← reading as_text (λ t k. some (set_hash t k)) (j key_hash) m1
  m3 ← reading as_unsigned (λ n k. some (set_size n k)) (j key_size) m2
  m4 ← reading as_unsigned (λ n k. some (set_bytes_transferred n k)) (j key_transfered) m3
  m5 ← reading (as_signed int32_half) (λ n k. some (set_transmission_speed n k)) (j key_speed) m4
  m6 ← reading as_text set_src_text (j key_source) m5
  m7 ← reading as_text set_dest_text (j key_destination) m6
  m8 ← reading as_text (λ t k. some (set_status_text now t k)) (j key_status) m7
  m9 ← reading as_text (λ t k. some (set_magnet_link t k)) (j key_magnet_link) m8
  m10 ← reading as_text (λ t k. some (set_group_id t k)) (j key_group_id) m9
  m11 ← reading as_text (λ t k. some (set_error_code t k)) (j key_error_code) m10
  m12 ← reading (as_signed int64_half) (λ n k. some (set_start_time n k)) (j key_start_t) m11
  m13 ← reading (as_signed int64_half) (λ n k. some (set_end_time n k)) (j key_end_t) m12
  reading (as_signed int64_half) (λ n k. some (set_duration n k)) (j key_duration) m13

module _ (dump : Object → Text) where
  -- The text, and the metadata with no field modified.
  unfoldable pub export_to_string_partial : Bool → TransferMetadata → Text × TransferMetadata
  export_to_string_partial force_all m =
      (dump (export_object force_all m), record m { modified_fields = λ f. false })

module _ (parse : Text → Option Object) where
  unfoldable pub from_string : Text → ℤ → Text → TransferMetadata → Option TransferMetadata
  from_string cwd now s m = parse s >>= λ j. from_object cwd now j m
