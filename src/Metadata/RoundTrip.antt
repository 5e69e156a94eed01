-- ===== src/Metadata/RoundTrip.antt =====
-- A complete export of a transfer's metadata is read back.
use snbmodules.Common.{
  ◌∙◌, ◌>>=◌, ◌<◌, >>=-some, sym, ◌≡◌, refl, true, false, Option, some, Text, ℤ, arith,
}
use snbmodules.Enums.Status.{Status, status_to_string, string_to_status_iff}
use snbmodules.IpFormat.Address.{ip_eq, IpFormat, get_ip_port}
use snbmodules.IpFormat.Valid.{IsValid}
use snbmodules.IpFormat.RoundTrip.{make-get_ip_port}
use snbmodules.FilePath.Path.{normalise}
use snbmodules.Metadata.Transfer.{
  TransferMetadata, set_file_path, set_src, set_dest, set_group_id, set_hash, set_size,
  set_bytes_transferred, set_magnet_link, set_error_code, set_transmission_speed, set_duration,
  set_start_time, set_end_time, set_status,
}
use snbmodules.Metadata.Numbers.{Fits, unsigned_read, signed_read}
use snbmodules.Metadata.Json.{
  set_src_text, set_dest_text, Object, export_object, from_object, set_status_text, as_text,
  as_signed, number, reading, int32_half, int64_half, from_string, export_to_string_partial,
}

-- The two hold the same values; only what counts as modified may differ.
pub record SameContent (m o : TransferMetadata) : Type 0 where
  pub file_path : m.file_path ≡ o.file_path
  pub hash : m.hash ≡ o.hash
  pub size : m.size ≡ o.size
  pub bytes_transferred : m.bytes_transferred ≡ o.bytes_transferred
  pub transmission_speed : m.transmission_speed ≡ o.transmission_speed
  pub status : m.status ≡ o.status
  pub src : m.src ≡ o.src
  pub dest : m.dest ≡ o.dest
  pub magnet_link : m.magnet_link ≡ o.magnet_link
  pub group_id : m.group_id ≡ o.group_id
  pub error_code : m.error_code ≡ o.error_code
  pub start_time : m.start_time ≡ o.start_time
  pub end_time : m.end_time ≡ o.end_time
  pub duration : m.duration ≡ o.duration

-- What set_status leaves alone, and the status that it sets.
pub record StatusSet (s : Status) (m o : TransferMetadata) : Type 0 where
  pub file_path : o.file_path ≡ m.file_path
  pub hash : o.hash ≡ m.hash
  pub size : o.size ≡ m.size
  pub bytes_transferred : o.bytes_transferred ≡ m.bytes_transferred
  pub transmission_speed : o.transmission_speed ≡ m.transmission_speed
  pub status : o.status ≡ s
  pub src : o.src ≡ m.src
  pub dest : o.dest ≡ m.dest

pub set_status-StatusSet :
    (now : ℤ) (s : Status) (m : TransferMetadata) → StatusSet s m (set_status now s m)
unfolding set_status
set_status-StatusSet now s m = record {
  file_path = ground arith;
  hash = ground arith;
  size = ground arith;
  bytes_transferred = ground arith;
  transmission_speed = ground arith;
  status = ground arith;
  src = ground arith;
  dest = ground arith;
}

-- What can be sent: a stored path that is kept when it is stored again, two addresses, not the
-- same, and numbers in the ranges of their types.
pub record Sendable (cwd : Text) (m : TransferMetadata) : Type 0 where
  pub path : normalise cwd m.file_path ≡ some m.file_path
  pub src_valid : IsValid m.src
  pub dest_valid : IsValid m.dest
  pub distinct : ip_eq m.dest m.src ≡ false
  pub size_range : m.size < 18446744073709551616
  pub transferred_range : m.bytes_transferred < 18446744073709551616
  pub speed_range : Fits int32_half m.transmission_speed
  pub start_range : Fits int64_half m.start_time
  pub end_range : Fits int64_half m.end_time
  pub duration_range : Fits int64_half m.duration

set_status_text-name :
    (now : ℤ) (s : Status) (m : TransferMetadata)
    → set_status_text now (status_to_string s) m ≡ set_status now s m
unfolding set_status_text
set_status_text-name now s m =
    rw ((string_to_status_iff (status_to_string s) s).1 refl, set_status_text) refl

-- The metadata before its status is set.
abbrev filled : TransferMetadata → TransferMetadata → TransferMetadata
filled m m0 =
    record (set_transmission_speed m.transmission_speed (
      set_bytes_transferred m.bytes_transferred
        (set_size m.size (set_hash m.hash (record m0 { file_path = m.file_path }))))) {
          src = m.src;
          dest = m.dest;
        }

abbrev restored : ℤ → TransferMetadata → TransferMetadata → TransferMetadata
restored now m m0 = set_duration m.duration (
    set_end_time m.end_time (
      set_start_time m.start_time (
        set_error_code m.error_code (
          set_group_id m.group_id
            (set_magnet_link m.magnet_link (set_status now m.status (filled m m0)))))))

set_file_path-some :
    (cwd : Text) (m m0 : TransferMetadata)
    → normalise cwd m.file_path ≡ some m.file_path
    → set_file_path cwd m.file_path m0 ≡ some (record m0 { file_path = m.file_path })
unfolding set_file_path
set_file_path-some cwd m m0 e = rw (e, set_file_path) refl

set_src_text-some :
    (f : IpFormat) (m : TransferMetadata)
    → IsValid f
    → ip_eq f m.dest ≡ false
    → set_src_text (get_ip_port f) m ≡ some (record m { src = f })
unfolding set_src_text set_src
set_src_text-some f m v e = rw (make-get_ip_port f v, e) refl

set_dest_text-some :
    (f : IpFormat) (m : TransferMetadata)
    → IsValid f
    → ip_eq f m.src ≡ false
    → set_dest_text (get_ip_port f) m ≡ some (record m { dest = f })
unfolding set_dest_text set_dest
set_dest_text-some f m v e = rw (make-get_ip_port f v, e) refl

-- The fields behind the addresses.
late_fields :
    {cwd : Text} (now : ℤ) (m m0 : TransferMetadata)
    → Sendable cwd m
    → (do
      m8 ← some (set_status_text now (status_to_string m.status) (filled m m0))
      m12 ←
          reading
            (as_signed int64_half)
            (λ n k. some (set_start_time n k))
            (some (number m.start_time))
            (set_error_code m.error_code
              (set_group_id m.group_id (set_magnet_link m.magnet_link m8)))
      m13 ←
          reading
            (as_signed int64_half)
            (λ n k. some (set_end_time n k))
            (some (number m.end_time))
            m12
      reading
          (as_signed int64_half)
          (λ n k. some (set_duration n k))
          (some (number m.duration))
          m13)
      ≡ some (restored now m m0)
late_fields now m m0 v =
    let y1 = set_error_code m.error_code (
      set_group_id m.group_id (
        set_magnet_link m.magnet_link
          (set_status_text now (status_to_string m.status) (filled m m0)))) in
    let y2 = set_start_time m.start_time y1 in
    let y3 = set_end_time m.end_time y2 in
    >>=-some _ _ (signed_read int64_half set_start_time m.start_time y1 v.start_range) (
      >>=-some _ _ (signed_read int64_half set_end_time m.end_time y2 v.end_range) (
        signed_read int64_half set_duration m.duration y3 v.duration_range
        ∙ rw (set_status_text-name now m.status (filled m m0)) refl))

from_object-export_object :
    (cwd : Text) (now : ℤ) (m m0 : TransferMetadata)
    → Sendable cwd m
    → ip_eq m.src m0.dest ≡ false
    → from_object cwd now (export_object true m) m0 ≡ some (restored now m m0)
unfolding from_object export_object as_text set_hash set_size set_bytes_transferred
    set_transmission_speed
from_object-export_object cwd now m m0 v fresh =
    let x1 = set_hash m.hash (record m0 { file_path = m.file_path }) in
    let x2 = set_size m.size x1 in
    let x3 = set_bytes_transferred m.bytes_transferred x2 in
    let x4 = set_transmission_speed m.transmission_speed x3 in
    >>=-some _ _ (set_file_path-some cwd m m0 v.path) (
      >>=-some _ _ (unsigned_read set_size m.size x1 v.size_range) (
        >>=-some _ _
          (unsigned_read set_bytes_transferred m.bytes_transferred x2 v.transferred_range)
          (>>=-some _ _
            (signed_read int32_half set_transmission_speed m.transmission_speed x3 v.speed_range)
            (>>=-some _ _ (set_src_text-some m.src x4 v.src_valid fresh) (
              >>=-some _ _
                (set_dest_text-some m.dest (record x4 { src = m.src }) v.dest_valid v.distinct)
                (late_fields now m m0 v))))))

restored-SameContent : (now : ℤ) (m m0 : TransferMetadata) → SameContent m (restored now m m0)
unfolding set_hash set_size set_bytes_transferred set_transmission_speed set_magnet_link
    set_group_id set_error_code set_start_time set_end_time set_duration
restored-SameContent now m m0 =
    let s = set_status-StatusSet now m.status (filled m m0) in
    record {
      file_path = sym s.file_path;
      hash = sym s.hash;
      size = sym s.size;
      bytes_transferred = sym s.bytes_transferred;
      transmission_speed = sym s.transmission_speed;
      status = sym s.status;
      src = sym s.src;
      dest = sym s.dest;
      magnet_link = refl;
      group_id = refl;
      error_code = refl;
      start_time = refl;
      end_time = refl;
      duration = refl;
    }

module _ (dump : Object → Text) (parse : Text → Option Object)
    (parse-dump : (j : Object) → parse (dump j) ≡ some j) where
  -- If parse reads back what dump writes, metadata with a path that is stored as it is, two valid
  -- addresses that differ and numbers in the ranges of their types is read back from its complete
  -- export, all its values equal, into any object whose destination is not the source that is read.
  pub from_string-export :
      (cwd : Text) (now : ℤ) (m m0 : TransferMetadata)
      → Sendable cwd m
      → ip_eq m.src m0.dest ≡ false
      → (m' : TransferMetadata) × (from_string parse cwd now
            (export_to_string_partial dump true m).0
            m0
          ≡ some m')
        × SameContent m m'
  unfolding from_string export_to_string_partial
  from_string-export cwd now m m0 v fresh = (
    restored now m m0,
    rw (parse-dump (export_object true m)) (from_object-export_object cwd now m m0 v fresh),
    restored-SameContent now m m0,
  )
