-- ===== src/Group/Metadata.antt =====
-- GroupMetadata. The files of a group are std::shared_ptr<TransferMetadata>: pointers into a heap,
-- which is shared with whoever else holds the file.
use snbmodules.Common.{
  ℕ, Bool, true, false, Option, none, some, List, [], ◌∷◌, ◌++◌, Text, text_eq, ◌==◌, ltb,
  if◌then◌else◌, TextSet, member, set_erase, set_insert,
}
use snbmodules.Enums.Status.{Status, preparing, rank}
use snbmodules.Enums.Protocol.{Protocol}
use snbmodules.IpFormat.Address.{IpFormat}
use snbmodules.FilePath.Path.{path_eq, normalise}
use snbmodules.Metadata.Transfer.{TransferMetadata, set_group_id}

abbrev pub Heap : Type 0
Heap = ℕ → TransferMetadata

-- Assignment through a pointer.
unfoldable pub store : ℕ → TransferMetadata → Heap → Heap
store p m heap q = if p == q then m else heap q

pub record GroupMetadata : Type 0 where
  pub group_id : Text
  pub protocol : Protocol
  pub protocol_options : Text
  pub transfers_meta : List ℕ
  pub expected_files : TextSet
  pub source_id : Text
  pub source_ip : IpFormat

-- `>` on the enumeration.
unfoldable pub higher : Status → Status → Status
higher s t = if ltb (rank s) (rank t) then t else s

-- The loop of get_group_status.
unfoldable pub highest : Heap → Status → List ℕ → Status
unfolding higher
highest heap s [] = s
highest heap s (p ∷ ps) = highest heap (higher s (heap p).status) ps

unfoldable pub get_group_status : Heap → GroupMetadata → Status
get_group_status heap g = highest heap preparing g.transfers_meta

-- The loop of get_transfer_meta_from_file_path.
unfoldable pub find_file : Heap → Text → List ℕ → Option ℕ
find_file heap file_path [] = none
find_file heap file_path (p ∷ ps) =
    let rest = find_file heap file_path ps in
    if path_eq (heap p).file_path file_path then some p else rest

-- A file, and whether an issue was reported with ers::fatal, which goes on.
abbrev pub Lookup : Type 0
Lookup = ℕ × Bool

-- m_transfers_meta[0] behind a fatal issue; `none` is its use on an empty vector.
unfoldable pub first_file : List ℕ → Option Lookup
first_file [] = none
first_file (p ∷ ps) = some (p, true)

unfoldable pub or_first : Option ℕ → List ℕ → Option Lookup
or_first none ps = first_file ps
or_first (some p) ps = some (p, false)

unfoldable pub get_transfer_meta_from_file_path : Heap → GroupMetadata → Text → Option Lookup
unfolding or_first
get_transfer_meta_from_file_path heap g file_path =
    or_first (find_file heap file_path g.transfers_meta) g.transfers_meta

-- The loop of add_file with the erase behind it: the same pointer, once.
unfoldable pub remove_file : ℕ → List ℕ → List ℕ
remove_file p [] = []
remove_file p (q ∷ qs) = let rest = q ∷ remove_file p qs in if q == p then qs else rest

pub record Added : Type 0 where
  pub file : ℕ
  pub reported : Bool
  pub heap : Heap
  pub group : GroupMetadata

refused : Heap → GroupMetadata → Lookup → Option Added
refused h g (p, r) = some (record { file = p; reported = r; heap = h; group = g })

unfoldable pub refuse : Heap → GroupMetadata → Option Lookup → Option Added
unfolding refused
refuse h g none = none
refuse h g (some l) = refused h g l

unfoldable pub add_file : ℕ → Heap → GroupMetadata → Option Added
unfolding refuse
add_file p h g =
    if member (h p).file_path g.expected_files
    then some (record {
      file = p;
      reported = false;
      heap = store p (set_group_id g.group_id (h p)) h;
      group = record g {
        expected_files = set_erase (h p).file_path g.expected_files;
        transfers_meta = g.transfers_meta ++ p ∷ [];
      };
    })
    else if text_eq (h p).group_id g.group_id
    then some (record {
      file = p;
      reported = false;
      heap = h;
      group = record g { transfers_meta = remove_file p g.transfers_meta ++ p ∷ [] };
    })
    else refuse h g (first_file g.transfers_meta)

-- add_expected_file; `cwd` is the working directory.
unfoldable pub add_expected_file : Text → Text → GroupMetadata → Option GroupMetadata
add_expected_file cwd file g = elim (normalise cwd file) [
  | none ↦ none
  | some p ↦ some (record g { expected_files = set_insert p g.expected_files })
]
