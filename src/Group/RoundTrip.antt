-- ===== src/Group/RoundTrip.antt =====
-- A group that is read back from its export (src/common/group_metadata.cpp).
use snbmodules.Common.{
  >>=-some, member-set_insert, set_insert, map, TextSet, ◌∙◌, member-set_insert, set_insert,
  TextSet, arith, ℕ, some, List, [], ◌∷◌, Text, ◌≡◌, refl, All, Bool, false, ◌||◌, text_eq, member,
}
use snbmodules.Enums.Protocol.{string_to_protocols_iff, protocols_to_string}
use snbmodules.IpFormat.Valid.{IsValid}
use snbmodules.IpFormat.RoundTrip.{make-get_ip_port}
use snbmodules.FilePath.Path.{normalise}
use snbmodules.Group.Metadata.{Heap, GroupMetadata, add_expected_file}
use snbmodules.Group.Import.{
  GroupFields, GroupReader, from_fields, from_string, load_group, blank_group, add_expected_files,
}
use snbmodules.Session.World.{GroupObject, export_group}

-- What a reader of JSON gets of an exported object: every key.
abbrev pub fields_of : GroupObject → GroupFields
fields_of o = record {
  transfer_id = some o.transfer_id;
  source_id = some o.source_id;
  source_ip = some o.source_ip;
  protocol = some o.protocol;
  protocol_options = some o.protocol_options;
  files = some o.files;
}

-- Does a file of the group have this path?
abbrev pub has_path : Heap → Text → List ℕ → Bool
has_path heap x [] = false
has_path heap x (p ∷ ps) = text_eq (heap p).file_path x || has_path heap x ps

-- The group that is read: its files are expected, none is held.
pub record ReadBack (heap : Heap) (g o : GroupMetadata) : Type 0 where
  pub group_id : o.group_id ≡ g.group_id
  pub protocol : o.protocol ≡ g.protocol
  pub protocol_options : o.protocol_options ≡ g.protocol_options
  pub source_id : o.source_id ≡ g.source_id
  pub source_ip : o.source_ip ≡ g.source_ip
  pub none_held : o.transfers_meta ≡ []
  pub expected : (x : Text) → member x o.expected_files ≡ has_path heap x g.transfers_meta

add_expected_file-some :
    (cwd file : Text) (g : GroupMetadata)
    → normalise cwd file ≡ some file
    → add_expected_file cwd file g
      ≡ some (record g { expected_files = set_insert file g.expected_files })
unfolding add_expected_file
add_expected_file-some cwd file g h = rw (h, add_expected_file) refl

-- The files' paths are added to those expected.
add_expected_files-run :
    (cwd : Text) (heap : Heap) (ps : List ℕ) (g : GroupMetadata)
    → All (λ p. normalise cwd (heap p).file_path ≡ some (heap p).file_path) ps
    → (s : TextSet) × (add_expected_files cwd (map (λ p. (heap p).file_path) ps) g
        ≡ some (record g { expected_files = s }))
      × ((x : Text) → member x s ≡ (has_path heap x ps || member x g.expected_files))
unfolding add_expected_files
add_expected_files-run cwd heap [] g h = (g.expected_files, refl, λ x. refl)
add_expected_files-run cwd heap (p ∷ ps) g h =
    let g' : GroupMetadata = record g {
      expected_files = set_insert (heap p).file_path g.expected_files;
    } in
    let (s, e, k) = add_expected_files-run cwd heap ps g' h.1 in
    (
      s,
      >>=-some _ _ (add_expected_file-some cwd (heap p).file_path g h.0) e,
      λ x. k x ∙ rw (member-set_insert (heap p).file_path x g.expected_files) ground arith,
    )

module _ (r : GroupReader) (dump : GroupObject → Text) where
  -- A group whose source address is valid, whose options are read as they are and whose files'
  -- paths are stored as they are is read back from its export when the parser gives back what was
  -- dumped: with the same id, source, protocol and options, holding no file, and expecting exactly the
  -- paths of the files that the group held.
  pub load_group-export_group :
      (heap : Heap) (g : GroupMetadata)
      → r.parse_group (dump (export_group heap g)) ≡ some (fields_of (export_group heap g))
      → r.parse_options g.protocol_options ≡ some g.protocol_options
      → IsValid g.source_ip
      → All (λ p. normalise r.cwd (heap p).file_path ≡ some (heap p).file_path) g.transfers_meta
      → (o : GroupMetadata) × (load_group r (dump (export_group heap g)) ≡ some o)
        × ReadBack heap g o
  unfolding load_group from_string from_fields export_group member
  load_group-export_group heap g parsed options valid paths =
      let g5 : GroupMetadata = record (blank_group r) {
        group_id = g.group_id;
        source_id = g.source_id;
        source_ip = g.source_ip;
        protocol = g.protocol;
        protocol_options = g.protocol_options;
      } in
      let (s, e, k) = add_expected_files-run r.cwd heap g.transfers_meta g5 paths in
      (
        record g5 { expected_files = s },
        (rw
            (
              parsed,
              make-get_ip_port g.source_ip valid,
              (string_to_protocols_iff (protocols_to_string g.protocol) g.protocol).1 refl,
              options,
            )
            e),
        record {
          group_id = refl;
          protocol = refl;
          protocol_options = refl;
          source_id = refl;
          source_ip = refl;
          none_held = refl;
          expected = λ x. k x ∙ ground arith;
        },
      )
