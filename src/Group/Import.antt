-- ===== src/Group/Import.antt =====
-- GroupMetadata::from_string of src/common/group_metadata.cpp, and the constructor from a text. The
-- parser of nlohmann::json is a parameter, which gives the values of the keys that the code uses.
use snbmodules.Common.{text, Option, none, some, List, [], ◌∷◌, Text, pos, ◌>>=◌}
use snbmodules.Enums.Protocol.{Protocol, string_to_protocols}
use snbmodules.IpFormat.Address.{make, default_ip}
use snbmodules.Group.Metadata.{GroupMetadata, add_expected_file}

-- The values of a JSON object; `none` for a key that is missing.
pub record GroupFields : Type 0 where
  pub transfer_id : Option Text
  pub source_id : Option Text
  pub source_ip : Option Text
  pub protocol : Option Text
  pub protocol_options : Option Text
  pub files : Option (List Text)

-- `cwd` is the working directory. parse_group is nlohmann::json::parse with the conversions of the
-- values, and parse_options the parser for the options, which are kept as their text. The protocol
-- of a group that is not set is not initialised: `unset` is whatever it holds.
pub record GroupReader : Type 0 where
  pub cwd : Text
  pub parse_group : Text → Option GroupFields
  pub parse_options : Text → Option Text
  pub unset : Protocol

-- `if (j.contains(key)) { ... }`.
abbrev pub given {ℓ} :
    {A : Type ℓ}
    → (A → GroupMetadata → Option GroupMetadata)
    → Option A
    → GroupMetadata
    → Option GroupMetadata
given set none g = some g
given set (some a) g = set a g

unfoldable pub set_source_ip : Text → GroupMetadata → Option GroupMetadata
set_source_ip t g = make t (pos 0) >>= λ ip. some (record g { source_ip = ip })

-- value() of a name that is unknown throws.
unfoldable pub set_protocol : Text → GroupMetadata → Option GroupMetadata
set_protocol t g = string_to_protocols t >>= λ p. some (record g { protocol = p })

unfoldable pub set_protocol_options :
    (Text → Option Text) → Text → GroupMetadata → Option GroupMetadata
set_protocol_options parse t g = parse t >>= λ o. some (record g { protocol_options = o })

unfoldable pub add_expected_files : Text → List Text → GroupMetadata → Option GroupMetadata
add_expected_files cwd [] g = some g
add_expected_files cwd (file ∷ files) g =
    add_expected_file cwd file g >>= λ h. add_expected_files cwd files h

module _ (r : GroupReader) where
  -- from_string behind the parser; `none` is an exception.
  unfoldable pub from_fields : GroupFields → GroupMetadata → Option GroupMetadata
  unfolding set_source_ip set_protocol set_protocol_options
  from_fields j g = do
    g1 ← given (λ t h. some (record h { group_id = t })) j.transfer_id g
    g2 ← given (λ t h. some (record h { source_id = t })) j.source_id g1
    g3 ← given set_source_ip j.source_ip g2
    g4 ← given set_protocol j.protocol g3
    g5 ← given (set_protocol_options r.parse_options) j.protocol_options g4
    given (add_expected_files r.cwd) j.files g5

  unfoldable pub from_string : Text → GroupMetadata → Option GroupMetadata
  from_string s g = r.parse_group s >>= λ j. from_fields j g

  -- The default members.
  abbrev pub blank_group : GroupMetadata
  blank_group = record {
    group_id = [];
    protocol = r.unset;
    protocol_options = text "null";
    transfers_meta = [];
    expected_files = [];
    source_id = [];
    source_ip = default_ip;
  }

  unfoldable pub load_group : Text → Option GroupMetadata
  load_group s = from_string s blank_group
