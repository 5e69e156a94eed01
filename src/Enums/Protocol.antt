-- ===== src/Enums/Protocol.antt =====
-- include/snbmodules/common/protocols_enum.hpp.
use mathlib.Core.Path.{refl}
use snbmodules.Common.{◌≡◌, Option, some, [], ◌∷◌, ◌↔◌, ap, ◌∙◌, Text, text, Map, lookup}
use snbmodules.Enums.Table.{lookup-named}

-- e_protocol_type.
pub data Protocol : Type 0 where
  bittorrent rclone scp dummy : Protocol

unfoldable pub protocols_to_string : Protocol → Text
protocols_to_string bittorrent = text "BITTORRENT"
protocols_to_string rclone = text "RCLONE"
protocols_to_string scp = text "SCP"
protocols_to_string dummy = text "dummy"

-- The std::map of names, in the order of its keys.
abbrev protocol_names : Map Protocol
protocol_names =
    (text "BITTORRENT", bittorrent)
    ∷ (text "RCLONE", rclone)
    ∷ (text "SCP", scp)
    ∷ (text "dummy", dummy)
    ∷ []

unfoldable pub string_to_protocols : Text → Option Protocol
unfolding lookup
string_to_protocols s = lookup s protocol_names

-- Every Protocol is read back from its name.
string_to_protocols-protocols_to_string :
    (e : Protocol) → string_to_protocols (protocols_to_string e) ≡ some e
unfolding string_to_protocols protocols_to_string
string_to_protocols-protocols_to_string bittorrent = refl
string_to_protocols-protocols_to_string rclone = refl
string_to_protocols-protocols_to_string scp = refl
string_to_protocols-protocols_to_string dummy = refl

-- Only the name of a Protocol is read as one.
string_to_protocols-some :
    (s : Text) (e : Protocol) → string_to_protocols s ≡ some e → s ≡ protocols_to_string e
unfolding string_to_protocols protocols_to_string
string_to_protocols-some s e h =
    lookup-named protocols_to_string s e protocol_names (refl, (refl, (refl, (refl, tt)))) h

-- A text is read as a Protocol exactly when it is its name.
pub string_to_protocols_iff :
    (s : Text) (e : Protocol) → (string_to_protocols s ≡ some e) ↔ (s ≡ protocols_to_string e)
string_to_protocols_iff s e = (
  string_to_protocols-some s e,
  λ h. ap string_to_protocols h ∙ string_to_protocols-protocols_to_string e,
)
