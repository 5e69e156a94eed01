-- ===== src/Enums/Status.antt =====
-- include/snbmodules/common/status_enum.hpp.
use mathlib.Core.Path.{refl}
use snbmodules.Common.{
  ℕ, ◌≡◌, Option, some, [], ◌∷◌, arith, true, ◌↔◌, ap, ◌∙◌, ◌==◌, Text, text, Map, lookup, Bool,
}
use snbmodules.Enums.Table.{lookup-named}

-- e_status.
pub data Status : Type 0 where
  preparing error success_upload success_download finished cancelled paused waiting checking hashing
        uploading downloading :
      Status

unfoldable pub status_to_string : Status → Text
status_to_string preparing = text "PREPARING"
status_to_string error = text "ERROR"
status_to_string success_upload = text "SUCCESS_UPLOAD"
status_to_string success_download = text "SUCCESS_DOWNLOAD"
status_to_string finished = text "FINISHED"
status_to_string cancelled = text "CANCELLED"
status_to_string paused = text "PAUSED"
status_to_string waiting = text "WAITING"
status_to_string checking = text "CHECKING"
status_to_string hashing = text "HASHING"
status_to_string uploading = text "UPLOADING"
status_to_string downloading = text "DOWNLOADING"

-- The std::map of names, in the order of its keys.
abbrev status_names : Map Status
status_names =
    (text "CANCELLED", cancelled)
    ∷ (text "CHECKING", checking)
    ∷ (text "DOWNLOADING", downloading)
    ∷ (text "ERROR", error)
    ∷ (text "FINISHED", finished)
    ∷ (text "HASHING", hashing)
    ∷ (text "PAUSED", paused)
    ∷ (text "PREPARING", preparing)
    ∷ (text "SUCCESS_DOWNLOAD", success_download)
    ∷ (text "SUCCESS_UPLOAD", success_upload)
    ∷ (text "UPLOADING", uploading)
    ∷ (text "WAITING", waiting)
    ∷ []

unfoldable pub string_to_status : Text → Option Status
unfolding lookup
string_to_status s = lookup s status_names

-- The position in the enumeration, by which `>` compares.
abbrev pub rank : Status → ℕ
rank preparing = 0
rank error = 1
rank success_upload = 2
rank success_download = 3
rank finished = 4
rank cancelled = 5
rank paused = 6
rank waiting = 7
rank checking = 8
rank hashing = 9
rank uploading = 10
rank downloading = 11

-- operator== on the enumeration.
abbrev pub status_eq : Status → Status → Bool
status_eq a b = rank a == rank b

pub status_eq→eq : (a b : Status) → status_eq a b ≡ true → a ≡ b
status_eq→eq a b h = ground arith

-- Every Status is read back from its name.
string_to_status-status_to_string : (e : Status) → string_to_status (status_to_string e) ≡ some e
unfolding string_to_status status_to_string
string_to_status-status_to_string preparing = refl
string_to_status-status_to_string error = refl
string_to_status-status_to_string success_upload = refl
string_to_status-status_to_string success_download = refl
string_to_status-status_to_string finished = refl
string_to_status-status_to_string cancelled = refl
string_to_status-status_to_string paused = refl
string_to_status-status_to_string waiting = refl
string_to_status-status_to_string checking = refl
string_to_status-status_to_string hashing = refl
string_to_status-status_to_string uploading = refl
string_to_status-status_to_string downloading = refl

-- Only the name of a Status is read as one.
string_to_status-some :
    (s : Text) (e : Status) → string_to_status s ≡ some e → s ≡ status_to_string e
unfolding string_to_status status_to_string
string_to_status-some s e h =
    lookup-named status_to_string s e status_names
      (
        refl,
        (refl, (refl, (refl, (refl, (refl, (refl, (refl, (refl, (refl, (refl, (refl, tt))))))))))),
      )
      h

-- A text is read as a Status exactly when it is its name.
pub string_to_status_iff :
    (s : Text) (e : Status) → (string_to_status s ≡ some e) ↔ (s ≡ status_to_string e)
string_to_status_iff s e =
    (string_to_status-some s e, λ h. ap string_to_status h ∙ string_to_status-status_to_string e)
