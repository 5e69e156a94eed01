-- ===== src/Enums/NotificationType.antt =====
-- include/snbmodules/common/notification_enum.hpp.
use mathlib.Core.Path.{refl}
use snbmodules.Common.{◌≡◌, Option, some, [], ◌∷◌, ◌↔◌, ap, ◌∙◌, Text, text, Map, lookup}
use snbmodules.Enums.Table.{lookup-named}

-- e_notification_type.
pub data NotificationType : Type 0 where
  connection_request new_transfer update_request group_metadata transfer_error start_transfer
        transfer_metadata pause_transfer resume_transfer cancel_transfer :
      NotificationType

unfoldable pub notification_to_string : NotificationType → Text
notification_to_string connection_request = text "CONNECTION_REQUEST"
notification_to_string new_transfer = text "NEW_TRANSFER"
notification_to_string update_request = text "UPDATE_REQUEST"
notification_to_string group_metadata = text "GROUP_METADATA"
notification_to_string transfer_error = text "TRANSFER_ERROR"
notification_to_string start_transfer = text "START_TRANSFER"
notification_to_string transfer_metadata = text "TRANSFER_METADATA"
notification_to_string pause_transfer = text "PAUSE_TRANSFER"
notification_to_string resume_transfer = text "RESUME_TRANSFER"
notification_to_string cancel_transfer = text "CANCEL_TRANSFER"

-- The std::map of names, in the order of its keys.
abbrev notification_names : Map NotificationType
notification_names =
    (text "CANCEL_TRANSFER", cancel_transfer)
    ∷ (text "CONNECTION_REQUEST", connection_request)
    ∷ (text "GROUP_METADATA", group_metadata)
    ∷ (text "NEW_TRANSFER", new_transfer)
    ∷ (text "PAUSE_TRANSFER", pause_transfer)
    ∷ (text "RESUME_TRANSFER", resume_transfer)
    ∷ (text "START_TRANSFER", start_transfer)
    ∷ (text "TRANSFER_ERROR", transfer_error)
    ∷ (text "TRANSFER_METADATA", transfer_metadata)
    ∷ (text "UPDATE_REQUEST", update_request)
    ∷ []

unfoldable pub string_to_notification : Text → Option NotificationType
unfolding lookup
string_to_notification s = lookup s notification_names

-- Every NotificationType is read back from its name.
string_to_notification-notification_to_string :
    (e : NotificationType) → string_to_notification (notification_to_string e) ≡ some e
unfolding string_to_notification notification_to_string
string_to_notification-notification_to_string connection_request = refl
string_to_notification-notification_to_string new_transfer = refl
string_to_notification-notification_to_string update_request = refl
string_to_notification-notification_to_string group_metadata = refl
string_to_notification-notification_to_string transfer_error = refl
string_to_notification-notification_to_string start_transfer = refl
string_to_notification-notification_to_string transfer_metadata = refl
string_to_notification-notification_to_string pause_transfer = refl
string_to_notification-notification_to_string resume_transfer = refl
string_to_notification-notification_to_string cancel_transfer = refl

-- Only the name of a NotificationType is read as one.
string_to_notification-some :
    (s : Text) (e : NotificationType)
    → string_to_notification s ≡ some e
    → s ≡ notification_to_string e
unfolding string_to_notification notification_to_string
string_to_notification-some s e h =
    lookup-named notification_to_string s e notification_names
      (refl, (refl, (refl, (refl, (refl, (refl, (refl, (refl, (refl, (refl, tt)))))))))) h

-- A text is read as a NotificationType exactly when it is its name.
pub string_to_notification_iff :
    (s : Text) (e : NotificationType)
    → (string_to_notification s ≡ some e) ↔ (s ≡ notification_to_string e)
string_to_notification_iff s e = (
  string_to_notification-some s e,
  λ h. ap string_to_notification h ∙ string_to_notification-notification_to_string e,
)
