-- ===== src/Session/Bookkeepers.antt =====
-- What the bookkeepers of a session are sent about a file.
use snbmodules.Common.{ℕ, ◌≡◌, refl, false, none, Text, ==_refl}
use snbmodules.Metadata.Json.{
  Key, export_object, export_to_string_partial, key_file_path, key_source, key_destination,
  key_group_id, key_hash, key_size, key_transfered, key_speed, key_status, key_magnet_link,
  key_error_code, key_start_t, key_end_t, key_duration,
}
use snbmodules.Metadata.Transfer.{TransferMetadata}
use snbmodules.Group.Metadata.{store}
use snbmodules.Session.World.{Env, Session, World, send, send_metadata}

-- The keys that are sent of modified fields only.
abbrev pub Optional : Key → Type 0
Optional key_file_path = ⊥
Optional key_source = ⊥
Optional key_destination = ⊥
Optional key_group_id = ⊥
Optional k = Unit

blank_export :
    (m : TransferMetadata) (k : Key)
    → Optional k
    → export_object false (record m { modified_fields = λ f. false }) k ≡ none
unfolding export_object
blank_export m key_file_path h = absurd h
blank_export m key_source h = absurd h
blank_export m key_destination h = absurd h
blank_export m key_group_id h = absurd h
blank_export m key_hash h = refl
blank_export m key_size h = refl
blank_export m key_transfered h = refl
blank_export m key_speed h = refl
blank_export m key_status h = refl
blank_export m key_magnet_link h = refl
blank_export m key_error_code h = refl
blank_export m key_start_t h = refl
blank_export m key_end_t h = refl
blank_export m key_duration h = refl

-- Once a file's modified values are sent to one bookkeeper, delivered or not, none of them is in
-- the text for the next bookkeeper: its status, size, hash and progress are left out.
pub send_metadata-next :
    {env : Env} (s : Session) (p : ℕ) (bk : Text) (w : World env) (k : Key)
    → Optional k
    → export_object false ((send_metadata s p bk w).1.heap p) k ≡ none
unfolding send_metadata send store export_to_string_partial
send_metadata-next s p bk w k h = rw (==_refl p) (blank_export (w.heap p) k h)
