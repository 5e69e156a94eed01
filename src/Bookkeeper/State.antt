-- ===== src/Bookkeeper/State.antt =====
-- The members of the bookkeeper and its operations. The files are pointers into a heap, which the
-- groups and the lists of the clients share; the clock, the delivery of messages and the parsers of
-- nlohmann::json are parameters.
use snbmodules.Common.{
  ◌==◌, ℕ, Bool, ◌||◌, Option, none, some, List, [], ◌∷◌, Text, ℤ, Map, lookup, insert, TextSet,
  if◌then◌else◌,
}
use snbmodules.Enums.Status.{Status, status_eq, downloading, checking, uploading, hashing}
use snbmodules.Metadata.Transfer.{TransferMetadata, meta_eq}
use snbmodules.Metadata.Json.{Object}
use snbmodules.Notification.Interface.{Connections, Attempt}
use snbmodules.Group.Metadata.{Heap, GroupMetadata}
use snbmodules.Group.Import.{GroupReader}

-- The parameters.
pub record Surroundings : Type 0 where
  pub clock : ℕ → ℤ
  pub delivers : ℕ → Bool
  pub parse : Text → Option Object
  pub reader : GroupReader

-- The warnings that are reported: the source and the target of a message for another one; its source
-- and its name; an unknown group.
pub data Issue : Type 0 where
  wrong_destination not_handled : Text → Text → Issue
  invalid_group : Text → Issue

-- Pointers from `next` on are free; `instant` counts the readings of the clock, and the log is that
-- of the tries to send, newest first.
pub record Bookkeeper : Type 0 where
  pub bookkeeper_id : Text
  pub connections : Connections
  pub grp_transfers : Map GroupMetadata
  pub clients_per_grp_transfer : Map TextSet
  pub transfers : Map (List ℕ)
  pub heap : Heap
  pub next : ℕ
  pub instant : ℕ
  pub log : List Attempt
  pub issues : List Issue

-- operator[] of a map of lists: a missing entry is empty.
unfoldable pub entry {ℓ} : {A : Type ℓ} → Option (List A) → List A
entry none = []
entry (some xs) = xs

-- What operator[] does to the map: an entry is made when it is missing.
unfoldable pub touch {ℓ} : {A : Type ℓ} → Text → Map (List A) → Map (List A)
unfolding entry
touch k m = insert k (entry (lookup k m)) m

-- The loop of add_update_transfer: the first file that is equal.
unfoldable pub find_same : Heap → TransferMetadata → List ℕ → Option ℕ
find_same heap file [] = none
find_same heap file (p ∷ ps) =
    let rest = find_same heap file ps in if meta_eq (heap p) file then some p else rest

-- get_client_name_from_session_name: what stands before the first underscore, or all of it.
unfoldable pub get_client_name_from_session_name : Text → Text
get_client_name_from_session_name [] = []
get_client_name_from_session_name (c ∷ s) =
    let rest = get_client_name_from_session_name s in if c == 95 then [] else c ∷ rest

unfoldable pub is_dynamic : Status → Bool
is_dynamic s =
    status_eq s downloading || status_eq s checking || status_eq s uploading || status_eq s hashing
