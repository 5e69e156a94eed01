-- ===== src/Client/Connection.antt =====
-- The construction of the client, its directory and its connection (src/client/transfer_client.cpp,
-- include/snbmodules/transfer_client.hpp).
use snbmodules.Common.{
  >>=-some, length, ◌≡◌, refl, Option, none, some, List, [], ◌∷◌, Text, text, text_eq, is_prefix,
  if◌then◌else◌, drop, ◌>>=◌,
}
use snbmodules.IpFormat.Address.{IpFormat}
use snbmodules.FilePath.Strip.{strip}
use snbmodules.FilePath.Path.{absolute, normalise}
use snbmodules.Metadata.Import.{blank_metadata}
use snbmodules.Notification.Interface.{Connections}
use snbmodules.Client.State.{ClientEnv, Client, connection_not_found, warn}

-- `if (str.starts_with(prefix)) str = str.substr(prefix.length())`.
unfoldable pub without : Text → Text → Text
without prefix str = if is_prefix prefix str then drop (length prefix) str else str

-- A name without the prefixes of a configuration.
unfoldable pub plain_name : Text → Text
unfolding without
plain_name str = without (text "snb-sample-config-") (without (text "snbmodules_") str)

-- The loop of get_my_conn.
unfoldable pub find_my_conn : Text → List Text → Option Text
unfolding plain_name
find_my_conn id [] = none
find_my_conn id (c ∷ cs) =
    let rest = find_my_conn id cs in if text_eq (plain_name c) (plain_name id) then some c else rest

-- The directory that is used when nothing is left of a name.
named_dir : Text → Text
named_dir [] = text "blah"
named_dir (c ∷ s) = c ∷ s

named_dir-absolute : (cwd s : Text) → (d : Text) × (absolute cwd (named_dir s) ≡ some d)
unfolding named_dir absolute
named_dir-absolute cwd [] = (_, refl)
named_dir-absolute cwd (c ∷ s) = (_, refl)

module _ {e : ClientEnv} where
  unfoldable pub with_conn : Option Text → Client e → Client e
  with_conn none c = c
  with_conn (some conn) c = record c { my_conn = conn }

  unfoldable pub warned_of_conn : Client e → Client e
  warned_of_conn c = if text_eq c.my_conn [] then warn connection_not_found c else c

  unfoldable pub get_my_conn : Client e → Text × Client e
  unfolding with_conn warned_of_conn
  get_my_conn c =
      let found =
        if text_eq c.my_conn []
        then warned_of_conn (with_conn (find_my_conn c.client_id c.connections.clients_conn) c)
        else c in
      (found.my_conn, found)

  -- `none` is std::filesystem::absolute of an empty path.
  unfoldable pub set_listening_dir : Text → Client e → Option (Client e)
  set_listening_dir dir c =
      normalise e.reader.cwd dir >>= λ d. some (record c { listening_dir = d })

  -- The constructor; the connections are looked up before.
  unfoldable pub make_client : IpFormat → Text → Text → Connections → Option (Client e)
  unfolding named_dir
  make_client ip id dir connections = absolute e.reader.cwd (named_dir (strip dir)) >>= λ d.
      some (record {
        client_id = id;
        listening_ip = ip;
        listening_dir = d;
        connections = connections;
        sessions = [];
        available_files = [];
        my_conn = [];
        heap = λ p. blank_metadata;
        next = 0;
        instant = 0;
        log = [];
        session_issues = [];
        issues = [];
      })

  -- The constructor always makes a client, whatever directory is named.
  pub make_client-total :
      (ip : IpFormat) (id dir : Text) (connections : Connections)
      → (c : Client e) × (make_client ip id dir connections ≡ some c)
  unfolding make_client
  make_client-total ip id dir connections =
      let (d, h) = named_dir-absolute e.reader.cwd (strip dir) in (_, >>=-some _ _ h refl)
