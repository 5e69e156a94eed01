-- ===== src/Client/Sessions.antt =====
-- The sessions of the client (src/client/transfer_client.cpp), with the constructor of a session
-- (src/client/transfer_session.cpp) and its add_file (include/snbmodules/transfer_session.hpp).
use snbmodules.Common.{
  ℕ, suc, Bool, true, false, not, ◌&&◌, Option, none, some, List, [], ◌∷◌, ◌++◌, Text, text,
  text_eq, contains_text, TextSet, if◌then◌else◌, ◌>>=◌, get_elem?, set,
}
use snbmodules.Enums.Protocol.{Protocol, bittorrent, rclone, scp, dummy}
use snbmodules.IpFormat.Address.{IpFormat, is_default}
use snbmodules.Group.Metadata.{GroupMetadata, add_file}
use snbmodules.Session.World.{
  SessionType, Session, World, update_metadata_to_bookkeeper, update_metadatas_to_bookkeeper,
}
use snbmodules.Client.State.{
  ClientEnv, ClientSession, Client, session_not_found, no_port, file_not_expected, warn, world_of,
  behind, generate_session_id,
}

unfoldable pub is_bittorrent : Protocol → Bool
is_bittorrent bittorrent = true
is_bittorrent rclone = false
is_bittorrent scp = false
is_bittorrent dummy = false

module _ {e : ClientEnv} where
  -- The loop of get_session: the place of the session with the id.
  unfoldable pub find_session : Text → List (ClientSession e) → Option ℕ
  find_session id [] = none
  find_session id (s ∷ ss) =
      let rest = find_session id ss in
      if text_eq s.session.session_id id then some 0 else rest >>= λ i. some (suc i)

  -- A text without "ses" counts as a transfer id.
  unfoldable pub session_name : Text → Client e → Text
  session_name transfer_id c =
      if not (contains_text (text "ses") transfer_id)
      then generate_session_id transfer_id [] c
      else transfer_id

  unfoldable pub get_session : Text → Client e → Option ℕ
  unfolding session_name
  get_session transfer_id c = find_session (session_name transfer_id c) c.sessions

  -- The constructor of TransferSession behind its members: the transfer interface is made, unless the port
  -- is missing, and the bookkeepers are told.
  unfoldable pub open_session : Session → IpFormat → Client e → Client e
  open_session s ip c =
      if is_bittorrent s.transfer_options.protocol
        && not (e.has_port s.transfer_options.protocol_options)
      then warn no_port (record c {
        sessions = c.sessions ++ record { session = s; ip = ip; interface = e.missing } ∷ [];
      })
      else let (state, heap) = e.open_interface s ip c.heap in
        let opened : ClientSession e = record { session = s; ip = ip; interface = state } in
        let w = (update_metadatas_to_bookkeeper s (world_of opened (record c { heap = heap }))).1 in
        behind w (record c {
          sessions = c.sessions ++ record { session = s; ip = ip; interface = w.interface } ∷ [];
        })

  -- set_target_clients of the session at the back.
  unfoldable pub target_last : TextSet → List (ClientSession e) → List (ClientSession e)
  target_last dests [] = []
  target_last dests (s ∷ []) =
      record s { session = record s.session { target_clients = dests } } ∷ []
  target_last dests (s ∷ t ∷ ss) = s ∷ target_last dests (t ∷ ss)

  unfoldable pub create_session :
      GroupMetadata → SessionType → Text → Text → IpFormat → TextSet → Client e → Client e
  unfolding open_session target_last
  create_session g type id work_dir ip dests c =
      let s : Session = record {
        session_type = type;
        session_id = id;
        connections = c.connections;
        transfer_options = g;
        work_dir = work_dir;
        target_clients = [];
      } in
      let made = open_session s (if is_default ip then c.listening_ip else ip) c in
      record made { sessions = target_last dests made.sessions }

  -- erase(begin() + 0).
  unfoldable pub erase_first : List (ClientSession e) → List (ClientSession e)
  erase_first [] = []
  erase_first (s ∷ ss) = ss

  -- The loop compares the id of the session that was found, whatever the index is.
  unfoldable pub remove_found : Text → Option (ClientSession e) → Client e → Client e
  unfolding erase_first
  remove_found session_id none c = warn (session_not_found session_id) c
  remove_found session_id (some s) c =
      if text_eq s.session.session_id session_id
      then record c { sessions = erase_first c.sessions }
      else c

  unfoldable pub remove_session : Text → Client e → Client e
  unfolding remove_found get_session
  remove_session session_id c =
      remove_found session_id (get_session session_id c >>= λ i. get_elem? c.sessions i) c

  -- The session at a place does something, which may change its state and the client's.
  unfoldable pub at_session :
      (ClientSession e → Client e → Option (ClientSession e × Client e))
      → ℕ
      → Client e
      → Option (Client e)
  at_session f i c = get_elem? c.sessions i >>= λ s.
      f s c >>= λ r. some (record (r.1) { sessions = set r.1.sessions i r.0 })

  -- A session's operation.
  abbrev pub operate :
      (World e.env → World e.env) → ClientSession e → Client e → ClientSession e × Client e
  operate f s c = let w = f (world_of s c) in (record s { interface = w.interface }, behind w c)

  -- TransferSession::add_file.
  unfoldable pub session_add_file :
      ℕ → ClientSession e → Client e → Option (ClientSession e × Client e)
  session_add_file p s c = add_file p c.heap s.session.transfer_options >>= λ a.
      let joined : ClientSession e = record s {
        session = record s.session { transfer_options = a.group };
      } in
      let told =
        operate (λ w. (update_metadata_to_bookkeeper joined.session a.file w).1) joined
          (record c { heap = a.heap }) in
      some (if a.reported then (told.0, warn file_not_expected told.1) else told)
