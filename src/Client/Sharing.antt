-- ===== src/Client/Sharing.antt =====
-- The files that the client finds and shares (src/client/transfer_client.cpp).
use snbmodules.Common.{
  ℕ, suc, Bool, true, false, not, ◌&&◌, ◌||◌, Option, none, some, List, [], ◌∷◌, ◌++◌, Text, text,
  text_eq, ◌==◌, Map, lookup, insert, TextSet, member, set_insert, set_erase, if◌then◌else◌, ◌>>=◌,
  print_ℕ, length,
}
use snbmodules.Enums.Status.{waiting}
use snbmodules.Enums.NotificationType.{NotificationType, transfer_metadata}
use snbmodules.IpFormat.Address.{default_ip}
use snbmodules.FilePath.Path.{filename}
use snbmodules.Metadata.Transfer.{TransferMetadata, make_metadata, get_file_name}
use snbmodules.Metadata.Json.{export_to_string_partial}
use snbmodules.Metadata.Import.{load_metadata}
use snbmodules.Notification.Interface.{send_notification}
use snbmodules.Group.Metadata.{GroupMetadata, store}
use snbmodules.Group.Import.{load_group}
use snbmodules.Session.World.{uploader}
use snbmodules.Client.State.{
  ClientEnv, ClientSession, Client, Entries, nothing, regular, directory, generate_session_id,
}
use snbmodules.Client.Sessions.{create_session, at_session, session_add_file}

-- path::append: an absolute path replaces, else a slash stands between the two.
unfoldable pub path_append : Text → Text → Text
path_append [] q = q
path_append (c ∷ p) [] = if text_eq (filename (c ∷ p)) [] then c ∷ p else (c ∷ p) ++ text "/"
path_append (c ∷ p) (d ∷ q) =
    if d == 47
    then d ∷ q
    else if text_eq (filename (c ∷ p)) []
    then (c ∷ p) ++ (d ∷ q)
    else (c ∷ p) ++ text "/" ++ (d ∷ q)

-- What stands from the last dot on, a dot in front left out.
last_dot : Text → Text
last_dot [] = []
last_dot (c ∷ s) =
    let rest = last_dot s in if text_eq rest [] then (if c == 46 then c ∷ s else []) else rest

after_first : Text → Text
after_first [] = []
after_first (c ∷ s) = s

-- path::extension.
unfoldable pub extension : Text → Text
unfolding last_dot after_first
extension p = if text_eq (filename p) (text "..") then [] else last_dot (after_first (filename p))

-- std::map::insert, which keeps an entry that is there.
unfoldable pub insert_new : Text → ℕ → Map ℕ → Map ℕ
insert_new k p m = elim (lookup k m) [ none ↦ insert k p m | some q ↦ m ]

-- The paths that were scanned, and the client.
abbrev pub Scan : ClientEnv → Type 0
Scan e = TextSet × Client e

module _ {e : ClientEnv} where
  -- send_notification from the client; its result is not used.
  unfoldable pub send : NotificationType → Text → Text → Text → Client e → Client e
  send t dst id_conn content c = record c {
    log =
        (send_notification e.env.delivers c.connections t c.client_id dst id_conn content c.log).1;
  }

  -- The file is made on the heap, at the pointer that was free.
  abbrev pub allocate : TransferMetadata → Client e → Client e
  allocate m c = record c { heap = store c.next m c.heap; next = suc c.next }

  -- export_to_string of a file, which clears its modified fields, and its sending.
  unfoldable pub send_file : Text → Text → ℕ → Client e → Client e
  unfolding send
  send_file dst id_conn p c =
      let (content, m) = export_to_string_partial e.env.dump true (c.heap p) in
      send transfer_metadata dst id_conn content (record c { heap = store p m c.heap })

  -- create_metadata_from_file.
  unfoldable pub create_metadata_from_file : Text → Client e → Option TransferMetadata
  create_metadata_from_file src c =
      make_metadata e.reader.cwd src (e.file_size src) c.listening_ip [] default_ip [] 0 waiting

  unfoldable pub share_available_files : List Text → Text → Client e → Option (Client e)
  unfolding create_metadata_from_file insert_new send_file
  share_available_files [] dest c = some c
  share_available_files (f ∷ to_share) dest c = create_metadata_from_file f c >>= λ m.
      share_available_files to_share dest (
        send_file dest dest c.next
          (record (allocate m c) { available_files = insert_new f c.next c.available_files }))

  -- Is a session's group the one that is given?
  unfoldable pub already_active : GroupMetadata → List (ClientSession e) → Bool
  already_active g [] = false
  already_active g (s ∷ ss) =
      text_eq s.session.transfer_options.group_id g.group_id || already_active g ss

  -- A group's metadata file that is new.
  unfoldable pub scan_group : Text → Client e → Option (Client e)
  unfolding already_active
  scan_group path c = load_group e.reader (e.read_file path) >>= λ g. some (
      if already_active g c.sessions
      then c
      else create_session g uploader (generate_session_id g.group_id [] c)
          (path_append c.listening_dir (text "ses" ++ print_ℕ (length c.sessions))) default_ip [] c)

  -- The first loop.
  unfoldable pub scan_groups : Entries → Scan e → Option (Scan e)
  unfolding scan_group
  scan_groups nothing r = some r
  scan_groups (directory path inner rest) r = scan_groups rest r
  scan_groups (regular path rest) (seen, c) =
      if text_eq (extension path) (text ".gmetadata") && not (member path seen)
      then (scan_group path c >>= λ d. scan_groups rest (set_insert path seen, d))
      else scan_groups rest (seen, c)

  -- The place of the first session that expects the file.
  unfoldable pub find_wanting : Text → List (ClientSession e) → Option ℕ
  find_wanting name [] = none
  find_wanting name (s ∷ ss) =
      let rest = find_wanting name ss in
      if member name s.session.transfer_options.expected_files
      then some 0
      else rest >>= λ i. some (suc i)

  -- A file that no session wants is taken out of the scan again.
  unfoldable pub scan_wanted : Text → TransferMetadata → Option ℕ → Scan e → Option (Scan e)
  scan_wanted path m none (seen, c) = some (set_erase path seen, c)
  scan_wanted path m (some i) (seen, c) =
      at_session (session_add_file c.next) i (allocate m c) >>= λ d. some (seen, d)

  unfoldable pub scan_file : Text → Scan e → Option (Scan e)
  unfolding scan_wanted find_wanting
  scan_file path (seen, c) =
      if text_eq (extension path) (text ".tmetadata")
      then (load_metadata e.parse e.reader.cwd (e.env.clock c.instant) (e.read_file path) >>= λ m.
          scan_wanted path m (find_wanting (get_file_name m) c.sessions)
            (set_insert path seen, record c { instant = suc c.instant }))
      else some (set_insert path seen, c)

  -- The second loop.
  unfoldable pub scan_files : Bool → Entries → Scan e → Option (Scan e)
  unfolding scan_groups scan_file
  scan_files nested nothing r = some r
  scan_files nested (regular path rest) r =
      (if text_eq (extension path) (text ".gmetadata") || member path r.0
        then some r
        else scan_file path r)
      >>= scan_files nested rest
  scan_files nested (directory path inner rest) r =
      (if nested then scan_groups inner r >>= scan_files nested inner else some r)
      >>= scan_files nested rest

  unfoldable pub scan_available_files : Bool → Text → Scan e → Option (Scan e)
  unfolding scan_files
  scan_available_files nested folder r =
      let found = e.entries folder in scan_groups found r >>= scan_files nested found
