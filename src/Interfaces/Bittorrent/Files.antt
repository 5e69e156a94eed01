-- ===== src/Interfaces/Bittorrent/Files.antt =====
-- The operations of src/common/transfer_interface_bittorrent.cpp on torrents and files. libtorrent and the
-- file system are parameters; `none` as an outcome is an exception that is not caught.
use snbmodules.Common.{
  take, length, ℕ, suc, Bool, true, false, not, ◌||◌, Option, none, some, List, [], ◌∷◌, ◌++◌, Text,
  text, ℤ, pos, negsuc, ◌+ℤ◌, ◌-ℤ◌, ◌==◌, text_eq, Map, erase, member, if◌then◌else◌, ◌>>=◌,
}
use snbmodules.Common
use snbmodules.FilePath.Path.{absolute}
use snbmodules.Metadata.Transfer.{set_error_code, get_file_name}
use snbmodules.Interfaces.Bittorrent.State.{
  TorrentFlag, flag_paused, flag_auto_managed, flag_super_seeding, flag_seed_mode, flag_upload_mode,
  flag_sequential_download, TorrentParams, add, remove, pause, resume, written, removed, Torrents,
  ask, change, edit, in_work_dir,
}
use snbmodules.Interfaces.Bittorrent.Names.{branch_path, file_filter}

-- libtorrent and the file system. `none` is an error that the code catches (parse_magnet, load_torrent),
-- or an exception (contents, read_resume, make); `contents` gives what is in a
-- file; `make` is what create_torrent makes of the files that
-- pass the filter, from the parent's path, and nothing where no file passes.
pub record Torrent : Type 0 where
  pub parse_magnet : Text → Option TorrentParams
  pub load_torrent : Text → Option TorrentParams
  pub make_magnet : TorrentParams → Text
  pub contents : Text → Option Text
  pub read_resume : Text → Option TorrentParams
  pub make : (Text → Bool) → Text → Text → Text → Option (Option Text)
  pub can_write : Text → Bool
  pub cwd : Text

abbrev flag_rank : TorrentFlag → ℕ
flag_rank flag_paused = 0
flag_rank flag_auto_managed = 1
flag_rank flag_super_seeding = 2
flag_rank flag_seed_mode = 3
flag_rank flag_upload_mode = 4
flag_rank flag_sequential_download = 5

-- `flags |= f` and `flags &= ~f`.
unfoldable pub put_flag : TorrentFlag → Bool → (TorrentFlag → Bool) → TorrentFlag → Bool
put_flag f b flags g = if flag_rank f == flag_rank g then b else flags g

unfoldable pub set_torrent_params : Torrents → Text → TorrentParams → TorrentParams
unfolding put_flag
set_torrent_params s dest p = record p {
  max_connections = pos 100;
  max_uploads = negsuc 0;
  upload_limit = negsuc 0;
  download_limit = s.rate_limit;
  flags = put_flag flag_sequential_download true (
      put_flag flag_upload_mode (not s.is_client) (
        put_flag flag_seed_mode (not s.is_client) (
          put_flag flag_super_seeding false
            (put_flag flag_auto_managed false (put_flag flag_paused false p.flags)))));
  save_path = dest;
  storage_mode_allocate = true;
}

-- `m_filename_to_metadata[name] = &f_meta`.
unfoldable pub keep_file : Text → ℕ → Torrents → Torrents
keep_file name p s = record s { filename_to_metadata = Common.insert name p s.filename_to_metadata }

unfoldable pub forget_file : Text → Torrents → Torrents
forget_file name s = record s { filename_to_metadata = erase name s.filename_to_metadata }

unfoldable pub has_slash : Text → Bool
has_slash [] = false
has_slash (c ∷ s) = (c == 47) || has_slash s

-- remove_filename: what stands before the name.
unfoldable pub directory : Text → Text
unfolding has_slash
directory [] = []
directory (c ∷ s) = let rest = directory s in if has_slash (c ∷ s) then c ∷ rest else []

-- The search for a name in the torrents of the session, up to the first that has it. A torrent without metadata has
-- no name, and torrent_file() is the null pointer there: `none` is its use.
unfoldable pub in_session : Text → List (Option Text) → Option Bool
in_session name [] = some false
in_session name (none ∷ handles) = none
in_session name (some n ∷ handles) =
    let rest = in_session name handles in if text_eq n name then some true else rest

unfoldable pub upload_added : ℕ → Text × Torrents → Bool × Torrents
unfolding keep_file edit
upload_added p ([], s) =
    (false, edit p (set_error_code (text "failed to add torrent to session")) s)
upload_added p (c ∷ magnet, s) = (true, keep_file (get_file_name (s.heap p)) p s)

-- The file stands in the map before its torrent is added.
unfoldable pub download_added : ℕ → Bool × Torrents → Bool × Torrents
unfolding forget_file edit
download_added p (true, s) = (true, s)
download_added p (false, s) = (
  false,
  edit p (set_error_code (text "failed to add magnet link to session"))
      (forget_file (get_file_name (s.heap p)) s),
)

-- `handles` are the names of the torrents in the session.
unfoldable pub pause_file : List (Option Text) → ℕ → Torrents → Option (Bool × Torrents)
unfolding in_session
pause_file handles p s =
    let name = get_file_name (s.heap p) in
    in_session name handles >>= λ found.
    some (true, if found then ask (pause name) (record s { paused = s.paused +ℤ pos 1 }) else s)

-- Where the resume data is looked for.
unfoldable pub loaded_path : Torrents → Text → Text
unfolding in_work_dir
loaded_path s name = in_work_dir s (text ".resume_file" ++ name)

unfoldable pub removed_file : Torrents → Text → Text
unfolding in_work_dir
removed_file s name =
    if not s.is_client then in_work_dir s (name ++ text ".torrent") else in_work_dir s name

unfoldable pub cancel_file : List (Option Text) → ℕ → Torrents → Option (Bool × Torrents)
unfolding in_session forget_file removed_file loaded_path
cancel_file handles p s =
    let name = get_file_name (s.heap p) in
    in_session name handles >>= λ found.
    let forgotten = forget_file name (if found then ask (remove name) s else s) in
    some (
      true,
      change (removed (removed_file s name)) (change (removed (loaded_path s name)) forgotten),
    )

unfoldable pub hash_file : ℕ → Torrents → Bool × Torrents
hash_file p s = (true, s)

unfoldable pub add_parsed : Text → Option TorrentParams → Torrents → Bool × Torrents
unfolding set_torrent_params
add_parsed dest none s = (false, s)
add_parsed dest (some p) s = (true, ask (add (set_torrent_params s dest p)) s)

module _ (lt : Torrent) where
  -- The file to its end, or the exception of a file that does not open.
  unfoldable pub load_file : Text → Option Text
  load_file filename = lt.contents filename >>= λ in_file. some (take (length in_file) in_file)

  unfoldable pub add_magnet : Text → Text → Torrents → Bool × Torrents
  unfolding add_parsed
  add_magnet uri dest s = add_parsed dest (lt.parse_magnet uri) s

  unfoldable pub add_loaded : Text → Option TorrentParams → Torrents → Text × Torrents
  unfolding set_torrent_params
  add_loaded dest none s = ([], s)
  add_loaded dest (some p) s =
      let set = set_torrent_params s dest p in (lt.make_magnet set, ask (add set) s)

  -- The magnet link, or the empty text.
  unfoldable pub add_torrent : Text → Text → Torrents → Text × Torrents
  unfolding add_loaded
  add_torrent path dest s = add_loaded dest (lt.load_torrent path) s

  -- The torrent file is written; with no file that passes the filter nothing is, and the answer is yes.
  unfoldable pub write_torrent : Option (Option Text) → Text → Torrents → Bool × Torrents
  write_torrent none outfile s = (false, s)
  write_torrent (some none) outfile s = (true, s)
  write_torrent (some (some torrent)) [] s = (false, s)
  write_torrent (some (some torrent)) (c ∷ outfile) s =
      if lt.can_write (c ∷ outfile) then (true, change (written (c ∷ outfile)) s) else (false, s)

  unfoldable pub make_torrent : Text → Text → Text → Torrents → Bool × Torrents
  unfolding write_torrent branch_path file_filter
  make_torrent full_path tracker outfile s = elim (absolute lt.cwd full_path) [
    | none ↦ (false, s)
    | some p ↦ write_torrent (lt.make file_filter p (branch_path p) tracker) outfile s
  ]

  unfoldable pub generate_torrents_files : List ℕ → Text → Text → Torrents → Torrents
  unfolding make_torrent
  generate_torrents_files [] dest tracker s = s
  generate_torrents_files (p ∷ ps) dest tracker s =
      let m = s.heap p in
      let out = dest ++ (47 ∷ (get_file_name m ++ text ".torrent")) in
      generate_torrents_files ps dest tracker (make_torrent m.file_path tracker out s).1

  unfoldable pub upload_file : ℕ → Torrents → Bool × Torrents
  unfolding upload_added add_torrent in_work_dir directory
  upload_file p s =
      let m = s.heap p in
      upload_added p
        (add_torrent (in_work_dir s (get_file_name m ++ text ".torrent")) (directory m.file_path) s)

  unfoldable pub download_file : ℕ → Text → Torrents → Bool × Torrents
  unfolding download_added add_magnet keep_file
  download_file p dest s =
      let m = s.heap p in
      download_added p (add_magnet m.magnet_link dest (keep_file (get_file_name m) p s))

  unfoldable pub resume_from : ℕ → Text → Torrents → Option (Bool × Torrents)
  unfolding keep_file edit
  resume_from p [] s = some (false, edit p (set_error_code (text "failed to load resume data")) s)
  resume_from p (c ∷ buf) s = lt.read_resume (c ∷ buf) >>= λ atp.
      some (true, ask (add atp) (keep_file (get_file_name (s.heap p)) p s))

  unfoldable pub resume_file : List (Option Text) → ℕ → Torrents → Option (Bool × Torrents)
  unfolding in_session resume_from loaded_path load_file
  resume_file handles p s =
      let name = get_file_name (s.heap p) in
      in_session name handles >>= λ found.
      if found
      then some (true, ask (resume name) (record s { paused = s.paused -ℤ pos 1 }))
      else (load_file (loaded_path s name) >>= λ buf. resume_from p buf s)
