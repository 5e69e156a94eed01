-- ===== src/Interfaces/Bittorrent/State.antt =====
-- The members of TransferInterfaceBittorrent, and what it asks of libtorrent and of the file system.
use snbmodules.Common.{ℕ, suc, Bool, Option, List, ◌∷◌, ◌++◌, Text, text, ℤ, Map, lookup}
use snbmodules.Enums.Status.{Status}
use snbmodules.Metadata.Transfer.{TransferMetadata, set_status}
use snbmodules.Group.Metadata.{Heap, store}

-- lt::torrent_status::state_t.
pub data TorrentState : Type 0 where
  checking_files downloading_metadata downloading finished seeding checking_resume_data allocating :
      TorrentState

-- state.
unfoldable pub state : TorrentState → Text
state checking_files = text "checking"
state downloading_metadata = text "dl metadata"
state downloading = text "downloading"
state finished = text "finished"
state seeding = text "seeding"
state checking_resume_data = text "checking resume"
state allocating = text "<>"

-- The flags of a torrent that the code sets or clears.
pub data TorrentFlag : Type 0 where
  flag_paused flag_auto_managed flag_super_seeding flag_seed_mode flag_upload_mode
        flag_sequential_download :
      TorrentFlag

-- lt::add_torrent_params, without what only libtorrent reads.
pub record TorrentParams : Type 0 where
  pub name : Text
  pub max_connections : ℤ
  pub max_uploads : ℤ
  pub upload_limit : ℤ
  pub download_limit : ℤ
  pub flags : TorrentFlag → Bool
  pub save_path : Text
  pub storage_mode_allocate : Bool

-- What is asked of the session of libtorrent: torrents go by their names.
pub data Asked : Type 0 where
  add : TorrentParams → Asked
  remove : Text → Asked
  pause : Text → Asked
  resume : Text → Asked
  save_resume_data : Text → Asked

-- What is done to the file system.
pub data Change : Type 0 where
  written : Text → Change
  removed : Text → Change

-- The members, the files' metadata, how often the clock was read, and what was asked and changed, newest
-- first.
pub record Torrents : Type 0 where
  pub is_client : Bool
  pub torrent_num : ℕ
  pub peer_num : ℤ
  pub paused : ℤ
  pub work_dir : Text
  pub rate_limit : ℤ
  pub filename_to_metadata : Map ℕ
  pub heap : Heap
  pub instant : ℕ
  pub asked : List Asked
  pub changes : List Change

abbrev pub ask : Asked → Torrents → Torrents
ask a s = record s { asked = a ∷ s.asked }

abbrev pub change : Change → Torrents → Torrents
change c s = record s { changes = c ∷ s.changes }

unfoldable pub edit : ℕ → (TransferMetadata → TransferMetadata) → Torrents → Torrents
edit p f s = record s { heap = store p (f (s.heap p)) s.heap }

-- get_work_dir().append(name), of a directory that does not end in a slash.
unfoldable pub in_work_dir : Torrents → Text → Text
in_work_dir s name = s.work_dir ++ (47 ∷ name)

-- m_filename_to_metadata[name] where it is dereferenced; `none` is the null pointer of a name that is
-- missing.
unfoldable pub file_named : Text → Torrents → Option ℕ
file_named name s = lookup name s.filename_to_metadata

module _ (clock : ℕ → ℤ) where
  unfoldable pub set_status_at : ℕ → Status → Torrents → Torrents
  unfolding edit
  set_status_at p to s =
      edit p (set_status (clock s.instant) to) (record s { instant = suc s.instant })
