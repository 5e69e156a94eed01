-- ===== src/Interfaces/Bittorrent/Examples.antt =====
-- The theorems on BitTorrent at two files.
use snbmodules.Common.{
  erase, inr, text_eq_iff, inl, member, lookup, Bool-cases, ◌*◌, true, false, none, some, refl, ◌≡◌,
  List, [], ◌∷◌, ◌++◌, Text, text, pos, ◌+ℤ◌, ◌-ℤ◌, arith, text_eq, if◌then◌else◌,
}
use snbmodules.Enums.Status.{Status}
use snbmodules.Metadata.Transfer.{get_file_name}
use snbmodules.Interfaces.Samples.{file}
use snbmodules.Interfaces.Bittorrent.State.{removed, TorrentParams, Torrents, downloading, finished}
use snbmodules.Interfaces.Bittorrent.Alerts.{state_update, handle_alert, update_files, saved_path}
use snbmodules.Interfaces.Bittorrent.Names.{branch_path}
use snbmodules.Interfaces.Bittorrent.Files.{
  Torrent, removed_file, loaded_path, in_session, forget_file, resume_file, cancel_file,
  download_file, directory,
}
use snbmodules.Interfaces.Bittorrent.Resuming.{resume_file-saved, cancel_file-state_update}
use snbmodules.Interfaces.Bittorrent.Durations.{reports, update_files-duration}
use snbmodules.Interfaces.Bittorrent.Adding.{
  Downloaded, OthersStay, SameStatus, download_file-Downloaded,
}
use snbmodules.FilePath.Path.{filename}

abbrev params : TorrentParams
params = record {
  name = text "ab";
  max_connections = pos 1;
  max_uploads = pos 1;
  upload_limit = pos 0;
  download_limit = pos 0;
  flags = λ f. false;
  save_path = [];
  storage_mode_allocate = false;
}

-- Of the files only the resume data of "x" can be read.
abbrev lt : Torrent
lt = record {
  parse_magnet = λ t. some params;
  load_torrent = λ t. none;
  make_magnet = λ p. text "m";
  contents = λ path. if text_eq path (text "/w/.resume_file_x") then some (text "d") else none;
  read_resume = λ t. some params;
  make = λ f p b t. some none;
  can_write = λ t. true;
  cwd = text "/";
}

-- Files "/aa" and "/ab" stand in the map.
abbrev torrents : Torrents
torrents = record {
  is_client = true;
  torrent_num = 0;
  peer_num = pos 0;
  paused = pos 0;
  work_dir = text "/w";
  rate_limit = pos 5;
  filename_to_metadata = (text "aa", 97) ∷ (text "ab", 98) ∷ [];
  heap = file Status.waiting;
  instant = 0;
  asked = [];
  changes = [];
}

read_x : (path buf : Text) → lt.contents path ≡ some buf → path ≡ text "/w/.resume_file_x"
read_x path buf e = elim (Bool-cases (text_eq path (text "/w/.resume_file_x"))) [
  | inl k ↦ (text_eq_iff path (text "/w/.resume_file_x")).0 k
  | inr k ↦ cc (rw k at e)
]

resume_file-saved_example : resume_file lt (some (text "aa") ∷ []) 98 torrents ≡ none
unfolding saved_path get_file_name filename member in_session
resume_file-saved_example =
    resume_file-saved lt (text "x" ∷ []) (some (text "aa") ∷ []) 98 torrents
      (λ path buf e. (text "x", refl, read_x path buf e)) ((λ e. absurd (ground (arith, e))), tt)
      refl

abbrev cancelled : Torrents
cancelled = record torrents {
  filename_to_metadata = (text "aa", 97) ∷ [];
  changes = removed (text "/w/ab") ∷ removed (text "/w/.resume_fileab") ∷ [];
}

cancel_run : cancel_file [] 98 torrents ≡ some (true, cancelled)
unfolding cancel_file in_session forget_file removed_file loaded_path get_file_name filename erase
cancel_run = refl

cancel_file-state_update_example :
    handle_alert
      (λ n. pos n)
      (state_update (record { name = text "ab"; state = downloading; total_done = 4 } ∷ []))
      (record { is_done = false; finished_torrents = 0; torrents = cancelled })
    ≡ none
unfolding get_file_name filename
cancel_file-state_update_example =
    cancel_file-state_update (λ n. pos n) [] 98
      (record { name = text "ab"; state = downloading; total_done = 4 }) []
      (record { is_done = false; finished_torrents = 0; torrents = torrents }) true cancelled refl
      cancel_run

update_files-duration_example :
    (s' : Torrents) × (update_files
        (λ n. pos (10 * n))
        (reports (text "ab") downloading (1 ∷ 2 ∷ []) ++ reports (text "ab") finished (3 ∷ []))
        torrents
      ≡ some s')
    × ((s'.heap 98).duration ≡ pos 0 +ℤ (pos 20 -ℤ pos 10))
unfolding lookup
update_files-duration_example =
    update_files-duration (λ n. pos (10 * n)) (text "ab") 98 1 (2 ∷ []) 3 torrents refl refl

download_file-Downloaded_example :
    Downloaded
      (get_file_name (file Status.waiting 98))
      98
      (text "/d")
      (some params)
      torrents
      (download_file lt 98 (text "/d") torrents).0
      (download_file lt 98 (text "/d") torrents).1
    × OthersStay
        (get_file_name (file Status.waiting 98))
        torrents
        (download_file lt 98 (text "/d") torrents).1
    × SameStatus torrents (download_file lt 98 (text "/d") torrents).1
download_file-Downloaded_example = download_file-Downloaded lt 98 (text "/d") torrents

-- The filter, the parent and the directory at some paths.
names_run :
    ◌≡◌ {A = List Text}
      (branch_path (text "/a/b")
        ∷ branch_path (text "/a/b/")
        ∷ branch_path (text "a")
        ∷ directory (text "/a/b")
        ∷ [])
      (text "/a/" ∷ text "/a/" ∷ [] ∷ text "/a/" ∷ [])
unfolding branch_path directory
names_run = refl
