-- ===== src/Interfaces/Bittorrent/Alerts.antt =====
-- do_work of src/common/transfer_interface_bittorrent.cpp: the alerts of libtorrent, which the thread
-- handles until it is done. `none` is the use of a null pointer. The alerts that are only logged are
-- left out, and so is the log.
use snbmodules.Common.{
  ℕ, suc, Bool, true, false, not, ◌&&◌, Option, none, some, List, [], ◌∷◌, ◌++◌, Text, text, ℤ, pos,
  negsuc, ◌+ℤ◌, ◌-ℤ◌, ◌==◌, Map, if◌then◌else◌, ◌>>=◌,
}
use snbmodules.Enums.Status.{Status, status_eq}
use snbmodules.Metadata.Transfer.{set_bytes_transferred, set_error_code}
use snbmodules.Interfaces.Bittorrent.State.{
  TorrentState, checking_files, downloading_metadata, downloading, finished, seeding,
  checking_resume_data, allocating, save_resume_data, written, removed, Torrents, ask, change, edit,
  in_work_dir, file_named, set_status_at,
}

-- lt::torrent_status, as far as it is read.
pub record TorrentStatus : Type 0 where
  pub name : Text
  pub state : TorrentState
  pub total_done : ℕ

pub data Alert : Type 0 where
  add_torrent : Text → Alert
  torrent_paused : Text → Alert
  torrent_finished : Text → Alert
  torrent_error : Text → Alert
  resume_data : Text → Alert
  resume_data_failed : Alert
  peer_connect : Alert
  peer_error : Alert
  peer_disconnected : Alert
  state_update : List TorrentStatus → Alert

-- The local variables of do_work, with the members.
pub record Loop : Type 0 where
  pub is_done : Bool
  pub finished_torrents : ℕ
  pub torrents : Torrents

-- `x == 0`, and `x <= 0`.
abbrev pub is_zero : ℤ → Bool
is_zero (pos n) = n == 0
is_zero (negsuc n) = false

abbrev pub is_none_left : ℤ → Bool
is_none_left (pos n) = n == 0
is_none_left (negsuc n) = true

-- A torrent that ended: a client is done when all have.
unfoldable pub count_finished : Loop → Loop
count_finished l =
    let finished_torrents = suc l.finished_torrents in
    let all = (finished_torrents == l.torrents.torrent_num) && l.torrents.is_client in
    record l { finished_torrents = finished_torrents; is_done = if all then true else l.is_done }

-- A peer that left: a seeder is done when none is left, by the test, and nothing is paused.
unfoldable pub peer_left : (ℤ → Bool) → Loop → Loop
peer_left test l =
    let peers = l.torrents.peer_num -ℤ pos 1 in
    let last = test peers && is_zero l.torrents.paused && not l.torrents.is_client in
    record l {
      torrents = record l.torrents { peer_num = peers };
      is_done = if last then true else l.is_done;
    }

-- The status that a state of a torrent stands for.
unfoldable pub status_of : Bool → TorrentState → Option Status
status_of is_client checking_files = some Status.checking
status_of is_client downloading_metadata = some Status.preparing
status_of is_client downloading = some Status.downloading
status_of is_client finished = some Status.finished
status_of is_client seeding = some (if is_client then Status.finished else Status.uploading)
status_of is_client checking_resume_data = some Status.checking
status_of is_client allocating = none

-- The path where resume data is saved.
unfoldable pub saved_path : Torrents → Text → Text
unfolding in_work_dir
saved_path s name = in_work_dir s (text ".resume_file_" ++ name)

module _ (clock : ℕ → ℤ) where
  unfoldable pub show_status : ℕ → Option Status → Torrents → Torrents
  unfolding set_status_at
  show_status p none s = s
  show_status p (some to) s =
      if status_eq (s.heap p).status Status.paused then s else set_status_at clock p to s

  -- One status of a state_update_alert.
  unfoldable pub update_file : TorrentStatus → Torrents → Option Torrents
  unfolding file_named status_of show_status edit
  update_file t s = file_named t.name s >>= λ p. some (
      edit p (set_bytes_transferred t.total_done) (show_status p (status_of s.is_client t.state) s))

  unfoldable pub update_files : List TorrentStatus → Torrents → Option Torrents
  unfolding update_file
  update_files [] s = some s
  update_files (t ∷ ts) s = update_file t s >>= update_files ts

  unfoldable pub finish_file : Text → Torrents → Option Torrents
  unfolding file_named set_status_at edit
  finish_file name s = file_named name s >>= λ p. some (
      edit p (λ m. set_bytes_transferred m.size m)
        (set_status_at clock p Status.finished (ask (save_resume_data name) s)))

  -- An alert: the loop behind it, and whether it goes to the end.
  unfoldable pub handle_alert : Alert → Loop → Option (Loop × Bool)
  unfolding update_files finish_file count_finished peer_left saved_path
  handle_alert (add_torrent name) l = some (
    record l { torrents = record l.torrents { torrent_num = suc l.torrents.torrent_num } },
    false,
  )
  handle_alert (torrent_paused name) l =
      some (record l { torrents = ask (save_resume_data name) l.torrents }, false)
  handle_alert (torrent_finished name) l =
      finish_file name l.torrents >>= λ s. some (count_finished (record l { torrents = s }), false)
  handle_alert (torrent_error name) l =
      let counted = count_finished l in
      some (record counted { torrents = ask (save_resume_data name) counted.torrents }, false)
  handle_alert (resume_data name) l =
      some (
        record l { torrents = change (written (saved_path l.torrents name)) l.torrents },
        l.is_done,
      )
  handle_alert resume_data_failed l = some (l, l.is_done)
  handle_alert peer_connect l = some (
    record l {
      torrents = record l.torrents { peer_num = l.torrents.peer_num +ℤ pos 1 };
      is_done = false;
    },
    false,
  )
  handle_alert peer_error l = some (peer_left is_zero l, false)
  handle_alert peer_disconnected l = some (peer_left is_none_left l, false)
  handle_alert (state_update ts) l =
      update_files ts l.torrents >>= λ s. some (record l { torrents = s }, false)

  -- The alerts of a round, up to the one that ends the loop.
  unfoldable pub handle_alerts : List Alert → Loop → Option (Loop × Bool)
  unfolding handle_alert
  handle_alerts [] l = some (l, false)
  handle_alerts (a ∷ as') l = handle_alert a l >>= λ (l', ends). elim ends [
    | true ↦ some (l', true)
    | false ↦ handle_alerts as' l'
  ]

  -- The flag was cleared: the resume data of every torrent is asked for.
  unfoldable pub save_all : List Text → Torrents → Torrents
  save_all [] s = s
  save_all (h ∷ hs) s = save_all hs (ask (save_resume_data h) s)

  -- The rounds while the flag is set, and the last one, which finds the torrents `handles`. Each round has what the
  -- operations of other threads did to the members before it.
  unfoldable pub work_rounds :
      List ((Torrents → Torrents) × List Alert) → List Text → Loop → Option Loop
  unfolding handle_alerts save_all
  work_rounds [] handles l =
      some (record l { is_done = true; torrents = save_all handles l.torrents })
  work_rounds ((others, r) ∷ rs) handles l =
      handle_alerts r (record l { torrents = others l.torrents }) >>= λ (l', ends). elim ends [
        | true ↦ some l'
        | false ↦ work_rounds rs handles l'
      ]

  -- What becomes of a file when the thread ends; `fails` says which paths filesystem::remove throws for, and the
  -- Boolean whether the loop goes on.
  unfoldable pub close_file : (Text → Bool) → Text → ℕ → Torrents → Bool × Torrents
  unfolding set_status_at edit in_work_dir
  close_file fails name p s =
      let path = in_work_dir s (name ++ text ".torrent") in
      let ended = set_status_at clock p Status.finished s in
      if not s.is_client
      then (if fails path then (false, ended) else (true, change (removed path) ended))
      else if not (status_eq (s.heap p).status Status.finished)
      then (
        true,
        edit p (set_error_code (text "Transfer interrupted"))
            (set_status_at clock p Status.error s),
      )
      else (true, s)

  -- An exception ends the loop, and is caught at the end of the thread.
  unfoldable pub close_files : (Text → Bool) → Map ℕ → Torrents → Torrents
  unfolding close_file
  close_files fails [] s = s
  close_files fails ((name, p) ∷ fs) s =
      let (goes_on, closed) = close_file fails name p s in
      let rest = close_files fails fs closed in if goes_on then rest else closed

  unfoldable pub do_work :
      (Text → Bool)
      → List ((Torrents → Torrents) × List Alert)
      → List Text
      → Torrents
      → Option Torrents
  unfolding work_rounds close_files
  do_work fails rounds handles s =
      work_rounds rounds handles (record { is_done = false; finished_torrents = 0; torrents = s })
      >>= λ l. some (close_files fails l.torrents.filename_to_metadata l.torrents)
