-- ===== src/Interfaces/Bittorrent/Durations.antt =====
-- The times of a file that libtorrent reports on (state_update_alert in do_work of
-- src/common/transfer_interface_bittorrent.cpp).
use snbmodules.Common.{
  ℕ, suc, ◌+◌, ◌≡◌, refl, ◌∙◌, false, some, List, [], ◌∷◌, ◌++◌, length, Text, ℤ, ◌+ℤ◌, ◌-ℤ◌,
  lookup, ==_refl, arith,
}
use snbmodules.Enums.Status.{Status, status_eq}
use snbmodules.Metadata.Transfer.{set_status, set_bytes_transferred}
use snbmodules.Group.Metadata.{store}
use snbmodules.Interfaces.Bittorrent.State.{
  TorrentState, downloading, finished, Torrents, file_named, edit, set_status_at,
}
use snbmodules.Interfaces.Bittorrent.Alerts.{
  TorrentStatus, update_file, update_files, status_of, show_status,
}

-- Reports of one torrent in a state, by what is done of it.
abbrev pub reports : Text → TorrentState → List ℕ → List TorrentStatus
reports name now [] = []
reports name now (x ∷ xs) =
    record { name = name; state = now; total_done = x } ∷ reports name now xs

-- What a report of a download leaves of the file.
abbrev Restarted : (ℕ → ℤ) → Text → ℕ → Torrents → Torrents → Type 0
Restarted clock name p s s' =
    (lookup name s'.filename_to_metadata ≡ some p)
    × ((s'.heap p).status ≡ Status.downloading)
    × ((s'.heap p).start_time ≡ clock s.instant)
    × ((s'.heap p).duration ≡ (s.heap p).duration)
    × (s'.instant ≡ suc s.instant)

module _ (clock : ℕ → ℤ) (name : Text) (p : ℕ) where
  download_report :
      (x : ℕ) (s : Torrents)
      → lookup name s.filename_to_metadata ≡ some p
      → status_eq (s.heap p).status Status.paused ≡ false
      → (s' : Torrents) × (update_file clock
            (record { name = name; state = downloading; total_done = x })
            s
          ≡ some s')
        × Restarted clock name p s s'
  unfolding update_file file_named status_of show_status set_status_at edit set_status
      set_bytes_transferred store
  download_report x s e active =
      let s' : Torrents =
        edit p (set_bytes_transferred x) (set_status_at clock p Status.downloading s) in
      (
        s',
        rw (e, active) refl,
        (e, rw (==_refl p) refl, rw (==_refl p) refl, rw (==_refl p) refl, refl),
      )

  finished_report :
      (y : ℕ) (s : Torrents)
      → lookup name s.filename_to_metadata ≡ some p
      → status_eq (s.heap p).status Status.paused ≡ false
      → (s' : Torrents) × (update_file clock
            (record { name = name; state = finished; total_done = y })
            s
          ≡ some s')
        × ((s'.heap p).duration ≡ (s.heap p).duration +ℤ (clock s.instant -ℤ (s.heap p).start_time))
  unfolding update_file file_named status_of show_status set_status_at edit set_status
      set_bytes_transferred store
  finished_report y s e active =
      let s' : Torrents =
        edit p (set_bytes_transferred y) (set_status_at clock p Status.finished s) in
      (s', rw (e, active) refl, rw (==_refl p) refl)

  -- A file that is not paused: after any reports of its download, and one of its end, only the time since the last
  -- of these is added to its duration, since each sets the start of the transfer to its own time.
  pub update_files-duration :
      (x : ℕ) (xs : List ℕ) (y : ℕ) (s : Torrents)
      → lookup name s.filename_to_metadata ≡ some p
      → status_eq (s.heap p).status Status.paused ≡ false
      → (s' : Torrents) × (update_files clock
            (reports name downloading (x ∷ xs) ++ reports name finished (y ∷ []))
            s
          ≡ some s')
        × ((s'.heap p).duration
            ≡ (s.heap p).duration
              +ℤ (clock (suc (s.instant + length xs)) -ℤ clock (s.instant + length xs)))
  unfolding update_files
  update_files-duration x [] y s e active =
      let (s1, ran, (e1, now, start, same, tick)) = download_report x s e active in
      let (s2, last, sum) = finished_report y s1 e1 (rw now refl) in
      let at_start : s.instant ≡ s.instant + 0 = omega arith in
      (s2, rw (ran, last) refl, sum ∙ (rw (same, start, tick) (rw⁻¹ at_start refl)))
  update_files-duration x (z ∷ xs) y s e active =
      let (s1, ran, (e1, now, start, same, tick)) = download_report x s e active in
      let (s2, rest, sum) = update_files-duration z xs y s1 e1 (rw now refl) in
      let later : s1.instant + length xs ≡ s.instant + suc (length xs) = omega (arith, tick) in
      (s2, rw ran rest, sum ∙ rw (same, later) refl)
