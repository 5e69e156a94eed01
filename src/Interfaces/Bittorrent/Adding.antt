-- ===== src/Interfaces/Bittorrent/Adding.antt =====
-- Torrents that are added for a file (src/common/transfer_interface_bittorrent.cpp).
use snbmodules.Common.{
  ℤ, pos, negsuc, not, ℕ, Bool, true, false, ◌≡◌, refl, Option, none, some, ◌∷◌, Text, text,
  text_eq, text_eq_refl, lookup, lookup-insert, lookup-erase, insert, ◌∙◌, ==_iff, inl, inr, ◌==◌,
  ==_refl, Bool-cases,
}
use snbmodules.Metadata.Transfer.{get_file_name, set_error_code}
use snbmodules.Group.Metadata.{store}
use snbmodules.Interfaces.Bittorrent.State.{
  flag_paused, flag_auto_managed, flag_super_seeding, flag_seed_mode, flag_upload_mode,
  flag_sequential_download, TorrentParams, Torrents, add, edit,
}
use snbmodules.Interfaces.Bittorrent.Files.{
  Torrent, put_flag, set_torrent_params, download_file, download_added, add_magnet, add_parsed,
  keep_file, forget_file,
}

-- The files have their statuses.
abbrev pub SameStatus : Torrents → Torrents → Type 0
SameStatus s s' = (q : ℕ) → (s'.heap q).status ≡ (s.heap q).status

-- What stands under the other names stays.
abbrev pub OthersStay : Text → Torrents → Torrents → Type 0
OthersStay name s s' =
    (n : Text)
    → text_eq name n ≡ false
    → lookup n s'.filename_to_metadata ≡ lookup n s.filename_to_metadata

-- A torrent that is ready to be added: limits, the place, and the flags of the side, which seeds and uploads on a
-- seeder only.
pub record Prepared (is_client : Bool) (rate_limit : ℤ) (dest : Text) (t u : TorrentParams)
    : Type 0 where
  pub name : u.name ≡ t.name
  pub connections : u.max_connections ≡ pos 100
  pub uploads : u.max_uploads ≡ negsuc 0
  pub upload_limit : u.upload_limit ≡ negsuc 0
  pub download_limit : u.download_limit ≡ rate_limit
  pub place : u.save_path ≡ dest
  pub storage : u.storage_mode_allocate ≡ true
  pub not_paused : u.flags flag_paused ≡ false
  pub not_managed : u.flags flag_auto_managed ≡ false
  pub not_super : u.flags flag_super_seeding ≡ false
  pub seeds : u.flags flag_seed_mode ≡ not is_client
  pub uploads_only : u.flags flag_upload_mode ≡ not is_client
  pub in_order : u.flags flag_sequential_download ≡ true

set_torrent_params-Prepared :
    (s : Torrents) (dest : Text) (t : TorrentParams)
    → Prepared s.is_client s.rate_limit dest t (set_torrent_params s dest t)
unfolding set_torrent_params put_flag
set_torrent_params-Prepared s dest t = record {
  name = refl;
  connections = refl;
  uploads = refl;
  upload_limit = refl;
  download_limit = refl;
  place = refl;
  storage = refl;
  not_paused = refl;
  not_managed = refl;
  not_super = refl;
  seeds = refl;
  uploads_only = refl;
  in_order = refl;
}

-- A link that is no magnet link: nothing is asked, and the file stands under its name no more. Else one torrent is
-- asked for, and the file stands under its name.
abbrev pub Downloaded : Text → ℕ → Text → Option TorrentParams → Torrents → Bool → Torrents → Type 0
Downloaded name p dest none s r s' =
    (r ≡ false)
    × (s'.asked ≡ s.asked)
    × (lookup name s'.filename_to_metadata ≡ none)
    × ((s'.heap p).error_code ≡ text "failed to add magnet link to session")
Downloaded name p dest (some t) s r s' =
    (r ≡ true)
    × ((u : TorrentParams) × Prepared s.is_client s.rate_limit dest t u
        × (s'.asked ≡ add u ∷ s.asked))
    × (lookup name s'.filename_to_metadata ≡ some p)
    × (s'.heap ≡ s.heap)

module _ (lt : Torrent) (p : ℕ) (dest : Text) (s : Torrents) where
  download_file-parsed :
      (o : Option TorrentParams)
      → lt.parse_magnet (s.heap p).magnet_link ≡ o
      → Downloaded
          (get_file_name (s.heap p))
          p
          dest
          o
          s
          (download_file lt p dest s).0
          (download_file lt p dest s).1
        × OthersStay (get_file_name (s.heap p)) s (download_file lt p dest s).1
        × SameStatus s (download_file lt p dest s).1
  unfolding download_file download_added add_magnet add_parsed keep_file forget_file edit
      set_error_code store
  download_file-parsed none e =
      let name = get_file_name (s.heap p) in
      let held = insert name p s.filename_to_metadata in
      rw e (
        (
          refl,
          refl,
          lookup-erase name name held ∙ rw (text_eq_refl name) refl,
          rw (==_refl p) refl,
        ),
        (λ n k.
            lookup-erase name n held
            ∙ (rw k (lookup-insert name n p s.filename_to_metadata ∙ rw k refl))),
        λ q. elim (Bool-cases (p == q)) [
          | inl k ↦ rw (k, (==_iff p q).0 k) refl
          | inr k ↦ rw k refl
        ],
      )
  download_file-parsed (some t) e =
      let name = get_file_name (s.heap p) in
      rw e (
        (
          refl,
          (set_torrent_params s dest t, set_torrent_params-Prepared s dest t, refl),
          lookup-insert name name p s.filename_to_metadata ∙ rw (text_eq_refl name) refl,
          refl,
        ),
        (λ n k. lookup-insert name n p s.filename_to_metadata ∙ rw k refl),
        λ q. refl,
      )

  -- A download either is asked of libtorrent, as one torrent with the limits, the place and the flags of the
  -- side (it seeds and uploads on a seeder only), and the file stands under its name; or the link is none, nothing is asked, and the file stands under its name no more. What stands
  -- under other names stays, and so does every status.
  pub download_file-Downloaded :
      Downloaded
        (get_file_name (s.heap p))
        p
        dest
        (lt.parse_magnet (s.heap p).magnet_link)
        s
        (download_file lt p dest s).0
        (download_file lt p dest s).1
      × OthersStay (get_file_name (s.heap p)) s (download_file lt p dest s).1
      × SameStatus s (download_file lt p dest s).1
  download_file-Downloaded = download_file-parsed (lt.parse_magnet (s.heap p).magnet_link) refl
