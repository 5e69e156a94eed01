-- ===== src/Interfaces/Bittorrent/Resuming.antt =====
-- Resume data and cancelled files (src/common/transfer_interface_bittorrent.cpp).
use snbmodules.Common.{
  if◌then◌else◌, Option, Bool, sym, ap, >>=-eq-some, ℤ, ℕ, true, false, ◌≡◌, ◌≢◌, refl, ◌∙◌, none,
  some, List, [], ◌∷◌, ◌++◌, All, Text, text, text_eq, text_eq_refl, text_eq_iff, Option-cases,
  lookup, erase, lookup-erase, Bool-cases, inl, inr, member,
}
use mathlib.Core.Path.{subst}
use mathlib.Core.Option.{some_inj}
use snbmodules.Metadata.Transfer.{get_file_name}
use snbmodules.Interfaces.Bittorrent.State.{ask, remove, Torrents, file_named}
use snbmodules.Interfaces.Bittorrent.Alerts.{
  TorrentStatus, Loop, state_update, saved_path, handle_alert, update_files, update_file,
}
use snbmodules.Interfaces.Bittorrent.Files.{
  Torrent, in_session, load_file, resume_file, loaded_path, cancel_file, forget_file,
}

All-member : (n : Text) (ns : List Text) (P : Text → Type 0) → member n ns ≡ true → All P ns → P n
unfolding member
All-member n [] P h all = cc
All-member n (m ∷ ns) P h all = elim (Bool-cases (text_eq m n)) [
  | inl e ↦ subst P ((text_eq_iff m n).0 e) all.0
  | inr e ↦ All-member n ns P (rw e at h) all.1
]

append_cancel : (p a b : Text) → p ++ a ≡ p ++ b → a ≡ b
append_cancel [] a b e = e
append_cancel (c ∷ p) a b e = append_cancel p a b (cc e)

-- The path where one file's resume data is looked for is that where another's was saved exactly when the one's
-- name is the other's behind an underscore.
loaded-saved_path :
    (s : Torrents) (name other : Text)
    → loaded_path s name ≡ saved_path s other
    → name ≡ text "_" ++ other
unfolding loaded_path saved_path
loaded-saved_path s name other e =
    append_cancel (text ".resume_file") name (text "_" ++ other)
      (append_cancel (text "/") _ _ (append_cancel s.work_dir _ _ e))

module _ (lt : Torrent) where
  -- When what can be read was saved by the alerts of resume data, for the files `saved`, and the name of a file
  -- that is not in the session is not one of these behind an underscore, then resuming the file is an exception:
  -- its own resume data is looked for under another name.
  pub resume_file-saved :
      (saved : List Text) (handles : List (Option Text)) (p : ℕ) (s : Torrents)
      → ((path buf : Text)
          → lt.contents path ≡ some buf
          → (n : Text) × (member n saved ≡ true) × (path ≡ saved_path s n))
      → All (λ n. get_file_name (s.heap p) ≢ text "_" ++ n) saved
      → in_session (get_file_name (s.heap p)) handles ≡ some false
      → resume_file lt handles p s ≡ none
  unfolding resume_file load_file
  resume_file-saved saved handles p s reads apart out =
      let name = get_file_name (s.heap p) in
      elim (Option-cases (lt.contents (loaded_path s name))) [
        | inl e ↦ rw (out, e) refl
        | inr (buf, e) ↦
            let (n, stored, path) = reads (loaded_path s name) buf e in
            absurd (
              All-member n saved (λ k. name ≢ text "_" ++ k) stored apart
                (loaded-saved_path s name n path))
      ]

left_map :
    (found : Bool) (name : Text) (s : Torrents)
    → (if found then ask (remove name) s else s).filename_to_metadata ≡ s.filename_to_metadata
left_map true name s = refl
left_map false name s = refl

-- A file that is cancelled is gone from the map at once: the next alert, when it is a state update whose first
-- status still names the file's torrent, uses a null pointer.
pub cancel_file-state_update :
    (clock : ℕ → ℤ) (handles : List (Option Text)) (p : ℕ) (t : TorrentStatus)
    (ts : List TorrentStatus) (l : Loop) (r : Bool) (s' : Torrents)
    → t.name ≡ get_file_name (l.torrents.heap p)
    → cancel_file handles p l.torrents ≡ some (r, s')
    → handle_alert clock (state_update (t ∷ ts)) (record l { torrents = s' }) ≡ none
unfolding handle_alert update_files update_file file_named cancel_file forget_file
cancel_file-state_update clock handles p t ts l r s' e h =
    let name = get_file_name (l.torrents.heap p) in
    let m = l.torrents.filename_to_metadata in
    let (found, h1, h2) = >>=-eq-some (in_session name handles) _ h in
    let gone : lookup t.name (erase name m) ≡ none =
      rw e (lookup-erase name name m ∙ rw (text_eq_refl name) refl) in
    let map_gone : lookup t.name s'.filename_to_metadata ≡ none =
      ap (λ x. lookup t.name x.filename_to_metadata) (sym (ap (λ x. x.1) (some_inj.0 h2)))
      ∙ (ap (λ x. lookup t.name (erase name x)) (left_map found name l.torrents) ∙ gone) in
    rw map_gone refl
