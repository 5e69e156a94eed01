-- ===== src/Session/Moves.antt =====
-- Every operation of a session follows the moves of a file's states.
use snbmodules.Common.{
  ℕ, ◌≡◌, ◌≢◌, refl, sym, ◌⊎◌, inl, inr, Bool, false, not, ◌&&◌, ◌||◌, Text, arith, Bool-cases,
  Option, none, some, text,
}
use mathlib.Core.Path.{subst}
use snbmodules.Enums.Status.{
  Status, status_eq, status_eq→eq, downloading, uploading, paused, waiting, finished, cancelled,
  hashing,
}
use snbmodules.Enums.NotificationType.{
  NotificationType, pause_transfer, resume_transfer, cancel_transfer, start_transfer,
}
use snbmodules.Session.World.{
  Env, SessionType, downloader, uploader, incorrect_action, Session, World,
}
use snbmodules.Session.Files.{
  Action, change, running, pause_file, resume_file, hash_file, cancel_file, upload_file,
  download_file, upload_checked, download_checked, only_for, warn, session_eq,
}
use snbmodules.Session.Transitions.{
  Ends, Move, Moves, stay, move, pausing, resuming, rehashing, cancelling, starting, Moves-trans,
  KeepsStatus, Keeps, Changed, change-Changed,
}

running_lem : (t : SessionType) → (running t ≡ downloading) ⊎ (running t ≡ uploading)
unfolding running
running_lem downloader = inl refl
running_lem uploader = inr refl

not_neither :
    (a : Status)
    → (not (status_eq a downloading) && not (status_eq a uploading)) ≡ false
    → (a ≡ downloading) ⊎ (a ≡ uploading)
not_neither a h = elim (Bool-cases (status_eq a downloading)) [
  | inl d ↦ inl (status_eq→eq a downloading d)
  | inr e ↦ inr (status_eq→eq a uploading (ground arith))
]

not_either :
    (a : Status)
    → ((status_eq a finished) || (status_eq a cancelled)) ≡ false
    → (a ≢ finished) × (a ≢ cancelled)
not_either a h = ((λ e. ground arith), λ e. ground arith)

module _ {env : Env} where
  -- Every file's state goes along the moves.
  abbrev pub Advances : World env → World env → Type 0
  Advances w w' = (q : ℕ) → Moves (w.heap q).status (w'.heap q).status

  pub Advances-trans : (w v u : World env) → Advances w v → Advances v u → Advances w u
  Advances-trans w v u h k q = Moves-trans (h q) (k q)

  -- One operation on `p`, whose state allows it.
  Changed-Advances :
      (p : ℕ) (to : Status) (w v : World env)
      → ((b : Status) → Ends to b → Move (w.heap p).status b)
      → Changed p to w v
      → Advances w v
  Changed-Advances p to w v allowed h q = elim (h q) [
    | inl e ↦ subst (λ b. Moves (w.heap q).status b) (sym e) stay
    | inr c ↦
        move stay (
          subst (λ r. Move (w.heap r).status (v.heap q).status) c.0 (allowed (v.heap q).status c.1))
  ]

  change-Advances :
      (s : Session) (act : Action env) (to : Status) (t : Option NotificationType) (multiple : Bool)
      (p : ℕ) (w : World env)
      → ((b : Status) → Ends to b → Move (w.heap p).status b)
      → Keeps env act
      → Advances w (change s act to t multiple p w).1
  change-Advances s act to t multiple p w allowed k =
      Changed-Advances p to w (change s act to t multiple p w).1 allowed
        (change-Changed s act to t multiple p w k)

module _ {env : Env} (k : KeepsStatus env.interface) where
  pub pause_file-Advances :
      (s : Session) (multiple : Bool) (p : ℕ) (w : World env)
      → Advances w (pause_file s multiple p w).1
  unfolding pause_file
  pause_file-Advances s multiple p w =
      elim (Bool-cases (
        not (status_eq (w.heap p).status downloading)
        && not (status_eq (w.heap p).status uploading))) [
          | inl off ↦ rw off (λ q. stay)
          | inr on ↦ rw on (
              change-Advances s env.interface.pause_file paused (some pause_transfer) multiple p w
                (λ b e. pausing (not_neither (w.heap p).status on) e) k.pause)
        ]

  pub resume_file-Advances :
      (s : Session) (multiple : Bool) (p : ℕ) (w : World env)
      → Advances w (resume_file s multiple p w).1
  unfolding resume_file
  resume_file-Advances s multiple p w = elim (Bool-cases (status_eq (w.heap p).status paused)) [
    | inr off ↦ rw off (λ q. stay)
    | inl on ↦ rw on (
        change-Advances s env.interface.resume_file (running s.session_type) (some resume_transfer)
          multiple p w
          (λ b e.
            subst (λ a. Move a b) (sym (status_eq→eq (w.heap p).status paused on))
              (resuming (running s.session_type) (running_lem s.session_type) e))
          k.resume)
  ]

  pub hash_file-Advances :
      (s : Session) (multiple : Bool) (p : ℕ) (w : World env)
      → Advances w (hash_file s multiple p w).1
  unfolding hash_file
  hash_file-Advances s multiple p w = elim (Bool-cases (status_eq (w.heap p).status finished)) [
    | inr off ↦ rw off (λ q. stay)
    | inl on ↦ rw on (
        change-Advances s env.interface.hash_file hashing none multiple p w
          (λ b e.
            subst (λ a. Move a b) (sym (status_eq→eq (w.heap p).status finished on)) (rehashing e))
          k.hash)
  ]

  pub cancel_file-Advances :
      (s : Session) (multiple : Bool) (p : ℕ) (w : World env)
      → Advances w (cancel_file s multiple p w).1
  unfolding cancel_file
  cancel_file-Advances s multiple p w =
      elim (Bool-cases
        ((status_eq (w.heap p).status finished) || (status_eq (w.heap p).status cancelled))) [
          | inl off ↦ rw off (λ q. stay)
          | inr on ↦ rw on (
              change-Advances s env.interface.cancel_file cancelled (some cancel_transfer) multiple
                p w
                (λ b e.
                  cancelling (not_either (w.heap p).status on).0 (not_either (w.heap p).status on).1
                    e)
                k.cancel)
        ]

  upload_checked-Advances :
      (s : Session) (multiple : Bool) (p : ℕ) (w : World env)
      → Advances w (upload_checked s multiple p w).1
  unfolding upload_checked
  upload_checked-Advances s multiple p w = elim (Bool-cases (status_eq (w.heap p).status waiting)) [
    | inr off ↦ rw off (λ q. stay)
    | inl on ↦ rw on (
        change-Advances s env.interface.upload_file uploading (some start_transfer) multiple p w
          (λ b e.
            subst (λ a. Move a b) (sym (status_eq→eq (w.heap p).status waiting on))
              (starting uploading (inr refl) e))
          k.upload)
  ]

  pub upload_file-Advances :
      (s : Session) (multiple : Bool) (p : ℕ) (w : World env)
      → Advances w (upload_file s multiple p w).1
  unfolding upload_file only_for
  upload_file-Advances s multiple p w = elim (Bool-cases (session_eq s.session_type uploader)) [
    | inl same ↦ rw same (upload_checked-Advances s multiple p w)
    | inr other ↦
        rw other
          (upload_checked-Advances s multiple p (warn (incorrect_action (text "upload_file")) w))
  ]

  download_checked-Advances :
      (s : Session) (dest : Text) (multiple : Bool) (p : ℕ) (w : World env)
      → Advances w (download_checked s dest multiple p w).1
  unfolding download_checked
  download_checked-Advances s dest multiple p w =
      elim (Bool-cases (status_eq (w.heap p).status waiting)) [
        | inr off ↦ rw off (λ q. stay)
        | inl on ↦ rw on (
            change-Advances s (env.interface.download_file dest) downloading none multiple p w
              (λ b e.
                subst (λ a. Move a b) (sym (status_eq→eq (w.heap p).status waiting on))
                  (starting downloading (inl refl) e))
              (k.download dest))
      ]

  pub download_file-Advances :
      (s : Session) (dest : Text) (multiple : Bool) (p : ℕ) (w : World env)
      → Advances w (download_file s dest multiple p w).1
  unfolding download_file only_for
  download_file-Advances s dest multiple p w =
      elim (Bool-cases (session_eq s.session_type downloader)) [
        | inl same ↦ rw same (download_checked-Advances s dest multiple p w)
        | inr other ↦ rw other (
            download_checked-Advances s dest multiple p
              (warn (incorrect_action (text "download_file")) w))
      ]
