-- ===== src/Session/Runs.antt =====
-- Runs of a session: any sequence of its operations, on files and on the group.
use snbmodules.Common.{ℕ, sym, inl, inr, Bool, true, false, List, [], ◌∷◌, Text, text, Bool-cases}
use mathlib.Core.Path.{subst}
use snbmodules.Enums.NotificationType.{
  NotificationType, pause_transfer, resume_transfer, cancel_transfer, start_transfer,
}
use snbmodules.Session.World.{
  Env, SessionType, downloader, uploader, Session, World, Result, all_while,
  update_metadatas_to_bookkeeper, send_notification_to_targets,
}
use snbmodules.Session.Files.{
  pause_file, resume_file, hash_file, cancel_file, upload_file, download_file, start_as, start_file,
  only_for, session_eq,
}
use snbmodules.Session.Groups.{
  told, each_file, pause_all, resume_all, cancel_all, download_all, upload_all, start_all_as,
  start_all,
}
use snbmodules.Session.Unchanged.{SameStatus, updates-SameStatus, targets-SameStatus}
use snbmodules.Session.Transitions.{Moves, stay, KeepsStatus}
use snbmodules.Session.Moves.{
  Advances, Advances-trans, pause_file-Advances, resume_file-Advances, hash_file-Advances,
  cancel_file-Advances, upload_file-Advances, download_file-Advances,
}

-- The public operations.
pub data Command : Type 0 where
  pause resume rehash cancel upload start : ℕ → Command
  download : Text → ℕ → Command
  pause_group resume_group cancel_group upload_group start_group : Command
  download_group : Text → Command

module _ {env : Env} where
  unfoldable pub run : Session → Command → World env → World env
  run s (pause p) w = (pause_file s false p w).1
  run s (resume p) w = (resume_file s false p w).1
  run s (rehash p) w = (hash_file s false p w).1
  run s (cancel p) w = (cancel_file s false p w).1
  run s (upload p) w = (upload_file s false p w).1
  run s (start p) w = (start_file s p w).1
  run s (download dest p) w = (download_file s dest false p w).1
  run s pause_group w = (pause_all s w).1
  run s resume_group w = (resume_all s w).1
  run s cancel_group w = (cancel_all s w).1
  run s upload_group w = (upload_all s w).1
  run s start_group w = (start_all s w).1
  run s (download_group dest) w = (download_all s dest w).1

  abbrev pub run_all : Session → List Command → World env → World env
  run_all s [] w = w
  run_all s (c ∷ cs) w = run_all s cs (run s c w)

  SameStatus-Advances : (w v : World env) → SameStatus w v → Advances w v
  SameStatus-Advances w v h q = subst (λ b. Moves (w.heap q).status b) (sym (h q)) stay

  all_while-Advances :
      (f : ℕ → World env → Result env) (ps : List ℕ) (r : Bool) (w : World env)
      → ((p : ℕ) (v : World env) → Advances v (f p v).1)
      → Advances w (all_while f ps (r, w)).1
  unfolding all_while
  all_while-Advances f [] r w h q = stay
  all_while-Advances f (p ∷ ps) true w h q =
      Advances-trans w (f p w).1 (all_while f ps (f p w)).1 (h p w)
        (all_while-Advances f ps (f p w).0 (f p w).1 h) q
  all_while-Advances f (p ∷ ps) false w h q = all_while-Advances f ps false w h q

  told-Advances :
      (s : Session) (w v : World env) (r : Bool) → Advances w v → Advances w (told s (r, v)).1
  unfolding told
  told-Advances s w v r h =
      Advances-trans w v (update_metadatas_to_bookkeeper s v).1 h
        (SameStatus-Advances v (update_metadatas_to_bookkeeper s v).1 (updates-SameStatus s v))

  targets-Advances :
      (s : Session) (t : NotificationType) (w v : World env)
      → Advances w v
      → Advances w (send_notification_to_targets s t [] v).1
  targets-Advances s t w v h = Advances-trans w v (send_notification_to_targets s t [] v).1 h (
      SameStatus-Advances v (send_notification_to_targets s t [] v).1 (targets-SameStatus s t [] v))

  each_file-Advances :
      (f : ℕ → World env → Result env) (s : Session) (w : World env)
      → ((p : ℕ) (v : World env) → Advances v (f p v).1)
      → Advances w (each_file f s w).1
  each_file-Advances f s w h = all_while-Advances f s.transfer_options.transfers_meta true w h

  -- The group operations that tell the targets after their loop.
  loop_then_targets :
      (f : ℕ → World env → Result env) (s : Session) (t : NotificationType) (w : World env)
      → ((p : ℕ) (v : World env) → Advances v (f p v).1)
      → Advances w
          (told s
            ((each_file f s w).0, (send_notification_to_targets s t [] (each_file f s w).1).1)).1
  loop_then_targets f s t w h =
      told-Advances s w (send_notification_to_targets s t [] (each_file f s w).1).1
        (each_file f s w).0
        (targets-Advances s t w (each_file f s w).1 (each_file-Advances f s w h))

  only_for-Advances :
      (t : SessionType) (name : Text) (s : Session) (w v : World env)
      → Advances (only_for t name s w) v
      → Advances w v
  unfolding only_for
  only_for-Advances t name s w v = elim (Bool-cases (session_eq s.session_type t)) [
    | inl e ↦ rw e (λ h. h)
    | inr e ↦ rw e (λ h. h)
  ]

module _ {env : Env} (k : KeepsStatus env.interface) where
  upload_all-Advances : (s : Session) (w : World env) → Advances w (upload_all s w).1
  unfolding upload_all
  upload_all-Advances s w = only_for-Advances uploader (text "upload_all") s w (upload_all s w).1 (
      loop_then_targets (upload_file s true) s start_transfer
        (only_for uploader (text "upload_all") s w) (upload_file-Advances k s true))

  download_all-Advances :
      (s : Session) (dest : Text) (w : World env) → Advances w (download_all s dest w).1
  unfolding download_all
  download_all-Advances s dest w =
      let begun = only_for downloader (text "download_all") s w in
      let loop = each_file (download_file s dest true) s begun in
      only_for-Advances downloader (text "download_all") s w (download_all s dest w).1 (
        told-Advances s begun loop.1 loop.0 (
          each_file-Advances (download_file s dest true) s begun
            (download_file-Advances k s dest true)))

  start_as-Advances :
      (t : SessionType) (s : Session) (p : ℕ) (w : World env) → Advances w (start_as t s p w).1
  unfolding start_as
  start_as-Advances downloader s p w = download_file-Advances k s s.work_dir false p w
  start_as-Advances uploader s p w = upload_file-Advances k s false p w

  start_all_as-Advances :
      (t : SessionType) (s : Session) (w : World env) → Advances w (start_all_as t s w).1
  unfolding start_all_as
  start_all_as-Advances downloader s w = download_all-Advances s s.work_dir w
  start_all_as-Advances uploader s w = upload_all-Advances s w

  run-Advances : (s : Session) (c : Command) (w : World env) → Advances w (run s c w)
  unfolding run start_file start_all pause_all resume_all cancel_all
  run-Advances s (pause p) w = pause_file-Advances k s false p w
  run-Advances s (resume p) w = resume_file-Advances k s false p w
  run-Advances s (rehash p) w = hash_file-Advances k s false p w
  run-Advances s (cancel p) w = cancel_file-Advances k s false p w
  run-Advances s (upload p) w = upload_file-Advances k s false p w
  run-Advances s (download dest p) w = download_file-Advances k s dest false p w
  run-Advances s (start p) w = start_as-Advances s.session_type s p w
  run-Advances s pause_group w =
      let begun = (send_notification_to_targets s pause_transfer [] w).1 in
      let loop = each_file (pause_file s true) s begun in
      told-Advances s w loop.1 loop.0 (
        Advances-trans w begun loop.1 (targets-Advances s pause_transfer w w (λ q. stay))
          (each_file-Advances (pause_file s true) s begun (pause_file-Advances k s true)))
  run-Advances s resume_group w =
      loop_then_targets (resume_file s true) s resume_transfer w (resume_file-Advances k s true)
  run-Advances s cancel_group w =
      loop_then_targets (cancel_file s true) s cancel_transfer w (cancel_file-Advances k s true)
  run-Advances s upload_group w = upload_all-Advances s w
  run-Advances s (download_group dest) w = download_all-Advances s dest w
  run-Advances s start_group w = start_all_as-Advances s.session_type s w

  -- Whatever operations a session runs, on its files or on the group, each file's state only goes
  -- along the moves of the state machine, when the transfer interface leaves the states to the
  -- session.
  pub run_all-Advances :
      (s : Session) (cs : List Command) (w : World env) → Advances w (run_all s cs w)
  run_all-Advances s [] w q = stay
  run_all-Advances s (c ∷ cs) w q =
      Advances-trans w (run s c w) (run_all s cs (run s c w)) (run-Advances s c w)
        (run_all-Advances s cs (run s c w)) q
