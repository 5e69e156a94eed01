-- ===== src/Session/Groups.antt =====
-- The operations of a session on all files of its group (src/client/transfer_session.cpp).
use snbmodules.Common.{true, ℕ, [], Text, text}
use snbmodules.Enums.NotificationType.{
  pause_transfer, resume_transfer, cancel_transfer, start_transfer,
}
use snbmodules.Session.World.{
  Env, SessionType, downloader, uploader, Session, World, Result, all_while,
  update_metadatas_to_bookkeeper, send_notification_to_targets,
}
use snbmodules.Session.Files.{
  pause_file, resume_file, cancel_file, upload_file, download_file, only_for,
}

module _ {env : Env} where
  -- The loop over the files of the group.
  abbrev pub each_file : (ℕ → World env → Result env) → Session → World env → Result env
  each_file f s w = all_while f s.transfer_options.transfers_meta (true, w)

  -- The bookkeepers are told, whatever the result.
  unfoldable pub told : Session → Result env → Result env
  told s (r, w) = (r, (update_metadatas_to_bookkeeper s w).1)

  unfoldable pub pause_all : Session → World env → Result env
  unfolding told
  pause_all s w =
      told s
        (each_file (pause_file s true) s (send_notification_to_targets s pause_transfer [] w).1)

  unfoldable pub resume_all : Session → World env → Result env
  unfolding told
  resume_all s w =
      let (r, w') = each_file (resume_file s true) s w in
      told s (r, (send_notification_to_targets s resume_transfer [] w').1)

  unfoldable pub cancel_all : Session → World env → Result env
  unfolding told
  cancel_all s w =
      let (r, w') = each_file (cancel_file s true) s w in
      told s (r, (send_notification_to_targets s cancel_transfer [] w').1)

  unfoldable pub download_all : Session → Text → World env → Result env
  unfolding told
  download_all s dest w =
      told s
        (each_file (download_file s dest true) s (only_for downloader (text "download_all") s w))

  unfoldable pub upload_all : Session → World env → Result env
  unfolding told
  upload_all s w =
      let (r, w') = each_file (upload_file s true) s (only_for uploader (text "upload_all") s w) in
      told s (r, (send_notification_to_targets s start_transfer [] w').1)

  unfoldable pub start_all_as : SessionType → Session → World env → Result env
  start_all_as downloader s w = download_all s s.work_dir w
  start_all_as uploader s w = upload_all s w

  unfoldable pub start_all : Session → World env → Result env
  unfolding start_all_as
  start_all s = start_all_as s.session_type s
