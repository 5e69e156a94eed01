-- ===== src/Client/Advances.antt =====
-- Whatever messages a client handles, the states of its files go along their moves
-- (src/client/transfer_client.cpp).
use snbmodules.Common.{
  refl, true, Bool, arith, ℕ, ◌≡◌, some, List, [], ◌∷◌, Bool-cases, inl, inr, >>=-eq-some,
  if◌then◌else◌,
}
use mathlib.Core.Option.{some_inj}
use mathlib.Core.Path.{ap, subst}
use snbmodules.Notification.Interface.{NotificationData}
use snbmodules.Session.World.{
  update_metadata_to_bookkeeper, update_metadatas_to_bookkeeper, downloader, uploader, Session,
  World,
}
use snbmodules.Client.State.{wrong_destination, not_handled, ClientEnv, Client, warn}
use snbmodules.Client.Sessions.{get_session}
use snbmodules.Client.Sharing.{
  path_append, path_append, scan_available_files, send, share_available_files,
}
use snbmodules.Client.Messages.{
  any_available, misdirected, on_new_transfer, on_connection_request, handle_all, control,
  action_on_receive_notification, act,
}
use snbmodules.Client.Steps.{
  create_session-Advanced, OpensQuietly, Advanced, Advanced-refl, Advanced-trans,
}
use snbmodules.Session.Transitions.{stay, Moves, KeepsStatus}
use snbmodules.Session.Unchanged.{update-SameStatus, updates-SameStatus}
use snbmodules.Group.Import.{load_group}
use snbmodules.Session.Runs.{
  Command, cancel, cancel_group, resume, resume_group, pause, pause_group, start, start_group,
  run_all-Advances, run,
}
use snbmodules.Enums.NotificationType.{
  string_to_notification, NotificationType, connection_request, new_transfer, update_request,
  group_metadata, transfer_error, start_transfer, transfer_metadata, pause_transfer,
  resume_transfer, cancel_transfer,
}
use snbmodules.Client.Scans.{scan_available_files-Advanced}
use snbmodules.IpFormat.Address.{default_ip}
use snbmodules.Client.Handlers.{
  AdvancesAll, share_available_files-Advanced, on_transfer_metadata-Advanced, control_at-Advanced,
  SameStatus-Advances,
}

module _ {e : ClientEnv} (k : KeepsStatus e.env.interface) (quiet : OpensQuietly e) where
  on_connection_request-Advanced :
      (notif : NotificationData) (c d : Client e)
      → on_connection_request notif c ≡ some d
      → Advanced c d
  unfolding on_connection_request send
  on_connection_request-Advanced notif c d h =
      let (q, h1, r) = >>=-eq-some (scan_available_files true c.listening_dir ([], c)) _ h in
      let (b, h2, h3) = >>=-eq-some (share_available_files q.0 notif.source_id q.1) _ r in
      subst (Advanced c) (some_inj.0 h3) (
        Advanced-trans c q.1 b
          (scan_available_files-Advanced quiet true c.listening_dir ([], c) q h1)
          (share_available_files-Advanced q.0 notif.source_id q.1 b h2))

  on_new_transfer-Advanced :
      (notif : NotificationData) (c d : Client e) → on_new_transfer notif c ≡ some d → Advanced c d
  unfolding on_new_transfer
  on_new_transfer-Advanced notif c d h =
      let (g, _, r) = >>=-eq-some (load_group e.reader notif.data_text) _ h in
      subst (Advanced c) (some_inj.0 r) (
        create_session-Advanced g
          (if any_available g.expected_files c.available_files then uploader else downloader)
          notif.target_id (path_append c.listening_dir g.group_id) default_ip [] c quiet)

  control-Advanced :
      (all : Session → World e.env → World e.env) (one : Session → ℕ → World e.env → World e.env)
      (notif : NotificationData) (c d : Client e)
      → AdvancesAll e.env all
      → ((p : ℕ) → AdvancesAll e.env (λ t. one t p))
      → control all one notif c ≡ some d
      → Advanced c d
  unfolding control
  control-Advanced all one notif c d ha ho h =
      control_at-Advanced all one notif (get_session notif.target_id c) c d ha ho h

  pub warned-Advanced :
      (c b d : Client e) → c.heap ≡ b.heap → c.next ≡ b.next → some b ≡ some d → Advanced c d
  warned-Advanced c b d h n r =
      subst (Advanced c) (some_inj.0 r)
        (omega (arith, n), λ q l. subst (λ x. Moves (c.heap q).status (x q).status) h stay)

  -- A message that runs commands of the session.
  runs-Advanced :
      (all : Command) (one : ℕ → Command) (notif : NotificationData) (c d : Client e)
      → control (λ s w. run s all w) (λ s p w. run s (one p) w) notif c ≡ some d
      → Advanced c d
  runs-Advanced all one notif c d h =
      control-Advanced (λ s w. run s all w) (λ s p w. run s (one p) w) notif c d
        (λ s. run_all-Advances k s (all ∷ [])) (λ p s. run_all-Advances k s (one p ∷ [])) h

  act-Advanced :
      (t : NotificationType) (notif : NotificationData) (c d : Client e)
      → act t notif c ≡ some d
      → Advanced c d
  unfolding act run warn
  act-Advanced connection_request notif c d h = on_connection_request-Advanced notif c d h
  act-Advanced new_transfer notif c d h = on_new_transfer-Advanced notif c d h
  act-Advanced transfer_metadata notif c d h = on_transfer_metadata-Advanced notif c d h
  act-Advanced start_transfer notif c d h = runs-Advanced start_group start notif c d h
  act-Advanced pause_transfer notif c d h = runs-Advanced pause_group pause notif c d h
  act-Advanced resume_transfer notif c d h = runs-Advanced resume_group resume notif c d h
  act-Advanced cancel_transfer notif c d h = runs-Advanced cancel_group cancel notif c d h
  act-Advanced update_request notif c d h =
      control-Advanced (λ s w. (update_metadatas_to_bookkeeper s w).1)
        (λ s p w. (update_metadata_to_bookkeeper s p w).1) notif c d
        (λ s w.
          SameStatus-Advances e.env w (update_metadatas_to_bookkeeper s w).1
            (updates-SameStatus s w))
        (λ p s w.
          SameStatus-Advances e.env w (update_metadata_to_bookkeeper s p w).1
            (update-SameStatus s p w))
        h
  act-Advanced group_metadata notif c d h =
      warned-Advanced c (warn (not_handled notif.source_id notif.notification) c) d refl refl h
  act-Advanced transfer_error notif c d h =
      warned-Advanced c (warn (not_handled notif.source_id notif.notification) c) d refl refl h

  pub action-Advanced :
      (notif : NotificationData) (c d : Client e) (r : Bool)
      → action_on_receive_notification notif c ≡ some (r, d)
      → Advanced c d
  unfolding action_on_receive_notification warn
  action-Advanced notif c d r = elim (Bool-cases (misdirected notif c)) [
    | inl m ↦ rw m (λ h.
        warned-Advanced c (warn (wrong_destination notif.source_id notif.target_id) c) d refl refl
          (ap some (ap (λ x. x.1) (some_inj.0 h))))
    | inr m ↦ rw m (λ h.
        let (t, _, h1) = >>=-eq-some (string_to_notification notif.notification) _ h in
        let (b, h2, h3) = >>=-eq-some (act t notif c) _ h1 in
        subst (Advanced c) (ap (λ x. x.1) (some_inj.0 h3)) (act-Advanced t notif c b h2))
  ]

  -- Whatever messages a client handles, from bookkeepers and other clients, for any of its sessions, the
  -- state of each file that was there at first only goes along the moves of the state machine, when the
  -- transfer interfaces leave the states to the sessions.
  pub handle_all-Advanced :
      (notifs : List NotificationData) (c d : Client e)
      → handle_all notifs c ≡ some d
      → Advanced c d
  unfolding handle_all
  handle_all-Advanced [] c d h = subst (Advanced c) (some_inj.0 h) (Advanced-refl c)
  handle_all-Advanced (notif ∷ notifs) c d h =
      let (r, h1, h2) = >>=-eq-some (action_on_receive_notification notif c) _ h in
      Advanced-trans c r.1 d (action-Advanced notif c r.1 r.0 h1)
        (handle_all-Advanced notifs r.1 d h2)
