-- ===== src/Client/Handlers.antt =====
-- What the handlers of the client's messages do to the states of files
-- (src/client/transfer_client.cpp).
use snbmodules.Common.{
  ℕ, suc, ◌≡◌, Option, none, some, List, [], ◌∷◌, Text, text_eq, Bool-cases, inl, inr, >>=-eq-some,
  if◌then◌else◌,
}
use mathlib.Core.Option.{some_inj}
use mathlib.Core.Path.{sym, subst}
use snbmodules.Metadata.Transfer.{TransferMetadata, set_dest}
use snbmodules.Metadata.Import.{load_metadata}
use snbmodules.Notification.Interface.{NotificationData}
use snbmodules.Group.Metadata.{get_transfer_meta_from_file_path}
use snbmodules.Session.World.{Env, Session, World}
use snbmodules.Session.Moves.{Advances}
use snbmodules.Client.State.{file_not_expected, ClientEnv, ClientSession, Client, warn}
use snbmodules.Client.Sessions.{operate}
use snbmodules.Client.Sharing.{
  send_file, allocate, share_available_files, create_metadata_from_file, insert_new,
}
use snbmodules.Client.Messages.{
  hand_over, control_at, on_transfer_metadata, on_files, find_target, receive_file,
}
use snbmodules.Client.Steps.{
  Advanced, Advanced-refl, Advanced-trans, operate-Advanced, at_session-Advanced, allocate-Advanced,
  session_add_file-Advanced, send_file-Advanced,
}
use snbmodules.Session.Transitions.{stay, Moves}
use snbmodules.Session.Unchanged.{SameStatus}

-- An operation of a session that a message runs.
abbrev pub AdvancesAll : (env : Env) → (Session → World env → World env) → Type 0
AdvancesAll env f = (s : Session) (w : World env) → Advances w (f s w)

pub SameStatus-Advances : (env : Env) (w v : World env) → SameStatus w v → Advances w v
SameStatus-Advances env w v h q = subst (λ b. Moves (w.heap q).status b) (sym (h q)) stay

module _ {e : ClientEnv} where
  pub share_available_files-Advanced :
      (fs : List Text) (dest : Text) (c d : Client e)
      → share_available_files fs dest c ≡ some d
      → Advanced c d
  unfolding share_available_files
  share_available_files-Advanced [] dest c d h = subst (Advanced c) (some_inj.0 h) (Advanced-refl c)
  share_available_files-Advanced (f ∷ fs) dest c d h =
      let (m, _, r) = >>=-eq-some (create_metadata_from_file f c) _ h in
      let made : Client e = record (allocate m c) {
        available_files = insert_new f c.next c.available_files;
      } in
      let sent = send_file dest dest c.next made in
      Advanced-trans c made d (allocate-Advanced m c) (
        Advanced-trans made sent d (send_file-Advanced dest dest c.next made)
          (share_available_files-Advanced fs dest sent d r))

  receive_file-Advanced :
      (m : TransferMetadata) (s : ClientSession e) (c : Client e) (r : ClientSession e × Client e)
      → receive_file m s c ≡ some r
      → Advanced c r.1
  unfolding receive_file
  receive_file-Advanced m s c r h =
      let (k, _, h1) = >>=-eq-some (set_dest s.ip m) _ h in
      Advanced-trans c (allocate k c) r.1 (allocate-Advanced k c)
        (session_add_file-Advanced c.next s (allocate k c) r h1)

  hand_over-Advanced :
      (target : Text) (m : TransferMetadata) (x : Option ℕ) (c d : Client e)
      → hand_over target m x c ≡ some d
      → Advanced c d
  unfolding hand_over warn
  hand_over-Advanced target m none c d h = subst (Advanced c) (some_inj.0 h) (Advanced-refl c)
  hand_over-Advanced target m (some i) c d h =
      at_session-Advanced (receive_file m) i c d (λ s r. receive_file-Advanced m s c r) h

  pub on_transfer_metadata-Advanced :
      (notif : NotificationData) (c d : Client e)
      → on_transfer_metadata notif c ≡ some d
      → Advanced c d
  unfolding on_transfer_metadata
  on_transfer_metadata-Advanced notif c d h =
      let (m, _, r) =
        >>=-eq-some (load_metadata e.parse e.reader.cwd (e.env.clock c.instant) notif.data_text) _
          h in
      hand_over-Advanced notif.target_id m (find_target notif.target_id c.sessions)
        (record c { instant = suc c.instant }) d r

  on_files-Advanced :
      (all : Session → World e.env → World e.env) (one : Session → ℕ → World e.env → World e.env)
      (path : Text) (s : ClientSession e) (c : Client e) (r : ClientSession e × Client e)
      → AdvancesAll e.env all
      → ((p : ℕ) → AdvancesAll e.env (λ t. one t p))
      → on_files all one path s c ≡ some r
      → Advanced c r.1
  unfolding on_files warn
  on_files-Advanced all one path s c r ha ho = elim (Bool-cases (text_eq path [])) [
    | inl k ↦ rw k (λ h.
        subst (λ (y : ClientSession e × Client e). Advanced c y.1) (some_inj.0 h)
          (operate-Advanced (all s.session) s c (ha s.session)))
    | inr k ↦ rw k (λ h.
        let (l, _, h1) =
          >>=-eq-some (get_transfer_meta_from_file_path c.heap s.session.transfer_options path) _
            h in
        let f = one s.session l.0 in
        let go : Advanced c (operate f s (if l.1 then warn file_not_expected c else c)).1 =
          elim (Bool-cases l.1) [
            | inl n ↦ rw n (operate-Advanced f s (warn file_not_expected c) (ho l.0 s.session))
            | inr n ↦ rw n (operate-Advanced f s c (ho l.0 s.session))
          ] in
        subst (λ (y : ClientSession e × Client e). Advanced c y.1) (some_inj.0 h1) go)
  ]

  pub control_at-Advanced :
      (all : Session → World e.env → World e.env) (one : Session → ℕ → World e.env → World e.env)
      (notif : NotificationData) (x : Option ℕ) (c d : Client e)
      → AdvancesAll e.env all
      → ((p : ℕ) → AdvancesAll e.env (λ t. one t p))
      → control_at all one notif x c ≡ some d
      → Advanced c d
  unfolding control_at warn
  control_at-Advanced all one notif none c d ha ho h =
      subst (Advanced c) (some_inj.0 h) (Advanced-refl c)
  control_at-Advanced all one notif (some i) c d ha ho h =
      at_session-Advanced (on_files all one notif.data_text) i c d
        (λ s r. on_files-Advanced all one notif.data_text s c r ha ho) h
