-- ===== src/Session/Unchanged.antt =====
-- Sending messages leaves the status of every file as it is.
use snbmodules.Common.{
  ℕ, ◌≡◌, refl, ap, ◌∙◌, inl, inr, Bool, true, false, List, [], ◌∷◌, Text, arith, Bool-cases, ◌==◌,
}
use snbmodules.Enums.NotificationType.{NotificationType}
use snbmodules.Metadata.Transfer.{TransferMetadata}
use snbmodules.Metadata.Json.{export_to_string_partial}
use snbmodules.Group.Metadata.{store}
use snbmodules.Session.World.{
  Env, Session, World, Result, send, send_metadata, all_while, update_metadata_to_bookkeeper,
  send_group, update_metadatas_to_bookkeeper, send_to_clients, send_notification_to_targets,
}

module _ {env : Env} where
  -- No file changes its status.
  abbrev pub SameStatus : World env → World env → Type 0
  SameStatus w w' = (q : ℕ) → (w'.heap q).status ≡ (w.heap q).status

  pub store-status :
      (p : ℕ) (m : TransferMetadata) (w : World env) (q : ℕ)
      → m.status ≡ (w.heap p).status
      → (store p m w.heap q).status ≡ (w.heap q).status
  unfolding store
  store-status p m w q e = elim (Bool-cases (p == q)) [
    | inl k ↦ rw k (e ∙ ap (λ r. (w.heap r).status) (ground arith))
    | inr k ↦ rw k refl
  ]

  send-SameStatus :
      (s : Session) (t : NotificationType) (dst id_conn content : Text) (w : World env)
      → SameStatus w (send s t dst id_conn content w).1
  unfolding send
  send-SameStatus s t dst id_conn content w q = refl

  send_metadata-SameStatus :
      (s : Session) (p : ℕ) (bk : Text) (w : World env) → SameStatus w (send_metadata s p bk w).1
  unfolding send_metadata send export_to_string_partial
  send_metadata-SameStatus s p bk w q = store-status p _ w q refl

  pub all_while-SameStatus :
      {A : Type 0} (f : A → World env → Result env) (xs : List A) (r : Bool) (w : World env)
      → ((x : A) (v : World env) → SameStatus v (f x v).1)
      → SameStatus w (all_while f xs (r, w)).1
  unfolding all_while
  all_while-SameStatus f [] r w h q = refl
  all_while-SameStatus f (x ∷ xs) true w h q =
      all_while-SameStatus f xs (f x w).0 (f x w).1 h q ∙ h x w q
  all_while-SameStatus f (x ∷ xs) false w h q = all_while-SameStatus f xs false w h q

  pub update-SameStatus :
      (s : Session) (p : ℕ) (w : World env) → SameStatus w (update_metadata_to_bookkeeper s p w).1
  unfolding update_metadata_to_bookkeeper
  update-SameStatus s p w =
      all_while-SameStatus (send_metadata s p) s.connections.bookkeepers_conn true w
        (send_metadata-SameStatus s p)

  pub updates-SameStatus :
      (s : Session) (w : World env) → SameStatus w (update_metadatas_to_bookkeeper s w).1
  unfolding update_metadatas_to_bookkeeper send_group send
  updates-SameStatus s w q =
      let groups = all_while (send_group s) s.connections.bookkeepers_conn (true, w) in
      all_while-SameStatus (update_metadata_to_bookkeeper s) s.transfer_options.transfers_meta
        groups.0 groups.1 (update-SameStatus s) q
      ∙ all_while-SameStatus (send_group s) s.connections.bookkeepers_conn true w (λ bk v r. refl) q

  clients-SameStatus :
      (s : Session) (t : NotificationType) (content : Text) (cs : List Text) (r : Bool)
      (w : World env)
      → SameStatus w (send_to_clients s t content cs (r, w)).1
  unfolding send_to_clients
  clients-SameStatus s t content [] r w q = refl
  clients-SameStatus s t content (c ∷ cs) r w q = clients-SameStatus s t content cs _ _ q

  pub targets-SameStatus :
      (s : Session) (t : NotificationType) (content : Text) (w : World env)
      → SameStatus w (send_notification_to_targets s t content w).1
  unfolding send_notification_to_targets
  targets-SameStatus s t content w = clients-SameStatus s t content s.target_clients true w
