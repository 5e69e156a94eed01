-- ===== src/Bookkeeper/Invariant.antt =====
-- What the messages that the bookkeeper handles keep true of it (src/bookkeeper/bookkeeper.cpp).
use snbmodules.Common.{
  ◌∙◌, erase, text_eq→eq, Bool, refl, ◌≡◌, sym, Option, none, some, List, [], ◌∷◌, Text, text,
  Bool-cases, inl, inr, >>=-eq-some, arith, text_eq, lookup, lookup-erase,
}
use mathlib.Core.Option.{some_inj}
use mathlib.Core.Path.{ap, subst}
use snbmodules.Enums.NotificationType.{
  NotificationType, string_to_notification, start_transfer, connection_request, new_transfer,
  update_request, transfer_metadata, transfer_error, group_metadata, pause_transfer,
  resume_transfer, cancel_transfer,
}
use snbmodules.Notification.Interface.{NotificationData}
use snbmodules.Group.Metadata.{GroupMetadata}
use snbmodules.Group.Import.{load_group}
use snbmodules.Bookkeeper.State.{Issue, Surroundings, Bookkeeper, touch}
use snbmodules.Bookkeeper.Operations.{warn}
use snbmodules.Bookkeeper.Messages.{
  with_known, add_update_grp_transfer, add_client, take_file, take_group, act,
  action_on_receive_notification, handle_all, misdirected,
}
use snbmodules.Bookkeeper.Evolution.{
  GroupStep, still, told, untouched, Evolves, BookInv, Evolves-BookInv,
}
use snbmodules.Bookkeeper.Storing.{lookup_self, lookup_other, touch-ListStep}
use snbmodules.Bookkeeper.Files.{add_update_transfer-Evolves}
use snbmodules.Group.Loading.{load_group-empty}

with_known-GroupStep :
    (b b' : Bookkeeper) (g : GroupMetadata) (x : Option GroupMetadata)
    → g.transfers_meta ≡ []
    → GroupStep b b' g.group_id x (some (with_known x g))
unfolding with_known
with_known-GroupStep b b' g none e = told none g refl e
with_known-GroupStep b b' g (some old) e = told (some old) (with_known (some old) g) refl refl

-- The group's entry is replaced.
add_update_grp_transfer-Evolves :
    (g : GroupMetadata) (client : Text) (b : Bookkeeper)
    → g.transfers_meta ≡ []
    → Evolves b (add_update_grp_transfer g (add_client g.group_id client b))
unfolding add_update_grp_transfer add_client
add_update_grp_transfer-Evolves g client b e =
    let b' : Bookkeeper = add_update_grp_transfer g (add_client g.group_id client b) in
    let new = with_known (lookup g.group_id b.grp_transfers) g in
    let gs = b.grp_transfers in
    record {
      grows = omega arith;
      ids = λ q h. refl;
      groups = λ k. elim (Bool-cases (text_eq g.group_id k)) [
        | inl s ↦
            subst (λ x. GroupStep b b' x (lookup x gs) (lookup x b'.grp_transfers))
              (text_eq→eq g.group_id k s)
              (subst (λ x. GroupStep b b' g.group_id (lookup g.group_id gs) x)
                (sym (lookup_self g.group_id new (erase g.group_id gs)))
                (with_known-GroupStep b b' g (lookup g.group_id gs) e))
        | inr s ↦
            subst (λ x. GroupStep b b' k (lookup k gs) x)
              (sym (
                lookup_other g.group_id k new (erase g.group_id gs) s
                ∙ lookup-erase g.group_id k gs
                ∙ rw s refl))
              (still (lookup k gs))
      ];
      lists = λ k. untouched (lookup k b.transfers);
    }

module _ (env : Surroundings) where
  take_group-Evolves :
      (notif : NotificationData) (b b' : Bookkeeper)
      → take_group env notif b ≡ some b'
      → Evolves b b'
  unfolding take_group
  take_group-Evolves notif b b' e =
      let (g, p, r) = >>=-eq-some (load_group env.reader notif.data_text) _ e in
      subst (λ x. Evolves b x) (some_inj.0 r)
        (add_update_grp_transfer-Evolves g notif.source_id b
          (load_group-empty env.reader notif.data_text g p))

  touched-Evolves :
      (client : Text) (b : Bookkeeper)
      → Evolves b (record b { transfers = touch client b.transfers })
  touched-Evolves client b = record {
    grows = omega arith;
    ids = λ q h. refl;
    groups = λ k. still (lookup k b.grp_transfers);
    lists = λ k. touch-ListStep b _ client k b.transfers;
  }

  take_file-Evolves :
      (notif : NotificationData) (b b' : Bookkeeper)
      → BookInv b
      → take_file env notif b ≡ some b'
      → Evolves b b'
  unfolding take_file
  take_file-Evolves notif b b' v = elim (Bool-cases (text_eq notif.data_text (text "end"))) [
    | inl h ↦
        rw h (λ e. subst (λ x. Evolves b x) (some_inj.0 e) (touched-Evolves notif.source_id b))
    | inr h ↦ rw h (λ e. add_update_transfer-Evolves env notif.source_id notif.data_text b b' v e)
  ]

  warned-Evolves : (i : Issue) (b b' : Bookkeeper) → some (warn i b) ≡ some b' → Evolves b b'
  unfolding warn
  warned-Evolves i b b' e =
      subst (λ x. Evolves b x) (some_inj.0 e)
        (record {
          grows = omega arith;
          ids = λ q h. refl;
          groups = λ k. still (lookup k b.grp_transfers);
          lists = λ k. untouched (lookup k b.transfers);
        })

  act-Evolves :
      (t : NotificationType) (notif : NotificationData) (b b' : Bookkeeper)
      → BookInv b
      → act env t notif b ≡ some b'
      → Evolves b b'
  unfolding act
  act-Evolves transfer_metadata notif b b' v e = take_file-Evolves notif b b' v e
  act-Evolves transfer_error notif b b' v e = take_group-Evolves notif b b' e
  act-Evolves group_metadata notif b b' v e = take_group-Evolves notif b b' e
  act-Evolves connection_request notif b b' v e = warned-Evolves _ b b' e
  act-Evolves new_transfer notif b b' v e = warned-Evolves _ b b' e
  act-Evolves update_request notif b b' v e = warned-Evolves _ b b' e
  act-Evolves start_transfer notif b b' v e = warned-Evolves _ b b' e
  act-Evolves pause_transfer notif b b' v e = warned-Evolves _ b b' e
  act-Evolves resume_transfer notif b b' v e = warned-Evolves _ b b' e
  act-Evolves cancel_transfer notif b b' v e = warned-Evolves _ b b' e

  pub action-Evolves :
      (notif : NotificationData) (b b' : Bookkeeper) (r : Bool)
      → BookInv b
      → action_on_receive_notification env notif b ≡ some (r, b')
      → Evolves b b'
  unfolding action_on_receive_notification
  action-Evolves notif b b' r v = elim (Bool-cases (misdirected notif b)) [
    | inl h ↦ rw h (λ e. warned-Evolves _ b b' (ap some (ap (λ x. x.1) (some_inj.0 e))))
    | inr h ↦ rw h (λ e.
        let (t, _, e1) = >>=-eq-some (string_to_notification notif.notification) _ e in
        let (c, e2, e3) = >>=-eq-some (act env t notif b) _ e1 in
        subst (λ x. Evolves b x) (ap (λ x. x.1) (some_inj.0 e3)) (act-Evolves t notif b c v e2))
  ]

  -- Whatever messages the bookkeeper handles, it stays well formed: every group is stored under its
  -- own id, its files exist, bear its id and are held once each, and the files of a client's list
  -- exist and are listed once each.
  pub handle_all-BookInv :
      (notifs : List NotificationData) (b b' : Bookkeeper)
      → BookInv b
      → handle_all env notifs b ≡ some b'
      → BookInv b'
  unfolding handle_all
  handle_all-BookInv [] b b' v e = subst BookInv (some_inj.0 e) v
  handle_all-BookInv (notif ∷ notifs) b b' v e =
      let (r, e1, e2) = >>=-eq-some (action_on_receive_notification env notif b) _ e in
      handle_all-BookInv notifs r.1 b'
        (Evolves-BookInv b r.1 (action-Evolves notif b r.1 r.0 v e1) v) e2
