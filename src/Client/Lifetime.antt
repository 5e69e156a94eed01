-- ===== src/Client/Lifetime.antt =====
-- What the client's loops do to its files (start and do_work of src/client/transfer_client.cpp).
use snbmodules.Common.{
  ◌≡◌, refl, sym, ap, Bool, false, Option, none, some, List, [], ◌∷◌, Text, Bool-cases, inl, inr,
  >>=-eq-some, text_eq, arith, ◌==◌, length,
}
use mathlib.Core.Path.{subst}
use mathlib.Core.Option.{some_inj}
use snbmodules.Session.Transitions.{Moves}
use snbmodules.Notification.Interface.{NotificationData}
use snbmodules.Notification.Lookup.{Found}
use snbmodules.Session.Transitions.{KeepsStatus}
use snbmodules.Client.State.{ClientEnv, Client, warn}
use snbmodules.Client.Connection.{get_my_conn, with_conn, warned_of_conn, find_my_conn}
use snbmodules.Client.Messages.{action_on_receive_notification}
use snbmodules.Client.Steps.{OpensQuietly, Advanced, Advanced-refl, Advanced-trans}
use snbmodules.Client.Advances.{action-Advanced}
use snbmodules.Client.Work.{Round, look_for, hear, start, do_work}

module _ {e : ClientEnv} where
  -- The files are as they were.
  abbrev Idle : Client e → Client e → Type 0
  Idle c d = (c.heap ≡ d.heap) × (c.next ≡ d.next)

  with_conn-Idle : (conn : Option Text) (c : Client e) → Idle c (with_conn conn c)
  unfolding with_conn
  with_conn-Idle none c = (refl, refl)
  with_conn-Idle (some conn) c = (refl, refl)

  warned_of_conn-Idle : (b c : Client e) → Idle b c → Idle b (warned_of_conn c)
  unfolding warned_of_conn warn
  warned_of_conn-Idle b c h = elim (Bool-cases (text_eq c.my_conn [])) [
    | inl k ↦ rw k h
    | inr k ↦ rw k h
  ]

  get_my_conn-Idle : (c : Client e) → Idle c (get_my_conn c).1
  unfolding get_my_conn
  get_my_conn-Idle c = elim (Bool-cases (text_eq c.my_conn [])) [
    | inl k ↦ rw k (
        let found : Client e = with_conn (find_my_conn c.client_id c.connections.clients_conn) c in
        warned_of_conn-Idle c found
          (with_conn-Idle (find_my_conn c.client_id c.connections.clients_conn) c))
    | inr k ↦ rw k (refl, refl)
  ]

  look_for-Idle : (found : Found) (c : Client e) → Idle c (look_for found c)
  unfolding look_for
  look_for-Idle found c = elim (Bool-cases (length c.connections.bookkeepers_conn == 0)) [
    | inl k ↦ rw k (refl, refl)
    | inr k ↦ rw k (refl, refl)
  ]

  Idle-Advanced : (c d f : Client e) → Idle c d → Advanced d f → Advanced c f
  Idle-Advanced c d f (same, n) (m, moves) = (
    omega (arith, m, n),
    λ q l.
        subst (λ x. Moves (x q).status (f.heap q).status) (sym same)
          (moves q (omega (arith, l, n))),
  )

module _ {e : ClientEnv} (k : KeepsStatus e.env.interface) (quiet : OpensQuietly e) where
  hear-Advanced :
      (heard : Option NotificationData) (c d : Client e) → hear heard c ≡ some d → Advanced c d
  unfolding hear
  hear-Advanced none c d h = subst (Advanced c) (some_inj.0 h) (Advanced-refl c)
  hear-Advanced (some notif) c d h =
      let ((r, after), h1, h2) = >>=-eq-some (action_on_receive_notification notif c) _ h in
      subst (Advanced c) (some_inj.0 h2) (action-Advanced k quiet notif c after r h1)

  -- Whatever the client hears after its start, it stops without success at the first silence, and by then
  -- the state of each file that was there at first has only gone along the moves of the state machine, when
  -- the transfer interfaces leave the states to the sessions.
  pub start-Advanced :
      (notifs : List NotificationData) (c d : Client e) (r : Bool)
      → start notifs c ≡ some (r, d)
      → (r ≡ false) × Advanced c d
  unfolding start
  start-Advanced [] c d r h =
      let e1 : some (false, (get_my_conn c).1) ≡ some (r, d) = h in
      (
        sym (ap (λ x. x.0) (some_inj.0 e1)),
        subst (Advanced c) (ap (λ x. x.1) (some_inj.0 e1)) (
            Idle-Advanced c (get_my_conn c).1 (get_my_conn c).1 (get_my_conn-Idle c)
              (Advanced-refl (get_my_conn c).1)),
      )
  start-Advanced (notif ∷ notifs) c d r h =
      let awake : Client e = (get_my_conn c).1 in
      let ((b, after), h1, h2) = >>=-eq-some (action_on_receive_notification notif awake) _ h in
      let (fails, rest) = start-Advanced notifs after d r h2 in
      (
        fails,
        Idle-Advanced c awake d (get_my_conn-Idle c)
            (Advanced-trans awake after d (action-Advanced k quiet notif awake after b h1) rest),
      )

  -- However long the client works, whatever it hears and whichever connections it finds, the state of each
  -- file that was there at first only goes along the moves of the state machine, when the transfer
  -- interfaces leave the states to the sessions.
  pub do_work-Advanced : (rs : List Round) (c d : Client e) → do_work rs c ≡ some d → Advanced c d
  unfolding do_work
  do_work-Advanced [] c d h = subst (Advanced c) (some_inj.0 h) (Advanced-refl c)
  do_work-Advanced (r ∷ rs) c d h =
      let looked : Client e = look_for r.found c in
      let awake : Client e = (get_my_conn looked).1 in
      let (after, h1, h2) = >>=-eq-some (hear r.heard awake) _ h in
      Idle-Advanced c looked d (look_for-Idle r.found c) (
        Idle-Advanced looked awake d (get_my_conn-Idle looked) (
          Advanced-trans awake after d (hear-Advanced r.heard awake after h1)
            (do_work-Advanced rs after d h2)))
