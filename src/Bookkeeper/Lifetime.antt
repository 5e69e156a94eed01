-- ===== src/Bookkeeper/Lifetime.antt =====
-- What the bookkeeper keeps while it works (do_work of src/bookkeeper/bookkeeper.cpp).
use snbmodules.Common.{
  ℕ, ◌≡◌, refl, ◌∙◌, sym, ap, Bool, true, false, ◌||◌, Option, none, some, List, [], ◌∷◌, Text, Map,
  lookup, Bool-cases, inl, inr, arith, >>=-eq-some, if◌then◌else◌, leb, ◌-◌, ◌/◌,
}
use mathlib.Core.Path.{subst}
use mathlib.Core.Option.{some_inj}
use snbmodules.Group.Metadata.{GroupMetadata, get_group_status}
use snbmodules.Notification.Interface.{NotificationData}
use snbmodules.Notification.Lookup.{lookups_connections}
use snbmodules.Bookkeeper.State.{Surroundings, Bookkeeper, is_dynamic, entry, touch}
use snbmodules.Bookkeeper.Operations.{
  send, request_connection_and_available_files, request_update_metadata, request_groups,
  request_group, request_sessions,
}
use snbmodules.Bookkeeper.Messages.{action_on_receive_notification}
use snbmodules.Bookkeeper.Evolution.{
  Evolves, BookInv, Evolves-BookInv, still, untouched, GroupStep, ListStep,
}
use snbmodules.Bookkeeper.Invariant.{action-Evolves}
use snbmodules.Bookkeeper.Memory.{Keeps, Evolves-Keeps, Keeps-refl, Keeps-trans}
use snbmodules.Bookkeeper.Work.{Round, request_clients, hear, listen, refresh, rounds, do_work}

-- The groups, the lists and the files are as they were.
abbrev Silent : Bookkeeper → Bookkeeper → Type 0
Silent b b' =
    (b'.grp_transfers ≡ b.grp_transfers)
    × (b'.transfers ≡ b.transfers)
    × (b'.heap ≡ b.heap)
    × (b'.next ≡ b.next)

Silent-trans : (a b c : Bookkeeper) → Silent a b → Silent b c → Silent a c
Silent-trans a b c (g, t, h, n) (g', t', h', n') = (g' ∙ g, t' ∙ t, h' ∙ h, n' ∙ n)

if-Silent : (c : Bool) (b m : Bookkeeper) → Silent b m → Silent b (if c then m else b)
if-Silent true b m h = h
if-Silent false b m h = (refl, refl, refl, refl)

Silent-Evolves : (b b' : Bookkeeper) → Silent b b' → Evolves b b'
Silent-Evolves b b' (g, t, h, n) = record {
  grows = omega (arith, n);
  ids = λ q below. ap (λ f. (f q).group_id) h;
  groups = λ k.
      subst (λ m. GroupStep b b' k (lookup k b.grp_transfers) (lookup k m)) (sym g)
        (still (lookup k b.grp_transfers));
  lists = λ k.
      subst (λ m. ListStep b b' (lookup k b.transfers) (lookup k m)) (sym t)
        (untouched (lookup k b.transfers));
}

-- What stays true, and what is not forgotten.
abbrev Lasts : Bookkeeper → Bookkeeper → Type 0
Lasts b b' = BookInv b' × Keeps b b'

Lasts-then : (a b c : Bookkeeper) → Lasts a b → (BookInv b → Lasts b c) → Lasts a c
Lasts-then a b c (v, k) f = let (w, l) = f v in (w, Keeps-trans a b c k l)

Evolves-Lasts : (b b' : Bookkeeper) → BookInv b → Evolves b b' → Lasts b b'
Evolves-Lasts b b' v e = (Evolves-BookInv b b' e v, Evolves-Keeps b b' e)

module _ (env : Surroundings) where
  request_clients-Silent : (cs : List Text) (b : Bookkeeper) → Silent b (request_clients env cs b)
  unfolding request_clients request_connection_and_available_files
  request_clients-Silent [] b = (refl, refl, refl, refl)
  request_clients-Silent (c ∷ cs) b =
      request_clients-Silent cs (request_connection_and_available_files env c b)

  request_sessions-Silent : (ss : List Text) (b : Bookkeeper) → Silent b (request_sessions env ss b)
  unfolding request_sessions send
  request_sessions-Silent [] b = (refl, refl, refl, refl)
  request_sessions-Silent (s ∷ ss) b = request_sessions-Silent ss _

  request_group-Silent : (g : GroupMetadata) (b : Bookkeeper) → Silent b (request_group env g b)
  unfolding request_group
  request_group-Silent g b =
      request_sessions-Silent (entry (lookup g.group_id b.clients_per_grp_transfer))
        (record b { clients_per_grp_transfer = touch g.group_id b.clients_per_grp_transfer })

  request_groups-Silent :
      (force : Bool) (gs : Map GroupMetadata) (b : Bookkeeper)
      → Silent b (request_groups env force gs b)
  unfolding request_groups
  request_groups-Silent force [] b = (refl, refl, refl, refl)
  request_groups-Silent force ((id, g) ∷ gs) b =
      let asks = is_dynamic (get_group_status b.heap g) || force in
      let mid : Bookkeeper = if asks then request_group env g b else b in
      Silent-trans b mid (request_groups env force gs mid)
        (if-Silent asks b (request_group env g b) (request_group-Silent g b))
        (request_groups-Silent force gs mid)

  refresh-Silent : (rate now point : ℕ) (b : Bookkeeper) → Silent b (refresh env rate now point b).1
  unfolding refresh request_update_metadata
  refresh-Silent rate now point b = elim (Bool-cases (leb rate ((now - point) / 1000))) [
    | inl k ↦ rw k (request_groups-Silent false b.grp_transfers b)
    | inr k ↦ rw k (refl, refl, refl, refl)
  ]

  hear-Lasts :
      (heard : Option NotificationData) (b b' : Bookkeeper)
      → BookInv b
      → hear env heard b ≡ some b'
      → Lasts b b'
  unfolding hear
  hear-Lasts none b b' v e = subst (Lasts b) (some_inj.0 e) (v, Keeps-refl b)
  hear-Lasts (some notif) b b' v e =
      let ((r, after), e1, e2) = >>=-eq-some (action_on_receive_notification env notif b) _ e in
      subst (Lasts b) (some_inj.0 e2)
        (Evolves-Lasts b after v (action-Evolves env notif b after r v e1))

  listen-Lasts :
      (conns : List Text) (heard : Option NotificationData) (b b' : Bookkeeper)
      → BookInv b
      → listen env conns heard b ≡ some b'
      → Lasts b b'
  unfolding listen
  listen-Lasts [] heard b b' v e = cc
  listen-Lasts (c ∷ cs) heard b b' v e = hear-Lasts heard b b' v e

  rounds-Lasts :
      (rate : ℕ) (rs : List Round) (point : ℕ) (b b' : Bookkeeper)
      → BookInv b
      → rounds env rate rs point b ≡ some b'
      → Lasts b b'
  unfolding rounds
  rounds-Lasts rate [] point b b' v e = subst (Lasts b) (some_inj.0 e) (v, Keeps-refl b)
  rounds-Lasts rate (r ∷ rs) point b b' v e =
      let found : Bookkeeper = record b {
        connections = lookups_connections r.found b.connections;
      } in
      let (after, e1, e2) =
        >>=-eq-some (listen env found.connections.bookkeepers_conn r.heard found) _ e in
      let fresh : Bookkeeper = (refresh env rate r.now point after).1 in
      Lasts-then b found b'
        (Evolves-Lasts b found v (Silent-Evolves b found (refl, refl, refl, refl)))
        (λ v0.
          Lasts-then found after b'
            (listen-Lasts found.connections.bookkeepers_conn r.heard found after v0 e1)
            (λ v1.
              Lasts-then after fresh b'
                (Evolves-Lasts after fresh v1
                  (Silent-Evolves after fresh (refresh-Silent rate r.now point after)))
                (λ v2. rounds-Lasts rate rs (refresh env rate r.now point after).0 fresh b' v2 e2)))

  -- However long the bookkeeper works, whatever it hears and whichever connections it finds: it stays well formed
  -- (every group is stored under its own id, its files exist, bear its id and are held once each, and the files of
  -- a client's list exist and are listed once each), and it forgets no group, no file of a group and no file of a
  -- client's list.
  pub do_work-Lasts :
      (rate point : ℕ) (rs : List Round) (b b' : Bookkeeper)
      → BookInv b
      → do_work env rate point rs b ≡ some b'
      → BookInv b' × Keeps b b'
  unfolding do_work
  do_work-Lasts rate point rs b b' v e =
      let asked : Bookkeeper = request_clients env b.connections.clients_conn b in
      Lasts-then b asked b'
        (Evolves-Lasts b asked v
          (Silent-Evolves b asked (request_clients-Silent b.connections.clients_conn b)))
        (λ w. rounds-Lasts rate rs point asked b' w e)
