-- ===== src/Bookkeeper/Requests.antt =====
-- What request_update_metadata sends (src/bookkeeper/bookkeeper.cpp).
use snbmodules.Common.{
  false, true, ℕ, ◌≡◌, ◌<◌, refl, sym, ap, ◌∙◌, Bool, ◌||◌, List, [], ◌∷◌, ◌++◌, Text, text_eq,
  text_eq→eq, Bool-cases, inl, inr, Map, lookup, TextSet, if◌then◌else◌,
}
use mathlib.Core.Path.{subst}
use snbmodules.Enums.NotificationType.{update_request}
use snbmodules.Enums.Status.{
  Status, preparing, error, success_upload, success_download, finished, cancelled, paused, waiting,
  checking, hashing, uploading, downloading,
}
use snbmodules.Notification.Interface.{Connections, NotificationData, Attempt, notification_of}
use snbmodules.Notification.Sending.{Sent, send_notification-Sent}
use snbmodules.Group.Metadata.{Heap, GroupMetadata, get_group_status}
use snbmodules.Bookkeeper.State.{
  Surroundings, Bookkeeper, entry, touch, get_client_name_from_session_name, is_dynamic,
}
use snbmodules.Bookkeeper.Operations.{
  send, request_sessions, request_group, request_groups, request_update_metadata,
}
use snbmodules.Bookkeeper.Storing.{lookup_self, lookup_other}
use snbmodules.Enums.Status.{Status}

-- One send for each text, in order, and nothing else; `via` gives the name whose connection is taken.
abbrev pub SentAll :
    (ℕ → Bool)
    → Connections
    → (Text → NotificationData)
    → (Text → Text)
    → List Text
    → List Attempt
    → List Attempt
    → Type 0
SentAll delivers c f via [] log log' = log' ≡ log
SentAll delivers c f via (x ∷ xs) log log' =
    (r : Bool) × (mid : List Attempt) × Sent delivers c (f x) (via x) c.max_tries r log mid
    × SentAll delivers c f via xs mid log'

SentAll-append :
    (delivers : ℕ → Bool) (c : Connections) (f : Text → NotificationData) (via : Text → Text)
    (xs ys : List Text) (log mid log' : List Attempt)
    → SentAll delivers c f via xs log mid
    → SentAll delivers c f via ys mid log'
    → SentAll delivers c f via (xs ++ ys) log log'
SentAll-append d c f via [] ys log mid log' h k = subst (λ l. SentAll d c f via ys l log') h k
SentAll-append d c f via (x ∷ xs) ys log mid log' (r, m, s, h) k =
    (r, m, s, SentAll-append d c f via xs ys m mid log' h k)

-- The states of a group whose files are on the move or being worked on.
abbrev pub under_way : Status → Bool
under_way downloading = true
under_way uploading = true
under_way checking = true
under_way hashing = true
under_way s = false

is_dynamic_lem : (s : Status) → is_dynamic s ≡ under_way s
unfolding is_dynamic
is_dynamic_lem preparing = refl
is_dynamic_lem error = refl
is_dynamic_lem success_upload = refl
is_dynamic_lem success_download = refl
is_dynamic_lem finished = refl
is_dynamic_lem cancelled = refl
is_dynamic_lem paused = refl
is_dynamic_lem waiting = refl
is_dynamic_lem hashing = refl
is_dynamic_lem checking = refl
is_dynamic_lem downloading = refl
is_dynamic_lem uploading = refl

-- The sessions of the groups that are to be asked, in the order of the groups.
abbrev pub sessions_of : Heap → Map TextSet → Bool → Map GroupMetadata → List Text
sessions_of heap clients force [] = []
sessions_of heap clients force ((id, g) ∷ gs) =
    (if under_way (get_group_status heap g) || force then entry (lookup g.group_id clients) else [])
    ++ sessions_of heap clients force gs

-- The same clients in every group.
abbrev pub SameClients : Map TextSet → Map TextSet → Type 0
SameClients m n = (k : Text) → entry (lookup k n) ≡ entry (lookup k m)

touch-SameClients : (c : Text) (m : Map TextSet) → SameClients m (touch c m)
unfolding touch entry
touch-SameClients c m k = elim (Bool-cases (text_eq c k)) [
  | inl e ↦
      subst (λ j. entry (lookup j (touch c m)) ≡ entry (lookup j m)) (text_eq→eq c k e)
        (ap entry (lookup_self c (entry (lookup c m)) m))
  | inr e ↦ ap entry (lookup_other c k (entry (lookup c m)) m e)
]

sessions_of-SameClients :
    (heap : Heap) (m n : Map TextSet) (force : Bool) (gs : Map GroupMetadata)
    → SameClients m n
    → sessions_of heap n force gs ≡ sessions_of heap m force gs
sessions_of-SameClients heap m n force [] h = refl
sessions_of-SameClients heap m n force ((id, g) ∷ gs) h =
    rw (h g.group_id, sessions_of-SameClients heap m n force gs h) refl

-- The request that a session gets.
abbrev pub request_to : Text → Text → NotificationData
request_to bookkeeper_id session = notification_of update_request bookkeeper_id session []

-- A state that differs in its log, and in entries that are made empty.
pub record Asked (delivers : ℕ → Bool) (xs : List Text) (b b' : Bookkeeper) : Type 0 where
  pub log : List Attempt
  pub clients : Map TextSet
  pub state : b' ≡ record b { log = log; clients_per_grp_transfer = clients }
  pub same : SameClients b.clients_per_grp_transfer clients
  pub sent :
      SentAll delivers b.connections
        (request_to b.bookkeeper_id)
        get_client_name_from_session_name
        xs
        b.log
        log

Asked-trans :
    (v : ℕ → Bool) (xs ys : List Text) (b c d : Bookkeeper)
    → Asked v xs b c
    → Asked v ys c d
    → Asked v (xs ++ ys) b d
Asked-trans v xs ys b c d h =
    subst (λ e. Asked v ys e d → Asked v (xs ++ ys) b d) (sym h.state)
      (λ k. record {
        log = k.log;
        clients = k.clients;
        state = k.state;
        same = λ j. k.same j ∙ h.same j;
        sent =
            SentAll-append v b.connections (request_to b.bookkeeper_id)
              get_client_name_from_session_name xs ys b.log h.log k.log h.sent k.sent;
      })

Asked-nothing : (v : ℕ → Bool) (b : Bookkeeper) → Asked v [] b b
Asked-nothing v b = record {
  log = b.log;
  clients = b.clients_per_grp_transfer;
  state = refl;
  same = λ k. refl;
  sent = refl;
}

module _ (env : Surroundings) where
  request_sessions-Asked :
      (xs : List Text) (b : Bookkeeper)
      → 0 < b.connections.max_tries
      → Asked env.delivers xs b (request_sessions env xs b)
  unfolding request_sessions send
  request_sessions-Asked [] b h = Asked-nothing env.delivers b
  request_sessions-Asked (x ∷ xs) b h =
      let b1 : Bookkeeper = send env update_request x (get_client_name_from_session_name x) b in
      let a = request_sessions-Asked xs b1 h in
      record {
        log = a.log;
        clients = a.clients;
        state = a.state;
        same = a.same;
        sent = (
          _,
          b1.log,
          send_notification-Sent env.delivers b.connections update_request b.bookkeeper_id x
              (get_client_name_from_session_name x) [] b.log h,
          a.sent,
        );
      }

  request_group-Asked :
      (g : GroupMetadata) (b : Bookkeeper)
      → 0 < b.connections.max_tries
      → Asked env.delivers
          (entry (lookup g.group_id b.clients_per_grp_transfer))
          b
          (request_group env g b)
  unfolding request_group
  request_group-Asked g b h =
      let cs = touch g.group_id b.clients_per_grp_transfer in
      let a =
        request_sessions-Asked (entry (lookup g.group_id b.clients_per_grp_transfer))
          (record b { clients_per_grp_transfer = cs }) h in
      record {
        log = a.log;
        clients = a.clients;
        state = a.state;
        same = λ k. a.same k ∙ touch-SameClients g.group_id b.clients_per_grp_transfer k;
        sent = a.sent;
      }

  request_groups-Asked :
      (force : Bool) (gs : Map GroupMetadata) (b : Bookkeeper)
      → 0 < b.connections.max_tries
      → Asked env.delivers
          (sessions_of b.heap b.clients_per_grp_transfer force gs)
          b
          (request_groups env force gs b)
  unfolding request_groups
  request_groups-Asked force [] b h = Asked-nothing env.delivers b
  request_groups-Asked force ((id, g) ∷ gs) b h =
      elim (Bool-cases (under_way (get_group_status b.heap g) || force)) [
        | inr off ↦
            rw (is_dynamic_lem (get_group_status b.heap g), off) (request_groups-Asked force gs b h)
        | inl on ↦
            let one = request_group-Asked g b h in
            let rest : Asked env.delivers (sessions_of b.heap b.clients_per_grp_transfer force gs)
                (request_group env g b) (request_groups env force gs (request_group env g b)) =
              subst
                (λ c.
                  Asked env.delivers (sessions_of b.heap b.clients_per_grp_transfer force gs) c
                    (request_groups env force gs c))
                (sym one.state)
                (subst
                  (λ xs.
                    Asked env.delivers xs
                      (record b { log = one.log; clients_per_grp_transfer = one.clients })
                      (request_groups env force gs
                        (record b { log = one.log; clients_per_grp_transfer = one.clients })))
                  (sessions_of-SameClients b.heap b.clients_per_grp_transfer one.clients force gs
                    one.same)
                  (request_groups-Asked force gs
                    (record b { log = one.log; clients_per_grp_transfer = one.clients }) h)) in
            rw (is_dynamic_lem (get_group_status b.heap g), on)
              (Asked-trans env.delivers _ _ b (request_group env g b) _ one rest)
      ]

  -- When at least one try is allowed, request_update_metadata sends an update request to each session of
  -- each group that is being downloaded, uploaded, checked or hashed, or of every group when it is forced, in
  -- order and to nobody else, over the connection of the session's client; beyond the log it changes nothing but clients' entries that it makes, empty.
  pub request_update_metadata-Asked :
      (force : Bool) (b : Bookkeeper)
      → 0 < b.connections.max_tries
      → Asked env.delivers
          (sessions_of b.heap b.clients_per_grp_transfer force b.grp_transfers)
          b
          (request_update_metadata env force b)
  unfolding request_update_metadata
  request_update_metadata-Asked force b h = request_groups-Asked force b.grp_transfers b h
