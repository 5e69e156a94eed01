-- ===== src/Notification/Lookup.antt =====
-- lookups_connections (include/snbmodules/notification_interface.hpp). What the connectivity service
-- answers to each of its two questions is an argument, nothing where it throws.
use snbmodules.Common.{
  ℕ, zero, suc, ◌+◌, ◌*◌, ◌≡◌, refl, ◌||◌, List, [], ◌∷◌, ◌++◌, Text, TextSet, member, set_insert,
  member-set_insert, length, length-append, arith,
}
use snbmodules.Notification.Interface.{Connections}

pub record Found : Type 0 where
  pub bookkeepers : List Text
  pub clients : List Text

-- `m_clients_conn.insert` of each.
unfoldable pub insert_all : List Text → TextSet → TextSet
insert_all [] s = s
insert_all (c ∷ cs) s = insert_all cs (set_insert c s)

unfoldable pub lookups_connections : Found → Connections → Connections
unfolding insert_all
lookups_connections found c = record c {
  bookkeepers_conn = c.bookkeepers_conn ++ found.bookkeepers;
  clients_conn = insert_all found.clients c.clients_conn;
}

-- As many lookups that find the same.
unfoldable pub lookups : ℕ → Found → Connections → Connections
unfolding lookups_connections
lookups zero found c = c
lookups (suc n) found c = lookups n found (lookups_connections found c)

member-insert_all :
    (cs : List Text) (j : Text) (s : TextSet)
    → member j (insert_all cs s) ≡ (member j cs || member j s)
unfolding insert_all member
member-insert_all [] j s = refl
member-insert_all (c ∷ cs) j s =
    ground (arith, member-insert_all cs j (set_insert c s), member-set_insert c j s)

bookkeepers-length :
    (n : ℕ) (found : Found) (c : Connections)
    → length (lookups n found c).bookkeepers_conn
      ≡ length c.bookkeepers_conn + n * length found.bookkeepers
unfolding lookups lookups_connections
bookkeepers-length zero found c = omega arith
bookkeepers-length (suc n) found c = omega (
  arith,
  bookkeepers-length n found (lookups_connections found c),
  length-append c.bookkeepers_conn found.bookkeepers,
)

member-clients :
    (n : ℕ) (found : Found) (c : Connections) (j : Text)
    → member j (lookups (suc n) found c).clients_conn
      ≡ (member j found.clients || member j c.clients_conn)
unfolding lookups lookups_connections
member-clients zero found c j = member-insert_all found.clients j c.clients_conn
member-clients (suc n) found c j = ground (
  arith,
  member-clients n found (lookups_connections found c) j,
  member-insert_all found.clients j c.clients_conn,
)

-- Lookups that find the same connections again and again add all of the bookkeepers to the list every time,
-- and the clients only once: they are those that are found and those that were known.
pub lookups-length :
    (n : ℕ) (found : Found) (c : Connections)
    → (length (lookups n found c).bookkeepers_conn
        ≡ length c.bookkeepers_conn + n * length found.bookkeepers)
      × ((j : Text)
          → member j (lookups (suc n) found c).clients_conn
            ≡ (member j found.clients || member j c.clients_conn))
lookups-length n found c = (bookkeepers-length n found c, member-clients n found c)
