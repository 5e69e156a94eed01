-- ===== src/Client/Steps.antt =====
-- What the parts of a client's operations do to the states of files (src/client/transfer_client.cpp).
use snbmodules.Common.{
  not, ◌&&◌, text_eq, member, ℕ, ◌≡◌, ◌≤◌, ◌<◌, refl, sym, ap, ◌∙◌, Bool, false, Option, none, some,
  [], Text, TextSet, arith, Bool-cases, inl, inr, >>=-eq-some, ◌==◌, get_elem?, if◌then◌else◌,
}
use mathlib.Core.Option.{some_inj}
use mathlib.Core.Path.{subst}
use snbmodules.IpFormat.Address.{is_default, IpFormat}
use snbmodules.Metadata.Transfer.{TransferMetadata, set_group_id}
use snbmodules.Group.Metadata.{Heap, GroupMetadata, store, Added, add_file, refuse, first_file}
use snbmodules.Session.World.{
  SessionType, Session, World, update_metadata_to_bookkeeper, update_metadatas_to_bookkeeper,
}
use snbmodules.Session.Unchanged.{update-SameStatus, updates-SameStatus}
use snbmodules.Session.Transitions.{Moves, stay, Moves-trans}
use snbmodules.Session.Moves.{Advances}
use snbmodules.Client.State.{ClientEnv, ClientSession, Client, warn, world_of, behind}
use snbmodules.Client.Sessions.{
  is_bittorrent, open_session, create_session, at_session, operate, session_add_file,
}
use snbmodules.Client.Sharing.{allocate, send_file, send}
use snbmodules.Metadata.Json.{export_to_string_partial}

-- The status of every file stays.
abbrev pub SameStates : Heap → Heap → Type 0
SameStates h h' = (q : ℕ) → (h' q).status ≡ (h q).status

-- Opening a transfer interface leaves the states of the files to the session.
abbrev pub OpensQuietly : ClientEnv → Type 0
OpensQuietly e = (s : Session) (ip : IpFormat) (h : Heap) → SameStates h (e.open_interface s ip h).1

pub store-SameStates :
    (p : ℕ) (m : TransferMetadata) (h : Heap) → m.status ≡ (h p).status → SameStates h (store p m h)
unfolding store
store-SameStates p m h e q = elim (Bool-cases (p == q)) [
  | inl k ↦ rw k (e ∙ ap (λ r. (h r).status) (ground arith))
  | inr k ↦ rw k refl
]

refuse-SameStates :
    (h : Heap) (g : GroupMetadata) (l : Option (ℕ × Bool)) (a : Added)
    → refuse h g l ≡ some a
    → SameStates h a.heap
unfolding refuse
refuse-SameStates h g none a e = cc
refuse-SameStates h g (some l) a e = λ q. ap (λ x. (x.heap q).status) (sym (some_inj.0 e))

pub add_file-SameStates :
    (p : ℕ) (h : Heap) (g : GroupMetadata) (a : Added)
    → add_file p h g ≡ some a
    → SameStates h a.heap
unfolding add_file set_group_id
add_file-SameStates p h g a = elim (Bool-cases (member (h p).file_path g.expected_files)) [
  | inl m ↦ rw m (λ r q.
      ap (λ x. (x.heap q).status) (sym (some_inj.0 r))
      ∙ store-SameStates p (set_group_id g.group_id (h p)) h refl q)
  | inr m ↦ elim (Bool-cases (text_eq (h p).group_id g.group_id)) [
    | inl n ↦ rw (m, n) (λ r q. ap (λ x. (x.heap q).status) (sym (some_inj.0 r)))
    | inr n ↦ rw (m, n) (λ r. refuse-SameStates h g (first_file g.transfers_meta) a r)
  ]
]

module _ {e : ClientEnv} where
  -- The files that were there go along the moves of their states.
  abbrev pub Advanced : Client e → Client e → Type 0
  Advanced c d =
      (c.next ≤ d.next) × ((q : ℕ) → q < c.next → Moves (c.heap q).status (d.heap q).status)

  pub Advanced-refl : (c : Client e) → Advanced c c
  Advanced-refl c = (omega arith, λ q h. stay)

  pub Advanced-trans : (b c d : Client e) → Advanced b c → Advanced c d → Advanced b d
  Advanced-trans b c d h k =
      (omega (arith, h.0, k.0), λ q l. Moves-trans (h.1 q l) (k.1 q (omega (arith, l, h.0))))

  pub SameStates-Advanced :
      (c d : Client e) → c.next ≤ d.next → SameStates c.heap d.heap → Advanced c d
  SameStates-Advanced c d n h = (n, λ q l. subst (λ b. Moves (c.heap q).status b) (sym (h q)) stay)

  pub operate-Advanced :
      (f : World e.env → World e.env) (s : ClientSession e) (c : Client e)
      → ((w : World e.env) → Advances w (f w))
      → Advanced c (operate f s c).1
  operate-Advanced f s c h = (omega arith, λ q l. h (world_of s c) q)

  pub at_session-Advanced :
      (f : ClientSession e → Client e → Option (ClientSession e × Client e)) (i : ℕ)
      (c d : Client e)
      → ((s : ClientSession e) (r : ClientSession e × Client e) → f s c ≡ some r → Advanced c r.1)
      → at_session f i c ≡ some d
      → Advanced c d
  unfolding at_session
  at_session-Advanced f i c d h r =
      let (s, _, r1) = >>=-eq-some (get_elem? c.sessions i) _ r in
      let (x, r2, r3) = >>=-eq-some (f s c) _ r1 in
      subst (λ y. Advanced c y) (some_inj.0 r3) (h s x r2)

  pub allocate-Advanced : (m : TransferMetadata) (c : Client e) → Advanced c (allocate m c)
  unfolding store
  allocate-Advanced m c = (
    omega arith,
    λ q l. elim (Bool-cases (c.next == q)) [
      | inl k ↦ absurd (ground (arith, k, l))
      | inr k ↦ rw k stay
    ],
  )

  pub session_add_file-Advanced :
      (p : ℕ) (s : ClientSession e) (c : Client e) (r : ClientSession e × Client e)
      → session_add_file p s c ≡ some r
      → Advanced c r.1
  unfolding session_add_file warn
  session_add_file-Advanced p s c r h =
      let (a, h1, h2) = >>=-eq-some (add_file p c.heap s.session.transfer_options) _ h in
      let joined : ClientSession e = record s {
        session = record s.session { transfer_options = a.group };
      } in
      let told =
        operate (λ w. (update_metadata_to_bookkeeper joined.session a.file w).1) joined
          (record c { heap = a.heap }) in
      let base : Advanced c told.1 = SameStates-Advanced c told.1 (omega arith) (λ q.
        update-SameStatus joined.session a.file (world_of joined (record c { heap = a.heap })) q
        ∙ add_file-SameStates p c.heap s.session.transfer_options a h1 q) in
      elim (Bool-cases a.reported) [
        | inl k ↦
            subst (λ (y : ClientSession e × Client e). Advanced c y.1) (some_inj.0 (rw k at h2))
              base
        | inr k ↦
            subst (λ (y : ClientSession e × Client e). Advanced c y.1) (some_inj.0 (rw k at h2))
              base
      ]

  pub open_session-Advanced :
      (s : Session) (ip : IpFormat) (c : Client e)
      → OpensQuietly e
      → Advanced c (open_session s ip c)
  unfolding open_session warn
  open_session-Advanced s ip c quiet =
      let opened = e.open_interface s ip c.heap in
      let made : ClientSession e = record { session = s; ip = ip; interface = opened.0 } in
      elim (Bool-cases (
        is_bittorrent s.transfer_options.protocol
        && not (e.has_port s.transfer_options.protocol_options))) [
          | inl k ↦ rw k (Advanced-refl c)
          | inr k ↦
              let w =
                (update_metadatas_to_bookkeeper s
                  (world_of made (record c { heap = opened.1 }))).1 in
              rw k (
                SameStates-Advanced c (behind w c) (omega arith) (λ q.
                  updates-SameStatus s (world_of made (record c { heap = opened.1 })) q
                  ∙ quiet s ip c.heap q))
        ]

  pub create_session-Advanced :
      (g : GroupMetadata) (type : SessionType) (id work_dir : Text) (ip : IpFormat)
      (dests : TextSet) (c : Client e)
      → OpensQuietly e
      → Advanced c (create_session g type id work_dir ip dests c)
  unfolding create_session
  create_session-Advanced g type id work_dir ip dests c quiet =
      let made_session : Session = record {
        session_type = type;
        session_id = id;
        connections = c.connections;
        transfer_options = g;
        work_dir = work_dir;
        target_clients = [];
      } in
      open_session-Advanced made_session (if is_default ip then c.listening_ip else ip) c quiet

  pub send_file-Advanced :
      (dst id_conn : Text) (p : ℕ) (c : Client e) → Advanced c (send_file dst id_conn p c)
  unfolding send_file send export_to_string_partial
  send_file-Advanced dst id_conn p c =
      let cleared : TransferMetadata = record (c.heap p) { modified_fields = λ f. false } in
      SameStates-Advanced c (record c { heap = store p cleared c.heap }) (omega arith)
        (store-SameStates p cleared c.heap refl)
