-- ===== src/Bookkeeper/Files.antt =====
-- add_update_transfer of src/bookkeeper/bookkeeper.cpp evolves what the bookkeeper knows.
use snbmodules.Common.{
  text_eq→eq, All-map, refl, inr, inl, Bool-cases, insert, text_eq, if◌then◌else◌, ◌<◌, ℤ, ℕ, suc,
  ◌≡◌, sym, ◌∙◌, Option, some, [], arith, Text, >>=-eq-some, lookup,
}
use mathlib.Core.Option.{none, some_inj}
use mathlib.Core.Path.{ap, subst}
use snbmodules.Metadata.Transfer.{TransferMetadata}
use snbmodules.Metadata.Json.{Object, from_string, from_object, key_group_id}
use snbmodules.Metadata.Import.{load_metadata, blank_metadata, named_group, from_object-group_id}
use snbmodules.Bookkeeper.State.{find_same, entry, Surroundings, Bookkeeper, touch}
use snbmodules.Bookkeeper.Operations.{
  push_transfer, place_transfer, join_group, insert_transfer, add_update_transfer, update_transfer,
}
use snbmodules.Bookkeeper.Evolution.{joined, GroupStep, Fresh, HeldInv, BookInv, still, Evolves}
use snbmodules.Bookkeeper.Storing.{
  lookup_other, lookup_self, store_self, find_same-group_id, store-old, push-ListStep,
  touch-ListStep, reread-group_id, store-id,
}
use snbmodules.Group.Metadata.{add_file, Added, store, GroupMetadata}
use snbmodules.Group.Joining.{add_file-Joins}

-- One text, read twice: into a blank object, and into one that bears the same group id.
reread :
    (parse : Text → Option Object) (cwd : Text) (now later : ℤ) (t : Text)
    (file m new : TransferMetadata)
    → load_metadata parse cwd now t ≡ some file
    → m.group_id ≡ file.group_id
    → from_string parse cwd later t m ≡ some new
    → new.group_id ≡ m.group_id
unfolding load_metadata from_string
reread parse cwd now later t file m new e same r =
    let (j, e1, e2) = >>=-eq-some (parse t) (λ j. from_object cwd now j blank_metadata) e in
    let (i, r1, r2) = >>=-eq-some (parse t) (λ j. from_object cwd later j m) r in
    let one : j ≡ i = some_inj.0 (sym e1 ∙ r1) in
    reread-group_id (i key_group_id) file m new
      (subst (λ k. file.group_id ≡ named_group (k key_group_id) []) one
        (from_object-group_id cwd now j blank_metadata file e2))
      same (from_object-group_id cwd later i m new r2)

module _ (env : Surroundings) where
  -- The state with which a text that is read goes on.
  abbrev reading_for : Text → Bookkeeper → Bookkeeper
  reading_for client_id b = record b {
    instant = suc b.instant;
    transfers = touch client_id b.transfers;
  }

  update_transfer-Evolves :
      (p : ℕ) (client_id t : Text) (file : TransferMetadata) (b b' : Bookkeeper)
      → load_metadata env.parse env.reader.cwd (env.clock b.instant) t ≡ some file
      → (b.heap p).group_id ≡ file.group_id
      → update_transfer env p t (reading_for client_id b) ≡ some b'
      → Evolves b b'
  unfolding update_transfer
  update_transfer-Evolves p client_id t file b b' e same r =
      let (m, r1, r2) =
        >>=-eq-some (from_string env.parse env.reader.cwd (env.clock (suc b.instant)) t (b.heap p))
          _ r in
      let kept : m.group_id ≡ (b.heap p).group_id =
        reread env.parse env.reader.cwd (env.clock b.instant) (env.clock (suc b.instant)) t file
          (b.heap p) m e same r1 in
      subst (λ x. Evolves b x) (some_inj.0 r2)
        (record {
          grows = omega arith;
          ids = λ q _. store-id p m b.heap q kept;
          groups = λ k. still (lookup k b.grp_transfers);
          lists = λ k. touch-ListStep b _ client_id k b.transfers;
        })

  -- The state with the new file on the heap.
  abbrev made : Text → TransferMetadata → Bookkeeper → Bookkeeper
  made client_id file b = record (reading_for client_id b) {
    heap = store b.next file b.heap;
    next = suc b.next;
  }

  made-id :
      (file : TransferMetadata) (b : Bookkeeper) (q : ℕ)
      → q < b.next
      → (store b.next file b.heap q).group_id ≡ (b.heap q).group_id
  made-id file b q h =
      ap (λ m. m.group_id) (store-old b.next file b.heap q (λ k. omega (arith, h, k)))

  -- The new file joins a known group.
  known-Evolves :
      (client_id : Text) (file : TransferMetadata) (g : GroupMetadata) (a : Added) (b : Bookkeeper)
      → BookInv b
      → lookup file.group_id b.grp_transfers ≡ some g
      → add_file b.next (store b.next file b.heap) g ≡ some a
      → Evolves b (
          push_transfer client_id b.next (record (made client_id file b) {
            heap = a.heap;
            grp_transfers = insert file.group_id a.group b.grp_transfers;
          }))
  known-Evolves client_id file g a b v known e =
      let (own, all, _) = subst (λ x. HeldInv b file.group_id x) known (v.groups file.group_id) in
      let id : (store b.next file b.heap b.next).group_id ≡ file.group_id =
        ap (λ m. m.group_id) (store_self b.next file b.heap) in
      let j =
        add_file-Joins b.next (store b.next file b.heap) g a (id ∙ sym own)
          (All-map g.transfers_meta (λ q h k. omega (arith, h.0, k)) all) e in
      let b' : Bookkeeper = push_transfer client_id b.next (record (made client_id file b) {
        heap = a.heap;
        grp_transfers = insert file.group_id a.group b.grp_transfers;
      }) in
      let fresh : Fresh b b' b.next = (omega arith, omega arith) in
      let step : GroupStep b b' file.group_id (some g) (some a.group) =
        joined (some g) a.group b.next (j.group_id ∙ own) j.transfers_meta fresh
          (j.ids b.next ∙ id) in
      record {
        grows = omega arith;
        ids = λ q h. j.ids q ∙ made-id file b q h;
        groups = λ k. elim (Bool-cases (text_eq file.group_id k)) [
          | inl s ↦
              subst (λ x. GroupStep b b' x (lookup x b.grp_transfers) (lookup x b'.grp_transfers))
                (text_eq→eq file.group_id k s)
                (subst (λ x. GroupStep b b' file.group_id x (lookup file.group_id b'.grp_transfers))
                  (sym known)
                  (subst (λ x. GroupStep b b' file.group_id (some g) x)
                    (sym (lookup_self file.group_id a.group b.grp_transfers)) step))
          | inr s ↦
              subst (λ x. GroupStep b b' k (lookup k b.grp_transfers) x)
                (sym (lookup_other file.group_id k a.group b.grp_transfers s))
                (still (lookup k b.grp_transfers))
        ];
        lists = λ k. push-ListStep b b' client_id k b.next b.transfers fresh;
      }

  lone-Evolves :
      (client_id : Text) (file : TransferMetadata) (b : Bookkeeper)
      → Evolves b (push_transfer client_id b.next (made client_id file b))
  lone-Evolves client_id file b = record {
    grows = omega arith;
    ids = λ q h. made-id file b q h;
    groups = λ k. still (lookup k b.grp_transfers);
    lists = λ k. push-ListStep b _ client_id k b.next b.transfers (omega arith, omega arith);
  }

  join_group-Evolves :
      (client_id : Text) (file : TransferMetadata) (x : Option GroupMetadata) (b c : Bookkeeper)
      → BookInv b
      → ((g : GroupMetadata) → x ≡ some g → lookup file.group_id b.grp_transfers ≡ some g)
      → join_group b.next file.group_id x (made client_id file b) ≡ some c
      → Evolves b (push_transfer client_id b.next c)
  unfolding join_group
  join_group-Evolves client_id file none b c v known e =
      subst (λ y. Evolves b (push_transfer client_id b.next y)) (some_inj.0 e)
        (lone-Evolves client_id file b)
  join_group-Evolves client_id file (some g) b c v known e =
      let (a, e1, e2) = >>=-eq-some (add_file b.next (store b.next file b.heap) g) _ e in
      subst (λ y. Evolves b (push_transfer client_id b.next y)) (some_inj.0 e2)
        (known-Evolves client_id file g a b v (known g refl) e1)

  known_group :
      (file : TransferMetadata) (b : Bookkeeper) (g : GroupMetadata)
      → (if text_eq file.group_id [] then none else lookup file.group_id b.grp_transfers) ≡ some g
      → lookup file.group_id b.grp_transfers ≡ some g
  known_group file b g = elim (Bool-cases (text_eq file.group_id [])) [
    | inl h ↦ rw h (λ e. cc)
    | inr h ↦ rw h (λ e. e)
  ]

  insert_transfer-Evolves :
      (client_id : Text) (file : TransferMetadata) (b b' : Bookkeeper)
      → BookInv b
      → insert_transfer client_id file (reading_for client_id b) ≡ some b'
      → Evolves b b'
  unfolding insert_transfer
  insert_transfer-Evolves client_id file b b' v e =
      let known = if text_eq file.group_id [] then none else lookup file.group_id b.grp_transfers in
      let (j, e1, e2) =
        >>=-eq-some (join_group b.next file.group_id known (made client_id file b)) _ e in
      subst (λ x. Evolves b x) (some_inj.0 e2)
        (join_group-Evolves client_id file known b j v (known_group file b) e1)

  place_transfer-Evolves :
      (client_id t : Text) (file : TransferMetadata) (x : Option ℕ) (b b' : Bookkeeper)
      → BookInv b
      → load_metadata env.parse env.reader.cwd (env.clock b.instant) t ≡ some file
      → ((p : ℕ) → x ≡ some p → (b.heap p).group_id ≡ file.group_id)
      → place_transfer env client_id t file x (reading_for client_id b) ≡ some b'
      → Evolves b b'
  unfolding place_transfer
  place_transfer-Evolves client_id t file none b b' v e same r =
      insert_transfer-Evolves client_id file b b' v r
  place_transfer-Evolves client_id t file (some p) b b' v e same r =
      update_transfer-Evolves p client_id t file b b' e (same p refl) r

  pub add_update_transfer-Evolves :
      (client_id t : Text) (b b' : Bookkeeper)
      → BookInv b
      → add_update_transfer env client_id t b ≡ some b'
      → Evolves b b'
  unfolding add_update_transfer
  add_update_transfer-Evolves client_id t b b' v r =
      let listed = entry (lookup client_id b.transfers) in
      let (file, e, e') =
        >>=-eq-some (load_metadata env.parse env.reader.cwd (env.clock b.instant) t) _ r in
      place_transfer-Evolves client_id t file (find_same b.heap file listed) b b' v e
        (find_same-group_id b.heap file listed) e'
