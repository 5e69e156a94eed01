-- ===== src/Group/Joining.antt =====
-- A file that is new to a group and bears its id joins it (add_file of
-- src/common/group_metadata.cpp).
use snbmodules.Common.{
  ℕ, ◌≡◌, ◌≢◌, refl, sym, ap, ◌∙◌, some, List, [], ◌∷◌, ◌++◌, All, arith, Bool-cases, inl, inr,
  member, text_eq_refl, ◌==◌,
}
use mathlib.Core.Option.{some_inj}
use mathlib.Core.Path.{subst}
use snbmodules.Metadata.Transfer.{set_group_id}
use snbmodules.Group.Metadata.{Heap, GroupMetadata, store, Added, add_file, remove_file}

remove_file-absent : (p : ℕ) (ps : List ℕ) → All (λ q. q ≢ p) ps → remove_file p ps ≡ ps
unfolding remove_file
remove_file-absent p [] h = refl
remove_file-absent p (q ∷ qs) h = elim (Bool-cases (q == p)) [
  | inl e ↦ absurd (h.0 (ground arith))
  | inr e ↦ rw e (ap (λ rs. q ∷ rs) (remove_file-absent p qs h.1))
]

pub record Joins (p : ℕ) (h : Heap) (g : GroupMetadata) (a : Added) : Type 0 where
  pub group_id : a.group.group_id ≡ g.group_id
  pub transfers_meta : a.group.transfers_meta ≡ g.transfers_meta ++ p ∷ []
  pub ids : (q : ℕ) → (a.heap q).group_id ≡ (h q).group_id

stored_id :
    (p : ℕ) (h : Heap) (g : GroupMetadata)
    → (h p).group_id ≡ g.group_id
    → (q : ℕ) → (store p (set_group_id g.group_id (h p)) h q).group_id ≡ (h q).group_id
unfolding store set_group_id
stored_id p h g e q = elim (Bool-cases (p == q)) [
  | inl k ↦ rw k (sym e ∙ ap (λ r. (h r).group_id) (ground arith))
  | inr k ↦ rw k refl
]

pub add_file-Joins :
    (p : ℕ) (h : Heap) (g : GroupMetadata) (a : Added)
    → (h p).group_id ≡ g.group_id
    → All (λ q. q ≢ p) g.transfers_meta
    → add_file p h g ≡ some a
    → Joins p h g a
unfolding add_file
add_file-Joins p h g a e absent = elim (Bool-cases (member (h p).file_path g.expected_files)) [
  | inl m ↦ rw m (λ r.
      subst (λ x. Joins p h g x) (some_inj.0 r)
        (record { group_id = refl; transfers_meta = refl; ids = stored_id p h g e }))
  | inr m ↦
      rw (m, e, text_eq_refl g.group_id)
        (λ r.
          subst (λ x. Joins p h g x) (some_inj.0 r)
            (record {
              group_id = refl;
              transfers_meta =
                  ap (λ rs. rs ++ p ∷ []) (remove_file-absent p g.transfers_meta absent);
              ids = λ q. refl;
            }))
]
