-- ===== src/Group/Invariant.antt =====
-- What add_file keeps true of a group.
use snbmodules.Common.{
  ℕ, ◌≡◌, ◌≢◌, refl, sym, ap, ◌∙◌, true, false, Option, some, none, ==_refl, List, [], ◌∷◌, ◌++◌,
  All, All-append, All-map, arith, Bool-cases, inl, inr, member, set_erase, member-set_erase,
  text_eq, text_eq→eq, text_eq_refl, ◌==◌, Text, TextSet,
}
use mathlib.Core.Option.{some_inj}
use mathlib.Core.Path.{subst}
use snbmodules.Metadata.Transfer.{set_group_id, TransferMetadata}
use snbmodules.Group.Metadata.{
  Heap, GroupMetadata, store, Added, add_file, refuse, remove_file, first_file, Lookup,
}

abbrev pub Distinct : List ℕ → Type 0
Distinct [] = Unit
Distinct (p ∷ ps) = All (λ q. p ≢ q) ps × Distinct ps

-- A file that a group may hold: it bears the group's id, and is no longer expected.
abbrev pub Settled : GroupMetadata → TransferMetadata → Type 0
Settled g m = (m.group_id ≡ g.group_id) × (member m.file_path g.expected_files ≡ false)

pub record GroupInv (heap : Heap) (g : GroupMetadata) : Type 0 where
  pub settled : All (λ p. Settled g (heap p)) g.transfers_meta
  pub distinct : Distinct g.transfers_meta

All-remove_file : (P : ℕ → Type 0) (p : ℕ) (ps : List ℕ) → All P ps → All P (remove_file p ps)
unfolding remove_file
All-remove_file P p [] h = tt
All-remove_file P p (q ∷ qs) h = elim (Bool-cases (q == p)) [
  | inl e ↦ rw e h.1
  | inr e ↦ rw e (h.0, All-remove_file P p qs h.1)
]

remove_file-ne : (p : ℕ) (ps : List ℕ) → Distinct ps → All (λ q. q ≢ p) (remove_file p ps)
unfolding remove_file
remove_file-ne p [] h = tt
remove_file-ne p (q ∷ qs) h = elim (Bool-cases (q == p)) [
  | inl e ↦
      let same : q ≡ p = ground arith in
      rw e (All-map qs (λ r (ne : q ≢ r) k. ne (same ∙ sym k)) h.0)
  | inr e ↦ rw e ((λ k. ground arith), remove_file-ne p qs h.1)
]

remove_file-Distinct : (p : ℕ) (ps : List ℕ) → Distinct ps → Distinct (remove_file p ps)
unfolding remove_file
remove_file-Distinct p [] h = tt
remove_file-Distinct p (q ∷ qs) h = elim (Bool-cases (q == p)) [
  | inl e ↦ rw e h.1
  | inr e ↦ rw e (All-remove_file _ p qs h.0, remove_file-Distinct p qs h.1)
]

pub Distinct-append :
    (p : ℕ) (ps : List ℕ) → Distinct ps → All (λ q. q ≢ p) ps → Distinct (ps ++ p ∷ [])
Distinct-append p [] h k = (tt, tt)
Distinct-append p (q ∷ qs) h k =
    (All-append (λ r. q ≢ r) qs (p ∷ []) h.0 (k.0, tt), Distinct-append p qs h.1 k.1)

abbrev welcomed : ℕ → Heap → GroupMetadata → GroupMetadata
welcomed p h g = record g {
  expected_files = set_erase (h p).file_path g.expected_files;
  transfers_meta = g.transfers_meta ++ p ∷ [];
}

erased : (k j : Text) (s : TextSet) → member j s ≡ false → member j (set_erase k s) ≡ false
erased k j s h = member-set_erase k j s ∙ ground (arith, h)

erased_self : (k : Text) (s : TextSet) → member k (set_erase k s) ≡ false
erased_self k s = member-set_erase k k s ∙ rw (text_eq_refl k) refl

-- The file that joins, and one that is held.
welcome_self :
    (p : ℕ) (h : Heap) (g : GroupMetadata)
    → Settled (welcomed p h g) (store p (set_group_id g.group_id (h p)) h p)
unfolding store set_group_id
welcome_self p h g = rw (==_refl p) (refl, erased_self (h p).file_path g.expected_files)

welcome_held :
    (p : ℕ) (h : Heap) (g : GroupMetadata) (q : ℕ)
    → Settled g (h q)
    → Settled (welcomed p h g) (store p (set_group_id g.group_id (h p)) h q)
unfolding store set_group_id
welcome_held p h g q s = elim (Bool-cases (p == q)) [
  | inl e ↦ rw e (refl, erased_self (h p).file_path g.expected_files)
  | inr e ↦ rw e (s.0, erased (h p).file_path (h q).file_path g.expected_files s.1)
]

held-ne :
    (p : ℕ) (h : Heap) (g : GroupMetadata) (q : ℕ)
    → member (h p).file_path g.expected_files ≡ true
    → Settled g (h q)
    → q ≢ p
held-ne p h g q e s k =
    let gone : member (h p).file_path g.expected_files ≡ false =
      ap (λ r. member (h r).file_path g.expected_files) (sym k) ∙ s.1 in
    absurd (cc)

-- A file that was expected joins the group.
welcome-GroupInv :
    (p : ℕ) (h : Heap) (g : GroupMetadata)
    → GroupInv h g
    → member (h p).file_path g.expected_files ≡ true
    → GroupInv (store p (set_group_id g.group_id (h p)) h) (welcomed p h g)
welcome-GroupInv p h g v e = record {
  settled =
      All-append _ g.transfers_meta (p ∷ [])
        (All-map g.transfers_meta (welcome_held p h g) v.settled) (welcome_self p h g, tt);
  distinct =
      Distinct-append p g.transfers_meta v.distinct
        (All-map g.transfers_meta (λ q s. held-ne p h g q e s) v.settled);
}

-- A file that bears the group's id goes to the end.
renew-GroupInv :
    (p : ℕ) (h : Heap) (g : GroupMetadata)
    → GroupInv h g
    → Settled g (h p)
    → GroupInv h (record g { transfers_meta = remove_file p g.transfers_meta ++ p ∷ [] })
renew-GroupInv p h g v s = record {
  settled =
      All-append _ (remove_file p g.transfers_meta) (p ∷ [])
        (All-remove_file _ p g.transfers_meta v.settled) (s, tt);
  distinct =
      Distinct-append p (remove_file p g.transfers_meta)
        (remove_file-Distinct p g.transfers_meta v.distinct)
        (remove_file-ne p g.transfers_meta v.distinct);
}

refuse-same :
    (h : Heap) (g : GroupMetadata) (l : Option Lookup) (a : Added)
    → refuse h g l ≡ some a
    → (a.heap ≡ h) × (a.group ≡ g)
unfolding refuse
refuse-same h g none a e = cc
refuse-same h g (some (p, r)) a e =
    (ap (λ x. x.heap) (sym (some_inj.0 e)), ap (λ x. x.group) (sym (some_inj.0 e)))

add_file-expected :
    (p : ℕ) (h : Heap) (g : GroupMetadata)
    → member (h p).file_path g.expected_files ≡ true
    → add_file p h g
      ≡ some (record {
        file = p;
        reported = false;
        heap = store p (set_group_id g.group_id (h p)) h;
        group = welcomed p h g;
      })
unfolding add_file
add_file-expected p h g e = rw e refl

add_file-known :
    (p : ℕ) (h : Heap) (g : GroupMetadata)
    → member (h p).file_path g.expected_files ≡ false
    → text_eq (h p).group_id g.group_id ≡ true
    → add_file p h g
      ≡ some (record {
        file = p;
        reported = false;
        heap = h;
        group = record g { transfers_meta = remove_file p g.transfers_meta ++ p ∷ [] };
      })
unfolding add_file
add_file-known p h g e f = rw (e, f) refl

add_file-stranger :
    (p : ℕ) (h : Heap) (g : GroupMetadata)
    → member (h p).file_path g.expected_files ≡ false
    → text_eq (h p).group_id g.group_id ≡ false
    → add_file p h g ≡ refuse h g (first_file g.transfers_meta)
unfolding add_file
add_file-stranger p h g e f = rw (e, f) refl

abbrev AddedInv : Added → Type 0
AddedInv a = GroupInv a.heap a.group

-- Adding a file to a group keeps it well formed, whichever way it goes: every file that the group
-- holds bears its id and is not expected any more, and is held once.
pub add_file-GroupInv :
    (p : ℕ) (h : Heap) (g : GroupMetadata) (a : Added)
    → GroupInv h g
    → add_file p h g ≡ some a
    → GroupInv a.heap a.group
add_file-GroupInv p h g a v e = elim (Bool-cases (member (h p).file_path g.expected_files)) [
  | inl here ↦
      subst AddedInv (some_inj.0 (sym (add_file-expected p h g here) ∙ e))
        (welcome-GroupInv p h g v here)
  | inr away ↦ elim (Bool-cases (text_eq (h p).group_id g.group_id)) [
    | inl mine ↦
        subst AddedInv (some_inj.0 (sym (add_file-known p h g away mine) ∙ e))
          (renew-GroupInv p h g v (text_eq→eq (h p).group_id g.group_id mine, away))
    | inr other ↦
        let same =
          refuse-same h g (first_file g.transfers_meta) a
            (sym (add_file-stranger p h g away other) ∙ e) in
        subst (λ x. GroupInv x a.group) (sym same.0) (subst (λ x. GroupInv h x) (sym same.1) v)
  ]
]
