-- ===== src/Bookkeeper/Memory.antt =====
-- The bookkeeper forgets no group and no file (src/bookkeeper/bookkeeper.cpp).
use snbmodules.Common.{
  refl, ◌≡◌, ap, ◌∙◌, Option, none, some, List, [], ◌∷◌, ◌++◌, Text, >>=-eq-some, ℕ, lookup,
}
use mathlib.Core.Option.{some_inj}
use mathlib.Core.Path.{sym, subst}
use mathlib.Core.List.{append_assoc, append-nil}
use snbmodules.Notification.Interface.{NotificationData}
use snbmodules.Group.Metadata.{GroupMetadata}
use snbmodules.Bookkeeper.State.{Surroundings, Bookkeeper, entry}
use snbmodules.Bookkeeper.Messages.{action_on_receive_notification, handle_all}
use snbmodules.Bookkeeper.Evolution.{
  GroupStep, still, told, joined, ListStep, untouched, touched, pushed, Evolves, BookInv,
  Evolves-BookInv,
}
use snbmodules.Bookkeeper.Invariant.{action-Evolves}

-- The same files first, in their order.
abbrev pub Extends : List ℕ → List ℕ → Type 0
Extends ps qs = (more : List ℕ) × (qs ≡ ps ++ more)

Extends-refl : (ps : List ℕ) → Extends ps ps
Extends-refl ps = ([], sym (append-nil ps))

Extends-trans : (ps qs rs : List ℕ) → Extends ps qs → Extends qs rs → Extends ps rs
Extends-trans ps qs rs (more, e) (most, k) =
    (more ++ most, k ∙ ap (λ ts. ts ++ most) e ∙ append_assoc ps more most)

-- A group that is known stays known, with its files; so does a client.
pub record Keeps (b b' : Bookkeeper) : Type 0 where
  pub groups :
      (k : Text) (g : GroupMetadata)
      → lookup k b.grp_transfers ≡ some g
      → (g' : GroupMetadata) × (lookup k b'.grp_transfers ≡ some g')
        × Extends g.transfers_meta g'.transfers_meta
  pub lists :
      (k : Text) (ps : List ℕ)
      → lookup k b.transfers ≡ some ps
      → (ps' : List ℕ) × (lookup k b'.transfers ≡ some ps') × Extends ps ps'

abbrev GroupKept : Option GroupMetadata → Option GroupMetadata → Type 0
GroupKept none y = Unit
GroupKept (some g) y =
    (g' : GroupMetadata) × (y ≡ some g') × Extends g.transfers_meta g'.transfers_meta

abbrev ListKept : Option (List ℕ) → Option (List ℕ) → Type 0
ListKept none y = Unit
ListKept (some ps) y = (ps' : List ℕ) × (y ≡ some ps') × Extends ps ps'

GroupStep-GroupKept :
    (b b' : Bookkeeper) (k : Text) (x y : Option GroupMetadata)
    → GroupStep b b' k x y
    → GroupKept x y
GroupStep-GroupKept b b' k _ _ (still none) = tt
GroupStep-GroupKept b b' k _ _ (still (some g)) = (g, refl, Extends-refl g.transfers_meta)
GroupStep-GroupKept b b' k _ _ (told none h i e) = tt
GroupStep-GroupKept b b' k _ _ (told (some g) h i e) =
    (h, refl, ([], e ∙ sym (append-nil g.transfers_meta)))
GroupStep-GroupKept b b' k _ _ (joined none h p i e f d) = tt
GroupStep-GroupKept b b' k _ _ (joined (some g) h p i e f d) = (h, refl, (p ∷ [], e))

ListStep-ListKept : (b b' : Bookkeeper) (x y : Option (List ℕ)) → ListStep b b' x y → ListKept x y
unfolding entry
ListStep-ListKept b b' _ _ (untouched none) = tt
ListStep-ListKept b b' _ _ (untouched (some ps)) = (ps, refl, Extends-refl ps)
ListStep-ListKept b b' _ _ (touched none) = tt
ListStep-ListKept b b' _ _ (touched (some ps)) = (ps, refl, Extends-refl ps)
ListStep-ListKept b b' _ _ (pushed none p f) = tt
ListStep-ListKept b b' _ _ (pushed (some ps) p f) = (ps ++ p ∷ [], refl, (p ∷ [], refl))

pub Evolves-Keeps : (b b' : Bookkeeper) → Evolves b b' → Keeps b b'
Evolves-Keeps b b' e = record {
  groups = λ k g h.
      subst (λ x. GroupKept x (lookup k b'.grp_transfers)) h
        (GroupStep-GroupKept b b' k (lookup k b.grp_transfers) (lookup k b'.grp_transfers)
          (e.groups k));
  lists = λ k ps h.
      subst (λ x. ListKept x (lookup k b'.transfers)) h
        (ListStep-ListKept b b' (lookup k b.transfers) (lookup k b'.transfers) (e.lists k));
}

pub Keeps-refl : (b : Bookkeeper) → Keeps b b
Keeps-refl b = record {
  groups = λ k g h. (g, h, Extends-refl g.transfers_meta);
  lists = λ k ps h. (ps, h, Extends-refl ps);
}

pub Keeps-trans : (b c d : Bookkeeper) → Keeps b c → Keeps c d → Keeps b d
Keeps-trans b c d h k = record {
  groups = λ i g e.
      let (g1, e1, m1) = h.groups i g e in
      let (g2, e2, m2) = k.groups i g1 e1 in
      (g2, e2, Extends-trans g.transfers_meta g1.transfers_meta g2.transfers_meta m1 m2);
  lists = λ i ps e.
      let (p1, e1, m1) = h.lists i ps e in
      let (p2, e2, m2) = k.lists i p1 e1 in (p2, e2, Extends-trans ps p1 p2 m1 m2);
}

module _ (env : Surroundings) where
  -- Whatever messages a well-formed bookkeeper handles, no group that it knows is forgotten, and none
  -- of the files of a group or of a client: their lists only grow at the end.
  pub handle_all-Keeps :
      (notifs : List NotificationData) (b b' : Bookkeeper)
      → BookInv b
      → handle_all env notifs b ≡ some b'
      → Keeps b b'
  unfolding handle_all
  handle_all-Keeps [] b b' v e = subst (Keeps b) (some_inj.0 e) (Keeps-refl b)
  handle_all-Keeps (notif ∷ notifs) b b' v e =
      let (r, e1, e2) = >>=-eq-some (action_on_receive_notification env notif b) _ e in
      let step = action-Evolves env notif b r.1 r.0 v e1 in
      Keeps-trans b r.1 b' (Evolves-Keeps b r.1 step)
        (handle_all-Keeps notifs r.1 b' (Evolves-BookInv b r.1 step v) e2)
