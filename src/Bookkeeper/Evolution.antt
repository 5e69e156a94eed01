-- ===== src/Bookkeeper/Evolution.antt =====
-- How one message changes what the bookkeeper knows (src/bookkeeper/bookkeeper.cpp), and what that
-- keeps true of it.
use snbmodules.Common.{
  ℕ, ◌≡◌, ◌≤◌, ◌<◌, ◌≢◌, sym, ◌∙◌, Option, none, some, List, [], ◌∷◌, ◌++◌, All, All-map,
  All-append, arith, Text, lookup,
}
use mathlib.Core.Path.{subst}
use snbmodules.Group.Metadata.{GroupMetadata}
use snbmodules.Group.Invariant.{Distinct, Distinct-append}
use snbmodules.Bookkeeper.State.{Bookkeeper, entry}

-- The files of a group that may be unknown.
abbrev pub held : Option GroupMetadata → List ℕ
held none = []
held (some g) = g.transfers_meta

-- A pointer that is new in `b'`.
abbrev pub Fresh : Bookkeeper → Bookkeeper → ℕ → Type 0
Fresh b b' p = (b.next ≤ p) × (p < b'.next)

-- What may happen to the group under a key: nothing; a new object with the same files; one with a
-- new file behind them, which bears the group's id.
pub data GroupStep (b b' : Bookkeeper) (k : Text)
    : Option GroupMetadata → Option GroupMetadata → Type 0 where
  still : (x : Option GroupMetadata) → GroupStep b b' k x x
  told :
      (x : Option GroupMetadata) (g : GroupMetadata)
      → g.group_id ≡ k
      → g.transfers_meta ≡ held x
      → GroupStep b b' k x (some g)
  joined :
      (x : Option GroupMetadata) (g : GroupMetadata) (p : ℕ)
      → g.group_id ≡ k
      → g.transfers_meta ≡ held x ++ p ∷ []
      → Fresh b b' p
      → (b'.heap p).group_id ≡ k
      → GroupStep b b' k x (some g)

-- What may happen to a client's list.
pub data ListStep (b b' : Bookkeeper) : Option (List ℕ) → Option (List ℕ) → Type 0 where
  untouched : (x : Option (List ℕ)) → ListStep b b' x x
  touched : (x : Option (List ℕ)) → ListStep b b' x (some (entry x))
  pushed : (x : Option (List ℕ)) (p : ℕ) → Fresh b b' p → ListStep b b' x (some (entry x ++ p ∷ []))

pub record Evolves (b b' : Bookkeeper) : Type 0 where
  pub grows : b.next ≤ b'.next
  pub ids : (q : ℕ) → q < b.next → (b'.heap q).group_id ≡ (b.heap q).group_id
  pub groups : (k : Text) → GroupStep b b' k (lookup k b.grp_transfers) (lookup k b'.grp_transfers)
  pub lists : (k : Text) → ListStep b b' (lookup k b.transfers) (lookup k b'.transfers)

-- A file of the group with id `k`.
abbrev pub Held : Bookkeeper → Text → ℕ → Type 0
Held b k p = (p < b.next) × ((b.heap p).group_id ≡ k)

abbrev pub HeldInv : Bookkeeper → Text → Option GroupMetadata → Type 0
HeldInv b k none = Unit
HeldInv b k (some g) =
    (g.group_id ≡ k) × All (λ p. Held b k p) g.transfers_meta × Distinct g.transfers_meta

abbrev pub ListInv : Bookkeeper → Option (List ℕ) → Type 0
ListInv b none = Unit
ListInv b (some ps) = All (λ p. p < b.next) ps × Distinct ps

-- Every group is stored under its own id; its files exist, bear its id, and are held once. The
-- files of a client's list exist and are listed once.
pub record BookInv (b : Bookkeeper) : Type 0 where
  pub groups : (k : Text) → HeldInv b k (lookup k b.grp_transfers)
  pub lists : (k : Text) → ListInv b (lookup k b.transfers)

Held-grows : (b b' : Bookkeeper) (k : Text) → Evolves b b' → (p : ℕ) → Held b k p → Held b' k p
Held-grows b b' k e p h = let le = e.grows in (omega (arith, le, h.0), e.ids p h.0 ∙ h.1)

old-ne : (b b' : Bookkeeper) (p q : ℕ) → Fresh b b' p → q < b.next → q ≢ p
old-ne b b' p q f h k = omega (arith, f.0, h, k)

held_all :
    (b : Bookkeeper) (k : Text) (x : Option GroupMetadata)
    → HeldInv b k x
    → All (λ p. Held b k p) (held x) × Distinct (held x)
held_all b k none h = (tt, tt)
held_all b k (some g) (i, a, d) = (a, d)

entry_all :
    (b : Bookkeeper) (x : Option (List ℕ))
    → ListInv b x
    → All (λ p. p < b.next) (entry x) × Distinct (entry x)
unfolding entry
entry_all b none h = (tt, tt)
entry_all b (some ps) h = h

-- A list that grows by one.
append-Distinct :
    (P Q : ℕ → Type 0) (p : ℕ) (ps : List ℕ)
    → ((q : ℕ) → P q → Q q)
    → ((q : ℕ) → P q → q ≢ p)
    → Q p
    → All P ps × Distinct ps
    → All Q (ps ++ p ∷ []) × Distinct (ps ++ p ∷ [])
append-Distinct P Q p ps f ne new h = (
  All-append Q ps (p ∷ []) (All-map ps f h.0) (new, tt),
  Distinct-append p ps h.1 (All-map ps ne h.0),
)

still-HeldInv :
    (b b' : Bookkeeper) (k : Text) (x : Option GroupMetadata)
    → Evolves b b'
    → HeldInv b k x
    → HeldInv b' k x
still-HeldInv b b' k none e h = tt
still-HeldInv b b' k (some g) e (i, a, d) = (i, All-map g.transfers_meta (Held-grows b b' k e) a, d)

GroupStep-HeldInv :
    (b b' : Bookkeeper) (k : Text) (x y : Option GroupMetadata)
    → Evolves b b'
    → HeldInv b k x
    → GroupStep b b' k x y
    → HeldInv b' k y
GroupStep-HeldInv b b' k _ _ e h (still x) = still-HeldInv b b' k x e h
GroupStep-HeldInv b b' k _ _ e h (told x g i same) =
    let (a, d) = held_all b k x h in
    let r =
      subst (λ ps. All (λ p. Held b' k p) ps × Distinct ps) (sym same)
        (All-map (held x) (Held-grows b b' k e) a, d) in
    (i, r.0, r.1)
GroupStep-HeldInv b b' k _ _ e h (joined x g p i more fresh id) =
    let r =
      subst (λ ps. All (λ p. Held b' k p) ps × Distinct ps) (sym more)
        (append-Distinct (Held b k) (Held b' k) p (held x) (Held-grows b b' k e)
          (λ q v. old-ne b b' p q fresh v.0) (fresh.1, id) (held_all b k x h)) in
    (i, r.0, r.1)

older : (b b' : Bookkeeper) → Evolves b b' → (p : ℕ) → p < b.next → p < b'.next
older b b' e p h = let le = e.grows in omega (arith, le, h)

still-ListInv :
    (b b' : Bookkeeper) (x : Option (List ℕ)) → Evolves b b' → ListInv b x → ListInv b' x
still-ListInv b b' none e h = tt
still-ListInv b b' (some ps) e h = (All-map ps (older b b' e) h.0, h.1)

ListStep-ListInv :
    (b b' : Bookkeeper) (x y : Option (List ℕ))
    → Evolves b b'
    → ListInv b x
    → ListStep b b' x y
    → ListInv b' y
ListStep-ListInv b b' _ _ e h (untouched x) = still-ListInv b b' x e h
ListStep-ListInv b b' _ _ e h (touched x) =
    let (a, d) = entry_all b x h in (All-map (entry x) (older b b' e) a, d)
ListStep-ListInv b b' _ _ e h (pushed x p fresh) =
    append-Distinct (λ q. q < b.next) (λ q. q < b'.next) p (entry x) (older b b' e)
      (λ q v. old-ne b b' p q fresh v) fresh.1 (entry_all b x h)

pub Evolves-BookInv : (b b' : Bookkeeper) → Evolves b b' → BookInv b → BookInv b'
Evolves-BookInv b b' e v = record {
  groups = λ k.
      GroupStep-HeldInv b b' k (lookup k b.grp_transfers) (lookup k b'.grp_transfers) e (v.groups k)
        (e.groups k);
  lists = λ k.
      ListStep-ListInv b b' (lookup k b.transfers) (lookup k b'.transfers) e (v.lists k)
        (e.lists k);
}
