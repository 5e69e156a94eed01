-- ===== src/Group/Search.antt =====
-- What get_transfer_meta_from_file_path returns.
use snbmodules.Common.{
  ℕ, ◌≡◌, ◌≢◌, refl, true, false, Option, none, some, List, [], ◌∷◌, ◌++◌, All, Text, Bool-cases,
  inl, inr, ap, sym, ◌↔◌,
}
use mathlib.Core.Option.{some_inj}
use mathlib.Core.Path.{subst}
use snbmodules.FilePath.Path.{path_eq}
use snbmodules.Group.Metadata.{
  Heap, GroupMetadata, find_file, first_file, get_transfer_meta_from_file_path, Lookup, or_first,
}

-- The result for a group's files: the first with the path, or the first of all behind a report
-- that none has it.
pub data Answer (heap : Heap) (file_path : Text) : List ℕ → Lookup → Type 0 where
  file_found :
      (before : List ℕ) (p : ℕ) (after : List ℕ)
      → All (λ q. path_eq (heap q).file_path file_path ≡ false) before
      → path_eq (heap p).file_path file_path ≡ true
      → Answer heap file_path (before ++ p ∷ after) (p, false)
  file_missing :
      (p : ℕ) (ps : List ℕ)
      → All (λ q. path_eq (heap q).file_path file_path ≡ false) (p ∷ ps)
      → Answer heap file_path (p ∷ ps) (p, true)

pub data Finds (heap : Heap) (file_path : Text) (ps : List ℕ) : Option ℕ → Type 0 where
  finds :
      (before : List ℕ) (p : ℕ) (after : List ℕ)
      → ps ≡ before ++ p ∷ after
      → All (λ q. path_eq (heap q).file_path file_path ≡ false) before
      → path_eq (heap p).file_path file_path ≡ true
      → Finds heap file_path ps (some p)
  misses : All (λ q. path_eq (heap q).file_path file_path ≡ false) ps → Finds heap file_path ps none

Finds-cons :
    (heap : Heap) (file_path : Text) (q : ℕ) (ps : List ℕ) (o : Option ℕ)
    → path_eq (heap q).file_path file_path ≡ false
    → Finds heap file_path ps o
    → Finds heap file_path (q ∷ ps) o
Finds-cons heap f q ps (some r) h (finds before p after e k t) =
    finds (q ∷ before) p after (ap (λ l. q ∷ l) e) (h, k) t
Finds-cons heap f q ps none h (misses k) = misses (h, k)

find_file-Finds :
    (heap : Heap) (file_path : Text) (ps : List ℕ)
    → Finds heap file_path ps (find_file heap file_path ps)
unfolding find_file
find_file-Finds heap f [] = misses tt
find_file-Finds heap f (q ∷ ps) = elim (Bool-cases (path_eq (heap q).file_path f)) [
  | inl e ↦ rw e (finds [] q ps refl tt e)
  | inr e ↦ rw e (Finds-cons heap f q ps (find_file heap f ps) e (find_file-Finds heap f ps))
]

or_first-Answer :
    (heap : Heap) (file_path : Text) (ps : List ℕ) (o : Option ℕ) (l : Lookup)
    → Finds heap file_path ps o
    → or_first o ps ≡ some l
    → Answer heap file_path ps l
unfolding or_first first_file
or_first-Answer heap f ps (some r) l (finds before p after e k t) h =
    subst (λ x. Answer heap f x l) (sym e)
      (subst (λ x. Answer heap f (before ++ p ∷ after) x) (some_inj.0 h)
        (file_found before p after k t))
or_first-Answer heap f [] none l (misses k) h = absurd (cc)
or_first-Answer heap f (p ∷ ps) none l (misses k) h =
    subst (λ x. Answer heap f (p ∷ ps) x) (some_inj.0 h) (file_missing p ps k)

-- A lookup by path gives the first file of the group with that path, or, when none has it, a
-- report and the group's first file.
pub get_transfer_meta_from_file_path-Answer :
    (heap : Heap) (g : GroupMetadata) (file_path : Text) (l : Lookup)
    → get_transfer_meta_from_file_path heap g file_path ≡ some l
    → Answer heap file_path g.transfers_meta l
unfolding get_transfer_meta_from_file_path
get_transfer_meta_from_file_path-Answer heap g f l h =
    or_first-Answer heap f g.transfers_meta (find_file heap f g.transfers_meta) l
      (find_file-Finds heap f g.transfers_meta) h

or_first-cons : (o : Option ℕ) (p : ℕ) (ps : List ℕ) → or_first o (p ∷ ps) ≢ none
unfolding or_first first_file
or_first-cons none p ps h = absurd (cc)
or_first-cons (some q) p ps h = absurd (cc)

or_first-none :
    (heap : Heap) (file_path : Text) (ps : List ℕ)
    → (or_first (find_file heap file_path ps) ps ≡ none) ↔ (ps ≡ [])
unfolding or_first first_file find_file
or_first-none heap f [] = (λ e. refl, λ e. refl)
or_first-none heap f (p ∷ ps) =
    (λ h. absurd (or_first-cons (find_file heap f (p ∷ ps)) p ps h), λ e. absurd (cc))

-- A lookup fails, by the use of a first file that is not there, exactly when the group is empty.
pub get_transfer_meta_from_file_path-none :
    (heap : Heap) (g : GroupMetadata) (file_path : Text)
    → (get_transfer_meta_from_file_path heap g file_path ≡ none) ↔ (g.transfers_meta ≡ [])
unfolding get_transfer_meta_from_file_path
get_transfer_meta_from_file_path-none heap g f = or_first-none heap f g.transfers_meta
