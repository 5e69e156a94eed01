-- ===== src/Bookkeeper/Storing.antt =====
-- The maps and the heap of the bookkeeper (src/bookkeeper/bookkeeper.cpp) when one entry or one
-- pointer is written, and the file that is found again.
use snbmodules.Common.{
  ==_refl, ℕ, ◌≡◌, ◌≢◌, refl, sym, ap, ◌∙◌, true, false, Option, none, some, List, [], ◌∷◌, ◌++◌,
  arith, Bool-cases, inl, inr, Text, text_eq, text_eq→eq, text_eq_refl, ◌==◌, Map, lookup, insert,
  lookup-insert,
}
use mathlib.Core.Option.{some_inj}
use mathlib.Core.Path.{subst}
use snbmodules.Metadata.Transfer.{TransferMetadata, meta_eq}
use snbmodules.Metadata.Json.{Value, string, number}
use snbmodules.Metadata.Import.{named_group}
use snbmodules.Group.Metadata.{Heap, store}
use snbmodules.Bookkeeper.State.{Bookkeeper, entry, touch, find_same}
use snbmodules.Bookkeeper.Evolution.{Fresh, ListStep, untouched, touched, pushed}

pub lookup_self {ℓ} : {V : Type ℓ} (k : Text) (v : V) (m : Map V) → lookup k (insert k v m) ≡ some v
lookup_self k v m = lookup-insert k k v m ∙ rw (text_eq_refl k) refl

pub lookup_other {ℓ} :
    {V : Type ℓ} (k j : Text) (v : V) (m : Map V)
    → text_eq k j ≡ false
    → lookup j (insert k v m) ≡ lookup j m
lookup_other k j v m h = lookup-insert k j v m ∙ rw h refl

pub touch-ListStep :
    (b b' : Bookkeeper) (c k : Text) (m : Map (List ℕ))
    → ListStep b b' (lookup k m) (lookup k (touch c m))
unfolding touch
touch-ListStep b b' c k m = elim (Bool-cases (text_eq c k)) [
  | inl e ↦
      let same = text_eq→eq c k e in
      subst (λ j. ListStep b b' (lookup j m) (lookup j (insert c (entry (lookup c m)) m))) same
        (subst (λ y. ListStep b b' (lookup c m) y) (sym (lookup_self c (entry (lookup c m)) m))
          (touched (lookup c m)))
  | inr e ↦
      subst (λ y. ListStep b b' (lookup k m) y) (sym (lookup_other c k (entry (lookup c m)) m e))
        (untouched (lookup k m))
]

touch-entry : (c : Text) (m : Map (List ℕ)) → entry (lookup c (touch c m)) ≡ entry (lookup c m)
unfolding touch entry
touch-entry c m = ap entry (lookup_self c (entry (lookup c m)) m)

pub push-ListStep :
    (b b' : Bookkeeper) (c k : Text) (p : ℕ) (m : Map (List ℕ))
    → Fresh b b' p
    → ListStep b b'
        (lookup k m)
        (lookup k (insert c (entry (lookup c (touch c m)) ++ p ∷ []) (touch c m)))
push-ListStep b b' c k p m fresh =
    let grown = entry (lookup c (touch c m)) ++ p ∷ [] in
    elim (Bool-cases (text_eq c k)) [
      | inl e ↦
          let same = text_eq→eq c k e in
          subst (λ j. ListStep b b' (lookup j m) (lookup j (insert c grown (touch c m)))) same
            (subst (λ y. ListStep b b' (lookup c m) y) (sym (lookup_self c grown (touch c m)))
              (subst (λ ps. ListStep b b' (lookup c m) (some (ps ++ p ∷ [])))
                (sym (touch-entry c m)) (pushed (lookup c m) p fresh)))
      | inr e ↦
          subst (λ y. ListStep b b' (lookup k m) y) (sym (lookup_other c k grown (touch c m) e))
            (touch-ListStep b b' c k m)
    ]

-- The object that is read twice from one text bears one group id.
pub reread-group_id :
    (v : Option Value) (file m new : TransferMetadata)
    → file.group_id ≡ named_group v []
    → m.group_id ≡ file.group_id
    → new.group_id ≡ named_group v m.group_id
    → new.group_id ≡ m.group_id
reread-group_id none file m new a b c = c
reread-group_id (some (string t)) file m new a b c = c ∙ sym a ∙ sym b
reread-group_id (some (number n)) file m new a b c = c

meta_eq-group_id : (m o : TransferMetadata) → meta_eq m o ≡ true → m.group_id ≡ o.group_id
unfolding meta_eq
meta_eq-group_id m o h = text_eq→eq m.group_id o.group_id (ground (arith, h))

pub find_same-group_id :
    (heap : Heap) (file : TransferMetadata) (ps : List ℕ) (p : ℕ)
    → find_same heap file ps ≡ some p
    → (heap p).group_id ≡ file.group_id
unfolding find_same
find_same-group_id heap file [] p e = cc
find_same-group_id heap file (q ∷ qs) p e = elim (Bool-cases (meta_eq (heap q) file)) [
  | inl h ↦
      let here : q ≡ p = some_inj.0 (rw h at e) in
      subst (λ r. (heap r).group_id ≡ file.group_id) here (meta_eq-group_id (heap q) file h)
  | inr h ↦ find_same-group_id heap file qs p (rw h at e)
]

pub store-id :
    (p : ℕ) (m : TransferMetadata) (heap : Heap) (q : ℕ)
    → m.group_id ≡ (heap p).group_id
    → (store p m heap q).group_id ≡ (heap q).group_id
unfolding store
store-id p m heap q e = elim (Bool-cases (p == q)) [
  | inl k ↦ rw k (e ∙ ap (λ r. (heap r).group_id) (ground arith))
  | inr k ↦ rw k refl
]

pub store-old :
    (p : ℕ) (m : TransferMetadata) (heap : Heap) (q : ℕ) → q ≢ p → store p m heap q ≡ heap q
unfolding store
store-old p m heap q ne = elim (Bool-cases (p == q)) [
  | inl k ↦ absurd (ne (ground arith))
  | inr k ↦ rw k refl
]

pub store_self : (p : ℕ) (m : TransferMetadata) (heap : Heap) → store p m heap p ≡ m
unfolding store
store_self p m heap = rw (==_refl p) refl
