-- ===== src/Common/Maps.antt =====
-- std::map and std::set with text keys: lists in the order of their keys.
use mathlib.Core.Path.{◌≡◌, refl}
use mathlib.Core.Bool.{Bool, false, ◌||◌}
use mathlib.Core.Option.{Option, none, some}
use mathlib.Core.List.{List, [], ◌∷◌}
use native.Mathlib.Omega.{arith}
use snbmodules.Common.Tests.{if◌then◌else◌}
use snbmodules.Common.Strings.{Text, text_eq, text_lt, text_eq_iff, text_eq_refl}

abbrev pub Map {ℓ} : Type ℓ → Type ℓ
Map V = List (Text × V)

module _ {ℓ} {V : Type ℓ} where
  -- `find`.
  unfoldable pub lookup : Text → Map V → Option V
  lookup k [] = none
  lookup k ((j, v) ∷ m) = if text_eq j k then some v else lookup k m

  -- `m[k] = v`.
  unfoldable pub insert : Text → V → Map V → Map V
  insert k v [] = (k, v) ∷ []
  insert k v ((j, w) ∷ m) =
      if text_eq j k
      then (k, v) ∷ m
      else if text_lt k j
      then (k, v) ∷ (j, w) ∷ m
      else (j, w) ∷ insert k v m

  unfoldable pub erase : Text → Map V → Map V
  erase k [] = []
  erase k ((j, v) ∷ m) = let rest = erase k m in if text_eq j k then rest else (j, v) ∷ rest

  pub lookup-insert :
      (k j : Text) (v : V) (m : Map V)
      → lookup j (insert k v m) ≡ (if text_eq k j then some v else lookup j m)
  unfolding lookup insert
  lookup-insert k j v [] = refl
  lookup-insert k j v ((i, w) ∷ m) = ground (
    arith,
    text_eq_iff k j,
    text_eq_iff i k,
    text_eq_iff i j,
    lookup-insert k j v m,
    text_eq_refl k,
  )

  pub lookup-erase :
      (k j : Text) (m : Map V) → lookup j (erase k m) ≡ (if text_eq k j then none else lookup j m)
  unfolding lookup erase
  lookup-erase k j [] = ground arith
  lookup-erase k j ((i, w) ∷ m) =
      ground (
        arith,
        text_eq_iff k j,
        text_eq_iff i k,
        text_eq_iff i j,
        lookup-erase k j m,
        text_eq_refl k,
      )

-- std::set<std::string>.
abbrev pub TextSet : Type 0
TextSet = List Text

unfoldable pub member : Text → TextSet → Bool
member k [] = false
member k (j ∷ s) = text_eq j k || member k s

unfoldable pub set_insert : Text → TextSet → TextSet
set_insert k [] = k ∷ []
set_insert k (j ∷ s) =
    if text_eq j k then j ∷ s else if text_lt k j then k ∷ j ∷ s else j ∷ set_insert k s

unfoldable pub set_erase : Text → TextSet → TextSet
set_erase k [] = []
set_erase k (j ∷ s) = let rest = set_erase k s in if text_eq j k then rest else j ∷ rest

pub member-set_insert :
    (k j : Text) (s : TextSet) → member j (set_insert k s) ≡ (text_eq k j || member j s)
unfolding member set_insert
member-set_insert k j [] = refl
member-set_insert k j (i ∷ s) =
    ground (arith, text_eq_iff k j, text_eq_iff i k, text_eq_iff i j, member-set_insert k j s)

pub member-set_erase :
    (k j : Text) (s : TextSet)
    → member j (set_erase k s) ≡ (if text_eq k j then false else member j s)
unfolding member set_erase
member-set_erase k j [] = ground arith
member-set_erase k j (i ∷ s) = ground (
  arith,
  text_eq_iff k j,
  text_eq_iff i k,
  text_eq_iff i j,
  member-set_erase k j s,
  text_eq_refl k,
)
