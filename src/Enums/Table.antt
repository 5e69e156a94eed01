-- ===== src/Enums/Table.antt =====
-- A lookup in a table whose keys are the names of its values.
use snbmodules.Common.{
  inr, inl, Bool-cases, ◌≡◌, some, [], ◌∷◌, All, Text, Map, lookup, text_eq, text_eq→eq, sym, ◌∙◌,
  ap,
}
use mathlib.Core.Option.{some_inj}

pub lookup-named {ℓ} :
    {E : Type ℓ} (name : E → Text) (k : Text) (e : E) (m : Map E)
    → All (λ r. r.0 ≡ name r.1) m
    → lookup k m ≡ some e
    → k ≡ name e
unfolding lookup
lookup-named name k e [] n h = cc
lookup-named name k e ((j, v) ∷ m) n h = elim (Bool-cases (text_eq j k)) [
  | inl hit ↦ sym (text_eq→eq j k hit) ∙ n.0 ∙ ap name (some_inj.0 (rw hit at h))
  | inr miss ↦ lookup-named name k e m n.1 (rw miss at h)
]
