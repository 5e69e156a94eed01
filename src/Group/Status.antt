-- ===== src/Group/Status.antt =====
-- The status of a group.
use snbmodules.Common.{
  sym, ℕ, ◌≤◌, ◌≡◌, refl, ◌⊎◌, inl, inr, List, [], ◌∷◌, All, arith, Bool-cases, ltb, ltb→lt, sym,
  ◌∙◌,
}
use snbmodules.Enums.Status.{Status, preparing, rank}
use snbmodules.Group.Metadata.{Heap, GroupMetadata, higher, highest, get_group_status}

-- A file of the list has the status.
pub data Has (heap : Heap) (s : Status) : List ℕ → Type 0 where
  here : {p : ℕ} {ps : List ℕ} → (heap p).status ≡ s → Has heap s (p ∷ ps)
  there : {p : ℕ} {ps : List ℕ} → Has heap s ps → Has heap s (p ∷ ps)

higher_lem :
    (s t : Status)
    → (rank s ≤ rank (higher s t))
      × (rank t ≤ rank (higher s t))
      × ((higher s t ≡ s) ⊎ (higher s t ≡ t))
unfolding higher
higher_lem s t = elim (Bool-cases (ltb (rank s) (rank t))) [
  | inl up ↦ let below = ltb→lt (rank s) (rank t) up in rw up (omega arith, omega arith, inr refl)
  | inr down ↦ rw down (omega arith, ground arith, inl refl)
]

highest_lem :
    (heap : Heap) (s : Status) (ps : List ℕ)
    → (rank s ≤ rank (highest heap s ps))
      × All (λ p. rank (heap p).status ≤ rank (highest heap s ps)) ps
      × ((highest heap s ps ≡ s) ⊎ Has heap (highest heap s ps) ps)
unfolding highest
highest_lem heap s [] = (omega arith, tt, inl refl)
highest_lem heap s (p ∷ ps) =
    let (l, a, f) = highest_lem heap (higher s (heap p).status) ps in
    let (k, m, c) = higher_lem s (heap p).status in
    (
      omega arith,
      (omega arith, a),
      elim f [
        | inl e ↦ elim c [ inl d ↦ inl (e ∙ d) | inr d ↦ inr (here (sym (e ∙ d))) ]
        | inr h ↦ inr (there h)
      ],
    )

-- The status of a group is the highest of its files' statuses in the order of the enumeration:
-- none is above it, and a file has it, unless it is PREPARING.
pub get_group_status_lem :
    (heap : Heap) (g : GroupMetadata)
    → All (λ p. rank (heap p).status ≤ rank (get_group_status heap g)) g.transfers_meta
      × ((get_group_status heap g ≡ preparing)
          ⊎ Has heap (get_group_status heap g) g.transfers_meta)
unfolding get_group_status
get_group_status_lem heap g = let (l, a, f) = highest_lem heap preparing g.transfers_meta in (a, f)
