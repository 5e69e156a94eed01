-- ===== src/Interfaces/Bittorrent/Filter.antt =====
-- What file_filter of src/common/transfer_interface_bittorrent.cpp lets pass.
use snbmodules.Common.{
  ℕ, not, ◌≡◌, refl, ◌∙◌, ap, [], ◌∷◌, Text, ◌==◌, Bool-cases, Option-cases, sym, inl, inr,
  if◌then◌else◌,
}
use snbmodules.FilePath.Path.{filename, name_after}
use snbmodules.Interfaces.Bittorrent.Names.{
  behind_last_slash, begins_with_dot, name_or, or_else, file_filter,
}

-- The other reading of a path: the name that is kept while the path is read on.
name_after-behind : (acc s : Text) → name_after acc s ≡ name_or acc (behind_last_slash s)
unfolding name_after behind_last_slash or_else name_or
name_after-behind acc [] = refl
name_after-behind acc (c ∷ s) =
    name_after-behind (if c == 47 then s else acc) s ∙ elim (Option-cases (behind_last_slash s)) [
      | inr (t, e) ↦ rw e refl
      | inl e ↦ elim (Bool-cases (c == 47)) [ inl k ↦ rw (e, k) refl | inr k ↦ rw (e, k) refl ]
    ]

-- A path passes exactly when it is not empty and its file name, as std::filesystem gives it, does not begin with a
-- dot.
pub file_filter-filename :
    (c : ℕ) (f : Text) → file_filter (c ∷ f) ≡ not (begins_with_dot (filename (c ∷ f)))
unfolding file_filter filename
file_filter-filename c f =
    ap (λ t. not (begins_with_dot t)) (sym (name_after-behind (c ∷ f) (c ∷ f)))
