-- ===== src/FilePath/Strip.antt =====
-- The loop that removes "./" from a path (transfer_metadata.hpp, group_metadata.hpp,
-- transfer_client.cpp).
use mathlib.Core.Option
use snbmodules.Common.{
  ℕ, zero, suc, ◌+◌, Option, none, some, [], ◌∷◌, ◌++◌, Text, is_prefix, if◌then◌else◌, length,
  take, drop,
}

-- The variable `x` of the code.
abbrev pub dot_slash : Text
dot_slash = 46 ∷ 47 ∷ []

-- std::string::find of "./", from the start.
unfoldable pub find? : Text → Option ℕ
find? [] = none
find? (c ∷ s) =
    let rest = Option.map (λ i. suc i) (find? s) in
    if is_prefix dot_slash (c ∷ s) then some 0 else rest

-- find(x, pos).
unfoldable pub find_from : Text → ℕ → Option ℕ
unfolding find?
find_from s at = Option.map (λ i. at + i) (find? (drop at s))

-- replace(pos, x.length(), "").
unfoldable pub erase_at : Text → ℕ → Text
erase_at s at = take at s ++ drop (at + 2) s

-- The while loop. Its fuel is more than the length of the text, which each round lowers.
unfoldable pub strip_loop : ℕ → Text → ℕ → Text
unfolding find_from erase_at
strip_loop zero s at = s
strip_loop (suc fuel) s at = elim (find_from s at) [
  | none ↦ s
  | some i ↦ strip_loop fuel (erase_at s i) i
]

unfoldable pub strip : Text → Text
unfolding strip_loop
strip s = strip_loop (suc (length s)) s 0
