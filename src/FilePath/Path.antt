-- ===== src/FilePath/Path.antt =====
-- std::filesystem::path: absolute, the comparison and the file name, as the code uses them, and
-- the path that set_file_path and add_expected_file store.
use snbmodules.Common.{
  Bool, ◌&&◌, Option, none, some, [], ◌∷◌, ◌++◌, Text, text_eq, ◌==◌, if◌then◌else◌,
}
use snbmodules.FilePath.Strip.{strip}

-- absolute(p) in the working directory `cwd`; it throws on the empty path.
unfoldable pub absolute : Text → Text → Option Text
absolute cwd [] = none
absolute cwd (c ∷ p) = some (if c == 47 then c ∷ p else cwd ++ (47 ∷ c ∷ p))

-- The path that is stored: "./" removed, and made absolute.
unfoldable pub normalise : Text → Text → Option Text
unfolding absolute
normalise cwd p = absolute cwd (strip p)

-- Repeated slashes count as one when paths are compared.
collapse : Text → Text
collapse [] = []
collapse (c ∷ []) = c ∷ []
collapse (c ∷ d ∷ s) =
    let rest = collapse (d ∷ s) in if (c == 47) && (d == 47) then rest else c ∷ rest

unfoldable pub path_eq : Text → Text → Bool
unfolding collapse
path_eq p q = text_eq (collapse p) (collapse q)

-- filename(): what stands behind the last slash.
unfoldable pub name_after : Text → Text → Text
name_after acc [] = acc
name_after acc (c ∷ s) = name_after (if c == 47 then s else acc) s

unfoldable pub filename : Text → Text
unfolding name_after
filename p = name_after p p
