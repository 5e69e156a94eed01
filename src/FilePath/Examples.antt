-- ===== src/FilePath/Examples.antt =====
-- The theorems on "./" at one path each, and test runs.
use snbmodules.Common.{◌≡◌, refl, some, text, ◌++◌, ◌∷◌}
use snbmodules.FilePath.Strip.{find?, strip}
use snbmodules.FilePath.Spec.{one_pass, strip-one_pass, strip-parent}
use snbmodules.FilePath.Path.{normalise, filename}

strip-one_pass_example : strip (text "./a/./b") ≡ one_pass (text "./a/./b")
strip-one_pass_example = strip-one_pass (text "./a/./b")

strip_run : strip (text "./a/./b") ≡ text "a/b"
unfolding strip find?
strip_run = refl

strip-parent_example : strip (text "/a/../b") ≡ text "/a/" ++ (46 ∷ strip (text "b"))
unfolding find?
strip-parent_example = strip-parent (text "/a/") (text "b") refl

normalise_run : normalise (text "/home/run") (text "./raw.bin") ≡ some (text "/home/run/raw.bin")
unfolding normalise strip find?
normalise_run = refl

filename_run : filename (text "/home/run/raw.bin") ≡ text "raw.bin"
unfolding filename
filename_run = refl
