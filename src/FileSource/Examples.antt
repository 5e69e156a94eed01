-- ===== src/FileSource/Examples.antt =====
-- The theorems on the file source at two files.
use snbmodules.Common.{ℕ, ◌≡◌, refl, true, false, some, none, List, [], ◌∷◌, Text, arith, Option}
use snbmodules.FileSource.Model.{FileSource, open_next_file, conf, run_produce}
use snbmodules.FileSource.Production.{Produced, all_of, run_produce-conf}

-- The elements of a file are the codes of its name.
abbrev contents : Text → List ℕ
contents f = f

abbrev open_file : Text → Option (List ℕ)
open_file f = some (contents f)

abbrev idle : FileSource ℕ
idle = record {
  is_configured = false;
  files_left = [];
  reader = none;
  packet_count = 0;
  packet_count_tot = 0;
  sent = [];
}

abbrev names : List Text
names = (1 ∷ 2 ∷ []) ∷ (3 ∷ []) ∷ []

abbrev ready : FileSource ℕ
ready = record idle { is_configured = true; reader = some (1 ∷ 2 ∷ []); files_left = (3 ∷ []) ∷ [] }

ready_run : conf open_file names idle ≡ some ready
unfolding conf open_next_file
ready_run = refl

run_produce-conf_example :
    Produced open_file contents idle (all_of contents names) (run_produce open_file 5 ready)
run_produce-conf_example =
    run_produce-conf open_file contents 5 (1 ∷ 2 ∷ []) ((3 ∷ []) ∷ []) idle ready refl
      (refl, (refl, tt)) ready_run (omega arith)

abbrev empty_ready : FileSource ℕ
empty_ready = record idle { is_configured = true }

empty_run : conf open_file [] idle ≡ some empty_ready
unfolding conf open_next_file
empty_run = refl
