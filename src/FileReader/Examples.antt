-- ===== src/FileReader/Examples.antt =====
-- The theorems on the file reader at one source with two files, and test runs.
use snbmodules.Common.{
  lookup, insert, ℕ, ◌≡◌, refl, true, false, some, none, List, [], ◌∷◌, Text, text, arith, Option,
  All,
}
use snbmodules.FileSource.Model.{FileSource, conf, open_next_file, start, run_produce, round}
use snbmodules.FileReader.Concept.{file_source, file_source-SourceLaws, conf_result}
use snbmodules.FileReader.Base.{
  CallbackConf, ReaderConf, FileReader, find_stream, make_reader, init, create_all, set_source,
  configure, configure_all, all_configured, check_configured, do_conf, each, do_start, do_stop,
  stop_each, used_twice,
}
use snbmodules.FileReader.Configured.{Distinct, do_conf-Distinct}
use snbmodules.FileReader.Restart.{do_start-again}

-- The elements of a file are the codes of its name.
abbrev contents : Text → List ℕ
contents f = f

abbrev open_file : Text → Option (List ℕ)
open_file f = some (contents f)

abbrev idle : FileSource ℕ
idle = record {
  is_configured = false;
  files_left = [];
  reader = none;
  packet_count = 0;
  packet_count_tot = 0;
  sent = [];
}

abbrev callback : CallbackConf
callback = record { uid = text "q"; source_id = 7 }

abbrev cfg : ReaderConf ℕ (List Text)
cfg = record {
  emulation_mode = true;
  callbacks = callback ∷ [];
  streams = (7, 1) ∷ [];
  snb_conf = (1 ∷ 2 ∷ []) ∷ (3 ∷ []) ∷ [];
}

abbrev made : FileReader (file_source open_file)
made = record { configured = false; run_marker = false; source_emus = (text "q", idle) ∷ [] }

init_run :
    init (file_source open_file) (λ cb. some idle) cfg (make_reader (file_source open_file))
    ≡ (none, made)
unfolding init create_all set_source make_reader lookup insert
init_run = refl

-- A callback that is there twice is refused.
init_twice_run :
    (init
      (file_source open_file)
      (λ cb. some idle)
      (record cfg { callbacks = callback ∷ callback ∷ [] })
      (make_reader (file_source open_file))).0
    ≡ some (used_twice (text "q"))
unfolding init create_all set_source make_reader lookup insert
init_twice_run = refl

abbrev ready : FileSource ℕ
ready = record idle { is_configured = true; reader = some (1 ∷ 2 ∷ []); files_left = (3 ∷ []) ∷ [] }

abbrev configured_reader : FileReader (file_source open_file)
configured_reader = record {
  configured = true;
  run_marker = false;
  source_emus = (text "q", ready) ∷ [];
}

do_conf_run : do_conf (file_source open_file) cfg made ≡ some (none, configured_reader)
unfolding do_conf configure_all configure set_source check_configured all_configured find_stream
    conf_result conf open_next_file lookup insert
do_conf_run = refl

do_conf-Distinct_example :
    Distinct (callback ∷ [])
    × All
        (λ cb. (stream : ℕ) × (find_stream cb.source_id ((7, 1) ∷ []) ≡ some stream))
        (callback ∷ [])
    × (all_configured (file_source open_file) configured_reader.source_emus ≡ true)
    × (true ≡ true)
    × (do_conf (file_source open_file) cfg configured_reader ≡ some (none, configured_reader))
do_conf-Distinct_example =
    do_conf-Distinct (file_source-SourceLaws open_file) cfg made configured_reader refl do_conf_run

abbrev empty : FileSource ℕ
empty = record idle { packet_count = 3; packet_count_tot = 3; sent = 1 ∷ 2 ∷ 3 ∷ [] }

abbrev stopped : FileReader (file_source open_file)
stopped = record { configured = true; run_marker = false; source_emus = (text "q", empty) ∷ [] }

do_stop_run :
    do_stop (file_source open_file) (λ name. 5) (do_start (file_source open_file) configured_reader)
    ≡ some stopped
unfolding do_stop stop_each do_start each start run_produce round
do_stop_run = refl

do_start-again_example :
    (do_conf (file_source open_file) cfg stopped ≡ some (none, stopped))
    × (all_configured (file_source open_file) stopped.source_emus ≡ false)
    × (do_stop (file_source open_file) (λ name. 1) (do_start (file_source open_file) stopped)
        ≡ none)
do_start-again_example =
    do_start-again open_file contents (λ name. 5) (λ name. 1) cfg configured_reader stopped
      (text "q") (1 ∷ 2 ∷ []) ((3 ∷ []) ∷ []) ready [] refl refl refl refl refl (refl, tt)
      (omega arith) (omega arith) do_stop_run
