-- ===== src/FileReader/Restart.antt =====
-- A second run of a file reader (src/readout/FileReaderBase.cpp over
-- include/snbmodules/readout/detail/FileSourceModel.hxx).
use snbmodules.Common.{
  zero, ℕ, suc, ◌+◌, ◌≤◌, ◌<◌, ◌≡◌, refl, sym, ap, ◌∙◌, true, false, Option, none, some, List, ◌∷◌,
  Text, length, All, Map, arith, >>=-eq-some,
}
use mathlib.Core.Option.{some_inj}
use snbmodules.FileSource.Model.{FileSource, start, run_produce, round}
use snbmodules.FileSource.Production.{Opens, rounds, run_produce-files}
use snbmodules.FileReader.Concept.{file_source}
use snbmodules.FileReader.Base.{
  ReaderConf, FileReader, do_conf, do_start, do_stop, each, stop_each, all_configured,
}

module _ {E : Type 0} (open_file : Text → Option (List E)) (contents : Text → List E) where
  run_produce-no_reader :
      (n : ℕ) (s : FileSource E) → 0 < n → s.reader ≡ none → run_produce open_file n s ≡ none
  unfolding run_produce round
  run_produce-no_reader zero s n h = absurd (omega (arith, n))
  run_produce-no_reader (suc k) s n h = rw h refl

  -- The first source of a reader that is configured, and stopped after `done` rounds of each.
  stopped_first :
      (done : Text → ℕ) (r r' : FileReader (file_source open_file)) (name : Text) (s : FileSource E)
      (m : Map (FileSource E))
      → r.source_emus ≡ (name, s) ∷ m
      → do_stop (file_source open_file) done r ≡ some r'
      → (t : FileSource E) × (rest : Map (FileSource E)) × (run_produce open_file (done name) s
          ≡ some t)
        × (r'.source_emus ≡ (name, t) ∷ rest)
        × (r'.configured ≡ r.configured)
  unfolding do_stop stop_each
  stopped_first done r r' name s m e h =
      let (all, h1, h2) = >>=-eq-some (stop_each (file_source open_file) done r.source_emus) _ h in
      let split : stop_each (file_source open_file) done ((name, s) ∷ m) ≡ some all =
        ap (stop_each (file_source open_file) done) (sym e) ∙ h1 in
      let (t, k1, k2) = >>=-eq-some (run_produce open_file (done name) s) _ split in
      let (rest, k3, k4) = >>=-eq-some (stop_each (file_source open_file) done m) _ k2 in
      (
        t,
        rest,
        k1,
        ap (λ x. x.source_emus) (sym (some_inj.0 h2)) ∙ sym (some_inj.0 k4),
        ap (λ x. x.configured) (sym (some_inj.0 h2)),
      )

  -- A reader that is configured runs until its first source has no file left, and is stopped; when it is
  -- configured and started again, do_conf passes and changes nothing although that source is not configured, and
  -- the source's thread uses a reader that is not there in its first round.
  pub do_start-again :
      (done again : Text → ℕ) (cfg : ReaderConf ℕ (List Text))
      (r r' : FileReader (file_source open_file)) (name : Text) (es : List E) (fs : List Text)
      (s : FileSource E) (m : Map (FileSource E))
      → r.configured ≡ true
      → r.source_emus ≡ (name, s) ∷ m
      → s.reader ≡ some es
      → s.files_left ≡ fs
      → s.is_configured ≡ true
      → All (Opens open_file contents) fs
      → length es + 1 + rounds contents fs ≤ done name
      → 0 < again name
      → do_stop (file_source open_file) done (do_start (file_source open_file) r) ≡ some r'
      → (do_conf (file_source open_file) cfg r' ≡ some (none, r'))
        × (all_configured (file_source open_file) r'.source_emus ≡ false)
        × (do_stop (file_source open_file) again (do_start (file_source open_file) r') ≡ none)
  unfolding do_conf do_start each all_configured do_stop stop_each start
  do_start-again done again cfg r r' name es fs s m on first l left c opens n more h =
      let begun : FileSource E = record s { packet_count_tot = 0 } in
      let p = run_produce-files open_file contents (done name) es fs begun l left c opens n in
      let (t, rest, ran, now, still) =
        stopped_first done (do_start (file_source open_file) r) r' name begun
          (each (file_source open_file) start m) (ap (each (file_source open_file) start) first)
          h in
      let same : p.final ≡ t = some_inj.0 (sym p.returns ∙ ran) in
      let off : t.is_configured ≡ false = ap (λ x. x.is_configured) (sym same) ∙ p.not_configured in
      let gone : t.reader ≡ none = ap (λ x. x.reader) (sym same) ∙ p.no_reader in
      let marked : r'.configured ≡ true = still ∙ on in
      (
        rw marked refl,
        ap (all_configured (file_source open_file)) now ∙ rw off refl,
        rw now (
            rw (run_produce-no_reader (again name) (record t { packet_count_tot = 0 }) more gone)
              refl),
      )
