-- ===== src/FileSource/Production.antt =====
-- What the producer sends.
use snbmodules.Common.{
  ◌%◌, ℕ, zero, suc, ◌+◌, ◌≤◌, ◌≡◌, refl, sym, ◌∙◌, true, false, Option, none, some, List, [], ◌∷◌,
  ◌++◌, Text, length, All, arith,
}
use mathlib.Core.Option.{some_inj}
use mathlib.Core.Path.{subst}
use mathlib.Core.List.{append_assoc, append-nil}
use snbmodules.FileSource.Model.{FileSource, open_next_file, conf, round, run_produce}

module _ {E : Type 0} (contents : Text → List E) where
  -- All elements of the files, in order.
  abbrev pub all_of : List Text → List E
  all_of [] = []
  all_of (f ∷ fs) = contents f ++ all_of fs

  -- The rounds that reading the files takes: one for each element, one for each end.
  abbrev pub rounds : List Text → ℕ
  rounds [] = 0
  rounds (f ∷ fs) = length (contents f) + 1 + rounds fs

module _ {E : Type 0} (open_file : Text → Option (List E)) (contents : Text → List E) where
  abbrev pub Opens : Text → Type 0
  Opens f = open_file f ≡ some (contents f)

  -- The producer has sent `es` and stopped.
  pub record Produced (s : FileSource E) (es : List E) (result : Option (FileSource E))
      : Type 0 where
    pub final : FileSource E
    pub returns : result ≡ some final
    pub all_sent : final.sent ≡ s.sent ++ es
    pub not_configured : final.is_configured ≡ false
    pub no_reader : final.reader ≡ none

  pub run_produce-files :
      (fuel : ℕ) (es : List E) (fs : List Text) (s : FileSource E)
      → s.reader ≡ some es
      → s.files_left ≡ fs
      → s.is_configured ≡ true
      → All Opens fs
      → length es + 1 + rounds contents fs ≤ fuel
      → Produced s (es ++ all_of contents fs) (run_produce open_file fuel s)
  unfolding run_produce round open_next_file
  run_produce-files zero es fs s r l c h n = absurd (omega arith)
  run_produce-files (suc fuel) [] [] s r l c h n =
      rw (r, l)
        (record {
          final = record s { files_left = []; reader = none; is_configured = false };
          returns = refl;
          all_sent = sym (append-nil s.sent);
          not_configured = refl;
          no_reader = refl;
        })
  run_produce-files (suc fuel) [] (f ∷ fs) s r l c h n =
      let next : FileSource E = record s {
        reader = some (contents f);
        files_left = fs;
        is_configured = true;
      } in
      let p = run_produce-files fuel (contents f) fs next refl refl refl h.1 (omega arith) in
      rw (r, l, h.0, c)
        (record {
          final = p.final;
          returns = p.returns;
          all_sent = p.all_sent;
          not_configured = p.not_configured;
          no_reader = p.no_reader;
        })
  run_produce-files (suc fuel) (e ∷ es) fs s r l c h n =
      let next : FileSource E = record s {
        reader = some es;
        sent = s.sent ++ e ∷ [];
        packet_count = (s.packet_count + 1) % 4294967296;
        packet_count_tot = (s.packet_count_tot + 1) % 4294967296;
      } in
      let p = run_produce-files fuel es fs next refl l c h (omega arith) in
      rw r (record {
        final = p.final;
        returns = p.returns;
        all_sent = p.all_sent ∙ append_assoc s.sent (e ∷ []) (es ++ all_of contents fs);
        not_configured = p.not_configured;
        no_reader = p.no_reader;
      })

  -- A producer that is configured with files that all open sends every element of every file, in
  -- order, once the run lasts for as many rounds as there are elements and files; then it has
  -- stopped, closed its reader and is not configured.
  pub run_produce-conf :
      (fuel : ℕ) (f : Text) (fs : List Text) (s t : FileSource E)
      → s.is_configured ≡ false
      → All Opens (f ∷ fs)
      → conf open_file (f ∷ fs) s ≡ some t
      → rounds contents (f ∷ fs) ≤ fuel
      → Produced s (all_of contents (f ∷ fs)) (run_produce open_file fuel t)
  unfolding conf open_next_file
  run_produce-conf fuel f fs s t off h e n =
      let begun : FileSource E = record s {
        reader = some (contents f);
        files_left = fs;
        is_configured = true;
      } in
      let same : begun ≡ t = some_inj.0 (sym (rw (off, h.0) refl) ∙ e) in
      let p = run_produce-files fuel (contents f) fs begun refl refl refl h.1 n in
      subst (λ u. Produced s (all_of contents (f ∷ fs)) (run_produce open_file fuel u)) same
        (record {
          final = p.final;
          returns = p.returns;
          all_sent = p.all_sent;
          not_configured = p.not_configured;
          no_reader = p.no_reader;
        })

  -- Configured with no file, the source counts as configured, and its producer uses a reader that
  -- is not there in its first round.
  pub run_produce-no_file :
      (fuel : ℕ) (s t : FileSource E)
      → s.is_configured ≡ false
      → conf open_file [] s ≡ some t
      → (t.is_configured ≡ true) × (run_produce open_file (suc fuel) t ≡ none)
  unfolding conf open_next_file run_produce round
  run_produce-no_file fuel s t off e =
      let begun : FileSource E = record s {
        reader = none;
        files_left = [];
        is_configured = true;
      } in
      let same : begun ≡ t = some_inj.0 (sym (rw off refl) ∙ e) in
      subst (λ u. (u.is_configured ≡ true) × (run_produce open_file (suc fuel) u ≡ none)) same
        (refl, refl)
