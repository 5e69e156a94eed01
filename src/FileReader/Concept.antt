-- ===== src/FileReader/Concept.antt =====
-- The interface of a source (include/snbmodules/readout/FileSourceConcept.hpp), and FileSourceModel
-- (include/snbmodules/readout/detail/FileSourceModel.hxx) as one.
use snbmodules.Common.{
  ◌>>=◌, if◌then◌else◌, ℕ, ◌≡◌, refl, Bool, true, false, Option, none, some, List, Text, sym, ap,
  ◌∙◌, >>=-eq-some,
}
use mathlib.Core.Option.{some_inj}
use snbmodules.FileSource.Model.{FileSource, open_next_file, conf, start, scrap, run_produce}

-- The data type of a callback and its destination stay with the source. `conf` says whether it returns.
-- `stop` waits for the thread that `start` set to work, which has done the given number of rounds; `none` is
-- the use of a reader that is not there, or an exception in the thread.
pub record SourceConcept (Stream Params : Type 0) : Type 1 where
  pub Source : Type 0
  pub set_sender : Text → Source → Source
  pub conf : Stream → Params → Source → Bool × Source
  pub start : Source → Source
  pub stop : ℕ → Source → Option Source
  pub scrap : Source → Source
  pub is_configured : Source → Bool

-- What the commands rely on.
pub record SourceLaws {Stream Params : Type 0} (c : SourceConcept Stream Params) : Type 0 where
  pub set_sender-configured :
      (uid : Text) (s : c.Source) → c.is_configured (c.set_sender uid s) ≡ c.is_configured s
  pub conf-configured :
      (stream : Stream) (params : Params) (s : c.Source)
      → (c.conf stream params s).0 ≡ true
      → c.is_configured (c.conf stream params s).1 ≡ true
  pub start-configured : (s : c.Source) → c.is_configured (c.start s) ≡ c.is_configured s
  pub scrap-configured : (s : c.Source) → c.is_configured (c.scrap s) ≡ false

module _ {E : Type 0} (open_file : Text → Option (List E)) where
  -- When a file does not open, the list of files is set and the rest is as before.
  unfoldable pub conf_result :
      List Text → FileSource E → Option (FileSource E) → Bool × FileSource E
  conf_result names s none = (false, record s { files_left = names })
  conf_result names s (some t) = (true, t)

  -- The parameters are the names of the files; the stream only names the source.
  abbrev pub file_source : SourceConcept ℕ (List Text)
  file_source = record {
    Source = FileSource E;
    set_sender = λ uid s. s;
    conf = λ stream names s. conf_result names s (conf open_file names s);
    start = start;
    stop = run_produce open_file;
    scrap = scrap;
    is_configured = λ s. s.is_configured;
  }

  begun-configured :
      (b : Bool) (s t : FileSource E) (next : Option (FileSource E))
      → s.is_configured ≡ b
      → (if b then some s else next >>= λ u. some (record u { is_configured = true })) ≡ some t
      → t.is_configured ≡ true
  begun-configured true s t next k h = ap (λ x. x.is_configured) (sym (some_inj.0 h)) ∙ k
  begun-configured false s t next k h =
      let (u, h1, h2) = >>=-eq-some next _ h in ap (λ x. x.is_configured) (sym (some_inj.0 h2))

  conf-configured_lem :
      (names : List Text) (s t : FileSource E)
      → conf open_file names s ≡ some t
      → t.is_configured ≡ true
  unfolding conf
  conf-configured_lem names s t h =
      begun-configured s.is_configured s t
        (open_next_file open_file (record s { files_left = names })) refl h

  conf_result-configured :
      (names : List Text) (s : FileSource E) (o : Option (FileSource E))
      → conf open_file names s ≡ o
      → (conf_result names s o).0 ≡ true
      → (conf_result names s o).1.is_configured ≡ true
  unfolding conf_result
  conf_result-configured names s none e h = cc
  conf_result-configured names s (some t) e h = conf-configured_lem names s t e

  pub file_source-SourceLaws : SourceLaws file_source
  unfolding start scrap
  file_source-SourceLaws = record {
    set_sender-configured = λ uid s. refl;
    conf-configured =
        λ stream names s h. conf_result-configured names s (conf open_file names s) refl h;
    start-configured = λ s. refl;
    scrap-configured = λ s. refl;
  }
