-- ===== src/FileReader/Base.antt =====
-- The state and the commands of FileReaderBase (src/readout/FileReaderBase.cpp). The configuration that a
-- ConfigurationManager gives and create_source_emulator of the final module are arguments.
use snbmodules.Common.{
  ℕ, ◌==◌, Bool, true, false, ◌&&◌, Option, none, some, List, [], ◌∷◌, Text, Map, lookup, insert,
  if◌then◌else◌, ◌>>=◌,
}
use snbmodules.FileReader.Concept.{SourceConcept}

pub record CallbackConf : Type 0 where
  pub uid : Text
  pub source_id : ℕ

-- The streams of all connections, in order.
pub record ReaderConf (Stream Params : Type 0) : Type 0 where
  pub emulation_mode : Bool
  pub callbacks : List CallbackConf
  pub streams : List (ℕ × Stream)
  pub snb_conf : Params

-- The exceptions: a callback that init meets twice or cannot make; one that has no source; one whose
-- source is configured already; one whose source throws; a source without a callback.
pub data Failure : Type 0 where
  used_twice not_created queue_not_found configured_twice source_failed : Text → Failure
  not_all_configured : Failure

-- `streams[stream->get_source_id()] = stream` in order, and a search.
unfoldable pub find_stream : {S : Type 0} → ℕ → List (ℕ × S) → Option S
find_stream k [] = none
find_stream k ((j, s) ∷ ss) = elim (find_stream k ss) [
  | none ↦ if j == k then some s else none
  | some later ↦ some later
]

module _ {Stream Params : Type 0} (c : SourceConcept Stream Params) where
  pub record FileReader : Type 0 where
    pub configured : Bool
    pub run_marker : Bool
    pub source_emus : Map c.Source

  -- The constructor.
  unfoldable pub make_reader : FileReader
  make_reader = record { configured = false; run_marker = false; source_emus = [] }

  -- How a command ends, and the reader then.
  abbrev pub Result : Type 0
  Result = Option Failure × FileReader

  unfoldable pub set_source : Text → c.Source → FileReader → FileReader
  set_source uid s r = record r { source_emus = insert uid s r.source_emus }

  -- The loop of init; `create` gives nothing for a data type that is unknown. The null pointer that is in the
  -- map then is left out, as the module is not used after the exception.
  unfoldable pub create_all :
      (CallbackConf → Option c.Source) → List CallbackConf → FileReader → Result
  create_all create [] r = (none, r)
  create_all create (cb ∷ cbs) r = elim (lookup cb.uid r.source_emus) [
    | some s ↦ (some (used_twice cb.uid), r)
    | none ↦ elim (create cb) [
      | none ↦ (some (not_created cb.uid), r)
      | some s ↦ create_all create cbs (set_source cb.uid s r)
    ]
  ]

  unfoldable pub init :
      (CallbackConf → Option c.Source) → ReaderConf Stream Params → FileReader → Result
  unfolding create_all
  init create cfg r =
      let made = create_all create cfg.callbacks r in if cfg.emulation_mode then made else (none, r)

  -- The source of a callback is given its sender and configured; whether it is now.
  unfoldable pub configure :
      CallbackConf → c.Source → Stream → Params → FileReader → Bool × FileReader
  unfolding set_source
  configure cb s stream params r =
      let (returned, t) = c.conf stream params (c.set_sender cb.uid s) in
      (returned, set_source cb.uid t r)

  -- The loop of do_conf over the callbacks; `none` is the use of a stream that is a null pointer.
  unfoldable pub configure_all :
      List (ℕ × Stream) → Params → List CallbackConf → FileReader → Option Result
  unfolding configure
  configure_all streams params [] r = some (none, r)
  configure_all streams params (cb ∷ cbs) r = elim (lookup cb.uid r.source_emus) [
    | none ↦ some (some (queue_not_found cb.uid), r)
    | some s ↦
        if c.is_configured s
        then some (some (configured_twice cb.uid), r)
        else find_stream cb.source_id streams >>= λ stream.
            let (returned, after) = configure cb s stream params r in
            let rest = configure_all streams params cbs after in
            if returned then rest else some (some (source_failed cb.uid), after)
  ]

  unfoldable pub all_configured : Map c.Source → Bool
  all_configured [] = true
  all_configured ((name, s) ∷ m) = let rest = all_configured m in c.is_configured s && rest

  unfoldable pub check_configured : Result → Result
  unfolding all_configured
  check_configured (some failure, r) = (some failure, r)
  check_configured (none, r) =
      if all_configured r.source_emus
      then (none, record r { configured = true })
      else (some not_all_configured, r)

  unfoldable pub do_conf : ReaderConf Stream Params → FileReader → Option Result
  unfolding configure_all check_configured
  do_conf cfg r =
      if r.configured
      then some (none, r)
      else configure_all cfg.streams cfg.snb_conf cfg.callbacks r >>= λ result.
          some (check_configured result)

  unfoldable pub each : (c.Source → c.Source) → Map c.Source → Map c.Source
  each f [] = []
  each f ((name, s) ∷ m) = (name, f s) ∷ each f m

  unfoldable pub do_scrap : FileReader → FileReader
  unfolding each
  do_scrap r = record r { source_emus = each c.scrap r.source_emus; configured = false }

  unfoldable pub do_start : FileReader → FileReader
  unfolding each
  do_start r = record r { run_marker = true; source_emus = each c.start r.source_emus }

  -- The rounds that each source's thread has done since the start.
  unfoldable pub stop_each : (Text → ℕ) → Map c.Source → Option (Map c.Source)
  stop_each rounds [] = some []
  stop_each rounds ((name, s) ∷ m) =
      c.stop (rounds name) s >>= λ t. stop_each rounds m >>= λ rest. some ((name, t) ∷ rest)

  unfoldable pub do_stop : (Text → ℕ) → FileReader → Option FileReader
  unfolding stop_each
  do_stop rounds r = stop_each rounds r.source_emus >>= λ m.
      some (record r { run_marker = false; source_emus = m })
