-- ===== src/FileReader/Configured.antt =====
-- What do_conf of src/readout/FileReaderBase.cpp configures.
use snbmodules.Common.{
  All, ℕ, ◌≡◌, ◌≢◌, refl, sym, ap, ◌∙◌, Bool, true, false, ◌||◌, Option, none, some, List, [], ◌∷◌,
  Text, text_eq, text_eq→eq, text_eq_refl, lookup, lookup-insert, Bool-cases, inl, inr, >>=-eq-some,
  if◌then◌else◌,
}
use mathlib.Core.Option.{some_inj}
use snbmodules.FileReader.Concept.{SourceConcept, SourceLaws}
use snbmodules.FileReader.Base.{
  not_all_configured, source_failed, CallbackConf, ReaderConf, Failure, FileReader, Result,
  find_stream, set_source, configure, configure_all, all_configured, check_configured, do_conf,
}

if-false : {A : Type 0} → (b : Bool) (x y z : A) → b ≡ false → (if b then x else y) ≡ z → y ≡ z
if-false true x y z off h = absurd (let e : true ≡ false = off in cc)
if-false false x y z off h = h

-- Is the callback among these?
unfoldable pub names : Text → List CallbackConf → Bool
names u [] = false
names u (cb ∷ cbs) = text_eq cb.uid u || names u cbs

-- No callback is there twice.
abbrev pub Distinct : List CallbackConf → Type 0
Distinct [] = Unit
Distinct (cb ∷ cbs) = (names cb.uid cbs ≡ false) × Distinct cbs

module _ {Stream Params : Type 0} (c : SourceConcept Stream Params) where
  failed :
      (f : Failure) (r r' : FileReader c)
      → ◌≢◌ {A = Option (Result c)} (some (some f, r)) (some (none, r'))
  failed f r r' h = let e : some f ≡ none = ap (λ x. x.0) (some_inj.0 h) in cc

  -- What configure leaves in the map.
  abbrev conf_of : CallbackConf → c.Source → Stream → Params → Bool × c.Source
  conf_of cb s stream params = c.conf stream params (c.set_sender cb.uid s)

  lookup-configure :
      (cb : CallbackConf) (s : c.Source) (stream : Stream) (params : Params) (r : FileReader c)
      (j : Text)
      → lookup j (configure c cb s stream params r).1.source_emus
        ≡ (if text_eq cb.uid j then some (conf_of cb s stream params).1 else lookup j r.source_emus)
  unfolding configure set_source
  lookup-configure cb s stream params r j =
      lookup-insert cb.uid j (conf_of cb s stream params).1 r.source_emus

  returned-conf :
      (cb : CallbackConf) (s : c.Source) (stream : Stream) (params : Params) (r : FileReader c)
      → (configure c cb s stream params r).0 ≡ true
      → (conf_of cb s stream params).0 ≡ true
  unfolding configure
  returned-conf cb s stream params r h = h

module _ {Stream Params : Type 0} {c : SourceConcept Stream Params} (laws : SourceLaws c)
    (streams : List (ℕ × Stream)) (params : Params) where
  -- A first callback that was configured, and what came after it.
  record Went (cb : CallbackConf) (cbs : List CallbackConf) (r r' : FileReader c) : Type 0 where
    source : c.Source
    found : lookup cb.uid r.source_emus ≡ some source
    fresh : c.is_configured source ≡ false
    stream : Stream
    has_stream : find_stream cb.source_id streams ≡ some stream
    returned : (configure c cb source stream params r).0 ≡ true
    onward :
        configure_all c streams params cbs (configure c cb source stream params r).1
        ≡ some (none, r')

  go_on :
      (cb : CallbackConf) (cbs : List CallbackConf) (r r' : FileReader c) (s : c.Source)
      (stream : Stream)
      → lookup cb.uid r.source_emus ≡ some s
      → c.is_configured s ≡ false
      → find_stream cb.source_id streams ≡ some stream
      → (if (configure c cb s stream params r).0
          then configure_all c streams params cbs (configure c cb s stream params r).1
          else some (some (source_failed cb.uid), (configure c cb s stream params r).1))
        ≡ some (none, r')
      → Went cb cbs r r'
  go_on cb cbs r r' s stream l f st = elim (Bool-cases (configure c cb s stream params r).0) [
    | inl k ↦ rw k (λ h. record {
      source = s;
      found = l;
      fresh = f;
      stream = stream;
      has_stream = st;
      returned = k;
      onward = h;
    })
    | inr k ↦ rw k (λ h. absurd (failed c _ _ _ h))
  ]

  configure_all-Went :
      (cb : CallbackConf) (cbs : List CallbackConf) (r r' : FileReader c) (o : Option c.Source)
      → lookup cb.uid r.source_emus ≡ o
      → configure_all c streams params (cb ∷ cbs) r ≡ some (none, r')
      → Went cb cbs r r'
  unfolding configure_all
  configure_all-Went cb cbs r r' none l = rw (configure_all, l) (λ h. absurd (failed c _ _ _ h))
  configure_all-Went cb cbs r r' (some s) l = elim (Bool-cases (c.is_configured s)) [
    | inl k ↦ rw (configure_all, l, k) (λ h. absurd (failed c _ _ _ h))
    | inr k ↦
        rw (configure_all, l, k)
          (λ h.
            let (stream, h1, h2) = >>=-eq-some (find_stream cb.source_id streams) _ h in
            go_on cb cbs r r' s stream l k h1 h2)
  ]

  -- A source that is configured is not met again.
  configured-names :
      (u : Text) (cbs : List CallbackConf) (r r' : FileReader c) (s : c.Source)
      → lookup u r.source_emus ≡ some s
      → c.is_configured s ≡ true
      → configure_all c streams params cbs r ≡ some (none, r')
      → names u cbs ≡ false
  unfolding names
  configured-names u [] r r' s l k h = refl
  configured-names u (cb ∷ cbs) r r' s l k h =
      let w = configure_all-Went cb cbs r r' (lookup cb.uid r.source_emus) refl h in
      elim (Bool-cases (text_eq cb.uid u)) [
        | inl e ↦
            let same : w.source ≡ s =
              some_inj.0
                (sym w.found ∙ ap (λ x. lookup x r.source_emus) (text_eq→eq cb.uid u e) ∙ l) in
            let clash : true ≡ false = sym k ∙ ap c.is_configured (sym same) ∙ w.fresh in cc
        | inr e ↦ rw e (
            configured-names u cbs (configure c cb w.source w.stream params r).1 r' s
              (lookup-configure c cb w.source w.stream params r u ∙ rw e l) k w.onward)
      ]

  configure_all-Distinct :
      (cbs : List CallbackConf) (r r' : FileReader c)
      → configure_all c streams params cbs r ≡ some (none, r')
      → Distinct cbs
        × All (λ cb. (stream : Stream) × (find_stream cb.source_id streams ≡ some stream)) cbs
  configure_all-Distinct [] r r' h = (tt, tt)
  configure_all-Distinct (cb ∷ cbs) r r' h =
      let w = configure_all-Went cb cbs r r' (lookup cb.uid r.source_emus) refl h in
      let after = (configure c cb w.source w.stream params r).1 in
      let (d, st) = configure_all-Distinct cbs after r' w.onward in
      (
        (
          configured-names cb.uid cbs after r' (conf_of c cb w.source w.stream params).1
              (lookup-configure c cb w.source w.stream params r cb.uid
                ∙ rw (text_eq_refl cb.uid) refl)
              (laws.conf-configured w.stream params (c.set_sender cb.uid w.source)
                (returned-conf c cb w.source w.stream params r w.returned))
              w.onward,
          d,
        ),
        ((w.stream, w.has_stream), st),
      )

module _ {Stream Params : Type 0} {c : SourceConcept Stream Params} (laws : SourceLaws c)
    (cfg : ReaderConf Stream Params) where
  checked :
      (o : Option Failure) (mid r' : FileReader c)
      → check_configured c (o, mid) ≡ (none, r')
      → (o ≡ none)
        × (all_configured c mid.source_emus ≡ true)
        × (record mid { configured = true } ≡ r')
  unfolding check_configured
  checked (some f) mid r' = λ h. let e : some f ≡ none = ap (λ x. x.0) h in cc
  checked none mid r' = elim (Bool-cases (all_configured c mid.source_emus)) [
    | inl k ↦ rw k (λ h. (refl, refl, ap (λ x. x.1) h))
    | inr k ↦ rw k (λ h. let e : some not_all_configured ≡ none = ap (λ x. x.0) h in cc)
  ]

  -- A reader that do_conf configures had no callback twice and a stream for each; all of its sources are
  -- configured then, it is marked so, and the command changes nothing when it comes again.
  pub do_conf-Distinct :
      (r r' : FileReader c)
      → r.configured ≡ false
      → do_conf c cfg r ≡ some (none, r')
      → Distinct cfg.callbacks
        × All
            (λ cb. (stream : Stream) × (find_stream cb.source_id cfg.streams ≡ some stream))
            cfg.callbacks
        × (all_configured c r'.source_emus ≡ true)
        × (r'.configured ≡ true)
        × (do_conf c cfg r' ≡ some (none, r'))
  unfolding do_conf
  do_conf-Distinct r r' off h =
      let ((o, mid), h1, h2) =
        >>=-eq-some (configure_all c cfg.streams cfg.snb_conf cfg.callbacks r) _
          (if-false r.configured _ _ _ off h) in
      let (e, all, same) = checked o mid r' (some_inj.0 h2) in
      let (d, st) =
        configure_all-Distinct laws cfg.streams cfg.snb_conf cfg.callbacks r mid
          (h1 ∙ ap (λ x. some (x, mid)) e) in
      let marked : r'.configured ≡ true = ap (λ x. x.configured) (sym same) in
      (d, st, ap (λ x. all_configured c x.source_emus) (sym same) ∙ all, marked, rw marked refl)
