-- ===== src/DataHandling/Run.antt =====
-- A run of postprocess_schedule (include/snbmodules/readout/detail/SNBDataHandlingModel.hxx).
use snbmodules.Common.{
  ℕ, ◌≡◌, ◌≤◌, ◌<◌, refl, sym, ap, ◌∙◌, ◌⊎◌, inl, inr, false, Option, none, some, List, [], ◌∷◌,
  ◌++◌, length, leb, ◌==◌, >>=-some, arith, Bool-cases,
}
use mathlib.Core.Path.{subst}
use mathlib.Core.List.{append-nil, append_assoc}
use snbmodules.RequestHandler.Buffer.{Element, Ascending, last?}
use snbmodules.DataHandling.Schedule.{
  waited, attend, OrderedBuffer, Delays, Scheduler, Round, handle_data, post_process,
  postprocess_schedule, minus64,
}
use snbmodules.DataHandling.Window.{window}
use snbmodules.DataHandling.Rounds.{Handled, handle_data-Handled}

-- Windows that follow one another without a gap, each of the buffer of a round, and what is in them; a
-- round may handle none.
pub data Consecutive (ob : OrderedBuffer) : List (Round ob) → ℕ → ℕ → List Element → Type 0 where
  finish : (a : ℕ) → Consecutive ob [] a a []
  idle :
      (r : Round ob) (rs : List (Round ob)) (a c : ℕ) (items : List Element)
      → Consecutive ob rs a c items
      → Consecutive ob (r ∷ rs) a c items
  next :
      (r : Round ob) (rs : List (Round ob)) (a b c : ℕ) (items : List Element)
      → a ≤ b
      → Consecutive ob rs b c items
      → Consecutive ob (r ∷ rs) a c (window a b (ob.lb.begin r.buffer) ++ items)

abbrev pub newest_of : ℕ → Option Element → ℕ
newest_of m none = m
newest_of m (some t) = t.timestamp

last_of : (e : Element) (es : List Element) → (t : Element) × (last? (e ∷ es) ≡ some t)
last_of e [] = (e, refl)
last_of e (f ∷ es) = last_of f es

full : (es : List Element) → (length es == 0) ≡ false → (t : Element) × (last? es ≡ some t)
full [] h = cc
full (e ∷ es) h = last_of e es

module _ (ob : OrderedBuffer) (d : Delays) where
  -- The buffers are ordered, and their newest timestamp, which fits in 64 bits, does not fall.
  abbrev pub Rising : ℕ → List (Round ob) → Type 0
  Rising m [] = Unit
  Rising m (r ∷ rs) =
      let n = newest_of m (last? (ob.lb.begin r.buffer)) in
      Ascending (ob.lb.begin r.buffer) × (n < 18446744073709551616) × (m ≤ n) × Rising n rs

  -- A round that does nothing.
  record Idle (s s' : Scheduler) : Type 0 where
    pub position : s'.processed_element ≡ s.processed_element
    pub cycle : s'.first_cycle ≡ s.first_cycle
    pub items : s'.handled ≡ s.handled

  abbrev Outcome : Round ob → Scheduler → Scheduler → Type 0
  Outcome r s s' = Idle s s' ⊎ ((tail : Element) × Handled ob d r.buffer tail s s')

  -- A round on a buffer that is not empty, when it is time.
  in_time :
      (m : ℕ) (r : Round ob) (s : Scheduler) (tail : Element)
      → last? (ob.lb.begin r.buffer) ≡ some tail
      → Ascending (ob.lb.begin r.buffer)
      → newest_of m (last? (ob.lb.begin r.buffer)) < 18446744073709551616
      → m ≤ newest_of m (last? (ob.lb.begin r.buffer))
      → (s.first_cycle ≡ false → s.processed_element ≤ m)
      → (s' : Scheduler) × (handle_data ob d r.buffer s ≡ some s')
        × Handled ob d r.buffer tail s s'
        × (s'.processed_element ≤ newest_of m (last? (ob.lb.begin r.buffer)))
  in_time m r s tail l v range rises ready =
      let n = subst (λ x. m ≤ newest_of m x) l rises in
      let (s', e, h, le) =
        handle_data-Handled ob d r.buffer s tail v l
          (subst (λ x. newest_of m x < 18446744073709551616) l range)
          (λ f. let k = ready f in omega (arith, k, n)) in
      (s', e, h, subst (λ x. s'.processed_element ≤ newest_of m x) (sym l) le)

  -- A round leaves the processing where it was, or handles a window.
  abbrev Attended : ℕ → Round ob → Scheduler → Option Scheduler → Type 0
  Attended m r s x =
      (s' : Scheduler) × (x ≡ some s')
      × Outcome r s s'
      × (s'.first_cycle ≡ false → s'.processed_element ≤ newest_of m (last? (ob.lb.begin r.buffer)))

  stay_idle :
      (m : ℕ) (r : Round ob) (s : Scheduler)
      → m ≤ newest_of m (last? (ob.lb.begin r.buffer))
      → (s.first_cycle ≡ false → s.processed_element ≤ m)
      → Attended m r s (some s)
  stay_idle m r s rises ready = (
    s,
    refl,
    inl (record { position = refl; cycle = refl; items = refl }),
    λ f. let k = ready f in omega (arith, k, rises),
  )

  attend-Attended :
      (m : ℕ) (r : Round ob) (s : Scheduler)
      → Ascending (ob.lb.begin r.buffer)
      → newest_of m (last? (ob.lb.begin r.buffer)) < 18446744073709551616
      → m ≤ newest_of m (last? (ob.lb.begin r.buffer))
      → (s.first_cycle ≡ false → s.processed_element ≤ m)
      → Attended m r s (attend ob d r s)
  unfolding attend
  attend-Attended m r s v range rises ready = elim (Bool-cases (ob.lb.occupancy r.buffer == 0)) [
    | inl k ↦ subst (Attended m r s) (sym (rw (k, attend) refl)) (stay_idle m r s rises ready)
    | inr k ↦
        elim (Bool-cases
          (leb (minus64 r.now s.last_post_proc_time) d.post_processing_delay_min_wait)) [
            | inl t ↦
                subst (Attended m r s) (sym (rw (k, t, attend) refl)) (stay_idle m r s rises ready)
            | inr t ↦
                let (tail, l) =
                  full (ob.lb.begin r.buffer)
                    (ap (λ n. n == 0) (sym (ob.lb.occupancy_begin r.buffer)) ∙ k) in
                let (s', e, h, le) =
                  in_time m r (record s { last_post_proc_time = r.now }) tail l v range rises
                    ready in
                (
                  s',
                  rw (k, t, attend) e,
                  inr (
                    tail,
                    record {
                      start = h.start;
                      continues = h.continues;
                      oldest = h.oldest;
                      moves = h.moves;
                      begun = h.begun;
                      ends = h.ends;
                      items = h.items;
                    },
                  ),
                  λ f. le,
                )
          ]
  ]

  waited-Idle : (r : Round ob) (s : Scheduler) → Idle s (waited ob d r s)
  unfolding waited
  waited-Idle r s = elim (Bool-cases r.posted) [
    | inl k ↦ rw k (record { position = refl; cycle = refl; items = refl })
    | inr k ↦ rw k (record { position = refl; cycle = refl; items = refl })
  ]

  -- The wait does not matter for what a round does.
  after_wait : (r : Round ob) (s t s' : Scheduler) → Idle s t → Outcome r t s' → Outcome r s s'
  after_wait r s t s' i (inl j) = inl (record {
    position = j.position ∙ i.position;
    cycle = j.cycle ∙ i.cycle;
    items = j.items ∙ i.items;
  })
  after_wait r s t s' i (inr (tail, h)) = inr (
    tail,
    record {
      start = h.start;
      continues = λ f. h.continues (i.cycle ∙ f) ∙ i.position;
      oldest = λ f. h.oldest (i.cycle ∙ f);
      moves = h.moves;
      begun = h.begun;
      ends = h.ends;
      items =
          h.items
          ∙ ap (λ is. is ++ window h.start s'.processed_element (ob.lb.begin r.buffer)) i.items;
    },
  )

  post_process-Attended :
      (m : ℕ) (r : Round ob) (s : Scheduler)
      → Ascending (ob.lb.begin r.buffer)
      → newest_of m (last? (ob.lb.begin r.buffer)) < 18446744073709551616
      → m ≤ newest_of m (last? (ob.lb.begin r.buffer))
      → (s.first_cycle ≡ false → s.processed_element ≤ m)
      → Attended m r s (post_process ob d r s)
  unfolding post_process
  post_process-Attended m r s v range rises ready =
      let t = waited ob d r s in
      let i = waited-Idle r s in
      let (s', e, o, le) =
        attend-Attended m r t v range rises
          (λ f. subst (λ n. n ≤ m) (sym i.position) (ready (sym i.cycle ∙ f))) in
      (s', e, after_wait r s t s' i o, le)

  -- What a run has handled.
  pub record Done (rs : List (Round ob)) (s s' : Scheduler) : Type 0 where
    pub start : ℕ
    pub new : List Element
    pub continues : s.first_cycle ≡ false → start ≡ s.processed_element
    pub items : s'.handled ≡ s.handled ++ new
    pub windows : Consecutive ob rs start s'.processed_element new

  round_then :
      (r : Round ob) (rs : List (Round ob)) (s t s' : Scheduler)
      → Outcome r s t
      → Done rs t s'
      → Done (r ∷ rs) s s'
  round_then r rs s t s' (inl i) k = record {
    start = k.start;
    new = k.new;
    continues = λ f. k.continues (i.cycle ∙ f) ∙ i.position;
    items = k.items ∙ ap (λ is. is ++ k.new) i.items;
    windows = idle r rs k.start s'.processed_element k.new k.windows;
  }
  round_then r rs s t s' (inr (tail, h)) k = record {
    start = h.start;
    new = window h.start t.processed_element (ob.lb.begin r.buffer) ++ k.new;
    continues = h.continues;
    items =
        k.items
        ∙ ap (λ is. is ++ k.new) h.items
        ∙ append_assoc s.handled (window h.start t.processed_element (ob.lb.begin r.buffer)) k.new;
    windows = next r rs h.start t.processed_element s'.processed_element k.new h.moves (
        subst (λ a. Consecutive ob rs a s'.processed_element k.new) (k.continues h.begun)
          k.windows);
  }

  -- Over rounds whose buffers are ordered, with a newest timestamp that does not fall, the schedule never
  -- uses an element that is not there, and what it handles are, in order, all elements of windows of the
  -- rounds' buffers, each of which begins where the last one ended; the first begins where the processing
  -- stood, if it had begun.
  pub postprocess_schedule-Done :
      (rs : List (Round ob)) (m : ℕ) (s : Scheduler)
      → Rising m rs
      → (s.first_cycle ≡ false → s.processed_element ≤ m)
      → (s' : Scheduler) × (postprocess_schedule ob d rs s ≡ some s') × Done rs s s'
  unfolding postprocess_schedule
  postprocess_schedule-Done [] m s h ready = (
    s,
    refl,
    record {
      start = s.processed_element;
      new = [];
      continues = λ f. refl;
      items = sym (append-nil s.handled);
      windows = finish s.processed_element;
    },
  )
  postprocess_schedule-Done (r ∷ rs) m s (v, range, rises, later) ready =
      let (t, e, o, le) = post_process-Attended m r s v range rises ready in
      let (s', e', k) =
        postprocess_schedule-Done rs (newest_of m (last? (ob.lb.begin r.buffer))) t later le in
      (s', >>=-some _ _ e e', round_then r rs s t s' o k)
