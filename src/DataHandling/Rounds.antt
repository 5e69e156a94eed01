-- ===== src/DataHandling/Rounds.antt =====
-- The rounds of postprocess_schedule handle consecutive windows
-- (include/snbmodules/readout/detail/SNBDataHandlingModel.hxx).
use snbmodules.Common.{
  true, if◌then◌else◌, ltb→lt, ◌&&◌, keep_no, ℕ, ◌+◌, ◌-◌, ◌≡◌, ◌≤◌, ◌<◌, refl, sym, ap, ◌∙◌, inl,
  inr, false, some, List, [], ◌∷◌, ◌++◌, length, ltb, leb, arith, Bool-cases, >>=-some,
}
use mathlib.Core.Path.{subst}
use mathlib.Core.List.{append-nil}
use mathlib.Core.Option.{some_inj}
use snbmodules.RequestHandler.Buffer.{Element, Ascending, head?, last?}
use snbmodules.DataHandling.Schedule.{
  OrderedBuffer, Delays, Scheduler, handle_window, handle_data, first_position, minus64,
}
use snbmodules.DataHandling.Window.{window, walk-window}

window_none : (a : ℕ) (es : List Element) → window a a es ≡ []
window_none a [] = refl
window_none a (e ∷ es) =
    keep_no (λ f. leb a f.timestamp && ltb f.timestamp a) e es (ground arith) ∙ window_none a es

minus64_lem : (a b : ℕ) → b ≤ a → a < 18446744073709551616 → minus64 a b ≡ a - b
minus64_lem a b h k = omega (arith, h, k)

-- The newest element is not before the first.
head-last :
    (es : List Element) (h t : Element)
    → Ascending es
    → head? es ≡ some h
    → last? es ≡ some t
    → h.timestamp ≤ t.timestamp
head-last [] h t v p q = cc
head-last (e ∷ []) h t v p q =
    let he = ap (λ x. x.timestamp) (some_inj.0 p) in
    let te = ap (λ x. x.timestamp) (some_inj.0 q) in omega (arith, he, te)
head-last (e ∷ f ∷ es) h t v p q =
    let he = ap (λ x. x.timestamp) (some_inj.0 p) in
    let rest = head-last (f ∷ es) f t v.1 refl q in omega (arith, he, rest, v.0)

head_of :
    (es : List Element) (t : Element) → last? es ≡ some t → (h : Element) × (head? es ≡ some h)
head_of [] t q = cc
head_of (e ∷ es) t q = (e, refl)

module _ (ob : OrderedBuffer) (d : Delays) where
  -- A window that was handled: from where the processing stood, if it had begun, to where it stands.
  pub record Handled (b : ob.lb.Buffer) (tail : Element) (s s' : Scheduler) : Type 0 where
    pub start : ℕ
    pub continues : s.first_cycle ≡ false → start ≡ s.processed_element
    pub oldest :
        s.first_cycle ≡ true
        → (h : Element) × (head? (ob.lb.begin b) ≡ some h) × (start ≡ h.timestamp)
    pub moves : start ≤ s'.processed_element
    pub begun : s'.first_cycle ≡ false
    pub ends : s'.processed_element ≡ (
        if ltb d.processing_delay_ticks (tail.timestamp - start)
        then tail.timestamp - d.processing_delay_ticks
        else start)
    pub items : s'.handled ≡ s.handled ++ window start s'.processed_element (ob.lb.begin b)

  nothing_handled :
      (a : ℕ) (b : ob.lb.Buffer) (items : List Element)
      → items ≡ items ++ window a a (ob.lb.begin b)
  nothing_handled a b items =
      sym (append-nil items) ∙ ap (λ w. items ++ w) (sym (window_none a (ob.lb.begin b)))

  -- Where the processing stands at the start of a round on a buffer.
  record Placed (b : ob.lb.Buffer) (tail : Element) (s s' : Scheduler) : Type 0 where
    pub begun : s'.first_cycle ≡ false
    pub same : s'.handled ≡ s.handled
    pub continues : s.first_cycle ≡ false → s'.processed_element ≡ s.processed_element
    pub oldest :
        s.first_cycle ≡ true
        → (h : Element) × (head? (ob.lb.begin b) ≡ some h) × (s'.processed_element ≡ h.timestamp)
    pub not_ahead : s'.processed_element ≤ tail.timestamp

  first_position-Placed :
      (b : ob.lb.Buffer) (s : Scheduler) (tail : Element)
      → Ascending (ob.lb.begin b)
      → last? (ob.lb.begin b) ≡ some tail
      → (s.first_cycle ≡ false → s.processed_element ≤ tail.timestamp)
      → (s' : Scheduler) × (first_position ob d b s ≡ some s') × Placed b tail s s'
  unfolding first_position
  first_position-Placed b s tail v l ready = elim (Bool-cases s.first_cycle) [
    | inr k ↦ (
      s,
      rw (k, first_position) refl,
      record {
        begun = k;
        same = refl;
        continues = λ e. refl;
        oldest = λ e. absurd (ground (arith, e, k));
        not_ahead = ready k;
      },
    )
    | inl k ↦
        let (h, hl) = head_of (ob.lb.begin b) tail l in
        (
          record s { processed_element = h.timestamp; first_cycle = false },
          rw (k, ob.lb.front_begin b, hl) refl,
          record {
            begun = refl;
            same = refl;
            continues = λ e. absurd (ground (arith, e, k));
            oldest = λ e. (h, hl, refl);
            not_ahead = head-last (ob.lb.begin b) h tail v hl l;
          },
        )
  ]

  -- The state after a window.
  abbrev windowed : ℕ → ob.lb.Buffer → Scheduler → Scheduler
  windowed end_win_ts b s =
      let items = window s.processed_element end_win_ts (ob.lb.begin b) in
      record s {
        processed_element = end_win_ts;
        handled = s.handled ++ items;
        num_payloads = s.num_payloads + length items;
      }

  handle_window-windowed :
      (end_win_ts : ℕ) (b : ob.lb.Buffer) (s : Scheduler)
      → s.processed_element ≤ end_win_ts
      → Ascending (ob.lb.begin b)
      → handle_window ob d end_win_ts b s ≡ some (windowed end_win_ts b s)
  unfolding handle_window
  handle_window-windowed end_win_ts b s h v =
      rw
        (
          ob.lower_bound_begin s.processed_element b,
          ob.lower_bound_begin end_win_ts b,
          walk-window s.processed_element end_win_ts (ob.lb.begin b) h v,
        )
        refl

  -- A round in time, on an ordered buffer that is not empty and whose newest element is not before the point
  -- that the processing has reached, uses no element that is not there, and handles exactly the elements of
  -- one window, in order: it begins at that point, or at the oldest element in the first cycle, and the
  -- point moves to its end, which is the delay before the newest element, or stays when less has come.
  pub handle_data-Handled :
      (b : ob.lb.Buffer) (s : Scheduler) (tail : Element)
      → Ascending (ob.lb.begin b)
      → last? (ob.lb.begin b) ≡ some tail
      → tail.timestamp < 18446744073709551616
      → (s.first_cycle ≡ false → s.processed_element ≤ tail.timestamp)
      → (s' : Scheduler) × (handle_data ob d b s ≡ some s')
        × Handled b tail s s'
        × (s'.processed_element ≤ tail.timestamp)
  unfolding handle_data
  handle_data-Handled b s tail v l range ready =
      let (s1, e1, p) = first_position-Placed b s tail v l ready in
      let back_tail : ob.lb.back b ≡ some tail = ob.lb.back_begin b ∙ l in
      let diff = minus64_lem tail.timestamp s1.processed_element p.not_ahead range in
      let le = p.not_ahead in
      elim (Bool-cases (ltb d.processing_delay_ticks (tail.timestamp - s1.processed_element))) [
        | inr k ↦ (
          s1,
          >>=-some _ _ back_tail (>>=-some _ _ e1 (rw (diff, k) refl)),
          record {
            start = s1.processed_element;
            continues = p.continues;
            oldest = p.oldest;
            moves = omega arith;
            begun = p.begun;
            ends = rw k refl;
            items = p.same ∙ nothing_handled s1.processed_element b s.handled;
          },
          le,
        )
        | inl k ↦
            let lt = ltb→lt d.processing_delay_ticks (tail.timestamp - s1.processed_element) k in
            let end_win = tail.timestamp - d.processing_delay_ticks in
            let delayed : minus64 tail.timestamp d.processing_delay_ticks ≡ end_win =
              minus64_lem tail.timestamp d.processing_delay_ticks (omega (arith, lt)) range in
            let done : handle_window ob d (minus64 tail.timestamp d.processing_delay_ticks) b s1
                ≡ some (windowed end_win b s1) =
              subst (λ n. handle_window ob d n b s1 ≡ some (windowed end_win b s1)) (sym delayed)
                (handle_window-windowed end_win b s1 (omega (arith, lt, le)) v) in
            (
              windowed end_win b s1,
              >>=-some _ _ back_tail (>>=-some _ _ e1 (rw (diff, k) done)),
              record {
                start = s1.processed_element;
                continues = p.continues;
                oldest = p.oldest;
                moves = omega (arith, lt, le);
                begun = p.begun;
                ends = rw k refl;
                items = ap (λ is. is ++ window s1.processed_element end_win (ob.lb.begin b)) p.same;
              },
              omega arith,
            )
      ]
