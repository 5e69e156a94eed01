-- ===== src/RequestHandler/Retention.antt =====
-- What cleanup drops from the latency buffer, and what it keeps.
use native.Mathlib.Nat.{add-zero}
use snbmodules.Common.{
  ℕ, zero, suc, ◌+◌, ◌%◌, ◌≤◌, ◌<◌, ◌≡◌, refl, sym, ap, ◌∙◌, ◌⊎◌, inl, inr, true, false, Option,
  none, some, List, [], ◌∷◌, ◌++◌, arith, length, All, All-map, Bool-cases, tests, ltb,
}
use snbmodules.RequestHandler.Buffer.{Element, LatencyBuffer, head?, last?, drop}
use snbmodules.RequestHandler.Pieces.{count, erase}
use snbmodules.RequestHandler.State.{Handler}
use snbmodules.RequestHandler.Cleanup.{pop_loop, settled, cleanup, is_empty}

count-erase : (t s : ℕ) (pops : List ℕ) → count s (erase t pops) ≡ true → count s pops ≡ true
unfolding count erase
count-erase t s [] h = h
count-erase t s (p ∷ pops) h = ground (arith, count-erase t s pops)

head_of : (xs : List Element) → 0 < length xs → (e : Element) × (head? xs ≡ some e)
head_of [] h = absurd (omega arith)
head_of (e ∷ es) h = (e, refl)

last_of : (xs : List Element) → 0 < length xs → (e : Element) × (last? xs ≡ some e)
last_of [] h = absurd (omega arith)
last_of (e ∷ []) h = (e, refl)
last_of (e ∷ f ∷ es) h = last_of (f ∷ es) (omega arith)

head_of_none : (xs : List Element) → length xs ≡ 0 → head? xs ≡ none
head_of_none [] h = refl
head_of_none (e ∷ es) h = absurd (omega arith)

two_of :
    (xs : List Element)
    → 1 < length xs
    → (e : Element) × (f : Element) × (es : List Element) × (xs ≡ e ∷ f ∷ es)
two_of [] h = absurd (omega arith)
two_of (e ∷ []) h = absurd (omega arith)
two_of (e ∷ f ∷ es) h = (e, f, es, refl)

abbrev pub Delivered : List ℕ → Element → Type 0
Delivered pops x = count x.timestamp pops ≡ true

module _ (lb : LatencyBuffer) where
  -- Why the loop stops.
  abbrev pub Stopped : lb.Buffer → List ℕ → Type 0
  Stopped b pops =
      (is_empty pops ≡ true)
      ⊎ (lb.occupancy b ≤ 1)
      ⊎ ((e : Element) × (lb.front b ≡ some e) × (count e.timestamp pops ≡ false))

  -- The loop has dropped `gone` from the front of the buffer.
  pub record Dropped (b b' : lb.Buffer) (pops : List ℕ) (gone : List Element) : Type 0 where
    pub split : lb.begin b ≡ gone ++ lb.begin b'
    pub delivered : All (Delivered pops) gone
    pub nonempty : 0 < lb.occupancy b'

  Dropped-here : (b : lb.Buffer) (pops : List ℕ) → 0 < lb.occupancy b → Dropped b b pops []
  Dropped-here b pops h = record { split = refl; delivered = tt; nonempty = h }

  Dropped-pop :
      (b b' : lb.Buffer) (pops : List ℕ) (gone : List Element) (e f : Element) (es : List Element)
      → lb.begin b ≡ e ∷ f ∷ es
      → count e.timestamp pops ≡ true
      → Dropped (lb.pop 1 b) b' (erase e.timestamp pops) gone
      → Dropped b b' pops (e ∷ gone)
  Dropped-pop b b' pops gone e f es s c d = record {
    split = s ∙ ap (λ xs. e ∷ xs) (sym (ap (drop 1) s) ∙ sym (lb.begin_pop 1 b) ∙ d.split);
    delivered = (c, All-map gone (λ x. count-erase e.timestamp x.timestamp pops) d.delivered);
    nonempty = d.nonempty;
  }

  -- What the loop has done, for its three results.
  unfoldable pub Loop : lb.Buffer → List ℕ → ℕ → Option (lb.Buffer × List ℕ × ℕ) → Type 0
  Loop b pops popped r =
      (b' : lb.Buffer) × (pops' : List ℕ) × (gone : List Element) × (r
        ≡ some (b', pops', popped + length gone))
      × Dropped b b' pops gone
      × Stopped b' pops'

  occupancy-pop :
      (b : lb.Buffer) (e f : Element) (es : List Element)
      → lb.begin b ≡ e ∷ f ∷ es
      → (lb.occupancy (lb.pop 1 b) + 1 ≡ lb.occupancy b) × (0 < lb.occupancy (lb.pop 1 b))
  occupancy-pop b e f es s =
      let now : lb.occupancy b ≡ suc (suc (length es)) = lb.occupancy_begin b ∙ ap length s in
      let then' : lb.occupancy (lb.pop 1 b) ≡ suc (length es) =
        lb.occupancy_begin (lb.pop 1 b) ∙ ap length (lb.begin_pop 1 b ∙ ap (drop 1) s) in
      (omega arith, omega arith)

  Loop-stop :
      (b : lb.Buffer) (pops : List ℕ) (popped : ℕ)
      → 0 < lb.occupancy b
      → Stopped b pops
      → Loop b pops popped (some (b, pops, popped))
  unfolding Loop
  Loop-stop b pops popped h s =
      (b, pops, [], ap (λ n. some (b, pops, n)) (sym (add-zero popped)), Dropped-here b pops h, s)

  Loop-pop :
      (b : lb.Buffer) (pops : List ℕ) (popped : ℕ) (e f : Element) (es : List Element)
      (r : Option (lb.Buffer × List ℕ × ℕ))
      → lb.begin b ≡ e ∷ f ∷ es
      → count e.timestamp pops ≡ true
      → Loop (lb.pop 1 b) (erase e.timestamp pops) (suc popped) r
      → Loop b pops popped r
  unfolding Loop
  Loop-pop b pops popped e f es r s c (b', pops', gone, q, d, st) = (
    b',
    pops',
    e ∷ gone,
    q ∙ ap (λ n. some (b', pops', n)) (omega arith),
    Dropped-pop b b' pops gone e f es s c d,
    st,
  )

  -- On a buffer that is not empty, the loop with its fuel ends by its own test, and drops a run of
  -- delivered elements from the front.
  pub pop_loop-Loop :
      (fuel : ℕ) (b : lb.Buffer) (pops : List ℕ) (popped : ℕ)
      → 0 < lb.occupancy b
      → lb.occupancy b ≤ fuel
      → Loop b pops popped (pop_loop lb fuel b pops popped)
  unfolding pop_loop
  pop_loop-Loop zero b pops popped h k = absurd (omega arith)
  pop_loop-Loop (suc fuel) b pops popped h k = elim (Bool-cases (is_empty pops)) [
    | inl none_left ↦ rw none_left (Loop-stop b pops popped h (inl none_left))
    | inr some_left ↦ elim (Bool-cases (ltb 1 (lb.occupancy b))) [
      | inr last ↦ rw (some_left, last) (Loop-stop b pops popped h (inr (inl (ground arith))))
      | inl more ↦
          let (e, f, es, s) = two_of (lb.begin b) (omega (tests, lb.occupancy_begin b)) in
          let at_front : lb.front b ≡ some e = lb.front_begin b ∙ ap head? s in
          let rest = occupancy-pop b e f es s in
          elim (Bool-cases (count e.timestamp pops)) [
            | inl hit ↦
                rw (some_left, more, at_front, hit)
                  (Loop-pop b pops popped e f es _ s hit (
                    pop_loop-Loop fuel (lb.pop 1 b) (erase e.timestamp pops) (suc popped) rest.1
                      (omega (arith, rest.0))))
            | inr miss ↦
                rw (some_left, more, at_front, miss)
                  (Loop-stop b pops popped h (inr (inr (e, at_front, miss))))
          ]
    ]
  ]

  pub front_of : (b : lb.Buffer) → 0 < lb.occupancy b → (e : Element) × (lb.front b ≡ some e)
  front_of b h =
      let (e, q) = head_of (lb.begin b) (omega (arith, lb.occupancy_begin b)) in
      (e, lb.front_begin b ∙ q)

  pub back_of : (b : lb.Buffer) → 0 < lb.occupancy b → (e : Element) × (lb.back b ≡ some e)
  back_of b h =
      let (e, q) = last_of (lb.begin b) (omega (arith, lb.occupancy_begin b)) in
      (e, lb.back_begin b ∙ q)

module _ {lb : LatencyBuffer} where
  -- What cleanup did to the handler.
  pub record Cleaned (h h' : Handler lb) (gone : List Element) : Type 0 where
    pub dropped : Dropped lb h.buffer h'.buffer h.pop_list gone
    pub stopped : Stopped lb h'.buffer h'.pop_list
    pub counted : h'.counters.pops_count ≡ (h.counters.pops_count + length gone) % 4294967296
    pub oldest : (e : Element) × (lb.front h'.buffer ≡ some e) × (h'.oldest_timestamp ≡ e.timestamp)

  -- On a buffer that is not empty, cleanup returns. It drops a run of elements from the front,
  -- each of them delivered in a fragment before, keeps at least one element, counts what it
  -- dropped, publishes the timestamp of the new front as the oldest one, and stops only when
  -- nothing is left to drop, one element is left, or the front has not been delivered.
  pub cleanup_lem :
      (h : Handler lb)
      → 0 < lb.occupancy h.buffer
      → (h' : Handler lb) × (gone : List Element) × (cleanup h ≡ some h') × Cleaned h h' gone
  unfolding cleanup Loop
  cleanup_lem h n =
      let (b', pops', gone, q, d, st) =
        pop_loop-Loop lb (lb.occupancy h.buffer) h.buffer h.pop_list 0 n (omega arith) in
      let (e, at_front) = front_of lb b' d.nonempty in
      (
        settled h b' pops' (0 + length gone) e,
        gone,
        rw (q, at_front) refl,
        record { dropped = d; stopped = st; counted = omega arith; oldest = (e, at_front, refl) },
      )

  -- On an empty buffer cleanup dereferences the front that is not there.
  pub cleanup_empty : (h : Handler lb) → lb.occupancy h.buffer ≡ 0 → cleanup h ≡ none
  unfolding cleanup pop_loop
  cleanup_empty h e =
      let at_front : lb.front h.buffer ≡ none =
        lb.front_begin h.buffer
        ∙ head_of_none (lb.begin h.buffer) (omega (arith, lb.occupancy_begin h.buffer)) in
      rw (e, pop_loop, at_front) refl
