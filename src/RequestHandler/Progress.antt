-- ===== src/RequestHandler/Progress.antt =====
-- How a thread that waits to clean up comes to do it, and who waits to enter
-- (SNBRequestHandlerModel.hxx).
use native.Mathlib.Decide.{dec_lt}
use snbmodules.Common.{
  ℕ, zero, suc, ◌+◌, ◌-◌, ◌*◌, ◌≤◌, ◌<◌, ◌≡◌, refl, ◌⊎◌, inl, inr, true, List, [], ◌∷◌, arith, set,
}
use snbmodules.RequestHandler.Protocol.{
  Phase, outside, blocked, entered, reading, left, awaiting, asleep, cleaning, notify_all, Shared,
  tally, is_reading, is_entered, is_left, is_blocked, is_asleep, is_cleaning, is_cleaner, Step,
  announce, leave, tell, begin, Reach, here, next, start,
}
use snbmodules.RequestHandler.Exclusion.{
  is_cleaning-wake, Inv, Step-Inv, Reach-Inv, start-Inv, find_phase, tally-set, tally_same,
  tally_none, is_asleep-wake, is_entered-wake,
}

abbrev is_inside : Phase → ℕ
is_inside reading = 1
is_inside p = 0

abbrev is_awaiting : Phase → ℕ
is_awaiting awaiting = 1
is_awaiting p = 0

is_inside_only : (q : Phase) → (is_inside q ≡ 0) ⊎ (q ≡ reading)
is_inside_only reading = inr refl
is_inside_only outside = inl refl
is_inside_only blocked = inl refl
is_inside_only entered = inl refl
is_inside_only left = inl refl
is_inside_only awaiting = inl refl
is_inside_only asleep = inl refl
is_inside_only cleaning = inl refl

is_entered_only : (q : Phase) → (is_entered q ≡ 0) ⊎ (q ≡ entered)
is_entered_only entered = inr refl
is_entered_only outside = inl refl
is_entered_only blocked = inl refl
is_entered_only reading = inl refl
is_entered_only left = inl refl
is_entered_only awaiting = inl refl
is_entered_only asleep = inl refl
is_entered_only cleaning = inl refl

is_left_only : (q : Phase) → (is_left q ≡ 0) ⊎ (q ≡ left)
is_left_only left = inr refl
is_left_only outside = inl refl
is_left_only blocked = inl refl
is_left_only entered = inl refl
is_left_only reading = inl refl
is_left_only awaiting = inl refl
is_left_only asleep = inl refl
is_left_only cleaning = inl refl

is_awaiting_only : (q : Phase) → (is_awaiting q ≡ 0) ⊎ (q ≡ awaiting)
is_awaiting_only awaiting = inr refl
is_awaiting_only outside = inl refl
is_awaiting_only blocked = inl refl
is_awaiting_only entered = inl refl
is_awaiting_only reading = inl refl
is_awaiting_only left = inl refl
is_awaiting_only asleep = inl refl
is_awaiting_only cleaning = inl refl

is_cleaning_only : (q : Phase) → (is_cleaning q ≡ 0) ⊎ (q ≡ cleaning)
is_cleaning_only cleaning = inr refl
is_cleaning_only outside = inl refl
is_cleaning_only blocked = inl refl
is_cleaning_only entered = inl refl
is_cleaning_only reading = inl refl
is_cleaning_only left = inl refl
is_cleaning_only awaiting = inl refl
is_cleaning_only asleep = inl refl

reading-parts : (ps : List Phase) → tally is_reading ps ≡ tally is_entered ps + tally is_inside ps
reading-parts [] = refl
reading-parts (outside ∷ ps) = omega (arith, reading-parts ps)
reading-parts (blocked ∷ ps) = omega (arith, reading-parts ps)
reading-parts (entered ∷ ps) = omega (arith, reading-parts ps)
reading-parts (reading ∷ ps) = omega (arith, reading-parts ps)
reading-parts (left ∷ ps) = omega (arith, reading-parts ps)
reading-parts (awaiting ∷ ps) = omega (arith, reading-parts ps)
reading-parts (asleep ∷ ps) = omega (arith, reading-parts ps)
reading-parts (cleaning ∷ ps) = omega (arith, reading-parts ps)

cleaner-parts :
    (ps : List Phase)
    → tally is_cleaner ps ≡ tally is_awaiting ps + (tally is_asleep ps + tally is_cleaning ps)
cleaner-parts [] = refl
cleaner-parts (outside ∷ ps) = omega (arith, cleaner-parts ps)
cleaner-parts (blocked ∷ ps) = omega (arith, cleaner-parts ps)
cleaner-parts (entered ∷ ps) = omega (arith, cleaner-parts ps)
cleaner-parts (reading ∷ ps) = omega (arith, cleaner-parts ps)
cleaner-parts (left ∷ ps) = omega (arith, cleaner-parts ps)
cleaner-parts (awaiting ∷ ps) = omega (arith, cleaner-parts ps)
cleaner-parts (asleep ∷ ps) = omega (arith, cleaner-parts ps)
cleaner-parts (cleaning ∷ ps) = omega (arith, cleaner-parts ps)

Reach-first : {s t u : Shared} → Step s t → Reach t u → Reach s u
Reach-first st here = next here st
Reach-first st (next r st') = next (Reach-first st r) st'

-- From a state on, a thread comes to clean up.
abbrev pub Cleans : Shared → Type 0
Cleans s = (t : Shared) × Reach s t × (0 < tally is_cleaning t.phases)

after : {s t : Shared} → Step s t → Cleans t → Cleans s
after st (u, r, c) = (u, Reach-first st r, c)

one_cleaner : (s : Shared) → Inv s → s.cleanup_requested ≡ true → tally is_cleaner s.phases ≡ 1
one_cleaner s v on = rw on at v.cleaners

-- A cleaner that is awake when no request is running.
awake-Cleans :
    (s : Shared)
    → Inv s
    → s.requests_running ≡ 0
    → 0 < tally is_awaiting s.phases
    → tally is_cleaning s.phases ≡ 0
    → Cleans s
awake-Cleans s v idle waits free =
    let (i, at) = find_phase is_awaiting awaiting s.phases is_awaiting_only waits in
    let k = tally-set is_cleaning s.phases i awaiting cleaning at in
    (_, next here (begin i at free idle), omega arith)

-- No request is running any more.
idle-Cleans :
    (s : Shared)
    → Inv s
    → s.cleanup_requested ≡ true
    → s.requests_running ≡ 0
    → tally is_cleaning s.phases ≡ 0
    → Cleans s
idle-Cleans s v on idle free =
    let one = one_cleaner s v on in
    let parts = cleaner-parts s.phases in
    elim (dec_lt 0 (tally is_awaiting s.phases)) [
      | yes waits ↦ awake-Cleans s v idle waits free
      | no sleeps ↦
          let (j, at) =
            find_phase is_left left s.phases is_left_only
              (omega (arith, idle, v.heard (omega (arith, one, parts, free)))) in
          let ps = set s.phases j outside in
          let woken : Shared = record s { phases = notify_all ps } in
          let w = Step-Inv (tell j at) v in
          let parts' = cleaner-parts (notify_all ps) in
          let none_asleep = tally_none is_asleep ps is_asleep-wake in
          let one' = one_cleaner woken w on in
          let k = tally-set is_cleaning s.phases j left outside at in
          let same = tally_same is_cleaning ps is_cleaning-wake in
          let quiet : tally is_cleaning (notify_all ps) ≡ 0 = omega (arith, k, same, free) in
          after (tell j at)
            (awake-Cleans woken w idle (omega (arith, one', parts', none_asleep, quiet)) quiet)
    ]

-- Requests are running, each of which has at most two steps to go until it is counted out.
requested-Cleans :
    (n : ℕ) (s : Shared)
    → Inv s
    → s.cleanup_requested ≡ true
    → 2 * s.requests_running + tally is_entered s.phases ≤ n
    → Cleans s
requested-Cleans zero s v on bound = elim (dec_lt 0 (tally is_cleaning s.phases)) [
  | yes busy ↦ (s, here, busy)
  | no free ↦ idle-Cleans s v on (omega (arith, bound)) (omega arith)
]
requested-Cleans (suc n) s v on bound = elim (dec_lt 0 (tally is_cleaning s.phases)) [
  | yes busy ↦ (s, here, busy)
  | no free ↦ elim (dec_lt 0 s.requests_running) [
    | no idle ↦ idle-Cleans s v on (omega arith) (omega arith)
    | yes running ↦ elim (dec_lt 0 (tally is_entered s.phases)) [
      | yes some_entered ↦
          let (j, at) = find_phase is_entered entered s.phases is_entered_only some_entered in
          let ps = set s.phases j reading in
          let k = tally-set is_entered s.phases j entered reading at in
          let same = tally_same is_entered ps is_entered-wake in
          after (announce j at) (
            requested-Cleans n (record s { phases = notify_all ps }) (Step-Inv (announce j at) v) on
              (omega (arith, bound, k, same)))
      | no none_entered ↦
          let (j, at) =
            find_phase is_inside reading s.phases is_inside_only
              (omega (arith, v.running, reading-parts s.phases)) in
          let k = tally-set is_entered s.phases j reading left at in
          let step = leave j at (omega arith) in
          after step (
            requested-Cleans n
              (record s { requests_running = s.requests_running - 1; phases = set s.phases j left })
              (Step-Inv step v) on (omega (arith, bound, k, running)))
    ]
  ]
]

-- In every interleaving, when a cleanup is requested, the threads can go on until a thread is inside cleanup, where a
-- thread that sleeps on the condition variable is woken by the notify_all of a request or of a cleanup only: no
-- wakeup is lost.
pub awaiting_progress :
    (n : ℕ) (s : Shared)
    → Reach (start n) s
    → s.cleanup_requested ≡ true
    → (t : Shared) × Reach s t × (0 < tally is_cleaning t.phases)
awaiting_progress n s r on =
    requested-Cleans (2 * s.requests_running + tally is_entered s.phases) s
      (Reach-Inv (start-Inv n) r) on (omega arith)

-- In every interleaving, a request that sleeps before its entry does so while a cleanup is requested: the end of the
-- cleanup leaves none asleep.
pub blocked-requested :
    (n : ℕ) (s : Shared)
    → Reach (start n) s
    → 0 < tally is_blocked s.phases
    → s.cleanup_requested ≡ true
blocked-requested n s r h = (Reach-Inv (start-Inv n) r).awaited h
