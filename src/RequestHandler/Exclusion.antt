-- ===== src/RequestHandler/Exclusion.antt =====
-- Mutual exclusion and progress of the threads of SNBRequestHandlerModel.hxx.
use snbmodules.Common.{
  sym, ◌∙◌, ℕ, zero, suc, ◌+◌, ◌≤◌, ◌<◌, ◌≡◌, refl, ◌⊎◌, inl, inr, Bool, true, false, some, List,
  [], ◌∷◌, arith, get_elem?, set, replicate, ap,
}
use snbmodules.RequestHandler.Protocol.{
  asleep, sleep, tell, left, announce, blocked, block, wake, notify_all, is_left, is_entered,
  is_blocked, is_asleep, entered, Phase, outside, reading, awaiting, cleaning, Shared, tally,
  is_reading, is_cleaning, is_cleaner, Step, enter, leave, ask, begin, finish, Reach, here, next,
  start,
}

abbrev pub flag : Bool → ℕ
flag true = 1
flag false = 0

-- A cleaner sleeps only while a request that is running, or has just counted itself out, is to wake it; a
-- request sleeps only while a cleanup is requested.
pub record Inv (s : Shared) : Type 0 where
  pub running : s.requests_running ≡ tally is_reading s.phases
  pub cleaners : tally is_cleaner s.phases ≡ flag s.cleanup_requested
  pub exclusive : 0 < tally is_cleaning s.phases → s.requests_running ≡ 0
  pub heard : 0 < tally is_asleep s.phases → 0 < s.requests_running + tally is_left s.phases
  pub awaited : 0 < tally is_blocked s.phases → s.cleanup_requested ≡ true

pub tally-set :
    (f : Phase → ℕ) (ps : List Phase) (i : ℕ) (p q : Phase)
    → get_elem? ps i ≡ some p
    → tally f (set ps i q) + f p ≡ tally f ps + f q
tally-set f [] i p q h = cc
tally-set f (x ∷ ps) zero p q h = ground arith
tally-set f (x ∷ ps) (suc i) p q h = omega (arith, tally-set f ps i p q h)

pub cleaning-le-cleaner : (ps : List Phase) → tally is_cleaning ps ≤ tally is_cleaner ps
cleaning-le-cleaner [] = omega arith
cleaning-le-cleaner (outside ∷ ps) = omega (arith, cleaning-le-cleaner ps)
cleaning-le-cleaner (blocked ∷ ps) = omega (arith, cleaning-le-cleaner ps)
cleaning-le-cleaner (entered ∷ ps) = omega (arith, cleaning-le-cleaner ps)
cleaning-le-cleaner (reading ∷ ps) = omega (arith, cleaning-le-cleaner ps)
cleaning-le-cleaner (left ∷ ps) = omega (arith, cleaning-le-cleaner ps)
cleaning-le-cleaner (awaiting ∷ ps) = omega (arith, cleaning-le-cleaner ps)
cleaning-le-cleaner (asleep ∷ ps) = omega (arith, cleaning-le-cleaner ps)
cleaning-le-cleaner (cleaning ∷ ps) = omega (arith, cleaning-le-cleaner ps)

-- A notify_all leaves what is the same of threads asleep and awake, and none is asleep then.
pub tally_same :
    (f : Phase → ℕ) (ps : List Phase)
    → ((p : Phase) → f (wake p) ≡ f p)
    → tally f (notify_all ps) ≡ tally f ps
unfolding notify_all
tally_same f [] h = refl
tally_same f (p ∷ ps) h = omega (arith, h p, tally_same f ps h)

pub tally_none :
    (f : Phase → ℕ) (ps : List Phase) → ((p : Phase) → f (wake p) ≡ 0) → tally f (notify_all ps) ≡ 0
unfolding notify_all
tally_none f [] h = refl
tally_none f (p ∷ ps) h = omega (arith, h p, tally_none f ps h)

is_reading-wake : (p : Phase) → is_reading (wake p) ≡ is_reading p
is_reading-wake outside = refl
is_reading-wake blocked = refl
is_reading-wake entered = refl
is_reading-wake reading = refl
is_reading-wake left = refl
is_reading-wake awaiting = refl
is_reading-wake asleep = refl
is_reading-wake cleaning = refl

is_cleaner-wake : (p : Phase) → is_cleaner (wake p) ≡ is_cleaner p
is_cleaner-wake outside = refl
is_cleaner-wake blocked = refl
is_cleaner-wake entered = refl
is_cleaner-wake reading = refl
is_cleaner-wake left = refl
is_cleaner-wake awaiting = refl
is_cleaner-wake asleep = refl
is_cleaner-wake cleaning = refl

pub is_cleaning-wake : (p : Phase) → is_cleaning (wake p) ≡ is_cleaning p
is_cleaning-wake outside = refl
is_cleaning-wake blocked = refl
is_cleaning-wake entered = refl
is_cleaning-wake reading = refl
is_cleaning-wake left = refl
is_cleaning-wake awaiting = refl
is_cleaning-wake asleep = refl
is_cleaning-wake cleaning = refl

is_left-wake : (p : Phase) → is_left (wake p) ≡ is_left p
is_left-wake outside = refl
is_left-wake blocked = refl
is_left-wake entered = refl
is_left-wake reading = refl
is_left-wake left = refl
is_left-wake awaiting = refl
is_left-wake asleep = refl
is_left-wake cleaning = refl

pub is_entered-wake : (p : Phase) → is_entered (wake p) ≡ is_entered p
is_entered-wake outside = refl
is_entered-wake blocked = refl
is_entered-wake entered = refl
is_entered-wake reading = refl
is_entered-wake left = refl
is_entered-wake awaiting = refl
is_entered-wake asleep = refl
is_entered-wake cleaning = refl

pub is_asleep-wake : (p : Phase) → is_asleep (wake p) ≡ 0
is_asleep-wake outside = refl
is_asleep-wake blocked = refl
is_asleep-wake entered = refl
is_asleep-wake reading = refl
is_asleep-wake left = refl
is_asleep-wake awaiting = refl
is_asleep-wake asleep = refl
is_asleep-wake cleaning = refl

is_blocked-wake : (p : Phase) → is_blocked (wake p) ≡ 0
is_blocked-wake outside = refl
is_blocked-wake blocked = refl
is_blocked-wake entered = refl
is_blocked-wake reading = refl
is_blocked-wake left = refl
is_blocked-wake awaiting = refl
is_blocked-wake asleep = refl
is_blocked-wake cleaning = refl

-- The invariant after a notify_all, from what it takes before.
notified :
    (s : Shared) (asked : Bool) (ps : List Phase)
    → s.requests_running ≡ tally is_reading ps
    → tally is_cleaner ps ≡ flag asked
    → (0 < tally is_cleaning ps → s.requests_running ≡ 0)
    → Inv (record s { cleanup_requested = asked; phases = notify_all ps })
notified s asked ps r c e = record {
  running = r ∙ sym (tally_same is_reading ps is_reading-wake);
  cleaners = tally_same is_cleaner ps is_cleaner-wake ∙ c;
  exclusive = λ h. e (omega (arith, h, tally_same is_cleaning ps is_cleaning-wake));
  heard = λ h. absurd (omega (arith, h, tally_none is_asleep ps is_asleep-wake));
  awaited = λ h. absurd (omega (arith, h, tally_none is_blocked ps is_blocked-wake));
}

pub Step-Inv : {s t : Shared} → Step s t → Inv s → Inv t
Step-Inv {s} (enter i at free off) v =
    let r = tally-set is_reading s.phases i outside entered at in
    let c = tally-set is_cleaner s.phases i outside entered at in
    let k = tally-set is_cleaning s.phases i outside entered at in
    let z = tally-set is_asleep s.phases i outside entered at in
    let l = tally-set is_left s.phases i outside entered at in
    let b = tally-set is_blocked s.phases i outside entered at in
    record {
      running = omega (arith, v.running);
      cleaners = omega (arith, v.cleaners);
      exclusive = λ h. absurd (omega arith);
      heard = λ h. omega (arith, v.heard (omega (arith, h)));
      awaited = λ h. v.awaited (omega (arith, h));
    }
Step-Inv {s} (block i at free on) v =
    let r = tally-set is_reading s.phases i outside blocked at in
    let c = tally-set is_cleaner s.phases i outside blocked at in
    let k = tally-set is_cleaning s.phases i outside blocked at in
    let z = tally-set is_asleep s.phases i outside blocked at in
    let l = tally-set is_left s.phases i outside blocked at in
    let b = tally-set is_blocked s.phases i outside blocked at in
    record {
      running = omega (arith, v.running);
      cleaners = omega (arith, v.cleaners);
      exclusive = λ h. absurd (omega arith);
      heard = λ h. omega (arith, v.heard (omega (arith, h)));
      awaited = λ h. on;
    }
Step-Inv {s} (announce i at) v =
    let r = tally-set is_reading s.phases i entered reading at in
    let c = tally-set is_cleaner s.phases i entered reading at in
    let k = tally-set is_cleaning s.phases i entered reading at in
    notified s s.cleanup_requested (set s.phases i reading) (omega (arith, v.running))
      (omega (arith, v.cleaners)) (λ h. v.exclusive (omega (arith, h)))
Step-Inv {s} (leave i at free) v =
    let r = tally-set is_reading s.phases i reading left at in
    let c = tally-set is_cleaner s.phases i reading left at in
    let k = tally-set is_cleaning s.phases i reading left at in
    let z = tally-set is_asleep s.phases i reading left at in
    let l = tally-set is_left s.phases i reading left at in
    let b = tally-set is_blocked s.phases i reading left at in
    record {
      running = omega (arith, v.running);
      cleaners = omega (arith, v.cleaners);
      exclusive = λ h. absurd (omega arith);
      heard = λ h. omega (arith, v.heard (omega (arith, h)));
      awaited = λ h. v.awaited (omega (arith, h));
    }
Step-Inv {s} (tell i at) v =
    let r = tally-set is_reading s.phases i left outside at in
    let c = tally-set is_cleaner s.phases i left outside at in
    let k = tally-set is_cleaning s.phases i left outside at in
    notified s s.cleanup_requested (set s.phases i outside) (omega (arith, v.running))
      (omega (arith, v.cleaners)) (λ h. v.exclusive (omega (arith, h)))
Step-Inv {s} (ask i at free off) v =
    let r = tally-set is_reading s.phases i outside awaiting at in
    let c = tally-set is_cleaner s.phases i outside awaiting at in
    let k = tally-set is_cleaning s.phases i outside awaiting at in
    let z = tally-set is_asleep s.phases i outside awaiting at in
    let l = tally-set is_left s.phases i outside awaiting at in
    let b = tally-set is_blocked s.phases i outside awaiting at in
    record {
      running = omega (arith, v.running);
      cleaners = ground (arith, v.cleaners);
      exclusive = λ h. absurd (omega arith);
      heard = λ h. omega (arith, v.heard (omega (arith, h)));
      awaited = λ h. refl;
    }
Step-Inv {s} (sleep i at free some_running) v =
    let r = tally-set is_reading s.phases i awaiting asleep at in
    let c = tally-set is_cleaner s.phases i awaiting asleep at in
    let k = tally-set is_cleaning s.phases i awaiting asleep at in
    let z = tally-set is_asleep s.phases i awaiting asleep at in
    let l = tally-set is_left s.phases i awaiting asleep at in
    let b = tally-set is_blocked s.phases i awaiting asleep at in
    record {
      running = omega (arith, v.running);
      cleaners = omega (arith, v.cleaners);
      exclusive = λ h. absurd (omega arith);
      heard = λ h. omega (arith, some_running);
      awaited = λ h. v.awaited (omega (arith, h));
    }
Step-Inv {s} (begin i at free none_running) v =
    let r = tally-set is_reading s.phases i awaiting cleaning at in
    let c = tally-set is_cleaner s.phases i awaiting cleaning at in
    let k = tally-set is_cleaning s.phases i awaiting cleaning at in
    let z = tally-set is_asleep s.phases i awaiting cleaning at in
    let l = tally-set is_left s.phases i awaiting cleaning at in
    let b = tally-set is_blocked s.phases i awaiting cleaning at in
    record {
      running = omega (arith, v.running);
      cleaners = omega (arith, v.cleaners);
      exclusive = λ h. none_running;
      heard = λ h. omega (arith, v.heard (omega (arith, h)));
      awaited = λ h. v.awaited (omega (arith, h));
    }
Step-Inv {s} (finish i at) v =
    let r = tally-set is_reading s.phases i cleaning outside at in
    let c = tally-set is_cleaner s.phases i cleaning outside at in
    let k = tally-set is_cleaning s.phases i cleaning outside at in
    let l = cleaning-le-cleaner (set s.phases i outside) in
    notified s false (set s.phases i outside) (omega (arith, v.running))
      (ground (arith, v.cleaners)) (λ h. ground (arith, v.cleaners))

pub Reach-Inv : {s t : Shared} → Inv s → Reach s t → Inv t
Reach-Inv v here = v
Reach-Inv v (next r st) = Step-Inv st (Reach-Inv v r)

start_tally : (f : Phase → ℕ) (n : ℕ) → f outside ≡ 0 → tally f (replicate n outside) ≡ 0
start_tally f zero h = refl
start_tally f (suc n) h = omega (arith, start_tally f n h)

pub start-Inv : (n : ℕ) → Inv (start n)
start-Inv n = record {
  running = omega (arith, start_tally is_reading n refl);
  cleaners = start_tally is_cleaner n refl;
  exclusive = λ h. refl;
  heard = λ h. absurd (omega (arith, h, start_tally is_asleep n refl));
  awaited = λ h. absurd (omega (arith, h, start_tally is_blocked n refl));
}

-- In every interleaving, while one thread is inside cleanup, no other is, and none is inside
-- data_request.
pub cleanup_exclusive :
    (n : ℕ) (s : Shared)
    → Reach (start n) s
    → 0 < tally is_cleaning s.phases
    → (tally is_reading s.phases ≡ 0) × (tally is_cleaning s.phases ≡ 1)
cleanup_exclusive n s r h =
    let v = Reach-Inv (start-Inv n) r in
    let l = cleaning-le-cleaner s.phases in
    let none_running = v.exclusive h in (omega (arith, v.running), ground (arith, v.cleaners))

pub find_phase :
    (f : Phase → ℕ) (p : Phase) (ps : List Phase)
    → ((q : Phase) → (f q ≡ 0) ⊎ (q ≡ p))
    → 0 < tally f ps
    → (i : ℕ) × (get_elem? ps i ≡ some p)
find_phase f p [] only h = absurd (omega arith)
find_phase f p (q ∷ ps) only h = elim (only q) [
  | inl nothing ↦ let (i, e) = find_phase f p ps only (omega arith) in (suc i, e)
  | inr e ↦ (0, ap some e)
]
