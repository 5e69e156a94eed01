-- ===== src/Notification/Listening.antt =====
-- What listen_for_notification returns.
use snbmodules.Common.{
  ◌⊎◌, ℕ, zero, suc, ◌+◌, ◌≤◌, ◌<◌, ◌≡◌, refl, ap, true, false, Option, none, some, List, [], ◌∷◌,
  ◌++◌, Text, length, arith, All, Bool-cases, inl, inr, map,
}
use snbmodules.Notification.Interface.{NotificationData, unexpected, listen_tries}

-- A reception that is passed over.
abbrev pub Ignored : Text → NotificationData → Type 0
Ignored expected_from msg = unexpected expected_from msg ≡ true

-- What the last reception gives: time out, the expected message, or one too many that is not.
pub data Verdict (expected_from : Text)
    : Option NotificationData → Option NotificationData → Type 0 where
  timed_out : Verdict expected_from none none
  heard :
      (msg : NotificationData)
      → unexpected expected_from msg ≡ false
      → Verdict expected_from (some msg) (some msg)
  given_up :
      (msg : NotificationData)
      → unexpected expected_from msg ≡ true
      → Verdict expected_from (some msg) none

pub record Listened (expected_from : Text) (limit : ℕ) (inbox : List (Option NotificationData))
    (result : Option NotificationData) (rest : List (Option NotificationData)) : Type 0 where
  pub ignored : List NotificationData
  pub last : Option NotificationData
  pub read : inbox ≡ map some ignored ++ last ∷ rest
  pub all_ignored : All (Ignored expected_from) ignored
  pub verdict : Verdict expected_from last result
  pub bounded : length ignored + 1 ≤ limit
  pub exhausted : result ≡ none → (last ≡ none) ⊎ (length ignored + 1 ≡ limit)

-- With tries left and as many receptions as tries, the listener passes over unexpected messages only, in
-- the order they come, takes at most as many receptions as it has tries, and returns the first
-- expected message, or nothing, and
-- nothing only when a reception times out or all tries are used up.
pub listen_tries-Listened :
    (tries : ℕ) (expected_from : Text) (inbox : List (Option NotificationData))
    → 0 < tries
    → tries ≤ length inbox
    → Listened expected_from tries inbox
        (listen_tries tries expected_from inbox).0
        (listen_tries tries expected_from inbox).1
unfolding listen_tries
listen_tries-Listened zero e inbox h k = absurd (omega arith)
listen_tries-Listened (suc tries) e [] h k = absurd (omega arith)
listen_tries-Listened (suc tries) e (none ∷ inbox) h k = record {
  ignored = [];
  last = none;
  read = refl;
  all_ignored = tt;
  verdict = timed_out;
  bounded = omega arith;
  exhausted = λ q. inl refl;
}
listen_tries-Listened (suc zero) e (some msg ∷ inbox) h k = elim (Bool-cases (unexpected e msg)) [
  | inl odd ↦ rw odd (record {
    ignored = [];
    last = some msg;
    read = refl;
    all_ignored = tt;
    verdict = given_up msg odd;
    bounded = omega arith;
    exhausted = λ q. inr refl;
  })
  | inr ok ↦ rw ok (record {
    ignored = [];
    last = some msg;
    read = refl;
    all_ignored = tt;
    verdict = heard msg ok;
    bounded = omega arith;
    exhausted = λ q. absurd (cc q);
  })
]
listen_tries-Listened (suc (suc tries)) e (some msg ∷ inbox) h k =
    elim (Bool-cases (unexpected e msg)) [
      | inl odd ↦
          let l = listen_tries-Listened (suc tries) e inbox (omega arith) (omega arith) in
          rw odd (record {
            ignored = msg ∷ l.ignored;
            last = l.last;
            read = ap (λ r. some msg ∷ r) l.read;
            all_ignored = (odd, l.all_ignored);
            verdict = l.verdict;
            bounded = omega (arith, l.bounded);
            exhausted = λ q. elim (l.exhausted q) [
              | inl silent ↦ inl silent
              | inr used ↦ inr (omega (arith, used))
            ];
          })
      | inr ok ↦ rw ok (record {
        ignored = [];
        last = some msg;
        read = refl;
        all_ignored = tt;
        verdict = heard msg ok;
        bounded = omega arith;
        exhausted = λ q. absurd (cc q);
      })
    ]
