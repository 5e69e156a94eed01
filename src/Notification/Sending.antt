-- ===== src/Notification/Sending.antt =====
-- How often a notification is sent.
use snbmodules.Common.{
  ap, ◌<◌, ℕ, zero, suc, ◌+◌, ◌≤◌, ◌≡◌, refl, Bool, true, false, List, ◌∷◌, Text, length, arith,
  Bool-cases, inl, inr,
}
use mathlib.Core.Path.{subst}
use snbmodules.Enums.NotificationType.{NotificationType}
use snbmodules.Notification.Interface.{
  NotificationData, Connections, Attempt, resolve, send_tries, send_notification, attempt,
  notification_of,
}

-- The log behind some tries that failed and one more: each retry looks the connection of the last one up.
abbrev pub tried : Connections → NotificationData → Text → ℕ → Bool → List Attempt → List Attempt
tried c n id_conn zero result log = attempt c n id_conn result ∷ log
tried c n id_conn (suc failures) result log =
    tried c n (resolve c id_conn) failures result (attempt c n id_conn false ∷ log)

-- A send: the tries before the last one were not delivered, the result says whether the last one was, and
-- a send that fails has used all tries that it was allowed.
pub record Sent (delivers : ℕ → Bool) (c : Connections) (n : NotificationData) (id_conn : Text)
    (limit : ℕ) (result : Bool) (log log' : List Attempt) : Type 0 where
  pub failures : ℕ
  pub log_grows : log' ≡ tried c n id_conn failures result log
  pub failed : (i : ℕ) → i < failures → delivers (length log + i) ≡ false
  pub outcome : delivers (length log + failures) ≡ result
  pub bounded : failures + 1 ≤ limit
  pub exhausted : result ≡ false → failures + 1 ≡ limit

module _ (delivers : ℕ → Bool) where
  delivers_shift : (k i : ℕ) (b : Bool) → delivers (suc k + i) ≡ b → delivers (k + suc i) ≡ b
  delivers_shift k i b h = subst (λ x. delivers x ≡ b) (omega arith) h

  failed_shift :
      (log : List Attempt) (a : Attempt) (failures : ℕ)
      → delivers (length log) ≡ false
      → ((i : ℕ) → i < failures → delivers (length (a ∷ log) + i) ≡ false)
      → (i : ℕ) → i < suc failures
      → delivers (length log + i) ≡ false
  failed_shift log a failures bad h zero l = subst (λ x. delivers x ≡ false) (omega arith) bad
  failed_shift log a failures bad h (suc i) l =
      delivers_shift (length log) i false (h i (omega (arith, l)))

  send_tries-Sent :
      (tries : ℕ) (c : Connections) (n : NotificationData) (id_conn : Text) (log : List Attempt)
      → Sent delivers c n id_conn
          (suc tries)
          (send_tries delivers (suc tries) c n id_conn log).0
          log
          (send_tries delivers (suc tries) c n id_conn log).1
  unfolding send_tries
  send_tries-Sent zero c n id_conn log = record {
    failures = 0;
    log_grows = refl;
    failed = λ i l. absurd (omega (arith, l));
    outcome = ap delivers (omega arith);
    bounded = omega arith;
    exhausted = λ h. refl;
  }
  send_tries-Sent (suc tries) c n id_conn log = elim (Bool-cases (delivers (length log))) [
    | inl ok ↦ rw ok (record {
      failures = 0;
      log_grows = refl;
      failed = λ i l. absurd (omega (arith, l));
      outcome = subst (λ x. delivers x ≡ true) (omega arith) ok;
      bounded = omega arith;
      exhausted = λ h. absurd (cc h);
    })
    | inr bad ↦
        let first = attempt c n id_conn false in
        let s = send_tries-Sent tries c n (resolve c id_conn) (first ∷ log) in
        rw bad (record {
          failures = suc s.failures;
          log_grows = s.log_grows;
          failed = failed_shift log first s.failures bad s.failed;
          outcome = delivers_shift (length log) s.failures _ s.outcome;
          bounded = omega (arith, s.bounded);
          exhausted = λ h. omega (arith, s.exhausted h);
        })
  ]

  send_limit-Sent :
      (limit : ℕ) (c : Connections) (n : NotificationData) (id_conn : Text) (log : List Attempt)
      → 0 < limit
      → Sent delivers c n id_conn limit
          (send_tries delivers limit c n id_conn log).0
          log
          (send_tries delivers limit c n id_conn log).1
  send_limit-Sent zero c n id_conn log h = absurd (omega arith)
  send_limit-Sent (suc tries) c n id_conn log h = send_tries-Sent tries c n id_conn log

  -- When at least one try is allowed, a notification is tried until a try succeeds or all tries are used up: the
  -- tries before the last one failed, the result says whether the last one succeeded, and only a send that has used
  -- all tries fails. The first try goes to the connection that is found for the given name, each retry to that which
  -- is found for the last one's.
  pub send_notification-Sent :
      (c : Connections) (t : NotificationType) (source dst id_conn content : Text)
      (log : List Attempt)
      → 0 < c.max_tries
      → Sent delivers c
          (notification_of t source dst content)
          id_conn
          c.max_tries
          (send_notification delivers c t source dst id_conn content log).0
          log
          (send_notification delivers c t source dst id_conn content log).1
  unfolding send_notification
  send_notification-Sent c t source dst id_conn content log h =
      send_limit-Sent c.max_tries c (notification_of t source dst content) id_conn log h
