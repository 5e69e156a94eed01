-- ===== src/Session/Stops.antt =====
-- Where a session's operations come to an end: states that are final, loops that stop early.
use snbmodules.Common.{ℕ, ◌≡◌, refl, ap, ◌∙◌, Bool, true, false, List, [], ◌∷◌, arith, ◌||◌, text}
use snbmodules.Enums.Status.{Status, status_eq, cancelled, waiting, finished}
use snbmodules.Enums.NotificationType.{cancel_transfer}
use snbmodules.Session.World.{Env, Session, World, Result, all_while, send_notification_to_targets}
use snbmodules.Session.Files.{cancel_file, refuse}
use snbmodules.Session.Groups.{told, each_file, cancel_all}
use snbmodules.Session.Unchanged.{SameStatus, updates-SameStatus, targets-SameStatus}
use snbmodules.Session.Transitions.{
  Move, Moves, stay, move, pausing, resuming, rehashing, cancelling, starting, KeepsStatus,
}
use snbmodules.Session.Runs.{Command, run_all, run_all-Advances}

Move-cancelled : {a b : Status} → a ≡ cancelled → Move a b → ⊥
Move-cancelled h (pausing from e) = ground arith
Move-cancelled h (resuming to t e) = ground arith
Move-cancelled h (rehashing e) = ground arith
Move-cancelled h (cancelling f c e) = c h
Move-cancelled h (starting to t e) = ground arith

Moves-cancelled : {a b : Status} → a ≡ cancelled → Moves a b → b ≡ cancelled
Moves-cancelled h stay = h
Moves-cancelled h (move m s) = absurd (Move-cancelled (Moves-cancelled h m) s)

Move-waiting : {a b : Status} → b ≡ waiting → Move a b → ⊥
Move-waiting h (pausing from e) = ground arith
Move-waiting h (resuming to t e) = ground arith
Move-waiting h (rehashing e) = ground arith
Move-waiting h (cancelling f c e) = ground arith
Move-waiting h (starting to t e) = ground arith

Moves-waiting : {a b : Status} → b ≡ waiting → Moves a b → a ≡ waiting
Moves-waiting h stay = h
Moves-waiting h (move m s) = absurd (Move-waiting h s)

module _ {env : Env} (k : KeepsStatus env.interface) where
  -- A file that is cancelled stays so, whatever operations the session runs, when the transfer
  -- interface leaves the states to the session.
  pub run_all-cancelled :
      (s : Session) (cs : List Command) (w : World env) (q : ℕ)
      → (w.heap q).status ≡ cancelled
      → ((run_all s cs w).heap q).status ≡ cancelled
  run_all-cancelled s cs w q h = Moves-cancelled h (run_all-Advances k s cs w q)

  -- No operation of a session brings a file back to WAITING: one that waits at the end of a run
  -- has waited from its start.
  pub run_all-waiting :
      (s : Session) (cs : List Command) (w : World env) (q : ℕ)
      → ((run_all s cs w).heap q).status ≡ waiting
      → (w.heap q).status ≡ waiting
  run_all-waiting s cs w q h = Moves-waiting h (run_all-Advances k s cs w q)

module _ {env : Env} where
  all_while-false :
      {A : Type 0} (f : A → World env → Result env) (xs : List A) (w : World env)
      → all_while f xs (false, w) ≡ (false, w)
  unfolding all_while
  all_while-false f [] w = refl
  all_while-false f (x ∷ xs) w = all_while-false f xs w

  cancel_file-refused :
      (s : Session) (multiple : Bool) (p : ℕ) (w : World env)
      → (w.heap p).status ≡ finished
      → cancel_file s multiple p w ≡ refuse p (text "CANCELLED") w
  unfolding cancel_file
  cancel_file-refused s multiple p w h =
      let done : ((status_eq (w.heap p).status finished) || (status_eq (w.heap p).status cancelled))
          ≡ true =
        ap (λ a. (status_eq a finished) || (status_eq a cancelled)) h in
      rw done refl

  each_file-refused :
      (s : Session) (p : ℕ) (ps : List ℕ) (w : World env)
      → (w.heap p).status ≡ finished
      → all_while (cancel_file s true) (p ∷ ps) (true, w) ≡ refuse p (text "CANCELLED") w
  unfolding all_while
  each_file-refused s p ps w h =
      ap (all_while (cancel_file s true) ps) (cancel_file-refused s true p w h)
      ∙ all_while-false (cancel_file s true) ps (refuse p (text "CANCELLED") w).1

  -- When the first file of the group is finished, cancelling the group cancels none of the
  -- others: the operation fails, and every file keeps its state.
  pub cancel_all-finished :
      (s : Session) (p : ℕ) (ps : List ℕ) (w : World env)
      → s.transfer_options.transfers_meta ≡ p ∷ ps
      → (w.heap p).status ≡ finished
      → ((cancel_all s w).0 ≡ false) × SameStatus w (cancel_all s w).1
  unfolding cancel_all told
  cancel_all-finished s p ps w e h =
      let stopped : each_file (cancel_file s true) s w ≡ refuse p (text "CANCELLED") w =
        ap (λ fs. all_while (cancel_file s true) fs (true, w)) e ∙ each_file-refused s p ps w h in
      let asked = (refuse p (text "CANCELLED") w).1 in
      let sent = (send_notification_to_targets s cancel_transfer [] asked).1 in
      rw stopped
        (refl, λ q. updates-SameStatus s sent q ∙ targets-SameStatus s cancel_transfer [] asked q)
