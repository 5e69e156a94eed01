-- ===== src/Session/Transitions.antt =====
-- The states of a file under the operations of a session.
use snbmodules.Common.{
  ℕ, ◌≡◌, ◌≢◌, refl, sym, ◌∙◌, ◌⊎◌, inl, inr, Bool, true, false, Text, arith, Bool-cases, ◌==◌,
  Option, none, some,
}
use mathlib.Core.Path.{subst}
use snbmodules.Enums.Status.{
  Status, downloading, uploading, paused, waiting, finished, cancelled, hashing, error,
}
use snbmodules.Enums.NotificationType.{NotificationType}
use snbmodules.Metadata.Transfer.{TransferMetadata}
use snbmodules.Metadata.RoundTrip.{set_status-StatusSet}
use snbmodules.Group.Metadata.{store}
use snbmodules.Session.World.{TransferInterface, Env, Session, World, set_status_at}
use snbmodules.Session.Files.{Action, call, fail_status, tell, announce, change}
use snbmodules.Session.Unchanged.{SameStatus, store-status, update-SameStatus, targets-SameStatus}

-- Where an operation leads: to the state it asks for, or to ERROR.
abbrev pub Ends : Status → Status → Type 0
Ends to b = (b ≡ to) ⊎ (b ≡ error)

-- The moves that the operations on one file make.
pub data Move : Status → Status → Type 0 where
  pausing : {a b : Status} → (a ≡ downloading) ⊎ (a ≡ uploading) → Ends paused b → Move a b
  resuming :
      {b : Status}
      → (to : Status) → (to ≡ downloading) ⊎ (to ≡ uploading)
      → Ends to b
      → Move paused b
  rehashing : {b : Status} → Ends hashing b → Move finished b
  cancelling : {a b : Status} → a ≢ finished → a ≢ cancelled → Ends cancelled b → Move a b
  starting :
      {b : Status}
      → (to : Status) → (to ≡ downloading) ⊎ (to ≡ uploading)
      → Ends to b
      → Move waiting b

pub data Moves (a : Status) : Status → Type 0 where
  stay : Moves a a
  move : {b c : Status} → Moves a b → Move b c → Moves a c

pub Moves-trans : {a b c : Status} → Moves a b → Moves b c → Moves a c
Moves-trans m stay = m
Moves-trans m (move n s) = move (Moves-trans m n) s

-- An interface that leaves the status of a file to the session.
pub record KeepsStatus (ti : TransferInterface) : Type 0 where
  pub upload : (m : TransferMetadata) (s : ti.State) → (ti.upload_file m s).1.status ≡ m.status
  pub download :
      (dest : Text) (m : TransferMetadata) (s : ti.State)
      → (ti.download_file dest m s).1.status ≡ m.status
  pub pause : (m : TransferMetadata) (s : ti.State) → (ti.pause_file m s).1.status ≡ m.status
  pub resume : (m : TransferMetadata) (s : ti.State) → (ti.resume_file m s).1.status ≡ m.status
  pub hash : (m : TransferMetadata) (s : ti.State) → (ti.hash_file m s).1.status ≡ m.status
  pub cancel : (m : TransferMetadata) (s : ti.State) → (ti.cancel_file m s).1.status ≡ m.status

abbrev pub Keeps : (env : Env) → Action env → Type 0
Keeps env act = (m : TransferMetadata) (s : env.interface.State) → (act m s).1.status ≡ m.status

module _ {env : Env} where
  -- What an operation on the file `p` does to the states: only that of `p` changes.
  abbrev pub Changed : ℕ → Status → World env → World env → Type 0
  Changed p to w w' =
      (q : ℕ) → ((w'.heap q).status ≡ (w.heap q).status) ⊎ ((p ≡ q) × Ends to (w'.heap q).status)

  set_status_at-Changed :
      (p : ℕ) (to : Status) (s : Status) (w : World env)
      → Ends to s
      → Changed p to w (set_status_at p s w)
  unfolding set_status_at store
  set_status_at-Changed p to s w e q = elim (Bool-cases (p == q)) [
    | inl k ↦
        let set = (set_status-StatusSet (env.clock w.instant) s (w.heap p)).status in
        rw k (inr (ground arith, subst (Ends to) (sym set) e))
    | inr k ↦ rw k (inl refl)
  ]

  Changed-SameStatus :
      (p : ℕ) (to : Status) (w v u : World env)
      → Changed p to w v
      → SameStatus v u
      → Changed p to w u
  Changed-SameStatus p to w v u h k q = elim (h q) [
    | inl e ↦ inl (k q ∙ e)
    | inr c ↦ inr (c.0, subst (Ends to) (sym (k q)) c.1)
  ]

  Changed-trans :
      (p : ℕ) (to : Status) (w v u : World env)
      → Changed p to w v
      → Changed p to v u
      → Changed p to w u
  Changed-trans p to w v u h k q = elim (k q) [
    | inl e ↦ elim (h q) [ inl d ↦ inl (e ∙ d) | inr c ↦ inr (c.0, subst (Ends to) (sym e) c.1) ]
    | inr c ↦ inr c
  ]

  call-SameStatus :
      (act : Action env) (p : ℕ) (w : World env) → Keeps env act → SameStatus w (call act p w).1
  unfolding call
  call-SameStatus act p w k q = store-status p _ w q (k (w.heap p) w.interface)

  fail_status-Changed :
      (p : ℕ) (to : Status) (r : Bool) (w : World env) → Changed p to w (fail_status p (r, w)).1
  unfolding fail_status
  fail_status-Changed p to true w q = inl refl
  fail_status-Changed p to false w q = set_status_at-Changed p to error w (inr refl) q

  tell-SameStatus :
      (s : Session) (t : Option NotificationType) (p : ℕ) (w : World env)
      → SameStatus w (tell s t p w)
  tell-SameStatus s none p w q = refl
  tell-SameStatus s (some t) p w q = targets-SameStatus s t (w.heap p).file_path w q

  announce-SameStatus :
      (s : Session) (t : Option NotificationType) (multiple : Bool) (p : ℕ) (r : Bool)
      (w : World env)
      → SameStatus w (announce s t multiple p (r, w)).1
  unfolding announce
  announce-SameStatus s t true p r w q = refl
  announce-SameStatus s t false p r w q =
      update-SameStatus s p (tell s t p w) q ∙ tell-SameStatus s t p w q

  pub change-Changed :
      (s : Session) (act : Action env) (to : Status) (t : Option NotificationType) (multiple : Bool)
      (p : ℕ) (w : World env)
      → Keeps env act
      → Changed p to w (change s act to t multiple p w).1
  unfolding change
  change-Changed s act to t multiple p w k =
      let asked = set_status_at p to w in
      let called = call act p asked in
      let failed = fail_status p called in
      Changed-SameStatus p to w failed.1 (announce s t multiple p failed).1
        (Changed-trans p to w called.1 failed.1
          (Changed-SameStatus p to w asked called.1 (set_status_at-Changed p to to w (inl refl))
            (call-SameStatus act p asked k))
          (fail_status-Changed p to called.0 called.1))
        (announce-SameStatus s t multiple p failed.0 failed.1)
