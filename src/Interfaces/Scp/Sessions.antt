-- ===== src/Interfaces/Scp/Sessions.antt =====
-- A session of src/client/transfer_session.cpp over the SCP interface.
use snbmodules.Common.{
  length, ℕ, Bool, true, false, ◌||◌, ◌&&◌, not, ◌≡◌, refl, ◌≢◌, ◌==◌, Text, ◌+ℤ◌, ◌-ℤ◌, ==_refl,
  Bool-cases, inl, inr, arith,
}
use snbmodules.Enums.Status.{status_eq, downloading, uploading, finished, error, waiting}
use snbmodules.Metadata.Transfer.{
  TransferMetadata, set_status, set_bytes_transferred, set_error_code,
}
use snbmodules.Group.Metadata.{store}
use snbmodules.Session.World.{Env, Session, World}
use snbmodules.Session.Files.{pause_file, download_checked}
use snbmodules.Interfaces.Scp.Files
use snbmodules.Interfaces.Scp.Files.{ScpEnv, Scp, scp_interface, scp_command}

-- The session's environment, with the interface of SCP.
abbrev pub over : ScpEnv → Env → Env
over e env = record env { interface = scp_interface e }

-- What a copy leaves of a file, when it ended well and when it did not.
abbrev pub Copied : Bool → TransferMetadata → TransferMetadata → Type 0
Copied true m m' = (m'.status ≡ finished) × (m'.bytes_transferred ≡ m.size)
Copied false m m' = (m'.status ≡ error) × (m'.bytes_transferred ≡ 0)

ne_test : (p q : ℕ) → q ≢ p → (p == q) ≡ false
ne_test p q n = elim (Bool-cases (p == q)) [ inl k ↦ absurd (n (ground (arith, k))) | inr k ↦ k ]

module _ (e : ScpEnv) (env : Env) (s : Session) (p : ℕ) (w : World (over e env)) where
  -- A running file that is paused as one of several: the session sets PAUSED and then the interface
  -- does, and each adds the time since the start to the duration.
  pub pause_file-duration :
      (status_eq (w.heap p).status downloading || status_eq (w.heap p).status uploading) ≡ true
      → ((pause_file s true p w).1.heap p).duration
        ≡ (w.heap p).duration
          +ℤ (env.clock w.instant -ℤ (w.heap p).start_time)
          +ℤ (e.clock w.interface.instant -ℤ (w.heap p).start_time)
  unfolding pause_file set_status set_bytes_transferred Files.pause_file store
  pause_file-duration h =
      elim (Bool-cases (
        not (status_eq (w.heap p).status downloading)
        && not (status_eq (w.heap p).status uploading))) [
          | inl off ↦ absurd (ground (arith, off, h))
          | inr on ↦ rw (on, ==_refl p) refl
        ]

  -- The command that the interface runs for the file.
  abbrev pub ended_well : Text → Bool
  ended_well dest = e.system (length w.interface.commands) (scp_command w.interface dest (w.heap p))

  -- A waiting file that is downloaded as one of several: the result is whether the command of the interface ended
  -- well; the file is FINISHED with all its bytes where it did, and in ERROR with none where it did not; and no
  -- other file is changed.
  pub download_checked-Copied :
      (dest : Text)
      → (w.heap p).status ≡ waiting
      → ((download_checked s dest true p w).0 ≡ ended_well dest)
        × Copied (ended_well dest) (w.heap p) ((download_checked s dest true p w).1.heap p)
        × ((q : ℕ) → q ≢ p → (download_checked s dest true p w).1.heap q ≡ w.heap q)
  unfolding download_checked set_status set_bytes_transferred set_error_code Files.download_file
      store scp_command
  download_checked-Copied dest h =
      let calm : not (status_eq (w.heap p).status waiting) ≡ false = rw h refl in
      elim (Bool-cases (ended_well dest)) [
        | inl ok ↦
            rw (calm, ==_refl p, ok)
              (refl, rw (==_refl p, store) (refl, refl), λ q n. rw (ne_test p q n) refl)
        | inr bad ↦
            rw (calm, ==_refl p, bad)
              (refl, rw (==_refl p, store) (refl, refl), λ q n. rw (ne_test p q n) refl)
      ]
