-- ===== src/Interfaces/Rclone/Polls.antt =====
-- What the rounds of do_work leave of the files
-- (include/snbmodules/interfaces/transfer_interface_RClone.hpp).
use snbmodules.Common.{
  ==_refl, Bool, true, >>=-eq-some, ℕ, ◌*◌, ◌/◌, ◌%◌, ◌^◌, ◌<◌, ◌≡◌, inl, inr, refl, sym, false,
  none, some, [], ◌∷◌, All, length, Text, text, ℤ, ◌+◌, ◌==◌, lt→ltb, Bool-cases, if◌then◌else◌,
}
use mathlib.Core.Path.{subst}
use mathlib.Core.Option.{some_inj}
use snbmodules.Enums.Status.{finished, error}
use snbmodules.Metadata.Transfer.{
  TransferMetadata, set_status, set_progress, set_bytes_transferred, set_transmission_speed,
  set_error_code,
}
use snbmodules.Group.Metadata.{Heap, store}
use snbmodules.Interfaces.Rclone.State.{RcloneEnv, Jobs, Rclone, Reply, request_rpc, fits}
use snbmodules.Interfaces.Rclone.Request.{job_request}
use snbmodules.Interfaces.Rclone.Work.{
  field, read_end, read_finished, JobStatus, unfinished, succeeded, failed, settle, settle_job,
  read_status, check_jobs, clock_reads,
}

-- What 100% of a size is in 64 bits.
abbrev pub full : ℕ → ℕ
full n = 100 * n % 2 ^ 64 / 100

-- What a reply of job/status says, by its fields.
pub data Says (env : RcloneEnv) (j : env.json.Json) : JobStatus → Type 0 where
  not_given :
      (f : env.json.Json)
      → env.json.at (text "finished") j ≡ some f
      → env.json.is_null f ≡ true
      → Says env j unfinished
  not_yet :
      (f : env.json.Json)
      → env.json.at (text "finished") j ≡ some f
      → env.json.get_bool f ≡ some false
      → Says env j unfinished
  well :
      (f b : env.json.Json)
      → env.json.at (text "finished") j ≡ some f
      → env.json.get_bool f ≡ some true
      → env.json.at (text "success") j ≡ some b
      → env.json.get_bool b ≡ some true
      → Says env j succeeded
  badly :
      (f b t : env.json.Json) (e : Text)
      → env.json.at (text "finished") j ≡ some f
      → env.json.get_bool f ≡ some true
      → env.json.at (text "success") j ≡ some b
      → env.json.get_bool b ≡ some false
      → env.json.at (text "error") j ≡ some t
      → env.json.get_text t ≡ some e
      → Says env j (failed e)

module _ (env : RcloneEnv) where
  read_end-Says :
      (j f b : env.json.Json) (ok : Bool) (x : JobStatus)
      → env.json.at (text "finished") j ≡ some f
      → env.json.get_bool f ≡ some true
      → env.json.at (text "success") j ≡ some b
      → env.json.get_bool b ≡ some ok
      → read_end env ok j ≡ some x
      → Says env j x
  unfolding read_end field
  read_end-Says j f b true x p q r t h = subst (Says env j) (some_inj.0 h) (well f b p q r t)
  read_end-Says j f b false x p q r t h =
      let (e, h1, h2) = >>=-eq-some (field env env.json.get_text (text "error") j) _ h in
      let (v, k1, k2) = >>=-eq-some (env.json.at (text "error") j) _ h1 in
      subst (Says env j) (some_inj.0 h2) (badly f b v e p q r t k1 k2)

  read_finished-Says :
      (j f : env.json.Json) (ends : Bool) (x : JobStatus)
      → env.json.at (text "finished") j ≡ some f
      → env.json.get_bool f ≡ some ends
      → read_finished env ends j ≡ some x
      → Says env j x
  unfolding read_finished field
  read_finished-Says j f false x p q h = subst (Says env j) (some_inj.0 h) (not_yet f p q)
  read_finished-Says j f true x p q h =
      let (ok, h1, h2) = >>=-eq-some (field env env.json.get_bool (text "success") j) _ h in
      let (b, k1, k2) = >>=-eq-some (env.json.at (text "success") j) _ h1 in
      read_end-Says j f b ok x p q k1 k2 h2

  read_status-Says : (j : env.json.Json) (x : JobStatus) → read_status env j ≡ some x → Says env j x
  unfolding read_status
  read_status-Says j x h =
      let (f, h1, h2) = >>=-eq-some (env.json.at (text "finished") j) _ h in
      elim (Bool-cases (env.json.is_null f)) [
        | inl k ↦ subst (Says env j) (some_inj.0 (rw k at h2)) (not_given f h1 k)
        | inr k ↦
            let (ends, k1, k2) = >>=-eq-some (env.json.get_bool f) _ (rw k at h2) in
            read_finished-Says j f ends x h1 k1 k2
      ]

-- What a file is after what was said of its job.
abbrev pub Result : JobStatus → TransferMetadata → TransferMetadata → Type 0
Result unfinished m m' = m' ≡ m
Result succeeded m m' =
    (m'.status ≡ finished) × (m'.bytes_transferred ≡ full m.size) × (m'.size ≡ m.size)
Result (failed e) m m' = (m'.status ≡ error) × (m'.error_code ≡ e) × (m'.size ≡ m.size)

-- A file before and after a reply about its job.
pub data Told (env : RcloneEnv) (r : Reply) (m m' : TransferMetadata) : Type 0 where
  refused : (r.status == 200) ≡ false → m' ≡ m → Told env r m m'
  said :
      (j : env.json.Json) (x : JobStatus)
      → (r.status == 200) ≡ true
      → env.json.parse r.output ≡ some j
      → Says env j x
      → Result x m m'
      → Told env r m m'

-- One job is asked for: its file is as the reply says, and no other is changed.
pub record One (env : RcloneEnv) (p : ℕ) (id : ℤ) (s s' : Rclone) : Type 0 where
  pub requests : s'.requests ≡ (text "job/status", job_request id) ∷ s.requests
  pub jobs : s'.jobs_id ≡ s.jobs_id
  pub told :
      Told env
        (env.rpc (length s.requests) (text "job/status") (job_request id))
        (s.heap p)
        (s'.heap p)
  pub others : (q : ℕ) → (p == q) ≡ false → s'.heap q ≡ s.heap q

-- The jobs are asked for one after the other, each once.
abbrev pub Looked : RcloneEnv → Jobs → Rclone → Rclone → Type 0
Looked env [] s s' = s' ≡ s
Looked env ((p, id) ∷ js) s s' = (mid : Rclone) × One env p id s mid × Looked env js mid s'

-- What is taken from librclone and the JSON library: each reply is JSON, and what job/status replies has
-- its fields.
pub record Documented (env : RcloneEnv) : Type 0 where
  pub parsed :
      (n : ℕ) (m i : Text) → (j : env.json.Json) × (env.json.parse (env.rpc n m i).output ≡ some j)
  pub answered :
      (n : ℕ) (i : Text) (j : env.json.Json)
      → env.json.parse (env.rpc n (text "job/status") i).output ≡ some j
      → (x : JobStatus) × (read_status env j ≡ some x)

-- A number of a job that fits the buffer of its request.
abbrev pub Printable : Jobs → Type 0
Printable js = All (λ (p, id). length (job_request id) < 100) js

settle-Result :
    (now : ℤ) (x : JobStatus) (m : TransferMetadata)
    → (m' : TransferMetadata) × (settle now x m ≡ some m') × Result x m m'
unfolding settle set_status set_progress set_bytes_transferred set_transmission_speed set_error_code
settle-Result now unfinished m = (m, refl, refl)
settle-Result now succeeded m = (_, refl, (refl, refl, refl))
settle-Result now (failed e) m = (_, refl, (refl, refl, refl))

store_here : (p : ℕ) (m : TransferMetadata) (h : Heap) → store p m h p ≡ m
unfolding store
store_here p m h = rw (==_refl p) refl

store_other : (p q : ℕ) (m : TransferMetadata) (h : Heap) → (p == q) ≡ false → store p m h q ≡ h q
unfolding store
store_other p q m h e = rw e refl

module _ (env : RcloneEnv) where
  -- What a job's number is asked with.
  abbrev asked : ℤ → Rclone → Rclone
  asked id s = record s { requests = (text "job/status", job_request id) ∷ s.requests }

  abbrev reply_of : ℤ → Rclone → Reply
  reply_of id s = env.rpc (length s.requests) (text "job/status") (job_request id)

  settle_said :
      (p : ℕ) (id : ℤ) (x : JobStatus) (j : env.json.Json) (s : Rclone)
      → read_status env j ≡ some x
      → ((reply_of id s).status == 200) ≡ true
      → env.json.parse (reply_of id s).output ≡ some j
      → (s' : Rclone) × (settle_job env p (some j) (asked id s) ≡ some s') × One env p id s s'
  unfolding settle_job
  settle_said p id x j s e ok parsed =
      let (m, ran, result) = settle-Result (env.clock s.instant) x (s.heap p) in
      let s' : Rclone = record (asked id s) {
        heap = store p m s.heap;
        instant = s.instant + clock_reads x;
      } in
      (
        s',
        rw (e, ran) refl,
        record {
          requests = refl;
          jobs = refl;
          told =
              said j x ok parsed (read_status-Says env j x e)
                (subst (Result x (s.heap p)) (sym (store_here p m s.heap)) result);
          others = λ q n. store_other p q m s.heap n;
        },
      )

  settle_asked :
      (d : Documented env) (p : ℕ) (id : ℤ) (j : env.json.Json) (s : Rclone)
      → env.json.parse (reply_of id s).output ≡ some j
      → (s' : Rclone) × (settle_job env p
            (if (reply_of id s).status == 200 then some j else none)
            (asked id s)
          ≡ some s')
        × One env p id s s'
  unfolding settle_job
  settle_asked d p id j s parsed = elim (Bool-cases ((reply_of id s).status == 200)) [
    | inl ok ↦
        let (x, e) = d.answered (length s.requests) (job_request id) j parsed in
        rw ok (settle_said p id x j s e ok parsed)
    | inr bad ↦ (
      asked id s,
      rw bad refl,
      record { requests = refl; jobs = refl; told = refused bad refl; others = λ q n. refl },
    )
  ]

  -- The loop over the jobs ends, when each reply is JSON and has its fields, and every job's number fits its request.
  -- It asks for the jobs one after the other, each once. The file of a job is as it was where the reply is refused or
  -- says that the job is not finished; it is FINISHED, at 100% of its size, where the reply says that the job is
  -- finished with success, and in ERROR with the reply's text where it is finished without; no other file is changed,
  -- nor is the map of the jobs.
  pub check_jobs-Looked :
      (d : Documented env) (js : Jobs) (s : Rclone)
      → Printable js
      → (s' : Rclone) × (check_jobs env js s ≡ some s') × Looked env js s s'
  unfolding check_jobs request_rpc fits
  check_jobs-Looked d [] s h = (s, refl, refl)
  check_jobs-Looked d ((p, id) ∷ js) s h =
      let (j, parsed) = d.parsed (length s.requests) (text "job/status") (job_request id) in
      let (s1, ran, one) = settle_asked d p id j s parsed in
      let (s2, rest, more) = check_jobs-Looked d js s1 h.1 in
      (s2, rw (lt→ltb _ _ h.0, parsed, ran) rest, (s1, one, more))
