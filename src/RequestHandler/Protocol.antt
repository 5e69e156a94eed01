-- ===== src/RequestHandler/Protocol.antt =====
-- How the threads of SNBRequestHandlerModel.hxx share the buffer: the entry and the exit of a
-- request job in issue_request, and cleanup_check, over m_cv_mutex, m_cv, m_cleanup_requested and
-- m_requests_running. Each step is one critical section under the mutex, or a notify_all; a thread in
-- `cleaning` holds the mutex throughout. A thread that sleeps on m_cv wakes at a notify_all only, and then
-- tests its condition again; wakeups without a cause are left out.
use snbmodules.Common.{
  replicate, ℕ, ◌+◌, ◌-◌, ◌≡◌, ◌<◌, Bool, true, false, some, List, [], ◌∷◌, get_elem?, set,
}

-- Where a thread stands: outside, asleep in the wait of issue_request, counted in with its notify_all to
-- come, inside data_request, counted out with its notify_all to come, awake in the wait of cleanup_check,
-- asleep there, in cleanup.
pub data Phase : Type 0 where
  outside blocked entered reading left awaiting asleep cleaning : Phase

-- What notify_all does to a thread: it tests its condition again.
abbrev pub wake : Phase → Phase
wake outside = outside
wake blocked = outside
wake entered = entered
wake reading = reading
wake left = left
wake awaiting = awaiting
wake asleep = awaiting
wake cleaning = cleaning

unfoldable pub notify_all : List Phase → List Phase
notify_all [] = []
notify_all (p ∷ ps) = wake p ∷ notify_all ps

pub record Shared : Type 0 where
  pub cleanup_requested : Bool
  pub requests_running : ℕ
  pub phases : List Phase

abbrev pub tally : (Phase → ℕ) → List Phase → ℕ
tally f [] = 0
tally f (p ∷ ps) = f p + tally f ps

-- A request job that is counted in.
abbrev pub is_reading : Phase → ℕ
is_reading entered = 1
is_reading reading = 1
is_reading p = 0

abbrev pub is_entered : Phase → ℕ
is_entered entered = 1
is_entered p = 0

abbrev pub is_left : Phase → ℕ
is_left left = 1
is_left p = 0

abbrev pub is_blocked : Phase → ℕ
is_blocked blocked = 1
is_blocked p = 0

abbrev pub is_asleep : Phase → ℕ
is_asleep asleep = 1
is_asleep p = 0

abbrev pub is_cleaning : Phase → ℕ
is_cleaning cleaning = 1
is_cleaning p = 0

-- A thread that has taken the request to clean up.
abbrev pub is_cleaner : Phase → ℕ
is_cleaner awaiting = 1
is_cleaner asleep = 1
is_cleaner cleaning = 1
is_cleaner p = 0

abbrev pub MutexFree : Shared → Type 0
MutexFree s = tally is_cleaning s.phases ≡ 0

pub data Step (s : Shared) : Shared → Type 0 where
  -- There is no cleanup, and the job counts itself in.
  enter :
      (i : ℕ)
      → get_elem? s.phases i ≡ some outside
      → MutexFree s
      → s.cleanup_requested ≡ false
      → Step s
          (record s { requests_running = s.requests_running + 1; phases = set s.phases i entered })
  -- There is one, and the job waits.
  block :
      (i : ℕ)
      → get_elem? s.phases i ≡ some outside
      → MutexFree s
      → s.cleanup_requested ≡ true
      → Step s (record s { phases = set s.phases i blocked })
  -- The notify_all behind the entry.
  announce :
      (i : ℕ)
      → get_elem? s.phases i ≡ some entered
      → Step s (record s { phases = notify_all (set s.phases i reading) })
  -- The job has its result, and counts itself out.
  leave :
      (i : ℕ)
      → get_elem? s.phases i ≡ some reading
      → MutexFree s
      → Step s
          (record s { requests_running = s.requests_running - 1; phases = set s.phases i left })
  -- The notify_all behind that.
  tell :
      (i : ℕ)
      → get_elem? s.phases i ≡ some left
      → Step s (record s { phases = notify_all (set s.phases i outside) })
  -- cleanup_check with something to pop: the exchange finds no other cleanup.
  ask :
      (i : ℕ)
      → get_elem? s.phases i ≡ some outside
      → MutexFree s
      → s.cleanup_requested ≡ false
      → Step s (record s { cleanup_requested = true; phases = set s.phases i awaiting })
  -- Requests are running, and the cleanup waits.
  sleep :
      (i : ℕ)
      → get_elem? s.phases i ≡ some awaiting
      → MutexFree s
      → 0 < s.requests_running
      → Step s (record s { phases = set s.phases i asleep })
  -- No request is running.
  begin :
      (i : ℕ)
      → get_elem? s.phases i ≡ some awaiting
      → MutexFree s
      → s.requests_running ≡ 0
      → Step s (record s { phases = set s.phases i cleaning })
  -- The cleanup is done, and its notify_all with it.
  finish :
      (i : ℕ)
      → get_elem? s.phases i ≡ some cleaning
      → Step s
          (record s { cleanup_requested = false; phases = notify_all (set s.phases i outside) })

pub data Reach (s : Shared) : Shared → Type 0 where
  here : Reach s s
  next : {t u : Shared} → Reach s t → Step t u → Reach s u

-- At the start of a run `n` threads are outside.
abbrev pub start : ℕ → Shared
start n = record { cleanup_requested = false; requests_running = 0; phases = replicate n outside }
