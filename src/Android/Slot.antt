-- ===== src/Android/Slot.antt =====
-- The session slot and the status of crates/android/src/session.rs, with the calls of the app and the
-- threads of its sessions in any order. An atomic operation on the slot, and a critical section of the
-- status, is one step.
pub mod Exclusive
use photosync.Prelude.{
  ℕ, Bool, true, false, not, ◌≡◌, Option, none, some, List, [], ◌∷◌, ◌++◌, String,
}
use photosync.Net.Orchestrator.Finishing.{Totals}

pub record Status : Type 0 where
  pub running : Bool
  pub finished : Bool
  pub items_done : ℕ
  pub items_skipped : ℕ
  pub items_failed : ℕ
  pub bytes_done : ℕ
  pub error : Option String

-- `Status::default`
abbrev pub default_status : Status
default_status = record {
  running = false;
  finished = false;
  items_done = 0;
  items_skipped = 0;
  items_failed = 0;
  bytes_done = 0;
  error = none;
}

-- Where a call of `start_receiver` or `start_sender` that took the slot has come: it makes an identity,
-- it has set the status and has no thread yet, its session runs on a thread, or the session has reported
-- how it ended.
pub data Stage : Type 0 where
  claimed announced running reported : Stage

-- `BUSY`, `STATUS`, and the calls and threads that are under way.
pub record App : Type 0 where
  pub busy : Bool
  pub status : Option Status
  pub stages : List Stage

-- `claim`: whether the slot was free, and it is taken.
unfoldable pub claim : Bool → Bool × Bool
claim busy = (not busy, true)

-- `release`
unfoldable pub release : Bool → Bool
release busy = false

-- `update_status`
unfoldable pub update_status : (Status → Status) → Option Status → Option Status
update_status f none = none
update_status f (some s) = some (f s)

-- What `fail_session` and `finish_session` make of the status.
abbrev pub failed_with : String → Status → Status
failed_with msg s = record s { running = false; finished = true; error = some msg }

abbrev pub finished_with : Totals → Status → Status
finished_with n s = record s {
  running = false;
  finished = true;
  items_done = n.items_done;
  items_skipped = n.items_skipped;
  items_failed = n.items_failed;
  bytes_done = n.bytes_done;
}

abbrev pub entered : Bool → List Stage → List Stage
entered true stages = claimed ∷ stages
entered false stages = stages

-- A call of `start_receiver` or `start_sender` asks for the slot; without it, it returns.
unfoldable pub ask : App → App
unfolding claim
ask a = record a { busy = (claim a.busy).1; stages = entered (claim a.busy).0 a.stages }

-- `set_status` with a default that runs.
abbrev pub started_status : Option Status
started_status = some (record default_status { running = true })

-- One step of the app, by whichever call or thread comes next.
pub data Step : App → App → Type 0 where
  -- A call asks for the slot.
  asked : {a : App} → Step a (ask a)
  -- An identity or a code cannot be made: the slot is released.
  refused :
      {a : App} (earlier later : List Stage)
      → a.stages ≡ earlier ++ (claimed ∷ later)
      → Step a (record a { busy = release a.busy; stages = earlier ++ later })
  -- The status says that the session runs.
  said_so :
      {a : App} (earlier later : List Stage)
      → a.stages ≡ earlier ++ (claimed ∷ later)
      → Step a (record a { status = started_status; stages = earlier ++ (announced ∷ later) })
  -- `thread::spawn`
  spawned :
      {a : App} (earlier later : List Stage)
      → a.stages ≡ earlier ++ (announced ∷ later)
      → Step a (record a { stages = earlier ++ (running ∷ later) })
  -- `fail_session`, up to its release.
  failed :
      {a : App} (msg : String) (earlier later : List Stage)
      → a.stages ≡ earlier ++ (running ∷ later)
      → Step a (record a {
        status = update_status (failed_with msg) a.status;
        stages = earlier ++ (reported ∷ later);
      })
  -- `finish_session`, up to its release.
  finished :
      {a : App} (n : Totals) (earlier later : List Stage)
      → a.stages ≡ earlier ++ (running ∷ later)
      → Step a (record a {
        status = update_status (finished_with n) a.status;
        stages = earlier ++ (reported ∷ later);
      })
  -- Either one releases the slot.
  released :
      {a : App} (earlier later : List Stage)
      → a.stages ≡ earlier ++ (reported ∷ later)
      → Step a (record a { busy = release a.busy; stages = earlier ++ later })
  -- A thread that panics ends without either.
  panicked :
      {a : App} (earlier later : List Stage)
      → a.stages ≡ earlier ++ (running ∷ later)
      → Step a (record a { stages = earlier ++ later })

pub data Steps : App → App → Type 0 where
  here : {a : App} → Steps a a
  step : {a b c : App} → Step a b → Steps b c → Steps a c

abbrev pub idle : App
idle = record { busy = false; status = none; stages = [] }
