-- ===== src/Runtime/Mailbox.antt =====
-- The mailbox of a document on the thread pool: samod/src/doc_runner/threadpool.rs.
-- Dispatchers and runners take turns at the mutex of the mailbox; a step is what happens between
-- two of them.
pub mod Fifo
use samod.Prelude.{ℕ, zero, suc, Bool, true, false, List, [], ◌∷◌, ◌++◌, ◌≡◌, if◌then◌else◌}

pub record Mailbox (Task : Type 0) : Type 0 where
  pub tasks : List Task
  pub running : Bool

-- A call of `run`, on the pool or in its queue: before the next of so many turns of its loop, or with a
-- task and so many turns after it.
pub data Runner (Task : Type 0) : Type 0 where
  at_loop : ℕ → Runner Task
  handling : Task → ℕ → Runner Task

-- The mailbox, the runners, and the tasks that the actor has handled.
pub record World (Task : Type 0) : Type 0 where
  pub mailbox : Mailbox Task
  pub runners : List (Runner Task)
  pub handled : List Task

abbrev pub batch_size : ℕ
batch_size = 64

abbrev pub idle : (Task : Type 0) → World Task
idle Task = record { mailbox = record { tasks = []; running = false }; runners = []; handled = [] }

module _ {Task : Type 0} where
  -- `schedule` puts a new runner into the queue of the pool.
  abbrev schedule : List (Runner Task) → List (Runner Task)
  schedule runners = runners ++ at_loop batch_size ∷ []

  unfoldable pub dispatch : Task → World Task → World Task
  dispatch task w = record w {
    mailbox = record { tasks = w.mailbox.tasks ++ task ∷ []; running = true };
    runners = if w.mailbox.running then w.runners else schedule w.runners;
  }

  abbrev take_task :
      List (Runner Task) → ℕ → List (Runner Task) → List Task → World Task → World Task
  take_task before n after [] w = record w {
    mailbox = record w.mailbox { running = false };
    runners = before ++ after;
  }
  take_task before n after (task ∷ tasks) w = record w {
    mailbox = record w.mailbox { tasks = tasks };
    runners = before ++ handling task n ∷ after;
  }

  -- The turn of one runner among the others.
  unfoldable pub run_turn :
      List (Runner Task) → Runner Task → List (Runner Task) → World Task → World Task
  run_turn before (at_loop zero) after w = record w { runners = schedule (before ++ after) }
  run_turn before (at_loop (suc n)) after w = take_task before n after w.mailbox.tasks w
  run_turn before (handling task n) after w = record w {
    runners = before ++ at_loop n ∷ after;
    handled = w.handled ++ task ∷ [];
  }

  pub data Step (w : World Task) : World Task → Type 0 where
    dispatches : (task : Task) → Step w (dispatch task w)
    runs :
        (before : List (Runner Task)) (r : Runner Task) (after : List (Runner Task))
        → w.runners ≡ before ++ r ∷ after
        → Step w (run_turn before r after w)
