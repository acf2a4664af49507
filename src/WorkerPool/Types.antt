-- ===== src/WorkerPool/Types.antt =====
-- workerpool/workerpool..go: `TaskFunc`, `Task`, `Result`, `WorkerPool`, and the goroutines that a
-- pool runs. A call of a task function is its outcome under the time limit of the context that it
-- is given. Times are in nanoseconds.
use huba.Common.{ℕ, ◌+◌, ◌%◌, ◌^◌, Bool, String, Option, List, length, ltb}
use huba.Common.Int.{ℤ}

-- What a call of a `TaskFunc` does: it returns a value and an error (`none` is nil), or it panics.
pub data Outcome (V : Type 0) : Type 0 where
  returns : V → Option String → Outcome V
  panics : String → Outcome V

-- The argument is the time limit of the context, if it has one.
abbrev pub TaskFunc : Type 0 → Type 0
TaskFunc V = Option ℤ → Outcome V

pub record Task (V : Type 0) : Type 0 where
  pub id : String
  pub execute : Option (TaskFunc V)
  pub timeout : ℤ

pub record Result (V : Type 0) : Type 0 where
  pub task_id : String
  pub value : V
  pub error : Option String
  pub start_time : ℕ
  pub end_time : ℕ
  pub duration : ℤ

-- A buffered channel, oldest item first.
pub record Chan (A : Type 0) : Type 0 where
  pub capacity : ℕ
  pub items : List A
  pub closed : Bool

abbrev pub has_room : {A : Type 0} → Chan A → Bool
has_room c = ltb (length c.items) c.capacity

-- Where a worker goroutine is: at the `select` of its loop, in `Execute`, or at the `select` that
-- sends its result.
pub data Worker (V : Type 0) : Type 0 where
  idle : Worker V
  executing : Task V → ℕ → Worker V
  sending : Result V → Worker V

-- Where the function that `shutdownOnce` guards is: not called, at the test of the loop that
-- clears the queue, past that test and receiving, in `wg.Wait`, or returned.
pub data Shutdown : Type 0 where
  not_begun clearing receiving waiting finished : Shutdown

pub record Config : Type 0 where
  pub name : String
  pub min_workers : ℕ
  pub max_workers : ℕ
  pub queue_capacity : ℤ
  pub auto_scale : Bool
  pub panic_handler : Bool
  pub task_timeout : ℤ

-- `workers` are the live goroutines; `recovered` are the panics handed to the panic handler;
-- `submitting` are the tasks of the `Submit` calls that have found the pool running and have not sent
-- yet;
-- `scalers` counts the autoscaler goroutines, `polling` the callers inside `StopAndWait`. The
-- int64 counters are kept as bit patterns.
pub record Pool (V : Type 0) : Type 0 where
  pub config : Config
  pub open config use *
  pub task_queue : Chan (Task V)
  pub result_chan : Chan (Result V)
  pub workers : List (Worker V)
  pub active_workers : ℕ
  pub wg : ℕ
  pub total_tasks : ℕ
  pub completed_tasks : ℕ
  pub failed_tasks : ℕ
  pub cancelled : Bool
  pub is_running : Bool
  pub shutdown : Shutdown
  pub scalers : ℕ
  pub polling : ℕ
  pub submitting : List (Task V)
  pub recovered : List String

-- `atomic.AddInt64(&counter, 1)`
abbrev pub inc64 : ℕ → ℕ
inc64 n = (n + 1) % 2 ^ 64
