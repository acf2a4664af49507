-- ===== src/WorkerPool/Setup.antt =====
-- workerpool/workerpool..go: the options and `NewWorkerPool`.
use huba.Common.{
  ℕ, zero, suc, ◌*◌, ◌%◌, ◌^◌, Bool, true, false, String, Option, none, some, List, [], ◌∷◌, ltb,
  if◌then◌else◌,
}
use huba.Common.Int.{ℤ, pos, negsuc, int64_of_bits}
use huba.WorkerPool.Types.{Config, Pool, Shutdown}

-- The options that the package offers. Their fields are private, so that there are no others.
-- The argument of `with_panic_handler` says whether the handler is a function or nil.
pub data Setting : Type 0 where
  with_name : String → Setting
  with_queue_capacity : ℤ → Setting
  with_auto_scaling : Setting
  with_panic_handler : Bool → Setting
  with_default_task_timeout : ℤ → Setting

-- An option changes the settings before the channels are made.
unfoldable pub apply_option : Setting → Config → Config
apply_option (with_name name) c = record c { name = name }
apply_option (with_queue_capacity capacity) c = record c { queue_capacity = capacity }
apply_option with_auto_scaling c = record c { auto_scale = true }
apply_option (with_panic_handler handler) c = record c { panic_handler = handler }
apply_option (with_default_task_timeout timeout) c = record c { task_timeout = timeout }

-- `if minWorkers <= 0 { minWorkers = 1 }`
unfoldable pub clamp_min : ℤ → ℕ
clamp_min (pos zero) = 1
clamp_min (pos (suc n)) = suc n
clamp_min (negsuc n) = 1

-- `if maxWorkers < minWorkers { maxWorkers = minWorkers }`
unfoldable pub clamp_max : ℕ → ℤ → ℕ
clamp_max lo (pos n) = if ltb n lo then lo else n
clamp_max lo (negsuc n) = lo

abbrev pub second : ℕ
second = 1_000_000_000

unfoldable pub default_config : ℤ → ℤ → Config
unfolding clamp_min clamp_max
default_config min_workers max_workers =
    let lo = clamp_min min_workers in
    let hi = clamp_max lo max_workers in
    record {
      name = "worker-pool";
      min_workers = lo;
      max_workers = hi;
      queue_capacity = int64_of_bits (hi * 10 % 2 ^ 64);
      auto_scale = false;
      panic_handler = true;
      task_timeout = pos (30 * second);
    }

unfoldable pub apply_options : List Setting → Config → Config
unfolding apply_option
apply_options [] c = c
apply_options (option ∷ options) c = apply_options options (apply_option option c)

-- Both channels are made with the capacity that the settings give.
unfoldable pub with_channels : {V : Type 0} → Config → ℕ → Pool V
with_channels c n = record {
  config = c;
  task_queue = record { capacity = n; items = []; closed = false };
  result_chan = record { capacity = n; items = []; closed = false };
  workers = [];
  active_workers = 0;
  wg = 0;
  total_tasks = 0;
  completed_tasks = 0;
  failed_tasks = 0;
  cancelled = false;
  is_running = false;
  shutdown = Shutdown.not_begun;
  scalers = 0;
  polling = 0;
  submitting = [];
  recovered = [];
}

-- `none` is the panic of `make(chan T, n)` at a negative `n`.
unfoldable pub new_worker_pool : {V : Type 0} → ℤ → ℤ → List Setting → Option (Pool V)
unfolding default_config apply_options with_channels
new_worker_pool min_workers max_workers options =
    let c = apply_options options (default_config min_workers max_workers) in
    elim c.queue_capacity [ pos n ↦ some (with_channels c n) | negsuc n ↦ none ]
