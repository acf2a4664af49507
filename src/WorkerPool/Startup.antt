-- ===== src/WorkerPool/Startup.antt =====
-- A new pool, and every state that it can reach.
use huba.Common.{ℕ, ◌≤◌, ◌<◌, ◌≡◌, some, List, [], ◌∷◌, arith}
use huba.Common.Int.{ℤ}
use huba.WorkerPool.Types.{Config, Pool}
use huba.WorkerPool.Setup.{
  Setting, with_name, default_config, apply_option, apply_options, with_channels, new_worker_pool,
}
use huba.WorkerPool.Schedule.{Action, run}
use huba.WorkerPool.Invariant.{Inv, run-Inv, clamp-Ordered}

abbrev IsOrdered : Config → Type 0
IsOrdered c = (0 < c.min_workers) × (c.min_workers ≤ c.max_workers)

default_config-IsOrdered : (a b : ℤ) → IsOrdered (default_config a b)
unfolding default_config
default_config-IsOrdered a b = clamp-Ordered a b

apply_option-IsOrdered : (o : Setting) (c : Config) → IsOrdered c → IsOrdered (apply_option o c)
unfolding apply_option
apply_option-IsOrdered (with_name x) c h = h
apply_option-IsOrdered _ c h = h

apply_options-IsOrdered :
    (options : List Setting) (c : Config) → IsOrdered c → IsOrdered (apply_options options c)
unfolding apply_options
apply_options-IsOrdered [] c h = h
apply_options-IsOrdered (o ∷ options) c h =
    apply_options-IsOrdered options (apply_option o c) (apply_option-IsOrdered o c h)

with_channels-Inv :
    {V : Type 0} (c : Config) (n : ℕ) → IsOrdered c → Inv (with_channels {V = V} c n)
unfolding with_channels
with_channels-Inv c n h = ground arith

pub new_worker_pool-Inv :
    {V : Type 0} (a b : ℤ) (options : List Setting) (p : Pool V)
    → new_worker_pool a b options ≡ some p
    → Inv p
unfolding new_worker_pool
new_worker_pool-Inv {V} a b options p e =
    let h = apply_options-IsOrdered options (default_config a b) (default_config-IsOrdered a b) in
    ground
      (arith, λ (n : ℕ). with_channels-Inv {V = V} (apply_options options (default_config a b)) n h)

-- Whatever the arguments and options of `NewWorkerPool`, and however the calls of clients, the
-- steps of workers and autoscalers and a shutdown interleave: the active-worker count and the wait
-- group equal the number of live workers, neither channel exceeds its capacity, the worker bounds
-- stay ordered and positive, and the channels are closed only together, by a shutdown that has
-- cancelled the context and returned.
pub run-new_worker_pool-Inv :
    {V : Type 0} (a b : ℤ) (options : List Setting) (p : Pool V) (actions : List (Action V))
    → new_worker_pool a b options ≡ some p
    → Inv (run actions p)
run-new_worker_pool-Inv a b options p actions e =
    run-Inv actions p (new_worker_pool-Inv a b options p e)
