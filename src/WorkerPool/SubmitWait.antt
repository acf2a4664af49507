-- ===== src/WorkerPool/SubmitWait.antt =====
-- workerpool/workerpool..go: `SubmitWait`: the wrapped task that it submits, and the goroutine that
-- listens for its result on the channel that all callers share.
use huba.Common.{String, Bool, some, List, [], ◌∷◌, ◌++◌, str_eq, if◌then◌else◌}
use huba.WorkerPool.Types.{Pool, Task, Result}
use huba.WorkerPool.Submit.{Submitted, submit}
use huba.WorkerPool.Workers.{call}

module _ {V : Type 0} where
  -- `task.Execute` becomes a function that calls the original one, also where that is nil.
  unfoldable pub wrap : Task V → Task V
  wrap t = record t { execute = some (λ limit. call t.execute limit) }

  -- The call up to its wait: what `Submit` answers, and the id that the listener looks for, which
  -- is that of the caller's own copy of the task.
  unfoldable pub submit_wait : Bool → Task V → Pool V → Pool V × Submitted × String
  submit_wait prefer_done t p = let (q, r) = submit prefer_done (wrap t) p in (q, r, (wrap t).id)

-- One round of the listener: the result is the one it waits for, or it is put back at the end of
-- the channel, or the put-back panics on a closed channel, outside any `recover`.
pub data Heard (V : Type 0) : Type 0 where
  delivered : Pool V → Result V → Heard V
  put_back : Pool V → Heard V
  crashed : Heard V
  nothing_yet : Heard V

module _ {V : Type 0} where
  hear : String → List (Result V) → Pool V → Heard V
  hear id [] p = nothing_yet
  hear id (r ∷ rest) p =
      if str_eq r.task_id id
      then delivered (record p { result_chan = record (p.result_chan) { items = rest } }) r
      else if p.result_chan.closed
      then crashed
      else put_back (record p { result_chan = record (p.result_chan) { items = rest ++ r ∷ [] } })

  unfoldable pub listen : String → Pool V → Heard V
  unfolding hear
  listen id p = hear id p.result_chan.items p
