-- ===== src/WorkerPool/Naming.antt =====
-- The ids under which tasks are queued, and what they mean for `SubmitWait`.
use huba.Common.{
  ℕ, ◌<◌, String, ◌≡◌, ◌≢◌, Bool, true, false, Option, none, [], ◌∷◌, ◌++◌, arith, eq_iff, str_eq,
  if◌then◌else◌, is_some, length,
}
use text.Mathlib.TextLemmas.{append-eq-nil_iff}
use huba.Common.Int.{ℤ}
use huba.WorkerPool.Types.{Pool, Task, Result, inc64, panics}
use huba.WorkerPool.Submit.{accepted, generated_id, name_task, offer, submit}
use huba.WorkerPool.Workers.{call}
use huba.WorkerPool.SubmitWait.{wrap, submit_wait, delivered, listen}

pub generated_id-ne-nil : (n : ℕ) → generated_id n ≢ ""
unfolding generated_id
generated_id-ne-nil n e = let empty : ◌≡◌ {A = String} "task-" "" = (append-eq-nil_iff.0 e).0 in cc

module _ {V : Type 0} where
  offer_accepted :
      (b : Bool) (t : Task V) (p q : Pool V) (id : String)
      → offer b t p ≡ (q, accepted id)
      → (id ≡ t.id) × (q.task_queue.items ≡ p.task_queue.items ++ t ∷ [])
  unfolding offer
  offer_accepted b t p q id e = ground arith

  name_task_lem :
      (t : Task V) (p : Pool V)
      → let (q, named) = name_task t p in
        (named.id ≡ (if str_eq t.id "" then generated_id (inc64 p.total_tasks) else t.id))
        × (named.execute ≡ t.execute)
        × (named.timeout ≡ t.timeout)
        × (q.is_running ≡ p.is_running)
        × (q.task_queue ≡ p.task_queue)
        × (q.cancelled ≡ p.cancelled)
  unfolding name_task
  name_task_lem t p = ground arith

  offer_room :
      (b : Bool) (t : Task V) (p : Pool V)
      → p.cancelled ≡ false
      → p.task_queue.closed ≡ false
      → length p.task_queue.items < p.task_queue.capacity
      → (offer b t p).1 ≡ accepted t.id
  unfolding offer
  offer_room b t p c o room = ground arith

  -- A task that `Submit` accepts goes to the end of the queue, under the id that it came with or,
  -- if that is empty, under one generated from the counter; it keeps its function and timeout. Its
  -- function is not nil and the pool is running.
  pub submit_accepted :
      (b : Bool) (t : Task V) (p q : Pool V) (id : String)
      → submit b t p ≡ (q, accepted id)
      → (id ≡ (if str_eq t.id "" then generated_id (inc64 p.total_tasks) else t.id))
        × (q.task_queue.items ≡ p.task_queue.items ++ record t { id = id } ∷ [])
        × (is_some t.execute ≡ true)
        × (p.is_running ≡ true)
  unfolding submit
  submit_accepted b t p q id e =
      ground (arith, name_task_lem t p, offer_accepted b (name_task t p).1 (name_task t p).0 q id)

  -- `SubmitWait` with a task that has no id: where the task is accepted it is queued under another
  -- id than the one that the listener looks for, so that the listener delivers no result that
  -- carries the id of the queued task, whatever the state of the pool then is.
  pub submit_wait_unnamed :
      (b : Bool) (t : Task V) (p q later next : Pool V) (id awaited : String) (r : Result V)
      → submit_wait b t p ≡ (q, accepted id, awaited)
      → t.id ≡ ""
      → r.task_id ≡ id
      → (id ≢ awaited) × (listen awaited later ≢ delivered next r)
  unfolding submit_wait wrap listen
  submit_wait_unnamed b t p q later next id awaited r e n m =
      let (i, _, _, _) = submit_accepted b (wrap t) p q id (ground arith) in
      ground (
        arith,
        i,
        eq_iff t.id "",
        eq_iff r.task_id awaited,
        generated_id-ne-nil (inc64 p.total_tasks),
      )

  -- On a running pool with room that is not being shut down, `SubmitWait` has a task with a nil
  -- function accepted, and the call of the wrapped function panics.
  pub submit_wait_nil :
      (b : Bool) (t : Task V) (p : Pool V) (limit : Option ℤ)
      → t.execute ≡ none
      → p.is_running ≡ true
      → p.cancelled ≡ false
      → p.task_queue.closed ≡ false
      → length p.task_queue.items < p.task_queue.capacity
      → ((submit_wait b t p).1 ≡ accepted (name_task (wrap t) p).1.id)
        × (call (wrap t).execute limit ≡ panics "invalid memory address or nil pointer dereference")
  unfolding submit_wait wrap submit call
  submit_wait_nil b t p limit e r c o room = ground (
    arith,
    name_task_lem (wrap t) p,
    offer_room b (name_task (wrap t) p).1 (name_task (wrap t) p).0,
  )
