-- ===== src/WorkerPool/Tests.antt =====
-- Runs of a small pool, and the theorems at concrete data.
use huba.Common.{Option, ◌-◌, str_eq, if◌then◌else◌}
use huba.WorkerPool.Setup.{apply_options}
use huba.WorkerPool.Control.{stop_and_wait, stop_when_empty}
use huba.WorkerPool.Schedule.{poll_ends}
use huba.WorkerPool.Example
use huba.WorkerPool.Example.{Event, ticker, others, shutdown, Program, started, handle, handle_all}
use huba.WorkerPool.Workers.{time_limit}
use huba.WorkerPool.Unstopped.{demonstration_never_stops}
use huba.Common.{ℕ, String, ◌≡◌, refl, ◌≢◌, true, false, none, some, List, [], ◌∷◌, arith}
use huba.Common.Int.{pos}
use huba.WorkerPool.Types.{Pool, Task, Shutdown, Result, returns, panics}
use huba.WorkerPool.Setup.{
  Setting, with_queue_capacity, clamp_min, clamp_max, default_config, with_channels,
  new_worker_pool,
}
use huba.WorkerPool.Scaling.{start_workers, start, adjust_workers}
use huba.WorkerPool.Submit.{name_task, offer, submit, begin_submit, end_submit}
use huba.WorkerPool.Workers.{result_of, call, take_task, finish_task, send_result}
use huba.WorkerPool.Control.{stop, stop_step, drain, pause, resume}
use huba.WorkerPool.Schedule.{
  Action, starts, stops, stop_proceeds, submits, submit_checks, submit_offers, worker_takes,
  worker_finishes, worker_sends, pauses, resumes, step, after, run,
}
use huba.WorkerPool.Invariant.{Inv}
use huba.WorkerPool.Startup.{run-new_worker_pool-Inv}
use huba.WorkerPool.Growth.{adjust_workers_count, pause_start, pause_start_grows}
use huba.WorkerPool.Accounting.Tallies.{Accounts, run_tally}
use huba.WorkerPool.Accounting.{run-Accounts}
use huba.WorkerPool.Stopping.{IsSpent, stop_not_running_is_final, stop_and_wait_never_stops}
use huba.WorkerPool.Clearing.{IsStuck, run-IsStuck}
use huba.WorkerPool.SubmitWait.{wrap, submit_wait, delivered, listen}
use huba.WorkerPool.Naming.{submit_wait_unnamed}
use huba.WorkerPool.Draining.{drain_lem}
use huba.WorkerPool.Ids.{generated_ids_differ}

abbrev settings : List Setting
settings = with_queue_capacity (pos 3) ∷ []

fresh : Pool ℕ
unfolding default_config with_channels clamp_min clamp_max
fresh = with_channels (record (default_config (pos 1) (pos 2)) { queue_capacity = pos 3 }) 3

new_fresh : new_worker_pool (pos 1) (pos 2) settings ≡ some fresh
unfolding new_worker_pool fresh
new_fresh = refl

abbrev double : Task ℕ
double = record { id = ""; execute = some (λ limit. returns 42 none); timeout = pos 0 }

abbrev broken : Task ℕ
broken = record { id = "b"; execute = some (λ limit. panics "boom"); timeout = pos 5 }

-- One worker runs one task, and a client receives its result.
abbrev one_task : List (Action ℕ)
one_task =
    starts ∷ submits false double ∷ worker_takes 0 10 ∷ worker_finishes 0 15 ∷ worker_sends 0 ∷ []

one_task_result :
    (run one_task fresh).result_chan.items
    ≡ record {
      task_id = "task-1";
      value = 42;
      error = none;
      start_time = 10;
      end_time = 15;
      duration = pos 5;
    }
      ∷ []
unfolding run step fresh start start_workers submit name_task offer take_task finish_task
    send_result call result_of
one_task_result = refl

run-new_worker_pool-Inv_example : Inv (run one_task fresh)
run-new_worker_pool-Inv_example =
    run-new_worker_pool-Inv (pos 1) (pos 2) settings fresh one_task new_fresh

-- The weight that follows the task `broken`.
is_broken : Task ℕ → ℕ
is_broken t = if str_eq t.id "b" then 1 else 0

abbrev two_tasks : List (Action ℕ)
two_tasks =
    starts
    ∷ submits false double
    ∷ submits false broken
    ∷ worker_takes 0 10
    ∷ worker_finishes 0 15
    ∷ worker_sends 0
    ∷ worker_takes 0 20
    ∷ worker_finishes 0 30
    ∷ []

run-Accounts_example :
    Accounts is_broken fresh (run two_tasks fresh) (run_tally is_broken two_tasks fresh)
run-Accounts_example = run-Accounts is_broken two_tasks fresh

two_tasks_tally : run_tally is_broken two_tasks fresh ≡ record {
  accepted_weight = 1;
  returned_weight = 0;
  lost_weight = 1;
  returned_calls = 1;
  errors = 0;
}
unfolding run_tally step after fresh start start_workers submit name_task offer take_task
    finish_task send_result call is_broken
two_tasks_tally = refl

-- A running pool.
running : Pool ℕ
unfolding fresh start start_workers
running = start fresh

-- While `StopAndWait` waits for the one queued task, a worker takes it.
waiting_pool : Pool ℕ
unfolding fresh run step start start_workers submit name_task offer
waiting_pool = run (starts ∷ submits false double ∷ []) fresh

ended_pool : Pool ℕ
unfolding waiting_pool run step after stop_and_wait stop take_task
ended_pool =
    let p = run (worker_takes 0 10 ∷ []) (stop_and_wait waiting_pool) in
    stop (record p { polling = 0 })

stop_and_wait_never_stops_example :
    let p = run (worker_takes 0 10 ∷ []) (stop_and_wait waiting_pool) in
    (p.cancelled ≡ false) × (ended_pool.workers ≡ p.workers) × IsSpent (run (stops ∷ []) ended_pool)
unfolding waiting_pool ended_pool run step after stop_and_wait stop stop_when_empty take_task
stop_and_wait_never_stops_example =
    stop_and_wait_never_stops waiting_pool ended_pool (worker_takes 0 10 ∷ []) (stops ∷ []) refl
      refl refl (refl, tt) refl

stop_not_running_is_final_example : IsSpent (run (starts ∷ stops ∷ []) (stop fresh))
unfolding fresh
stop_not_running_is_final_example =
    stop_not_running_is_final fresh (starts ∷ stops ∷ []) refl refl refl

-- A schedule by which a worker takes the last task between the length test and the receive of
-- `Stop`.
abbrev race : List (Action ℕ)
race = starts ∷ submits false double ∷ stops ∷ stop_proceeds ∷ worker_takes 0 10 ∷ []

raced : Pool ℕ
unfolding fresh run step start start_workers submit name_task offer stop stop_step take_task
raced = run race fresh

abbrev rest_of_race : List (Action ℕ)
rest_of_race =
    worker_finishes 0 15 ∷ submits true double ∷ submit_checks double ∷ stop_proceeds ∷ stops ∷ []

run-IsStuck_example : IsStuck (run rest_of_race raced)
unfolding raced
run-IsStuck_example =
    run-IsStuck raced rest_of_race (refl, refl, refl, refl)
      (refl, (refl, (refl, (refl, (refl, tt)))))

-- In the same race, a `Submit` that checked before `Stop` sends its task afterwards, and `Stop`
-- receives it and goes on.
late_submit_frees_stop :
    (run
      (starts
        ∷ submits false double
        ∷ submit_checks double
        ∷ stops
        ∷ stop_proceeds
        ∷ worker_takes 0 10
        ∷ submit_offers 0 false
        ∷ stop_proceeds
        ∷ stop_proceeds
        ∷ [])
      fresh).shutdown
    ≡ Shutdown.waiting
unfolding fresh run step start start_workers submit name_task offer stop stop_step take_task
    begin_submit end_submit
late_submit_frees_stop = refl

stopping : Pool ℕ
unfolding fresh run step start start_workers submit name_task offer stop
stopping = run (starts ∷ submits false double ∷ submits false broken ∷ stops ∷ []) fresh

crowded : Pool ℕ
unfolding fresh run step start start_workers submit name_task offer
crowded = run (starts ∷ submits false double ∷ submits false broken ∷ []) fresh

adjust_workers_count_example : (adjust_workers crowded).active_workers ≡ 2
unfolding crowded
adjust_workers_count_example = adjust_workers_count crowded

pause_start_grows_example : (run (pause_start 5) running).active_workers ≡ 6
unfolding running
pause_start_grows_example = pause_start_grows 5 running refl

abbrev answer : Result ℕ
answer = record {
  task_id = "task-1";
  value = 42;
  error = none;
  start_time = 10;
  end_time = 15;
  duration = pos 5;
}

submit_wait_unnamed_example :
    (◌≢◌ {A = String} "task-1" "") × (listen "" running ≢ delivered running answer)
unfolding running submit_wait wrap submit name_task offer
submit_wait_unnamed_example =
    submit_wait_unnamed false double running (submit_wait false double running).0 running running
      "task-1" "" answer refl refl refl

abbrev empty_task : Task ℕ
empty_task = record { id = "e"; execute = none; timeout = pos 0 }

drain_lem_example :
    drain 5 crowded
    ≡ some (record crowded { task_queue = record (crowded.task_queue) { items = [] } }, 2)
unfolding crowded
drain_lem_example = drain_lem crowded 2

generated_ids_differ_example : ◌≢◌ {A = String} "task-1" "task-2"
unfolding running submit name_task offer run step pause resume
generated_ids_differ_example =
    generated_ids_differ false false double double (pauses ∷ resumes ∷ []) running
      (submit false double running).0
      (submit false double (run (pauses ∷ resumes ∷ []) (submit false double running).0)).0 "task-1"
      "task-2" refl refl refl refl (omega arith)

-- The demonstration's pool, of which a worker has done a task.
demo : Program
unfolding default_config apply_options with_channels clamp_min clamp_max start start_workers
    Example.settings
demo = record {
  pool =
      start (with_channels (apply_options Example.settings (default_config (pos 5) (pos 20))) 1000);
  task_count = 0;
  stopping = false;
}

demo-started : started ≡ some demo
unfolding started demo new_worker_pool
demo-started = refl

abbrev one_tick : List Event
one_tick = ticker false 5 false ∷ others (worker_takes 0 10) ∷ others (worker_finishes 0 15) ∷ []

demo_ended : Pool (Option String)
unfolding demo handle_all handle stop
demo_ended =
    let p = (handle_all [] (handle shutdown (handle_all one_tick demo))).pool in
    stop (record p { polling = p.polling - 1 })

demonstration_never_stops_example :
    let ended = handle_all [] (handle shutdown (handle_all one_tick demo)) in
    (demo_ended.workers ≡ ended.pool.workers)
    × IsSpent demo_ended
    × IsSpent (handle_all (others stops ∷ []) (handle (others poll_ends) ended)).pool
unfolding demo demo_ended handle_all handle submit name_task offer step stop_when_empty
    stop_and_wait after finish_task take_task call time_limit
demonstration_never_stops_example =
    demonstration_never_stops demo one_tick [] (others stops ∷ []) demo_ended demo-started
      (tt, (refl, (refl, tt))) tt refl
