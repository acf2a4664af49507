-- ===== src/WorkerPool/Ids.antt =====
-- Generated ids are never given twice.
use huba.Common.{
  ℕ, zero, suc, ◌+◌, ◌^◌, ◌≤◌, ◌<◌, String, ◌≡◌, refl, sym, ap, ◌∙◌, ◌≢◌, ◌⊎◌, inl, inr, Bool, true,
  some, List, [], ◌∷◌, arith, eq_iff, Option-cases, length,
}
use huba.Common.Int.{pos, int64_of_bits}
use huba.Common.Decimal.{format_int}
use huba.Common.Decimal.Reading.{format_int-injective}
use text.Mathlib.TextLemmas.{append_cancel_left}
use huba.WorkerPool.Types.{Pool, Task, inc64}
use huba.WorkerPool.Scaling.{start_worker, start_workers, start, adjust_workers, resize}
use huba.WorkerPool.Submit.{
  accepted, generated_id, name_task, offer, submit, begin_submit, end_submit,
}
use huba.WorkerPool.Workers.{take_task, quit, finish_task, send_result, drop_result}
use huba.WorkerPool.Control.{
  stop, stop_step, stop_and_wait, stop_when_empty, pause, resume, drain, take_result,
}
use huba.WorkerPool.Schedule.{
  Action, starts, stops, stop_proceeds, waits_to_stop, poll_ends, pauses, resumes, drains, submits,
  submit_checks, submit_offers, resizes, scaler_ticks, scaler_quits, client_receives, worker_takes,
  worker_finishes, worker_quits, worker_sends, worker_drops, step, run, after, scaler_tick,
  scaler_quit,
}
use huba.WorkerPool.Naming.{submit_accepted}

pub generated_id-injective :
    (m n : ℕ) → m < 2 ^ 63 → n < 2 ^ 63 → generated_id m ≡ generated_id n → m ≡ n
unfolding generated_id
generated_id-injective m n hm hn e =
    let left : int64_of_bits m ≡ pos m = ground arith in
    let right : int64_of_bits n ≡ pos n = ground arith in
    format_int-injective m n (omega arith) (omega arith)
      (ap format_int (sym left) ∙ append_cancel_left "task-" _ _ e ∙ ap format_int right)

module _ {V : Type 0} where
  start_workers-total : (n : ℕ) (p : Pool V) → (start_workers n p).total_tasks ≡ p.total_tasks
  unfolding start_workers start_worker
  start_workers-total zero p = refl
  start_workers-total (suc n) p = start_workers-total n (start_worker p)

  -- The counter of generated ids stays or goes one up.
  abbrev Counts : Pool V → Pool V → Type 0
  Counts p q = (q.total_tasks ≡ p.total_tasks) ⊎ (q.total_tasks ≡ inc64 p.total_tasks)

  submit-total :
      (b : Bool) (t : Task V) (p : Pool V)
      → ((submit b t p).0.total_tasks ≡ p.total_tasks)
        ⊎ ((submit b t p).0.total_tasks ≡ inc64 p.total_tasks)
  unfolding submit name_task offer
  submit-total b t p = ground arith

  module _ (p q : Pool V) where
    step-Counts : (x : Action V) → step x p ≡ some q → Counts p q
    unfolding step start stop stop_step stop_and_wait stop_when_empty pause resume drain resize
        scaler_tick scaler_quit adjust_workers take_result take_task finish_task quit send_result
        drop_result begin_submit end_submit name_task offer
    step-Counts starts e =
        ground (arith, start_workers-total p.min_workers (record p { is_running = true }))
    step-Counts (submits b t) e = ground (arith, submit-total b t p)
    step-Counts (submit_checks t) e = ground arith
    step-Counts (submit_offers i b) e = ground arith
    step-Counts (resizes a b) e = grind (arith, start_workers-total)
    step-Counts scaler_ticks e = grind (arith, start_workers-total)
    step-Counts stops e = ground arith
    step-Counts stop_proceeds e = ground arith
    step-Counts waits_to_stop e = ground arith
    step-Counts poll_ends e = ground arith
    step-Counts pauses e = ground arith
    step-Counts resumes e = ground arith
    step-Counts drains e = ground arith
    step-Counts scaler_quits e = ground arith
    step-Counts client_receives e = ground arith
    step-Counts (worker_takes i now) e = ground arith
    step-Counts (worker_finishes i now) e = ground arith
    step-Counts (worker_quits i) e = ground arith
    step-Counts (worker_sends i) e = ground arith
    step-Counts (worker_drops i) e = ground arith

  run-total :
      (actions : List (Action V)) (p : Pool V)
      → p.total_tasks + length actions < 2 ^ 63
      → p.total_tasks ≤ (run actions p).total_tasks
        × ((run actions p).total_tasks ≤ p.total_tasks + length actions)
  unfolding run
  run-total [] p h = (omega arith, omega arith)
  run-total (x ∷ rest) p h = elim (Option-cases (step x p)) [
    | inl e ↦
        let (low, high) = run-total rest p (omega (arith, h)) in
        rw (ap (λ o. run rest (after o p)) e) (low, omega (arith, high))
    | inr (q, e) ↦
        let counted = step-Counts p q x e in
        let (low, high) = run-total rest q (ground arith) in
        rw (ap (λ o. run rest (after o p)) e) (ground arith)
  ]

  accepted-total :
      (b : Bool) (t : Task V) (p q : Pool V) (id : String)
      → t.id ≡ ""
      → submit b t p ≡ (q, accepted id)
      → q.total_tasks ≡ inc64 p.total_tasks
  unfolding submit name_task offer
  accepted-total b t p q id n e = ground (arith, eq_iff t.id "")

  -- Two tasks without ids never get the same one: whatever happens between the two calls of
  -- `Submit` that accept them, as long as the counter stays within an int64.
  pub generated_ids_differ :
      (b c : Bool) (t u : Task V) (actions : List (Action V)) (p q r : Pool V) (id id' : String)
      → t.id ≡ ""
      → u.id ≡ ""
      → submit b t p ≡ (q, accepted id)
      → submit c u (run actions q) ≡ (r, accepted id')
      → p.total_tasks + length actions + 2 < 2 ^ 63
      → id ≢ id'
  generated_ids_differ b c t u actions p q r id id' nt nu first second h same =
      let later = run actions q in
      let (i, _, _, _) = submit_accepted b t p q id first in
      let (j, _, _, _) = submit_accepted c u later r id' second in
      let one : q.total_tasks ≡ inc64 p.total_tasks = accepted-total b t p q id nt first in
      let (low, high) = run-total actions q (omega (arith, one)) in
      let equal =
        generated_id-injective (inc64 p.total_tasks) (inc64 later.total_tasks) (omega arith)
          (omega (arith, one, high)) (ground (arith, eq_iff t.id "", eq_iff u.id "")) in
      omega (arith, one, low, high, equal)
