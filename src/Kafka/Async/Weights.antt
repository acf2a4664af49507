-- ===== src/Kafka/Async/Weights.antt =====
-- The messages at each place of `ConsumeAsync`, by weight.
use huba.Common.{
  ℕ, zero, suc, ◌+◌, ◌≡◌, refl, true, some, List, [], ◌∷◌, ◌++◌, arith, get_elem?, set, replicate,
}
use huba.Kafka.Async.{
  Fetcher, offering, Worker, waiting, committing, worker_gone, handling, all_gone,
}

module _ {M : Type 0} (weight : M → ℕ) where
  -- Messages are weighed by any function, so that equal weights for all functions mean the same
  -- messages, as often.
  abbrev pub weigh : List M → ℕ
  weigh [] = 0
  weigh (m ∷ ms) = weight m + weigh ms

  abbrev pub at_worker : Worker M → ℕ
  at_worker (handling m) = weight m
  at_worker w = 0

  abbrev pub at_workers : List (Worker M) → ℕ
  at_workers [] = 0
  at_workers (w ∷ ws) = at_worker w + at_workers ws

  abbrev pub at_fetcher : Fetcher M → ℕ
  at_fetcher (offering m) = weight m
  at_fetcher f = 0

  pub weigh-append : (xs ys : List M) → weigh (xs ++ ys) ≡ weigh xs + weigh ys
  weigh-append [] ys = omega arith
  weigh-append (x ∷ xs) ys = omega (arith, weigh-append xs ys)

  pub at_workers-set :
      (ws : List (Worker M)) (i : ℕ) (v w : Worker M)
      → get_elem? ws i ≡ some w
      → at_workers (set ws i v) + at_worker w ≡ at_workers ws + at_worker v
  at_workers-set [] i v w h = absurd (ground arith)
  at_workers-set (x ∷ ws) zero v w h = ground arith
  at_workers-set (x ∷ ws) (suc i) v w h = omega (arith, at_workers-set ws i v w h)

  pub at_workers-replicate : (n : ℕ) → at_workers (replicate n waiting) ≡ 0
  at_workers-replicate zero = refl
  at_workers-replicate (suc n) = omega (arith, at_workers-replicate n)

  -- Workers that have returned hold nothing.
  pub at_workers-all_gone : (ws : List (Worker M)) → all_gone ws ≡ true → at_workers ws ≡ 0
  unfolding all_gone
  at_workers-all_gone [] h = refl
  at_workers-all_gone (worker_gone ∷ ws) h = omega (arith, at_workers-all_gone ws h)
  at_workers-all_gone (waiting ∷ ws) h = cc
  at_workers-all_gone (committing ∷ ws) h = cc
  at_workers-all_gone (handling m ∷ ws) h = cc
