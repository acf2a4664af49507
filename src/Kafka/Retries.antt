-- ===== src/Kafka/Retries.antt =====
-- How often the producer writes, and what its answer means.
use huba.Common.{
  ℕ, zero, suc, ◌+◌, ◌≤◌, ◌<◌, String, ◌<>◌, ◌≡◌, inl, inr, Bool, true, false, Option, none, some,
  List, [], ◌∷◌, arith, Option-cases, is_some,
}
use huba.Common.Int.{ℤ, pos, negsuc}
use huba.Common.Decimal.{format_int}
use huba.Kafka.Producer.{
  ProducerConfig, ProduceError, write_failed, gave_up, backoff, is_last, attempts, produce,
  produce_batch,
}

-- The waits before attempts `first`, `first + 1`, …: `n` of them.
abbrev pub backoffs : ℕ → ℕ → ℕ → List ℤ
backoffs retry_backoff first zero = []
backoffs retry_backoff first (suc n) =
    backoff retry_backoff first ∷ backoffs retry_backoff (first + 1) n

module _ (write : ℕ → Option String) (done_in_wait : ℕ → Bool) where
  -- From an attempt on, `k` attempts fail without the context being done in the waits after them.
  abbrev pub Failing : ℕ → ℕ → Type 0
  Failing first zero = Unit {0}
  Failing first (suc k) =
      (is_some (write first) ≡ true) × (done_in_wait first ≡ false) × Failing (first + 1) k

  attempts_succeed :
      (k left first last : ℕ) (what : String) (c : ProducerConfig) (m : ℕ) (e : Option ProduceError)
      → c.max_retries ≡ pos m
      → first + left ≡ m + 1
      → k < left
      → last ≡ first + k
      → Failing first k
      → write last ≡ none
      → attempts write done_in_wait what c left first e
        ≡ record { error = none; writes = k + 1; waits = backoffs c.retry_backoff first k }
  unfolding attempts is_last
  attempts_succeed zero zero first last what c m e h s l q f w = absurd (omega arith)
  attempts_succeed zero (suc left) first last what c m e h s l q f w =
      let same : last ≡ first = omega arith in
      let now : write first ≡ none = rw same at w in ground arith
  attempts_succeed (suc k) zero first last what c m e h s l q f w = absurd (omega arith)
  attempts_succeed (suc k) (suc left) first last what c m e h s l q f w =
      elim (Option-cases (write first)) [
        | inl n ↦ absurd (ground arith)
        | inr (x, n) ↦
            ground
              (arith, attempts_succeed k left (first + 1) last what c m (some (write_failed x)))
      ]

  attempts_exhaust :
      (left first last : ℕ) (what : String) (c : ProducerConfig) (m : ℕ) (e : Option ProduceError)
      (x : String)
      → c.max_retries ≡ pos m
      → first + left ≡ m
      → Failing first left
      → last ≡ m
      → write last ≡ some x
      → attempts write done_in_wait what c (suc left) first e ≡ record {
        error = some (
            gave_up
              ("failed to write " <> (what <> (" after " <> (format_int (pos m) <> " attempts"))))
              x);
        writes = left + 1;
        waits = backoffs c.retry_backoff first left;
      }
  unfolding attempts is_last
  attempts_exhaust zero first last what c m e x h s f q w =
      let same : last ≡ first = omega arith in
      let now : write first ≡ some x = rw same at w in ground arith
  attempts_exhaust (suc left) first last what c m e x h s f q w =
      elim (Option-cases (write first)) [
        | inl n ↦ absurd (ground arith)
        | inr (y, n) ↦
            ground
              (arith, attempts_exhaust left (first + 1) last what c m (some (write_failed y)) x)
      ]

  attempts_sound :
      (left first : ℕ) (what : String) (c : ProducerConfig) (e : ProduceError)
      → (attempts write done_in_wait what c left first (some e)).error ≡ none
      → (i : ℕ) × (write i ≡ none)
  unfolding attempts
  attempts_sound zero first what c e h = cc
  attempts_sound (suc left) first what c e h = elim (Option-cases (write first)) [
    | inl n ↦ (first, n)
    | inr (y, n) ↦ attempts_sound left (first + 1) what c (write_failed y) (ground arith)
  ]

  -- In synchronous mode with `MaxRetries` m ≥ 0: if attempt k ≤ m is the first to succeed and the
  -- context is not done in the waits before it, `Produce` returns nil after k + 1 writes, and has
  -- waited for the doubled backoffs of attempts 0 to k - 1, in order.
  pub produce_succeeds :
      (k m : ℕ) (c : ProducerConfig)
      → c.async_producer ≡ false
      → c.max_retries ≡ pos m
      → k ≤ m
      → Failing 0 k
      → write k ≡ none
      → produce write done_in_wait c
        ≡ record { error = none; writes = k + 1; waits = backoffs c.retry_backoff 0 k }
  unfolding produce
  produce_succeeds k m c a h l f w =
      ground (arith, attempts_succeed k (suc m) 0 k "message" c m none)

  -- In synchronous mode with `MaxRetries` m ≥ 0: if all m + 1 attempts fail and the context is not
  -- done in the waits between them, `ProduceBatch` writes m + 1 times and returns the last error in
  -- one that speaks of m attempts.
  produce_batch_exhausts :
      (m : ℕ) (c : ProducerConfig) (x : String)
      → c.async_producer ≡ false
      → c.max_retries ≡ pos m
      → Failing 0 m
      → write m ≡ some x
      → produce_batch write done_in_wait c ≡ record {
        error = some (
            gave_up
              ("failed to write "
                <> ("batch" <> (" after " <> (format_int (pos m) <> " attempts"))))
              x);
        writes = m + 1;
        waits = backoffs c.retry_backoff 0 m;
      }
  unfolding produce_batch
  produce_batch_exhausts m c x a h f w = ground (arith, attempts_exhaust m 0 m "batch" c m none x)

  -- With a negative `MaxRetries` the synchronous mode reports success and has written nothing,
  -- whatever the broker and the context do, for a message and for a batch alike.
  produce_negative_retries :
      (n : ℕ) (c : ProducerConfig)
      → c.async_producer ≡ false
      → c.max_retries ≡ negsuc n
      → (produce write done_in_wait c ≡ record { error = none; writes = 0; waits = [] })
        × (produce_batch write done_in_wait c ≡ record { error = none; writes = 0; waits = [] })
  unfolding produce produce_batch
  produce_negative_retries n c a h = ground arith

  attempts_bounded :
      (left first : ℕ) (what : String) (c : ProducerConfig) (e : Option ProduceError)
      → (attempts write done_in_wait what c left first e).writes ≤ left
  unfolding attempts
  attempts_bounded zero first what c e = omega arith
  attempts_bounded (suc left) first what c e = elim (Option-cases (write first)) [
    | inl n ↦ ground arith
    | inr (y, n) ↦ ground (arith, attempts_bounded left (first + 1) what c (some (write_failed y)))
  ]

  -- With `MaxRetries` ≥ 0, whatever the mode, the broker and the context do: a nil error of
  -- `Produce` means that some write succeeded, and there were at most `MaxRetries` + 1 writes.
  produce_sound :
      (m : ℕ) (c : ProducerConfig)
      → c.max_retries ≡ pos m
      → (produce write done_in_wait c).error ≡ none
      → ((i : ℕ) × (write i ≡ none)) × ((produce write done_in_wait c).writes ≤ m + 1)
  unfolding produce
  produce_sound m c h n = (
    elim (Option-cases (write 0)) [
      | inl w ↦ (0, w)
      | inr (y, w) ↦ attempts_sound m 1 "message" c (write_failed y) (ground arith)
    ],
    ground (arith, attempts_bounded (suc m) 0 "message" c none),
  )
