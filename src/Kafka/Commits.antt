-- ===== src/Kafka/Commits.antt =====
-- What the consumer commits, and when.
use huba.Common.{
  String, ◌≡◌, refl, inl, inr, true, false, Option, none, some, List, [], ◌∷◌, ◌++◌, arith,
  if◌then◌else◌, Option-cases, is_some, Fallible-cases,
}
use huba.Kafka.Consumer.{
  Consumer, Round, commit_offsets, append_handled, commit_some, commit_now, handle,
  auto_commit_tick, consume_round, consume, work_on, stop_consume_async, finish_close, close,
}
use mathlib.Core.List.{append-nil, append_assoc}

module _ {M : Type 0} where
  -- What the application accepted is what the broker acknowledged, followed by what waits for the
  -- next commit; and nothing waits after a commit.
  abbrev pub InStep : Consumer M → Type 0
  InStep c = c.handled ≡ c.committed ++ c.uncommitted

  pub commit_offsets-InStep :
      (answer : Option String) (c : Consumer M) → InStep c → InStep (commit_offsets answer c).0
  unfolding commit_offsets
  commit_offsets-InStep answer c h = ground (arith, append-nil (c.committed ++ c.uncommitted))

  pub append_handled-InStep : (m : M) (c : Consumer M) → InStep c → InStep (append_handled m c)
  unfolding append_handled
  append_handled-InStep m c h = rw h (append_assoc c.committed c.uncommitted (m ∷ []))

  commit_now-InStep :
      (answer : Option String) (c : Consumer M) → InStep c → InStep (commit_now answer c).0
  unfolding commit_now
  commit_now-InStep answer c h = ground (arith, commit_offsets-InStep answer c h)

  pub auto_commit_tick-InStep :
      (tick : Option (Option String)) (c : Consumer M) → InStep c → InStep (auto_commit_tick tick c)
  unfolding auto_commit_tick
  auto_commit_tick-InStep none c h = h
  auto_commit_tick-InStep (some answer) c h = ground (arith, commit_offsets-InStep answer c h)

  handle-InStep :
      (m : M) (handling answer : Option String) (c : Consumer M)
      → InStep c
      → InStep (handle m handling answer c).0
  unfolding handle
  handle-InStep m (some e) answer c h = h
  handle-InStep m none answer c h =
      let k = commit_now-InStep answer (append_handled m c) (append_handled-InStep m c h) in
      ground arith

  consume_round-InStep : (r : Round M) (c : Consumer M) → InStep c → InStep (consume_round r c).0
  unfolding consume_round
  consume_round-InStep r c h = elim (Fallible-cases r.fetched) [
    | inl (m, e) ↦ ground (arith, handle-InStep m r.handling r.committing c h)
    | inr (x, e) ↦ ground arith
  ]

  -- Whatever the broker, the handler and the context answer, and whenever the auto-commit loop
  -- fires: the messages that the handler has accepted are, in order, those that the broker has
  -- acknowledged followed by those that wait for a commit.
  pub consume-InStep :
      (rounds : List (Round M)) (c : Consumer M) → InStep c → InStep (consume rounds c).0
  unfolding consume
  consume-InStep [] c h = h
  consume-InStep (r ∷ rest) c h =
      let d = auto_commit_tick r.ticked c in
      let k = consume_round-InStep r d (auto_commit_tick-InStep r.ticked c h) in
      elim (Option-cases (consume_round r d).1) [
        | inl e ↦ ground (arith, consume-InStep rest (consume_round r d).0 k)
        | inr (x, e) ↦ ground arith
      ]

  -- A `Close` that returns no error has had everything acknowledged that the handler accepted, and
  -- has left the consumer not consuming, its reader closed; with auto-commit, closing again panics.
  pub close_commits_all :
      (commit_answer close_answer : Option String) (c d : Consumer M)
      → InStep c
      → close commit_answer close_answer c ≡ some (d, none)
      → (d.committed ≡ c.handled)
        × (d.uncommitted ≡ [])
        × (d.is_consuming ≡ false)
        × (d.reader_closed ≡ true)
        × ((if c.auto_committer then is_some (close commit_answer close_answer d) else false)
            ≡ false)
  unfolding close stop_consume_async finish_close commit_offsets
  close_commits_all commit_answer close_answer c d h e = ground (arith, append-nil c.committed)

  pub commit_some_snoc :
      (xs : List M) (n : M) (c : Consumer M)
      → commit_some none (xs ++ n ∷ []) c
        ≡ (record c { committed = c.committed ++ c.uncommitted; uncommitted = [] }, none)
  unfolding commit_some
  commit_some_snoc [] n c = refl
  commit_some_snoc (x ∷ xs) n c = refl

  -- Without auto-commit, a worker of `ConsumeAsync` whose handler refuses a message goes on, and
  -- the next message that is accepted and acknowledged is committed past it: the refused message
  -- joins neither the
  -- committed nor the waiting ones.
  work_on_skips_failed :
      (m n : M) (e : String) (answer : Option String) (c : Consumer M)
      → c.auto_committer ≡ false
      → let d = work_on n none none (work_on m (some e) answer c) in
        (d.committed ≡ c.committed ++ (c.uncommitted ++ n ∷ []))
        × (d.uncommitted ≡ [])
        × (d.handled ≡ c.handled ++ n ∷ [])
  unfolding work_on commit_now commit_offsets append_handled
  work_on_skips_failed m n e answer c a =
      ground (arith, commit_some_snoc c.uncommitted n (append_handled n c))
