-- ===== src/Kafka/Consumer.antt =====
-- kafka/consumer.go: the synchronous loop `Consume`, `commitOffsets`, the auto-commit ticks, one
-- message at a worker of `ConsumeAsync`, and `Close`. The reader of kafka-go, the message handler
-- and the context are parameters: each round of a loop is given what they answer. `none` as an
-- error is nil.
use huba.Common.{
  String, Bool, true, false, not, ◌&&◌, Option, none, some, List, [], ◌∷◌, ◌++◌, if◌then◌else◌,
  Fallible, ok, err,
}

pub record Consumer (M : Type 0) : Type 0 where
  pub auto_committer : Bool
  pub uncommitted : List M
  pub is_consuming : Bool
  pub stop_consume_closed : Bool
  pub stop_commit_closed : Bool
  pub reader_closed : Bool
  -- What the broker has acknowledged, and what the handler has accepted, oldest first. The source
  -- keeps neither: the first is the state of the broker, the second that of the application.
  pub committed : List M
  pub handled : List M

pub data ConsumeError : Type 0 where
  context_done : ConsumeError
  fetch_failed : String → ConsumeError
  handler_failed : String → ConsumeError
  commit_failed : String → ConsumeError
  final_commit_failed : String → ConsumeError
  already_consuming : ConsumeError
  close_failed : String → ConsumeError

-- What the environment answers in one round of `Consume`: whether the auto-commit loop's ticker
-- fires before it and what the broker then answers, whether the context is done at the head, the
-- fetched message, the handler's error, and the error of `CommitMessages`.
pub record Round (M : Type 0) : Type 0 where
  pub ticked : Option (Option String)
  pub done : Bool
  pub fetched : Fallible String M
  pub handling : Option String
  pub committing : Option String

module _ {M : Type 0} where
  unfoldable pub new_consumer : Bool → Consumer M
  new_consumer auto_commit = record {
    auto_committer = auto_commit;
    uncommitted = [];
    is_consuming = false;
    stop_consume_closed = false;
    stop_commit_closed = false;
    reader_closed = false;
    committed = [];
    handled = [];
  }

  unfoldable pub commit_some : Option String → List M → Consumer M → Consumer M × Option String
  commit_some answer [] c = (c, none)
  commit_some (some e) (m ∷ ms) c = (c, some e)
  commit_some none (m ∷ ms) c =
      (record c { committed = c.committed ++ c.uncommitted; uncommitted = [] }, none)

  -- `commitOffsets`: all uncommitted messages at once, or none.
  unfoldable pub commit_offsets : Option String → Consumer M → Consumer M × Option String
  unfolding commit_some
  commit_offsets answer c = commit_some answer c.uncommitted c

  -- The handler has accepted a message.
  unfoldable pub append_handled : M → Consumer M → Consumer M
  append_handled m c = record c {
    uncommitted = c.uncommitted ++ m ∷ [];
    handled = c.handled ++ m ∷ [];
  }

  -- After a handled message: commit at once, unless the auto-commit loop does it.
  unfoldable pub commit_now : Option String → Consumer M → Consumer M × Option String
  commit_now answer c = if c.auto_committer then (c, none) else commit_offsets answer c

  unfoldable pub wrap_commit : Consumer M × Option String → Consumer M × Option ConsumeError
  wrap_commit (c, none) = (c, none)
  wrap_commit (c, some e) = (c, some (commit_failed e))

  unfoldable pub handle :
      M → Option String → Option String → Consumer M → Consumer M × Option ConsumeError
  unfolding wrap_commit
  handle m (some e) answer c = (c, some (handler_failed e))
  handle m none answer c = wrap_commit (commit_now answer (append_handled m c))

  -- `case <-ticker.C` of `autoCommitLoop`, which runs with auto-commit only and until `Close`.
  unfoldable pub auto_commit_tick : Option (Option String) → Consumer M → Consumer M
  auto_commit_tick none c = c
  auto_commit_tick (some answer) c =
      if c.auto_committer && not c.stop_commit_closed then (commit_offsets answer c).0 else c

  -- One round of `Consume`; an error ends the loop.
  unfoldable pub consume_round : Round M → Consumer M → Consumer M × Option ConsumeError
  consume_round r c = if r.done then (c, some context_done) else elim r.fetched [
    | err e ↦ (c, some (fetch_failed e))
    | ok m ↦ handle m r.handling r.committing c
  ]

  -- `Consume` over the rounds that the environment allows; no error at the end means that it is
  -- still waiting in `FetchMessage`.
  unfoldable pub consume : List (Round M) → Consumer M → Consumer M × Option ConsumeError
  consume [] c = (c, none)
  consume (r ∷ rest) c =
      let (d, e) = consume_round r (auto_commit_tick r.ticked c) in
      elim e [ none ↦ consume rest d | some x ↦ (d, some x) ]

  -- A worker of `ConsumeAsync` with one message; errors are printed and the worker goes on.
  unfoldable pub work_on : M → Option String → Option String → Consumer M → Consumer M
  work_on m (some e) answer c = c
  work_on m none answer c = (commit_now answer (append_handled m c)).0

  -- `ConsumeAsync`, up to the goroutines that it starts.
  unfoldable pub consume_async : Consumer M → Consumer M × Option ConsumeError
  consume_async c =
      if c.is_consuming
      then (c, some already_consuming)
      else (record c { is_consuming = true; stop_consume_closed = false }, none)

  unfoldable pub stop_consume_async : Consumer M → Consumer M
  stop_consume_async c =
      if not c.is_consuming
      then c
      else record c { stop_consume_closed = true; is_consuming = false }

  unfoldable pub finish_close :
      Option String → Consumer M × Option String → Consumer M × Option ConsumeError
  finish_close answer (c, some e) = (c, some (final_commit_failed e))
  finish_close none (c, none) = (record c { reader_closed = true }, none)
  finish_close (some e) (c, none) = (record c { reader_closed = true }, some (close_failed e))

  -- `Close`, given the answers of the last commit and of `reader.Close`. `none` is the panic of
  -- closing a closed channel.
  unfoldable pub close :
      Option String → Option String → Consumer M → Option (Consumer M × Option ConsumeError)
  unfolding finish_close stop_consume_async
  close commit_answer close_answer c =
      let d = if c.is_consuming then stop_consume_async c else c in
      if d.auto_committer && d.stop_commit_closed
      then none
      else let f = if d.auto_committer then record d { stop_commit_closed = true } else d in
        some (finish_close close_answer (commit_offsets commit_answer f))
