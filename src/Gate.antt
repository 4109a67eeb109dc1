-- ===== src/Gate.antt =====
-- AviUtl2MCP.Bridge/src/command_gate.cpp: the bounded queue between the threads that dispatch and
-- the one worker that executes. A callback is a value of any type `A`, and an empty `std::function`
-- is `none`. A part under the mutex is one step; a callback that throws is logged and no more.
pub mod Order
use aviutl2mcp.Common.{
  ℕ, zero, suc, Bool, true, false, not, ◌||◌, Option, none, some, is_some, List, [], ◌∷◌, ◌++◌, leb,
  ◌==◌, if◌then◌else◌, length, map, Result, ok, err, ◌>>=◌, ◌>>◌, throw_if, invalid_argument,
}

pub data EnqueueResult : Type 0 where
  accepted busy stopping : EnqueueResult

pub record QueuedCommand (A : Type 0) : Type 0 where
  pub execute : A
  pub cancel : A

pub record Gate (A : Type 0) : Type 0 where
  pub maximum_queue_depth : ℕ
  pub queue : List (QueuedCommand A)
  pub is_stopping : Bool

-- What the worker does when it has the mutex: it waits, it returns, or it takes a command.
pub data Round (A : Type 0) : Type 0 where
  waits : Round A
  returns : Round A
  takes : QueuedCommand A → Gate A → Round A

module _ {A : Type 0} where
  -- The constructor.
  unfoldable pub create : ℕ → Result (Gate A)
  create maximum_queue_depth = do
    throw_if (maximum_queue_depth == 0)
        (invalid_argument "command gate queue depth must be positive")
    ok (record { maximum_queue_depth = maximum_queue_depth; queue = []; is_stopping = false })

  -- `try_enqueue` under the mutex.
  unfoldable pub enqueue : QueuedCommand A → Gate A → Gate A × EnqueueResult
  enqueue command gate =
      if gate.is_stopping
      then (gate, stopping)
      else if leb gate.maximum_queue_depth (length gate.queue)
      then (gate, busy)
      else (record gate { queue = gate.queue ++ (command ∷ []) }, accepted)

  unfoldable pub try_enqueue : Option A → Option A → Gate A → Result (Gate A × EnqueueResult)
  try_enqueue none cancel gate = err (invalid_argument "command gate callbacks must not be empty")
  try_enqueue (some execute) none gate =
      err (invalid_argument "command gate callbacks must not be empty")
  try_enqueue (some execute) (some cancel) gate =
      ok (enqueue (record { execute = execute; cancel = cancel }) gate)

  -- The gate behind `stop`, and the commands whose `cancel` it calls, in that order.
  unfoldable pub stop : Gate A → Gate A × List (QueuedCommand A)
  stop gate =
      if gate.is_stopping
      then (gate, [])
      else (record gate { queue = []; is_stopping = true }, gate.queue)

  -- One round of the worker's loop in `run`, up to the call of `execute`.
  unfoldable pub take_front : List (QueuedCommand A) → Gate A → Round A
  take_front [] gate = if gate.is_stopping then returns else waits
  take_front (command ∷ rest) gate = takes command (record gate { queue = rest })

  unfoldable pub run_round : Gate A → Round A
  unfolding take_front
  run_round gate = take_front gate.queue gate

  unfoldable pub queued_count : Gate A → ℕ
  queued_count gate = length gate.queue
