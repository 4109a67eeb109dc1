-- ===== src/Gate/Order.antt =====
-- Every schedule of calls and worker rounds on a gate of command_gate.cpp: each accepted command is
-- executed or cancelled once, in the order of acceptance.
use aviutl2mcp.Common.{
  ℕ, zero, suc, ◌≤◌, ◌≡◌, refl, ap, Bool, true, false, Option, none, some, List, [], ◌∷◌, ◌++◌, leb,
  if◌then◌else◌, length, length-append, append_assoc, append-nil, Bool-cases, inl, inr, Result, ok,
  err,
}
use native.Mathlib.Omega.{arith}
use aviutl2mcp.Gate.{
  Gate, QueuedCommand, EnqueueResult, accepted, busy, stopping, Round, waits, returns, takes,
  create, enqueue, try_enqueue, stop, take_front, run_round, queued_count,
}

-- A gate, with what has happened to its commands.
pub record World (A : Type 0) : Type 0 where
  pub gate : Gate A
  pub taken_in : List (QueuedCommand A)
  pub executed : List (QueuedCommand A)
  pub cancelled : List (QueuedCommand A)

pub data Action (A : Type 0) : Type 0 where
  enqueues : Option A → Option A → Action A
  works : Action A
  stops : Action A

module _ {A : Type 0} where
  -- The command of a call that answered `accepted`.
  note_enqueue : Option A → Option A → Result (Gate A × EnqueueResult) → World A → World A
  note_enqueue (some execute) (some cancel) (ok (gate, accepted)) world = record world {
    gate = gate;
    taken_in = world.taken_in ++ (record { execute = execute; cancel = cancel } ∷ []);
  }
  note_enqueue execute cancel (ok (gate, answer)) world = record world { gate = gate }
  note_enqueue execute cancel (err e) world = world

  note_round : Round A → World A → World A
  note_round (takes command gate) world = record world {
    gate = gate;
    executed = world.executed ++ (command ∷ []);
  }
  note_round _ world = world

  note_stop : Gate A × List (QueuedCommand A) → World A → World A
  note_stop (gate, commands) world = record world {
    gate = gate;
    cancelled = world.cancelled ++ commands;
  }

  unfoldable pub act : World A → Action A → World A
  unfolding note_enqueue note_round note_stop
  act world (enqueues execute cancel) =
      note_enqueue execute cancel (try_enqueue execute cancel world.gate) world
  act world works = note_round (run_round world.gate) world
  act world stops = note_stop (stop world.gate) world

  unfoldable pub act_all : World A → List (Action A) → World A
  act_all world [] = world
  act_all world (a ∷ actions) = act_all (act world a) actions

  abbrev pub start : Gate A → World A
  start gate = record { gate = gate; taken_in = []; executed = []; cancelled = [] }

-- The queue stays within the depth, and what was taken in is what was executed, then what was
-- cancelled, then what waits; only a gate that is stopping has cancelled, and its queue is empty.
pub record Inv {A : Type 0} (depth : ℕ) (world : World A) : Type 0 where
  pub depth_kept : world.gate.maximum_queue_depth ≡ depth
  pub bounded : length world.gate.queue ≤ depth
  pub ordered : world.taken_in ≡ world.executed ++ (world.cancelled ++ world.gate.queue)
  pub running : world.gate.is_stopping ≡ false → world.cancelled ≡ []
  pub stopped : world.gate.is_stopping ≡ true → world.gate.queue ≡ []

module _ {A : Type 0} where
  -- A command at the end of the queue is a command at the end of what was taken in.
  push_ordered :
      (taken done dropped queue : List (QueuedCommand A)) (command : QueuedCommand A)
      → taken ≡ done ++ (dropped ++ queue)
      → taken ++ (command ∷ []) ≡ done ++ (dropped ++ (queue ++ (command ∷ [])))
  push_ordered taken done dropped queue command e =
      rw
        (
          e,
          append_assoc done (dropped ++ queue) (command ∷ []),
          append_assoc dropped queue (command ∷ []),
        )
        refl

  -- The three ends of `enqueue`, by its two tests.
  answer-Inv :
      (depth : ℕ) (world : World A) (execute cancel : A) (halted full : Bool)
      → world.gate.is_stopping ≡ halted
      → leb world.gate.maximum_queue_depth (length world.gate.queue) ≡ full
      → Inv depth world
      → Inv depth (
          note_enqueue
            (some execute)
            (some cancel)
            (ok (
              if halted then (world.gate, stopping) else if full then (world.gate, busy) else (
                record world.gate {
                  queue = world.gate.queue ++ (record { execute = execute; cancel = cancel } ∷ []);
                },
                accepted,
              )))
            world)
  unfolding note_enqueue
  answer-Inv depth world execute cancel true full h f v = v
  answer-Inv depth world execute cancel false true h f v = v
  answer-Inv depth world execute cancel false false h f v = record {
    depth_kept = v.depth_kept;
    bounded = ground (arith, v.depth_kept, length-append world.gate.queue (command ∷ []));
    ordered =
        push_ordered world.taken_in world.executed world.cancelled world.gate.queue command
          v.ordered;
    running = v.running;
    stopped = λ t. ground (arith, h, t);
  }
    where
      command : QueuedCommand A
      command = record { execute = execute; cancel = cancel }

  idle-Inv :
      (depth : ℕ) (world : World A) (halted : Bool)
      → Inv depth world
      → Inv depth (note_round (if halted then returns else waits) world)
  unfolding note_round
  idle-Inv depth world true v = v
  idle-Inv depth world false v = v

  -- A round of the worker, by the queue it finds.
  round-Inv :
      (depth : ℕ) (world : World A) (queue : List (QueuedCommand A))
      → world.gate.queue ≡ queue
      → Inv depth world
      → Inv depth (note_round (take_front queue world.gate) world)
  unfolding note_round take_front
  round-Inv depth world [] e v = idle-Inv depth world world.gate.is_stopping v
  round-Inv depth world (command ∷ rest) e v = record {
    depth_kept = v.depth_kept;
    bounded = ground (arith, v.bounded, ap length e);
    ordered =
        rw (v.ordered, v.running going, e, append_assoc world.executed (command ∷ []) rest) refl;
    running = v.running;
    stopped = λ t. ground (arith, going, t);
  }
    where
      going : world.gate.is_stopping ≡ false
      going = elim (Bool-cases world.gate.is_stopping) [
        | inl h ↦ ground (arith, e, v.stopped h)
        | inr h ↦ h
      ]

  stop-Inv :
      (depth : ℕ) (world : World A) (halted : Bool)
      → world.gate.is_stopping ≡ halted
      → Inv depth world
      → Inv depth (
          note_stop
            (if halted
              then (world.gate, [])
              else (record world.gate { queue = []; is_stopping = true }, world.gate.queue))
            world)
  unfolding note_stop
  stop-Inv depth world true h v = record {
    depth_kept = v.depth_kept;
    bounded = v.bounded;
    ordered = rw (append-nil world.cancelled) v.ordered;
    running = λ f. ground (arith, h, f);
    stopped = v.stopped;
  }
  stop-Inv depth world false h v = record {
    depth_kept = v.depth_kept;
    bounded = omega arith;
    ordered = rw (append-nil (world.cancelled ++ world.gate.queue)) v.ordered;
    running = λ f. ground arith;
    stopped = λ t. refl;
  }

  act-Inv : (depth : ℕ) (world : World A) (a : Action A) → Inv depth world → Inv depth (act world a)
  unfolding act try_enqueue enqueue stop run_round
  act-Inv depth world (enqueues none cancel) v = v
  act-Inv depth world (enqueues (some execute) none) v = v
  act-Inv depth world (enqueues (some execute) (some cancel)) v =
      answer-Inv depth world execute cancel _ _ refl refl v
  act-Inv depth world works v = round-Inv depth world world.gate.queue refl v
  act-Inv depth world stops v = stop-Inv depth world _ refl v

  act_all-Inv :
      (depth : ℕ) (actions : List (Action A)) (world : World A)
      → Inv depth world
      → Inv depth (act_all world actions)
  unfolding act_all
  act_all-Inv depth [] world v = v
  act_all-Inv depth (a ∷ actions) world v =
      act_all-Inv depth actions (act world a) (act-Inv depth world a v)

  create-Inv : (depth : ℕ) (gate : Gate A) → create depth ≡ ok gate → Inv depth (start gate)
  unfolding create
  create-Inv zero gate e = absurd (ground arith)
  create-Inv (suc depth) gate e = rw⁻¹ (the_gate e) (record {
    depth_kept = refl;
    bounded = omega arith;
    ordered = refl;
    running = λ h. refl;
    stopped = λ h. refl;
  })
    where
      the_gate :
          create (suc depth) ≡ ok gate
          → record { maximum_queue_depth = suc depth; queue = []; is_stopping = false } ≡ gate
      the_gate h = ground arith

  -- Take a gate that the constructor made and any sequence of calls of `try_enqueue` and `stop` and of
  -- rounds of the worker. Then the commands that `try_enqueue` accepted are, in the order of
  -- acceptance, those that the worker executed, then those that `stop` cancelled, then those that
  -- are queued, at most `depth`.
  pub accepted_in_order :
      (depth : ℕ) (gate : Gate A)
      → create depth ≡ ok gate
      → (actions : List (Action A))
      → let world = act_all (start gate) actions in
        (world.taken_in ≡ world.executed ++ (world.cancelled ++ world.gate.queue))
        × (queued_count world.gate ≤ depth)
  unfolding queued_count
  accepted_in_order depth gate e actions =
      let v : Inv depth (act_all (start gate) actions) =
        act_all-Inv depth actions (start gate) (create-Inv depth gate e) in
      (v.ordered, v.bounded)

  -- In such a sequence, once the gate is stopping no command is queued, and every command that was
  -- accepted has been executed or cancelled: its promise is kept one way or the other.
  pub stop_settles_all :
      (depth : ℕ) (gate : Gate A) (actions : List (Action A))
      → create depth ≡ ok gate
      → (act_all (start gate) actions).gate.is_stopping ≡ true
      → let world = act_all (start gate) actions in
        (queued_count world.gate ≡ 0) × (world.taken_in ≡ world.executed ++ world.cancelled)
  unfolding queued_count
  stop_settles_all depth gate actions e h =
      let v : Inv depth (act_all (start gate) actions) =
        act_all-Inv depth actions (start gate) (create-Inv depth gate e) in
      let none_left = v.stopped h in
      (
        ap length none_left,
        rw (v.ordered, none_left, append-nil (act_all (start gate) actions).cancelled) refl,
      )
