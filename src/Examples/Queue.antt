-- ===== src/Examples/Queue.antt =====
-- A schedule on a gate of AviUtl2MCP.Bridge/src/command_gate.cpp whose callbacks are numbers.
use aviutl2mcp.Common.{ℕ, ◌≤◌, ◌≡◌, refl, true, false, some, List, [], ◌∷◌, ◌++◌, ok}
use aviutl2mcp.Gate.{Gate, create, enqueue, try_enqueue, stop, take_front, run_round, queued_count}
use aviutl2mcp.Gate.Order.{
  Action, enqueues, works, stops, act, act_all, start, accepted_in_order, stop_settles_all,
}

abbrev a_gate : Gate ℕ
a_gate = record { maximum_queue_depth = 2; queue = []; is_stopping = false }

gate-created : create 2 ≡ ok a_gate
unfolding create
gate-created = refl

-- The third is refused for the depth, the fourth since the gate is stopping.
abbrev schedule : List (Action ℕ)
schedule =
    enqueues (some 1) (some 10)
    ∷ enqueues (some 2) (some 20)
    ∷ enqueues (some 3) (some 30)
    ∷ works
    ∷ stops
    ∷ enqueues (some 4) (some 40)
    ∷ []

schedule-stopping : (act_all (start a_gate) schedule).gate.is_stopping ≡ true
unfolding act_all act try_enqueue enqueue stop run_round take_front
schedule-stopping = refl

accepted_in_order_example :
    ((act_all (start a_gate) schedule).taken_in
      ≡ (act_all (start a_gate) schedule).executed
        ++ ((act_all (start a_gate) schedule).cancelled
            ++ (act_all (start a_gate) schedule).gate.queue))
    × (queued_count (act_all (start a_gate) schedule).gate ≤ 2)
accepted_in_order_example = accepted_in_order 2 a_gate gate-created schedule

stop_settles_all_example :
    (queued_count (act_all (start a_gate) schedule).gate ≡ 0)
    × ((act_all (start a_gate) schedule).taken_in
        ≡ (act_all (start a_gate) schedule).executed ++ (act_all (start a_gate) schedule).cancelled)
stop_settles_all_example = stop_settles_all 2 a_gate schedule gate-created schedule-stopping
