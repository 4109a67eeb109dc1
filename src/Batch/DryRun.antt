-- ===== src/Batch/DryRun.antt =====
-- A dry run of AviUtl2MCP.Bridge/src/sdk_read_facade.cpp tells of all operations of the batch.
use aviutl2mcp.Common.{
  ℕ, suc, ◌≡◌, ◌≢◌, refl, sym, ap, not, ◌&&◌, is_empty, text, ◌∙◌, subst, true, false, Option, none,
  some, List, [], ◌∷◌, ◌++◌, Bytes, map, arith, Option-cases, inl, inr, append_assoc, append-nil,
}
use aviutl2mcp.Batch.{BatchRequest, BatchOperationResult, BatchEditResult}
use aviutl2mcp.Batch.Attempt.{Attempt-cases}
use aviutl2mcp.Batch.Effects.{what}
use aviutl2mcp.Batch.Planning.{Plan, Scene, plan_round}
use aviutl2mcp.Batch.Scan.{ObjectPosition}
use aviutl2mcp.Batch.Run.{
  plan_operations, push_operation, fail_batch, catch_batch, run_plan, edit_scanned, scan_scene,
  edit_sdk_batch, initial_plan, empty_result,
}
use aviutl2mcp.Batch.Validation.{BatchOperation}
use aviutl2mcp.Batch.Facade.{
  failure, Host, Scheduling, rejects, forgets, raises, calls, classify, call_editor, checked_edit,
  edit_batch,
}
use aviutl2mcp.Batch.Honesty.{by_attempt}
use aviutl2mcp.Batch.Reporting.{by_test, by_result}
use aviutl2mcp.Batch.Preflight.{IsTold, plan_round-IsTold}

module _ {F : Type 0} where
  -- What is planned of the operations, one by one.
  pub data AreTold : List (BatchRequest F) → List (BatchOperationResult F) → Type 0 where
    told_none : AreTold [] []
    told_next :
        {request : BatchRequest F} {planned : BatchOperationResult F}
        {requests : List (BatchRequest F)} {rest : List (BatchOperationResult F)}
        → IsTold request planned
        → AreTold requests rest
        → AreTold (request ∷ requests) (planned ∷ rest)

  -- Planning alone is no success yet.
  plan_operations-unfinished :
      (scene : Scene F) (initial : List ObjectPosition) (index : ℕ)
      (requests : List (BatchRequest F)) (plan : Plan F) (result : BatchEditResult F)
      → (plan_operations scene initial index requests plan result).0.is_ok ≡ result.is_ok
  unfolding plan_operations push_operation fail_batch catch_batch
  plan_operations-unfinished scene initial index [] plan result = refl
  plan_operations-unfinished scene initial index (request ∷ requests) plan result =
      elim (Attempt-cases (plan_round scene initial request plan)) [
        | inr (inl (code, message, e)) ↦ rw (e, plan_operations) refl
        | inr (inr (raised, e)) ↦ rw (e, plan_operations) refl
        | inl ((next, planned, handle), e) ↦
            let kept =
              plan_operations-unfinished scene initial (suc index) requests next
                (push_operation planned result) in
            elim (Option-cases
              (plan_operations scene initial (suc index) requests next
                (push_operation planned result)).1) [
                  | inl missing ↦ rw (e, plan_operations, missing) kept
                  | inr (all, goes) ↦ rw (e, plan_operations, goes) kept
                ]
      ]

  plan_operations-AreTold :
      (scene : Scene F) (initial : List ObjectPosition) (index : ℕ)
      (requests : List (BatchRequest F)) (plan : Plan F) (result : BatchEditResult F)
      (last : Plan F × List (Option ℕ))
      → (plan_operations scene initial index requests plan result).1 ≡ some last
      → (planned : List (BatchOperationResult F)) × ((plan_operations scene initial index requests
            plan result).0.operations
          ≡ result.operations ++ planned)
        × AreTold requests planned
  unfolding plan_operations push_operation
  plan_operations-AreTold scene initial index [] plan result last h =
      ([], sym (append-nil _), told_none)
  plan_operations-AreTold scene initial index (request ∷ requests) plan result last h =
      elim (Attempt-cases (plan_round scene initial request plan)) [
        | inr (inl (code, message, e)) ↦ absurd (ground (arith, e, h))
        | inr (inr (raised, e)) ↦ absurd (ground (arith, e, h))
        | inl ((next, planned, handle), e) ↦
            let told = plan_round-IsTold scene initial request plan next planned handle e in
            let behind =
              plan_operations scene initial (suc index) requests next
                (push_operation planned result) in
            elim (Option-cases behind.1) [
              | inl missing ↦ absurd (ground (arith, e, h, missing))
              | inr (all, goes) ↦
                  let (rest, same, tolds) =
                    plan_operations-AreTold scene initial (suc index) requests next
                      (push_operation planned result) all goes in
                  rw (e, plan_operations, goes)
                    (
                      planned ∷ rest,
                      same ∙ append_assoc result.operations (planned ∷ []) rest,
                      told_next told tolds,
                    )
            ]
      ]

  -- A run that is a success tells of all operations.
  abbrev pub Tells : {S : Type 0} → List (BatchRequest F) → S × BatchEditResult F → Type 0
  Tells requests run = (run.1.is_ok ≡ true) → AreTold requests run.1.operations

  run_plan-Tells :
      {S : Type 0} (execute_operation : BatchRequest F → Option ℕ → S → S × BatchOperationResult F)
      (scene : Scene F) (initial : List ObjectPosition) (requests : List (BatchRequest F))
      (editor : S)
      → Tells requests (edit_scanned execute_operation scene true requests initial editor)
  unfolding edit_scanned run_plan
  run_plan-Tells execute_operation scene initial requests editor =
      by_plan (plan_operations scene initial 0 requests (initial_plan scene initial) empty_result)
        refl
    where
      true_false : true ≢ false
      true_false e = cc

      by_plan :
          (run : BatchEditResult F × Option (Plan F × List (Option ℕ)))
          → plan_operations scene initial 0 requests (initial_plan scene initial) empty_result ≡ run
          → Tells requests (run_plan execute_operation true requests run.1 editor run.0)
      by_plan (result, none) e h = absurd (
          true_false (
            sym h
            ∙ (sym (ap (λ (r : BatchEditResult F × Option (Plan F × List (Option ℕ))). r.0.is_ok) e)
                ∙ plan_operations-unfinished scene initial 0 requests (initial_plan scene initial)
                    empty_result)))
      by_plan (result, some last) e h =
          let (planned, same, tolds) =
            plan_operations-AreTold scene initial 0 requests (initial_plan scene initial)
              empty_result last
              (ap (λ (r : BatchEditResult F × Option (Plan F × List (Option ℕ))). r.1) e) in
          subst (AreTold requests)
            (sym same
              ∙ ap (λ (r : BatchEditResult F × Option (Plan F × List (Option ℕ))). r.0.operations)
                  e)
            tolds

  module _ {S : Type 0}
      (execute_operation : BatchRequest F → Option ℕ → S → S × BatchOperationResult F) (host : Host)
      (scene : Scene F) (operations : List (BatchOperation F)) (editor : S) where
    abbrev pub requests : List (BatchRequest F)
    requests = map (λ o. o.request) operations

    edit_sdk_batch-Tells :
        Tells requests (edit_sdk_batch execute_operation scene true requests editor)
    unfolding edit_sdk_batch catch_batch
    edit_sdk_batch-Tells =
        by_result (Tells requests) (scan_scene scene) (λ raised h. absurd (ground (arith, h)))
          (λ initial. run_plan-Tells execute_operation scene initial requests editor)

    classify-Tells :
        (result : BatchEditResult F)
        → Tells requests (editor, result)
        → Tells requests (editor, classify result)
    unfolding classify
    classify-Tells result tells =
        by_test (λ (r : BatchEditResult F). (r.is_ok ≡ true) → AreTold requests r.operations)
          (not result.is_ok && is_empty result.error_code) (λ unclassified. tells)
          (λ classified. tells)

    failure-Tells : (code message : Bytes) → Tells requests (editor, failure {F = F} code message)
    failure-Tells code message h = absurd (ground (arith, h))

    call_editor-Tells :
        Tells requests (call_editor execute_operation host scene true operations editor)
    unfolding call_editor
    call_editor-Tells = by_scheduling host.scheduling
      where
        by_scheduling :
            (scheduling : Scheduling)
            → Tells (map (λ o. o.request) operations) (
                call_editor execute_operation
                  (record host { scheduling = scheduling })
                  scene
                  true
                  operations
                  editor)
        by_scheduling rejects h = absurd (ground (arith, h))
        by_scheduling forgets h = absurd (ground (arith, h))
        by_scheduling (raises raised) h = absurd (ground (arith, h))
        by_scheduling calls h =
            classify-Tells
              (edit_sdk_batch execute_operation scene true (map (λ o. o.request) operations)
                editor).1
              edit_sdk_batch-Tells h

    pub edit_batch-Tells :
        Tells requests (edit_batch execute_operation host scene true operations editor)
    unfolding edit_batch checked_edit
    edit_batch-Tells =
        by_test (Tells requests) host.is_dispatched
          (λ reached.
            by_attempt (Tells requests) _ (λ passed. call_editor-Tells) failure-Tells
              (λ raised. failure-Tells (text "sdk_query_failed") (what raised)))
          (λ lost.
            failure-Tells (text "sdk_dispatch_failed") (text "SDK main-thread dispatch failed"))
