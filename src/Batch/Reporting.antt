-- ===== src/Batch/Reporting.antt =====
-- The loops of `edit_sdk_batch` in AviUtl2MCP.Bridge/src/sdk_read_facade.cpp keep their report true.
use aviutl2mcp.Common.{
  Exception, Result, ok, err, ℕ, suc, ◌+◌, ◌≡◌, refl, ◌∙◌, subst, inl, inr, Bool, true, false,
  Option, none, some, List, [], ◌∷◌, length, if◌then◌else◌, arith,
}
use aviutl2mcp.Batch.{
  BatchRequest, creates, edits_object, edits_effect, edits_layer, BatchOperationResult,
  BatchEditResult, ObjectSnapshot,
}
use aviutl2mcp.Batch.Attempt.{done, Attempt-cases, >>=-eq-done}
use aviutl2mcp.Batch.Scan.{ObjectPosition}
use aviutl2mcp.Batch.Planning.{Plan, Scene, plan_operation, plan_round, resolve_operation}
use aviutl2mcp.Batch.Run.{
  create_batch_failure, catch_batch, push_operation, note_change, plan_operations,
  execute_operations, run_plan, initial_plan, empty_result, edit_sdk_batch, edit_scanned,
  scan_scene,
}
use aviutl2mcp.Batch.Report.{
  all_ok, any_changed, IsGoing, Report, completed, abandoned, push-IsGoing, planned-IsGoing,
  fail-Report,
}

module _ {F : Type 0} where
  plan_operation-planned :
      (scene : Scene F) (request : BatchRequest F) (object : Option (ℕ × ObjectSnapshot))
      (plan next : Plan F) (result : BatchOperationResult F)
      → plan_operation scene request object plan ≡ done (next, result)
      → (result.is_ok ≡ true) × (result.has_changed ≡ false)
  unfolding plan_operation
  plan_operation-planned scene (creates request) object plan next result h =
      (ground (arith, h), ground (arith, h))
  plan_operation-planned scene (edits_object request) none plan next result h =
      absurd (ground (arith, h))
  plan_operation-planned scene (edits_object request) (some (handle, snapshot)) plan next result h =
      (ground (arith, h), ground (arith, h))
  plan_operation-planned scene (edits_effect request) none plan next result h =
      absurd (ground (arith, h))
  plan_operation-planned scene (edits_effect request) (some (handle, snapshot)) plan next result h =
      (ground (arith, h), ground (arith, h))
  plan_operation-planned scene (edits_layer request) object plan next result h =
      (ground (arith, h), ground (arith, h))

  plan_round-planned :
      (scene : Scene F) (initial : List ObjectPosition) (request : BatchRequest F)
      (plan next : Plan F) (result : BatchOperationResult F) (handle : Option ℕ)
      → plan_round scene initial request plan ≡ done (next, result, handle)
      → (result.is_ok ≡ true) × (result.has_changed ≡ false)
  unfolding plan_round
  plan_round-planned scene initial request plan next result handle h =
      let (object, resolves, h1) = >>=-eq-done (resolve_operation scene initial request) _ h in
      let ((next', result'), planned, h2) =
        >>=-eq-done (plan_operation scene request object plan) _ h1 in
      let (well, same) = plan_operation-planned scene request object plan next' result' planned in
      (ground (arith, h2, well), ground (arith, h2, same))

  -- The plan of the operations from `index` on has failed and is reported, or each has a handle.
  data IsPlanned {S : Type 0} (total count : ℕ) (editor : S)
      (run : BatchEditResult F × Option (Plan F × List (Option ℕ))) : Type 0 where
    ends : run.1 ≡ none → Report total editor editor run.0 → IsPlanned total count editor run
    goes :
        (plan : Plan F) (handles : List (Option ℕ))
        → run.1 ≡ some (plan, handles)
        → length handles ≡ count
        → IsGoing total run.0
        → run.0.has_changed ≡ false
        → IsPlanned total count editor run

  plan_operations-IsPlanned :
      {S : Type 0} (scene : Scene F) (initial : List ObjectPosition) (total index : ℕ) (editor : S)
      (requests : List (BatchRequest F)) (plan : Plan F) (result : BatchEditResult F)
      → index + length requests ≡ total
      → IsGoing index result
      → result.has_changed ≡ false
      → IsPlanned total
          (length requests)
          editor
          (plan_operations scene initial index requests plan result)
  unfolding plan_operations create_batch_failure catch_batch push_operation
  plan_operations-IsPlanned scene initial total index editor [] plan result n g quiet =
      goes plan [] refl refl (subst (λ (i : ℕ). IsGoing i result) (omega (arith, n)) g) quiet
  plan_operations-IsPlanned scene initial total index editor (request ∷ requests) plan result n g
        quiet =
      elim (Attempt-cases (plan_round scene initial request plan)) [
        | inr (inl (code, message, e)) ↦
            rw (e, plan_operations)
              (ends refl (
                fail-Report total index editor editor _ result result.has_changed (omega (arith, n))
                  refl (ground arith) g))
        | inr (inr (raised, e)) ↦
            rw (e, plan_operations)
              (ends refl
                (abandoned g.unfinished g.unfailed refl quiet (ground (arith, g.changed, quiet))))
        | inl ((next, planned, handle), e) ↦
            let planned_well =
              plan_round-planned scene initial request plan next planned handle e in
            elim (plan_operations-IsPlanned scene initial total (suc index) editor requests next
              (push_operation planned result) (omega (arith, n))
              (planned-IsGoing index planned result planned_well g) quiet) [
                | ends failed report ↦ rw (e, plan_operations, failed) (ends refl report)
                | goes last handles all many g' quiet' ↦
                    rw (e, plan_operations, all)
                      (goes last (handle ∷ handles) refl (omega (arith, many)) g' quiet')
              ]
      ]

-- Each branch of a conditional has the property.
pub by_test :
    {A : Type 0} (P : A → Type 0) (test : Bool) {x y : A}
    → ((test ≡ true) → P x)
    → ((test ≡ false) → P y)
    → P (if test then x else y)
by_test P true p q = p refl
by_test P false p q = q refl

-- Code that goes on with a value or a caught exception has the property where both ways have it.
pub by_result :
    {A B : Type 0} (P : B → Type 0) (run : Result A) {caught : Exception → B} {next : A → B}
    → ((raised : Exception) → P (caught raised))
    → ((value : A) → P (next value))
    → P (elim run as (λ r. B) [ err raised ↦ caught raised | ok value ↦ next value ])
by_result P (err raised) p q = p raised
by_result P (ok value) p q = q value

module _ {F S : Type 0}
    (execute_operation : BatchRequest F → Option ℕ → S → S × BatchOperationResult F) where
  execute_operations-Report :
      (total index : ℕ) (before editor : S) (requests : List (BatchRequest F))
      (handles : List (Option ℕ)) (result : BatchEditResult F)
      → index + length requests ≡ total
      → length handles ≡ length requests
      → IsGoing index result
      → let (after, behind) =
          execute_operations execute_operation index requests handles editor result in
        Report total before after behind
  unfolding execute_operations
  execute_operations-Report total index before editor [] handles result n m g =
      completed refl g.unfailed (g.counted ∙ omega (arith, n)) g.applied g.changed
  execute_operations-Report total index before editor (request ∷ requests) [] result n m g =
      absurd (omega (arith, m))
  execute_operations-Report total index before editor (request ∷ requests) (handle ∷ handles) result
        n m g =
      let applied = (execute_operation request handle editor).1 in
      by_test (λ (r : S × BatchEditResult F). Report total before r.0 r.1) applied.is_ok
        (λ well.
          execute_operations-Report total (suc index) before _ requests handles
            (push_operation applied (note_change applied result)) (omega (arith, n))
            (omega (arith, m)) (push-IsGoing index applied result well g))
        (λ failed.
          fail-Report total index before _ applied result _ (omega (arith, n)) failed refl g)

  run_plan-Report :
      (requests : List (BatchRequest F)) (editor : S)
      (run : BatchEditResult F × Option (Plan F × List (Option ℕ))) (dry_run : Bool)
      → IsPlanned (length requests) (length requests) editor run
      → let (after, behind) = run_plan execute_operation dry_run requests run.1 editor run.0 in
        Report (length requests) editor after behind
  unfolding run_plan all_ok any_changed
  run_plan-Report requests editor run dry_run (ends failed report) = rw (failed, run_plan) report
  run_plan-Report requests editor run true (goes plan handles all many g quiet) =
      rw (all, run_plan) (completed refl g.unfailed g.counted g.applied g.changed)
  run_plan-Report requests editor run false (goes plan handles all many g quiet) =
      rw (all, run_plan)
        (execute_operations-Report (length requests) 0 editor editor requests handles
          (record run.0 { operations = [] }) (omega arith) many
          (record {
            unfinished = g.unfinished;
            unfailed = g.unfailed;
            counted = refl;
            applied = refl;
            changed = quiet;
          }))

  -- A batch ends in one of three ways. All its operations are reported as applied, or as planned for
  -- a dry run; or the report goes up to one operation, which is the only one that failed and which is
  -- named; or an exception ended it, no operation is named, and neither has anything changed nor has
  -- any operation been executed. In each, a change is reported exactly if a reported operation has
  -- made one.
  pub edit_sdk_batch-Report :
      (scene : Scene F) (dry_run : Bool) (requests : List (BatchRequest F)) (editor : S)
      → let (after, result) = edit_sdk_batch execute_operation scene dry_run requests editor in
        Report (length requests) editor after result
  unfolding edit_sdk_batch catch_batch edit_scanned all_ok any_changed
  edit_sdk_batch-Report scene dry_run requests editor =
      by_result (λ (r : S × BatchEditResult F). Report (length requests) editor r.0 r.1)
        (scan_scene scene) (λ raised. abandoned refl refl refl refl (unfold any_changed in refl))
        (λ initial.
          run_plan-Report requests editor
            (plan_operations scene initial 0 requests (initial_plan scene initial) empty_result)
            dry_run
            (plan_operations-IsPlanned scene initial (length requests) 0 editor requests
              (initial_plan scene initial) empty_result (omega arith)
              (record {
                unfinished = refl;
                unfailed = refl;
                counted = refl;
                applied = refl;
                changed = refl;
              })
              refl))
