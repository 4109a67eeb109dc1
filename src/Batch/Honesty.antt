-- ===== src/Batch/Honesty.antt =====
-- A batch of AviUtl2MCP.Bridge/src/sdk_read_facade.cpp and src/native_batch_request_handler.cpp that is
-- reported as unchanged has left the editor as it was.
use aviutl2mcp.Common.{
  ℕ, suc, ◌≡◌, refl, sym, ◌∙◌, Bool, true, false, ◌||◌, Option, none, some, List, [], ◌∷◌, Bytes,
  map, arith, Exception,
}
use aviutl2mcp.Batch.{BatchRequest, BatchOperationResult, BatchEditResult}
use aviutl2mcp.Batch.Attempt.{Attempt, done, refused, thrown}
use aviutl2mcp.Batch.Planning.{Plan, Scene}
use aviutl2mcp.Batch.Run.{
  fail_batch, push_operation, note_change, plan_operations, execute_operations, run_plan,
  edit_scanned, scan_scene, edit_sdk_batch, empty_result, initial_plan,
}
use aviutl2mcp.Batch.Validation.{BatchOperation}
use aviutl2mcp.Batch.Facade.{
  Host, Scheduling, rejects, forgets, raises, calls, classify, call_editor, checked_edit,
  edit_batch,
}
use aviutl2mcp.Batch.Reporting.{by_test, by_result}

-- An edit leaves the editor alone where it says that nothing has changed.
abbrev pub IsHonest : {S A : Type 0} → (A → Bool) → S → S × A → Type 0
IsHonest changed before run = (changed run.1 ≡ false) → run.0 ≡ before

abbrev pub batch_changed : {F : Type 0} → BatchEditResult F → Bool
batch_changed result = result.has_changed

-- The edits of single operations are honest.
abbrev pub AreHonest :
    {F S : Type 0} → (BatchRequest F → Option ℕ → S → S × BatchOperationResult F) → Type 0
AreHonest {F} {S} execute_operation =
    (request : BatchRequest F) (handle : Option ℕ) (editor : S)
    → IsHonest (λ r. r.has_changed) editor (execute_operation request handle editor)

-- Where the result says at the end that nothing has changed, it said so before, and the editor is the
-- same.
abbrev IsQuiet : {F S : Type 0} → BatchEditResult F → S → S × BatchEditResult F → Type 0
IsQuiet result before run =
    (run.1.has_changed ≡ false) → (result.has_changed ≡ false) × (run.0 ≡ before)

or-false : (a b : Bool) → (a || b) ≡ false → (a ≡ false) × (b ≡ false)
or-false a b h = (ground arith, ground arith)

pub by_attempt :
    {A B : Type 0} (P : B → Type 0) (attempt : Attempt A) {next : A → B}
    {refuse : Bytes → Bytes → B} {catch : Exception → B}
    → ((value : A) → P (next value))
    → ((code message : Bytes) → P (refuse code message))
    → ((raised : Exception) → P (catch raised))
    → P (elim attempt as (λ a. B) [
      | done value ↦ next value
      | refused code message ↦ refuse code message
      | thrown raised ↦ catch raised
    ])
by_attempt P (done value) p q r = p value
by_attempt P (refused code message) p q r = q code message
by_attempt P (thrown raised) p q r = r raised

module _ {F S : Type 0}
    (execute_operation : BatchRequest F → Option ℕ → S → S × BatchOperationResult F)
    (honest : AreHonest execute_operation) where
  -- One more operation.
  then_IsQuiet :
      (request : BatchRequest F) (handle : Option ℕ) (editor : S) (result : BatchEditResult F)
      (run : S × BatchEditResult F)
      → let (edited, applied) = execute_operation request handle editor in
        IsQuiet (note_change applied result) edited run → IsQuiet result editor run
  then_IsQuiet request handle editor result run quiet h =
      let applied = (execute_operation request handle editor).1 in
      let (noted, same) = quiet h in
      let (before, unmoved) = or-false result.has_changed applied.has_changed noted in
      (before, same ∙ honest request handle editor unmoved)

  execute_operations-IsQuiet :
      (index : ℕ) (requests : List (BatchRequest F)) (handles : List (Option ℕ)) (editor : S)
      (result : BatchEditResult F)
      → IsQuiet result editor
          (execute_operations execute_operation index requests handles editor result)
  unfolding execute_operations push_operation fail_batch
  execute_operations-IsQuiet index [] handles editor result h = (h, refl)
  execute_operations-IsQuiet index (request ∷ requests) [] editor result h = (h, refl)
  execute_operations-IsQuiet index (request ∷ requests) (handle ∷ handles) editor result h =
      let edited = (execute_operation request handle editor).0 in
      let applied = (execute_operation request handle editor).1 in
      let noted = note_change applied result in
      let pushed = push_operation applied noted in
      by_test (IsQuiet result editor) applied.is_ok
        (λ well.
          then_IsQuiet request handle editor result
            (execute_operations execute_operation (suc index) requests handles edited pushed)
            (execute_operations-IsQuiet (suc index) requests handles edited pushed))
        (λ failing.
          then_IsQuiet request handle editor result (edited, fail_batch index applied noted)
            (λ h'. (h', refl)))
        h

  run_plan-IsHonest :
      (dry_run : Bool) (requests : List (BatchRequest F)) (plan : Option (Plan F × List (Option ℕ)))
      (editor : S) (result : BatchEditResult F)
      → IsHonest batch_changed editor
          (run_plan execute_operation dry_run requests plan editor result)
  unfolding run_plan
  run_plan-IsHonest dry_run requests none editor result h = refl
  run_plan-IsHonest true requests (some (plan, handles)) editor result h = refl
  run_plan-IsHonest false requests (some (plan, handles)) editor result h =
      (execute_operations-IsQuiet 0 requests handles editor (record result { operations = [] }) h).1

  edit_sdk_batch-IsHonest :
      (scene : Scene F) (dry_run : Bool) (requests : List (BatchRequest F)) (editor : S)
      → IsHonest batch_changed editor
          (edit_sdk_batch execute_operation scene dry_run requests editor)
  unfolding edit_sdk_batch edit_scanned
  edit_sdk_batch-IsHonest scene dry_run requests editor =
      by_result (IsHonest batch_changed editor) (scan_scene scene) (λ raised h. refl)
        (λ initial.
          run_plan-IsHonest dry_run requests
            (plan_operations scene initial 0 requests (initial_plan scene initial) empty_result).1
            editor
            (plan_operations scene initial 0 requests (initial_plan scene initial) empty_result).0)

  classify-changed :
      (result : BatchEditResult F) → (classify result).has_changed ≡ result.has_changed
  unfolding classify
  classify-changed result = ground arith

  call_editor-IsHonest :
      (host : Host) (scene : Scene F) (dry_run : Bool) (operations : List (BatchOperation F))
      (editor : S)
      → IsHonest batch_changed editor
          (call_editor execute_operation host scene dry_run operations editor)
  unfolding call_editor
  call_editor-IsHonest host scene dry_run operations editor = by_scheduling host.scheduling
    where
      by_scheduling :
          (scheduling : Scheduling)
          → IsHonest batch_changed editor (
              call_editor execute_operation
                (record host { scheduling = scheduling })
                scene
                dry_run
                operations
                editor)
      by_scheduling rejects h = refl
      by_scheduling forgets h = refl
      by_scheduling (raises raised) h = refl
      by_scheduling calls h =
          edit_sdk_batch-IsHonest scene dry_run (map (λ o. o.request) operations) editor
            (sym (classify-changed _) ∙ h)

  pub edit_batch-IsHonest :
      (host : Host) (scene : Scene F) (dry_run : Bool) (operations : List (BatchOperation F))
      (editor : S)
      → IsHonest batch_changed editor
          (edit_batch execute_operation host scene dry_run operations editor)
  unfolding edit_batch checked_edit
  edit_batch-IsHonest host scene dry_run operations editor =
      by_test (IsHonest batch_changed editor) host.is_dispatched
        (λ reached.
          by_attempt (IsHonest batch_changed editor) _
            (λ passed. call_editor-IsHonest host scene dry_run operations editor)
            (λ code message h. refl) (λ raised h. refl))
        (λ lost h. refl)

-- A dry run never changes the editor.
module _ {F S : Type 0}
    (execute_operation : BatchRequest F → Option ℕ → S → S × BatchOperationResult F) (host : Host)
    (scene : Scene F) (editor : S) where
  run_plan-dry :
      (requests : List (BatchRequest F)) (plan : Option (Plan F × List (Option ℕ)))
      (result : BatchEditResult F)
      → (run_plan execute_operation true requests plan editor result).0 ≡ editor
  unfolding run_plan
  run_plan-dry requests none result = refl
  run_plan-dry requests (some (plan, handles)) result = refl

  call_editor-dry :
      (operations : List (BatchOperation F))
      → (call_editor execute_operation host scene true operations editor).0 ≡ editor
  unfolding call_editor edit_sdk_batch edit_scanned
  call_editor-dry operations = by_scheduling host.scheduling
    where
      by_scheduling :
          (scheduling : Scheduling)
          → (call_editor execute_operation
              (record host { scheduling = scheduling })
              scene
              true
              operations
              editor).0
            ≡ editor
      by_scheduling rejects = refl
      by_scheduling forgets = refl
      by_scheduling (raises raised) = refl
      by_scheduling calls =
          by_result (λ (r : S × BatchEditResult F). r.0 ≡ editor) (scan_scene scene)
            (λ raised. refl) (λ initial. run_plan-dry (map (λ o. o.request) operations) _ _)

  pub edit_batch-dry :
      (operations : List (BatchOperation F))
      → (edit_batch execute_operation host scene true operations editor).0 ≡ editor
  unfolding edit_batch checked_edit
  edit_batch-dry operations =
      by_test (λ (r : S × BatchEditResult F). r.0 ≡ editor) host.is_dispatched
        (λ reached.
          by_attempt (λ (r : S × BatchEditResult F). r.0 ≡ editor) _
            (λ passed. call_editor-dry operations) (λ code message. refl) (λ raised. refl))
        (λ lost. refl)
