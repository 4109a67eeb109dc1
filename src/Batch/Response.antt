-- ===== src/Batch/Response.antt =====
-- The response that AviUtl2MCP.Bridge/src/native_batch_request_handler.cpp makes of a dry run of
-- src/sdk_read_facade.cpp.
use aviutl2mcp.Common.{
  ℕ, suc, ◌≡◌, refl, sym, ap, ◌||◌, ◌==◌, not, text, ◌∙◌, subst, Bool, true, false, Option, none,
  some, List, [], ◌∷◌, ◌++◌, Bytes, get_elem?, get_elem?-next, length-map, length, length-append,
  map, Result, ok, err, arith, append_assoc,
}
use aviutl2mcp.Platform.{Platform}
use aviutl2mcp.Batch.{BatchRequest, BatchOperationResult, BatchEditResult}
use aviutl2mcp.Batch.Planning.{Scene}
use aviutl2mcp.Batch.Changes.{Change, create_changes}
use aviutl2mcp.Batch.Validation.{BatchOperation}
use aviutl2mcp.Batch.Facade.{Host}
use aviutl2mcp.Batch.Handler.{
  BatchData, BatchItem, Status, get_operation_name, status_at, applied_ids, changes_at, payload_at,
  create_item, create_items, lay_out, create_batch_data, dump_data, create_native_success,
}
use aviutl2mcp.Batch.Honesty.{edit_batch-dry}
use aviutl2mcp.Batch.Execute.{json_failure, caught_failure, run_batch}
use aviutl2mcp.Dispatcher.Execution.{OperationResult}
use aviutl2mcp.Batch.Outcome.{facade}
use aviutl2mcp.Dispatcher.{OperationRequest}
use aviutl2mcp.Revisions.{Tracker}
use aviutl2mcp.Batch.DryRun.{AreTold, told_none, told_next, edit_batch-Tells}

module _ {F : Type 0} where
  AreTold-length :
      (asked : List (BatchRequest F)) (planned : List (BatchOperationResult F))
      → AreTold asked planned
      → length planned ≡ length asked
  AreTold-length [] [] told_none = refl
  AreTold-length [] (planned ∷ rest) tells = elim tells [ ]
  AreTold-length (request ∷ asked) [] tells = elim tells [ ]
  AreTold-length (request ∷ asked) (planned ∷ rest) (told_next told tells) =
      ap suc (AreTold-length asked rest tells)

  dump_data-laid :
      (print : BatchData F → Option Bytes) (content : BatchData F) (json : Bytes)
      → lay_out content.results ≡ ok tt
      → print content ≡ some json
      → dump_data print content ≡ some (ok json)
  unfolding dump_data
  dump_data-laid print content json laid printed = rw (dump_data, laid, printed) refl

  module _ (platform : Platform) (instance_id project_generation : Bytes)
      (preflight : BatchEditResult F) where
    changes_at-told :
        (index : ℕ) (request : BatchRequest F) (planned : BatchOperationResult F)
        (change : Change F)
        → get_elem? preflight.operations index ≡ some planned
        → create_changes request planned.result ≡ ok change
        → changes_at platform instance_id project_generation preflight none true index request
          ≡ ok change
    unfolding changes_at
    changes_at-told index request planned change here made = rw (changes_at, here) made

    -- The loop over the operations throws nothing, from the one behind `told` on.
    lay_out-create_items :
        (operations : List (BatchOperation F)) (told rest : List (BatchOperationResult F))
        → preflight.operations ≡ told ++ rest
        → AreTold (map (λ o. o.request) operations) rest
        → lay_out (
            create_items platform instance_id project_generation preflight none true
              (length told)
              operations)
          ≡ ok tt
    unfolding lay_out create_items create_item payload_at
    lay_out-create_items [] told rest same tells = refl
    lay_out-create_items (operation ∷ operations) told [] same tells = elim tells [ ]
    lay_out-create_items (operation ∷ operations) told (planned ∷ rest) same
          (told_next (change, made) tells) =
        let here : get_elem? preflight.operations (length told) ≡ some planned =
          ap (λ ops. get_elem? ops (length told)) same ∙ get_elem?-next told planned rest in
        let behind : preflight.operations ≡ (told ++ (planned ∷ [])) ++ rest =
          same ∙ sym (append_assoc told (planned ∷ []) rest) in
        let count : length (told ++ (planned ∷ [])) ≡ suc (length told) =
          length-append told (planned ∷ []) ∙ omega arith in
        let next = lay_out-create_items operations (told ++ (planned ∷ [])) rest behind tells in
        rw (changes_at-told (length told) operation.request planned change here made) (
          subst
            (λ (n : ℕ).
              lay_out (
                create_items platform instance_id project_generation preflight none true n
                  operations)
              ≡ ok tt)
            count next)

    create_batch_data-laid :
        (operations : List (BatchOperation F)) (undo : Bool)
        → AreTold (map (λ o. o.request) operations) preflight.operations
        → lay_out
            (create_batch_data platform instance_id project_generation preflight none true
              operations undo).results
          ≡ ok tt
    unfolding create_batch_data
    create_batch_data-laid operations undo tells =
        lay_out-create_items operations [] preflight.operations refl tells

  -- What the response to a dry run says of an operation that is planned so.
  pub record IsPlanned (operation : BatchOperation F) (planned : BatchOperationResult F)
      (item : BatchItem F) : Type 0 where
    named : item.client_operation_id ≡ operation.client_operation_id
    called : item.op ≡ get_operation_name operation.request
    status_is : item.status ≡ Status.planned
    change : Change F
    told : create_changes operation.request planned.result ≡ ok change
    changes_are : item.changes ≡ ok change
    payload_is : item.payload ≡ ok []
    error_is : item.error ≡ none

  -- The entries stand for the operations and their results, one by one.
  pub data ArePlanned
      : List (BatchOperation F) → List (BatchOperationResult F) → List (BatchItem F) → Type 0 where
    planned_none : ArePlanned [] [] []
    planned_next :
        {operation : BatchOperation F} {planned : BatchOperationResult F} {item : BatchItem F}
        {operations : List (BatchOperation F)} {rest : List (BatchOperationResult F)}
        {items : List (BatchItem F)}
        → IsPlanned operation planned item
        → ArePlanned operations rest items
        → ArePlanned (operation ∷ operations) (planned ∷ rest) (item ∷ items)

  ArePlanned-applied_ids :
      (operations : List (BatchOperation F)) (rest : List (BatchOperationResult F))
      (items : List (BatchItem F))
      → ArePlanned operations rest items
      → applied_ids items ≡ []
  unfolding applied_ids
  ArePlanned-applied_ids _ _ _ planned_none = refl
  ArePlanned-applied_ids (operation ∷ operations) (_ ∷ rest) (item ∷ items)
        (planned_next here behind) =
      rw (here.status_is, ArePlanned-applied_ids operations rest items behind) refl

  module _ (platform : Platform) (instance_id project_generation : Bytes)
      (preflight : BatchEditResult F) where
    create_items-ArePlanned :
        (operations : List (BatchOperation F)) (told rest : List (BatchOperationResult F))
        → preflight.operations ≡ told ++ rest
        → AreTold (map (λ o. o.request) operations) rest
        → ArePlanned operations rest (
            create_items platform instance_id project_generation preflight none true
              (length told)
              operations)
    unfolding create_items create_item payload_at status_at
    create_items-ArePlanned [] told [] same tells = planned_none
    create_items-ArePlanned [] told (planned ∷ rest) same tells = elim tells [ ]
    create_items-ArePlanned (operation ∷ operations) told [] same tells = elim tells [ ]
    create_items-ArePlanned (operation ∷ operations) told (planned ∷ rest) same
          (told_next (change, made) tells) =
        let here : get_elem? preflight.operations (length told) ≡ some planned =
          ap (λ ops. get_elem? ops (length told)) same ∙ get_elem?-next told planned rest in
        let behind : preflight.operations ≡ (told ++ (planned ∷ [])) ++ rest =
          same ∙ sym (append_assoc told (planned ∷ []) rest) in
        let count : length (told ++ (planned ∷ [])) ≡ suc (length told) =
          length-append told (planned ∷ []) ∙ omega arith in
        planned_next
          (record {
            named = refl;
            called = refl;
            status_is = refl;
            change = change;
            told = made;
            changes_are =
                changes_at-told platform instance_id project_generation preflight (length told)
                  operation.request planned change here made;
            payload_is = refl;
            error_is = refl;
          })
          (subst
            (λ (n : ℕ). ArePlanned operations rest (
              create_items platform instance_id project_generation preflight none true n
                operations))
            count (create_items-ArePlanned operations (told ++ (planned ∷ [])) rest behind tells))

dumped-succeeds :
    (revisions : Tracker) (dumped : Option (Result Bytes)) (json : Bytes)
    → dumped ≡ some (ok json)
    → (elim dumped as (λ d. OperationResult) [
      | none ↦ json_failure revisions
      | some (err raised) ↦ caught_failure raised revisions
      | some (ok text) ↦ create_native_success text revisions
    ])
      ≡ create_native_success json revisions
dumped-succeeds revisions none json e = absurd (ground (arith, e))
dumped-succeeds revisions (some (err raised)) json e = absurd (ground (arith, e))
dumped-succeeds revisions (some (ok made)) json e =
    let same : made ≡ json = ground (arith, e) in ap (λ t. create_native_success t revisions) same

-- Suppose the facade accepts the dry run of a batch, and the JSON library prints the data that the
-- handler makes of its report. Then the handler leaves the editor and the revisions alone and answers
-- with a success of this text. The data have an entry for each operation, in order: with its id, name
-- and change, as planned, without payload or error. So nothing that a change is made of is missing in
-- the report. No id is given as applied.
pub dry_run_succeeds :
    {F S : Type 0} (platform : Platform) (instance_id : Bytes) (print : BatchData F → Option Bytes)
    (execute_operation : BatchRequest F → Option ℕ → S → S × BatchOperationResult F)
    (host : Bool → Host) (scene : Bool → Scene F) (request : OperationRequest)
    (operations : List (BatchOperation F)) (reached : Bool) (revisions : Tracker) (editor : S)
    (json : Bytes)
    → let preflight = (facade execute_operation host scene true operations editor).1 in
      let made =
        create_batch_data platform instance_id revisions.project_generation preflight none true
          operations false in
      request.dry_run ≡ true
      → preflight.is_ok ≡ true
      → print made ≡ some json
      → (run_batch platform instance_id print
            (facade execute_operation host scene)
            request
            operations
            reached
            revisions
            editor
          ≡ (editor, revisions, create_native_success json revisions))
        × ArePlanned operations preflight.operations made.results
        × (made.applied_operation_ids ≡ [])
        × (made.undo_recommended ≡ false)
unfolding run_batch
dry_run_succeeds platform instance_id print execute_operation host scene request operations reached
      revisions editor json dry accepted printed =
    let preflight = (facade execute_operation host scene true operations editor).1 in
    let tells =
      edit_batch-Tells execute_operation (host true) (scene true) operations editor accepted in
    let made =
      create_batch_data platform instance_id revisions.project_generation preflight none true
        operations false in
    let laid =
      create_batch_data-laid platform instance_id revisions.project_generation preflight operations
        false tells in
    let counts : length preflight.operations ≡ length operations =
      AreTold-length (map (λ o. o.request) operations) preflight.operations tells
      ∙ length-map (λ o. o.request) operations in
    let plans : (not preflight.is_ok || not (length preflight.operations == length operations))
        ≡ false =
      ground (arith, accepted, counts) in
    let dumped : dump_data print made ≡ some (ok json) =
      dump_data-laid print made json laid printed in
    let same : (facade execute_operation host scene true operations editor).0 ≡ editor =
      edit_batch-dry execute_operation (host true) (scene true) editor operations in
    let planned =
      create_items-ArePlanned platform instance_id revisions.project_generation preflight operations
        [] preflight.operations refl tells in
    (
      rw (run_batch, plans, dry, same)
          (ap (λ result. (editor, revisions, result))
            (dumped-succeeds revisions (dump_data print made) json dumped)),
      unfold create_batch_data in planned,
      unfold create_batch_data in
          ArePlanned-applied_ids operations preflight.operations
            (create_items platform instance_id revisions.project_generation preflight none true 0
              operations)
            planned,
      unfold create_batch_data in refl,
    )
