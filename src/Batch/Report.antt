-- ===== src/Batch/Report.antt =====
-- What `edit_sdk_batch` of AviUtl2MCP.Bridge/src/sdk_read_facade.cpp reports of a batch: which operations
-- were applied, which failed, and whether the project has changed.
use aviutl2mcp.Common.{
  ℕ, zero, suc, get_elem?, ◌≤◌, ◌≡◌, refl, ◌∙◌, subst, Bool, true, false, ◌&&◌, ◌||◌, none, some,
  List, [], ◌∷◌, ◌++◌, length, length-append, take, take-append_self, arith,
}
use aviutl2mcp.Batch.{BatchOperationResult, BatchEditResult}
use aviutl2mcp.Batch.Run.{fail_batch, push_operation, note_change}

module _ {F : Type 0} where
  unfoldable pub all_ok : List (BatchOperationResult F) → Bool
  all_ok [] = true
  all_ok (operation ∷ operations) = operation.is_ok && all_ok operations

  unfoldable pub any_changed : List (BatchOperationResult F) → Bool
  any_changed [] = false
  any_changed (operation ∷ operations) = operation.has_changed || any_changed operations

  all_ok-append :
      (xs : List (BatchOperationResult F)) (y : BatchOperationResult F)
      → all_ok (xs ++ (y ∷ [])) ≡ (all_ok xs && y.is_ok)
  unfolding all_ok
  all_ok-append [] y = ground arith
  all_ok-append (x ∷ xs) y = ground (arith, all_ok-append xs y)

  any_changed-append :
      (xs : List (BatchOperationResult F)) (y : BatchOperationResult F)
      → any_changed (xs ++ (y ∷ [])) ≡ (any_changed xs || y.has_changed)
  unfolding any_changed
  any_changed-append [] y = ground arith
  any_changed-append (x ∷ xs) y = ground (arith, any_changed-append xs y)

  -- Between two operations: so far all went well, and what is reported is what they did.
  pub record IsGoing (index : ℕ) (result : BatchEditResult F) : Type 0 where
    pub unfinished : result.is_ok ≡ false
    pub unfailed : result.failed_index ≡ none
    pub counted : length result.operations ≡ index
    pub applied : all_ok result.operations ≡ true
    pub changed : result.has_changed ≡ any_changed result.operations

  -- How a batch of `total` operations ends: all are applied; or they are up to the one that is named as
  -- failed, which is the last that is reported; or an exception ended it before any was
  -- executed, and no operation that is reported has changed anything.
  pub data Report {S : Type 0} (total : ℕ) (before after : S) (result : BatchEditResult F)
      : Type 0 where
    completed :
        result.is_ok ≡ true
        → result.failed_index ≡ none
        → length result.operations ≡ total
        → all_ok result.operations ≡ true
        → result.has_changed ≡ any_changed result.operations
        → Report total before after result
    stopped :
        (index : ℕ)
        → result.is_ok ≡ false
        → result.failed_index ≡ some index
        → suc index ≤ total
        → length result.operations ≡ suc index
        → all_ok (take index result.operations) ≡ true
        → all_ok result.operations ≡ false
        → result.has_changed ≡ any_changed result.operations
        → Report total before after result
    abandoned :
        result.is_ok ≡ false
        → result.failed_index ≡ none
        → after ≡ before
        → result.has_changed ≡ false
        → any_changed result.operations ≡ false
        → Report total before after result

  -- The operation behind all that went well is the one that did not.
  pub last_fails :
      (index : ℕ) (operations : List (BatchOperationResult F))
      → length operations ≡ suc index
      → all_ok (take index operations) ≡ true
      → all_ok operations ≡ false
      → (failed : BatchOperationResult F) × (get_elem? operations index ≡ some failed)
        × (failed.is_ok ≡ false)
  unfolding all_ok
  last_fails index [] many before last = absurd (ground (arith, many))
  last_fails zero (x ∷ []) many before last = (x, refl, ground (arith, last))
  last_fails zero (x ∷ y ∷ xs) many before last = absurd (ground (arith, many))
  last_fails (suc index) (x ∷ xs) many before last =
      last_fails index xs (ground (arith, many)) (ground (arith, before))
        (ground (arith, before, last))

  pub push-IsGoing :
      (index : ℕ) (operation : BatchOperationResult F) (result : BatchEditResult F)
      → operation.is_ok ≡ true
      → IsGoing index result
      → IsGoing (suc index) (push_operation operation (note_change operation result))
  unfolding push_operation
  push-IsGoing index operation result well g = record {
    unfinished = g.unfinished;
    unfailed = g.unfailed;
    counted = length-append result.operations (operation ∷ []) ∙ omega (arith, g.counted);
    applied = all_ok-append result.operations operation ∙ ground (arith, g.applied, well);
    changed = ground (arith, any_changed-append result.operations operation, g.changed);
  }

  -- The report where an operation fails. What it has changed is noted before.
  pub fail-Report :
      {S : Type 0} (total index : ℕ) (before after : S) (operation : BatchOperationResult F)
      (result : BatchEditResult F) (has_changed : Bool)
      → suc index ≤ total
      → operation.is_ok ≡ false
      → has_changed ≡ (result.has_changed || operation.has_changed)
      → IsGoing index result
      → Report total before after
          (fail_batch index operation (record result { has_changed = has_changed }))
  unfolding fail_batch
  fail-Report total index before after operation result has_changed fits failed noted g =
      let ops = result.operations in
      let cut : take index (ops ++ (operation ∷ [])) ≡ ops =
        subst (λ (n : ℕ). take n (ops ++ (operation ∷ [])) ≡ ops) g.counted
          (take-append_self ops (operation ∷ [])) in
      stopped index g.unfinished refl fits
        (length-append ops (operation ∷ []) ∙ omega (arith, g.counted)) (rw cut g.applied)
        (all_ok-append ops operation ∙ ground (arith, failed))
        (ground (arith, any_changed-append ops operation, g.changed, noted))

  -- The loops leave the fields of a result as `IsGoing` has them, where no operation fails.
  pub planned-IsGoing :
      (index : ℕ) (operation : BatchOperationResult F) (result : BatchEditResult F)
      → (operation.is_ok ≡ true) × (operation.has_changed ≡ false)
      → IsGoing index result
      → IsGoing (suc index) (push_operation operation result)
  unfolding push_operation
  planned-IsGoing index operation result (well, same) g = record {
    unfinished = g.unfinished;
    unfailed = g.unfailed;
    counted = length-append result.operations (operation ∷ []) ∙ omega (arith, g.counted);
    applied = all_ok-append result.operations operation ∙ ground (arith, g.applied, well);
    changed = ground (arith, any_changed-append result.operations operation, g.changed, same);
  }
