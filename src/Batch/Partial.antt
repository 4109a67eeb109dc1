-- ===== src/Batch/Partial.antt =====
-- The data of a batch that has changed the project in part, of
-- AviUtl2MCP.Bridge/src/native_batch_request_handler.cpp over the report of src/sdk_read_facade.cpp.
use aviutl2mcp.Common.{ℕ, Bool, false, Option, some, List, Bytes, length}
use aviutl2mcp.Platform.{Platform}
use aviutl2mcp.Batch.{BatchRequest, BatchOperationResult, BatchEditResult}
use aviutl2mcp.Batch.Planning.{Scene}
use aviutl2mcp.Batch.Validation.{BatchOperation}
use aviutl2mcp.Batch.Facade.{Host}
use aviutl2mcp.Batch.Handler.{create_items, applied_ids}
use aviutl2mcp.Batch.Report.{Report}

module _ {F S : Type 0} where
  module _ (execute_operation : BatchRequest F → Option ℕ → S → S × BatchOperationResult F)
      (host : Host) (scene : Scene F) (dry_run : Bool) (operations : List (BatchOperation F))
      (editor : S) where
    -- What is claimed of a run of the facade.
    IsReported : S × BatchEditResult F → Type 0
    IsReported run = Report (length operations) editor run.0 run.1

-- The ids of the operations before the one that failed are named as applied, from `index` on.
module _ {F : Type 0} (platform : Platform) (instance_id project_generation : Bytes)
    (preflight edited : BatchEditResult F) where
  abbrev ids_from : ℕ → List (BatchOperation F) → List Bytes
  ids_from index operations = applied_ids (
      create_items platform instance_id project_generation preflight (some edited) false index
        operations)
