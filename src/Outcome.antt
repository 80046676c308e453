-- ===== src/Outcome.antt =====
-- What the adapters report: cad_harness/domain/models/result.py, and the snapshot of
-- cad_harness/domain/models/document.py.
use autocad_mechanical_harne.Base.{ℕ, String, Option, List}
use autocad_mechanical_harne.Base.Dict.{Dict}
use autocad_mechanical_harne.Value.{Value}

pub data CommitStatus : Type 0 where
  committed : CommitStatus
  aborted : CommitStatus
  unknown : CommitStatus

pub record EntityResult : Type 0 where
  pub operation_id : String
  pub feature_id : String
  pub entity_ref : String
  pub entity_type : String
  pub measurements : Dict Value

pub record EntityMappingRecord : Type 0 where
  pub document_id : String
  pub feature_id : String
  pub operation_id : String
  pub entity_ref : String
  pub last_revision : String
  pub expected_layer : Option String

pub record Checkpoint : Type 0 where
  pub checkpoint_id : String
  pub job_id : String
  pub revision : String
  pub artifact_ref : String

pub record CommitResult : Type 0 where
  pub job_id : String
  pub plan_hash : String
  pub status : CommitStatus
  pub entity_results : List EntityResult
  pub previous_revision : String
  pub new_revision : String
  pub checkpoint_id : Option String
  pub undo_group : Option String

pub data RollbackMethod : Type 0 where
  by_undo_group : RollbackMethod
  by_checkpoint_restore : RollbackMethod

pub record RollbackResult : Type 0 where
  pub job_id : String
  pub restored_revision : String
  pub checkpoint_id : Option String
  pub method : RollbackMethod

-- The fields of a document snapshot that the harness reads; `units` is the unit's value or "unknown".
pub record DocumentSnapshot : Type 0 where
  pub document_id : String
  pub revision : String
  pub units : String
  pub layers : List String
  pub dimension_styles : List String
  pub text_styles : List String
  pub entity_count : ℕ
