-- ===== src/Harness/World.antt =====
-- The collaborators of HarnessService (its constructor's arguments) and the state that it and they
-- keep. An adapter is a record of functions over its own state `S`: inspecting and comparing revisions
-- read it, committing and rolling back may change it. The clock and the identifiers are streams, read
-- by position. What the compatibility matrix says of a version is a function.
use autocad_mechanical_harne.Base.{ℕ, String, Bool, Option, List}
use autocad_mechanical_harne.Base.Dict.{Dict}
use autocad_mechanical_harne.Errors.{Result}
use autocad_mechanical_harne.Value.{Value}
use autocad_mechanical_harne.Plan.{OperationPlan}
use autocad_mechanical_harne.Validation.{CompanyProfile, ValidationRule, ValidationReport, Finding}
use autocad_mechanical_harne.Approval.Codec.{TokenCodec}
use autocad_mechanical_harne.Outcome.{CommitResult, RollbackResult, DocumentSnapshot}
use autocad_mechanical_harne.Store.{JobStore, RemediationResult}
use autocad_mechanical_harne.Spec.{DrawingSpec}
use autocad_mechanical_harne.Lease.{LeaseStore, WriterLease}

pub record CommitRequest : Type 0 where
  pub plan : OperationPlan
  pub idempotency_key : String
  pub expected_revision : String
  pub approval_token : String

pub record RollbackRequest : Type 0 where
  pub job_id : String
  pub document_id : String
  pub checkpoint_id : String
  pub current_revision : String
  pub rollback_approval_token : String
  pub undo_group : Option String

pub record AdapterStatus : Type 0 where
  pub adapter_type : String
  pub cad_version : Option String

-- The methods of a CadAdapter that the workflow calls.
pub record Adapter (S : Type 0) : Type 0 where
  pub allows_expired_checkpoint_recovery : Bool
  pub status : S → AdapterStatus
  pub inspect_document : S → Option String → Result DocumentSnapshot
  pub validate_revision : S → String → String → Result Bool
  pub commit : CommitRequest → S → Result CommitResult × S
  pub rollback : RollbackRequest → S → Result RollbackResult × S

-- The structured read-back of a drawing.
pub record DrawingModel : Type 0 where
  pub revision : String
  pub content : Value

-- `remediation_eq` is the contract library's `==`, and `spec_of` its `model_validate`. `preflight`,
-- `preview` and `compile` are the plan compiler's and the preview adapter's; `compile` gives `none`
-- where inputs are missing. `parse_time` is the contract library's reading of a time, `is_blank` that
-- `str.strip` leaves nothing, and `sha256_text` the hexadecimal digest of a text. `beats` is how often the lease renewer's thread comes to renew while the adapter commits, and later
-- while the commit is read back.
pub record Harness (S : Type 0) : Type 0 where
  pub adapter : Adapter S
  pub require_commit_approval : Bool
  pub approval_secret : String
  pub approval_ttl : ℕ
  pub rollback_approval_ttl : ℕ
  pub lease_ttl : ℕ
  pub schema_version : String
  pub profile : CompanyProfile
  pub rules : List ValidationRule
  pub codec : TokenCodec
  pub parse_time : String → Option ℕ
  pub is_blank : String → Bool
  pub sha256_text : String → String
  pub sha256_of : Value → Result String
  pub writer_supported : Option String → Bool
  pub drawing_model_reader : Option (S → String → Result DrawingModel)
  pub audit_drawing : DrawingModel → List (String × String) → String → Result ValidationReport
  pub drawing_audit_store : Option (String → Option (List Finding))
  pub remediation_eq : RemediationResult → RemediationResult → Bool
  pub spec_of : Dict Value → Result DrawingSpec
  pub compile : DrawingSpec → String → String → Result (Option OperationPlan)
  pub preflight : OperationPlan → Result (Unit {0})
  pub preview : OperationPlan → Result (Unit {0})
  pub clock : ℕ → ℕ
  pub new_id : ℕ → String
  pub beats : ℕ × ℕ

-- An entry of the audit trail, without its payload.
pub record Event : Type 0 where
  pub event_type : String
  pub job_id : Option String
  pub actor_type : String
  pub actor_id : String

-- cad_harness/application/services/lease_service.py: the lease of the hold in progress.
pub record LeaseHandle : Type 0 where
  pub lease : WriterLease
  pub renewal_failed : Bool
  pub released : Bool

-- _DurableRollbackRecovery: the bridge has asked for a retry of exactly this attempt.
pub record DurableRollbackRecovery : Type 0 where
  pub job_id : String
  pub document_id : String
  pub checkpoint_id : String
  pub current_revision : String
  pub approval_token_digest : String

-- `handle` is the one of the hold in progress, which the commit and the renewer's thread share.
pub record World (S : Type 0) : Type 0 where
  pub drawing : S
  pub store : JobStore
  pub leases : LeaseStore
  pub handle : Option LeaseHandle
  pub snapshots : Dict DocumentSnapshot
  pub undo_rollback_receipts : Dict (String × String)
  pub durable_rollback_recoveries : Dict DurableRollbackRecovery
  pub remediation_jobs : Dict RemediationResult
  pub events : List Event
  pub ticks : ℕ
  pub ids : ℕ
