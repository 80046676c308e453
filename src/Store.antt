-- ===== src/Store.antt =====
-- cad_harness/persistence/memory_store.py: the in-memory JobStore. The result that is stored with an
-- execution is the commit result itself: `model_dump` and `model_validate` are the contract
-- library's, and give it back. The executions' keys are pairs.
pub mod Laws
use autocad_mechanical_harne.Base.{
  ℕ, String, ◌==◌, Bool, false, ◌&&◌, Option, none, some, List, [], ◌∷◌, ◌++◌, length, is_some,
  if◌then◌else◌,
}
use autocad_mechanical_harne.Base.Dict
use autocad_mechanical_harne.Base.Dict.{Dict}
use autocad_mechanical_harne.Errors.{Result, ok, err, value_error}
use autocad_mechanical_harne.Job.{CadJob}
use autocad_mechanical_harne.Spec.{DrawingSpec}
use autocad_mechanical_harne.Plan.{OperationPlan}
use autocad_mechanical_harne.Validation.{ValidationReport}
use autocad_mechanical_harne.Approval.{ApprovalRecord}
use autocad_mechanical_harne.Outcome.{CommitResult, EntityMappingRecord, Checkpoint}

-- The fields of a RemediationResult that the workflow reads.
pub record RemediationResult : Type 0 where
  pub plan : OperationPlan
  pub audit_id : String
  pub selected_findings : List (String × String)

pub record Execution : Type 0 where
  pub job_id : String
  pub idempotency_key : String
  pub request_digest : String
  pub result : CommitResult

pub record JobStore : Type 0 where
  pub jobs : Dict CadJob
  pub specs : Dict (List DrawingSpec)
  pub plans : Dict OperationPlan
  pub remediations : Dict (String × RemediationResult)
  pub validations : Dict ValidationReport
  pub approvals : Dict ApprovalRecord
  pub executions : List Execution
  pub entity_mappings : List EntityMappingRecord
  pub checkpoints : Dict Checkpoint

unfoldable pub empty_store : JobStore
empty_store = record {
  jobs = Dict.empty;
  specs = Dict.empty;
  plans = Dict.empty;
  remediations = Dict.empty;
  validations = Dict.empty;
  approvals = Dict.empty;
  executions = [];
  entity_mappings = [];
  checkpoints = Dict.empty;
}

unfoldable pub save_job : JobStore → CadJob → JobStore
save_job s job = record s { jobs = Dict.put s.jobs job.job_id job }

unfoldable pub get_job : JobStore → String → Option CadJob
get_job s job_id = Dict.get s.jobs job_id

-- self.specs.setdefault(job_id, [])
abbrev pub versions_of : Option (List DrawingSpec) → List DrawingSpec
versions_of none = []
versions_of (some vs) = vs

unfoldable pub save_spec : JobStore → String → DrawingSpec → ℕ × JobStore
save_spec s job_id spec =
    let versions = versions_of (Dict.get s.specs job_id) ++ spec ∷ [] in
    (length versions, record s { specs = Dict.put s.specs job_id versions })

unfoldable pub save_plan : JobStore → OperationPlan → JobStore
save_plan s plan = record s { plans = Dict.put s.plans plan.job_id plan }

unfoldable pub get_plan : JobStore → String → Option OperationPlan
get_plan s job_id = Dict.get s.plans job_id

unfoldable pub save_remediation : JobStore → String → String → RemediationResult → Result JobStore
save_remediation s job_id plan_hash payload =
    if is_some (Dict.get s.remediations job_id)
    then err value_error
    else ok (record s { remediations = Dict.put s.remediations job_id (plan_hash, payload) })

unfoldable pub get_remediation : JobStore → String → Option (String × RemediationResult)
get_remediation s job_id = Dict.get s.remediations job_id

unfoldable pub save_validation : JobStore → ValidationReport → JobStore
save_validation s report = record s { validations = Dict.put s.validations report.job_id report }

unfoldable pub get_validation : JobStore → String → Option ValidationReport
get_validation s job_id = Dict.get s.validations job_id

unfoldable pub save_approval : JobStore → ApprovalRecord → JobStore
save_approval s approval = record s {
  approvals = Dict.put s.approvals approval.approval_id approval;
}

unfoldable pub get_approval : JobStore → String → Option ApprovalRecord
get_approval s approval_id = Dict.get s.approvals approval_id

-- [a.approval_id for a in self.approvals.values() if a.job_id == job_id]
unfoldable pub approvals_of : String → List ApprovalRecord → List String
approvals_of job_id [] = []
approvals_of job_id (a ∷ approvals) =
    let rest = approvals_of job_id approvals in
    if a.job_id == job_id then a.approval_id ∷ rest else rest

unfoldable pub pop_all {ℓ} : {V : Type ℓ} → List String → Dict V → Dict V
pop_all [] d = d
pop_all (k ∷ ks) d = pop_all ks (Dict.pop d k)

unfoldable pub revoke_approvals_for_job : JobStore → String → JobStore
unfolding approvals_of pop_all
revoke_approvals_for_job s job_id = record s {
  approvals = pop_all (approvals_of job_id (Dict.values s.approvals)) s.approvals;
}

abbrev pub same_key : Execution → String → String → Bool
same_key e job_id idempotency_key = e.job_id == job_id && e.idempotency_key == idempotency_key

-- self.executions[(job_id, idempotency_key)] = ...
unfoldable pub put_execution : Execution → List Execution → List Execution
put_execution e [] = e ∷ []
put_execution e (x ∷ xs) =
    if same_key x e.job_id e.idempotency_key then e ∷ xs else x ∷ put_execution e xs

unfoldable pub record_execution : JobStore → String → String → String → CommitResult → JobStore
unfolding put_execution
record_execution s job_id idempotency_key request_digest result = record s {
  executions =
      put_execution
        (record {
          job_id = job_id;
          idempotency_key = idempotency_key;
          request_digest = request_digest;
          result = result;
        })
        s.executions;
}

unfoldable pub lookup_execution : String → String → List Execution → Option (String × CommitResult)
lookup_execution job_id idempotency_key [] = none
lookup_execution job_id idempotency_key (e ∷ es) =
    if same_key e job_id idempotency_key
    then some (e.request_digest, e.result)
    else lookup_execution job_id idempotency_key es

unfoldable pub find_execution : JobStore → String → String → Option (String × CommitResult)
unfolding lookup_execution
find_execution s job_id idempotency_key = lookup_execution job_id idempotency_key s.executions

unfoldable pub entity_mappings_for : String → List EntityMappingRecord → List EntityMappingRecord
entity_mappings_for document_id [] = []
entity_mappings_for document_id (m ∷ ms) =
    let rest = entity_mappings_for document_id ms in
    if m.document_id == document_id then m ∷ rest else rest

unfoldable pub save_checkpoint : JobStore → Checkpoint → JobStore
save_checkpoint s checkpoint = record s {
  checkpoints = Dict.put s.checkpoints checkpoint.checkpoint_id checkpoint;
}

abbrev save_if_some : JobStore → Option Checkpoint → JobStore
save_if_some s none = s
save_if_some s (some c) = save_checkpoint s c

-- The Boolean says whether the lease was released in the same transaction: never, for this store.
unfoldable pub finalize_job : JobStore → CadJob → List EntityMappingRecord → Bool × JobStore
unfolding save_job
finalize_job s job mappings =
    (false, record (save_job s job) { entity_mappings = s.entity_mappings ++ mappings })

unfoldable pub finalize_commit :
    JobStore
    → CadJob
    → List EntityMappingRecord
    → String
    → String
    → CommitResult
    → Option Checkpoint
    → Bool × JobStore
unfolding finalize_job save_checkpoint record_execution
finalize_commit s job mappings idempotency_key request_digest result checkpoint =
    let s' = save_if_some (finalize_job s job mappings).1 checkpoint in
    (false, record_execution s' job.job_id idempotency_key request_digest result)
