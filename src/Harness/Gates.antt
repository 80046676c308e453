-- ===== src/Harness/Gates.antt =====
-- The gates of HarnessService._commit that only read, in their order: authorization (`authorize`), stored
-- evidence (`standing`) and the drawing's revision (`check_revision`).
use autocad_mechanical_harne.Base.{
  ℕ, String, ◌==◌, Bool, true, ◌&&◌, not, Option, none, some, List, option_eq, if◌then◌else◌,
}
use autocad_mechanical_harne.Errors.{
  Result, ok, guard, or_raise, approval_required, plan_hash_mismatch, idempotency_key_reused,
  unknown_commit_state, stale_document_revision, ◌>>=◌, ◌>>◌,
}
use autocad_mechanical_harne.Value.{str, dict, field, end}
use autocad_mechanical_harne.Job.{CadJob, is_state, unknown_commit}
use autocad_mechanical_harne.Plan.{OperationPlan}
use autocad_mechanical_harne.Validation.{
  ValidationReport, gate_allows_commit, warning_rule_ids, issubset,
}
use autocad_mechanical_harne.Approval.{ApprovalRecord}
use autocad_mechanical_harne.Approval.Token.{verify_approval_token}
use autocad_mechanical_harne.Outcome.{CommitResult}
use autocad_mechanical_harne.Store.{
  JobStore, RemediationResult, find_execution, get_approval, get_validation,
}
use autocad_mechanical_harne.Harness.World.{Harness, World}
use autocad_mechanical_harne.Harness.Checks.{
  require_job, require_plan, require_current_plan_schema, validation_matches_plan,
  load_remediation_for_plan,
}

-- The arguments of `commit`.
pub record CommitCall : Type 0 where
  pub job_id : String
  pub idempotency_key : String
  pub expected_revision : String
  pub plan_hash : String
  pub approval_token : String

-- What the first three gates have established.
pub record Authorization : Type 0 where
  pub job : CadJob
  pub plan : OperationPlan
  pub request_digest : String
  pub previous : Option (String × CommitResult)
  pub approval : Option ApprovalRecord

-- self.store.get_approval(job.approval_id) if job.approval_id else None
unfoldable pub recorded_approval : JobStore → CadJob → Option ApprovalRecord
recorded_approval s job = elim job.approval_id [
  | none ↦ none
  | some id ↦ if id == "" then none else get_approval s id
]

-- The first gate: a key that was used for another request.
unfoldable pub check_reuse : Option (String × CommitResult) → String → Result (Unit {0})
check_reuse none digest = ok tt
check_reuse (some (stored, result)) digest = guard (stored == digest) idempotency_key_reused

abbrev pub acknowledged : Option ApprovalRecord → ValidationReport → List String
acknowledged none report = warning_rule_ids report.findings
acknowledged (some a) report = a.warnings_acknowledged

module _ {S : Type 0} (h : Harness S) where
  unfoldable pub request_digest : CommitCall → Result String
  request_digest c = h.sha256_of (
      dict (
        field "job_id" (str c.job_id) (
          field "plan_hash" (str c.plan_hash)
            (field "expected_revision" (str c.expected_revision) end))))

  unfoldable pub verified_approval :
      JobStore → CommitCall → CadJob → ℕ → Result (Option ApprovalRecord)
  verified_approval s c job at = do
    approval ← or_raise (recorded_approval s job) approval_required
    verify_approval_token h.codec c.approval_token approval h.approval_secret c.job_id c.plan_hash
        c.expected_revision at
    ok (some approval)

  -- The third gate, which a configuration may turn off.
  unfoldable pub check_approval :
      JobStore → CommitCall → CadJob → ℕ → Result (Option ApprovalRecord)
  check_approval s c job at =
      if h.require_commit_approval then verified_approval s c job at else ok none

  unfoldable pub authorize : CommitCall → ℕ → World S → Result Authorization
  authorize c at w = do
    job ← require_job w.store c.job_id
    plan ← require_plan h w.store c.job_id
    require_current_plan_schema h plan
    digest ← request_digest c
    check_reuse (find_execution w.store c.job_id c.idempotency_key) digest
    guard (option_eq plan.plan_hash (some c.plan_hash)) plan_hash_mismatch
    approval ← check_approval w.store c job at
    ok (record {
      job = job;
      plan = plan;
      request_digest = digest;
      previous = find_execution w.store c.job_id c.idempotency_key;
      approval = approval;
    })

  -- Whether a report lets this plan be committed under this approval.
  unfoldable pub report_allows : CommitCall → Authorization → ValidationReport → Bool
  report_allows c a report =
      validation_matches_plan h report a.plan c.job_id
      && gate_allows_commit report true
      && issubset (warning_rule_ids report.findings) (acknowledged a.approval report)

  -- The stored evidence: the job's outcome is known, the approved report still allows the commit, and
  -- a remediation is bound to the plan.
  unfoldable pub standing : CommitCall → Authorization → World S → Result (Option RemediationResult)
  standing c a w = do
    guard (not (is_state a.job.state unknown_commit)) unknown_commit_state
    report ← or_raise (get_validation w.store c.job_id) approval_required
    guard (report_allows c a report) approval_required
    load_remediation_for_plan h w c.job_id a.plan

  unfoldable pub check_revision : CommitCall → Authorization → World S → Result (Unit {0})
  check_revision c a w = do
    same ← h.adapter.validate_revision w.drawing a.job.document_id c.expected_revision
    guard same stale_document_revision
