-- ===== src/Harness/Checks.antt =====
-- The checks of HarnessService that only read: _require_job, _require_plan, _validation_matches_plan,
-- _require_writer_compatible and the tests of _load_remediation_for_plan.
use autocad_mechanical_harne.Base.{
  String, ◌==◌, Bool, true, false, ◌&&◌, ◌||◌, not, Option, none, some, List, [], ◌∷◌, option_eq,
  startswith, if◌then◌else◌,
}
use autocad_mechanical_harne.Base.Dict
use autocad_mechanical_harne.Base.Dict.{Dict}
use autocad_mechanical_harne.Errors.{
  Result, ok, err, guard, or_raise, document_not_found, approval_required, plan_hash_mismatch,
  unsupported_schema_version, adapter_capability_missing, ◌>>=◌, ◌>>◌,
}
use autocad_mechanical_harne.Job.{
  CadJob, JobState, is_in, planned, previewed, validated, approved, committing,
}
use autocad_mechanical_harne.Plan.{OperationPlan, Operation, verify_hash}
use autocad_mechanical_harne.Validation.{ValidationReport, is_stage, pre_commit, as_ref}
use autocad_mechanical_harne.Store.{JobStore, RemediationResult, get_job, get_plan, get_remediation}
use autocad_mechanical_harne.Harness.World.{Harness, World}

-- The states in which a plan is bound to the job's revision.
abbrev pub before_commit : List JobState
before_commit = planned ∷ previewed ∷ validated ∷ approved ∷ committing ∷ []

-- any(operation.feature_id.startswith("remediation:") for ...)
unfoldable pub any_remediation : List Operation → Bool
unfolding startswith
any_remediation [] = false
any_remediation (o ∷ os) = startswith o.feature_id "remediation:" || any_remediation os

unfoldable pub require_job : JobStore → String → Result CadJob
require_job s job_id = or_raise (get_job s job_id) document_not_found

module _ {S : Type 0} (h : Harness S) where
  unfoldable pub require_current_plan_schema : OperationPlan → Result (Unit {0})
  require_current_plan_schema plan =
      guard (plan.schema_version == h.schema_version) unsupported_schema_version

  -- The negation of the test of `_require_plan`.
  unfoldable pub plan_bound : OperationPlan → CadJob → String → Result Bool
  plan_bound plan job job_id = elim plan.plan_hash [
    | none ↦ ok false
    | some hash ↦ do
      intact ← verify_hash h.sha256_of plan hash
      ok (
          intact
          && plan.job_id == job_id
          && option_eq (some plan.plan_id) job.plan_id
          && option_eq (some hash) job.plan_hash
          && plan.document_id == job.document_id
          && (not (is_in job.state before_commit)
              || plan.expected_revision == job.expected_revision)
          && plan.profile_ref == as_ref h.profile)
  ]

  unfoldable pub require_plan : JobStore → String → Result OperationPlan
  unfolding require_current_plan_schema require_job
  require_plan s job_id = do
    plan ← or_raise (get_plan s job_id) approval_required
    require_current_plan_schema plan
    job ← require_job s job_id
    bound ← plan_bound plan job job_id
    guard bound plan_hash_mismatch
    ok plan

  -- _validation_matches_plan
  unfoldable pub validation_matches_plan : ValidationReport → OperationPlan → String → Bool
  validation_matches_plan report plan job_id =
      report.schema_version == h.schema_version
      && report.job_id == job_id
      && is_stage report.stage pre_commit
      && option_eq report.plan_hash plan.plan_hash
      && option_eq report.profile_ref (some plan.profile_ref)

  -- The test on a stored remediation, for the cached one if there is one.
  unfoldable pub remediation_bound :
      String → RemediationResult → OperationPlan → String → Option RemediationResult → Bool
  remediation_bound stored_hash remediation plan job_id cached =
      option_eq (some stored_hash) plan.plan_hash
      && option_eq remediation.plan.plan_hash plan.plan_hash
      && remediation.plan.job_id == job_id
      && elim cached [ none ↦ true | some c ↦ h.remediation_eq c remediation ]

  -- What `_load_remediation_for_plan` returns; the cache entry is made by the caller.
  unfoldable pub load_remediation_for_plan :
      World S → String → OperationPlan → Result (Option RemediationResult)
  unfolding any_remediation remediation_bound
  load_remediation_for_plan w job_id plan = elim (get_remediation w.store job_id) [
    | none ↦ if any_remediation plan.operations then err document_not_found else ok none
    | some (stored_hash, remediation) ↦
        if remediation_bound stored_hash remediation plan job_id
          (Dict.get w.remediation_jobs job_id)
        then ok (some remediation)
        else err plan_hash_mismatch
  ]

  -- _require_writer_compatible
  unfoldable pub require_writer_compatible : World S → Result (Unit {0})
  require_writer_compatible w =
      let status = h.adapter.status w.drawing in
      if status.adapter_type == "com" || status.adapter_type == "dotnet_bridge"
      then guard (h.writer_supported status.cad_version) adapter_capability_missing
      else ok tt
