-- ===== src/Harness/Lifecycle.antt =====
-- The methods of HarnessService that lead a job up to its approval: inspect_document, create_job,
-- submit_spec, _preview and _validate. Texts, artifacts and counts that a method returns
-- beside its outcome are left out.
pub mod Resubmission
pub mod Redacts
use autocad_mechanical_harne.Base.{
  String, ◌==◌, Bool, true, false, ◌&&◌, not, Option, none, some, [], ◌∷◌, ◌++◌, is_some,
  if◌then◌else◌,
}
use autocad_mechanical_harne.Base.Dict
use autocad_mechanical_harne.Base.Dict.{Dict}
use autocad_mechanical_harne.Errors.{
  ok, guard, approval_required, invalid_feature_parameters, unsupported_schema_version,
}
use autocad_mechanical_harne.Value.{Value, str, dict, field, end}
use autocad_mechanical_harne.Job.{
  CadJob, created, spec_accepted, planned, previewed, validated, approved, is_in, is_state, new_job,
  transition_to, no_updates, invalidate_approval,
}
use autocad_mechanical_harne.Plan.{OperationPlan}
use autocad_mechanical_harne.Validation.{
  ValidationReport, ValidationStage, pre_commit, is_stage, derive_severity_counts, has_blocking,
  run,
}
use autocad_mechanical_harne.Outcome.{DocumentSnapshot}
use autocad_mechanical_harne.Spec.{redact_raster_acceptance_tokens}
use autocad_mechanical_harne.Store.{
  save_job, save_spec, save_plan, save_validation, get_remediation, revoke_approvals_for_job,
}
use autocad_mechanical_harne.Harness.World.{Harness}
use autocad_mechanical_harne.Harness.Act.{
  Act, ◌>>=◌, ◌>>◌, give, read, modify, change_store, now, fresh_id, audit,
}
use autocad_mechanical_harne.Harness.Checks.{require_job, require_plan, require_current_plan_schema}
use autocad_mechanical_harne.Harness.Styles.{missing_live_style_findings}

-- payload.setdefault(key, value)
abbrev default : String → Value → Dict Value → Dict Value
default key value payload =
    if is_some (Dict.get payload key) then payload else Dict.put payload key value

module _ {S : Type 0} (h : Harness S) where
  unfoldable pub inspect_document : Option String → Act S DocumentSnapshot
  inspect_document document_id = do
    snapshot ← read (λ w. h.adapter.inspect_document w.drawing document_id)
    modify (λ w. record w { snapshots = Dict.put w.snapshots snapshot.document_id snapshot })
    audit "DOCUMENT_INSPECTED" none "system" "harness"
    give snapshot

  unfoldable pub create_job : Option String → Act S CadJob
  unfolding inspect_document
  create_job document_id = do
    snapshot ← inspect_document document_id
    job_id ← fresh_id h
    created_at ← now h
    let job = new_job job_id snapshot.document_id snapshot.revision created_at
    change_store (λ s. save_job s job)
    audit "JOB_CREATED" (some job.job_id) "system" "harness"
    give job

  -- The live findings are added to a PRE_COMMIT report if the document has a snapshot.
  unfoldable pub with_live_findings :
      ValidationReport
      → ValidationStage
      → OperationPlan
      → Option DocumentSnapshot
      → ValidationReport
  with_live_findings report stage plan none = report
  with_live_findings report stage plan (some snapshot) =
      if is_stage stage pre_commit
      then derive_severity_counts (record report {
        findings = report.findings ++ missing_live_style_findings h.profile plan snapshot;
      })
      else report

  -- The job's step to VALIDATED, where it is due.
  unfoldable pub advance_validated : CadJob → ValidationStage → ValidationReport → Act S (Unit {0})
  advance_validated job stage report =
      if is_stage stage pre_commit && is_state job.state previewed && not (has_blocking report)
      then (do
        at ← now h
        job' ← read (λ w. transition_to job validated no_updates at)
        change_store (λ s. save_job s job'))
      else give tt

  unfoldable pub validate_plan : String → ValidationStage → Bool → Act S ValidationReport
  unfolding with_live_findings
  validate_plan job_id stage allow_approved = do
    job ← read (λ w. require_job w.store job_id)
    plan ← read (λ w. require_plan h w.store job_id)
    read (λ w. guard (not (is_state job.state approved && not allow_approved)) approval_required)
    validation_id ← fresh_id h
    engine_report ← read (λ w.
        run h.rules h.schema_version stage
          (record { profile = h.profile; plan = some plan; commit_result = none }) job_id
          validation_id)
    snapshot ← read (λ w. ok (Dict.get w.snapshots job.document_id))
    let report = with_live_findings engine_report stage plan snapshot
    change_store (λ s. save_validation s report)
    advance_validated job stage report
    audit "VALIDATION_COMPLETED" (some job_id) "system" "harness"
    give report

  -- The payload with the defaults that `submit_spec` sets.
  unfoldable pub with_defaults : Dict Value → String → CadJob → Dict Value
  with_defaults payload spec_id job =
      default "standard_profile"
        (dict (
          field "profile_id" (str h.profile.profile_id)
            (field "version" (str h.profile.version) end)))
        (default "document_id" (str job.document_id) (default "spec_id" (str spec_id) payload))

  -- payload.get("schema_version", SCHEMA_VERSION) == SCHEMA_VERSION
  unfoldable pub current_schema : Dict Value → Bool
  current_schema payload = elim (Dict.get payload "schema_version") [
    | none ↦ true
    | some (str s) ↦ s == h.schema_version
    | some _ ↦ false
  ]

  -- The step back to SPEC_ACCEPTED of a job that had gone further: it voids the approvals.
  unfoldable pub reopen_far : CadJob → Act S CadJob
  reopen_far job = do
    at ← now h
    job' ← read (λ w. transition_to job spec_accepted no_updates at)
    change_store (λ s. revoke_approvals_for_job s job.job_id)
    later ← now h
    give (invalidate_approval job' later)

  unfoldable pub reopen : CadJob → Act S CadJob
  reopen job =
      if not (is_in job.state (created ∷ spec_accepted ∷ []))
      then reopen_far job
      else if is_state job.state created
      then (do at ← now h; read (λ w. transition_to job spec_accepted no_updates at))
      else give job

  -- From the compiler's answer on: `none` where inputs are missing.
  unfoldable pub store_plan : CadJob → Option OperationPlan → Act S (Option OperationPlan)
  store_plan job none = give none
  store_plan job (some plan) = do
    change_store (λ s. save_plan s plan)
    at ← now h
    job' ← read (λ w.
        transition_to job planned
          (λ j. record j { plan_id = some plan.plan_id; plan_hash = plan.plan_hash }) at)
    change_store (λ s. save_job s job')
    audit "PLAN_COMPILED" (some job.job_id) "system" "harness"
    give (some plan)

  unfoldable pub submit_spec : String → Dict Value → Act S (Option OperationPlan)
  unfolding with_defaults current_schema
  submit_spec job_id spec_payload = do
    job ← read (λ w. require_job w.store job_id)
    read (λ w. guard (not (is_some (get_remediation w.store job_id))) invalid_feature_parameters)
    spec_id ← fresh_id h
    let payload = with_defaults spec_payload spec_id job
    read (λ w. guard (current_schema payload) unsupported_schema_version)
    spec ← read (λ w. h.spec_of payload)
    job' ← reopen job
    version ← (λ w.
        let (version, s) = save_spec w.store job_id (redact_raster_acceptance_tokens spec) in
        (ok version, record w { store = s }))
    let accepted = record job' { spec_id = some spec.spec_id; spec_version = version }
    change_store (λ s. save_job s accepted)
    audit "SPEC_CHANGED" (some job_id) "ai_client" "unknown"
    audit "SPEC_SUBMITTED" (some job_id) "ai_client" "unknown"
    plan ← read (λ w. h.compile spec job_id accepted.expected_revision)
    store_plan accepted plan

  -- The job's step to PREVIEWED, where it is due.
  unfoldable pub advance_previewed : CadJob → Act S (Unit {0})
  advance_previewed job =
      if is_state job.state planned
      then (do
        at ← now h
        job' ← read (λ w. transition_to job previewed no_updates at)
        change_store (λ s. save_job s job'))
      else give tt

  -- _preview, without its artifacts
  unfoldable pub preview : String → Act S (Unit {0})
  unfolding advance_previewed
  preview job_id = do
    job ← read (λ w. require_job w.store job_id)
    plan ← read (λ w. require_plan h w.store job_id)
    read (λ w. require_current_plan_schema h plan)
    read (λ w. h.preflight plan)
    read (λ w. h.preview plan)
    advance_previewed job
    audit "PREVIEW_GENERATED" (some job_id) "system" "harness"
