-- ===== src/Harness/Approve.antt =====
-- HarnessService.approve: an engineer's approval of exactly the plan, the revision and the findings
-- that were displayed.
pub mod Sound
use autocad_mechanical_harne.Base.{
  String, ◌==◌, true, false, Option, none, some, List, option_eq, if◌then◌else◌,
}
use autocad_mechanical_harne.Errors.{
  Result, ok, err, guard, or_raise, approval_required, plan_hash_mismatch, stale_document_revision,
  assertion_error,
}
use autocad_mechanical_harne.Job.{CadJob, approved, transition_to}
use autocad_mechanical_harne.Plan.{OperationPlan}
use autocad_mechanical_harne.Validation.{
  ValidationReport, pre_commit, gate_allows_commit, warning_rule_ids, issubset,
}
use autocad_mechanical_harne.Approval.Token.{issue_approval}
use autocad_mechanical_harne.Store.{save_job, save_approval, get_validation}
use autocad_mechanical_harne.Harness.World.{Harness, World}
use autocad_mechanical_harne.Harness.Act.{
  Act, ◌>>=◌, ◌>>◌, give, read, change_store, now, fresh_id, audit,
}
use autocad_mechanical_harne.Harness.Checks.{require_job, require_plan, validation_matches_plan}
use autocad_mechanical_harne.Harness.Digest.{decision_digest}
use autocad_mechanical_harne.Harness.Styles.{sorted_set}
use autocad_mechanical_harne.Harness.Lifecycle.{inspect_document, validate_plan}

module _ {S : Type 0} (h : Harness S) where
  -- The tests of a displayed hash and of a displayed revision, where they are given.
  unfoldable pub check_displayed_hash : OperationPlan → Option String → Result (Unit {0})
  check_displayed_hash plan none = ok tt
  check_displayed_hash plan (some displayed) =
      guard (option_eq plan.plan_hash (some displayed)) plan_hash_mismatch

  unfoldable pub check_displayed_revision : World S → CadJob → Option String → Result (Unit {0})
  check_displayed_revision w job none = ok tt
  check_displayed_revision w job (some displayed) =
      if job.expected_revision == displayed
      then elim (h.adapter.validate_revision w.drawing job.document_id displayed) [
        | ok same ↦ guard same stale_document_revision
        | err e ↦ err e
      ]
      else err stale_document_revision

  -- The stored report, if it is this plan's.
  unfoldable pub displayed_report : World S → OperationPlan → String → Result ValidationReport
  displayed_report w plan job_id = elim (get_validation w.store job_id) [
    | none ↦ err approval_required
    | some report ↦
        if validation_matches_plan h report plan job_id then ok report else err approval_required
  ]

  -- Whether the two reports have the same digest.
  unfoldable pub same_decision : ValidationReport → ValidationReport → Result (Unit {0})
  same_decision report displayed = elim (decision_digest h report) [
    | err e ↦ err e
    | ok fresh ↦ elim (decision_digest h displayed) [
      | err e ↦ err e
      | ok shown ↦ guard (fresh == shown) approval_required
    ]
  ]

  unfoldable pub grant : CadJob → OperationPlan → String → List String → Act S (String × String)
  grant job plan approved_by warnings_acknowledged = do
    plan_hash ← read (λ w. or_raise plan.plan_hash assertion_error)
    approval_id ← fresh_id h
    at ← now h
    (approval, token) ← read (λ w.
        issue_approval h.codec job.job_id job.document_id plan_hash job.expected_revision
          approved_by h.approval_secret h.approval_ttl (sorted_set warnings_acknowledged)
          approval_id at)
    change_store (λ s. save_approval s approval)
    later ← now h
    job' ← read (λ w.
        transition_to job approved (λ j. record j { approval_id = some approval.approval_id })
          later)
    change_store (λ s. save_job s job')
    audit "APPROVAL_GRANTED" (some job.job_id) "engineer" approved_by
    give (approval.approval_id, token)

  unfoldable pub approve :
      String → String → List String → Option String → Option String → Act S (String × String)
  approve job_id approved_by warnings_acknowledged displayed_plan_hash displayed_revision = do
    job ← read (λ w. require_job w.store job_id)
    plan ← read (λ w. require_plan h w.store job_id)
    read (λ w. check_displayed_hash plan displayed_plan_hash)
    read (λ w. check_displayed_revision w job displayed_revision)
    displayed ← read (λ w. displayed_report w plan job_id)
    live ← inspect_document h (some job.document_id)
    report ← validate_plan h job_id pre_commit false
    read (λ w. same_decision report displayed)
    read (λ w. guard (gate_allows_commit report true) approval_required)
    read (λ w.
        guard (issubset (warning_rule_ids report.findings) warnings_acknowledged) approval_required)
    grant job plan approved_by warnings_acknowledged
