-- ===== src/Harness/Examples/Reviews.antt =====
-- The theorems on approve and submit_spec on the small harness of Harness/Demo.
use autocad_mechanical_harne.Base.{◌≡◌, refl, ap, some, none, true, false, [], ◌∷◌, ℕ, String}
use autocad_mechanical_harne.Base.Dict
use autocad_mechanical_harne.Base.Dict.{Dict}
use autocad_mechanical_harne.Errors.{ok}
use autocad_mechanical_harne.Value.{Value, null}
use autocad_mechanical_harne.Canonical
use autocad_mechanical_harne.Job
use autocad_mechanical_harne.Plan
use autocad_mechanical_harne.Plan.{OperationPlan}
use autocad_mechanical_harne.Spec.{DrawingSpec}
use autocad_mechanical_harne.Store
use autocad_mechanical_harne.Approval.Token
use autocad_mechanical_harne.Validation
use autocad_mechanical_harne.Validation.{ValidationReport, pre_commit}
use autocad_mechanical_harne.Outcome.{DocumentSnapshot}
use autocad_mechanical_harne.Harness.World.{Harness, World}
use autocad_mechanical_harne.Harness.Demo.{harness, world, store, job, plan, token}
use autocad_mechanical_harne.Harness.Checks
use autocad_mechanical_harne.Harness.Digest
use autocad_mechanical_harne.Harness.Styles
use autocad_mechanical_harne.Harness.Lifecycle
use autocad_mechanical_harne.Harness.Approve
use autocad_mechanical_harne.Harness.Approve.Sound.{Granted, approve-Granted}

abbrev validated_job : Job.CadJob
validated_job = record job { state = Job.validated; approval_id = none }

abbrev reviewed : World ℕ
reviewed = record world {
  store = record store { jobs = record { items = ("job_1", validated_job) ∷ [] } };
}

approval_runs :
    (Approve.approve harness "job_1" "engineer" [] (some "sha256:a") (some "sha256:0") reviewed).0
    ≡ ok ("id", token)
unfolding Approve.approve Approve.check_displayed_hash Approve.check_displayed_revision
    Approve.displayed_report Approve.same_decision Approve.grant Checks.require_job
    Checks.require_plan Checks.require_current_plan_schema Checks.plan_bound
    Checks.validation_matches_plan Store.get_job Store.get_plan Store.get_validation
    Store.save_validation Store.save_approval Store.save_job Plan.verify_hash Plan.compute_hash
    Job.new_job Job.transition_to Job.assert_transition Job.allowed_transitions Validation.as_ref
    Validation.gate_allows_commit Validation.has_blocking Validation.warning_rule_ids
    Validation.issubset Validation.run Validation.derive_severity_counts Validation.rules_for
    Validation.collect Validation.count Dict.get Dict.put Dict.lookup_items Dict.insert_items
    Dict.empty Token.issue_approval Token.make_approval_token Canonical.canonical_json
    Lifecycle.inspect_document Lifecycle.validate_plan Lifecycle.with_live_findings
    Lifecycle.advance_validated Styles.missing_live_style_findings Styles.sorted_set
    Digest.decision_digest
approval_runs = refl

approve-Granted_example :
    (p : OperationPlan) × (displayed : ValidationReport) × (report : ValidationReport)
    × (live : DocumentSnapshot) × (seen : World ℕ) × (later : World ℕ) × (Checks.require_plan
          harness reviewed.store "job_1"
        ≡ ok p)
    × (Approve.check_displayed_hash harness p (some "sha256:a") ≡ ok tt)
    × (Approve.displayed_report harness reviewed p "job_1" ≡ ok displayed)
    × (Lifecycle.inspect_document harness (some "doc_1") reviewed ≡ (ok live, seen))
    × (Lifecycle.validate_plan harness "job_1" pre_commit false seen ≡ (ok report, later))
    × ((digest : String) × (Digest.decision_digest harness report ≡ ok digest)
        × (Digest.decision_digest harness displayed ≡ ok digest))
    × (Validation.gate_allows_commit report true ≡ true)
    × (Validation.issubset (Validation.warning_rule_ids report.findings) [] ≡ true)
    × Granted "job_1" "id" p.plan_hash
        (Approve.approve harness "job_1" "engineer" []
          (some "sha256:a")
          (some "sha256:0")
          reviewed).1.store
unfolding Store.get_job Dict.get Dict.lookup_items Job.new_job
approve-Granted_example =
    approve-Granted harness "job_1" "engineer" [] (some "sha256:a") (some "sha256:0") reviewed
      (Approve.approve harness "job_1" "engineer" [] (some "sha256:a") (some "sha256:0") reviewed).1
      "id" token validated_job refl refl
      (ap
        (λ r. (
          r,
          (Approve.approve harness "job_1" "engineer" [] (some "sha256:a") (some "sha256:0")
              reviewed).1,
        ))
        approval_runs)

abbrev spec : DrawingSpec
spec = record {
  schema_version = "1.13";
  spec_id = "spec_2";
  document_id = "doc_1";
  features = [];
  rest = null;
}

abbrev compiling : Harness ℕ
compiling = record harness { spec_of = λ d. ok spec; compile = λ s j r. ok (some plan) }

abbrev payload : Dict Value
payload = record { items = [] }
