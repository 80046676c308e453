-- ===== src/Harness/Approve/Sound.antt =====
-- What an approval that HarnessService.approve grants has been granted for.
use autocad_mechanical_harne.Base.{
  arith, ℕ, ◌+◌, String, ◌==◌, ◌≡◌, sym, ◌∙◌, ap, subst, true, false, Option, some, List, eq_iff,
  some-eq, inl, inr,
}
use autocad_mechanical_harne.Base.Dict
use autocad_mechanical_harne.Base.Dict.{get-put_self}
use autocad_mechanical_harne.Errors.{
  ok, guard, guard-ok, or_raise, or_raise-ok, ok-eq, approval_required, assertion_error, with_ok,
  document_not_found, Result-cases,
}
use autocad_mechanical_harne.Job.{CadJob, approved, transition_to}
use autocad_mechanical_harne.Job.Workflow.{transition_to-ok}
use autocad_mechanical_harne.Plan.{OperationPlan}
use autocad_mechanical_harne.Validation.{
  ValidationReport, pre_commit, gate_allows_commit, warning_rule_ids, issubset,
}
use autocad_mechanical_harne.Outcome.{DocumentSnapshot}
use autocad_mechanical_harne.Approval.{ApprovalRecord}
use autocad_mechanical_harne.Approval.Token.{issue_approval, make_approval_token}
use autocad_mechanical_harne.Store.{JobStore, get_job, get_approval, save_job, save_approval}
use autocad_mechanical_harne.Harness.World.{Harness, World}
use autocad_mechanical_harne.Harness.Act.{read, with_chain, with_read}
use autocad_mechanical_harne.Harness.Checks.{require_job, require_plan}
use autocad_mechanical_harne.Harness.Digest.{decision_digest}
use autocad_mechanical_harne.Harness.Styles.{sorted_set}
use autocad_mechanical_harne.Harness.Lifecycle.{inspect_document, validate_plan}
use autocad_mechanical_harne.Harness.Approve.{
  check_displayed_hash, check_displayed_revision, displayed_report, same_decision, grant, approve,
}

-- An approval that covers a plan hash in a store, and a job that has it.
abbrev pub Granted : String → String → Option String → JobStore → Type 0
Granted job_id id plan_hash s =
    (a : ApprovalRecord) × (job : CadJob) × (get_approval s id ≡ some a)
    × (some a.plan_hash ≡ plan_hash)
    × (get_job s job_id ≡ some job)
    × (job.state ≡ approved)
    × (job.approval_id ≡ some id)
    × (a.job_id ≡ job_id)
    × (a.document_id ≡ job.document_id)
    × (a.expected_revision ≡ job.expected_revision)

save-Granted :
    (a : ApprovalRecord) (j : CadJob) (job_id : String) (hash : Option String) (s : JobStore)
    → some a.plan_hash ≡ hash
    → j.job_id ≡ job_id
    → j.state ≡ approved
    → j.approval_id ≡ some a.approval_id
    → a.job_id ≡ job_id
    → a.document_id ≡ j.document_id
    → a.expected_revision ≡ j.expected_revision
    → Granted job_id a.approval_id hash (save_job (save_approval s a) j)
unfolding save_job save_approval get_job get_approval
save-Granted a j job_id hash s of_hash own state by_id of_job of_document of_revision = (
  a,
  j,
  get-put_self s.approvals a.approval_id a,
  of_hash,
  subst (λ i. Dict.get (Dict.put s.jobs j.job_id j) i ≡ some j) own
      (get-put_self s.jobs j.job_id j),
  state,
  by_id,
  of_job,
  of_document,
  of_revision,
)

module _ {S : Type 0} (h : Harness S) where
  issued :
      (job_id document_id plan_hash revision by secret id token : String) (ttl at : ℕ)
      (warnings : List String) (a : ApprovalRecord)
      → issue_approval h.codec job_id document_id plan_hash revision by secret ttl warnings id at
        ≡ ok (a, token)
      → (a.approval_id ≡ id)
        × (a.job_id ≡ job_id)
        × (a.document_id ≡ document_id)
        × (a.plan_hash ≡ plan_hash)
        × (a.expected_revision ≡ revision)
  unfolding issue_approval
  issued job_id document_id plan_hash revision by secret id token ttl at warnings a e =
      let approval : ApprovalRecord = record {
        approval_id = id;
        job_id = job_id;
        document_id = document_id;
        expected_revision = revision;
        plan_hash = plan_hash;
        approved_by = by;
        approved_at = at;
        expires_at = at + ttl;
        warnings_acknowledged = warnings;
      } in
      with_ok (make_approval_token h.codec approval secret) e λ t made e₁.
        let same = ap (λ p. p.0) (ok-eq e₁) in
        (
          sym (ap (λ x. x.approval_id) same),
          sym (ap (λ x. x.job_id) same),
          sym (ap (λ x. x.document_id) same),
          sym (ap (λ x. x.plan_hash) same),
          sym (ap (λ x. x.expected_revision) same),
        )

  grant-Granted :
      (job : CadJob) (plan : OperationPlan) (by : String) (warnings : List String) (w v : World S)
      (id token : String)
      → grant h job plan by warnings w ≡ (ok (id, token), v)
      → Granted job.job_id id plan.plan_hash v.store
  unfolding grant
  grant-Granted job plan by warnings w v id token e =
      with_chain (read (λ x. or_raise plan.plan_hash assertion_error)) e λ hash w₁ e₁ r₁.
        with_chain
          (read (λ x.
            issue_approval h.codec job.job_id job.document_id hash job.expected_revision by
              h.approval_secret h.approval_ttl (sorted_set warnings) (h.new_id w₁.ids)
              (h.clock w₁.ticks)))
          r₁
          λ p w₂ e₂ r₂.
            with_chain
              (read (λ x.
                transition_to job approved (λ j. record j { approval_id = some p.0.approval_id })
                  (h.clock w₂.ticks)))
              r₂
              λ j w₃ e₃ r₃.
                let (a, t) = p in
                let (own, of_job, of_document, of_hash, of_revision) =
                  issued job.job_id job.document_id hash job.expected_revision by h.approval_secret
                    (h.new_id w₁.ids) t h.approval_ttl (h.clock w₁.ticks) (sorted_set warnings) a
                    (ap (λ x. x.0) e₂) in
                let (step, same) =
                  transition_to-ok job j _ approved (h.clock w₂.ticks) (ap (λ x. x.0) e₃) in
                let result : a.approval_id ≡ id = ap (λ x. x.0) (ok-eq (ap (λ x. x.0) r₃)) in
                let stored : save_job (save_approval w₂.store a) j ≡ v.store =
                  ap (λ s. save_job s j) (ap (λ x. x.1.store) e₃) ∙ ap (λ x. x.1.store) r₃ in
                subst (λ i. Granted job.job_id i plan.plan_hash v.store) result
                  (subst (λ s. Granted job.job_id a.approval_id plan.plan_hash s) stored
                    (save-Granted a j job.job_id plan.plan_hash w₂.store
                      (ap some of_hash
                        ∙ sym (or_raise-ok plan.plan_hash assertion_error (ap (λ x. x.0) e₁)))
                      (ap (λ x. x.job_id) same) (ap (λ x. x.state) same)
                      (ap (λ x. x.approval_id) same) of_job
                      (of_document ∙ sym (ap (λ x. x.document_id) same))
                      (of_revision ∙ sym (ap (λ x. x.expected_revision) same))))

  same_decision-ok :
      (report displayed : ValidationReport)
      → same_decision h report displayed ≡ ok tt
      → (digest : String) × (decision_digest h report ≡ ok digest)
        × (decision_digest h displayed ≡ ok digest)
  unfolding same_decision
  same_decision-ok report displayed e = elim (Result-cases (decision_digest h report)) [
    | inr (x, bad) ↦ absurd (ground (arith, bad, e))
    | inl (fresh, computed) ↦ elim (Result-cases (decision_digest h displayed)) [
      | inr (x, bad) ↦ absurd (ground (arith, computed, bad, e))
      | inl (shown, known) ↦
          let agree : guard (fresh == shown) approval_required ≡ ok tt =
            ground (arith, computed, known, e) in
          (
            fresh,
            computed,
            known ∙ ap ok (sym ((eq_iff _ _).0 (guard-ok _ approval_required agree))),
          )
    ]
  ]

  -- An approval that is granted was reviewed: the displayed hash, where one is given, is the plan's; the
  -- PRE_COMMIT validation that is repeated on the live drawing, inspected at this call, has the displayed
  -- decision, allows a commit, and all its warnings are acknowledged; and afterwards the job stands at APPROVED with a stored approval of
  -- exactly this plan's hash, the job's document and its revision. (The job is stored under its own
  -- identifier.)
  pub approve-Granted :
      (id by : String) (warnings : List String) (hash revision : Option String) (w v : World S)
      (approval_id token : String) (job : CadJob)
      → get_job w.store id ≡ some job
      → job.job_id ≡ id
      → approve h id by warnings hash revision w ≡ (ok (approval_id, token), v)
      → (plan : OperationPlan) × (displayed : ValidationReport) × (report : ValidationReport)
        × (live : DocumentSnapshot) × (seen : World S) × (later : World S) × (require_plan h w.store
              id
            ≡ ok plan)
        × (check_displayed_hash h plan hash ≡ ok tt)
        × (displayed_report h w plan id ≡ ok displayed)
        × (inspect_document h (some job.document_id) w ≡ (ok live, seen))
        × (validate_plan h id pre_commit false seen ≡ (ok report, later))
        × ((digest : String) × (decision_digest h report ≡ ok digest)
            × (decision_digest h displayed ≡ ok digest))
        × (gate_allows_commit report true ≡ true)
        × (issubset (warning_rule_ids report.findings) warnings ≡ true)
        × Granted id approval_id plan.plan_hash v.store
  unfolding approve require_job
  approve-Granted id by warnings hash revision w v approval_id token job found own e =
      with_read (λ x. require_job x.store id) _ e
        λ job' known r₁.
          with_read (λ x. require_plan h x.store id) _ r₁
            λ plan planned r₂.
              with_read (λ x. check_displayed_hash h plan hash) _ r₂
                λ u shown r₃.
                  with_read (λ x. check_displayed_revision h x job' revision) _ r₃
                    λ u' current r₄.
                      with_read (λ x. displayed_report h x plan id) _ r₄
                        λ displayed reviewed r₅.
                          with_chain (inspect_document h (some job'.document_id)) r₅
                            λ live w₁ e₁ r₆.
                              with_chain (validate_plan h id pre_commit false) r₆ λ report w₂ e₂ r₇.
                                with_read (λ x. same_decision h report displayed) _ r₇
                                  λ u₁ agree r₈.
                                    with_read
                                      (λ x.
                                        guard (gate_allows_commit report true) approval_required)
                                      _ r₈
                                      λ u₂ clean r₉.
                                        with_read
                                          (λ x.
                                            guard
                                              (issubset (warning_rule_ids report.findings) warnings)
                                              approval_required)
                                          _ r₉
                                          λ u₃ acknowledged granted.
                                            let mine : job' ≡ job = some-eq (
                                              sym (
                                                or_raise-ok (get_job w.store id) document_not_found
                                                  known)
                                              ∙ found) in
                                            let id_of : job'.job_id ≡ id =
                                              ap (λ j. j.job_id) mine ∙ own in
                                            (
                                              plan,
                                              displayed,
                                              report,
                                              live,
                                              w₁,
                                              w₂,
                                              planned,
                                              shown,
                                              reviewed,
                                              subst
                                                  (λ j.
                                                    inspect_document h (some j.document_id) w
                                                    ≡ (ok live, w₁))
                                                  mine e₁,
                                              e₂,
                                              same_decision-ok report displayed agree,
                                              guard-ok _ approval_required clean,
                                              guard-ok _ approval_required acknowledged,
                                              subst
                                                  (λ i.
                                                    Granted i approval_id plan.plan_hash v.store)
                                                  id_of
                                                  (grant-Granted job' plan by warnings w₂ v
                                                    approval_id token granted),
                                            )
