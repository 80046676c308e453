-- ===== src/Harness/Commit/Guarded.antt =====
-- When HarnessService._commit lets the adapter write.
use autocad_mechanical_harne.Base.{
  ℕ, suc, ◌≡◌, refl, sym, ◌∙◌, ◌⊎◌, inl, inr, true, false, none, some, arith, subst, Option,
  Option-cases,
}
use autocad_mechanical_harne.Errors.{Result, ok}
use autocad_mechanical_harne.Job.{CadJob, approved}
use autocad_mechanical_harne.Plan.{OperationPlan}
use autocad_mechanical_harne.Validation.{
  ValidationReport, gate_allows_commit, warning_rule_ids, issubset,
}
use autocad_mechanical_harne.Approval.{ApprovalRecord}
use autocad_mechanical_harne.Approval.Token.{verify_approval_token}
use autocad_mechanical_harne.Outcome.{CommitResult}
use autocad_mechanical_harne.Store.{
  RemediationResult, find_execution, get_job, get_plan, get_validation,
}
use autocad_mechanical_harne.Harness.World.{Harness, World}
use autocad_mechanical_harne.Harness.Act.{read-cases}
use autocad_mechanical_harne.Harness.Checks.{plan_bound, validation_matches_plan}
use autocad_mechanical_harne.Harness.Gates.{
  CommitCall, Authorization, recorded_approval, check_approval, authorize, acknowledged,
}
use autocad_mechanical_harne.Harness.Commit.{commit, replay_or_commit, cache}
use autocad_mechanical_harne.Harness.Commit.Established.{
  Established, check_approval-ok, authorize-ok,
}
use autocad_mechanical_harne.Harness.Commit.Evidence.{Clean, Fresh, Evident, first_commit-Evident}

module _ {S : Type 0} (h : Harness S) where
  -- What holds of a commit by which the drawing may change.
  pub record Authorized (c : CommitCall) (w : World S) : Type 0 where
    pub job : CadJob
    pub plan : OperationPlan
    pub report : ValidationReport
    pub fresh : ValidationReport
    pub job_found : get_job w.store c.job_id ≡ some job
    pub job_approved : job.state ≡ approved
    pub plan_found : get_plan w.store c.job_id ≡ some plan
    pub plan_hash : plan.plan_hash ≡ some c.plan_hash
    pub plan_intact : plan_bound h plan job c.job_id ≡ ok true
    pub approval :
        (h.require_commit_approval ≡ false)
        ⊎ ((a : ApprovalRecord) × (recorded_approval w.store job ≡ some a)
            × (verify_approval_token h.codec c.approval_token a h.approval_secret c.job_id
                  c.plan_hash c.expected_revision
                  (h.clock w.ticks)
                ≡ ok tt)
            × (issubset (warning_rule_ids report.findings) a.warnings_acknowledged ≡ true)
            × (issubset (warning_rule_ids fresh.findings) a.warnings_acknowledged ≡ true))
    pub report_found : get_validation w.store c.job_id ≡ some report
    pub report_matches : validation_matches_plan h report plan c.job_id ≡ true
    pub report_clean : gate_allows_commit report true ≡ true
    pub fresh_computed :
        (r : Option RemediationResult) × Fresh h c job
          (cache h c.job_id r (record w { ticks = suc w.ticks }))
          fresh
    pub fresh_matches : validation_matches_plan h fresh plan c.job_id ≡ true
    pub fresh_clean : gate_allows_commit fresh true ≡ true
    pub key_unused : find_execution w.store c.job_id c.idempotency_key ≡ none
    pub revision_current :
        h.adapter.validate_revision w.drawing job.document_id c.expected_revision ≡ ok true

  -- An approval's part of what is established.
  approval-of :
      (c : CommitCall) (a : Authorization) (w : World S) (at : ℕ) (report fresh : ValidationReport)
      → check_approval h w.store c a.job at ≡ ok a.approval
      → Clean h c a report
      → Clean h c a fresh
      → (h.require_commit_approval ≡ false)
        ⊎ ((r : ApprovalRecord) × (recorded_approval w.store a.job ≡ some r)
            × (verify_approval_token h.codec c.approval_token r h.approval_secret c.job_id
                  c.plan_hash c.expected_revision at
                ≡ ok tt)
            × (issubset (warning_rule_ids report.findings) r.warnings_acknowledged ≡ true)
            × (issubset (warning_rule_ids fresh.findings) r.warnings_acknowledged ≡ true))
  approval-of c a w at report fresh e clean fine =
      elim (check_approval-ok h w.store c a.job at a.approval e) [
        | inl (off, none_) ↦ inl off
        | inr (r, same, found, verified) ↦ inr (
          r,
          found,
          verified,
          subst (λ o. issubset (warning_rule_ids report.findings) (acknowledged o report) ≡ true)
              same clean.2,
          subst (λ o. issubset (warning_rule_ids fresh.findings) (acknowledged o fresh) ≡ true) same
              fine.2,
        )
      ]

  first_use :
      (c : CommitCall) (a : Authorization) (w : World S)
      → a.previous ≡ none
      → a.previous ≡ find_execution w.store c.job_id c.idempotency_key
      → find_execution w.store c.job_id c.idempotency_key ≡ none
  first_use c a w e same = sym same ∙ e

  assemble :
      (c : CommitCall) (a : Authorization) (w : World S)
      → Established h c (h.clock w.ticks) w a
      → a.previous ≡ none
      → Evident h c a (record w { ticks = suc w.ticks })
      → Authorized c w
  assemble c a w (job, plan, bound, hash, approval, unused, previous, digest) fresh_key
        (report, fresh, found, computed, clean, fine, current, ready) =
      record {
        job = a.job;
        plan = a.plan;
        report = report;
        fresh = fresh;
        job_found = job;
        job_approved = ready;
        plan_found = plan;
        plan_hash = hash;
        plan_intact = bound;
        approval = approval-of c a w (h.clock w.ticks) report fresh approval clean fine;
        report_found = found;
        report_matches = clean.0;
        report_clean = clean.1;
        fresh_computed = computed;
        fresh_matches = fine.0;
        fresh_clean = fine.1;
        key_unused = first_use c a w fresh_key previous;
        revision_current = current;
      }

  -- A commit leaves the drawing exactly as it was, unless all of this holds when it is called: the job
  -- stands at APPROVED; its stored plan has the submitted hash and is intact; where approval is
  -- required, the token verifies for the job's recorded approval and exactly this job, plan and
  -- revision at the present time, and the approval acknowledges every warning; the stored
  -- report is this plan's and allows the commit, and so does the PRE_COMMIT report that the engine and
  -- the live styles give when the drawing is inspected and the plan validated once more, in the world
  -- of the call but for the clock and the cached remediation; the idempotency key has no execution
  -- yet; and the drawing still has the expected revision.
  pub commit-Authorized :
      (c : CommitCall) (w : World S) → ((commit h c w).1.drawing ≡ w.drawing) ⊎ Authorized c w
  unfolding commit replay_or_commit
  commit-Authorized c w =
      read-cases Q (authorize h c (h.clock w.ticks)) (replay_or_commit h c) v
        (λ a e.
          let known = authorize-ok h c (h.clock w.ticks) v a e in
          elim (Option-cases a.previous) [
            | inr (p, same) ↦ inl (ground (arith, same))
            | inl fresh ↦ elim (first_commit-Evident h c a v) [
              | inl kept ↦ inl (ground (arith, fresh, kept))
              | inr evident ↦ inr (assemble c a w known fresh evident)
            ]
          ])
        (λ x. inl refl)
    where
      v : World S
      v = record w { ticks = suc w.ticks }

      Q : Result CommitResult × World S → Type 0
      Q out = (out.1.drawing ≡ w.drawing) ⊎ Authorized c w
