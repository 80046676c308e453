-- ===== src/Harness/Commit/Established.antt =====
-- What a successful authorization by the gates of Harness/Gates has established.
use autocad_mechanical_harne.Base.{
  ap, ℕ, String, ◌≡◌, refl, sym, ◌∙◌, ◌⊎◌, inl, inr, true, false, Option, none, some, arith,
  option_eq, option_eq_iff, Bool-cases, subst, some-eq,
}
use autocad_mechanical_harne.Errors.{
  ok, guard, guard-ok, or_raise, or_raise-ok, >>=-eq-ok, with_ok, ok-eq, approval_required,
  plan_hash_mismatch, document_not_found,
}
use autocad_mechanical_harne.Job.{CadJob}
use autocad_mechanical_harne.Plan.{OperationPlan}
use autocad_mechanical_harne.Approval.{ApprovalRecord}
use autocad_mechanical_harne.Approval.Token.{verify_approval_token}
use autocad_mechanical_harne.Store.{JobStore, find_execution, get_job, get_plan}
use autocad_mechanical_harne.Harness.World.{Harness, World}
use autocad_mechanical_harne.Harness.Checks.{
  require_job, require_plan, require_current_plan_schema, plan_bound,
}
use autocad_mechanical_harne.Harness.Gates.{
  CommitCall, Authorization, recorded_approval, check_reuse, check_approval, verified_approval,
  authorize, request_digest,
}

module _ {S : Type 0} (h : Harness S) where
  -- What a successful authorization has established.
  pub check_approval-ok :
      (s : JobStore) (c : CommitCall) (job : CadJob) (at : ℕ) (a : Option ApprovalRecord)
      → check_approval h s c job at ≡ ok a
      → ((h.require_commit_approval ≡ false) × (a ≡ none))
        ⊎ ((r : ApprovalRecord) × (a ≡ some r)
            × (recorded_approval s job ≡ some r)
            × (verify_approval_token h.codec c.approval_token r h.approval_secret c.job_id
                  c.plan_hash c.expected_revision at
                ≡ ok tt))
  unfolding check_approval verified_approval
  check_approval-ok s c job at a e = elim (Bool-cases h.require_commit_approval) [
    | inr off ↦ inl (off, ground (arith, off, e))
    | inl on ↦
        let e' : verified_approval h s c job at ≡ ok a = ground (arith, on, e) in
        let (r, found, rest) =
          >>=-eq-ok (or_raise (recorded_approval s job) approval_required) _ e' in
        let (u, verified, same) =
          >>=-eq-ok
            (verify_approval_token h.codec c.approval_token r h.approval_secret c.job_id c.plan_hash
              c.expected_revision at)
            _ rest in
        inr (r, ground (arith, same), or_raise-ok _ approval_required found, verified)
  ]

  require_plan-ok :
      (s : JobStore) (id : String) (plan : OperationPlan)
      → require_plan h s id ≡ ok plan
      → (job : CadJob) × (get_plan s id ≡ some plan)
        × (get_job s id ≡ some job)
        × (plan_bound h plan job id ≡ ok true)
  unfolding require_plan require_job
  require_plan-ok s id plan e =
      with_ok (or_raise (get_plan s id) approval_required) e λ stored found e₁.
        with_ok (require_current_plan_schema h stored) e₁ λ u current e₂.
          with_ok (require_job s id) e₂ λ job known e₃.
            with_ok (plan_bound h stored job id) e₃ λ intact tested e₃'.
              with_ok (guard intact plan_hash_mismatch) e₃' λ v bound e₄.
                subst
                  (λ p.
                    (job : CadJob) × (get_plan s id ≡ some p)
                    × (get_job s id ≡ some job)
                    × (plan_bound h p job id ≡ ok true))
                  (ok-eq e₄)
                  (
                    job,
                    or_raise-ok (get_plan s id) approval_required found,
                    or_raise-ok (get_job s id) document_not_found known,
                    tested ∙ ap ok (guard-ok intact plan_hash_mismatch bound),
                  )

  -- What a successful authorization has established.
  abbrev pub Established : CommitCall → ℕ → World S → Authorization → Type 0
  Established c at w a =
      (get_job w.store c.job_id ≡ some a.job)
      × (get_plan w.store c.job_id ≡ some a.plan)
      × (plan_bound h a.plan a.job c.job_id ≡ ok true)
      × (a.plan.plan_hash ≡ some c.plan_hash)
      × (check_approval h w.store c a.job at ≡ ok a.approval)
      × (check_reuse (find_execution w.store c.job_id c.idempotency_key) a.request_digest ≡ ok tt)
      × (a.previous ≡ find_execution w.store c.job_id c.idempotency_key)
      × (request_digest h c ≡ ok a.request_digest)

  pub authorize-ok :
      (c : CommitCall) (at : ℕ) (w : World S) (a : Authorization)
      → authorize h c at w ≡ ok a
      → Established c at w a
  unfolding authorize require_job
  authorize-ok c at w a e = with_ok (require_job w.store c.job_id) e λ job known e₁.
      with_ok (require_plan h w.store c.job_id) e₁ λ plan planned e₂.
        with_ok (require_current_plan_schema h plan) e₂ λ u current e₂'.
          with_ok (request_digest h c) e₂' λ digest hashed e₃.
            with_ok (check_reuse (find_execution w.store c.job_id c.idempotency_key) digest) e₃
              λ u' unused e₄.
                with_ok (guard (option_eq plan.plan_hash (some c.plan_hash)) plan_hash_mismatch) e₄
                  λ u'' same e₅.
                    with_ok (check_approval h w.store c job at) e₅ λ approval checked e₆.
                      let found = or_raise-ok (get_job w.store c.job_id) document_not_found known in
                      let (job', plan_found, found', bound) =
                        require_plan-ok w.store c.job_id plan planned in
                      let one : job' ≡ job = some-eq (sym found' ∙ found) in
                      subst (Established c at w) (ok-eq e₆) (
                        found,
                        plan_found,
                        subst (λ j. plan_bound h plan j c.job_id ≡ ok true) one bound,
                        (option_eq_iff plan.plan_hash (some c.plan_hash)).0
                            (guard-ok _ plan_hash_mismatch same),
                        checked,
                        unused,
                        refl,
                        hashed,
                      )
