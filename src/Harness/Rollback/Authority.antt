-- ===== src/Harness/Rollback/Authority.antt =====
-- What HarnessService.rollback has established when it has authorized a restore.
use autocad_mechanical_harne.Base.{
  ℕ, String, ◌≡◌, ◌∙◌, sym, ap, Bool, true, false, ◌||◌, Option, some, ◌⊎◌, inl, inr, arith,
  is_some, eq_iff, [], ◌∷◌,
}
use autocad_mechanical_harne.Errors.{Result, ok, Result-cases}
use autocad_mechanical_harne.Job.{CadJob, committed, failed, is_in}
use autocad_mechanical_harne.Approval.Rollback.{
  RollbackApprovalRecord, RollbackScope, is_expired, matches, verify_rollback_claims,
  verify_rollback_approval_token, verify_rollback_recovery_token,
}
use autocad_mechanical_harne.Approval.Rollback.Verify.{Signed, verify_rollback_claims-ok}
use autocad_mechanical_harne.Harness.World.{Harness, World, DurableRollbackRecovery}
use autocad_mechanical_harne.Harness.Act.{give, with_read, with_chain}
use autocad_mechanical_harne.Harness.Rollback.{
  Restore, proven_checkpoint, check_checkpoint, check_receipt, check_recovery, authenticate,
  check_writer, prepared, authorize_job, rollback_approval_token_digest,
}

proven_checkpoint-ok :
    (job : CadJob) (id : String)
    → proven_checkpoint job ≡ ok id
    → (job.checkpoint_id ≡ some id) × (is_in job.state (committed ∷ failed ∷ []) ≡ true)
unfolding proven_checkpoint
proven_checkpoint-ok job id e = ground (arith, e)

pub check_checkpoint-ok :
    (job : CadJob) (id : String)
    → check_checkpoint job id ≡ ok tt
    → (job.checkpoint_id ≡ some id) × (is_in job.state (committed ∷ failed ∷ []) ≡ true)
unfolding check_checkpoint
check_checkpoint-ok job id e = elim (Result-cases (proven_checkpoint job)) [
  | inl (recorded, fine) ↦ proven_checkpoint-ok job id (ground (arith, fine, e, eq_iff recorded id))
  | inr (x, bad) ↦ absurd (ground (arith, bad, e))
]

module _ {S : Type 0} (h : Harness S) where
  -- A token that the service takes for a scope at a time: an expired one only where the adapter can
  -- match it with a journal.
  pub record Accepted (token : String) (scope : RollbackScope) (at : ℕ) (a : RollbackApprovalRecord)
      (candidate : Bool) : Type 0 where
    pub signed : Signed h.codec h.parse_time h.is_blank h.schema_version token h.approval_secret a
    pub schema : a.schema_version ≡ h.schema_version
    pub covers : matches a scope ≡ true
    pub expired : is_expired a at ≡ candidate
    pub journaled : (candidate ≡ false) ⊎ (h.adapter.allows_expired_checkpoint_recovery ≡ true)

  abbrev claims : String → RollbackScope → Result RollbackApprovalRecord
  claims token scope =
      verify_rollback_claims h.codec h.parse_time h.is_blank h.schema_version token
        h.approval_secret scope

  accept :
      (token : String) (scope : RollbackScope) (at : ℕ) (a : RollbackApprovalRecord)
      (candidate : Bool)
      → claims token scope ≡ ok a
      → is_expired a at ≡ candidate
      → (candidate ≡ false) ⊎ (h.adapter.allows_expired_checkpoint_recovery ≡ true)
      → Accepted token scope at a candidate
  accept token scope at a candidate known late journal =
      let (signed, set, schema, covers) =
        verify_rollback_claims-ok h.codec h.parse_time h.is_blank h.schema_version token
          h.approval_secret scope a known in
      record {
        signed = signed;
        schema = schema;
        covers = covers;
        expired = late;
        journaled = journal;
      }

  authenticate-ok :
      (receipt : Option (String × String)) (scope : RollbackScope) (token : String) (w v : World S)
      (a : RollbackApprovalRecord) (candidate : Bool)
      → authenticate h receipt scope token w ≡ (ok (a, candidate), v)
      → Accepted token scope (h.clock w.ticks) a candidate
  unfolding authenticate verify_rollback_approval_token verify_rollback_recovery_token
  authenticate-ok receipt scope token w v a candidate e = elim (Result-cases (claims token scope)) [
    | inr (x, bad) ↦ absurd (ground (arith, bad, e))
    | inl (b, fine) ↦
        let facts : (b ≡ a)
            × (is_expired b (h.clock w.ticks) ≡ candidate)
            × ((candidate ≡ false) ⊎ (h.adapter.allows_expired_checkpoint_recovery ≡ true)) =
          ground (arith, fine, e) in
        accept token scope (h.clock w.ticks) a candidate (fine ∙ ap ok facts.0)
          (ap (λ r. is_expired r (h.clock w.ticks)) (sym facts.0) ∙ facts.1) facts.2
  ]

  abbrev pub scope_of : CadJob → String → String → RollbackScope
  scope_of job checkpoint_id current_revision = record {
    job_id = job.job_id;
    document_id = job.document_id;
    checkpoint_id = checkpoint_id;
    current_revision = current_revision;
  }

  -- What the gates have established for a job: the drawing is not asked for its revision where there
  -- is an undo receipt or a known recovery, or where the token has expired.
  pub record Passed (job_id : String) (job : CadJob) (known : Bool)
      (checkpoint_id current_revision token : String) (at : ℕ) (r : Restore) : Type 0 where
    pub approval : RollbackApprovalRecord
    pub candidate : Bool
    pub accepted :
        Accepted token (scope_of job checkpoint_id current_revision) at approval candidate
    pub checkpoint : job.checkpoint_id ≡ some checkpoint_id
    pub standing : is_in job.state (committed ∷ failed ∷ []) ≡ true
    pub trusted : r.trusted ≡ (known || candidate)
    pub of_id : r.job_id ≡ job_id
    pub of_job : r.job ≡ job
    pub of_checkpoint : r.checkpoint_id ≡ checkpoint_id
    pub of_revision : r.current_revision ≡ current_revision

  pub authorize_job-Passed :
      (job_id : String) (job : CadJob) (receipt : Option (String × String))
      (recovery : Option DurableRollbackRecovery) (checkpoint_id current_revision token : String)
      (w v : World S) (r : Restore)
      → authorize_job h job_id job receipt recovery checkpoint_id current_revision token w
        ≡ (ok r, v)
      → Passed job_id job
          (is_some receipt || is_some recovery)
          checkpoint_id
          current_revision
          token
          (h.clock w.ticks)
          r
  unfolding authorize_job
  authorize_job-Passed job_id job receipt recovery checkpoint_id current_revision token w v r e =
      with_read
        (λ u.
          check_recovery h recovery receipt (scope_of job checkpoint_id current_revision)
            (rollback_approval_token_digest h token))
        _ e
        λ _ fits e₁.
          with_chain (authenticate h receipt (scope_of job checkpoint_id current_revision) token) e₁
            λ (a, candidate) u known e₂.
              with_read (λ x. check_checkpoint job checkpoint_id) _ e₂
                λ _ proven e₃.
                  with_read (λ x. check_receipt receipt current_revision) _ e₃
                    λ _ same e₄.
                      with_read
                        (check_writer h (
                          prepared h job_id job receipt recovery checkpoint_id current_revision
                            token a candidate))
                        (λ _. give _) {w = u} e₄
                        λ _ writer e₅.
                          let (place, standing) = check_checkpoint-ok job checkpoint_id proven in
                          record {
                            approval = a;
                            candidate = candidate;
                            accepted =
                                authenticate-ok receipt
                                  (scope_of job checkpoint_id current_revision) token w u a
                                  candidate known;
                            checkpoint = place;
                            standing = standing;
                            trusted = ground (arith, e₅);
                            of_id = ground (arith, e₅);
                            of_job = ground (arith, e₅);
                            of_checkpoint = ground (arith, e₅);
                            of_revision = ground (arith, e₅);
                          }
