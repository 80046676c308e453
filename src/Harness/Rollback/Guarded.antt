-- ===== src/Harness/Rollback/Guarded.antt =====
-- What a restore of HarnessService.rollback presupposes.
use autocad_mechanical_harne.Base.{
  String, ◌<>◌, ◌≡◌, ◌∙◌, sym, ap, subst, Bool, true, false, ◌||◌, Option, some, ◌⊎◌, inl, inr,
  arith, is_some, [], ◌∷◌, Bool-cases,
}
use autocad_mechanical_harne.Base.Dict
use autocad_mechanical_harne.Errors.{Result, ok, Result-cases, or_raise-ok, document_not_found}
use autocad_mechanical_harne.Job.{CadJob, committed, failed, is_in}
use autocad_mechanical_harne.Approval.Rollback.{RollbackApprovalRecord, RollbackScope}
use autocad_mechanical_harne.Outcome.{RollbackResult}
use autocad_mechanical_harne.Store.{get_job}
use autocad_mechanical_harne.Harness.World.{Harness, World, DurableRollbackRecovery}
use autocad_mechanical_harne.Harness.Act.{Keeps, chain-cases, with_read}
use autocad_mechanical_harne.Harness.Checks.{require_job}
use autocad_mechanical_harne.Harness.Frame.{drawing, take-drawing, let_go-drawing}
use autocad_mechanical_harne.Harness.Lock.{hold, take}
use autocad_mechanical_harne.Harness.Rollback.{
  Restore, authenticate, check_current, restore, authorize_job, authorize_rollback, rollback,
}
use autocad_mechanical_harne.Harness.Rollback.Authority.{
  Accepted, scope_of, Passed, authorize_job-Passed,
}

module _ {S : Type 0} (h : Harness S) where
  -- What stands behind a restore. `trusted` is that the job has a session's undo receipt or a known
  -- recovery, or that the token has expired.
  pub record Entitled (job_id checkpoint_id current_revision token : String) (w : World S)
      : Type 0 where
    pub job : CadJob
    pub approval : RollbackApprovalRecord
    pub candidate : Bool
    pub found : get_job w.store job_id ≡ some job
    pub accepted :
        Accepted h token
          (scope_of h job checkpoint_id current_revision)
          (h.clock w.ticks)
          approval
          candidate
    pub checkpoint : job.checkpoint_id ≡ some checkpoint_id
    pub standing : is_in job.state (committed ∷ failed ∷ []) ≡ true
    pub current :
        ((is_some (Dict.get w.undo_rollback_receipts job_id)
            || is_some (Dict.get w.durable_rollback_recoveries job_id)
            || candidate)
          ≡ true)
        ⊎ (h.adapter.validate_revision w.drawing job.document_id current_revision ≡ ok true)

  authenticate-drawing :
      (receipt : Option (String × String)) (scope : RollbackScope) (token : String)
      → Keeps drawing (authenticate h receipt scope token)
  unfolding authenticate
  authenticate-drawing receipt scope token w = ground arith

  authorize_job-drawing :
      (job_id : String) (job : CadJob) (receipt : Option (String × String))
      (recovery : Option DurableRollbackRecovery) (checkpoint_id current_revision token : String)
      → Keeps drawing
          (authorize_job h job_id job receipt recovery checkpoint_id current_revision token)
  unfolding authorize_job
  authorize_job-drawing job_id job receipt recovery checkpoint_id current_revision token w =
      grind (arith, authenticate-drawing)

  pub authorize_rollback-drawing :
      (job_id checkpoint_id current_revision token : String)
      → Keeps drawing (authorize_rollback h job_id checkpoint_id current_revision token)
  unfolding authorize_rollback
  authorize_rollback-drawing job_id checkpoint_id current_revision token w =
      grind (arith, authorize_job-drawing)

  -- A restore does nothing to the drawing unless it is trusted or the revision is current.
  restore-current :
      (r : Restore) (w : World S)
      → ((restore h r w).1.drawing ≡ w.drawing)
        ⊎ (r.trusted ≡ true)
        ⊎ (h.adapter.validate_revision w.drawing r.job.document_id r.current_revision ≡ ok true)
  unfolding restore check_current
  restore-current r w = elim (Bool-cases r.trusted) [
    | inl t ↦ inr (inl t)
    | inr u ↦
        elim (Result-cases
          (h.adapter.validate_revision w.drawing r.job.document_id r.current_revision)) [
            | inl (true, fine) ↦ inr (inr fine)
            | inl (false, stale) ↦ inl (ground (arith, u, stale))
            | inr (x, bad) ↦ inl (ground (arith, u, bad))
          ]
  ]

  held-current :
      (r : Restore) (owner : String) (w : World S)
      → ((hold h r.job.document_id owner (restore h r) w).1.drawing ≡ w.drawing)
        ⊎ (r.trusted ≡ true)
        ⊎ (h.adapter.validate_revision w.drawing r.job.document_id r.current_revision ≡ ok true)
  unfolding hold
  held-current r owner w =
      let d = r.job.document_id in
      let kept = take-drawing h d owner w in
      let v = (take h d owner w).1 in
      elim (Result-cases (take h d owner w).0) [
        | inr (x, bad) ↦ inl (ground (arith, bad, kept))
        | inl (u, taken) ↦ elim (restore-current r v) [
          | inr (inl t) ↦ inr (inl t)
          | inr (inr fine) ↦
              inr (
                inr
                  (ap (λ s. h.adapter.validate_revision s d r.current_revision) (sym kept) ∙ fine))
          | inl same ↦ inl (ground (arith, taken, same, kept, let_go-drawing h (restore h r v).1))
        ]
      ]

  pub authorized-Passed :
      (job_id checkpoint_id current_revision token : String) (w v : World S) (r : Restore)
      → authorize_rollback h job_id checkpoint_id current_revision token w ≡ (ok r, v)
      → (get_job w.store job_id ≡ some r.job)
        × Passed h job_id r.job
            (is_some (Dict.get w.undo_rollback_receipts job_id)
              || is_some (Dict.get w.durable_rollback_recoveries job_id))
            checkpoint_id
            current_revision
            token
            (h.clock w.ticks)
            r
  unfolding authorize_rollback require_job
  authorized-Passed job_id checkpoint_id current_revision token w v r e =
      with_read (λ u. require_job u.store job_id) _ e
        λ job found e₁.
          let passed =
            authorize_job-Passed h job_id job (Dict.get w.undo_rollback_receipts job_id)
              (Dict.get w.durable_rollback_recoveries job_id) checkpoint_id current_revision token w
              v r e₁ in
          (
            or_raise-ok _ document_not_found found ∙ ap some (sym passed.of_job),
            subst
                (λ j.
                  Passed h job_id j
                    (is_some (Dict.get w.undo_rollback_receipts job_id)
                      || is_some (Dict.get w.durable_rollback_recoveries job_id))
                    checkpoint_id current_revision token (h.clock w.ticks) r)
                (sym passed.of_job) passed,
          )

  entitle :
      (job_id checkpoint_id current_revision token : String) (w : World S) (r : Restore)
      → get_job w.store job_id ≡ some r.job
      → Passed h job_id r.job
          (is_some (Dict.get w.undo_rollback_receipts job_id)
            || is_some (Dict.get w.durable_rollback_recoveries job_id))
          checkpoint_id
          current_revision
          token
          (h.clock w.ticks)
          r
      → (r.trusted ≡ true)
        ⊎ (h.adapter.validate_revision w.drawing r.job.document_id current_revision ≡ ok true)
      → Entitled job_id checkpoint_id current_revision token w
  entitle job_id checkpoint_id current_revision token w r found passed current = record {
    job = r.job;
    approval = passed.approval;
    candidate = passed.candidate;
    found = found;
    accepted = passed.accepted;
    checkpoint = passed.checkpoint;
    standing = passed.standing;
    current = elim current [
      | inl t ↦ inl (ground (arith, passed.trusted, t))
      | inr fine ↦ inr fine
    ];
  }

  -- The rest of a rollback after its gates, by its effect on the drawing.
  authorized-Entitled :
      (job_id checkpoint_id current_revision token owner : String) (w v : World S) (r : Restore)
      → authorize_rollback h job_id checkpoint_id current_revision token w ≡ (ok r, v)
      → ((hold h r.job.document_id owner (restore h r) v).1.drawing ≡ w.drawing)
        ⊎ Entitled job_id checkpoint_id current_revision token w
  authorized-Entitled job_id checkpoint_id current_revision token owner w v r e =
      let (found, passed) = authorized-Passed job_id checkpoint_id current_revision token w v r e in
      let same : v.drawing ≡ w.drawing =
        ap (λ o. o.1.drawing) (sym e)
        ∙ authorize_rollback-drawing job_id checkpoint_id current_revision token w in
      let entitled = entitle job_id checkpoint_id current_revision token w r found passed in
      elim (held-current r owner v) [
        | inl kept ↦ inl (kept ∙ same)
        | inr (inl t) ↦ inr (entitled (inl t))
        | inr (inr fine) ↦ inr (
            entitled (
              inr (
                ap (λ s. h.adapter.validate_revision s r.job.document_id current_revision)
                  (sym same)
                ∙ ap (h.adapter.validate_revision v.drawing r.job.document_id)
                    (sym passed.of_revision)
                ∙ fine)))
      ]

  -- A rollback leaves the drawing exactly as it was, unless all of this holds when it is called: the
  -- job stands at COMMITTED or FAILED and its recorded checkpoint is the one asked for; the token was
  -- signed under the service's secret for a record of the current schema with exactly this job, its
  -- document, this checkpoint and this revision; the record has not expired, or the adapter can match
  -- an expired token with its journal; and the drawing has this revision, where the job has neither a
  -- session's undo receipt nor a known recovery and the token has not expired.
  pub rollback-Entitled :
      (job_id checkpoint_id current_revision token : String) (w : World S)
      → ((rollback h job_id checkpoint_id current_revision token w).1.drawing ≡ w.drawing)
        ⊎ Entitled job_id checkpoint_id current_revision token w
  unfolding rollback
  rollback-Entitled job_id checkpoint_id current_revision token w =
      chain-cases Q (authorize_rollback h job_id checkpoint_id current_revision token) _ w
        (λ r v e.
          chain-cases Q (hold h r.job.document_id ("rollback:" <> job_id) (restore h r)) _ v
            (λ result u held.
              elim (authorized-Entitled job_id checkpoint_id current_revision token
                ("rollback:" <> job_id) w v r e) [
                  | inl kept ↦ inl (ap (λ o. o.1.drawing) (sym held) ∙ kept)
                  | inr entitled ↦ inr entitled
                ])
            (λ x u held.
              elim (authorized-Entitled job_id checkpoint_id current_revision token
                ("rollback:" <> job_id) w v r e) [
                  | inl kept ↦ inl (ap (λ o. o.1.drawing) (sym held) ∙ kept)
                  | inr entitled ↦ inr entitled
                ]))
        (λ x v e. inl (
          ap (λ o. o.1.drawing) (sym e)
          ∙ authorize_rollback-drawing job_id checkpoint_id current_revision token w))
    where
      Q : Result RollbackResult × World S → Type 0
      Q out = (out.1.drawing ≡ w.drawing) ⊎ Entitled job_id checkpoint_id current_revision token w
