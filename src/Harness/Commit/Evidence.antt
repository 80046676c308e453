-- ===== src/Harness/Commit/Evidence.antt =====
-- The evidence that stands behind a first commit: its stored and its fresh report, the revision of the
-- drawing, and the job's state.
use autocad_mechanical_harne.Base.{
  String, ◌≡◌, refl, sym, ◌∙◌, ap, ◌⊎◌, inl, inr, true, Option, none, some, arith, not, subst,
}
use autocad_mechanical_harne.Errors.{
  Result, ok, err, guard, guard-ok, or_raise, or_raise-ok, with_ok, Result-cases, approval_required,
  unknown_commit_state, stale_document_revision,
}
use autocad_mechanical_harne.Job.{
  CadJob, JobState, approved, committing, transition_to, no_updates, is_state, unknown_commit,
}
use autocad_mechanical_harne.Job.Workflow.{Step, start as step_start, transition_to-ok}
use autocad_mechanical_harne.Validation.{
  ValidationReport, pre_commit, gate_allows_commit, warning_rule_ids, issubset,
}
use autocad_mechanical_harne.Outcome.{CommitResult, DocumentSnapshot}
use autocad_mechanical_harne.Store.{RemediationResult, get_validation}
use autocad_mechanical_harne.Harness.World.{Harness, World}
use autocad_mechanical_harne.Harness.Act.{
  Keeps, ◌>>◌ as then_, with_chain, chain-cases, read-cases, read,
}
use autocad_mechanical_harne.Harness.Checks.{validation_matches_plan, require_writer_compatible}
use autocad_mechanical_harne.Harness.Gates.{
  CommitCall, Authorization, acknowledged, report_allows, standing, check_revision,
}
use autocad_mechanical_harne.Harness.Lock.{hold}
use autocad_mechanical_harne.Harness.Finish.{Ticket, start}
use autocad_mechanical_harne.Harness.Frame.{
  drawing, take-drawing, let_go-drawing, inspect_document-drawing, validate_plan-drawing,
}
use autocad_mechanical_harne.Harness.Lifecycle.{inspect_document, validate_plan}
use autocad_mechanical_harne.Harness.Commit.{first_commit, recheck, guarded_write, ticket, cache}

only_approved : {s : JobState} → Step s committing → s ≡ approved
only_approved step_start = refl

module _ {S : Type 0} (h : Harness S) where
  start-drawing :
      (t : Ticket) (w : World S) → ((start h t w).1.drawing ≡ w.drawing) ⊎ (t.job.state ≡ approved)
  unfolding start
  start-drawing t w =
      elim (Result-cases (transition_to t.job committing no_updates (h.clock w.ticks))) [
        | inl (job, e) ↦
            inr (
              only_approved
                (transition_to-ok t.job job no_updates committing (h.clock w.ticks) e).0)
        | inr (x, e) ↦ inl (ground (arith, e))
      ]

  hold-drawing :
      (d o : String) (t : Ticket) (w : World S)
      → ((hold h d o (start h t) w).1.drawing ≡ w.drawing) ⊎ (t.job.state ≡ approved)
  unfolding hold
  hold-drawing d o t w = grind (arith, take-drawing h d o w, start-drawing, let_go-drawing)

  -- What the evidence of a report comes to.
  abbrev pub Clean : CommitCall → Authorization → ValidationReport → Type 0
  Clean c a r =
      (validation_matches_plan h r a.plan c.job_id ≡ true)
      × (gate_allows_commit r true ≡ true)
      × (issubset (warning_rule_ids r.findings) (acknowledged a.approval r) ≡ true)

  report_allows-Clean :
      (c : CommitCall) (a : Authorization) (r : ValidationReport)
      → report_allows h c a r ≡ true
      → Clean c a r
  unfolding report_allows
  report_allows-Clean c a r e = (ground (arith, e), ground (arith, e), ground (arith, e))

  -- A report that a commit computes itself, in a world: the drawing is inspected, and then the job's plan
  -- is validated for PRE_COMMIT with what was seen.
  abbrev pub Fresh : CommitCall → CadJob → World S → ValidationReport → Type 0
  Fresh c job w fresh =
      (snapshot : DocumentSnapshot) × (seen : World S) × (later : World S) × (inspect_document h
          (some job.document_id) w
        ≡ (ok snapshot, seen))
      × (validate_plan h c.job_id pre_commit true seen ≡ (ok fresh, later))

  -- What has held of a first commit by which the drawing may have changed.
  abbrev pub Evident : CommitCall → Authorization → World S → Type 0
  Evident c a w =
      (report : ValidationReport) × (fresh : ValidationReport) × (get_validation w.store c.job_id
        ≡ some report)
      × ((r : Option RemediationResult) × Fresh c a.job (cache h c.job_id r w) fresh)
      × Clean c a report
      × Clean c a fresh
      × (h.adapter.validate_revision w.drawing a.job.document_id c.expected_revision ≡ ok true)
      × (a.job.state ≡ approved)

  standing-Clean :
      (c : CommitCall) (a : Authorization) (w : World S) (r : Option RemediationResult)
      → standing h c a w ≡ ok r
      → (report : ValidationReport) × (get_validation w.store c.job_id ≡ some report)
        × Clean c a report
  unfolding standing
  standing-Clean c a w r e =
      with_ok (guard (not (is_state a.job.state unknown_commit)) unknown_commit_state) e λ u k e₁.
        with_ok (or_raise (get_validation w.store c.job_id) approval_required) e₁ λ report found e₂.
          with_ok (guard (report_allows h c a report) approval_required) e₂ λ v allowed e₃. (
            report,
            or_raise-ok _ approval_required found,
            report_allows-Clean c a report (guard-ok _ approval_required allowed),
          )

  check_revision-ok :
      (c : CommitCall) (a : Authorization) (w : World S)
      → check_revision h c a w ≡ ok tt
      → h.adapter.validate_revision w.drawing a.job.document_id c.expected_revision ≡ ok true
  unfolding check_revision
  check_revision-ok c a w e =
      with_ok (h.adapter.validate_revision w.drawing a.job.document_id c.expected_revision) e
        λ same read_ e₁. read_ ∙ ap ok (guard-ok same stale_document_revision e₁)

  recheck-drawing : (c : CommitCall) (a : Authorization) → Keeps drawing (recheck h c a)
  unfolding recheck
  recheck-drawing c a w = grind (
    arith,
    inspect_document-drawing h (some a.job.document_id) w,
    validate_plan-drawing h c.job_id pre_commit true,
  )

  recheck-Clean :
      (c : CommitCall) (a : Authorization) (w v : World S) (u : Unit {0})
      → recheck h c a w ≡ (ok u, v)
      → (fresh : ValidationReport) × Fresh c a.job w fresh
        × Clean c a fresh
        × (h.adapter.validate_revision w.drawing a.job.document_id c.expected_revision ≡ ok true)
  unfolding recheck
  recheck-Clean c a w v u e =
      with_chain (inspect_document h (some a.job.document_id)) e λ snapshot w₁ e₁ r₁.
        with_chain (validate_plan h c.job_id pre_commit true) r₁ λ fresh w₂ e₂ r₂.
          with_chain (read (λ x. guard (report_allows h c a fresh) approval_required)) r₂
            λ z w₃ e₃ r₃.
              let kept : w₃.drawing ≡ w.drawing =
                sym (ap (λ p. p.1.drawing) e₃)
                ∙ sym (ap (λ p. p.1.drawing) e₂)
                ∙ validate_plan-drawing h c.job_id pre_commit true w₁
                ∙ sym (ap (λ p. p.1.drawing) e₁)
                ∙ inspect_document-drawing h (some a.job.document_id) w in
              (
                fresh,
                (snapshot, w₁, w₂, e₁, e₂),
                report_allows-Clean c a fresh (guard-ok _ approval_required (ap (λ p. p.0) e₃)),
                subst
                    (λ d.
                      h.adapter.validate_revision d a.job.document_id c.expected_revision ≡ ok true)
                    kept (check_revision-ok c a w₃ (ap (λ p. p.0) r₃)),
              )

  pub cache-drawing :
      (id : String) (r : Option RemediationResult) (w : World S)
      → (cache h id r w).drawing ≡ w.drawing
  cache-drawing id none w = refl
  cache-drawing id (some r) w = refl

  pub rechecked-drawing :
      (c : CommitCall) (a : Authorization) (w : World S) (r : Option RemediationResult)
      (out : Result (Unit {0})) (v : World S)
      → recheck h c a (cache h c.job_id r w) ≡ (out, v)
      → v.drawing ≡ w.drawing
  rechecked-drawing c a w r out v e =
      sym (ap (λ p. p.1.drawing) e)
      ∙ recheck-drawing c a (cache h c.job_id r w)
      ∙ cache-drawing c.job_id r w

  pub first_commit-Evident :
      (c : CommitCall) (a : Authorization) (w : World S)
      → ((first_commit h c a w).1.drawing ≡ w.drawing) ⊎ Evident c a w
  unfolding first_commit
  first_commit-Evident c a w =
      read-cases Q (standing h c a) _ w
        (λ remediation e.
          let v = cache h c.job_id remediation w in
          let (report, found, clean) = standing-Clean c a w remediation e in
          read-cases Q (require_writer_compatible h)
            (λ u. then_ (recheck h c a) (guarded_write h c a remediation)) v
            (λ u e₁.
              chain-cases Q (recheck h c a) (λ u. guarded_write h c a remediation) v
                (λ u' v' e₂.
                  elim (hold-drawing a.job.document_id c.job_id (ticket h c a remediation) v') [
                    | inl same ↦ inl (same ∙ rechecked-drawing c a w remediation (ok u') v' e₂)
                    | inr ready ↦
                        let (fresh, made, fine, current) = recheck-Clean c a v v' u' e₂ in
                        inr (
                          report,
                          fresh,
                          found,
                          (remediation, made),
                          clean,
                          fine,
                          live remediation current,
                          ready,
                        )
                  ])
                (λ x v' e₂. inl (rechecked-drawing c a w remediation (err x) v' e₂)))
            (λ x. inl (cache-drawing c.job_id remediation w)))
        (λ x. inl refl)
    where
      Q : Result CommitResult × World S → Type 0
      Q out = (out.1.drawing ≡ w.drawing) ⊎ Evident c a w

      live :
          (r : Option RemediationResult)
          → h.adapter.validate_revision
              (cache h c.job_id r w).drawing
              a.job.document_id
              c.expected_revision
            ≡ ok true
          → h.adapter.validate_revision w.drawing a.job.document_id c.expected_revision ≡ ok true
      live r =
          subst (λ d. h.adapter.validate_revision d a.job.document_id c.expected_revision ≡ ok true)
            (cache-drawing c.job_id r w)
