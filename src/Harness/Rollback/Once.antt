-- ===== src/Harness/Rollback/Once.antt =====
-- What HarnessService.rollback leaves when it succeeds.
use autocad_mechanical_harne.Base.{
  ℕ, zero, suc, String, ◌<>◌, ◌≡◌, ◌∙◌, refl, sym, ap, subst, true, none, some, inl, inr, arith, [],
  ◌∷◌, some-eq,
}
use autocad_mechanical_harne.Base.Dict
use autocad_mechanical_harne.Base.Dict.{Dict, get-put_self, get-pop_self}
use autocad_mechanical_harne.Errors.{HarnessError, ok, err, Result-cases}
use autocad_mechanical_harne.Job.{
  CadJob, committed, failed, rolled_back, is_in, transition_to, no_updates,
}
use autocad_mechanical_harne.Job.Workflow.{transition_to-ok}
use autocad_mechanical_harne.Outcome.{RollbackResult}
use autocad_mechanical_harne.Store.{JobStore, get_job, save_job}
use autocad_mechanical_harne.Harness.World.{
  Harness, World, RollbackRequest, DurableRollbackRecovery,
}
use autocad_mechanical_harne.Harness.Act.{◌>>◌, attempt, read, modify, with_chain, with_read}
use autocad_mechanical_harne.Harness.Frame.{take-drawing}
use autocad_mechanical_harne.Harness.Lock.{hold, take, let_go, beat, heartbeats, renew_with}
use autocad_mechanical_harne.Harness.Rollback.{
  Restore, check_current, note_failure, call_rollback, rolled, restore, authorize_rollback,
  rollback, rollback_request,
}
use autocad_mechanical_harne.Harness.Rollback.Guarded.{
  authorized-Passed, authorize_rollback-drawing, rollback-Entitled,
}

saved-rolled_back :
    (s : JobStore) (job j : CadJob) (at : ℕ)
    → transition_to job rolled_back no_updates at ≡ ok j
    → (get_job (save_job s j) job.job_id ≡ some j) × (j.state ≡ rolled_back)
unfolding save_job get_job
saved-rolled_back s job j at e =
    let (step, same) = transition_to-ok job j no_updates rolled_back at e in
    (
      subst (λ i. Dict.get (Dict.put s.jobs j.job_id j) i ≡ some j) (ap (λ k. k.job_id) same)
          (get-put_self s.jobs j.job_id j),
      ap (λ k. k.state) same,
    )

finished :
    (j job : CadJob)
    → j.state ≡ rolled_back
    → j ≡ job
    → is_in job.state (committed ∷ failed ∷ []) ≡ true
    → ⊥
finished j job state same standing =
    let at : job.state ≡ rolled_back = ap (λ k. k.state) (sym same) ∙ state in
    ground (arith, at, standing)

module _ {S : Type 0} (h : Harness S) where
  beat-drawing : (w : World S) → (beat h w).drawing ≡ w.drawing
  unfolding beat renew_with
  beat-drawing w = ground arith

  heartbeats-drawing : (n : ℕ) (w : World S) → (heartbeats h n w).drawing ≡ w.drawing
  unfolding heartbeats
  heartbeats-drawing zero w = refl
  heartbeats-drawing (suc n) w = heartbeats-drawing n (beat h w) ∙ beat-drawing w

  -- What a world shows of a job that was rolled back, with the adapter's answer to a request.
  abbrev pub Done : String → RollbackResult → RollbackRequest → S → World S → Type 0
  Done job_id result request before w =
      (j : CadJob) × (get_job w.store job_id ≡ some j)
      × (j.state ≡ rolled_back)
      × (Dict.get w.undo_rollback_receipts job_id ≡ none)
      × (Dict.get w.durable_rollback_recoveries job_id ≡ none)
      × (h.adapter.rollback request before ≡ (ok result, w.drawing))

  rolled-Done :
      (r : Restore) (result result' : RollbackResult) (before : S) (w w' : World S)
      → r.job.job_id ≡ r.job_id
      → h.adapter.rollback (rollback_request h r) before ≡ (ok result, w.drawing)
      → rolled h r result w ≡ (ok result', w')
      → Done r.job_id result' (rollback_request h r) before w'
  unfolding rolled
  rolled-Done r result result' before w w' own answered e =
      elim (Result-cases (transition_to r.job rolled_back no_updates (h.clock w.ticks))) [
        | inr (x, bad) ↦ absurd (ground (arith, bad, e))
        | inl (j, fine) ↦
            let (at_job, state) = saved-rolled_back w.store r.job j (h.clock w.ticks) fine in
            let facts : (result ≡ result')
                × (w'.store ≡ save_job w.store j)
                × (w'.undo_rollback_receipts ≡ Dict.pop w.undo_rollback_receipts r.job_id)
                × (w'.durable_rollback_recoveries ≡ Dict.pop w.durable_rollback_recoveries r.job_id)
                × (w'.drawing ≡ w.drawing) =
              ground (arith, fine, e) in
            (
              j,
              ap (λ s. get_job s r.job_id) facts.1
                  ∙ subst (λ i. get_job (save_job w.store j) i ≡ some j) own at_job,
              state,
              ap (λ d. Dict.get d r.job_id) facts.2
                  ∙ get-pop_self w.undo_rollback_receipts r.job_id,
              ap (λ d. Dict.get d r.job_id) facts.3
                  ∙ get-pop_self w.durable_rollback_recoveries r.job_id,
              answered
                  ∙ ap (λ x. (ok x, w.drawing)) facts.0
                  ∙ ap (λ d. (ok result', d)) (sym facts.4),
            )
      ]

  answered :
      (r : Restore) (result : RollbackResult) (w : World S)
      → (h.adapter.rollback (rollback_request h r) w.drawing).0 ≡ ok result
      → h.adapter.rollback (rollback_request h r) w.drawing
        ≡ (ok result, (call_rollback h r w).1.drawing)
  unfolding call_rollback
  answered r result w fine =
      let told = h.adapter.rollback (rollback_request h r) w.drawing in
      let after : World S = record w { drawing = told.1 } in
      ap (λ x. (x, told.1)) fine
      ∙ ap (λ d. (ok result, d)) (sym (heartbeats-drawing h.beats.0 after))

  attempt-Done :
      (r : Restore) (result : RollbackResult) (w w' : World S)
      → r.job.job_id ≡ r.job_id
      → attempt
          (call_rollback h r)
          (rolled h r)
          (λ e. do modify (note_failure h r e); read (λ v. err e))
          w
        ≡ (ok result, w')
      → Done r.job_id result (rollback_request h r) w.drawing w'
  unfolding call_rollback
  attempt-Done r result w w' own e =
      elim (Result-cases (h.adapter.rollback (rollback_request h r) w.drawing).0) [
        | inr (x, bad) ↦ absurd (failed_call x bad)
        | inl (answer, fine) ↦
            rolled-Done r answer result w.drawing (call_rollback h r w).1 w' own
              (answered r answer w fine) (went_on answer fine)
      ]
    where
      failed_call :
          (x : HarnessError) → (h.adapter.rollback (rollback_request h r) w.drawing).0 ≡ err x → ⊥
      failed_call x bad = ground (arith, bad, e)

      went_on :
          (answer : RollbackResult)
          → (h.adapter.rollback (rollback_request h r) w.drawing).0 ≡ ok answer
          → rolled h r answer (call_rollback h r w).1 ≡ (ok result, w')
      went_on answer fine = ground (arith, fine, e)

  restore-Done :
      (r : Restore) (result : RollbackResult) (w w' : World S)
      → r.job.job_id ≡ r.job_id
      → restore h r w ≡ (ok result, w')
      → Done r.job_id result (rollback_request h r) w.drawing w'
  unfolding restore
  restore-Done r result w w' own e =
      with_read (check_current h r) _ e λ _ current e₁. attempt-Done r result _ w' own e₁

  -- The parts of the world that tell of a rollback.
  abbrev kept : World S → S × (JobStore × (Dict (String × String) × Dict DurableRollbackRecovery))
  kept w = (w.drawing, (w.store, (w.undo_rollback_receipts, w.durable_rollback_recoveries)))

  let_go-Kept : (w : World S) → kept (let_go h w) ≡ kept w
  unfolding let_go
  let_go-Kept w = ground arith

  Done-kept :
      (job_id : String) (result : RollbackResult) (request : RollbackRequest) (before before' : S)
      (w w' : World S)
      → kept w ≡ kept w'
      → before ≡ before'
      → Done job_id result request before w
      → Done job_id result request before' w'
  Done-kept job_id result request before before' w w' same start
        (j, stored, state, none_left, no_known, called) =
      (
        j,
        ap (λ k. get_job k.1.0 job_id) (sym same) ∙ stored,
        state,
        ap (λ k. Dict.get k.1.1.0 job_id) (sym same) ∙ none_left,
        ap (λ k. Dict.get k.1.1.1 job_id) (sym same) ∙ no_known,
        ap (h.adapter.rollback request) (sym start) ∙ called ∙ ap (λ k. (ok result, k.0)) same,
      )

  held-Done :
      (r : Restore) (result : RollbackResult) (owner : String) (w w' : World S)
      → r.job.job_id ≡ r.job_id
      → hold h r.job.document_id owner (restore h r) w ≡ (ok result, w')
      → Done r.job_id result (rollback_request h r) w.drawing w'
  unfolding hold
  held-Done r result owner w w' own e =
      with_chain (take h r.job.document_id owner) e λ u v taken e₁.
        let x = restore h r v in
        let same : let_go h x.1 ≡ w' = ap (λ o. o.1) e₁ in
        Done-kept r.job_id result (rollback_request h r) v.drawing w.drawing x.1 w'
          (sym (let_go-Kept x.1) ∙ ap kept same)
          (ap (λ o. o.1.drawing) (sym taken) ∙ take-drawing h r.job.document_id owner w)
          (restore-Done r result v x.1 own (ap (λ o. (o.0, x.1)) e₁))

  -- After a rollback that succeeds, its job stands at ROLLED_BACK in the store and has neither an undo
  -- receipt nor a known recovery, and the drawing and the result are what the adapter's rollback made
  -- of the drawing, once, at a request for the job's document, the checkpoint and the revision. (The
  -- job is stored under its own identifier.)
  pub rollback-Done :
      (job_id checkpoint_id current_revision token : String) (w w' : World S) (job : CadJob)
      (result : RollbackResult)
      → get_job w.store job_id ≡ some job
      → job.job_id ≡ job_id
      → rollback h job_id checkpoint_id current_revision token w ≡ (ok result, w')
      → (request : RollbackRequest) × (request.document_id ≡ job.document_id)
        × (request.checkpoint_id ≡ checkpoint_id)
        × (request.current_revision ≡ current_revision)
        × Done job_id result request w.drawing w'
  unfolding rollback
  rollback-Done job_id checkpoint_id current_revision token w w' job result found own e =
      with_chain (authorize_rollback h job_id checkpoint_id current_revision token) e
        λ r v authorized e₁.
          with_chain (hold h r.job.document_id ("rollback:" <> job_id) (restore h r)) e₁
            λ answer u held e₂.
              let (stored, passed) =
                authorized-Passed h job_id checkpoint_id current_revision token w v r authorized in
              let mine : r.job ≡ job = some-eq (sym stored ∙ found) in
              let of_id : r.job_id ≡ job_id = passed.of_id in
              let done =
                held-Done r answer ("rollback:" <> job_id) v u
                  (ap (λ k. k.job_id) mine ∙ own ∙ sym of_id) held in
              (
                rollback_request h r,
                ap (λ k. k.document_id) mine,
                passed.of_checkpoint,
                passed.of_revision,
                subst (λ i. Done i result (rollback_request h r) w.drawing w') of_id
                    (Done-kept r.job_id result (rollback_request h r) v.drawing w.drawing u w'
                      (ground (arith, e₂))
                      (ap (λ o. o.1.drawing) (sym authorized)
                        ∙ authorize_rollback-drawing h job_id checkpoint_id current_revision token
                            w)
                      (subst (λ x. Done r.job_id x (rollback_request h r) v.drawing u)
                        (ground (arith, e₂)) done)),
              )

  -- After a rollback that succeeds, no rollback of the same job touches the drawing again, whatever is
  -- asked and whatever token is brought. (The job is stored under its own identifier.)
  pub rollback_once :
      (job_id checkpoint_id current_revision token : String) (w w' : World S) (job : CadJob)
      (result : RollbackResult) (checkpoint_id' current_revision' token' : String)
      → get_job w.store job_id ≡ some job
      → job.job_id ≡ job_id
      → rollback h job_id checkpoint_id current_revision token w ≡ (ok result, w')
      → (rollback h job_id checkpoint_id' current_revision' token' w').1.drawing ≡ w'.drawing
  rollback_once job_id checkpoint_id current_revision token w w' job result checkpoint_id'
        current_revision' token' found own e =
      let (
        request,
        document,
        checkpoint,
        revision,
        (j, stored, state, none_left, no_known, called),
      ) =
        rollback-Done job_id checkpoint_id current_revision token w w' job result found own e in
      elim (rollback-Entitled h job_id checkpoint_id' current_revision' token' w') [
        | inl same ↦ same
        | inr entitled ↦ absurd (
            finished j entitled.job state (some-eq (sym stored ∙ entitled.found)) entitled.standing)
      ]
