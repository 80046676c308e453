-- ===== src/Harness/Rollback/Frees.antt =====
-- HarnessService.rollback and the writer lease of its document.
use autocad_mechanical_harne.Base.{
  ℕ, String, ◌<>◌, ◌≡◌, refl, sym, ◌∙◌, ap, subst, Option, none, some, arith, some-eq,
}
use autocad_mechanical_harne.Errors.{HarnessError, Result, ok, err}
use autocad_mechanical_harne.Job.{CadJob}
use autocad_mechanical_harne.Lease.{LeaseStore, active_lease, find_lease}
use autocad_mechanical_harne.Lease.Refines.{IsKeyed}
use autocad_mechanical_harne.Outcome.{RollbackResult}
use autocad_mechanical_harne.Approval.Rollback.{RollbackScope}
use autocad_mechanical_harne.Store.{get_job}
use autocad_mechanical_harne.Harness.World.{Harness, World, DurableRollbackRecovery}
use autocad_mechanical_harne.Harness.Act.{
  ◌>>◌, attempt, read, modify, Keeps, Maintains, chain-cases,
}
use autocad_mechanical_harne.Harness.Lock.{hold}
use autocad_mechanical_harne.Harness.Lock.Release.{
  Holding, grip, same-Holding, kept-Holding, heartbeats-Holding, hold-free, attempt-Maintains,
}
use autocad_mechanical_harne.Harness.Rollback.{
  Restore, authenticate, authorize_job, authorize_rollback, check_current, call_rollback,
  note_failure, rolled, restore, rollback, rollback_request,
}
use autocad_mechanical_harne.Harness.Rollback.Guarded.{authorized-Passed}

abbrev locks : {S : Type 0} → World S → LeaseStore × ℕ
locks w = (w.leases, w.ids)

module _ {S : Type 0} (h : Harness S) where
  authenticate-locks :
      (receipt : Option (String × String)) (scope : RollbackScope) (token : String)
      → Keeps locks (authenticate h receipt scope token)
  unfolding authenticate
  authenticate-locks receipt scope token w = ground arith

  authorize_job-locks :
      (job_id : String) (job : CadJob) (receipt : Option (String × String))
      (recovery : Option DurableRollbackRecovery) (checkpoint_id current_revision token : String)
      → Keeps locks
          (authorize_job h job_id job receipt recovery checkpoint_id current_revision token)
  unfolding authorize_job
  authorize_job-locks job_id job receipt recovery checkpoint_id current_revision token w =
      grind (arith, authenticate-locks)

  authorize_rollback-locks :
      (job_id checkpoint_id current_revision token : String)
      → Keeps locks (authorize_rollback h job_id checkpoint_id current_revision token)
  unfolding authorize_rollback
  authorize_rollback-locks job_id checkpoint_id current_revision token w =
      grind (arith, authorize_job-locks)

  call_rollback-Holding :
      (doc : String) (r : Restore) → Maintains (Holding h doc) (call_rollback h r)
  unfolding call_rollback
  call_rollback-Holding doc r w p =
      let after : World S = record w {
        drawing = (h.adapter.rollback (rollback_request h r) w.drawing).1;
      } in
      heartbeats-Holding h doc h.beats.0 after (same-Holding h doc w after refl p)

  rolled-grip : (r : Restore) (result : RollbackResult) → Keeps (grip h) (rolled h r result)
  unfolding rolled
  rolled-grip r result w = ground arith

  note_failure-grip :
      (r : Restore) (e : HarnessError) (w : World S) → grip h (note_failure h r e w) ≡ grip h w
  unfolding note_failure
  note_failure-grip r e w = ground arith

  called-Holding :
      (doc : String) (r : Restore)
      → Maintains (Holding h doc) (
          attempt
            (call_rollback h r)
            (rolled h r)
            (λ e. do modify (note_failure h r e); read (λ v. err e)))
  called-Holding doc r =
      attempt-Maintains h (Holding h doc) (call_rollback h r) (rolled h r)
        (λ e. do modify (note_failure h r e); read (λ v. err e)) (call_rollback-Holding doc r)
        (λ result. kept-Holding h doc (rolled h r result) (rolled-grip r result))
        (λ e w p. same-Holding h doc w (note_failure h r e w) (note_failure-grip r e w) p)

  restore-Holding : (doc : String) (r : Restore) → Maintains (Holding h doc) (restore h r)
  unfolding restore
  restore-Holding doc r w p =
      chain-cases Q (read (check_current h r)) _ w
        (λ u v e. called-Holding doc r _ (same-Holding h doc w _ (ap (λ o. grip h o.1) (sym e)) p))
        (λ x v e. same-Holding h doc w v (ap (λ o. grip h o.1) (sym e)) p)
    where
      Q : Result RollbackResult × World S → Type 0
      Q out = Holding h doc out.1

  -- A rollback leaves its job's document without an active lease at every time at which it had none
  -- before, whatever its outcome and whatever the adapter and the renewals do. (The dict of leases is
  -- well formed, and the identifier of a new lease is new.)
  pub rollback-free :
      (job_id checkpoint_id current_revision token : String) (w : World S) (job : CadJob) (at : ℕ)
      → get_job w.store job_id ≡ some job
      → IsKeyed w.leases
      → find_lease (h.new_id w.ids) w.leases.leases.items ≡ none
      → active_lease w.leases job.document_id at ≡ none
      → active_lease
          (rollback h job_id checkpoint_id current_revision token w).1.leases
          job.document_id
          at
        ≡ none
  unfolding rollback
  rollback-free job_id checkpoint_id current_revision token w job at found keyed fresh free =
      chain-cases Q (authorize_rollback h job_id checkpoint_id current_revision token) _ w
        (λ r v e.
          let same : locks v ≡ locks w =
            ap (λ o. locks o.1) (sym e)
            ∙ authorize_rollback-locks job_id checkpoint_id current_revision token w in
          let mine : r.job ≡ job = some-eq (
            sym (authorized-Passed h job_id checkpoint_id current_revision token w v r e).0
            ∙ found) in
          let unlocked =
            hold-free h r.job.document_id ("rollback:" <> job_id) (restore h r) v at
              (restore-Holding r.job.document_id r) (subst (λ l. IsKeyed l.0) (sym same) keyed)
              (subst (λ l. find_lease (h.new_id l.1) l.0.leases.items ≡ none) (sym same) fresh)
              (subst (λ l. active_lease l.0 r.job.document_id at ≡ none) (sym same)
                (subst (λ j. active_lease w.leases j.document_id at ≡ none) (sym mine) free)) in
          let freed : (out : Result RollbackResult × World S)
              → hold h r.job.document_id ("rollback:" <> job_id) (restore h r) v ≡ out
              → active_lease out.1.leases job.document_id at ≡ none =
            λ out held.
              ap (λ o. active_lease o.1.leases job.document_id at) (sym held)
              ∙ ap
                  (λ j.
                    active_lease
                      (hold h r.job.document_id ("rollback:" <> job_id) (restore h r) v).1.leases
                      j.document_id at)
                  (sym mine)
              ∙ unlocked in
          chain-cases Q (hold h r.job.document_id ("rollback:" <> job_id) (restore h r)) _ v
            (λ result u held. freed (ok result, u) held) (λ x u held. freed (err x, u) held))
        (λ x v e.
          ap (λ o. active_lease o.1.leases job.document_id at) (sym e)
          ∙ ap (λ l. active_lease l.0 job.document_id at)
              (authorize_rollback-locks job_id checkpoint_id current_revision token w)
          ∙ free)
    where
      Q : Result RollbackResult × World S → Type 0
      Q out = active_lease out.1.leases job.document_id at ≡ none
