-- ===== src/Harness/Commit/Flight.antt =====
-- The state in which HarnessService._commit leaves a job whose write has begun.
use autocad_mechanical_harne.Base.{
  ℕ, zero, suc, String, ◌≡◌, refl, sym, ◌∙◌, ap, subst, ◌⊎◌, inl, inr, Bool, true, false, Option,
  none, some, List, [], ◌∷◌, arith, Bool-cases, if◌then◌else◌,
}
use autocad_mechanical_harne.Base.Dict
use autocad_mechanical_harne.Base.Dict.{Dict, get-put_self}
use autocad_mechanical_harne.Errors.{HarnessError, Result, ok, err}
use autocad_mechanical_harne.Job.{
  CadJob, JobState, committing, committed, failed, unknown_commit, is_in, transition_to, no_updates,
}
use autocad_mechanical_harne.Job.Workflow.{transition_to-ok}
use autocad_mechanical_harne.Validation.{run, post_commit, has_blocking}
use autocad_mechanical_harne.Outcome.{CommitResult, EntityMappingRecord, Checkpoint}
use autocad_mechanical_harne.Store.{
  JobStore, RemediationResult, save_job, finalize_job, finalize_commit, save_validation,
  record_execution, save_checkpoint,
}
use autocad_mechanical_harne.Harness.World.{Harness, World}
use autocad_mechanical_harne.Harness.Act.{
  Act, Keeps, Maintains, chain-Maintains, read-cases, chain-cases, modify, either_way,
  ◌>>◌ as then_,
}
use autocad_mechanical_harne.Harness.Frame.{take-drawing, let_go-drawing}
use autocad_mechanical_harne.Harness.Lock.{renew_with, beat, heartbeats, hold, take, let_go}
use autocad_mechanical_harne.Harness.Finish.{
  Ticket, commit_failed, finalize, audit_remediation, unresolved, succeed, lose, conclude, reject,
  settle, after_write, call_adapter, write, start, handle_valid, failure_target, mappings_of,
  checkpoint_of, keep_receipt, request,
}

-- The write has begun.
abbrev pub in_flight : Option CadJob → Bool
in_flight none = false
in_flight (some job) = is_in job.state (committing ∷ committed ∷ failed ∷ unknown_commit ∷ [])

-- The states that a job may be left in.
abbrev After : JobState → Type 0
After s = is_in s (committing ∷ committed ∷ failed ∷ unknown_commit ∷ []) ≡ true

module _ {S : Type 0} (h : Harness S) where
  beat-store : (w : World S) → (beat h w).store ≡ w.store
  unfolding beat renew_with
  beat-store w = ground arith

  heartbeats-store : (n : ℕ) (w : World S) → (heartbeats h n w).store ≡ w.store
  unfolding heartbeats
  heartbeats-store zero w = refl
  heartbeats-store (suc n) w = heartbeats-store n (beat h w) ∙ beat-store w

  pub let_go-store : (w : World S) → (let_go h w).store ≡ w.store
  unfolding let_go
  let_go-store w = ground arith

  heartbeats-jobs : (n : ℕ) (w : World S) → (heartbeats h n w).store.jobs ≡ w.store.jobs
  heartbeats-jobs n w = ap (λ s. s.jobs) (heartbeats-store n w)

finalize_commit-jobs :
    (s : JobStore) (job : CadJob) (ms : List EntityMappingRecord) (key digest : String)
    (result : CommitResult) (c : Option Checkpoint)
    → (finalize_commit s job ms key digest result c).1.jobs ≡ Dict.put s.jobs job.job_id job
unfolding finalize_commit finalize_job save_job save_checkpoint record_execution
finalize_commit-jobs s job ms key digest result none = refl
finalize_commit-jobs s job ms key digest result (some c) = refl

failure_target-After : (x : HarnessError) (valid : Bool) → After (failure_target x valid)
unfolding failure_target
failure_target-After x valid = ground arith

abbrev jobs : {S : Type 0} → World S → Dict CadJob
jobs w = w.store.jobs

module _ {S : Type 0} (h : Harness S) (t : Ticket) where
  -- The ticket's job has been started.
  abbrev Flying : World S → Type 0
  Flying w = in_flight (Dict.get w.store.jobs t.job.job_id) ≡ true

  abbrev LeftFlying : {A : Type 0} → Result A × World S → Type 0
  LeftFlying out = Flying out.1

  keeping : {A : Type 0} (act : Act S A) → Keeps jobs act → Maintains Flying act
  keeping act keeps w p = subst (λ d. in_flight (Dict.get d t.job.job_id) ≡ true) (sym (keeps w)) p

  saved-Flying :
      (d : Dict CadJob) (job : CadJob)
      → job.job_id ≡ t.job.job_id
      → After job.state
      → in_flight (Dict.get (Dict.put d job.job_id job) t.job.job_id) ≡ true
  saved-Flying d job own fine =
      subst (λ id. in_flight (Dict.get (Dict.put d job.job_id job) id) ≡ true) own
        (rw (get-put_self d job.job_id job) fine)

  -- The places that end a commit: the job's transition, then the store's finalization.
  module _ (job : CadJob) (own : job.job_id ≡ t.job.job_id) where
    lose-Flying : (result : CommitResult) → Maintains Flying (lose h t job result)
    unfolding lose finalize_job save_job
    lose-Flying result w p =
        read-cases LeftFlying (λ x. transition_to job unknown_commit no_updates (h.clock w.ticks)) _
          _
          (λ terminal e.
            let (step, same) =
              transition_to-ok job terminal no_updates unknown_commit (h.clock w.ticks) e in
            saved-Flying w.store.jobs terminal (ap (λ j. j.job_id) same ∙ own)
              (subst After (sym (ap (λ j. j.state) same)) refl))
          (λ x. p)

    commit_failed-Flying : (x : HarnessError) → Maintains Flying (commit_failed h t job x)
    unfolding commit_failed finalize_job save_job
    commit_failed-Flying x w p =
        read-cases LeftFlying
          (λ v.
            transition_to job (failure_target x (handle_valid w (h.clock w.ticks))) no_updates
              (h.clock (suc w.ticks)))
          _ _
          (λ terminal e.
            let (step, same) =
              transition_to-ok job terminal no_updates _ (h.clock (suc w.ticks)) e in
            saved-Flying w.store.jobs terminal (ap (λ j. j.job_id) same ∙ own)
              (subst After (sym (ap (λ j. j.state) same)) (failure_target-After x _)))
          (λ x. p)

    finalize-Flying :
        (target : JobState) (result : CommitResult)
        → After target
        → Maintains Flying (finalize h t job target result)
    unfolding finalize finalize_commit
    finalize-Flying target result fine w p =
        read-cases LeftFlying
          (λ x.
            transition_to job target
              (λ j. record j {
                checkpoint_id = result.checkpoint_id;
                expected_revision = result.new_revision;
              })
              (h.clock w.ticks))
          _ _
          (λ terminal e.
            let (step, same) = transition_to-ok job terminal _ target (h.clock w.ticks) e in
            subst (λ d. in_flight (Dict.get d t.job.job_id) ≡ true)
              (sym (
                finalize_commit-jobs w.store terminal
                  (mappings_of t.job.document_id t.plan.operations result.new_revision
                    result.entity_results)
                  t.idempotency_key t.request_digest result (checkpoint_of t.job.job_id result)))
              (saved-Flying w.store.jobs terminal (ap (λ j. j.job_id) same ∙ own)
                (subst After (sym (ap (λ j. j.state) same)) fine)))
          (λ x. p)

    reject-Flying : (result : CommitResult) → Maintains Flying (reject h t job result)
    unfolding reject
    reject-Flying result =
        chain-Maintains Flying (finalize h t job failed result) _
          (finalize-Flying failed result refl) (λ u w p. p)

    succeed-Flying : (result : CommitResult) → Maintains Flying (succeed h t job result)
    unfolding succeed
    succeed-Flying result =
        chain-Maintains Flying (finalize h t job committed result) _
          (finalize-Flying committed result refl) (λ u w p. p)

    conclude-Flying : (result : CommitResult) → Maintains Flying (conclude h t job result)
    unfolding conclude
    conclude-Flying result w p = elim (Bool-cases (handle_valid w (h.clock w.ticks))) [
      | inl valid ↦ rw valid (succeed-Flying result _ p)
      | inr lost ↦ rw lost (lose-Flying result _ p)
    ]

    audit_remediation-jobs :
        (result : CommitResult) (r : RemediationResult)
        → Keeps jobs (audit_remediation h t result r)
    unfolding audit_remediation save_validation
    audit_remediation-jobs result r w = ground arith

    unresolved-jobs :
        (result : CommitResult) (o : Option RemediationResult)
        → Keeps jobs (unresolved h t result o)
    unfolding unresolved
    unresolved-jobs result none w = refl
    unresolved-jobs result (some r) w = grind (arith, audit_remediation-jobs result r w)

    settled :
        (result : CommitResult) (bad : Bool)
        → Maintains Flying (if bad then reject h t job result else conclude h t job result)
    settled result true = reject-Flying result
    settled result false = conclude-Flying result

    beating : (n : ℕ) (w : World S) → Flying w → Flying (heartbeats h n w)
    beating n w p =
        subst (λ d. in_flight (Dict.get d t.job.job_id) ≡ true) (sym (heartbeats-jobs h n w)) p

    settle-Flying : (result : CommitResult) → Maintains Flying (settle h t job result)
    unfolding settle
    settle-Flying result =
        chain-Maintains Flying (unresolved h t result t.remediation) _
          (keeping (unresolved h t result t.remediation) (unresolved-jobs result t.remediation))
          (λ bad w p. settled result bad (heartbeats h h.beats.1 w) (beating h.beats.1 w p))

    reported :
        (result : CommitResult) (bad : Bool)
        → Maintains Flying (if bad then reject h t job result else settle h t job result)
    reported result true = reject-Flying result
    reported result false = settle-Flying result

    after_write-Flying : (result : CommitResult) → Maintains Flying (after_write h t job result)
    unfolding after_write save_validation
    after_write-Flying result w p =
        read-cases LeftFlying
          (λ x.
            run h.rules h.schema_version post_commit
              (record { profile = h.profile; plan = some t.plan; commit_result = some result })
              t.job.job_id (h.new_id w.ids))
          _ _ (λ report e. reported result (has_blocking report) _ p) (λ x. p)

    keep_receipt-jobs :
        (result : CommitResult) (w : World S)
        → (keep_receipt h t result w).store.jobs ≡ w.store.jobs
    keep_receipt-jobs result w = ground arith

    write-Flying : Maintains Flying (write h t job)
    unfolding write call_adapter
    write-Flying w p = go (h.adapter.commit (request h t) w.drawing).0
      where
        beaten : World S
        beaten =
            heartbeats h h.beats.0
              (record w { drawing = (h.adapter.commit (request h t) w.drawing).1 })

        go :
            (r : Result CommitResult)
            → Flying
                (either_way
                  (r, beaten)
                  (λ result. then_ (modify (keep_receipt h t result)) (after_write h t job result))
                  (commit_failed h t job)).1
        go (ok result) = after_write-Flying result (keep_receipt h t result beaten) (
            subst (λ d. in_flight (Dict.get d t.job.job_id) ≡ true)
              (sym (keep_receipt-jobs result beaten))
              (beating h.beats.0
                (record w { drawing = (h.adapter.commit (request h t) w.drawing).1 }) p))
        go (err x) = commit_failed-Flying x beaten (
            beating h.beats.0 (record w { drawing = (h.adapter.commit (request h t) w.drawing).1 })
              p)

  start-Flying : (w : World S) → ((start h t w).1.drawing ≡ w.drawing) ⊎ Flying (start h t w).1
  unfolding start save_job
  start-Flying w =
      read-cases (λ out. (out.1.drawing ≡ w.drawing) ⊎ Flying out.1)
        (λ x. transition_to t.job committing no_updates (h.clock w.ticks)) _ _
        (λ job e.
          let (step, same) = transition_to-ok t.job job no_updates committing (h.clock w.ticks) e in
          let own = ap (λ j. j.job_id) same in
          inr (
            write-Flying job own _ (
              saved-Flying w.store.jobs job own (subst After (sym (ap (λ j. j.state) same)) refl))))
        (λ x. inl refl)

  -- Under the lease, and after it has been released: the drawing is untouched, or the job has left
  -- APPROVED for good.
  pub hold-Flying :
      (d o : String) (w : World S)
      → ((hold h d o (start h t) w).1.drawing ≡ w.drawing)
        ⊎ (in_flight (Dict.get (hold h d o (start h t) w).1.store.jobs t.job.job_id) ≡ true)
  unfolding hold
  hold-Flying d o w =
      chain-cases (λ out. (out.1.drawing ≡ w.drawing) ⊎ Flying out.1) (take h d o) _ w
        (λ u v e.
          let kept : v.drawing ≡ w.drawing = sym (ap (λ p. p.1.drawing) e) ∙ take-drawing h d o w in
          elim (start-Flying v) [
            | inl same ↦ inl (let_go-drawing h (start h t v).1 ∙ same ∙ kept)
            | inr flying ↦ inr (
                subst (λ s. in_flight (Dict.get s.jobs t.job.job_id) ≡ true)
                  (sym (let_go-store h (start h t v).1)) flying)
          ])
        (λ x v e. inl (sym (ap (λ p. p.1.drawing) e) ∙ take-drawing h d o w))
