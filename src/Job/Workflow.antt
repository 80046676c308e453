-- ===== src/Job/Workflow.antt =====
-- The state machine of cad_harness/domain/models/job.py: what a run of transitions must have passed
-- through, and where a run ends.
use mathlib.Core.List.{reverse_aux}
use autocad_mechanical_harne.Base.{
  ℕ, ◌≡◌, refl, sym, ap, subst, true, List, [], ◌∷◌, ◌++◌, arith, Bool-cases, inl, inr,
}
use autocad_mechanical_harne.Errors.{Result, ok, err, invalid_job_transition, ◌>>=◌, >>=-eq-ok}
use autocad_mechanical_harne.Job.{
  JobState, CadJob, created, spec_accepted, planned, previewed, validated, approved, committing,
  committed, unknown_commit, failed, rolled_back, cancelled, is_in, allowed_transitions,
  transition_to, no_updates,
}

-- The steps of ALLOWED_TRANSITIONS as a relation, a constructor for each pair in the table, by which
-- the proofs take a step apart.
pub data Step : JobState → JobState → Type 0 where
  accept : Step created spec_accepted
  compile : Step spec_accepted planned
  preview : Step planned previewed
  validate : Step previewed validated
  approve : Step validated approved
  start : Step approved committing
  finish : Step committing committed
  fail : Step committing failed
  lose : Step committing unknown_commit
  restore : Step committed rolled_back
  restore_failed : Step failed rolled_back
  replan : Step failed planned
  revise_plan : Step planned spec_accepted
  revise_preview : Step previewed spec_accepted
  revise_validation : Step validated spec_accepted
  revise_approval : Step approved spec_accepted
  cancel_created : Step created cancelled
  cancel_spec : Step spec_accepted cancelled
  cancel_plan : Step planned cancelled
  cancel_preview : Step previewed cancelled
  cancel_validation : Step validated cancelled
  cancel_failed : Step failed cancelled

Step-allowed : {s t : JobState} → Step s t → is_in t (allowed_transitions s) ≡ true
unfolding allowed_transitions
Step-allowed accept = refl
Step-allowed _ = refl

allowed-Step : (s t : JobState) → is_in t (allowed_transitions s) ≡ true → Step s t
unfolding allowed_transitions
allowed-Step created spec_accepted h = accept
allowed-Step created cancelled h = cancel_created
allowed-Step spec_accepted planned h = compile
allowed-Step spec_accepted cancelled h = cancel_spec
allowed-Step planned previewed h = preview
allowed-Step planned spec_accepted h = revise_plan
allowed-Step planned cancelled h = cancel_plan
allowed-Step previewed validated h = validate
allowed-Step previewed spec_accepted h = revise_preview
allowed-Step previewed cancelled h = cancel_preview
allowed-Step validated approved h = approve
allowed-Step validated spec_accepted h = revise_validation
allowed-Step validated cancelled h = cancel_validation
allowed-Step approved committing h = start
allowed-Step approved spec_accepted h = revise_approval
allowed-Step committing committed h = finish
allowed-Step committing failed h = fail
allowed-Step committing unknown_commit h = lose
allowed-Step committed rolled_back h = restore
allowed-Step failed planned h = replan
allowed-Step failed rolled_back h = restore_failed
allowed-Step failed cancelled h = cancel_failed
allowed-Step _ _ h = cc

-- A sequence of transitions, one after the other.
unfoldable pub run : CadJob → List JobState → ℕ → Result CadJob
run job [] now = ok job
run job (t ∷ ts) now = do job' ← transition_to job t no_updates now; run job' ts now

-- The states that the workflow forces a run to have just entered, the last one first.
abbrev trail : JobState → List JobState
trail planned = planned ∷ []
trail previewed = previewed ∷ planned ∷ []
trail validated = validated ∷ previewed ∷ planned ∷ []
trail approved = approved ∷ validated ∷ previewed ∷ planned ∷ []
trail committing = committing ∷ approved ∷ validated ∷ previewed ∷ planned ∷ []
trail committed = committed ∷ committing ∷ approved ∷ validated ∷ previewed ∷ planned ∷ []
trail unknown_commit = unknown_commit ∷ committing ∷ approved ∷ validated ∷ previewed ∷ planned ∷ []
trail _ = []

-- The history `h`, newest first, begins with the trail of `s`.
abbrev Trails : JobState → List JobState → Type 0
Trails s h = (rest : List JobState) × (h ≡ trail s ++ rest)

Step-Trails : {s t : JobState} (h : List JobState) → Step s t → Trails s h → Trails t (t ∷ h)
Step-Trails h preview (r, e) = (r, ap (◌∷◌ previewed) e)
Step-Trails h validate (r, e) = (r, ap (◌∷◌ validated) e)
Step-Trails h approve (r, e) = (r, ap (◌∷◌ approved) e)
Step-Trails h start (r, e) = (r, ap (◌∷◌ committing) e)
Step-Trails h finish (r, e) = (r, ap (◌∷◌ committed) e)
Step-Trails h lose (r, e) = (r, ap (◌∷◌ unknown_commit) e)
Step-Trails h accept (r, e) = (spec_accepted ∷ h, refl)
Step-Trails h compile (r, e) = (h, refl)
Step-Trails h replan (r, e) = (h, refl)
Step-Trails {t = t} h _ (r, e) = (t ∷ h, refl)

-- A transition that succeeds is a step, and leaves the job in the target state.
pub transition_to-ok :
    (job j : CadJob) (updates : CadJob → CadJob) (target : JobState) (now : ℕ)
    → transition_to job target updates now ≡ ok j
    → Step job.state target × (j ≡ updates (record job { state = target; updated_at = now }))
unfolding transition_to
transition_to-ok job j updates target now e =
    elim (Bool-cases (is_in target (allowed_transitions job.state))) [
      | inl h ↦ (allowed-Step job.state target h, ground arith)
      | inr h ↦ absurd (ground arith)
    ]

run-Trails :
    (job j : CadJob) (ts h : List JobState) (now : ℕ)
    → Trails job.state h
    → run job ts now ≡ ok j
    → Trails j.state (reverse_aux ts h)
unfolding run
run-Trails job j [] h now p e = subst (λ s. Trails s h) (ground arith) p
run-Trails job j (t ∷ ts) h now p e =
    let (j', first, rest) = >>=-eq-ok (transition_to job t no_updates now) _ e in
    let (step, same) = transition_to-ok job j' no_updates t now first in
    run-Trails j' j ts (t ∷ h) now
      (subst (λ s. Trails s (t ∷ h)) (ground arith) (Step-Trails h step p)) rest

-- A job that was created and now stands at COMMITTED went last, and in this order without a gap,
-- through PLANNED, PREVIEWED, VALIDATED, APPROVED and COMMITTING: no run skips the preview, the
-- validation or the approval of the plan that it commits.
pub run_to_committed :
    (job j : CadJob) (ts : List JobState) (now : ℕ)
    → job.state ≡ created
    → run job ts now ≡ ok j
    → j.state ≡ committed
    → (rest : List JobState) × (reverse_aux ts []
        ≡ committed ∷ committing ∷ approved ∷ validated ∷ previewed ∷ planned ∷ rest)
run_to_committed job j ts now s e c =
    subst (λ k. Trails k (reverse_aux ts [])) c
      (run-Trails job j ts [] now (subst (λ k. Trails k []) (sym s) ([], refl)) e)

-- From ROLLED_BACK, CANCELLED and UNKNOWN_COMMIT_STATE no transition succeeds, whatever the target.
pub terminal_states :
    (job : CadJob) (target : JobState) (updates : CadJob → CadJob) (now : ℕ)
    → is_in job.state (rolled_back ∷ cancelled ∷ unknown_commit ∷ []) ≡ true
    → transition_to job target updates now ≡ err invalid_job_transition
unfolding transition_to
terminal_states job target updates now h = ground arith
