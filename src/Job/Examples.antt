-- ===== src/Job/Examples.antt =====
-- The theorems of Job at concrete jobs.
use autocad_mechanical_harne.Base.{◌≡◌, refl, List, [], ◌∷◌}
use mathlib.Core.List.{reverse_aux}
use autocad_mechanical_harne.Errors.{err, invalid_job_transition}
use autocad_mechanical_harne.Job.{
  JobState, CadJob, new_job, spec_accepted, planned, previewed, validated, approved, committing,
  committed, rolled_back, transition_to, no_updates,
}
use autocad_mechanical_harne.Job.Workflow.{run, run_to_committed, terminal_states}

abbrev fresh : CadJob
fresh = new_job "job_1" "doc_1" "sha256:1" 0

abbrev undone : CadJob
undone = record fresh { state = rolled_back }

abbrev to_commit : List JobState
to_commit = spec_accepted ∷ planned ∷ previewed ∷ validated ∷ approved ∷ committing ∷ committed ∷ []

run_to_committed_example :
    (rest : List JobState) × (reverse_aux to_commit []
      ≡ committed ∷ committing ∷ approved ∷ validated ∷ previewed ∷ planned ∷ rest)
unfolding new_job run transition_to
run_to_committed_example =
    run_to_committed fresh (record fresh { state = committed; updated_at = 9 }) to_commit 9 refl
      refl refl

terminal_states_example :
    transition_to undone spec_accepted no_updates 3 ≡ err invalid_job_transition
terminal_states_example = terminal_states undone spec_accepted no_updates 3 refl
