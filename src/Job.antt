-- ===== src/Job.antt =====
-- cad_harness/domain/models/job.py: the CadJob aggregate and its state machine. A `datetime` is a
-- number of microseconds, read from the clock by the caller.
pub mod Workflow
mod Examples
use autocad_mechanical_harne.Base.{
  ℕ, String, Bool, true, false, ◌||◌, Option, none, List, [], ◌∷◌, nat_eq, if◌then◌else◌,
}
use autocad_mechanical_harne.Errors.{Result, ok, guard, invalid_job_transition, ◌>>=◌, ◌>>◌}

pub data JobState : Type 0 where
  created : JobState
  spec_accepted : JobState
  planned : JobState
  previewed : JobState
  validated : JobState
  approved : JobState
  committing : JobState
  committed : JobState
  unknown_commit : JobState
  failed : JobState
  rolled_back : JobState
  cancelled : JobState

-- The place in the enumeration, by which `is` and `in` compare two states.
abbrev pub ordinal : JobState → ℕ
ordinal created = 0
ordinal spec_accepted = 1
ordinal planned = 2
ordinal previewed = 3
ordinal validated = 4
ordinal approved = 5
ordinal committing = 6
ordinal committed = 7
ordinal unknown_commit = 8
ordinal failed = 9
ordinal rolled_back = 10
ordinal cancelled = 11

abbrev pub is_state : JobState → JobState → Bool
is_state a b = nat_eq (ordinal a) (ordinal b)

abbrev pub is_in : JobState → List JobState → Bool
is_in s [] = false
is_in s (t ∷ ts) = is_state s t || is_in s ts

-- ALLOWED_TRANSITIONS
unfoldable pub allowed_transitions : JobState → List JobState
allowed_transitions created = spec_accepted ∷ cancelled ∷ []
allowed_transitions spec_accepted = planned ∷ cancelled ∷ []
allowed_transitions planned = previewed ∷ spec_accepted ∷ cancelled ∷ []
allowed_transitions previewed = validated ∷ spec_accepted ∷ cancelled ∷ []
allowed_transitions validated = approved ∷ spec_accepted ∷ cancelled ∷ []
allowed_transitions approved = committing ∷ spec_accepted ∷ []
allowed_transitions committing = committed ∷ failed ∷ unknown_commit ∷ []
allowed_transitions committed = rolled_back ∷ []
allowed_transitions unknown_commit = []
allowed_transitions failed = planned ∷ rolled_back ∷ cancelled ∷ []
allowed_transitions rolled_back = []
allowed_transitions cancelled = []

unfoldable pub assert_transition : JobState → JobState → Result (Unit {0})
unfolding allowed_transitions
assert_transition current target =
    guard (is_in target (allowed_transitions current)) invalid_job_transition

pub record CadJob : Type 0 where
  pub job_id : String
  pub document_id : String
  pub expected_revision : String
  pub state : JobState
  pub spec_id : Option String
  pub spec_version : ℕ
  pub plan_id : Option String
  pub plan_hash : Option String
  pub approval_id : Option String
  pub checkpoint_id : Option String
  pub created_at : ℕ
  pub updated_at : ℕ

-- CadJob(job_id=..., document_id=..., expected_revision=...) with the defaults of its fields.
unfoldable pub new_job : String → String → String → ℕ → CadJob
new_job job_id document_id expected_revision now = record {
  job_id = job_id;
  document_id = document_id;
  expected_revision = expected_revision;
  state = created;
  spec_id = none;
  spec_version = 0;
  plan_id = none;
  plan_hash = none;
  approval_id = none;
  checkpoint_id = none;
  created_at = now;
  updated_at = now;
}

-- `updates` are the keyword arguments, applied over the new state and the new `updated_at`.
unfoldable pub transition_to : CadJob → JobState → (CadJob → CadJob) → ℕ → Result CadJob
unfolding assert_transition
transition_to job target updates now = do
  assert_transition job.state target
  ok (updates (record job { state = target; updated_at = now }))

abbrev pub no_updates : CadJob → CadJob
no_updates job = job

unfoldable pub invalidate_approval : CadJob → ℕ → CadJob
invalidate_approval job now = record job { approval_id = none; updated_at = now }
