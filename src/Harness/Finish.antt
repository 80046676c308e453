-- ===== src/Harness/Finish.antt =====
-- The part of HarnessService._commit that runs under the writer lease: the write itself, the read-back,
-- the remediation audit and the outcome.
use autocad_mechanical_harne.Base.{
  ℕ, String, ◌==◌, Bool, true, false, ◌&&◌, ◌||◌, not, Option, none, some, List, [], ◌∷◌, option_eq,
  if◌then◌else◌, ◌<>◌,
}
use autocad_mechanical_harne.Base.Dict
use autocad_mechanical_harne.Errors.{
  HarnessError, Result, ok, err, guard, or_raise, unknown_commit_state,
  post_commit_validation_failed, stale_document_revision, document_not_found, assertion_error,
}
use autocad_mechanical_harne.Job.{
  CadJob, JobState, committing, committed, failed, unknown_commit, transition_to, no_updates,
}
use autocad_mechanical_harne.Plan.{OperationPlan, Operation, is_delete}
use autocad_mechanical_harne.Validation.{Finding, post_commit, has_blocking, run}
use autocad_mechanical_harne.Outcome.{CommitResult, EntityResult, EntityMappingRecord, Checkpoint}
use autocad_mechanical_harne.Store.{
  JobStore, RemediationResult, save_job, save_validation, finalize_job, finalize_commit,
  entity_mappings_for,
}
use autocad_mechanical_harne.Harness.World.{Harness, World, CommitRequest}
use autocad_mechanical_harne.Harness.Act.{
  Act, ◌>>=◌, ◌>>◌, attempt, give, read, modify, change_store, now, fresh_id, audit,
}
use autocad_mechanical_harne.Harness.Lock.{is_valid_at, heartbeats}

-- `operation_types.get(id)` and `operation_layers.get(id)`: of operations with one identifier the last
-- counts.
unfoldable pub last_with : String → List Operation → Option Operation
last_with id [] = none
last_with id (o ∷ os) = elim (last_with id os) [
  | some later ↦ some later
  | none ↦ if o.operation_id == id then some o else none
]

abbrev deletes : Option Operation → Bool
deletes none = false
deletes (some o) = is_delete o.type

abbrev layer_of : Option Operation → Option String
layer_of none = none
layer_of (some o) = some o.layer

-- The mappings of what a commit has left in the drawing.
unfoldable pub mappings_of :
    String → List Operation → String → List EntityResult → List EntityMappingRecord
unfolding last_with
mappings_of document_id operations new_revision [] = []
mappings_of document_id operations new_revision (e ∷ es) =
    let rest = mappings_of document_id operations new_revision es in
    if deletes (last_with e.operation_id operations)
    then rest
    else record {
      document_id = document_id;
      feature_id = e.feature_id;
      operation_id = e.operation_id;
      entity_ref = e.entity_ref;
      last_revision = new_revision;
      expected_layer = layer_of (last_with e.operation_id operations);
    }
      ∷ rest

unfoldable pub checkpoint_of : String → CommitResult → Option Checkpoint
checkpoint_of job_id result = elim result.checkpoint_id [
  | none ↦ none
  | some id ↦ some (record {
    checkpoint_id = id;
    job_id = job_id;
    revision = result.previous_revision;
    artifact_ref = "adapter-checkpoint://" <> id;
  })
]

-- A pair of a rule and an entity among the findings.
unfoldable pub is_found : String → Option String → List Finding → Bool
is_found rule_id entity_ref [] = false
is_found rule_id entity_ref (f ∷ fs) =
    (f.rule_id == rule_id && option_eq f.entity_ref entity_ref) || is_found rule_id entity_ref fs

unfoldable pub any_remaining : List (String × String) → List Finding → Bool
unfolding is_found
any_remaining [] fs = false
any_remaining ((rule_id, entity_ref) ∷ selected) fs =
    is_found rule_id (some entity_ref) fs || any_remaining selected fs

-- `current_set - baseline_set` is not empty.
unfoldable pub any_introduced : List Finding → List Finding → Bool
unfolding is_found
any_introduced [] baseline = false
any_introduced (f ∷ fs) baseline =
    not (is_found f.rule_id f.entity_ref baseline) || any_introduced fs baseline

-- expected_layers_by_ref
unfoldable pub layers_by_ref : List EntityMappingRecord → List (String × String)
layers_by_ref [] = []
layers_by_ref (m ∷ ms) =
    let rest = layers_by_ref ms in
    elim m.expected_layer [ none ↦ rest | some layer ↦ (m.entity_ref, layer) ∷ rest ]

abbrev is_empty : List (String × String) → Bool
is_empty [] = true
is_empty (p ∷ ps) = false

unfoldable pub is_unknown : HarnessError → Bool
is_unknown unknown_commit_state = true
is_unknown _ = false

-- What a failed write leaves the job in, and what is raised.
unfoldable pub failure_target : HarnessError → Bool → JobState
failure_target exc valid = if is_unknown exc || not valid then unknown_commit else failed

unfoldable pub failure_error : HarnessError → Bool → HarnessError
failure_error exc valid = if not valid && not (is_unknown exc) then unknown_commit_state else exc

-- What a commit works on once it is authorized.
pub record Ticket : Type 0 where
  pub job : CadJob
  pub plan : OperationPlan
  pub idempotency_key : String
  pub request_digest : String
  pub expected_revision : String
  pub approval_token : String
  pub remediation : Option RemediationResult

abbrev pub handle_valid : {S : Type 0} → World S → ℕ → Bool
handle_valid w at = elim w.handle [ none ↦ false | some hd ↦ is_valid_at hd at ]

-- `if released: lease.mark_released()`
abbrev mark_released : {S : Type 0} → Bool → World S → World S
mark_released false w = w
mark_released true w = elim w.handle [
  | none ↦ w
  | some hd ↦ record w { handle = some (record hd { released = true }) }
]

-- A finalization of the store, which tells whether it has released the lease.
abbrev finishing : {S : Type 0} → (JobStore → Bool × JobStore) → Act S (Unit {0})
finishing f w = (ok tt, mark_released (f w.store).0 (record w { store = (f w.store).1 }))

module _ {S : Type 0} (h : Harness S) (t : Ticket) where
  abbrev job_id : String
  job_id = t.job.job_id

  -- The `except` of the adapter's commit: FAILED, or UNKNOWN_COMMIT_STATE if the outcome is not known.
  unfoldable pub commit_failed : CadJob → HarnessError → Act S CommitResult
  commit_failed job exc = do
    at ← now h
    valid ← read (λ w. ok (handle_valid w at))
    later ← now h
    terminal ← read (λ w. transition_to job (failure_target exc valid) no_updates later)
    finishing (λ s. finalize_job s terminal [])
    audit "COMMIT_FAILED" (some job_id) "system" "harness"
    read (λ w. err (failure_error exc valid))

  -- The three places that finalize a commit whose write has happened.
  unfoldable pub finalize : CadJob → JobState → CommitResult → Act S (Unit {0})
  finalize job target result = do
    later ← now h
    terminal ← read (λ w.
        transition_to job target
          (λ j. record j {
            checkpoint_id = result.checkpoint_id;
            expected_revision = result.new_revision;
          })
          later)
    finishing (λ s.
        finalize_commit s terminal
          (mappings_of t.job.document_id t.plan.operations result.new_revision
            result.entity_results)
          t.idempotency_key t.request_digest result (checkpoint_of job_id result))

  -- The `try` of the remediation audit: whether selected findings remain or new ones came up.
  unfoldable pub audit_remediation : CommitResult → RemediationResult → Act S Bool
  audit_remediation result remediation = do
    reader ← read (λ w. or_raise h.drawing_model_reader assertion_error)
    readback ← read (λ w. reader w.drawing t.job.document_id)
    read (λ w. guard (readback.revision == result.new_revision) stale_document_revision)
    report ← read (λ w.
        h.audit_drawing readback
          (layers_by_ref (entity_mappings_for t.job.document_id w.store.entity_mappings)) job_id)
    change_store (λ s. save_validation s report)
    audit_store ← read (λ w. or_raise h.drawing_audit_store assertion_error)
    baseline ← read (λ w. or_raise (audit_store remediation.audit_id) document_not_found)
    give (
        any_remaining remediation.selected_findings report.findings
        || any_introduced report.findings baseline)

  -- The audit with its `except`: what cannot be read back counts as not resolved.
  unfoldable pub unresolved : CommitResult → Option RemediationResult → Act S Bool
  unresolved result none = give false
  unresolved result (some remediation) = do
    bad ←
        attempt (audit_remediation result remediation) (λ bad. give bad)
          (λ e. give (not (is_empty remediation.selected_findings)))
    audit "DRAWING_AUDITED" (some job_id) "system" "harness"
    give bad

  unfoldable pub succeed : CadJob → CommitResult → Act S CommitResult
  succeed job result = do
    finalize job committed result
    audit "COMMIT_SUCCEEDED" (some job_id) "system" "harness"
    give result

  -- The lease was lost: the mappings are kept, but no execution is recorded.
  unfoldable pub lose : CadJob → CommitResult → Act S CommitResult
  lose job result = do
    later ← now h
    terminal ← read (λ w. transition_to job unknown_commit no_updates later)
    finishing (λ s.
        finalize_job s terminal (
          mappings_of t.job.document_id t.plan.operations result.new_revision
            result.entity_results))
    read (λ w. err unknown_commit_state)

  -- The outcome of a write that has passed its read-back.
  unfoldable pub conclude : CadJob → CommitResult → Act S CommitResult
  conclude job result = do
    at ← now h
    valid ← read (λ w. ok (handle_valid w at))
    if valid then succeed job result else lose job result

  unfoldable pub reject : CadJob → CommitResult → Act S CommitResult
  reject job result = do
    finalize job failed result
    audit "COMMIT_FAILED" (some job_id) "system" "harness"
    read (λ w. err post_commit_validation_failed)

  unfoldable pub settle : CadJob → CommitResult → Act S CommitResult
  settle job result = do
    bad ← unresolved result t.remediation
    modify (heartbeats h h.beats.1)
    if bad then reject job result else conclude job result

  -- Everything after the adapter has answered with a result.
  unfoldable pub after_write : CadJob → CommitResult → Act S CommitResult
  after_write job result = do
    validation_id ← fresh_id h
    report ← read (λ w.
        run h.rules h.schema_version post_commit
          (record { profile = h.profile; plan = some t.plan; commit_result = some result }) job_id
          validation_id)
    change_store (λ s. save_validation s report)
    if has_blocking report then reject job result else settle job result

  abbrev pub keep_receipt : CommitResult → World S → World S
  keep_receipt result w = elim result.undo_group [
    | none ↦ w
    | some group ↦ record w {
      undo_rollback_receipts =
          Dict.put w.undo_rollback_receipts job_id (group, result.new_revision);
    }
  ]

  abbrev pub request : CommitRequest
  request = record {
    plan = t.plan;
    idempotency_key = t.idempotency_key;
    expected_revision = t.expected_revision;
    approval_token = t.approval_token;
  }

  -- The adapter's commit, during which the lease is renewed.
  unfoldable pub call_adapter : World S → Result CommitResult × World S
  call_adapter w = (
    (h.adapter.commit request w.drawing).0,
    heartbeats h h.beats.0 (record w { drawing = (h.adapter.commit request w.drawing).1 }),
  )

  unfoldable pub write : CadJob → Act S CommitResult
  write job =
      attempt call_adapter (λ result. do modify (keep_receipt result); after_write job result)
        (commit_failed job)

  -- The body of the `with` of `hold`.
  unfoldable pub start : Act S CommitResult
  start = do
    at ← now h
    job ← read (λ w. transition_to t.job committing no_updates at)
    change_store (λ s. save_job s job)
    audit "COMMIT_STARTED" (some job_id) "system" "harness"
    write job
