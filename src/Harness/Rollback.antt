-- ===== src/Harness/Rollback.antt =====
-- HarnessService.rollback_scope, approve_rollback and rollback: restoring a checkpoint under a token
-- that an engineer's approval of exactly that restore has signed.
mod Authority
pub mod Guarded
pub mod Once
pub mod Restored
pub mod Frees
use autocad_mechanical_harne.Base.{
  ℕ, String, ◌<>◌, ◌==◌, Bool, true, false, ◌&&◌, ◌||◌, not, Option, none, some, option_eq, is_some,
  if◌then◌else◌, [], ◌∷◌,
}
use autocad_mechanical_harne.Base.Dict
use autocad_mechanical_harne.Errors.{
  HarnessError, Result, ok, err, guard, rollback_not_available, stale_document_revision,
  approval_scope_mismatch, approval_expired, rollback_recovery_required,
}
use autocad_mechanical_harne.Job.{
  CadJob, committed, failed, rolled_back, is_in, transition_to, no_updates,
}
use autocad_mechanical_harne.Approval.Rollback.{
  RollbackApprovalRecord, RollbackScope, issue_rollback_approval, verify_rollback_approval_token,
  verify_rollback_recovery_token,
}
use autocad_mechanical_harne.Outcome.{RollbackResult}
use autocad_mechanical_harne.Store.{save_job}
use autocad_mechanical_harne.Harness.World.{
  Harness, World, RollbackRequest, DurableRollbackRecovery,
}
use autocad_mechanical_harne.Harness.Act.{
  Act, ◌>>=◌, ◌>>◌, attempt, give, read, modify, change_store, now, fresh_id, audit,
}
use autocad_mechanical_harne.Harness.Checks.{require_job, require_writer_compatible}
use autocad_mechanical_harne.Harness.Lifecycle.{inspect_document}
use autocad_mechanical_harne.Harness.Lock.{hold, heartbeats}

-- _DurableRollbackRecovery.matches_scope
unfoldable pub matches_scope : DurableRollbackRecovery → RollbackScope → Bool
matches_scope r s =
    r.job_id == s.job_id
    && r.document_id == s.document_id
    && r.checkpoint_id == s.checkpoint_id
    && r.current_revision == s.current_revision

-- The checkpoint of a job that stands at COMMITTED or FAILED.
unfoldable pub proven_checkpoint : CadJob → Result String
proven_checkpoint job = elim job.checkpoint_id [
  | none ↦ err rollback_not_available
  | some id ↦
      if is_in job.state (committed ∷ failed ∷ []) then ok id else err rollback_not_available
]

-- The tests on the requested checkpoint, and on the revision of a session's undo receipt.
unfoldable pub check_checkpoint : CadJob → String → Result (Unit {0})
check_checkpoint job checkpoint_id = elim (proven_checkpoint job) [
  | err raised ↦ err raised
  | ok recorded ↦ guard (recorded == checkpoint_id) rollback_not_available
]

unfoldable pub check_receipt : Option (String × String) → String → Result (Unit {0})
check_receipt none current_revision = ok tt
check_receipt (some (group, revision)) current_revision =
    guard (revision == current_revision) stale_document_revision

abbrev is_expiry : HarnessError → Bool
is_expiry approval_expired = true
is_expiry _ = false

abbrev wants_recovery : HarnessError → Bool
wants_recovery rollback_recovery_required = true
wants_recovery _ = false

-- What a rollback works on once it is authorized. `trusted` is that the drawing is not asked first: a
-- receipt or a recovery is known, or an expired token is to be matched by the bridge's journal.
pub record Restore : Type 0 where
  pub job_id : String
  pub job : CadJob
  pub checkpoint_id : String
  pub current_revision : String
  pub token : String
  pub token_digest : String
  pub approved_by : String
  pub undo_receipt : Option (String × String)
  pub trusted : Bool

module _ {S : Type 0} (h : Harness S) where
  -- The scope of a job with a proven checkpoint: the revision is the receipt's, or the drawing's own.
  unfoldable pub rollback_scope : String → Act S RollbackScope
  rollback_scope job_id = do
    job ← read (λ w. require_job w.store job_id)
    checkpoint_id ← read (λ w. proven_checkpoint job)
    receipt ← read (λ w. ok (Dict.get w.undo_rollback_receipts job_id))
    current_revision ← (elim receipt [
      | some (group, revision) ↦ give revision
      | none ↦ do snapshot ← inspect_document h (some job.document_id); give snapshot.revision
    ])
    give (record {
      job_id = job.job_id;
      document_id = job.document_id;
      checkpoint_id = checkpoint_id;
      current_revision = current_revision;
    })

  unfoldable pub approve_rollback :
      String → String → String → String → Act S (RollbackApprovalRecord × String)
  unfolding rollback_scope
  approve_rollback job_id approved_by displayed_checkpoint_id displayed_current_revision = do
    scope ← rollback_scope job_id
    read (λ w.
        guard
          (scope.checkpoint_id == displayed_checkpoint_id
            && scope.current_revision == displayed_current_revision)
          stale_document_revision)
    approval_id ← fresh_id h
    at ← now h
    (approval, token) ← read (λ w.
        issue_rollback_approval h.codec h.parse_time h.is_blank h.schema_version scope approved_by
          h.approval_secret h.rollback_approval_ttl approval_id at)
    audit "ROLLBACK_APPROVAL_GRANTED" (some job_id) "engineer" approved_by
    give (approval, token)

  -- rollback_approval_token_digest
  unfoldable pub rollback_approval_token_digest : String → String
  rollback_approval_token_digest token = h.sha256_text ("cad-harness-rb1-token-v1\0" <> token)

  -- The test of a recovery that is known for the job; both digests are hexadecimal.
  unfoldable pub check_recovery :
      Option DurableRollbackRecovery
      → Option (String × String)
      → RollbackScope
      → String
      → Result (Unit {0})
  unfolding matches_scope
  check_recovery none receipt scope digest = ok tt
  check_recovery (some r) receipt scope digest =
      guard
        (not (is_some receipt)
          && h.adapter.allows_expired_checkpoint_recovery
          && matches_scope r scope
          && r.approval_token_digest == digest)
        approval_scope_mismatch

  -- The verification of the token, and whether it had to be taken as an expired one.
  unfoldable pub authenticate :
      Option (String × String) → RollbackScope → String → Act S (RollbackApprovalRecord × Bool)
  authenticate receipt scope token = do
    at ← now h
    attempt
        (read (λ w.
          verify_rollback_approval_token h.codec h.parse_time h.is_blank h.schema_version token
            h.approval_secret scope at))
        (λ approval. give (approval, false))
        (λ e.
          if is_expiry e && (not (is_some receipt) && h.adapter.allows_expired_checkpoint_recovery)
          then (do
            later ← now h
            approval ← read (λ w.
                verify_rollback_recovery_token h.codec h.parse_time h.is_blank h.schema_version
                  token h.approval_secret scope later)
            give (approval, true))
          else read (λ w. err e))

  abbrev pub rollback_request : Restore → RollbackRequest
  rollback_request r = record {
    job_id = r.job_id;
    document_id = r.job.document_id;
    checkpoint_id = r.checkpoint_id;
    current_revision = r.current_revision;
    rollback_approval_token = r.token;
    undo_group = elim r.undo_receipt [ none ↦ none | some (group, revision) ↦ some group ];
  }

  -- The adapter's rollback, during which the lease is renewed.
  unfoldable pub call_rollback : Restore → World S → Result RollbackResult × World S
  call_rollback r w = (
    (h.adapter.rollback (rollback_request r) w.drawing).0,
    heartbeats h h.beats.0
        (record w { drawing = (h.adapter.rollback (rollback_request r) w.drawing).1 }),
  )

  -- The recoveries after a rollback that raised.
  unfoldable pub note_failure : Restore → HarnessError → World S → World S
  note_failure r e w =
      if wants_recovery e
        && (not (is_some r.undo_receipt) && h.adapter.allows_expired_checkpoint_recovery)
      then record w {
        durable_rollback_recoveries = Dict.put w.durable_rollback_recoveries r.job_id (record {
          job_id = r.job.job_id;
          document_id = r.job.document_id;
          checkpoint_id = r.checkpoint_id;
          current_revision = r.current_revision;
          approval_token_digest = r.token_digest;
        });
      }
      else record w {
        durable_rollback_recoveries = Dict.pop w.durable_rollback_recoveries r.job_id;
      }

  unfoldable pub rolled : Restore → RollbackResult → Act S RollbackResult
  rolled r result = do
    at ← now h
    job ← read (λ w. transition_to r.job rolled_back no_updates at)
    change_store (λ s. save_job s job)
    modify (λ w. record w {
      undo_rollback_receipts = Dict.pop w.undo_rollback_receipts r.job_id;
      durable_rollback_recoveries = Dict.pop w.durable_rollback_recoveries r.job_id;
    })
    give result

  -- Whether the drawing still has the approved revision, asked unless the restore is trusted.
  unfoldable pub check_current : Restore → World S → Result (Unit {0})
  check_current r w =
      if r.trusted
      then ok tt
      else elim (h.adapter.validate_revision w.drawing r.job.document_id r.current_revision) [
        | ok same ↦ guard same stale_document_revision
        | err e ↦ err e
      ]

  -- The body of the `with` of `hold`.
  unfoldable pub restore : Restore → Act S RollbackResult
  unfolding call_rollback note_failure rolled check_current
  restore r = do
    read (check_current r)
    audit "ROLLBACK_STARTED" (some r.job_id) "engineer" r.approved_by
    attempt (call_rollback r) (rolled r) (λ e. do modify (note_failure r e); read (λ w. err e))

  -- The writer gate, passed over like the revision.
  unfoldable pub check_writer : Restore → World S → Result (Unit {0})
  check_writer r w = if r.trusted then ok tt else require_writer_compatible h w

  abbrev pub prepared :
      String
      → CadJob
      → Option (String × String)
      → Option DurableRollbackRecovery
      → String
      → String
      → String
      → RollbackApprovalRecord
      → Bool
      → Restore
  prepared job_id job receipt recovery checkpoint_id current_revision token approval candidate =
      record {
        job_id = job_id;
        job = job;
        checkpoint_id = checkpoint_id;
        current_revision = current_revision;
        token = token;
        token_digest = rollback_approval_token_digest token;
        approved_by = approval.approved_by;
        undo_receipt = receipt;
        trusted = is_some receipt || (is_some recovery || candidate);
      }

  -- The gates before the lease is taken, for a job with its undo receipt and its known recovery.
  unfoldable pub authorize_job :
      String
      → CadJob
      → Option (String × String)
      → Option DurableRollbackRecovery
      → String
      → String
      → String
      → Act S Restore
  unfolding check_recovery authenticate check_checkpoint check_receipt check_writer
      rollback_approval_token_digest
  authorize_job job_id job receipt recovery checkpoint_id current_revision token = do
    let scope : RollbackScope = record {
      job_id = job.job_id;
      document_id = job.document_id;
      checkpoint_id = checkpoint_id;
      current_revision = current_revision;
    }
    let digest = rollback_approval_token_digest token
    read (λ w. check_recovery recovery receipt scope digest)
    (approval, candidate) ← authenticate receipt scope token
    read (λ w. check_checkpoint job checkpoint_id)
    read (λ w. check_receipt receipt current_revision)
    let r =
        prepared job_id job receipt recovery checkpoint_id current_revision token approval candidate
    read (check_writer r)
    give r

  unfoldable pub authorize_rollback : String → String → String → String → Act S Restore
  unfolding authorize_job
  authorize_rollback job_id checkpoint_id current_revision token = do
    job ← read (λ w. require_job w.store job_id)
    (λ w.
        authorize_job job_id job (Dict.get w.undo_rollback_receipts job_id)
          (Dict.get w.durable_rollback_recoveries job_id) checkpoint_id current_revision token w)

  unfoldable pub rollback : String → String → String → String → Act S RollbackResult
  unfolding authorize_rollback restore
  rollback job_id checkpoint_id current_revision token = do
    r ← authorize_rollback job_id checkpoint_id current_revision token
    result ← hold h r.job.document_id ("rollback:" <> job_id) (restore r)
    audit "ROLLBACK_SUCCEEDED" (some job_id) "system" "harness"
    give result
