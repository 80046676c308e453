-- ===== src/Harness/Commit.antt =====
-- HarnessService._commit: the gates of Harness/Gates in their order, the fresh evidence, and the hold of
-- the lease around `start` of Harness/Finish. The clock is read once for the authorization.
pub mod Established
pub mod Evidence
pub mod Guarded
pub mod Flight
pub mod Once
pub mod Receipt
use autocad_mechanical_harne.Base.{ℕ, String, true, Option, none, some}
use autocad_mechanical_harne.Base.Dict
use autocad_mechanical_harne.Errors.{guard, approval_required}
use autocad_mechanical_harne.Validation.{pre_commit}
use autocad_mechanical_harne.Outcome.{CommitResult}
use autocad_mechanical_harne.Store.{RemediationResult}
use autocad_mechanical_harne.Harness.World.{Harness, World}
use autocad_mechanical_harne.Harness.Act.{Act, ◌>>=◌, ◌>>◌, give, read, modify, now}
use autocad_mechanical_harne.Harness.Checks.{require_writer_compatible}
use autocad_mechanical_harne.Harness.Gates.{
  CommitCall, Authorization, authorize, standing, report_allows, check_revision,
}
use autocad_mechanical_harne.Harness.Lifecycle.{inspect_document, validate_plan}
use autocad_mechanical_harne.Harness.Lock.{hold}
use autocad_mechanical_harne.Harness.Finish.{Ticket, start}

module _ {S : Type 0} (h : Harness S) where
  abbrev pub ticket : CommitCall → Authorization → Option RemediationResult → Ticket
  ticket c a remediation = record {
    job = a.job;
    plan = a.plan;
    idempotency_key = c.idempotency_key;
    request_digest = a.request_digest;
    expected_revision = c.expected_revision;
    approval_token = c.approval_token;
    remediation = remediation;
  }

  abbrev pub cache : String → Option RemediationResult → World S → World S
  cache job_id none w = w
  cache job_id (some r) w = record w { remediation_jobs = Dict.put w.remediation_jobs job_id r }

  -- The fresh evidence and the revision, immediately before the write.
  unfoldable pub recheck : CommitCall → Authorization → Act S (Unit {0})
  recheck c a = do
    snapshot ← inspect_document h (some a.job.document_id)
    report ← validate_plan h c.job_id pre_commit true
    read (λ w. guard (report_allows h c a report) approval_required)
    read (check_revision h c a)

  abbrev pub guarded_write :
      CommitCall → Authorization → Option RemediationResult → Act S CommitResult
  guarded_write c a remediation =
      hold h a.job.document_id c.job_id (start h (ticket c a remediation))

  -- From the replay on, for a key that is used for the first time.
  unfoldable pub first_commit : CommitCall → Authorization → Act S CommitResult
  first_commit c a = do
    remediation ← read (standing h c a)
    modify (cache c.job_id remediation)
    read (require_writer_compatible h)
    recheck c a
    guarded_write c a remediation

  -- The replay of a recorded execution.
  unfoldable pub replay_or_commit : CommitCall → Authorization → Act S CommitResult
  replay_or_commit c a = elim a.previous [
    | some (digest, result) ↦ give result
    | none ↦ first_commit c a
  ]

  unfoldable pub commit : CommitCall → Act S CommitResult
  commit c = do at ← now h; a ← read (authorize h c at); replay_or_commit c a
