-- ===== src/Harness/Examples/Restores.antt =====
-- A rollback of HarnessService that runs to its end on the small harness of Harness/Demo.
use autocad_mechanical_harne.Base.{
  ℕ, ◌≡◌, refl, ap, ◌⊎◌, [], ◌∷◌, some, none, nat_eq, String, ◌==◌, ◌&&◌,
}
use autocad_mechanical_harne.Base.Dict
use autocad_mechanical_harne.Errors.{ok}
use autocad_mechanical_harne.Value.{Value}
use autocad_mechanical_harne.Job
use autocad_mechanical_harne.Job.{CadJob, committed}
use autocad_mechanical_harne.Lease
use autocad_mechanical_harne.Store
use autocad_mechanical_harne.Outcome.{RollbackResult, by_checkpoint_restore}
use autocad_mechanical_harne.Approval.Text
use autocad_mechanical_harne.Approval.Token
use autocad_mechanical_harne.Approval.Rollback as Authority
use autocad_mechanical_harne.Approval.Rollback.{RollbackApprovalRecord}
use autocad_mechanical_harne.Approval.Rollback.Tokens.{sorted_rollback_claims}
use autocad_mechanical_harne.Harness.World.{Harness, World, RollbackRequest}
use autocad_mechanical_harne.Harness.Demo
use autocad_mechanical_harne.Harness.Checks
use autocad_mechanical_harne.Harness.Lock
use autocad_mechanical_harne.Harness.Rollback
use autocad_mechanical_harne.Harness.Rollback.Guarded.{Entitled, rollback-Entitled}
use autocad_mechanical_harne.Harness.Rollback.Once.{Done, rollback-Done, rollback_once}
use autocad_mechanical_harne.Harness.Rollback.Frees.{rollback-free}

abbrev pub granted : RollbackApprovalRecord
granted = record {
  schema_version = "1.13";
  approval_id = "approval_2";
  job_id = "job_1";
  document_id = "doc_1";
  checkpoint_id = "checkpoint_1";
  current_revision = "sha256:1";
  approved_by = "engineer";
  approved_at = 900;
  expires_at = 900;
}

abbrev pub token : String
token = "rb1.e30.0123456789abcdef0123456789abcdef0123456789abcdef0123456789abcdef"

abbrev restored : RollbackResult
restored = record {
  job_id = "job_1";
  restored_revision = "sha256:0";
  checkpoint_id = some "checkpoint_1";
  method = by_checkpoint_restore;
}

abbrev harness : Harness ℕ
harness = record Demo.harness {
  codec = Demo.codec_of (sorted_rollback_claims (Demo.codec_of Value.null) granted);
  adapter = record Demo.adapter {
    validate_revision = λ n d r. ok (nat_eq n 1 && r == "sha256:1");
    rollback = λ c n. (ok restored, 0);
  };
}

abbrev pub job : CadJob
job = record Demo.job {
  state = committed;
  expected_revision = "sha256:1";
  checkpoint_id = some "checkpoint_1";
}

abbrev world : World ℕ
world = record Demo.world {
  drawing = 1;
  store = record Demo.store { jobs = record { items = ("job_1", job) ∷ [] } };
}

done : (Rollback.rollback harness "job_1" "checkpoint_1" "sha256:1" token world).0 ≡ ok restored
unfolding Rollback.rollback Rollback.authorize_rollback Rollback.authorize_job Rollback.authenticate
    Rollback.check_recovery Rollback.check_checkpoint Rollback.proven_checkpoint
    Rollback.check_receipt Rollback.check_writer Rollback.restore Rollback.check_current
    Rollback.call_rollback Rollback.rolled Checks.require_job Checks.require_writer_compatible
    Store.get_job Store.save_job Job.new_job Job.transition_to Job.assert_transition
    Job.allowed_transitions Dict.get Dict.put Dict.pop Dict.lookup_items Dict.insert_items
    Dict.remove_items Dict.empty Text.is_ascii Text.split_dot Text.all_base64url Text.padding
    Token.read_token Token.compare_digest Token.decode_claims Token.checked_claims Lock.hold
    Lock.take Lock.let_go Lock.heartbeats Lock.beat Lock.renew_with Lease.try_acquire
    Lease.active_lease Lease.if_active Lease.writer_lease Lease.empty_leases Lease.renew
    Lease.find_lease Authority.verify_rollback_approval_token
done = refl

rollback-Entitled_example :
    ((Rollback.rollback harness "job_1" "checkpoint_1" "sha256:1" token world).1.drawing
      ≡ world.drawing)
    ⊎ Entitled harness "job_1" "checkpoint_1" "sha256:1" token world
rollback-Entitled_example = rollback-Entitled harness "job_1" "checkpoint_1" "sha256:1" token world

abbrev after : World ℕ
after = (Rollback.rollback harness "job_1" "checkpoint_1" "sha256:1" token world).1

rollback-Done_example :
    (request : RollbackRequest) × (request.document_id ≡ "doc_1")
    × (request.checkpoint_id ≡ "checkpoint_1")
    × (request.current_revision ≡ "sha256:1")
    × Done harness "job_1" restored request 1 after
unfolding Store.get_job Dict.get Dict.lookup_items Job.new_job
rollback-Done_example =
    rollback-Done harness "job_1" "checkpoint_1" "sha256:1" token world after job restored refl refl
      (ap (λ r. (r, after)) done)

rollback_once_example :
    (Rollback.rollback harness "job_1" "checkpoint_1" "sha256:0" token after).1.drawing
    ≡ after.drawing
unfolding Store.get_job Dict.get Dict.lookup_items Job.new_job
rollback_once_example =
    rollback_once harness "job_1" "checkpoint_1" "sha256:1" token world after job restored
      "checkpoint_1" "sha256:0" token refl refl (ap (λ r. (r, after)) done)

rollback-free_example :
    Lease.active_lease
      (Rollback.rollback harness "job_1" "checkpoint_1" "sha256:1" token world).1.leases
      "doc_1"
      901
    ≡ none
unfolding Store.get_job Dict.get Dict.lookup_items Job.new_job Lease.find_lease Lease.active_lease
    Lease.empty_leases Dict.empty Lease.if_active
rollback-free_example =
    rollback-free harness "job_1" "checkpoint_1" "sha256:1" token world job 901 refl (tt, tt) refl
      refl
