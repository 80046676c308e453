-- ===== src/Harness/Examples.antt =====
-- The theorems of Harness on the small harness of Harness/Demo, on which a commit runs to its end.
mod Reviews
mod Restores
mod Drawings
use autocad_mechanical_harne.Base.{String, ◌≡◌, refl, ap, ◌⊎◌, [], ◌∷◌, ℕ}
use autocad_mechanical_harne.Base.Dict
use autocad_mechanical_harne.Errors.{HarnessError, ok, err}
use autocad_mechanical_harne.Canonical
use autocad_mechanical_harne.Job
use autocad_mechanical_harne.Plan
use autocad_mechanical_harne.Lease
use autocad_mechanical_harne.Store
use autocad_mechanical_harne.Approval
use autocad_mechanical_harne.Approval.Text
use autocad_mechanical_harne.Approval.Token
use autocad_mechanical_harne.Validation
use autocad_mechanical_harne.Harness.World.{World}
use autocad_mechanical_harne.Harness.Demo.{harness, world, call, result, store, job}
use autocad_mechanical_harne.Harness.Checks
use autocad_mechanical_harne.Harness.Gates
use autocad_mechanical_harne.Harness.Styles
use autocad_mechanical_harne.Harness.Lifecycle
use autocad_mechanical_harne.Harness.Lock
use autocad_mechanical_harne.Harness.Finish
use autocad_mechanical_harne.Harness.Commit
use autocad_mechanical_harne.Harness.Commit.Guarded.{Authorized, commit-Authorized}
use autocad_mechanical_harne.Harness.Commit.Once.{commit_once}
use autocad_mechanical_harne.Harness.Commit.Receipt.{Recorded, commit_recorded, commit_receipt}

done : (Commit.commit harness call world).0 ≡ ok result
unfolding Commit.commit Commit.replay_or_commit Commit.first_commit Commit.recheck Gates.authorize
    Gates.standing Gates.report_allows Gates.check_revision Gates.check_approval
    Gates.verified_approval Gates.recorded_approval Gates.check_reuse Gates.request_digest
    Checks.require_job Checks.require_plan Checks.require_current_plan_schema Checks.plan_bound
    Checks.validation_matches_plan Checks.load_remediation_for_plan Checks.require_writer_compatible
    Checks.any_remediation Store.get_job Store.get_plan Store.get_approval Store.get_validation
    Store.get_remediation Store.find_execution Store.save_job Store.save_validation
    Store.finalize_commit Store.finalize_job Plan.verify_hash Plan.compute_hash Job.new_job
    Job.transition_to Job.assert_transition Job.allowed_transitions Validation.as_ref
    Validation.gate_allows_commit Validation.has_blocking Validation.warning_rule_ids
    Validation.issubset Validation.run Validation.derive_severity_counts Validation.rules_for
    Validation.collect Validation.count Dict.get Dict.put Dict.lookup_items Dict.insert_items
    Approval.is_expired Approval.matches Text.is_ascii Text.split_dot Text.all_base64url
    Text.padding Token.verify_approval_token Token.verify_parts Token.read_token
    Token.compare_digest Token.decode_claims Token.canonical Token.scope_claims Token.checked_claims
    Canonical.canonical_json Lifecycle.inspect_document Lifecycle.validate_plan
    Lifecycle.with_live_findings Lifecycle.advance_validated Styles.missing_live_style_findings
    Lock.hold Lock.take Lock.let_go Lock.heartbeats Lock.beat Lock.renew_with Lock.is_valid_at
    Lease.try_acquire Lease.active_lease Lease.if_active Lease.writer_lease Lease.empty_leases
    Lease.renew Lease.find_lease Finish.start Finish.write Finish.call_adapter Finish.after_write
    Finish.settle Finish.unresolved Finish.conclude Finish.succeed Finish.finalize Dict.empty
done = refl

commit-Authorized_example :
    ((Commit.commit harness call world).1.drawing ≡ world.drawing) ⊎ Authorized harness call world
commit-Authorized_example = commit-Authorized harness call world

abbrev again : Gates.CommitCall
again = record call { idempotency_key = "key_2" }

commit_once_example :
    ((Commit.commit harness call world).1.drawing ≡ world.drawing)
    ⊎ ((Commit.commit harness again (Commit.commit harness call world).1).1.drawing
        ≡ (Commit.commit harness call world).1.drawing)
unfolding Store.get_job Dict.get Dict.lookup_items Job.new_job
commit_once_example = commit_once harness call again world job refl refl refl

abbrev later : World ℕ
later = record world {
  store = record store {
    executions =
        record {
          job_id = "job_1";
          idempotency_key = "key_1";
          request_digest = "sha256:a";
          result = result;
        }
        ∷ [];
  };
}

commit_recorded_example :
    ((Commit.commit harness call later).1 ≡ record later { ticks = 1 })
    × (((e : HarnessError) × ((Commit.commit harness call later).0 ≡ err e))
        ⊎ (((Commit.commit harness call later).0 ≡ ok result)
            × (Gates.request_digest harness call ≡ ok "sha256:a")))
unfolding Store.find_execution Gates.request_digest
commit_recorded_example = commit_recorded harness call later "sha256:a" result refl

commit_receipt_example :
    (digest : String) × (Gates.request_digest harness call ≡ ok digest)
    × Recorded "job_1" "key_1" digest result (Commit.commit harness call world).1.store
unfolding Store.find_execution Store.get_job Dict.get Dict.lookup_items Job.new_job
commit_receipt_example =
    commit_receipt harness call world (Commit.commit harness call world).1 result job refl refl refl
      (ap (λ r. (r, (Commit.commit harness call world).1)) done)
