-- ===== src/Harness/Examples/Drawings.antt =====
-- A rollback of HarnessService over the in-memory drawing of cad_harness/adapters/fake.py.
use autocad_mechanical_harne.Base.{ℕ, String, ◌≡◌, refl, ap, [], ◌∷◌, none, some, true, List}
use autocad_mechanical_harne.Base.Dict
use autocad_mechanical_harne.Base.Dict.{Dict}
use autocad_mechanical_harne.Errors.{Result, ok}
use autocad_mechanical_harne.Value.{Value}
use autocad_mechanical_harne.Job
use autocad_mechanical_harne.Job.{CadJob, rolled_back}
use autocad_mechanical_harne.Lease
use autocad_mechanical_harne.Plan.{Operation}
use autocad_mechanical_harne.Store
use autocad_mechanical_harne.Outcome.{RollbackResult, by_checkpoint_restore}
use autocad_mechanical_harne.Approval.Text
use autocad_mechanical_harne.Approval.Token
use autocad_mechanical_harne.Approval.Rollback as Authority
use autocad_mechanical_harne.Approval.Rollback.Tokens.{sorted_rollback_claims}
use autocad_mechanical_harne.Harness.World.{Harness, World}
use autocad_mechanical_harne.Harness.Demo
use autocad_mechanical_harne.Harness.Checks
use autocad_mechanical_harne.Harness.Lock
use autocad_mechanical_harne.Harness.Rollback
use autocad_mechanical_harne.Harness.Rollback.Restored.{rollback_restores}
use autocad_mechanical_harne.Harness.Examples.Restores.{granted, token, job}
use autocad_mechanical_harne.Fake.{FakeEntity, FakeDocument, FakeAdapter, Circle}
use autocad_mechanical_harne.Fake.Methods

abbrev sha256_of : Value → Result String
sha256_of v = ok "sha256:1"

abbrev new_id : ℕ → String
new_id n = "checkpoint_2"

abbrev circles : Operation → Result (List Circle)
circles o = ok []

abbrev measure : Operation → Result (Dict Value)
measure o = ok Dict.empty

abbrev saved : Dict FakeEntity
saved = record {
  items =
      (
        "fake:handle:1",
        record {
          entity_ref = "fake:handle:1";
          entity_type = "AcDbLine";
          layer = "0";
          feature_id = "edge";
          operation_id = "op_0";
          geometry = record { items = [] };
          measurements = record { items = [] };
        },
      )
      ∷ [];
}

abbrev document : FakeDocument
document = record {
  document_id = "doc_1";
  display_name = "fake-drawing.dwg";
  units = "mm";
  entities = record { items = [] };
  layers = "0" ∷ [];
  write_counter = 1;
  snapshots = record { items = ("checkpoint_1", saved) ∷ [] };
}

-- The small harness with its adapter exchanged.
abbrev harness : Harness FakeAdapter
harness = record {
  adapter = Methods.fake_adapter sha256_of new_id circles measure;
  require_commit_approval = true;
  approval_secret = "secret";
  approval_ttl = 800;
  rollback_approval_ttl = 600;
  lease_ttl = 30;
  schema_version = "1.13";
  profile = Demo.harness.profile;
  rules = [];
  codec = Demo.codec_of (sorted_rollback_claims (Demo.codec_of Value.null) granted);
  parse_time = Demo.harness.parse_time;
  is_blank = Demo.harness.is_blank;
  sha256_text = Demo.harness.sha256_text;
  sha256_of = sha256_of;
  writer_supported = Demo.harness.writer_supported;
  drawing_model_reader = none;
  audit_drawing = Demo.harness.audit_drawing;
  drawing_audit_store = none;
  remediation_eq = Demo.harness.remediation_eq;
  spec_of = Demo.harness.spec_of;
  compile = Demo.harness.compile;
  preflight = Demo.harness.preflight;
  preview = Demo.harness.preview;
  clock = Demo.harness.clock;
  new_id = Demo.harness.new_id;
  beats = (1, 1);
}

abbrev world : World FakeAdapter
world = record {
  drawing = record {
    document = document;
    entity_counter = 1;
    executions = record { items = [] };
    issued = 1;
  };
  store = record Demo.store { jobs = record { items = ("job_1", job) ∷ [] } };
  leases = Lease.empty_leases;
  handle = none;
  snapshots = record { items = [] };
  undo_rollback_receipts = record { items = [] };
  durable_rollback_recoveries = record { items = [] };
  remediation_jobs = record { items = [] };
  events = [];
  ticks = 0;
  ids = 0;
}

abbrev result : RollbackResult
result = record {
  job_id = "job_1";
  restored_revision = "sha256:1";
  checkpoint_id = some "checkpoint_1";
  method = by_checkpoint_restore;
}

done : (Rollback.rollback harness "job_1" "checkpoint_1" "sha256:1" token world).0 ≡ ok result
unfolding Rollback.rollback Rollback.authorize_rollback Rollback.authorize_job Rollback.authenticate
    Rollback.check_recovery Rollback.check_checkpoint Rollback.proven_checkpoint
    Rollback.check_receipt Rollback.check_writer Rollback.restore Rollback.check_current
    Rollback.call_rollback Rollback.rolled Checks.require_job Checks.require_writer_compatible
    Store.get_job Store.save_job Job.new_job Job.transition_to Job.assert_transition
    Job.allowed_transitions Dict.get Dict.put Dict.pop Dict.lookup_items Dict.insert_items
    Dict.remove_items Dict.empty Text.is_ascii Text.split_dot Text.all_base64url Text.padding
    Token.read_token Token.compare_digest Token.decode_claims Token.checked_claims Lock.hold
    Lock.take Lock.let_go Lock.heartbeats Lock.beat Lock.renew_with Lease.try_acquire
    Lease.active_lease Lease.if_active Lease.writer_lease Lease.empty_leases Lease.renew
    Lease.find_lease Authority.verify_rollback_approval_token Methods.fake_rollback
    Methods.fake_validate Methods.fake_status Methods.checkpoint_entities Methods.current_revision
    Dict.values
done = refl

abbrev after : World FakeAdapter
after = (Rollback.rollback harness "job_1" "checkpoint_1" "sha256:1" token world).1

rollback_restores_example :
    (entities : Dict FakeEntity) × (j : CadJob) × (Dict.get document.snapshots "checkpoint_1"
      ≡ some entities)
    × (Methods.fake_validate sha256_of new_id circles measure world.drawing "doc_1" "sha256:1"
        ≡ ok true)
    × (after.drawing.document.entities ≡ entities)
    × (after.drawing.document.snapshots ≡ document.snapshots)
    × (Store.get_job after.store "job_1" ≡ some j)
    × (j.state ≡ rolled_back)
unfolding Store.get_job Dict.get Dict.lookup_items Job.new_job
rollback_restores_example =
    rollback_restores sha256_of new_id circles measure harness "job_1" "checkpoint_1" "sha256:1"
      token world after job result refl refl refl (ap (λ r. (r, after)) done)
