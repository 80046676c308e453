-- ===== src/Fake/Examples.antt =====
-- A drawing of one line, and plans on it, for the adapter of cad_harness/adapters/fake.py.
use autocad_mechanical_harne.Base.{
  ℕ, suc, String, ◌≡◌, ◌≢◌, refl, ap, arith, eq_iff, true, Option, none, some, ◌⊎◌, nat_eq,
  if◌then◌else◌, List, [], ◌∷◌,
}
use autocad_mechanical_harne.Base.Dict
use autocad_mechanical_harne.Base.Dict.{Dict}
use autocad_mechanical_harne.Errors.{Result, ok, err, com_call_failed, value_error}
use autocad_mechanical_harne.Value.{Value}
use autocad_mechanical_harne.Canonical
use autocad_mechanical_harne.Plan.{Operation, OperationPlan, create_line, delete_entity}
use autocad_mechanical_harne.Outcome.{CommitResult, RollbackResult, committed}
use autocad_mechanical_harne.Harness.World.{CommitRequest, RollbackRequest}
use autocad_mechanical_harne.Fake
use autocad_mechanical_harne.Fake.{FakeEntity, FakeDocument, FakeAdapter, Circle, Staged}
use autocad_mechanical_harne.Fake.Methods
use autocad_mechanical_harne.Fake.Commits.{fake_commit_atomic, fake_commit_replays, Unrecorded}
use autocad_mechanical_harne.Fake.Undo.{fake_rollback-commit}
use autocad_mechanical_harne.Fake.Entities.{IsDrawing}
use autocad_mechanical_harne.Fake.Drawing.{fake_commit_staged}

abbrev pub round_float : ℕ → Option ℕ
round_float bits = some bits

abbrev pub json_dumps : Value → String
json_dumps v = "{}"

abbrev pub hexdigest : String → String
hexdigest text = "0"

abbrev pub sha256_of : Value → Result String
sha256_of = Canonical.sha256_of round_float json_dumps hexdigest

abbrev pub new_id : ℕ → String
new_id n = "checkpoint_1"

abbrev pub circles : Operation → Result (List Circle)
circles o = ok []

abbrev pub measure : Operation → Result (Dict Value)
measure o = ok Dict.empty

abbrev edge : FakeEntity
edge = record {
  entity_ref = "fake:handle:1";
  entity_type = "AcDbLine";
  layer = "0";
  feature_id = "edge";
  operation_id = "op_0";
  geometry = record { items = [] };
  measurements = record { items = [] };
}

abbrev pub start : FakeAdapter
start = record {
  document = record {
    document_id = "doc_1";
    display_name = "fake-drawing.dwg";
    units = "mm";
    entities = record { items = ("fake:handle:1", edge) ∷ [] };
    layers = "0" ∷ [];
    write_counter = 3;
    snapshots = record { items = [] };
  };
  entity_counter = 27;
  executions = record { items = [] };
  issued = 0;
}

abbrev pub line : Operation
line = record {
  operation_id = "op_1";
  feature_id = "edge";
  type = create_line;
  layer = "OBJECT";
  geometry = Dict.empty;
  expected = Dict.empty;
  target_entity_ref = none;
}

abbrev pub deletion : Operation
deletion = record line {
  operation_id = "op_2";
  type = delete_entity;
  target_entity_ref = some "fake:handle:1";
}

abbrev plan : OperationPlan
plan = record {
  schema_version = "1.13";
  plan_id = "plan_1";
  job_id = "job_1";
  document_id = "doc_1";
  expected_revision = "sha256:0";
  canonical_units = "mm";
  profile_ref = "demo@1.0";
  operations = line ∷ deletion ∷ [];
  validation_expectations = [];
  plan_hash = some "sha256:a";
}

abbrev pub request : CommitRequest
request = record {
  plan = plan;
  idempotency_key = "key_1";
  expected_revision = "sha256:0";
  approval_token = "v2.e30.0";
}

-- The line is deleted twice.
abbrev failing : CommitRequest
failing = record request { plan = record plan { operations = line ∷ deletion ∷ deletion ∷ [] } }

abbrev commit : CommitRequest → FakeAdapter → Result CommitResult × FakeAdapter
commit = Methods.fake_commit sha256_of new_id circles measure

abbrev result : CommitResult
result = record {
  job_id = "job_1";
  plan_hash = "sha256:a";
  status = committed;
  entity_results =
      record {
        operation_id = "op_1";
        feature_id = "edge";
        entity_ref = "fake:handle:1C";
        entity_type = "AcDbLine";
        measurements = Dict.empty;
      }
      ∷ record {
        operation_id = "op_2";
        feature_id = "edge";
        entity_ref = "fake:handle:1";
        entity_type = "AcDbLine";
        measurements = Dict.put Dict.empty "deleted" (Value.bool true);
      }
      ∷ [];
  previous_revision = "sha256:0";
  new_revision = "sha256:0";
  checkpoint_id = some "checkpoint_1";
  undo_group = some "fake-undo-4";
}

done : (commit request start).0 ≡ ok result
unfolding Methods.fake_commit Dict.get Dict.put Canonical.sha256_of Canonical.canonical_json
    Canonical.normalize Methods.fingerprint Dict.values Methods.insert_print Dict.pop Dict.empty
done = refl

failed : (commit failing start).0 ≡ err com_call_failed
unfolding Methods.fake_commit Dict.get Dict.put Dict.pop Canonical.sha256_of
    Canonical.canonical_json Canonical.normalize Methods.fingerprint Dict.values
    Methods.insert_print
failed = refl

-- A geometry that is not finite is found out when the drawing has been written already.
abbrev infinite : ℕ
infinite = 9_218_868_437_227_405_312

abbrev finite_only : ℕ → Option ℕ
finite_only bits = if nat_eq bits infinite then none else some bits

abbrev unbounded : CommitRequest
unbounded = record request {
  plan = record plan {
    operations =
        record line { geometry = record { items = ("length_mm", Value.float infinite) ∷ [] } } ∷ [];
  };
}

abbrev write_unbounded : Result CommitResult × FakeAdapter
write_unbounded =
    Methods.fake_commit (Canonical.sha256_of finite_only json_dumps hexdigest) new_id circles
      measure unbounded start

written_yet_failed :
    (write_unbounded.0 ≡ err value_error) × (write_unbounded.1.document.write_counter ≡ 4)
unfolding Methods.fake_commit Dict.get Dict.put Dict.pop Canonical.sha256_of
    Canonical.canonical_json Canonical.normalize Methods.fingerprint Dict.values
    Methods.insert_print
written_yet_failed = (refl, refl)

abbrev after : FakeAdapter
after = (commit request start).1

abbrev after_failure : FakeAdapter
after_failure = (commit failing start).1

fake_commit_atomic_example :
    ((after_failure.document ≡ start.document)
      × (after_failure.executions ≡ start.executions)
      × (after_failure.entity_counter ≡ start.entity_counter))
    ⊎ Unrecorded sha256_of new_id circles measure failing start com_call_failed after_failure
unfolding Dict.get
fake_commit_atomic_example =
    fake_commit_atomic sha256_of new_id circles measure failing start after_failure com_call_failed
      refl (ap (λ r. (r, after_failure)) failed)

fake_commit_replays_example : commit failing after ≡ (ok result, after)
fake_commit_replays_example =
    fake_commit_replays sha256_of new_id circles measure request failing start after result refl
      (ap (λ r. (r, after)) done)

abbrev back : RollbackRequest
back = record {
  job_id = "job_1";
  document_id = "doc_1";
  checkpoint_id = "checkpoint_1";
  current_revision = "sha256:0";
  rollback_approval_token = "rb1.e30.0";
  undo_group = none;
}

named : ◌≢◌ {A = String} "checkpoint_1" ""
named = ground (arith, eq_iff "checkpoint_1" "")

fake_rollback-commit_example :
    (undone : RollbackResult) × (a : FakeAdapter) × (Methods.fake_rollback sha256_of new_id circles
        measure back after
      ≡ (ok undone, a))
    × (a.document.entities ≡ start.document.entities)
    × (a.document.write_counter ≡ suc (suc start.document.write_counter))
unfolding Dict.get Methods.current_revision
fake_rollback-commit_example =
    fake_rollback-commit round_float json_dumps hexdigest new_id circles measure request start after
      result back refl (ap (λ r. (r, after)) done) named refl refl refl

fake_commit_staged_example :
    (s : Staged) × (Fake.stage circles measure
        (line ∷ deletion ∷ [])
        (record { entities = start.document.entities; counter = 27 })
        []
      ≡ ok (s, result.entity_results))
    × ((k : String) → Dict.get after.document.entities k ≡ Dict.get s.entities k)
    × IsDrawing after.document.entities
unfolding Dict.get Dict.lookup_items
fake_commit_staged_example =
    fake_commit_staged sha256_of new_id circles measure request start after result (refl, refl, tt)
      refl (ap (λ r. (r, after)) done)
