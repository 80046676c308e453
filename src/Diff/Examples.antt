-- ===== src/Diff/Examples.antt =====
-- A plan that draws a line and changes the layer of another, and its diff.
use autocad_mechanical_harne.Base.{
  ◌+◌, String, ◌≡◌, refl, ap, true, Option, none, some, is_some, [], ◌∷◌, map, length,
}
use autocad_mechanical_harne.Base.Dict
use autocad_mechanical_harne.Errors.{ok}
use autocad_mechanical_harne.Value.{Value}
use autocad_mechanical_harne.Canonical
use autocad_mechanical_harne.Plan.{Operation, update_entity}
use autocad_mechanical_harne.Outcome.{DocumentSnapshot, CommitResult, committed}
use autocad_mechanical_harne.Harness.World.{CommitRequest}
use autocad_mechanical_harne.Fake.{FakeAdapter}
use autocad_mechanical_harne.Fake.Methods
use autocad_mechanical_harne.Fake.Examples.{
  sha256_of, new_id, circles, measure, start, line, request,
}
use autocad_mechanical_harne.Diff
use autocad_mechanical_harne.Diff.{DiffEntry, SemanticDiff}
use autocad_mechanical_harne.Diff.Account.{
  named_by_entry, named_by_operation, build_semantic_diff-names,
}
use autocad_mechanical_harne.Diff.Deletions.{undeleted_stands}

abbrev write_value : Option Value → String
write_value v = "10.0"

abbrev update : Operation
update = record line {
  operation_id = "op_2";
  type = update_entity;
  target_entity_ref = some "fake:handle:1";
}

abbrev changing : CommitRequest
changing = record request { plan = record request.plan { operations = line ∷ update ∷ [] } }

abbrev snapshot : DocumentSnapshot
snapshot = record {
  document_id = "doc_1";
  revision = "sha256:0";
  units = "mm";
  layers = "0" ∷ [];
  dimension_styles = [];
  text_styles = [];
  entity_count = 1;
}

abbrev diff : SemanticDiff
diff = record {
  plan_hash = "sha256:a";
  document_id = "doc_1";
  from_revision = "sha256:0";
  entries =
      record {
        change = "added";
        feature_id = "edge";
        operation_id = "op_1";
        entity_type = "AcDbLine";
        layer = "OBJECT";
        summary = "Create line";
        target_entity_ref = none;
        measurements = Dict.empty;
      }
      ∷ record {
        change = "modified";
        feature_id = "edge";
        operation_id = "op_2";
        entity_type = "AcDbEntity";
        layer = "OBJECT";
        summary = "Update entity";
        target_entity_ref = some "fake:handle:1";
        measurements = Dict.empty;
      }
      ∷ [];
}

built : Diff.build_semantic_diff write_value sha256_of changing.plan snapshot ≡ ok diff
unfolding Diff.build_semantic_diff
built = refl

abbrev result : CommitResult
result = record {
  job_id = "job_1";
  plan_hash = "sha256:a";
  status = committed;
  entity_results =
      record {
        operation_id = "op_1";
        feature_id = "edge";
        entity_ref = "fake:handle:1C";
        entity_type = "AcDbLine";
        measurements = Dict.empty;
      }
      ∷ record {
        operation_id = "op_2";
        feature_id = "edge";
        entity_ref = "fake:handle:1";
        entity_type = "AcDbLine";
        measurements = Dict.put Dict.empty "layer" (Value.str "OBJECT");
      }
      ∷ [];
  previous_revision = "sha256:0";
  new_revision = "sha256:0";
  checkpoint_id = some "checkpoint_1";
  undo_group = some "fake-undo-4";
}

done : (Methods.fake_commit sha256_of new_id circles measure changing start).0 ≡ ok result
unfolding Methods.fake_commit Dict.get Dict.put Dict.empty Canonical.sha256_of
    Canonical.canonical_json Canonical.normalize Methods.fingerprint Dict.values
    Methods.insert_print Dict.pop Methods.print_before
done = refl

abbrev after : FakeAdapter
after = (Methods.fake_commit sha256_of new_id circles measure changing start).1

build_semantic_diff-names_example :
    (diff.document_id ≡ snapshot.document_id)
    × (diff.from_revision ≡ snapshot.revision)
    × (map named_by_entry diff.entries ≡ map named_by_operation changing.plan.operations)
    × (Diff.added_count diff + Diff.modified_count diff + Diff.deleted_count diff
        ≡ length changing.plan.operations)
build_semantic_diff-names_example =
    build_semantic_diff-names write_value sha256_of changing.plan snapshot diff built

undeleted_stands_example : is_some (Dict.get after.document.entities "fake:handle:1") ≡ true
unfolding Dict.get Dict.lookup_items Diff.deleted_count Diff.count_changes
undeleted_stands_example =
    undeleted_stands write_value sha256_of new_id circles measure snapshot diff changing start after
      result built refl (refl, refl, tt) refl (ap (λ r. (r, after)) done) "fake:handle:1" refl
