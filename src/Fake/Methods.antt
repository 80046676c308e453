-- ===== src/Fake/Methods.antt =====
-- The methods of FakeAutoCADAdapter in cad_harness/adapters/fake.py that the workflow calls. The adapter
-- declares every capability that they require.
use Prim.Native.Nat.{Ordering}
use Prim.Native.String.{compare}
use autocad_mechanical_harne.Base.{
  ℕ, suc, String, ◌<>◌, ◌==◌, Bool, true, false, Option, none, some, List, [], ◌∷◌, if◌then◌else◌,
  length,
}
use autocad_mechanical_harne.Base.Dict
use autocad_mechanical_harne.Base.Dict.{Dict}
use autocad_mechanical_harne.Errors.{
  Result, ok, err, ◌>>=◌, stale_document_revision, rollback_not_available,
}
use autocad_mechanical_harne.Value.{
  Value, Values, str, int, array, dict, nil, cons, fields_of, values_of,
}
use autocad_mechanical_harne.Plan.{Operation, OperationPlan, compute_hash}
use autocad_mechanical_harne.Outcome.{
  CommitResult, EntityResult, RollbackResult, DocumentSnapshot, committed, by_checkpoint_restore,
}
use autocad_mechanical_harne.Harness.World.{Adapter, AdapterStatus, CommitRequest, RollbackRequest}
use autocad_mechanical_harne.Fake.{
  FakeEntity, FakeDocument, FakeAdapter, Circle, Staged, number_text, stage, apply_entities,
}

-- An entity in the fingerprint: its reference, type, layer and the digest of its geometry.
abbrev pub Print : Type 0
Print = String × String × String × String

before_or : Ordering → Bool → Bool
before_or Ordering.lt rest = true
before_or Ordering.gt rest = false
before_or Ordering.eq rest = rest

unfoldable pub print_before : Print → Print → Bool
unfolding before_or
print_before (a, b, c, d) (a', b', c', d') =
    before_or (compare a a')
      (before_or (compare b b') (before_or (compare c c') (before_or (compare d d') false)))

unfoldable pub insert_print : Print → List Print → List Print
insert_print p [] = p ∷ []
insert_print p (q ∷ qs) =
    let rest = insert_print p qs in if print_before q p then q ∷ rest else p ∷ q ∷ qs

unfoldable pub sort_prints : List Print → List Print
sort_prints [] = []
sort_prints (p ∷ ps) = insert_print p (sort_prints ps)

abbrev pub value_of_print : Print → Value
value_of_print (a, b, c, d) = array (values_of (str a ∷ str b ∷ str c ∷ str d ∷ []))

abbrev pub values_of_prints : List Print → Values
values_of_prints [] = nil
values_of_prints (p ∷ ps) = cons (value_of_print p) (values_of_prints ps)

-- What `revision_from` takes the digest of.
unfoldable pub fingerprint : String → ℕ → List Print → Value
unfolding sort_prints
fingerprint document_id write_counter ps = dict (
    fields_of (
      ("document_id", str document_id)
      ∷ (
        "parts",
        array (values_of (int write_counter ∷ array (values_of_prints (sort_prints ps)) ∷ [])),
      )
      ∷ []))

-- `new_id` gives the checkpoints' identifiers by position.
module _ (sha256_of : Value → Result String) (new_id : ℕ → String)
    (circles : Operation → Result (List Circle)) (measure : Operation → Result (Dict Value)) where
  unfoldable pub prints : List FakeEntity → Result (List Print)
  prints [] = ok []
  prints (e ∷ es) = do
    geometry ← sha256_of (dict (fields_of e.geometry.items))
    rest ← prints es
    ok ((e.entity_ref, e.entity_type, e.layer, geometry) ∷ rest)

  -- current_revision, through revision_from of cad_harness/adapters/base.py
  unfoldable pub current_revision : FakeDocument → Result String
  unfolding prints
  current_revision d = do
    ps ← prints (Dict.values d.entities)
    sha256_of (fingerprint d.document_id d.write_counter ps)

  unfoldable pub fake_status : FakeAdapter → AdapterStatus
  fake_status a = record { adapter_type = "fake"; cad_version = some "0.0.0" }

  unfoldable pub fake_inspect : FakeAdapter → Option String → Result DocumentSnapshot
  unfolding current_revision
  fake_inspect a requested = do
    revision ← current_revision a.document
    ok (record {
      document_id = a.document.document_id;
      revision = revision;
      units = a.document.units;
      layers = a.document.layers;
      dimension_styles = "Standard" ∷ "DEMO-ISO-MM" ∷ [];
      text_styles = "Standard" ∷ "DEMO-ISO" ∷ [];
      entity_count = length a.document.entities.items;
    })

  unfoldable pub fake_validate : FakeAdapter → String → String → Result Bool
  unfolding current_revision
  fake_validate a document_id revision =
      if document_id == a.document.document_id
      then (do current ← current_revision a.document; ok (current == revision))
      else ok false

  -- request.plan.plan_hash or request.plan.compute_hash()
  unfoldable pub hash_of_plan : OperationPlan → Result String
  hash_of_plan p = elim p.plan_hash [
    | none ↦ compute_hash sha256_of p
    | some hash ↦ if hash == "" then compute_hash sha256_of p else ok hash
  ]

  -- The document once a checkpoint is taken.
  abbrev pub with_checkpoint : FakeAdapter → FakeDocument
  with_checkpoint a = record a.document {
    snapshots = Dict.put a.document.snapshots (new_id a.issued) a.document.entities;
  }

  abbrev pub written : FakeAdapter → Dict FakeEntity → FakeDocument
  written a working = record (with_checkpoint a) {
    entities = apply_entities working a.document.entities;
    write_counter = suc a.document.write_counter;
  }

  -- The result, whose digests are made of the drawing that has been written.
  unfoldable pub commit_result :
      FakeAdapter → String → CommitRequest → Staged → List EntityResult → Result CommitResult
  unfolding current_revision hash_of_plan number_text
  commit_result a current r s results = do
    plan_hash ← hash_of_plan r.plan
    new_revision ← current_revision (written a s.entities)
    ok (record {
      job_id = r.plan.job_id;
      plan_hash = plan_hash;
      status = committed;
      entity_results = results;
      previous_revision = current;
      new_revision = new_revision;
      checkpoint_id = some (new_id a.issued);
      undo_group = some ("fake-undo-" <> number_text 10 (suc a.document.write_counter));
    })

  -- The adapter once the drawing is written, and once the result is recorded as well.
  abbrev pub with_written : FakeAdapter → Staged → FakeAdapter
  with_written a s = record a {
    document = written a s.entities;
    entity_counter = s.counter;
    issued = suc a.issued;
  }

  abbrev pub record_result :
      CommitRequest → FakeAdapter → Result CommitResult → Result CommitResult × FakeAdapter
  record_result r a (err e) = (err e, a)
  record_result r a (ok result) =
      (ok result, record a { executions = Dict.put a.executions r.idempotency_key result })

  -- The rest of a commit after its operations were staged, or failed to be.
  unfoldable pub conclude_commit :
      CommitRequest
      → FakeAdapter
      → String
      → Result (Staged × List EntityResult)
      → Result CommitResult × FakeAdapter
  unfolding commit_result apply_entities
  conclude_commit r a current (err e) = (
    err e,
    record a {
      document = record a.document {
        snapshots =
            Dict.pop (Dict.put a.document.snapshots (new_id a.issued) a.document.entities)
              (new_id a.issued);
      };
      issued = suc a.issued;
    },
  )
  conclude_commit r a current (ok (s, results)) =
      record_result r (with_written a s) (commit_result a current r s results)

  unfoldable pub write_plan :
      CommitRequest → FakeAdapter → String → Result CommitResult × FakeAdapter
  unfolding stage conclude_commit
  write_plan r a current = conclude_commit r a current (
      stage circles measure r.plan.operations
        (record { entities = a.document.entities; counter = a.entity_counter }) [])

  -- commit, with `create_checkpoint` as the workflow sets it: true.
  unfoldable pub fake_commit : CommitRequest → FakeAdapter → Result CommitResult × FakeAdapter
  unfolding current_revision write_plan
  fake_commit r a = elim (Dict.get a.executions r.idempotency_key) [
    | some previous ↦ (ok previous, a)
    | none ↦ elim (current_revision a.document) [
      | err e ↦ (err e, a)
      | ok current ↦
          if current == r.expected_revision
          then write_plan r a current
          else (err stale_document_revision, a)
    ]
  ]

  abbrev pub restored : FakeDocument → Dict FakeEntity → FakeDocument
  restored d entities = record d { entities = entities; write_counter = suc d.write_counter }

  -- The checkpoint that a request names, if the document has it.
  unfoldable pub checkpoint_entities : FakeDocument → String → Option (Dict FakeEntity)
  checkpoint_entities d checkpoint_id =
      if checkpoint_id == "" then none else Dict.get d.snapshots checkpoint_id

  unfoldable pub rollback_result : RollbackRequest → FakeDocument → Result RollbackResult
  unfolding current_revision
  rollback_result r d = do
    revision ← current_revision d
    ok (record {
      job_id = r.job_id;
      restored_revision = revision;
      checkpoint_id = some r.checkpoint_id;
      method = by_checkpoint_restore;
    })

  unfoldable pub fake_rollback : RollbackRequest → FakeAdapter → Result RollbackResult × FakeAdapter
  unfolding fake_validate checkpoint_entities rollback_result
  fake_rollback r a = elim (fake_validate a r.document_id r.current_revision) [
    | err e ↦ (err e, a)
    | ok false ↦ (err stale_document_revision, a)
    | ok true ↦ elim (checkpoint_entities a.document r.checkpoint_id) [
      | none ↦ (err rollback_not_available, a)
      | some entities ↦ (
        rollback_result r (restored a.document entities),
        record a { document = restored a.document entities },
      )
    ]
  ]

  -- The adapter, as the workflow takes it.
  abbrev pub fake_adapter : Adapter FakeAdapter
  fake_adapter = record {
    allows_expired_checkpoint_recovery = false;
    status = fake_status;
    inspect_document = fake_inspect;
    validate_revision = fake_validate;
    commit = fake_commit;
    rollback = fake_rollback;
  }
