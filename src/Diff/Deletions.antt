-- ===== src/Diff/Deletions.antt =====
-- Plans whose diff shows no deletion, carried out on the drawing of Fake.
use autocad_mechanical_harne.Base.{
  ℕ, String, ◌≡◌, ◌∙◌, refl, sym, ap, subst, true, false, Option, none, is_some, List, [], ◌∷◌, map,
  arith, All, if◌then◌else◌, ◌==◌,
}
use autocad_mechanical_harne.Base.Dict
use autocad_mechanical_harne.Base.Dict.{Dict, get-put}
use autocad_mechanical_harne.Errors.{Result, ok, with_ok, ok-eq, or_raise, com_call_failed}
use autocad_mechanical_harne.Value.{Value}
use autocad_mechanical_harne.Plan.{
  Operation, OperationType, is_delete, create_line, create_polyline, create_closed_polyline,
  create_circle, create_circles, create_arc, create_text, create_centerline, create_centermark,
  create_linear_dimension, create_aligned_dimension, create_diameter_dimension,
  create_radius_dimension, create_angular_dimension, create_hatch, update_entity, delete_entity,
}
use autocad_mechanical_harne.Outcome.{DocumentSnapshot, CommitResult, EntityResult}
use autocad_mechanical_harne.Harness.World.{CommitRequest}
use autocad_mechanical_harne.Fake.{
  FakeEntity, FakeAdapter, Circle, Built, Staged, target_entity, properties_of, updated_entity,
  execute_update, execute_circles, execute_create, execute_as, execute_operation, keep_built, stage,
}
use autocad_mechanical_harne.Fake.Methods.{fake_commit}
use autocad_mechanical_harne.Fake.Entities.{IsDrawing}
use autocad_mechanical_harne.Fake.Drawing.{fake_commit_staged}
use autocad_mechanical_harne.Diff.{
  DiffEntry, SemanticDiff, deleted_count, count_changes, change_of, entries_of, hash_or_computed,
  build_semantic_diff,
}
use autocad_mechanical_harne.Diff.Account.{entries_of-ok}

-- Every reference with an entity in the first has one in the second.
abbrev Stands : Dict FakeEntity → Dict FakeEntity → Type 0
Stands d d' = (k : String) → is_some (Dict.get d k) ≡ true → is_some (Dict.get d' k) ≡ true

put-Stands : (d : Dict FakeEntity) (k : String) (e : FakeEntity) → Stands d (Dict.put d k e)
put-Stands d k e j h = ground (arith, h, get-put d k j e)

keep_built-Stands : (bs : List Built) (d : Dict FakeEntity) → Stands d (keep_built bs d)
unfolding keep_built
keep_built-Stands [] d k h = h
keep_built-Stands ((e, r) ∷ bs) d k h =
    keep_built-Stands bs (Dict.put d e.entity_ref e) k (put-Stands d e.entity_ref e k h)

module _ (circles : Operation → Result (List Circle))
    (measure : Operation → Result (Dict Value)) where
  execute_update-Stands :
      (o : Operation) (s s' : Staged) (bs : List Built)
      → execute_update o s ≡ ok (bs, s')
      → Stands s.entities s'.entities
  unfolding execute_update
  execute_update-Stands o s s' bs e = with_ok (target_entity o s.entities) e λ x target e₁.
      with_ok (or_raise (properties_of (Dict.get o.geometry "properties")) com_call_failed) e₁
        λ properties found e₂.
          subst (λ p. Stands s.entities p.1.entities) (ok-eq e₂)
            (put-Stands s.entities x.entity_ref (updated_entity o x properties))

  execute_create-Stands :
      (o : Operation) (s s' : Staged) (bs : List Built)
      → execute_create circles measure o s ≡ ok (bs, s')
      → Stands s.entities s'.entities
  unfolding execute_create
  execute_create-Stands o s s' bs e =
      with_ok (measure o) e
        λ m measured e₁. subst (λ p. Stands s.entities p.1.entities) (ok-eq e₁) (λ k h. h)

  execute_circles-Stands :
      (o : Operation) (s s' : Staged) (bs : List Built)
      → execute_circles circles measure o s ≡ ok (bs, s')
      → Stands s.entities s'.entities
  unfolding execute_circles
  execute_circles-Stands o s s' bs e =
      with_ok (circles o) e
        λ cs measured e₁. subst (λ p. Stands s.entities p.1.entities) (ok-eq e₁) (λ k h. h)

  execute_operation-Stands :
      (o : Operation) (s s' : Staged) (bs : List Built)
      → is_delete o.type ≡ false
      → execute_operation circles measure o s ≡ ok (bs, s')
      → Stands s.entities s'.entities
  unfolding execute_operation
  execute_operation-Stands o s s' bs keeps e = go o.type keeps e
    where
      go :
          (t : OperationType)
          → is_delete t ≡ false
          → execute_as circles measure t o s ≡ ok (bs, s')
          → Stands s.entities s'.entities
      go delete_entity keeps e = absurd (ground (arith, keeps))
      go update_entity keeps e = execute_update-Stands o s s' bs e
      go create_circles keeps e = execute_circles-Stands o s s' bs e
      go create_line keeps e = execute_create-Stands o s s' bs e
      go create_polyline keeps e = execute_create-Stands o s s' bs e
      go create_closed_polyline keeps e = execute_create-Stands o s s' bs e
      go create_circle keeps e = execute_create-Stands o s s' bs e
      go create_arc keeps e = execute_create-Stands o s s' bs e
      go create_text keeps e = execute_create-Stands o s s' bs e
      go create_centerline keeps e = execute_create-Stands o s s' bs e
      go create_centermark keeps e = execute_create-Stands o s s' bs e
      go create_linear_dimension keeps e = execute_create-Stands o s s' bs e
      go create_aligned_dimension keeps e = execute_create-Stands o s s' bs e
      go create_diameter_dimension keeps e = execute_create-Stands o s s' bs e
      go create_radius_dimension keeps e = execute_create-Stands o s s' bs e
      go create_angular_dimension keeps e = execute_create-Stands o s s' bs e
      go create_hatch keeps e = execute_create-Stands o s s' bs e

  stage-Stands :
      (os : List Operation) (s s' : Staged) (results results' : List EntityResult)
      → All (λ o. is_delete o.type ≡ false) os
      → stage circles measure os s results ≡ ok (s', results')
      → Stands s.entities s'.entities
  unfolding stage
  stage-Stands [] s s' results results' keep e =
      subst (λ p. Stands s.entities p.0.entities) (ok-eq e) (λ k h. h)
  stage-Stands (o ∷ os) s s' results results' keep e =
      with_ok (execute_operation circles measure o s) e λ (bs, t) executed e₁. λ k h.
        stage-Stands os _ s' _ results' keep.1 e₁ k
          (built o t bs k (execute_operation-Stands o s t bs keep.0 executed k h))
    where
      built :
          (o : Operation) (t : Staged) (bs : List Built)
          → Stands t.entities (if is_delete o.type then t.entities else keep_built bs t.entities)
      built o t bs k h = ground (arith, h, keep_built-Stands bs t.entities k h)

deletes-change : (t : OperationType) → (change_of t == "deleted") ≡ is_delete t
unfolding change_of
deletes-change create_line = refl
deletes-change create_polyline = refl
deletes-change create_closed_polyline = refl
deletes-change create_circle = refl
deletes-change create_arc = refl
deletes-change create_text = refl
deletes-change create_centerline = refl
deletes-change create_centermark = refl
deletes-change create_linear_dimension = refl
deletes-change create_aligned_dimension = refl
deletes-change create_diameter_dimension = refl
deletes-change create_radius_dimension = refl
deletes-change create_angular_dimension = refl
deletes-change create_hatch = refl
deletes-change create_circles = refl
deletes-change update_entity = refl
deletes-change delete_entity = refl

-- No entry counts as a deletion: no operation deletes.
undeleted :
    (os : List Operation) (es : List DiffEntry)
    → map (λ e. e.change) es ≡ map (λ o. change_of o.type) os
    → count_changes "deleted" es ≡ 0
    → All (λ o. is_delete o.type ≡ false) os
unfolding count_changes
undeleted [] es same none_deleted = tt
undeleted (o ∷ os) [] same none_deleted = absurd (ground (arith, same))
undeleted (o ∷ os) (e ∷ es) same none_deleted =
    let parts : (e.change ≡ change_of o.type)
        × (map (λ e. e.change) es ≡ map (λ o. change_of o.type) os) =
      ground (arith, same) in
    let facts : ((e.change == "deleted") ≡ false) × (count_changes "deleted" es ≡ 0) =
      ground (arith, none_deleted) in
    (
      sym (deletes-change o.type) ∙ ap (λ c. c == "deleted") (sym parts.0) ∙ facts.0,
      undeleted os es parts.1 facts.1,
    )

module _ (write_value : Option Value → String) (sha256_of : Value → Result String)
    (new_id : ℕ → String) (circles : Operation → Result (List Circle))
    (measure : Operation → Result (Dict Value)) where
  -- If a plan's diff counts no deletion, then a commit of the plan under a key that was not used
  -- before, which returns a result, leaves an entity at every reference at which there was one. (Every
  -- entity stands under its own reference, once.)
  pub undeleted_stands :
      (snapshot : DocumentSnapshot) (d : SemanticDiff) (r : CommitRequest) (a a' : FakeAdapter)
      (result : CommitResult)
      → build_semantic_diff write_value sha256_of r.plan snapshot ≡ ok d
      → deleted_count d ≡ 0
      → IsDrawing a.document.entities
      → Dict.get a.executions r.idempotency_key ≡ none
      → fake_commit sha256_of new_id circles measure r a ≡ (ok result, a')
      → (k : String) → is_some (Dict.get a.document.entities k) ≡ true
      → is_some (Dict.get a'.document.entities k) ≡ true
  unfolding build_semantic_diff deleted_count
  undeleted_stands snapshot d r a a' result built none_deleted own unused done k there =
      with_ok (hash_or_computed write_value sha256_of r.plan) built λ hash hashed built₁.
        with_ok (entries_of write_value r.plan.operations) built₁ λ es made same.
          let keeps =
            undeleted r.plan.operations es (entries_of-ok write_value r.plan.operations es made).2
              (ap (λ d. count_changes "deleted" d.entries) (ok-eq same) ∙ none_deleted) in
          let (s, staged, reads, own') =
            fake_commit_staged sha256_of new_id circles measure r a a' result own unused done in
          ap is_some (reads k)
          ∙ stage-Stands circles measure r.plan.operations _ s [] result.entity_results keeps staged
              k there
