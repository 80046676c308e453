-- ===== src/Fake/Drawing.antt =====
-- What a commit of cad_harness/adapters/fake.py makes of the drawing's entities.
use autocad_mechanical_harne.Base.{
  ℕ, String, ◌≡◌, ◌∙◌, sym, ap, subst, none, List, [], ◌∷◌, arith, if◌then◌else◌, inl, inr,
}
use autocad_mechanical_harne.Base.Dict
use autocad_mechanical_harne.Base.Dict.{Dict}
use autocad_mechanical_harne.Errors.{Result, ok, or_raise, with_ok, ok-eq, com_call_failed}
use autocad_mechanical_harne.Value.{Value}
use autocad_mechanical_harne.Plan.{
  Operation, OperationType, is_delete, create_line, create_polyline, create_closed_polyline,
  create_circle, create_circles, create_arc, create_text, create_centerline, create_centermark,
  create_linear_dimension, create_aligned_dimension, create_diameter_dimension,
  create_radius_dimension, create_angular_dimension, create_hatch, update_entity, delete_entity,
}
use autocad_mechanical_harne.Outcome.{CommitResult, EntityResult}
use autocad_mechanical_harne.Harness.World.{CommitRequest}
use autocad_mechanical_harne.Fake.{
  FakeEntity, FakeAdapter, Circle, Built, Staged, target_entity, updated_entity, properties_of,
  execute_update, execute_delete, execute_circles, execute_create, execute_as, execute_operation,
  keep_built, stage,
}
use autocad_mechanical_harne.Fake.Methods.{written, fake_commit}
use autocad_mechanical_harne.Fake.Commits.{fake_commit_cases, write_plan-ok, commit_result-ok}
use autocad_mechanical_harne.Fake.Entities.{
  IsDrawing, put-IsDrawing, pop-IsDrawing, apply_entities-get,
}

keep_built-IsDrawing :
    (bs : List Built) (d : Dict FakeEntity) → IsDrawing d → IsDrawing (keep_built bs d)
unfolding keep_built
keep_built-IsDrawing [] d h = h
keep_built-IsDrawing ((e, r) ∷ bs) d h =
    keep_built-IsDrawing bs (Dict.put d e.entity_ref e) (put-IsDrawing d e h)

module _ (circles : Operation → Result (List Circle))
    (measure : Operation → Result (Dict Value)) where
  execute_update-IsDrawing :
      (o : Operation) (s s' : Staged) (bs : List Built)
      → IsDrawing s.entities
      → execute_update o s ≡ ok (bs, s')
      → IsDrawing s'.entities
  unfolding execute_update updated_entity
  execute_update-IsDrawing o s s' bs h e = with_ok (target_entity o s.entities) e λ x target e₁.
      with_ok (or_raise (properties_of (Dict.get o.geometry "properties")) com_call_failed) e₁
        λ properties found e₂.
          subst (λ p. IsDrawing p.1.entities) (ok-eq e₂)
            (put-IsDrawing s.entities (updated_entity o x properties) h)

  execute_delete-IsDrawing :
      (o : Operation) (s s' : Staged) (bs : List Built)
      → IsDrawing s.entities
      → execute_delete o s ≡ ok (bs, s')
      → IsDrawing s'.entities
  unfolding execute_delete
  execute_delete-IsDrawing o s s' bs h e = with_ok (target_entity o s.entities) e λ x target e₁.
      subst (λ p. IsDrawing p.1.entities) (ok-eq e₁) (pop-IsDrawing s.entities x.entity_ref h)

  execute_create-IsDrawing :
      (o : Operation) (s s' : Staged) (bs : List Built)
      → IsDrawing s.entities
      → execute_create circles measure o s ≡ ok (bs, s')
      → IsDrawing s'.entities
  unfolding execute_create
  execute_create-IsDrawing o s s' bs h e =
      with_ok (measure o) e λ m measured e₁. subst (λ p. IsDrawing p.1.entities) (ok-eq e₁) h

  execute_circles-IsDrawing :
      (o : Operation) (s s' : Staged) (bs : List Built)
      → IsDrawing s.entities
      → execute_circles circles measure o s ≡ ok (bs, s')
      → IsDrawing s'.entities
  unfolding execute_circles
  execute_circles-IsDrawing o s s' bs h e =
      with_ok (circles o) e λ cs measured e₁. subst (λ p. IsDrawing p.1.entities) (ok-eq e₁) h

  execute_operation-IsDrawing :
      (o : Operation) (s s' : Staged) (bs : List Built)
      → IsDrawing s.entities
      → execute_operation circles measure o s ≡ ok (bs, s')
      → IsDrawing s'.entities
  unfolding execute_operation
  execute_operation-IsDrawing o s s' bs h e = go o.type e
    where
      go :
          (t : OperationType)
          → execute_as circles measure t o s ≡ ok (bs, s')
          → IsDrawing s'.entities
      go update_entity e = execute_update-IsDrawing o s s' bs h e
      go delete_entity e = execute_delete-IsDrawing o s s' bs h e
      go create_circles e = execute_circles-IsDrawing o s s' bs h e
      go create_line e = execute_create-IsDrawing o s s' bs h e
      go create_polyline e = execute_create-IsDrawing o s s' bs h e
      go create_closed_polyline e = execute_create-IsDrawing o s s' bs h e
      go create_circle e = execute_create-IsDrawing o s s' bs h e
      go create_arc e = execute_create-IsDrawing o s s' bs h e
      go create_text e = execute_create-IsDrawing o s s' bs h e
      go create_centerline e = execute_create-IsDrawing o s s' bs h e
      go create_centermark e = execute_create-IsDrawing o s s' bs h e
      go create_linear_dimension e = execute_create-IsDrawing o s s' bs h e
      go create_aligned_dimension e = execute_create-IsDrawing o s s' bs h e
      go create_diameter_dimension e = execute_create-IsDrawing o s s' bs h e
      go create_radius_dimension e = execute_create-IsDrawing o s s' bs h e
      go create_angular_dimension e = execute_create-IsDrawing o s s' bs h e
      go create_hatch e = execute_create-IsDrawing o s s' bs h e

  -- Staging keeps every entity under its own reference.
  stage-IsDrawing :
      (os : List Operation) (s s' : Staged) (results results' : List EntityResult)
      → IsDrawing s.entities
      → stage circles measure os s results ≡ ok (s', results')
      → IsDrawing s'.entities
  unfolding stage
  stage-IsDrawing [] s s' results results' h e = subst (λ p. IsDrawing p.0.entities) (ok-eq e) h
  stage-IsDrawing (o ∷ os) s s' results results' h e =
      with_ok (execute_operation circles measure o s) e λ (bs, t) executed e₁.
        let fine = execute_operation-IsDrawing o s t bs h executed in
        stage-IsDrawing os _ s' _ results' (staged o t bs fine) e₁
    where
      staged :
          (o : Operation) (t : Staged) (bs : List Built)
          → IsDrawing t.entities
          → IsDrawing (if is_delete o.type then t.entities else keep_built bs t.entities)
      staged o t bs fine = ground (arith, fine, keep_built-IsDrawing bs t.entities fine)

module _ (sha256_of : Value → Result String) (new_id : ℕ → String)
    (circles : Operation → Result (List Circle)) (measure : Operation → Result (Dict Value)) where
  applied :
      (a a' : FakeAdapter) (s : Staged)
      → IsDrawing a.document.entities
      → IsDrawing s.entities
      → a'.document ≡ written sha256_of new_id circles measure a s.entities
      → ((k : String) → Dict.get a'.document.entities k ≡ Dict.get s.entities k)
        × IsDrawing a'.document.entities
  applied a a' s h own document = (
    λ k.
        ap (λ d. Dict.get d.entities k) document
        ∙ (apply_entities-get s.entities a.document.entities k own h).0,
    subst (λ d. IsDrawing d.entities) (sym document)
        (apply_entities-get s.entities a.document.entities "" own h).1,
  )

  -- A commit under a key that was not used before, which returns a result, leaves a drawing that reads
  -- at every reference as the plan's operations, carried out one after the other on a copy, leave that
  -- copy; the result lists what they built, in their order; and every entity stands under its own
  -- reference again, once. (So they did before the commit.)
  pub fake_commit_staged :
      (r : CommitRequest) (a a' : FakeAdapter) (result : CommitResult)
      → IsDrawing a.document.entities
      → Dict.get a.executions r.idempotency_key ≡ none
      → fake_commit sha256_of new_id circles measure r a ≡ (ok result, a')
      → (s : Staged) × (stage circles measure r.plan.operations
            (record { entities = a.document.entities; counter = a.entity_counter })
            []
          ≡ ok (s, result.entity_results))
        × ((k : String) → Dict.get a'.document.entities k ≡ Dict.get s.entities k)
        × IsDrawing a'.document.entities
  fake_commit_staged r a a' result h unused done =
      elim (fake_commit_cases sha256_of new_id circles measure r a) [
        | inl (previous, known, same) ↦ absurd (ground (arith, unused, known))
        | inr (inl (fresh, x, same)) ↦ absurd (ground (arith, sym same ∙ done))
        | inr (inr (fresh, current, same)) ↦
            let (s, results, staged, made, document, kept) =
              write_plan-ok sha256_of new_id circles measure r a a' r.expected_revision result
                (sym same ∙ done) in
            let of_result =
              commit_result-ok sha256_of new_id circles measure r a r.expected_revision s results
                result made in
            let (reads, own) =
              applied a a' s h
                (stage-IsDrawing circles measure r.plan.operations _ s [] results h staged)
                document in
            (s, staged ∙ ap (λ es. ok (s, es)) (sym of_result.0), reads, own)
      ]
