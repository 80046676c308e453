-- ===== src/Harness/Rollback/Restored.antt =====
-- HarnessService.rollback over the adapter of cad_harness/adapters/fake.py: what becomes of the drawing.
use autocad_mechanical_harne.Base.{
  ℕ, suc, String, ◌≡◌, ◌∙◌, sym, ap, true, some, List, arith, Option-cases, inl, inr,
}
use autocad_mechanical_harne.Base.Dict
use autocad_mechanical_harne.Base.Dict.{Dict}
use autocad_mechanical_harne.Errors.{Result, ok}
use autocad_mechanical_harne.Value.{Value}
use autocad_mechanical_harne.Job.{CadJob, rolled_back}
use autocad_mechanical_harne.Plan.{Operation}
use autocad_mechanical_harne.Outcome.{RollbackResult}
use autocad_mechanical_harne.Store.{get_job}
use autocad_mechanical_harne.Harness.World.{Harness, World, RollbackRequest}
use autocad_mechanical_harne.Harness.Rollback.{rollback}
use autocad_mechanical_harne.Harness.Rollback.Once.{rollback-Done}
use autocad_mechanical_harne.Fake.{FakeEntity, FakeAdapter, Circle}
use autocad_mechanical_harne.Fake.Methods.{
  fake_adapter, fake_rollback, fake_validate, checkpoint_entities,
}

module _ (sha256_of : Value → Result String) (new_id : ℕ → String)
    (circles : Operation → Result (List Circle)) (measure : Operation → Result (Dict Value)) where
  -- A rollback of the adapter that succeeds was to a checkpoint that the document has.
  fake_rollback-ok :
      (r : RollbackRequest) (a a' : FakeAdapter) (result : RollbackResult)
      → fake_rollback sha256_of new_id circles measure r a ≡ (ok result, a')
      → (entities : Dict FakeEntity) × (Dict.get a.document.snapshots r.checkpoint_id
          ≡ some entities)
        × (fake_validate sha256_of new_id circles measure a r.document_id r.current_revision
            ≡ ok true)
        × (a'.document.entities ≡ entities)
        × (a'.document.snapshots ≡ a.document.snapshots)
        × (a'.document.write_counter ≡ suc a.document.write_counter)
  unfolding fake_rollback checkpoint_entities
  fake_rollback-ok r a a' result e =
      elim (Option-cases (Dict.get a.document.snapshots r.checkpoint_id)) [
        | inl missing ↦ absurd (ground (arith, missing, e))
        | inr (entities, there) ↦
            let facts : (fake_validate sha256_of new_id circles measure a r.document_id
                    r.current_revision
                  ≡ ok true)
                × (a'.document.entities ≡ entities)
                × (a'.document.snapshots ≡ a.document.snapshots)
                × (a'.document.write_counter ≡ suc a.document.write_counter) =
              ground (arith, there, e) in
            (entities, there, facts.0, facts.1, facts.2, facts.3)
      ]

  -- A rollback of the service over the in-memory drawing that succeeds gives the drawing exactly the
  -- entities that were saved under the checkpoint asked for, at a drawing that had the revision asked
  -- for; the checkpoints stay as they were, and the job stands at ROLLED_BACK. (The job is stored under
  -- its own identifier.)
  pub rollback_restores :
      (h : Harness FakeAdapter) (job_id checkpoint_id current_revision token : String)
      (w w' : World FakeAdapter) (job : CadJob) (result : RollbackResult)
      → h.adapter ≡ fake_adapter sha256_of new_id circles measure
      → get_job w.store job_id ≡ some job
      → job.job_id ≡ job_id
      → rollback h job_id checkpoint_id current_revision token w ≡ (ok result, w')
      → (entities : Dict FakeEntity) × (j : CadJob) × (Dict.get w.drawing.document.snapshots
            checkpoint_id
          ≡ some entities)
        × (fake_validate sha256_of new_id circles measure w.drawing job.document_id current_revision
            ≡ ok true)
        × (w'.drawing.document.entities ≡ entities)
        × (w'.drawing.document.snapshots ≡ w.drawing.document.snapshots)
        × (get_job w'.store job_id ≡ some j)
        × (j.state ≡ rolled_back)
  rollback_restores h job_id checkpoint_id current_revision token w w' job result over found own e =
      let (
        request,
        document,
        checkpoint,
        revision,
        (j, stored, state, no_receipt, no_known, called),
      ) =
        rollback-Done h job_id checkpoint_id current_revision token w w' job result found own e in
      let (entities, there, current, same, kept, counted) =
        fake_rollback-ok request w.drawing w'.drawing result
          (ap (λ a. a.rollback request w.drawing) (sym over) ∙ called) in
      (
        entities,
        j,
        ap (Dict.get w.drawing.document.snapshots) (sym checkpoint) ∙ there,
        ap (fake_validate sha256_of new_id circles measure w.drawing job.document_id) (sym revision)
            ∙ ap
                (λ d.
                  fake_validate sha256_of new_id circles measure w.drawing d
                    request.current_revision)
                (sym document)
            ∙ current,
        same,
        kept,
        stored,
        state,
      )
