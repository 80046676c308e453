-- ===== src/Fake/Undo.antt =====
-- A rollback of cad_harness/adapters/fake.py after a commit: the revision of what it restores can
-- always be made, since the entities had one before.
use autocad_mechanical_harne.Base.{
  ℕ, suc, String, ◌≡◌, ◌≢◌, ◌∙◌, refl, sym, ap, some, none, true, Option, List, [], ◌∷◌, arith,
  eq_false, eq_true, some-eq, inl, inr,
}
use autocad_mechanical_harne.Base.Dict
use autocad_mechanical_harne.Base.Dict.{Dict, get-put_self}
use autocad_mechanical_harne.Errors.{Result, ok, with_ok, Result-cases}
use autocad_mechanical_harne.Value.{Value, Values, nil, cons}
use autocad_mechanical_harne.Canonical.{normalize, normalize_values, canonical_json, sha256_of}
use autocad_mechanical_harne.Plan.{Operation}
use autocad_mechanical_harne.Outcome.{CommitResult, RollbackResult, by_checkpoint_restore}
use autocad_mechanical_harne.Harness.World.{CommitRequest, RollbackRequest}
use autocad_mechanical_harne.Fake.{FakeEntity, FakeDocument, FakeAdapter, Circle}
use autocad_mechanical_harne.Fake.Methods.{
  Print, value_of_print, values_of_prints, sort_prints, fingerprint, prints, current_revision,
  fake_validate, fake_commit, checkpoint_entities, restored, rollback_result, fake_rollback,
  write_plan,
}
use autocad_mechanical_harne.Fake.Commits.{fake_commit_cases, write_plan-ok, commit_result-ok}

-- Texts and numbers always have a canonical form, and so a fingerprint has a digest.
prints-normal :
    (round_float : ℕ → Option ℕ) (ps : List Print)
    → (vs : Values) × (normalize_values round_float (values_of_prints ps) ≡ ok vs)
unfolding normalize
prints-normal round_float [] = (nil, refl)
prints-normal round_float (p ∷ ps) =
    let (vs, fine) = prints-normal round_float ps in (cons (value_of_print p) vs, rw fine refl)

fingerprint-hashed :
    (round_float : ℕ → Option ℕ) (json_dumps : Value → String) (hexdigest : String → String)
    (d : String) (n : ℕ) (ps : List Print)
    → (x : String) × (sha256_of round_float json_dumps hexdigest (fingerprint d n ps) ≡ ok x)
unfolding sha256_of canonical_json normalize fingerprint
fingerprint-hashed round_float json_dumps hexdigest d n ps =
    let (vs, fine) = prints-normal round_float (sort_prints ps) in
    elim (Result-cases (sha256_of round_float json_dumps hexdigest (fingerprint d n ps))) [
      | inl known ↦ known
      | inr (e, bad) ↦ absurd (ground (arith, fine, bad))
    ]

module _ (round_float : ℕ → Option ℕ) (json_dumps : Value → String) (hexdigest : String → String)
    (new_id : ℕ → String) (circles : Operation → Result (List Circle))
    (measure : Operation → Result (Dict Value)) where
  abbrev digest : Value → Result String
  digest = sha256_of round_float json_dumps hexdigest

  abbrev commit : CommitRequest → FakeAdapter → Result CommitResult × FakeAdapter
  commit = fake_commit digest new_id circles measure

  abbrev rollback : RollbackRequest → FakeAdapter → Result RollbackResult × FakeAdapter
  rollback = fake_rollback digest new_id circles measure

  abbrev revision : FakeDocument → Result String
  revision = current_revision digest new_id circles measure

  -- A drawing with the entities of one that has a revision has one as well.
  same_entities :
      (d d' : FakeDocument) (x : String)
      → d'.entities ≡ d.entities
      → revision d ≡ ok x
      → (y : String) × (revision d' ≡ ok y)
  unfolding current_revision
  same_entities d d' x same fine =
      with_ok (prints digest new_id circles measure (Dict.values d.entities)) fine λ ps printed e.
        let (y, hashed) =
          fingerprint-hashed round_float json_dumps hexdigest d'.document_id d'.write_counter ps in
        (y, rw (same, printed) hashed)

  validated :
      (a : FakeAdapter) (document_id current : String)
      → document_id ≡ a.document.document_id
      → revision a.document ≡ ok current
      → fake_validate digest new_id circles measure a document_id current ≡ ok true
  unfolding fake_validate
  validated a document_id current doc fine =
      rw (eq_true _ _ doc, fine, eq_true current current refl) refl

  pointed :
      (d : FakeDocument) (id : String) (entities : Dict FakeEntity)
      → id ≢ ""
      → Dict.get d.snapshots id ≡ some entities
      → checkpoint_entities digest new_id circles measure d id ≡ some entities
  unfolding checkpoint_entities
  pointed d id entities named there = rw (eq_false _ _ named) there

  abbrev undone_by : RollbackRequest → String → RollbackResult
  undone_by back y = record {
    job_id = back.job_id;
    restored_revision = y;
    checkpoint_id = some back.checkpoint_id;
    method = by_checkpoint_restore;
  }

  rolled :
      (back : RollbackRequest) (d : FakeDocument) (y : String)
      → revision d ≡ ok y
      → rollback_result digest new_id circles measure back d ≡ ok (undone_by back y)
  unfolding rollback_result
  rolled back d y fine = rw fine refl

  rollback_to :
      (back : RollbackRequest) (a : FakeAdapter) (entities : Dict FakeEntity) (y : String)
      → back.document_id ≡ a.document.document_id
      → revision a.document ≡ ok back.current_revision
      → back.checkpoint_id ≢ ""
      → Dict.get a.document.snapshots back.checkpoint_id ≡ some entities
      → revision (restored digest new_id circles measure a.document entities) ≡ ok y
      → (undone : RollbackResult) × (rollback back a ≡ (
        ok undone,
        record a { document = restored digest new_id circles measure a.document entities },
      ))
  unfolding fake_rollback
  rollback_to back a entities y doc current named there again = (
    undone_by back y,
    rw
        (
          fake_rollback,
          validated a back.document_id back.current_revision doc current,
          pointed a.document back.checkpoint_id entities named there,
          rolled back (restored digest new_id circles measure a.document entities) y again,
        )
        refl,
  )

  written_back :
      (r : CommitRequest) (a a' : FakeAdapter) (current : String) (result : CommitResult)
      (back : RollbackRequest)
      → revision a.document ≡ ok current
      → new_id a.issued ≢ ""
      → back.document_id ≡ a.document.document_id
      → some back.checkpoint_id ≡ result.checkpoint_id
      → back.current_revision ≡ result.new_revision
      → write_plan digest new_id circles measure r a current ≡ (ok result, a')
      → (undone : RollbackResult) × (a'' : FakeAdapter) × (rollback back a' ≡ (ok undone, a''))
        × (a''.document.entities ≡ a.document.entities)
        × (a''.document.write_counter ≡ suc (suc a.document.write_counter))
  written_back r a a' current result back before named doc checkpoint at done =
      let (s, results, fine, made, document, kept) =
        write_plan-ok digest new_id circles measure r a a' current result done in
      let (same_results, by_id, new_revision) =
        commit_result-ok digest new_id circles measure r a current s results result made in
      let id : back.checkpoint_id ≡ new_id a.issued = some-eq (checkpoint ∙ by_id) in
      let (y, again) =
        same_entities a.document
          (restored digest new_id circles measure a'.document a.document.entities) current refl
          before in
      let (undone, back_to) =
        rollback_to back a' a.document.entities y (doc ∙ ap (λ d. d.document_id) (sym document))
          (ap revision document ∙ new_revision ∙ ap ok (sym at)) (λ empty. named (sym id ∙ empty))
          (ap (λ d. Dict.get d.snapshots back.checkpoint_id) document
            ∙ ap (Dict.get (Dict.put a.document.snapshots (new_id a.issued) a.document.entities)) id
            ∙ get-put_self a.document.snapshots (new_id a.issued) a.document.entities)
          again in
      (undone, _, back_to, refl, ap (λ d. suc d.write_counter) document)

  -- The checkpoint of a commit that has written undoes it: a rollback to it at the revision that the
  -- commit reported succeeds and gives back exactly the entities from before the commit, whatever the
  -- plan did to them. The write counter still goes up, so that no earlier revision number comes back.
  -- (The key was not used before, and the checkpoint's identifier is not empty.)
  pub fake_rollback-commit :
      (r : CommitRequest) (a a' : FakeAdapter) (result : CommitResult) (back : RollbackRequest)
      → Dict.get a.executions r.idempotency_key ≡ none
      → commit r a ≡ (ok result, a')
      → new_id a.issued ≢ ""
      → back.document_id ≡ a.document.document_id
      → some back.checkpoint_id ≡ result.checkpoint_id
      → back.current_revision ≡ result.new_revision
      → (undone : RollbackResult) × (a'' : FakeAdapter) × (rollback back a' ≡ (ok undone, a''))
        × (a''.document.entities ≡ a.document.entities)
        × (a''.document.write_counter ≡ suc (suc a.document.write_counter))
  fake_rollback-commit r a a' result back unused done named doc checkpoint at =
      elim (fake_commit_cases digest new_id circles measure r a) [
        | inl (previous, known, same) ↦ absurd (ground (arith, unused, known))
        | inr (inl (fresh, x, same)) ↦ absurd (ground (arith, sym same ∙ done))
        | inr (inr (fresh, current, same)) ↦
            written_back r a a' r.expected_revision result back current named doc checkpoint at
              (sym same ∙ done)
      ]
