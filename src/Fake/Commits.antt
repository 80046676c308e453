-- ===== src/Fake/Commits.antt =====
-- What commits and rollbacks of cad_harness/adapters/fake.py do to the drawing, on every branch.
use autocad_mechanical_harne.Base.{
  ℕ, String, ◌==◌, ◌≡◌, ◌∙◌, refl, sym, ap, none, some, List, [], arith, eq_iff, Bool-cases,
  Option-cases, inl, inr, ◌⊎◌,
}
use autocad_mechanical_harne.Base.Dict
use autocad_mechanical_harne.Base.Dict.{Dict, get-put_self, pop-put_absent}
use autocad_mechanical_harne.Errors.{
  HarnessError, Result, ok, err, Result-cases, with_ok, ok-eq, stale_document_revision,
}
use autocad_mechanical_harne.Value.{Value}
use autocad_mechanical_harne.Plan.{Operation}
use autocad_mechanical_harne.Outcome.{CommitResult, EntityResult, RollbackResult}
use autocad_mechanical_harne.Harness.World.{CommitRequest, RollbackRequest}
use autocad_mechanical_harne.Fake.{FakeDocument, FakeAdapter, Circle, Staged, stage}
use autocad_mechanical_harne.Fake.Methods.{
  current_revision, hash_of_plan, commit_result, written, with_written, conclude_commit, write_plan,
  fake_commit, fake_rollback,
}

module _ (sha256_of : Value → Result String) (new_id : ℕ → String)
    (circles : Operation → Result (List Circle)) (measure : Operation → Result (Dict Value)) where
  abbrev commit : CommitRequest → FakeAdapter → Result CommitResult × FakeAdapter
  commit = fake_commit sha256_of new_id circles measure

  abbrev rollback : RollbackRequest → FakeAdapter → Result RollbackResult × FakeAdapter
  rollback = fake_rollback sha256_of new_id circles measure

  abbrev revision : FakeDocument → Result String
  revision = current_revision sha256_of new_id circles measure

  abbrev staged : CommitRequest → FakeAdapter → Result (Staged × List EntityResult)
  staged r a =
      stage circles measure r.plan.operations
        (record { entities = a.document.entities; counter = a.entity_counter }) []

  -- The ways in which a commit goes.
  pub fake_commit_cases :
      (r : CommitRequest) (a : FakeAdapter)
      → ((previous : CommitResult) × (Dict.get a.executions r.idempotency_key ≡ some previous)
          × (commit r a ≡ (ok previous, a)))
        ⊎ ((Dict.get a.executions r.idempotency_key ≡ none)
            × (e : HarnessError) × (commit r a ≡ (err e, a)))
        ⊎ ((Dict.get a.executions r.idempotency_key ≡ none)
            × (revision a.document ≡ ok r.expected_revision)
            × (commit r a ≡ write_plan sha256_of new_id circles measure r a r.expected_revision))
  unfolding fake_commit
  fake_commit_cases r a = elim (Option-cases (Dict.get a.executions r.idempotency_key)) [
    | inr (previous, known) ↦ inl (previous, known, rw (known, fake_commit) refl)
    | inl fresh ↦ elim (Result-cases (revision a.document)) [
      | inr (e, bad) ↦ inr (inl (fresh, e, rw (fresh, fake_commit, bad) refl))
      | inl (current, fine) ↦ elim (Bool-cases (current == r.expected_revision)) [
        | inr other ↦
            inr (inl (fresh, stale_document_revision, rw (fresh, fake_commit, fine, other) refl))
        | inl same ↦
            let is : current ≡ r.expected_revision = (eq_iff _ _).0 same in
            inr (
              inr (
                fresh,
                fine ∙ ap ok is,
                rw (fresh, fake_commit, fine, same)
                    (ap (write_plan sha256_of new_id circles measure r a) is),
              ))
      ]
    ]
  ]

  -- What a commit that raises once its operations are staged has left: the drawing is written, but
  -- nothing is recorded under the key, and the digest of the plan or of the written drawing raises.
  abbrev pub Unrecorded : CommitRequest → FakeAdapter → HarnessError → FakeAdapter → Type 0
  Unrecorded r a e a' =
      (s : Staged) × (results : List EntityResult) × (staged r a ≡ ok (s, results))
      × (a' ≡ with_written sha256_of new_id circles measure a s)
      × ((hash_of_plan sha256_of new_id circles measure r.plan ≡ err e)
          ⊎ (revision (written sha256_of new_id circles measure a s.entities) ≡ err e))

  result_failed :
      (r : CommitRequest) (a : FakeAdapter) (current : String) (s : Staged)
      (results : List EntityResult) (e : HarnessError)
      → commit_result sha256_of new_id circles measure a current r s results ≡ err e
      → (hash_of_plan sha256_of new_id circles measure r.plan ≡ err e)
        ⊎ (revision (written sha256_of new_id circles measure a s.entities) ≡ err e)
  unfolding commit_result
  result_failed r a current s results e bad =
      elim (Result-cases (hash_of_plan sha256_of new_id circles measure r.plan)) [
        | inr (x, hashless) ↦ inl (hashless ∙ ground (arith, hashless, bad))
        | inl (hash, hashed) ↦
            elim (Result-cases (revision (written sha256_of new_id circles measure a s.entities))) [
              | inr (x, stuck) ↦ inr (stuck ∙ ground (arith, hashed, stuck, bad))
              | inl (new_revision, fine) ↦ absurd (ground (arith, hashed, fine, bad))
            ]
      ]

  -- A commit that raises leaves the document, the recorded executions and the counter of references
  -- exactly as they were, also where some of its operations had been staged before one failed, and
  -- leaves no checkpoint. There is one exception: if all operations could be staged, but the digest of
  -- the plan or of the written drawing raises, then the drawing has been written although the commit
  -- raises, and no execution is recorded. (The identifier of the checkpoint is new.)
  pub fake_commit_atomic :
      (r : CommitRequest) (a a' : FakeAdapter) (e : HarnessError)
      → Dict.get a.document.snapshots (new_id a.issued) ≡ none
      → commit r a ≡ (err e, a')
      → ((a'.document ≡ a.document)
          × (a'.executions ≡ a.executions)
          × (a'.entity_counter ≡ a.entity_counter))
        ⊎ Unrecorded r a e a'
  unfolding write_plan conclude_commit
  fake_commit_atomic r a a' e fresh failed = elim (fake_commit_cases r a) [
    | inl (previous, known, same) ↦ absurd (ground (arith, sym same ∙ failed))
    | inr (inl (unused, x, same)) ↦ inl (ground (arith, sym same ∙ failed))
    | inr (inr (unused, current, same)) ↦ elim (Result-cases (staged r a)) [
      | inr (x, bad) ↦ inl (
          ground (
            arith,
            sym same ∙ failed,
            bad,
            pop-put_absent a.document.snapshots (new_id a.issued) a.document.entities fresh,
          ))
      | inl ((s, results), fine) ↦
          elim (Result-cases
            (commit_result sha256_of new_id circles measure a r.expected_revision r s results)) [
              | inl (result, made) ↦ absurd (ground (arith, sym same ∙ failed, fine, made))
              | inr (x, bad) ↦
                  let facts : (x ≡ e) × (a' ≡ with_written sha256_of new_id circles measure a s) =
                    ground (arith, sym same ∙ failed, fine, bad) in
                  inr (
                    s,
                    results,
                    fine,
                    facts.1,
                    result_failed r a r.expected_revision s results e (bad ∙ ap err facts.0),
                  )
            ]
    ]
  ]

  -- What a commit that writes has written.
  pub write_plan-ok :
      (r : CommitRequest) (a a' : FakeAdapter) (current : String) (result : CommitResult)
      → write_plan sha256_of new_id circles measure r a current ≡ (ok result, a')
      → (s : Staged) × (results : List EntityResult) × (staged r a ≡ ok (s, results))
        × (commit_result sha256_of new_id circles measure a current r s results ≡ ok result)
        × (a'.document ≡ written sha256_of new_id circles measure a s.entities)
        × (a'.executions ≡ Dict.put a.executions r.idempotency_key result)
  unfolding write_plan conclude_commit
  write_plan-ok r a a' current result done = elim (Result-cases (staged r a)) [
    | inr (x, bad) ↦ absurd (ground (arith, done, bad))
    | inl ((s, results), fine) ↦
        elim (Result-cases (commit_result sha256_of new_id circles measure a current r s results)) [
          | inr (x, bad) ↦ absurd (ground (arith, done, fine, bad))
          | inl (made, is) ↦
              let facts : (made ≡ result)
                  × (a'.document ≡ written sha256_of new_id circles measure a s.entities)
                  × (a'.executions ≡ Dict.put a.executions r.idempotency_key made) =
                ground (arith, done, fine, is) in
              (
                s,
                results,
                fine,
                is ∙ ap ok facts.0,
                facts.1,
                facts.2 ∙ ap (Dict.put a.executions r.idempotency_key) facts.0,
              )
        ]
  ]

  -- What a result says of the drawing that was written.
  pub commit_result-ok :
      (r : CommitRequest) (a : FakeAdapter) (current : String) (s : Staged)
      (results : List EntityResult) (result : CommitResult)
      → commit_result sha256_of new_id circles measure a current r s results ≡ ok result
      → (result.entity_results ≡ results)
        × (result.checkpoint_id ≡ some (new_id a.issued))
        × (revision (written sha256_of new_id circles measure a s.entities)
            ≡ ok result.new_revision)
  unfolding commit_result
  commit_result-ok r a current s results result made =
      with_ok (hash_of_plan sha256_of new_id circles measure r.plan) made λ hash hashed e₁.
        with_ok (revision (written sha256_of new_id circles measure a s.entities)) e₁
          λ new_revision fine e₂.
            let same = ok-eq e₂ in
            (
              ap (λ c. c.entity_results) (sym same),
              ap (λ c. c.checkpoint_id) (sym same),
              fine ∙ ap (λ c. ok c.new_revision) same,
            )

  executed :
      (r : CommitRequest) (a a' : FakeAdapter) (result : CommitResult)
      → commit r a ≡ (ok result, a')
      → Dict.get a'.executions r.idempotency_key ≡ some result
  executed r a a' result done = elim (fake_commit_cases r a) [
    | inl (previous, known, same) ↦ ground (arith, sym same ∙ done, known)
    | inr (inl (unused, x, same)) ↦ absurd (ground (arith, sym same ∙ done))
    | inr (inr (unused, current, same)) ↦
        let (s, results, fine, made, document, kept) =
          write_plan-ok r a a' r.expected_revision result (sym same ∙ done) in
        ap (λ d. Dict.get d r.idempotency_key) kept
        ∙ get-put_self a.executions r.idempotency_key result
  ]

  -- A commit that returns a result returns the same result, and changes nothing, whenever its key is
  -- used again right after it, whatever the second request.
  pub fake_commit_replays :
      (r r' : CommitRequest) (a a' : FakeAdapter) (result : CommitResult)
      → r'.idempotency_key ≡ r.idempotency_key
      → commit r a ≡ (ok result, a')
      → commit r' a' ≡ (ok result, a')
  unfolding fake_commit
  fake_commit_replays r r' a a' result key done =
      rw (ap (Dict.get a'.executions) key ∙ executed r a a' result done, fake_commit) refl
