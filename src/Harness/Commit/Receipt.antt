-- ===== src/Harness/Commit/Receipt.antt =====
-- The receipts of HarnessService._commit: what a recorded execution answers, and what a successful
-- commit records.
use autocad_mechanical_harne.Base.{
  suc, String, ◌≡◌, refl, sym, ◌∙◌, ap, subst, ◌⊎◌, inl, inr, Bool, true, false, Option, none, some,
  arith, some-eq, eq_iff, eq_refl, if◌then◌else◌, List,
}
use autocad_mechanical_harne.Base.Dict.{get-put_self}
use autocad_mechanical_harne.Errors.{
  HarnessError, Result, ok, err, guard-ok, idempotency_key_reused, ok-eq,
}
use autocad_mechanical_harne.Job.{CadJob, committing, committed, failed, transition_to, no_updates}
use autocad_mechanical_harne.Job.Workflow.{transition_to-ok}
use autocad_mechanical_harne.Validation.{run, post_commit, has_blocking}
use autocad_mechanical_harne.Outcome.{CommitResult, EntityMappingRecord, Checkpoint}
use autocad_mechanical_harne.Store.{
  JobStore, get_job, find_execution, record_execution, finalize_commit, finalize_job, save_job,
  save_checkpoint,
}
use autocad_mechanical_harne.Store.Laws.{find-record}
use autocad_mechanical_harne.Harness.World.{Harness, World}
use autocad_mechanical_harne.Harness.Act.{
  ◌>>◌ as then_, either_way, modify, read, read-cases, with_chain,
}
use autocad_mechanical_harne.Harness.Checks.{require_writer_compatible}
use autocad_mechanical_harne.Harness.Gates.{
  CommitCall, authorize, check_reuse, request_digest, standing,
}
use autocad_mechanical_harne.Harness.Lock.{heartbeats, hold, take}
use autocad_mechanical_harne.Harness.Finish.{
  Ticket, finalize, succeed, lose, conclude, reject, settle, unresolved, after_write, handle_valid,
  mappings_of, checkpoint_of, write, start, call_adapter, commit_failed, keep_receipt,
}
use autocad_mechanical_harne.Harness.Commit.{
  commit, first_commit, recheck, ticket, replay_or_commit,
}
use autocad_mechanical_harne.Harness.Commit.Once.{replay_or_commit-none}
use autocad_mechanical_harne.Harness.Commit.Flight.{let_go-store}
use autocad_mechanical_harne.Harness.Commit.Established.{authorize-ok}

module _ {S : Type 0} (h : Harness S) where
  reused :
      (digest wanted : String) (r : CommitResult)
      → check_reuse (some (digest, r)) wanted ≡ ok tt
      → digest ≡ wanted
  unfolding check_reuse
  reused digest wanted r e = (eq_iff digest wanted).0 (guard-ok _ idempotency_key_reused e)

  -- If a key already has a recorded execution, then submitting it again changes nothing in the drawing,
  -- in the stores or anywhere else, but for a reading of the clock; and it answers with an error, or
  -- with exactly the recorded result, the latter only to the request that was recorded.
  pub commit_recorded :
      (c : CommitCall) (w : World S) (digest : String) (r : CommitResult)
      → find_execution w.store c.job_id c.idempotency_key ≡ some (digest, r)
      → ((commit h c w).1 ≡ record w { ticks = suc w.ticks })
        × (((e : HarnessError) × ((commit h c w).0 ≡ err e))
            ⊎ (((commit h c w).0 ≡ ok r) × (request_digest h c ≡ ok digest)))
  unfolding commit replay_or_commit
  commit_recorded c w digest r recorded =
      read-cases Q (authorize h c (h.clock w.ticks)) (replay_or_commit h c) v
        (λ a e.
          let (_, _, _, _, _, unused, previous, hashed) =
            authorize-ok h c (h.clock w.ticks) v a e in
          let known : a.previous ≡ some (digest, r) = previous ∙ recorded in
          let same =
            reused digest a.request_digest r
              (subst (λ p. check_reuse p a.request_digest ≡ ok tt) recorded unused) in
          rw known (refl, inr (refl, hashed ∙ ap ok (sym same))))
        (λ x. (refl, inl (x, refl)))
    where
      v : World S
      v = record w { ticks = suc w.ticks }

      Q : Result CommitResult × World S → Type 0
      Q out =
          (out.1 ≡ v)
          × (((e : HarnessError) × (out.0 ≡ err e))
              ⊎ ((out.0 ≡ ok r) × (request_digest h c ≡ ok digest)))

finalize_commit-find :
    (s : JobStore) (job : CadJob) (ms : List EntityMappingRecord) (key digest : String)
    (result : CommitResult) (c : Option Checkpoint)
    → find_execution (finalize_commit s job ms key digest result c).1 job.job_id key
      ≡ some (digest, result)
unfolding finalize_commit
finalize_commit-find s job ms key digest result none =
    find-record _ job.job_id key job.job_id key digest result ∙ rw (eq_refl job.job_id, eq_refl key)
finalize_commit-find s job ms key digest result (some c) =
    find-record _ job.job_id key job.job_id key digest result ∙ rw (eq_refl job.job_id, eq_refl key)

finalize_commit-get :
    (s : JobStore) (job : CadJob) (ms : List EntityMappingRecord) (key digest : String)
    (result : CommitResult) (c : Option Checkpoint)
    → get_job (finalize_commit s job ms key digest result c).1 job.job_id ≡ some job
unfolding finalize_commit finalize_job save_job save_checkpoint record_execution get_job
finalize_commit-get s job ms key digest result none = get-put_self s.jobs job.job_id job
finalize_commit-get s job ms key digest result (some c) = get-put_self s.jobs job.job_id job

-- The receipt of a result, and the job that it leaves.
abbrev pub Recorded : String → String → String → CommitResult → JobStore → Type 0
Recorded id key digest r s =
    (job : CadJob) × (find_execution s id key ≡ some (digest, r))
    × (get_job s id ≡ some job)
    × (job.state ≡ committed)
    × (job.expected_revision ≡ r.new_revision)
    × (job.checkpoint_id ≡ r.checkpoint_id)

module _ {S : Type 0} (h : Harness S) (t : Ticket) where
  abbrev Kept : CommitResult → World S → Type 0
  Kept r w = Recorded t.job.job_id t.idempotency_key t.request_digest r w.store

  finalize-Kept :
      (job : CadJob) (result : CommitResult) (w v : World S) (u : Unit {0})
      → job.job_id ≡ t.job.job_id
      → finalize h t job committed result w ≡ (ok u, v)
      → Kept result v
  unfolding finalize finalize_commit
  finalize-Kept job result w v u own e =
      with_chain
        (read (λ x.
          transition_to job committed
            (λ j. record j {
              checkpoint_id = result.checkpoint_id;
              expected_revision = result.new_revision;
            })
            (h.clock w.ticks)))
        e
        λ terminal w₁ e₁ r₁.
          let (step, same) =
            transition_to-ok job terminal _ committed (h.clock w.ticks) (ap (λ p. p.0) e₁) in
          let id = ap (λ j. j.job_id) same ∙ own in
          let ms =
            mappings_of t.job.document_id t.plan.operations result.new_revision
              result.entity_results in
          subst (λ s. Recorded t.job.job_id t.idempotency_key t.request_digest result s)
            (ap (λ p. p.1.store) r₁)
            (subst
              (λ i.
                Recorded i t.idempotency_key t.request_digest result
                  (finalize_commit w₁.store terminal ms t.idempotency_key t.request_digest result
                    (checkpoint_of t.job.job_id result)).1)
              id
              (
                terminal,
                finalize_commit-find w₁.store terminal ms t.idempotency_key t.request_digest result
                    (checkpoint_of t.job.job_id result),
                finalize_commit-get w₁.store terminal ms t.idempotency_key t.request_digest result
                    (checkpoint_of t.job.job_id result),
                ap (λ j. j.state) same,
                ap (λ j. j.expected_revision) same,
                ap (λ j. j.checkpoint_id) same,
              ))

  module _ (job : CadJob) (own : job.job_id ≡ t.job.job_id) where
    succeed-Kept :
        (result r : CommitResult) (w v : World S) → succeed h t job result w ≡ (ok r, v) → Kept r v
    unfolding succeed
    succeed-Kept result r w v e = with_chain (finalize h t job committed result) e λ u w₁ e₁ r₁.
        let same : result ≡ r = ok-eq (ap (λ p. p.0) r₁) in
        let store : w₁.store ≡ v.store = ap (λ p. p.1.store) r₁ in
        subst (λ x. Recorded t.job.job_id t.idempotency_key t.request_digest x v.store) same
          (subst (λ s. Recorded t.job.job_id t.idempotency_key t.request_digest result s) store
            (finalize-Kept job result w w₁ u own e₁))

    lose-raises : (result r : CommitResult) (w v : World S) → lose h t job result w ≡ (ok r, v) → ⊥
    unfolding lose
    lose-raises result r w v e = grind (arith, ap (λ p. p.0) e)

    reject-raises :
        (result r : CommitResult) (w v : World S) → reject h t job result w ≡ (ok r, v) → ⊥
    unfolding reject
    reject-raises result r w v e =
        with_chain (finalize h t job failed result) e λ u w₁ e₁ r₁. grind (arith, ap (λ p. p.0) r₁)

    conclude-Kept :
        (result r : CommitResult) (w v : World S) → conclude h t job result w ≡ (ok r, v) → Kept r v
    unfolding conclude
    conclude-Kept result r w v e = go (handle_valid w (h.clock w.ticks)) e
      where
        go :
            (valid : Bool)
            → (if valid then succeed h t job result else lose h t job result)
                (record w { ticks = suc w.ticks })
              ≡ (ok r, v)
            → Kept r v
        go true e = succeed-Kept result r _ v e
        go false e = absurd (lose-raises result r _ v e)

    settle-Kept :
        (result r : CommitResult) (w v : World S) → settle h t job result w ≡ (ok r, v) → Kept r v
    unfolding settle
    settle-Kept result r w v e =
        with_chain (unresolved h t result t.remediation) e
          λ bad w₁ e₁ r₁. go bad (heartbeats h h.beats.1 w₁) r₁
      where
        go :
            (bad : Bool) (x : World S)
            → (if bad then reject h t job result else conclude h t job result) x ≡ (ok r, v)
            → Kept r v
        go true x e = absurd (reject-raises result r x v e)
        go false x e = conclude-Kept result r x v e

    after_write-Kept :
        (result r : CommitResult) (w v : World S)
        → after_write h t job result w ≡ (ok r, v)
        → Kept r v
    unfolding after_write
    after_write-Kept result r w v e =
        with_chain
          (read (λ x.
            run h.rules h.schema_version post_commit
              (record { profile = h.profile; plan = some t.plan; commit_result = some result })
              t.job.job_id (h.new_id w.ids)))
          e λ report w₁ e₁ r₁. go (has_blocking report) _ r₁
      where
        go :
            (bad : Bool) (x : World S)
            → (if bad then reject h t job result else settle h t job result) x ≡ (ok r, v)
            → Kept r v
        go true x e = absurd (reject-raises result r x v e)
        go false x e = settle-Kept result r x v e

  commit_failed-raises :
      (job : CadJob) (x : HarnessError) (r : CommitResult) (w v : World S)
      → commit_failed h t job x w ≡ (ok r, v)
      → ⊥
  unfolding commit_failed
  commit_failed-raises job x r w v e = grind (arith, ap (λ p. p.0) e)

  write-Kept :
      (job : CadJob) (r : CommitResult) (w v : World S)
      → job.job_id ≡ t.job.job_id
      → write h t job w ≡ (ok r, v)
      → Kept r v
  unfolding write
  write-Kept job r w v own e = go (call_adapter h t w) e
    where
      go :
          (out : Result CommitResult × World S)
          → either_way out
              (λ result. then_ (modify (keep_receipt h t result)) (after_write h t job result))
              (commit_failed h t job)
            ≡ (ok r, v)
          → Kept r v
      go (ok result, x) e = after_write-Kept job own result r (keep_receipt h t result x) v e
      go (err x, y) e = absurd (commit_failed-raises job x r y v e)

  start-Kept : (r : CommitResult) (w v : World S) → start h t w ≡ (ok r, v) → Kept r v
  unfolding start
  start-Kept r w v e =
      with_chain (read (λ x. transition_to t.job committing no_updates (h.clock w.ticks))) e
        λ job w₁ e₁ r₁.
          let (step, same) =
            transition_to-ok t.job job no_updates committing (h.clock w.ticks) (ap (λ p. p.0) e₁) in
          write-Kept job r _ v (ap (λ j. j.job_id) same) r₁

  pub hold-Kept :
      (d o : String) (r : CommitResult) (w v : World S)
      → hold h d o (start h t) w ≡ (ok r, v)
      → Kept r v
  unfolding hold
  hold-Kept d o r w v e = with_chain (take h d o) e λ u w₁ e₁ r₁.
      subst (λ s. Recorded t.job.job_id t.idempotency_key t.request_digest r s)
        (sym (let_go-store h (start h t w₁).1) ∙ ap (λ p. p.1.store) r₁)
        (start-Kept r w₁ (start h t w₁).1 (ap (λ p. (p.0, (start h t w₁).1)) r₁))

module _ {S : Type 0} (h : Harness S) where
  -- A commit under a key that was not used before and that succeeds leaves the receipt of exactly the
  -- result that it returns, for exactly its request, and a job that stands at COMMITTED with the new
  -- revision and the checkpoint of that result. (The job is stored under its own identifier.)
  pub commit_receipt :
      (c : CommitCall) (w v : World S) (r : CommitResult) (job : CadJob)
      → find_execution w.store c.job_id c.idempotency_key ≡ none
      → get_job w.store c.job_id ≡ some job
      → job.job_id ≡ c.job_id
      → commit h c w ≡ (ok r, v)
      → (digest : String) × (request_digest h c ≡ ok digest)
        × Recorded c.job_id c.idempotency_key digest r v.store
  unfolding commit first_commit
  commit_receipt c w v r job unused found own e =
      with_chain (read (authorize h c (h.clock w.ticks))) e λ a w₁ e₁ r₁.
        let (known, _, _, _, _, _, previous, digest) =
          authorize-ok h c (h.clock w.ticks) (record w { ticks = suc w.ticks }) a
            (ap (λ p. p.0) e₁) in
        let first : first_commit h c a w₁ ≡ (ok r, v) =
          sym (replay_or_commit-none h c a w₁ (previous ∙ unused)) ∙ r₁ in
        with_chain (read (standing h c a)) first λ m w₂ e₂ r₂.
          with_chain (read (require_writer_compatible h)) r₂ λ u w₃ e₃ r₃.
            with_chain (recheck h c a) r₃ λ u' w₄ e₄ r₄. (
              a.request_digest,
              digest,
              subst (λ id. Recorded id c.idempotency_key a.request_digest r v.store)
                  (ap (λ j. j.job_id) (some-eq (sym known ∙ found)) ∙ own)
                  (hold-Kept h (ticket h c a m) a.job.document_id c.job_id r w₄ v r₄),
            )
