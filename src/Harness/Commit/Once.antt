-- ===== src/Harness/Commit/Once.antt =====
-- How often HarnessService._commit writes for one job, over two requests.
use autocad_mechanical_harne.Base.{
  suc, String, ◌≡◌, refl, sym, ◌∙◌, ap, subst, ◌⊎◌, inl, inr, true, Option, none, some, arith,
  Option-cases, some-eq,
}
use autocad_mechanical_harne.Base.Dict
use autocad_mechanical_harne.Errors.{Result, ok, err}
use autocad_mechanical_harne.Job.{CadJob, approved}
use autocad_mechanical_harne.Outcome.{CommitResult}
use autocad_mechanical_harne.Store.{get_job}
use autocad_mechanical_harne.Harness.World.{Harness, World}
use autocad_mechanical_harne.Harness.Act.{read-cases, chain-cases}
use autocad_mechanical_harne.Harness.Checks.{require_writer_compatible}
use autocad_mechanical_harne.Harness.Gates.{CommitCall, Authorization, authorize, standing}
use autocad_mechanical_harne.Harness.Commit.{
  commit, first_commit, replay_or_commit, recheck, ticket, cache,
}
use autocad_mechanical_harne.Harness.Commit.Guarded.{commit-Authorized}
use autocad_mechanical_harne.Harness.Commit.Established.{authorize-ok}
use autocad_mechanical_harne.Harness.Commit.Evidence.{rechecked-drawing, cache-drawing}
use autocad_mechanical_harne.Harness.Commit.Flight.{in_flight, hold-Flying}

module _ {S : Type 0} (h : Harness S) where
  first_commit-Flying :
      (c : CommitCall) (a : Authorization) (w : World S)
      → ((first_commit h c a w).1.drawing ≡ w.drawing)
        ⊎ (in_flight (Dict.get (first_commit h c a w).1.store.jobs a.job.job_id) ≡ true)
  unfolding first_commit
  first_commit-Flying c a w =
      read-cases Q (standing h c a) _ w
        (λ r e.
          read-cases Q (require_writer_compatible h) _ (cache h c.job_id r w)
            (λ u e₁.
              chain-cases Q (recheck h c a) _ (cache h c.job_id r w)
                (λ u' v e₂. elim (hold-Flying h (ticket h c a r) a.job.document_id c.job_id v) [
                  | inl same ↦ inl (same ∙ rechecked-drawing h c a w r (ok u') v e₂)
                  | inr flying ↦ inr flying
                ])
                (λ x v e₂. inl (rechecked-drawing h c a w r (err x) v e₂)))
            (λ x. inl (cache-drawing h c.job_id r w)))
        (λ x. inl refl)
    where
      Q : Result CommitResult × World S → Type 0
      Q out =
          (out.1.drawing ≡ w.drawing) ⊎ (in_flight (Dict.get out.1.store.jobs a.job.job_id) ≡ true)

  pub replay_or_commit-none :
      (c : CommitCall) (a : Authorization) (w : World S)
      → a.previous ≡ none
      → replay_or_commit h c a w ≡ first_commit h c a w
  unfolding replay_or_commit
  replay_or_commit-none c a w e = ground (arith, e)

  replay_or_commit-some :
      (c : CommitCall) (a : Authorization) (w : World S) (p : String × CommitResult)
      → a.previous ≡ some p
      → (replay_or_commit h c a w).1 ≡ w
  unfolding replay_or_commit
  replay_or_commit-some c a w p e = ground (arith, e)

  commit-Flying :
      (c : CommitCall) (w : World S) (job : CadJob)
      → get_job w.store c.job_id ≡ some job
      → job.job_id ≡ c.job_id
      → ((commit h c w).1.drawing ≡ w.drawing)
        ⊎ (in_flight (get_job (commit h c w).1.store c.job_id) ≡ true)
  unfolding commit get_job
  commit-Flying c w job found own =
      read-cases Q (authorize h c (h.clock w.ticks)) (replay_or_commit h c) v
        (λ a e.
          let known = (authorize-ok h c (h.clock w.ticks) v a e).0 in
          let id : a.job.job_id ≡ c.job_id =
            ap (λ j. j.job_id) (some-eq (sym known ∙ found)) ∙ own in
          elim (Option-cases a.previous) [
            | inr (p, same) ↦ inl (ap (λ x. x.drawing) (replay_or_commit-some c a v p same))
            | inl fresh ↦
                subst Q (sym (replay_or_commit-none c a v fresh))
                  (elim (first_commit-Flying c a v) [
                    | inl kept ↦ inl kept
                    | inr flying ↦ inr (
                        subst
                          (λ i. in_flight (Dict.get (first_commit h c a v).1.store.jobs i) ≡ true)
                          id flying)
                  ])
          ])
        (λ x. inl refl)
    where
      v : World S
      v = record w { ticks = suc w.ticks }

      Q : Result CommitResult × World S → Type 0
      Q out = (out.1.drawing ≡ w.drawing) ⊎ (in_flight (Dict.get out.1.store.jobs c.job_id) ≡ true)

  grounded :
      (o : Option CadJob) (job : CadJob)
      → in_flight o ≡ true
      → o ≡ some job
      → job.state ≡ approved
      → ⊥
  grounded o job flying same state = ground (arith, flying, same, state)

  -- Of two commits of the same job, one directly after the other, at least one leaves the drawing as it
  -- was, whatever their keys, hashes, revisions and tokens and whatever their outcomes. (The job is
  -- stored under its own identifier.)
  pub commit_once :
      (c d : CommitCall) (w : World S) (job : CadJob)
      → d.job_id ≡ c.job_id
      → get_job w.store c.job_id ≡ some job
      → job.job_id ≡ c.job_id
      → ((commit h c w).1.drawing ≡ w.drawing)
        ⊎ ((commit h d (commit h c w).1).1.drawing ≡ (commit h c w).1.drawing)
  commit_once c d w job same found own = elim (commit-Flying c w job found own) [
    | inl kept ↦ inl kept
    | inr flying ↦ elim (commit-Authorized h d (commit h c w).1) [
      | inl kept ↦ inr kept
      | inr a ↦ absurd (
          grounded (get_job (commit h c w).1.store c.job_id) a.job flying
            (subst (λ i. get_job (commit h c w).1.store i ≡ some a.job) same a.job_found)
            a.job_approved)
    ]
  ]
