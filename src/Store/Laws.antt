-- ===== src/Store/Laws.antt =====
-- What the store of cad_harness/persistence/memory_store.py remembers.
use autocad_mechanical_harne.Base.{
  String, ◌==◌, ◌≡◌, ◌∙◌, refl, false, Option, none, some, List, [], ◌∷◌, arith, eq_iff, ◌&&◌,
  if◌then◌else◌, map, Bool-cases, inl, inr, subst,
}
use autocad_mechanical_harne.Canonical.{contains}
use autocad_mechanical_harne.Base.Dict
use autocad_mechanical_harne.Base.Dict.{Dict, get-pop, dict_laws}
use autocad_mechanical_harne.Outcome.{CommitResult}
use autocad_mechanical_harne.Approval.{ApprovalRecord}
use autocad_mechanical_harne.Store.{
  JobStore, Execution, same_key, put_execution, record_execution, lookup_execution, find_execution,
  approvals_of, pop_all, revoke_approvals_for_job, get_approval,
}

lookup-put :
    (e : Execution) (job key : String) (es : List Execution)
    → lookup_execution job key (put_execution e es) ≡ (
        if same_key e job key
        then some (e.request_digest, e.result)
        else lookup_execution job key es)
unfolding lookup_execution put_execution
lookup-put e job key [] = refl
lookup-put e job key (x ∷ xs) = ground (
  arith,
  lookup-put e job key xs,
  eq_iff x.job_id e.job_id,
  eq_iff x.idempotency_key e.idempotency_key,
  eq_iff x.job_id job,
  eq_iff x.idempotency_key key,
  eq_iff e.job_id job,
  eq_iff e.idempotency_key key,
)

-- The store finds an execution under exactly the job and the key that it was last recorded under, and
-- recording one leaves all others as they were.
pub find-record :
    (s : JobStore) (job key job' key' digest : String) (result : CommitResult)
    → find_execution (record_execution s job key digest result) job' key'
      ≡ (if job == job' && key == key' then some (digest, result) else find_execution s job' key')
unfolding find_execution record_execution
find-record s job key job' key' digest result = lookup-put _ job' key' s.executions

-- Every approval stands under its own identifier, and once: what `save_approval` builds.
abbrev pub Keyed : List (String × ApprovalRecord) → Type 0
Keyed [] = Unit {0}
Keyed ((k, a) ∷ m) = (k ≡ a.approval_id) × (Dict.lookup_items k m ≡ none) × Keyed m

-- What is left of a looked-up approval if those of `job` are gone.
abbrev pub unless_of : String → Option ApprovalRecord → Option ApprovalRecord
unless_of job none = none
unless_of job (some a) = if a.job_id == job then none else some a

get-pop_all :
    (ks : List String) (d : Dict ApprovalRecord) (id : String)
    → Dict.get (pop_all ks d) id ≡ (if contains id ks then none else Dict.get d id)
unfolding pop_all
get-pop_all [] d id = refl
get-pop_all (k ∷ ks) d id =
    ground (arith, get-pop_all ks (Dict.pop d k) id, get-pop d k id, eq_iff k id, eq_iff id k)

not_listed :
    (job id : String) (m : List (String × ApprovalRecord))
    → Keyed m
    → Dict.lookup_items id m ≡ none
    → contains id (approvals_of job (map (λ p. p.1) m)) ≡ false
unfolding approvals_of Dict.lookup_items
not_listed job id [] keyed e = refl
not_listed job id ((k, a) ∷ m) (own, _, keyed) e =
    ground (arith, own, eq_iff k id, eq_iff id a.approval_id, not_listed job id m keyed)

listed :
    (job id : String) (m : List (String × ApprovalRecord))
    → Keyed m
    → (if contains id (approvals_of job (map (λ p. p.1) m)) then none else Dict.lookup_items id m)
      ≡ unless_of job (Dict.lookup_items id m)
unfolding approvals_of Dict.lookup_items
listed job id [] keyed = refl
listed job id ((k, a) ∷ m) (own, fresh, keyed) = elim (Bool-cases (k == id)) [
  | inl same ↦
      let equal = (eq_iff k id).0 same in
      let absent =
        not_listed job id m keyed (subst (λ x. Dict.lookup_items x m ≡ none) equal fresh) in
      ground (arith, own, equal, eq_iff id a.approval_id, absent)
  | inr other ↦
      ground (arith, own, other, eq_iff k id, eq_iff id a.approval_id, listed job id m keyed)
]

-- Revoking a job's approvals removes all of them and no other: afterwards an identifier finds the
-- approval that it found before if that is another job's, and none if it is this job's. (Every
-- approval stands under its own identifier.)
pub revoke-get :
    (s : JobStore) (job id : String)
    → Keyed s.approvals.items
    → get_approval (revoke_approvals_for_job s job) id ≡ unless_of job (get_approval s id)
unfolding get_approval revoke_approvals_for_job Dict.values Dict.get
revoke-get s job id keyed =
    get-pop_all (approvals_of job (map (λ p. p.1) s.approvals.items)) s.approvals id
    ∙ listed job id s.approvals.items keyed
