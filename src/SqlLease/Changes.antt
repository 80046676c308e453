-- ===== src/SqlLease/Changes.antt =====
-- Lemmas on rows changed or deleted by their identifier, in cad_harness/persistence/sql_lease_store.py.
use autocad_mechanical_harne.Base.{
  ℕ, ◌+◌, ◌<◌, ◌≤◌, ◌≡◌, refl, String, ◌==◌, none, some, [], ◌∷◌, if◌then◌else◌, arith, eq_iff, All,
}
use autocad_mechanical_harne.Lease.{WriterLease}
use autocad_mechanical_harne.SqlLease.{Table, row_of, find_row, delete_row, update_row}
use autocad_mechanical_harne.SqlLease.Table.{IsTable, row_of-find_row}

-- An identifier that leads to no row changes and deletes none.
pub update_row_absent :
    (id : String) (ttl now : ℕ) (rows : Table)
    → find_row id rows ≡ none
    → update_row id ttl now rows ≡ rows
unfolding find_row update_row
update_row_absent id ttl now [] e = refl
update_row_absent id ttl now (x ∷ rows) e = ground (arith, e, update_row_absent id ttl now rows)

pub delete_row_absent :
    (id : String) (rows : Table) → find_row id rows ≡ none → delete_row id rows ≡ rows
unfolding find_row delete_row
delete_row_absent id [] e = refl
delete_row_absent id (x ∷ rows) e = ground (arith, e, delete_row_absent id rows)

row_absent-delete_row :
    (id k : String) (rows : Table) → row_of k rows ≡ none → row_of k (delete_row id rows) ≡ none
unfolding row_of delete_row
row_absent-delete_row id k [] e = refl
row_absent-delete_row id k (x ∷ rows) e = ground (arith, e, row_absent-delete_row id k rows)

find_absent-delete_row :
    (id k : String) (rows : Table) → find_row k rows ≡ none → find_row k (delete_row id rows) ≡ none
unfolding find_row delete_row
find_absent-delete_row id k [] e = refl
find_absent-delete_row id k (x ∷ rows) e = ground (arith, e, find_absent-delete_row id k rows)

pub delete_row-IsTable : (id : String) (rows : Table) → IsTable rows → IsTable (delete_row id rows)
unfolding delete_row
delete_row-IsTable id [] t = tt
delete_row-IsTable id (r ∷ rows) t = ground (
  arith,
  t,
  row_absent-delete_row id r.document_id rows,
  find_absent-delete_row id r.lease_id rows,
  delete_row-IsTable id rows,
)

-- Deleting a row frees its document alone.
pub row_of-delete_row :
    (id k : String) (r : WriterLease) (rows : Table)
    → IsTable rows
    → find_row id rows ≡ some r
    → row_of k (delete_row id rows) ≡ (if r.document_id == k then none else row_of k rows)
unfolding row_of find_row delete_row
row_of-delete_row id k r [] t e = absurd (ground (arith, e))
row_of-delete_row id k r (x ∷ rows) t e = ground (
  arith,
  t,
  e,
  eq_iff x.lease_id id,
  eq_iff x.document_id k,
  eq_iff r.document_id k,
  eq_iff x.document_id r.document_id,
  delete_row_absent id rows,
  row_of-find_row id r rows t.3,
  row_of-delete_row id k r rows t.3,
)

row_absent-update_row :
    (id k : String) (ttl now : ℕ) (rows : Table)
    → row_of k rows ≡ none
    → row_of k (update_row id ttl now rows) ≡ none
unfolding row_of update_row
row_absent-update_row id k ttl now [] e = refl
row_absent-update_row id k ttl now (x ∷ rows) e =
    ground (arith, e, row_absent-update_row id k ttl now rows)

find_absent-update_row :
    (id k : String) (ttl now : ℕ) (rows : Table)
    → find_row k rows ≡ none
    → find_row k (update_row id ttl now rows) ≡ none
unfolding find_row update_row
find_absent-update_row id k ttl now [] e = refl
find_absent-update_row id k ttl now (x ∷ rows) e =
    ground (arith, e, find_absent-update_row id k ttl now rows)

-- Leases of the past can be renewed for a positive time.
pub update_row-IsTable :
    (id : String) (ttl now : ℕ) (rows : Table)
    → 0 < ttl
    → All (λ r. r.acquired_at ≤ now) rows
    → IsTable rows
    → IsTable (update_row id ttl now rows)
unfolding update_row
update_row-IsTable id ttl now [] pos past t = tt
update_row-IsTable id ttl now (r ∷ rows) pos past t = ground (
  arith,
  t,
  past,
  row_absent-update_row id r.document_id ttl now rows,
  find_absent-update_row id r.lease_id ttl now rows,
  update_row-IsTable id ttl now rows pos past.1,
)

-- Renewing a row changes its document's lease alone.
pub row_of-update_row :
    (id k : String) (ttl now : ℕ) (r : WriterLease) (rows : Table)
    → IsTable rows
    → find_row id rows ≡ some r
    → row_of k (update_row id ttl now rows) ≡ (
        if r.document_id == k
        then some (record r { heartbeat_at = now; expires_at = now + ttl })
        else row_of k rows)
unfolding row_of find_row update_row
row_of-update_row id k ttl now r [] t e = absurd (ground (arith, e))
row_of-update_row id k ttl now r (x ∷ rows) t e = ground (
  arith,
  t,
  e,
  eq_iff x.lease_id id,
  eq_iff x.document_id k,
  eq_iff r.document_id k,
  eq_iff x.document_id r.document_id,
  update_row_absent id ttl now rows,
  row_of-find_row id r rows t.3,
  row_of-update_row id k ttl now r rows t.3,
)

pub past_of :
    (id : String) (r : WriterLease) (now : ℕ) (rows : Table)
    → All (λ l. l.acquired_at ≤ now) rows
    → find_row id rows ≡ some r
    → r.acquired_at ≤ now
unfolding find_row
past_of id r now [] past e = absurd (ground (arith, e))
past_of id r now (x ∷ rows) past e = ground (arith, past, e, past_of id r now rows past.1)
