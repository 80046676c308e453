-- ===== src/SqlLease.antt =====
-- cad_harness/persistence/sql_lease_store.py: writer leases in a table of SQLite, whose constraints
-- (the primary key `lease_id`, UNIQUE `document_id` in cad_harness/persistence/models.py) decide who
-- owns a document. The table is a list of rows; an operation that raises gives it back as the
-- transaction leaves it. Each is the body that RetryPolicy.run calls, once the database is not locked.
mod Table
mod Changes
pub mod Refines
mod Examples
use autocad_mechanical_harne.Base.{
  ℕ, ◌+◌, String, ◌==◌, Bool, true, false, ◌&&◌, ◌||◌, Option, none, some, List, [], ◌∷◌, ltb, leb,
  is_some, if◌then◌else◌,
}
use autocad_mechanical_harne.Errors.{
  Result, ok, err, harness_error, integrity_error, writer_lease_conflict, ◌>>=◌,
}
use autocad_mechanical_harne.Lease.{WriterLease, writer_lease, if_active}
use autocad_mechanical_harne.Lease.Contract.{granted_lease}

abbrev pub Table : Type 0
Table = List WriterLease

-- select(WriterLeaseRow).where(document_id == document_id)
unfoldable pub row_of : String → Table → Option WriterLease
row_of doc [] = none
row_of doc (r ∷ rows) = if r.document_id == doc then some r else row_of doc rows

-- session.get(WriterLeaseRow, lease_id)
unfoldable pub find_row : String → Table → Option WriterLease
find_row id [] = none
find_row id (r ∷ rows) = if r.lease_id == id then some r else find_row id rows

-- delete(WriterLeaseRow).where(document_id == document_id, expires_at <= now)
unfoldable pub delete_expired : String → ℕ → Table → Table
delete_expired doc now [] = []
delete_expired doc now (r ∷ rows) =
    let rest = delete_expired doc now rows in
    if r.document_id == doc && leb r.expires_at now then rest else r ∷ rest

-- delete(WriterLeaseRow).where(lease_id == lease_id)
unfoldable pub delete_row : String → Table → Table
delete_row id [] = []
delete_row id (r ∷ rows) =
    let rest = delete_row id rows in if r.lease_id == id then rest else r ∷ rest

-- session.add(row); session.commit(), where `none` is the violation of a constraint.
unfoldable pub insert_row : WriterLease → Table → Option Table
unfolding row_of find_row
insert_row l rows =
    if is_some (row_of l.document_id rows) || is_some (find_row l.lease_id rows)
    then none
    else some (l ∷ rows)

-- The row changed in the session, and committed.
unfoldable pub update_row : String → ℕ → ℕ → Table → Table
update_row id ttl now [] = []
update_row id ttl now (r ∷ rows) =
    let rest = update_row id ttl now rows in
    if r.lease_id == id
    then record r { heartbeat_at = now; expires_at = now + ttl } ∷ rest
    else r ∷ rest

-- What is raised on a violation, from the row of the document after the transaction is undone.
unfoldable pub conflict : Option WriterLease → Result WriterLease
unfolding writer_lease
conflict none = err integrity_error
conflict (some row) = writer_lease row >>= λ l. err writer_lease_conflict

unfoldable pub store_lease : WriterLease → ℕ → Table → Result WriterLease × Table
unfolding insert_row delete_expired conflict row_of
store_lease l now rows = elim (insert_row l (delete_expired l.document_id now rows)) [
  | some stored ↦ (ok l, stored)
  | none ↦ (conflict (row_of l.document_id rows), rows)
]

unfoldable pub try_acquire : String → String → String → ℕ → ℕ → Table → Result WriterLease × Table
unfolding writer_lease store_lease
try_acquire id doc owner ttl now rows = elim (writer_lease (granted_lease id doc owner ttl now)) [
  | ok l ↦ store_lease l now rows
  | err raised ↦ (err raised, rows)
]

-- `row is None or row.expires_at <= now`, else the changed row, as a contract.
unfoldable pub renew_row : Option WriterLease → String → ℕ → ℕ → Table → Result WriterLease × Table
unfolding writer_lease update_row
renew_row none id ttl now rows = (err harness_error, rows)
renew_row (some r) id ttl now rows = if leb r.expires_at now then (err harness_error, rows) else (
  writer_lease (record r { heartbeat_at = now; expires_at = now + ttl }),
  update_row id ttl now rows,
)

unfoldable pub renew : String → ℕ → ℕ → Table → Result WriterLease × Table
unfolding find_row renew_row
renew id ttl now rows = renew_row (find_row id rows) id ttl now rows

unfoldable pub release : String → Table → Table
unfolding delete_row
release id rows = delete_row id rows

-- The row is read where it has not expired, and read as a contract.
unfoldable pub read_row : Option WriterLease → Result (Option WriterLease)
unfolding writer_lease
read_row none = ok none
read_row (some r) = writer_lease r >>= λ l. ok (some l)

unfoldable pub active_lease : String → ℕ → Table → Result (Option WriterLease)
unfolding row_of if_active read_row
active_lease doc now rows = read_row (if_active (row_of doc rows) now)
