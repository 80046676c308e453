-- ===== src/SqlLease/Table.antt =====
-- Lemmas on the rows that cad_harness/persistence/sql_lease_store.py reads and writes, for a table that
-- keeps the database's constraints.
use autocad_mechanical_harne.Base.{
  ℕ, ◌<◌, ◌≤◌, ◌≡◌, ◌≢◌, refl, String, ◌==◌, none, some, [], ◌∷◌, if◌then◌else◌, arith, eq_iff,
}
use autocad_mechanical_harne.Errors.{ok}
use autocad_mechanical_harne.Lease.{WriterLease, writer_lease, if_active}
use autocad_mechanical_harne.SqlLease.{Table, row_of, find_row, delete_expired}

-- The timestamps of a valid lease.
abbrev pub Ordered : WriterLease → Type 0
Ordered l = (l.acquired_at ≤ l.heartbeat_at) × (l.heartbeat_at < l.expires_at)

-- No two rows have one document or one identifier, and every row is a valid lease.
abbrev pub IsTable : Table → Type 0
IsTable [] = Unit {0}
IsTable (r ∷ rows) =
    (row_of r.document_id rows ≡ none)
    × (find_row r.lease_id rows ≡ none)
    × Ordered r
    × IsTable rows

pub writer_lease-Ordered : (l : WriterLease) → Ordered l → writer_lease l ≡ ok l
unfolding writer_lease
writer_lease-Ordered l h = ground (arith, h)

pub row_of-delete_expired :
    (doc k : String) (now : ℕ) (rows : Table)
    → IsTable rows
    → row_of k (delete_expired doc now rows)
      ≡ (if doc == k then if_active (row_of k rows) now else row_of k rows)
unfolding row_of delete_expired if_active
row_of-delete_expired doc k now [] t = ground arith
row_of-delete_expired doc k now (r ∷ rows) t = ground (
  arith,
  t,
  eq_iff r.document_id doc,
  eq_iff r.document_id k,
  eq_iff doc k,
  row_of-delete_expired doc k now rows t.3,
)

pub find_row-delete_expired :
    (doc id : String) (now : ℕ) (rows : Table)
    → find_row id rows ≡ none
    → find_row id (delete_expired doc now rows) ≡ none
unfolding find_row delete_expired
find_row-delete_expired doc id now [] e = refl
find_row-delete_expired doc id now (r ∷ rows) e =
    ground (arith, e, find_row-delete_expired doc id now rows)

row_absent-delete_expired :
    (doc k : String) (now : ℕ) (rows : Table)
    → row_of k rows ≡ none
    → row_of k (delete_expired doc now rows) ≡ none
unfolding row_of delete_expired
row_absent-delete_expired doc k now [] e = refl
row_absent-delete_expired doc k now (r ∷ rows) e =
    ground (arith, e, row_absent-delete_expired doc k now rows)

pub delete_expired-IsTable :
    (doc : String) (now : ℕ) (rows : Table) → IsTable rows → IsTable (delete_expired doc now rows)
unfolding delete_expired
delete_expired-IsTable doc now [] t = tt
delete_expired-IsTable doc now (r ∷ rows) t = ground (
  arith,
  t,
  row_absent-delete_expired doc r.document_id now rows,
  find_row-delete_expired doc r.lease_id now rows,
  delete_expired-IsTable doc now rows,
)

-- The row that an identifier leads to is its document's.
pub row_of-find_row :
    (id : String) (r : WriterLease) (rows : Table)
    → IsTable rows
    → find_row id rows ≡ some r
    → (row_of r.document_id rows ≡ some r) × (r.lease_id ≡ id) × Ordered r
unfolding row_of find_row
row_of-find_row id r [] t e = absurd (ground (arith, e))
row_of-find_row id r (x ∷ rows) t e = ground (
  arith,
  t,
  e,
  eq_iff x.lease_id id,
  eq_iff x.document_id r.document_id,
  row_of-find_row id r rows t.3,
)

-- Where an identifier leads to no row, no row has it.
pub row_of-unknown :
    (id d : String) (l : WriterLease) (rows : Table)
    → find_row id rows ≡ none
    → row_of d rows ≡ some l
    → l.lease_id ≢ id
unfolding row_of find_row
row_of-unknown id d l [] n e = absurd (ground (arith, e))
row_of-unknown id d l (x ∷ rows) n e =
    ground (arith, n, e, eq_iff x.lease_id id, row_of-unknown id d l rows)

pub row_of-valid :
    (d : String) (l : WriterLease) (rows : Table)
    → IsTable rows
    → row_of d rows ≡ some l
    → Ordered l
unfolding row_of
row_of-valid d l [] t e = absurd (ground (arith, e))
row_of-valid d l (x ∷ rows) t e = ground (arith, t, e, row_of-valid d l rows t.3)
