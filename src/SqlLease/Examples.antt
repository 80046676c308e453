-- ===== src/SqlLease/Examples.antt =====
-- A table of leases of cad_harness/persistence/sql_lease_store.py, and calls on it.
use autocad_mechanical_harne.Base.{◌≡◌, refl, [], ◌∷◌, arith}
use autocad_mechanical_harne.Errors.{ok, err, writer_lease_conflict}
use autocad_mechanical_harne.Lease.{WriterLease, writer_lease}
use autocad_mechanical_harne.Lease.Contract.{acquire, Step}
use autocad_mechanical_harne.SqlLease
use autocad_mechanical_harne.SqlLease.{
  Table, row_of, find_row, delete_expired, insert_row, conflict, store_lease, try_acquire,
  renew_row, update_row,
}
use autocad_mechanical_harne.SqlLease.Table.{IsTable}
use autocad_mechanical_harne.SqlLease.Refines.{view, call, call-Step}

abbrev held : WriterLease
held = record {
  lease_id = "lease_1";
  document_id = "doc_1";
  owner_id = "job_1";
  acquired_at = 10;
  expires_at = 40;
  heartbeat_at = 10;
}

abbrev table : Table
table = held ∷ []

abbrev taken_over : WriterLease
taken_over = record held {
  lease_id = "lease_2";
  owner_id = "job_2";
  acquired_at = 40;
  expires_at = 70;
  heartbeat_at = 40;
}

refused_runs :
    try_acquire "lease_2" "doc_1" "job_2" 30 39 table ≡ (err writer_lease_conflict, table)
unfolding try_acquire writer_lease store_lease insert_row delete_expired conflict row_of find_row
refused_runs = refl

taken_over_runs :
    try_acquire "lease_2" "doc_1" "job_2" 30 40 table ≡ (ok taken_over, taken_over ∷ [])
unfolding try_acquire writer_lease store_lease insert_row delete_expired conflict row_of find_row
taken_over_runs = refl

renewed_runs : SqlLease.renew "lease_1" 30 20 table ≡ (
  ok (record held { expires_at = 50; heartbeat_at = 20 }),
  record held { expires_at = 50; heartbeat_at = 20 } ∷ [],
)
unfolding SqlLease.renew renew_row update_row find_row writer_lease
renewed_runs = refl

call-Step_example :
    Step
      (acquire "lease_2" "doc_1" "job_2" 30 40)
      (view table)
      (call (acquire "lease_2" "doc_1" "job_2" 30 40) table).0
      (view (call (acquire "lease_2" "doc_1" "job_2" 30 40) table).1)
    × IsTable (call (acquire "lease_2" "doc_1" "job_2" 30 40) table).1
unfolding row_of find_row
call-Step_example =
    call-Step (acquire "lease_2" "doc_1" "job_2" 30 40) table
      (refl, refl, (omega arith, omega arith), tt) refl
