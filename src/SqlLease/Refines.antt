-- ===== src/SqlLease/Refines.antt =====
-- The table of cad_harness/persistence/sql_lease_store.py against the contract of lease stores.
use autocad_mechanical_harne.Base.{
  ℕ, ◌+◌, ◌<◌, ◌≤◌, ◌≡◌, ◌∙◌, refl, String, ◌==◌, Option, none, some, ◌∷◌, leb, if◌then◌else◌,
  arith, All, fun_ext, eq_refl, Option-cases, inl, inr, Bool-cases,
}
use autocad_mechanical_harne.Errors.{Result, ok, err, value_error, writer_lease_conflict}
use native.Mathlib.Decide.{dec_lt}
use autocad_mechanical_harne.Lease.{WriterLease, writer_lease, if_active}
use autocad_mechanical_harne.Lease.Contract.{
  Call, acquire, renew, release, active, View, granted_lease, Step, granted, refused, timeless,
  renewed, lapsed, unknown, freed, nothing, seen,
}
use autocad_mechanical_harne.SqlLease
use autocad_mechanical_harne.SqlLease.{
  Table, row_of, find_row, delete_expired, delete_row, update_row, insert_row, conflict,
  store_lease, renew_row, read_row,
}
use autocad_mechanical_harne.SqlLease.Table.{
  Ordered, IsTable, writer_lease-Ordered, row_of-delete_expired, find_row-delete_expired,
  delete_expired-IsTable, row_of-find_row, row_of-unknown, row_of-valid,
}
use autocad_mechanical_harne.SqlLease.Changes.{
  delete_row_absent, delete_row-IsTable, row_of-delete_row, update_row-IsTable, row_of-update_row,
  past_of,
}

abbrev pub view : Table → View
view rows = λ doc. row_of doc rows

-- A lease as the reply to a call of the contract.
abbrev pub reply : Result WriterLease → Result (Option WriterLease)
reply (ok l) = ok (some l)
reply (err raised) = err raised

-- The store's method that a call names.
abbrev pub call : Call → Table → Result (Option WriterLease) × Table
call (acquire id doc owner ttl now) rows =
    let done = SqlLease.try_acquire id doc owner ttl now rows in (reply done.0, done.1)
call (renew id ttl now) rows = let done = SqlLease.renew id ttl now rows in (reply done.0, done.1)
call (release id) rows = (ok none, SqlLease.release id rows)
call (active doc now) rows = (SqlLease.active_lease doc now rows, rows)

-- What the service sees to: the identifier of a new lease is new, a renewal is for a positive time,
-- and the clock is not behind an acquisition.
abbrev pub Allowed : Call → Table → Type 0
Allowed (acquire id doc owner ttl now) rows = find_row id rows ≡ none
Allowed (renew id ttl now) rows = (0 < ttl) × All (λ r. r.acquired_at ≤ now) rows
Allowed (release id) rows = Unit {0}
Allowed (active doc now) rows = Unit {0}

release_step :
    (id : String) (rows : Table)
    → IsTable rows
    → Step (release id) (view rows) (ok none) (view (delete_row id rows))
release_step id rows t = elim (Option-cases (find_row id rows)) [
  | inl e ↦ rw (delete_row_absent id rows e) (nothing (λ d l h. row_of-unknown id d l rows e h))
  | inr (r, e) ↦
      let (held, same, valid) = row_of-find_row id r rows t e in
      freed r.document_id r held same (fun_ext λ k. row_of-delete_row id k r rows t e)
]

active_step :
    (doc : String) (now : ℕ) (rows : Table)
    → IsTable rows
    → SqlLease.active_lease doc now rows ≡ ok (if_active (row_of doc rows) now)
unfolding SqlLease.active_lease read_row if_active
active_step doc now rows t = elim (Option-cases (row_of doc rows)) [
  | inl e ↦ ground (arith, e)
  | inr (r, e) ↦ ground (arith, e, writer_lease-Ordered r (row_of-valid doc r rows t e))
]

renew_step :
    (id : String) (ttl now : ℕ) (rows : Table)
    → IsTable rows
    → 0 < ttl
    → All (λ r. r.acquired_at ≤ now) rows
    → Step
        (renew id ttl now)
        (view rows)
        (reply (SqlLease.renew id ttl now rows).0)
        (view (SqlLease.renew id ttl now rows).1)
      × IsTable (SqlLease.renew id ttl now rows).1
unfolding SqlLease.renew renew_row
renew_step id ttl now rows t pos past = elim (Option-cases (find_row id rows)) [
  | inl e ↦ rw (e) (unknown (λ d l h. row_of-unknown id d l rows e h), t)
  | inr (r, e) ↦
      let (held, same, valid) = row_of-find_row id r rows t e in
      elim (Bool-cases (leb r.expires_at now)) [
        | inl late ↦ rw (e, late) (lapsed r.document_id r held same (ground (arith, late)), t)
        | inr early ↦
            let r' : WriterLease = record r { heartbeat_at = now; expires_at = now + ttl } in
            let fine : writer_lease r' ≡ ok r' =
              writer_lease-Ordered r' (past_of id r now rows past e, omega arith) in
            rw (e, early, fine)
              (
                renewed r.document_id r r' held same (ground (arith, early)) refl
                    (fun_ext λ k. row_of-update_row id k ttl now r rows t e),
                update_row-IsTable id ttl now rows pos past t,
              )
      ]
]

-- Where the document is free, the new row meets both constraints; where it is not, it violates one.
store_free :
    (l : WriterLease) (now : ℕ) (rows : Table)
    → IsTable rows
    → find_row l.lease_id rows ≡ none
    → if_active (row_of l.document_id rows) now ≡ none
    → store_lease l now rows ≡ (ok l, l ∷ delete_expired l.document_id now rows)
unfolding store_lease insert_row
store_free l now rows t fresh free = ground (
  arith,
  fresh,
  free,
  row_of-delete_expired l.document_id l.document_id now rows t,
  eq_refl l.document_id,
  find_row-delete_expired l.document_id l.lease_id now rows fresh,
)

store_held :
    (l c : WriterLease) (now : ℕ) (rows : Table)
    → IsTable rows
    → if_active (row_of l.document_id rows) now ≡ some c
    → store_lease l now rows ≡ (err writer_lease_conflict, rows)
unfolding store_lease insert_row conflict if_active
store_held l c now rows t held = elim (Option-cases (row_of l.document_id rows)) [
  | inl e ↦ absurd (ground (arith, e, held))
  | inr (r, e) ↦ ground (
    arith,
    e,
    held,
    row_of-delete_expired l.document_id l.document_id now rows t,
    eq_refl l.document_id,
    writer_lease-Ordered r (row_of-valid l.document_id r rows t e),
  )
]

row_of_stored :
    (l : WriterLease) (k : String) (now : ℕ) (rows : Table)
    → IsTable rows
    → if_active (row_of l.document_id rows) now ≡ none
    → row_of k (l ∷ delete_expired l.document_id now rows)
      ≡ (if l.document_id == k then some l else row_of k rows)
unfolding row_of
row_of_stored l k now rows t free = ground (arith, row_of-delete_expired l.document_id k now rows t)

stored-IsTable :
    (l : WriterLease) (now : ℕ) (rows : Table)
    → IsTable rows
    → find_row l.lease_id rows ≡ none
    → if_active (row_of l.document_id rows) now ≡ none
    → Ordered l
    → IsTable (l ∷ delete_expired l.document_id now rows)
stored-IsTable l now rows t fresh free h = (
  row_of-delete_expired l.document_id l.document_id now rows t ∙ rw (eq_refl l.document_id) free,
  find_row-delete_expired l.document_id l.lease_id now rows fresh,
  h,
  delete_expired-IsTable l.document_id now rows t,
)

timeless_lease :
    (id doc owner : String) (ttl now : ℕ)
    → ttl ≡ 0
    → writer_lease (granted_lease id doc owner ttl now) ≡ err value_error
unfolding writer_lease
timeless_lease id doc owner ttl now e = ground arith

acquire_step :
    (id doc owner : String) (ttl now : ℕ) (rows : Table)
    → IsTable rows
    → find_row id rows ≡ none
    → Step
        (acquire id doc owner ttl now)
        (view rows)
        (reply (SqlLease.try_acquire id doc owner ttl now rows).0)
        (view (SqlLease.try_acquire id doc owner ttl now rows).1)
      × IsTable (SqlLease.try_acquire id doc owner ttl now rows).1
unfolding SqlLease.try_acquire
acquire_step id doc owner ttl now rows t fresh =
    let l = granted_lease id doc owner ttl now in
    elim (dec_lt 0 ttl) [
      | no none_left ↦
          let bad : writer_lease l ≡ err value_error =
            timeless_lease id doc owner ttl now (omega arith) in
          rw (bad, SqlLease.try_acquire) (timeless (omega arith), t)
      | yes pos ↦
          let fine : writer_lease l ≡ ok l = writer_lease-Ordered l (omega arith, omega arith) in
          elim (Option-cases (if_active (row_of doc rows) now)) [
            | inl free ↦
                rw (fine, SqlLease.try_acquire, store_free l now rows t fresh free)
                  (
                    granted free pos (fun_ext λ k. row_of_stored l k now rows t free),
                    stored-IsTable l now rows t fresh free (omega arith, omega arith),
                  )
            | inr (c, held) ↦
                rw (fine, SqlLease.try_acquire, store_held l c now rows t held) (refused c held, t)
          ]
    ]

-- Every call that is allowed on a table that keeps the constraints is a step of the contract of lease
-- stores, from what the table holds for each document to what it holds afterwards, with the reply that
-- the store gives; and the constraints are kept.
pub call-Step :
    (c : Call) (rows : Table)
    → IsTable rows
    → Allowed c rows
    → Step c (view rows) (call c rows).0 (view (call c rows).1) × IsTable (call c rows).1
unfolding SqlLease.release
call-Step (acquire id doc owner ttl now) rows t h = acquire_step id doc owner ttl now rows t h
call-Step (renew id ttl now) rows t h = renew_step id ttl now rows t h.0 h.1
call-Step (release id) rows t h = (release_step id rows t, delete_row-IsTable id rows t)
call-Step (active doc now) rows t h = (rw (active_step doc now rows t) seen, t)
