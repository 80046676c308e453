-- ===== src/Lease.antt =====
-- Writer leases: cad_harness/domain/models/lease.py and the in-memory store of
-- cad_harness/persistence/memory_lease_store.py. Times are microseconds. The identifier that `uuid4`
-- makes is an argument of `try_acquire`.
pub mod Contract
pub mod Exclusive
pub mod Refines
pub mod Found
mod Examples
use autocad_mechanical_harne.Base.{
  ℕ, ◌+◌, String, ◌==◌, Bool, true, false, ◌&&◌, not, Option, none, some, List, [], ◌∷◌, ltb, leb,
  if◌then◌else◌,
}
use autocad_mechanical_harne.Base.Dict
use autocad_mechanical_harne.Base.Dict.{Dict}
use autocad_mechanical_harne.Errors.{
  Result, ok, err, guard, or_raise, value_error, harness_error, writer_lease_conflict, ◌>>=◌, ◌>>◌,
}

pub record WriterLease : Type 0 where
  pub lease_id : String
  pub document_id : String
  pub owner_id : String
  pub acquired_at : ℕ
  pub expires_at : ℕ
  pub heartbeat_at : ℕ

-- WriterLease(...) with its validator `_timestamps_are_ordered`.
unfoldable pub writer_lease : WriterLease → Result WriterLease
writer_lease l = do
  guard (not (leb l.expires_at l.acquired_at)) value_error
  guard (leb l.acquired_at l.heartbeat_at && ltb l.heartbeat_at l.expires_at) value_error
  ok l

pub record LeaseStore : Type 0 where
  pub leases : Dict WriterLease

unfoldable pub empty_leases : LeaseStore
empty_leases = record { leases = Dict.empty }

-- `lease if lease is not None and lease.expires_at > now else None`
unfoldable pub if_active : Option WriterLease → ℕ → Option WriterLease
if_active none now = none
if_active (some l) now = if ltb now l.expires_at then some l else none

unfoldable pub active_lease : LeaseStore → String → ℕ → Option WriterLease
active_lease s document_id now = if_active (Dict.get s.leases document_id) now

unfoldable pub try_acquire :
    LeaseStore → String → String → String → ℕ → ℕ → Result (WriterLease × LeaseStore)
try_acquire s lease_id document_id owner_id ttl now = elim (active_lease s document_id now) [
  | some current ↦ err writer_lease_conflict
  | none ↦ do
    lease ← writer_lease (record {
      lease_id = lease_id;
      document_id = document_id;
      owner_id = owner_id;
      acquired_at = now;
      expires_at = now + ttl;
      heartbeat_at = now;
    })
    ok (lease, record { leases = Dict.put s.leases document_id lease })
]

-- The first entry that carries the lease's identifier, in the dict's order.
unfoldable pub find_lease : String → List (String × WriterLease) → Option (String × WriterLease)
find_lease lease_id [] = none
find_lease lease_id ((d, l) ∷ rest) =
    if l.lease_id == lease_id then some (d, l) else find_lease lease_id rest

unfoldable pub renew : LeaseStore → String → ℕ → ℕ → Result (WriterLease × LeaseStore)
renew s lease_id ttl now = do
  (d, current) ← or_raise (find_lease lease_id s.leases.items) harness_error
  guard (ltb now current.expires_at) harness_error
  let renewed = record current { heartbeat_at = now; expires_at = now + ttl }
  ok (renewed, record { leases = Dict.put s.leases current.document_id renewed })

unfoldable pub release : LeaseStore → String → LeaseStore
release s lease_id = elim (find_lease lease_id s.leases.items) [
  | none ↦ s
  | some (d, l) ↦ record { leases = Dict.pop s.leases d }
]
