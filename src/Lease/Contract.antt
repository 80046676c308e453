-- ===== src/Lease/Contract.antt =====
-- What a store of writer leases promises, whatever keeps it: the calls of the LeaseStore port, which
-- the stores of cad_harness/persistence/memory_lease_store.py and sql_lease_store.py implement, as a
-- relation between a view (each document's lease, active or not), a reply and the view after it.
use autocad_mechanical_harne.Base.{
  ℕ, ◌+◌, ◌≤◌, ◌<◌, ◌≡◌, ◌≢◌, String, ◌==◌, Option, none, some, if◌then◌else◌,
}
use autocad_mechanical_harne.Errors.{
  Result, ok, err, value_error, harness_error, writer_lease_conflict,
}
use autocad_mechanical_harne.Lease.{WriterLease, if_active}

pub data Call : Type 0 where
  acquire : String → String → String → ℕ → ℕ → Call
  renew : String → ℕ → ℕ → Call
  release : String → Call
  active : String → ℕ → Call

abbrev pub View : Type 0
View = String → Option WriterLease

-- The view with one document's lease changed.
abbrev pub set_at : View → String → Option WriterLease → View
set_at v doc held = λ d. if doc == d then held else v d

abbrev pub granted_lease : String → String → String → ℕ → ℕ → WriterLease
granted_lease id doc owner ttl now = record {
  lease_id = id;
  document_id = doc;
  owner_id = owner;
  acquired_at = now;
  expires_at = now + ttl;
  heartbeat_at = now;
}

-- No document has a lease of that identifier.
abbrev pub Unknown : String → View → Type 0
Unknown id v = (d : String) (l : WriterLease) → v d ≡ some l → l.lease_id ≢ id

pub data Step : Call → View → Result (Option WriterLease) → View → Type 0 where
  granted :
      {id doc owner : String} {ttl now : ℕ} {v v' : View}
      → if_active (v doc) now ≡ none
      → 0 < ttl
      → v' ≡ set_at v doc (some (granted_lease id doc owner ttl now))
      → Step (acquire id doc owner ttl now) v (ok (some (granted_lease id doc owner ttl now))) v'
  refused :
      {id doc owner : String} {ttl now : ℕ} {v : View} (l : WriterLease)
      → if_active (v doc) now ≡ some l
      → Step (acquire id doc owner ttl now) v (err writer_lease_conflict) v
  timeless :
      {id doc owner : String} {ttl now : ℕ} {v : View}
      → ttl ≡ 0
      → Step (acquire id doc owner ttl now) v (err value_error) v
  renewed :
      {id : String} {ttl now : ℕ} {v v' : View} (d : String) (l l' : WriterLease)
      → v d ≡ some l
      → l.lease_id ≡ id
      → now < l.expires_at
      → l' ≡ record l { heartbeat_at = now; expires_at = now + ttl }
      → v' ≡ set_at v d (some l')
      → Step (renew id ttl now) v (ok (some l')) v'
  lapsed :
      {id : String} {ttl now : ℕ} {v : View} (d : String) (l : WriterLease)
      → v d ≡ some l
      → l.lease_id ≡ id
      → l.expires_at ≤ now
      → Step (renew id ttl now) v (err harness_error) v
  unknown :
      {id : String} {ttl now : ℕ} {v : View}
      → Unknown id v
      → Step (renew id ttl now) v (err harness_error) v
  freed :
      {id : String} {v v' : View} (d : String) (l : WriterLease)
      → v d ≡ some l
      → l.lease_id ≡ id
      → v' ≡ set_at v d none
      → Step (release id) v (ok none) v'
  nothing : {id : String} {v : View} → Unknown id v → Step (release id) v (ok none) v
  seen :
      {doc : String} {now : ℕ} {v : View} → Step (active doc now) v (ok (if_active (v doc) now)) v
