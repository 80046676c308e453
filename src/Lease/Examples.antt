-- ===== src/Lease/Examples.antt =====
-- The theorems of Lease at concrete stores.
use autocad_mechanical_harne.Base.{refl}
use autocad_mechanical_harne.Base.Dict
use autocad_mechanical_harne.Lease.{WriterLease, LeaseStore}
use autocad_mechanical_harne.Lease.Contract.{renew, Step}
use autocad_mechanical_harne.Lease.Refines.{view, call, IsKeyed, call-Contract}

abbrev first : WriterLease
first = record {
  lease_id = "lease_1";
  document_id = "doc_1";
  owner_id = "job_1";
  acquired_at = 10;
  expires_at = 40;
  heartbeat_at = 10;
}

abbrev held : LeaseStore
held = record { leases = Dict.put Dict.empty "doc_1" first }

call-Contract_example :
    Step
      (renew "lease_1" 30 20)
      (view held)
      (call (renew "lease_1" 30 20) held).0
      (view (call (renew "lease_1" 30 20) held).1)
    × IsKeyed (call (renew "lease_1" 30 20) held).1
unfolding Dict.put Dict.empty
call-Contract_example = call-Contract (renew "lease_1" 30 20) held ((tt, tt), (refl, tt))
