-- ===== src/Harness/Lock.antt =====
-- cad_harness/application/services/lease_service.py: holding a writer lease around a body, and the
-- heartbeat that renews it meanwhile. The thread's renewals happen where the body lets them.
pub mod Release
use autocad_mechanical_harne.Base.{
  ℕ, zero, suc, String, Bool, true, false, ◌&&◌, not, none, some, ltb, if◌then◌else◌,
}
use autocad_mechanical_harne.Errors.{ok, err}
use autocad_mechanical_harne.Lease.{try_acquire, renew, release}
use autocad_mechanical_harne.Harness.World.{Harness, World, LeaseHandle}
use autocad_mechanical_harne.Harness.Act.{Act, ◌>>=◌, ◌>>◌, now, fresh_id}

-- LeaseHandle.is_valid_at
unfoldable pub is_valid_at : LeaseHandle → ℕ → Bool
is_valid_at hd at = not hd.renewal_failed && ltb at hd.lease.expires_at

module _ {S : Type 0} (h : Harness S) where
  -- LeaseRenewer.renew_once, whose exception the thread's loop catches and notes in the handle.
  unfoldable pub renew_with : LeaseHandle → ℕ → World S → World S
  renew_with hd at w = elim (renew w.leases hd.lease.lease_id h.lease_ttl at) [
    | ok (lease, s) ↦ record w { leases = s; handle = some (record hd { lease = lease }) }
    | err e ↦ record w { handle = some (record hd { renewal_failed = true }) }
  ]

  -- One round of the thread's loop; a thread whose renewal failed has ended.
  unfoldable pub beat : World S → World S
  unfolding renew_with
  beat w = elim w.handle [
    | none ↦ w
    | some hd ↦
        if hd.renewal_failed
        then w
        else renew_with hd (h.clock w.ticks) (record w { ticks = suc w.ticks })
  ]

  unfoldable pub heartbeats : ℕ → World S → World S
  unfolding beat
  heartbeats zero w = w
  heartbeats (suc n) w = heartbeats n (beat w)

  -- The `finally` of `hold`.
  unfoldable pub let_go : World S → World S
  let_go w = elim w.handle [
    | none ↦ w
    | some hd ↦ if hd.released then record w { handle = none } else record w {
      leases = release w.leases hd.lease.lease_id;
      ticks = suc w.ticks;
      handle = none;
    }
  ]

  -- The `try` of `hold` with the `finally` after it.
  abbrev pub held : {A : Type 0} → Act S A → Act S A
  held body w = ((body w).0, let_go (body w).1)

  unfoldable pub take : String → String → Act S (Unit {0})
  take document_id owner_id = do
    lease_id ← fresh_id h
    at ← now h
    (λ w. elim (try_acquire w.leases lease_id document_id owner_id h.lease_ttl at) [
      | err e ↦ (err e, w)
      | ok (lease, s) ↦ (
        ok tt,
        record w {
          leases = s;
          handle = some (record { lease = lease; renewal_failed = false; released = false });
        },
      )
    ])

  unfoldable pub hold : {A : Type 0} → String → String → Act S A → Act S A
  unfolding take
  hold document_id owner_id body = do take document_id owner_id; held body
