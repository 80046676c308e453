-- ===== src/Harness/Lock/Release.antt =====
-- What LeaseService.hold of cad_harness/application/services/lease_service.py leaves of its lease.
use autocad_mechanical_harne.Base.{
  ℕ, zero, suc, String, ◌≡◌, refl, sym, ◌∙◌, ap, subst, true, false, Option, none, some, arith, inl,
  inr, Bool-cases,
}
use autocad_mechanical_harne.Errors.{HarnessError, Result, ok, err, Result-cases}
use autocad_mechanical_harne.Lease.{LeaseStore, active_lease, try_acquire, renew, find_lease}
use autocad_mechanical_harne.Lease.Refines.{IsKeyed}
use autocad_mechanical_harne.Lease.Found.{Held, try_acquire-Held, renew-Held, release-free}
use autocad_mechanical_harne.Harness.World.{Harness, World, LeaseHandle}
use autocad_mechanical_harne.Harness.Act.{Act, Keeps, Maintains, either_way, attempt, chain-cases}
use autocad_mechanical_harne.Harness.Lock.{renew_with, beat, heartbeats, let_go, take, held, hold}

module _ {S : Type 0} (h : Harness S) where
  -- A handle whose lease is the document's in the store.
  pub record Holding (doc : String) (w : World S) : Type 0 where
    pub handle : LeaseHandle
    pub open_ : w.handle ≡ some handle
    pub unreleased : handle.released ≡ false
    pub lease_held : Held w.leases doc handle.lease

  -- The parts of the world that a hold is about.
  abbrev pub grip : World S → Option LeaseHandle × LeaseStore
  grip w = (w.handle, w.leases)

  pub same-Holding :
      (doc : String) (w w' : World S) → grip w' ≡ grip w → Holding doc w → Holding doc w'
  same-Holding doc w w' same p = record {
    handle = p.handle;
    open_ = ap (λ g. g.0) same ∙ p.open_;
    unreleased = p.unreleased;
    lease_held = subst (λ s. Held s doc p.handle.lease) (ap (λ g. g.1) (sym same)) p.lease_held;
  }

  pub kept-Holding :
      {A : Type 0} (doc : String) (act : Act S A) → Keeps grip act → Maintains (Holding doc) act
  kept-Holding doc act same w p = same-Holding doc w (act w).1 (same w) p

  renew_with-Holding :
      (doc : String) (hd : LeaseHandle) (at : ℕ) (w : World S)
      → w.handle ≡ some hd
      → hd.released ≡ false
      → Held w.leases doc hd.lease
      → Holding doc (renew_with h hd at w)
  unfolding renew_with
  renew_with-Holding doc hd at w at_hand open_yet held =
      elim (Result-cases (renew w.leases hd.lease.lease_id h.lease_ttl at)) [
        | inl ((l, s), fine) ↦
            rw (fine, renew_with)
              (record {
                handle = record hd { lease = l };
                open_ = refl;
                unreleased = open_yet;
                lease_held = renew-Held w.leases s hd.lease l doc h.lease_ttl at held fine;
              })
        | inr (x, bad) ↦
            rw (bad, renew_with)
              (record {
                handle = record hd { renewal_failed = true };
                open_ = refl;
                unreleased = open_yet;
                lease_held = held;
              })
      ]

  beat-Holding : (doc : String) (w : World S) → Holding doc w → Holding doc (beat h w)
  unfolding beat
  beat-Holding doc w p = elim (Bool-cases p.handle.renewal_failed) [
    | inl failed ↦
        let still : beat h w ≡ w = ground (arith, p.open_, failed) in
        subst (Holding doc) (sym still) p
    | inr going ↦
        let ticked : World S = record w { ticks = suc w.ticks } in
        let renewed : beat h w ≡ renew_with h p.handle (h.clock w.ticks) ticked =
          ground (arith, p.open_, going) in
        subst (Holding doc) (sym renewed) (
          renew_with-Holding doc p.handle (h.clock w.ticks) ticked p.open_ p.unreleased
            p.lease_held)
  ]

  pub heartbeats-Holding :
      (doc : String) (n : ℕ) (w : World S) → Holding doc w → Holding doc (heartbeats h n w)
  unfolding heartbeats
  heartbeats-Holding doc zero w p = p
  heartbeats-Holding doc (suc n) w p = heartbeats-Holding doc n (beat h w) (beat-Holding doc w p)

  let_go-free :
      (doc : String) (w : World S) (at : ℕ)
      → Holding doc w
      → active_lease (let_go h w).leases doc at ≡ none
  unfolding let_go
  let_go-free doc w at p =
      rw (p.open_, let_go, p.unreleased) (release-free w.leases p.handle.lease doc at p.lease_held)

  take-Holding :
      (doc owner : String) (w v : World S) (u : Unit {0})
      → IsKeyed w.leases
      → find_lease (h.new_id w.ids) w.leases.leases.items ≡ none
      → take h doc owner w ≡ (ok u, v)
      → Holding doc v
  unfolding take
  take-Holding doc owner w v u keyed fresh e =
      elim (Result-cases
        (try_acquire w.leases (h.new_id w.ids) doc owner h.lease_ttl (h.clock w.ticks))) [
          | inr (x, bad) ↦ absurd (ground (arith, bad, e))
          | inl ((l, s), fine) ↦
              let facts : (v.handle
                    ≡ some (record { lease = l; renewal_failed = false; released = false }))
                  × (v.leases ≡ s) =
                ground (arith, fine, e) in
              record {
                handle = record { lease = l; renewal_failed = false; released = false };
                open_ = facts.0;
                unreleased = refl;
                lease_held =
                    subst (λ t. Held t doc l) (sym facts.1)
                      (try_acquire-Held w.leases s l (h.new_id w.ids) doc owner h.lease_ttl
                        (h.clock w.ticks) keyed fresh fine);
              }
        ]

  take_refused :
      (doc owner : String) (w v : World S) (x : HarnessError)
      → take h doc owner w ≡ (err x, v)
      → v.leases ≡ w.leases
  unfolding take
  take_refused doc owner w v x e = ground (arith, e)

  -- A hold leaves the document free at every time, whatever its body comes to, where the document was
  -- free before and the body goes on holding the lease.
  pub hold-free :
      {A : Type 0} (doc owner : String) (body : Act S A) (w : World S) (at : ℕ)
      → Maintains (Holding doc) body
      → IsKeyed w.leases
      → find_lease (h.new_id w.ids) w.leases.leases.items ≡ none
      → active_lease w.leases doc at ≡ none
      → active_lease (hold h doc owner body w).1.leases doc at ≡ none
  unfolding hold
  hold-free {A} doc owner body w at kept keyed fresh free =
      chain-cases (λ out. active_lease out.1.leases doc at ≡ none) (take h doc owner)
        (λ _. held h body) w
        (λ u v taken.
          let_go-free doc (body v).1 at (kept v (take-Holding doc owner w v u keyed fresh taken)))
        (λ x v refused.
          ap (λ s. active_lease s doc at) (take_refused doc owner w v x refused) ∙ free)

  -- The same for what may raise, and is then handled.
  pub attempt-Maintains :
      {A B : Type 0} (P : World S → Type 0) (act : Act S A) (rest : A → Act S B)
      (handler : HarnessError → Act S B)
      → Maintains P act
      → ((a : A) → Maintains P (rest a))
      → ((e : HarnessError) → Maintains P (handler e))
      → Maintains P (attempt act rest handler)
  attempt-Maintains {A} {B} P act rest handler first then_ caught w p = go (act w) (first w p)
    where
      go : (out : Result A × World S) → P out.1 → P (either_way out rest handler).1
      go (ok a, v) q = then_ a v q
      go (err x, v) q = caught x v q
