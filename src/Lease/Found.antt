-- ===== src/Lease/Found.antt =====
-- Finding a lease by its identifier in cad_harness/persistence/memory_lease_store.py, after the store
-- has changed.
use autocad_mechanical_harne.Base.{
  ℕ, String, ◌≡◌, ◌∙◌, sym, ap, subst, none, some, List, [], ◌∷◌, arith, eq_iff, eq_refl,
  Option-cases, inl, inr,
}
use autocad_mechanical_harne.Base.Dict
use autocad_mechanical_harne.Errors.{ok}
use autocad_mechanical_harne.Lease.{
  WriterLease, LeaseStore, writer_lease, active_lease, try_acquire, renew, release, find_lease,
}
use autocad_mechanical_harne.Lease.Exclusive.{Distinct, release_self, found_elsewhere}
use autocad_mechanical_harne.Lease.Refines.{IsKeyed, put-IsKeyed, found_key}

find-insert_fresh :
    (d : String) (l : WriterLease) (m : List (String × WriterLease))
    → find_lease l.lease_id m ≡ none
    → find_lease l.lease_id (Dict.insert_items d l m) ≡ some (d, l)
unfolding find_lease Dict.insert_items
find-insert_fresh d l [] h = ground (arith, eq_refl l.lease_id)
find-insert_fresh d l ((j, x) ∷ m) h =
    ground (arith, h, eq_refl l.lease_id, eq_iff j d, find-insert_fresh d l m)

find-insert_same :
    (d : String) (l l' : WriterLease) (m : List (String × WriterLease))
    → Distinct m
    → l'.lease_id ≡ l.lease_id
    → find_lease l.lease_id m ≡ some (d, l)
    → find_lease l'.lease_id (Dict.insert_items d l' m) ≡ some (d, l')
unfolding find_lease Dict.insert_items
find-insert_same d l l' [] h same e = absurd (ground (arith, e))
find-insert_same d l l' ((j, x) ∷ m) h same e = ground (
  arith,
  h,
  same,
  e,
  eq_iff j d,
  eq_refl l'.lease_id,
  found_elsewhere l.lease_id d j l m,
  find-insert_same d l l' m h.1 same,
)

-- The document's lease, found by its identifier in a store that keeps leases at their documents.
pub record Held (s : LeaseStore) (doc : String) (l : WriterLease) : Type 0 where
  pub keyed : IsKeyed s
  pub found : find_lease l.lease_id s.leases.items ≡ some (doc, l)

-- A lease acquired under a new identifier is held.
pub try_acquire-Held :
    (s s' : LeaseStore) (l : WriterLease) (id doc owner : String) (ttl now : ℕ)
    → IsKeyed s
    → find_lease id s.leases.items ≡ none
    → try_acquire s id doc owner ttl now ≡ ok (l, s')
    → Held s' doc l
unfolding try_acquire writer_lease Dict.put
try_acquire-Held s s' l id doc owner ttl now keyed fresh e =
    elim (Option-cases (active_lease s doc now)) [
      | inr (c, busy) ↦ absurd (ground (arith, busy, e))
      | inl free ↦
          let facts : (l.lease_id ≡ id)
              × (l.document_id ≡ doc)
              × (s' ≡ record { leases = Dict.put s.leases doc l }) =
            ground (arith, free, e) in
          subst (λ t. Held t doc l) (sym facts.2)
            (record {
              keyed = put-IsKeyed s doc l keyed (sym facts.1);
              found =
                  find-insert_fresh doc l s.leases.items
                    (ap (λ i. find_lease i s.leases.items) facts.0 ∙ fresh);
            })
    ]

-- A renewal keeps the lease held, with its new times.
pub renew-Held :
    (s s' : LeaseStore) (l l' : WriterLease) (doc : String) (ttl now : ℕ)
    → Held s doc l
    → renew s l.lease_id ttl now ≡ ok (l', s')
    → Held s' doc l'
unfolding renew Dict.put
renew-Held s s' l l' doc ttl now held e =
    let place : doc ≡ l.document_id =
      found_key l.lease_id doc l s.leases.items held.keyed.1 held.found in
    let facts : (l'.lease_id ≡ l.lease_id)
        × (l'.document_id ≡ l.document_id)
        × (s' ≡ record { leases = Dict.put s.leases l.document_id l' }) =
      ground (arith, held.found, e) in
    subst (λ t. Held t doc l') (sym facts.2)
      (subst (λ d. Held (record { leases = Dict.put s.leases d l' }) doc l') place
        (record {
          keyed = put-IsKeyed s doc l' held.keyed (place ∙ sym facts.1);
          found = find-insert_same doc l l' s.leases.items held.keyed.0 facts.0 held.found;
        }))

-- A released lease leaves its document free at all times.
pub release-free :
    (s : LeaseStore) (l : WriterLease) (doc : String) (at : ℕ)
    → Held s doc l
    → active_lease (release s l.lease_id) doc at ≡ none
release-free s l doc at held = release_self s l.lease_id doc at l held.keyed.0 held.found
