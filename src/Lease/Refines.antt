-- ===== src/Lease/Refines.antt =====
-- The dict of cad_harness/persistence/memory_lease_store.py against the contract of lease stores.
use native.Mathlib.Decide.{dec_lt}
use autocad_mechanical_harne.Base.{
  ℕ, ◌+◌, ◌≡◌, ◌≢◌, refl, String, Option, none, some, List, [], ◌∷◌, ltb, arith, eq_iff, All,
  fun_ext, subst, Option-cases, inl, inr, Bool-cases,
}
use autocad_mechanical_harne.Base.Dict
use autocad_mechanical_harne.Base.Dict.{Dict, get-put, get-pop}
use autocad_mechanical_harne.Errors.{Result, ok, err, value_error}
use autocad_mechanical_harne.Lease
use autocad_mechanical_harne.Lease.{WriterLease, LeaseStore, writer_lease, if_active, find_lease}
use autocad_mechanical_harne.Lease.Contract.{
  Call, acquire, renew, release, active, View, granted_lease, Step, granted, refused, timeless,
  renewed, lapsed, unknown, freed, nothing, seen,
}
use autocad_mechanical_harne.Lease.Exclusive.{
  Fresh, Distinct, find_lease-id, lookup_found, find-cases,
}

abbrev pub view : LeaseStore → View
view s = λ doc. Dict.get s.leases doc

-- What a method that may raise replies, and the store that it leaves.
abbrev pub settled :
    LeaseStore → Result (WriterLease × LeaseStore) → Result (Option WriterLease) × LeaseStore
settled s (ok (l, s')) = (ok (some l), s')
settled s (err raised) = (err raised, s)

-- The store's method that a call names.
abbrev pub call : Call → LeaseStore → Result (Option WriterLease) × LeaseStore
call (acquire id doc owner ttl now) s = settled s (Lease.try_acquire s id doc owner ttl now)
call (renew id ttl now) s = settled s (Lease.renew s id ttl now)
call (release id) s = (ok none, Lease.release s id)
call (active doc now) s = (ok (Lease.active_lease s doc now), s)

-- A dict has a key once, and each lease stands at its own document.
abbrev pub IsKeyed : LeaseStore → Type 0
IsKeyed s = Distinct s.leases.items × All (λ p. p.0 ≡ p.1.document_id) s.leases.items

Fresh-insert :
    (d k : String) (l : WriterLease) (m : List (String × WriterLease))
    → Fresh k m
    → d ≢ k
    → Fresh k (Dict.insert_items d l m)
unfolding Dict.insert_items
Fresh-insert d k l [] h ne = (ne, tt)
Fresh-insert d k l ((j, x) ∷ m) h ne = ground (arith, h, Fresh-insert d k l m h.1 ne)

Distinct-insert :
    (d : String) (l : WriterLease) (m : List (String × WriterLease))
    → Distinct m
    → Distinct (Dict.insert_items d l m)
unfolding Dict.insert_items
Distinct-insert d l [] h = (tt, tt)
Distinct-insert d l ((j, x) ∷ m) h =
    ground (arith, h, eq_iff j d, Fresh-insert d j l m h.0, Distinct-insert d l m h.1)

Keyed-insert :
    (d : String) (l : WriterLease) (m : List (String × WriterLease))
    → d ≡ l.document_id
    → All (λ p. p.0 ≡ p.1.document_id) m
    → All (λ p. p.0 ≡ p.1.document_id) (Dict.insert_items d l m)
unfolding Dict.insert_items
Keyed-insert d l [] e h = (e, tt)
Keyed-insert d l ((j, x) ∷ m) e h = ground (arith, h, eq_iff j d, Keyed-insert d l m e h.1)

Fresh-remove :
    (d k : String) (m : List (String × WriterLease)) → Fresh k m → Fresh k (Dict.remove_items d m)
unfolding Dict.remove_items
Fresh-remove d k [] h = tt
Fresh-remove d k ((j, x) ∷ m) h = ground (arith, h, Fresh-remove d k m h.1)

Distinct-remove :
    (d : String) (m : List (String × WriterLease)) → Distinct m → Distinct (Dict.remove_items d m)
unfolding Dict.remove_items
Distinct-remove d [] h = tt
Distinct-remove d ((j, x) ∷ m) h =
    ground (arith, h, Fresh-remove d j m h.0, Distinct-remove d m h.1)

Keyed-remove :
    (d : String) (m : List (String × WriterLease))
    → All (λ p. p.0 ≡ p.1.document_id) m
    → All (λ p. p.0 ≡ p.1.document_id) (Dict.remove_items d m)
unfolding Dict.remove_items
Keyed-remove d [] h = tt
Keyed-remove d ((j, x) ∷ m) h = ground (arith, h, Keyed-remove d m h.1)

pub put-IsKeyed :
    (s : LeaseStore) (d : String) (l : WriterLease)
    → IsKeyed s
    → d ≡ l.document_id
    → IsKeyed (record { leases = Dict.put s.leases d l })
unfolding Dict.put
put-IsKeyed s d l k e =
    (Distinct-insert d l s.leases.items k.0, Keyed-insert d l s.leases.items e k.1)

-- What the scan by identifier finds stands at its document; what it does not find has no document.
pub found_key :
    (id d : String) (l : WriterLease) (m : List (String × WriterLease))
    → All (λ p. p.0 ≡ p.1.document_id) m
    → find_lease id m ≡ some (d, l)
    → d ≡ l.document_id
unfolding find_lease
found_key id d l [] h e = absurd (ground (arith, e))
found_key id d l ((j, x) ∷ m) h e =
    ground (arith, h, e, eq_iff x.lease_id id, found_key id d l m h.1)

not_found :
    (id d : String) (l : WriterLease) (m : List (String × WriterLease))
    → find_lease id m ≡ none
    → Dict.lookup_items d m ≡ some l
    → l.lease_id ≢ id
unfolding find_lease Dict.lookup_items
not_found id d l [] n e = absurd (ground (arith, e))
not_found id d l ((j, x) ∷ m) n e = ground (arith, n, e, eq_iff x.lease_id id, not_found id d l m)

acquire_step :
    (id doc owner : String) (ttl now : ℕ) (s : LeaseStore)
    → IsKeyed s
    → Step
        (acquire id doc owner ttl now)
        (view s)
        (call (acquire id doc owner ttl now) s).0
        (view (call (acquire id doc owner ttl now) s).1)
      × IsKeyed (call (acquire id doc owner ttl now) s).1
unfolding Lease.try_acquire Lease.active_lease writer_lease
acquire_step id doc owner ttl now s k =
    elim (Option-cases (if_active (Dict.get s.leases doc) now)) [
      | inr (c, held) ↦ rw (held, Lease.try_acquire) (refused c held, k)
      | inl free ↦ elim (dec_lt 0 ttl) [
        | no none_left ↦
            let e : Lease.try_acquire s id doc owner ttl now ≡ err value_error =
              ground (arith, free) in
            rw (e) (timeless (omega arith), k)
        | yes pos ↦
            let l = granted_lease id doc owner ttl now in
            let e : Lease.try_acquire s id doc owner ttl now
                ≡ ok (l, record { leases = Dict.put s.leases doc l }) =
              ground (arith, free) in
            rw (e)
              (granted free pos (fun_ext λ d. get-put s.leases doc d l), put-IsKeyed s doc l k refl)
      ]
    ]

renew_step :
    (id : String) (ttl now : ℕ) (s : LeaseStore)
    → IsKeyed s
    → Step
        (renew id ttl now)
        (view s)
        (call (renew id ttl now) s).0
        (view (call (renew id ttl now) s).1)
      × IsKeyed (call (renew id ttl now) s).1
unfolding Lease.renew Dict.get
renew_step id ttl now s k = elim (find-cases id s.leases.items) [
  | inl e ↦ rw (e, Lease.renew) (unknown (λ d l h. not_found id d l s.leases.items e h), k)
  | inr (d, l, e) ↦
      let held = lookup_found id d l s.leases.items e k.0 in
      let same = find_lease-id id d l s.leases.items e in
      let place : Dict.lookup_items l.document_id s.leases.items ≡ some l =
        subst (λ j. Dict.lookup_items j s.leases.items ≡ some l)
          (found_key id d l s.leases.items k.1 e) held in
      elim (Bool-cases (ltb now l.expires_at)) [
        | inr late ↦
            rw (e, Lease.renew, late) (lapsed l.document_id l place same (ground (arith, late)), k)
        | inl early ↦
            let l' : WriterLease = record l { heartbeat_at = now; expires_at = now + ttl } in
            rw (e, Lease.renew, early)
              (
                renewed l.document_id l l' place same (ground (arith, early)) refl
                    (fun_ext λ j. get-put s.leases l.document_id j l'),
                put-IsKeyed s l.document_id l' k refl,
              )
      ]
]

release_step :
    (id : String) (s : LeaseStore)
    → IsKeyed s
    → Step (release id) (view s) (ok none) (view (Lease.release s id))
      × IsKeyed (Lease.release s id)
unfolding Lease.release Dict.get Dict.pop Dict.remove_items
release_step id s k = elim (find-cases id s.leases.items) [
  | inl e ↦ rw (e, Lease.release) (nothing (λ d l h. not_found id d l s.leases.items e h), k)
  | inr (d, l, e) ↦
      rw (e, Lease.release)
        (
          freed d l (lookup_found id d l s.leases.items e k.0)
              (find_lease-id id d l s.leases.items e) (fun_ext λ j. get-pop s.leases d j),
          (Distinct-remove d s.leases.items k.0, Keyed-remove d s.leases.items k.1),
        )
]

-- Every call on a dict that keeps each lease at its document is a step of the contract of lease
-- stores, from what the dict holds for each document to what it holds afterwards, with the reply that
-- the store gives; and the dict is kept so.
pub call-Contract :
    (c : Call) (s : LeaseStore)
    → IsKeyed s
    → Step c (view s) (call c s).0 (view (call c s).1) × IsKeyed (call c s).1
unfolding Lease.active_lease
call-Contract (acquire id doc owner ttl now) s k = acquire_step id doc owner ttl now s k
call-Contract (renew id ttl now) s k = renew_step id ttl now s k
call-Contract (release id) s k = release_step id s k
call-Contract (active doc now) s k = (seen, k)
