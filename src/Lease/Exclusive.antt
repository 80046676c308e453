-- ===== src/Lease/Exclusive.antt =====
-- What the in-memory store of cad_harness/persistence/memory_lease_store.py promises a writer.
use autocad_mechanical_harne.Base.{
  ℕ, ◌+◌, ◌<◌, ◌≤◌, ◌≡◌, ◌≢◌, ◌∙◌, ◌↔◌, String, ◌==◌, none, some, List, [], ◌∷◌, arith, eq_iff,
  eq_refl, Option-cases, ◌⊎◌, inl, inr, if◌then◌else◌,
}
use native.Mathlib.Decide.{dec_lt}
use autocad_mechanical_harne.Base.Dict
use autocad_mechanical_harne.Base.Dict.{Dict, dict_laws, get-put, get-pop_ne, get-pop_self}
use autocad_mechanical_harne.Errors.{ok, err, writer_lease_conflict}
use autocad_mechanical_harne.Lease.{
  WriterLease, LeaseStore, writer_lease, if_active, active_lease, try_acquire, find_lease, release,
}

if_active_before :
    (l : WriterLease) (now : ℕ) → now < l.expires_at → if_active (some l) now ≡ some l
unfolding if_active
if_active_before l now h = ground arith

if_active_after : (l : WriterLease) (now : ℕ) → l.expires_at ≤ now → if_active (some l) now ≡ none
unfolding if_active
if_active_after l now h = ground arith

-- Every document has one entry at most.
abbrev pub Fresh : String → List (String × WriterLease) → Type 0
Fresh d [] = Unit {0}
Fresh d ((j, l) ∷ m) = (j ≢ d) × Fresh d m

abbrev pub Distinct : List (String × WriterLease) → Type 0
Distinct [] = Unit {0}
Distinct ((j, l) ∷ m) = Fresh j m × Distinct m

-- A successful acquisition stores exactly the lease that it returns, over an entry that was not
-- active, and leaves the other documents alone.
try_acquire-ok :
    (s s' : LeaseStore) (l : WriterLease) (id doc owner : String) (ttl now : ℕ)
    → try_acquire s id doc owner ttl now ≡ ok (l, s')
    → (active_lease s doc now ≡ none)
      × (l.lease_id ≡ id)
      × (l.expires_at ≡ now + ttl)
      × (now < now + ttl)
      × (s'.leases ≡ Dict.put s.leases doc l)
unfolding try_acquire writer_lease
try_acquire-ok s s' l id doc owner ttl now e = elim (Option-cases (active_lease s doc now)) [
  | inl free ↦ (free, ground arith, ground arith, ground arith, ground arith)
  | inr (c, held) ↦ absurd (ground arith)
]

-- What is free at a document can be acquired, for any positive time.
try_acquire_free :
    (s : LeaseStore) (id doc owner : String) (ttl now : ℕ)
    → active_lease s doc now ≡ none
    → 0 < ttl
    → (l : WriterLease) × (s' : LeaseStore) × (try_acquire s id doc owner ttl now ≡ ok (l, s'))
unfolding try_acquire writer_lease
try_acquire_free s id doc owner ttl now free pos =
    let l : WriterLease = record {
      lease_id = id;
      document_id = doc;
      owner_id = owner;
      acquired_at = now;
      expires_at = now + ttl;
      heartbeat_at = now;
    } in
    (l, record { leases = Dict.put s.leases doc l }, ground arith)

try_acquire_held :
    (s : LeaseStore) (c : WriterLease) (id doc owner : String) (ttl now : ℕ)
    → active_lease s doc now ≡ some c
    → try_acquire s id doc owner ttl now ≡ err writer_lease_conflict
unfolding try_acquire
try_acquire_held s c id doc owner ttl now held = rw (held, try_acquire)

-- After an acquisition the acquired document has the new lease active until it runs out, and every
-- other document what it had, at every time.
pub active_lease-try_acquire :
    (s s' : LeaseStore) (l : WriterLease) (id doc owner other : String) (ttl now later : ℕ)
    → try_acquire s id doc owner ttl now ≡ ok (l, s')
    → active_lease s' other later
      ≡ (if doc == other then if_active (some l) later else active_lease s other later)
unfolding active_lease
active_lease-try_acquire s s' l id doc owner other ttl now later e =
    let (_, _, _, _, same) = try_acquire-ok s s' l id doc owner ttl now e in
    rw (same, get-put s.leases doc other l) (ground arith)

acquired_active :
    (s s' : LeaseStore) (l : WriterLease) (id doc owner : String) (ttl now later : ℕ)
    → try_acquire s id doc owner ttl now ≡ ok (l, s')
    → active_lease s' doc later ≡ if_active (some l) later
acquired_active s s' l id doc owner ttl now later e =
    active_lease-try_acquire s s' l id doc owner doc ttl now later e ∙ rw (eq_refl doc)

-- A writer that acquires a document's lease at `now` for `ttl` excludes every other acquisition of
-- that document for a positive time exactly until `now + ttl`, whoever asks.
pub acquire_excludes :
    (s s' : LeaseStore) (l : WriterLease) (id doc owner : String) (ttl now : ℕ)
    (id' owner' : String) (ttl' later : ℕ)
    → try_acquire s id doc owner ttl now ≡ ok (l, s')
    → 0 < ttl'
    → (later < now + ttl) ↔ (try_acquire s' id' doc owner' ttl' later ≡ err writer_lease_conflict)
acquire_excludes s s' l id doc owner ttl now id' owner' ttl' later e pos =
    let (_, _, expiry, _, _) = try_acquire-ok s s' l id doc owner ttl now e in
    let active = acquired_active s s' l id doc owner ttl now later e in
    (
      λ before.
          try_acquire_held s' l id' doc owner' ttl' later
            (active ∙ if_active_before l later (omega arith)),
      λ refused. elim (dec_lt later (now + ttl)) [
        | yes before ↦ before
        | no after ↦
            let (l', s'', fine) =
              try_acquire_free s' id' doc owner' ttl' later
                (active ∙ if_active_after l later (omega arith)) pos in
            cc
      ],
    )

-- The entry that `find_lease` gives carries the identifier.
pub find_lease-id :
    (id d : String) (l : WriterLease) (m : List (String × WriterLease))
    → find_lease id m ≡ some (d, l)
    → l.lease_id ≡ id
unfolding find_lease
find_lease-id id d l [] e = cc
find_lease-id id d l ((j, k) ∷ m) e = ground (arith, eq_iff k.lease_id id, find_lease-id id d l m)

pub found_elsewhere :
    (id d j : String) (l : WriterLease) (m : List (String × WriterLease))
    → find_lease id m ≡ some (d, l)
    → Fresh j m
    → d ≢ j
unfolding find_lease
found_elsewhere id d j l [] e h = cc
found_elsewhere id d j l ((k, c) ∷ m) e h =
    ground (arith, eq_iff c.lease_id id, found_elsewhere id d j l m, h.0)

-- What the scan of the values finds is what the key leads to.
pub lookup_found :
    (id d : String) (l : WriterLease) (m : List (String × WriterLease))
    → find_lease id m ≡ some (d, l)
    → Distinct m
    → Dict.lookup_items d m ≡ some l
unfolding find_lease Dict.lookup_items
lookup_found id d l [] e h = cc
lookup_found id d l ((j, k) ∷ m) e h =
    ground
      (arith, eq_iff k.lease_id id, eq_iff j d, lookup_found id d l m, found_elsewhere id d j l m)

pub find-cases :
    (id : String) (m : List (String × WriterLease))
    → (find_lease id m ≡ none)
      ⊎ ((d : String) × (l : WriterLease) × (find_lease id m ≡ some (d, l)))
find-cases id m = elim (Option-cases (find_lease id m)) [
  | inl e ↦ inl e
  | inr ((d, l), e) ↦ inr (d, l, e)
]

-- Releasing by identifier frees no document whose active lease has another identifier: a writer
-- whose lease ran out and was taken over cannot release its successor's. (Every document has one
-- entry, as in a dict.)
pub release_other :
    (s : LeaseStore) (id doc : String) (now : ℕ) (l : WriterLease)
    → Distinct s.leases.items
    → active_lease s doc now ≡ some l
    → l.lease_id ≢ id
    → active_lease (release s id) doc now ≡ some l
unfolding active_lease if_active Dict.get release
release_other s id doc now l keys a ne = elim (find-cases id s.leases.items) [
  | inl e ↦ rw (e, release) a
  | inr (d, k, e) ↦
      let other : d ≢ doc =
        ground (
          arith,
          find_lease-id id d k s.leases.items e,
          lookup_found id d k s.leases.items e keys,
        ) in
      rw (e, release, get-pop_ne s.leases d doc other) a
]

-- After a release no entry of a document that held the released lease is left.
pub release_self :
    (s : LeaseStore) (id doc : String) (now : ℕ) (l : WriterLease)
    → Distinct s.leases.items
    → find_lease id s.leases.items ≡ some (doc, l)
    → active_lease (release s id) doc now ≡ none
unfolding active_lease if_active Dict.get release
release_self s id doc now l keys e = rw (e, release, get-pop_self s.leases doc)
