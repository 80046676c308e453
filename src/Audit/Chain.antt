-- ===== src/Audit/Chain.antt =====
-- What the hash chain of cad_harness/observability/audit.py proves of a trail, and what it does not.
use autocad_mechanical_harne.Base.{
  ℕ, String, ◌≡◌, refl, ◌↔◌, true, Option, none, some, List, [], ◌∷◌, ◌++◌, map, arith,
  option_eq_iff,
}
use autocad_mechanical_harne.Value.{Value}
use autocad_mechanical_harne.Audit.{AuditEvent, Entry, last_hash, append, verify_from, verify_chain}

-- Every event names the hash of the one before it, the first one `before`.
pub data Linked : Option String → List AuditEvent → Type 0 where
  start : {before : Option String} → Linked before []
  link :
      {before : Option String} (e : AuditEvent) {es : List AuditEvent}
      → e.previous_event_hash ≡ before
      → Linked (some e.event_hash) es
      → Linked before (e ∷ es)

linked :
    (before : Option String) (es : List AuditEvent)
    → verify_from before es ≡ true
    → Linked before es
unfolding verify_from
linked before [] h = start
linked before (e ∷ es) h =
    link e ((option_eq_iff e.previous_event_hash before).0 (ground (arith, h)))
      (linked (some e.event_hash) es (ground (arith, h)))

verified :
    {before : Option String} {es : List AuditEvent}
    → Linked before es
    → verify_from before es ≡ true
unfolding verify_from
verified start = refl
verified {before} (link e same rest) =
    rw ((option_eq_iff e.previous_event_hash before).1 same) (verified rest)

-- A trail verifies exactly if every event names the hash of the event before it, and the first none.
pub verify_chain-Linked : (es : List AuditEvent) → (verify_chain es ≡ true) ↔ Linked none es
unfolding verify_chain
verify_chain-Linked es = (linked none es, verified)

Linked-append :
    (before : Option String) (es : List AuditEvent) (e : AuditEvent)
    → e.previous_event_hash ≡ last_hash before es
    → Linked before es
    → Linked before (es ++ e ∷ [])
unfolding last_hash
Linked-append before [] e same l = link e same start
Linked-append before (d ∷ es) e same (link f here rest) =
    link d here (Linked-append (some d.event_hash) es e same rest)

-- Appending keeps a trail verifiable, whatever is appended and whatever the digest and the redaction.
pub append-verify_chain :
    (sha256_of : Value → String) (isoformat : ℕ → String) (redact : Value → Value) (entry : Entry)
    (id : String) (at : ℕ) (es : List AuditEvent)
    → verify_chain es ≡ true
    → verify_chain (append sha256_of isoformat redact entry id at es) ≡ true
unfolding append
append-verify_chain sha256_of isoformat redact entry id at es h =
    (verify_chain-Linked _).1 (Linked-append none es _ refl ((verify_chain-Linked es).0 h))

-- The two hashes of an event, without its contents.
abbrev pub links : AuditEvent → Option String × String
links e = (e.previous_event_hash, e.event_hash)

verify_from-links :
    (before : Option String) (es ds : List AuditEvent)
    → map links es ≡ map links ds
    → verify_from before es ≡ verify_from before ds
unfolding verify_from
verify_from-links before [] [] same = refl
verify_from-links before [] (d ∷ ds) same = absurd (ground (arith, same))
verify_from-links before (e ∷ es) [] same = absurd (ground (arith, same))
verify_from-links before (e ∷ es) (d ∷ ds) same =
    let previous : e.previous_event_hash ≡ d.previous_event_hash = ground (arith, same) in
    let own : e.event_hash ≡ d.event_hash = ground (arith, same) in
    let rest = verify_from-links (some e.event_hash) es ds (ground (arith, same)) in
    rw (previous, own) (ground (arith, rest, own))

-- Verification reads the stored hashes only: a trail whose events were edited, all but the two hashes of
-- each, verifies exactly as the original does.
pub verify_chain_edited :
    (es ds : List AuditEvent) → map links es ≡ map links ds → verify_chain es ≡ verify_chain ds
unfolding verify_chain
verify_chain_edited es ds same = verify_from-links none es ds same
