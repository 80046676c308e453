-- ===== src/Lib.antt =====
-- The AutoCAD mechanical harness (the package src/cad_harness of the repository): a service that turns
-- a drawing specification into a hashed plan, has it previewed, validated and approved by an engineer,
-- and commits it to a drawing under a writer lease, through an adapter to AutoCAD. All paths below are
-- under src/cad_harness.
--
-- The parts and the files that model them:
--   Base                 the names shared by all: the libraries', tests, dicts, texts.
--   Errors               domain/errors.py: the exception classes, and results that carry them.
--   Value, Canonical     domain/canonical.py: JSON values, canonical form, removal of volatile keys.
--   Job                  domain/models/job.py: the job aggregate and its state machine.
--   Lease                domain/models/lease.py, persistence/memory_lease_store.py: writer leases.
--   SqlLease             persistence/sql_lease_store.py: the same leases in a table; Lease/Contract is what both
--                        stores promise.
--   Retry                persistence/retry.py: the bounded retry of a locked database.
--   Plan                 domain/models/operation_plan.py: operations, plans, plan hashes.
--   Outcome              domain/models/result.py, domain/models/document.py: what adapters report.
--   Validation           domain/models/validation.py, validation/engine.py: reports, gate, engine.
--   Approval             domain/models/approval.py, security/approval.py: approvals and their tokens;
--                        Approval/Rollback is security/rollback_approval.py.
--   Spec                 domain/models/drawing_spec.py and the redaction of stored specifications.
--   Store                persistence/memory_store.py: the in-memory job store.
--   Audit                observability/audit.py: the hash-chained audit trail in memory.
--   Retention            security/retention.py: which artifacts to delete.
--   ClientProfiles       security/client_profiles.py: which client may call which tool.
--   Fake                 adapters/fake.py: the in-memory drawing, and its adapter (Fake/Methods).
--   Harness              application/services/harness_service.py and lease_service.py: the workflow.
--     Harness/World      the collaborators of HarnessService, and the state of it and of its stores.
--     Harness/Act        its methods as functions of that state, which keep it where they raise.
--     Harness/Checks     _require_job, _require_plan, _validation_matches_plan and the like.
--     Harness/Gates      the gates of _commit that only read.
--     Harness/Styles     _missing_live_style_findings.
--     Harness/Digest     _validation_decision_digest.
--     Harness/Lifecycle  inspect_document, create_job, submit_spec, _preview, _validate.
--     Harness/Approve    approve.
--     Harness/Lock       LeaseService.hold and the renewals of its thread.
--     Harness/Finish     the part of _commit under the lease.
--     Harness/Commit     _commit; its children state what commits promise.
--     Harness/Rollback   rollback_scope, approve_rollback, rollback; its children as well.
--
-- Choices. A time is a number of microseconds. The clock and new identifiers are streams read by
-- position. A float is its bit pattern and is never computed with. Third-party code is a parameter: json,
-- base64, hmac and isoformat are the fields of Approval/Codec, which also states what is relied on;
-- the hexadecimal sha256 of a text, and what `json.dumps` makes of a value, are parameters of
-- Canonical.sha256_of, which the workflow and the in-memory drawing take as a function that may raise. The
-- digest of an audit event is a function that does not. The adapter is a record of functions over a
-- state of its own: reads do not change it, a commit or a rollback may. The renewals of the heartbeat
-- thread happen at two points of a commit, any number of times: while the adapter commits and before the
-- outcome is decided. All loops are structural, but for the digits of a number, whose fuel is
-- the number and one more: no number has more digits.
--
-- Not modelled: floating-point geometry and the feature compilers (functions that the workflow takes),
-- the COM, named-pipe and .NET adapters (external programs), the other SQLite stores, the MCP server, the
-- desktop, metrics and logging.
pub mod Base
pub mod Errors
pub mod Value
pub mod Canonical
pub mod Job
pub mod Lease
pub mod SqlLease
pub mod Retry
pub mod Plan
pub mod Outcome
pub mod Validation
pub mod Approval
pub mod Spec
pub mod Store
pub mod Harness
pub mod Fake
pub mod Diff
pub mod Audit
pub mod Retention
pub mod ClientProfiles
