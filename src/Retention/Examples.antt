-- ===== src/Retention/Examples.antt =====
-- Concrete collections for the retention policy of cad_harness/security/retention.py.
use autocad_mechanical_harne.Base.{ℕ, ◌+◌, ◌*◌, ◌≤◌, ◌≡◌, refl, false, List, [], ◌∷◌, All}
use autocad_mechanical_harne.Retention.{
  RetentionArtifact, RetentionPolicy, artifact_before, insert_artifact, sort_artifacts, is_expired,
  expired_of, remaining_of, total_bytes, quota_evictions, select_artifacts_for_deletion,
}
use autocad_mechanical_harne.Retention.Quota.{weigh, select_within_quota}

abbrev day : ℕ
day = 86_400_000_000

abbrev old : RetentionArtifact
old = record { id = "a"; artifact_ref = "old.png"; created_at = 0; byte_size = 10 }

abbrev edge : RetentionArtifact
edge = record { id = "b"; artifact_ref = "edge.png"; created_at = 1; byte_size = 60 }

abbrev young : RetentionArtifact
young = record { id = "c"; artifact_ref = "young.png"; created_at = 2 * day; byte_size = 50 }

abbrev policy : RetentionPolicy
policy = record { max_age_days = 30; max_total_bytes = 80 }

abbrev now : ℕ
now = 30 * day + 1

-- The second is exactly thirty days old: not expired, but evicted for the quota.
select_runs : select_artifacts_for_deletion (young ∷ edge ∷ old ∷ []) policy now ≡ old ∷ edge ∷ []
unfolding select_artifacts_for_deletion sort_artifacts insert_artifact artifact_before is_expired
    expired_of remaining_of total_bytes quota_evictions
select_runs = refl

select_within_quota_example :
    (kept : List RetentionArtifact) × (total_bytes kept ≤ 80)
    × All (λ a. is_expired a now 30 ≡ false) kept
    × ((w : RetentionArtifact → ℕ)
        → weigh w (young ∷ edge ∷ old ∷ [])
          ≡ weigh w (select_artifacts_for_deletion (young ∷ edge ∷ old ∷ []) policy now)
            + weigh w kept)
select_within_quota_example = select_within_quota (young ∷ edge ∷ old ∷ []) policy now
