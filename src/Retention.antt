-- ===== src/Retention.antt =====
-- cad_harness/security/retention.py: which stored artifacts to delete. Times are microseconds of UTC,
-- so the checks that a datetime has a timezone are not modelled.
pub mod Quota
mod Examples
use Prim.Native.Nat.{Ordering, compare, ◌/◌}
use Prim.Native.String.{compare as compare_text}
use autocad_mechanical_harne.Base.{
  ℕ, ◌+◌, ◌-◌, ◌*◌, ◌%◌, String, Bool, true, false, ◌&&◌, ◌||◌, not, List, [], ◌∷◌, ◌++◌, ltb, leb,
  nat_eq, if◌then◌else◌,
}

pub record RetentionArtifact : Type 0 where
  pub id : String
  pub artifact_ref : String
  pub created_at : ℕ
  pub byte_size : ℕ

pub record RetentionPolicy : Type 0 where
  pub max_age_days : ℕ
  pub max_total_bytes : ℕ

-- Whether the tuple `_artifact_order(a)` is less than `_artifact_order(b)`: one field after another.
then_by : Ordering → Bool → Bool
then_by Ordering.lt rest = true
then_by Ordering.gt rest = false
then_by Ordering.eq rest = rest

unfoldable pub artifact_before : RetentionArtifact → RetentionArtifact → Bool
unfolding then_by
artifact_before a b = then_by (compare a.created_at b.created_at) (
    then_by (compare_text a.id b.id)
      (then_by (compare_text a.artifact_ref b.artifact_ref) (ltb a.byte_size b.byte_size)))

-- sorted(artifacts, key=_artifact_order), which keeps equal keys in their order.
unfoldable pub insert_artifact : RetentionArtifact → List RetentionArtifact → List RetentionArtifact
insert_artifact a [] = a ∷ []
insert_artifact a (b ∷ bs) =
    let rest = insert_artifact a bs in if artifact_before b a then b ∷ rest else a ∷ b ∷ bs

unfoldable pub sort_artifacts : List RetentionArtifact → List RetentionArtifact
sort_artifacts [] = []
sort_artifacts (a ∷ xs) = insert_artifact a (sort_artifacts xs)

abbrev microseconds_of_day : ℕ
microseconds_of_day = 86_400_000_000

-- The fields of the timedelta `now - created_at`, where that is not negative; where it is, `days` is
-- negative, and so below a policy's `max_age_days`.
unfoldable pub is_expired : RetentionArtifact → ℕ → ℕ → Bool
is_expired a now max_age_days =
    let age = now - a.created_at in
    let days = age / microseconds_of_day in
    let seconds = age % microseconds_of_day / 1_000_000 in
    let microseconds = age % 1_000_000 in
    if ltb now a.created_at
    then false
    else (ltb max_age_days days
        || nat_eq days max_age_days && (ltb 0 seconds || ltb 0 microseconds))

-- The two lists that the loop over the sorted artifacts fills.
unfoldable pub expired_of : ℕ → ℕ → List RetentionArtifact → List RetentionArtifact
expired_of now max_age_days [] = []
expired_of now max_age_days (a ∷ xs) =
    let rest = expired_of now max_age_days xs in
    if is_expired a now max_age_days then a ∷ rest else rest

unfoldable pub remaining_of : ℕ → ℕ → List RetentionArtifact → List RetentionArtifact
remaining_of now max_age_days [] = []
remaining_of now max_age_days (a ∷ xs) =
    let rest = remaining_of now max_age_days xs in
    if is_expired a now max_age_days then rest else a ∷ rest

unfoldable pub total_bytes : List RetentionArtifact → ℕ
total_bytes [] = 0
total_bytes (a ∷ xs) = a.byte_size + total_bytes xs

-- The loop over the remaining artifacts, oldest first, with the bytes that remain.
unfoldable pub quota_evictions : ℕ → ℕ → List RetentionArtifact → List RetentionArtifact
quota_evictions max_total_bytes remaining_bytes [] = []
quota_evictions max_total_bytes remaining_bytes (a ∷ xs) =
    let rest = quota_evictions max_total_bytes (remaining_bytes - a.byte_size) xs in
    if leb remaining_bytes max_total_bytes then [] else a ∷ rest

unfoldable pub select_artifacts_for_deletion :
    List RetentionArtifact → RetentionPolicy → ℕ → List RetentionArtifact
select_artifacts_for_deletion artifacts policy now =
    let ordered = sort_artifacts artifacts in
    let remaining = remaining_of now policy.max_age_days ordered in
    sort_artifacts (
      expired_of now policy.max_age_days ordered
      ++ quota_evictions policy.max_total_bytes (total_bytes remaining) remaining)
