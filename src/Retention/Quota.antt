-- ===== src/Retention/Quota.antt =====
-- What select_artifacts_for_deletion of cad_harness/security/retention.py leaves.
use autocad_mechanical_harne.Base.{
  ℕ, ◌+◌, ◌-◌, ◌≤◌, ◌≡◌, refl, ap, ◌∙◌, true, false, List, [], ◌∷◌, ◌++◌, arith, All, leb,
  Bool-cases, inl, inr,
}
use autocad_mechanical_harne.Retention.{
  RetentionArtifact, RetentionPolicy, insert_artifact, sort_artifacts, is_expired, expired_of,
  remaining_of, total_bytes, quota_evictions, select_artifacts_for_deletion,
}

-- A quantity summed over a list: the bytes, or how many members pass a test.
abbrev pub weigh : (RetentionArtifact → ℕ) → List RetentionArtifact → ℕ
weigh w [] = 0
weigh w (a ∷ xs) = w a + weigh w xs

weigh-insert :
    (w : RetentionArtifact → ℕ) (a : RetentionArtifact) (xs : List RetentionArtifact)
    → weigh w (insert_artifact a xs) ≡ w a + weigh w xs
unfolding insert_artifact
weigh-insert w a [] = refl
weigh-insert w a (b ∷ bs) = ground (arith, weigh-insert w a bs)

weigh-sort :
    (w : RetentionArtifact → ℕ) (xs : List RetentionArtifact)
    → weigh w (sort_artifacts xs) ≡ weigh w xs
unfolding sort_artifacts
weigh-sort w [] = refl
weigh-sort w (a ∷ xs) = omega (arith, weigh-insert w a (sort_artifacts xs), weigh-sort w xs)

weigh-append :
    (w : RetentionArtifact → ℕ) (xs bs : List RetentionArtifact)
    → weigh w (xs ++ bs) ≡ weigh w xs + weigh w bs
weigh-append w [] bs = omega arith
weigh-append w (a ∷ xs) bs = omega (arith, weigh-append w xs bs)

weigh_split :
    (w : RetentionArtifact → ℕ) (now days : ℕ) (xs : List RetentionArtifact)
    → weigh w xs ≡ weigh w (expired_of now days xs) + weigh w (remaining_of now days xs)
unfolding expired_of remaining_of
weigh_split w now days [] = refl
weigh_split w now days (a ∷ xs) = ground (arith, weigh_split w now days xs)

total_bytes_lem : (xs : List RetentionArtifact) → total_bytes xs ≡ weigh (λ a. a.byte_size) xs
unfolding total_bytes
total_bytes_lem [] = refl
total_bytes_lem (a ∷ xs) = omega (arith, total_bytes_lem xs)

remaining_of-All :
    (now days : ℕ) (xs : List RetentionArtifact)
    → All (λ a. is_expired a now days ≡ false) (remaining_of now days xs)
unfolding remaining_of
remaining_of-All now days [] = tt
remaining_of-All now days (a ∷ xs) = ground (arith, remaining_of-All now days xs)

-- What the loop over the remaining artifacts leaves: a suffix that fits the quota.
evictions_kept :
    (P : RetentionArtifact → Type 0) (quota remaining : ℕ) (xs : List RetentionArtifact)
    → remaining ≡ total_bytes xs
    → All P xs
    → (kept : List RetentionArtifact) × (xs ≡ quota_evictions quota remaining xs ++ kept)
      × (total_bytes kept ≤ quota)
      × All P kept
unfolding quota_evictions total_bytes
evictions_kept P quota remaining [] e h = ([], refl, omega arith, tt)
evictions_kept P quota remaining (a ∷ xs) e h = elim (Bool-cases (leb remaining quota)) [
  | inl fits ↦ (a ∷ xs, rw fits, ground (arith, fits), h)
  | inr over ↦
      let (kept, split, small, all) =
        evictions_kept P quota (remaining - a.byte_size) xs (omega arith) h.1 in
      (kept, rw (over, ← split) refl, small, all)
]

module _ (P : RetentionArtifact → Type 0) where
  All-insert :
      (a : RetentionArtifact) (xs : List RetentionArtifact)
      → P a
      → All P xs
      → All P (insert_artifact a xs)
  unfolding insert_artifact
  All-insert a [] p h = (p, tt)
  All-insert a (b ∷ xs) p h = ground (arith, All-insert a xs p h.1)

  All-sort : (xs : List RetentionArtifact) → All P xs → All P (sort_artifacts xs)
  unfolding sort_artifacts
  All-sort [] h = tt
  All-sort (a ∷ xs) h = All-insert a (sort_artifacts xs) h.0 (All-sort xs h.1)

  All-append_nil : (xs ys : List RetentionArtifact) → ys ≡ [] → All P xs → All P (xs ++ ys)
  All-append_nil [] ys e h = rw (e) tt
  All-append_nil (a ∷ xs) ys e h = (h.0, All-append_nil xs ys e h.1)

expired_of-All :
    (now days : ℕ) (xs : List RetentionArtifact)
    → All (λ a. is_expired a now days ≡ true) (expired_of now days xs)
unfolding expired_of
expired_of-All now days [] = tt
expired_of-All now days (a ∷ xs) = ground (arith, expired_of-All now days xs)

evictions_none :
    (quota remaining : ℕ) (xs : List RetentionArtifact)
    → remaining ≤ quota
    → quota_evictions quota remaining xs ≡ []
unfolding quota_evictions
evictions_none quota remaining [] fits = refl
evictions_none quota remaining (a ∷ xs) fits = ground arith

module _ (artifacts : List RetentionArtifact) (policy : RetentionPolicy) (now : ℕ) where
  abbrev remaining : List RetentionArtifact
  remaining = remaining_of now policy.max_age_days (sort_artifacts artifacts)

  abbrev expired : List RetentionArtifact
  expired = expired_of now policy.max_age_days (sort_artifacts artifacts)

  select_balance :
      (kept : List RetentionArtifact) (w : RetentionArtifact → ℕ)
      → remaining ≡ quota_evictions policy.max_total_bytes (total_bytes remaining) remaining ++ kept
      → weigh w artifacts
        ≡ weigh w (select_artifacts_for_deletion artifacts policy now) + weigh w kept
  unfolding select_artifacts_for_deletion
  select_balance kept w split =
      let evicted = quota_evictions policy.max_total_bytes (total_bytes remaining) remaining in
      let parts : weigh w remaining ≡ weigh w evicted + weigh w kept =
        ap (weigh w) split ∙ weigh-append w evicted kept in
      omega (
        arith,
        parts,
        weigh-sort w artifacts,
        weigh_split w now policy.max_age_days (sort_artifacts artifacts),
        weigh-sort w (expired ++ evicted),
        weigh-append w expired evicted,
      )

  -- What is not selected for deletion fits the policy's quota and holds no expired artifact, where
  -- the artifacts are those selected and those kept: every quantity summed over them (their bytes,
  -- or how many pass a test) is the sum of the two.
  pub select_within_quota :
      (kept : List RetentionArtifact) × (total_bytes kept ≤ policy.max_total_bytes)
      × All (λ a. is_expired a now policy.max_age_days ≡ false) kept
      × ((w : RetentionArtifact → ℕ)
          → weigh w artifacts
            ≡ weigh w (select_artifacts_for_deletion artifacts policy now) + weigh w kept)
  select_within_quota =
      let (kept, split, small, all) =
        evictions_kept _ policy.max_total_bytes (total_bytes remaining) remaining refl
          (remaining_of-All now policy.max_age_days (sort_artifacts artifacts)) in
      (kept, small, all, λ w. select_balance kept w split)

  -- While the artifacts that are not expired fit the quota, only expired ones are selected.
  pub select_only_expired :
      total_bytes remaining ≤ policy.max_total_bytes
      → All
          (λ a. is_expired a now policy.max_age_days ≡ true)
          (select_artifacts_for_deletion artifacts policy now)
  unfolding select_artifacts_for_deletion
  select_only_expired fits = All-sort _ _ (
      All-append_nil _ expired _
        (evictions_none policy.max_total_bytes (total_bytes remaining) remaining fits)
        (expired_of-All now policy.max_age_days (sort_artifacts artifacts)))
