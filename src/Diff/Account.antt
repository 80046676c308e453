-- ===== src/Diff/Account.antt =====
-- What the diff of a plan says of the plan's operations.
use autocad_mechanical_harne.Base.{
  ℕ, suc, ◌+◌, String, ◌==◌, if◌then◌else◌, ◌≡◌, ◌∙◌, refl, sym, ap, subst, Option, List, [], ◌∷◌,
  map, length, arith, inl, inr, ◌⊎◌,
}
use autocad_mechanical_harne.Base.Dict.{Dict}
use autocad_mechanical_harne.Errors.{Result, ok, with_ok, ok-eq}
use autocad_mechanical_harne.Value.{Value}
use autocad_mechanical_harne.Plan.{
  Operation, OperationType, OperationPlan, create_line, create_polyline, create_closed_polyline,
  create_circle, create_circles, create_arc, create_text, create_centerline, create_centermark,
  create_linear_dimension, create_aligned_dimension, create_diameter_dimension,
  create_radius_dimension, create_angular_dimension, create_hatch, update_entity, delete_entity,
}
use autocad_mechanical_harne.Outcome.{DocumentSnapshot}
use autocad_mechanical_harne.Diff.{
  DiffEntry, SemanticDiff, added_count, modified_count, deleted_count, count_changes, change_of,
  summarize, entry_of, entries_of, hash_or_computed, build_semantic_diff,
}

-- What an entry and an operation both name.
abbrev pub Named : Type 0
Named = String × (String × (String × (Option String × Dict Value)))

abbrev pub named_by_entry : DiffEntry → Named
named_by_entry e =
    (e.operation_id, (e.feature_id, (e.layer, (e.target_entity_ref, e.measurements))))

abbrev pub named_by_operation : Operation → Named
named_by_operation o =
    (o.operation_id, (o.feature_id, (o.layer, (o.target_entity_ref, o.expected))))

abbrev Kind : String → Type 0
Kind c = (c ≡ "added") ⊎ ((c ≡ "modified") ⊎ (c ≡ "deleted"))

pub change_of-Kind : (t : OperationType) → Kind (change_of t)
unfolding change_of
change_of-Kind create_line = inl refl
change_of-Kind create_polyline = inl refl
change_of-Kind create_closed_polyline = inl refl
change_of-Kind create_circle = inl refl
change_of-Kind create_circles = inl refl
change_of-Kind create_arc = inl refl
change_of-Kind create_text = inl refl
change_of-Kind create_centerline = inl refl
change_of-Kind create_centermark = inl refl
change_of-Kind create_linear_dimension = inl refl
change_of-Kind create_aligned_dimension = inl refl
change_of-Kind create_diameter_dimension = inl refl
change_of-Kind create_radius_dimension = inl refl
change_of-Kind create_angular_dimension = inl refl
change_of-Kind create_hatch = inl refl
change_of-Kind update_entity = inr (inl refl)
change_of-Kind delete_entity = inr (inr refl)

-- The three counts with one more entry.
abbrev Tally : ℕ → ℕ → ℕ → String → Type 0
Tally a m d c =
    (if c == "added" then suc a else a)
      + (if c == "modified" then suc m else m)
      + (if c == "deleted" then suc d else d)
    ≡ suc (a + m + d)

counted_once : (c : String) (a m d : ℕ) → Kind c → Tally a m d c
counted_once c a m d (inl h) = subst (Tally a m d) (sym h) (omega arith)
counted_once c a m d (inr (inl h)) = subst (Tally a m d) (sym h) (omega arith)
counted_once c a m d (inr (inr h)) = subst (Tally a m d) (sym h) (omega arith)

count_one :
    (e : DiffEntry) (es : List DiffEntry)
    → Kind e.change
    → count_changes "added" (e ∷ es)
        + count_changes "modified" (e ∷ es)
        + count_changes "deleted" (e ∷ es)
      ≡ suc (count_changes "added" es + count_changes "modified" es + count_changes "deleted" es)
unfolding count_changes
count_one e es kind = counted_once e.change _ _ _ kind

module _ (write_value : Option Value → String) where
  pub entry_of-ok :
      (o : Operation) (e : DiffEntry)
      → entry_of write_value o ≡ ok e
      → (named_by_entry e ≡ named_by_operation o) × (e.change ≡ change_of o.type)
  unfolding entry_of
  entry_of-ok o e h = with_ok (summarize write_value o.type o.geometry) h λ summary summarized same.
      (ap named_by_entry (sym (ok-eq same)), ap (λ d. d.change) (sym (ok-eq same)))

  -- The entries that are made are one for each operation, with its names, and each counts once.
  pub entries_of-ok :
      (os : List Operation) (es : List DiffEntry)
      → entries_of write_value os ≡ ok es
      → (map named_by_entry es ≡ map named_by_operation os)
        × (count_changes "added" es + count_changes "modified" es + count_changes "deleted" es
            ≡ length os)
        × (map (λ e. e.change) es ≡ map (λ o. change_of o.type) os)
  unfolding entries_of count_changes
  entries_of-ok [] es h =
      subst
        (λ es.
          (map named_by_entry es ≡ [])
          × (count_changes "added" es + count_changes "modified" es + count_changes "deleted" es
              ≡ 0)
          × (map (λ e. e.change) es ≡ []))
        (ok-eq h) (refl, refl, refl)
  entries_of-ok (o ∷ os) es h = with_ok (entry_of write_value o) h λ e made h₁.
      with_ok (entries_of write_value os) h₁ λ rest others h₂.
        let (named, counted, changes) = entries_of-ok os rest others in
        let (own, kind) = entry_of-ok o e made in
        let one = count_one e rest (subst Kind (sym kind) (change_of-Kind o.type)) in
        subst
          (λ es.
            (map named_by_entry es ≡ map named_by_operation (o ∷ os))
            × (count_changes "added" es + count_changes "modified" es + count_changes "deleted" es
                ≡ length (o ∷ os))
            × (map (λ e. e.change) es ≡ map (λ o. change_of o.type) (o ∷ os)))
          (ok-eq h₂)
          (
            ap (λ x. x ∷ map named_by_entry rest) own ∙ ap (λ xs. named_by_operation o ∷ xs) named,
            one ∙ ap suc counted,
            ap (λ x. x ∷ map (λ e. e.change) rest) kind ∙ ap (λ xs. change_of o.type ∷ xs) changes,
          )

  -- A diff that is built is of the snapshot's document and revision; its entries name the plan's
  -- operations, each once and in their order, with their features, layers, targets and expected
  -- measurements; and the additions, the modifications and the deletions that it counts are together
  -- as many as the operations.
  pub build_semantic_diff-names :
      (sha256_of : Value → Result String) (plan : OperationPlan) (snapshot : DocumentSnapshot)
      (d : SemanticDiff)
      → build_semantic_diff write_value sha256_of plan snapshot ≡ ok d
      → (d.document_id ≡ snapshot.document_id)
        × (d.from_revision ≡ snapshot.revision)
        × (map named_by_entry d.entries ≡ map named_by_operation plan.operations)
        × (added_count d + modified_count d + deleted_count d ≡ length plan.operations)
  unfolding build_semantic_diff added_count modified_count deleted_count
  build_semantic_diff-names sha256_of plan snapshot d h =
      with_ok (hash_or_computed write_value sha256_of plan) h λ hash hashed h₀.
        with_ok (entries_of write_value plan.operations) h₀ λ es made h₁.
          let (named, counted, changes) = entries_of-ok plan.operations es made in
          let same : es ≡ d.entries = ap (λ d. d.entries) (ok-eq h₁) in
          (
            ap (λ d. d.document_id) (sym (ok-eq h₁)),
            ap (λ d. d.from_revision) (sym (ok-eq h₁)),
            ap (map named_by_entry) (sym same) ∙ named,
            ap
                  (λ es.
                    count_changes "added" es
                    + count_changes "modified" es
                    + count_changes "deleted" es)
                  (sym same)
                ∙ counted,
          )
