-- ===== src/Fake/Entities.antt =====
-- Lemmas on the entities of cad_harness/adapters/fake.py, each under its own reference.
use autocad_mechanical_harne.Base.{
  String, ◌==◌, ◌≡◌, refl, ◌∙◌, sym, ap, subst, false, none, some, List, [], ◌∷◌, arith, eq_iff,
  Option-cases, inl, inr,
}
use autocad_mechanical_harne.Base.Dict
use autocad_mechanical_harne.Base.Dict.{Dict, lookup_items, insert_items, remove_items, get-put}
use autocad_mechanical_harne.Fake.{FakeEntity, retained, overwrite, apply_staged, apply_entities}

abbrev pub Entries : Type 0
Entries = List (String × FakeEntity)

-- An entity stands under its own reference, and a reference once.
abbrev pub Own : Entries → Type 0
Own [] = Unit {0}
Own ((k, e) ∷ m) = (e.entity_ref ≡ k) × (lookup_items k m ≡ none) × Own m

abbrev pub IsDrawing : Dict FakeEntity → Type 0
IsDrawing d = Own d.items

insert_absent :
    (k j : String) (e : FakeEntity) (m : Entries)
    → lookup_items j m ≡ none
    → (k == j) ≡ false
    → lookup_items j (insert_items k e m) ≡ none
unfolding lookup_items insert_items
insert_absent k j e [] h ne = ground arith
insert_absent k j e ((i, x) ∷ m) h ne = ground (arith, h, ne, eq_iff i k, insert_absent k j e m)

remove_absent :
    (k j : String) (m : Entries)
    → lookup_items j m ≡ none
    → lookup_items j (remove_items k m) ≡ none
unfolding lookup_items remove_items
remove_absent k j [] h = refl
remove_absent k j ((i, x) ∷ m) h = ground (arith, h, remove_absent k j m)

Own-insert : (e : FakeEntity) (m : Entries) → Own m → Own (insert_items e.entity_ref e m)
unfolding lookup_items insert_items
Own-insert e [] h = (refl, refl, tt)
Own-insert e ((i, x) ∷ m) h = ground (
  arith,
  h,
  eq_iff i e.entity_ref,
  eq_iff e.entity_ref i,
  insert_absent e.entity_ref i e m h.1,
  Own-insert e m h.2,
)

Own-remove : (k : String) (m : Entries) → Own m → Own (remove_items k m)
unfolding remove_items
Own-remove k [] h = tt
Own-remove k ((i, x) ∷ m) h = ground (arith, h, remove_absent k i m h.1, Own-remove k m h.2)

pub put-IsDrawing :
    (d : Dict FakeEntity) (e : FakeEntity) → IsDrawing d → IsDrawing (Dict.put d e.entity_ref e)
unfolding Dict.put
put-IsDrawing d e h = Own-insert e d.items h

pub pop-IsDrawing : (d : Dict FakeEntity) (k : String) → IsDrawing d → IsDrawing (Dict.pop d k)
unfolding Dict.pop
pop-IsDrawing d k h = Own-remove k d.items h

lookup-Own :
    (k : String) (e : FakeEntity) (m : Entries)
    → Own m
    → lookup_items k m ≡ some e
    → e.entity_ref ≡ k
unfolding lookup_items
lookup-Own k e [] h found = absurd (ground (arith, found))
lookup-Own k e ((i, x) ∷ m) h found = ground (arith, h, found, eq_iff i k, lookup-Own k e m h.2)

pub get-IsDrawing :
    (d : Dict FakeEntity) (k : String) (e : FakeEntity)
    → IsDrawing d
    → Dict.get d k ≡ some e
    → e.entity_ref ≡ k
unfolding Dict.get
get-IsDrawing d k e h found = lookup-Own k e d.items h found

-- What is overwritten has the staged entity's reference already.
overwrite_own :
    (d : Dict FakeEntity) (e : FakeEntity) → IsDrawing d → overwrite (Dict.get d e.entity_ref) e ≡ e
overwrite_own d e h = elim (Option-cases (Dict.get d e.entity_ref)) [
  | inl none_there ↦ ap (λ o. overwrite o e) none_there
  | inr (x, there) ↦
      ap (λ o. overwrite o e) there
      ∙ ap (λ i. record e { entity_ref = i }) (get-IsDrawing d e.entity_ref x h there)
]

-- Applying a staged drawing's entries one after the other: each is read back, the others stay.
apply_staged-get :
    (m : Entries) (d : Dict FakeEntity) (k : String)
    → Own m
    → IsDrawing d
    → (Dict.get (apply_staged m d) k
        ≡ elim (lookup_items k m) [ some e ↦ some e | none ↦ Dict.get d k ])
      × IsDrawing (apply_staged m d)
unfolding apply_staged lookup_items
apply_staged-get [] d k h own = (refl, own)
apply_staged-get ((i, e) ∷ m) d k h own =
    let d' = Dict.put d e.entity_ref e in
    let same : Dict.put d i (overwrite (Dict.get d i) e) ≡ d' =
      ap (λ j. Dict.put d j (overwrite (Dict.get d j) e)) (sym h.0)
      ∙ ap (Dict.put d e.entity_ref) (overwrite_own d e own) in
    let (reads, kept) = apply_staged-get m d' k h.2 (put-IsDrawing d e own) in
    (
      rw same (
          reads ∙ ground (arith, h, get-put d e.entity_ref k e, eq_iff i k, eq_iff e.entity_ref k)),
      subst (λ x. IsDrawing (apply_staged m x)) (sym same) kept,
    )

retained_absent :
    (working : Dict FakeEntity) (k : String) (m : Entries)
    → lookup_items k m ≡ none
    → lookup_items k (retained working m) ≡ none
unfolding lookup_items retained
retained_absent working k [] h = refl
retained_absent working k ((i, e) ∷ m) h = ground (arith, h, retained_absent working k m)

retained_gone :
    (working : Dict FakeEntity) (k : String) (m : Entries)
    → Dict.get working k ≡ none
    → lookup_items k (retained working m) ≡ none
unfolding lookup_items retained
retained_gone working k [] h = refl
retained_gone working k ((i, e) ∷ m) h =
    ground (arith, h, eq_iff i k, ap (Dict.get working), retained_gone working k m)

retained-Own : (working : Dict FakeEntity) (m : Entries) → Own m → Own (retained working m)
unfolding retained
retained-Own working [] h = tt
retained-Own working ((i, e) ∷ m) h =
    ground (arith, h, retained_absent working i m h.1, retained-Own working m h.2)

-- The document after a commit reads as the staged drawing, at every reference.
pub apply_entities-get :
    (working entities : Dict FakeEntity) (k : String)
    → IsDrawing working
    → IsDrawing entities
    → (Dict.get (apply_entities working entities) k ≡ Dict.get working k)
      × IsDrawing (apply_entities working entities)
unfolding apply_entities Dict.get
apply_entities-get working entities k own h =
    let kept : Dict FakeEntity = record { items = retained working entities.items } in
    let (reads, fine) =
      apply_staged-get working.items kept k own (retained-Own working entities.items h) in
    (
      elim (Option-cases (lookup_items k working.items)) [
        | inl gone ↦ reads ∙ rw gone (retained_gone working k entities.items gone)
        | inr (e, there) ↦ reads ∙ rw (there) refl
      ],
      fine,
    )
