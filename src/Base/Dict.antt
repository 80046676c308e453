-- ===== src/Base/Dict.antt =====
-- Python's `dict` with string keys: an association list in insertion order. Assigning to a key that
-- is present keeps its place. Clients have the laws of `dict_laws`.
use Prim.Native.String.{String}
use mathlib.Core.Path.{◌≡◌, refl, ap}
use mathlib.Core.Logic.{◌≢◌}
use mathlib.Core.List.{List, [], ◌∷◌, map}
use mathlib.Core.Option.{Option, none, some}
use native.Mathlib.Omega.{arith}
use text.Mathlib.Text.{◌==◌}
use text.Mathlib.TextEquality.{eq_iff}
use text.Mathlib.TextPositions.{eq_refl}
use autocad_mechanical_harne.Base.Tests.{if◌then◌else◌, eq_false}

pub record Dict {ℓ} (V : Type ℓ) : Type ℓ where
  pub items : List (String × V)

module _ {ℓ} {V : Type ℓ} where
  unfoldable pub lookup_items : String → List (String × V) → Option V
  lookup_items k [] = none
  lookup_items k ((j, v) ∷ m) = if j == k then some v else lookup_items k m

  unfoldable pub insert_items : String → V → List (String × V) → List (String × V)
  insert_items k v [] = (k, v) ∷ []
  insert_items k v ((j, w) ∷ m) = if j == k then (j, v) ∷ m else (j, w) ∷ insert_items k v m

  unfoldable pub remove_items : String → List (String × V) → List (String × V)
  remove_items k [] = []
  remove_items k ((j, w) ∷ m) =
      let rest = remove_items k m in if j == k then rest else (j, w) ∷ rest

  unfoldable pub empty : Dict V
  empty = record { items = [] }

  -- d.get(k)
  unfoldable pub get : Dict V → String → Option V
  unfolding lookup_items
  get d k = lookup_items k d.items

  -- d[k] = v
  unfoldable pub put : Dict V → String → V → Dict V
  unfolding insert_items
  put d k v = record { items = insert_items k v d.items }

  -- d.pop(k, None)
  unfoldable pub pop : Dict V → String → Dict V
  unfolding remove_items
  pop d k = record { items = remove_items k d.items }

  -- tuple(d.values())
  unfoldable pub values : Dict V → List V
  values d = map (λ p. p.1) d.items

  lookup-insert :
      (k j : String) (v : V) (m : List (String × V))
      → lookup_items j (insert_items k v m) ≡ (if k == j then some v else lookup_items j m)
  unfolding lookup_items insert_items
  lookup-insert k j v [] = refl
  lookup-insert k j v ((i, w) ∷ m) =
      ground (arith, eq_iff k j, eq_iff i k, eq_iff i j, lookup-insert k j v m)

  lookup-remove :
      (k j : String) (m : List (String × V))
      → lookup_items j (remove_items k m) ≡ (if k == j then none else lookup_items j m)
  unfolding lookup_items remove_items
  lookup-remove k j [] = ground arith
  lookup-remove k j ((i, w) ∷ m) =
      ground (arith, eq_iff k j, eq_iff i k, eq_iff i j, lookup-remove k j m)

  pub get-put :
      (d : Dict V) (k j : String) (v : V) → get (put d k v) j ≡ (if k == j then some v else get d j)
  unfolding get put
  get-put d k j v = lookup-insert k j v d.items

  pub get-pop : (d : Dict V) (k j : String) → get (pop d k) j ≡ (if k == j then none else get d j)
  unfolding get pop
  get-pop d k j = lookup-remove k j d.items

  pub get-put_self : (d : Dict V) (k : String) (v : V) → get (put d k v) k ≡ some v
  get-put_self d k v = simp (get-put, eq_refl)

  pub get-put_ne : (d : Dict V) (k j : String) (v : V) → k ≢ j → get (put d k v) j ≡ get d j
  get-put_ne d k j v h = rw (get-put d k j v, eq_false k j h)

  pub get-pop_self : (d : Dict V) (k : String) → get (pop d k) k ≡ none
  get-pop_self d k = simp (get-pop, eq_refl)

  pub get-pop_ne : (d : Dict V) (k j : String) → k ≢ j → get (pop d k) j ≡ get d j
  get-pop_ne d k j h = rw (get-pop d k j, eq_false k j h)

  remove-insert_absent :
      (k : String) (v : V) (m : List (String × V))
      → lookup_items k m ≡ none
      → remove_items k (insert_items k v m) ≡ m
  unfolding lookup_items insert_items remove_items
  remove-insert_absent k v [] h = rw (eq_refl k) refl
  remove-insert_absent k v ((j, w) ∷ m) h = ground (arith, h, remove-insert_absent k v m)

  -- A key that was not there is put and popped without a trace.
  pub pop-put_absent : (d : Dict V) (k : String) (v : V) → get d k ≡ none → pop (put d k v) k ≡ d
  unfolding get put pop
  pop-put_absent d k v h = ap (λ m. record { items = m }) (remove-insert_absent k v d.items h)

pub get-empty {ℓ} : {V : Type ℓ} (k : String) → get (empty {V = V}) k ≡ none
unfolding get empty
get-empty k = refl

pub ruleset dict_laws = (get-empty, get-put, get-pop, eq_refl)
