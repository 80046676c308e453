-- ===== src/Canonical/Strip.antt =====
-- What `strip_volatile` of cad_harness/domain/canonical.py leaves: no dropped key at any depth, and
-- a value without such a key is left unchanged.
use mathlib.Core.Path.{ap₂}
use autocad_mechanical_harne.Base.{
  String, ◌≡◌, ◌↔◌, refl, false, List, ap, subst, Bool-cases, inl, inr,
}
use autocad_mechanical_harne.Value.{Value, Values, Fields, null, array, dict, nil, cons, end, field}
use autocad_mechanical_harne.Canonical.{contains, strip_volatile, strip_values, strip_fields}

-- No key of the list is used by a dict in the value, at any depth.
abbrev mutual
  pub Avoids : List String → Value → Type 0
  Avoids drop null = Unit {0}
  Avoids drop (array vs) = AvoidsValues drop vs
  Avoids drop (dict fs) = AvoidsFields drop fs
  Avoids drop _ = Unit {0}

  pub AvoidsValues : List String → Values → Type 0
  AvoidsValues drop nil = Unit {0}
  AvoidsValues drop (cons v vs) = Avoids drop v × AvoidsValues drop vs

  pub AvoidsFields : List String → Fields → Type 0
  AvoidsFields drop end = Unit {0}
  AvoidsFields drop (field k v fs) =
      (contains k drop ≡ false) × Avoids drop v × AvoidsFields drop fs

mutual
  unfolding strip_volatile

  stripped : (drop : List String) (v : Value) → Avoids drop (strip_volatile drop v)
  stripped drop null = tt
  stripped drop (array vs) = stripped_values drop vs
  stripped drop (dict fs) = stripped_fields drop fs
  stripped drop _ = tt

  stripped_values : (drop : List String) (vs : Values) → AvoidsValues drop (strip_values drop vs)
  stripped_values drop nil = tt
  stripped_values drop (cons v vs) = (stripped drop v, stripped_values drop vs)

  stripped_fields : (drop : List String) (fs : Fields) → AvoidsFields drop (strip_fields drop fs)
  stripped_fields drop end = tt
  stripped_fields drop (field k v fs) = elim (Bool-cases (contains k drop)) [
    | inl e ↦ rw e (stripped_fields drop fs)
    | inr e ↦ rw e (e, stripped drop v, stripped_fields drop fs)
  ]

mutual
  unfolding strip_volatile

  kept : (drop : List String) (v : Value) → Avoids drop v → strip_volatile drop v ≡ v
  kept drop null h = refl
  kept drop (array vs) h = ap array (kept_values drop vs h)
  kept drop (dict fs) h = ap dict (kept_fields drop fs h)
  kept drop _ h = refl

  kept_values :
      (drop : List String) (vs : Values) → AvoidsValues drop vs → strip_values drop vs ≡ vs
  kept_values drop nil h = refl
  kept_values drop (cons v vs) h = ap₂ cons (kept drop v h.0) (kept_values drop vs h.1)

  kept_fields :
      (drop : List String) (fs : Fields) → AvoidsFields drop fs → strip_fields drop fs ≡ fs
  kept_fields drop end h = refl
  kept_fields drop (field k v fs) h =
      rw h.0 (ap₂ (field k) (kept drop v h.1) (kept_fields drop fs h.2))

-- Stripping leaves no dict with a dropped key at any depth, and changes a value exactly if it has
-- such a key somewhere; so stripping again changes nothing.
pub strip_volatile-Avoids :
    (drop : List String) (v : Value)
    → Avoids drop (strip_volatile drop v)
      × (Avoids drop v ↔ (strip_volatile drop v ≡ v))
      × (strip_volatile drop (strip_volatile drop v) ≡ strip_volatile drop v)
strip_volatile-Avoids drop v = (
  stripped drop v,
  (kept drop v, λ e. subst (Avoids drop) e (stripped drop v)),
  kept drop (strip_volatile drop v) (stripped drop v),
)
