-- ===== src/Spec/Redaction.antt =====
-- What the redaction of a specification leaves.
use autocad_mechanical_harne.Base.{
  String, ◌≡◌, ◌≢◌, ◌==◌, ◌⊎◌, some, none, refl, sym, subst, true, false, List, [], ◌∷◌, ◌∙◌, arith,
  eq_iff, Bool-cases, inl, inr,
}
use autocad_mechanical_harne.Base.Dict
use autocad_mechanical_harne.Base.Dict.{get-pop_self, get-pop_ne, get-put_ne, get-put_self}
use autocad_mechanical_harne.Value.{bool}
use autocad_mechanical_harne.Spec.{
  FeatureSpec, DrawingSpec, carries_token, redact_feature, redact_features, any_token,
  redact_raster_acceptance_tokens,
}

abbrev pub token : String
token = "acceptance_token"

abbrev pub feature_id : FeatureSpec → String
feature_id f = f.feature_id

marker_ne_token : "acceptance_token_redacted" ≢ token
marker_ne_token = ground (arith, eq_iff "acceptance_token_redacted" token)

redact_feature-clean : (f : FeatureSpec) → carries_token (redact_feature f) ≡ false
unfolding redact_feature
redact_feature-clean f = elim (Bool-cases (carries_token f)) [
  | inl h ↦ rw h (
      rw
        (
          get-put_ne (Dict.pop f.parameters token) "acceptance_token_redacted" token (bool true)
              marker_ne_token,
          get-pop_self f.parameters token,
        )
        (ground arith))
  | inr h ↦ rw h h
]

redact_features-clean : (fs : List FeatureSpec) → any_token (redact_features fs) ≡ false
unfolding redact_features any_token
redact_features-clean [] = refl
redact_features-clean (f ∷ fs) = rw (redact_feature-clean f) (redact_features-clean fs)

-- One feature before and after: it is the same, or it carried a token and lost exactly that.
abbrev pub Redacted : FeatureSpec → FeatureSpec → Type 0
Redacted f g =
    ((carries_token f ≡ false) × (g ≡ f))
    ⊎ ((carries_token f ≡ true)
        × (g ≡ record f { parameters = g.parameters })
        × (Dict.get g.parameters token ≡ none)
        × (Dict.get g.parameters "acceptance_token_redacted" ≡ some (bool true))
        × ((key : String)
            → (token ≡ key)
              ⊎ (("acceptance_token_redacted" ≡ key)
                  ⊎ (Dict.get g.parameters key ≡ Dict.get f.parameters key))))

-- The same for two sequences, feature by feature.
abbrev pub AllRedacted : List FeatureSpec → List FeatureSpec → Type 0
AllRedacted [] [] = Unit {0}
AllRedacted [] (g ∷ gs) = ⊥
AllRedacted (f ∷ fs) [] = ⊥
AllRedacted (f ∷ fs) (g ∷ gs) = Redacted f g × AllRedacted fs gs

abbrev without_token : FeatureSpec → FeatureSpec
without_token f = record f {
  parameters = Dict.put (Dict.pop f.parameters token) "acceptance_token_redacted" (bool true);
}

without_token-parameters :
    (f : FeatureSpec) (key : String)
    → (token ≡ key)
      ⊎ (("acceptance_token_redacted" ≡ key)
          ⊎ (Dict.get (without_token f).parameters key ≡ Dict.get f.parameters key))
without_token-parameters f key = elim (Bool-cases (token == key)) [
  | inl h ↦ inl ((eq_iff _ _).0 h)
  | inr t ↦ elim (Bool-cases ("acceptance_token_redacted" == key)) [
    | inl h ↦ inr (inl ((eq_iff _ _).0 h))
    | inr m ↦ inr (
        inr (
          get-put_ne (Dict.pop f.parameters token) "acceptance_token_redacted" key (bool true)
            (λ e. cc (m, (eq_iff _ _).1 e))
          ∙ get-pop_ne f.parameters token key (λ e. cc (t, (eq_iff _ _).1 e))))
  ]
]

redact_feature-Redacted : (f : FeatureSpec) → Redacted f (redact_feature f)
unfolding redact_feature
redact_feature-Redacted f = elim (Bool-cases (carries_token f)) [
  | inl h ↦
      let same : redact_feature f ≡ without_token f = rw h refl in
      subst (Redacted f) (sym same) (
        inr (
          h,
          refl,
          get-put_ne (Dict.pop f.parameters token) "acceptance_token_redacted" token (bool true)
                marker_ne_token
              ∙ get-pop_self f.parameters token,
          get-put_self (Dict.pop f.parameters token) "acceptance_token_redacted" (bool true),
          without_token-parameters f,
        ))
  | inr h ↦ inl (h, rw h refl)
]

redact_features-AllRedacted : (fs : List FeatureSpec) → AllRedacted fs (redact_features fs)
unfolding redact_features
redact_features-AllRedacted [] = tt
redact_features-AllRedacted (f ∷ fs) = (redact_feature-Redacted f, redact_features-AllRedacted fs)

unchanged-AllRedacted : (fs : List FeatureSpec) → any_token fs ≡ false → AllRedacted fs fs
unfolding any_token
unchanged-AllRedacted [] h = tt
unchanged-AllRedacted (f ∷ fs) h =
    (inl (ground (arith, h), refl), unchanged-AllRedacted fs (ground (arith, h)))

-- What is stored of a specification: none of its features is an accepted raster trace that still has
-- its bearer token; redacting again changes nothing; each feature, in order, is the same one, or was
-- such a trace and differs only in its parameters, of which the token is gone, the marker is set and
-- every other one is what it was; and nothing else of the specification changes. Child features are
-- left as they are.
pub redact-clean :
    (spec : DrawingSpec)
    → (any_token (redact_raster_acceptance_tokens spec).features ≡ false)
      × (redact_raster_acceptance_tokens (redact_raster_acceptance_tokens spec)
          ≡ redact_raster_acceptance_tokens spec)
      × AllRedacted spec.features (redact_raster_acceptance_tokens spec).features
      × (redact_raster_acceptance_tokens spec
          ≡ record spec { features = (redact_raster_acceptance_tokens spec).features })
unfolding redact_raster_acceptance_tokens
redact-clean spec = elim (Bool-cases (any_token spec.features)) [
  | inl h ↦ rw h (
      rw (redact_features-clean spec.features)
        (refl, refl, redact_features-AllRedacted spec.features, refl))
  | inr h ↦ rw h (h, rw h, unchanged-AllRedacted spec.features h, refl)
]
