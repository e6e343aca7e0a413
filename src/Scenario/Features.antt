-- ===== src/Scenario/Features.antt =====
-- The internal license features of a scenario grow without repetition.
use loadstrike_go.Prelude.{
  ◌≡◌, refl, true, ◌||◌, List, [], ◌∷◌, ◌++◌, Bytes, text_eq, trim_space, All, Bool-cases, arith,
}
use loadstrike_go.Scenario.{
  Parts, ScenarioDefinition, is_added, add_feature, add_features, with_internal_license_features,
}

module _ (P : Parts) where
  open P use {to_lower, equal_fold}

  -- A feature that is blank or already among the features.
  IsCovered : List Bytes → Bytes → Type 0
  IsCovered features feature =
      (text_eq (to_lower (trim_space feature)) []
        || is_added P features (to_lower (trim_space feature)))
      ≡ true

  is_added-append :
      (features more : List Bytes) (n : Bytes)
      → is_added P features n ≡ true
      → is_added P (features ++ more) n ≡ true
  unfolding is_added
  is_added-append [] more n h = ground arith
  is_added-append (f ∷ features) more n h = ground (arith, is_added-append features more n)

  is_added-last :
      (features : List Bytes) (last n : Bytes)
      → equal_fold (trim_space last) n ≡ true
      → is_added P (features ++ last ∷ []) n ≡ true
  unfolding is_added
  is_added-last [] last n h = ground arith
  is_added-last (f ∷ features) last n h = ground (arith, is_added-last features last n)

  is_added-feature :
      (features : List Bytes) (g n : Bytes)
      → is_added P features n ≡ true
      → is_added P (add_feature P features g) n ≡ true
  unfolding add_feature
  is_added-feature features g n h =
      let m = to_lower (trim_space g) in
      ground (
        arith,
        is_added-append features (m ∷ []) n,
        Bool-cases (text_eq m []),
        Bool-cases (is_added P features m),
      )

  is_added-features :
      (features gs : List Bytes) (n : Bytes)
      → is_added P features n ≡ true
      → is_added P (add_features P features gs) n ≡ true
  unfolding add_features
  is_added-features features [] n h = h
  is_added-features features (g ∷ gs) n h =
      is_added-features (add_feature P features g) gs n (is_added-feature features g n h)

  -- Nothing is added where every feature is there already.
  add_features-covered :
      (features gs : List Bytes)
      → All (IsCovered features) gs
      → add_features P features gs ≡ features
  unfolding add_features add_feature IsCovered
  add_features-covered features [] h = refl
  add_features-covered features (g ∷ gs) h = rw (h.0, add_features-covered features gs (h.1))

  -- `EqualFold` holds of a normalized text and itself.
  IsReflexive : Type 0
  IsReflexive =
      (t : Bytes)
      → equal_fold (trim_space (to_lower (trim_space t))) (to_lower (trim_space t)) ≡ true

  IsCovered-add_feature :
      IsReflexive → (features : List Bytes) (g : Bytes) → IsCovered (add_feature P features g) g
  unfolding add_feature IsCovered IsReflexive
  IsCovered-add_feature fold features g =
      let m = to_lower (trim_space g) in
      ground (
        arith,
        is_added-last features m m (fold g),
        Bool-cases (text_eq m []),
        Bool-cases (is_added P features m),
      )

  IsCovered-add_features :
      (features gs : List Bytes) (g : Bytes)
      → IsCovered features g
      → IsCovered (add_features P features gs) g
  unfolding IsCovered
  IsCovered-add_features features gs g h =
      let m = to_lower (trim_space g) in
      ground (
        arith,
        is_added-features features gs m,
        Bool-cases (text_eq m []),
        Bool-cases (is_added P features m),
      )

  add_features-IsCovered :
      IsReflexive → (features gs : List Bytes) → All (IsCovered (add_features P features gs)) gs
  unfolding add_features
  add_features-IsCovered fold features [] = tt
  add_features-IsCovered fold features (g ∷ gs) = (
    IsCovered-add_features (add_feature P features g) gs g (IsCovered-add_feature fold features g),
    add_features-IsCovered fold (add_feature P features g) gs,
  )

  -- Where `EqualFold` holds of every normalized text and itself, adding the same features again
  -- changes nothing.
  pub with_internal_license_features-idempotent :
      ((t : Bytes)
        → equal_fold (trim_space (to_lower (trim_space t))) (to_lower (trim_space t)) ≡ true)
      → (s : ScenarioDefinition P) (features : List Bytes)
      → with_internal_license_features P (with_internal_license_features P s features) features
        ≡ with_internal_license_features P s features
  unfolding with_internal_license_features IsReflexive
  with_internal_license_features-idempotent fold s features =
      let before = s.internal_license_features in
      rw (
        add_features-covered (add_features P before features) features
          (add_features-IsCovered fold before features))
