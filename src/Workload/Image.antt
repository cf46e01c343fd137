-- ===== src/Workload/Image.antt =====
-- imageChanged of controllers/utils.go.
use sf_operator.Common.{
  String, ◌≡◌, refl, ◌↔◌, List, [], ◌∷◌, ◌++◌, map, arith, ◌==◌, eq_iff, eq_refl, if◌then◌else◌,
}

-- apiv1.Container; `rest` is what the comparison does not read.
pub record Container (C : Type 0) : Type 0 where
  pub name : String
  pub image : String
  pub rest : C

module _ {C : Type 0} where
  -- The loop over the desired containers, at the position from where `current` is what is left.
  unfoldable pub image_changed : List (Container C) → List (Container C) → List String
  image_changed [] current = []
  image_changed (d ∷ desired) [] = d.image ∷ image_changed desired []
  image_changed (d ∷ desired) (c ∷ current) =
      let missing = image_changed desired current in
      if c.image == d.image then missing else d.image ∷ missing

  pub image_changed-same : (cs : List (Container C)) → image_changed cs cs ≡ []
  unfolding image_changed
  image_changed-same [] = refl
  image_changed-same (c ∷ cs) = rw (eq_refl c.image) (image_changed-same cs)

  abbrev pub images : List (Container C) → List String
  images cs = map (λ c. c.image) cs

  image_changed-prefix :
      (desired current : List (Container C))
      → image_changed desired current ≡ []
      → (extra : List String) × (images current ≡ images desired ++ extra)
  unfolding image_changed
  image_changed-prefix [] current h = (images current, refl)
  image_changed-prefix (d ∷ desired) [] h = cc
  image_changed-prefix (d ∷ desired) (c ∷ current) h =
      let same : c.image ≡ d.image = ground (arith, eq_iff c.image d.image) in
      let (extra, e) =
        image_changed-prefix desired current (ground (arith, eq_iff c.image d.image)) in
      (extra, cc (same, e))

  prefix-image_changed :
      (desired current : List (Container C)) (extra : List String)
      → images current ≡ images desired ++ extra
      → image_changed desired current ≡ []
  unfolding image_changed
  prefix-image_changed [] current extra h = refl
  prefix-image_changed (d ∷ desired) [] extra h = cc
  prefix-image_changed (d ∷ desired) (c ∷ current) extra h =
      let same : c.image ≡ d.image = cc in
      let rest : images current ≡ images desired ++ extra = cc in
      rw (same, eq_refl d.image) (prefix-image_changed desired current extra rest)

  -- No image is reported exactly if the images of the desired containers, in their order, are the
  -- first images of the current containers: further containers of the current template are not seen.
  pub image_changed-empty_iff :
      (desired current : List (Container C))
      → (image_changed desired current ≡ [])
        ↔ ((extra : List String) × (images current ≡ images desired ++ extra))
  image_changed-empty_iff desired current = (
    image_changed-prefix desired current,
    λ (extra, e). prefix-image_changed desired current extra e,
  )
