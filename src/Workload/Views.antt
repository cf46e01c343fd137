-- ===== src/Workload/Views.antt =====
-- What ensureStatefulset and ensureDeployment see of an object. The API server fills in what is left
-- out of an object: a count of replicas, a period of grace, the details of a strategy, and most of what
-- a container is made of.
use sf_operator.Common.{
  String, ◌≡◌, refl, sym, ap, ◌∙◌, Bool, true, false, Option, none, some, List, [], ◌∷◌, ◌++◌, ◌⊎◌,
  inl, inr, arith, if◌then◌else◌, Bool-cases, Option-cases,
}
use sf_operator.Common.Int.{ℤ, pos, eq_int_refl}
use sf_operator.Kube.Objects.{GoMap, deep_equal, stored}
use sf_operator.Workload.Image.{images, image_changed, image_changed-empty_iff}
use sf_operator.Workload.Objects.{
  Template, StatefulSet, Deployment, get_grace_period, replicas_or_one,
}
use sf_operator.Workload.Ensure.{
  sts_needs_update, dep_needs_update, template_differs, strategy_differs, replicas_differ,
}

-- The defaults of the Kubernetes API.
unfoldable pub default_replicas : Option ℤ → ℤ
default_replicas none = pos 1
default_replicas (some n) = n

unfoldable pub default_grace : Option ℤ → ℤ
default_grace none = pos 30
default_grace (some n) = n

abbrev pub StsView : Type 0
StsView = ℤ × GoMap × List String × ℤ

-- The count of replicas and the period of grace with their defaults, the annotations without an empty
-- map, and the images.
abbrev pub view_sts : {C : Type 0} → StatefulSet C → StsView
view_sts s = (
  default_replicas s.replicas,
  stored s.template.annotations,
  images s.template.containers,
  default_grace s.template.termination_grace_period_seconds,
)

abbrev pub DepView : Type 0 → Type 0
DepView S = ℤ × GoMap × List String × S

-- `complete` fills in the details of a strategy.
abbrev pub view_dep : {C S : Type 0} → (S → S) → Deployment C S → DepView S
view_dep complete d = (
  default_replicas d.replicas,
  stored d.template.annotations,
  images d.template.containers,
  complete d.strategy,
)

default_replicas-one : (o : Option ℤ) → default_replicas o ≡ replicas_or_one o
unfolding default_replicas
default_replicas-one none = refl
default_replicas-one (some n) = refl

grace_is_default :
    {C : Type 0} (s : StatefulSet C)
    → get_grace_period s ≡ default_grace s.template.termination_grace_period_seconds
unfolding default_grace
grace_is_default s = elim (Option-cases s.template.termination_grace_period_seconds) [
  | inl e ↦ rw e refl
  | inr (n, e) ↦ rw e refl
]

replicas_differ_ext :
    (count a b : Option ℤ)
    → default_replicas a ≡ default_replicas b
    → replicas_differ count a ≡ replicas_differ count b
replicas_differ_ext none a b h = refl
replicas_differ_ext (some n) a b h =
    let same : replicas_or_one a ≡ replicas_or_one b =
      sym (default_replicas-one a) ∙ (h ∙ default_replicas-one b) in
    rw same refl

append_nil : (xs : List String) → xs ≡ xs ++ []
append_nil [] = refl
append_nil (x ∷ xs) = ap (λ ys. x ∷ ys) (append_nil xs)

-- A template of the desired images and annotations does not differ, if the annotations are nil or
-- not empty and equal themselves.
template_agrees :
    {C : Type 0} (desired current : Template C)
    → deep_equal desired.annotations desired.annotations ≡ true
    → stored desired.annotations ≡ desired.annotations
    → stored current.annotations ≡ current.annotations
    → stored current.annotations ≡ stored desired.annotations
    → images current.containers ≡ images desired.containers
    → template_differs desired current ≡ false
template_agrees desired current self full normal annotated imaged =
    let same : current.annotations ≡ desired.annotations = sym normal ∙ (annotated ∙ full) in
    let unchanged : image_changed desired.containers current.containers ≡ [] =
      (image_changed-empty_iff desired.containers current.containers).1
        ([], imaged ∙ append_nil (images desired.containers)) in
    rw (unchanged, same, self) refl

-- A statefulset that is seen as `target`, which has the desired template and an accepted count.
pub sts_agrees :
    {C : Type 0} (sts : StatefulSet C) (count : Option ℤ) (b target : StatefulSet C)
    → deep_equal sts.template.annotations sts.template.annotations ≡ true
    → stored sts.template.annotations ≡ sts.template.annotations
    → stored b.template.annotations ≡ b.template.annotations
    → view_sts b ≡ view_sts target
    → target.template ≡ sts.template
    → replicas_differ count target.replicas ≡ false
    → sts_needs_update sts count b ≡ false
unfolding sts_needs_update
sts_agrees sts count b target self full normal seen templated counted =
    let replicas : replicas_differ count b.replicas ≡ false =
      replicas_differ_ext count b.replicas target.replicas (ap (λ p. p.0) seen) ∙ counted in
    let template : template_differs sts.template b.template ≡ false =
      template_agrees sts.template b.template self full normal
        (ap (λ p. p.1) seen ∙ ap (λ t. stored t.annotations) templated)
        (ap (λ p. p.2) seen ∙ ap (λ t. images t.containers) templated) in
    let grace : get_grace_period b ≡ get_grace_period sts =
      grace_is_default b
      ∙ (ap (λ p. p.3) seen
          ∙ (ap (λ t. default_grace t.termination_grace_period_seconds) templated
              ∙ sym (grace_is_default sts))) in
    rw (replicas, template, grace, eq_int_refl (get_grace_period sts)) refl

pub dep_agrees :
    {C S : Type 0} (same_strategy : S → S → Bool) (is_default : S → Bool) (complete : S → S)
    (dep : Deployment C S) (count : Option ℤ) (b target : Deployment C S)
    → deep_equal dep.template.annotations dep.template.annotations ≡ true
    → stored dep.template.annotations ≡ dep.template.annotations
    → stored b.template.annotations ≡ b.template.annotations
    → view_dep complete b ≡ view_dep complete target
    → target.template ≡ dep.template
    → replicas_differ count target.replicas ≡ false
    → strategy_differs same_strategy is_default dep.strategy b.strategy ≡ false
    → dep_needs_update same_strategy is_default dep count b ≡ false
unfolding dep_needs_update
dep_agrees same_strategy is_default complete dep count b target self full normal seen templated
      counted strategic =
    let replicas : replicas_differ count b.replicas ≡ false =
      replicas_differ_ext count b.replicas target.replicas (ap (λ p. p.0) seen) ∙ counted in
    let template : template_differs dep.template b.template ≡ false =
      template_agrees dep.template b.template self full normal
        (ap (λ p. p.1) seen ∙ ap (λ t. stored t.annotations) templated)
        (ap (λ p. p.2) seen ∙ ap (λ t. images t.containers) templated) in
    rw (replicas, template, strategic) refl

module _ {S : Type 0} (same_strategy : S → S → Bool) (is_default : S → Bool) (complete : S → S)
    (same_refl : (s : S) → same_strategy s s ≡ true) (desired : S)
    (given : (is_default desired ≡ true) ⊎ (complete desired ≡ desired)) where
  -- The strategy that is served for the desired one.
  pub strategy_agrees :
      (current : S)
      → complete current ≡ current
      → complete current ≡ complete desired
      → strategy_differs same_strategy is_default desired current ≡ false
  strategy_agrees current normal seen = elim given [
    | inl e ↦ ground arith
    | inr e ↦
        let same : current ≡ desired = sym normal ∙ (seen ∙ e) in rw (same, same_refl desired) refl
  ]

  -- The strategy that is served after an update of `current`.
  pub strategy_settles :
      (current b : S)
      → complete current ≡ current
      → complete b ≡ b
      → complete b
        ≡ complete
            (if strategy_differs same_strategy is_default desired current then desired else current)
      → strategy_differs same_strategy is_default desired b ≡ false
  strategy_settles current b was normal seen =
      elim (Bool-cases (strategy_differs same_strategy is_default desired current)) [
        | inl e ↦ strategy_agrees b normal (rw e at seen)
        | inr e ↦
            let kept : complete b ≡ complete current = rw e at seen in
            let same : b ≡ current = sym normal ∙ (kept ∙ was) in rw same e
      ]
