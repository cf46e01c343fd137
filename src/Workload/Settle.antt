-- ===== src/Workload/Settle.antt =====
-- ensureStatefulset and ensureDeployment, called twice.
use sf_operator.Common.{
  String, ◌≡◌, ◌≢◌, refl, sym, ap, ◌∙◌, ◌⊎◌, inl, inr, Bool, true, false, Option, none, some,
  Bool-cases, if◌then◌else◌,
}
use sf_operator.Common.Int.{ℤ, eq_int, eq_int_refl}
use sf_operator.Kube.Exec.{Exec, ret, pure, ◌>>=◌}
use sf_operator.Kube.Client.{Got-cases, found, missing, Client, Context}
use sf_operator.Kube.Laws.{Persists, IsAvailable, ServesNormal}
use sf_operator.Kube.Objects.{deep_equal, stored}
use sf_operator.Kube.Crud.{get_or_die, create_r, update_object}
use sf_operator.Kube.Converge.{
  create_r-Serves, update_r-Serves, create_r_returns, update_r_returns, update_object_returns,
}
use sf_operator.Workload.Objects.{StatefulSet, Deployment, replicas_or_one}
use sf_operator.Workload.Views.{
  view_sts, view_dep, sts_agrees, dep_agrees, strategy_agrees, strategy_settles,
}
use sf_operator.Workload.Ensure.{
  ensure_by, ensure_statefulset, ensure_deployment, sts_needs_update, dep_needs_update, patch_sts,
  patch_dep, replicas_differ, forced_replicas,
}

module _ {W A : Type 0} (client : Client W A) (r : Context) (name : String) (desired : A)
    (needs : A → Bool) (patch : A → A) (w : W) where
  open client use {get}

  ensure_by_of_missing :
      get name w ≡ missing
      → ensure_by client r name desired needs patch w
        ≡ (create_r client r desired >>= λ current. pure (current, true)) w
  unfolding ensure_by
  ensure_by_of_missing g = rw (g, get_or_die)

  ensure_by_of_found :
      {a : A}
      → get name w ≡ found a
      → ensure_by client r name desired needs patch w
        ≡ (if needs a
              then (update_object client r (patch a) >>= λ o. pure (o, true))
              else pure (a, false))
            w
  unfolding ensure_by
  ensure_by_of_found g = rw (g, get_or_die)

  ensure_by_quiet :
      {a : A}
      → get name w ≡ found a
      → needs a ≡ false
      → ensure_by client r name desired needs patch w ≡ (ret (a, false), w)
  ensure_by_quiet g n = ensure_by_of_found g ∙ rw n

  ensure_by_updates :
      {a c : A} {w' : W}
      → get name w ≡ found a
      → needs a ≡ true
      → update_object client r (patch a) w ≡ (ret c, w')
      → ensure_by client r name desired needs patch w ≡ (ret (c, true), w')
  ensure_by_updates g n u = ensure_by_of_found g ∙ rw (n, u) refl

  ensure_by_creates :
      {c : A} {w' : W}
      → get name w ≡ missing
      → create_r client r desired w ≡ (ret c, w')
      → ensure_by client r name desired needs patch w ≡ (ret (c, true), w')
  ensure_by_creates g e = ensure_by_of_missing g ∙ rw e refl

-- `patched` is of an object that is served with the content of a patch of one that was served.
module _ {W A P : Type 0} (client : Client W A) (content : A → P) (laws : Persists client content)
    (up : IsAvailable client) (r : Context) (live : r.dry_run ≡ false) (name : String) (desired : A)
    (needs : A → Bool) (patch : A → A) (named : client.name_of desired ≡ name)
    (keeps : (a : A) → client.name_of (patch a) ≡ client.name_of a)
    (patched : (a b : A) (w w' : W)
      → client.get name w ≡ found a
      → client.get name w' ≡ found b
      → content b ≡ content (patch a)
      → needs b ≡ false) where
  open client use {get, create, update, set_owner}

  abbrev call : Exec W (A × Bool)
  call = ensure_by client r name desired needs patch

  -- The call returns, and a second one finds an object that it leaves as it is.
  abbrev HasSettled : W → Type 0
  HasSettled w =
      (res : A × Bool) × (w' : W) × (b : A) × (call w ≡ (ret res, w'))
      × (get name w' ≡ found b)
      × (call w' ≡ (ret (b, false), w'))

  settles_from :
      (w : W) {res : A × Bool} {w' : W} {b : A}
      → call w ≡ (ret res, w')
      → get name w' ≡ found b
      → needs b ≡ false
      → HasSettled w
  settles_from w {res = res} {w' = w'} {b = b} e g quiet =
      (res, w', b, e, g, ensure_by_quiet client r name desired needs patch w' g quiet)

  settles_found : (w : W) {a : A} → get name w ≡ found a → HasSettled w
  settles_found w {a = a} g = elim (Bool-cases (needs a)) [
    | inr quiet ↦
        settles_from w (ensure_by_quiet client r name desired needs patch w g quiet) g quiet
    | inl needed ↦
        let present : client.name_of (patch a) ≡ name = keeps a ∙ laws.get-name name w g in
        let there : get (client.name_of (patch a)) w ≢ missing = λ m. cc (present, g, m) in
        let done = update_r_returns client content laws r up live (patch a) w there in
        let held = update_object_returns client content laws r up live (patch a) w there in
        let (b, at_b, seen) =
          rw present at (update_r-Serves client content laws r (patch a) w live done) in
        settles_from w (ensure_by_updates client r name desired needs patch w g needed held) at_b
          (patched a b w _ g at_b seen)
  ]

  pub ensure_by_settles :
      (w : W)
      → (get name w ≡ missing
          → (b : A) (w' : W) → get name w' ≡ found b
          → content b ≡ content desired
          → needs b ≡ false)
      → HasSettled w
  ensure_by_settles w new = elim (Got-cases (get name w)) [
    | inl (a, g) ↦ settles_found w g
    | inr (inr f) ↦ absurd (up.reads name w f)
    | inr (inl m) ↦
        let done = create_r_returns client content laws r up live desired w (rw named m) in
        let (b, at_b, seen) =
          rw named at (create_r-Serves client content laws r desired w live (rw named m) done) in
        settles_from w (ensure_by_creates client r name desired needs patch w m done) at_b
          (new m b _ at_b seen)
  ]

forced-agree :
    (count current : Option ℤ) → replicas_differ count (forced_replicas count current) ≡ false
forced-agree none current = refl
forced-agree (some n) current = elim (Bool-cases (eq_int n (replicas_or_one current))) [
  | inl e ↦ rw (e, e) refl
  | inr e ↦ rw (e, eq_int_refl n) refl
]

module _ {W C : Type 0} (client : Client W (StatefulSet C)) (laws : Persists client view_sts)
    (normal : ServesNormal client stored (λ s. s.template.annotations)) (up : IsAvailable client)
    (metadata : (o : StatefulSet C) → client.name_of o ≡ o.name) (r : Context)
    (live : r.dry_run ≡ false) where
  -- On a server that answers, that may fill in whatever a statefulset leaves out, and that drops
  -- annotations that are empty; outside a dry run; for annotations that equal themselves and are nil
  -- or not empty; and if the statefulset exists or its own count is the desired one: the call returns,
  -- and the next call finds a statefulset and writes nothing.
  pub ensure_statefulset_settles :
      (sts : StatefulSet C) (count : Option ℤ) (w : W)
      → deep_equal sts.template.annotations sts.template.annotations ≡ true
      → stored sts.template.annotations ≡ sts.template.annotations
      → (client.get sts.name w ≡ missing → replicas_differ count sts.replicas ≡ false)
      → (res : StatefulSet C × Bool) × (w' : W) × (b : StatefulSet C) × (ensure_statefulset client r
            sts count w
          ≡ (ret res, w'))
        × (client.get sts.name w' ≡ found b)
        × (ensure_statefulset client r sts count w' ≡ (ret (b, false), w'))
  unfolding ensure_statefulset patch_sts
  ensure_statefulset_settles sts count w self full new =
      ensure_by_settles client view_sts laws up r live sts.name sts (sts_needs_update sts count)
        (patch_sts sts count) (metadata sts)
        (λ a. metadata (patch_sts sts count a) ∙ sym (metadata a))
        (λ a b u u' g g' seen.
          sts_agrees sts count b (patch_sts sts count a) self full (normal sts.name b u' g') seen
            refl (forced-agree count a.replicas))
        w
        (λ m b u g seen.
          sts_agrees sts count b sts self full (normal sts.name b u g) seen refl (new m))

module _ {W C S : Type 0} (same_strategy : S → S → Bool) (is_default : S → Bool) (complete : S → S)
    (client : Client W (Deployment C S)) (laws : Persists client (view_dep complete))
    (normal : ServesNormal client stored (λ d. d.template.annotations))
    (completes : ServesNormal client complete (λ d. d.strategy)) (up : IsAvailable client)
    (metadata : (o : Deployment C S) → client.name_of o ≡ o.name) (r : Context)
    (live : r.dry_run ≡ false) (same_refl : (s : S) → same_strategy s s ≡ true) where
  -- On a server that answers, that may fill in whatever a deployment leaves out, the details of its
  -- strategy included, and that drops annotations that are empty; outside a dry run; for strategies
  -- that equal themselves, for annotations that do and are nil or not empty, and for a strategy that
  -- is left out or that has all details; and if the deployment exists or its own count is the desired
  -- one: the call returns, and the next call finds a deployment and writes nothing.
  pub ensure_deployment_settles :
      (dep : Deployment C S) (count : Option ℤ) (w : W)
      → deep_equal dep.template.annotations dep.template.annotations ≡ true
      → stored dep.template.annotations ≡ dep.template.annotations
      → (is_default dep.strategy ≡ true) ⊎ (complete dep.strategy ≡ dep.strategy)
      → (client.get dep.name w ≡ missing → replicas_differ count dep.replicas ≡ false)
      → (res : Deployment C S × Bool) × (w' : W) × (b : Deployment C S) × (ensure_deployment
            same_strategy is_default client r dep count w
          ≡ (ret res, w'))
        × (client.get dep.name w' ≡ found b)
        × (ensure_deployment same_strategy is_default client r dep count w' ≡ (ret (b, false), w'))
  unfolding ensure_deployment patch_dep
  ensure_deployment_settles dep count w self full given new =
      let patch = patch_dep same_strategy is_default dep count in
      ensure_by_settles client (view_dep complete) laws up r live dep.name dep
        (dep_needs_update same_strategy is_default dep count) patch (metadata dep)
        (λ a. metadata (patch a) ∙ sym (metadata a))
        (λ a b u u' g g' seen.
          dep_agrees same_strategy is_default complete dep count b (patch a) self full
            (normal dep.name b u' g') seen refl (forced-agree count a.replicas)
            (strategy_settles same_strategy is_default complete same_refl dep.strategy given
              a.strategy b.strategy (completes dep.name a u g) (completes dep.name b u' g')
              (ap (λ p. p.3) seen)))
        w
        (λ m b u g seen.
          dep_agrees same_strategy is_default complete dep count b dep self full
            (normal dep.name b u g) seen refl (new m)
            (strategy_agrees same_strategy is_default complete same_refl dep.strategy given
              b.strategy (completes dep.name b u g) (ap (λ p. p.3) seen)))
