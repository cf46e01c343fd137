-- ===== src/Zuulconf/Components.antt =====
-- EnsureZuulComponents: Zuul is reported as ready only if all of its services are.
use sf_operator.Common.{
  String, ◌≡◌, refl, sym, ◌∙◌, Bool, true, false, ◌&&◌, ◌⊎◌, inl, inr, Option, none, some, [], ◌∷◌,
  Permᴰ, ap, arith, if◌then◌else◌, ◌==◌, All,
}
use sf_operator.Common.Assoc.{Assoc, lookup, insert, lookup-insert}
use mathlib.Core.Path.{subst}
use sf_operator.Api.{ZuulSpec}
use sf_operator.Kube.Exec.{Exec, ret, pure, ◌>>=◌, >>=-eq-ret}
use sf_operator.Kube.Client.{Context}
use sf_operator.Reconcile.Services.{service_ready}
use sf_operator.Zuulconf.Names.{first, first-append, ne_of_first}
use sf_operator.Zuulconf.Services.{
  Deployed, is_executor_enabled, entry, tally, remove_executor, deploy_services, waiting,
  configured, ensure_zuul_components,
}

module _ {F W : Type 0} (deployed : Deployed F W) (r : Context) (zuul : ZuulSpec)
    (visit : Assoc Bool → Assoc Bool) where
  open deployed use {
    statefulsets, ensure_config, ensure_front_services, ensure_scheduler, ensure_executor,
    ensure_web, ensure_merger,
  }

  abbrev AreReady : Assoc Bool → Type 0
  AreReady services = All (λ (e : String × Bool). e.1 ≡ true) services

  entry-ne : (name : String) → (entry name == "Zuul") ≡ false
  unfolding first
  entry-ne name =
      ne_of_first (entry name) "Zuul" (λ e. omega (arith, first-append "|_ " name (λ e. cc)))

  -- The status of Zuul is true only while every service that is visited is ready.
  tally-AreReady :
      (services status : Assoc Bool)
      → lookup "Zuul" (tally services status) ≡ some true
      → AreReady services × (lookup "Zuul" status ≡ some true)
  unfolding tally
  tally-AreReady [] status h = (tt, h)
  tally-AreReady ((name, ready) ∷ services) status h =
      let noted = insert (entry name) ready status in
      let (rest, here) =
        tally-AreReady services (insert "Zuul" (service_ready "Zuul" noted && ready) noted) h in
      let before : lookup "Zuul" noted ≡ lookup "Zuul" status =
        lookup-insert (entry name) "Zuul" ready status ∙ ground (arith, entry-ne name) in
      let both : service_ready "Zuul" noted && ready ≡ true =
        ground (arith, lookup-insert "Zuul" "Zuul" (service_ready "Zuul" noted && ready) noted) in
      ((ground arith, rest), ground arith)

  abbrev after_config : Option F → Exec W (Assoc Bool)
  after_config cfg = elim cfg [
    | none ↦ pure (waiting deployed r zuul visit)
    | some f ↦ deploy_services deployed r zuul visit f >>= λ services.
        pure (tally (visit services) (insert "Zuul" true (configured deployed r zuul visit)))
  ]

  after_config-eq :
      (cfg : Option F) (w : W) {status : Assoc Bool} {v : W}
      → after_config cfg w ≡ (ret status, v)
      → lookup "Zuul" status ≡ some true
      → (f : F) × (services : Assoc Bool) × (cfg ≡ some f)
        × (deploy_services deployed r zuul visit f w ≡ (ret services, v))
        × (lookup "Zuul"
              (tally (visit services) (insert "Zuul" true (configured deployed r zuul visit)))
            ≡ some true)
  unfolding lookup insert
  after_config-eq none w h z = absurd (ground arith)
  after_config-eq (some f) w {status = status} {v = v} h z =
      let (services, u, e, k) =
        >>=-eq-ret (deploy_services deployed r zuul visit f)
          (λ services.
            pure (tally (visit services) (insert "Zuul" true (configured deployed r zuul visit))))
          w h in
      let same : tally (visit services) (insert "Zuul" true (configured deployed r zuul visit))
          ≡ status =
        cc in
      let last : u ≡ v = cc in (f, services, refl, cc, ap (lookup "Zuul") same ∙ z)

  ready_of_visit : {xs ys : Assoc Bool} → Permᴰ xs ys → AreReady xs → AreReady ys
  ready_of_visit Permᴰ.nil h = tt
  ready_of_visit (Permᴰ.cons e p) (h, hs) = (cc, ready_of_visit p hs)
  ready_of_visit (Permᴰ.swap e f) (h, (k, hs)) = (cc, (cc, hs))
  ready_of_visit (Permᴰ.trans p q) h = ready_of_visit q (ready_of_visit p h)

  -- The executor was deployed and is ready, or it is disabled.
  abbrev pub ExecutorIsReady : F → W → W → Type 0
  ExecutorIsReady f u v =
      ((is_executor_enabled zuul ≡ true) × (ensure_executor f u ≡ (ret true, v)))
      ⊎ ((is_executor_enabled zuul ≡ false) × (v ≡ u))

  -- Each service was deployed, from the state that the one before left, and answered that it is ready.
  abbrev pub AllAnswered : F → W → W → Type 0
  AllAnswered f u v =
      (a : W) × (b : W) × (c : W) × (d : W) × (ensure_front_services u ≡ (ret tt, a))
      × (ensure_scheduler f a ≡ (ret true, b))
      × ExecutorIsReady f b c
      × (ensure_web f c ≡ (ret true, d))
      × (ensure_merger f d ≡ (ret true, v))

  abbrev executor_step : F → Assoc Bool → Bool → Exec W (Assoc Bool)
  executor_step f services enabled =
      if enabled
      then (ensure_executor f >>= λ executor. pure (insert "Executor" executor services))
      else pure services

  -- The last two services, where those before are noted.
  abbrev last_steps : F → Assoc Bool → Exec W (Assoc Bool)
  last_steps f services = ensure_web f >>= λ web.
      ensure_merger f >>= λ merger. pure (insert "Merger" merger (insert "Web" web services))

  last_steps-eq :
      (f : F) (noted : Assoc Bool) (w : W) {services : Assoc Bool} {v : W}
      → last_steps f noted w ≡ (ret services, v)
      → (web : Bool) × (merger : Bool) × (d : W) × (ensure_web f w ≡ (ret web, d))
        × (ensure_merger f d ≡ (ret merger, v))
        × (insert "Merger" merger (insert "Web" web noted) ≡ services)
  last_steps-eq f noted w {services = services} {v = v} h =
      let (web, d, e, k) = >>=-eq-ret (ensure_web f) _ w h in
      let (merger, x, e', k') = >>=-eq-ret (ensure_merger f) _ d k in
      let last : x ≡ v = cc in (web, merger, d, e, rw last at e', cc)

  executor_step-eq :
      (f : F) (noted : Assoc Bool) (enabled : Bool) (w : W) {services : Assoc Bool} {v : W}
      → executor_step f noted enabled w ≡ (ret services, v)
      → ((enabled ≡ true)
          × ((executor : Bool) × (ensure_executor f w ≡ (ret executor, v))
              × (insert "Executor" executor noted ≡ services)))
        ⊎ ((enabled ≡ false) × (v ≡ w) × (noted ≡ services))
  executor_step-eq f noted false w h = inr (refl, cc, cc)
  executor_step-eq f noted true w {v = v} h =
      let (executor, x, e, k) = >>=-eq-ret (ensure_executor f) _ w h in
      let last : x ≡ v = cc in inl (refl, (executor, rw last at e, cc))

  four_ready :
      (scheduler executor web merger : Bool) {noted services : Assoc Bool}
      → insert "Executor" executor (insert "Scheduler" scheduler []) ≡ noted
      → insert "Merger" merger (insert "Web" web noted) ≡ services
      → AreReady services
      → (scheduler ≡ true) × (executor ≡ true) × (web ≡ true) × (merger ≡ true)
  unfolding insert
  four_ready scheduler executor web merger given same ready =
      let whole = ap (λ n. insert "Merger" merger (insert "Web" web n)) given ∙ same in
      let (s, (e, (b, (m, _)))) = subst AreReady (sym whole) ready in (s, e, b, m)

  three_ready :
      (scheduler web merger : Bool) {noted services : Assoc Bool}
      → insert "Scheduler" scheduler [] ≡ noted
      → insert "Merger" merger (insert "Web" web noted) ≡ services
      → AreReady services
      → (scheduler ≡ true) × (web ≡ true) × (merger ≡ true)
  unfolding insert
  three_ready scheduler web merger given same ready =
      let whole = ap (λ n. insert "Merger" merger (insert "Web" web n)) given ∙ same in
      let (s, (b, (m, _))) = subst AreReady (sym whole) ready in (s, b, m)

  deploy_services-AllAnswered :
      (f : F) (w : W) {services : Assoc Bool} {v : W}
      → deploy_services deployed r zuul visit f w ≡ (ret services, v)
      → AreReady services
      → AllAnswered f w v
  unfolding deploy_services
  deploy_services-AllAnswered f w h ready =
      let (_, a, e1, k1) = >>=-eq-ret ensure_front_services _ w h in
      let (scheduler, b, e2, k2) = >>=-eq-ret (ensure_scheduler f) _ a k1 in
      let noted = insert "Scheduler" scheduler [] in
      let (with_executor, c, e3, k3) =
        >>=-eq-ret (executor_step f noted (is_executor_enabled zuul)) (last_steps f) b k2 in
      let (web, merger, d, e4, e5, same) = last_steps-eq f with_executor c k3 in
      elim (executor_step-eq f noted (is_executor_enabled zuul) b e3) [
        | inl (on, (executor, ran, given)) ↦
            let (s, x, b', m) = four_ready scheduler executor web merger given same ready in
            (a, b, c, d, e1, rw s at e2, inl (on, rw x at ran), rw b' at e4, rw m at e5)
        | inr (off, still, given) ↦
            let (s, b', m) = three_ready scheduler web merger given same ready in
            (a, b, c, d, e1, rw s at e2, inr (off, still), rw b' at e4, rw m at e5)
      ]

  -- Zuul is reported as ready only if its configuration was there, and from that configuration the
  -- scheduler, the executor unless it is disabled, the web server and the merger were deployed, one
  -- after the other, and each answered that it is ready; in whatever order the answers are visited.
  pub ensure_zuul_components-Ready :
      (w : W) (status : Assoc Bool) (v : W)
      → ((m : Assoc Bool) → Permᴰ (visit m) m)
      → ensure_zuul_components deployed r zuul visit w ≡ (ret status, v)
      → lookup "Zuul" status ≡ some true
      → (f : F) × (u : W) × (u' : W) × (remove_executor deployed r zuul visit w ≡ (ret tt, u))
        × (ensure_config u ≡ (ret (some f), u'))
        × AllAnswered f u' v
  unfolding ensure_zuul_components
  ensure_zuul_components-Ready w status v visits h z =
      let (x, u, e, k) = >>=-eq-ret (remove_executor deployed r zuul visit) _ w h in
      let (cfg, u', e', k') = >>=-eq-ret ensure_config after_config u k in
      let (f, services, given, ran, tallied) = after_config-eq cfg u' k' z in
      let (ready, _) =
        tally-AreReady (visit services) (insert "Zuul" true (configured deployed r zuul visit))
          tallied in
      let all_ready = ready_of_visit (visits services) ready in
      (f, u, u', e, rw given at e', deploy_services-AllAnswered f u' ran all_ready)
