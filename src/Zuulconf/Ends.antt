-- ===== src/Zuulconf/Ends.antt =====
-- How the part of EnsureZuulConfigSecret after the connections ends.
use sf_operator.Common.{◌≡◌, refl, sym, ◌∙◌, Option, none, some, [], ◌∷◌, arith, ◌⊎◌, inl, inr}
use sf_operator.Common.Decimal.{decimal}
use sf_operator.Connections.Controller.{SfController}
use sf_operator.Kube.Exec.{Exec, ret, pure, >>=-eq-ret}
use sf_operator.Kube.Client.{Client, Context}
use sf_operator.Kube.Ensure.{ensure_secret}
use sf_operator.Kube.Objects.{Secret}
use sf_operator.Zuulconf.Ini.{Ini, IsLawful, set_keys, are_named}
use sf_operator.Zuulconf.Sections.{connection}
use sf_operator.Zuulconf.Names.{first, connection-ne}
use sf_operator.Zuulconf.Frame.{set_keys-IsLeft}
use sf_operator.Zuulconf.Dump.{dump_config_ini}
use sf_operator.Zuulconf.Dumped.{value-dump_config_ini}
use sf_operator.Zuulconf.Config.{zookeeper_hosts, host_of}
use sf_operator.Zuulconf.Ensure.{unless_nil, zuul_config, set_hosts, set_statsd, save}
use sf_operator.Zuulconf.Waits.{IsAlike, Waits}

same_file : {F : Type 0} {f g : F} → some g ≡ some f → f ≡ g
same_file e = cc

module _ {F : Type 0} (ini : Ini F) (laws : IsLawful ini) where
  pub set_statsd-IsAlike : (cfg : F) → IsAlike ini cfg (set_statsd ini cfg)
  unfolding set_statsd first are_named
  set_statsd-IsAlike cfg name key =
      set_keys-IsLeft ini laws name "statsd" (("port", some (decimal 9125)) ∷ [])
        (connection-ne name "statsd" (λ e. omega arith)) refl key cfg

  pub set_hosts-IsAlike :
      (r : Context) (c : SfController) (cfg : F) → IsAlike ini cfg (set_hosts ini r c cfg)
  unfolding set_hosts first are_named
  set_hosts-IsAlike r c cfg name key =
      let standalone = c.cr.spec.zuul.executor.standalone in
      let hosts =
        set_keys ini "zookeeper" (("hosts", some (zookeeper_hosts standalone r.ns)) ∷ []) cfg in
      set_keys-IsLeft ini laws name "executor" (("hostname", host_of standalone) ∷ [])
        (connection-ne name "executor" (λ e. omega arith)) refl key hosts
      ∙ set_keys-IsLeft ini laws name "zookeeper"
          (("hosts", some (zookeeper_hosts standalone r.ns)) ∷ [])
          (connection-ne name "zookeeper" (λ e. omega arith)) refl key cfg

module _ {F : Type 0} (ini : Ini F) {W : Type 0} where
  -- How a run ends: with nil and nothing written if what it needs is not there, and else with a file
  -- that has the same sections of connections.
  abbrev pub Ends : Type 0 → F → W → Option F → W → Type 0
  Ends need cfg w o v =
      ((o ≡ none) × (v ≡ w) × ¬ need) ⊎ ((f : F) × (o ≡ some f) × need × IsAlike ini cfg f)

  pub Ends-map :
      (need wanted : Type 0) (cfg later : F) (w : W) (o : Option F) (v : W)
      → (need → wanted)
      → (wanted → need)
      → IsAlike ini cfg later
      → Ends need later w o v
      → Ends wanted cfg w o v
  Ends-map need wanted cfg later w o v to of alike (inl (e, same, absent)) =
      inl (e, same, λ n. absent (of n))
  Ends-map need wanted cfg later w o v to of alike (inr (f, e, n, after)) =
      inr (f, e, to n, λ name key. after name key ∙ alike name key)

  abbrev or_stop : (F → Exec W (Option F)) → Option F → Exec W (Option F)
  or_stop next x = elim x [ none ↦ pure none | some f ↦ next f ]

  -- What follows a step that has waited in vain is not reached.
  after-Waits :
      (need more : Type 0) (cfg : F) (next : F → Exec W (Option F)) (x : Option F) (w u : W)
      (o : Option F) (v : W)
      → ((f : F) → next f w ≡ (ret o, v) → Ends more f w o v)
      → u ≡ w
      → Waits ini need cfg x
      → or_stop next x u ≡ (ret o, v)
      → Ends (need × more) cfg w o v
  after-Waits need more cfg next none w u o v h same (inl (e, absent)) k =
      inl (cc, cc, λ n. absent n.0)
  after-Waits need more cfg next (some f) w u o v h same (inl (e, absent)) k = absurd (ground arith)
  after-Waits need more cfg next none w u o v h same (inr (f, e, n, alike)) k =
      absurd (ground arith)
  after-Waits need more cfg next (some g) w u o v h same (inr (f, e, n, alike)) k =
      let alike_g : IsAlike ini cfg g = rw (sym (same_file e)) alike in
      Ends-map more (need × more) cfg g w o v (λ m. (n, m)) (λ both. both.1) alike_g
        (h g (rw same at k))

  pub unless_nil-Ends :
      (need more : Type 0) (cfg : F) (m : Exec W (Option F)) (next : F → Exec W (Option F)) (w : W)
      (o : Option F) (v : W)
      → ((x : Option F) (u : W) → m w ≡ (ret x, u) → (u ≡ w) × Waits ini need cfg x)
      → ((f : F) → next f w ≡ (ret o, v) → Ends more f w o v)
      → unless_nil m next w ≡ (ret o, v)
      → Ends (need × more) cfg w o v
  unless_nil-Ends need more cfg m next w o v waits h k =
      let (x, u, e, l) = >>=-eq-ret m (or_stop next) w k in
      let (same, told) = waits x u e in after-Waits need more cfg next x w u o v h same told l

  pub Ends-some :
      (cfg : F) (w : W) (f : F) (v : W) (need : Type 0)
      → Ends need cfg w (some f) v
      → IsAlike ini cfg f
  Ends-some cfg w f v need (inl (e, same, absent)) = absurd (ground arith)
  Ends-some cfg w f v need (inr (g, e, n, alike)) = rw (← same_file e) alike

  pub save-Ends :
      (laws : IsLawful ini) (client : Client W Secret) (r : Context) (cfg : F) (w : W)
      (o : Option F) (v : W)
      → save ini client r cfg w ≡ (ret o, v)
      → Ends Unit cfg w o v
  unfolding save
  save-Ends laws client r cfg w o v h =
      let (t, u, e, k) =
        >>=-eq-ret (ensure_secret client r (zuul_config r (dump_config_ini ini cfg).0))
          (λ _. pure (some (dump_config_ini ini cfg).1)) w h in
      inr (
        (dump_config_ini ini cfg).1,
        cc,
        tt,
        λ name key. value-dump_config_ini ini laws (connection name) key cfg,
      )
