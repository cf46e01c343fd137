-- ===== src/Zuulconf/Sound.antt =====
-- EnsureZuulConfigSecret as a whole: when it gives nil, and what the file has for the connections.
use sf_operator.Common.{
  Bool-cases, All-zip, String, ◌≡◌, ◌∙◌, Bool, true, false, not, Option, none, some, arith, ◌==◌,
  All, ◌⊎◌, inl, inr,
}
use sf_operator.Common.Assoc.{Assoc}
use sf_operator.Api.{SoftwareFactory}
use sf_operator.Connections.Valid.{all_names}
use sf_operator.Connections.Duplicates.{contains}
use sf_operator.Connections.Controller.{
  SfController, started, mk_sf_controller, mk_sf_controller-started_iff, need_opendev_lem,
}
use sf_operator.Kube.Exec.{Exec, ret, >>=-eq-ret}
use sf_operator.Kube.Client.{Client, Context}
use sf_operator.Kube.Objects.{Secret}
use sf_operator.Zuulconf.Ini.{Ini, IsLawful, value}
use sf_operator.Zuulconf.Sections.{connection}
use sf_operator.Zuulconf.Edits.{IsVisit}
use sf_operator.Zuulconf.Refine.{Edit, edited-once, IsKept}
use sf_operator.Zuulconf.Connected.{edits, add_connections-IsRefined, edits-IsUnique, edits-free}
use sf_operator.Zuulconf.Frame.{set_defaults-IsLeft}
use sf_operator.Zuulconf.Config.{set_defaults}
use sf_operator.Zuulconf.Ensure.{
  unless_nil, set_database, set_keystore, set_hosts, set_statsd, set_cli_auth, save,
  add_connections, ensure_zuul_config_secret,
}
use sf_operator.Zuulconf.Waits.{
  HasText, HasDatabase, HasAuth, HasSecrets, set_database-Waits, set_keystore-Waits,
  set_cli_auth-Waits,
}
use sf_operator.Zuulconf.Ends.{
  set_statsd-IsAlike, set_hosts-IsAlike, Ends, Ends-map, unless_nil-Ends, Ends-some, save-Ends,
}

module _ {F : Type 0} (ini : Ini F) (laws : IsLawful ini) {W : Type 0} (client : Client W Secret)
    (r : Context) (visit : Assoc String → Assoc String) (once : IsVisit visit) where
  auth-Ends :
      (c : SfController) (remote : Bool) (cfg : F) (w : W) (o : Option F) (v : W)
      → unless_nil
          (set_cli_auth ini client r c.cr.spec.fqdn remote cfg)
          (λ with_auth. save ini client r (set_statsd ini with_auth))
          w
        ≡ (ret o, v)
      → Ends ini (HasAuth client remote w × Unit) cfg w o v
  auth-Ends c remote cfg w o v h =
      unless_nil-Ends ini (HasAuth client remote w) Unit cfg
        (set_cli_auth ini client r c.cr.spec.fqdn remote cfg)
        (λ with_auth. save ini client r (set_statsd ini with_auth)) w o v
        (λ x u. set_cli_auth-Waits ini laws client r c.cr.spec.fqdn remote cfg w x u)
        (λ f k.
          Ends-map ini Unit Unit f (set_statsd ini f) w o v (λ n. n) (λ n. n)
            (set_statsd-IsAlike ini laws f)
            (save-Ends ini laws client r (set_statsd ini f) w o v k))
        h

  abbrev after_connections : SfController → Bool → F → Exec W (Option F)
  after_connections c remote connected =
      unless_nil (set_database ini client r remote (set_defaults ini c connected)) λ with_db.
        unless_nil (set_keystore ini client r (set_hosts ini r c with_db)) λ with_keystore.
          unless_nil (set_cli_auth ini client r c.cr.spec.fqdn remote with_keystore)
            λ with_auth. save ini client r (set_statsd ini with_auth)

  -- What follows the connections.
  rest-Ends :
      (c : SfController) (remote : Bool) (mid : F) (w : W) (o : Option F) (v : W)
      → unless_nil
          (set_database ini client r remote mid)
          (λ with_db.
            unless_nil (set_keystore ini client r (set_hosts ini r c with_db)) λ with_keystore.
              unless_nil
                (set_cli_auth ini client r c.cr.spec.fqdn remote with_keystore)
                λ with_auth. save ini client r (set_statsd ini with_auth))
          w
        ≡ (ret o, v)
      → Ends ini (HasSecrets client remote w) mid w o v
  rest-Ends c remote mid w o v h =
      let key = HasText client "zuul-keystore-password" w in
      let auth = HasAuth client remote w in
      unless_nil-Ends ini (HasDatabase client remote w) (key × (auth × Unit)) mid
        (set_database ini client r remote mid)
        (λ with_db.
          unless_nil (set_keystore ini client r (set_hosts ini r c with_db)) λ with_keystore.
            unless_nil (set_cli_auth ini client r c.cr.spec.fqdn remote with_keystore)
              λ with_auth. save ini client r (set_statsd ini with_auth))
        w o v (λ x u. set_database-Waits ini laws client r remote mid w x u)
        (λ f k.
          Ends-map ini (key × (auth × Unit)) (key × (auth × Unit)) f (set_hosts ini r c f) w o v
            (λ n. n) (λ n. n) (set_hosts-IsAlike ini laws r c f)
            (unless_nil-Ends ini key (auth × Unit) (set_hosts ini r c f)
              (set_keystore ini client r (set_hosts ini r c f))
              (λ with_keystore.
                unless_nil (set_cli_auth ini client r c.cr.spec.fqdn remote with_keystore)
                  λ with_auth. save ini client r (set_statsd ini with_auth))
              w o v (λ x u. set_keystore-Waits ini laws client r (set_hosts ini r c f) w x u)
              (λ g l. auth-Ends c remote g w o v l) k))
        h

  -- A run that gives nil has written nothing, and then the secret of the database, the password of
  -- the key store or the secret of the client is not there, where the first and the last are needed
  -- by a control plane only. A run that gives a file had all of them.
  pub ensure_zuul_config_secret-Decides :
      (base : F) (c : SfController) (remote : Bool) (w : W) (o : Option F) (v : W)
      → ensure_zuul_config_secret ini client r visit base c remote w ≡ (ret o, v)
      → ((o ≡ none) × (v ≡ w) × ¬ (HasSecrets client remote w))
        ⊎ ((f : F) × (o ≡ some f) × HasSecrets client remote w)
  unfolding ensure_zuul_config_secret
  ensure_zuul_config_secret-Decides base c remote w o v h =
      let (mid, u, e, k) =
        >>=-eq-ret (add_connections ini client r visit c.cr.spec.zuul base)
          (after_connections c remote) w h in
      let (same, told) =
        add_connections-IsRefined client c.cr.spec.zuul ini laws r visit once base w mid u e in
      elim (rest-Ends c remote (set_defaults ini c mid) w o v (rw same at k)) [
        | inl (none_given, unwritten, absent) ↦ inl (none_given, unwritten, absent)
        | inr (f, given, need, alike) ↦ inr (f, given, need)
      ]

  -- The default connections have other names.
  abbrev IsApart : SfController → Edit W → Type 0
  IsApart c e =
      ((e.name == "git-server") ≡ false)
      × (c.need_opendev ≡ true → (e.name == "opendev.org") ≡ false)

  edits-IsApart :
      (c : SfController)
      → contains (all_names c.cr.spec.zuul) "git-server" ≡ false
      → c.need_opendev ≡ not (contains (all_names c.cr.spec.zuul) "opendev.org")
      → All (IsApart c) (edits client c.cr.spec.zuul)
  edits-IsApart c free opendev =
      let es = edits client c.cr.spec.zuul in
      let is_free : String → Edit W → Type 0 = λ name e. (e.name == name) ≡ false in
      elim (Bool-cases (contains (all_names c.cr.spec.zuul) "opendev.org")) [
        | inl there ↦
            All-zip (is_free "git-server") (is_free "git-server") (IsApart c) es
              (λ e server again. (server, λ need. ground arith))
              (edits-free client c.cr.spec.zuul "git-server" free)
              (edits-free client c.cr.spec.zuul "git-server" free)
        | inr apart ↦
            All-zip (is_free "git-server") (is_free "opendev.org") (IsApart c) es
              (λ e server site. (server, λ need. site))
              (edits-free client c.cr.spec.zuul "git-server" free)
              (edits-free client c.cr.spec.zuul "opendev.org" apart)
      ]

  -- A controller that starts on a resource where no connection has the empty name writes a zuul.conf
  -- in which the section of each connection is what that connection sets from the file that the
  -- operator brings and from the secrets: no other connection, default or setting disturbs it.
  pub ensure_zuul_config_secret-Keeps :
      (base : F) (cr : SoftwareFactory) (c : SfController) (remote : Bool) (w : W) (f : F) (v : W)
      → mk_sf_controller cr ≡ started c
      → contains (all_names cr.spec.zuul) "" ≡ false
      → ensure_zuul_config_secret ini client r visit base c remote w ≡ (ret (some f), v)
      → All
          (λ e.
            (key : String)
            → value ini (connection e.name) key f
              ≡ e.change w key (value ini (connection e.name) key base))
          (edits client c.cr.spec.zuul)
  unfolding ensure_zuul_config_secret
  ensure_zuul_config_secret-Keeps base cr c remote w f v start named h =
      let (mid, u, run, k) =
        >>=-eq-ret (add_connections ini client r visit c.cr.spec.zuul base)
          (after_connections c remote) w h in
      let (same, told) =
        add_connections-IsRefined client c.cr.spec.zuul ini laws r visit once base w mid u run in
      let (cr_same, opendev) = need_opendev_lem cr c start in
      let accepted = (mk_sf_controller-started_iff cr).0 (c, start) in
      let unique =
        edits-IsUnique client c.cr.spec.zuul (rw cr_same named) (rw cr_same accepted.unique) in
      let alike =
        Ends-some ini (set_defaults ini c mid) w f v (HasSecrets client remote w)
          (rest-Ends c remote (set_defaults ini c mid) w (some f) v (rw same at k)) in
      All-zip (λ e. IsKept (edits client c.cr.spec.zuul) e) (IsApart c)
        (λ e.
          (key : String)
          → value ini (connection e.name) key f
            ≡ e.change w key (value ini (connection e.name) key base))
        (edits client c.cr.spec.zuul)
        (λ e kept (server, site) key.
          alike e.name key
          ∙ (set_defaults-IsLeft ini laws e.name c server site key mid
              ∙ (told (connection e.name) key
                  ∙ kept w key (value ini (connection e.name) key base))))
        (edited-once (edits client c.cr.spec.zuul) unique)
        (edits-IsApart c (rw cr_same accepted.free) (rw cr_same opendev))
