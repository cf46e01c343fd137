-- ===== src/Kube/Settle.antt =====
-- EnsureConfigMap, EnsureSecret and EnsureSecretUUID, called twice.
use sf_operator.Common.{String, ◌≡◌, refl, sym, ◌∙◌, true, false, none, some, [], ◌∷◌, arith}
use sf_operator.Kube.Exec.{ret}
use sf_operator.Kube.Crud.{update_object}
use sf_operator.Kube.Reads.{get_or_die-found}
use sf_operator.Kube.Client.{found, Client, Context}
use sf_operator.Kube.Laws.{Persists, IsAvailable, ServesNormal}
use sf_operator.Kube.Objects.{GoMap, deep_equal, stored, ConfigMap, Secret}
use sf_operator.Kube.Ensure.{
  ensure_object, config_map_name, ensure_config_map, ensure_secret, ensure_secret_uuid,
  ensure_secret_from_func, mk_secret_from_func,
}
use sf_operator.Kube.Converge.{ensure_object_same, ensure_object_settles, ensure_object_returns}

Persists-forget :
    {W A P : Type 0} (client : Client W A) (content : A → P)
    → Persists client content
    → Persists {P = Unit {0}} client (λ c. tt)
Persists-forget client content laws = record {
  get-create = λ o w h. let (a, g, e) = laws.get-create o w h in (a, g, refl);
  create_new = laws.create_new;
  get-update = λ o w h. let (a, g, e) = laws.get-update o w h in (a, g, refl);
  get-name = laws.get-name;
  name-set_owner = laws.name-set_owner;
  content-set_owner = λ m o. refl;
}

-- What is served with the data of `contents`, which are not an empty map that is not nil.
served-equal :
    (b contents : GoMap)
    → stored b ≡ b
    → stored contents ≡ contents
    → deep_equal contents contents ≡ true
    → stored b ≡ stored contents
    → deep_equal b contents ≡ true
served-equal b contents fixed full h e =
    let same : b ≡ contents = sym fixed ∙ (e ∙ full) in rw same h

module _ {W : Type 0} (client : Client W ConfigMap)
    (laws : Persists client (λ c. stored c.contents))
    (normal : ServesNormal client stored (λ c. c.contents)) (up : IsAvailable client)
    (metadata : (o : ConfigMap) → client.name_of o ≡ o.name) (r : Context)
    (live : r.dry_run ≡ false) where
  -- On a server that answers and that drops maps that are empty, outside a dry run, and for a map that
  -- equals itself and is nil or not empty: the call returns, the server then serves a config map of
  -- that name with equal data, and a second call returns it and writes nothing.
  pub ensure_config_map_settles :
      (base_name : String) (contents : GoMap) (w : W)
      → stored contents ≡ contents
      → deep_equal contents contents ≡ true
      → (c : ConfigMap) × (w' : W) × (b : ConfigMap) × (ensure_config_map client r base_name
            contents w
          ≡ (ret c, w'))
        × (client.get (config_map_name base_name) w' ≡ found b)
        × (deep_equal b.contents contents ≡ true)
        × (ensure_config_map client r base_name contents w' ≡ (ret b, w'))
  unfolding ensure_config_map
  ensure_config_map_settles base_name contents w full h =
      let name = config_map_name base_name in
      let desired : ConfigMap = record {
        name = name;
        namespace = r.ns;
        annotations = none;
        contents = contents;
      } in
      let test = λ (c : ConfigMap). deep_equal c.contents contents in
      let patch = λ (c : ConfigMap). record c { contents = contents } in
      let named = metadata desired in
      let patched : (c : ConfigMap)
          → (client.name_of (patch c) ≡ client.name_of c) × (stored contents ≡ stored contents) =
        λ c. (metadata (patch c) ∙ sym (metadata c), refl) in
      let passes : (b : ConfigMap) (u : W)
          → client.get name u ≡ found b
          → stored b.contents ≡ stored contents
          → deep_equal b.contents contents ≡ true =
        λ b u g e. served-equal b.contents contents (normal name b u g) full h e in
      let (c, w', e) =
        ensure_object_returns client _ laws r name desired test patch named patched passes live up
          w in
      let (b, g, t, again) =
        ensure_object_settles client _ laws r name desired test patch named patched passes live w
          e in
      (c, w', b, e, g, t, again)

not_equal-empty : (m : GoMap) → stored m ≡ m → deep_equal m (some []) ≡ false
unfolding stored deep_equal
not_equal-empty none h = refl
not_equal-empty (some []) h = absurd (ground arith)
not_equal-empty (some (e ∷ m)) h = ground arith

module _ {W : Type 0} (client : Client W ConfigMap)
    (normal : ServesNormal client stored (λ c. c.contents)) (r : Context) where
  -- For data that are an empty map, and not nil, a config map that is there is written on every call:
  -- the server drops the empty map, and nil is not equal to it.
  pub ensure_config_map_writes :
      (base_name : String) (w : W) {c : ConfigMap}
      → client.get (config_map_name base_name) w ≡ found c
      → ensure_config_map client r base_name (some []) w
        ≡ update_object client r (record c { contents = some [] }) w
  unfolding ensure_config_map ensure_object
  ensure_config_map_writes base_name w {c = c} g =
      let name = config_map_name base_name in
      rw (get_or_die-found client r name w g, not_equal-empty c.contents (normal name c w g)) refl

module _ {W : Type 0} (client : Client W Secret) (laws : Persists client (λ c. stored c.contents))
    (normal : ServesNormal client stored (λ c. c.contents)) (up : IsAvailable client)
    (metadata : (o : Secret) → client.name_of o ≡ o.name) (r : Context)
    (live : r.dry_run ≡ false) where
  -- On a server that answers and that drops maps that are empty, outside a dry run, and for data that
  -- equal themselves and are nil or not empty: the call returns, the server then serves a secret of
  -- that name with equal data, and a second call writes nothing.
  pub ensure_secret_settles :
      (secret : Secret) (w : W)
      → stored secret.contents ≡ secret.contents
      → deep_equal secret.contents secret.contents ≡ true
      → (w' : W) × (b : Secret) × (ensure_secret client r secret w ≡ (ret tt, w'))
        × (client.get secret.name w' ≡ found b)
        × (deep_equal b.contents secret.contents ≡ true)
        × (ensure_secret client r secret w' ≡ (ret tt, w'))
  unfolding ensure_secret
  ensure_secret_settles secret w full h =
      let name = secret.name in
      let wanted = secret.contents in
      let test = λ (c : Secret). deep_equal c.contents wanted in
      let patch = λ (c : Secret). record c { contents = wanted } in
      let named = metadata secret in
      let patched : (c : Secret)
          → (client.name_of (patch c) ≡ client.name_of c) × (stored wanted ≡ stored wanted) =
        λ c. (metadata (patch c) ∙ sym (metadata c), refl) in
      let passes : (b : Secret) (u : W)
          → client.get name u ≡ found b
          → stored b.contents ≡ stored wanted
          → deep_equal b.contents wanted ≡ true =
        λ b u g e. served-equal b.contents wanted (normal name b u g) full h e in
      let (c, w', e) =
        ensure_object_returns client _ laws r name secret test patch named patched passes live up
          w in
      let (b, g, t, again) =
        ensure_object_settles client _ laws r name secret test patch named patched passes live w
          e in
      (w', b, rw e, g, t, rw again)

module _ {W P : Type 0} (client : Client W Secret) (content : Secret → P)
    (laws : Persists client content) (up : IsAvailable client)
    (metadata : (o : Secret) → client.name_of o ≡ o.name) (r : Context)
    (live : r.dry_run ≡ false) where
  -- A generated secret is ensured as an object that is always as it should be.
  ensure_secret_uuid-ensure_object :
      (name uuid : String) (w : W)
      → ensure_secret_uuid client r name uuid w
        ≡ ensure_object client r name (mk_secret_from_func name r.ns uuid) (λ c. true) (λ c. c) w
  unfolding ensure_secret_uuid ensure_secret_from_func ensure_object
  ensure_secret_uuid-ensure_object name uuid w = ground arith

  -- On a server that answers, outside a dry run, a generated secret is generated once: the first call
  -- returns, and from then on a call with any other generated value returns what the server holds and
  -- writes nothing.
  pub ensure_secret_uuid_once :
      (name uuid uuid' : String) (w : W)
      → (c : Secret) × (w' : W) × (b : Secret) × (ensure_secret_uuid client r name uuid w
          ≡ (ret c, w'))
        × (client.get name w' ≡ found b)
        × (ensure_secret_uuid client r name uuid' w' ≡ (ret b, w'))
  ensure_secret_uuid_once name uuid uuid' w =
      let made = mk_secret_from_func name r.ns uuid in
      let same : (c : Secret) → (client.name_of c ≡ client.name_of c) × (◌≡◌ {A = Unit {0}} tt tt) =
        λ c. (refl, refl) in
      let (c, w', e) =
        ensure_object_returns client _ (Persists-forget client _ laws) r name made (λ _. true)
          (λ c. c) (metadata made) same (λ b u g e. refl) live up w in
      let (b, g, t, again) =
        ensure_object_settles client _ (Persists-forget client _ laws) r name made (λ _. true)
          (λ c. c) (metadata made) same (λ b u g e. refl) live w e in
      (
        c,
        w',
        b,
        ensure_secret_uuid-ensure_object name uuid w ∙ e,
        g,
        ensure_secret_uuid-ensure_object name uuid' w'
            ∙ ensure_object_same client r name (mk_secret_from_func name r.ns uuid') _ _ w' g refl,
      )
