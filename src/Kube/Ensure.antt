-- ===== src/Kube/Ensure.antt =====
-- EnsureConfigMap, EnsureSecret, ensureSecretFromFunc, EnsureSecretUUID, EnsureSSHKeySecret, and
-- MkSecretFromFunc and MkSSHKeySecret of controllers/libs/base/base.go.
use Prim.Native.String.{◌++◌}
use sf_operator.Common.{String, Bool, none, some, [], ◌∷◌, if◌then◌else◌}
use sf_operator.Kube.Exec.{Exec, pure, ◌>>=◌, ◌>>◌}
use sf_operator.Kube.Client.{Client, Context}
use sf_operator.Kube.Objects.{GoMap, deep_equal, ConfigMap, Secret}
use sf_operator.Kube.Crud.{get_or_die, create_r, update_object, delete_r}

module _ {W A : Type 0} (client : Client W A) (r : Context) where
  -- The shape of EnsureConfigMap, EnsureSecret and EnsureService: create what is missing, and update
  -- what is not `same` by `patch`. The result is what the caller's variable then holds.
  unfoldable pub ensure_object : String → A → (A → Bool) → (A → A) → Exec W A
  unfolding get_or_die create_r update_object
  ensure_object name desired same patch = do
    current ← get_or_die client r name
    elim current [
      | none ↦ create_r client r desired
      | some c ↦ if same c then pure c else update_object client r (patch c)
    ]

abbrev pub config_map_name : String → String
config_map_name base_name = base_name ++ "-config-map"

module _ {W : Type 0} (client : Client W ConfigMap) (r : Context) where
  unfoldable pub ensure_config_map : String → GoMap → Exec W ConfigMap
  ensure_config_map base_name contents =
      ensure_object client r (config_map_name base_name)
        (record {
          name = config_map_name base_name;
          namespace = r.ns;
          annotations = none;
          contents = contents;
        })
        (λ c. deep_equal c.contents contents) (λ c. record c { contents = contents })

-- `value` is the text that getData returns.
abbrev pub mk_secret_from_func : String → String → String → Secret
mk_secret_from_func name namespace value = record {
  name = name;
  namespace = namespace;
  annotations = none;
  contents = some ((name, value) ∷ []);
}

-- The pair of keys is what utils.MkSSHKey returns.
abbrev pub mk_ssh_key_secret : String → String → String × String → Secret
mk_ssh_key_secret name namespace (pub_key, priv) = record {
  name = name;
  namespace = namespace;
  annotations = none;
  contents = some (("priv", priv) ∷ ("pub", pub_key) ∷ []);
}

module _ {W : Type 0} (client : Client W Secret) (r : Context) where
  unfoldable pub ensure_secret : Secret → Exec W (Unit {0})
  ensure_secret secret =
      ensure_object client r secret.name secret (λ c. deep_equal c.contents secret.contents)
        (λ c. record c { contents = secret.contents })
      >> pure tt

  -- An existing secret is returned as it is.
  unfoldable pub ensure_secret_from_func : String → String → Exec W Secret
  unfolding get_or_die create_r
  ensure_secret_from_func name value = do
    current ← get_or_die client r name
    elim current [
      | none ↦ create_r client r (mk_secret_from_func name r.ns value)
      | some c ↦ pure c
    ]

  -- `uuid` is what uuid.New().String() returns.
  unfoldable pub ensure_secret_uuid : String → String → Exec W Secret
  unfolding ensure_secret_from_func
  ensure_secret_uuid name uuid = ensure_secret_from_func name uuid

  unfoldable pub ensure_ssh_key_secret : String → String × String → Exec W Secret
  unfolding get_or_die create_r
  ensure_ssh_key_secret name keys = do
    current ← get_or_die client r name
    elim current [ none ↦ create_r client r (mk_ssh_key_secret name r.ns keys) | some c ↦ pure c ]

  unfoldable pub delete_secret : String → Exec W (Unit {0})
  unfolding delete_r
  delete_secret name = delete_r client r name
