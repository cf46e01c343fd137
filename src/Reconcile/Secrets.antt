-- ===== src/Reconcile/Secrets.antt =====
-- validateZuulConnectionsSecrets, and GetSecret, GetValueFromKeySecret and GetSecretDataFromKey of
-- controllers/utils.go.
use Prim.Native.String.{String, ◌++◌}
use sf_operator.Common.{
  ◌≡◌, ◌≢◌, refl, sym, ◌∙◌, ◌↔◌, ◌⊎◌, true, false, ◌&&◌, Option, none, some, List, [], ◌∷◌, arith,
  if◌then◌else◌, ◌==◌, eq_iff, All, Bool-cases, inl, inr,
}
use sf_operator.Common.Assoc.{lookup}
use sf_operator.Common.Int.{is_above_zero}
use sf_operator.Api.{GitHubConnection, GerritConnection, ZuulSpec}
use sf_operator.Kube.Exec.{Exec, ret, pure, ◌>>=◌}
use sf_operator.Kube.Client.{Client, Context, found, missing, failed, Got-cases}
use sf_operator.Kube.Objects.{GoMap, Secret}
use sf_operator.Kube.Crud.{get_or_die}

-- secret.Data[keyname], which is empty for a key that is missing.
abbrev pub data_at : String → GoMap → String
data_at key none = ""
data_at key (some m) = elim (lookup key m) [ none ↦ "" | some v ↦ v ]

module _ {W : Type 0} (client : Client W Secret) (r : Context) where
  -- `none` is the error.
  unfoldable pub get_secret : String → Exec W (Option Secret)
  unfolding get_or_die
  get_secret name = if name == "" then pure none else get_or_die client r name

  unfoldable pub get_value_from_key_secret : Secret → String → Option String
  get_value_from_key_secret secret keyname =
      let keyvalue = data_at keyname secret.contents in
      if keyvalue == "" then none else some keyvalue

  unfoldable pub get_secret_data_from_key : String → String → Exec W (Option String)
  unfolding get_secret get_value_from_key_secret
  get_secret_data_from_key name key = do
    secret ← get_secret name
    elim secret [
      | none ↦ pure none
      | some s ↦ pure (get_value_from_key_secret s (if key == "" then name else key))
    ]

  -- `some` is the error; the check of the next connections is `next`.
  unfoldable pub check_git_hub : GitHubConnection → Exec W (Option String) → Exec W (Option String)
  unfolding get_secret
  check_git_hub connection next = do
    secret ← get_secret connection.secrets
    elim secret [
      | none ↦ pure (some ("Missing github secret: " ++ connection.secrets))
      | some s ↦
          if is_above_zero connection.app_id && data_at "app_key" s.contents == ""
          then pure (some ("Missing github app_key field in: " ++ connection.secrets))
          else next
    ]

  unfoldable pub check_gerrit : GerritConnection → Exec W (Option String) → Exec W (Option String)
  unfolding get_secret_data_from_key
  check_gerrit conn next = if conn.sshkey == "" then next else do
    priv ← get_secret_data_from_key conn.sshkey "priv"
    elim priv [ none ↦ pure (some ("Missing gerrit secret: " ++ conn.sshkey)) | some _ ↦ next ]

  unfoldable pub check_gerrits : List GerritConnection → Exec W (Option String)
  check_gerrits [] = pure none
  check_gerrits (conn ∷ conns) = check_gerrit conn (check_gerrits conns)

  unfoldable pub check_git_hubs :
      List GitHubConnection → Exec W (Option String) → Exec W (Option String)
  check_git_hubs [] next = next
  check_git_hubs (conn ∷ conns) next = check_git_hub conn (check_git_hubs conns next)

  unfoldable pub validate_zuul_connections_secrets : ZuulSpec → Exec W (Option String)
  unfolding check_git_hubs check_gerrits
  validate_zuul_connections_secrets zuul =
      check_git_hubs zuul.git_hub_conns (check_gerrits zuul.gerrit_conns)

  -- The server serves the secret, with an app_key if the connection has an application.
  abbrev pub IsGitHubServed : W → GitHubConnection → Type 0
  IsGitHubServed w conn =
      (conn.secrets ≢ "")
      × (s : Secret) × (client.get conn.secrets w ≡ found s)
      × (is_above_zero conn.app_id ≡ true → data_at "app_key" s.contents ≢ "")

  -- The key of the connection, if it has one, is a served secret with a private key.
  abbrev pub IsGerritServed : W → GerritConnection → Type 0
  IsGerritServed w conn =
      conn.sshkey ≢ ""
      → (s : Secret) × (client.get conn.sshkey w ≡ found s) × (data_at "priv" s.contents ≢ "")

  abbrev Passes : Exec W (Option String) → W → Type 0
  Passes m w = m w ≡ (ret none, w)

  git_hub_of_found :
      (conn : GitHubConnection) (next : Exec W (Option String)) (w : W) {s : Secret}
      → (conn.secrets == "") ≡ false
      → client.get conn.secrets w ≡ found s
      → check_git_hub conn next w
        ≡ (if is_above_zero conn.app_id && data_at "app_key" s.contents == ""
              then pure (some ("Missing github app_key field in: " ++ conn.secrets))
              else next)
            w
  unfolding check_git_hub
  git_hub_of_found conn next w n g = rw (n, g, get_or_die) refl

  git_hub_of_absent :
      (conn : GitHubConnection) (next : Exec W (Option String)) (w : W)
      → (client.get conn.secrets w ≡ missing) ⊎ (client.get conn.secrets w ≡ failed)
      → check_git_hub conn next w ≢ (ret none, w)
  unfolding check_git_hub
  git_hub_of_absent conn next w a h = ground arith

  check_git_hub-Served :
      (conn : GitHubConnection) (next : Exec W (Option String)) (w : W)
      → Passes (check_git_hub conn next) w
      → IsGitHubServed w conn × Passes next w
  unfolding check_git_hub
  check_git_hub-Served conn next w h = elim (Bool-cases (conn.secrets == "")) [
    | inl e ↦ ground arith
    | inr n ↦ elim (Got-cases (client.get conn.secrets w)) [
      | inr a ↦ absurd (git_hub_of_absent conn next w a h)
      | inl (s, g) ↦
          let rest = sym (git_hub_of_found conn next w n g) ∙ h in
          let served : IsGitHubServed w conn = (
            λ e. ground (arith, eq_iff conn.secrets ""),
            s,
            g,
            λ above e. ground (arith, eq_iff (data_at "app_key" s.contents) ""),
          ) in
          (served, ground arith)
    ]
  ]

  Served-check_git_hub :
      (conn : GitHubConnection) (next : Exec W (Option String)) (w : W)
      → IsGitHubServed w conn
      → check_git_hub conn next w ≡ next w
  Served-check_git_hub conn next w (named, s, g, key) =
      git_hub_of_found conn next w (ground (arith, eq_iff conn.secrets "")) g
      ∙ ground (arith, eq_iff (data_at "app_key" s.contents) "")

  gerrit_of_key :
      (conn : GerritConnection) (next : Exec W (Option String)) (w : W) {s : Secret}
      → (conn.sshkey == "") ≡ false
      → client.get conn.sshkey w ≡ found s
      → check_gerrit conn next w
        ≡ (if data_at "priv" s.contents == ""
              then pure (some ("Missing gerrit secret: " ++ conn.sshkey))
              else next)
            w
  unfolding check_gerrit
  gerrit_of_key conn next w n g = rw (n, g, get_or_die) (ground (arith, eq_iff "priv" ""))

  gerrit_of_absent :
      (conn : GerritConnection) (next : Exec W (Option String)) (w : W)
      → (conn.sshkey == "") ≡ false
      → (client.get conn.sshkey w ≡ missing) ⊎ (client.get conn.sshkey w ≡ failed)
      → check_gerrit conn next w ≢ (ret none, w)
  unfolding check_gerrit
  gerrit_of_absent conn next w n a h = ground arith

  check_gerrit-Served :
      (conn : GerritConnection) (next : Exec W (Option String)) (w : W)
      → Passes (check_gerrit conn next) w
      → IsGerritServed w conn × Passes next w
  check_gerrit-Served conn next w h = elim (Bool-cases (conn.sshkey == "")) [
    | inl e ↦ (
      λ n. absurd (n (ground (arith, eq_iff conn.sshkey ""))),
      unfold check_gerrit in (rw e at h),
    )
    | inr n ↦ elim (Got-cases (client.get conn.sshkey w)) [
      | inr a ↦ absurd (gerrit_of_absent conn next w n a h)
      | inl (s, g) ↦
          let rest = sym (gerrit_of_key conn next w n g) ∙ h in
          let served : IsGerritServed w conn =
            λ _. (s, g, λ e. ground (arith, eq_iff (data_at "priv" s.contents) "")) in
          (served, ground arith)
    ]
  ]

  Served-check_gerrit :
      (conn : GerritConnection) (next : Exec W (Option String)) (w : W)
      → IsGerritServed w conn
      → check_gerrit conn next w ≡ next w
  Served-check_gerrit conn next w served = elim (Bool-cases (conn.sshkey == "")) [
    | inl e ↦ unfold check_gerrit in rw e refl
    | inr n ↦
        let (s, g, key) = served (λ e. ground (arith, eq_iff conn.sshkey "")) in
        gerrit_of_key conn next w n g ∙ ground (arith, eq_iff (data_at "priv" s.contents) "")
  ]

  gerrits-Served :
      (conns : List GerritConnection) (w : W)
      → Passes (check_gerrits conns) w
      → All (IsGerritServed w) conns
  unfolding check_gerrits
  gerrits-Served [] w h = tt
  gerrits-Served (conn ∷ conns) w h =
      let (served, rest) = check_gerrit-Served conn (check_gerrits conns) w h in
      (served, gerrits-Served conns w rest)

  Served-gerrits :
      (conns : List GerritConnection) (w : W)
      → All (IsGerritServed w) conns
      → Passes (check_gerrits conns) w
  unfolding check_gerrits
  Served-gerrits [] w hs = refl
  Served-gerrits (conn ∷ conns) w (h, hs) =
      Served-check_gerrit conn (check_gerrits conns) w h ∙ Served-gerrits conns w hs

  git_hubs-Served :
      (conns : List GitHubConnection) (next : Exec W (Option String)) (w : W)
      → Passes (check_git_hubs conns next) w
      → All (IsGitHubServed w) conns × Passes next w
  unfolding check_git_hubs
  git_hubs-Served [] next w h = (tt, h)
  git_hubs-Served (conn ∷ conns) next w h =
      let (served, rest) = check_git_hub-Served conn (check_git_hubs conns next) w h in
      let (others, last) = git_hubs-Served conns next w rest in ((served, others), last)

  Served-git_hubs :
      (conns : List GitHubConnection) (next : Exec W (Option String)) (w : W)
      → All (IsGitHubServed w) conns
      → check_git_hubs conns next w ≡ next w
  unfolding check_git_hubs
  Served-git_hubs [] next w hs = refl
  Served-git_hubs (conn ∷ conns) next w (h, hs) =
      Served-check_git_hub conn (check_git_hubs conns next) w h ∙ Served-git_hubs conns next w hs

  -- The validation gives no error and writes nothing exactly if every GitHub connection names a
  -- secret that the server serves, with an app_key if its application id is above zero, and every
  -- Gerrit connection with an SSH key names a secret that is served and has a private key.
  pub validate_zuul_connections_secrets_iff :
      (zuul : ZuulSpec) (w : W)
      → (validate_zuul_connections_secrets zuul w ≡ (ret none, w))
        ↔ (All (IsGitHubServed w) zuul.git_hub_conns × All (IsGerritServed w) zuul.gerrit_conns)
  unfolding validate_zuul_connections_secrets
  validate_zuul_connections_secrets_iff zuul w = (
    λ h.
        let (hubs, rest) =
          git_hubs-Served zuul.git_hub_conns (check_gerrits zuul.gerrit_conns) w h in
        (hubs, gerrits-Served zuul.gerrit_conns w rest),
    λ (hubs, gerrits).
        Served-git_hubs zuul.git_hub_conns (check_gerrits zuul.gerrit_conns) w hubs
        ∙ Served-gerrits zuul.gerrit_conns w gerrits,
  )
