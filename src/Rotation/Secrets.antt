-- ===== src/Rotation/Secrets.antt =====
-- _DeleteSecretOrError, and the rotations that delete a secret so that a reconcile makes a new one.
use Prim.Native.String.{◌++◌}
use sf_operator.Common.{
  String, ◌≡◌, ◌≢◌, refl, sym, ◌∙◌, ap, ◌==◌, false, Option, none, some, ◌⊎◌, inl, inr,
}
use sf_operator.Kube.Exec.{Exec, ret, pure, ◌>>=◌, ◌>>◌}
use sf_operator.Kube.Client.{Client, Context, missing, Got-cases}
use sf_operator.Kube.Laws.{Deletes, IsAvailable}
use sf_operator.Kube.Objects.{Secret}
use sf_operator.Kube.Crud.{get_or_die, delete_r}
use sf_operator.Kube.Reads.{get_or_die-found, get_or_die-missing}
use sf_operator.Kube.Ensure.{ensure_secret_uuid}
use sf_operator.Rotation.Errors.{or_return}

module _ {W : Type 0} (client : Client W Secret) (r : Context) where
  -- `some` is the error.
  unfoldable pub delete_secret_or_error : String → Exec W (Option String)
  delete_secret_or_error name = do
    secret ← get_or_die client r name
    elim secret [
      | none ↦ pure (some ("missing secret: " ++ name))
      | some _ ↦ delete_r client r name >> pure none
    ]

  -- Both secrets are read before one is deleted.
  unfoldable pub rotate_zookeeper_tls_secrets : Exec W (Option String)
  rotate_zookeeper_tls_secrets = do
    server ← get_or_die client r "zookeeper-server-tls"
    elim server [
      | none ↦ pure (some "missing zookeeper server secret")
      | some _ ↦ get_or_die client r "zookeeper-client-tls" >>= λ tls. elim tls [
        | none ↦ pure (some "missing zookeeper client secret")
        | some _ ↦
            delete_r client r "zookeeper-client-tls"
            >> (delete_r client r "zookeeper-server-tls" >> pure none)
      ]
    ]

  unfoldable pub rotate_zuul_db_connection_secret : Exec W (Option String)
  unfolding delete_secret_or_error
  rotate_zuul_db_connection_secret = delete_secret_or_error "zuul-db-connection"

  -- `uuid` is what uuid.New().String() returns.
  unfoldable pub rotate_zuul_authenticator_secret : String → Exec W (Option String)
  unfolding delete_secret_or_error
  rotate_zuul_authenticator_secret uuid = delete_secret_or_error "zuul-auth-secret" >>= λ err.
      or_return err (ensure_secret_uuid client r "zuul-auth-secret" uuid >> pure none)

  module _ (live : r.dry_run ≡ false) (up : IsAvailable client) (laws : Deletes client) where
    open laws use {get-delete, get-delete-other, deletes}

    abbrev wiped : String → W → W
    wiped name w = (client.delete false name w).1

    delete_found :
        (name : String) (w : W)
        → client.get name w ≢ missing
        → delete_r client r name w ≡ (ret tt, wiped name w)
    unfolding delete_r
    delete_found name w h = rw (live, deletes name w h) refl

    -- Without an error the secret was there; it is gone and every other object is as it was.
    pub delete_secret_or_error_lem :
        (name : String) (w : W) {v : W}
        → delete_secret_or_error name w ≡ (ret none, v)
        → (client.get name v ≡ missing)
          × ((other : String) → (name == other) ≡ false → client.get other v ≡ client.get other w)
    unfolding delete_secret_or_error
    delete_secret_or_error_lem name w {v = v} h = elim (Got-cases (client.get name w)) [
      | inr (inr g) ↦ absurd (up.reads name w g)
      | inr (inl g) ↦ (let run = (rw (get_or_die-missing client r name w g) at h) in cc)
      | inl (s, g) ↦
          let there : client.get name w ≢ missing = λ e. cc in
          let run : (ret none, wiped name w) ≡ (ret none, v) =
            rw (get_or_die-found client r name w g, delete_found name w there) at h in
          let same : wiped name w ≡ v = ap (λ p. p.1) run in
          (
            rw (← same) (get-delete name w (deletes name w there)),
            λ other d. rw (← same) (get-delete-other name other w d),
          )
    ]

    abbrev AreServed : W → Type 0
    AreServed w =
        (client.get "zookeeper-server-tls" w ≢ missing)
        × (client.get "zookeeper-client-tls" w ≢ missing)

    abbrev both_wiped : W → W
    both_wiped w = wiped "zookeeper-server-tls" (wiped "zookeeper-client-tls" w)

    abbrev Refuses : W → Type 0
    Refuses w =
        (e : String) × (rotate_zookeeper_tls_secrets w ≡ (ret (some e), w))
        × ((client.get "zookeeper-server-tls" w ≡ missing)
            ⊎ (client.get "zookeeper-client-tls" w ≡ missing))

    server_left :
        (w : W)
        → AreServed w
        → client.get "zookeeper-server-tls" (wiped "zookeeper-client-tls" w) ≢ missing
    server_left w served e =
        served.0 (sym (get-delete-other "zookeeper-client-tls" "zookeeper-server-tls" w refl) ∙ e)

    rotate_zookeeper_tls_secrets-cases :
        (w : W)
        → (AreServed w × (rotate_zookeeper_tls_secrets w ≡ (ret none, both_wiped w))) ⊎ Refuses w
    unfolding rotate_zookeeper_tls_secrets
    rotate_zookeeper_tls_secrets-cases w = elim (Got-cases (client.get "zookeeper-server-tls" w)) [
      | inr (inr g) ↦ absurd (up.reads "zookeeper-server-tls" w g)
      | inr (inl g) ↦ inr (
        "missing zookeeper server secret",
        rw (get_or_die-missing client r "zookeeper-server-tls" w g) refl,
        inl g,
      )
      | inl (s, g) ↦ elim (Got-cases (client.get "zookeeper-client-tls" w)) [
        | inr (inr g') ↦ absurd (up.reads "zookeeper-client-tls" w g')
        | inr (inl g') ↦ inr (
          "missing zookeeper client secret",
          rw
              (
                get_or_die-found client r "zookeeper-server-tls" w g,
                get_or_die-missing client r "zookeeper-client-tls" w g',
              )
              refl,
          inr g',
        )
        | inl (t, g') ↦
            let served : AreServed w = (λ e. cc, λ e. cc) in
            inl (
              served,
              rw
                  (
                    get_or_die-found client r "zookeeper-server-tls" w g,
                    get_or_die-found client r "zookeeper-client-tls" w g',
                    delete_found "zookeeper-client-tls" w served.1,
                    delete_found "zookeeper-server-tls" (wiped "zookeeper-client-tls" w)
                        (server_left w served),
                  )
                  refl,
            )
      ]
    ]

    both_wiped_gone :
        (w : W)
        → AreServed w
        → (client.get "zookeeper-server-tls" (both_wiped w) ≡ missing)
          × (client.get "zookeeper-client-tls" (both_wiped w) ≡ missing)
    both_wiped_gone w served =
        let u = wiped "zookeeper-client-tls" w in
        (
          get-delete "zookeeper-server-tls" u
              (deletes "zookeeper-server-tls" u (server_left w served)),
          get-delete-other "zookeeper-server-tls" "zookeeper-client-tls" u refl
              ∙ get-delete "zookeeper-client-tls" w (deletes "zookeeper-client-tls" w served.1),
        )

    -- On a server that answers, outside a dry run: the two certificates are rotated together. Either
    -- both were served and then neither is, or one was missing, there is an error and nothing is
    -- written.
    pub rotate_zookeeper_tls_secrets-Together :
        (w : W)
        → ((v : W) × (rotate_zookeeper_tls_secrets w ≡ (ret none, v))
            × AreServed w
            × (client.get "zookeeper-server-tls" v ≡ missing)
            × (client.get "zookeeper-client-tls" v ≡ missing))
          ⊎ ((e : String) × (rotate_zookeeper_tls_secrets w ≡ (ret (some e), w))
              × ((client.get "zookeeper-server-tls" w ≡ missing)
                  ⊎ (client.get "zookeeper-client-tls" w ≡ missing)))
    rotate_zookeeper_tls_secrets-Together w = elim (rotate_zookeeper_tls_secrets-cases w) [
      | inr refused ↦ inr refused
      | inl (served, run) ↦
          let (server, tls) = both_wiped_gone w served in
          inl (both_wiped w, run, served, server, tls)
    ]

    -- Without an error both certificates are gone, and every other object is as it was.
    pub rotate_zookeeper_tls_secrets_lem :
        (w : W) {v : W}
        → rotate_zookeeper_tls_secrets w ≡ (ret none, v)
        → (client.get "zookeeper-server-tls" v ≡ missing)
          × (client.get "zookeeper-client-tls" v ≡ missing)
          × ((name : String)
              → ("zookeeper-server-tls" == name) ≡ false
              → ("zookeeper-client-tls" == name) ≡ false
              → client.get name v ≡ client.get name w)
    rotate_zookeeper_tls_secrets_lem w {v = v} h = elim (rotate_zookeeper_tls_secrets-cases w) [
      | inr (e, run, _) ↦ cc
      | inl (served, run) ↦
          let same : both_wiped w ≡ v = cc in
          let (server, tls) = both_wiped_gone w served in
          (
            rw (← same) server,
            rw (← same) tls,
            λ name s t. rw (← same) (
                get-delete-other "zookeeper-server-tls" name (wiped "zookeeper-client-tls" w) s
                ∙ get-delete-other "zookeeper-client-tls" name w t),
          )
    ]
