-- ===== src/Rotation/Order.antt =====
-- DoRotateSecrets: the rotations one after the other, and the pods that read the secrets.
use text.Mathlib.Text.{starts_with}
use sf_operator.Common.{
  if◌then◌else◌, String, ◌≡◌, refl, ◌∙◌, ap, false, ◌||◌, arith, Option, none, some, List, [], ◌∷◌,
  inl, inr, ◌⊎◌, Bool, Bool-cases,
}
use sf_operator.Kube.Exec.{Exec, ret, pure, >>=-eq-ret, ◌>>=◌, ◌>>◌}
use sf_operator.Kube.Client.{Client, Context, missing}
use sf_operator.Kube.Laws.{Deletes, IsAvailable, Persists, Serves}
use sf_operator.Kube.Objects.{ConfigMap, Secret}
use sf_operator.Kube.Crud.{create_r, delete_r}
use sf_operator.Kube.Reads.{get_or_die-missing}
use sf_operator.Kube.Converge.{create_r-Serves}
use sf_operator.Kube.Ensure.{ensure_secret_uuid, ensure_secret_from_func, mk_secret_from_func}
use sf_operator.Reconcile.Cleanup.{NamedPod, nuke_zk}
use sf_operator.Rotation.Secrets.{
  delete_secret_or_error, rotate_zookeeper_tls_secrets, rotate_zuul_db_connection_secret,
  rotate_zuul_authenticator_secret, delete_secret_or_error_lem, rotate_zookeeper_tls_secrets_lem,
}
use sf_operator.Rotation.Errors.{or_return, then_return, quiet_then}
use sf_operator.Rotation.Keystore.{Kazoo, rotate_keystore_password}

module _ {W D S P : Type 0} (secrets : Client W Secret) (deployments : Client W D)
    (statefulsets : Client W S) (maps : Client W ConfigMap) (pods : Client W P) (r : Context)
    (kazoo : Kazoo W) (named_pods : W → List NamedPod) (kill : String → String → W → W) where
  unfoldable pub restart_pods : List String → Exec W (Unit {0})
  restart_pods [] = pure tt
  restart_pods (name ∷ names) =
      let rest = restart_pods names in
      if starts_with name "zuul-scheduler" || starts_with name "zuul-web-"
      then delete_r pods r name >> rest
      else rest

  -- What follows the rotation of the keystore.
  unfoldable pub rotate_others : String → List String → Exec W (Option String)
  unfolding restart_pods
  rotate_others auth names = rotate_zuul_authenticator_secret secrets r auth >>= λ failed_auth.
      or_return failed_auth (
        rotate_zuul_db_connection_secret secrets r >>= λ failed_db. or_return failed_db (
          rotate_zookeeper_tls_secrets secrets r >>= λ failed_tls.
          or_return failed_tls (restart_pods names >> pure none)))

  unfoldable pub rotate_all : String → String → List String → Exec W (Option String)
  unfolding rotate_others
  rotate_all password auth names =
      rotate_keystore_password secrets r kazoo password >>= λ failed_key.
      or_return failed_key (
        nuke_zk deployments statefulsets secrets maps r named_pods kill >> rotate_others auth names)

  -- The warning about executors that run is left out. `listed` is what r.List gives of the pods, an
  -- error on the left. The two other texts are what uuid.New().String() returns.
  unfoldable pub do_rotate_secrets :
      (W → String ⊎ List String) → String → String → Exec W (Option String)
  unfolding rotate_all
  do_rotate_secrets listed password auth w = elim (listed w) [
    | inl e ↦ pure (some e) w
    | inr names ↦ rotate_all password auth names w
  ]

  module _ (live : r.dry_run ≡ false) (up : IsAvailable secrets) (laws : Deletes secrets)
      (keeps : Persists secrets (λ c. c.contents))
      (named : (o : Secret) → secrets.name_of o ≡ o.name)
      (quiet : (mode : Bool) (pod name : String) (w : W)
        → secrets.get name (pods.delete mode pod w).1 ≡ secrets.get name w) where
    delete_pod-quiet :
        (pod name : String) (w : W)
        → secrets.get name (delete_r pods r pod w).1 ≡ secrets.get name w
    unfolding delete_r
    delete_pod-quiet pod name w = ground (arith, quiet r.dry_run pod name w)

    restart_pods-quiet :
        (names : List String) (name : String) (w : W)
        → secrets.get name (restart_pods names w).1 ≡ secrets.get name w
    unfolding restart_pods
    restart_pods-quiet [] name w = refl
    restart_pods-quiet (pod ∷ names) name w =
        elim (Bool-cases (starts_with pod "zuul-scheduler" || starts_with pod "zuul-web-")) [
          | inl e ↦ rw e (
              quiet_then (secrets.get name) (delete_r pods r pod) (restart_pods names)
                (delete_pod-quiet pod name) (restart_pods-quiet names name) w)
          | inr e ↦ rw e (restart_pods-quiet names name w)
        ]

    ensure_secret_uuid-Serves :
        (name uuid : String) (u : W) {s : Secret} {v : W}
        → secrets.get name u ≡ missing
        → ensure_secret_uuid secrets r name uuid u ≡ (ret s, v)
        → Serves secrets (λ c. c.contents) name (some ((name, uuid) ∷ [])) v
    unfolding ensure_secret_uuid ensure_secret_from_func
    ensure_secret_uuid-Serves name uuid u {s = s} {v = v} g run =
        let o = mk_secret_from_func name r.ns uuid in
        let made : create_r secrets r o u ≡ (ret s, v) =
          rw (get_or_die-missing secrets r name u g) at run in
        rw (named o) at
          (create_r-Serves secrets (λ c. c.contents) keeps r o u live (rw (named o) g) made)

    -- The secret of the authenticator is deleted and made again.
    rotate_zuul_authenticator_secret-Serves :
        (auth : String) (w : W) {v : W}
        → rotate_zuul_authenticator_secret secrets r auth w ≡ (ret none, v)
        → Serves secrets
            (λ c. c.contents)
            "zuul-auth-secret"
            (some (("zuul-auth-secret", auth) ∷ []))
            v
    unfolding rotate_zuul_authenticator_secret
    rotate_zuul_authenticator_secret-Serves auth w {v = v} h =
        let (u, gone, made) =
          then_return (delete_secret_or_error secrets r "zuul-auth-secret")
            (ensure_secret_uuid secrets r "zuul-auth-secret" auth >> pure none) w h in
        let (missing_now, _) =
          delete_secret_or_error_lem secrets r live up laws "zuul-auth-secret" w gone in
        let (s, x, run, done) =
          >>=-eq-ret (ensure_secret_uuid secrets r "zuul-auth-secret" auth) (λ _. pure none) u
            made in
        let same : x ≡ v = cc in
        rw same at (ensure_secret_uuid-Serves "zuul-auth-secret" auth u missing_now run)

    -- What holds after the rotations that follow the keystore.
    abbrev IsRotated : String → W → Type 0
    IsRotated auth v =
        Serves secrets (λ c. c.contents) "zuul-auth-secret" (some (("zuul-auth-secret", auth) ∷ []))
          v
        × (secrets.get "zuul-db-connection" v ≡ missing)
        × (secrets.get "zookeeper-server-tls" v ≡ missing)
        × (secrets.get "zookeeper-client-tls" v ≡ missing)

    rotate_others-IsRotated :
        (auth : String) (names : List String) (w : W) {v : W}
        → rotate_others auth names w ≡ (ret none, v)
        → IsRotated auth v
    unfolding rotate_others rotate_zuul_db_connection_secret
    rotate_others-IsRotated auth names w {v = v} h =
        let (a, made, h₁) = then_return (rotate_zuul_authenticator_secret secrets r auth) _ w h in
        let (b, db, h₂) = then_return (rotate_zuul_db_connection_secret secrets r) _ a h₁ in
        let (c, tls, h₃) = then_return (rotate_zookeeper_tls_secrets secrets r) _ b h₂ in
        let (gone, db_other) =
          delete_secret_or_error_lem secrets r live up laws "zuul-db-connection" a db in
        let (server, client, tls_other) =
          rotate_zookeeper_tls_secrets_lem secrets r live up laws b tls in
        let (_, x, restarted, done) = >>=-eq-ret (restart_pods names) (λ _. pure none) c h₃ in
        let kept : (name : String) → secrets.get name v ≡ secrets.get name c = λ name.
          let same : x ≡ v = cc in
          let state : (restart_pods names c).1 ≡ v = ap (λ p. p.1) restarted ∙ same in
          rw state at (restart_pods-quiet names name c) in
        let (s, at_a, fresh) = rotate_zuul_authenticator_secret-Serves auth w made in
        (
          (
            s,
            kept "zuul-auth-secret"
                ∙ (tls_other "zuul-auth-secret" refl refl
                    ∙ (db_other "zuul-auth-secret" refl ∙ at_a)),
            fresh,
          ),
          kept "zuul-db-connection" ∙ (tls_other "zuul-db-connection" refl refl ∙ gone),
          kept "zookeeper-server-tls" ∙ server,
          kept "zookeeper-client-tls" ∙ client,
        )

    listed-cases :
        (l : String ⊎ List String)
        → ((e : String) × (l ≡ inl e)) ⊎ ((names : List String) × (l ≡ inr names))
    listed-cases (inl e) = inl (e, refl)
    listed-cases (inr names) = inr (names, refl)

    -- On a server that answers and persists, outside a dry run, and if the deletion of a pod changes no
    -- secret: after a rotation without an error the authenticator has the new text, and the secrets of
    -- the database and of ZooKeeper are gone, so that a reconcile makes new ones. Neither the restart
    -- of the pods nor a later rotation undoes an earlier one.
    pub do_rotate_secrets-IsRotated :
        (listed : W → String ⊎ List String) (password auth : String) (w : W) {v : W}
        → do_rotate_secrets listed password auth w ≡ (ret none, v)
        → IsRotated auth v
    unfolding do_rotate_secrets rotate_all
    do_rotate_secrets-IsRotated listed password auth w {v = v} h = elim (listed-cases (listed w)) [
      | inl (e, l) ↦ (let run = (rw (do_rotate_secrets, l) at h) in cc)
      | inr (names, l) ↦
          let (u, key, rest) =
            then_return (rotate_keystore_password secrets r kazoo password) _ w
              (rw (do_rotate_secrets, l) at h) in
          let (_, x, nuked, others) =
            >>=-eq-ret (nuke_zk deployments statefulsets secrets maps r named_pods kill) _ u rest in
          rotate_others-IsRotated auth names x others
    ]
