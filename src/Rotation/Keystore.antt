-- ===== src/Rotation/Keystore.antt =====
-- rotateKeystorePassword: the keys of Zuul are encrypted again with a new password.
use sf_operator.Common.{if◌then◌else◌, String, ◌≡◌, Option, none, some, List, [], ◌∷◌}
use sf_operator.Common.Assoc.{Assoc, insert}
use sf_operator.Kube.Exec.{Outcome, Exec, ret, panic, pure, die, ◌>>=◌, ◌>>◌}
use sf_operator.Kube.Client.{Client, Context}
use sf_operator.Kube.Objects.{Secret}
use sf_operator.Kube.Crud.{get_or_die, update_r, delete_r}
use sf_operator.Kube.Ensure.{ensure_secret_uuid}
use sf_operator.Reconcile.Secrets.{data_at}

-- What the rotation does in the pod zuul-kazoo and on the local disk. A command gives its error.
pub record Kazoo (W : Type 0) : Type 0 where
  -- WaitFor(r.EnsureKazooPod)
  pub wait : Exec W (Unit {0})
  pub delete_pod : Exec W (Unit {0})
  pub run_pod_cmd : List String → Exec W (Option String)
  -- The two commands that save the previous keys and the old password.
  pub save_backup : String → Exec W (Unit {0})

-- `defer`: what is deferred runs at the end, after a panic too.
abbrev pub finish : {W A : Type 0} → Outcome A → Exec W (Unit {0}) → W → Outcome A × W
finish r later w = let (done, w') = later w in elim done [ ret _ ↦ (r, w') | panic ↦ (panic, w') ]

abbrev pub deferred : {W A : Type 0} → Exec W (Unit {0}) → Exec W A → Exec W A
deferred later m w = let (r, w') = m w in finish r later w'

module _ {W : Type 0} (client : Client W Secret) (r : Context) (kazoo : Kazoo W) where
  open kazoo use {wait, delete_pod, run_pod_cmd, save_backup}

  -- The data of the secret with the new password; an assignment to a nil map panics.
  unfoldable pub with_password : String → Assoc String → Assoc String
  with_password password m =
      insert "zuul-keystore-password" password
        (insert "zuul-keystore-password-old" (data_at "zuul-keystore-password" (some m)) m)

  -- Update secret.
  unfoldable pub save_password : Secret → Secret → Exec W (Option String)
  unfolding with_password
  save_password secret tmp = elim secret.contents [
    | none ↦ die
    | some m ↦ do
      let password = data_at "zuul-keystore-password-new" tmp.contents
      saved ← update_r client r (record secret { contents = some (with_password password m) })
      if saved
          then (delete_r client r "zuul-keystore-password-new" >> pure none)
          else pure (some "couldn't save the new secret")
  ]

  -- What stands after the defer.
  abbrev body : Secret → Secret → Exec W (Option String)
  body secret tmp = do
    let old_password = data_at "zuul-keystore-password" secret.contents
    let new_password = data_at "zuul-keystore-password-new" tmp.contents
    err ←
        run_pod_cmd
          ("python3" ∷ "/usr/local/bin/rotate-keystore.py" ∷ old_password ∷ new_password ∷ [])
    elim err [
      | some e ↦ pure (some e)
      | none ↦ save_backup old_password >> save_password secret tmp
    ]

  unfoldable pub rotate_keys : Secret → Secret → Exec W (Option String)
  unfolding save_password
  rotate_keys secret tmp = deferred delete_pod (body secret tmp)

  -- `uuid` is what uuid.New().String() returns; `some` is the error.
  unfoldable pub rotate_keystore_password : String → Exec W (Option String)
  unfolding rotate_keys
  rotate_keystore_password uuid = do
    pending ← get_or_die client r "zuul-keystore-password-new"
    elim pending [
      | some _ ↦ pure (some "existing zuul-keystore-password-new found")
      | none ↦ get_or_die client r "zuul-keystore-password" >>= λ current. elim current [
        | none ↦ pure (some "missing zuul-keystore-password secret")
        | some secret ↦ ensure_secret_uuid client r "zuul-keystore-password-new" uuid >>= λ tmp.
            wait >> rotate_keys secret tmp
      ]
    ]

  -- Steps that leave the secrets as they are.
  abbrev pub IsQuiet : {A : Type 0} → Exec W A → Type 0
  IsQuiet m = (name : String) (w : W) → client.get name (m w).1 ≡ client.get name w
