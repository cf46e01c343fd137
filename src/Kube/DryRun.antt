-- ===== src/Kube/DryRun.antt =====
-- The Ensure functions and DeleteSecret in a dry run.
use sf_operator.Common.{String, ◌≡◌, refl, ◌∙◌, Bool, true, false, none, some, arith, if◌then◌else◌}
use sf_operator.Kube.Exec.{Exec, Outcome, ret, panic, pure, ◌>>=◌}
use sf_operator.Kube.Client.{Client, Context}
use sf_operator.Kube.Laws.{IsDry}
use sf_operator.Kube.Objects.{GoMap, ConfigMap, Secret}
use sf_operator.Kube.Crud.{get_or_die, create_r, update_r, update_object, updated_to, delete_r}
use sf_operator.Kube.Ensure.{
  delete_secret, ensure_object, ensure_config_map, ensure_secret, ensure_secret_uuid,
  ensure_ssh_key_secret, delete_secret,
}

-- The action leaves the state as it was, whether it returns or panics.
pub record IsInert {W A : Type 0} (m : Exec W A) : Type 0 where
  pub at : (w : W) → (m w).1 ≡ w

abbrev continue_from : {W A B : Type 0} → Outcome A → (A → Exec W B) → Exec W B
continue_from (ret a) f v = f a v
continue_from panic f v = (panic, v)

module _ {W A : Type 0} where
  pub IsInert-pure : (a : A) → IsInert {W = W} (pure a)
  IsInert-pure a = record { at = λ w. refl }

module _ {W A B : Type 0} where
  continue-eq :
      {w : W} (o : Outcome A) (f : A → Exec W B) (v : W)
      → ((a : A) → IsInert (f a))
      → v ≡ w
      → (continue_from o f v).1 ≡ w
  continue-eq (ret a) f v j e = (j a).at v ∙ e
  continue-eq panic f v j e = e

  pub IsInert-bind :
      (m : Exec W A) (f : A → Exec W B) → IsInert m → ((a : A) → IsInert (f a)) → IsInert (m >>= f)
  IsInert-bind m f i j = record { at = λ w. continue-eq (m w).0 f (m w).1 j (i.at w) }

module _ {W A : Type 0} (client : Client W A) (dry : IsDry client) (r : Context)
    (on : r.dry_run ≡ true) where
  get_or_die-IsInert : (name : String) → IsInert (get_or_die client r name)
  unfolding get_or_die
  get_or_die-IsInert name = record { at = λ w. ground arith }

  create_r-IsInert : (o : A) → IsInert (create_r client r o)
  unfolding create_r
  create_r-IsInert o = record {
    at = λ w. ground (arith, dry.dry_create (client.set_owner r.standalone o) w);
  }

  update_r-IsInert : (o : A) → IsInert (update_r client r o)
  unfolding update_r
  update_r-IsInert o = record {
    at = λ w. ground (arith, dry.dry_update (client.set_owner r.standalone o) w);
  }

  delete_r-IsInert : (name : String) → IsInert (delete_r client r name)
  unfolding delete_r
  delete_r-IsInert name = record { at = λ w. ground (arith, dry.dry_delete name w) }

  if-IsInert :
      {B : Type 0} (b : Bool) (m n : Exec W B)
      → IsInert m
      → IsInert n
      → IsInert (if b then m else n)
  if-IsInert true m n i j = i
  if-IsInert false m n i j = j

  update_object-IsInert : (o : A) → IsInert (update_object client r o)
  unfolding update_object
  update_object-IsInert o = record {
    at = λ w.
        (IsInert-bind (update_r client r o) (λ _. pure (updated_to client r o w))
            (update_r-IsInert o) (λ _. IsInert-pure (updated_to client r o w))).at
          w;
  }

  ensure_object-IsInert :
      (name : String) (desired : A) (same : A → Bool) (patch : A → A)
      → IsInert (ensure_object client r name desired same patch)
  unfolding ensure_object
  ensure_object-IsInert name desired same patch =
      IsInert-bind (get_or_die client r name) _ (get_or_die-IsInert name) elim [
        | none ↦ create_r-IsInert desired
        | some c ↦ if-IsInert (same c) _ _ (IsInert-pure c) (update_object-IsInert (patch c))
      ]

-- In a dry run, on a server that persists none, the config maps and secrets that are ensured, created
-- or deleted leave the cluster as it was, whatever the server answers.
pub dry_run-IsInert :
    {W V : Type 0} (maps : Client W ConfigMap) (secrets : Client V Secret) (r : Context)
    → IsDry maps
    → IsDry secrets
    → r.dry_run ≡ true
    → (base_name name value : String) (contents : GoMap) (secret : Secret) (keys : String × String)
    → IsInert (ensure_config_map maps r base_name contents)
      × IsInert (ensure_secret secrets r secret)
      × IsInert (ensure_secret_uuid secrets r name value)
      × IsInert (ensure_ssh_key_secret secrets r name keys)
      × IsInert (delete_secret secrets r name)
unfolding ensure_config_map ensure_secret ensure_secret_uuid ensure_ssh_key_secret delete_secret
dry_run-IsInert maps secrets r dm ds on base_name name value contents secret keys = (
  ensure_object-IsInert maps dm r on _ _ _ _,
  IsInert-bind _ _ (ensure_object-IsInert secrets ds r on _ _ _ _) (λ _. IsInert-pure tt),
  IsInert-bind (get_or_die secrets r name) _ (get_or_die-IsInert secrets ds r on name)
      elim [ none ↦ create_r-IsInert secrets ds r on _ | some c ↦ IsInert-pure c ],
  IsInert-bind (get_or_die secrets r name) _ (get_or_die-IsInert secrets ds r on name)
      elim [ none ↦ create_r-IsInert secrets ds r on _ | some c ↦ IsInert-pure c ],
  delete_r-IsInert secrets ds r on name,
)
