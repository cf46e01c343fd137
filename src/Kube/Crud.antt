-- ===== src/Kube/Crud.antt =====
-- Get, GetOrDie, CreateR, UpdateR, DeleteR and GetOrCreate. Messages to the log are left out.
use sf_operator.Common.{String, Bool, true, false, Option, none, some}
use sf_operator.Kube.Exec.{Exec, ret, panic, pure, die, ◌>>=◌, ◌>>◌}
use sf_operator.Kube.Client.{
  ApiError, not_found, already_exists, other, found, missing, failed, Reply, Client, Context,
}

module _ {W A : Type 0} (client : Client W A) (r : Context) where
  open client use {name_of, set_owner, get, create, update, delete}

  -- The object, if there is one; any error but the missing object is a panic.
  unfoldable pub get_or_die : String → Exec W (Option A)
  get_or_die name w = elim (get name w) [
    | found a ↦ (ret (some a), w)
    | missing ↦ (ret none, w)
    | failed ↦ (panic, w)
  ]

  -- The object that exists already is no error.
  abbrev created : Reply A → Exec W A
  created reply = elim reply.error [
    | none ↦ pure reply.object
    | some e ↦ elim e [ already_exists ↦ pure reply.object | not_found ↦ die | other _ ↦ die ]
  ]

  unfoldable pub create_r : A → Exec W A
  create_r obj w =
      let (reply, w') = create r.dry_run (set_owner r.standalone obj) w in created reply w'

  -- A missing object is no error in a dry run, where it may not have been created.
  abbrev updated : Bool → Reply A → Exec W Bool
  updated dry_run reply = elim reply.error [
    | none ↦ pure true
    | some e ↦ elim e [
      | not_found ↦ elim dry_run [ true ↦ pure true | false ↦ die ]
      | already_exists ↦ die
      | other _ ↦ die
    ]
  ]

  unfoldable pub update_r : A → Exec W Bool
  update_r obj w =
      let (reply, w') = update r.dry_run (set_owner r.standalone obj) w in
      updated r.dry_run reply w'

  -- What the caller's variable holds after UpdateR: the object as the server has filled it in, or after
  -- an error the object that was sent.
  abbrev pub updated_to : A → W → A
  updated_to obj w =
      let owned = set_owner r.standalone obj in
      let reply = (update r.dry_run owned w).0 in
      elim reply.error [ none ↦ reply.object | some _ ↦ owned ]

  -- UpdateR, and then the variable.
  unfoldable pub update_object : A → Exec W A
  unfolding update_r
  update_object obj w = (update_r obj >>= λ _. pure (updated_to obj w)) w

  -- A missing object is no error.
  abbrev deleted : Option ApiError → Exec W (Unit {0})
  deleted error = elim error [
    | none ↦ pure tt
    | some e ↦ elim e [ not_found ↦ pure tt | already_exists ↦ die | other _ ↦ die ]
  ]

  unfoldable pub delete_r : String → Exec W (Unit {0})
  delete_r name w = let (error, w') = delete r.dry_run name w in deleted error w'

  -- True if the object existed, and then it is left as it is.
  unfoldable pub get_or_create : A → Exec W Bool
  unfolding get_or_die create_r
  get_or_create obj = do
    current ← get_or_die (name_of obj)
    elim current [ some _ ↦ pure true | none ↦ create_r obj >> pure false ]
