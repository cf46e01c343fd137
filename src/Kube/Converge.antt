-- ===== src/Kube/Converge.antt =====
-- The shape of the Ensure functions: the state after a call, and a second call.
use sf_operator.Common.{
  String, ◌≡◌, refl, ◌≢◌, sym, ap, ◌∙◌, Bool, true, false, none, some, arith, if◌then◌else◌,
  Bool-cases, inl, inr,
}
use mathlib.Core.Path.{subst₃}
use sf_operator.Kube.Exec.{>>=-eq-ret, ret, panic, pure}
use sf_operator.Kube.Client.{Got-cases, already_exists, found, missing, failed, Client, Context}
use sf_operator.Kube.Laws.{Serves, Persists, IsAvailable}
use sf_operator.Kube.Crud.{get_or_die, create_r, update_r, update_object, updated_to}
use sf_operator.Kube.Ensure.{ensure_object}

module _ {W A : Type 0} (client : Client W A) (r : Context) (name : String) (desired : A)
    (same : A → Bool) (patch : A → A) (w : W) where
  open client use {get}

  ensure_object_of_found :
      {a : A}
      → get name w ≡ found a
      → ensure_object client r name desired same patch w
        ≡ (if same a then pure a else update_object client r (patch a)) w
  unfolding ensure_object
  ensure_object_of_found g = rw (g, get_or_die)

  ensure_object_of_missing :
      get name w ≡ missing
      → ensure_object client r name desired same patch w ≡ create_r client r desired w
  unfolding ensure_object
  ensure_object_of_missing g = rw (g, get_or_die)

  ensure_object_of_failed :
      get name w ≡ failed → ensure_object client r name desired same patch w ≡ (panic, w)
  unfolding ensure_object
  ensure_object_of_failed g = rw (g, get_or_die)

  -- An object that is the same already is returned, and nothing is written.
  pub ensure_object_same :
      {a : A}
      → get name w ≡ found a
      → same a ≡ true
      → ensure_object client r name desired same patch w ≡ (ret a, w)
  ensure_object_same g s = ensure_object_of_found g ∙ rw s

module _ {W A P : Type 0} (client : Client W A) (content : A → P) (laws : Persists client content)
    (r : Context) where
  open client use {name_of, set_owner, get, create, update}

  create_r-no_error :
      (o : A) (w : W) {c : A} {w' : W}
      → r.dry_run ≡ false
      → (create false (set_owner r.standalone o) w).0.error ≢ some already_exists
      → create_r client r o w ≡ (ret c, w')
      → ((create false (set_owner r.standalone o) w).0.error ≡ none)
        × (w' ≡ (create false (set_owner r.standalone o) w).1)
  unfolding create_r
  create_r-no_error o w d h e = (ground arith, ground arith)

  update_r-no_error :
      (o : A) (w : W) {c : Bool} {w' : W}
      → r.dry_run ≡ false
      → update_r client r o w ≡ (ret c, w')
      → ((update false (set_owner r.standalone o) w).0.error ≡ none)
        × (w' ≡ (update false (set_owner r.standalone o) w).1)
  unfolding update_r
  update_r-no_error o w d e = (ground arith, ground arith)

  pub create_r-Serves :
      (o : A) (w : W) {c : A} {w' : W}
      → r.dry_run ≡ false
      → get (name_of o) w ≡ missing
      → create_r client r o w ≡ (ret c, w')
      → Serves client content (name_of o) (content o) w'
  create_r-Serves o w d m e =
      let o' = set_owner r.standalone o in
      let n = laws.name-set_owner r.standalone o in
      let done = create_r-no_error o w d (laws.create_new o' w (rw n m)) e in
      rw (done.1, ← n, ← laws.content-set_owner r.standalone o) (laws.get-create o' w done.0)

  pub update_r-Serves :
      (o : A) (w : W) {c : Bool} {w' : W}
      → r.dry_run ≡ false
      → update_r client r o w ≡ (ret c, w')
      → Serves client content (name_of o) (content o) w'
  update_r-Serves o w d e =
      let o' = set_owner r.standalone o in
      let n = laws.name-set_owner r.standalone o in
      let done = update_r-no_error o w d e in
      rw (done.1, ← n, ← laws.content-set_owner r.standalone o) (laws.get-update o' w done.0)

  module _ (up : IsAvailable client) (live : r.dry_run ≡ false) where
    pub create_r_returns :
        (o : A) (w : W)
        → get (name_of o) w ≡ missing
        → create_r client r o w ≡ (
          ret (create false (set_owner r.standalone o) w).0.object,
          (create false (set_owner r.standalone o) w).1,
        )
    unfolding create_r
    create_r_returns o w m = ground (
      arith,
      live,
      up.creates (set_owner r.standalone o) w,
      laws.name-set_owner r.standalone o,
      m,
    )

    pub update_r_returns :
        (o : A) (w : W)
        → get (name_of o) w ≢ missing
        → update_r client r o w ≡ (ret true, (update false (set_owner r.standalone o) w).1)
    unfolding update_r
    update_r_returns o w f =
        let u : (update false (set_owner r.standalone o) w).0.error ≡ none =
          up.updates (set_owner r.standalone o) w
            (λ m. f (rw (← laws.name-set_owner r.standalone o) m)) in
        ground (arith, live)

    pub update_object_returns :
        (o : A) (w : W)
        → get (name_of o) w ≢ missing
        → update_object client r o w
          ≡ (ret (updated_to client r o w), (update false (set_owner r.standalone o) w).1)
    unfolding update_object
    update_object_returns o w f = rw (update_r_returns o w f) refl

  -- An object that is served with the desired content is the same for the test of the caller.
  module _ (name : String) (desired : A) (same : A → Bool) (patch : A → A)
      (named : name_of desired ≡ name)
      (patched : (a : A) → (name_of (patch a) ≡ name_of a) × (content (patch a) ≡ content desired))
      (passes : (b : A) (w : W)
        → get name w ≡ found b
        → content b ≡ content desired
        → same b ≡ true)
      (live : r.dry_run ≡ false) where
    -- The server serves an object of the name that passes the test.
    abbrev Meets : W → Type 0
    Meets w = (b : A) × (get name w ≡ found b) × (same b ≡ true)

    Meets-Serves : {w : W} → Serves client content name (content desired) w → Meets w
    Meets-Serves {w = w} (b, g, e) = (b, g, passes b w g e)

    update_Meets :
        (w : W) {a c : A} {w' : W}
        → get name w ≡ found a
        → update_object client r (patch a) w ≡ (ret c, w')
        → Meets w'
    unfolding update_object
    update_Meets w {a = a} g e =
        let (b, v, first, last) =
          >>=-eq-ret (update_r client r (patch a)) (λ _. pure (updated_to client r (patch a) w)) w
            e in
        let s = update_r-Serves (patch a) w live first in
        Meets-Serves (
          subst₃ (λ n p u. Serves client content n p u) ((patched a).0 ∙ laws.get-name name w g)
            ((patched a).1) (ap (λ o. o.1) last) s)

    -- A call that returns leaves an object that passes the test.
    pub ensure_object-Meets :
        (w : W) {c : A} {w' : W}
        → ensure_object client r name desired same patch w ≡ (ret c, w')
        → Meets w'
    ensure_object-Meets w e = elim (Got-cases (get name w)) [
      | inl (a, g) ↦ elim (Bool-cases (same a)) [
        | inl passed ↦ (
          a,
          ap (λ o. get name o.1)
                (sym (sym (ensure_object_same client r name desired _ patch w g passed) ∙ e))
              ∙ g,
          passed,
        )
        | inr differs ↦
            update_Meets w g
              (sym (ensure_object_of_found client r name desired _ patch w g ∙ rw differs) ∙ e)
      ]
      | inr (inl m) ↦ Meets-Serves (
          rw (← named) (
            create_r-Serves desired w live (rw named m)
              (sym (ensure_object_of_missing client r name desired _ patch w m) ∙ e)))
      | inr (inr f) ↦ cc (ensure_object_of_failed client r name desired same patch w f)
    ]

    -- After a call that returns, a second one returns the object and writes nothing.
    pub ensure_object_settles :
        (w : W) {c : A} {w' : W}
        → ensure_object client r name desired same patch w ≡ (ret c, w')
        → (b : A) × (get name w' ≡ found b)
          × (same b ≡ true)
          × (ensure_object client r name desired same patch w' ≡ (ret b, w'))
    ensure_object_settles w {w' = w'} e =
        let (b, g, t) = ensure_object-Meets w e in
        (b, g, t, ensure_object_same client r name desired _ patch w' g t)

    module _ (up : IsAvailable client) where
      -- A server that answers gets the call to return.
      pub ensure_object_returns :
          (w : W)
          → (c : A) × (w' : W) × (ensure_object client r name desired same patch w ≡ (ret c, w'))
      ensure_object_returns w = elim (Got-cases (get name w)) [
        | inl (a, g) ↦ elim (Bool-cases (same a)) [
          | inl passed ↦ (a, w, ensure_object_same client r name desired _ patch w g passed)
          | inr differs ↦ (
            updated_to client r (patch a) w,
            (update false (set_owner r.standalone (patch a)) w).1,
            ensure_object_of_found client r name desired _ patch w g
                ∙ rw (
                  differs,
                  update_object_returns up live (patch a) w
                      (λ m. cc ((patched a).0, laws.get-name name w g, g, m)),
                ),
          )
        ]
        | inr (inl m) ↦ (
          (create false (set_owner r.standalone desired) w).0.object,
          (create false (set_owner r.standalone desired) w).1,
          ensure_object_of_missing client r name desired _ patch w m
              ∙ create_r_returns up live desired w (rw named m),
        )
        | inr (inr f) ↦ absurd (up.reads name w f)
      ]
