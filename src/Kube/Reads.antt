-- ===== src/Kube/Reads.antt =====
-- GetOrDie on an object that is served, and on one that is missing.
use sf_operator.Common.{String, ◌≡◌, refl, Option, none, some, arith, inl, inr}
use sf_operator.Kube.Exec.{ret}
use sf_operator.Kube.Client.{Client, Context, found, missing, Got-cases}
use sf_operator.Kube.Crud.{get_or_die}

module _ {W A : Type 0} (client : Client W A) (r : Context) where
  pub get_or_die-found :
      (name : String) (w : W) {a : A}
      → client.get name w ≡ found a
      → get_or_die client r name w ≡ (ret (some a), w)
  unfolding get_or_die
  get_or_die-found name w g = rw (g, get_or_die) refl

  pub get_or_die-missing :
      (name : String) (w : W)
      → client.get name w ≡ missing
      → get_or_die client r name w ≡ (ret none, w)
  unfolding get_or_die
  get_or_die-missing name w g = rw (g, get_or_die) refl

  -- What it gives was served, and nothing is written.
  pub get_or_die-eq-some :
      (name : String) (w : W) {a : A} {v : W}
      → get_or_die client r name w ≡ (ret (some a), v)
      → (client.get name w ≡ found a) × (v ≡ w)
  unfolding get_or_die
  get_or_die-eq-some name w h = elim (Got-cases (client.get name w)) [
    | inl (b, g) ↦ (ground arith, ground arith)
    | inr a ↦ absurd (ground arith)
  ]

  pub get_or_die-same :
      (name : String) (w : W) {o : Option A} {v : W}
      → get_or_die client r name w ≡ (ret o, v)
      → v ≡ w
  unfolding get_or_die
  get_or_die-same name w h = elim (Got-cases (client.get name w)) [
    | inl (b, g) ↦ ground arith
    | inr a ↦ ground arith
  ]

  pub get_or_die-again :
      (name : String) (w : W) {o : Option A} {v : W}
      → get_or_die client r name w ≡ (ret o, v)
      → get_or_die client r name w ≡ (ret o, w)
  get_or_die-again name w h = let same = get_or_die-same name w h in cc

  pub get_or_die-after :
      (name : String) (w : W) {o : Option A} {a : A} {v : W}
      → get_or_die client r name w ≡ (ret o, v)
      → o ≡ some a
      → client.get name v ≡ found a
  get_or_die-after name w {o = o} {a = a} {v = v} h e =
      let run : get_or_die client r name w ≡ (ret (some a), v) = cc in
      let (g, same) = get_or_die-eq-some name w run in cc
