-- ===== src/Kube/Exec.antt =====
-- Code that reads and writes the cluster and may panic. What was written before a panic stays.
use sf_operator.Common.{◌≡◌, refl, ◌⊎◌, inl, inr}

pub data Outcome {ℓ} (A : Type ℓ) : Type ℓ where
  ret : A → Outcome A
  panic : Outcome A

pub Outcome-cases : {A : Type 0} (o : Outcome A) → ((a : A) × (o ≡ ret a)) ⊎ (o ≡ panic)
Outcome-cases (ret a) = inl (a, refl)
Outcome-cases panic = inr refl

abbrev pub Exec : Type 0 → Type 0 → Type 0
Exec W A = W → Outcome A × W

module _ {W A B : Type 0} where
  abbrev continue : Outcome A → (A → Exec W B) → Exec W B
  continue (ret a) f w = f a w
  continue panic f w = (panic, w)

  infixl 10 ◌>>=◌ ◌>>◌
  abbrev pub ◌>>=◌ : Exec W A → (A → Exec W B) → Exec W B
  ◌>>=◌ m f w = let (r, w') = m w in continue r f w'

  abbrev pub ◌>>◌ : Exec W A → Exec W B → Exec W B
  m >> k = m >>= λ _. k

module _ {W A : Type 0} where
  abbrev pub pure : A → Exec W A
  pure a w = (ret a, w)

  abbrev pub die : Exec W A
  die w = (panic, w)

module _ {W A B : Type 0} where
  -- A sequence that returns has returned from its first part.
  pub >>=-eq-ret :
      (m : Exec W A) (f : A → Exec W B) (w : W) {b : B} {w' : W}
      → (m >>= f) w ≡ (ret b, w')
      → (a : A) × (v : W) × (m w ≡ (ret a, v)) × (f a v ≡ (ret b, w'))
  >>=-eq-ret m f w h = go (m w).0 (m w).1 refl h
    where
      go :
          {b : B} {w' : W} (o : Outcome A) (v : W)
          → m w ≡ (o, v)
          → continue o f v ≡ (ret b, w')
          → (a : A) × (u : W) × (m w ≡ (ret a, u)) × (f a u ≡ (ret b, w'))
      go (ret a) v e h = (a, v, e, h)
      go panic v e h = cc
