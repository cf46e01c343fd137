-- ===== src/Rotation/Errors.antt =====
-- The shape of the rotations: a step whose error is returned at once.
use sf_operator.Common.{String, ◌≡◌, refl, ◌∙◌, Option, none, some, inl, inr}
use sf_operator.Kube.Exec.{Exec, Outcome-cases, ret, pure, >>=-eq-ret, ◌>>=◌, ◌>>◌}

-- `if err != nil { return err }`
abbrev pub or_return :
    {W : Type 0} → Option String → Exec W (Option String) → Exec W (Option String)
or_return (some e) next = pure (some e)
or_return none next = next

or_return-eq-none :
    {W : Type 0} (o : Option String) (m : Exec W (Option String)) (w : W) {v : W}
    → or_return o m w ≡ (ret none, v)
    → (o ≡ none) × (m w ≡ (ret none, v))
or_return-eq-none (some e) m w h = cc
or_return-eq-none none m w h = (refl, h)

-- A step that gives no error, and what follows it.
pub then_return :
    {W : Type 0} (m next : Exec W (Option String)) (w : W) {v : W}
    → (m >>= λ e. or_return e next) w ≡ (ret none, v)
    → (u : W) × (m w ≡ (ret none, u)) × (next u ≡ (ret none, v))
then_return m next w h =
    let (o, u, first, rest) = >>=-eq-ret m (λ e. or_return e next) w h in
    let (nothing, done) = or_return-eq-none o next u rest in (u, rw nothing at first, done)

-- A part of the state that two steps keep is kept by their sequence.
pub quiet_then :
    {W A B C : Type 0} (part : W → C) (m : Exec W A) (k : Exec W B)
    → ((w : W) → part (m w).1 ≡ part w)
    → ((w : W) → part (k w).1 ≡ part w)
    → (w : W) → part ((m >> k) w).1 ≡ part w
quiet_then part m k first second w = elim (Outcome-cases (m w).0) [
  | inl (a, e) ↦ rw e (second (m w).1 ∙ first w)
  | inr e ↦ rw e (first w)
]
