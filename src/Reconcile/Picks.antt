-- ===== src/Reconcile/Picks.antt =====
-- Facts on the maps of services, and on calls that returned.
use mathlib.Core.Bool.{true≢false}
use sf_operator.Common.{
  String, ◌≡◌, refl, sym, ◌∙◌, Bool, true, false, ◌||◌, not, some, arith, eq_refl, if◌then◌else◌,
}
use sf_operator.Common.Assoc.{insert, lookup, lookup-insert}
use sf_operator.Kube.Exec.{Outcome, ret}
use sf_operator.Reconcile.Services.{service_ready, is_operator_ready, is_operator_ready-lookup}
use sf_operator.Reconcile.Steps.{Services}

pub ret_eq :
    {W A : Type 0} {a b : A} {w w' : W} → ◌≡◌ {A = Outcome A × W} (ret a, w) (ret b, w') → a ≡ b
ret_eq h = cc

pub state_eq :
    {W A : Type 0} {a b : A} {w w' : W} → ◌≡◌ {A = Outcome A × W} (ret a, w) (ret b, w') → w ≡ w'
state_eq h = cc

pub picked_then :
    {W A : Type 0} {final : A} {w w' : W} (b : Bool) (x y : A)
    → ◌≡◌ {A = Outcome A × W} (ret (if b then x else y), w) (ret final, w')
    → b ≡ true
    → x ≡ final
picked_then true x y h e = ret_eq h
picked_then false x y h e = absurd (true≢false (sym e))

pub picked_else :
    {W A : Type 0} {final : A} {w w' : W} (b : Bool) (x y : A)
    → ◌≡◌ {A = Outcome A × W} (ret (if b then x else y), w) (ret final, w')
    → b ≡ false
    → y ≡ final
picked_else true x y h e = absurd (true≢false e)
picked_else false x y h e = ret_eq h

pub service_ready-insert :
    (name : String) (ready : Bool) (services : Services)
    → service_ready name (insert name ready services) ≡ ready
service_ready-insert name ready services =
    ground (arith, lookup-insert name name ready services, eq_refl name)

pub not_or_left : (a b : Bool) → (not a || not b) ≡ false → a ≡ true
not_or_left true b h = refl
not_or_left false b h = cc

pub not_or_right : (a b : Bool) → (not a || not b) ≡ false → b ≡ true
not_or_right a true h = refl
not_or_right true false h = cc
not_or_right false false h = cc

pub no_false :
    (final : Services) {b : Bool} (name : String)
    → is_operator_ready final ≡ true
    → lookup name final ≡ some b
    → b ≡ true
no_false final {b = true} name ok h = refl
no_false final {b = false} name ok h =
    absurd (true≢false (sym ok ∙ is_operator_ready-lookup final name h))
