-- ===== src/Volume/Quantity.antt =====
-- resource.Quantity of the Kubernetes library, by the four calls that the operator makes of it.
use Prim.Native.Nat.{Ordering}
use sf_operator.Common.{Bool}

pub record Quantity (Q : Type 0) : Type 0 where
  pub is_positive : Q → Bool
  pub is_zero : Q → Bool
  pub cmp : Q → Q → Ordering
  pub qty_1gi : Q
