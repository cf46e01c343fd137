-- ===== src/Kube/Objects.antt =====
-- The objects that the Ensure functions handle, without the fields that the operator neither sets
-- nor reads. A Go map that may be nil is an option of an association list.
use sf_operator.Common.{
  String, Bool, true, false, ◌&&◌, Option, none, some, [], ◌∷◌, ◌==◌, eqb, length, all,
}
use sf_operator.Common.Assoc.{Assoc, lookup}

abbrev pub GoMap : Type 0
GoMap = Option (Assoc String)

abbrev pub has_entry : Assoc String → String × String → Bool
has_entry m (k, v) = elim (lookup k m) [ none ↦ false | some w ↦ v == w ]

-- reflect.DeepEqual on maps: both nil, or the same entries.
unfoldable pub deep_equal : GoMap → GoMap → Bool
unfolding lookup
deep_equal none none = true
deep_equal none (some m) = false
deep_equal (some m) none = false
deep_equal (some m) (some n) = eqb (length m) (length n) && all (has_entry n) m

-- What the API keeps of a map, whose fields are omitted from an object where they are empty.
unfoldable pub stored : GoMap → GoMap
stored none = none
stored (some []) = none
stored (some (e ∷ m)) = some (e ∷ m)

pub record ConfigMap : Type 0 where
  pub name : String
  pub namespace : String
  pub annotations : GoMap
  pub contents : GoMap

pub record Secret : Type 0 where
  pub name : String
  pub namespace : String
  pub annotations : GoMap
  pub contents : GoMap
