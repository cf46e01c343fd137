-- ===== src/Common/Sort.antt =====
-- `sort.Strings`, up to the algorithm: insertion into an ordered list.
use Prim.Native.String.{String}
use mathlib.Core.Path.{◌≡◌, refl, ◌∙◌}
use mathlib.Core.Logic.{◌≢◌}
use mathlib.Core.List.{List, [], ◌∷◌, Permᴰ}
use native.Mathlib.Omega.{arith}
use sf_operator.Common.Tests.{if◌then◌else◌}
use sf_operator.Common.Text.{leb_text, leb_text_total, leb_text_trans, leb_text_antisymm}

unfoldable pub insert_sorted : String → List String → List String
insert_sorted x [] = x ∷ []
insert_sorted x (y ∷ ys) = if leb_text x y then x ∷ y ∷ ys else y ∷ insert_sorted x ys

unfoldable pub sort_strings : List String → List String
unfolding insert_sorted
sort_strings [] = []
sort_strings (x ∷ xs) = insert_sorted x (sort_strings xs)

insert_sorted_comm :
    (x y : String) (zs : List String)
    → insert_sorted x (insert_sorted y zs) ≡ insert_sorted y (insert_sorted x zs)
unfolding insert_sorted
insert_sorted_comm x y [] = ground (arith, leb_text_total x y, leb_text_antisymm x y)
insert_sorted_comm x y (z ∷ zs) = ground (
  arith,
  leb_text_total x y,
  leb_text_antisymm x y,
  leb_text_trans x y z,
  leb_text_trans y x z,
  leb_text_total x z,
  leb_text_total y z,
  insert_sorted_comm x y zs,
)

-- The order in which the elements come does not matter.
pub sort_strings-perm : {xs ys : List String} → Permᴰ xs ys → sort_strings xs ≡ sort_strings ys
unfolding sort_strings
sort_strings-perm Permᴰ.nil = refl
sort_strings-perm (Permᴰ.cons {a = a} e p) = cc (e, sort_strings-perm p)
sort_strings-perm (Permᴰ.swap {a = a} {b = b} {l = l} e f) =
    insert_sorted_comm a b (sort_strings l) ∙ cc (e, f)
sort_strings-perm (Permᴰ.trans p q) = sort_strings-perm p ∙ sort_strings-perm q

insert_sorted_nonempty : (x : String) (ys : List String) → insert_sorted x ys ≢ []
unfolding insert_sorted
insert_sorted_nonempty x [] h = cc
insert_sorted_nonempty x (y ∷ ys) h = ground arith

pub sort_strings-empty : (xs : List String) → sort_strings xs ≡ [] → xs ≡ []
unfolding sort_strings
sort_strings-empty [] h = refl
sort_strings-empty (x ∷ xs) h = absurd (insert_sorted_nonempty x (sort_strings xs) h)
