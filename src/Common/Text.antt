-- ===== src/Common/Text.antt =====
-- Go's strings: the byte order that `sort.Strings` uses, and tests at the ends of a text.
use Prim.Native.Nat.{compare, Ordering}
use Prim.Native.Char.{code}
use Prim.Native.String.{String, ◌++◌}
use mathlib.Core.Path.{◌≡◌, refl}
use mathlib.Core.Logic.{◌≢◌, ◌⊎◌, inl, inr}
use text.Mathlib.Text.{◌==◌}
use mathlib.Core.Bool.{Bool, true, false}
use native.Mathlib.Omega.{arith}
use text.Mathlib.TextEquality.{Char-path, eq_iff}
use text.Mathlib.TextLemmas.{cons-append}

-- `s <= t`. UTF-8 keeps the order of the code points.
pub leb_text : String → String → Bool
leb_text String.[] t = true
leb_text (String.◌∷◌ c s) String.[] = false
leb_text (String.◌∷◌ c s) (String.◌∷◌ d t) = elim (compare (code c) (code d)) [
  | Ordering.lt ↦ true
  | Ordering.eq ↦ leb_text s t
  | Ordering.gt ↦ false
]

pub leb_text_total : (s t : String) → (leb_text s t ≡ true) ⊎ (leb_text t s ≡ true)
unfolding leb_text
leb_text_total String.[] t = inl refl
leb_text_total (String.◌∷◌ c s) String.[] = inr refl
leb_text_total (String.◌∷◌ c s) (String.◌∷◌ d t) = ground (arith, leb_text_total s t)

pub leb_text_trans :
    (s t u : String) → leb_text s t ≡ true → leb_text t u ≡ true → leb_text s u ≡ true
unfolding leb_text
leb_text_trans String.[] t u h k = refl
leb_text_trans (String.◌∷◌ c s) String.[] u h k = cc
leb_text_trans (String.◌∷◌ c s) (String.◌∷◌ d t) String.[] h k = cc
leb_text_trans (String.◌∷◌ c s) (String.◌∷◌ d t) (String.◌∷◌ e u) h k =
    ground (arith, leb_text_trans s t u)

pub leb_text_antisymm : (s t : String) → leb_text s t ≡ true → leb_text t s ≡ true → s ≡ t
unfolding leb_text
leb_text_antisymm String.[] String.[] h k = refl
leb_text_antisymm String.[] (String.◌∷◌ d t) h k = cc
leb_text_antisymm (String.◌∷◌ c s) String.[] h k = cc
leb_text_antisymm (String.◌∷◌ c s) (String.◌∷◌ d t) h k =
    ground (arith, Char-path c d, leb_text_antisymm s t)

-- `strings.HasSuffix(s, "/")`: the last byte of a text is `/` exactly if its last character is.
pub ends_with_slash : String → Bool
ends_with_slash String.[] = false
ends_with_slash (String.◌∷◌ c String.[]) = elim (compare (code c) b'/') [
  | Ordering.eq ↦ true
  | _ ↦ false
]
ends_with_slash (String.◌∷◌ c (String.◌∷◌ d s)) = ends_with_slash (String.◌∷◌ d s)

pub ends_with_slash-append : (s : String) → ends_with_slash (s ++ "/") ≡ true
unfolding ends_with_slash
ends_with_slash-append String.[] = refl
ends_with_slash-append (String.◌∷◌ c String.[]) = rw cons-append refl
ends_with_slash-append (String.◌∷◌ c (String.◌∷◌ d s)) =
    rw (cons-append, cons-append) (rw cons-append at (ends_with_slash-append (String.◌∷◌ d s)))

-- Two texts that the test tells apart.
pub neq_of_test : (s t : String) → (s == t) ≡ false → s ≢ t
neq_of_test s t h e = ground (arith, eq_iff s t)
