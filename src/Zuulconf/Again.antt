-- ===== src/Zuulconf/Again.antt =====
-- The entries of a section that are taken out and set again in order.
use mathlib.Core.List.{append-nil}
use sf_operator.Common.{
  String, ◌≡◌, refl, sym, ap, ◌∙◌, none, some, [], ◌∷◌, ◌++◌, arith, eq_iff, eq_refl,
}
use sf_operator.Common.Assoc.{Assoc, lookup, insert, erase, lookup-erase, lookup-insert}
use sf_operator.Zuulconf.Ini.{IsDistinct}
use sf_operator.Zuulconf.Dump.{sort_keys}
use sf_operator.Zuulconf.Sorted.{lookup-sort_keys, sort_keys-IsDistinct}

nothing_left : (es : Assoc String) → ((key : String) → lookup key es ≡ none) → es ≡ []
unfolding lookup
nothing_left [] h = refl
nothing_left ((key, text) ∷ es) h = absurd (ground (arith, h key, eq_refl key))

unfoldable pub erase_all : Assoc String → Assoc String → Assoc String
erase_all [] es = es
erase_all ((key, text) ∷ keys) es = erase_all keys (erase key es)

lookup-erase_all :
    (keys es : Assoc String) (name : String)
    → lookup name (erase_all keys es)
      ≡ (elim (lookup name keys) [ none ↦ lookup name es | some _ ↦ none ])
unfolding erase_all lookup
lookup-erase_all [] es name = refl
lookup-erase_all ((key, text) ∷ keys) es name =
    ground (arith, lookup-erase_all keys (erase key es) name, lookup-erase key name es)

unfoldable pub insert_all : Assoc String → Assoc String → Assoc String
insert_all [] es = es
insert_all ((key, text) ∷ keys) es = insert_all keys (insert key text es)

lookup-insert_all :
    (keys es : Assoc String) (name : String)
    → IsDistinct keys
    → lookup name (insert_all keys es)
      ≡ (elim (lookup name keys) [ none ↦ lookup name es | some text ↦ some text ])
unfolding insert_all lookup
lookup-insert_all [] es name d = refl
lookup-insert_all ((key, text) ∷ keys) es name (d, ds) = ground (
  arith,
  eq_iff key name,
  lookup-insert_all keys (insert key text es) name ds,
  lookup-insert key name text es,
)

-- A new key comes last.
insert_new :
    (key text : String) (es : Assoc String)
    → lookup key es ≡ none
    → insert key text es ≡ es ++ ((key, text) ∷ [])
unfolding insert lookup
insert_new key text [] h = refl
insert_new key text ((name, value) ∷ es) h = ground (arith, insert_new key text es)

append_one :
    (es keys : Assoc String) (e : String × String) → (es ++ (e ∷ [])) ++ keys ≡ es ++ (e ∷ keys)
append_one [] keys e = refl
append_one (x ∷ es) keys e = ap (λ l. x ∷ l) (append_one es keys e)

insert_all_new :
    (keys es : Assoc String)
    → IsDistinct keys
    → ((name : String) (text : String) → lookup name keys ≡ some text → lookup name es ≡ none)
    → insert_all keys es ≡ es ++ keys
unfolding insert_all lookup
insert_all_new [] es d h = sym (append-nil es)
insert_all_new ((key, text) ∷ keys) es (d, ds) h =
    insert_all_new keys (insert key text es) ds (λ name other e.
      ground (arith, eq_iff key name, lookup-insert key name text es, h name other))
    ∙ (ap (λ l. l ++ keys) (insert_new key text es (h key text (ground (arith, eq_refl key))))
        ∙ append_one es keys (key, text))

-- All keys are taken out and set again.
pub sorted_again :
    (es : Assoc String)
    → IsDistinct es
    → insert_all (sort_keys es) (erase_all (sort_keys es) es) ≡ sort_keys es
unfolding lookup
sorted_again es d =
    let cleared : erase_all (sort_keys es) es ≡ [] =
      nothing_left (erase_all (sort_keys es) es)
        λ key. ground (arith, lookup-erase_all (sort_keys es) es key, lookup-sort_keys key es d) in
    ap (insert_all (sort_keys es)) cleared
    ∙ insert_all_new (sort_keys es) [] (sort_keys-IsDistinct es d) (λ name text e. refl)
