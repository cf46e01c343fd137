-- ===== src/Zuulconf/Sorted.antt =====
-- Lists of keys in the order of their names: the sort keeps every value, and two sorted lists of the
-- same values are the same list.
use sf_operator.Common.{
  String, ◌≡◌, refl, sym, ◌∙◌, true, none, some, [], ◌∷◌, arith, if◌then◌else◌, ◌==◌, eq_iff,
  eq_refl, All, leb_text, leb_text_total, leb_text_trans, leb_text_antisymm, Bool-cases, inl, inr,
}
use sf_operator.Common.Assoc.{Assoc, lookup}
use sf_operator.Zuulconf.Ini.{IsDistinct}
use sf_operator.Zuulconf.Dump.{insert_key, sort_keys}

pub lookup-insert_key :
    (key text name : String) (es : Assoc String)
    → lookup key es ≡ none
    → lookup name (insert_key key text es) ≡ (if key == name then some text else lookup name es)
unfolding lookup insert_key
lookup-insert_key key text name [] h = refl
lookup-insert_key key text name ((other, value) ∷ es) h = ground (
  arith,
  eq_iff key name,
  eq_iff other name,
  eq_iff other key,
  eq_refl name,
  lookup-insert_key key text name es,
)

insert_key-IsDistinct :
    (key text : String) (es : Assoc String)
    → lookup key es ≡ none
    → IsDistinct es
    → IsDistinct (insert_key key text es)
unfolding insert_key lookup
insert_key-IsDistinct key text [] h d = (refl, tt)
insert_key-IsDistinct key text ((other, value) ∷ es) h (d, ds) =
    elim (Bool-cases (leb_text key other)) [
      | inl e ↦ rw e (ground (arith, eq_iff other key), (d, ds))
      | inr e ↦ rw e (
        lookup-insert_key key text other es (ground arith)
            ∙ ground (arith, eq_iff key other, eq_iff other key),
        insert_key-IsDistinct key text es (ground arith) ds,
      )
    ]

pub lookup-sort_keys :
    (name : String) (es : Assoc String)
    → IsDistinct es
    → lookup name (sort_keys es) ≡ lookup name es
unfolding sort_keys lookup
lookup-sort_keys name [] d = refl
lookup-sort_keys name ((key, text) ∷ es) (d, ds) = ground (
  arith,
  lookup-insert_key key text name (sort_keys es),
  lookup-sort_keys key es ds,
  lookup-sort_keys name es ds,
)

pub sort_keys-IsDistinct : (es : Assoc String) → IsDistinct es → IsDistinct (sort_keys es)
unfolding sort_keys
sort_keys-IsDistinct [] d = tt
sort_keys-IsDistinct ((key, text) ∷ es) (d, ds) =
    insert_key-IsDistinct key text (sort_keys es) (lookup-sort_keys key es ds ∙ d)
      (sort_keys-IsDistinct es ds)

abbrev IsBelow : String → Assoc String → Type 0
IsBelow key es = All (λ (e : String × String). leb_text key e.0 ≡ true) es

abbrev pub IsSorted : Assoc String → Type 0
IsSorted [] = Unit
IsSorted ((key, text) ∷ es) = IsBelow key es × IsSorted es

IsBelow-trans :
    (low key : String) (es : Assoc String)
    → leb_text low key ≡ true
    → IsBelow key es
    → IsBelow low es
IsBelow-trans low key [] h b = tt
IsBelow-trans low key ((name, text) ∷ es) h (b, bs) =
    (leb_text_trans low key name h b, IsBelow-trans low key es h bs)

IsBelow-insert_key :
    (low key text : String) (es : Assoc String)
    → leb_text low key ≡ true
    → IsBelow low es
    → IsBelow low (insert_key key text es)
unfolding insert_key
IsBelow-insert_key low key text [] h b = (h, tt)
IsBelow-insert_key low key text ((name, value) ∷ es) h (b, bs) =
    elim (Bool-cases (leb_text key name)) [
      | inl e ↦ rw e (h, (b, bs))
      | inr e ↦ rw e (b, IsBelow-insert_key low key text es h bs)
    ]

insert_key-IsSorted :
    (key text : String) (es : Assoc String) → IsSorted es → IsSorted (insert_key key text es)
unfolding insert_key
insert_key-IsSorted key text [] s = (tt, tt)
insert_key-IsSorted key text ((name, value) ∷ es) (s, ss) = elim (Bool-cases (leb_text key name)) [
  | inl e ↦ rw e ((e, IsBelow-trans key name es e s), (s, ss))
  | inr e ↦ rw e (
    IsBelow-insert_key name key text es (ground (arith, leb_text_total key name)) s,
    insert_key-IsSorted key text es ss,
  )
]

pub sort_keys-IsSorted : (es : Assoc String) → IsSorted (sort_keys es)
unfolding sort_keys
sort_keys-IsSorted [] = tt
sort_keys-IsSorted ((key, text) ∷ es) =
    insert_key-IsSorted key text (sort_keys es) (sort_keys-IsSorted es)

below-lookup :
    (low key : String) (es : Assoc String) {text : String}
    → IsBelow low es
    → lookup key es ≡ some text
    → leb_text low key ≡ true
unfolding lookup
below-lookup low key [] b h = cc
below-lookup low key ((name, value) ∷ es) {text = text} (b, bs) h =
    ground (arith, eq_iff name key, below-lookup low key es {text = text} bs)

leb_text_refl : (s : String) → leb_text s s ≡ true
leb_text_refl s = ground (arith, leb_text_total s s)

-- The first key of a sorted list is below each key that it holds.
first-below :
    (k key t : String) (es : Assoc String) {text : String}
    → IsBelow k es
    → lookup key ((k, t) ∷ es) ≡ some text
    → leb_text k key ≡ true
first-below k key t es b h = below-lookup k key ((k, t) ∷ es) (leb_text_refl k, b) h

lookup-head : (k t : String) (es : Assoc String) → lookup k ((k, t) ∷ es) ≡ some t
unfolding lookup
lookup-head k t es = rw (eq_refl k) refl

tail_ext :
    (k t t' : String) (es fs : Assoc String) (name : String)
    → lookup k es ≡ none
    → lookup k fs ≡ none
    → lookup name ((k, t) ∷ es) ≡ lookup name ((k, t') ∷ fs)
    → lookup name es ≡ lookup name fs
unfolding lookup
tail_ext k t t' es fs name d d' h = ground (arith, eq_iff k name)

-- Sorted lists, where no key stands twice, are the same if they hold the same values.
pub sorted_ext :
    (es fs : Assoc String)
    → IsSorted es
    → IsSorted fs
    → IsDistinct es
    → IsDistinct fs
    → ((key : String) → lookup key es ≡ lookup key fs)
    → es ≡ fs
unfolding lookup
sorted_ext [] [] s s' d d' h = refl
sorted_ext [] ((k, t) ∷ fs) s s' d d' h = absurd (ground (arith, h k, eq_refl k))
sorted_ext ((k, t) ∷ es) [] s s' d d' h = absurd (ground (arith, h k, eq_refl k))
sorted_ext ((k, t) ∷ es) ((k', t') ∷ fs) (s, ss) (s', ss') (d, ds) (d', ds') h =
    let same : k ≡ k' =
      leb_text_antisymm k k' (first-below k k' t es s (h k' ∙ lookup-head k' t' fs))
        (first-below k' k t' fs s' (sym (h k) ∙ lookup-head k t es)) in
    let heads : lookup k ((k', t') ∷ fs) ≡ some t' = ground (arith, eq_iff k' k) in
    let value : some t ≡ some t' = sym (lookup-head k t es) ∙ (h k ∙ heads) in
    let rest : es ≡ fs =
      sorted_ext es fs ss ss' ds ds'
        λ name. tail_ext k t t' es fs name d (rw (sym same) at d') (rw (sym same) at (h name)) in
    cc
