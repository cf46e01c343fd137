-- ===== src/Workload/Annotations.antt =====
-- compareAnnotations of controllers/utils.go.
use mathlib.Core.List.Permᴰ as Perms
use sf_operator.Common.{
  String, ◌≡◌, ◌≢◌, refl, sym, ◌∙◌, ◌↔◌, none, some, List, [], ◌∷◌, ◌++◌, Permᴰ, ◌==◌, eq_iff,
  eq_refl, arith, Bool-cases, Option-cases, inl, inr, if◌then◌else◌, All,
}
use sf_operator.Common.Assoc.{Assoc, lookup}
use sf_operator.Common.Sort.{sort_strings, sort_strings-perm, sort_strings-empty}
use sf_operator.Workload.Messages.{added_message, changed_message, removed_message}

-- The message on an entry of the desired annotations.
unfoldable pub wanted_diff : Assoc String → String × String → List String
wanted_diff current (key, desired_value) = elim (lookup key current) [
  | none ↦ added_message key desired_value ∷ []
  | some current_value ↦
      if current_value == desired_value
      then []
      else changed_message key desired_value current_value ∷ []
]

-- The message on an entry of the current annotations.
unfoldable pub removed_diff : Assoc String → String × String → List String
removed_diff desired (key, current_value) = elim (lookup key desired) [
  | some _ ↦ []
  | none ↦ removed_message key current_value ∷ []
]

-- append in a range loop over the entries.
abbrev pub gather : (String × String → List String) → Assoc String → List String
gather f [] = []
gather f (e ∷ es) = f e ++ gather f es

-- `wanted_order` and `current_order` are the orders in which the ranges over the maps visit their
-- entries.
unfoldable pub compare_annotations_in :
    Assoc String → Assoc String → Assoc String → Assoc String → List String
compare_annotations_in current desired wanted_order current_order =
    sort_strings
      (gather (wanted_diff current) wanted_order ++ gather (removed_diff desired) current_order)

unfoldable pub compare_annotations : Assoc String → Assoc String → List String
compare_annotations current desired = compare_annotations_in current desired desired current

append-swap : (xs ys zs : List String) → Permᴰ (xs ++ (ys ++ zs)) (ys ++ (xs ++ zs))
append-swap [] ys zs = Perms.refl (ys ++ zs)
append-swap (x ∷ xs) ys zs =
    Permᴰ.trans (Permᴰ.cons refl (append-swap xs ys zs)) (Perms.symm (Perms.middle x ys (xs ++ zs)))

append-empty : (xs ys : List String) → xs ++ ys ≡ [] → (xs ≡ []) × (ys ≡ [])
append-empty [] ys h = (refl, h)
append-empty (x ∷ xs) ys h = cc

module _ (f : String × String → List String) where
  gather-perm : {es es' : Assoc String} → Permᴰ es es' → Permᴰ (gather f es) (gather f es')
  gather-perm Permᴰ.nil = Permᴰ.nil
  gather-perm (Permᴰ.cons {a = a} e p) = rw e (Perms.append_left _ (gather-perm p))
  gather-perm (Permᴰ.swap {a = a} {b = b} {l = l} e d) =
      rw (e, d) (append-swap (f _) (f _) (gather f l))
  gather-perm (Permᴰ.trans p q) = Permᴰ.trans (gather-perm p) (gather-perm q)

  gather-empty :
      (key value : String) (es : Assoc String)
      → gather f es ≡ []
      → lookup key es ≡ some value
      → f (key, value) ≡ []
  unfolding lookup
  gather-empty key value [] h found = cc
  gather-empty key value ((j, v) ∷ es) h found =
      let parts = append-empty (f (j, v)) (gather f es) h in
      elim (Bool-cases (j == key)) [
        | inl same ↦
            let at_key : j ≡ key = ground (arith, eq_iff j key) in
            let here : v ≡ value = ground (arith, found) in rw (← at_key, ← here) (parts.0)
        | inr other ↦ gather-empty key value es parts.1 (ground (arith, found))
      ]

  All-gather : (es : Assoc String) → All (λ e. f e ≡ []) es → gather f es ≡ []
  All-gather [] h = refl
  All-gather (e ∷ es) (h, hs) = rw h (All-gather es hs)

-- The orders in which the maps are visited do not show in the result.
pub compare_annotations_any_order :
    (current desired : Assoc String) {wanted_order current_order : Assoc String}
    → Permᴰ wanted_order desired
    → Permᴰ current_order current
    → compare_annotations_in current desired wanted_order current_order
      ≡ compare_annotations current desired
unfolding compare_annotations compare_annotations_in
compare_annotations_any_order current desired p q = sort_strings-perm (
    Permᴰ.trans (Perms.append_right _ (gather-perm (wanted_diff current) p))
      (Perms.append_left _ (gather-perm (removed_diff desired) q)))

-- The map has each key once.
abbrev pub HasKeysOnce : Assoc String → Type 0
HasKeysOnce m = All (λ (e : String × String). lookup e.0 m ≡ some e.1) m

wanted_diff-empty :
    (current : Assoc String) (key value : String)
    → wanted_diff current (key, value) ≡ []
    → lookup key current ≡ some value
unfolding wanted_diff
wanted_diff-empty current key value h = elim (Option-cases (lookup key current)) [
  | inl e ↦ cc (h, e)
  | inr (v, e) ↦ ground (arith, e, eq_iff v value)
]

removed_diff-empty :
    (desired : Assoc String) (key value : String)
    → removed_diff desired (key, value) ≡ []
    → lookup key desired ≢ none
unfolding removed_diff
removed_diff-empty desired key value h = ground (arith, h)

wanted_diff-same :
    (current : Assoc String) (key value : String)
    → lookup key current ≡ some value
    → wanted_diff current (key, value) ≡ []
unfolding wanted_diff
wanted_diff-same current key value h = rw (h, wanted_diff, eq_refl value) refl

removed_diff-present :
    (desired : Assoc String) (key value : String) {v : String}
    → lookup key desired ≡ some v
    → removed_diff desired (key, value) ≡ []
unfolding removed_diff
removed_diff-present desired key value h = rw (h, removed_diff) refl

module _ (current desired : Assoc String) where
  no_diffs-agree :
      compare_annotations current desired ≡ []
      → (key : String) → lookup key current ≡ lookup key desired
  unfolding compare_annotations compare_annotations_in
  no_diffs-agree h key =
      let parts =
        append-empty (gather (wanted_diff current) desired) (gather (removed_diff desired) current)
          (sort_strings-empty _ h) in
      elim (Option-cases (lookup key desired)) [
        | inr (v, d) ↦
            wanted_diff-empty current key v
              (gather-empty (wanted_diff current) key v desired parts.0 d)
            ∙ sym d
        | inl d ↦ elim (Option-cases (lookup key current)) [
          | inl c ↦ c ∙ sym d
          | inr (v, c) ↦ absurd (
              removed_diff-empty desired key v
                (gather-empty (removed_diff desired) key v current parts.1 c) d)
        ]
      ]

  module _ (agree : (key : String) → lookup key current ≡ lookup key desired) where
    wanted_none :
        (es : Assoc String)
        → All (λ (e : String × String). lookup e.0 desired ≡ some e.1) es
        → gather (wanted_diff current) es ≡ []
    wanted_none [] h = refl
    wanted_none ((key, value) ∷ es) (h, hs) =
        rw (wanted_diff-same current key value (agree key ∙ h)) (wanted_none es hs)

    removed_none :
        (es : Assoc String)
        → All (λ (e : String × String). lookup e.0 current ≡ some e.1) es
        → gather (removed_diff desired) es ≡ []
    removed_none [] h = refl
    removed_none ((key, value) ∷ es) (h, hs) =
        rw (removed_diff-present desired key value (sym (agree key) ∙ h)) (removed_none es hs)

-- Between two maps that have each key once, no difference is reported exactly if they have the same
-- value, or none, at every key.
pub compare_annotations-empty_iff :
    (current desired : Assoc String)
    → HasKeysOnce current
    → HasKeysOnce desired
    → (compare_annotations current desired ≡ [])
      ↔ ((key : String) → lookup key current ≡ lookup key desired)
unfolding compare_annotations compare_annotations_in sort_strings
compare_annotations-empty_iff current desired c d = (
  no_diffs-agree current desired,
  λ agree.
      rw (wanted_none current desired agree desired d, removed_none current desired agree current c)
        refl,
)
