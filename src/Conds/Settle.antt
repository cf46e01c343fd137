-- ===== src/Conds/Settle.antt =====
-- What RefreshCondition leaves.
use sf_operator.Common.{
  ℕ, suc, String, ◌≡◌, refl, ◌≢◌, ◌∙◌, ap, Bool, true, false, Option, none, some, List, [], ◌∷◌,
  arith, ◌==◌, eq_iff, eq_refl, if◌then◌else◌, length, All, any, Bool-cases, inl, inr,
}
use sf_operator.Conds.Refresh.{
  Condition, no_condition, Params, mk_condition, refresh_one, refresh_each, refresh_condition,
}

-- A condition of the type is listed.
abbrev pub has_type : String → List Condition → Bool
has_type t cs = any (λ c. c.type_ == t) cs

-- The first condition of the type.
pub find_condition : String → List Condition → Option Condition
find_condition t [] = none
find_condition t (c ∷ cs) = if c.type_ == t then some c else find_condition t cs

-- The condition is of another type, or shows the status, reason and message of the call.
abbrev pub IsSettled : Params → Condition → Type 0
IsSettled p c =
    c.type_ ≡ p.type_ → (c.status ≡ p.status) × (c.reason ≡ p.reason) × (c.message ≡ p.message)

refresh_one-IsSettled : (p : Params) (now : ℕ) (c : Condition) → IsSettled p (refresh_one p now c)
unfolding refresh_one
refresh_one-IsSettled p now c = λ e. ground (
  arith,
  eq_iff c.type_ p.type_,
  eq_iff c.status p.status,
  eq_iff c.reason p.reason,
  eq_iff c.message p.message,
  e,
)

refresh_one-type : (p : Params) (now : ℕ) (c : Condition) → (refresh_one p now c).type_ ≡ c.type_
unfolding refresh_one
refresh_one-type p now c = ground arith

refresh_one-eq_of_IsSettled :
    (p : Params) (now : ℕ) (c : Condition) → IsSettled p c → refresh_one p now c ≡ c
unfolding refresh_one
refresh_one-eq_of_IsSettled p now c h = ground (
  arith,
  eq_iff c.type_ p.type_,
  eq_iff c.status p.status,
  eq_iff c.reason p.reason,
  eq_iff c.message p.message,
)

module _ (p : Params) (now : ℕ → ℕ) where
  refresh_each-IsSettled :
      (i : ℕ) (found : Condition) (cs : List Condition)
      → All (IsSettled p) (refresh_each p now i found cs).0
  unfolding refresh_each
  refresh_each-IsSettled i found [] = tt
  refresh_each-IsSettled i found (c ∷ cs) =
      (refresh_one-IsSettled p (now i) c, refresh_each-IsSettled (suc i) _ cs)

  -- The condition found is of the type, if one is listed.
  refresh_each-found :
      (i : ℕ) (found : Condition) (cs : List Condition)
      → (refresh_each p now i found cs).1.type_
        ≡ (if has_type p.type_ cs then p.type_ else found.type_)
  unfolding refresh_each
  refresh_each-found i found [] = refl
  refresh_each-found i found (c ∷ cs) = ground (
    arith,
    eq_iff c.type_ p.type_,
    refresh_each-found (suc i) (if c.type_ == p.type_ then c else found) cs,
  )

  refresh_each-found_absent :
      (i : ℕ) (found : Condition) (cs : List Condition)
      → has_type p.type_ cs ≡ false
      → (refresh_each p now i found cs).1 ≡ found
  unfolding refresh_each
  refresh_each-found_absent i found [] h = refl
  refresh_each-found_absent i found (c ∷ cs) h =
      ground (arith, refresh_each-found_absent (suc i) found cs)

  refresh_each-eq_of_IsSettled :
      (i : ℕ) (found : Condition) (cs : List Condition)
      → All (IsSettled p) cs
      → (refresh_each p now i found cs).0 ≡ cs
  unfolding refresh_each
  refresh_each-eq_of_IsSettled i found [] h = refl
  refresh_each-eq_of_IsSettled i found (c ∷ cs) h = cc (
    refresh_one-eq_of_IsSettled p (now i) c h.0,
    refresh_each-eq_of_IsSettled (suc i) (if c.type_ == p.type_ then c else found) cs h.1,
  )

  has_type-refresh_each :
      (t : String) (i : ℕ) (found : Condition) (cs : List Condition)
      → has_type t (refresh_each p now i found cs).0 ≡ has_type t cs
  unfolding refresh_each
  has_type-refresh_each t i found [] = refl
  has_type-refresh_each t i found (c ∷ cs) = cc (
    refresh_one-type p (now i) c,
    has_type-refresh_each t (suc i) (if c.type_ == p.type_ then c else found) cs,
  )

  length-refresh_each :
      (i : ℕ) (found : Condition) (cs : List Condition)
      → length (refresh_each p now i found cs).0 ≡ length cs
  unfolding refresh_each
  length-refresh_each i found [] = refl
  length-refresh_each i found (c ∷ cs) = ap suc (length-refresh_each (suc i) _ cs)

  refresh_one-other :
      (n : ℕ) (t : String) (c : Condition)
      → t ≢ p.type_
      → (c.type_ == t) ≡ true
      → refresh_one p n c ≡ c
  unfolding refresh_one
  refresh_one-other n t c h e = ground (arith, eq_iff c.type_ t, eq_iff c.type_ p.type_)

  find_condition-refresh_each :
      (t : String) (i : ℕ) (found : Condition) (cs : List Condition)
      → t ≢ p.type_
      → find_condition t (refresh_each p now i found cs).0 ≡ find_condition t cs
  unfolding refresh_each find_condition
  find_condition-refresh_each t i found [] h = refl
  find_condition-refresh_each t i found (c ∷ cs) h = ground (
    arith,
    refresh_one-type p (now i) c,
    refresh_one-other (now i) t c,
    find_condition-refresh_each t (suc i) (if c.type_ == p.type_ then c else found) cs,
  )

IsSettled-of_absent :
    (p : Params) (cs : List Condition) → has_type p.type_ cs ≡ false → All (IsSettled p) cs
IsSettled-of_absent p [] h = tt
IsSettled-of_absent p (c ∷ cs) h =
    (λ e. ground (arith, eq_iff c.type_ p.type_), IsSettled-of_absent p cs (ground arith))

module _ (p : Params) (now : ℕ → ℕ) (cs : List Condition) (named : p.type_ ≢ "") where
  refresh_condition-found :
      has_type p.type_ cs ≡ true
      → refresh_condition p now cs ≡ (refresh_each p now 0 no_condition cs).0
  unfolding refresh_condition
  refresh_condition-found h =
      let e : (refresh_each p now 0 no_condition cs).1.type_ ≡ p.type_ =
        refresh_each-found p now 0 no_condition cs ∙ rw h refl in
      ground (arith, eq_iff (refresh_each p now 0 no_condition cs).1.type_ "")

  -- For a type that is not the empty text and is not listed, one condition of the type is added in
  -- front, with the status "Unknown" whatever the status of the call, and the others stay as they are.
  pub refresh_condition-absent :
      has_type p.type_ cs ≡ false
      → refresh_condition p now cs ≡ mk_condition p.type_ p.reason p.message (now (length cs)) ∷ cs
  unfolding refresh_condition
  refresh_condition-absent h = rw (refresh_each-found_absent p now 0 no_condition cs h) (
      ap (λ l. mk_condition p.type_ p.reason p.message (now (length cs)) ∷ l)
        (refresh_each-eq_of_IsSettled p now 0 no_condition cs (IsSettled-of_absent p cs h)))

  -- For a type that is listed, every condition of the type shows the call's status, reason and
  -- message, and the number of conditions stays.
  pub refresh_condition-present :
      has_type p.type_ cs ≡ true
      → All (IsSettled p) (refresh_condition p now cs)
        × (length (refresh_condition p now cs) ≡ length cs)
  refresh_condition-present h =
      rw (refresh_condition-found h) (
        refresh_each-IsSettled p now 0 no_condition cs,
        length-refresh_each p now 0 no_condition cs,
      )

  -- A list in which the type is listed and every condition of it shows the call's arguments already
  -- is not touched, its times of transition included.
  pub refresh_condition_stable :
      has_type p.type_ cs ≡ true → All (IsSettled p) cs → refresh_condition p now cs ≡ cs
  refresh_condition_stable h settled =
      rw (refresh_condition-found h) (refresh_each-eq_of_IsSettled p now 0 no_condition cs settled)

  has_type-refresh_condition : has_type p.type_ (refresh_condition p now cs) ≡ true
  has_type-refresh_condition = elim (Bool-cases (has_type p.type_ cs)) [
    | inl h ↦
        rw (refresh_condition-found h) (has_type-refresh_each p now p.type_ 0 no_condition cs ∙ h)
    | inr h ↦ rw (refresh_condition-absent h) (unfold mk_condition in rw eq_refl)
  ]

  -- The first condition of any other type stays as it is.
  pub find_condition-refresh_condition :
      (t : String)
      → t ≢ p.type_
      → find_condition t (refresh_condition p now cs) ≡ find_condition t cs
  unfolding find_condition
  find_condition-refresh_condition t other = elim (Bool-cases (has_type p.type_ cs)) [
    | inl h ↦
        rw (refresh_condition-found h) (find_condition-refresh_each p now t 0 no_condition cs other)
    | inr h ↦
        rw (refresh_condition-absent h) (unfold mk_condition in ground (arith, eq_iff p.type_ t))
  ]

module _ (p : Params) (cs : List Condition) (named : p.type_ ≢ "") where
  -- From any list, for a type that is not the empty text: two calls with the same arguments leave a
  -- condition of the type, and every such condition shows the arguments; a third call changes
  -- nothing.
  pub refresh_condition_converges :
      (now now' now'' : ℕ → ℕ)
      → let twice = refresh_condition p now' (refresh_condition p now cs) in
        (has_type p.type_ twice ≡ true)
        × All (IsSettled p) twice
        × (refresh_condition p now'' twice ≡ twice)
  refresh_condition_converges now now' now'' =
      let once = refresh_condition p now cs in
      let twice = refresh_condition p now' once in
      let there = has_type-refresh_condition p now cs named in
      let kept = has_type-refresh_condition p now' once named in
      let shown = (refresh_condition-present p now' once named there).0 in
      (kept, shown, refresh_condition_stable p now'' twice named kept shown)
