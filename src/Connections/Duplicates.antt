-- ===== src/Connections/Duplicates.antt =====
-- HasDuplicate: the search for a connection name that is used twice.
use sf_operator.Common.{
  ℕ, suc, ◌≤◌, String, ◌≡◌, refl, ◌≢◌, ◌↔◌, inl, inr, Bool, true, false, List, [], ◌∷◌, arith, ◌==◌,
  eq_iff, if◌then◌else◌, any, Bool-cases,
}

-- slices.Contains(list, s)
abbrev pub contains : List String → String → Bool
contains list s = any (λ x. x == s) list

unfoldable pub has_duplicate : List String → String
has_duplicate [] = ""
has_duplicate (conn ∷ conns) = if contains conns conn then conn else has_duplicate conns

abbrev pub count : String → List String → ℕ
count s [] = 0
count s (x ∷ xs) = let rest = count s xs in if x == s then suc rest else rest

contains-count : (s : String) (xs : List String) → contains xs s ≡ true → 1 ≤ count s xs
contains-count s [] h = cc
contains-count s (x ∷ xs) h = ground (arith, contains-count s xs)

-- A name that is returned stands at least twice in the list.
pub has_duplicate_twice :
    (conns : List String) → has_duplicate conns ≢ "" → 2 ≤ count (has_duplicate conns) conns
unfolding has_duplicate
has_duplicate_twice [] h = absurd (h refl)
has_duplicate_twice (c ∷ cs) h =
    ground (arith, has_duplicate_twice cs, contains-count c cs, eq_iff c c)

pub count-eq-zero : (s : String) (xs : List String) → contains xs s ≡ false → count s xs ≡ 0
count-eq-zero s [] h = refl
count-eq-zero s (x ∷ xs) h = ground (arith, count-eq-zero s xs)

count-le-one :
    (conns : List String) (s : String)
    → contains conns "" ≡ false
    → has_duplicate conns ≡ ""
    → count s conns ≤ 1
unfolding has_duplicate
count-le-one [] s h e = omega arith
count-le-one (c ∷ cs) s h e =
    ground (arith, count-le-one cs s, count-eq-zero s cs, eq_iff c s, eq_iff c "")

-- If no name is empty, the result is empty exactly if every name stands at most once.
pub has_duplicate-empty_iff :
    (conns : List String)
    → contains conns "" ≡ false
    → (has_duplicate conns ≡ "") ↔ ((s : String) → count s conns ≤ 1)
has_duplicate-empty_iff conns h = (
  λ e s. count-le-one conns s h e,
  λ once. elim (Bool-cases (has_duplicate conns == "")) [
    | inl e ↦ (eq_iff _ _).0 e
    | inr e ↦ ground (
      arith,
      eq_iff (has_duplicate conns) "",
      has_duplicate_twice conns,
      once (has_duplicate conns),
    )
  ],
)
