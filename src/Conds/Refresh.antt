-- ===== src/Conds/Refresh.antt =====
-- mkCondition, RefreshCondition and UpdateConditions. A list of conditions is changed in place by
-- the code and returned here; `now i` is what the clock shows when the loop is at index `i`.
use Prim.Native.String.{◌++◌}
use sf_operator.Common.{
  ℕ, suc, String, Bool, true, false, ◌&&◌, ◌||◌, not, List, [], ◌∷◌, ◌==◌, eqb, if◌then◌else◌,
  length,
}

-- metav1.Condition, the type of the field `Conditions`; `type_` is the field `Type`.
pub record Condition : Type 0 where
  pub type_ : String
  pub status : String
  pub observed_generation : ℕ
  pub last_transition_time : ℕ
  pub reason : String
  pub message : String

-- metav1.Condition{}
abbrev pub no_condition : Condition
no_condition = record {
  type_ = "";
  status = "";
  observed_generation = 0;
  last_transition_time = 0;
  reason = "";
  message = "";
}

-- reflect.DeepEqual(c, metav1.Condition{})
abbrev pub is_zero : Condition → Bool
is_zero c =
    c.type_ == ""
    && (c.status == ""
        && (eqb c.observed_generation 0
            && (eqb c.last_transition_time 0 && (c.reason == "" && c.message == ""))))

-- The arguments of RefreshCondition after the list.
pub record Params : Type 0 where
  pub type_ : String
  pub status : String
  pub reason : String
  pub message : String

unfoldable pub mk_condition : String → String → String → ℕ → Condition
mk_condition type_ reason message now = record {
  type_ = type_;
  status = "Unknown";
  observed_generation = 0;
  last_transition_time = now;
  reason = reason;
  message = message;
}

-- The body of the loop, at a condition.
unfoldable pub refresh_one : Params → ℕ → Condition → Condition
refresh_one p now c =
    if c.type_ == p.type_
    then if not (c.status == p.status)
        || (not (c.reason == p.reason) || not (c.message == p.message))
      then record c {
        status = p.status;
        last_transition_time = now;
        reason = p.reason;
        message = p.message;
      }
      else c
    else c

-- The loop: the list it leaves, and `foundCondition`.
unfoldable pub refresh_each :
    Params → (ℕ → ℕ) → ℕ → Condition → List Condition → List Condition × Condition
unfolding refresh_one
refresh_each p now i found [] = ([], found)
refresh_each p now i found (c ∷ cs) =
    let rest = refresh_each p now (suc i) (if c.type_ == p.type_ then c else found) cs in
    (refresh_one p (now i) c ∷ rest.0, rest.1)

unfoldable pub refresh_condition : Params → (ℕ → ℕ) → List Condition → List Condition
unfolding refresh_each mk_condition
refresh_condition p now conditions =
    let (cs, found) = refresh_each p now 0 no_condition conditions in
    if is_zero found
    then mk_condition p.type_ p.reason p.message (now (length conditions)) ∷ cs
    else cs

abbrev ready_params : String → Bool → Params
ready_params cond_type true = record {
  type_ = cond_type;
  status = "True";
  reason = "Complete";
  message = "Initialization of " ++ (cond_type ++ " service completed.");
}
ready_params cond_type false = record {
  type_ = cond_type;
  status = "False";
  reason = "Awaiting";
  message = "Initializing " ++ (cond_type ++ " service...");
}

unfoldable pub update_conditions : String → Bool → (ℕ → ℕ) → List Condition → List Condition
update_conditions cond_type ready now conditions =
    refresh_condition (ready_params cond_type ready) now conditions
