-- ===== src/Reconcile/Services.antt =====
-- messageInfo and isOperatorReady of controllers/softwarefactory_controller.go, on the map from the
-- name of a service to whether it is ready.
use Prim.Native.String.{String, ◌++◌}
use sf_operator.Common.{
  ◌≡◌, refl, ◌↔◌, Bool, true, false, none, some, List, [], ◌∷◌, map, Permᴰ, arith, if◌then◌else◌,
  ◌==◌, All,
}
use sf_operator.Common.Assoc.{Assoc, lookup}
use sf_operator.Common.Sort.{sort_strings, sort_strings-perm}

-- services[name], which is false for a name that is missing.
abbrev pub service_ready : String → Assoc Bool → Bool
service_ready name services = elim (lookup name services) [ none ↦ false | some b ↦ b ]

-- The range visits the entries in the order of the list.
unfoldable pub is_operator_ready : Assoc Bool → Bool
is_operator_ready [] = true
is_operator_ready ((name, ready) ∷ services) =
    let rest = is_operator_ready services in if ready then rest else false

abbrev pub names_of : Assoc Bool → List String
names_of services = map (λ (e : String × Bool). e.0) services

-- color.CyanString, color.GreenString and color.RedString.
pub record Colors : Type 0 where
  pub cyan : String → String
  pub green : String → String
  pub red : String → String

module _ (colors : Colors) where
  open colors use {cyan, green, red}

  unfoldable pub message_generator : Bool → String → String → String
  message_generator is_ready goodmsg badmsg = if is_ready then green goodmsg else red badmsg

  unfoldable pub message_lines : Assoc Bool → String → List String → String
  message_lines services msg [] = msg
  message_lines services msg (name ∷ names) =
      message_lines services
        (msg
          ++ "\t - "
          ++ cyan name
          ++ ": "
          ++ message_generator (service_ready name services) "OK\n" "Waiting ...\n")
        names

  -- `order` is the order in which the range over the map visits its keys.
  unfoldable pub message_info_in : Assoc Bool → List String → String
  message_info_in services order =
      let msg = message_lines services "" (sort_strings order) in
      if msg == "" then msg else "\n" ++ msg

  unfoldable pub message_info : Assoc Bool → String
  message_info services = message_info_in services (names_of services)

  -- The message does not depend on the order in which the map is visited.
  pub message_info_any_order :
      (services : Assoc Bool) {order : List String}
      → Permᴰ order (names_of services)
      → message_info_in services order ≡ message_info services
  unfolding message_info message_info_in
  message_info_any_order services p = rw (sort_strings-perm p) refl

ready-All :
    (services : Assoc Bool)
    → is_operator_ready services ≡ true
    → All (λ (e : String × Bool). e.1 ≡ true) services
unfolding is_operator_ready
ready-All [] h = tt
ready-All ((name, ready) ∷ services) h = (ground arith, ready-All services (ground arith))

All-ready :
    (services : Assoc Bool)
    → All (λ (e : String × Bool). e.1 ≡ true) services
    → is_operator_ready services ≡ true
unfolding is_operator_ready
All-ready [] h = refl
All-ready ((name, ready) ∷ services) (h, hs) = rw (h, All-ready services hs) refl

pub is_operator_ready_iff :
    (services : Assoc Bool)
    → (is_operator_ready services ≡ true) ↔ All (λ (e : String × Bool). e.1 ≡ true) services
is_operator_ready_iff services = (ready-All services, All-ready services)

-- An operator that is ready has no service that is not.
pub is_operator_ready-lookup :
    (services : Assoc Bool) (name : String)
    → lookup name services ≡ some false
    → is_operator_ready services ≡ false
unfolding is_operator_ready lookup
is_operator_ready-lookup [] name h = cc
is_operator_ready-lookup ((key, ready) ∷ services) name h =
    ground (arith, is_operator_ready-lookup services name)
