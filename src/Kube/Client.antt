-- ===== src/Kube/Client.antt =====
-- controller-runtime's client.Client, which the operator is given: its four calls on the objects of
-- one kind. `W` is the state of the cluster.
use sf_operator.Common.{String, ◌≡◌, refl, ◌⊎◌, inl, inr, Bool, Option}

pub data ApiError : Type 0 where
  not_found already_exists : ApiError
  other : String → ApiError

-- What Get gives: the object, the error of IsNotFound, or another error.
pub data Got {ℓ} (A : Type ℓ) : Type ℓ where
  found : A → Got A
  missing : Got A
  failed : Got A

pub Got-cases :
    {A : Type 0} (g : Got A) → ((a : A) × (g ≡ found a)) ⊎ ((g ≡ missing) ⊎ (g ≡ failed))
Got-cases (found a) = inl (a, refl)
Got-cases missing = inr (inl refl)
Got-cases failed = inr (inr refl)

-- A write fills in the object that it is given.
pub record Reply {ℓ} (A : Type ℓ) : Type ℓ where
  pub object : A
  pub error : Option ApiError

-- The flag of a write is the option client.DryRunAll. `set_owner` is setOwnerReference at the mode
-- of the operator (standalone or not); its error is logged and dropped by the callers.
pub record Client (W A : Type 0) : Type 0 where
  pub name_of : A → String
  pub set_owner : Bool → A → A
  pub get : String → W → Got A
  pub create : Bool → A → W → Reply A × W
  pub update : Bool → A → W → Reply A × W
  pub delete : Bool → String → W → Option ApiError × W

-- The fields of SFKubeContext that the code reads.
pub record Context : Type 0 where
  pub ns : String
  pub standalone : Bool
  pub dry_run : Bool
