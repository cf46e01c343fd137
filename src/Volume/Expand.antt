-- ===== src/Volume/Expand.antt =====
-- canStorageResize, reconcileExpandPVC and reconcileExpandPVCs.
use Prim.Native.Nat.{Ordering}
use sf_operator.Common.{
  String, Bool, true, false, ◌||◌, not, Option, none, some, List, [], ◌∷◌, ◌==◌, if◌then◌else◌, any,
  all,
}
use sf_operator.Common.Assoc.{Assoc}
use sf_operator.Kube.Exec.{Exec, ret, pure, ◌>>=◌}
use sf_operator.Kube.Client.{Client, Context}
use sf_operator.Kube.Crud.{get_or_die}
use sf_operator.Volume.Quantity.{Quantity}
use sf_operator.Volume.Storage.{StorageSpec}

-- apiv1.VolumeResourceRequirements
pub record Resources (Q : Type 0) : Type 0 where
  pub requests : Assoc Q
  pub limits : Assoc Q

-- The requirements of a volume of that size.
abbrev pub new_resources : {Q : Type 0} → Q → Resources Q
new_resources size = record { requests = ("storage", size) ∷ []; limits = [] }

-- apiv1.PersistentVolumeClaim: its capacity is in the status, `resources` in the spec, and
-- `conditions` are the types of its conditions.
pub record Pvc (Q : Type 0) : Type 0 where
  pub name : String
  pub capacity : Q
  pub resources : Resources Q
  pub conditions : List String
  pub storage_class_name : Option String

pub record StorageClass : Type 0 where
  pub name : String
  pub allow_volume_expansion : Option Bool

abbrev pub allows : StorageClass → Bool
allows sc = elim sc.allow_volume_expansion [ none ↦ false | some b ↦ b ]

-- A resize is in progress.
abbrev pub is_resizing : List String → Bool
is_resizing conditions = any (λ c. c == "Resizing" || c == "FileSystemResizePending") conditions

module _ {W Q : Type 0} (classes : Client W StorageClass) (pvcs : Client W (Pvc Q))
    (qty : Quantity Q) (r : Context) where
  open qty use {is_positive, is_zero, cmp}

  -- An unknown storage class is taken to support the expansion.
  unfoldable pub can_storage_resize : Option String → Exec W Bool
  unfolding get_or_die
  can_storage_resize none = pure true
  can_storage_resize (some name) = if name == "" then pure true else do
    class ← get_or_die classes r name
    elim class [ none ↦ pure true | some sc ↦ pure (allows sc) ]

  -- r.Client.Update without an option; after an error as after a success the answer is false.
  abbrev write : Pvc Q → Exec W Bool
  write pvc w = (ret false, (pvcs.update false pvc w).1)

  -- The `switch` on the comparison of the new size with the current one.
  unfoldable pub expand : StorageSpec Q → Pvc Q → Exec W Bool
  expand spec pvc = elim (cmp spec.size pvc.capacity) [
    | Ordering.lt ↦ pure true
    | Ordering.eq ↦ pure true
    | Ordering.gt ↦ do
      resizable ← can_storage_resize pvc.storage_class_name
      if resizable then write (record pvc { resources = new_resources spec.size }) else pure true
  ]

  -- True if the volume is as large as it will get, false if the caller has to come back.
  unfoldable pub reconcile_expand_pvc : String → StorageSpec Q → Exec W Bool
  unfolding get_or_die
  reconcile_expand_pvc name spec = if not (is_positive spec.size) then pure true else do
    found ← get_or_die pvcs r name
    elim found [
      | none ↦ pure false
      | some pvc ↦
          if is_zero pvc.capacity || is_resizing pvc.conditions then pure false else expand spec pvc
    ]

  -- Every volume is visited, also after one that is not ready.
  unfoldable pub reconcile_each : StorageSpec Q → List (Pvc Q) → Exec W (List Bool)
  reconcile_each spec [] = pure []
  reconcile_each spec (pvc ∷ rest) = do
    ready ← reconcile_expand_pvc pvc.name spec
    others ← reconcile_each spec rest
    pure (ready ∷ others)

  -- `list` is r.Client.List with the labels of the service; `none` is its error.
  unfoldable pub reconcile_expand_pvcs :
      (String → W → Option (List (Pvc Q))) → String → StorageSpec Q → Exec W Bool
  reconcile_expand_pvcs list service spec w = elim (list service w) [
    | none ↦ (ret false, w)
    | some items ↦ (reconcile_each spec items >>= λ ready_list. pure (all (λ b. b) ready_list)) w
  ]
