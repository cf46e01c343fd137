-- ===== src/Volume/Storage.antt =====
-- BaseGetStorageConfOrDefault: the size and the storage class of a volume.
use sf_operator.Common.{
  String, ◌≡◌, ◌≢◌, ◌↔◌, false, not, Option, none, some, arith, ◌==◌, eq_iff, if◌then◌else◌,
}
use sf_operator.Common.Assoc.{Assoc}
use sf_operator.Api.{StorageDefaultSpec}
use sf_operator.Volume.Quantity.{Quantity}

pub record StorageSpec (Q : Type 0) : Type 0 where
  pub size : Q
  pub class_name : String

-- base.StorageConfig
pub record StorageConfig (Q : Type 0) : Type 0 where
  pub storage_class_name : Option String
  pub size : Q
  pub extra_annotations : Assoc String

module _ {Q : Type 0} (qty : Quantity Q) where
  open qty use {is_zero, qty_1gi}

  unfoldable pub base_get_storage_conf_or_default :
      StorageSpec Q → StorageDefaultSpec → StorageConfig Q
  base_get_storage_conf_or_default spec default =
      let class = if not (default.class_name == "") then some default.class_name else none in
      let size = if not (is_zero spec.size) then spec.size else qty_1gi in
      record {
        storage_class_name = if not (spec.class_name == "") then some spec.class_name else class;
        size = size;
        extra_annotations = default.extra_annotations;
      }

  -- The spec's own class comes before the default class, no class is named if both are empty, and
  -- the size is never zero, provided that 1Gi is not.
  pub storage_conf_lem :
      (spec : StorageSpec Q) (default : StorageDefaultSpec)
      → is_zero qty_1gi ≡ false
      → (is_zero (base_get_storage_conf_or_default spec default).size ≡ false)
        × (((base_get_storage_conf_or_default spec default).storage_class_name ≡ none)
            ↔ ((spec.class_name ≡ "") × (default.class_name ≡ "")))
        × ((base_get_storage_conf_or_default spec default).storage_class_name ≢ some "")
  unfolding base_get_storage_conf_or_default
  storage_conf_lem spec default h = (
    ground arith,
    (
      ground (arith, eq_iff spec.class_name "", eq_iff default.class_name ""),
      ground (arith, eq_iff spec.class_name "", eq_iff default.class_name ""),
    ),
    ground (arith, eq_iff spec.class_name "", eq_iff default.class_name ""),
  )
