-- ===== src/Volume/Grow.antt =====
-- When reconcileExpandPVC and reconcileExpandPVCs write, and what.
use Prim.Native.Nat.{Ordering}
use sf_operator.Common.{
  String, ◌≡◌, refl, sym, ap, ◌∙◌, ◌⊎◌, inl, inr, Bool, true, false, ◌||◌, Option, none, some, List,
  [], ◌∷◌, arith, if◌then◌else◌, all, Bool-cases, Option-cases,
}
use sf_operator.Kube.Exec.{Exec, ret, pure, ◌>>=◌, >>=-eq-ret}
use sf_operator.Kube.Client.{Got-cases, found, missing, failed, Client, Context}
use sf_operator.Kube.Crud.{get_or_die}
use sf_operator.Volume.Quantity.{Quantity}
use sf_operator.Volume.Storage.{StorageSpec}
use sf_operator.Volume.Expand.{
  Pvc, new_resources, StorageClass, is_resizing, can_storage_resize, expand, reconcile_expand_pvc,
  reconcile_each, reconcile_expand_pvcs,
}

module _ {W Q : Type 0} (classes : Client W StorageClass) (pvcs : Client W (Pvc Q))
    (qty : Quantity Q) (r : Context) where
  open qty use {is_positive, is_zero, cmp}

  -- The claim with the requirements of the new size, written outside any dry run.
  abbrev pub grown : StorageSpec Q → Pvc Q → W → W
  grown spec pvc w = (pvcs.update false (record pvc { resources = new_resources spec.size }) w).1

  world-can_storage_resize :
      (class : Option String) (w : W) → (can_storage_resize classes pvcs qty r class w).1 ≡ w
  unfolding can_storage_resize
  world-can_storage_resize none w = refl
  world-can_storage_resize (some name) w = ground arith

  expand-cases :
      (spec : StorageSpec Q) (pvc : Pvc Q) (w : W)
      → ((expand classes pvcs qty r spec pvc w).1 ≡ w)
        ⊎ ((cmp spec.size pvc.capacity ≡ Ordering.gt)
            × (expand classes pvcs qty r spec pvc w ≡ (ret false, grown spec pvc w)))
  unfolding expand
  expand-cases spec pvc w = ground (arith, world-can_storage_resize pvc.storage_class_name w)

  reconcile_of_found :
      (name : String) (spec : StorageSpec Q) (w : W) {pvc : Pvc Q}
      → pvcs.get name w ≡ found pvc
      → is_positive spec.size ≡ true
      → reconcile_expand_pvc classes pvcs qty r name spec w
        ≡ (if is_zero pvc.capacity || is_resizing pvc.conditions
              then pure false
              else expand classes pvcs qty r spec pvc)
            w
  unfolding reconcile_expand_pvc
  reconcile_of_found name spec w g p = rw (p, g, get_or_die)

  reconcile_of_busy :
      (name : String) (spec : StorageSpec Q) (w : W) {pvc : Pvc Q}
      → pvcs.get name w ≡ found pvc
      → is_positive spec.size ≡ true
      → (is_zero pvc.capacity || is_resizing pvc.conditions) ≡ true
      → reconcile_expand_pvc classes pvcs qty r name spec w ≡ (ret false, w)
  reconcile_of_busy name spec w g p b = reconcile_of_found name spec w g p ∙ rw b

  reconcile_of_idle :
      (name : String) (spec : StorageSpec Q) (w : W) {pvc : Pvc Q}
      → pvcs.get name w ≡ found pvc
      → is_positive spec.size ≡ true
      → (is_zero pvc.capacity || is_resizing pvc.conditions) ≡ false
      → reconcile_expand_pvc classes pvcs qty r name spec w ≡ expand classes pvcs qty r spec pvc w
  reconcile_of_idle name spec w g p b = reconcile_of_found name spec w g p ∙ rw b

  reconcile_of_absent :
      (name : String) (spec : StorageSpec Q) (w : W)
      → (pvcs.get name w ≡ missing) ⊎ (pvcs.get name w ≡ failed)
      → (reconcile_expand_pvc classes pvcs qty r name spec w).1 ≡ w
  unfolding reconcile_expand_pvc
  reconcile_of_absent name spec w a = ground arith

  -- The call leaves the cluster as it was; or the claim exists, has a capacity, is not being resized
  -- and is smaller than the spec, and then the call writes the spec's size to its request and
  -- answers false.
  pub reconcile_expand_pvc_grows :
      (name : String) (spec : StorageSpec Q) (w : W)
      → ((reconcile_expand_pvc classes pvcs qty r name spec w).1 ≡ w)
        ⊎ ((pvc : Pvc Q) × (pvcs.get name w ≡ found pvc)
            × (is_zero pvc.capacity ≡ false)
            × (is_resizing pvc.conditions ≡ false)
            × (cmp spec.size pvc.capacity ≡ Ordering.gt)
            × (reconcile_expand_pvc classes pvcs qty r name spec w ≡ (ret false, grown spec pvc w)))
  reconcile_expand_pvc_grows name spec w = elim (Bool-cases (is_positive spec.size)) [
    | inr n ↦ inl (unfold reconcile_expand_pvc in rw n)
    | inl p ↦ elim (Got-cases (pvcs.get name w)) [
      | inr a ↦ inl (reconcile_of_absent name spec w a)
      | inl (pvc, g) ↦ elim (Bool-cases (is_zero pvc.capacity || is_resizing pvc.conditions)) [
        | inl b ↦ inl (ap (λ o. o.1) (reconcile_of_busy name spec w g p b))
        | inr b ↦ elim (expand-cases spec pvc w) [
          | inl e ↦ inl (ap (λ o. o.1) (reconcile_of_idle name spec w g p b) ∙ e)
          | inr (c, e) ↦
              inr (pvc, g, ground arith, ground arith, c, reconcile_of_idle name spec w g p b ∙ e)
        ]
      ]
    ]
  ]

  -- A volume that is reported to be done was not written to.
  pub reconcile_expand_pvc_done :
      (name : String) (spec : StorageSpec Q) (w : W) {w' : W}
      → reconcile_expand_pvc classes pvcs qty r name spec w ≡ (ret true, w')
      → w' ≡ w
  reconcile_expand_pvc_done name spec w h = elim (reconcile_expand_pvc_grows name spec w) [
    | inl e ↦ sym (ap (λ o. o.1) h) ∙ e
    | inr (pvc, g, z, s, c, e) ↦ cc
  ]

  reconcile_each_done :
      (spec : StorageSpec Q) (items : List (Pvc Q)) (w : W) {bs : List Bool} {w' : W}
      → reconcile_each classes pvcs qty r spec items w ≡ (ret bs, w')
      → all (λ b. b) bs ≡ true
      → w' ≡ w
  unfolding reconcile_each
  reconcile_each_done spec [] w h t = ground arith
  reconcile_each_done spec (pvc ∷ rest) w h t =
      let (b, v, first, then') =
        >>=-eq-ret (reconcile_expand_pvc classes pvcs qty r pvc.name spec) _ w h in
      let (cs, u, second, last) =
        >>=-eq-ret (reconcile_each classes pvcs qty r spec rest) _ v then' in
      let b_true : b ≡ true = ground (arith, last) in
      let cs_true : all (λ x. x) cs ≡ true = ground (arith, last) in
      cc (
        last,
        reconcile_each_done spec rest v second cs_true,
        reconcile_expand_pvc_done pvc.name spec w (rw b_true at first),
      )

  abbrev all_done : List (Pvc Q) → StorageSpec Q → Exec W Bool
  all_done items spec =
      reconcile_each classes pvcs qty r spec items >>= λ ready_list. pure (all (λ b. b) ready_list)

  all_done-done :
      (items : List (Pvc Q)) (spec : StorageSpec Q) (w : W) {w' : W}
      → all_done items spec w ≡ (ret true, w')
      → w' ≡ w
  all_done-done items spec w h =
      let (bs, v, first, last) = >>=-eq-ret (reconcile_each classes pvcs qty r spec items) _ w h in
      let bs_true : all (λ x. x) bs ≡ true = ground (arith, last) in
      cc (last, reconcile_each_done spec items w first bs_true)

  -- If the volumes of a service are reported to be done, none of them was written to.
  pub reconcile_expand_pvcs_done :
      (list : String → W → Option (List (Pvc Q))) (service : String) (spec : StorageSpec Q) (w : W)
      {w' : W}
      → reconcile_expand_pvcs classes pvcs qty r list service spec w ≡ (ret true, w')
      → w' ≡ w
  unfolding reconcile_expand_pvcs
  reconcile_expand_pvcs_done list service spec w h = elim (Option-cases (list service w)) [
    | inl e ↦ cc (h, e)
    | inr (items, e) ↦ all_done-done items spec w (rw (e, reconcile_expand_pvcs) at h)
  ]
