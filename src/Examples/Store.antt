-- ===== src/Examples/Store.antt =====
-- An API server that keeps its objects in a list, and has what the operator relies on.
use sf_operator.Common.{
  String, ◌≡◌, ◌≢◌, refl, ◌∙◌, Bool, true, false, Option, none, some, List, [], ◌∷◌, arith, ◌==◌,
  eq_iff, eq_refl, if◌then◌else◌,
}
use sf_operator.Kube.Client.{
  ApiError, not_found, already_exists, Got, found, missing, failed, Reply, Client,
}
use sf_operator.Kube.Laws.{Persists, IsDry, IsAvailable, Deletes}

module _ {A : Type 0} (name_of : A → String) where
  unfoldable pub find : String → List A → Got A
  find name [] = missing
  find name (a ∷ w) = if name_of a == name then found a else find name w

  unfoldable pub replace : A → List A → List A
  replace o [] = []
  replace o (a ∷ w) = let rest = replace o w in if name_of a == name_of o then o ∷ w else a ∷ rest

  unfoldable pub remove : String → List A → List A
  remove name [] = []
  remove name (a ∷ w) = let rest = remove name w in if name_of a == name then rest else a ∷ rest

  abbrev store_create : Bool → A → List A → Got A → Reply A × List A
  store_create dry_run o w (found _) = (record { object = o; error = some already_exists }, w)
  store_create dry_run o w failed = (record { object = o; error = some already_exists }, w)
  store_create dry_run o w missing =
      (record { object = o; error = none }, if dry_run then w else o ∷ w)

  abbrev store_update : Bool → A → List A → Got A → Reply A × List A
  store_update dry_run o w missing = (record { object = o; error = some not_found }, w)
  store_update dry_run o w failed = (record { object = o; error = some not_found }, w)
  store_update dry_run o w (found _) =
      (record { object = o; error = none }, if dry_run then w else replace o w)

  abbrev store_delete : Bool → String → List A → Got A → Option ApiError × List A
  store_delete dry_run name w missing = (some not_found, w)
  store_delete dry_run name w failed = (some not_found, w)
  store_delete dry_run name w (found _) = (none, if dry_run then w else remove name w)

  abbrev pub store : Client (List A) A
  store = record {
    name_of = name_of;
    set_owner = λ mode o. o;
    get = find;
    create = λ dry_run o w. store_create dry_run o w (find (name_of o) w);
    update = λ dry_run o w. store_update dry_run o w (find (name_of o) w);
    delete = λ dry_run name w. store_delete dry_run name w (find name w);
  }

  find-replace :
      (o : A) (w : List A) → find (name_of o) w ≢ missing → find (name_of o) (replace o w) ≡ found o
  unfolding find replace
  find-replace o [] h = absurd (h refl)
  find-replace o (a ∷ w) h = ground (arith, eq_refl (name_of o), find-replace o w)

  find-name : (name : String) (w : List A) {a : A} → find name w ≡ found a → name_of a ≡ name
  unfolding find
  find-name name [] h = cc
  find-name name (b ∷ w) {a = a} h =
      ground (arith, eq_iff (name_of b) name, find-name name w {a = a})

  find-answers : (name : String) (w : List A) → find name w ≢ failed
  unfolding find
  find-answers name [] h = cc
  find-answers name (a ∷ w) h = ground (arith, find-answers name w)

  find-head : (o : A) (w : List A) → find (name_of o) (o ∷ w) ≡ found o
  unfolding find
  find-head o w = rw (eq_refl (name_of o)) refl

  created :
      (o : A) (w : List A) (g : Got A)
      → (store_create false o w g).0.error ≡ none
      → (store_create false o w g).1 ≡ o ∷ w
  created o w missing h = refl
  created o w (found a) h = cc
  created o w failed h = cc

  create_missing :
      (o : A) (w : List A) (g : Got A) → g ≡ missing → (store_create false o w g).0.error ≡ none
  create_missing o w missing h = refl
  create_missing o w (found a) h = cc
  create_missing o w failed h = cc

  updated :
      (o : A) (w : List A) (g : Got A)
      → (store_update false o w g).0.error ≡ none
      → (g ≢ missing) × ((store_update false o w g).1 ≡ replace o w)
  updated o w missing h = cc
  updated o w failed h = cc
  updated o w (found a) h = (λ e. cc, refl)

  update_there :
      (o : A) (w : List A) (g : Got A)
      → g ≢ failed
      → g ≢ missing
      → (store_update false o w g).0.error ≡ none
  update_there o w missing f m = absurd (m refl)
  update_there o w failed f m = absurd (f refl)
  update_there o w (found a) f m = refl

  pub store-Persists : {P : Type 0} (content : A → P) → Persists store content
  store-Persists content = record {
    get-create = λ o w h. (o, rw (created o w (find (name_of o) w) h) (find-head o w), refl);
    create_new = λ o w m e. cc (e, create_missing o w (find (name_of o) w) m);
    get-update = λ o w h.
        let (there, e) = updated o w (find (name_of o) w) h in
        (o, rw e (find-replace o w there), refl);
    get-name = λ name w h. find-name name w h;
    name-set_owner = λ mode o. refl;
    content-set_owner = λ mode o. refl;
  }

  pub store-IsAvailable : IsAvailable store
  store-IsAvailable = record {
    reads = find-answers;
    creates = λ o w m. create_missing o w (find (name_of o) w) m;
    updates = λ o w m. update_there o w (find (name_of o) w) (find-answers (name_of o) w) m;
  }

  dry_created : (o : A) (w : List A) (g : Got A) → (store_create true o w g).1 ≡ w
  dry_created o w missing = refl
  dry_created o w (found a) = refl
  dry_created o w failed = refl

  dry_updated : (o : A) (w : List A) (g : Got A) → (store_update true o w g).1 ≡ w
  dry_updated o w missing = refl
  dry_updated o w (found a) = refl
  dry_updated o w failed = refl

  dry_deleted : (name : String) (w : List A) (g : Got A) → (store_delete true name w g).1 ≡ w
  dry_deleted name w missing = refl
  dry_deleted name w (found a) = refl
  dry_deleted name w failed = refl

  pub store-IsDry : IsDry store
  store-IsDry = record {
    dry_create = λ o w. dry_created o w (find (name_of o) w);
    dry_update = λ o w. dry_updated o w (find (name_of o) w);
    dry_delete = λ name w. dry_deleted name w (find name w);
  }

  find-remove :
      (name other : String) (w : List A)
      → find other (remove name w) ≡ (if name == other then missing else find other w)
  unfolding find remove
  find-remove name other [] = ground arith
  find-remove name other (a ∷ w) = ground (
    arith,
    eq_iff (name_of a) name,
    eq_iff (name_of a) other,
    eq_iff name other,
    find-remove name other w,
  )

  deleted_gone :
      (name : String) (w : List A) (g : Got A)
      → (store_delete false name w g).0 ≡ none
      → find name (store_delete false name w g).1 ≡ missing
  deleted_gone name w missing h = cc
  deleted_gone name w failed h = cc
  deleted_gone name w (found a) h = find-remove name name w ∙ ground (arith, eq_refl name)

  deleted_other :
      (name other : String) (w : List A) (g : Got A)
      → (name == other) ≡ false
      → find other (store_delete false name w g).1 ≡ find other w
  deleted_other name other w missing h = refl
  deleted_other name other w failed h = refl
  deleted_other name other w (found a) h = find-remove name other w ∙ ground arith

  deleted_there :
      (name : String) (w : List A) (g : Got A)
      → g ≢ missing
      → g ≢ failed
      → (store_delete false name w g).0 ≡ none
  deleted_there name w missing m f = absurd (m refl)
  deleted_there name w failed m f = absurd (f refl)
  deleted_there name w (found a) m f = refl

  pub store-Deletes : Deletes store
  store-Deletes = record {
    get-delete = λ name w h. deleted_gone name w (find name w) h;
    get-delete-other = λ name other w h. deleted_other name other w (find name w) h;
    deletes = λ name w h. deleted_there name w (find name w) h (find-answers name w);
  }
