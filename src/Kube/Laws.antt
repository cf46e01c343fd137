-- ===== src/Kube/Laws.antt =====
-- What the operator relies on of the API server, for the objects of one kind. `content` is the part
-- of an object that the writer sets.
use sf_operator.Common.{String, Bool, true, false, ◌≡◌, ◌≢◌, none, some, ◌==◌}
use sf_operator.Kube.Client.{already_exists, found, missing, failed, Client}

module _ {W A P : Type 0} (client : Client W A) (content : A → P) where
  open client use {name_of, set_owner, get, create, update, delete}

  -- The server then serves an object of the name with that content.
  abbrev pub Serves : String → P → W → Type 0
  Serves name p w = (a : A) × (get name w ≡ found a) × (content a ≡ p)

  pub record Persists : Type 0 where
    pub get-create :
        (o : A) (w : W)
        → (create false o w).0.error ≡ none
        → Serves (name_of o) (content o) (create false o w).1
    -- Create refuses a name only if it is taken.
    pub create_new :
        (o : A) (w : W)
        → get (name_of o) w ≡ missing
        → (create false o w).0.error ≢ some already_exists
    pub get-update :
        (o : A) (w : W)
        → (update false o w).0.error ≡ none
        → Serves (name_of o) (content o) (update false o w).1
    pub get-name : (name : String) (w : W) {a : A} → get name w ≡ found a → name_of a ≡ name
    pub name-set_owner : (mode : Bool) (o : A) → name_of (set_owner mode o) ≡ name_of o
    pub content-set_owner : (mode : Bool) (o : A) → content (set_owner mode o) ≡ content o

module _ {W A P : Type 0} (client : Client W A) (normal : P → P) (part : A → P) where
  -- A part of what is served is in its normal form, in which the server has filled in what was left
  -- out and dropped what is empty.
  abbrev pub ServesNormal : Type 0
  ServesNormal =
      (name : String) (a : A) (w : W) → client.get name w ≡ found a → normal (part a) ≡ part a

module _ {W A : Type 0} (client : Client W A) where
  open client use {create, update, delete}

  -- A dry run is not persisted.
  pub record IsDry : Type 0 where
    pub dry_create : (o : A) (w : W) → (create true o w).1 ≡ w
    pub dry_update : (o : A) (w : W) → (update true o w).1 ≡ w
    pub dry_delete : (name : String) (w : W) → (delete true name w).1 ≡ w

module _ {W A : Type 0} (client : Client W A) where
  open client use {name_of, get, create, update}

  -- The server answers: a read gives the object or its absence, a create of a new name and an update
  -- of an existing one succeed.
  pub record IsAvailable : Type 0 where
    pub reads : (name : String) (w : W) → get name w ≢ failed
    pub creates : (o : A) (w : W) → get (name_of o) w ≡ missing → (create false o w).0.error ≡ none
    pub updates : (o : A) (w : W) → get (name_of o) w ≢ missing → (update false o w).0.error ≡ none

module _ {W A : Type 0} (client : Client W A) where
  open client use {get, delete}

  -- A delete that succeeds takes the object away, and no delete changes another object.
  pub record Deletes : Type 0 where
    pub get-delete :
        (name : String) (w : W)
        → (delete false name w).0 ≡ none
        → get name (delete false name w).1 ≡ missing
    pub get-delete-other :
        (name other : String) (w : W)
        → (name == other) ≡ false
        → get other (delete false name w).1 ≡ get other w
    -- An object that is served can be deleted.
    pub deletes : (name : String) (w : W) → get name w ≢ missing → (delete false name w).0 ≡ none
