-- ===== src/Zuulconf/Edits.antt =====
-- What the functions of the connections do to the file, as a change of one section: `change` gives
-- the value of a key from what it was, and reads the secrets of the state.
use sf_operator.Common.{
  String, ◌≡◌, sym, ◌∙◌, true, false, ◌||◌, not, Option, none, some, [], ◌∷◌, arith, if◌then◌else◌,
  ◌==◌, eq_iff,
}
use sf_operator.Common.Assoc.{Assoc, lookup}
use sf_operator.Kube.Exec.{Exec, ret, pure, ◌>>=◌, >>=-eq-ret}
use sf_operator.Zuulconf.Ini.{
  Ini, IsLawful, IsDistinct, Settings, value, setting, are_named, value-set_keys, value-new_key,
}
use sf_operator.Zuulconf.Sections.{add_section, add_key_to_section, add_keys}

abbrev pub Change : Type 0 → Type 0
Change W = W → String → Option String → Option String

-- What the range over a map sets: a key of an empty text stays as it was, but for the server.
unfoldable pub kept : Assoc String → String → Option String → Option String
kept entries key old = elim (lookup key entries) [
  | none ↦ old
  | some text ↦
      if key == "server" || not (text == "")
      then some (if text == "" then "localhost" else text)
      else old
]

-- A range over a map visits each of its entries once.
abbrev pub IsVisit : (Assoc String → Assoc String) → Type 0
IsVisit visit =
    (m : Assoc String)
    → IsDistinct m
    → IsDistinct (visit m) × ((key : String) → lookup key (visit m) ≡ lookup key m)

module _ {F : Type 0} (ini : Ini F) where
  -- The keys of the section change, and those of no other.
  abbrev pub IsChanged : String → (String → Option String → Option String) → F → F → Type 0
  IsChanged section change cfg cfg' =
      (other key : String)
      → value ini other key cfg' ≡ (
          if section == other
          then change key (value ini other key cfg)
          else value ini other key cfg)

  -- A step that returns has written nothing to the server, and has changed the section.
  abbrev pub IsEdit : (W : Type 0) → String → Change W → (F → Exec W F) → Type 0
  IsEdit W section change step =
      (cfg : F) (w : W) (cfg' : F) (w' : W)
      → step cfg w ≡ (ret cfg', w')
      → (w' ≡ w) × IsChanged section (change w) cfg cfg'

  module _ {W : Type 0} (section : String) where
    pub IsEdit-pure :
        (change : String → Option String → Option String) (make : F → F)
        → ((cfg : F) → IsChanged section change cfg (make cfg))
        → IsEdit W section (λ w. change) (λ cfg. pure (make cfg))
    IsEdit-pure change make made cfg w cfg' w' h =
        let e : make cfg ≡ cfg' = cc in (cc, λ other key. rw (sym e) (made cfg other key))

    changed_cong :
        {U : Type 0} (change : U → Change W) (other key : String) (old : Option String) {a b : U}
        {w v : W}
        → a ≡ b
        → v ≡ w
        → (if section == other then change a v key old else old)
          ≡ (if section == other then change b w key old else old)
    changed_cong change other key old e e' = cc

    -- A step that first reads something: what it sees is a function of the state.
    pub IsEdit-bind :
        {T U : Type 0} (m : Exec W T) (seen : T → U) (there : W → U) (change : U → Change W)
        (step : T → F → Exec W F)
        → ((w : W) (t : T) (w' : W) → m w ≡ (ret t, w') → (w' ≡ w) × (seen t ≡ there w))
        → ((t : T) → IsEdit W section (change (seen t)) (step t))
        → IsEdit W section (λ w. change (there w) w) (λ cfg. m >>= λ t. step t cfg)
    IsEdit-bind m seen there change step reads edits cfg w cfg' w' h =
        let (t, v, e, k) = >>=-eq-ret m (λ t. step t cfg) w h in
        let (same, told) = reads w t v e in
        let (after, changed) = edits t cfg v cfg' w' k in
        (
          after ∙ same,
          λ other key.
              changed other key ∙ changed_cong change other key (value ini other key cfg) told same,
        )

  module _ (laws : IsLawful ini) where
    open laws use {entries-new_section}

    pub add_section-IsChanged :
        (section : String) (settings : Settings) (cfg : F)
        → are_named settings ≡ true
        → IsChanged section (λ key. setting key settings) cfg (add_section ini section settings cfg)
    add_section-IsChanged section settings cfg h other key = ground (
      arith,
      value-set_keys ini laws section settings other key (ini.new_section section cfg) h,
      entries-new_section section other cfg,
    )

    value-add_key_to_section :
        (section key text other name : String) (cfg : F)
        → (key == "") ≡ false
        → value ini other name (add_key_to_section ini section key text cfg) ≡ (
            if section == other
            then kept ((key, text) ∷ []) name (value ini other name cfg)
            else value ini other name cfg)
    unfolding add_key_to_section kept lookup
    value-add_key_to_section section key text other name cfg h = ground (
      arith,
      eq_iff key name,
      value-new_key ini laws section key text other name cfg h,
      value-new_key ini laws section key "localhost" other name cfg h,
    )

    pub add_keys-IsChanged :
        (section : String) (entries : Assoc String) (cfg : F)
        → IsDistinct entries
        → lookup "" entries ≡ none
        → IsChanged section (kept entries) cfg (add_keys ini section entries cfg)
    unfolding add_keys kept lookup
    add_keys-IsChanged section [] cfg d h other key = ground arith
    add_keys-IsChanged section ((name, text) ∷ rest) cfg (d, ds) h other key = ground (
      arith,
      eq_iff name key,
      add_keys-IsChanged section rest (add_key_to_section ini section name text cfg) ds
          (ground arith) other key,
      value-add_key_to_section section name text other key cfg (ground arith),
    )
