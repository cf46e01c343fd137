-- ===== src/Zuulconf/Ini.antt =====
-- gopkg.in/ini.v1, which the operator is given: a file of sections, each with keys and their values
-- in order. `F` is the type of a file.
use sf_operator.Common.{
  String, ◌≡◌, Bool, false, ◌&&◌, Option, none, some, List, [], ◌∷◌, arith, if◌then◌else◌, ◌==◌,
}
use sf_operator.Common.Assoc.{Assoc, lookup, insert, erase, lookup-insert}

-- What the operator calls. `entries` gives Keys() of a section, each key by its name and value, and
-- `new_key` is Section(section).NewKey(key, value), which makes the section if there is none. The
-- callers drop the errors of NewSection and NewKey.
pub record Ini (F : Type 0) : Type 0 where
  pub sections : F → List String
  pub entries : String → F → Assoc String
  pub new_section : String → F → F
  pub new_key : String → String → String → F → F
  pub delete_key : String → String → F → F
  pub write_to : F → String
  -- Section(section).Key(key).String(), in which the references to other keys are expanded.
  pub key_string : String → String → F → String

-- A name stands in a list.
abbrev pub holds : String → List String → Bool
holds name [] = false
holds name (x ∷ xs) = if x == name then Bool.true else holds name xs

-- No key stands twice.
abbrev pub IsDistinct : Assoc String → Type 0
IsDistinct [] = Unit
IsDistinct ((key, value) ∷ rest) = (lookup key rest ≡ none) × IsDistinct rest

module _ {F : Type 0} (ini : Ini F) where
  open ini use {sections, entries, new_section, new_key, delete_key, key_string}

  -- What the documentation of the library says of a file that is read with the default options. A
  -- key with no name is an error.
  pub record IsLawful : Type 0 where
    pub entries-new_section :
        (section other : String) (f : F) → entries other (new_section section f) ≡ entries other f
    pub entries-new_key :
        (section key text other : String) (f : F)
        → (key == "") ≡ false
        → entries other (new_key section key text f)
          ≡ (if section == other then insert key text (entries other f) else entries other f)
    pub entries-delete_key :
        (section key other : String) (f : F)
        → entries other (delete_key section key f)
          ≡ (if section == other then erase key (entries other f) else entries other f)
    -- A key is written where its section stands already.
    pub sections-new_key :
        (section key text : String) (f : F)
        → holds section (sections f) ≡ Bool.true
        → sections (new_key section key text f) ≡ sections f
    pub sections-delete_key :
        (section key : String) (f : F) → sections (delete_key section key f) ≡ sections f
    pub entries-IsDistinct : (section : String) (f : F) → IsDistinct (entries section f)
    pub entries-absent :
        (section : String) (f : F) → holds section (sections f) ≡ false → entries section f ≡ []
    pub entries-named : (section : String) (f : F) → lookup "" (entries section f) ≡ none
    -- A reference %(name)s stands for the value of another key of the file.
    pub key_string-ext :
        (f g : F)
        → sections f ≡ sections g
        → ((section key : String) → lookup key (entries section f) ≡ lookup key (entries section g))
        → (section key : String) → key_string section key f ≡ key_string section key g

  -- The value of a key.
  abbrev pub value : String → String → F → Option String
  value section key f = lookup key (entries section f)

-- The statements of a function that set keys of one section, in order: a key and what it is set to,
-- or nothing where the statement stands under a condition that does not hold.
abbrev pub Settings : Type 0
Settings = List (String × Option String)

module _ {F : Type 0} (ini : Ini F) where
  open ini use {new_key}

  unfoldable pub set_keys : String → Settings → F → F
  set_keys section [] f = f
  set_keys section ((key, none) ∷ rest) f = set_keys section rest f
  set_keys section ((key, some text) ∷ rest) f = set_keys section rest (new_key section key text f)

-- The value of `key` after the settings, if it was `old` before.
unfoldable pub setting : String → Settings → Option String → Option String
setting key [] old = old
setting key ((name, text) ∷ rest) old =
    setting key rest (if name == key then (elim text [ none ↦ old | some t ↦ some t ]) else old)

-- All keys have names.
unfoldable pub are_named : Settings → Bool
are_named [] = Bool.true
are_named ((name, text) ∷ rest) = if name == "" then false else are_named rest

module _ {F : Type 0} (ini : Ini F) (laws : IsLawful ini) where
  open ini use {new_key}
  open laws use {entries-new_key}

  pub value-new_key :
      (section key text other name : String) (f : F)
      → (key == "") ≡ false
      → value ini other name (new_key section key text f)
        ≡ (if section == other && key == name then some text else value ini other name f)
  value-new_key section key text other name f h = grind (
    arith,
    entries-new_key section key text other f h,
    lookup-insert key name text (ini.entries other f),
  )

  -- A section's keys after the settings, and the other sections' as before.
  pub value-set_keys :
      (section : String) (settings : Settings) (other key : String) (f : F)
      → are_named settings ≡ Bool.true
      → value ini other key (set_keys ini section settings f) ≡ (
          if section == other
          then setting key settings (value ini other key f)
          else value ini other key f)
  unfolding set_keys setting are_named
  value-set_keys section [] other key f h = ground arith
  value-set_keys section ((name, none) ∷ rest) other key f h =
      ground (arith, value-set_keys section rest other key f (ground arith))
  value-set_keys section ((name, some text) ∷ rest) other key f h = ground (
    arith,
    value-set_keys section rest other key (new_key section name text f) (ground arith),
    value-new_key section name text other key f (ground arith),
  )
