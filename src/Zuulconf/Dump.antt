-- ===== src/Zuulconf/Dump.antt =====
-- DumpConfigINI: the keys of each section are taken out and set again in the order of their names.
use sf_operator.Common.{String, List, [], ◌∷◌, if◌then◌else◌, leb_text}
use sf_operator.Common.Assoc.{Assoc}
use sf_operator.Zuulconf.Ini.{Ini}

unfoldable pub insert_key : String → String → Assoc String → Assoc String
insert_key key text [] = (key, text) ∷ []
insert_key key text ((name, other) ∷ rest) =
    if leb_text key name
    then (key, text) ∷ (name, other) ∷ rest
    else (name, other) ∷ insert_key key text rest

-- sort.Slice by the names, which are distinct.
unfoldable pub sort_keys : Assoc String → Assoc String
unfolding insert_key
sort_keys [] = []
sort_keys ((key, text) ∷ rest) = insert_key key text (sort_keys rest)

module _ {F : Type 0} (ini : Ini F) where
  open ini use {sections, entries, new_key, delete_key, write_to}

  unfoldable pub delete_all : String → Assoc String → F → F
  delete_all section [] cfg = cfg
  delete_all section ((key, text) ∷ rest) cfg = delete_all section rest (delete_key section key cfg)

  unfoldable pub set_all : String → Assoc String → F → F
  set_all section [] cfg = cfg
  set_all section ((key, text) ∷ rest) cfg = set_all section rest (new_key section key text cfg)

  unfoldable pub sort_section : String → F → F
  unfolding sort_keys delete_all set_all
  sort_section section cfg =
      let keys = sort_keys (entries section cfg) in
      set_all section keys (delete_all section keys cfg)

  unfoldable pub sort_sections : List String → F → F
  unfolding sort_section
  sort_sections [] cfg = cfg
  sort_sections (section ∷ rest) cfg = sort_sections rest (sort_section section cfg)

  -- The text, and the file that it leaves.
  unfoldable pub dump_config_ini : F → String × F
  unfolding sort_sections
  dump_config_ini cfg = let sorted = sort_sections (sections cfg) cfg in (write_to sorted, sorted)
