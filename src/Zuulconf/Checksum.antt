-- ===== src/Zuulconf/Checksum.antt =====
-- IniSectionsChecksum and IniGetSectionNamesByPrefix of controllers/libs/utils/utils.go: the checksums
-- of sections, which are annotations of the services, so that a change restarts them.
use Prim.Native.String.{◌++◌}
use text.Mathlib.Text.{starts_with}
use sf_operator.Common.{
  String, ◌≡◌, refl, sym, ◌∙◌, ap, Option, none, some, List, [], ◌∷◌, arith, if◌then◌else◌,
}
use sf_operator.Common.Sort.{insert_sorted, sort_strings}
use sf_operator.Common.Assoc.{Assoc}
use sf_operator.Zuulconf.Ini.{Ini, IsLawful, holds, value}
use sf_operator.Zuulconf.Dump.{insert_key, sort_keys}
use sf_operator.Zuulconf.Sorted.{
  lookup-sort_keys, sort_keys-IsDistinct, sort_keys-IsSorted, sorted_ext,
}

unfoldable pub key_strings : Assoc String → List String
key_strings [] = []
key_strings ((key, text) ∷ rest) = key ∷ key_strings rest

module _ {F : Type 0} (ini : Ini F) where
  open ini use {sections, entries, key_string}

  -- The loop over the sorted keys, `s` being what is gathered.
  unfoldable pub add_keys_text : String → F → List String → String → String
  add_keys_text section cfg [] s = s
  add_keys_text section cfg (k ∷ ks) s =
      add_keys_text section cfg ks (s ++ (k ++ key_string section k cfg))

  unfoldable pub ini_get_section_body : String → F → String
  unfolding key_strings add_keys_text sort_strings
  ini_get_section_body section cfg =
      add_keys_text section cfg (sort_strings (key_strings (entries section cfg))) ""

module _ {F : Type 0} (ini : Ini F) (checksum : String → String) where
  open ini use {sections, entries}

  -- `none` is a panic: there is no such section.
  unfoldable pub sections_data : F → List String → String → Option String
  unfolding ini_get_section_body
  sections_data cfg [] text = some text
  sections_data cfg (name ∷ names) text =
      let rest = sections_data cfg names (text ++ ini_get_section_body ini name cfg) in
      if holds name (sections cfg) then rest else none

  unfoldable pub ini_sections_checksum : F → List String → Option String
  unfolding sections_data
  ini_sections_checksum cfg names = elim (sections_data cfg names "") [
    | none ↦ none
    | some text ↦ some (checksum text)
  ]

unfoldable pub with_prefix : String → List String → List String
with_prefix prefix [] = []
with_prefix prefix (n ∷ names) =
    let rest = with_prefix prefix names in if starts_with n prefix then n ∷ rest else rest

unfoldable pub ini_get_section_names_by_prefix : {F : Type 0} → Ini F → F → String → List String
unfolding with_prefix
ini_get_section_names_by_prefix ini cfg prefix = with_prefix prefix (ini.sections cfg)

key_strings-insert_key :
    (key text : String) (es : Assoc String)
    → key_strings (insert_key key text es) ≡ insert_sorted key (key_strings es)
unfolding key_strings insert_key insert_sorted
key_strings-insert_key key text [] = refl
key_strings-insert_key key text ((name, other) ∷ es) =
    ground (arith, key_strings-insert_key key text es)

key_strings-sort_keys :
    (es : Assoc String) → key_strings (sort_keys es) ≡ sort_strings (key_strings es)
unfolding key_strings sort_keys sort_strings
key_strings-sort_keys [] = refl
key_strings-sort_keys ((key, text) ∷ es) =
    key_strings-insert_key key text (sort_keys es)
    ∙ ap (insert_sorted key) (key_strings-sort_keys es)

module _ {F : Type 0} (ini : Ini F) (laws : IsLawful ini) (checksum : String → String) (f g : F)
    (same : ini.sections f ≡ ini.sections g)
    (h : (section key : String) → value ini section key f ≡ value ini section key g) where
  open ini use {sections, entries}
  open laws use {entries-IsDistinct, key_string-ext}

  add_keys_text_ext :
      (section : String) (ks : List String) (s : String)
      → add_keys_text ini section f ks s ≡ add_keys_text ini section g ks s
  unfolding add_keys_text
  add_keys_text_ext section [] s = refl
  add_keys_text_ext section (k ∷ ks) s =
      rw (key_string-ext f g same h section k)
        (add_keys_text_ext section ks (s ++ (k ++ ini.key_string section k g)))

  section_body_any_order :
      (section : String) → ini_get_section_body ini section f ≡ ini_get_section_body ini section g
  unfolding ini_get_section_body
  section_body_any_order section =
      let es = entries section f in
      let fs = entries section g in
      let d = entries-IsDistinct section f in
      let d' = entries-IsDistinct section g in
      let sorted : sort_keys es ≡ sort_keys fs =
        sorted_ext (sort_keys es) (sort_keys fs) (sort_keys-IsSorted es) (sort_keys-IsSorted fs)
          (sort_keys-IsDistinct es d) (sort_keys-IsDistinct fs d')
          (λ key. lookup-sort_keys key es d ∙ (h section key ∙ sym (lookup-sort_keys key fs d'))) in
      let keys : sort_strings (key_strings es) ≡ sort_strings (key_strings fs) =
        sym (key_strings-sort_keys es) ∙ (ap key_strings sorted ∙ key_strings-sort_keys fs) in
      add_keys_text_ext section (sort_strings (key_strings es)) ""
      ∙ ap (λ ks. add_keys_text ini section g ks "") keys

  sections_data_any_order :
      (names : List String) (text : String)
      → sections_data ini checksum f names text ≡ sections_data ini checksum g names text
  unfolding sections_data
  sections_data_any_order [] text = refl
  sections_data_any_order (name ∷ names) text =
      rw
        (
          same,
          section_body_any_order name,
          sections_data_any_order names (text ++ ini_get_section_body ini name g),
        )
        refl

-- Two files with the same sections and the same values have the same checksum of every list of
-- sections, in whatever order their keys were set, and for both it is a panic if a section is not
-- there: the order alone restarts no service.
pub ini_sections_checksum_any_order :
    {F : Type 0} (ini : Ini F) (laws : IsLawful ini) (checksum : String → String) (f g : F)
    (names : List String)
    → ini.sections f ≡ ini.sections g
    → ((section key : String) → value ini section key f ≡ value ini section key g)
    → ini_sections_checksum ini checksum f names ≡ ini_sections_checksum ini checksum g names
unfolding ini_sections_checksum
ini_sections_checksum_any_order ini laws checksum f g names same h =
    rw (ini_sections_checksum, sections_data_any_order ini laws checksum f g same h names "") refl
