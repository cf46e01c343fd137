-- ===== src/Zuulconf/Dumped.antt =====
-- What DumpConfigINI leaves: the same values, with the keys in order.
use sf_operator.Common.{
  String, ◌≡◌, refl, sym, ap, ◌∙◌, true, none, List, [], ◌∷◌, arith, if◌then◌else◌, ◌==◌, eq_iff,
  eq_refl, ◌⊎◌, inl, inr, Bool-cases,
}
use sf_operator.Common.Assoc.{Assoc, lookup}
use sf_operator.Zuulconf.Ini.{Ini, IsLawful, holds, value}
use sf_operator.Zuulconf.Dump.{
  sort_keys, delete_all, set_all, sort_section, sort_sections, dump_config_ini,
}
use sf_operator.Zuulconf.Sorted.{lookup-sort_keys, sort_keys-IsSorted, IsSorted, sorted_ext}
use sf_operator.Zuulconf.Again.{erase_all, insert_all, sorted_again}

module _ {F : Type 0} (ini : Ini F) (laws : IsLawful ini) where
  open ini use {sections, entries}
  open laws use {
    entries-new_key, entries-delete_key, sections-new_key, sections-delete_key, entries-IsDistinct,
    entries-absent, entries-named,
  }

  entries-delete_all :
      (section other : String) (keys : Assoc String) (f : F)
      → entries other (delete_all ini section keys f)
        ≡ (if section == other then erase_all keys (entries other f) else entries other f)
  unfolding delete_all erase_all
  entries-delete_all section other [] f = ground arith
  entries-delete_all section other ((key, text) ∷ keys) f = ground (
    arith,
    entries-delete_all section other keys (ini.delete_key section key f),
    entries-delete_key section key other f,
  )

  entries-set_all :
      (section other : String) (keys : Assoc String) (f : F)
      → lookup "" keys ≡ none
      → entries other (set_all ini section keys f)
        ≡ (if section == other then insert_all keys (entries other f) else entries other f)
  unfolding set_all insert_all lookup
  entries-set_all section other [] f h = ground arith
  entries-set_all section other ((key, text) ∷ keys) f h = ground (
    arith,
    entries-set_all section other keys (ini.new_key section key text f),
    entries-new_key section key text other f,
  )

  -- A section that is sorted has its keys in order, and the others are as before.
  entries-sort_section :
      (section other : String) (f : F)
      → entries other (sort_section ini section f)
        ≡ (if section == other then sort_keys (entries other f) else entries other f)
  unfolding sort_section
  entries-sort_section section other f =
      let keys = sort_keys (entries section f) in
      entries-set_all section other keys (delete_all ini section keys f) (
        lookup-sort_keys "" (entries section f) (entries-IsDistinct section f)
        ∙ entries-named section f)
      ∙ ground (
        arith,
        eq_iff section other,
        entries-delete_all section other keys f,
        sorted_again (entries other f) (entries-IsDistinct other f),
      )

  value-sort_section :
      (section other key : String) (f : F)
      → value ini other key (sort_section ini section f) ≡ value ini other key f
  value-sort_section section other key f = ground (
    arith,
    entries-sort_section section other f,
    lookup-sort_keys key (entries other f) (entries-IsDistinct other f),
  )

  value-sort_sections :
      (names : List String) (other key : String) (f : F)
      → value ini other key (sort_sections ini names f) ≡ value ini other key f
  unfolding sort_sections
  value-sort_sections [] other key f = refl
  value-sort_sections (name ∷ names) other key f =
      value-sort_sections names other key (sort_section ini name f)
      ∙ value-sort_section name other key f

  -- DumpConfigINI changes no value of the file.
  pub value-dump_config_ini :
      (section key : String) (f : F)
      → value ini section key (dump_config_ini ini f).1 ≡ value ini section key f
  unfolding dump_config_ini
  value-dump_config_ini section key f = value-sort_sections (sections f) section key f

  sections-delete_all :
      (section : String) (keys : Assoc String) (f : F)
      → sections (delete_all ini section keys f) ≡ sections f
  unfolding delete_all
  sections-delete_all section [] f = refl
  sections-delete_all section ((key, text) ∷ keys) f =
      sections-delete_all section keys (ini.delete_key section key f)
      ∙ sections-delete_key section key f

  sections-set_all :
      (section : String) (keys : Assoc String) (f : F)
      → holds section (sections f) ≡ true
      → sections (set_all ini section keys f) ≡ sections f
  unfolding set_all
  sections-set_all section [] f h = refl
  sections-set_all section ((key, text) ∷ keys) f h =
      let same = sections-new_key section key text f h in
      sections-set_all section keys (ini.new_key section key text f) (ap (holds section) same ∙ h)
      ∙ same

  sections-sort_section :
      (section : String) (f : F)
      → holds section (sections f) ≡ true
      → sections (sort_section ini section f) ≡ sections f
  unfolding sort_section
  sections-sort_section section f h =
      let keys = sort_keys (entries section f) in
      let same = sections-delete_all section keys f in
      sections-set_all section keys (delete_all ini section keys f) (ap (holds section) same ∙ h)
      ∙ same

  -- The names that are visited are those of sections.
  abbrev AllHeld : List String → F → Type 0
  AllHeld names f = (name : String) → holds name names ≡ true → holds name (sections f) ≡ true

  sections-sort_sections :
      (names : List String) (f : F)
      → AllHeld names f
      → sections (sort_sections ini names f) ≡ sections f
  unfolding sort_sections
  sections-sort_sections [] f h = refl
  sections-sort_sections (name ∷ names) f h =
      let same = sections-sort_section name f (h name (ground (arith, eq_refl name))) in
      sections-sort_sections names (sort_section ini name f)
        (λ other e. ap (holds other) same ∙ h other (ground arith))
      ∙ same

  IsSorted-or_next :
      (name : String) (names : List String) (section : String) (f : F)
      → IsSorted (entries section f) ⊎ (holds section (name ∷ names) ≡ true)
      → IsSorted (entries section (sort_section ini name f)) ⊎ (holds section names ≡ true)
  IsSorted-or_next name names section f h = elim (Bool-cases (name == section)) [
    | inl e ↦
        inl (rw (entries-sort_section name section f, e) (sort_keys-IsSorted (entries section f)))
    | inr e ↦ elim h [
      | inl s ↦ inl (rw (entries-sort_section name section f, e) s)
      | inr k ↦ inr (ground arith)
    ]
  ]

  -- A section that is absent has no entries.
  IsSorted-or_held :
      (section : String) (f : F)
      → IsSorted (entries section f) ⊎ (holds section (sections f) ≡ true)
  IsSorted-or_held section f = elim (Bool-cases (holds section (sections f))) [
    | inl e ↦ inr e
    | inr e ↦ inl (rw (entries-absent section f e) tt)
  ]

  entries-IsSorted :
      (names : List String) (section : String) (f : F)
      → IsSorted (entries section f) ⊎ (holds section names ≡ true)
      → IsSorted (entries section (sort_sections ini names f))
  unfolding sort_sections
  entries-IsSorted [] section f (inl s) = s
  entries-IsSorted [] section f (inr h) = absurd (ground arith)
  entries-IsSorted (name ∷ names) section f h =
      entries-IsSorted names section (sort_section ini name f)
        (IsSorted-or_next name names section f h)

  -- The entries of a section of the dumped file.
  dumped-IsSorted :
      (section : String) (f : F) → IsSorted (entries section (dump_config_ini ini f).1)
  unfolding dump_config_ini
  dumped-IsSorted section f = entries-IsSorted (sections f) section f (IsSorted-or_held section f)

  -- Two files with the same sections and the same values are the same after the dump, in whatever
  -- order their keys were set: the sections are the same and in the same order, and so are the keys of
  -- each section with their values. The comments of the files are left aside.
  pub dump_config_ini_any_order :
      (f g : F)
      → sections f ≡ sections g
      → ((section key : String) → value ini section key f ≡ value ini section key g)
      → (sections (dump_config_ini ini f).1 ≡ sections (dump_config_ini ini g).1)
        × ((section : String)
            → entries section (dump_config_ini ini f).1 ≡ entries section (dump_config_ini ini g).1)
  unfolding dump_config_ini
  dump_config_ini_any_order f g same h = (
    sections-sort_sections (sections f) f (λ name e. e)
        ∙ (same ∙ sym (sections-sort_sections (sections g) g (λ name e. e))),
    λ section.
        sorted_ext (entries section (dump_config_ini ini f).1)
          (entries section (dump_config_ini ini g).1) (dumped-IsSorted section f)
          (dumped-IsSorted section g) (entries-IsDistinct section (dump_config_ini ini f).1)
          (entries-IsDistinct section (dump_config_ini ini g).1)
          λ key.
            value-dump_config_ini section key f
            ∙ (h section key ∙ sym (value-dump_config_ini section key g)),
  )
