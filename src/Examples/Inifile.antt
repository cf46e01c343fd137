-- ===== src/Examples/Inifile.antt =====
-- A file of sections that has what the operator relies on.
use Prim.Native.String.{◌++◌}
use sf_operator.Common.{
  String, ◌≡◌, refl, ◌∙◌, true, false, ◌&&◌, not, Option, none, some, List, [], ◌∷◌, arith,
  if◌then◌else◌, ◌==◌, eq_iff, Bool-cases, inl, inr,
}
use sf_operator.Common.Assoc.{Assoc, lookup, insert, erase, lookup-insert, lookup-erase}
use sf_operator.Zuulconf.Ini.{Ini, IsLawful, IsDistinct, holds}

pub record File : Type 0 where
  pub names : List String
  pub table : String → Assoc String
  pub distinct : (section : String) → IsDistinct (table section)
  pub named : (section : String) → lookup "" (table section) ≡ none
  pub absent : (section : String) → holds section names ≡ false → table section ≡ []

unfoldable pub add_name : String → List String → List String
add_name name [] = name ∷ []
add_name name (x ∷ xs) = let rest = add_name name xs in if x == name then x ∷ xs else x ∷ rest

pub holds-add_name :
    (name other : String) (xs : List String)
    → holds other (add_name name xs) ≡ (if name == other then true else holds other xs)
unfolding add_name
holds-add_name name other [] = refl
holds-add_name name other (x ∷ xs) =
    ground (arith, eq_iff x name, eq_iff x other, eq_iff name other, holds-add_name name other xs)

add_name-held : (name : String) (xs : List String) → holds name xs ≡ true → add_name name xs ≡ xs
unfolding add_name
add_name-held name [] h = absurd (ground arith)
add_name-held name (x ∷ xs) h = ground (arith, add_name-held name xs)

insert-IsDistinct :
    (key text : String) (es : Assoc String) → IsDistinct es → IsDistinct (insert key text es)
unfolding insert lookup
insert-IsDistinct key text [] d = (refl, tt)
insert-IsDistinct key text ((name, value) ∷ es) (d, ds) = elim (Bool-cases (name == key)) [
  | inl e ↦ rw e (ground (arith, eq_iff name key), ds)
  | inr e ↦ rw e (
    lookup-insert key name text es ∙ ground (arith, eq_iff key name, eq_iff name key),
    insert-IsDistinct key text es ds,
  )
]

erase-IsDistinct : (key : String) (es : Assoc String) → IsDistinct es → IsDistinct (erase key es)
unfolding erase lookup
erase-IsDistinct key [] d = tt
erase-IsDistinct key ((name, value) ∷ es) (d, ds) = elim (Bool-cases (name == key)) [
  | inl e ↦ rw e (erase-IsDistinct key es ds)
  | inr e ↦ rw e (lookup-erase key name es ∙ ground arith, erase-IsDistinct key es ds)
]

abbrev pub put : String → String → String → (String → Assoc String) → String → Assoc String
put section key text table other =
    if section == other && not (key == "") then insert key text (table other) else table other

abbrev pub take_out : String → String → (String → Assoc String) → String → Assoc String
take_out section key table other = if section == other then erase key (table other) else table other

pub put-IsDistinct :
    (section key text : String) (f : File) (other : String)
    → IsDistinct (put section key text f.table other)
put-IsDistinct section key text f other = elim (Bool-cases (section == other && not (key == ""))) [
  | inl e ↦ rw e (insert-IsDistinct key text (f.table other) (f.distinct other))
  | inr e ↦ rw e (f.distinct other)
]

pub take_out-IsDistinct :
    (section key : String) (f : File) (other : String)
    → IsDistinct (take_out section key f.table other)
take_out-IsDistinct section key f other = elim (Bool-cases (section == other)) [
  | inl e ↦ rw e (erase-IsDistinct key (f.table other) (f.distinct other))
  | inr e ↦ rw e (f.distinct other)
]

pub put-absent :
    (section key text : String) (f : File) (other : String)
    → holds other (if key == "" then f.names else add_name section f.names) ≡ false
    → put section key text f.table other ≡ []
put-absent section key text f other h = elim (Bool-cases (key == "")) [
  | inl e ↦ ground (arith, f.absent other)
  | inr e ↦ ground (arith, holds-add_name section other f.names, f.absent other)
]

pub take_out-absent :
    (section key : String) (f : File) (other : String)
    → holds other f.names ≡ false
    → take_out section key f.table other ≡ []
unfolding erase
take_out-absent section key f other h =
    rw (f.absent other h)
      (elim (Bool-cases (section == other)) [ inl e ↦ rw e refl | inr e ↦ rw e refl ])

abbrev pub render_section : Assoc String → String
render_section [] = "\n"
render_section ((key, text) ∷ es) = (key ++ ("=" ++ (text ++ "\n"))) ++ render_section es

abbrev pub render : List String → (String → Assoc String) → String
render [] table = ""
render (name ∷ names) table =
    ("[" ++ (name ++ "]\n")) ++ (render_section (table name) ++ render names table)

-- A value, with the one reference that these files know: to the key `host` of the section DEFAULT.
abbrev expanded : Option String → Option String → String
expanded none host = ""
expanded (some text) none = text
expanded (some text) (some host) = if text == "%(host)s" then host else text

unfoldable pub file_ini : Ini File
unfolding add_name
file_ini = record {
  sections = λ f. f.names;
  entries = λ section f. f.table section;
  new_section = λ section f. record {
    names = add_name section f.names;
    table = f.table;
    distinct = f.distinct;
    named = f.named;
    absent = λ other h. f.absent other (ground (arith, holds-add_name section other f.names));
  };
  new_key = λ section key text f. record {
    names = if key == "" then f.names else add_name section f.names;
    table = put section key text f.table;
    distinct = put-IsDistinct section key text f;
    named = λ other.
        ground (arith, eq_iff key "", lookup-insert key "" text (f.table other), f.named other);
    absent = put-absent section key text f;
  };
  delete_key = λ section key f. record {
    names = f.names;
    table = take_out section key f.table;
    distinct = take_out-IsDistinct section key f;
    named = λ other. ground (arith, lookup-erase key "" (f.table other), f.named other);
    absent = take_out-absent section key f;
  };
  write_to = λ f. render f.names f.table;
  key_string =
      λ section key f. expanded (lookup key (f.table section)) (lookup "host" (f.table "DEFAULT"));
}

pub file_ini-IsLawful : IsLawful file_ini
unfolding file_ini
file_ini-IsLawful = record {
  entries-new_section = λ section other f. refl;
  entries-new_key = λ section key text other f h. ground arith;
  entries-delete_key = λ section key other f. refl;
  sections-new_key = λ section key text f h. ground (arith, add_name-held section f.names h);
  sections-delete_key = λ section key f. refl;
  entries-IsDistinct = λ section f. f.distinct section;
  entries-absent = λ section f h. f.absent section h;
  entries-named = λ section f. f.named section;
  key_string-ext = λ f g same h section key. cc (h section key, h "DEFAULT" "host");
}

-- A file with nothing in it.
unfoldable pub empty_file : File
unfolding lookup
empty_file = record {
  names = [];
  table = λ section. [];
  distinct = λ section. tt;
  named = λ section. refl;
  absent = λ section h. refl;
}
