-- ===== src/Zuulconf/Refine.antt =====
-- The loops over the connections, against a specification: the file as a function from a section and
-- a key to a value, which each connection changes at its own section.
use sf_operator.Common.{
  String, ◌≡◌, refl, sym, ◌∙◌, false, Option, List, [], ◌∷◌, ◌++◌, map, arith, if◌then◌else◌, ◌==◌,
  eq_iff, eq_refl, All,
}
use sf_operator.Kube.Exec.{Exec, ret, ◌>>=◌, >>=-eq-ret}
use sf_operator.Connections.Duplicates.{contains}
use sf_operator.Zuulconf.Ini.{Ini, value}
use sf_operator.Zuulconf.Sections.{connection}
use sf_operator.Zuulconf.Names.{connection-eq}
use sf_operator.Zuulconf.Edits.{Change, IsEdit}
use sf_operator.Zuulconf.Ensure.{add_each}

-- A connection: its name and what it changes in its section.
pub record Edit (W : Type 0) : Type 0 where
  pub name : String
  pub change : Change W

-- The specification: the value of a key of a section after the connections, from what it was.
abbrev pub Conf : Type 0 → Type 0
Conf W = W → String → String → Option String → Option String

unfoldable pub edited : {W : Type 0} → List (Edit W) → Conf W
edited [] w section key old = old
edited (e ∷ es) w section key old =
    edited es w section key (if connection e.name == section then e.change w key old else old)

abbrev pub edits_of : {W A : Type 0} → (A → String) → (A → Change W) → List A → List (Edit W)
edits_of name change cs = map (λ c. record { name = name c; change = change c }) cs

pub edited-append :
    {W : Type 0} (es fs : List (Edit W)) (w : W) (section key : String) (old : Option String)
    → edited (es ++ fs) w section key old ≡ edited fs w section key (edited es w section key old)
unfolding edited
edited-append [] fs w section key old = refl
edited-append (e ∷ es) fs w section key old =
    edited-append es fs w section key
      (if connection e.name == section then e.change w key old else old)

module _ {F : Type 0} (ini : Ini F) {W : Type 0} where
  -- A step that returns has written nothing to the server, and its file is as the specification says.
  abbrev pub IsRefined : Conf W → (F → Exec W F) → Type 0
  IsRefined conf step =
      (cfg : F) (w : W) (cfg' : F) (w' : W)
      → step cfg w ≡ (ret cfg', w')
      → (w' ≡ w)
        × ((section key : String)
            → value ini section key cfg' ≡ conf w section key (value ini section key cfg))

  edited_cong :
      (es : List (Edit W)) (section key : String) {w v : W} {old new : Option String}
      → v ≡ w
      → new ≡ old
      → edited es v section key new ≡ edited es w section key old
  edited_cong es section key e e' = cc

  pub IsRefined->>= :
      (es fs : List (Edit W)) (step next : F → Exec W F)
      → IsRefined (edited es) step
      → IsRefined (edited fs) next
      → IsRefined (edited (es ++ fs)) (λ cfg. step cfg >>= next)
  IsRefined->>= es fs step next first second cfg w cfg' w' h =
      let (mid, v, e, k) = >>=-eq-ret (step cfg) next w h in
      let (same, told) = first cfg w mid v e in
      let (same', told') = second mid v cfg' w' k in
      (
        same' ∙ same,
        λ section key.
            told' section key
            ∙ edited_cong fs section key same (told section key)
            ∙ sym (edited-append es fs w section key (value ini section key cfg)),
      )

  pub IsRefined-add_each :
      {A : Type 0} (name : A → String) (change : A → Change W) (add : A → F → Exec W F)
      → ((c : A) → IsEdit ini W (connection (name c)) (change c) (add c))
      → (cs : List A) → IsRefined (edited (edits_of name change cs)) (add_each add cs)
  unfolding add_each edited
  IsRefined-add_each name change add each [] cfg w cfg' w' h =
      let e : cfg ≡ cfg' = cc in (cc, λ section key. rw (sym e) refl)
  IsRefined-add_each name change add each (c ∷ cs) cfg w cfg' w' h =
      let (mid, v, e, k) = >>=-eq-ret (add c cfg) (add_each add cs) w h in
      let (same, told) = each c cfg w mid v e in
      let (same', told') = IsRefined-add_each name change add each cs mid v cfg' w' k in
      (
        same' ∙ same,
        λ section key.
            told' section key
            ∙ edited_cong (edits_of name change cs) section key same (told section key),
      )

-- No name stands twice.
abbrev pub IsUnique : List String → Type 0
IsUnique [] = Unit
IsUnique (name ∷ names) = (contains names name ≡ false) × IsUnique names

abbrev pub edit_names : {W : Type 0} → List (Edit W) → List String
edit_names es = map (λ e. e.name) es

module _ {W : Type 0} where
  edited-elsewhere :
      (es : List (Edit W)) (w : W) (name key : String) (old : Option String)
      → contains (edit_names es) name ≡ false
      → edited es w (connection name) key old ≡ old
  unfolding edited
  edited-elsewhere [] w name key old h = refl
  edited-elsewhere (e ∷ es) w name key old h =
      ground (arith, connection-eq e.name name, edited-elsewhere es w name key old)

  -- The section of a connection has what that connection sets.
  abbrev pub IsKept : List (Edit W) → Edit W → Type 0
  IsKept es e =
      (w : W) (key : String) (old : Option String)
      → edited es w (connection e.name) key old ≡ e.change w key old

  edited-other :
      (e : Edit W) (es : List (Edit W)) (w : W) (name key : String) (old : Option String)
      → (e.name == name) ≡ false
      → edited (e ∷ es) w (connection name) key old ≡ edited es w (connection name) key old
  unfolding edited
  edited-other e es w name key old h = rw (connection-eq e.name name, h) refl

  edited-own :
      (e : Edit W) (es : List (Edit W)) (w : W) (key : String) (old : Option String)
      → edited (e ∷ es) w (connection e.name) key old
        ≡ edited es w (connection e.name) key (e.change w key old)
  unfolding edited
  edited-own e es w key old = rw (connection-eq e.name e.name, eq_refl e.name) refl

  IsKept-cons :
      (e : Edit W) (es fs : List (Edit W))
      → contains (edit_names fs) e.name ≡ false
      → All (IsKept es) fs
      → All (IsKept (e ∷ es)) fs
  IsKept-cons e es [] h k = tt
  IsKept-cons e es (f ∷ fs) h (k, ks) = (
    λ w key old.
        edited-other e es w f.name key old
          (ground (arith, eq_iff f.name e.name, eq_iff e.name f.name))
        ∙ k w key old,
    IsKept-cons e es fs (ground arith) ks,
  )

  -- If no name stands twice, the section of each connection has what that connection sets.
  pub edited-once : (es : List (Edit W)) → IsUnique (edit_names es) → All (IsKept es) es
  edited-once [] u = tt
  edited-once (e ∷ es) (h, u) = (
    λ w key old.
        edited-own e es w key old ∙ edited-elsewhere es w e.name key (e.change w key old) h,
    IsKept-cons e es es h (edited-once es u),
  )
