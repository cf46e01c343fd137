-- ===== src/Examples/Filling.antt =====
-- An API server that keeps its objects in a list and fills in what an object leaves out, or drops
-- what is empty in it, when it serves the object.
use sf_operator.Common.{String, ◌≡◌, ◌≢◌, refl, sym, ap, ◌∙◌, none, some, List, [], ◌∷◌}
use sf_operator.Kube.Client.{Got, found, missing, failed, Client}
use sf_operator.Kube.Objects.{GoMap, stored}
use sf_operator.Kube.Laws.{Persists, IsAvailable, ServesNormal}
use sf_operator.Examples.Store.{find, store, store-Persists, store-IsAvailable}

pub stored_again : (m : GoMap) → stored (stored m) ≡ stored m
unfolding stored
stored_again none = refl
stored_again (some []) = refl
stored_again (some (e ∷ m)) = refl

module _ {A : Type 0} (name_of : A → String) (fill : A → A) where
  abbrev served : Got A → Got A
  served missing = missing
  served failed = failed
  served (found a) = found (fill a)

  abbrev pub filling : Client (List A) A
  filling = record (store name_of) { get = λ name w. served (find name_of name w) }

  served-missing : (g : Got A) → served g ≡ missing → g ≡ missing
  served-missing missing h = refl
  served-missing failed h = cc
  served-missing (found a) h = cc

  served-answers : (g : Got A) → g ≢ failed → served g ≢ failed
  served-answers missing h e = cc
  served-answers failed h e = h refl
  served-answers (found a) h e = cc

  served-there : (g : Got A) → served g ≢ missing → g ≢ missing
  served-there missing h e = h refl
  served-there failed h e = cc
  served-there (found a) h e = cc

  served-found : (g : Got A) (a : A) → served g ≡ found a → (b : A) × (g ≡ found b) × (fill b ≡ a)
  served-found missing a h = cc
  served-found failed a h = cc
  served-found (found b) a h = (b, refl, cc)

  pub filling-ServesNormal :
      {P : Type 0} (normal : P → P) (part : A → P)
      → ((a : A) → normal (part (fill a)) ≡ part (fill a))
      → ServesNormal filling normal part
  filling-ServesNormal normal part h name a w g =
      let (b, at_b, filled) = served-found (find name_of name w) a g in
      ap (λ o. normal (part o)) (sym filled) ∙ (h b ∙ ap part filled)

  pub filling-IsAvailable : IsAvailable filling
  filling-IsAvailable =
      let up = store-IsAvailable name_of in
      record {
        reads = λ name w. served-answers (find name_of name w) (up.reads name w);
        creates = λ o w m. up.creates o w (served-missing (find name_of (name_of o) w) m);
        updates = λ o w m. up.updates o w (served-there (find name_of (name_of o) w) m);
      }

  pub filling-Persists :
      {P : Type 0} (content : A → P)
      → ((a : A) → name_of (fill a) ≡ name_of a)
      → ((a : A) → content (fill a) ≡ content a)
      → Persists filling content
  filling-Persists content named seen =
      let laws = store-Persists name_of content in
      record {
        get-create =
            λ o w h. let (a, g, e) = laws.get-create o w h in (fill a, ap served g, seen a ∙ e);
        create_new = λ o w m. laws.create_new o w (served-missing (find name_of (name_of o) w) m);
        get-update =
            λ o w h. let (a, g, e) = laws.get-update o w h in (fill a, ap served g, seen a ∙ e);
        get-name = λ name w {a = a} h.
            let (b, g, e) = served-found (find name_of name w) a h in
            ap name_of (sym e) ∙ (named b ∙ laws.get-name name w g);
        name-set_owner = λ mode o. refl;
        content-set_owner = λ mode o. refl;
      }
