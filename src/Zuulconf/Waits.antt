-- ===== src/Zuulconf/Waits.antt =====
-- The three secrets that EnsureZuulConfigSecret waits for.
use Prim.Native.String.{◌++◌}
use sf_operator.Common.{
  String, ◌≡◌, ◌≢◌, refl, sym, ◌∙◌, Bool, true, false, Option, none, some, [], ◌∷◌, arith,
  if◌then◌else◌, ◌==◌, eq_iff, Bool-cases, ◌⊎◌, inl, inr,
}
use sf_operator.Kube.Exec.{Exec, ret, pure, ◌>>=◌, >>=-eq-ret}
use sf_operator.Kube.Client.{Client, Context, found, Got-cases}
use sf_operator.Kube.Objects.{Secret}
use sf_operator.Kube.Crud.{get_or_die}
use sf_operator.Reconcile.Secrets.{data_at, get_secret_data_from_key}
use sf_operator.Zuulconf.Ini.{Ini, IsLawful, set_keys, are_named, value}
use sf_operator.Zuulconf.Sections.{connection}
use sf_operator.Zuulconf.Names.{first, connection-ne}
use sf_operator.Zuulconf.Frame.{set_keys-IsLeft}
use sf_operator.Zuulconf.Ensure.{db_uri, set_database, set_keystore, set_cli_auth}

module _ {W : Type 0} (client : Client W Secret) where
  -- The server has the secret, with a text for the key of its own name.
  abbrev pub HasText : String → W → Type 0
  HasText name w = (s : Secret) × (client.get name w ≡ found s) × (data_at name s.contents ≢ "")

  abbrev pub HasDatabase : Bool → W → Type 0
  HasDatabase remote w =
      remote ≡ false → (s : Secret) × (client.get "zuul-db-connection" w ≡ found s)

  abbrev pub HasAuth : Bool → W → Type 0
  HasAuth remote w = remote ≡ false → HasText "zuul-auth-secret" w

  -- The secrets that are waited for.
  abbrev pub HasSecrets : Bool → W → Type 0
  HasSecrets remote w =
      HasDatabase remote w × (HasText "zuul-keystore-password" w × (HasAuth remote w × Unit))

module _ {F : Type 0} (ini : Ini F) where
  -- The sections of the connections are the same in both files.
  abbrev pub IsAlike : F → F → Type 0
  IsAlike cfg cfg' =
      (name key : String)
      → value ini (connection name) key cfg' ≡ value ini (connection name) key cfg

  -- A step that waits: it gives nil if what it needs is not there, and else goes on with the file.
  abbrev pub Waits : Type 0 → F → Option F → Type 0
  Waits need cfg o = ((o ≡ none) × ¬ need) ⊎ ((f : F) × (o ≡ some f) × need × IsAlike cfg f)

  module _ (laws : IsLawful ini) {W : Type 0} (client : Client W Secret) (r : Context) where
    same_secret :
        {name : String} {w : W} {s t : Secret}
        → client.get name w ≡ found s
        → client.get name w ≡ found t
        → s ≡ t
    same_secret g g' = cc

    read_of_found :
        (name : String) (w : W) {s : Secret}
        → (name == "") ≡ false
        → client.get name w ≡ found s
        → get_secret_data_from_key client r name "" w ≡ (
          ret (if data_at name s.contents == "" then none else some (data_at name s.contents)),
          w,
        )
    unfolding get_secret_data_from_key
    read_of_found name w n g = rw (n, g, get_or_die) refl

    data_at-cases :
        (name : String) (w : W) (o : Option String) (v : W)
        → (name == "") ≡ false
        → get_secret_data_from_key client r name "" w ≡ (ret o, v)
        → (v ≡ w)
          × (((o ≡ none) × ¬ (HasText client name w))
              ⊎ ((text : String) × (o ≡ some text) × HasText client name w))
    unfolding get_secret_data_from_key get_or_die
    data_at-cases name w o v n h = elim (Got-cases (client.get name w)) [
      | inl (s, g) ↦
          let run = sym (read_of_found name w n g) ∙ h in
          elim (Bool-cases (data_at name s.contents == "")) [
            | inl e ↦ (
              ground arith,
              inl (
                ground arith,
                λ (s', g', full).
                    full (ground (arith, eq_iff (data_at name s.contents) "", same_secret g g')),
              ),
            )
            | inr e ↦ (
              ground arith,
              inr (
                data_at name s.contents,
                ground arith,
                (s, g, λ x. ground (arith, eq_iff (data_at name s.contents) "")),
              ),
            )
          ]
      | inr (inl g) ↦ (ground arith, inl (ground arith, λ (s', g', full). ground arith))
      | inr (inr g) ↦ absurd (ground arith)
    ]

    auth-Waits :
        (cfg : F) (w : W) (o : Option F)
        → Waits (HasText client "zuul-auth-secret" w) cfg o
        → Waits (HasAuth client false w) cfg o
    auth-Waits cfg w o (inl (e, absent)) = inl (e, λ need. absent (need refl))
    auth-Waits cfg w o (inr (f, e, there, alike)) = inr (f, e, (λ _. there), alike)

    pub set_database-Waits :
        (remote : Bool) (cfg : F) (w : W) (o : Option F) (v : W)
        → set_database ini client r remote cfg w ≡ (ret o, v)
        → (v ≡ w) × Waits (HasDatabase client remote w) cfg o
    unfolding set_database get_or_die first are_named
    set_database-Waits true cfg w o v h = (cc, inr (cfg, cc, (λ e. cc), λ name key. refl))
    set_database-Waits false cfg w o v h = elim (Got-cases (client.get "zuul-db-connection" w)) [
      | inl (s, g) ↦ (
        ground arith,
        inr (
          set_keys ini "database" (("dburi", some (db_uri s)) ∷ []) cfg,
          ground arith,
          (λ _. (s, g)),
          λ name key.
              set_keys-IsLeft ini laws name "database" (("dburi", some (db_uri s)) ∷ [])
                (connection-ne name "database" (λ e. omega arith)) refl key cfg,
        ),
      )
      | inr (inl g) ↦
          (ground arith, inl (ground arith, λ need. let (s, g') = need refl in ground arith))
      | inr (inr g) ↦ absurd (ground arith)
    ]

    -- What sets keys of a section from the text of a secret.
    abbrev set_from : (String → F) → Option String → Exec W (Option F)
    set_from make text = elim text [ none ↦ pure none | some t ↦ pure (some (make t)) ]

    set_from-Waits :
        (need : Type 0) (cfg : F) (make : String → F) (text : Option String) (w u : W)
        (o : Option F) (v : W)
        → ((t : String) → IsAlike cfg (make t))
        → ((text ≡ none) × ¬ need) ⊎ ((t : String) × (text ≡ some t) × need)
        → set_from make text u ≡ (ret o, v)
        → u ≡ w
        → (v ≡ w) × Waits need cfg o
    set_from-Waits need cfg make none w u o v alike (inl (e, absent)) h same =
        (cc, inl (cc, absent))
    set_from-Waits need cfg make (some t) w u o v alike (inl (e, absent)) h same =
        absurd (ground arith)
    set_from-Waits need cfg make none w u o v alike (inr (t, e, there)) h same =
        absurd (ground arith)
    set_from-Waits need cfg make (some x) w u o v alike (inr (t, e, there)) h same =
        (cc, inr (make x, cc, there, alike x))

    read-Waits :
        (name : String) (cfg : F) (make : String → F) (w : W) (o : Option F) (v : W)
        → (name == "") ≡ false
        → ((t : String) → IsAlike cfg (make t))
        → (get_secret_data_from_key client r name "" >>= set_from make) w ≡ (ret o, v)
        → (v ≡ w) × Waits (HasText client name w) cfg o
    read-Waits name cfg make w o v n alike h =
        let (text, u, e, k) =
          >>=-eq-ret (get_secret_data_from_key client r name "") (set_from make) w h in
        let (same, told) = data_at-cases name w text u n e in
        set_from-Waits (HasText client name w) cfg make text w u o v alike told k same

    pub set_keystore-Waits :
        (cfg : F) (w : W) (o : Option F) (v : W)
        → set_keystore ini client r cfg w ≡ (ret o, v)
        → (v ≡ w) × Waits (HasText client "zuul-keystore-password" w) cfg o
    unfolding set_keystore first are_named
    set_keystore-Waits cfg w o v h =
        read-Waits "zuul-keystore-password" cfg
          (λ t. set_keys ini "keystore" (("password", some t) ∷ []) cfg) w o v refl
          (λ t name key.
            set_keys-IsLeft ini laws name "keystore" (("password", some t) ∷ [])
              (connection-ne name "keystore" (λ e. omega arith)) refl key cfg)
          h

    pub set_cli_auth-Waits :
        (fqdn : String) (remote : Bool) (cfg : F) (w : W) (o : Option F) (v : W)
        → set_cli_auth ini client r fqdn remote cfg w ≡ (ret o, v)
        → (v ≡ w) × Waits (HasAuth client remote w) cfg o
    unfolding set_cli_auth first are_named
    set_cli_auth-Waits fqdn true cfg w o v h = (cc, inr (cfg, cc, (λ e. cc), λ name key. refl))
    set_cli_auth-Waits fqdn false cfg w o v h =
        let (same, waits) =
          read-Waits "zuul-auth-secret" cfg
            (λ t.
              set_keys ini "auth zuul_client"
                (("secret", some t) ∷ ("realm", some ("zuul." ++ fqdn)) ∷ []) cfg)
            w o v refl
            (λ t name key.
              set_keys-IsLeft ini laws name "auth zuul_client"
                (("secret", some t) ∷ ("realm", some ("zuul." ++ fqdn)) ∷ [])
                (connection-ne name "auth zuul_client" (λ e. omega arith)) refl key cfg)
            h in
        (same, auth-Waits cfg w o waits)
