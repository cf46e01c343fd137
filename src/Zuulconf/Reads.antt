-- ===== src/Zuulconf/Reads.antt =====
-- What the code reads of the secrets, as a function of the state of the server.
use sf_operator.Common.{
  String, ◌≡◌, false, Option, arith, if◌then◌else◌, ◌==◌, eq_iff, Bool-cases, inl, inr,
}
use sf_operator.Kube.Exec.{ret}
use sf_operator.Kube.Client.{Client, Context, Got, found, missing, failed, Got-cases}
use sf_operator.Kube.Objects.{Secret}
use sf_operator.Kube.Crud.{get_or_die}
use sf_operator.Reconcile.Secrets.{data_at, get_secret_data_from_key}
use sf_operator.Zuulconf.Sections.{bytes}
use sf_operator.Zuulconf.Review.{read_secret_content}

-- The text of a key of a secret, and the empty text for what is not there.
abbrev text_of : String → Got Secret → String
text_of key (found s) = data_at key s.contents
text_of key missing = ""
text_of key failed = ""

module _ {W : Type 0} (client : Client W Secret) where
  abbrev pub secret_text : String → String → W → String
  secret_text name key w = if name == "" then "" else text_of key (client.get name w)

module _ {W : Type 0} (client : Client W Secret) (r : Context) where
  pub get_secret_data_from_key-reads :
      (name key : String) (w : W) {o : Option String} {w' : W}
      → (key == "") ≡ false
      → get_secret_data_from_key client r name key w ≡ (ret o, w')
      → (w' ≡ w) × (bytes o ≡ secret_text client name key w)
  unfolding get_secret_data_from_key get_or_die
  get_secret_data_from_key-reads name key w k h = elim (Bool-cases (name == "")) [
    | inl e ↦ ground arith
    | inr n ↦ elim (Got-cases (client.get name w)) [
      | inl (s, g) ↦ elim (Bool-cases (data_at key s.contents == "")) [
        | inl e ↦ ground (arith, eq_iff (data_at key s.contents) "")
        | inr e ↦ ground (arith, eq_iff (data_at key s.contents) "")
      ]
      | inr a ↦ ground arith
    ]
  ]

  pub read_secret_content-reads :
      (name : String) (w : W) {text : String} {w' : W}
      → (name == "") ≡ false
      → read_secret_content client r name w ≡ (ret text, w')
      → (w' ≡ w) × (text ≡ secret_text client name name w)
  unfolding read_secret_content get_or_die
  read_secret_content-reads name w k h = elim (Got-cases (client.get name w)) [
    | inl (s, g) ↦ ground arith
    | inr a ↦ ground arith
  ]
