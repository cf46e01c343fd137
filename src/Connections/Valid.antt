-- ===== src/Connections/Valid.antt =====
-- GetUserDefinedConnections against its description.
use mathlib.Core.List.{append-nil, append_assoc}
use sf_operator.Common.{
  String, ◌≡◌, refl, ◌≢◌, ◌↔◌, ◌⊎◌, inl, inr, Bool, true, false, ◌&&◌, ◌||◌, not, Option, none,
  some, List, [], ◌∷◌, ◌++◌, map, arith, ◌==◌, all, Bool-cases,
}
use sf_operator.Api.{
  GerritConnection, GitHubConnection, GitLabConnection, GitConnection, PagureConnection,
  ElasticSearchConnection, SmtpConnection, ZuulSpec,
}
use sf_operator.Connections.UserDefined.{
  Names, collect, collect_other, after, check_gerrit, check_git, check_other,
  get_user_defined_connections,
}

-- The connection does not take the name opendev.org, or the site is right.
abbrev is_not_opendev : String → Bool
is_not_opendev name = not (name == "opendev.org")

abbrev gerrit_ok : GerritConnection → Bool
gerrit_ok c = is_not_opendev c.name || c.hostname == "review.opendev.org"

abbrev git_ok : GitConnection → Bool
git_ok c = is_not_opendev c.name || c.baseurl == "https://opendev.org"

abbrev pub is_opendev_valid : ZuulSpec → Bool
is_opendev_valid z =
    all gerrit_ok z.gerrit_conns
    && (all (λ c. is_not_opendev c.name) z.git_hub_conns
        && (all (λ c. is_not_opendev c.name) z.git_lab_conns
            && (all git_ok z.git_conns
                && (all (λ c. is_not_opendev c.name) z.pagure_conns
                    && (all (λ c. is_not_opendev c.name) z.elastic_search_conns
                        && all (λ c. is_not_opendev c.name) z.smtp_conns)))))

abbrev pub all_names : ZuulSpec → List String
all_names z =
    map (λ c. c.name) z.gerrit_conns
    ++ (map (λ c. c.name) z.git_hub_conns
        ++ (map (λ c. c.name) z.git_lab_conns
            ++ (map (λ c. c.name) z.git_conns
                ++ (map (λ c. c.name) z.pagure_conns
                    ++ (map (λ c. c.name) z.elastic_search_conns
                        ++ map (λ c. c.name) z.smtp_conns)))))

abbrev Fails : Names → Type 0
Fails r = r.1 ≢ none

abbrev is_none : Option String → Bool
is_none none = true
is_none (some e) = false

module _ {A : Type 0} (name : A → String) (check : A → Option String) (ok : A → Bool)
    (same : (c : A) → is_none (check c) ≡ ok c) where
  collect_ok :
      (cs : List A) (conns : List String)
      → all ok cs ≡ true
      → collect name check cs conns ≡ (conns ++ map name cs, none)
  unfolding collect
  collect_ok [] conns h = rw append-nil
  collect_ok (c ∷ cs) conns h = ground (
    arith,
    same c,
    collect_ok cs (conns ++ name c ∷ []),
    append_assoc conns (name c ∷ []) (map name cs),
  )

  collect-Fails :
      (cs : List A) (conns : List String) → all ok cs ≡ false → Fails (collect name check cs conns)
  unfolding collect
  collect-Fails [] conns h = cc
  collect-Fails (c ∷ cs) conns h = ground (arith, same c, collect-Fails cs (conns ++ name c ∷ []))

after-Fails_first : (r : Names) (k : List String → Names) → Fails r → Fails (after r k)
after-Fails_first (conns, none) k f = absurd (f refl)
after-Fails_first (conns, some e) k f = λ x. cc

after-Fails_next :
    (r : Names) (k : List String → Names)
    → ((conns : List String) → Fails (k conns))
    → Fails (after r k)
after-Fails_next (conns, none) k f = f conns
after-Fails_next (conns, some e) k f = λ x. cc

and_cases : (a b : Bool) → (a && b) ≡ false → (a ≡ false) ⊎ (b ≡ false)
and_cases true b h = inr h
and_cases false b h = inl refl

ok_gerrit : (c : GerritConnection) → is_none (check_gerrit c) ≡ gerrit_ok c
ok_gerrit c = ground arith

ok_git : (c : GitConnection) → is_none (check_git c) ≡ git_ok c
ok_git c = ground arith

module _ {A : Type 0} (name : A → String) where
  ok_other : (c : A) → is_none (check_other name c) ≡ is_not_opendev (name c)
  ok_other c = ground arith

  collect_other_ok :
      (cs : List A) (conns : List String)
      → all (λ c. is_not_opendev (name c)) cs ≡ true
      → collect_other name cs conns ≡ (conns ++ map name cs, none)
  unfolding collect_other
  collect_other_ok = collect_ok name (check_other name) _ ok_other

  collect_other-Fails :
      (cs : List A) (conns : List String)
      → all (λ c. is_not_opendev (name c)) cs ≡ false
      → Fails (collect_other name cs conns)
  unfolding collect_other
  collect_other-Fails = collect-Fails name (check_other name) _ ok_other

-- The names of a manifest that keeps the opendev.org rule are all collected, in order.
pub get_user_defined_connections_ok :
    (z : ZuulSpec)
    → is_opendev_valid z ≡ true
    → get_user_defined_connections z ≡ (all_names z, none)
unfolding get_user_defined_connections
get_user_defined_connections_ok z h =
    rw (collect_ok _ check_gerrit _ ok_gerrit z.gerrit_conns [] (ground arith)) (
      rw (collect_other_ok (λ (c : GitHubConnection). c.name) z.git_hub_conns _ (ground arith)) (
        rw (collect_other_ok (λ (c : GitLabConnection). c.name) z.git_lab_conns _ (ground arith)) (
          rw (collect_ok _ check_git _ ok_git z.git_conns _ (ground arith)) (
            rw (collect_other_ok (λ (c : PagureConnection). c.name) z.pagure_conns _ (ground arith))
              (rw
                (collect_other_ok (λ (c : ElasticSearchConnection). c.name) z.elastic_search_conns _
                  (ground arith))
                (rw
                  (collect_other_ok (λ (c : SmtpConnection). c.name) z.smtp_conns _ (ground arith))
                  (simp append_assoc)))))))

either :
    (a b : Bool) (r : Names) (k : List String → Names)
    → (a && b) ≡ false
    → (a ≡ false → Fails r)
    → (b ≡ false → (conns : List String) → Fails (k conns))
    → Fails (after r k)
either a b r k h first next = elim (and_cases a b h) [
  | inl e ↦ after-Fails_first r k (first e)
  | inr e ↦ after-Fails_next r k (next e)
]

get_user_defined_connections-Fails :
    (z : ZuulSpec) → is_opendev_valid z ≡ false → Fails (get_user_defined_connections z)
unfolding get_user_defined_connections
get_user_defined_connections-Fails z h =
    either _ _ _ _ h (collect-Fails _ check_gerrit _ ok_gerrit z.gerrit_conns []) λ h' n.
      either _ _ _ _ h' (collect_other-Fails (λ (c : GitHubConnection). c.name) z.git_hub_conns n)
        λ h' n.
          either _ _ _ _ h'
            (collect_other-Fails (λ (c : GitLabConnection). c.name) z.git_lab_conns n)
            λ h' n. either _ _ _ _ h' (collect-Fails _ check_git _ ok_git z.git_conns n) λ h' n.
              either _ _ _ _ h'
                (collect_other-Fails (λ (c : PagureConnection). c.name) z.pagure_conns n)
                λ h' n.
                  either _ _ _ _ h'
                    (collect_other-Fails (λ (c : ElasticSearchConnection). c.name)
                      z.elastic_search_conns n)
                    λ h' n. collect_other-Fails (λ (c : SmtpConnection). c.name) z.smtp_conns n h'

-- There is no error exactly if every connection named opendev.org is a Gerrit connection to
-- review.opendev.org or a Git connection to https://opendev.org.
pub get_user_defined_connections-none_iff :
    (z : ZuulSpec) → ((get_user_defined_connections z).1 ≡ none) ↔ (is_opendev_valid z ≡ true)
get_user_defined_connections-none_iff z = elim (Bool-cases (is_opendev_valid z)) [
  | inl h ↦ (λ e. h, λ e. rw (get_user_defined_connections_ok z h))
  | inr h ↦ (λ e. absurd (get_user_defined_connections-Fails z h e), λ e. cc)
]
