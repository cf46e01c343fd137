-- ===== src/Connections/UserDefined.antt =====
-- GetUserDefinedConnections: the names of the connections in order, up to the first one that takes
-- the name opendev.org for something else.
use sf_operator.Common.{
  String, ◌&&◌, not, Option, none, some, List, [], ◌∷◌, ◌++◌, ◌==◌, if◌then◌else◌,
}
use sf_operator.Api.{
  GerritConnection, GitHubConnection, GitLabConnection, GitConnection, PagureConnection,
  ElasticSearchConnection, SmtpConnection, ZuulSpec,
}

-- The slice `conns` and the error.
abbrev pub Names : Type 0
Names = List String × Option String

-- One `for` loop: it returns at the first connection that the test gives an error for.
unfoldable pub collect :
    {A : Type 0} → (A → String) → (A → Option String) → List A → List String → Names
collect name check [] conns = (conns, none)
collect name check (c ∷ cs) conns =
    let rest = collect name check cs (conns ++ name c ∷ []) in
    elim (check c) [ none ↦ rest | some e ↦ (conns, some e) ]

-- What stands after a loop is not reached when the loop returned.
abbrev pub after : Names → (List String → Names) → Names
after (conns, none) next = next conns
after (conns, some e) next = (conns, some e)

abbrev pub must_be_git : String
must_be_git = "opendev.org must be a gerrit or git connection"

abbrev pub check_gerrit : GerritConnection → Option String
check_gerrit conn =
    if conn.name == "opendev.org" && not (conn.hostname == "review.opendev.org")
    then some "opendev.org gerrit connection must be for review.opendev.org"
    else none

abbrev pub check_git : GitConnection → Option String
check_git conn =
    if conn.name == "opendev.org" && not (conn.baseurl == "https://opendev.org")
    then some "opendev.org git connection must be for https://opendev.org"
    else none

-- The test of the five other kinds.
abbrev pub check_other : {A : Type 0} → (A → String) → A → Option String
check_other name conn = if name conn == "opendev.org" then some must_be_git else none

unfoldable pub collect_other : {A : Type 0} → (A → String) → List A → List String → Names
unfolding collect
collect_other name cs conns = collect name (check_other name) cs conns

unfoldable pub get_user_defined_connections : ZuulSpec → Names
unfolding collect collect_other
get_user_defined_connections zuul =
    after (collect (λ (c : GerritConnection). c.name) check_gerrit zuul.gerrit_conns []) λ conns.
      after (collect_other (λ (c : GitHubConnection). c.name) zuul.git_hub_conns conns) λ conns.
        after (collect_other (λ (c : GitLabConnection). c.name) zuul.git_lab_conns conns) λ conns.
          after (collect (λ (c : GitConnection). c.name) check_git zuul.git_conns conns) λ conns.
            after (collect_other (λ (c : PagureConnection). c.name) zuul.pagure_conns conns)
              λ conns.
                after
                  (collect_other (λ (c : ElasticSearchConnection). c.name) zuul.elastic_search_conns
                    conns)
                  λ conns. collect_other (λ (c : SmtpConnection). c.name) zuul.smtp_conns conns
