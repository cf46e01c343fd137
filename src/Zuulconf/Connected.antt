-- ===== src/Zuulconf/Connected.antt =====
-- The connections of a resource in zuul.conf: the seven loops against the specification, and a
-- resource that the controller accepts.
use sf_operator.Common.{
  ◌+◌, ◌≤◌, String, ◌≡◌, refl, ◌∙◌, false, List, [], ◌∷◌, ◌++◌, map, arith, ◌==◌, eq_refl, All,
}
use sf_operator.Common.Assoc.{Assoc}
use sf_operator.Api.{
  GerritConnection, GitHubConnection, GitLabConnection, PagureConnection, GitConnection,
  ElasticSearchConnection, SmtpConnection, ZuulSpec,
}
use sf_operator.Connections.Valid.{all_names}
use sf_operator.Connections.Duplicates.{
  contains, count, count-eq-zero, has_duplicate, has_duplicate-empty_iff,
}
use sf_operator.Kube.Exec.{pure}
use sf_operator.Kube.Client.{Client, Context}
use sf_operator.Kube.Objects.{Secret}
use sf_operator.Zuulconf.Ini.{Ini, IsLawful}
use sf_operator.Zuulconf.Sections.{add_git_connection}
use sf_operator.Zuulconf.Review.{
  add_gerrit_connection, add_git_hub_connection, add_git_lab_connection, add_pagure_connection,
}
use sf_operator.Zuulconf.Backends.{add_elastic_search_connection, add_smtp_connection}
use sf_operator.Zuulconf.Changes.{
  git_change, gerrit_change, git_hub_change, git_lab_change, pagure_change, elastic_search_change,
  smtp_change,
}
use sf_operator.Zuulconf.Edits.{Change, IsVisit}
use sf_operator.Zuulconf.Adds.{
  add_git_connection-IsEdit, add_gerrit_connection-IsEdit, add_git_hub_connection-IsEdit,
  add_git_lab_connection-IsEdit, add_pagure_connection-IsEdit,
}
use sf_operator.Zuulconf.Stores.{add_smtp_connection-IsEdit, add_elastic_search_connection-IsEdit}
use sf_operator.Zuulconf.Refine.{
  Edit, edits_of, edited, edit_names, IsUnique, IsRefined, IsRefined->>=, IsRefined-add_each,
}
use sf_operator.Zuulconf.Ensure.{add_connections}

module _ {W : Type 0} (client : Client W Secret) (zuul : ZuulSpec) where
  abbrev gerrit_edits : List (Edit W)
  gerrit_edits =
      edits_of (λ (c : GerritConnection). c.name) (gerrit_change client) zuul.gerrit_conns

  abbrev git_hub_edits : List (Edit W)
  git_hub_edits =
      edits_of (λ (c : GitHubConnection). c.name) (git_hub_change client) zuul.git_hub_conns

  abbrev git_lab_edits : List (Edit W)
  git_lab_edits =
      edits_of (λ (c : GitLabConnection). c.name) (git_lab_change client) zuul.git_lab_conns

  abbrev pagure_edits : List (Edit W)
  pagure_edits =
      edits_of (λ (c : PagureConnection). c.name) (pagure_change client) zuul.pagure_conns

  abbrev git_edits : List (Edit W)
  git_edits = edits_of (λ (c : GitConnection). c.name) git_change zuul.git_conns

  abbrev search_edits : List (Edit W)
  search_edits =
      edits_of (λ (c : ElasticSearchConnection). c.name) (elastic_search_change client)
        zuul.elastic_search_conns

  abbrev smtp_edits : List (Edit W)
  smtp_edits = edits_of (λ (c : SmtpConnection). c.name) (smtp_change client) zuul.smtp_conns

  -- The connections in the order in which they are added.
  abbrev pub edits : List (Edit W)
  edits =
      gerrit_edits
      ++ (git_hub_edits
          ++ (git_lab_edits ++ (pagure_edits ++ (git_edits ++ (search_edits ++ smtp_edits)))))

  module _ {F : Type 0} (ini : Ini F) (laws : IsLawful ini) (r : Context)
      (visit : Assoc String → Assoc String) (once : IsVisit visit) where
    -- In whatever order the ranges visit their maps, if the loops over the connections return then
    -- they have written nothing to the server, and each value of the file is as the specification
    -- says: each connection in turn changes its own section, and reads the secrets as they are.
    pub add_connections-IsRefined :
        IsRefined ini (edited edits) (add_connections ini client r visit zuul)
    unfolding add_connections
    add_connections-IsRefined =
        IsRefined->>= ini gerrit_edits _ _ _
          (IsRefined-add_each ini (λ (c : GerritConnection). c.name) (gerrit_change client)
            (add_gerrit_connection ini client r) (add_gerrit_connection-IsEdit ini laws client r)
            zuul.gerrit_conns)
          (IsRefined->>= ini git_hub_edits _ _ _
            (IsRefined-add_each ini (λ (c : GitHubConnection). c.name) (git_hub_change client)
              (add_git_hub_connection ini client r visit)
              (add_git_hub_connection-IsEdit ini laws client r visit once) zuul.git_hub_conns)
            (IsRefined->>= ini git_lab_edits _ _ _
              (IsRefined-add_each ini (λ (c : GitLabConnection). c.name) (git_lab_change client)
                (add_git_lab_connection ini client r visit)
                (add_git_lab_connection-IsEdit ini laws client r visit once) zuul.git_lab_conns)
              (IsRefined->>= ini pagure_edits _ _ _
                (IsRefined-add_each ini (λ (c : PagureConnection). c.name) (pagure_change client)
                  (add_pagure_connection ini client r visit)
                  (add_pagure_connection-IsEdit ini laws client r visit once) zuul.pagure_conns)
                (IsRefined->>= ini git_edits _ _ _
                  (IsRefined-add_each ini (λ (c : GitConnection). c.name) git_change
                    (λ c cfg. pure (add_git_connection ini c.name c.baseurl c.poll_delay cfg))
                    (add_git_connection-IsEdit ini laws) zuul.git_conns)
                  (IsRefined->>= ini search_edits _ _ _
                    (IsRefined-add_each ini (λ (c : ElasticSearchConnection). c.name)
                      (elastic_search_change client) (add_elastic_search_connection ini client r)
                      (add_elastic_search_connection-IsEdit ini laws client r)
                      zuul.elastic_search_conns)
                    (IsRefined-add_each ini (λ (c : SmtpConnection). c.name) (smtp_change client)
                      (add_smtp_connection ini client r)
                      (add_smtp_connection-IsEdit ini laws client r) zuul.smtp_conns))))))

count-append : (s : String) (xs ys : List String) → count s (xs ++ ys) ≡ count s xs + count s ys
count-append s [] ys = omega arith
count-append s (x ∷ xs) ys = ground (arith, count-append s xs ys)

uncontained : (s : String) (xs : List String) → count s xs ≡ 0 → contains xs s ≡ false
uncontained s [] h = refl
uncontained s (x ∷ xs) h = ground (arith, uncontained s xs)

IsUnique-of_count : (xs : List String) → ((s : String) → count s xs ≤ 1) → IsUnique xs
IsUnique-of_count [] h = tt
IsUnique-of_count (x ∷ xs) h = (
  uncontained x xs (ground (arith, h x, eq_refl x)),
  IsUnique-of_count xs λ s. ground (arith, h s),
)

count-edits_of :
    {W A : Type 0} (s : String) (name : A → String) (change : A → Change W) (cs : List A)
    → count s (edit_names (edits_of name change cs)) ≡ count s (map name cs)
count-edits_of s name change [] = refl
count-edits_of s name change (c ∷ cs) = ground (arith, count-edits_of s name change cs)

count-section :
    {W A : Type 0} (s : String) (name : A → String) (change : A → Change W) (cs : List A)
    (es : List (Edit W))
    → count s (edit_names (edits_of name change cs ++ es))
      ≡ count s (map name cs) + count s (edit_names es)
count-section s name change [] es = omega arith
count-section s name change (c ∷ cs) es = ground (arith, count-section s name change cs es)

-- The order of the kinds is another one where the names are collected.
count-edits :
    {W : Type 0} (client : Client W Secret) (zuul : ZuulSpec) (s : String)
    → count s (edit_names (edits client zuul)) ≡ count s (all_names zuul)
count-edits client zuul s = omega (
  arith,
  count-section s (λ (c : GerritConnection). c.name) (gerrit_change client) zuul.gerrit_conns
      ((git_hub_edits client zuul)
        ++ ((git_lab_edits client zuul)
            ++ ((pagure_edits client zuul)
                ++ ((git_edits client zuul)
                    ++ ((search_edits client zuul) ++ (smtp_edits client zuul)))))),
  count-section s (λ (c : GitHubConnection). c.name) (git_hub_change client) zuul.git_hub_conns
      ((git_lab_edits client zuul)
        ++ ((pagure_edits client zuul)
            ++ ((git_edits client zuul)
                ++ ((search_edits client zuul) ++ (smtp_edits client zuul))))),
  count-section s (λ (c : GitLabConnection). c.name) (git_lab_change client) zuul.git_lab_conns
      ((pagure_edits client zuul)
        ++ ((git_edits client zuul) ++ ((search_edits client zuul) ++ (smtp_edits client zuul)))),
  count-section s (λ (c : PagureConnection). c.name) (pagure_change client) zuul.pagure_conns
      ((git_edits client zuul) ++ ((search_edits client zuul) ++ (smtp_edits client zuul))),
  count-section s (λ (c : GitConnection). c.name) (git_change) zuul.git_conns
      ((search_edits client zuul) ++ (smtp_edits client zuul)),
  count-section s (λ (c : ElasticSearchConnection). c.name) (elastic_search_change client)
      zuul.elastic_search_conns (smtp_edits client zuul),
  count-edits_of s (λ (c : SmtpConnection). c.name) (smtp_change client) zuul.smtp_conns,
  count-append s (map (λ (c : GerritConnection). c.name) zuul.gerrit_conns) (
      (map (λ (c : GitHubConnection). c.name) zuul.git_hub_conns)
      ++ ((map (λ (c : GitLabConnection). c.name) zuul.git_lab_conns)
          ++ ((map (λ (c : GitConnection). c.name) zuul.git_conns)
              ++ ((map (λ (c : PagureConnection). c.name) zuul.pagure_conns)
                  ++ ((map (λ (c : ElasticSearchConnection). c.name) zuul.elastic_search_conns)
                      ++ (map (λ (c : SmtpConnection). c.name) zuul.smtp_conns)))))),
  count-append s (map (λ (c : GitHubConnection). c.name) zuul.git_hub_conns) (
      (map (λ (c : GitLabConnection). c.name) zuul.git_lab_conns)
      ++ ((map (λ (c : GitConnection). c.name) zuul.git_conns)
          ++ ((map (λ (c : PagureConnection). c.name) zuul.pagure_conns)
              ++ ((map (λ (c : ElasticSearchConnection). c.name) zuul.elastic_search_conns)
                  ++ (map (λ (c : SmtpConnection). c.name) zuul.smtp_conns))))),
  count-append s (map (λ (c : GitLabConnection). c.name) zuul.git_lab_conns) (
      (map (λ (c : GitConnection). c.name) zuul.git_conns)
      ++ ((map (λ (c : PagureConnection). c.name) zuul.pagure_conns)
          ++ ((map (λ (c : ElasticSearchConnection). c.name) zuul.elastic_search_conns)
              ++ (map (λ (c : SmtpConnection). c.name) zuul.smtp_conns)))),
  count-append s (map (λ (c : GitConnection). c.name) zuul.git_conns) (
      (map (λ (c : PagureConnection). c.name) zuul.pagure_conns)
      ++ ((map (λ (c : ElasticSearchConnection). c.name) zuul.elastic_search_conns)
          ++ (map (λ (c : SmtpConnection). c.name) zuul.smtp_conns))),
  count-append s (map (λ (c : PagureConnection). c.name) zuul.pagure_conns) (
      (map (λ (c : ElasticSearchConnection). c.name) zuul.elastic_search_conns)
      ++ (map (λ (c : SmtpConnection). c.name) zuul.smtp_conns)),
  count-append s (map (λ (c : ElasticSearchConnection). c.name) zuul.elastic_search_conns)
      (map (λ (c : SmtpConnection). c.name) zuul.smtp_conns),
)

-- The names of the resource, where none is empty and none is found twice, are those of sections that
-- do not meet.
pub edits-IsUnique :
    {W : Type 0} (client : Client W Secret) (zuul : ZuulSpec)
    → contains (all_names zuul) "" ≡ false
    → has_duplicate (all_names zuul) ≡ ""
    → IsUnique (edit_names (edits client zuul))
edits-IsUnique client zuul named once = IsUnique-of_count (edit_names (edits client zuul)) λ s.
    omega
      (arith, count-edits client zuul s, (has_duplicate-empty_iff (all_names zuul) named).0 once s)

-- A name that is free is the name of none of them.
free_of_contains :
    {W : Type 0} (es : List (Edit W)) (s : String)
    → contains (edit_names es) s ≡ false
    → All (λ e. (e.name == s) ≡ false) es
free_of_contains [] s h = tt
free_of_contains (e ∷ es) s h = (ground arith, free_of_contains es s (ground arith))

pub edits-free :
    {W : Type 0} (client : Client W Secret) (zuul : ZuulSpec) (s : String)
    → contains (all_names zuul) s ≡ false
    → All (λ e. (e.name == s) ≡ false) (edits client zuul)
edits-free client zuul s h = free_of_contains (edits client zuul) s (
    uncontained s (edit_names (edits client zuul))
      (count-edits client zuul s ∙ count-eq-zero s (all_names zuul) h))
