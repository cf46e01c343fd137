-- ===== src/Connections/BaseUrl.antt =====
-- ensureTrailingSlash and resolveConfigBaseURL: where the config repository is cloned from.
use Prim.Native.String.{◌++◌}
use sf_operator.Common.{
  String, ◌≡◌, refl, ◌⊎◌, inl, true, ◌&&◌, not, List, [], ◌∷◌, arith, ◌==◌, eq_iff, if◌then◌else◌,
  ends_with_slash, ends_with_slash-append,
}
use sf_operator.Api.{
  GerritConnection, GitHubConnection, GitLabConnection, GitConnection, PagureConnection,
  SoftwareFactory,
}

unfoldable pub ensure_trailing_slash : String → String
ensure_trailing_slash url = if not (url == "") && not (ends_with_slash url) then url ++ "/" else url

-- fmt.Sprintf("https://%s/", host)
abbrev https : String → String
https host = "https://" ++ (host ++ "/")

abbrev gerrit_url : GerritConnection → String
gerrit_url conn = if not (conn.puburl == "") then conn.puburl else https conn.hostname

abbrev git_hub_url : GitHubConnection → String
git_hub_url conn = if conn.server == "" then "https://github.com/" else https conn.server

abbrev git_lab_url : GitLabConnection → String
git_lab_url conn = if not (conn.base_url == "") then conn.base_url else https conn.server

abbrev pagure_url : PagureConnection → String
pagure_url conn = if not (conn.base_url == "") then conn.base_url else https conn.server

-- One `for` loop: the URL of the first connection of the name, or else what follows.
find_url : {A : Type 0} → (A → String) → (A → String) → String → List A → String → String
find_url name url wanted [] next = next
find_url name url wanted (c ∷ cs) next =
    if name c == wanted then ensure_trailing_slash (url c) else find_url name url wanted cs next

unfoldable pub resolve_config_base_url : SoftwareFactory → String
unfolding find_url ensure_trailing_slash
resolve_config_base_url cr =
    let name = cr.spec.config_repository_location.zuul_connection_name in
    let zuul = cr.spec.zuul in
    find_url (λ (c : GerritConnection). c.name) gerrit_url name zuul.gerrit_conns
      (find_url (λ (c : GitHubConnection). c.name) git_hub_url name zuul.git_hub_conns
        (find_url (λ (c : GitLabConnection). c.name) git_lab_url name zuul.git_lab_conns
          (find_url (λ (c : GitConnection). c.name) (λ c. c.baseurl) name zuul.git_conns
            (find_url (λ (c : PagureConnection). c.name) pagure_url name zuul.pagure_conns ""))))

-- Either no URL, or one to which the name of a repository can be appended.
abbrev pub IsBase : String → Type 0
IsBase url = (url ≡ "") ⊎ (ends_with_slash url ≡ true)

pub ensure_trailing_slash-IsBase : (url : String) → IsBase (ensure_trailing_slash url)
unfolding ensure_trailing_slash
ensure_trailing_slash-IsBase url = ground (arith, eq_iff url "", ends_with_slash-append url)

-- A second pass adds no second slash.
pub ensure_trailing_slash_idem :
    (url : String) → ensure_trailing_slash (ensure_trailing_slash url) ≡ ensure_trailing_slash url
unfolding ensure_trailing_slash
ensure_trailing_slash_idem url = ground (arith, eq_iff url "", ends_with_slash-append url)

find_url-IsBase :
    {A : Type 0} (name url : A → String) (wanted : String) (cs : List A) (next : String)
    → IsBase next
    → IsBase (find_url name url wanted cs next)
unfolding find_url
find_url-IsBase name url wanted [] next h = h
find_url-IsBase name url wanted (c ∷ cs) next h =
    ground (arith, ensure_trailing_slash-IsBase (url c), find_url-IsBase name url wanted cs next h)

IsBase-empty : IsBase ""
IsBase-empty = inl refl

-- For every resource the base URL is empty or ends with a slash.
pub resolve_config_base_url-IsBase : (cr : SoftwareFactory) → IsBase (resolve_config_base_url cr)
unfolding resolve_config_base_url
resolve_config_base_url-IsBase cr = search (find_url-IsBase, IsBase-empty) depth 8
