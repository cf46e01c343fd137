-- ===== src/Api.antt =====
-- api/v1/softwarefactory_types.go: the parts of the custom resource that the modelled code reads. A
-- pointer is an option, `uint8`, `uint16` and `uint32` are numbers and `int` and `int32` integers.
use sf_operator.Common.{ℕ, String, Bool, Option, List}
use sf_operator.Common.Assoc.{Assoc}
use sf_operator.Common.Int.{ℤ}
use sf_operator.Conds.Refresh.{Condition}

pub record GitLabConnection : Type 0 where
  pub name : String
  pub server : String
  pub canonical_hostname : String
  pub base_url : String
  pub secrets : String
  pub clone_url : String
  pub keep_alive : ℕ
  pub disable_connection_pool : Bool

pub record GitHubConnection : Type 0 where
  pub name : String
  pub app_id : ℤ
  pub secrets : String
  pub server : String
  pub canonicalhostname : String
  pub verify_ssl : Bool

pub record GerritConnection : Type 0 where
  pub name : String
  pub hostname : String
  pub port : ℕ
  pub puburl : String
  pub username : String
  pub canonicalhostname : String
  pub password : String
  pub sshkey : String
  pub git_over_ssh : Bool
  pub verify_ssl : Option Bool
  pub stream_events : Option Bool

pub record PagureConnection : Type 0 where
  pub name : String
  pub server : String
  pub canonical_hostname : String
  pub base_url : String
  pub secrets : String
  pub app_name : String
  pub clone_url : String
  pub source_whitelist : String

pub record GitConnection : Type 0 where
  pub name : String
  pub baseurl : String
  pub poll_delay : ℤ

pub record SmtpConnection : Type 0 where
  pub name : String
  pub server : String
  pub port : ℕ
  pub default_from : String
  pub default_to : String
  pub user : String
  pub password : String
  pub tls : Option Bool
  pub secrets : Option String

pub record ElasticSearchConnection : Type 0 where
  pub name : String
  pub uri : String
  pub use_ssl : Option Bool
  pub verify_certs : Option Bool
  pub basic_auth_secret : Option String

pub record StandaloneZuulExecutorSpec : Type 0 where
  pub control_plane_public_zk_hostname : String
  pub control_plane_public_zk_hostnames : Option (List String)
  pub control_plane_public_gs_hostname : String
  pub public_host_name : String
  pub zone : String

pub record ZuulOidcAuthenticatorSpec : Type 0 where
  pub name : String
  pub realm : String
  pub client_id : String
  pub issuer_id : String
  pub uid_claim : String
  pub max_validity_time : ℤ
  pub skew : ℤ
  pub keys_url : String
  pub scope : String
  pub authority : String
  pub audience : String
  pub load_user_info : Bool

-- Without the settings of the pods: storage, limits, log level and grace period.
pub record ZuulExecutorSpec : Type 0 where
  pub enabled : Option Bool
  pub standalone : Option StandaloneZuulExecutorSpec
  pub disk_limit_per_job : ℤ
  pub ansible_setup_timeout : ℤ

-- Without the settings of the pods and of statsd.
pub record ZuulSchedulerSpec : Type 0 where
  pub default_hold_expiration : Option ℕ
  pub max_hold_expiration : Option ℕ

-- Without the settings of the pods.
pub record ZuulMergerSpec : Type 0 where
  pub git_user_name : String
  pub git_user_email : String
  pub git_http_low_speed_limit : ℤ
  pub git_http_low_speed_time : ℤ
  pub git_timeout : ℤ

-- Without the settings of the pods of zuul-web.
pub record ZuulSpec : Type 0 where
  pub oidc_authenticators : List ZuulOidcAuthenticatorSpec
  pub default_authenticator : String
  pub gerrit_conns : List GerritConnection
  pub git_hub_conns : List GitHubConnection
  pub git_lab_conns : List GitLabConnection
  pub git_conns : List GitConnection
  pub pagure_conns : List PagureConnection
  pub elastic_search_conns : List ElasticSearchConnection
  pub smtp_conns : List SmtpConnection
  pub executor : ZuulExecutorSpec
  pub scheduler : ZuulSchedulerSpec
  pub merger : ZuulMergerSpec

pub record ConfigRepositoryLocationSpec : Type 0 where
  pub name : String
  pub branch : String
  pub zuul_connection_name : String
  pub cluster_api_url : String
  pub logserver_host : String

pub record CodesearchSpec : Type 0 where
  pub enabled : Option Bool

pub record StorageDefaultSpec : Type 0 where
  pub class_name : String
  pub extra_annotations : Assoc String

-- Without what only the pods of a single service read.
pub record SoftwareFactorySpec : Type 0 where
  pub fqdn : String
  pub storage_default : StorageDefaultSpec
  pub extra_labels : Assoc String
  pub config_repository_location : ConfigRepositoryLocationSpec
  pub zuul : ZuulSpec
  pub codesearch : CodesearchSpec

pub record SoftwareFactoryStatus : Type 0 where
  pub ready : Bool
  pub observed_generation : ℕ
  pub reconciled_by : String
  pub conditions : List Condition

-- `name` and `generation` are fields of its metadata.
pub record SoftwareFactory : Type 0 where
  pub name : String
  pub generation : ℕ
  pub spec : SoftwareFactorySpec
  pub status : SoftwareFactoryStatus
