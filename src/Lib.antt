-- ===== src/Lib.antt =====
-- A model of the Software Factory operator: what it checks of a custom resource, what it writes to a
-- Kubernetes cluster, and when it reports that it is done.
--
-- The operator reads a SoftwareFactory resource (api/v1/softwarefactory_types.go) and brings a cluster
-- to the state that it describes. MkSFController refuses resources that it cannot serve; Step then
-- deploys the services one after the other, by functions that ensure one object each, and reports
-- whether all of them are ready. StandaloneReconcile repeats the step until it is.
--
-- The files and the code:
--
-- Common and its children: numbers, texts, lists, maps as association lists, sort.Strings.
-- Api: the records of api/v1/softwarefactory_types.go, as far as the modelled code reads them.
-- Conds: controllers/libs/conds/conditions.go. refresh_condition is RefreshCondition; the list that
--   it changes in place is an argument and a result, and the clock is a function.
-- Connections: GetUserDefinedConnections, HasDuplicate, resolveConfigBaseURL and MkSFController of
--   controllers/softwarefactory_controller.go. os.Exit is a result of its own.
-- Kube: GetOrDie of controllers/libs/client/helpers.go, CreateR, UpdateR, DeleteR and the Ensure
--   functions of controllers/utils.go. Code is a function from the state of the cluster to an outcome
--   and the new state; a panic and os.Exit are the outcome `panic`. The API server is the record
--   Client, and Kube/Laws states what is relied on of it: it may fill in what an object leaves out, and
--   it drops what is empty.
-- Volume: BaseGetStorageConfOrDefault, reconcileExpandPVC, reconcileExpandPVCs and canStorageResize of
--   controllers/utils.go. resource.Quantity is a parameter.
-- Workload: imageChanged, compareAnnotations, ensureStatefulset, ensureDeployment and the readiness
--   tests of controllers/utils.go and controllers/libs/base/base.go. Workload/Views is what they see of
--   an object whose defaults the server has filled in.
-- Zuulconf: the file zuul.conf, by EnsureZuulConfigSecret, DumpConfigINI, AddDefaultConnections and
--   the functions AddGerritConnection to AddWebClientSection of controllers/zuul.go, and what
--   EnsureZuulComponents reports; Zuulconf/Checksum is IniSectionsChecksum of
--   controllers/libs/utils/utils.go. gopkg.in/ini.v1 is the record Ini, with what is relied on of it
--   in IsLawful. Zuulconf/Review, Backends and Sections add the connections; Zuulconf/Changes and
--   Refine give the settings that the file shall have.
-- Rotation: the rotations of controllers/secrets.go, alone and in the order of DoRotateSecrets. The pod
--   that they run commands in is a parameter.
-- ConfigJob: SetupConfigJob, SetupBaseSecrets and ClearConfigJob of controllers/config.go, and
--   runZuulInternalTenantReconfigure of controllers/zuul.go.
-- Reconcile: cleanup, validateZuulConnectionsSecrets, deploySFStep, Step, messageInfo and
--   StandaloneReconcile, with EnsureStandaloneOwner, of controllers/softwarefactory_controller.go, and
--   WaitFor of controllers/utils.go. The deployments of the single services are the record Parts.
-- Zuulcf: the values and the pipelines by driver of controllers/libs/zuulcf/zuulcf.go.
-- Examples: tests, and the theorems at concrete inputs, on a server that keeps its objects in a list
--   and a file that keeps its sections in a list.
--
-- A range over a Go map visits the entries in any order: where the result could show the order, it is
-- an argument. The loops without a bound of their own take fuel: 301 for WaitFor and 60 for
-- StandaloneReconcile, which is what their counters allow, and n + 1 steps for the decimal digits of
-- n, which are no more than that. Time does not pass between two attempts other than in the argument
-- that stands for the clock.
--
-- Not modelled: the objects of the single services, the configuration files that are written from
-- templates, the rotation of the keys of projects (RotateProjectPrivateKey), the accounts and the
-- container of the configuration job, the command line, what runs in the pods, and messages to the
-- log.
pub mod Common
pub mod Api
pub mod Conds
pub mod ConfigJob
pub mod Connections
pub mod Examples
pub mod Kube
pub mod Reconcile
pub mod Rotation
pub mod Volume
pub mod Workload
pub mod Zuulcf
pub mod Zuulconf
