-- ===== src/Lib.antt =====
-- A model of sesame-operator, the Kubernetes operator that runs Sesame and Envoy for each `Sesame`
-- resource, and what is proved of it.
--
-- A reconciliation reads one `Sesame`. If it is not being deleted, it is validated, gets a finalizer,
-- and its namespace, access rules, workloads and services are created or updated; its status is
-- then synchronised. If it is being deleted, these objects are deleted in the other order, and the
-- finalizer is removed where no deletion failed. Objects are written only where they carry the owner
-- labels of the `Sesame`.
--
-- Parts and files:
-- - Prelude: lists, options, texts and maps. A Go map of texts is an association list; `insert`
--   replaces a key in its place. `sprintf` joins its pieces.
-- - Errors: Go's error values, results that may fail or panic; Errors.Retryable is
--   internal/retryableerror/retryableerror.go.
-- - Api: api/v1alpha1/sesame_types.go and helpers.go. Kube: the types of k8s.io/api, by the
--   fields that are used.
-- - Slice: pkg/slice/slice.go. Labels: pkg/labels/labels.go.
-- - Cluster: the client of controller-runtime as a record of calls. Its state is a parameter of
--   which nothing is assumed, so a call may answer anything and other actors may come between. A
--   program takes a state to a result and a state, and is written with do blocks. Cluster.Keeps
--   has the rules by which a program keeps a property of the state, Cluster.Yields those for its
--   value.
-- - Sesames: internal/objects/sesame/sesame.go and finalizer.go.
-- - Validation: pkg/validation/validation.go.
-- - Equality: the comparisons of services, namespaces and the status of
--   internal/equality/equality.go, and in Equality.Objects those of the other kinds. `DeepEqual`
--   is a parameter that takes each value for equal to itself.
-- - Owned: the deletion that the kinds of objects share. Owned.Ensure: reading, creating and
--   updating an object of a kind, which the packages below internal/objects repeat for each kind.
--   A kind is a record of its calls, its comparison and its texts. Owned.Confined says what a
--   program for one sesame may do to the cluster.
-- - World: the objects of a cluster but namespaces as tables, one for each kind, and what a
--   client on which they work as a store answers and does; Owned.Tables: such a table; Owned.Runs:
--   what a program makes of the tables; Owned.Refines, Owned.Deletes and Owned.Settles: the
--   functions of Owned and Owned.Ensure on them, and their second run. In the folders of the
--   parts, the modules Refines describe the functions of the part on the tables, the modules
--   Comparisons and Settles are about a second run, and the modules Deletes are about deletions.
--   Workloads.Replaces is about objects that are deleted where their selector differs.
--   Controller.Refines, Controller.Settles and Controller.Deletes put the parts together.
-- - Services: the desired services of internal/objects/service/service.go, with the annotations
--   in Services.Annotations, and in Services.Ensure the functions that write them.
-- - Namespaces: internal/objects/namespace/namespace.go.
-- - Access: the desired service accounts, roles and bindings of the packages serviceaccount,
--   clusterrole, clusterrolebinding, role and rolebinding below internal/objects. Access.Ensure:
--   their functions. Access.Rbac: internal/objects/rbac.go. Access.Rules: what they make of the
--   tables; Access.Runs: the single calls; Access.Accounts: the accounts in a second run.
--   Access.Leftover, Access.Erased, Access.Deletes and Access.Alone: about the deletion, the last
--   three on the tables.
-- - ConfigMaps: internal/objects/configmap/configmap.go, with its template in
--   ConfigMaps.Template.
-- - SharedObjects: internal/objects/object.go, internal/objects/sharedconfig/shared_config.go and
--   internal/config/config.go.
-- - Jobs: internal/objects/job/job.go. Jobs.Retry: the creation that is tried again.
-- - Workloads: reading and deleting in internal/objects/deployment/deployment.go and
--   internal/objects/daemonset/daemonset.go; Workloads.DeploymentPod and Workloads.DaemonSetPod:
--   their desired pods; Workloads.Deployments and Workloads.DaemonSets: the rest.
-- - Status: internal/status/conditions.go, and in Status.Sync internal/status/status.go.
-- - Controller: internal/controller/controller.go. It takes the packages below internal/objects
--   but those of services and namespaces as a record, which Controller.Whole fills with their
--   functions.
-- - Parse: internal/parse/parse.go; Parse.PodExec is about its commands. Operator:
--   internal/operator/operator.go, cmd/sesame-operator.go and the `New` of the controller;
--   Operator.Starts is about the end of the process.
-- - Tests: the definitions at work on concrete data.
--
-- The names are those of the Go code in lower case with underscores. A function that returns an
-- error is a `Result` or a program; an index out of range and a nil dereference are `panic`. Numbers
-- are natural numbers: the code only copies and compares its int32 values. `SyncSesame` calls itself
-- where its update conflicts; it runs on fuel, and any fuel above a bound on the conflicts that can
-- still come is enough. Times are numbers.
--
-- The polling of the job runs its condition at least as often as its lower bound says, and at most
-- as often as its upper one; both are parameters. A number has ten decimal digits at most, since it
-- is an int32.
--
-- A cluster that works as a store keeps an object as it is written, deletes it at once, and answers each
-- call, and no other actor writes to it meanwhile. The API server assigns fields of services, such as
-- the cluster IP and the node ports, and the deletion of a namespace takes all in it, and time: so the
-- store says nothing of writes of services, and nothing of what namespaces are.
--
-- Of the process, what its `select` receives while the manager runs is an answer of the runtime.
--
-- Not modelled: the parsing of the flags and the scheme, which are calls of libraries; generated
-- code; logging; the type of an object as a field of it; `MakeNodePorts`, which serves the tests
-- alone. `reference.Parse`, `exec.Command`, `exec.LookPath`, the verb `%q`, controller-runtime,
-- `utilerrors.NewAggregate`, `net.ParseIP`, `strings.ToLower`, `wait.PollImmediate`, the clock,
-- the kind that a client leaves in an object and the client are parameters.
pub mod Prelude
pub mod Errors
pub mod Api
pub mod Kube
pub mod Slice
pub mod Labels
pub mod Cluster
pub mod Sesames
pub mod Validation
pub mod Equality
pub mod Services
pub mod Owned
pub mod Namespaces
pub mod World
pub mod Parse
pub mod Operator
pub mod Access
pub mod ConfigMaps
pub mod SharedObjects
pub mod Jobs
pub mod Workloads
pub mod Status
pub mod Controller
pub mod Tests
