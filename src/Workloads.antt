-- ===== src/Workloads.antt =====
-- Reading and deleting the deployment of Sesame (internal/objects/deployment/deployment.go) and the
-- daemon set of Envoy (internal/objects/daemonset/daemonset.go); their pods and their updates are in
-- the children.
pub mod DeploymentPod
pub mod DaemonSetPod
pub mod Deployments
pub mod DaemonSets
pub mod Replaces
pub mod Refines
pub mod Safety
use sesame_operator.Prelude.{String}
use sesame_operator.Api.{Sesame}
use sesame_operator.Kube.{Deployment, DaemonSet}
use sesame_operator.Cluster.{Request, Exec, Client}
use sesame_operator.Owned.{delete_owned}

abbrev pub sesame_deployment_name : String
sesame_deployment_name = "sesame"

abbrev pub envoy_daemon_set_name : String
envoy_daemon_set_name = "envoy"

module _ {C : Type 0} (cli : Client C) where
  unfoldable pub current_deployment : Sesame → Request C Deployment
  current_deployment s = cli.deployments.get s.spec.namespace.name sesame_deployment_name

  unfoldable pub ensure_deployment_deleted : Sesame → Exec C Unit
  unfolding delete_owned current_deployment
  ensure_deployment_deleted s =
      delete_owned (λ d. d.labels) cli.deployments s (current_deployment s)

  unfoldable pub current_daemon_set : Sesame → Request C DaemonSet
  current_daemon_set s = cli.daemon_sets.get s.spec.namespace.name envoy_daemon_set_name

  unfoldable pub ensure_daemon_set_deleted : Sesame → Exec C Unit
  unfolding delete_owned current_daemon_set
  ensure_daemon_set_deleted s =
      delete_owned (λ d. d.labels) cli.daemon_sets s (current_daemon_set s)
