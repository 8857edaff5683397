-- ===== src/Kube.antt =====
-- The Kubernetes objects that the operator manages, by the fields that it reads or writes. They are
-- types of the k8s.io/api packages. `none` as a label map is Go's nil map.
pub mod Pods
use sesame_operator.Prelude.{ℕ, String, List, Option, StringMap}
use Pods.{PodTemplateSpec}

pub record Namespace : Type 0 where
  pub name : String
  pub labels : Option StringMap
  pub resource_version : String

pub data IntOrString : Type 0 where
  int_val : ℕ → IntOrString
  str_val : String → IntOrString

pub record ServicePort : Type 0 where
  pub name : String
  pub protocol : String
  pub port : ℕ
  pub target_port : IntOrString
  pub node_port : ℕ

-- `cluster_ip`, `health_check_node_port` and `resource_version` are assigned by the API server.
pub record Service : Type 0 where
  pub namespace : String
  pub name : String
  pub labels : Option StringMap
  pub annotations : StringMap
  pub resource_version : String
  pub ports : List ServicePort
  pub selector : StringMap
  pub type : String
  pub session_affinity : String
  pub external_traffic_policy : String
  pub load_balancer_ip : String
  pub cluster_ip : String
  pub health_check_node_port : ℕ

-- `appsv1.DeploymentCondition`.
pub record DeploymentCondition : Type 0 where
  pub type : String
  pub status : String
  pub message : String

-- `selector` is the `MatchLabels` of the selector; the two limits are those of the rolling update.
pub record DeploymentSpec : Type 0 where
  pub progress_deadline_seconds : Option ℕ
  pub replicas : Option ℕ
  pub revision_history_limit : Option ℕ
  pub selector : Option StringMap
  pub strategy : String
  pub max_surge : IntOrString
  pub max_unavailable : IntOrString
  pub template : PodTemplateSpec

pub record Deployment : Type 0 where
  pub namespace : String
  pub name : String
  pub labels : Option StringMap
  pub spec : DeploymentSpec
  pub available_replicas : ℕ
  pub conditions : List DeploymentCondition

pub record DaemonSetSpec : Type 0 where
  pub revision_history_limit : Option ℕ
  pub selector : Option StringMap
  pub update_strategy : String
  pub max_unavailable : IntOrString
  pub template : PodTemplateSpec

pub record DaemonSet : Type 0 where
  pub namespace : String
  pub name : String
  pub labels : Option StringMap
  pub spec : DaemonSetSpec
  pub number_available : ℕ

pub record JobSpec : Type 0 where
  pub parallelism : Option ℕ
  pub completions : Option ℕ
  pub backoff_limit : Option ℕ
  pub ttl_seconds_after_finished : Option ℕ
  pub template : PodTemplateSpec

pub record Job : Type 0 where
  pub namespace : String
  pub name : String
  pub labels : Option StringMap
  pub spec : JobSpec

-- `contents` is the field `Data`.
pub record ConfigMap : Type 0 where
  pub namespace : String
  pub name : String
  pub labels : Option StringMap
  pub contents : StringMap

pub record ServiceAccount : Type 0 where
  pub namespace : String
  pub name : String
  pub labels : Option StringMap

pub record PolicyRule : Type 0 where
  pub verbs : List String
  pub api_groups : List String
  pub resources : List String

pub record Subject : Type 0 where
  pub kind : String
  pub api_group : String
  pub name : String
  pub namespace : String

pub record RoleRef : Type 0 where
  pub api_group : String
  pub kind : String
  pub name : String

pub record Role : Type 0 where
  pub namespace : String
  pub name : String
  pub labels : Option StringMap
  pub rules : List PolicyRule

pub record RoleBinding : Type 0 where
  pub namespace : String
  pub name : String
  pub labels : Option StringMap
  pub subjects : List Subject
  pub role_ref : RoleRef

-- These two kinds have no namespace.
pub record ClusterRole : Type 0 where
  pub name : String
  pub labels : Option StringMap
  pub rules : List PolicyRule

pub record ClusterRoleBinding : Type 0 where
  pub name : String
  pub labels : Option StringMap
  pub subjects : List Subject
  pub role_ref : RoleRef
