-- ===== src/Kube/Pods.antt =====
-- The pods that jobs, deployments and daemon sets run: types of k8s.io/api/core/v1, by the fields
-- that the operator sets. A pointer is an `Option`, and so is a map that may be nil.
use sesame_operator.Prelude.{ℕ, String, Bool, List, Option, StringMap}
use sesame_operator.Api.{Toleration}

-- An environment variable whose value comes from a field of the pod.
pub record EnvVar : Type 0 where
  pub name : String
  pub api_version : String
  pub field_path : String

pub record ContainerPort : Type 0 where
  pub name : String
  pub container_port : ℕ
  pub protocol : String

-- `corev1.Handler`. The ports are numbers, since the operator sets no named port.
pub data Handler : Type 0 where
  http_get : (scheme path : String) → ℕ → Handler
  tcp_socket : ℕ → Handler
  exec : List String → Handler

pub record Probe : Type 0 where
  pub handler : Handler
  pub initial_delay_seconds : ℕ
  pub timeout_seconds : ℕ
  pub period_seconds : ℕ
  pub success_threshold : ℕ
  pub failure_threshold : ℕ

pub record VolumeMount : Type 0 where
  pub name : String
  pub mount_path : String
  pub read_only : Bool

-- `lifecycle` is the `PreStop` handler.
pub record Container : Type 0 where
  pub name : String
  pub image : String
  pub image_pull_policy : String
  pub command : List String
  pub args : List String
  pub env : List EnvVar
  pub ports : List ContainerPort
  pub liveness_probe : Option Probe
  pub readiness_probe : Option Probe
  pub lifecycle : Option Handler
  pub termination_message_path : String
  pub termination_message_policy : String
  pub volume_mounts : List VolumeMount

pub record KeyToPath : Type 0 where
  pub key : String
  pub path : String

pub data VolumeSource : Type 0 where
  -- the mode, and the name of the secret
  secret : ℕ → String → VolumeSource
  -- the mode, the name of the config map, and its items
  config_map : ℕ → String → List KeyToPath → VolumeSource
  empty_dir : VolumeSource

pub record Volume : Type 0 where
  pub name : String
  pub source : VolumeSource

pub record PodSecurityContext : Type 0 where
  pub run_as_user : Option ℕ
  pub run_as_group : Option ℕ
  pub run_as_non_root : Option Bool

-- A preferred term of the pod anti-affinity, with the `MatchLabels` of its selector.
pub record WeightedPodAffinityTerm : Type 0 where
  pub weight : ℕ
  pub topology_key : String
  pub match_labels : StringMap

pub record PodSpec : Type 0 where
  pub affinity : List WeightedPodAffinityTerm
  pub init_containers : List Container
  pub containers : List Container
  pub volumes : List Volume
  pub node_selector : Option StringMap
  pub tolerations : List Toleration
  pub dns_policy : String
  pub deprecated_service_account : String
  pub service_account_name : String
  pub automount_service_account_token : Option Bool
  pub restart_policy : String
  pub scheduler_name : String
  pub security_context : Option PodSecurityContext
  pub termination_grace_period_seconds : Option ℕ

pub record PodTemplateSpec : Type 0 where
  pub labels : Option StringMap
  pub annotations : StringMap
  pub spec : PodSpec
