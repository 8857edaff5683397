-- ===== src/Api.antt =====
-- The `Sesame` resource (api/v1alpha1/sesame_types.go) and the helpers on it (helpers.go).
-- A string type with named constants is an enumeration with one more constructor for other texts.
-- The numbers are `int32` values, which are only compared. A pointer is an `Option`; where the code
-- compares two pointers the address is kept.
use sesame_operator.Prelude.{
  ℕ, String, Bool, true, false, List, [], ◌∷◌, Option, none, some, StringMap, ◌==◌, if◌then◌else◌,
}

abbrev pub owning_sesame_name_label : String
owning_sesame_name_label = "sesame.operator.projectsesame.io/owning-sesame-name"

abbrev pub owning_sesame_ns_label : String
owning_sesame_ns_label = "sesame.operator.projectsesame.io/owning-sesame-namespace"

abbrev pub sesame_finalizer : String
sesame_finalizer = "sesame.operator.projectsesame.io/finalizer"

abbrev pub sesame_available_condition_type : String
sesame_available_condition_type = "Available"

pub data NetworkPublishingType : Type 0 where
  load_balancer_service node_port_service cluster_ip_service : NetworkPublishingType
  other_type : String → NetworkPublishingType

pub data LoadBalancerScope : Type 0 where
  internal external : LoadBalancerScope
  other_scope : String → LoadBalancerScope

pub data LoadBalancerProviderType : Type 0 where
  aws_provider azure_provider gcp_provider : LoadBalancerProviderType
  other_provider : String → LoadBalancerProviderType

pub data AwsLoadBalancerType : Type 0 where
  aws_classic aws_network : AwsLoadBalancerType
  other_balancer : String → AwsLoadBalancerType

pub record AwsLoadBalancerParameters : Type 0 where
  pub type : AwsLoadBalancerType
  pub allocation_ids : Option (List String)

pub record AzureLoadBalancerParameters : Type 0 where
  pub address : Option String
  pub resource_group : Option String
  pub subnet : Option String

pub record GcpLoadBalancerParameters : Type 0 where
  pub address : Option String
  pub subnet : Option String

pub record ProviderLoadBalancerParameters : Type 0 where
  pub type : LoadBalancerProviderType
  pub aws : Option AwsLoadBalancerParameters
  pub azure : Option AzureLoadBalancerParameters
  pub gcp : Option GcpLoadBalancerParameters

pub record LoadBalancerStrategy : Type 0 where
  pub scope : LoadBalancerScope
  pub provider_parameters : ProviderLoadBalancerParameters

-- `*int32` with the address that the pointer holds.
pub record Int32Ptr : Type 0 where
  pub address : ℕ
  pub value : ℕ

pub record NodePort : Type 0 where
  pub name : String
  pub port_number : Option Int32Ptr

pub record ContainerPort : Type 0 where
  pub name : String
  pub port_number : ℕ

pub record EnvoyNetworkPublishing : Type 0 where
  pub type : NetworkPublishingType
  pub load_balancer : LoadBalancerStrategy
  -- `none` is the nil slice, which `NodePorts` of pkg/validation tells from an empty one.
  pub node_ports : Option (List NodePort)
  pub container_ports : List ContainerPort

pub record NetworkPublishing : Type 0 where
  pub envoy : EnvoyNetworkPublishing

pub record NamespaceSpec : Type 0 where
  pub name : String
  pub remove_on_deletion : Bool

-- `corev1.Toleration`, which the operator only copies.
pub record Toleration : Type 0 where
  pub key : String
  pub operator : String
  pub value : String
  pub effect : String
  pub toleration_seconds : Option ℕ

pub record SesameNodePlacement : Type 0 where
  pub node_selector : Option StringMap
  pub tolerations : List Toleration

pub record EnvoyNodePlacement : Type 0 where
  pub node_selector : Option StringMap
  pub tolerations : List Toleration

pub record NodePlacement : Type 0 where
  pub sesame : Option SesameNodePlacement
  pub envoy : Option EnvoyNodePlacement

pub record SesameSpec : Type 0 where
  pub replicas : ℕ
  pub namespace : NamespaceSpec
  pub network_publishing : NetworkPublishing
  pub gateway_class_ref : Option String
  pub gateway_controller_name : Option String
  pub ingress_class_name : Option String
  pub node_placement : Option NodePlacement
  pub enable_external_name_service : Option Bool

-- `metav1.Condition`, a type of the API machinery, by the fields that the operator uses. A time is
-- the number of seconds of the clock.
pub record Condition : Type 0 where
  pub type : String
  pub status : String
  pub reason : String
  pub message : String
  pub last_transition_time : ℕ

pub record SesameStatus : Type 0 where
  pub available_sesames : ℕ
  pub available_envoys : ℕ
  pub conditions : List Condition

-- `deleting` says whether `metadata.deletionTimestamp` is set.
pub record Sesame : Type 0 where
  pub namespace : String
  pub name : String
  pub finalizers : List String
  pub deleting : Bool
  pub spec : SesameSpec
  pub status : SesameStatus

unfoldable pub has_finalizer : List String → Bool
has_finalizer [] = false
has_finalizer (f ∷ fs) = let rest = has_finalizer fs in if f == sesame_finalizer then true else rest

unfoldable pub is_finalized : Sesame → Bool
unfolding has_finalizer
is_finalized c = has_finalizer c.finalizers

unfoldable pub gateway_class_set : Sesame → Bool
gateway_class_set c = elim c.spec.gateway_class_ref [ none ↦ false | some _ ↦ true ]

unfoldable pub sesame_node_selector_exists : Sesame → Bool
sesame_node_selector_exists c = elim c.spec.node_placement [
  | none ↦ false
  | some p ↦ elim p.sesame [
    | none ↦ false
    | some q ↦ elim q.node_selector [ none ↦ false | some _ ↦ true ]
  ]
]

unfoldable pub sesame_tolerations_exist : Sesame → Bool
sesame_tolerations_exist c = elim c.spec.node_placement [
  | none ↦ false
  | some p ↦ elim p.sesame [
    | none ↦ false
    | some q ↦ elim q.tolerations [ [] ↦ false | _ ∷ _ ↦ true ]
  ]
]

unfoldable pub envoy_node_selector_exists : Sesame → Bool
envoy_node_selector_exists c = elim c.spec.node_placement [
  | none ↦ false
  | some p ↦ elim p.envoy [
    | none ↦ false
    | some q ↦ elim q.node_selector [ none ↦ false | some _ ↦ true ]
  ]
]

unfoldable pub envoy_tolerations_exist : Sesame → Bool
envoy_tolerations_exist c = elim c.spec.node_placement [
  | none ↦ false
  | some p ↦ elim p.envoy [
    | none ↦ false
    | some q ↦ elim q.tolerations [ [] ↦ false | _ ∷ _ ↦ true ]
  ]
]

-- Case tests of the code's `==` on the string types.
abbrev pub is_load_balancer : NetworkPublishingType → Bool
is_load_balancer load_balancer_service = true
is_load_balancer _ = false

abbrev pub is_node_port : NetworkPublishingType → Bool
is_node_port node_port_service = true
is_node_port _ = false

abbrev pub is_aws : LoadBalancerProviderType → Bool
is_aws aws_provider = true
is_aws _ = false

abbrev pub is_azure : LoadBalancerProviderType → Bool
is_azure azure_provider = true
is_azure _ = false

abbrev pub is_gcp : LoadBalancerProviderType → Bool
is_gcp gcp_provider = true
is_gcp _ = false

abbrev pub is_internal : LoadBalancerScope → Bool
is_internal internal = true
is_internal _ = false

abbrev pub is_external : LoadBalancerScope → Bool
is_external external = true
is_external _ = false

abbrev pub is_classic : AwsLoadBalancerType → Bool
is_classic aws_classic = true
is_classic _ = false

abbrev pub is_network : AwsLoadBalancerType → Bool
is_network aws_network = true
is_network _ = false
