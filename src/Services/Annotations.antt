-- ===== src/Services/Annotations.antt =====
-- internal/objects/service/service.go: the annotations of the service of Envoy, and what a spec asks of
-- the load balancer.
use sesame_operator.Prelude.{
  String, Bool, true, ◌&&◌, List, [], ◌∷◌, Option, none, some, StringMap, insert, insert_all,
  if◌then◌else◌, sprintf,
}
use sesame_operator.Api.{
  LoadBalancerProviderType, aws_provider, azure_provider, gcp_provider, other_provider,
  ProviderLoadBalancerParameters, SesameSpec, is_load_balancer, is_aws, is_azure, is_gcp,
  is_internal, is_external, is_classic, is_network,
}

abbrev pub aws_lb_backend_proto_annotation : String
aws_lb_backend_proto_annotation = "service.beta.kubernetes.io/aws-load-balancer-backend-protocol"

abbrev pub aws_lb_type_annotation : String
aws_lb_type_annotation = "service.beta.kubernetes.io/aws-load-balancer-type"

abbrev pub aws_lb_proxy_protocol_annotation : String
aws_lb_proxy_protocol_annotation = "service.beta.kubernetes.io/aws-load-balancer-proxy-protocol"

abbrev pub aws_lb_allocation_ids_annotation : String
aws_lb_allocation_ids_annotation = "service.beta.kubernetes.io/aws-load-balancer-eip-allocations"

abbrev pub aws_internal_lb_annotation : String
aws_internal_lb_annotation = "service.beta.kubernetes.io/aws-load-balancer-internal"

abbrev pub azure_lb_resource_group_annotation : String
azure_lb_resource_group_annotation = "service.beta.kubernetes.io/azure-load-balancer-resource-group"

abbrev pub azure_lb_subnet_annotation : String
azure_lb_subnet_annotation = "service.beta.kubernetes.io/azure-load-balancer-internal-subnet"

abbrev pub azure_internal_lb_annotation : String
azure_internal_lb_annotation = "service.beta.kubernetes.io/azure-load-balancer-internal"

abbrev pub gcp_lb_subnet_annotation : String
gcp_lb_subnet_annotation = "networking.gke.io/internal-load-balancer-subnet"

abbrev pub gcp_lb_type_annotation_legacy : String
gcp_lb_type_annotation_legacy = "cloud.google.com/load-balancer-type"

abbrev pub gcp_lb_type_annotation : String
gcp_lb_type_annotation = "networking.gke.io/load-balancer-type"

-- `InternalLBAnnotations[provider]`, with a missing key as the empty map.
abbrev pub internal_lb_annotations : LoadBalancerProviderType → StringMap
internal_lb_annotations aws_provider = (aws_internal_lb_annotation, "true") ∷ []
internal_lb_annotations azure_provider = (azure_internal_lb_annotation, "true") ∷ []
internal_lb_annotations gcp_provider =
    (gcp_lb_type_annotation, "Internal") ∷ (gcp_lb_type_annotation_legacy, "Internal") ∷ []
internal_lb_annotations (other_provider p) = []

-- The parameters of a provider, as a function of the first `some` on the way to them.
abbrev pub and_then {ℓ κ} : {A : Type ℓ} {B : Type κ} → Option A → (A → Option B) → Option B
and_then none f = none
and_then (some a) f = f a

unfoldable pub is_elb : ProviderLoadBalancerParameters → Bool
is_elb params = is_aws params.type && elim params.aws [ none ↦ true | some a ↦ is_classic a.type ]

-- The tests `…Needed` of a spec, which also hand over the value that they find not to be nil.
unfoldable pub allocation_ids_needed : SesameSpec → Option (List String)
allocation_ids_needed spec =
    let envoy = spec.network_publishing.envoy in
    let params = envoy.load_balancer.provider_parameters in
    if is_load_balancer envoy.type && is_external envoy.load_balancer.scope && is_aws params.type
    then and_then params.aws (λ a. if is_network a.type then a.allocation_ids else none)
    else none

unfoldable pub resource_group_needed : SesameSpec → Option String
resource_group_needed spec =
    let envoy = spec.network_publishing.envoy in
    let params = envoy.load_balancer.provider_parameters in
    if is_load_balancer envoy.type && is_azure params.type && is_external envoy.load_balancer.scope
    then and_then params.azure (λ a. a.resource_group)
    else none

unfoldable pub subnet_needed : SesameSpec → Option String
subnet_needed spec =
    let envoy = spec.network_publishing.envoy in
    let params = envoy.load_balancer.provider_parameters in
    if is_load_balancer envoy.type && is_internal envoy.load_balancer.scope
    then (if is_azure params.type
        then and_then params.azure (λ a. a.subnet)
        else if is_gcp params.type
        then and_then params.gcp (λ g. g.subnet)
        else none)
    else none

unfoldable pub load_balancer_address_needed : SesameSpec → Option String
load_balancer_address_needed spec =
    let envoy = spec.network_publishing.envoy in
    let params = envoy.load_balancer.provider_parameters in
    if is_load_balancer envoy.type
    then (if is_azure params.type
        then and_then params.azure (λ a. a.address)
        else if is_gcp params.type
        then and_then params.gcp (λ g. g.address)
        else none)
    else none

-- `strings.Join(ids, ",")`
unfoldable pub join_comma : List String → String
join_comma [] = ""
join_comma (x ∷ []) = x
join_comma (x ∷ y ∷ xs) = sprintf (x ∷ "," ∷ join_comma (y ∷ xs) ∷ [])

-- `svc.Annotations[key] = value`, where there is a value.
abbrev pub annotate : String → Option String → StringMap → StringMap
annotate key none m = m
annotate key (some value) m = insert key value m

-- The annotations of an AWS load balancer, by its kind.
unfoldable pub aws_annotations : SesameSpec → StringMap → StringMap
unfolding is_elb
aws_annotations spec m =
    let envoy = spec.network_publishing.envoy in
    let params = envoy.load_balancer.provider_parameters in
    if is_load_balancer envoy.type && is_aws params.type
    then (if is_elb params
        then insert aws_lb_proxy_protocol_annotation "*"
            (insert aws_lb_backend_proto_annotation "tcp" m)
        else insert aws_lb_type_annotation "nlb" m)
    else m

unfoldable pub subnet_annotation : SesameSpec → StringMap → StringMap
unfolding subnet_needed
subnet_annotation spec m =
    let params = spec.network_publishing.envoy.load_balancer.provider_parameters in
    if is_azure params.type
    then annotate azure_lb_subnet_annotation (subnet_needed spec) m
    else if is_gcp params.type
    then annotate gcp_lb_subnet_annotation (subnet_needed spec) m
    else m

unfoldable pub internal_annotations : SesameSpec → StringMap → StringMap
internal_annotations spec m =
    let envoy = spec.network_publishing.envoy in
    if is_load_balancer envoy.type && is_internal envoy.load_balancer.scope
    then insert_all (internal_lb_annotations envoy.load_balancer.provider_parameters.type) m
    else m

-- All annotations, in the order of the writes.
unfoldable pub envoy_annotations : SesameSpec → StringMap
unfolding aws_annotations subnet_annotation internal_annotations allocation_ids_needed
    resource_group_needed join_comma
envoy_annotations spec = internal_annotations spec (
    subnet_annotation spec (
      annotate azure_lb_resource_group_annotation (resource_group_needed spec) (
        annotate aws_lb_allocation_ids_annotation
          (and_then (allocation_ids_needed spec) (λ ids. some (join_comma ids)))
          (aws_annotations spec []))))
