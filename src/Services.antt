-- ===== src/Services.antt =====
-- internal/objects/service/service.go: the services of Sesame and of Envoy.
pub mod Annotations
pub mod Ports
pub mod Ensure
pub mod Safety
use sesame_operator.Prelude.{
  ℕ, String, ◌||◌, List, [], ◌∷◌, Option, none, some, StringMap, ◌==◌, if◌then◌else◌,
}
use sesame_operator.Api.{
  NetworkPublishingType, load_balancer_service, node_port_service, cluster_ip_service, other_type,
  NodePort, ContainerPort, Sesame, is_load_balancer, is_node_port,
}
use sesame_operator.Kube.{Service, ServicePort, int_val}
use sesame_operator.Labels.{owner_labels}
use Annotations.{envoy_annotations, load_balancer_address_needed}

abbrev pub sesame_svc_name : String
sesame_svc_name = "sesame"

abbrev pub envoy_svc_name : String
envoy_svc_name = "envoy"

abbrev pub envoy_service_http_port : ℕ
envoy_service_http_port = 80

abbrev pub envoy_service_https_port : ℕ
envoy_service_https_port = 443

abbrev pub xds_port : ℕ
xds_port = 8001

-- `SesameDeploymentPodSelector` and `EnvoyDaemonSetPodSelector`, their `MatchLabels`.
abbrev pub sesame_deployment_pod_selector : StringMap
sesame_deployment_pod_selector = ("app", "sesame") ∷ []

abbrev pub envoy_daemon_set_pod_selector : StringMap
envoy_daemon_set_pod_selector = ("app", "envoy") ∷ []

unfoldable pub desired_sesame_service : Sesame → Service
unfolding owner_labels
desired_sesame_service s = record {
  namespace = s.spec.namespace.name;
  name = sesame_svc_name;
  labels = some (owner_labels s);
  annotations = [];
  resource_version = "";
  ports =
      record {
        name = "xds";
        protocol = "TCP";
        port = xds_port;
        target_port = int_val xds_port;
        node_port = 0;
      }
      ∷ [];
  selector = sesame_deployment_pod_selector;
  type = "ClusterIP";
  session_affinity = "None";
  external_traffic_policy = "";
  load_balancer_ip = "";
  cluster_ip = "";
  health_check_node_port = 0;
}

-- The loop of `DesiredEnvoyService` over the container ports. Its case `httpsFound && httpFound`
-- reads two variables that every round sets to false, and is never taken.
unfoldable pub envoy_ports : List ContainerPort → List ServicePort
envoy_ports [] = []
envoy_ports (port ∷ ports) =
    let rest = envoy_ports ports in
    if port.name == "http"
    then record {
      name = port.name;
      protocol = "TCP";
      port = envoy_service_http_port;
      target_port = int_val port.port_number;
      node_port = 0;
    }
      ∷ rest
    else if port.name == "https"
    then record {
      name = port.name;
      protocol = "TCP";
      port = envoy_service_https_port;
      target_port = int_val port.port_number;
      node_port = 0;
    }
      ∷ rest
    else rest

-- The loop over `svc.Spec.Ports` for one node port.
unfoldable pub set_node_port : String → ℕ → List ServicePort → List ServicePort
set_node_port name number [] = []
set_node_port name number (q ∷ qs) =
    (if q.name == name then record q { node_port = number } else q) ∷ set_node_port name number qs

unfoldable pub set_node_ports : List NodePort → List ServicePort → List ServicePort
unfolding set_node_port
set_node_ports [] ports = ports
set_node_ports (p ∷ ps) ports = elim p.port_number [
  | none ↦ set_node_ports ps ports
  | some n ↦ set_node_ports ps (set_node_port p.name n.value ports)
]

abbrev pub ports_or_empty : Option (List NodePort) → List NodePort
ports_or_empty none = []
ports_or_empty (some ps) = ps

-- The service type of a publishing type; the empty one where no case of the switch fits.
abbrev pub service_type : NetworkPublishingType → String
service_type load_balancer_service = "LoadBalancer"
service_type node_port_service = "NodePort"
service_type cluster_ip_service = "ClusterIP"
service_type (other_type t) = ""

abbrev pub string_or_empty : Option String → String
string_or_empty none = ""
string_or_empty (some s) = s

unfoldable pub desired_envoy_service : Sesame → Service
unfolding owner_labels envoy_ports envoy_annotations set_node_ports load_balancer_address_needed
desired_envoy_service s =
    let envoy = s.spec.network_publishing.envoy in
    let ports = envoy_ports envoy.container_ports in
    record {
      namespace = s.spec.namespace.name;
      name = envoy_svc_name;
      labels = some (owner_labels s);
      annotations = envoy_annotations s.spec;
      resource_version = "";
      ports =
          if is_node_port envoy.type
          then set_node_ports (ports_or_empty envoy.node_ports) ports
          else ports;
      selector = envoy_daemon_set_pod_selector;
      type = service_type envoy.type;
      session_affinity = "None";
      external_traffic_policy =
          if is_load_balancer envoy.type || is_node_port envoy.type then "Local" else "";
      load_balancer_ip = string_or_empty (load_balancer_address_needed s.spec);
      cluster_ip = "";
      health_check_node_port = 0;
    }
