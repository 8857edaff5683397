-- ===== src/Workloads/DeploymentPod.antt =====
-- The pod of the deployment that internal/objects/deployment/deployment.go desires.
use sesame_operator.Prelude.{
  ℕ, String, true, not, ◌&&◌, List, [], ◌∷◌, ◌++◌, Option, none, some, StringMap, nat_eq, ◌==◌,
  if◌then◌else◌, sprintf,
}
use sesame_operator.Api.{
  Sesame, ContainerPort, Toleration, owning_sesame_name_label, owning_sesame_ns_label,
  sesame_node_selector_exists, sesame_tolerations_exist,
}
use sesame_operator.Kube.Pods.{Container, PodSpec, Volume, http_get, tcp_socket, secret, config_map}
use sesame_operator.Services.{xds_port, sesame_deployment_pod_selector}
use sesame_operator.ConfigMaps.{sesame_config_map_name}
use sesame_operator.Access.{sesame_rbac_name}
use sesame_operator.SharedObjects.{
  decimal, rooted, rooted_file, field_env, new_unprivileged_pod_security,
  envoy_insecure_container_port, envoy_secure_container_port,
}

abbrev pub sesame_container_name : String
sesame_container_name = "sesame"

abbrev pub sesame_ns_env_var : String
sesame_ns_env_var = "Sesame_NAMESPACE"

abbrev pub sesame_pod_env_var : String
sesame_pod_env_var = "POD_NAME"

abbrev pub sesame_certs_vol_name : String
sesame_certs_vol_name = "Sesamecert"

abbrev pub sesame_certs_vol_mnt_dir : String
sesame_certs_vol_mnt_dir = "certs"

abbrev pub sesame_certs_secret_name : String
sesame_certs_secret_name = sesame_certs_vol_name

abbrev pub sesame_cfg_vol_name : String
sesame_cfg_vol_name = "sesame-config"

abbrev pub sesame_cfg_vol_mnt_dir : String
sesame_cfg_vol_mnt_dir = "config"

abbrev pub sesame_cfg_file_name : String
sesame_cfg_file_name = "sesame.yaml"

abbrev pub metrics_port : ℕ
metrics_port = 8000

abbrev pub debug_port : ℕ
debug_port = 6060

-- The loop over the container ports: a flag for each port that is not the default.
unfoldable pub port_args : List ContainerPort → List String
unfolding decimal
port_args [] = []
port_args (port ∷ ports) =
    let rest = port_args ports in
    if port.name == "http" && not (nat_eq port.port_number envoy_insecure_container_port)
    then sprintf ("--envoy-service-http-port=" ∷ decimal port.port_number ∷ []) ∷ rest
    else if port.name == "https" && not (nat_eq port.port_number envoy_secure_container_port)
    then sprintf ("--envoy-service-https-port=" ∷ decimal port.port_number ∷ []) ∷ rest
    else rest

abbrev pub class_args : Option String → List String
class_args none = []
class_args (some name) = sprintf ("--ingress-class-name=" ∷ name ∷ []) ∷ []

abbrev pub cert_arg : String → String → String
cert_arg flag file = sprintf (flag ∷ rooted_file sesame_certs_vol_mnt_dir file ∷ [])

unfoldable pub deployment_args : Sesame → List String
unfolding port_args
deployment_args s =
    ("serve"
      ∷ "--incluster"
      ∷ "--xds-address=0.0.0.0"
      ∷ sprintf ("--xds-port=" ∷ decimal xds_port ∷ [])
      ∷ cert_arg "--sesame-cafile=" "ca.crt"
      ∷ cert_arg "--sesame-cert-file=" "tls.crt"
      ∷ cert_arg "--sesame-key-file=" "tls.key"
      ∷ sprintf ("--config-path=" ∷ rooted_file sesame_cfg_vol_mnt_dir sesame_cfg_file_name ∷ [])
      ∷ [])
    ++ port_args s.spec.network_publishing.envoy.container_ports
    ++ class_args s.spec.ingress_class_name

unfoldable pub deployment_container : Sesame → String → Container
unfolding deployment_args
deployment_container s image = record {
  name = sesame_container_name;
  image = image;
  image_pull_policy = "IfNotPresent";
  command = "sesame" ∷ [];
  args = deployment_args s;
  env =
      field_env sesame_ns_env_var "metadata.namespace"
      ∷ field_env sesame_pod_env_var "metadata.name"
      ∷ [];
  ports =
      record { name = "xds"; container_port = xds_port; protocol = "TCP" }
      ∷ record { name = "metrics"; container_port = metrics_port; protocol = "TCP" }
      ∷ record { name = "debug"; container_port = debug_port; protocol = "TCP" }
      ∷ [];
  liveness_probe = some (record {
    handler = http_get "HTTP" "/healthz" metrics_port;
    initial_delay_seconds = 0;
    timeout_seconds = 1;
    period_seconds = 10;
    success_threshold = 1;
    failure_threshold = 3;
  });
  readiness_probe = some (record {
    handler = tcp_socket xds_port;
    initial_delay_seconds = 15;
    timeout_seconds = 1;
    period_seconds = 10;
    success_threshold = 1;
    failure_threshold = 3;
  });
  lifecycle = none;
  termination_message_path = "/dev/termination-log";
  termination_message_policy = "File";
  volume_mounts =
      record {
        name = sesame_certs_vol_name;
        mount_path = rooted sesame_certs_vol_mnt_dir;
        read_only = true;
      }
      ∷ record {
        name = sesame_cfg_vol_name;
        mount_path = rooted sesame_cfg_vol_mnt_dir;
        read_only = true;
      }
      ∷ [];
}

unfoldable pub make_deployment_labels : Sesame → StringMap
make_deployment_labels s =
    ("app.kubernetes.io/name", "sesame")
    ∷ ("app.kubernetes.io/instance", s.name)
    ∷ ("app.kubernetes.io/component", "ingress-controller")
    ∷ ("app.kubernetes.io/managed-by", "sesame-operator")
    ∷ (owning_sesame_name_label, s.name)
    ∷ (owning_sesame_ns_label, s.namespace)
    ∷ []

-- `Spec.NodePlacement.Sesame`, of which both fields are read only where the tests find them.
abbrev pub sesame_selector : Sesame → Option StringMap
sesame_selector s = elim s.spec.node_placement [
  | none ↦ none
  | some p ↦ elim p.sesame [ none ↦ none | some q ↦ q.node_selector ]
]

abbrev pub sesame_tolerations : Sesame → List Toleration
sesame_tolerations s = elim s.spec.node_placement [
  | none ↦ []
  | some p ↦ elim p.sesame [ none ↦ [] | some q ↦ q.tolerations ]
]

abbrev pub deployment_volumes : List Volume
deployment_volumes =
    record { name = sesame_certs_vol_name; source = secret 420 sesame_certs_secret_name }
    ∷ record {
      name = sesame_cfg_vol_name;
      source =
          config_map 420 sesame_config_map_name
            (record { key = sesame_cfg_file_name; path = sesame_cfg_file_name } ∷ []);
    }
    ∷ []

unfoldable pub deployment_pod : Sesame → String → PodSpec
unfolding deployment_container
deployment_pod s image = record {
  affinity =
      record {
        weight = 100;
        topology_key = "kubernetes.io/hostname";
        match_labels = sesame_deployment_pod_selector;
      }
      ∷ [];
  init_containers = [];
  containers = deployment_container s image ∷ [];
  volumes = deployment_volumes;
  node_selector = if sesame_node_selector_exists s then sesame_selector s else none;
  tolerations = if sesame_tolerations_exist s then sesame_tolerations s else [];
  dns_policy = "ClusterFirst";
  deprecated_service_account = sesame_rbac_name;
  service_account_name = sesame_rbac_name;
  automount_service_account_token = none;
  restart_policy = "Always";
  scheduler_name = "default-scheduler";
  security_context = some new_unprivileged_pod_security;
  termination_grace_period_seconds = some 30;
}
