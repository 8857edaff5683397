-- ===== src/Workloads/DaemonSetPod.antt =====
-- The pods of the daemon set that internal/objects/daemonset/daemonset.go desires.
use sesame_operator.Prelude.{
  String, Bool, true, false, List, [], ◌∷◌, Option, none, some, StringMap, if◌then◌else◌, sprintf,
  map,
}
use sesame_operator.Api.{Sesame, Toleration, envoy_node_selector_exists, envoy_tolerations_exist}
use sesame_operator.Kube.Pods.{
  Container, ContainerPort, PodSpec, Volume, VolumeMount, http_get, exec, secret, empty_dir,
}
use sesame_operator.Services.{xds_port}
use sesame_operator.Access.{envoy_rbac_name}
use sesame_operator.SharedObjects.{
  decimal, rooted, rooted_file, field_env, new_unprivileged_pod_security,
}

abbrev pub envoy_container_name : String
envoy_container_name = "envoy"

abbrev pub shutdown_container_name : String
shutdown_container_name = "shutdown-manager"

abbrev pub envoy_init_container_name : String
envoy_init_container_name = "envoy-initconfig"

abbrev pub envoy_ns_env_var : String
envoy_ns_env_var = "Sesame_NAMESPACE"

abbrev pub envoy_pod_env_var : String
envoy_pod_env_var = "ENVOY_POD_NAME"

abbrev pub envoy_certs_vol_name : String
envoy_certs_vol_name = "envoycert"

abbrev pub envoy_certs_vol_mnt_dir : String
envoy_certs_vol_mnt_dir = "certs"

abbrev pub envoy_certs_secret_name : String
envoy_certs_secret_name = envoy_certs_vol_name

abbrev pub envoy_cfg_vol_name : String
envoy_cfg_vol_name = "envoy-config"

abbrev pub envoy_cfg_vol_mnt_dir : String
envoy_cfg_vol_mnt_dir = "config"

abbrev pub envoy_admin_vol_name : String
envoy_admin_vol_name = "envoy-admin"

abbrev pub envoy_admin_vol_mnt_dir : String
envoy_admin_vol_mnt_dir = "admin"

abbrev pub envoy_cfg_file_name : String
envoy_cfg_file_name = "envoy.json"

abbrev pub xds_resource_version : String
xds_resource_version = "v3"

-- The loop over the container ports of the spec.
unfoldable pub daemon_set_ports : Sesame → List ContainerPort
daemon_set_ports s =
    map (λ port. record { name = port.name; container_port = port.port_number; protocol = "TCP" })
      s.spec.network_publishing.envoy.container_ports

abbrev pub mount : String → String → Bool → VolumeMount
mount name dir read_only = record { name = name; mount_path = rooted dir; read_only = read_only }

abbrev pub shutdown_container : String → Container
shutdown_container sesame_image = record {
  name = shutdown_container_name;
  image = sesame_image;
  image_pull_policy = "IfNotPresent";
  command = "/bin/sesame" ∷ [];
  args = "envoy" ∷ "shutdown-manager" ∷ [];
  env = [];
  ports = [];
  liveness_probe = some (record {
    handler = http_get "HTTP" "/healthz" 8090;
    initial_delay_seconds = 3;
    timeout_seconds = 1;
    period_seconds = 10;
    success_threshold = 1;
    failure_threshold = 3;
  });
  readiness_probe = none;
  lifecycle = some (exec ("/bin/sesame" ∷ "envoy" ∷ "shutdown" ∷ []));
  termination_message_path = "/dev/termination-log";
  termination_message_policy = "File";
  volume_mounts = mount envoy_admin_vol_name envoy_admin_vol_mnt_dir false ∷ [];
}

-- `$(variable)`, which the kubelet replaces.
abbrev pub variable : String → String → String
variable flag name = sprintf (flag ∷ " $(" ∷ name ∷ ")" ∷ [])

unfoldable pub envoy_container : Sesame → String → Container
unfolding daemon_set_ports
envoy_container s envoy_image = record {
  name = envoy_container_name;
  image = envoy_image;
  image_pull_policy = "IfNotPresent";
  command = "envoy" ∷ [];
  args =
      "-c"
      ∷ rooted_file envoy_cfg_vol_mnt_dir envoy_cfg_file_name
      ∷ variable "--service-cluster" envoy_ns_env_var
      ∷ variable "--service-node" envoy_pod_env_var
      ∷ "--log-level info"
      ∷ [];
  env =
      field_env envoy_ns_env_var "metadata.namespace"
      ∷ field_env envoy_pod_env_var "metadata.name"
      ∷ [];
  ports = daemon_set_ports s;
  liveness_probe = none;
  readiness_probe = some (record {
    handler = http_get "HTTP" "/ready" 8002;
    initial_delay_seconds = 3;
    timeout_seconds = 1;
    period_seconds = 4;
    success_threshold = 1;
    failure_threshold = 3;
  });
  lifecycle = some (http_get "HTTP" "/shutdown" 8090);
  termination_message_path = "/dev/termination-log";
  termination_message_policy = "File";
  volume_mounts =
      mount envoy_certs_vol_name envoy_certs_vol_mnt_dir true
      ∷ mount envoy_cfg_vol_name envoy_cfg_vol_mnt_dir true
      ∷ mount envoy_admin_vol_name envoy_admin_vol_mnt_dir false
      ∷ [];
}

abbrev pub envoy_cert_arg : String → String → String
envoy_cert_arg flag file = sprintf (flag ∷ rooted_file envoy_certs_vol_mnt_dir file ∷ [])

unfoldable pub envoy_init_container : String → Container
unfolding decimal
envoy_init_container sesame_image = record {
  name = envoy_init_container_name;
  image = sesame_image;
  image_pull_policy = "IfNotPresent";
  command = "sesame" ∷ [];
  args =
      "bootstrap"
      ∷ rooted_file envoy_cfg_vol_mnt_dir envoy_cfg_file_name
      ∷ "--xds-address=sesame"
      ∷ sprintf ("--xds-port=" ∷ decimal xds_port ∷ [])
      ∷ sprintf ("--xds-resource-version=" ∷ xds_resource_version ∷ [])
      ∷ sprintf ("--resources-dir=" ∷ rooted_file envoy_cfg_vol_mnt_dir "resources" ∷ [])
      ∷ envoy_cert_arg "--envoy-cafile=" "ca.crt"
      ∷ envoy_cert_arg "--envoy-cert-file=" "tls.crt"
      ∷ envoy_cert_arg "--envoy-key-file=" "tls.key"
      ∷ [];
  env = field_env envoy_ns_env_var "metadata.namespace" ∷ [];
  ports = [];
  liveness_probe = none;
  readiness_probe = none;
  lifecycle = none;
  termination_message_path = "/dev/termination-log";
  termination_message_policy = "File";
  volume_mounts =
      mount envoy_certs_vol_name envoy_certs_vol_mnt_dir true
      ∷ mount envoy_cfg_vol_name envoy_cfg_vol_mnt_dir false
      ∷ [];
}

-- `Spec.NodePlacement.Envoy`, of which both fields are read only where the tests find them.
abbrev pub envoy_selector : Sesame → Option StringMap
envoy_selector s = elim s.spec.node_placement [
  | none ↦ none
  | some p ↦ elim p.envoy [ none ↦ none | some q ↦ q.node_selector ]
]

abbrev pub envoy_tolerations : Sesame → List Toleration
envoy_tolerations s = elim s.spec.node_placement [
  | none ↦ []
  | some p ↦ elim p.envoy [ none ↦ [] | some q ↦ q.tolerations ]
]

abbrev pub daemon_set_volumes : List Volume
daemon_set_volumes =
    record { name = envoy_certs_vol_name; source = secret 420 envoy_certs_secret_name }
    ∷ record { name = envoy_cfg_vol_name; source = empty_dir }
    ∷ record { name = envoy_admin_vol_name; source = empty_dir }
    ∷ []

unfoldable pub daemon_set_pod : Sesame → String → String → PodSpec
unfolding envoy_container envoy_init_container
daemon_set_pod s sesame_image envoy_image = record {
  affinity = [];
  init_containers = envoy_init_container sesame_image ∷ [];
  containers = shutdown_container sesame_image ∷ envoy_container s envoy_image ∷ [];
  volumes = daemon_set_volumes;
  node_selector = if envoy_node_selector_exists s then envoy_selector s else none;
  tolerations = if envoy_tolerations_exist s then envoy_tolerations s else [];
  dns_policy = "ClusterFirst";
  deprecated_service_account = envoy_container_name;
  service_account_name = envoy_rbac_name;
  automount_service_account_token = some false;
  restart_policy = "Always";
  scheduler_name = "default-scheduler";
  security_context = some new_unprivileged_pod_security;
  termination_grace_period_seconds = some 300;
}
