-- ===== src/Tests/Samples.antt =====
-- The data of the tests: two sesames, a service, and a cluster whose state is the
-- number of conflicts that are still to come.
use sesame_operator.Prelude.{
  ℕ, zero, suc, String, true, false, [], ◌∷◌, none, some, refl, present, unless_empty,
}
use sesame_operator.Errors.{ClientError, message}
use sesame_operator.Errors.Retryable.{NewAggregate, FiltersNil}
use sesame_operator.Api.{Sesame, NodePort, node_port_service, load_balancer_service}
use sesame_operator.Kube.{int_val, ServicePort, Service, Deployment, DaemonSet}
use sesame_operator.Workloads.Deployments.{desired_deployment}
use sesame_operator.Workloads.DaemonSets.{desired_daemon_set}
use sesame_operator.Cluster.{Answer, answer, failed, Access, Client, Request, pure, fail}
use sesame_operator.Sesames.{new}
use sesame_operator.Controller.{Objects, Config}

abbrev pub new_aggregate : NewAggregate
new_aggregate errs = unless_empty (present errs)

pub filters : FiltersNil new_aggregate
filters errs = refl

abbrev pub other_sesame : Sesame
other_sesame = new (record {
  name = "other";
  namespace = "sesame-operator";
  spec_ns = "projectsesame";
  remove_ns = true;
  replicas = 2;
  network_type = load_balancer_service;
  node_ports = none;
  gateway_controller_name = none;
  enable_external_name_service = none;
})

abbrev pub node_port_at : String → ℕ → ℕ → NodePort
node_port_at name address value = record {
  name = name;
  port_number = some (record { address = address; value = value });
}

-- A sesame of the node port type, whose node ports have one number.
abbrev pub sample : Sesame
sample = new (record {
  name = "sesame";
  namespace = "sesame-operator";
  spec_ns = "projectsesame";
  remove_ns = true;
  replicas = 2;
  network_type = node_port_service;
  node_ports = some (node_port_at "http" 1 30080 ∷ node_port_at "https" 2 30080 ∷ []);
  gateway_controller_name = none;
  enable_external_name_service = none;
})

abbrev pub service_port : String → ℕ → ℕ → ServicePort
service_port name port node_port = record {
  name = name;
  protocol = "TCP";
  port = port;
  target_port = int_val port;
  node_port = node_port;
}

-- A service without labels.
abbrev pub foreign_service : Service
foreign_service = record {
  namespace = "projectsesame";
  name = "envoy";
  labels = none;
  annotations = [];
  resource_version = "1";
  ports = service_port "http" 80 30080 ∷ service_port "https" 443 30443 ∷ [];
  selector = [];
  type = "NodePort";
  session_affinity = "None";
  external_traffic_policy = "Local";
  load_balancer_ip = "";
  cluster_ip = "10.0.0.1";
  health_check_node_port = 0;
}

abbrev pub deployment : Deployment
deployment = record {
  namespace = "projectsesame";
  name = "sesame";
  labels = none;
  spec = (desired_deployment sample "sesame:v1").spec;
  available_replicas = 2;
  conditions = record { type = "Available"; status = "True"; message = "" } ∷ [];
}

abbrev pub daemon_set : DaemonSet
daemon_set = record {
  namespace = "projectsesame";
  name = "envoy";
  labels = none;
  spec = (desired_daemon_set sample "sesame:v1" "envoy:v1").spec;
  number_available = 3;
}

abbrev pub conflict : ClientError
conflict = record {
  is_not_found = false;
  text = "the object has been modified; please apply your changes to the latest version";
}

abbrev pub not_found : ClientError
not_found = record { is_not_found = true; text = "not found" }

abbrev pub says : {A : Type 0} → Answer A → Request ℕ A
says a c = (a, c)

abbrev pub reads : {K : Type 0} → Answer K → Access ℕ K
reads a = record {
  get = λ ns name. says a;
  create = λ o. says (answer tt);
  update = λ o. says (answer tt);
  delete = λ o. says (answer tt);
}

-- An update of the status fails by a conflict as long as there are some to come.
abbrev pub conflicting : Sesame → Request ℕ Unit
conflicting s zero = (answer tt, zero)
conflicting s (suc n) = (failed conflict, n)

abbrev pub cluster : Client ℕ
cluster = record {
  sesames = reads (answer sample);
  list_sesames = says (answer (sample ∷ other_sesame ∷ []));
  update_status = conflicting;
  namespaces = reads (failed not_found);
  services = reads (answer foreign_service);
  deployments = reads (answer deployment);
  daemon_sets = reads (answer daemon_set);
  jobs = reads (failed not_found);
  config_maps = reads (failed not_found);
  service_accounts = reads (failed not_found);
  roles = reads (failed not_found);
  role_bindings = reads (failed not_found);
  cluster_roles = reads (failed not_found);
  cluster_role_bindings = reads (failed not_found);
}

-- Where the access rules fail, and all else succeeds.
abbrev pub objects : Objects ℕ
objects = record {
  ensure_rbac = λ s. fail (message "no rules");
  ensure_rbac_deleted = λ s. fail (message "no rules");
  ensure_config_map = λ s. pure tt;
  ensure_config_map_deleted = λ s. pure tt;
  ensure_job = λ s image. pure tt;
  ensure_job_deleted = λ s. pure tt;
  ensure_deployment = λ s image. pure tt;
  ensure_daemon_set = λ s image envoy. pure tt;
}

abbrev pub config : Config
config = record { sesame_image = "sesame:v1"; envoy_image = "envoy:v1" }

abbrev pub clock : ℕ → ℕ
clock n = 100

abbrev pub to_lower : String → String
to_lower s = s
