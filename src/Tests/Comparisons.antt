-- ===== src/Tests/Comparisons.antt =====
-- The labels, the comparisons and the services at work, on a service without labels.
use sesame_operator.Prelude.{
  List, inl, inr, ℕ, ◌<◌, true, [], ◌∷◌, none, some, length, ◌≡◌, refl, ◌↔◌, All, arith,
}
use sesame_operator.Errors.{ok, panic}
use sesame_operator.Kube.{Service}
use sesame_operator.Labels.{exist, Carries, exist_iff}
use sesame_operator.Cluster.Keeps.{Keeps}
use sesame_operator.Owned.{Guards}
use sesame_operator.Equality.{
  cluster_ip_service_changed, load_balancer_service_changed, node_port_service_changed,
  cluster_ip_updated, load_balancer_updated, node_port_updated,
}
use sesame_operator.Equality.Settles.{
  node_ports, cluster_ip_service_changed_settles, load_balancer_service_changed_settles,
  node_port_service_changed_settles, load_balancer_service_changed_keeps,
}
use sesame_operator.Equality.NodePort.{
  node_port_service_changed_panic_iff, assigned_node_port_overwritten,
}
use sesame_operator.Services.Ensure.{ensure_envoy_service}
use sesame_operator.Api.{ContainerPort}
use sesame_operator.Services.Ports.{Pair, envoy_ports-Pair}
use sesame_operator.Validation.Ports.{PortsValid}
use sesame_operator.Services.Safety.{ensure_envoy_service-Keeps}
use sesame_operator.Tests.Semantic.{semantic, port_equal_sound}
use sesame_operator.Tests.Samples.{cluster, sample, foreign_service, service_port}

exist_iff_example :
    (exist (some (("app", "sesame") ∷ [])) (("app", "sesame") ∷ []) ≡ true)
    ↔ All (Carries (("app", "sesame") ∷ [])) (("app", "sesame") ∷ [])
exist_iff_example = exist_iff (("app", "sesame") ∷ []) (("app", "sesame") ∷ [])

-- What is expected of the service: other ports and annotations, and no node ports.
abbrev expected : Service
expected = record foreign_service {
  annotations = ("k", "v") ∷ [];
  ports = service_port "http" 80 0 ∷ service_port "https" 8443 0 ∷ [];
}

abbrev expected_ip : Service
expected_ip = record expected { type = "ClusterIP" }

cluster_ip_service_changed_settles_example :
    cluster_ip_service_changed semantic
      (cluster_ip_updated semantic foreign_service expected_ip)
      expected_ip
    ≡ none
unfolding cluster_ip_service_changed
cluster_ip_service_changed_settles_example =
    cluster_ip_service_changed_settles semantic foreign_service expected_ip
      (cluster_ip_updated semantic foreign_service expected_ip) refl

load_balancer_service_changed_settles_example :
    load_balancer_service_changed semantic
      (load_balancer_updated semantic foreign_service expected)
      expected
    ≡ none
unfolding load_balancer_service_changed
load_balancer_service_changed_settles_example =
    load_balancer_service_changed_settles semantic foreign_service expected
      (load_balancer_updated semantic foreign_service expected) refl

node_port_service_changed_settles_example :
    node_port_service_changed semantic
      (node_port_updated semantic foreign_service expected true)
      expected
    ≡ ok none
unfolding node_port_service_changed
node_port_service_changed_settles_example =
    node_port_service_changed_settles semantic foreign_service expected
      (node_port_updated semantic foreign_service expected true) refl

abbrev updated : Service
updated = load_balancer_updated semantic foreign_service expected

load_balancer_service_changed_keeps_example :
    (updated.cluster_ip ≡ foreign_service.cluster_ip)
    × (updated.health_check_node_port ≡ foreign_service.health_check_node_port)
    × (updated.resource_version ≡ foreign_service.resource_version)
    × (length foreign_service.ports ≡ length expected.ports
        → node_ports updated.ports ≡ node_ports foreign_service.ports)
unfolding load_balancer_service_changed
load_balancer_service_changed_keeps_example =
    load_balancer_service_changed_keeps semantic foreign_service expected updated refl

node_port_service_changed_panic_iff_example :
    (node_port_service_changed semantic foreign_service (record expected { ports = [] }) ≡ panic)
    ↔ (0 < 2)
node_port_service_changed_panic_iff_example =
    node_port_service_changed_panic_iff semantic foreign_service (record expected { ports = [] })

assigned_node_port_overwritten_example :
    (updated : Service) × (node_port_service_changed semantic foreign_service expected
      ≡ ok (some updated))
    × (updated.ports ≡ service_port "http" 80 0 ∷ service_port "https" 8443 0 ∷ [])
assigned_node_port_overwritten_example =
    assigned_node_port_overwritten semantic foreign_service expected (service_port "http" 80 30080)
      (service_port "http" 80 0) (service_port "https" 443 30443 ∷ [])
      (service_port "https" 8443 0 ∷ []) port_equal_sound refl refl refl refl (λ h. omega arith)

-- The state of the cluster is kept, since its services count nothing.
guarded : Guards (λ c. c ≡ 7) (λ svc. svc.labels) sample cluster.services
guarded = record {
  reads = λ ns name. record { harmless = λ c h. h };
  creates = λ o owned. record { harmless = λ c h. h };
  updates = λ o owned. record { harmless = λ c h. h };
  deletes = λ o owned. record { harmless = λ c h. h };
}

ensure_envoy_service-Keeps_example :
    Keeps (λ (c : ℕ). c ≡ 7) (ensure_envoy_service cluster semantic sample)
ensure_envoy_service-Keeps_example = ensure_envoy_service-Keeps cluster semantic sample guarded

-- The ports in the other order, and one more.
abbrev three_ports : List ContainerPort
three_ports =
    record { name = "https"; port_number = 8443 }
    ∷ record { name = "metrics"; port_number = 8002 }
    ∷ record { name = "http"; port_number = 8080 }
    ∷ []

three_ports-PortsValid : PortsValid three_ports
three_ports-PortsValid = record {
  numbers_differ = (
    λ m. elim m [ inl e ↦ omega arith | inr (inl e) ↦ omega arith | inr (inr n) ↦ n ],
    ((λ m. elim m [ inl e ↦ omega arith | inr n ↦ n ]), ((λ n. n), tt)),
  );
  names_differ = (
    λ m. elim m [ inl e ↦ cc | inr (inl e) ↦ cc | inr (inr n) ↦ n ],
    ((λ m. elim m [ inl e ↦ cc | inr n ↦ n ]), ((λ n. n), tt)),
  );
  has_http = inr (inr (inl refl));
  has_https = inl refl;
}

envoy_ports-Pair_example : Pair three_ports
envoy_ports-Pair_example = envoy_ports-Pair three_ports three_ports-PortsValid
