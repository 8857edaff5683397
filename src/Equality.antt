-- ===== src/Equality.antt =====
-- The comparisons of services, namespaces and the status in internal/equality/equality.go, and in
-- the child Objects those of the other kinds. Each
-- answers with the object to write, or with nothing where the two match. `DeepCopy` is the identity
-- on the values of this model.
pub mod Settles
pub mod NodePort
pub mod Objects
pub mod Owners
use sesame_operator.Prelude.{
  ℕ, String, Bool, true, false, not, ◌||◌, List, [], ◌∷◌, Option, none, some, StringMap, length,
  nat_eq, ◌≡◌, if◌then◌else◌,
}
use sesame_operator.Errors.{Result, ok, panic, ◌>>=◌}
use sesame_operator.Api.{Condition, SesameStatus}
use sesame_operator.Kube.{
  Namespace, IntOrString, ServicePort, Service, DeploymentSpec, DaemonSetSpec, PolicyRule, Subject,
  RoleRef,
}
use sesame_operator.Kube.Pods.{PodSpec}

-- `apiequality.Semantic.DeepEqual` at one type. Nothing is assumed of it but that a value is equal
-- to itself: it may take different values for equal, as it does for a nil map and an empty one.
pub record DeepEqual (A : Type 0) : Type 0 where
  pub equal : A → A → Bool
  pub equal_refl : (a : A) → equal a a ≡ true

-- `apiequality.Semantic.DeepEqual` at the types at which this package calls it.
pub record Semantic : Type 0 where
  pub text : DeepEqual String
  pub number : DeepEqual ℕ
  pub labels : DeepEqual (Option StringMap)
  pub string_map : DeepEqual StringMap
  pub target_port : DeepEqual IntOrString
  pub port : DeepEqual ServicePort
  pub ports : DeepEqual (List ServicePort)
  pub conditions : DeepEqual (List Condition)
  pub count : DeepEqual (Option ℕ)
  pub selector : DeepEqual (Option StringMap)
  pub pod_spec : DeepEqual PodSpec
  pub deployment_spec : DeepEqual DeploymentSpec
  pub daemon_set_spec : DeepEqual DaemonSetSpec
  pub rules : DeepEqual (List PolicyRule)
  pub subjects : DeepEqual (List Subject)
  pub role_ref : DeepEqual RoleRef

-- `if !DeepEqual(current.F, expected.F) { updated.F = expected.F; changed = true }`: the value of
-- the field in `updated`, and whether the test of it sets `changed`.
abbrev pub pick : {A : Type 0} → DeepEqual A → A → A → A
pick eq current expected = if eq.equal current expected then current else expected

abbrev pub differ : {A : Type 0} → DeepEqual A → A → A → Bool
differ eq current expected = not (eq.equal current expected)

module _ (eq : Semantic) where
  -- Whether `ClusterIPServiceChanged` replaces the ports: at other lengths, or if they differ.
  unfoldable pub ports_changed : List ServicePort → List ServicePort → Bool
  ports_changed current expected =
      if nat_eq (length current) (length expected) then differ eq.ports current expected else true

  unfoldable pub cluster_ip_updated : Service → Service → Service
  cluster_ip_updated current expected = record current {
    ports = if ports_changed current.ports expected.ports then expected.ports else current.ports;
    selector = pick eq.string_map current.selector expected.selector;
    session_affinity = pick eq.text current.session_affinity expected.session_affinity;
    type = pick eq.text current.type expected.type;
  }

  unfoldable pub cluster_ip_differs : Service → Service → Bool
  cluster_ip_differs current expected =
      ports_changed current.ports expected.ports
      || differ eq.string_map current.selector expected.selector
      || differ eq.text current.session_affinity expected.session_affinity
      || differ eq.text current.type expected.type

  unfoldable pub cluster_ip_service_changed : Service → Service → Option Service
  unfolding cluster_ip_updated cluster_ip_differs ports_changed
  cluster_ip_service_changed current expected =
      if cluster_ip_differs current expected
      then some (cluster_ip_updated current expected)
      else none

  -- One round of the loop of `LoadBalancerServiceChanged`: `Ports[i]`, whose node port is kept.
  unfoldable pub merge_port : ServicePort → ServicePort → ServicePort
  merge_port p q = record p {
    name = pick eq.text p.name q.name;
    protocol = pick eq.text p.protocol q.protocol;
    port = pick eq.number p.port q.port;
    target_port = pick eq.target_port p.target_port q.target_port;
  }

  unfoldable pub port_differs : ServicePort → ServicePort → Bool
  port_differs p q =
      differ eq.text p.name q.name
      || differ eq.text p.protocol q.protocol
      || differ eq.number p.port q.port
      || differ eq.target_port p.target_port q.target_port

  -- The loop, which is run on lists of one length.
  unfoldable pub merge_ports : List ServicePort → List ServicePort → List ServicePort
  unfolding merge_port
  merge_ports (p ∷ ps) (q ∷ qs) = merge_port p q ∷ merge_ports ps qs
  merge_ports ps _ = ps

  unfoldable pub ports_differ : List ServicePort → List ServicePort → Bool
  unfolding port_differs
  ports_differ (p ∷ ps) (q ∷ qs) = port_differs p q || ports_differ ps qs
  ports_differ ps _ = false

  unfoldable pub load_balancer_updated : Service → Service → Service
  load_balancer_updated current expected = record current {
    ports =
        if nat_eq (length current.ports) (length expected.ports)
        then merge_ports current.ports expected.ports
        else expected.ports;
    selector = pick eq.string_map current.selector expected.selector;
    external_traffic_policy =
        pick eq.text current.external_traffic_policy expected.external_traffic_policy;
    session_affinity = pick eq.text current.session_affinity expected.session_affinity;
    type = pick eq.text current.type expected.type;
    annotations = pick eq.string_map current.annotations expected.annotations;
    load_balancer_ip = pick eq.text current.load_balancer_ip expected.load_balancer_ip;
  }

  unfoldable pub load_balancer_differs : Service → Service → Bool
  load_balancer_differs current expected =
      not (nat_eq (length current.ports) (length expected.ports))
      || ports_differ current.ports expected.ports
      || differ eq.string_map current.selector expected.selector
      || differ eq.text current.external_traffic_policy expected.external_traffic_policy
      || differ eq.text current.session_affinity expected.session_affinity
      || differ eq.text current.type expected.type
      || differ eq.string_map current.annotations expected.annotations
      || differ eq.text current.load_balancer_ip expected.load_balancer_ip

  unfoldable pub load_balancer_service_changed : Service → Service → Option Service
  unfolding load_balancer_updated load_balancer_differs merge_ports ports_differ
  load_balancer_service_changed current expected =
      if load_balancer_differs current expected
      then some (load_balancer_updated current expected)
      else none

  -- The loop of `NodePortServiceChanged` over the current ports: whether some `expected.Ports[i]`
  -- differs. It is `none` where the expected list is shorter, an index out of range.
  unfoldable pub any_differs : List ServicePort → List ServicePort → Option Bool
  any_differs [] qs = some false
  any_differs (p ∷ ps) [] = none
  any_differs (p ∷ ps) (q ∷ qs) = elim (any_differs ps qs) [
    | none ↦ none
    | some d ↦ some (differ eq.port p q || d)
  ]

  -- The rest of the function, with what the tests of the ports have set `changed` to.
  unfoldable pub node_port_updated : Service → Service → Bool → Service
  node_port_updated current expected replaced = record current {
    ports = if replaced then expected.ports else current.ports;
    selector = pick eq.string_map current.selector expected.selector;
    external_traffic_policy =
        pick eq.text current.external_traffic_policy expected.external_traffic_policy;
    session_affinity = pick eq.text current.session_affinity expected.session_affinity;
    type = pick eq.text current.type expected.type;
    annotations = pick eq.string_map current.annotations expected.annotations;
  }

  unfoldable pub node_port_differs : Service → Service → Bool → Bool
  node_port_differs current expected replaced =
      replaced
      || differ eq.string_map current.selector expected.selector
      || differ eq.text current.external_traffic_policy expected.external_traffic_policy
      || differ eq.text current.session_affinity expected.session_affinity
      || differ eq.text current.type expected.type
      || differ eq.string_map current.annotations expected.annotations

  -- Whether `updated.Spec.Ports` becomes `expected.Spec.Ports`, or a panic.
  unfoldable pub ports_replaced : List ServicePort → List ServicePort → Result Bool
  unfolding any_differs
  ports_replaced current expected = elim (any_differs current expected) [
    | none ↦ panic
    | some d ↦ ok (not (nat_eq (length current) (length expected)) || d)
  ]

  unfoldable pub node_port_service_changed : Service → Service → Result (Option Service)
  unfolding ports_replaced node_port_updated node_port_differs
  node_port_service_changed current expected =
      ports_replaced current.ports expected.ports >>= λ replaced. ok (
        if node_port_differs current expected replaced
        then some (node_port_updated current expected replaced)
        else none)

  unfoldable pub sesame_status_changed : SesameStatus → SesameStatus → Bool
  sesame_status_changed current expected =
      if not (nat_eq current.available_sesames expected.available_sesames)
      then true
      else if not (nat_eq current.available_envoys expected.available_envoys)
      then true
      else differ eq.conditions current.conditions expected.conditions

  unfoldable pub namespace_config_changed : Namespace → Namespace → Option Namespace
  namespace_config_changed current expected =
      if eq.labels.equal current.labels expected.labels then none else some expected
