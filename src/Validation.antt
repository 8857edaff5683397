-- ===== src/Validation.antt =====
-- pkg/validation/validation.go: whether a `Sesame` may be reconciled.
pub mod Ports
pub mod NodePorts
use sesame_operator.Prelude.{
  ℕ, String, Bool, true, false, not, ◌&&◌, ◌||◌, List, [], ◌∷◌, ◌++◌, Option, none, some, nat_eq,
  sprintf, ◌==◌, if◌then◌else◌,
}
use sesame_operator.Errors.{
  Err, message, message_number, wrap, Result, ok, err, panic, ◌>>=◌ as bind,
}
use sesame_operator.Api.{
  Int32Ptr, NodePort, ContainerPort, ProviderLoadBalancerParameters, Sesame, is_load_balancer,
  is_node_port, is_aws, is_azure, is_gcp,
}
use sesame_operator.Slice.{contains_string, contains_int32}
use sesame_operator.Sesames.{other_sesames_exist_in_spec_ns}
use sesame_operator.Cluster.{Exec, Client, lift, fail, ◌>>=◌, ◌>>◌, wrapping}

-- The variables of the loop of `ContainerPorts`. The found slices grow at their end.
pub record PortsFound : Type 0 where
  pub nums : List ℕ
  pub names : List String
  pub http : Bool
  pub https : Bool

-- One round of the loop. A test for an empty slice stands before each search and changes nothing.
unfoldable pub add_port : PortsFound → ContainerPort → PortsFound
add_port st port = record {
  nums = st.nums ++ port.port_number ∷ [];
  names = st.names ++ port.name ∷ [];
  http = if port.name == "http" then true else st.http;
  https = if port.name == "http" then st.https else if port.name == "https" then true else st.https;
}

unfoldable pub container_ports_from : PortsFound → List ContainerPort → Result Unit
unfolding contains_string contains_int32 add_port
container_ports_from st [] =
    if st.http && st.https
    then ok tt
    else err (message "http and https container ports are unspecified")
container_ports_from st (port ∷ ports) =
    let rest = container_ports_from (add_port st port) ports in
    if contains_int32 st.nums port.port_number
    then err (message_number "duplicate container port number " port.port_number)
    else if contains_string st.names port.name
    then err (message (sprintf ("duplicate container port name \"" ∷ port.name ∷ "\"" ∷ [])))
    else rest

abbrev pub none_found : PortsFound
none_found = record { nums = []; names = []; http = false; https = false }

-- The code has the ports in a variable of the spec; the result is an error or nil.
unfoldable pub container_ports : Sesame → Result Unit
unfolding container_ports_from
container_ports s = container_ports_from none_found s.spec.network_publishing.envoy.container_ports

-- The loop over the names.
unfoldable pub check_names : List NodePort → Result Unit
check_names [] = ok tt
check_names (p ∷ ports) =
    let rest = check_names ports in
    if not (p.name == "http") && not (p.name == "https")
    then err (
        message (
          sprintf (
            "invalid port name \"" ∷ p.name ∷ "\"; only \"http\" and \"https\" are supported"
            ∷ [])))
    else rest

-- `==` on two pointers that are not nil compares the addresses.
unfoldable pub same_pointer : Option Int32Ptr → Option Int32Ptr → Bool
same_pointer (some p) (some q) = nat_eq p.address q.address
same_pointer _ _ = false

-- The tests on `ports[0]` and `ports[1]`, which panic on a shorter list.
unfoldable pub check_pair : List NodePort → Result Unit
unfolding same_pointer
check_pair (p ∷ q ∷ ports) =
    if p.name == q.name
    then err (message "duplicate nodeport names detected")
    else if same_pointer p.port_number q.port_number
    then err (message "duplicate nodeport port numbers detected")
    else ok tt
check_pair _ = panic

check_node_ports : Option (List NodePort) → Result Unit
unfolding check_names check_pair
check_node_ports none = ok tt
check_node_ports (some ports) = bind (check_names ports) (λ _. check_pair ports)

unfoldable pub node_ports : Sesame → Result Unit
unfolding check_node_ports
node_ports s = check_node_ports s.spec.network_publishing.envoy.node_ports

wrong_address : Err
wrong_address =
    message "wrong LoadBalancer address format, should be string with IPv4 or IPv6 format"

abbrev pub azure_address : ProviderLoadBalancerParameters → Option String
azure_address p = elim p.azure [ none ↦ none | some a ↦ a.address ]

abbrev pub gcp_address : ProviderLoadBalancerParameters → Option String
gcp_address p = elim p.gcp [ none ↦ none | some g ↦ g.address ]

abbrev pub is_some {ℓ} : {A : Type ℓ} → Option A → Bool
is_some (some a) = true
is_some none = false

-- `parse_ip` is whether `net.ParseIP` of a text is not nil.
module _ (parse_ip : String → Bool) where
  check_address : Option String → Result Unit
  unfolding wrong_address
  check_address none = ok tt
  check_address (some a) = if parse_ip a then ok tt else err wrong_address

  unfoldable pub load_balancer_address : Sesame → Result Unit
  unfolding check_address
  load_balancer_address s =
      let p = s.spec.network_publishing.envoy.load_balancer.provider_parameters in
      if is_azure p.type && is_some (azure_address p)
      then check_address (azure_address p)
      else if is_gcp p.type && is_some (gcp_address p)
      then check_address (gcp_address p)
      else ok tt

abbrev foreign_parameters : String → Err
foreign_parameters provider = message (
    sprintf
      (provider ∷ " provider chosen, other providers parameters should not be specified" ∷ []))

unfoldable pub load_balancer_provider : Sesame → Result Unit
load_balancer_provider s =
    let p = s.spec.network_publishing.envoy.load_balancer.provider_parameters in
    if is_aws p.type && (is_some p.azure || is_some p.gcp)
    then err (foreign_parameters "aws")
    else if is_azure p.type && (is_some p.aws || is_some p.gcp)
    then err (foreign_parameters "azure")
    else if is_gcp p.type && (is_some p.aws || is_some p.azure)
    then err (foreign_parameters "gcp")
    else ok tt

-- The part of `Sesame` that reads the object alone.
unfoldable pub spec_checks : (String → Bool) → Sesame → Result Unit
spec_checks parse_ip s =
    let type = s.spec.network_publishing.envoy.type in
    bind (container_ports s) (λ _. bind (if is_node_port type then node_ports s else ok tt) (λ _.
      if is_load_balancer type
      then bind (load_balancer_address parse_ip s) (λ _. load_balancer_provider s)
      else ok tt))

module _ {C : Type 0} (cli : Client C) (parse_ip : String → Bool) where
  unfoldable pub validate : Sesame → Exec C Unit
  unfolding spec_checks
  validate s = do
    exist ←
        wrapping
          (wrap (
            sprintf (
              "failed to verify if other Sesames exist in namespace " ∷ s.spec.namespace.name
              ∷ [])))
          (other_sesames_exist_in_spec_ns cli s)
    if exist
        then fail
            (message (sprintf ("other Sesames exist in namespace " ∷ s.spec.namespace.name ∷ [])))
        else lift (spec_checks parse_ip s)
