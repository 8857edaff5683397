-- ===== src/Sesames.antt =====
-- internal/objects/sesame/sesame.go and finalizer.go: the `Sesame` objects of the cluster, their
-- owner labels, and the finalizer. `MakeNodePorts` is used by the end-to-end tests alone.
pub mod Others
pub mod Finalizer
use sesame_operator.Prelude.{
  ℕ, String, Bool, true, false, ◌&&◌, ◌||◌, List, [], ◌∷◌, Option, none, some, StringMap, sprintf,
  ◌==◌, if◌then◌else◌, ◌++◌,
}
use sesame_operator.Errors.{client, wrap}
use sesame_operator.Api.{
  NetworkPublishingType, NodePort, Sesame, is_node_port, sesame_finalizer, other_scope,
  other_provider,
}
use sesame_operator.Slice.{contains_string, remove_string}
use sesame_operator.Cluster.{Request, Exec, Client, attempt, pure, ◌>>=◌, ◌>>◌}
use sesame_operator.Labels.{owner_labels}

-- The configuration of a new Sesame.
pub record Config : Type 0 where
  pub name : String
  pub namespace : String
  pub spec_ns : String
  pub remove_ns : Bool
  pub replicas : ℕ
  pub network_type : NetworkPublishingType
  pub node_ports : Option (List NodePort)
  pub gateway_controller_name : Option String
  pub enable_external_name_service : Option Bool

-- `len(cfg.NodePorts) > 0`
abbrev has_ports : Option (List NodePort) → Bool
has_ports (some (p ∷ ps)) = true
has_ports _ = false

unfoldable pub new : Config → Sesame
new cfg = record {
  namespace = cfg.namespace;
  name = cfg.name;
  finalizers = [];
  deleting = false;
  spec = record {
    replicas = cfg.replicas;
    namespace = record { name = cfg.spec_ns; remove_on_deletion = cfg.remove_ns };
    network_publishing = record {
      envoy = record {
        type = cfg.network_type;
        -- Go's zero value
        load_balancer = record {
          scope = other_scope "";
          provider_parameters = record {
            type = other_provider "";
            aws = none;
            azure = none;
            gcp = none;
          };
        };
        node_ports =
            if is_node_port cfg.network_type && has_ports cfg.node_ports
            then cfg.node_ports
            else none;
        container_ports =
            record { name = "http"; port_number = 8080 }
            ∷ record { name = "https"; port_number = 8443 }
            ∷ [];
      };
    };
    gateway_class_ref = none;
    gateway_controller_name = cfg.gateway_controller_name;
    ingress_class_name = none;
    node_placement = none;
    enable_external_name_service = cfg.enable_external_name_service;
  };
  status = record { available_sesames = 0; available_envoys = 0; conditions = [] };
}

-- `MatchLabels` of the selector.
unfoldable pub owning_selector : Sesame → StringMap
unfolding owner_labels
owning_selector s = owner_labels s

-- The single item of the list has the name of `s`, whatever its namespace.
only_named : String → List Sesame → Bool
only_named name (c ∷ []) = c.name == name
only_named name _ = false

is_empty : List Sesame → Bool
is_empty [] = true
is_empty _ = false

-- What `OtherSesamesExist` makes of the items that the client listed.
unfoldable pub others_listed : Sesame → List Sesame → Bool × List Sesame
unfolding only_named is_empty
others_listed s items =
    if is_empty items || only_named s.name items then (false, []) else (true, items)

-- The loop of `OtherSesamesExistInSpecNs`.
unfoldable pub in_spec_ns : Sesame → List Sesame → Bool
in_spec_ns s [] = false
in_spec_ns s (c ∷ items) =
    let rest = in_spec_ns s items in
    if c.name == s.name && c.namespace == s.namespace
    then rest
    else if c.spec.namespace.name == s.spec.namespace.name
    then true
    else rest

module _ {C : Type 0} (cli : Client C) where
  unfoldable pub current_sesame : String → String → Request C Sesame
  current_sesame ns name = cli.sesames.get ns name

  unfoldable pub other_sesames_exist : Sesame → Exec C (Bool × List Sesame)
  unfolding others_listed
  other_sesames_exist s = do
    items ← attempt (λ e. wrap "failed to list Sesames" (client e)) cli.list_sesames
    pure (others_listed s items)

  unfoldable pub other_sesames_exist_in_spec_ns : Sesame → Exec C Bool
  unfolding other_sesames_exist in_spec_ns
  other_sesames_exist_in_spec_ns s = do
    found ← other_sesames_exist s
    pure (if found.0 then in_spec_ns s found.1 else false)

  unfoldable pub ensure_finalizer : Sesame → Exec C Unit
  unfolding contains_string attempt pure
  ensure_finalizer s =
      if contains_string s.finalizers sesame_finalizer
      then pure tt
      else attempt
          (λ e.
            wrap
              (sprintf (
                "failed to add finalizer " ∷ sesame_finalizer ∷ " to sesame " ∷ s.namespace ∷ "/"
                ∷ s.name ∷ []))
              (client e))
          (cli.sesames.update (record s { finalizers = s.finalizers ++ sesame_finalizer ∷ [] }))

  unfoldable pub ensure_finalizer_removed : Sesame → Exec C Unit
  unfolding contains_string remove_string attempt pure
  ensure_finalizer_removed s =
      if contains_string s.finalizers sesame_finalizer
      then attempt
          (λ e.
            wrap
              (sprintf (
                "failed to remove finalizer " ∷ sesame_finalizer ∷ " from sesame " ∷ s.namespace
                ∷ "/" ∷ s.name ∷ []))
              (client e))
          (cli.sesames.update
            (record s { finalizers = remove_string s.finalizers sesame_finalizer }))
      else pure tt
