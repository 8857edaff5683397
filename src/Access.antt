-- ===== src/Access.antt =====
-- The access rules of Sesame and Envoy, as they are desired: the service accounts, the roles and
-- the bindings of internal/objects/serviceaccount, clusterrole, clusterrolebinding, role and
-- rolebinding. The `Kind` that the code puts into them is not part of the model.
pub mod Ensure
pub mod Rbac
pub mod Safety
pub mod Rules
pub mod Refines
pub mod Runs
pub mod Settles
pub mod Erased
pub mod Deletes
pub mod Alone
pub mod Leftover
pub mod Comparisons
pub mod Accounts
use sesame_operator.Prelude.{String, List, [], ◌∷◌, some, sprintf}
use sesame_operator.Api.{Sesame}
use sesame_operator.Kube.{
  ServiceAccount, PolicyRule, Subject, Role, RoleBinding, ClusterRole, ClusterRoleBinding,
}
use sesame_operator.Labels.{owner_labels}

abbrev pub sesame_rbac_name : String
sesame_rbac_name = "sesame"

abbrev pub envoy_rbac_name : String
envoy_rbac_name = "envoy"

abbrev pub cert_gen_rbac_name : String
cert_gen_rbac_name = "sesame-certgen"

-- Cluster roles and their bindings are named after the namespace of the resources.
abbrev pub namespaced_name : Sesame → String
namespaced_name s = sprintf (sesame_rbac_name ∷ "-" ∷ s.spec.namespace.name ∷ [])

unfoldable pub desired_service_account : String → Sesame → ServiceAccount
unfolding owner_labels
desired_service_account name s = record {
  namespace = s.spec.namespace.name;
  name = name;
  labels = some (owner_labels s);
}

-- The groups of the API, by the constants of its packages.
abbrev core_group : String
core_group = ""

abbrev networking_group : String
networking_group = "networking.k8s.io"

abbrev gateway_group : String
gateway_group = "gateway.networking.k8s.io"

abbrev extensions_group : String
extensions_group = "apiextensions.k8s.io"

abbrev coordination_group : String
coordination_group = "coordination.k8s.io"

abbrev rbac_group : String
rbac_group = "rbac.authorization.k8s.io"

abbrev sesame_v1_group_name : String
sesame_v1_group_name = "projectsesame.io"

abbrev verb_cgu : List String
verb_cgu = "create" ∷ "get" ∷ "update" ∷ []

abbrev verb_glw : List String
verb_glw = "get" ∷ "list" ∷ "watch" ∷ []

abbrev verb_glwu : List String
verb_glwu = "get" ∷ "list" ∷ "watch" ∷ "update" ∷ []

abbrev rule : List String → String → List String → PolicyRule
rule verbs group resources = record {
  verbs = verbs;
  api_groups = group ∷ [];
  resources = resources;
}

-- `cr.Rules`, in the order of the code.
abbrev pub cluster_role_rules : List PolicyRule
cluster_role_rules =
    rule verb_cgu core_group ("configmaps" ∷ "events" ∷ [])
    ∷ rule verb_cgu coordination_group ("leases" ∷ [])
    ∷ rule verb_glw core_group ("endpoints" ∷ [])
    ∷ rule verb_glw core_group ("secrets" ∷ [])
    ∷ rule verb_glw core_group ("services" ∷ [])
    ∷ rule verb_glwu gateway_group
        ("gatewayclasses" ∷ "gateways" ∷ "httproutes" ∷ "tlsroutes" ∷ "referencepolicies" ∷ [])
    ∷ rule verb_cgu gateway_group (
        "gatewayclasses/status" ∷ "gateways/status" ∷ "httproutes/status" ∷ "tlsroutes/status" ∷ [])
    ∷ rule verb_glw networking_group ("ingresses" ∷ "ingressclasses" ∷ [])
    ∷ rule verb_cgu networking_group ("ingresses/status" ∷ [])
    ∷ rule verb_glw sesame_v1_group_name (
        "httpproxies" ∷ "tlscertificatedelegations" ∷ "extensionservices" ∷ "Sesameconfigurations"
        ∷ [])
    ∷ rule verb_cgu sesame_v1_group_name
        ("httpproxies/status" ∷ "extensionservices/status" ∷ "Sesameconfigurations/status" ∷ [])
    ∷ rule ("list" ∷ []) extensions_group ("customresourcedefinitions" ∷ [])
    ∷ rule verb_glw core_group ("namespaces" ∷ [])
    ∷ []

unfoldable pub desired_cluster_role : String → Sesame → ClusterRole
unfolding owner_labels
desired_cluster_role name s = record {
  name = name;
  labels = some (owner_labels s);
  rules = cluster_role_rules;
}

-- The one subject of a binding: a service account.
abbrev subject : Sesame → String → Subject
subject s account = record {
  kind = "ServiceAccount";
  api_group = core_group;
  name = account;
  namespace = s.spec.namespace.name;
}

unfoldable pub desired_cluster_role_binding : String → String → String → Sesame → ClusterRoleBinding
unfolding owner_labels
desired_cluster_role_binding name role_ref svc_acct_ref s = record {
  name = name;
  labels = some (owner_labels s);
  subjects = subject s svc_acct_ref ∷ [];
  role_ref = record { api_group = rbac_group; kind = "ClusterRole"; name = role_ref };
}

unfoldable pub desired_role : String → Sesame → Role
unfolding owner_labels
desired_role name s = record {
  namespace = s.spec.namespace.name;
  name = name;
  labels = some (owner_labels s);
  rules = rule ("create" ∷ "update" ∷ []) "" ("secrets" ∷ []) ∷ [];
}

unfoldable pub desired_role_binding : String → String → String → Sesame → RoleBinding
unfolding owner_labels
desired_role_binding name svc_acct_ref role_ref s = record {
  namespace = s.spec.namespace.name;
  name = name;
  labels = some (owner_labels s);
  subjects = subject s svc_acct_ref ∷ [];
  role_ref = record { api_group = rbac_group; kind = "Role"; name = role_ref };
}
