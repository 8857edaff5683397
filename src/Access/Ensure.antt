-- ===== src/Access/Ensure.antt =====
-- Creating, updating and reading the access rules of one kind: the five packages serviceaccount,
-- clusterrole, clusterrolebinding, role and rolebinding of internal/objects.
use sesame_operator.Prelude.{String, [], ◌∷◌, sprintf}
use sesame_operator.Api.{Sesame}
use sesame_operator.Kube.{ServiceAccount, Role, RoleBinding, ClusterRole, ClusterRoleBinding}
use sesame_operator.Cluster.{Request, Exec, Client, pure, ◌>>◌}
use sesame_operator.Owned.Ensure.{Kind, titled, ensure_object}
use sesame_operator.Equality.{Semantic}
use sesame_operator.Equality.Objects.{
  service_account_config_changed, cluster_role_config_changed, cluster_role_binding_config_changed,
  role_config_changed, role_binding_config_changed,
}
use sesame_operator.Access.{
  desired_service_account, desired_cluster_role, desired_cluster_role_binding, desired_role,
  desired_role_binding,
}

module _ {C : Type 0} (cli : Client C) where
  unfoldable pub current_service_account : String → String → Request C ServiceAccount
  current_service_account ns name = cli.service_accounts.get ns name

  unfoldable pub current_cluster_role : String → Request C ClusterRole
  current_cluster_role name = cli.cluster_roles.get "" name

  unfoldable pub current_cluster_role_binding : String → Request C ClusterRoleBinding
  current_cluster_role_binding name = cli.cluster_role_bindings.get "" name

  unfoldable pub current_role : String → String → Request C Role
  current_role ns name = cli.roles.get ns name

  unfoldable pub current_role_binding : String → String → Request C RoleBinding
  current_role_binding ns name = cli.role_bindings.get ns name

module _ {C : Type 0} (cli : Client C) (eq : Semantic) where
  abbrev pub service_accounts : Kind C ServiceAccount
  service_accounts = record {
    access = cli.service_accounts;
    labels_of = λ sa. sa.labels;
    changed = service_account_config_changed eq;
    title = λ sa. titled "service account" sa.namespace sa.name;
    update_title = λ sa. titled "service account" sa.namespace sa.name;
  }

  abbrev pub cluster_roles : Kind C ClusterRole
  cluster_roles = record {
    access = cli.cluster_roles;
    labels_of = λ cr. cr.labels;
    changed = cluster_role_config_changed eq;
    title = λ cr. sprintf ("cluster role " ∷ cr.name ∷ []);
    update_title = λ cr. sprintf ("cluster role " ∷ cr.name ∷ []);
  }

  abbrev pub cluster_role_bindings : Kind C ClusterRoleBinding
  cluster_role_bindings = record {
    access = cli.cluster_role_bindings;
    labels_of = λ crb. crb.labels;
    changed = cluster_role_binding_config_changed eq;
    title = λ crb. sprintf ("cluster role binding " ∷ crb.name ∷ []);
    update_title = λ crb. sprintf ("cluster role binding " ∷ crb.name ∷ []);
  }

  -- The message of an update says "cluster role" in the code, too.
  abbrev pub roles : Kind C Role
  roles = record {
    access = cli.roles;
    labels_of = λ r. r.labels;
    changed = role_config_changed eq;
    title = λ r. titled "role" r.namespace r.name;
    update_title = λ r. titled "cluster role" r.namespace r.name;
  }

  abbrev pub role_bindings : Kind C RoleBinding
  role_bindings = record {
    access = cli.role_bindings;
    labels_of = λ rb. rb.labels;
    changed = role_binding_config_changed eq;
    title = λ rb. titled "role binding" rb.namespace rb.name;
    update_title = λ rb. titled "role binding" rb.namespace rb.name;
  }

  unfoldable pub ensure_service_account : String → Sesame → Exec C ServiceAccount
  unfolding ensure_object current_service_account
  ensure_service_account name s =
      ensure_object service_accounts s (current_service_account cli s.spec.namespace.name name)
        (desired_service_account name s)

  unfoldable pub ensure_cluster_role : String → Sesame → Exec C ClusterRole
  unfolding ensure_object current_cluster_role
  ensure_cluster_role name s =
      ensure_object cluster_roles s (current_cluster_role cli name) (desired_cluster_role name s)

  unfoldable pub ensure_cluster_role_binding : String → String → String → Sesame → Exec C Unit
  unfolding ensure_object current_cluster_role_binding
  ensure_cluster_role_binding name role_ref svc_act s = do
    ensure_object cluster_role_bindings s (current_cluster_role_binding cli name)
        (desired_cluster_role_binding name role_ref svc_act s)
    pure tt

  unfoldable pub ensure_role : String → Sesame → Exec C Role
  unfolding ensure_object current_role
  ensure_role name s =
      ensure_object roles s (current_role cli s.spec.namespace.name name) (desired_role name s)

  unfoldable pub ensure_role_binding : String → String → String → Sesame → Exec C Unit
  unfolding ensure_object current_role_binding
  ensure_role_binding name svc_act role s = do
    ensure_object role_bindings s (current_role_binding cli s.spec.namespace.name name)
        (desired_role_binding name svc_act role s)
    pure tt
