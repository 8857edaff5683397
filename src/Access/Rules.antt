-- ===== src/Access/Rules.antt =====
-- The access rules of a cluster as tables: what `EnsureRBAC` of internal/objects/rbac.go promises of
-- them.
use sesame_operator.Prelude.{String, List, [], ◌∷◌}
use sesame_operator.Api.{Sesame}
use sesame_operator.Kube.{ServiceAccount, Role, RoleBinding, ClusterRole, ClusterRoleBinding}
use sesame_operator.Cluster.{Client}
use sesame_operator.Owned.Tables.{Table}
use sesame_operator.Owned.Refines.{with_written}
use sesame_operator.World.{
  World, account_key, cluster_role_key, cluster_role_binding_key, role_key, role_binding_key,
}
use sesame_operator.Equality.{Semantic}
use sesame_operator.Access.{
  sesame_rbac_name, cert_gen_rbac_name, namespaced_name, desired_service_account,
  desired_cluster_role, desired_cluster_role_binding, desired_role, desired_role_binding,
}
use sesame_operator.Access.Ensure.{
  service_accounts, cluster_roles, cluster_role_bindings, roles, role_bindings,
}
use sesame_operator.Access.Rbac.{account_names}

module _ {C : Type 0} (cli : Client C) (eq : Semantic) (s : Sesame) where
  abbrev pub with_account : String → Table ServiceAccount → Table ServiceAccount
  with_account name =
      with_written (service_accounts cli eq) account_key s (desired_service_account name s)

  abbrev pub with_accounts : List String → Table ServiceAccount → Table ServiceAccount
  with_accounts [] t = t
  with_accounts (name ∷ names) t = with_accounts names (with_account name t)

  abbrev pub with_cluster_role : Table ClusterRole → Table ClusterRole
  with_cluster_role =
      with_written (cluster_roles cli eq) cluster_role_key s
        (desired_cluster_role (namespaced_name s) s)

  -- The binding gives the cluster role to Sesame's account.
  abbrev pub with_cluster_role_binding : Table ClusterRoleBinding → Table ClusterRoleBinding
  with_cluster_role_binding =
      with_written (cluster_role_bindings cli eq) cluster_role_binding_key s
        (desired_cluster_role_binding (namespaced_name s) (namespaced_name s) sesame_rbac_name s)

  abbrev pub with_role : Table Role → Table Role
  with_role = with_written (roles cli eq) role_key s (desired_role cert_gen_rbac_name s)

  -- The binding gives the role to the account of the certificate job.
  abbrev pub with_role_binding : Table RoleBinding → Table RoleBinding
  with_role_binding =
      with_written (role_bindings cli eq) role_binding_key s
        (desired_role_binding sesame_rbac_name cert_gen_rbac_name cert_gen_rbac_name s)

  -- All else stays as it is.
  abbrev pub rules_after : World → World
  rules_after w = record w {
    service_accounts = with_accounts account_names w.service_accounts;
    cluster_roles = with_cluster_role w.cluster_roles;
    cluster_role_bindings = with_cluster_role_binding w.cluster_role_bindings;
    roles = with_role w.roles;
    role_bindings = with_role_binding w.role_bindings;
  }
