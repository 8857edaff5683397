-- ===== src/Access/Settles.antt =====
-- A second run of `EnsureRBAC` of internal/objects/rbac.go on a cluster that works as a store.
use sesame_operator.Prelude.{◌≡◌, sym, ap, ◌∙◌}
use sesame_operator.Api.{Sesame}
use sesame_operator.Cluster.{Client}
use sesame_operator.Owned.Settles.{store_settles}
use sesame_operator.Equality.{Semantic}
use sesame_operator.Access.{
  sesame_rbac_name, cert_gen_rbac_name, namespaced_name, desired_cluster_role,
  desired_cluster_role_binding, desired_role, desired_role_binding,
}
use sesame_operator.Access.Ensure.{cluster_roles, cluster_role_bindings, roles, role_bindings}
use sesame_operator.Access.Rbac.{account_names, ensure_rbac}
use sesame_operator.Access.Rules.{
  with_accounts, with_cluster_role, with_cluster_role_binding, with_role, with_role_binding,
  rules_after,
}
use sesame_operator.World.{
  World, IsClusterStore, cluster_role_key, cluster_role_binding_key, role_key, role_binding_key,
  cluster_role_part, cluster_role_binding_part, role_part, role_binding_part,
}
use sesame_operator.Access.Refines.{ensure_rbac-Refines}
use sesame_operator.Errors.{ok}
use sesame_operator.Access.Comparisons.{
  cluster_role-KeepsKey, cluster_role_binding-KeepsKey, role-KeepsKey, role_binding-KeepsKey,
  cluster_roles-Settling, cluster_role_bindings-Settling, roles-Settling, role_bindings-Settling,
}
use sesame_operator.Access.Accounts.{with_accounts_settles, with_accounts_stays}

module _ {C : Type 0} (cli : Client C) (eq : Semantic) (view : C → World)
    (store : IsClusterStore cli view) (s : Sesame) where
  with_cluster_role_twice :
      (c : C)
      → with_cluster_role cli eq s (with_cluster_role cli eq s (view c).cluster_roles)
        ≡ with_cluster_role cli eq s (view c).cluster_roles
  unfolding desired_cluster_role
  with_cluster_role_twice c =
      store_settles (cluster_roles cli eq) cluster_role_key view cluster_role_part
        store.cluster_roles s (desired_cluster_role (namespaced_name s) s)
        (cluster_roles-Settling eq _) (cluster_role-KeepsKey eq) c

  with_cluster_role_binding_twice :
      (c : C)
      → with_cluster_role_binding cli eq s
          (with_cluster_role_binding cli eq s (view c).cluster_role_bindings)
        ≡ with_cluster_role_binding cli eq s (view c).cluster_role_bindings
  unfolding desired_cluster_role_binding
  with_cluster_role_binding_twice c =
      store_settles (cluster_role_bindings cli eq) cluster_role_binding_key view
        cluster_role_binding_part store.cluster_role_bindings s
        (desired_cluster_role_binding (namespaced_name s) (namespaced_name s) sesame_rbac_name s)
        (cluster_role_bindings-Settling eq _) (cluster_role_binding-KeepsKey eq) c

  with_role_twice :
      (c : C)
      → with_role cli eq s (with_role cli eq s (view c).roles) ≡ with_role cli eq s (view c).roles
  unfolding desired_role
  with_role_twice c =
      store_settles (roles cli eq) role_key view role_part store.roles s
        (desired_role cert_gen_rbac_name s) (roles-Settling eq _) (role-KeepsKey eq) c

  with_role_binding_twice :
      (c : C)
      → with_role_binding cli eq s (with_role_binding cli eq s (view c).role_bindings)
        ≡ with_role_binding cli eq s (view c).role_bindings
  unfolding desired_role_binding
  with_role_binding_twice c =
      store_settles (role_bindings cli eq) role_binding_key view role_binding_part
        store.role_bindings s
        (desired_role_binding sesame_rbac_name cert_gen_rbac_name cert_gen_rbac_name s)
        (role_bindings-Settling eq _) (role_binding-KeepsKey eq) c

  pub rules_after_twice :
      (c : C) → rules_after cli eq s (rules_after cli eq s (view c)) ≡ rules_after cli eq s (view c)
  rules_after_twice c = λ i. record (rules_after cli eq s (view c)) {
    service_accounts =
        with_accounts_stays cli eq s account_names
          (with_accounts cli eq s account_names (view c).service_accounts)
          (with_accounts_settles cli eq s account_names (view c).service_accounts) i;
    cluster_roles = with_cluster_role_twice c i;
    cluster_role_bindings = with_cluster_role_binding_twice c i;
    roles = with_role_twice c i;
    role_bindings = with_role_binding_twice c i;
  }

  -- On a cluster that works as a store, `EnsureRBAC` run twice returns no error, and leaves the tables
  -- that the first run left.
  pub ensure_rbac_settles :
      (c : C)
      → ((ensure_rbac cli eq s (ensure_rbac cli eq s c).1).0 ≡ ok tt)
        × (view (ensure_rbac cli eq s (ensure_rbac cli eq s c).1).1
            ≡ view (ensure_rbac cli eq s c).1)
  ensure_rbac_settles c =
      let (_, first) = ensure_rbac-Refines cli eq view store s c in
      let (done, second) = ensure_rbac-Refines cli eq view store s (ensure_rbac cli eq s c).1 in
      (done, second ∙ ap (rules_after cli eq s) first ∙ rules_after_twice c ∙ sym first)
