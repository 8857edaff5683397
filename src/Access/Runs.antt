-- ===== src/Access/Runs.antt =====
-- The five functions that `EnsureRBAC` of internal/objects/rbac.go calls, on a cluster whose access
-- rules are a store: what a run of each makes of the rules.
use sesame_operator.Prelude.{String, ◌≡◌, ap}
use sesame_operator.Api.{Sesame}
use sesame_operator.Cluster.{Client}
use sesame_operator.Owned.Tables.{over}
use sesame_operator.Owned.Runs.{Runs, Leaves, bind-Runs, pure-Runs}
use sesame_operator.Owned.Refines.{ensured-key, ensure_object-Runs}
use sesame_operator.Equality.{Semantic}
use sesame_operator.Access.{
  sesame_rbac_name, cert_gen_rbac_name, namespaced_name, desired_service_account,
  desired_cluster_role, desired_cluster_role_binding, desired_role, desired_role_binding,
}
use sesame_operator.Access.Ensure.{
  service_accounts, cluster_roles, cluster_role_bindings, roles, role_bindings,
  current_service_account, current_cluster_role, current_cluster_role_binding, current_role,
  current_role_binding, ensure_service_account, ensure_cluster_role, ensure_cluster_role_binding,
  ensure_role, ensure_role_binding,
}
use sesame_operator.Access.Rules.{
  with_account, with_cluster_role, with_cluster_role_binding, with_role, with_role_binding,
}
use sesame_operator.Access.Comparisons.{
  account-KeepsKey, cluster_role-KeepsKey, cluster_role_binding-KeepsKey, role-KeepsKey,
  role_binding-KeepsKey,
}
use sesame_operator.World.{
  World, IsClusterStore, account_key, cluster_role_key, cluster_role_binding_key, role_key,
  role_binding_key, account_part, cluster_role_part, cluster_role_binding_part, role_part,
  role_binding_part,
}

module _ {C : Type 0} (cli : Client C) (eq : Semantic) (view : C → World)
    (store : IsClusterStore cli view) (s : Sesame) where
  pub account-Runs :
      (name : String) (c : C) (w : World)
      → view c ≡ w
      → Runs view
          (ensure_service_account cli eq name s)
          c
          (λ o. o.name ≡ name)
          (over account_part (with_account cli eq s name) w)
  unfolding ensure_service_account current_service_account desired_service_account
  account-Runs name c w seen =
      let desired = desired_service_account name s in
      let keeps = account-KeepsKey eq in
      let (o, h, same, after) =
        ensure_object-Runs (service_accounts cli eq) account_key view account_part
          store.service_accounts s desired keeps c w seen in
      let key =
        ensured-key (service_accounts cli eq) account_key view account_part store.service_accounts s
          desired keeps c w seen in
      (o, h, rw same (ap (λ p. p.1) key), after)

  pub cluster_role-Runs :
      (c : C) (w : World)
      → view c ≡ w
      → Runs view
          (ensure_cluster_role cli eq (namespaced_name s) s)
          c
          (λ o. o.name ≡ namespaced_name s)
          (over cluster_role_part (with_cluster_role cli eq s) w)
  unfolding ensure_cluster_role current_cluster_role desired_cluster_role
  cluster_role-Runs c w seen =
      let desired = desired_cluster_role (namespaced_name s) s in
      let keeps = cluster_role-KeepsKey eq in
      let (o, h, same, after) =
        ensure_object-Runs (cluster_roles cli eq) cluster_role_key view cluster_role_part
          store.cluster_roles s desired keeps c w seen in
      let key =
        ensured-key (cluster_roles cli eq) cluster_role_key view cluster_role_part
          store.cluster_roles s desired keeps c w seen in
      (o, h, rw same (ap (λ p. p.1) key), after)

  pub role-Runs :
      (c : C) (w : World)
      → view c ≡ w
      → Runs view
          (ensure_role cli eq cert_gen_rbac_name s)
          c
          (λ o. o.name ≡ cert_gen_rbac_name)
          (over role_part (with_role cli eq s) w)
  unfolding ensure_role current_role desired_role
  role-Runs c w seen =
      let desired = desired_role cert_gen_rbac_name s in
      let keeps = role-KeepsKey eq in
      let (o, h, same, after) =
        ensure_object-Runs (roles cli eq) role_key view role_part store.roles s desired keeps c w
          seen in
      let key =
        ensured-key (roles cli eq) role_key view role_part store.roles s desired keeps c w seen in
      (o, h, rw same (ap (λ p. p.1) key), after)

  pub cluster_role_binding-Runs :
      (role_ref : String) (c : C) (w : World)
      → role_ref ≡ namespaced_name s
      → view c ≡ w
      → Leaves view
          (ensure_cluster_role_binding cli eq (namespaced_name s) role_ref sesame_rbac_name s)
          c
          (over cluster_role_binding_part (with_cluster_role_binding cli eq s) w)
  unfolding ensure_cluster_role_binding current_cluster_role_binding desired_cluster_role_binding
  cluster_role_binding-Runs role_ref c w same seen =
      let desired =
        desired_cluster_role_binding (namespaced_name s) (namespaced_name s) sesame_rbac_name s in
      rw same (
        bind-Runs view _ _ c _ _
          (ensure_object-Runs (cluster_role_bindings cli eq) cluster_role_binding_key view
            cluster_role_binding_part store.cluster_role_bindings s desired
            (cluster_role_binding-KeepsKey eq) c w seen)
          (λ _ c' _ after. pure-Runs view tt c' _ tt after))

  pub role_binding-Runs :
      (svc_act cert : String) (c : C) (w : World)
      → svc_act ≡ cert_gen_rbac_name
      → cert ≡ cert_gen_rbac_name
      → view c ≡ w
      → Leaves view
          (ensure_role_binding cli eq sesame_rbac_name svc_act cert s)
          c
          (over role_binding_part (with_role_binding cli eq s) w)
  unfolding ensure_role_binding current_role_binding desired_role_binding
  role_binding-Runs svc_act cert c w same same_role seen =
      let desired = desired_role_binding sesame_rbac_name cert_gen_rbac_name cert_gen_rbac_name s in
      rw (same, same_role)
        (bind-Runs view _ _ c _ _
          (ensure_object-Runs (role_bindings cli eq) role_binding_key view role_binding_part
            store.role_bindings s desired (role_binding-KeepsKey eq) c w seen)
          (λ _ c' _ after. pure-Runs view tt c' _ tt after))
