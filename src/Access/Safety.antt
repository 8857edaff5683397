-- ===== src/Access/Safety.antt =====
-- The access rules of others are left alone.
use sesame_operator.Prelude.{String, List, [], ◌∷◌, ◌++◌}
use sesame_operator.Api.{Sesame}
use sesame_operator.Kube.{ServiceAccount}
use sesame_operator.Labels.{exist, owner_labels, Owned, owner_labels-Owned}
use sesame_operator.Cluster.{Request, Client}
use sesame_operator.Cluster.Keeps.{
  Harmless, Keeps, keeps_rules, Keeps-bind, Keeps-if, Keeps-pure, Keeps-wrapping,
}
use sesame_operator.Owned.Confined.{Confined}
use sesame_operator.Owned.Ensure.{ensure_object-Keeps}
use sesame_operator.Equality.{Semantic}
use sesame_operator.Equality.Owners.{
  service_account_config_changed-KeepsOwner, cluster_role_config_changed-KeepsOwner,
  cluster_role_binding_config_changed-KeepsOwner, role_config_changed-KeepsOwner,
  role_binding_config_changed-KeepsOwner,
}
use sesame_operator.Sesames.{other_sesames_exist, other_sesames_exist_in_spec_ns}
use sesame_operator.Access.{
  desired_service_account, desired_cluster_role, desired_cluster_role_binding, desired_role,
  desired_role_binding,
}
use sesame_operator.Access.Ensure.{
  service_accounts, cluster_roles, cluster_role_bindings, roles, role_bindings,
  current_service_account, current_cluster_role, current_cluster_role_binding, current_role,
  current_role_binding, ensure_service_account, ensure_cluster_role, ensure_cluster_role_binding,
  ensure_role, ensure_role_binding,
}
use sesame_operator.Access.Rbac.{
  Object, role_binding, role, service_account, cluster_role_binding, cluster_role, object_labels,
  account_names, no_account, ensure_accounts, ensure_rbac, found_objects, found_accounts,
  namespaced_objects, cluster_objects, delete_object, delete_owned_object, delete_owned_objects,
  ensure_rbac_deleted,
}

module _ {C : Type 0} (cli : Client C) (s : Sesame) {P : C → Type 0} (g : Confined P s cli) where
  module _ (eq : Semantic) where
    ensure_service_account-Keeps : (name : String) → Keeps P (ensure_service_account cli eq name s)
    unfolding ensure_service_account current_service_account desired_service_account
    ensure_service_account-Keeps name =
        ensure_object-Keeps (service_accounts cli eq) g.service_accounts
          (service_account_config_changed-KeepsOwner eq) _ _ (g.service_accounts.reads _ _)
          (owner_labels-Owned s)

    ensure_cluster_role-Keeps : (name : String) → Keeps P (ensure_cluster_role cli eq name s)
    unfolding ensure_cluster_role current_cluster_role desired_cluster_role
    ensure_cluster_role-Keeps name =
        ensure_object-Keeps (cluster_roles cli eq) g.cluster_roles
          (cluster_role_config_changed-KeepsOwner eq) _ _ (g.cluster_roles.reads _ _)
          (owner_labels-Owned s)

    ensure_cluster_role_binding-Keeps :
        (name role_ref svc_act : String)
        → Keeps P (ensure_cluster_role_binding cli eq name role_ref svc_act s)
    unfolding ensure_cluster_role_binding current_cluster_role_binding desired_cluster_role_binding
    ensure_cluster_role_binding-Keeps name role_ref svc_act =
        Keeps-bind _ _
          (ensure_object-Keeps (cluster_role_bindings cli eq) g.cluster_role_bindings
            (cluster_role_binding_config_changed-KeepsOwner eq) _ _
            (g.cluster_role_bindings.reads _ _) (owner_labels-Owned s))
          (λ _. Keeps-pure tt)

    ensure_role-Keeps : (name : String) → Keeps P (ensure_role cli eq name s)
    unfolding ensure_role current_role desired_role
    ensure_role-Keeps name =
        ensure_object-Keeps (roles cli eq) g.roles (role_config_changed-KeepsOwner eq) _ _
          (g.roles.reads _ _) (owner_labels-Owned s)

    ensure_role_binding-Keeps :
        (name svc_act cert : String) → Keeps P (ensure_role_binding cli eq name svc_act cert s)
    unfolding ensure_role_binding current_role_binding desired_role_binding
    ensure_role_binding-Keeps name svc_act cert =
        Keeps-bind _ _
          (ensure_object-Keeps (role_bindings cli eq) g.role_bindings
            (role_binding_config_changed-KeepsOwner eq) _ _ (g.role_bindings.reads _ _)
            (owner_labels-Owned s))
          (λ _. Keeps-pure tt)

    ensure_accounts-Keeps :
        (names : List String) (cert : ServiceAccount)
        → Keeps P (ensure_accounts cli eq s names cert)
    unfolding ensure_accounts
    ensure_accounts-Keeps [] cert = Keeps-pure cert
    ensure_accounts-Keeps (name ∷ names) cert =
        Keeps-bind _ _ (Keeps-wrapping _ (ensure_service_account-Keeps name))
          (λ account. ensure_accounts-Keeps names _)

    -- Whatever the run for the access rules meets, it keeps each property that lists, reads, and
    -- writes of objects with the owner labels of the sesame keep.
    pub ensure_rbac-Keeps : Keeps P (ensure_rbac cli eq s)
    unfolding ensure_rbac
    ensure_rbac-Keeps = Keeps-bind _ _ (ensure_accounts-Keeps account_names no_account) λ cert.
        Keeps-bind _ _ (Keeps-wrapping _ (ensure_cluster_role-Keeps _)) λ cr.
          Keeps-bind _ _ (Keeps-wrapping _ (ensure_cluster_role_binding-Keeps _ _ _)) λ _.
            Keeps-bind _ _ (Keeps-wrapping _ (ensure_role-Keeps _))
              λ cert_role. Keeps-wrapping _ (ensure_role_binding-Keeps _ _ _)

  module _ (kind_of : Object → String) where
    found_objects-Keeps :
        {K : Type 0} (make : K → Object) (get : Request C K)
        → Harmless P get
        → Keeps P (found_objects cli kind_of make get)
    unfolding found_objects
    found_objects-Keeps make get reads = search keeps_rules

    found_accounts-Keeps :
        (ns : String) (names : List String) → Keeps P (found_accounts cli kind_of ns names)
    unfolding found_accounts current_service_account
    found_accounts-Keeps ns [] = Keeps-pure []
    found_accounts-Keeps ns (name ∷ names) =
        Keeps-bind _ _ (found_objects-Keeps service_account _ (g.service_accounts.reads ns name))
          λ one. Keeps-bind _ _ (found_accounts-Keeps ns names) (λ rest. Keeps-pure (one ++ rest))

    namespaced_objects-Keeps : Keeps P (namespaced_objects cli kind_of s)
    unfolding namespaced_objects current_role current_role_binding
    namespaced_objects-Keeps = search (
      keeps_rules, found_objects-Keeps, found_accounts-Keeps, g.roles.reads, g.role_bindings.reads,
    )

    cluster_objects-Keeps : Keeps P (cluster_objects cli kind_of s)
    unfolding cluster_objects current_cluster_role current_cluster_role_binding
    cluster_objects-Keeps =
        search
          (keeps_rules, found_objects-Keeps, g.cluster_roles.reads, g.cluster_role_bindings.reads)

    delete_object-Harmless :
        (o : Object) → Owned s (object_labels o) → Harmless P (delete_object cli kind_of o)
    unfolding delete_object
    delete_object-Harmless (role_binding o) owned = g.role_bindings.deletes o owned
    delete_object-Harmless (role o) owned = g.roles.deletes o owned
    delete_object-Harmless (service_account o) owned = g.service_accounts.deletes o owned
    delete_object-Harmless (cluster_role_binding o) owned = g.cluster_role_bindings.deletes o owned
    delete_object-Harmless (cluster_role o) owned = g.cluster_roles.deletes o owned

    delete_owned_object-Keeps : (o : Object) → Keeps P (delete_owned_object cli kind_of s o)
    unfolding delete_owned_object
    delete_owned_object-Keeps o =
        Keeps-if (exist (object_labels o) (owner_labels s)) _ _
          (λ owned. search (keeps_rules, delete_object-Harmless o owned)) (λ _. Keeps-pure tt)

    delete_owned_objects-Keeps : (l : List Object) → Keeps P (delete_owned_objects cli kind_of s l)
    unfolding delete_owned_objects
    delete_owned_objects-Keeps [] = Keeps-pure tt
    delete_owned_objects-Keeps (o ∷ l) =
        Keeps-bind _ _ (delete_owned_object-Keeps o) (λ _. delete_owned_objects-Keeps l)

    others-Keeps : Keeps P (other_sesames_exist cli s)
    unfolding other_sesames_exist
    others-Keeps = search (keeps_rules, g.lists)

    shared-Keeps : Keeps P (other_sesames_exist_in_spec_ns cli s)
    unfolding other_sesames_exist_in_spec_ns
    shared-Keeps = search (keeps_rules, others-Keeps)

    -- The same of the deletion of the access rules.
    pub ensure_rbac_deleted-Keeps : Keeps P (ensure_rbac_deleted cli kind_of s)
    unfolding ensure_rbac_deleted
    ensure_rbac_deleted-Keeps = Keeps-bind _ _ (Keeps-wrapping _ shared-Keeps) λ shared.
        Keeps-bind _ _ (search (Keeps-if, namespaced_objects-Keeps, Keeps-pure)) λ here.
          Keeps-bind _ _ (Keeps-wrapping _ others-Keeps) λ others.
            Keeps-bind _ _ (search (Keeps-if, cluster_objects-Keeps, Keeps-pure))
              λ everywhere. delete_owned_objects-Keeps _
