-- ===== src/Access/Rbac.antt =====
-- internal/objects/rbac.go: all access rules of one sesame, and their deletion.
use sesame_operator.Prelude.{
  String, not, List, [], ◌∷◌, ◌++◌, Option, StringMap, ◌==◌, if◌then◌else◌, sprintf,
}
use sesame_operator.Errors.{client, wrap}
use sesame_operator.Api.{Sesame}
use sesame_operator.Kube.{ServiceAccount, Role, RoleBinding, ClusterRole, ClusterRoleBinding}
use sesame_operator.Labels.{exist, owner_labels}
use sesame_operator.Cluster.{
  Request, Exec, Client, pure, fail, call, ◌>>=◌, ◌>>◌, on_answer, wrapping,
}
use sesame_operator.Owned.Ensure.{failed_to, titled}
use sesame_operator.Equality.{Semantic}
use sesame_operator.Sesames.{other_sesames_exist, other_sesames_exist_in_spec_ns}
use sesame_operator.Access.{sesame_rbac_name, envoy_rbac_name, cert_gen_rbac_name, namespaced_name}
use sesame_operator.Access.Ensure.{
  current_service_account, current_cluster_role, current_cluster_role_binding, current_role,
  current_role_binding, ensure_service_account, ensure_cluster_role, ensure_cluster_role_binding,
  ensure_role, ensure_role_binding,
}

-- `names`, the service accounts in their order.
abbrev pub account_names : List String
account_names = sesame_rbac_name ∷ envoy_rbac_name ∷ cert_gen_rbac_name ∷ []

-- `&corev1.ServiceAccount{}`
abbrev pub no_account : ServiceAccount
no_account = record { namespace = ""; name = ""; labels = Option.none }

-- `client.Object`, of the kinds that are deleted together.
pub data Object : Type 0 where
  role_binding : RoleBinding → Object
  role : Role → Object
  service_account : ServiceAccount → Object
  cluster_role_binding : ClusterRoleBinding → Object
  cluster_role : ClusterRole → Object

abbrev pub object_labels : Object → Option StringMap
object_labels (role_binding o) = o.labels
object_labels (role o) = o.labels
object_labels (service_account o) = o.labels
object_labels (cluster_role_binding o) = o.labels
object_labels (cluster_role o) = o.labels

abbrev pub object_namespace : Object → String
object_namespace (role_binding o) = o.namespace
object_namespace (role o) = o.namespace
object_namespace (service_account o) = o.namespace
object_namespace (cluster_role_binding o) = ""
object_namespace (cluster_role o) = ""

abbrev pub object_name : Object → String
object_name (role_binding o) = o.name
object_name (role o) = o.name
object_name (service_account o) = o.name
object_name (cluster_role_binding o) = o.name
object_name (cluster_role o) = o.name

module _ {C : Type 0} (cli : Client C) (eq : Semantic) where
  -- The loop over the names, with the account that `certSvcAct` holds.
  unfoldable pub ensure_accounts : Sesame → List String → ServiceAccount → Exec C ServiceAccount
  unfolding ensure_service_account
  ensure_accounts s [] cert = pure cert
  ensure_accounts s (name ∷ names) cert = do
    svc_act ←
        wrapping (failed_to "ensure" (titled "service account" s.spec.namespace.name name))
          (ensure_service_account cli eq name s)
    ensure_accounts s names (if svc_act.name == cert_gen_rbac_name then svc_act else cert)

  -- The messages of the cluster roles name the role, not the object.
  unfoldable pub ensure_rbac : Sesame → Exec C Unit
  unfolding ensure_accounts ensure_cluster_role ensure_cluster_role_binding ensure_role
      ensure_role_binding
  ensure_rbac s = do
    cert_svc_act ← ensure_accounts s account_names no_account
    cr ←
        wrapping (failed_to "ensure" (sprintf ("cluster role " ∷ sesame_rbac_name ∷ [])))
          (ensure_cluster_role cli eq (namespaced_name s) s)
    wrapping (failed_to "ensure" (sprintf ("cluster role binding " ∷ sesame_rbac_name ∷ [])))
        (ensure_cluster_role_binding cli eq (namespaced_name s) cr.name sesame_rbac_name s)
    cert_role ←
        wrapping (failed_to "ensure" (titled "role" s.spec.namespace.name cert_gen_rbac_name))
          (ensure_role cli eq cert_gen_rbac_name s)
    wrapping (failed_to "ensure" (titled "role binding" s.spec.namespace.name sesame_rbac_name))
        (ensure_role_binding cli eq sesame_rbac_name cert_svc_act.name cert_role.name s)

-- `kind_of` is the kind that the client leaves in an object that it reads.
module _ {C : Type 0} (cli : Client C) (kind_of : Object → String) where
  -- An object is appended to those to delete if it is found; to find none is no error.
  unfoldable pub found_objects : {K : Type 0} → (K → Object) → Request C K → Exec C (List Object)
  found_objects make get = do
    found ← call get
    on_answer (λ o. pure (make o ∷ [])) (λ e. if e.is_not_found then pure [] else fail (client e))
        found

  unfoldable pub found_accounts : String → List String → Exec C (List Object)
  unfolding found_objects current_service_account
  found_accounts ns [] = pure []
  found_accounts ns (name ∷ names) = do
    one ← found_objects service_account (current_service_account cli ns name)
    rest ← found_accounts ns names
    pure (one ++ rest)

  -- The objects in the namespace of the resources.
  unfoldable pub namespaced_objects : Sesame → Exec C (List Object)
  unfolding found_accounts current_role current_role_binding
  namespaced_objects s =
      let ns = s.spec.namespace.name in
      do
        binding ← found_objects role_binding (current_role_binding cli ns sesame_rbac_name)
        cntr_role ← found_objects role (current_role cli ns sesame_rbac_name)
        cert_role ← found_objects role (current_role cli ns cert_gen_rbac_name)
        accounts ← found_accounts ns account_names
        pure (binding ++ cntr_role ++ cert_role ++ accounts)

  -- The objects of the cluster.
  unfoldable pub cluster_objects : Sesame → Exec C (List Object)
  unfolding found_objects current_cluster_role current_cluster_role_binding
  cluster_objects s = do
    crb ← found_objects cluster_role_binding (current_cluster_role_binding cli (namespaced_name s))
    cr ← found_objects cluster_role (current_cluster_role cli (namespaced_name s))
    pure (crb ++ cr)

  unfoldable pub delete_object : Object → Request C Unit
  delete_object (role_binding o) = cli.role_bindings.delete o
  delete_object (role o) = cli.roles.delete o
  delete_object (service_account o) = cli.service_accounts.delete o
  delete_object (cluster_role_binding o) = cli.cluster_role_bindings.delete o
  delete_object (cluster_role o) = cli.cluster_roles.delete o

  abbrev pub deletion_title : Object → String
  deletion_title o = titled (kind_of o) (object_namespace o) (object_name o)

  -- One round of the last loop.
  unfoldable pub delete_owned_object : Sesame → Object → Exec C Unit
  unfolding delete_object
  delete_owned_object s o =
      if exist (object_labels o) (owner_labels s)
      then (do
        done ← call (delete_object o)
        on_answer (λ _. pure tt)
            (λ e.
              if e.is_not_found
              then pure tt
              else fail (failed_to "delete" (deletion_title o) (client e)))
            done)
      else pure tt

  unfoldable pub delete_owned_objects : Sesame → List Object → Exec C Unit
  unfolding delete_owned_object
  delete_owned_objects s [] = pure tt
  delete_owned_objects s (o ∷ objects) = do delete_owned_object s o; delete_owned_objects s objects

  -- No error is ever added to `errs`, whose aggregate is nil then.
  unfoldable pub ensure_rbac_deleted : Sesame → Exec C Unit
  unfolding namespaced_objects cluster_objects delete_owned_objects other_sesames_exist
      other_sesames_exist_in_spec_ns
  ensure_rbac_deleted s = do
    shared ←
        wrapping
          (wrap (
            sprintf (
              "failed to verify if Sesames SesamesExist in namespace " ∷ s.spec.namespace.name
              ∷ [])))
          (other_sesames_exist_in_spec_ns cli s)
    here ← if not shared then namespaced_objects s else pure []
    others ←
        wrapping (wrap "failed to verify if Sesames exist in any namespace")
          (other_sesames_exist cli s)
    everywhere ← if not others.0 then cluster_objects s else pure []
    delete_owned_objects s (here ++ everywhere)
