-- ===== src/World.antt =====
-- A cluster as tables, one for each kind of objects that the operator writes.
use sesame_operator.Prelude.{String, none, ◌≡◌, refl}
use sesame_operator.Api.{Sesame}
use sesame_operator.Kube.{
  Namespace, Service, ConfigMap, Job, Deployment, DaemonSet, ServiceAccount, ClusterRole,
  ClusterRoleBinding, Role, RoleBinding,
}
use sesame_operator.Cluster.{Client}
use sesame_operator.Owned.Tables.{Table, Part, IsErasable, IsStore, IsAnswering}

pub record World : Type 0 where
  pub services : Table Service
  pub config_maps : Table ConfigMap
  pub jobs : Table Job
  pub deployments : Table Deployment
  pub daemon_sets : Table DaemonSet
  pub service_accounts : Table ServiceAccount
  pub cluster_roles : Table ClusterRole
  pub cluster_role_bindings : Table ClusterRoleBinding
  pub roles : Table Role
  pub role_bindings : Table RoleBinding

-- The namespace and the name of an object. Some kinds have no namespace.
abbrev pub namespace_key : Namespace → String × String
namespace_key o = ("", o.name)

abbrev pub service_key : Service → String × String
service_key o = (o.namespace, o.name)

abbrev pub config_map_key : ConfigMap → String × String
config_map_key o = (o.namespace, o.name)

abbrev pub job_key : Job → String × String
job_key o = (o.namespace, o.name)

abbrev pub deployment_key : Deployment → String × String
deployment_key o = (o.namespace, o.name)

abbrev pub daemon_set_key : DaemonSet → String × String
daemon_set_key o = (o.namespace, o.name)

abbrev pub account_key : ServiceAccount → String × String
account_key o = (o.namespace, o.name)

abbrev pub cluster_role_key : ClusterRole → String × String
cluster_role_key o = ("", o.name)

abbrev pub cluster_role_binding_key : ClusterRoleBinding → String × String
cluster_role_binding_key o = ("", o.name)

abbrev pub role_key : Role → String × String
role_key o = (o.namespace, o.name)

abbrev pub role_binding_key : RoleBinding → String × String
role_binding_key o = (o.namespace, o.name)

abbrev pub service_part : Part World Service
service_part = record {
  table = λ w. w.services;
  set = λ t w. record w { services = t };
  unchanged = λ w. refl;
}

abbrev pub config_map_part : Part World ConfigMap
config_map_part = record {
  table = λ w. w.config_maps;
  set = λ t w. record w { config_maps = t };
  unchanged = λ w. refl;
}

abbrev pub job_part : Part World Job
job_part = record { table = λ w. w.jobs; set = λ t w. record w { jobs = t }; unchanged = λ w. refl }

abbrev pub deployment_part : Part World Deployment
deployment_part = record {
  table = λ w. w.deployments;
  set = λ t w. record w { deployments = t };
  unchanged = λ w. refl;
}

abbrev pub daemon_set_part : Part World DaemonSet
daemon_set_part = record {
  table = λ w. w.daemon_sets;
  set = λ t w. record w { daemon_sets = t };
  unchanged = λ w. refl;
}

abbrev pub account_part : Part World ServiceAccount
account_part = record {
  table = λ w. w.service_accounts;
  set = λ t w. record w { service_accounts = t };
  unchanged = λ w. refl;
}

abbrev pub cluster_role_part : Part World ClusterRole
cluster_role_part = record {
  table = λ w. w.cluster_roles;
  set = λ t w. record w { cluster_roles = t };
  unchanged = λ w. refl;
}

abbrev pub cluster_role_binding_part : Part World ClusterRoleBinding
cluster_role_binding_part = record {
  table = λ w. w.cluster_role_bindings;
  set = λ t w. record w { cluster_role_bindings = t };
  unchanged = λ w. refl;
}

abbrev pub role_part : Part World Role
role_part = record {
  table = λ w. w.roles;
  set = λ t w. record w { roles = t };
  unchanged = λ w. refl;
}

abbrev pub role_binding_part : Part World RoleBinding
role_binding_part = record {
  table = λ w. w.role_bindings;
  set = λ t w. record w { role_bindings = t };
  unchanged = λ w. refl;
}

-- Of a cluster, `view` shows the objects of these kinds. The reads and deletions of the client work on
-- them, and so do its writes but for services, of which the API server assigns fields. Namespaces can be
-- read and written, and show nothing of it.
pub record IsClusterStore {C : Type 0} (cli : Client C) (view : C → World) : Type 0 where
  pub namespaces : IsAnswering cli.namespaces namespace_key view
  pub services : IsErasable cli.services service_key view service_part
  pub config_maps : IsStore cli.config_maps config_map_key view config_map_part
  pub jobs : IsStore cli.jobs job_key view job_part
  pub deployments : IsStore cli.deployments deployment_key view deployment_part
  pub daemon_sets : IsStore cli.daemon_sets daemon_set_key view daemon_set_part
  pub service_accounts : IsStore cli.service_accounts account_key view account_part
  pub cluster_roles : IsStore cli.cluster_roles cluster_role_key view cluster_role_part
  pub cluster_role_bindings :
      IsStore cli.cluster_role_bindings cluster_role_binding_key view cluster_role_binding_part
  pub roles : IsStore cli.roles role_key view role_part
  pub role_bindings : IsStore cli.role_bindings role_binding_key view role_binding_part

-- The tables but that of the services.
abbrev pub but_services : World → World
but_services w = record w { services = λ ns name. none }

-- The calls on sesames and on services leave the other tables, whatever they answer.
pub record IsApart {C : Type 0} (cli : Client C) (view : C → World) : Type 0 where
  pub sesames :
      (ns name : String) (c : C)
      → but_services (view (cli.sesames.get ns name c).1) ≡ but_services (view c)
  pub statuses :
      (s : Sesame) (c : C) → but_services (view (cli.update_status s c).1) ≡ but_services (view c)
  pub read_services :
      (ns name : String) (c : C)
      → but_services (view (cli.services.get ns name c).1) ≡ but_services (view c)
  pub created_services :
      (o : Service) (c : C)
      → but_services (view (cli.services.create o c).1) ≡ but_services (view c)
  pub updated_services :
      (o : Service) (c : C)
      → but_services (view (cli.services.update o c).1) ≡ but_services (view c)
  pub deleted_services :
      (o : Service) (c : C)
      → but_services (view (cli.services.delete o c).1) ≡ but_services (view c)
