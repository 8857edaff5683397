-- ===== src/Tests/Logs.antt =====
-- A cluster that keeps a log of the writes and deletions of each kind of objects.
use sesame_operator.Prelude.{
  String, ◌&&◌, List, [], ◌∷◌, Option, none, some, ◌≡◌, refl, sym, ap, ◌∙◌, ◌==◌, if◌then◌else◌,
  Bool-cases, and_true, eq_iff, inl, inr, arith,
}
use sesame_operator.Kube.{
  Service, ConfigMap, Job, Deployment, DaemonSet, ServiceAccount, ClusterRole, ClusterRoleBinding,
  Role, RoleBinding,
}
use sesame_operator.Cluster.{Answer, answer, failed, Access, Client}
use sesame_operator.Owned.Tables.{Table, Part, Reads, IsErasable, IsStore, over, put_at, erase}
use sesame_operator.World.{
  World, IsClusterStore, IsApart, service_key, service_part, config_map_key, config_map_part,
  job_key, job_part, deployment_key, deployment_part, daemon_set_key, daemon_set_part, account_key,
  account_part, cluster_role_key, cluster_role_part, cluster_role_binding_key,
  cluster_role_binding_part, role_key, role_part, role_binding_key, role_binding_part,
}
use sesame_operator.Tests.Samples.{sample, not_found}

pub data Event (K : Type 0) : Type 0 where
  written : K → Event K
  deleted : String → String → Event K

module _ {K : Type 0} (key : K → String × String) where
  -- What the last event on a name left.
  abbrev find : List (Event K) → Table K
  find [] ns name = none
  find (written o ∷ l) ns name =
      if (key o).0 == ns && (key o).1 == name then some o else find l ns name
  find (deleted ns' name' ∷ l) ns name = if ns' == ns && name' == name then none else find l ns name

  find-key :
      (l : List (Event K)) (ns name : String) (o : K) → find l ns name ≡ some o → key o ≡ (ns, name)
  find-key [] ns name o h = cc
  find-key (written p ∷ l) ns name o h = elim (Bool-cases ((key p).0 == ns && (key p).1 == name)) [
    | inl e ↦
        let (a, b) = and_true _ _ e in
        let same : p ≡ o = ground (arith, e) in
        rw (sym same)
          (ap (λ x. (x, (key p).1)) ((eq_iff _ _).0 a) ∙ ap (λ x. (ns, x)) ((eq_iff _ _).0 b))
    | inr e ↦ find-key l ns name o (rw e at h)
  ]
  find-key (deleted ns' name' ∷ l) ns name o h = elim (Bool-cases (ns' == ns && name' == name)) [
    | inl e ↦ ground (arith, e)
    | inr e ↦ find-key l ns name o (rw e at h)
  ]

abbrev found : {K : Type 0} → Option K → Answer K
found none = failed not_found
found (some o) = answer o

found-Reads : {K : Type 0} (o : Option K) → Reads o (found o)
found-Reads none = refl
found-Reads (some o) = refl

pub record Logs : Type 0 where
  pub services : List (Event Service)
  pub config_maps : List (Event ConfigMap)
  pub jobs : List (Event Job)
  pub deployments : List (Event Deployment)
  pub daemon_sets : List (Event DaemonSet)
  pub service_accounts : List (Event ServiceAccount)
  pub cluster_roles : List (Event ClusterRole)
  pub cluster_role_bindings : List (Event ClusterRoleBinding)
  pub roles : List (Event Role)
  pub role_bindings : List (Event RoleBinding)

abbrev pub view : Logs → World
view c = record {
  services = find service_key c.services;
  config_maps = find config_map_key c.config_maps;
  jobs = find job_key c.jobs;
  deployments = find deployment_key c.deployments;
  daemon_sets = find daemon_set_key c.daemon_sets;
  service_accounts = find account_key c.service_accounts;
  cluster_roles = find cluster_role_key c.cluster_roles;
  cluster_role_bindings = find cluster_role_binding_key c.cluster_role_bindings;
  roles = find role_key c.roles;
  role_bindings = find role_binding_key c.role_bindings;
}

-- A kind of objects of which none is ever found.
abbrev absent : {K : Type 0} → Access Logs K
absent = record {
  get = λ ns name c. (failed not_found, c);
  create = λ o c. (answer tt, c);
  update = λ o c. (answer tt, c);
  delete = λ o c. (answer tt, c);
}

module _ {K : Type 0} (key : K → String × String) (log : Logs → List (Event K))
    (add : Event K → Logs → Logs) where
  abbrev logged : Access Logs K
  logged = record {
    get = λ ns name c. (found (find key (log c) ns name), c);
    create = λ o c. (answer tt, add (written o) c);
    update = λ o c. (answer tt, add (written o) c);
    delete = λ o c. (answer tt, add (deleted (key o).0 (key o).1) c);
  }

  module _ (part : Part World K)
      (tables : (c : Logs) → part.table (view c) ≡ find key (log c)) where
    logged-IsErasable :
        ((ns name : String) (c : Logs)
          → view (add (deleted ns name) c) ≡ over part (erase ns name) (view c))
        → IsErasable logged key view part
    logged-IsErasable deletes = record {
      reads = λ ns name c. (rw (tables c) (found-Reads (find key (log c) ns name)), refl);
      deletes = λ o old c h. (refl, deletes (key o).0 (key o).1 c);
      keyed = λ ns name c o h. find-key key (log c) ns name o (rw (tables c) at h);
    }

    logged-IsStore :
        ((o : K) (c : Logs) → view (add (written o) c) ≡ over part (put_at key o) (view c))
        → ((ns name : String) (c : Logs)
            → view (add (deleted ns name) c) ≡ over part (erase ns name) (view c))
        → IsStore logged key view part
    logged-IsStore writes deletes = record {
      erasable = logged-IsErasable deletes;
      creates = λ o c h. (refl, writes o c);
      updates = λ o old c h. (refl, writes o c);
    }

abbrev add_service : Event Service → Logs → Logs
add_service e c = record c { services = e ∷ c.services }

abbrev add_config_map : Event ConfigMap → Logs → Logs
add_config_map e c = record c { config_maps = e ∷ c.config_maps }

abbrev add_job : Event Job → Logs → Logs
add_job e c = record c { jobs = e ∷ c.jobs }

abbrev add_deployment : Event Deployment → Logs → Logs
add_deployment e c = record c { deployments = e ∷ c.deployments }

abbrev add_daemon_set : Event DaemonSet → Logs → Logs
add_daemon_set e c = record c { daemon_sets = e ∷ c.daemon_sets }

abbrev add_account : Event ServiceAccount → Logs → Logs
add_account e c = record c { service_accounts = e ∷ c.service_accounts }

abbrev add_cluster_role : Event ClusterRole → Logs → Logs
add_cluster_role e c = record c { cluster_roles = e ∷ c.cluster_roles }

abbrev add_cluster_role_binding : Event ClusterRoleBinding → Logs → Logs
add_cluster_role_binding e c = record c { cluster_role_bindings = e ∷ c.cluster_role_bindings }

abbrev add_role : Event Role → Logs → Logs
add_role e c = record c { roles = e ∷ c.roles }

abbrev add_role_binding : Event RoleBinding → Logs → Logs
add_role_binding e c = record c { role_bindings = e ∷ c.role_bindings }

-- Of the sesames there is only the sample, which keeps its status.
abbrev pub logs_client : Client Logs
logs_client = record {
  sesames = record {
    get = λ ns name c. (answer sample, c);
    create = λ o c. (answer tt, c);
    update = λ o c. (answer tt, c);
    delete = λ o c. (answer tt, c);
  };
  list_sesames = λ c. (answer (sample ∷ []), c);
  update_status = λ s c. (answer tt, c);
  namespaces = absent;
  services = logged service_key (λ c. c.services) add_service;
  config_maps = logged config_map_key (λ c. c.config_maps) add_config_map;
  jobs = logged job_key (λ c. c.jobs) add_job;
  deployments = logged deployment_key (λ c. c.deployments) add_deployment;
  daemon_sets = logged daemon_set_key (λ c. c.daemon_sets) add_daemon_set;
  service_accounts = logged account_key (λ c. c.service_accounts) add_account;
  cluster_roles = logged cluster_role_key (λ c. c.cluster_roles) add_cluster_role;
  cluster_role_bindings =
      logged cluster_role_binding_key (λ c. c.cluster_role_bindings) add_cluster_role_binding;
  roles = logged role_key (λ c. c.roles) add_role;
  role_bindings = logged role_binding_key (λ c. c.role_bindings) add_role_binding;
}

pub logs_store : IsClusterStore logs_client view
logs_store = record {
  namespaces = record {
    reads = λ ns name c. refl;
    missing = λ ns name c e h. ground arith;
    creates = λ o c e h. (refl, refl);
    updates = λ o old c h. (refl, refl);
  };
  services =
      logged-IsErasable service_key (λ c. c.services) add_service service_part (λ c. refl)
        (λ ns name c. refl);
  config_maps =
      logged-IsStore config_map_key (λ c. c.config_maps) add_config_map config_map_part (λ c. refl)
        (λ o c. refl) (λ ns name c. refl);
  jobs =
      logged-IsStore job_key (λ c. c.jobs) add_job job_part (λ c. refl) (λ o c. refl)
        (λ ns name c. refl);
  deployments =
      logged-IsStore deployment_key (λ c. c.deployments) add_deployment deployment_part (λ c. refl)
        (λ o c. refl) (λ ns name c. refl);
  daemon_sets =
      logged-IsStore daemon_set_key (λ c. c.daemon_sets) add_daemon_set daemon_set_part (λ c. refl)
        (λ o c. refl) (λ ns name c. refl);
  service_accounts =
      logged-IsStore account_key (λ c. c.service_accounts) add_account account_part (λ c. refl)
        (λ o c. refl) (λ ns name c. refl);
  cluster_roles =
      logged-IsStore cluster_role_key (λ c. c.cluster_roles) add_cluster_role cluster_role_part
        (λ c. refl) (λ o c. refl) (λ ns name c. refl);
  cluster_role_bindings =
      logged-IsStore cluster_role_binding_key (λ c. c.cluster_role_bindings)
        add_cluster_role_binding cluster_role_binding_part (λ c. refl) (λ o c. refl)
        (λ ns name c. refl);
  roles =
      logged-IsStore role_key (λ c. c.roles) add_role role_part (λ c. refl) (λ o c. refl)
        (λ ns name c. refl);
  role_bindings =
      logged-IsStore role_binding_key (λ c. c.role_bindings) add_role_binding role_binding_part
        (λ c. refl) (λ o c. refl) (λ ns name c. refl);
}

pub logs-IsApart : IsApart logs_client view
logs-IsApart = record {
  sesames = λ ns name c. refl;
  statuses = λ s c. refl;
  read_services = λ ns name c. refl;
  created_services = λ o c. refl;
  updated_services = λ o c. refl;
  deleted_services = λ o c. refl;
}
