-- ===== src/Tests/Whole.antt =====
-- The job, the deployment and a whole reconciliation at work.
use sesame_operator.Prelude.{
  ℕ, zero, suc, ◌+◌, ◌≤◌, Bool, true, false, [], ◌∷◌, StringMap, Option, ◌≡◌, refl, arith,
}
use sesame_operator.Errors.{ok}
use sesame_operator.Api.{Sesame}
use sesame_operator.Kube.{Job}
use sesame_operator.Sesames.{new, others_listed}
use sesame_operator.Access.{desired_service_account, desired_role, desired_cluster_role}
use sesame_operator.Access.Rbac.{ensure_rbac_deleted}
use sesame_operator.Access.Leftover.{Removes, IsShared, ensure_rbac_deleted_shared}
use sesame_operator.Cluster.{Answer, answer, failed, Access, Client, Exec, Request}
use sesame_operator.Cluster.Keeps.{Keeps}
use sesame_operator.Owned.{Guards}
use sesame_operator.Owned.Confined.{Confined}
use sesame_operator.Equality.Objects.{job_config_changed}
use sesame_operator.Jobs.{job_labels, desired_job, current_job, ensure_job, retry_job_create}
use sesame_operator.Jobs.Retry.{attempts, IsPoll, retry_job_create-bounded, ensure_job_recreated}
use sesame_operator.Jobs.Safety.{desired_job-Owned}
use sesame_operator.Controller.{reconcile}
use sesame_operator.Controller.Whole.{operator_objects}
use sesame_operator.Controller.Safety.{reconcile-Keeps}
use sesame_operator.SharedObjects.{decimal, tag_from_image}
use sesame_operator.Tests.Semantic.{semantic}
use sesame_operator.Tests.Samples.{
  cluster, sample, other_sesame, not_found, new_aggregate, clock, to_lower, config, reads, says,
  conflict, conflicting,
}

abbrev poll : Exec ℕ Bool → Exec ℕ Unit
poll = attempts 3

three_rounds : IsPoll 3 3 poll
three_rounds = record { rounds = λ cond c. (3, omega arith, omega arith, refl) }

-- The job of an older image.
abbrev old_job : Job
old_job = desired_job sample "sesame:v0"

-- `Create` fails as long as the state is not zero.
abbrev failing : Job → Request ℕ Unit
failing job zero = (answer tt, zero)
failing job (suc n) = (failed conflict, n)

abbrev job_cluster : Client ℕ
job_cluster = record cluster {
  jobs = record {
    get = λ ns name. says (answer old_job);
    create = failing;
    update = λ o. says (answer tt);
    delete = λ o. says (answer tt);
  };
}

ensure_job_recreated_example :
    ensure_job job_cluster poll semantic sample "sesame:v1" 2 ≡ (ok tt, 0)
unfolding current_job desired_job job_config_changed job_labels new
ensure_job_recreated_example =
    ensure_job_recreated job_cluster poll 3 3 three_rounds semantic sample "sesame:v1" old_job 2 2 2
      2 0 refl (desired_job-Owned sample "sesame:v0") refl refl
      (conflict, 1, refl, (conflict, 0, refl, refl)) (omega arith)

-- Here the state counts the calls, which all fail.
abbrev counting : Client ℕ
counting = record cluster {
  jobs = record {
    get = λ ns name. says (answer old_job);
    create = λ o n. (failed conflict, suc n);
    update = λ o. says (answer tt);
    delete = λ o. says (answer tt);
  };
}

retry_job_create-bounded_example : (retry_job_create counting poll old_job 0).1 ≤ 3 + 0
retry_job_create-bounded_example =
    retry_job_create-bounded counting old_job (λ c. c) (λ c. omega arith) 3 3 poll three_rounds 0

abbrev no_deployments : Client ℕ
no_deployments = record cluster { deployments = reads (failed conflict) }

-- No call raises the number of conflicts that are still to come.
abbrev Few : ℕ → Type 0
Few n = n ≤ 3

reads-Guards :
    {K : Type 0} (labels_of : K → Option StringMap) (s : Sesame) (a : Answer K)
    → Guards Few labels_of s (reads a)
reads-Guards labels_of s a = record {
  reads = λ ns name. record { harmless = λ c h. h };
  creates = λ o owned. record { harmless = λ c h. h };
  updates = λ o owned. record { harmless = λ c h. h };
  deletes = λ o owned. record { harmless = λ c h. h };
}

conflicting-Few : (o : Sesame) (c : ℕ) → Few c → Few (conflicting o c).1
conflicting-Few o zero h = h
conflicting-Few o (suc n) h = omega arith

cluster-Confined : (s : Sesame) → Confined Few s cluster
cluster-Confined s = record {
  lists = record { harmless = λ c h. h };
  sesames = λ ns name. record { harmless = λ c h. h };
  statuses = λ o. record { harmless = conflicting-Few o };
  finalizers = λ fs. record { harmless = λ c h. h };
  namespaces = reads-Guards _ s _;
  services = reads-Guards _ s _;
  deployments = reads-Guards _ s _;
  daemon_sets = reads-Guards _ s _;
  jobs = reads-Guards _ s _;
  config_maps = reads-Guards _ s _;
  service_accounts = reads-Guards _ s _;
  roles = reads-Guards _ s _;
  role_bindings = reads-Guards _ s _;
  cluster_roles = reads-Guards _ s _;
  cluster_role_bindings = reads-Guards _ s _;
}

reconcile-Keeps_example : Keeps Few (
    reconcile cluster
      (operator_objects cluster semantic poll (λ o. ""))
      semantic
      new_aggregate
      to_lower
      clock
      config
      9
      (λ address. true)
      (record { namespace = "sesame-operator"; name = "sesame" }))
reconcile-Keeps_example =
    reconcile-Keeps cluster semantic poll (λ o. "") new_aggregate to_lower clock config 9
      three_rounds (λ address. true) (record { namespace = "sesame-operator"; name = "sesame" })
      (λ ns name. record { harmless = λ c h. h }) (λ c s found. cluster-Confined s)

abbrev untouched : {K : Type 0} → Answer K → Access Bool K
untouched a = record {
  get = λ ns name c. (a, c);
  create = λ o c. (answer tt, c);
  update = λ o c. (answer tt, c);
  delete = λ o c. (answer tt, c);
}

-- A cluster of two sesames, whose state says whether the cluster role is there.
abbrev two_sesames : Client Bool
two_sesames = record {
  sesames = untouched (failed not_found);
  list_sesames = λ c. (answer (sample ∷ other_sesame ∷ []), c);
  update_status = λ o c. (answer tt, c);
  namespaces = untouched (failed not_found);
  services = untouched (failed not_found);
  deployments = untouched (failed not_found);
  daemon_sets = untouched (failed not_found);
  jobs = untouched (failed not_found);
  config_maps = untouched (failed not_found);
  service_accounts = untouched (answer (desired_service_account "sesame" sample));
  roles = untouched (answer (desired_role "sesame" sample));
  role_bindings = untouched (failed not_found);
  cluster_roles = record (untouched (answer (desired_cluster_role "sesame" sample))) {
    delete = λ o c. (answer tt, false);
  };
  cluster_role_bindings = untouched (failed not_found);
}

abbrev IsThere : Bool → Type 0
IsThere c = c ≡ true

untouched-Removes :
    {K : Type 0} (labels_of : K → Option StringMap) (a : Answer K)
    → Removes IsThere labels_of sample (untouched a)
untouched-Removes labels_of a = record {
  reads = λ ns name. record { harmless = λ c h. h };
  deletes = λ o owned. record { harmless = λ c h. h };
}

two_sesames-IsShared : IsShared IsThere sample two_sesames
unfolding others_listed
two_sesames-IsShared = record {
  lists = record { harmless = λ c h. h };
  others = λ c h. refl;
  service_accounts = untouched-Removes _ _;
  roles = untouched-Removes _ _;
  role_bindings = untouched-Removes _ _;
}

ensure_rbac_deleted_shared_example :
    Keeps IsThere (ensure_rbac_deleted two_sesames (λ o. "Role") sample)
ensure_rbac_deleted_shared_example =
    ensure_rbac_deleted_shared two_sesames (λ o. "Role") sample two_sesames-IsShared

port_text : decimal 8081 ≡ "8081"
unfolding decimal
port_text = refl

-- With a port in the name of the registry, the tag is not found.
port_as_tag : tag_from_image "localhost:5000/sesame:v1" ≡ "5000/sesame"
unfolding tag_from_image
port_as_tag = refl

plain_tag : tag_from_image "ghcr.io/projectsesame/sesame:main" ≡ "main"
unfolding tag_from_image
plain_tag = refl
