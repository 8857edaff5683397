-- ===== src/Tests/Stores.antt =====
-- The reconciliation on a cluster that works as a store.
use sesame_operator.Prelude.{Bool, [], ◌∷◌, none, ◌≡◌, refl, arith}
use sesame_operator.Errors.{ok}
use sesame_operator.Cluster.{Exec, pure, ◌>>=◌}
use sesame_operator.Access.Rbac.{ensure_rbac, ensure_rbac_deleted}
use sesame_operator.Access.Rules.{rules_after}
use sesame_operator.Access.Refines.{ensure_rbac-Refines}
use sesame_operator.Access.Settles.{ensure_rbac_settles}
use sesame_operator.Jobs.Retry.{attempts, IsPoll}
use sesame_operator.Workloads.Deployments.{desired_deployment}
use sesame_operator.Controller.{
  ensure_sesame, sync_sesame_status, handle_all, remove_finalizer, ensure_sesame_deleted,
}
use sesame_operator.Controller.Deletes.{
  workloads_deleted, ensure_sesame_deleted-Refines, ensure_sesame_deleted_alone,
}
use sesame_operator.World.{but_services}
use sesame_operator.Access.Deletes.{rules_deleted}
use sesame_operator.Access.Alone.{IsAlone}
use sesame_operator.Namespaces.{ensure_namespace_deleted}
use sesame_operator.Controller.Whole.{operator_objects}
use sesame_operator.Controller.Refines.{world_after, service_steps, ensure_sesame-Refines}
use sesame_operator.Controller.Settles.{ensure_sesame_settles}
use sesame_operator.Tests.Semantic.{semantic}
use sesame_operator.Tests.Samples.{sample, new_aggregate, to_lower, config}
use sesame_operator.Tests.Logs.{written, Logs, view, logs_client, logs_store, logs-IsApart}

-- A cluster with an account of Sesame that belongs to nobody, a deployment of an older image, and
-- nothing else.
abbrev two_objects : Logs
two_objects = record {
  services = [];
  config_maps = [];
  jobs = [];
  deployments = written (desired_deployment sample "sesame:v0") ∷ [];
  daemon_sets = [];
  service_accounts =
      written (record { namespace = "projectsesame"; name = "sesame"; labels = none }) ∷ [];
  cluster_roles = [];
  cluster_role_bindings = [];
  roles = [];
  role_bindings = [];
}

ensure_rbac-Refines_example :
    ((ensure_rbac logs_client semantic sample two_objects).0 ≡ ok tt)
    × (view (ensure_rbac logs_client semantic sample two_objects).1
        ≡ rules_after logs_client semantic sample (view two_objects))
ensure_rbac-Refines_example =
    ensure_rbac-Refines logs_client semantic view logs_store sample two_objects

-- The cluster after a run for the access rules of the sample.
abbrev after_rules : Logs
after_rules = (ensure_rbac logs_client semantic sample two_objects).1

ensure_rbac_settles_example :
    ((ensure_rbac logs_client semantic sample after_rules).0 ≡ ok tt)
    × (view (ensure_rbac logs_client semantic sample after_rules).1 ≡ view after_rules)
ensure_rbac_settles_example =
    ensure_rbac_settles logs_client semantic view logs_store sample two_objects

abbrev poll : Exec Logs Bool → Exec Logs Unit
poll = attempts 3

three_rounds : IsPoll 3 3 poll
three_rounds = record { rounds = λ cond c. (3, omega arith, omega arith, refl) }

ensure_sesame-Refines_example :
    (c' : Logs) × (view c' ≡ world_after logs_client semantic poll config sample (view two_objects))
    × (ensure_sesame logs_client
          (operator_objects logs_client semantic poll (λ o. ""))
          semantic
          new_aggregate
          to_lower
          (λ c. 100)
          config
          9
          sample
          two_objects
        ≡ (handle_all "ensure" sample (service_steps logs_client semantic sample) []
              >>= sync_sesame_status logs_client
                  (operator_objects logs_client semantic poll (λ o. ""))
                  semantic
                  new_aggregate
                  to_lower
                  (λ c. 100)
                  config
                  9
                  sample)
            c')
ensure_sesame-Refines_example =
    ensure_sesame-Refines logs_client semantic poll (λ o. "") new_aggregate to_lower (λ c. 100)
      config 9 view logs_store 3 3 three_rounds (omega arith) sample two_objects

-- A run for the sample.
abbrev run : Logs → Logs
run c =
    (ensure_sesame logs_client (operator_objects logs_client semantic poll (λ o. "")) semantic
      new_aggregate to_lower (λ c. 100) config 9 sample c).1

ensure_sesame_settles_example :
    (but_services (view (run two_objects))
      ≡ but_services (world_after logs_client semantic poll config sample (view two_objects)))
    × (but_services (view (run (run two_objects)))
        ≡ but_services
            (world_after logs_client semantic poll config sample (view (run two_objects))))
    × (but_services (view (run (run (run two_objects))))
        ≡ but_services (view (run (run two_objects))))
ensure_sesame_settles_example =
    ensure_sesame_settles logs_client semantic poll (λ o. "") new_aggregate to_lower (λ c. 100)
      config 9 view logs_store logs-IsApart 3 3 three_rounds (omega arith) sample two_objects

-- What is deleted is the deployment.
ensure_sesame_deleted-Refines_example :
    (c' : Logs) × (view c' ≡ workloads_deleted sample (view two_objects))
    × (ensure_sesame_deleted logs_client
          (operator_objects logs_client semantic poll (λ o. ""))
          semantic
          new_aggregate
          to_lower
          (λ c. 100)
          config
          9
          sample
          two_objects
        ≡ (handle_all "delete" sample
                (record {
                  resource = "rbac";
                  run = ensure_rbac_deleted logs_client (λ o. "") sample;
                }
                  ∷ record {
                    resource = "namespace";
                    run = (do expected ← ensure_namespace_deleted logs_client sample; pure tt);
                  }
                  ∷ [])
                []
              >>= remove_finalizer logs_client
                  (operator_objects logs_client semantic poll (λ o. ""))
                  semantic
                  new_aggregate
                  to_lower
                  (λ c. 100)
                  config
                  9
                  sample)
            c')
ensure_sesame_deleted-Refines_example =
    ensure_sesame_deleted-Refines logs_client semantic poll (λ o. "") new_aggregate to_lower
      (λ c. 100) config 9 view logs_store sample two_objects

logs-IsAlone : IsAlone logs_client view sample
logs-IsAlone c = (refl, refl)

ensure_sesame_deleted_alone_example :
    (c' : Logs) × (view c' ≡ rules_deleted sample (workloads_deleted sample (view two_objects)))
    × (ensure_sesame_deleted logs_client
          (operator_objects logs_client semantic poll (λ o. ""))
          semantic
          new_aggregate
          to_lower
          (λ c. 100)
          config
          9
          sample
          two_objects
        ≡ (handle_all "delete" sample
                (record {
                  resource = "namespace";
                  run = (do expected ← ensure_namespace_deleted logs_client sample; pure tt);
                }
                  ∷ [])
                []
              >>= remove_finalizer logs_client
                  (operator_objects logs_client semantic poll (λ o. ""))
                  semantic
                  new_aggregate
                  to_lower
                  (λ c. 100)
                  config
                  9
                  sample)
            c')
ensure_sesame_deleted_alone_example =
    ensure_sesame_deleted_alone logs_client semantic poll (λ o. "") new_aggregate to_lower
      (λ c. 100) config 9 view logs_store sample logs-IsAlone two_objects
