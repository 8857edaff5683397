-- ===== src/Controller/Settles.antt =====
-- Repeated runs of `ensureSesame` of internal/controller/controller.go on a cluster that works as a
-- store but for its services and namespaces.
use sesame_operator.Prelude.{
  ℕ, ◌<◌, String, Bool, true, false, List, [], ◌∷◌, All, ◌≡◌, sym, ap, ◌∙◌, if◌then◌else◌,
}
use sesame_operator.Errors.{Err}
use sesame_operator.Errors.Retryable.{NewAggregate}
use sesame_operator.Api.{Sesame}
use sesame_operator.Cluster.{Exec, Client}
use sesame_operator.Cluster.Keeps.{Keeps, Keeps-bind, Keeps-try}
use sesame_operator.Equality.{Semantic}
use sesame_operator.Owned.{Guards}
use sesame_operator.World.{World, but_services, IsClusterStore, IsApart}
use sesame_operator.Access.Rbac.{Object}
use sesame_operator.Access.Rules.{rules_after}
use sesame_operator.Access.Settles.{rules_after_twice}
use sesame_operator.ConfigMaps.Refines.{with_config_map, with_config_map_twice}
use sesame_operator.Jobs.Retry.{IsPoll}
use sesame_operator.Jobs.Refines.{with_job, with_job_twice}
use sesame_operator.Services.Ensure.{ensure_envoy_service}
use sesame_operator.Services.Safety.{ensure_sesame_service-Keeps, ensure_envoy_service-Keeps}
use sesame_operator.Workloads.Refines.{with_deployment_thrice, with_daemon_set_thrice}
use sesame_operator.Status.Safety.{ReadsAndStatuses, finish-Keeps, sync_sesame-Keeps}
use sesame_operator.Controller.{
  Config, Objects, Step, handle_all, has_envoy_service, sync_sesame_status, ensure_sesame,
}
use sesame_operator.Controller.Safety.Steps.{StepKeeps, handle_all-Keeps}
use sesame_operator.Controller.Whole.{operator_objects}
use sesame_operator.Controller.Refines.{world_after, service_steps, ensure_sesame-Refines}

module _ {C : Type 0} (cli : Client C) (eq : Semantic) (poll : Exec C Bool → Exec C Unit)
    (kind_of : Object → String) (new_aggregate : NewAggregate) (to_lower : String → String)
    (clock : C → ℕ) (config : Config) (fuel : ℕ) (view : C → World)
    (store : IsClusterStore cli view) (apart : IsApart cli view) (least most : ℕ)
    (is : IsPoll least most poll) (some_round : 0 < least) (s : Sesame) where
  abbrev objects : Objects C
  objects = operator_objects cli eq poll kind_of

  -- The cluster behind one run.
  abbrev run : C → C
  run c = (ensure_sesame cli objects eq new_aggregate to_lower clock config fuel s c).1

  abbrev after : World → World
  after = world_after cli eq poll config s

  -- The tables but that of the services.
  abbrev Shows : World → C → Type 0
  Shows w c = but_services (view c) ≡ w

  unseen : (w : World) → ReadsAndStatuses (Shows w) cli
  unseen w = record {
    sesames = λ ns name. record { harmless = λ c h. apart.sesames ns name c ∙ h };
    deployments = λ ns name. record {
      harmless = λ c h. ap but_services (store.deployments.erasable.reads ns name c).1 ∙ h;
    };
    daemon_sets = λ ns name. record {
      harmless = λ c h. ap but_services (store.daemon_sets.erasable.reads ns name c).1 ∙ h;
    };
    statuses = λ o. record { harmless = λ c h. apart.statuses o c ∙ h };
  }

  guarded : (w : World) → Guards (Shows w) (λ svc. svc.labels) s cli.services
  guarded w = record {
    reads = λ ns name. record { harmless = λ c h. apart.read_services ns name c ∙ h };
    creates = λ o owned. record { harmless = λ c h. apart.created_services o c ∙ h };
    updates = λ o owned. record { harmless = λ c h. apart.updated_services o c ∙ h };
    deletes = λ o owned. record { harmless = λ c h. apart.deleted_services o c ∙ h };
  }

  status-Keeps :
      (w : World) (errs : List Err)
      → Keeps
          (Shows w)
          (sync_sesame_status cli objects eq new_aggregate to_lower clock config fuel s errs)
  unfolding sync_sesame_status
  status-Keeps w errs =
      Keeps-bind _ _
        (Keeps-try (sync_sesame-Keeps cli eq new_aggregate to_lower clock (unseen w) fuel s))
        (λ result. finish-Keeps cli eq new_aggregate to_lower clock (unseen w) _)

  abbrev services : List (Step C)
  services = service_steps cli eq s

  -- The step for Envoy's service, which is not always there.
  envoy_step-Keeps :
      (w : World) (envoy : Bool)
      → All (StepKeeps (Shows w)) (
          if envoy
          then record { resource = "envoy service"; run = ensure_envoy_service cli eq s } ∷ []
          else [])
  envoy_step-Keeps w true = (ensure_envoy_service-Keeps cli eq s (guarded w), tt)
  envoy_step-Keeps w false = tt

  services-Keeps : (w : World) → Keeps (Shows w) (handle_all "ensure" s services [])
  services-Keeps w = handle_all-Keeps "ensure" s services [] (
    ensure_sesame_service-Keeps cli eq s (guarded w),
    envoy_step-Keeps w (has_envoy_service s.spec.network_publishing.envoy.type),
  )

  run-after : (c : C) → but_services (view (run c)) ≡ but_services (after (view c))
  run-after c =
      let (c', seen, ends) =
        ensure_sesame-Refines cli eq poll kind_of new_aggregate to_lower clock config fuel view
          store least most is some_round s c in
      let w = but_services (after (view c)) in
      ap (λ r. but_services (view r.1)) ends
      ∙ (Keeps-bind (handle_all "ensure" s services []) _ (services-Keeps w) (status-Keeps w)).at c'
          (ap but_services seen)

  -- The deployment and the daemon set may need the second run, and all else settles in the first.
  after_thrice : (c : C) → after (after (after (view c))) ≡ after (after (view c))
  after_thrice c =
      let rules = ap (rules_after cli eq s) (rules_after_twice cli eq view store s c) in
      λ i. record (after (after (view c))) {
        config_maps = ap (with_config_map cli eq s) (with_config_map_twice cli eq view store s c) i;
        jobs =
            ap (with_job cli poll eq s config.sesame_image)
              (with_job_twice cli view store poll least most is some_round eq s config.sesame_image
                c)
              i;
        deployments = with_deployment_thrice cli eq view store s config.sesame_image c i;
        daemon_sets =
            with_daemon_set_thrice cli eq view store s config.sesame_image config.envoy_image c i;
        service_accounts = (rules i).service_accounts;
        cluster_roles = (rules i).cluster_roles;
        cluster_role_bindings = (rules i).cluster_role_bindings;
        roles = (rules i).roles;
        role_bindings = (rules i).role_bindings;
      }

  -- On a cluster that keeps each access rule, config map, job, deployment and daemon set as it is
  -- written and deletes it at once, that creates a namespace which is not found and updates one
  -- which is, whose calls on sesames and on services leave these objects, whatever else they do
  -- and answer, and with a poll that runs its condition: each of two runs of `ensureSesame`,
  -- however it ends, makes of these objects what `world_after` says, and a third run leaves them
  -- as they are. Of the services nothing is said.
  pub ensure_sesame_settles :
      (c : C)
      → (but_services (view (run c)) ≡ but_services (after (view c)))
        × (but_services (view (run (run c))) ≡ but_services (after (view (run c))))
        × (but_services (view (run (run (run c)))) ≡ but_services (view (run (run c))))
  ensure_sesame_settles c =
      let first = run-after c in
      let second = run-after (run c) in
      let third = run-after (run (run c)) in
      let two = second ∙ ap after first in
      (first, second, third ∙ ap after two ∙ ap but_services (after_thrice c) ∙ sym two)
