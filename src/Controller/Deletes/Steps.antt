-- ===== src/Controller/Deletes/Steps.antt =====
-- The steps of `ensureSesameDeleted` of internal/controller/controller.go before the access rules, on a
-- cluster that works as a store.
use sesame_operator.Prelude.{◌≡◌}
use sesame_operator.Api.{Sesame}
use sesame_operator.Cluster.{Client}
use sesame_operator.Owned.Tables.{over}
use sesame_operator.Owned.Runs.{Leaves}
use sesame_operator.Owned.Deletes.{with_deleted, delete_owned-Runs}
use sesame_operator.World.{
  World, IsClusterStore, service_part, config_map_part, job_part, deployment_part, daemon_set_part,
}
use sesame_operator.ConfigMaps.{
  current_config_map, config_for_sesame, sesame_config_map_name, ensure_config_map_deleted,
}
use sesame_operator.Jobs.{current_job, certgen_job_name, ensure_job_deleted}
use sesame_operator.Services.{sesame_svc_name, envoy_svc_name}
use sesame_operator.Services.Ensure.{
  current_sesame_service, current_envoy_service, ensure_sesame_service_deleted,
  ensure_envoy_service_deleted,
}
use sesame_operator.Workloads.{
  current_deployment, current_daemon_set, sesame_deployment_name, envoy_daemon_set_name,
  ensure_deployment_deleted, ensure_daemon_set_deleted,
}

module _ {C : Type 0} (cli : Client C) (view : C → World) (store : IsClusterStore cli view)
    (s : Sesame) where
  pub envoy_service-Leaves :
      (c : C) (w : World)
      → view c ≡ w
      → Leaves view (ensure_envoy_service_deleted cli s) c (
          over service_part
            (with_deleted (λ svc. svc.labels) s s.spec.namespace.name envoy_svc_name)
            w)
  unfolding ensure_envoy_service_deleted current_envoy_service
  envoy_service-Leaves c w seen =
      delete_owned-Runs (λ svc. svc.labels) store.services s _ _ c w seen

  pub sesame_service-Leaves :
      (c : C) (w : World)
      → view c ≡ w
      → Leaves view (ensure_sesame_service_deleted cli s) c (
          over service_part
            (with_deleted (λ svc. svc.labels) s s.spec.namespace.name sesame_svc_name)
            w)
  unfolding ensure_sesame_service_deleted current_sesame_service
  sesame_service-Leaves c w seen =
      delete_owned-Runs (λ svc. svc.labels) store.services s _ _ c w seen

  pub daemon_set-Leaves :
      (c : C) (w : World)
      → view c ≡ w
      → Leaves view (ensure_daemon_set_deleted cli s) c (
          over daemon_set_part
            (with_deleted (λ d. d.labels) s s.spec.namespace.name envoy_daemon_set_name)
            w)
  unfolding ensure_daemon_set_deleted current_daemon_set
  daemon_set-Leaves c w seen =
      delete_owned-Runs (λ d. d.labels) store.daemon_sets.erasable s _ _ c w seen

  pub deployment-Leaves :
      (c : C) (w : World)
      → view c ≡ w
      → Leaves view (ensure_deployment_deleted cli s) c (
          over deployment_part
            (with_deleted (λ d. d.labels) s s.spec.namespace.name sesame_deployment_name)
            w)
  unfolding ensure_deployment_deleted current_deployment
  deployment-Leaves c w seen =
      delete_owned-Runs (λ d. d.labels) store.deployments.erasable s _ _ c w seen

  pub job-Leaves :
      (c : C) (w : World)
      → view c ≡ w
      → Leaves view
          (ensure_job_deleted cli s)
          c
          (over job_part (with_deleted (λ j. j.labels) s s.spec.namespace.name certgen_job_name) w)
  unfolding ensure_job_deleted current_job
  job-Leaves c w seen = delete_owned-Runs (λ j. j.labels) store.jobs.erasable s _ _ c w seen

  pub config_map-Leaves :
      (c : C) (w : World)
      → view c ≡ w
      → Leaves view (ensure_config_map_deleted cli s) c (
          over config_map_part
            (with_deleted (λ m. m.labels) s s.spec.namespace.name sesame_config_map_name)
            w)
  unfolding ensure_config_map_deleted current_config_map config_for_sesame
  config_map-Leaves c w seen =
      delete_owned-Runs (λ m. m.labels) store.config_maps.erasable s _ _ c w seen
