-- ===== src/Controller/Deletes.antt =====
-- `ensureSesameDeleted` of internal/controller/controller.go on a cluster that works as a store, up to
-- the namespace.
pub mod Steps
use sesame_operator.Prelude.{
  ℕ, String, Bool, true, false, List, [], ◌∷◌, ◌++◌, ◌≡◌, refl, ap, ◌∙◌, if◌then◌else◌,
}
use sesame_operator.Errors.Retryable.{NewAggregate}
use sesame_operator.Api.{Sesame}
use sesame_operator.Kube.{Service}
use sesame_operator.Cluster.{Exec, Client, ◌>>=◌, continue, pure}
use sesame_operator.Equality.{Semantic}
use sesame_operator.Owned.Tables.{Table, over}
use sesame_operator.Owned.Deletes.{with_deleted}
use sesame_operator.World.{World, IsClusterStore, service_part}
use sesame_operator.Access.Rbac.{Object, ensure_rbac_deleted}
use sesame_operator.Access.Deletes.{rules_deleted}
use sesame_operator.Access.Alone.{IsAlone, ensure_rbac_deleted-Runs}
use sesame_operator.ConfigMaps.{sesame_config_map_name}
use sesame_operator.Jobs.{certgen_job_name}
use sesame_operator.Namespaces.{ensure_namespace_deleted}
use sesame_operator.Services.{sesame_svc_name, envoy_svc_name}
use sesame_operator.Services.Ensure.{ensure_sesame_service_deleted, ensure_envoy_service_deleted}
use sesame_operator.Workloads.{sesame_deployment_name, envoy_daemon_set_name}
use sesame_operator.Controller.{
  Config, Objects, Step, handle_all, has_envoy_service, further_deletions, deletion_steps,
  remove_finalizer, ensure_sesame_deleted,
}
use sesame_operator.Controller.Refines.{step_done}
use sesame_operator.Controller.Whole.{operator_objects}
use Steps.{
  envoy_service-Leaves, sesame_service-Leaves, daemon_set-Leaves, deployment-Leaves, job-Leaves,
  config_map-Leaves,
}

module _ (s : Sesame) where
  abbrev services_deleted : Bool → Table Service → Table Service
  services_deleted true t =
      with_deleted (λ svc. svc.labels) s s.spec.namespace.name sesame_svc_name
        (with_deleted (λ svc. svc.labels) s s.spec.namespace.name envoy_svc_name t)
  services_deleted false t =
      with_deleted (λ svc. svc.labels) s s.spec.namespace.name sesame_svc_name t

  -- The tables without the services, the workloads and the config map that carry the owner labels.
  abbrev pub workloads_deleted : World → World
  workloads_deleted w = record w {
    services = services_deleted (has_envoy_service s.spec.network_publishing.envoy.type) w.services;
    daemon_sets =
        with_deleted (λ d. d.labels) s s.spec.namespace.name envoy_daemon_set_name w.daemon_sets;
    deployments =
        with_deleted (λ d. d.labels) s s.spec.namespace.name sesame_deployment_name w.deployments;
    jobs = with_deleted (λ j. j.labels) s s.spec.namespace.name certgen_job_name w.jobs;
    config_maps =
        with_deleted (λ m. m.labels) s s.spec.namespace.name sesame_config_map_name w.config_maps;
  }

module _ {C : Type 0} (cli : Client C) (eq : Semantic) (poll : Exec C Bool → Exec C Unit)
    (kind_of : Object → String) (new_aggregate : NewAggregate) (to_lower : String → String)
    (clock : C → ℕ) (config : Config) (fuel : ℕ) (view : C → World)
    (store : IsClusterStore cli view) (s : Sesame) where
  abbrev objects : Objects C
  objects = operator_objects cli eq poll kind_of

  -- The last two steps.
  abbrev last_deletions : List (Step C)
  last_deletions =
      record { resource = "rbac"; run = ensure_rbac_deleted cli kind_of s }
      ∷ record {
        resource = "namespace";
        run = (do expected ← ensure_namespace_deleted cli s; pure tt);
      }
      ∷ []

  abbrev further : List (Step C)
  further = further_deletions cli objects eq new_aggregate to_lower clock config fuel s

  abbrev steps : List (Step C)
  steps = deletion_steps cli objects eq new_aggregate to_lower clock config fuel s

  -- The step for Envoy's service, which is not always there, and that for Sesame's.
  services_done :
      (envoy : Bool) (rest : List (Step C)) (c : C)
      → (c' : C) × (view c' ≡ over service_part (services_deleted s envoy) (view c))
        × (handle_all "delete" s
              ((if envoy
                  then record {
                    resource = "envoy service";
                    run = ensure_envoy_service_deleted cli s;
                  }
                    ∷ []
                  else [])
                ++ record { resource = "service"; run = ensure_sesame_service_deleted cli s }
                  ∷ rest)
              []
              c
            ≡ handle_all "delete" s rest [] c')
  services_done false rest c =
      step_done view "delete" s _ rest [] c _
        (sesame_service-Leaves cli view store s c (view c) refl)
  services_done true rest c =
      let (c1, seen1, first) =
        step_done view "delete" s _ _ [] c _
          (envoy_service-Leaves cli view store s c (view c) refl) in
      let (c2, seen2, second) =
        step_done view "delete" s _ rest [] c1 _
          (sesame_service-Leaves cli view store s c1 _ seen1) in
      (c2, seen2, first ∙ second)

  steps_done :
      (c : C)
      → (c' : C) × (view c' ≡ workloads_deleted s (view c))
        × (handle_all "delete" s steps [] c ≡ handle_all "delete" s last_deletions [] c')
  steps_done c =
      let (c1, seen1, e1) =
        services_done (has_envoy_service s.spec.network_publishing.envoy.type) _ c in
      let (c2, seen2, e2) =
        step_done view "delete" s _ _ [] c1 _ (daemon_set-Leaves cli view store s c1 _ seen1) in
      let (c3, seen3, e3) =
        step_done view "delete" s _ _ [] c2 _ (deployment-Leaves cli view store s c2 _ seen2) in
      let (c4, seen4, e4) =
        step_done view "delete" s _ _ [] c3 _ (job-Leaves cli view store s c3 _ seen3) in
      let (c5, seen5, e5) =
        step_done view "delete" s _ last_deletions [] c4 _
          (config_map-Leaves cli view store s c4 _ seen4) in
      (c5, seen5, e1 ∙ e2 ∙ e3 ∙ e4 ∙ e5)

  -- On a cluster that works as a store, a deletion comes without an error to its last two steps, those
  -- for the access rules and the namespace, and before these has deleted the services, the daemon set,
  -- the deployment, the job and the config map that carry the owner labels, the service of Envoy only for
  -- three of the publishing types, and nothing else; what follows is the same as from there.
  pub ensure_sesame_deleted-Refines :
      (c : C)
      → (c' : C) × (view c' ≡ workloads_deleted s (view c))
        × (ensure_sesame_deleted cli objects eq new_aggregate to_lower clock config fuel s c
            ≡ (handle_all "delete" s last_deletions []
                  >>= remove_finalizer cli objects eq new_aggregate to_lower clock config fuel s)
                c')
  unfolding ensure_sesame_deleted ◌>>=◌
  ensure_sesame_deleted-Refines c =
      let (c', seen, same) = steps_done c in
      (
        c',
        seen,
        ap
            (λ r.
              continue r.0
                (remove_finalizer cli objects eq new_aggregate to_lower clock config fuel s) r.1)
            same,
      )

  -- The last step.
  abbrev last_deletion : List (Step C)
  last_deletion =
      record {
        resource = "namespace";
        run = (do expected ← ensure_namespace_deleted cli s; pure tt);
      }
      ∷ []

  -- On a cluster that works as a store, and that lists this sesame alone, a deletion comes to its last
  -- step, that for the namespace, without an error, and before it has deleted, of the objects of the
  -- fixed names, those that carry the owner labels, and nothing else: the services, the workloads, the
  -- config map and the access rules, the service of Envoy only for three of the publishing types. What
  -- follows is the same as from there.
  pub ensure_sesame_deleted_alone :
      IsAlone cli view s
      → (c : C)
      → (c' : C) × (view c' ≡ rules_deleted s (workloads_deleted s (view c)))
        × (ensure_sesame_deleted cli objects eq new_aggregate to_lower clock config fuel s c
            ≡ (handle_all "delete" s last_deletion []
                  >>= remove_finalizer cli objects eq new_aggregate to_lower clock config fuel s)
                c')
  unfolding ◌>>=◌
  ensure_sesame_deleted_alone alone c =
      let (c1, seen1, same) = ensure_sesame_deleted-Refines c in
      let (c2, seen2, e2) =
        step_done view "delete" s _ last_deletion [] c1 _
          (ensure_rbac_deleted-Runs cli view store s kind_of alone c1 _ seen1) in
      (
        c2,
        seen2,
        same
            ∙ ap
                (λ r.
                  continue r.0
                    (remove_finalizer cli objects eq new_aggregate to_lower clock config fuel s)
                    r.1)
                e2,
      )
