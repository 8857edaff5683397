-- ===== src/Controller/Safety/Steps.antt =====
-- Each step of a reconciliation leaves alone what belongs to others.
use sesame_operator.Prelude.{ℕ, String, Bool, true, false, List, [], ◌∷◌, ◌++◌, if◌then◌else◌, All}
use sesame_operator.Errors.{Err}
use sesame_operator.Errors.Retryable.{NewAggregate}
use sesame_operator.Api.{Sesame}
use sesame_operator.Services.Ensure.{ensure_envoy_service_deleted}
use sesame_operator.Cluster.{Exec, Client}
use sesame_operator.Cluster.Keeps.{Keeps, Keeps-bind, Keeps-pure, Keeps-try}
use sesame_operator.Equality.{Semantic}
use sesame_operator.Owned.Confined.{Confined}
use sesame_operator.Namespaces.Safety.{ensure_namespace-Keeps, ensure_namespace_deleted-Keeps}
use sesame_operator.Access.Rbac.{Object}
use sesame_operator.Access.Safety.{ensure_rbac-Keeps, ensure_rbac_deleted-Keeps}
use sesame_operator.ConfigMaps.{ensure_config_map-Keeps, ensure_config_map_deleted-Keeps}
use sesame_operator.Jobs.Safety.{PollKeeps, ensure_job-Keeps, ensure_job_deleted-Keeps}
use sesame_operator.Workloads.Safety.{
  ensure_deployment-Keeps, ensure_daemon_set-Keeps, ensure_deployment_deleted-Keeps,
  ensure_daemon_set_deleted-Keeps,
}
use sesame_operator.Services.Safety.{
  ensure_sesame_service-Keeps, ensure_envoy_service-Keeps, ensure_sesame_service_deleted-Keeps,
  ensure_envoy_service_deleted-Keeps,
}
use sesame_operator.Controller.{
  Step, Config, handle_result, handle_all, has_envoy_service, base_steps, workload_steps,
  deletion_steps, further_deletions,
}
use sesame_operator.Controller.Whole.{operator_objects}

abbrev pub StepKeeps : {C : Type 0} → (C → Type 0) → Step C → Type 0
StepKeeps P step = Keeps P step.run

module _ {C : Type 0} {P : C → Type 0} (verb : String) (s : Sesame) where
  pub handle_all-Keeps :
      (steps : List (Step C)) (errs : List Err)
      → All (StepKeeps P) steps
      → Keeps P (handle_all verb s steps errs)
  unfolding handle_all handle_result
  handle_all-Keeps [] errs h = Keeps-pure errs
  handle_all-Keeps (step ∷ steps) errs (one, rest) =
      Keeps-bind _ _ (Keeps-bind _ _ (Keeps-try one) (λ result. Keeps-pure _))
        (λ errs'. handle_all-Keeps steps errs' rest)

module _ {C : Type 0} (cli : Client C) (eq : Semantic) (poll : Exec C Bool → Exec C Unit)
    (kind_of : Object → String) (new_aggregate : NewAggregate) (to_lower : String → String)
    (clock : C → ℕ) (config : Config) (fuel : ℕ) {P : C → Type 0} (polls : PollKeeps P poll)
    (s : Sesame) (g : Confined P s cli) where
  pub base_steps-Keep : All (StepKeeps P) (
      base_steps cli
        (operator_objects cli eq poll kind_of)
        eq
        new_aggregate
        to_lower
        clock
        config
        fuel
        s)
  base_steps-Keep =
      (ensure_namespace-Keeps cli eq s g.namespaces, (ensure_rbac-Keeps cli s g eq, tt))

  -- The step for the Envoy service, which only some publishing types have.
  envoy_step-Keeps :
      (has : Bool) (step : Step C)
      → Keeps P step.run
      → All (StepKeeps P) (if has then step ∷ [] else [])
  envoy_step-Keeps true step h = (h, tt)
  envoy_step-Keeps false step h = tt

  after_envoy-Keeps :
      (has : Bool) (step : Step C) (rest : List (Step C))
      → Keeps P step.run
      → All (StepKeeps P) rest
      → All (StepKeeps P) ((if has then step ∷ [] else []) ++ rest)
  after_envoy-Keeps true step rest h all = (h, all)
  after_envoy-Keeps false step rest h all = all

  pub workload_steps-Keep : All (StepKeeps P) (
      workload_steps cli
        (operator_objects cli eq poll kind_of)
        eq
        new_aggregate
        to_lower
        clock
        config
        fuel
        s)
  workload_steps-Keep = (
    ensure_config_map-Keeps cli s g.config_maps eq,
    (
      ensure_job-Keeps cli s g.jobs poll polls eq config.sesame_image,
      (
        ensure_deployment-Keeps cli s g.deployments eq config.sesame_image,
        (
          ensure_daemon_set-Keeps cli s g.daemon_sets eq config.sesame_image config.envoy_image,
          (
            ensure_sesame_service-Keeps cli eq s g.services,
            envoy_step-Keeps _ _ (ensure_envoy_service-Keeps cli eq s g.services),
          ),
        ),
      ),
    ),
  )

  further_deletions-Keep : All (StepKeeps P) (
      further_deletions cli
        (operator_objects cli eq poll kind_of)
        eq
        new_aggregate
        to_lower
        clock
        config
        fuel
        s)
  further_deletions-Keep = (
    ensure_sesame_service_deleted-Keeps cli eq s g.services,
    (
      ensure_daemon_set_deleted-Keeps cli s g.daemon_sets,
      (
        ensure_deployment_deleted-Keeps cli s g.deployments,
        (
          ensure_job_deleted-Keeps cli s g.jobs,
          (
            ensure_config_map_deleted-Keeps cli s g.config_maps,
            (
              ensure_rbac_deleted-Keeps cli s g kind_of,
              (
                Keeps-bind _ _ (ensure_namespace_deleted-Keeps cli s g.namespaces g.lists)
                    (λ expected. Keeps-pure tt),
                tt,
              ),
            ),
          ),
        ),
      ),
    ),
  )

  pub deletion_steps-Keep : All (StepKeeps P) (
      deletion_steps cli
        (operator_objects cli eq poll kind_of)
        eq
        new_aggregate
        to_lower
        clock
        config
        fuel
        s)
  deletion_steps-Keep =
      after_envoy-Keeps (has_envoy_service s.spec.network_publishing.envoy.type)
        (record { resource = "envoy service"; run = ensure_envoy_service_deleted cli s })
        (further_deletions cli (operator_objects cli eq poll kind_of) eq new_aggregate to_lower
          clock config fuel s)
        (ensure_envoy_service_deleted-Keeps cli eq s g.services) further_deletions-Keep
