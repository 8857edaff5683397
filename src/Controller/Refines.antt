-- ===== src/Controller/Refines.antt =====
-- `ensureSesame` of internal/controller/controller.go on a cluster that works as a store, up to the services.
use sesame_operator.Prelude.{ℕ, ◌<◌, String, Bool, List, [], ◌∷◌, ◌≡◌, refl, ap, ◌∙◌, if◌then◌else◌}
use sesame_operator.Errors.{Err, ok}
use sesame_operator.Errors.Retryable.{NewAggregate}
use sesame_operator.Api.{Sesame}
use sesame_operator.Cluster.{Exec, Client, ◌>>=◌, continue, pure, try}
use sesame_operator.Equality.{Semantic}
use sesame_operator.Owned.Runs.{Runs, Leaves, pure-Runs}
use sesame_operator.World.{World, IsClusterStore}
use sesame_operator.Access.Rbac.{Object}
use sesame_operator.Access.Rules.{rules_after}
use sesame_operator.Access.Refines.{ensure_rbac-Runs}
use sesame_operator.ConfigMaps.Refines.{with_config_map, ensure_config_map-Runs}
use sesame_operator.Jobs.Retry.{IsPoll}
use sesame_operator.Jobs.Refines.{with_job, ensure_job-Runs}
use sesame_operator.Namespaces.Refines.{ensure_namespace-Runs}
use sesame_operator.Services.Ensure.{ensure_sesame_service, ensure_envoy_service}
use sesame_operator.Workloads.Refines.{
  with_deployment, with_daemon_set, ensure_deployment-Runs, ensure_daemon_set-Runs,
}
use sesame_operator.Controller.{
  Config, Objects, Step, handle_result, handle_all, has_envoy_service, base_steps, workload_steps,
  sync_sesame_status, ensure_sesame,
}
use sesame_operator.Controller.Whole.{operator_objects}

module _ {C W : Type 0} (view : C → W) (verb : String) (s : Sesame) where
  -- The steps behind one that returns no error.
  pub step_done :
      (step : Step C) (steps : List (Step C)) (errs : List Err) (c : C) (w : W)
      → Leaves view step.run c w
      → (c' : C) × (view c' ≡ w)
        × (handle_all verb s (step ∷ steps) errs c ≡ handle_all verb s steps errs c')
  unfolding handle_all handle_result ◌>>=◌ try continue pure
  step_done step steps errs c w (tt, h, _, seen) = ((step.run c).1, seen, rw h refl)

pub no_steps :
    {C : Type 0} (verb : String) (s : Sesame) (c : C) → handle_all verb s [] [] c ≡ (ok [], c)
unfolding handle_all pure
no_steps verb s c = refl

module _ {C W : Type 0} (view : C → W) (verb : String) (s : Sesame) where
  -- A step that returns no error, and the steps behind it.
  step-Runs :
      (step : Step C) (steps : List (Step C)) (errs : List Err) (c : C) (w w' : W)
      → Leaves view step.run c w
      → ((c' : C)
          → view c' ≡ w
          → Runs view (handle_all verb s steps errs) c' (λ errs'. errs' ≡ errs) w')
      → Runs view (handle_all verb s (step ∷ steps) errs) c (λ errs'. errs' ≡ errs) w'
  unfolding handle_all handle_result ◌>>=◌ try continue pure
  step-Runs step steps errs c w w' (tt, h, _, seen) rest = rw h (rest (step.run c).1 seen)

  no_step-Runs :
      (errs : List Err) (c : C) (w : W)
      → view c ≡ w
      → Runs view (handle_all verb s [] errs) c (λ errs'. errs' ≡ errs) w
  unfolding handle_all
  no_step-Runs errs c w seen = pure-Runs view errs c w refl seen

  -- Steps that return no error make what follows run without one.
  after_steps :
      {A : Type 0} (steps : List (Step C)) (next : List Err → Exec C A) (c : C) (w : W)
      → Runs view (handle_all verb s steps []) c (λ errs'. errs' ≡ []) w
      → (c' : C) × (view c' ≡ w) × ((handle_all verb s steps [] >>= next) c ≡ next [] c')
  unfolding ◌>>=◌ continue
  after_steps steps next c w (errs, h, none_met, seen) =
      ((handle_all verb s steps [] c).1, seen, rw (h, none_met) refl)

module _ {C : Type 0} (cli : Client C) (eq : Semantic) (s : Sesame) where
  -- The steps of the services, the last of `ensureSesame`.
  abbrev pub service_steps : List (Step C)
  service_steps =
      record { resource = "sesame service"; run = ensure_sesame_service cli eq s }
      ∷ (if has_envoy_service s.spec.network_publishing.envoy.type
          then record { resource = "envoy service"; run = ensure_envoy_service cli eq s } ∷ []
          else [])

module _ {C : Type 0} (cli : Client C) (eq : Semantic) (poll : Exec C Bool → Exec C Unit)
    (config : Config) (s : Sesame) where
  -- What a reconciliation makes of the tables of a cluster before it comes to the services.
  abbrev pub world_after : World → World
  world_after w = record {
    services = w.services;
    config_maps = with_config_map cli eq s w.config_maps;
    jobs = with_job cli poll eq s config.sesame_image w.jobs;
    deployments = with_deployment cli eq s config.sesame_image w.deployments;
    daemon_sets = with_daemon_set cli eq s config.sesame_image config.envoy_image w.daemon_sets;
    service_accounts = (rules_after cli eq s w).service_accounts;
    cluster_roles = (rules_after cli eq s w).cluster_roles;
    cluster_role_bindings = (rules_after cli eq s w).cluster_role_bindings;
    roles = (rules_after cli eq s w).roles;
    role_bindings = (rules_after cli eq s w).role_bindings;
  }

module _ {C : Type 0} (cli : Client C) (eq : Semantic) (poll : Exec C Bool → Exec C Unit)
    (kind_of : Object → String) (new_aggregate : NewAggregate) (to_lower : String → String)
    (clock : C → ℕ) (config : Config) (fuel : ℕ) (view : C → World)
    (store : IsClusterStore cli view) (least most : ℕ) (is : IsPoll least most poll)
    (some_round : 0 < least) (s : Sesame) where
  abbrev objects : Objects C
  objects = operator_objects cli eq poll kind_of

  abbrev base : List (Step C)
  base = base_steps cli objects eq new_aggregate to_lower clock config fuel s

  abbrev workloads : List (Step C)
  workloads = workload_steps cli objects eq new_aggregate to_lower clock config fuel s

  abbrev services : List (Step C)
  services = service_steps cli eq s

  abbrev status : List Err → Exec C Unit
  status = sync_sesame_status cli objects eq new_aggregate to_lower clock config fuel s

  base_steps-Runs :
      (c : C) (w : World)
      → view c ≡ w
      → Runs view (handle_all "ensure" s base []) c (λ errs. errs ≡ []) (rules_after cli eq s w)
  base_steps-Runs c w seen =
      step-Runs view "ensure" s _ _ [] c _ _ (ensure_namespace-Runs cli eq view store s c w seen)
        (λ c1 seen1.
          step-Runs view "ensure" s _ _ [] c1 _ _ (ensure_rbac-Runs cli eq view store s c1 _ seen1)
            (λ c2 seen2. no_step-Runs view "ensure" s [] c2 _ seen2))

  workloads_done :
      (c0 c : C)
      → view c ≡ rules_after cli eq s (view c0)
      → (c' : C) × (view c' ≡ world_after cli eq poll config s (view c0))
        × (handle_all "ensure" s workloads [] c ≡ handle_all "ensure" s services [] c')
  workloads_done c0 c seen =
      let (c1, seen1, e1) =
        step_done view "ensure" s _ _ [] c _
          (ensure_config_map-Runs cli eq view store s c _ seen) in
      let (c2, seen2, e2) = step_done view "ensure" s _ _ [] c1 _ (
        ensure_job-Runs cli view store poll least most is some_round eq s config.sesame_image c1 _
          seen1) in
      let (c3, seen3, e3) =
        step_done view "ensure" s _ _ [] c2 _
          (ensure_deployment-Runs cli eq view store s config.sesame_image c2 _ seen2) in
      let (c4, seen4, e4) = step_done view "ensure" s _ services [] c3 _ (
        ensure_daemon_set-Runs cli eq view store s config.sesame_image config.envoy_image c3 _
          seen3) in
      (c4, seen4, e1 ∙ e2 ∙ e3 ∙ e4)

  -- On a cluster that keeps each access rule, config map, job, deployment and daemon set as it is
  -- written and deletes it at once, that creates a namespace which is not found and updates one
  -- which is, and with a poll that runs its condition, `ensureSesame` comes to the steps of the
  -- services without an error, and before it makes of the objects of these kinds what
  -- `world_after` says, and nothing else: each is created where there is none, rewritten (a job:
  -- replaced) where it carries the owner labels and differs, and else left as it is; a deployment
  -- or daemon set with the owner labels and another selector is deleted alone. What follows, the
  -- services and the status, is the same as from there.
  pub ensure_sesame-Refines :
      (c : C)
      → (c' : C) × (view c' ≡ world_after cli eq poll config s (view c))
        × (ensure_sesame cli objects eq new_aggregate to_lower clock config fuel s c
            ≡ (handle_all "ensure" s services [] >>= status) c')
  unfolding ensure_sesame ◌>>=◌
  ensure_sesame-Refines c =
      let (c1, seen1, first) =
        after_steps view "ensure" s base _ c _ (base_steps-Runs c (view c) refl) in
      let (c2, seen2, second) = workloads_done c c1 seen1 in
      (c2, seen2, first ∙ ap (λ r. continue r.0 status r.1) second)
