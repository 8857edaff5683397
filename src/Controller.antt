-- ===== src/Controller.antt =====
-- internal/controller/controller.go: the reconciliation of one `Sesame`. The fuel is that of
-- `Status.Sync.sync_sesame`. Logging is left out.
pub mod Steps
pub mod PlainErrors
pub mod Retries
pub mod Whole
pub mod Safety
pub mod Refines
pub mod Settles
pub mod Deletes
use sesame_operator.Prelude.{
  ℕ, String, Bool, true, false, not, List, [], ◌∷◌, ◌++◌, Option, none, some, map, sprintf,
  StringMap, lookup, if◌then◌else◌,
}
use sesame_operator.Errors.{
  Err, Result, ok, err, panic, unfinished, client, wrap, retryable, aggregate, to_errs,
}
use sesame_operator.Errors.Retryable.{NewAggregate}
use sesame_operator.Api.{
  NetworkPublishingType, load_balancer_service, node_port_service, cluster_ip_service, Sesame,
  is_finalized, owning_sesame_ns_label, owning_sesame_name_label,
}
use sesame_operator.Cluster.{
  Exec, Client, pure, fail, lift, call, try, ◌>>=◌, ◌>>◌, on_answer, wrapping,
}
use sesame_operator.Equality.{Semantic}
use sesame_operator.Validation.{validate}
use sesame_operator.Sesames.{ensure_finalizer, ensure_finalizer_removed}
use sesame_operator.Namespaces.{ensure_namespace, ensure_namespace_deleted}
use sesame_operator.Services.Ensure.{
  ensure_sesame_service, ensure_envoy_service, ensure_sesame_service_deleted,
  ensure_envoy_service_deleted,
}
use sesame_operator.Workloads.{ensure_deployment_deleted, ensure_daemon_set_deleted}
use sesame_operator.Status.Sync.{finish, sync_sesame}

-- `Config` of the controller.
pub record Config : Type 0 where
  pub sesame_image : String
  pub envoy_image : String

-- The functions of internal/objects on the kinds of objects that are not modelled.
pub record Objects (C : Type 0) : Type 0 where
  pub ensure_rbac : Sesame → Exec C Unit
  pub ensure_rbac_deleted : Sesame → Exec C Unit
  pub ensure_config_map : Sesame → Exec C Unit
  pub ensure_config_map_deleted : Sesame → Exec C Unit
  pub ensure_job : Sesame → String → Exec C Unit
  pub ensure_job_deleted : Sesame → Exec C Unit
  pub ensure_deployment : Sesame → String → Exec C Unit
  pub ensure_daemon_set : Sesame → String → String → Exec C Unit

-- `ctrl.Result`, of which only `RequeueAfter` is set.
pub data Requeue : Type 0 where
  no_requeue : Requeue
  requeue_after : ℕ → Requeue

-- `reconcile.Request`
pub record Request : Type 0 where
  pub namespace : String
  pub name : String

-- The function of `enqueueRequestForOwningSesame`, on the labels of an object.
unfoldable pub enqueue_request_for_owning_sesame : StringMap → List Request
enqueue_request_for_owning_sesame labels = elim (lookup owning_sesame_ns_label labels) [
  | none ↦ []
  | some ns ↦ elim (lookup owning_sesame_name_label labels) [
    | none ↦ []
    | some name ↦ record { namespace = ns; name = name } ∷ []
  ]
]

-- `fmt.Errorf("failed to … sesame %s/%s: %w", …)`
abbrev pub sesame_error : String → Sesame → Err → Err
sesame_error what s =
    wrap (sprintf ("failed to " ∷ what ∷ " sesame " ∷ s.namespace ∷ "/" ∷ s.name ∷ []))

-- The publishing types for which there is an Envoy service.
unfoldable pub has_envoy_service : NetworkPublishingType → Bool
has_envoy_service load_balancer_service = true
has_envoy_service node_port_service = true
has_envoy_service cluster_ip_service = true
has_envoy_service _ = false

abbrev pub is_nil : List Err → Bool
is_nil [] = true
is_nil _ = false

-- `e.After()` where the error is retryable, by the type switch of `Reconcile`.
unfoldable pub requeue : Result Unit → Result Requeue
requeue (ok tt) = ok no_requeue
requeue (err (retryable e t)) = ok (requeue_after t)
requeue (err e) = err e
requeue panic = panic
requeue unfinished = unfinished

-- One call of `handleResult`.
pub record Step (C : Type 0) : Type 0 where
  pub resource : String
  pub run : Exec C Unit

module _ {C : Type 0} where
  -- `handleResult`, after which the errors are those of the arguments and perhaps one more.
  unfoldable pub handle_result : String → Sesame → Step C → List Err → Exec C (List Err)
  handle_result verb s step errs = do
    result ← try step.run
    pure (elim result [
      | none ↦ errs
      | some e ↦ errs ++ sesame_error (sprintf (verb ∷ " " ∷ step.resource ∷ " for" ∷ [])) s e ∷ []
    ])

  unfoldable pub handle_all : String → Sesame → List (Step C) → List Err → Exec C (List Err)
  unfolding handle_result
  handle_all verb s [] errs = pure errs
  handle_all verb s (step ∷ steps) errs = do
    errs' ← handle_result verb s step errs
    handle_all verb s steps errs'

abbrev pub aggregated_from : Option (List Err) → Result Unit
aggregated_from none = ok tt
aggregated_from (some es) = err (aggregate (to_errs es))

-- `return utilerrors.NewAggregate(errs)`
unfoldable pub aggregated : NewAggregate → List Err → Result Unit
aggregated new_aggregate errs = aggregated_from (new_aggregate (map some errs))

module _ {C : Type 0} (cli : Client C) (objects : Objects C) (eq : Semantic)
    (new_aggregate : NewAggregate) (to_lower : String → String) (clock : C → ℕ) (config : Config)
    (fuel : ℕ) where
  -- The closure `syncSesameStatus`.
  unfoldable pub sync_sesame_status : Sesame → List Err → Exec C Unit
  unfolding sync_sesame finish
  sync_sesame_status s errs = do
    result ← try (sync_sesame cli eq new_aggregate to_lower clock fuel s)
    finish cli eq new_aggregate to_lower clock
        (elim result [ none ↦ errs | some e ↦ errs ++ sesame_error "sync status for" s e ∷ [] ])

  -- What comes before all else of a sesame, and what then follows.
  abbrev pub base_steps : Sesame → List (Step C)
  base_steps s =
      record { resource = "namespace"; run = ensure_namespace cli eq s }
      ∷ record { resource = "rbac"; run = objects.ensure_rbac s }
      ∷ []

  abbrev pub workload_steps : Sesame → List (Step C)
  workload_steps s =
      record { resource = "configmap"; run = objects.ensure_config_map s }
      ∷ record { resource = "job"; run = objects.ensure_job s config.sesame_image }
      ∷ record { resource = "deployment"; run = objects.ensure_deployment s config.sesame_image }
      ∷ record {
        resource = "daemonset";
        run = objects.ensure_daemon_set s config.sesame_image config.envoy_image;
      }
      ∷ record { resource = "sesame service"; run = ensure_sesame_service cli eq s }
      ∷ (if has_envoy_service s.spec.network_publishing.envoy.type
          then record { resource = "envoy service"; run = ensure_envoy_service cli eq s } ∷ []
          else [])

  unfoldable pub ensure_sesame : Sesame → Exec C Unit
  unfolding handle_all has_envoy_service sync_sesame_status
  ensure_sesame s = do
    errs ← handle_all "ensure" s (base_steps s) []
    if not (is_nil errs)
        then sync_sesame_status s errs
        else (do errs' ← handle_all "ensure" s (workload_steps s) errs; sync_sesame_status s errs')

  -- What is deleted behind the Envoy service. The namespace is the last; whether its deletion was
  -- expected is only logged.
  abbrev pub further_deletions : Sesame → List (Step C)
  further_deletions s =
      record { resource = "service"; run = ensure_sesame_service_deleted cli s }
      ∷ record { resource = "daemonset"; run = ensure_daemon_set_deleted cli s }
      ∷ record { resource = "deployment"; run = ensure_deployment_deleted cli s }
      ∷ record { resource = "job"; run = objects.ensure_job_deleted s }
      ∷ record { resource = "configmap"; run = objects.ensure_config_map_deleted s }
      ∷ record { resource = "rbac"; run = objects.ensure_rbac_deleted s }
      ∷ record {
        resource = "namespace";
        run = (do expected ← ensure_namespace_deleted cli s; pure tt);
      }
      ∷ []

  abbrev pub deletion_steps : Sesame → List (Step C)
  deletion_steps s =
      (if has_envoy_service s.spec.network_publishing.envoy.type
        then record { resource = "envoy service"; run = ensure_envoy_service_deleted cli s } ∷ []
        else [])
      ++ further_deletions s

  unfoldable pub remove_finalizer : Sesame → List Err → Exec C Unit
  unfolding aggregated ensure_finalizer_removed
  remove_finalizer s [] = do
    result ← try (ensure_finalizer_removed cli s)
    lift (
        aggregated new_aggregate
          (elim result [ none ↦ [] | some e ↦ sesame_error "remove finalizer from" s e ∷ [] ]))
  remove_finalizer s (e ∷ es) = lift (aggregated new_aggregate (e ∷ es))

  unfoldable pub ensure_sesame_deleted : Sesame → Exec C Unit
  unfolding handle_all remove_finalizer
  ensure_sesame_deleted s = do
    errs ← handle_all "delete" s (deletion_steps s) []
    remove_finalizer s errs

  -- The switch on the error of `ensureSesame` and `ensureSesameDeleted`.
  unfoldable pub requeueing : Exec C Unit → Exec C Requeue
  unfolding requeue
  requeueing m c = let (r, c') = m c in (requeue r, c')

  -- `parse_ip` is whether `net.ParseIP` of a text is not nil.
  module _ (parse_ip : String → Bool) where
    -- What follows once the sesame is read.
    unfoldable pub reconcile_found : Sesame → Exec C Requeue
    unfolding validate ensure_finalizer ensure_sesame ensure_sesame_deleted requeueing
    reconcile_found s =
        if not s.deleting
        then (do
          wrapping (sesame_error "validate" s) (validate cli parse_ip s)
          if not (is_finalized s)
              then (do ensure_finalizer cli s; pure no_requeue)
              else requeueing (ensure_sesame s))
        else requeueing (ensure_sesame_deleted s)

    unfoldable pub reconcile : Request → Exec C Requeue
    unfolding reconcile_found
    reconcile req = do
      found ← call (cli.sesames.get req.namespace req.name)
      on_answer reconcile_found
          (λ e.
            if e.is_not_found
            then pure no_requeue
            else fail (
                wrap (sprintf ("failed to get sesame " ∷ req.namespace ∷ "/" ∷ req.name ∷ []))
                  (client e)))
          found
