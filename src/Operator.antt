-- ===== src/Operator.antt =====
-- internal/operator/operator.go, cmd/sesame-operator.go, and `New` of internal/controller/controller.go:
-- the start of the process. Its logs are left out.
pub mod Starts
use sesame_operator.Prelude.{ℕ, Bool, String, List, [], ◌∷◌, Option}
use sesame_operator.Errors.{Err, Result, ok, err, panic, unfinished, wrap}
use sesame_operator.Cluster.{Exec, pure, lift, ◌>>=◌, ◌>>◌, wrapping}
use sesame_operator.SharedObjects.{OperatorConfig, default_config}
use sesame_operator.Controller.{Config}
use sesame_operator.Parse.{image}

-- The kinds of objects of which the client keeps no cache.
pub data Uncached : Type 0 where
  sesame gateway_class gateway custom_resource_definition : Uncached

-- `manager.Options`, whose scheme is always that of the operator.
pub record ManagerOptions : Type 0 where
  pub leader_election : Bool
  pub leader_election_id : String
  pub metrics_bind_address : String
  pub client_disable_cache_for : List Uncached

-- The kinds of objects that a controller is told of, and what it makes of an event.
pub data Watched : Type 0 where
  sesames deployments daemon_sets : Watched

pub data Handler : Type 0 where
  enqueue_object enqueue_owning_sesame : Handler

-- What the process waits for: the signal to stop, or the end of the manager.
pub data Ended : Type 0 where
  done : Ended
  exited : Result Unit → Ended

-- What the process calls of controller-runtime. `ended` is what its `select` receives while the
-- manager runs.
pub record Runtime (C Rest Manager Controller Mapper : Type 0) : Type 0 where
  pub get_config_or_die : Exec C Rest
  pub new_manager : Rest → ManagerOptions → Exec C Manager
  pub new_controller : String → Manager → Config → Exec C Controller
  pub watch : Controller → Watched → Handler → Exec C Unit
  pub new_rest_mapper : Rest → Exec C Mapper
  pub ended : Manager → C → Ended × C

-- `Operator`
pub record Operator (Manager Mapper : Type 0) : Type 0 where
  pub manager : Manager
  pub rest_mapper : Mapper
  pub config : OperatorConfig

-- The code with which the process exits.
unfoldable pub exit_code : Result Unit → Result ℕ
exit_code (ok _) = ok 0
exit_code (err e) = ok 1
exit_code panic = panic
exit_code unfinished = unfinished

module _ {C Rest Manager Controller Mapper : Type 0}
    (runtime : Runtime C Rest Manager Controller Mapper) where
  -- `New` of internal/controller.
  unfoldable pub new_controller : Manager → Config → Exec C Controller
  new_controller mgr cfg = do
    c ← runtime.new_controller "sesame_controller" mgr cfg
    runtime.watch c sesames enqueue_object
    runtime.watch c deployments enqueue_owning_sesame
    runtime.watch c daemon_sets enqueue_owning_sesame
    pure c

  abbrev pub manager_options : OperatorConfig → ManagerOptions
  manager_options op_cfg = record {
    leader_election = op_cfg.leader_election;
    leader_election_id = op_cfg.leader_election_id;
    metrics_bind_address = op_cfg.metrics_bind_address;
    client_disable_cache_for = sesame ∷ gateway_class ∷ gateway ∷ custom_resource_definition ∷ [];
  }

  -- `New` of internal/operator.
  unfoldable pub new_operator : Rest → OperatorConfig → Exec C (Operator Manager Mapper)
  unfolding new_controller
  new_operator cli_cfg op_cfg = do
    mgr ←
        wrapping (wrap "failed to create manager")
          (runtime.new_manager cli_cfg (manager_options op_cfg))
    wrapping (wrap "failed to create sesame controller") (
        new_controller mgr
          (record { sesame_image = op_cfg.sesame_image; envoy_image = op_cfg.envoy_image }))
    rest_mapper ← runtime.new_rest_mapper cli_cfg
    pure (record { manager = mgr; rest_mapper = rest_mapper; config = op_cfg })

  -- `Start`
  unfoldable pub start : Operator Manager Mapper → Exec C Unit
  start o c =
      let (e, c') = runtime.ended o.manager c in (elim e [ done ↦ ok tt | exited r ↦ r ], c')

  -- `parse` is `reference.Parse`.
  module _ (parse : String → Option Err) where
    -- The loop over the images.
    unfoldable pub check_images : List String → Result Unit
    unfolding image
    check_images [] = ok tt
    check_images (name ∷ names) =
        let rest = check_images names in
        elim (image parse name) [
          | ok _ ↦ rest
          | err e ↦ err e
          | panic ↦ panic
          | unfinished ↦ unfinished
        ]

    -- `main` up to its exit, on what the flags say.
    unfoldable pub run_operator : OperatorConfig → Exec C Unit
    unfolding check_images new_operator start
    run_operator flags =
        let op_cfg : OperatorConfig = record flags {
          leader_election_id = default_config.leader_election_id;
        } in
        (do
          lift (check_images (op_cfg.sesame_image ∷ op_cfg.envoy_image ∷ []))
          cli_cfg ← runtime.get_config_or_die
          op ← new_operator cli_cfg op_cfg
          start op)

    unfoldable pub main : OperatorConfig → Exec C ℕ
    unfolding run_operator exit_code
    main flags c = let (r, c') = run_operator flags c in (exit_code r, c')
