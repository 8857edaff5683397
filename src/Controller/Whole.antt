-- ===== src/Controller/Whole.antt =====
-- The controller with the functions of internal/objects in place of its parameters.
use sesame_operator.Prelude.{String, Bool}
use sesame_operator.Cluster.{Exec, Client}
use sesame_operator.Equality.{Semantic}
use sesame_operator.Access.Rbac.{Object, ensure_rbac, ensure_rbac_deleted}
use sesame_operator.ConfigMaps.{ensure_config_map, ensure_config_map_deleted}
use sesame_operator.Jobs.{ensure_job, ensure_job_deleted}
use sesame_operator.Workloads.Deployments.{ensure_deployment}
use sesame_operator.Workloads.DaemonSets.{ensure_daemon_set}
use sesame_operator.Controller.{Objects}

-- The packages below internal/objects, on one client.
abbrev pub operator_objects :
    {C : Type 0} → Client C → Semantic → (Exec C Bool → Exec C Unit) → (Object → String) → Objects C
operator_objects cli eq poll kind_of = record {
  ensure_rbac = ensure_rbac cli eq;
  ensure_rbac_deleted = ensure_rbac_deleted cli kind_of;
  ensure_config_map = ensure_config_map cli eq;
  ensure_config_map_deleted = ensure_config_map_deleted cli;
  ensure_job = ensure_job cli poll eq;
  ensure_job_deleted = ensure_job_deleted cli;
  ensure_deployment = ensure_deployment cli eq;
  ensure_daemon_set = ensure_daemon_set cli eq;
}
