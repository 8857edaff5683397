-- ===== src/Workloads/Safety.antt =====
-- The deployments and daemon sets of others are left alone, and what a failed read leads to.
use sesame_operator.Prelude.{String, arith, ==_refl}
use sesame_operator.Api.{Sesame}
use sesame_operator.Kube.{Deployment, DaemonSet}
use sesame_operator.Labels.{exist, owner_labels, Owned}
use sesame_operator.Cluster.{Client}
use sesame_operator.Cluster.Keeps.{
  Keeps, Keeps-bind, Keeps-if, Keeps-pure, Keeps-call, Keeps-on_answer, Keeps-lift, Keeps-wrapping,
}
use sesame_operator.Owned.{Guards, delete_owned-Keeps}
use sesame_operator.Owned.Ensure.{
  on_current-Keeps, create_object-Keeps, update_object_if_needed-Keeps,
}
use sesame_operator.Equality.{Semantic}
use sesame_operator.Equality.Owners.{
  deployment_config_changed-KeepsOwner, daemonset_config_changed-KeepsOwner,
}
use sesame_operator.Workloads.{
  current_deployment, current_daemon_set, ensure_deployment_deleted, ensure_daemon_set_deleted,
}
use sesame_operator.Workloads.DeploymentPod.{make_deployment_labels}
use sesame_operator.Workloads.Deployments.{
  deployments, desired_deployment, update_deployment_if_needed, replace_deployment,
  ensure_deployment,
}
use sesame_operator.Workloads.DaemonSets.{
  daemon_sets, daemon_set_labels, desired_daemon_set, update_daemon_set_if_needed,
  replace_daemon_set, ensure_daemon_set,
}

desired_deployment-Owned :
    (s : Sesame) (image : String) → Owned s (desired_deployment s image).labels
unfolding exist owner_labels desired_deployment make_deployment_labels
desired_deployment-Owned s image = ground (arith, ==_refl s.name, ==_refl s.namespace)

desired_daemon_set-Owned :
    (s : Sesame) (image envoy : String) → Owned s (desired_daemon_set s image envoy).labels
unfolding exist owner_labels desired_daemon_set daemon_set_labels
desired_daemon_set-Owned s image envoy = ground (arith, ==_refl s.name, ==_refl s.namespace)

module _ {C : Type 0} (cli : Client C) (s : Sesame) {P : C → Type 0}
    (g : Guards P (λ o. o.labels) s cli.deployments) where
  pub ensure_deployment_deleted-Keeps : Keeps P (ensure_deployment_deleted cli s)
  unfolding ensure_deployment_deleted current_deployment
  ensure_deployment_deleted-Keeps =
      delete_owned-Keeps (λ d. d.labels) cli.deployments s g _ (g.reads _ _)

  module _ (eq : Semantic) where
    update_deployment-Keeps :
        (current desired : Deployment)
        → Owned s desired.labels
        → Keeps P (update_deployment_if_needed cli eq s current desired)
    unfolding update_deployment_if_needed
    update_deployment-Keeps current desired wanted =
        Keeps-bind _ _
          (update_object_if_needed-Keeps (deployments cli eq) g
            (deployment_config_changed-KeepsOwner eq) current desired wanted)
          (λ _. Keeps-pure tt)

    replace_deployment-Keeps :
        (current desired : Deployment)
        → Owned s desired.labels
        → Keeps P (replace_deployment cli eq s current desired)
    unfolding replace_deployment
    replace_deployment-Keeps current desired wanted = search (
      Keeps-if,
      ensure_deployment_deleted-Keeps,
      Keeps-wrapping,
      update_deployment-Keeps current desired wanted,
    )

    -- Whatever the run for the deployment meets, it keeps each property that reads of deployments,
    -- and writes of those with the owner labels of the sesame, keep.
    pub ensure_deployment-Keeps : (image : String) → Keeps P (ensure_deployment cli eq s image)
    unfolding ensure_deployment current_deployment
    ensure_deployment-Keeps image =
        let desired = desired_deployment s image in
        let wanted = desired_deployment-Owned s image in
        Keeps-bind _ _ (Keeps-call (g.reads _ _)) λ found.
          Keeps-on_answer _ _ found (λ current. replace_deployment-Keeps current desired wanted)
            (λ e. search (
              Keeps-if,
              Keeps-wrapping,
              Keeps-lift,
              create_object-Keeps (deployments cli eq) g desired wanted,
            ))

module _ {C : Type 0} (cli : Client C) (s : Sesame) {P : C → Type 0}
    (g : Guards P (λ o. o.labels) s cli.daemon_sets) where
  pub ensure_daemon_set_deleted-Keeps : Keeps P (ensure_daemon_set_deleted cli s)
  unfolding ensure_daemon_set_deleted current_daemon_set
  ensure_daemon_set_deleted-Keeps =
      delete_owned-Keeps (λ d. d.labels) cli.daemon_sets s g _ (g.reads _ _)

  module _ (eq : Semantic) where
    update_daemon_set-Keeps :
        (current desired : DaemonSet)
        → Owned s desired.labels
        → Keeps P (update_daemon_set_if_needed cli eq s current desired)
    unfolding update_daemon_set_if_needed
    update_daemon_set-Keeps current desired wanted =
        Keeps-bind _ _
          (update_object_if_needed-Keeps (daemon_sets cli eq) g
            (daemonset_config_changed-KeepsOwner eq) current desired wanted)
          (λ _. Keeps-pure tt)

    replace_daemon_set-Keeps :
        (current desired : DaemonSet)
        → Owned s desired.labels
        → Keeps P (replace_daemon_set cli eq s current desired)
    unfolding replace_daemon_set
    replace_daemon_set-Keeps current desired wanted = search (
      Keeps-if,
      ensure_daemon_set_deleted-Keeps,
      Keeps-wrapping,
      update_daemon_set-Keeps current desired wanted,
    )

    -- The same of the daemon set.
    pub ensure_daemon_set-Keeps :
        (image envoy : String) → Keeps P (ensure_daemon_set cli eq s image envoy)
    unfolding ensure_daemon_set current_daemon_set
    ensure_daemon_set-Keeps image envoy =
        let desired = desired_daemon_set s image envoy in
        let wanted = desired_daemon_set-Owned s image envoy in
        on_current-Keeps (daemon_sets cli eq) _ desired _ _ (g.reads _ _)
          (λ current. replace_daemon_set-Keeps current desired wanted)
          (create_object-Keeps (daemon_sets cli eq) g desired wanted)
