-- ===== src/Workloads/Refines.antt =====
-- `EnsureDeployment` of internal/objects/deployment/deployment.go and `EnsureDaemonSet` of
-- internal/objects/daemonset/daemonset.go on a cluster that works as a store.
use sesame_operator.Prelude.{String, false, none, ◌≡◌, refl, ap, ◌∙◌, Bool-cases, inl, inr}
use sesame_operator.Api.{Sesame}
use sesame_operator.Kube.{Deployment, DaemonSet}
use sesame_operator.Cluster.{Client}
use sesame_operator.Equality.{Semantic, pick, differ}
use sesame_operator.Equality.Settles.{the_answer, picked}
use sesame_operator.Equality.Objects.{
  deployment_config_changed, deployment_selectors_differ, daemonset_config_changed,
  daemon_set_selectors_differ,
}
use sesame_operator.Owned.Tables.{Table, KeepsKey, over}
use sesame_operator.Owned.Runs.{Leaves, wrapping-Runs, read-Runs}
use sesame_operator.Owned.Refines.{on_current-Runs, create_object-Runs}
use sesame_operator.Owned.Settles.{Settling}
use sesame_operator.World.{
  World, IsClusterStore, deployment_key, deployment_part, daemon_set_key, daemon_set_part,
}
use sesame_operator.Workloads.{
  current_deployment, current_daemon_set, ensure_deployment_deleted, ensure_daemon_set_deleted,
}
use sesame_operator.Workloads.Deployments.{
  desired_deployment, deployments, update_deployment_if_needed, replace_deployment,
  ensure_deployment,
}
use sesame_operator.Workloads.DaemonSets.{
  desired_daemon_set, daemon_sets, update_daemon_set_if_needed, replace_daemon_set,
  ensure_daemon_set,
}
use sesame_operator.Workloads.Replaces.{
  KeepsSelector, with_replaced, replace-Runs, over_replaced, replaced_thrice,
}

module _ (eq : Semantic) where
  deployment-KeepsKey : KeepsKey deployment_key (deployment_config_changed eq)
  unfolding deployment_config_changed
  deployment-KeepsKey a b u h same = ap deployment_key (the_answer _ _ h)

  deployment-Settling : (b : Deployment) → Settling (deployment_config_changed eq) b
  unfolding deployment_config_changed
  deployment-Settling b = record {
    same = rw (eq.labels.equal_refl b.labels, eq.deployment_spec.equal_refl b.spec) refl;
    answered = λ a u h.
        rw (the_answer _ _ h, eq.labels.equal_refl b.labels, eq.deployment_spec.equal_refl b.spec)
          refl;
  }

  deployment-KeepsSelector :
      (b : Deployment)
      → KeepsSelector (deployment_config_changed eq) (deployment_selectors_differ eq) b
  unfolding deployment_config_changed deployment_selectors_differ
  deployment-KeepsSelector b = record {
    same = rw (eq.selector.equal_refl b.spec.selector) refl;
    kept = λ a u h same. rw (the_answer _ _ h, eq.selector.equal_refl b.spec.selector) refl;
  }

  daemon_set-KeepsKey : KeepsKey daemon_set_key (daemonset_config_changed eq)
  unfolding daemonset_config_changed
  daemon_set-KeepsKey a b u h same = ap daemon_set_key (the_answer _ _ h) ∙ same

  daemon_set-Settling : (b : DaemonSet) → Settling (daemonset_config_changed eq) b
  unfolding daemonset_config_changed
  daemon_set-Settling b = record {
    same = rw (eq.labels.equal_refl b.labels, eq.daemon_set_spec.equal_refl b.spec) refl;
    answered = λ a u h. rw (the_answer _ _ h, picked eq.labels, picked eq.daemon_set_spec) refl;
  }

  -- The pods of the answer are those of one of the two.
  picked_selector :
      (a b : DaemonSet)
      → daemon_set_selectors_differ eq a b ≡ false
      → differ eq.selector (pick eq.daemon_set_spec a.spec b.spec).selector b.spec.selector ≡ false
  unfolding daemon_set_selectors_differ
  picked_selector a b same = elim (Bool-cases (eq.daemon_set_spec.equal a.spec b.spec)) [
    | inl e ↦ rw e same
    | inr e ↦ rw (e, eq.selector.equal_refl b.spec.selector) refl
  ]

  daemon_set-KeepsSelector :
      (b : DaemonSet)
      → KeepsSelector (daemonset_config_changed eq) (daemon_set_selectors_differ eq) b
  unfolding daemonset_config_changed daemon_set_selectors_differ
  daemon_set-KeepsSelector b = record {
    same = rw (eq.selector.equal_refl b.spec.selector) refl;
    kept = λ a u h same. rw (the_answer _ _ h) (picked_selector a b same);
  }

module _ {C : Type 0} (cli : Client C) (eq : Semantic) (s : Sesame) where
  abbrev pub with_deployment : String → Table Deployment → Table Deployment
  with_deployment image =
      with_replaced (deployments cli eq) deployment_key (deployment_selectors_differ eq) s
        (desired_deployment s image)

  abbrev pub with_daemon_set : String → String → Table DaemonSet → Table DaemonSet
  with_daemon_set sesame_image envoy_image =
      with_replaced (daemon_sets cli eq) daemon_set_key (daemon_set_selectors_differ eq) s
        (desired_daemon_set s sesame_image envoy_image)

module _ {C : Type 0} (cli : Client C) (eq : Semantic) (view : C → World)
    (store : IsClusterStore cli view) (s : Sesame) where
  pub ensure_deployment-Runs :
      (image : String) (c : C) (w : World)
      → view c ≡ w
      → Leaves view
          (ensure_deployment cli eq s image)
          c
          (over deployment_part (with_deployment cli eq s image) w)
  unfolding ensure_deployment current_deployment replace_deployment update_deployment_if_needed
      ensure_deployment_deleted desired_deployment
  ensure_deployment-Runs image c w seen =
      let desired = desired_deployment s image in
      let k = deployments cli eq in
      let keeps = deployment-KeepsKey eq in
      read-Runs store.deployments.erasable _ _ _ _ c w _ seen
        (λ e c' gone missing after.
          rw
            (
              gone,
              over_replaced k deployment_key view deployment_part store.deployments
                  (deployment_selectors_differ eq) s desired keeps w none missing,
            )
            (wrapping-Runs view _ _ c' _ (
              create_object-Runs k deployment_key view deployment_part store.deployments s desired
                c' w after missing)))
        (λ current c' found after.
          replace-Runs k deployment_key view deployment_part store.deployments
            (deployment_selectors_differ eq) s desired keeps _ current c' w after found)

  pub ensure_daemon_set-Runs :
      (sesame_image envoy_image : String) (c : C) (w : World)
      → view c ≡ w
      → Leaves view
          (ensure_daemon_set cli eq s sesame_image envoy_image)
          c
          (over daemon_set_part (with_daemon_set cli eq s sesame_image envoy_image) w)
  unfolding ensure_daemon_set current_daemon_set replace_daemon_set update_daemon_set_if_needed
      ensure_daemon_set_deleted desired_daemon_set
  ensure_daemon_set-Runs sesame_image envoy_image c w seen =
      let desired = desired_daemon_set s sesame_image envoy_image in
      let k = daemon_sets cli eq in
      let keeps = daemon_set-KeepsKey eq in
      on_current-Runs k daemon_set_key view daemon_set_part store.daemon_sets s desired _ _ c w _
        seen
        (λ c' missing after.
          rw
            (over_replaced k daemon_set_key view daemon_set_part store.daemon_sets
              (daemon_set_selectors_differ eq) s desired keeps w none missing)
            (create_object-Runs k daemon_set_key view daemon_set_part store.daemon_sets s desired c'
              w after missing))
        (λ current c' found after.
          replace-Runs k daemon_set_key view daemon_set_part store.daemon_sets
            (daemon_set_selectors_differ eq) s desired keeps _ current c' w after found)

  pub with_deployment_thrice :
      (image : String) (c : C)
      → with_deployment cli eq s image
          (with_deployment cli eq s image (with_deployment cli eq s image (view c).deployments))
        ≡ with_deployment cli eq s image (with_deployment cli eq s image (view c).deployments)
  unfolding desired_deployment
  with_deployment_thrice image c =
      let desired = desired_deployment s image in
      replaced_thrice (deployments cli eq) deployment_key (deployment_selectors_differ eq) s desired
        (deployment-Settling eq desired) (deployment-KeepsKey eq)
        (deployment-KeepsSelector eq desired) (view c).deployments
        (λ o h. store.deployments.erasable.keyed _ _ c o h)

  pub with_daemon_set_thrice :
      (sesame_image envoy_image : String) (c : C)
      → with_daemon_set cli eq s sesame_image envoy_image (
          with_daemon_set cli eq s sesame_image envoy_image
            (with_daemon_set cli eq s sesame_image envoy_image (view c).daemon_sets))
        ≡ with_daemon_set cli eq s sesame_image envoy_image
            (with_daemon_set cli eq s sesame_image envoy_image (view c).daemon_sets)
  unfolding desired_daemon_set
  with_daemon_set_thrice sesame_image envoy_image c =
      let desired = desired_daemon_set s sesame_image envoy_image in
      replaced_thrice (daemon_sets cli eq) daemon_set_key (daemon_set_selectors_differ eq) s desired
        (daemon_set-Settling eq desired) (daemon_set-KeepsKey eq)
        (daemon_set-KeepsSelector eq desired) (view c).daemon_sets
        (λ o h. store.daemon_sets.erasable.keyed _ _ c o h)
