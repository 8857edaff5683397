-- ===== src/Workloads/Deployments.antt =====
-- internal/objects/deployment/deployment.go: the desired deployment of Sesame around its pod, and its
-- update.
use sesame_operator.Workloads.DeploymentPod.{metrics_port, make_deployment_labels, deployment_pod}
use sesame_operator.Prelude.{String, [], ◌∷◌, some, if◌then◌else◌}
use sesame_operator.Errors.{panic}
use sesame_operator.Api.{Sesame}
use sesame_operator.Kube.{Deployment, str_val}
use sesame_operator.Cluster.{Exec, Client, pure, lift, call, ◌>>=◌, ◌>>◌, on_answer, wrapping}
use sesame_operator.Owned.Ensure.{Kind, titled, failed_to, create_object, update_object_if_needed}
use sesame_operator.Equality.{Semantic}
use sesame_operator.Equality.Objects.{deployment_config_changed, deployment_selectors_differ}
use sesame_operator.Services.{sesame_deployment_pod_selector}
use sesame_operator.SharedObjects.{decimal}
use sesame_operator.Workloads.{
  sesame_deployment_name, current_deployment, ensure_deployment_deleted,
}

-- The conditions and the number of available replicas are the status, which is left empty.
unfoldable pub desired_deployment : Sesame → String → Deployment
unfolding deployment_pod make_deployment_labels
desired_deployment s image = record {
  namespace = s.spec.namespace.name;
  name = sesame_deployment_name;
  labels = some (make_deployment_labels s);
  spec = record {
    progress_deadline_seconds = some 600;
    replicas = some s.spec.replicas;
    revision_history_limit = some 10;
    selector = some sesame_deployment_pod_selector;
    strategy = "RollingUpdate";
    max_surge = str_val "50%";
    max_unavailable = str_val "25%";
    template = record {
      labels = some sesame_deployment_pod_selector;
      annotations =
          ("prometheus.io/scrape", "true") ∷ ("prometheus.io/port", decimal metrics_port) ∷ [];
      spec = deployment_pod s image;
    };
  };
  available_replicas = 0;
  conditions = [];
}

module _ {C : Type 0} (cli : Client C) (eq : Semantic) where
  abbrev pub deployments : Kind C Deployment
  deployments = record {
    access = cli.deployments;
    labels_of = λ d. d.labels;
    changed = deployment_config_changed eq;
    title = λ d. titled "deployment" d.namespace d.name;
    update_title = λ d. titled "deployment" d.namespace d.name;
  }

  unfoldable pub update_deployment_if_needed : Sesame → Deployment → Deployment → Exec C Unit
  unfolding update_object_if_needed
  update_deployment_if_needed s current desired = do
    update_object_if_needed deployments s current desired
    pure tt

  -- A deployment with another selector is deleted, and comes back in the next run.
  unfoldable pub replace_deployment : Sesame → Deployment → Deployment → Exec C Unit
  unfolding update_deployment_if_needed ensure_deployment_deleted
  replace_deployment s current desired =
      if deployment_selectors_differ eq current desired
      then ensure_deployment_deleted cli s
      else wrapping (failed_to "update" (titled "deployment" desired.namespace desired.name))
          (update_deployment_if_needed s current desired)

  -- An error other than "not found" is not returned: the code goes on with a nil deployment, whose
  -- selector it reads.
  unfoldable pub ensure_deployment : Sesame → String → Exec C Unit
  unfolding create_object replace_deployment desired_deployment current_deployment
  ensure_deployment s image =
      let desired = desired_deployment s image in
      do
        found ← call (current_deployment cli s)
        on_answer (λ current. replace_deployment s current desired)
            (λ e.
              if e.is_not_found
              then wrapping
                  (failed_to "create" (titled "deployment" desired.namespace desired.name))
                  (create_object deployments desired)
              else lift panic)
            found
