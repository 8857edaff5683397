-- ===== src/Jobs.antt =====
-- internal/objects/job/job.go: the job that makes the certificates.
pub mod Retry
pub mod Refines
pub mod Safety
use sesame_operator.Prelude.{
  String, Bool, true, false, [], ◌∷◌, Option, none, some, StringMap, if◌then◌else◌, sprintf,
}
use sesame_operator.Api.{Sesame, owning_sesame_name_label, owning_sesame_ns_label}
use sesame_operator.Kube.{Job}
use sesame_operator.Kube.Pods.{Container, PodSpec}
use sesame_operator.Labels.{exist, owner_labels}
use sesame_operator.Cluster.{Request, Exec, Client, pure, call, ◌>>=◌, ◌>>◌, on_answer, wrapping}
use sesame_operator.Owned.{delete_owned, ignoring_not_found}
use sesame_operator.Owned.Ensure.{Kind, titled, failed_to, on_current, create_object}
use sesame_operator.Equality.{Semantic}
use sesame_operator.Equality.Objects.{job_config_changed}
use sesame_operator.Sesames.{owning_selector}
use sesame_operator.Access.{cert_gen_rbac_name}
use sesame_operator.SharedObjects.{
  tag_from_image, default_sesame_image, new_unprivileged_pod_security, field_env,
}

abbrev pub job_container_name : String
job_container_name = "sesame"

abbrev pub job_ns_env_var : String
job_ns_env_var = "Sesame_NAMESPACE"

unfoldable pub certgen_job_name : String
unfolding tag_from_image
certgen_job_name = sprintf ("sesame-certgen-" ∷ tag_from_image default_sesame_image ∷ [])

abbrev job_container : String → Container
job_container image = record {
  name = job_container_name;
  image = image;
  image_pull_policy = "Always";
  command =
      "sesame"
      ∷ "certgen"
      ∷ "--kube"
      ∷ "--incluster"
      ∷ "--overwrite"
      ∷ "--secrets-format=compact"
      ∷ sprintf ("--namespace=$(" ∷ job_ns_env_var ∷ ")" ∷ [])
      ∷ [];
  args = [];
  env = field_env job_ns_env_var "metadata.namespace" ∷ [];
  ports = [];
  liveness_probe = none;
  readiness_probe = none;
  lifecycle = none;
  termination_message_path = "/dev/termination-log";
  termination_message_policy = "File";
  volume_mounts = [];
}

abbrev job_pod : String → PodSpec
job_pod image = record {
  affinity = [];
  init_containers = [];
  containers = job_container image ∷ [];
  volumes = [];
  node_selector = none;
  tolerations = [];
  dns_policy = "ClusterFirst";
  deprecated_service_account = cert_gen_rbac_name;
  service_account_name = cert_gen_rbac_name;
  automount_service_account_token = none;
  restart_policy = "Never";
  scheduler_name = "default-scheduler";
  security_context = some new_unprivileged_pod_security;
  termination_grace_period_seconds = some 30;
}

unfoldable pub job_labels : Sesame → StringMap
job_labels s =
    ("app.kubernetes.io/name", "sesame-certgen")
    ∷ ("app.kubernetes.io/instance", s.name)
    ∷ ("app.kubernetes.io/component", "ingress-controller")
    ∷ ("app.kubernetes.io/part-of", "project-sesame")
    ∷ ("app.kubernetes.io/managed-by", "sesame-operator")
    ∷ (owning_sesame_name_label, s.name)
    ∷ (owning_sesame_ns_label, s.namespace)
    ∷ []

unfoldable pub desired_job : Sesame → String → Job
unfolding job_labels owning_selector certgen_job_name
desired_job s image = record {
  namespace = s.spec.namespace.name;
  name = certgen_job_name;
  labels = some (job_labels s);
  spec = record {
    parallelism = some 1;
    completions = some 1;
    backoff_limit = some 1;
    ttl_seconds_after_finished = some 0;
    template = record { labels = some (owning_selector s); annotations = []; spec = job_pod image };
  };
}

module _ {C : Type 0} (cli : Client C) where
  unfoldable pub current_job : Sesame → Request C Job
  current_job s = cli.jobs.get s.spec.namespace.name certgen_job_name

  unfoldable pub ensure_job_deleted : Sesame → Exec C Unit
  unfolding delete_owned current_job
  ensure_job_deleted s = delete_owned (λ j. j.labels) cli.jobs s (current_job s)

  -- The condition that is polled: every failure is tried again.
  unfoldable pub job_created : Job → Exec C Bool
  job_created job = do
    done ← call (cli.jobs.create job)
    on_answer (λ _. pure true) (λ e. pure false) done

-- `poll` is `wait.PollImmediate` at an interval of one second and a timeout of three.
module _ {C : Type 0} (cli : Client C) (poll : Exec C Bool → Exec C Unit) where
  unfoldable pub retry_job_create : Job → Exec C Unit
  unfolding job_created
  retry_job_create job =
      wrapping (failed_to "create" (titled "job" job.namespace job.name))
        (poll (job_created cli job))

  -- What follows the comparison of the current job.
  unfoldable pub recreate_changed : Option Job → Exec C Unit
  unfolding retry_job_create ignoring_not_found
  recreate_changed none = pure tt
  recreate_changed (some updated) = do
    ignoring_not_found (cli.jobs.delete updated)
    retry_job_create updated

module _ {C : Type 0} (cli : Client C) (poll : Exec C Bool → Exec C Unit) (eq : Semantic) where
  abbrev pub jobs : Kind C Job
  jobs = record {
    access = cli.jobs;
    labels_of = λ j. j.labels;
    changed = job_config_changed eq;
    title = λ j. titled "job" j.namespace j.name;
    update_title = λ j. titled "job" j.namespace j.name;
  }

  unfoldable pub recreate_job_if_needed : Sesame → Job → Job → Exec C Unit
  unfolding recreate_changed
  recreate_job_if_needed s current desired =
      if exist current.labels (owner_labels s)
      then recreate_changed cli poll (job_config_changed eq current desired)
      else pure tt

  unfoldable pub ensure_job : Sesame → String → Exec C Unit
  unfolding on_current create_object current_job desired_job recreate_job_if_needed
  ensure_job s image =
      let desired = desired_job s image in
      on_current jobs (current_job cli s) desired
        (λ current.
          wrapping (failed_to "recreate" (titled "job" desired.namespace desired.name))
            (recreate_job_if_needed s current desired))
        (create_object jobs desired)
