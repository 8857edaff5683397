-- ===== src/Workloads/DaemonSets.antt =====
-- internal/objects/daemonset/daemonset.go: the desired daemon set of Envoy, and its update.
use sesame_operator.Workloads.DaemonSetPod.{daemon_set_pod}
use sesame_operator.Prelude.{String, [], ◌∷◌, some, StringMap, if◌then◌else◌}
use sesame_operator.Api.{Sesame, owning_sesame_name_label, owning_sesame_ns_label}
use sesame_operator.Kube.{DaemonSet, str_val}
use sesame_operator.Cluster.{Exec, Client, pure, ◌>>◌, wrapping}
use sesame_operator.Owned.Ensure.{
  Kind, titled, failed_to, on_current, create_object, update_object_if_needed,
}
use sesame_operator.Equality.{Semantic}
use sesame_operator.Equality.Objects.{daemonset_config_changed, daemon_set_selectors_differ}
use sesame_operator.Services.{envoy_daemon_set_pod_selector}
use sesame_operator.Workloads.{envoy_daemon_set_name, current_daemon_set, ensure_daemon_set_deleted}

unfoldable pub daemon_set_labels : Sesame → StringMap
daemon_set_labels s =
    ("app.kubernetes.io/name", "sesame")
    ∷ ("app.kubernetes.io/instance", s.name)
    ∷ ("app.kubernetes.io/component", "ingress-controller")
    ∷ ("app.kubernetes.io/managed-by", "sesame-operator")
    ∷ (owning_sesame_ns_label, s.namespace)
    ∷ (owning_sesame_name_label, s.name)
    ∷ []

-- The number of available pods is the status, which is left empty.
unfoldable pub desired_daemon_set : Sesame → String → String → DaemonSet
unfolding daemon_set_pod daemon_set_labels
desired_daemon_set s sesame_image envoy_image = record {
  namespace = s.spec.namespace.name;
  name = envoy_daemon_set_name;
  labels = some (daemon_set_labels s);
  spec = record {
    revision_history_limit = some 10;
    selector = some envoy_daemon_set_pod_selector;
    update_strategy = "RollingUpdate";
    max_unavailable = str_val "10%";
    template = record {
      labels = some envoy_daemon_set_pod_selector;
      annotations =
          ("prometheus.io/scrape", "true")
          ∷ ("prometheus.io/port", "8002")
          ∷ ("prometheus.io/path", "/stats/prometheus")
          ∷ [];
      spec = daemon_set_pod s sesame_image envoy_image;
    };
  };
  number_available = 0;
}

module _ {C : Type 0} (cli : Client C) (eq : Semantic) where
  abbrev pub daemon_sets : Kind C DaemonSet
  daemon_sets = record {
    access = cli.daemon_sets;
    labels_of = λ d. d.labels;
    changed = daemonset_config_changed eq;
    title = λ d. titled "daemonset" d.namespace d.name;
    update_title = λ d. titled "daemonset" d.namespace d.name;
  }

  unfoldable pub update_daemon_set_if_needed : Sesame → DaemonSet → DaemonSet → Exec C Unit
  unfolding update_object_if_needed
  update_daemon_set_if_needed s current desired = do
    update_object_if_needed daemon_sets s current desired
    pure tt

  -- A daemon set with another selector is deleted, and comes back in the next run.
  unfoldable pub replace_daemon_set : Sesame → DaemonSet → DaemonSet → Exec C Unit
  unfolding update_daemon_set_if_needed ensure_daemon_set_deleted
  replace_daemon_set s current desired =
      if daemon_set_selectors_differ eq current desired
      then ensure_daemon_set_deleted cli s
      else wrapping (failed_to "update" (titled "daemonset for sesame" s.namespace s.name))
          (update_daemon_set_if_needed s current desired)

  unfoldable pub ensure_daemon_set : Sesame → String → String → Exec C Unit
  unfolding on_current create_object replace_daemon_set desired_daemon_set current_daemon_set
  ensure_daemon_set s sesame_image envoy_image =
      let desired = desired_daemon_set s sesame_image envoy_image in
      on_current daemon_sets (current_daemon_set cli s) desired
        (λ current. replace_daemon_set s current desired) (create_object daemon_sets desired)
