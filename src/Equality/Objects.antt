-- ===== src/Equality/Objects.antt =====
-- The comparisons of workloads, service accounts and access rules in internal/equality/equality.go,
-- and that of config maps in internal/objects/configmap/configmap.go.
use sesame_operator.Prelude.{
  String, Bool, true, false, not, ◌||◌, Option, none, some, StringMap, lookup, if◌then◌else◌,
}
use sesame_operator.Api.{owning_sesame_name_label, owning_sesame_ns_label}
use sesame_operator.Kube.{
  Deployment, DaemonSet, Job, ConfigMap, ServiceAccount, Role, RoleBinding, ClusterRole,
  ClusterRoleBinding,
}
use sesame_operator.Equality.{Semantic, pick, differ}

abbrev has_key : Option String → Bool
has_key none = false
has_key (some _) = true

-- The test of the template's labels: where there are any, both owner labels are among them.
unfoldable pub owner_keys_missing : Option StringMap → Bool
owner_keys_missing none = false
owner_keys_missing (some labels) =
    not (has_key (lookup owning_sesame_name_label labels))
    || not (has_key (lookup owning_sesame_ns_label labels))

module _ (eq : Semantic) where
  unfoldable pub daemonset_config_changed : DaemonSet → DaemonSet → Option DaemonSet
  daemonset_config_changed current expected =
      if differ eq.labels current.labels expected.labels
        || differ eq.daemon_set_spec current.spec expected.spec
      then some (record current {
        labels = pick eq.labels current.labels expected.labels;
        spec = pick eq.daemon_set_spec current.spec expected.spec;
      })
      else none

  unfoldable pub daemon_set_selectors_differ : DaemonSet → DaemonSet → Bool
  daemon_set_selectors_differ current expected =
      differ eq.selector current.spec.selector expected.spec.selector

  unfoldable pub job_config_changed : Job → Job → Option Job
  unfolding owner_keys_missing
  job_config_changed current expected =
      if differ eq.labels current.labels expected.labels
        || differ eq.count current.spec.parallelism expected.spec.parallelism
        || differ eq.count current.spec.backoff_limit expected.spec.backoff_limit
        || owner_keys_missing current.spec.template.labels
        || differ eq.pod_spec current.spec.template.spec expected.spec.template.spec
      then some expected
      else none

  unfoldable pub deployment_config_changed : Deployment → Deployment → Option Deployment
  deployment_config_changed current expected =
      if differ eq.labels current.labels expected.labels
        || differ eq.deployment_spec current.spec expected.spec
      then some expected
      else none

  unfoldable pub deployment_selectors_differ : Deployment → Deployment → Bool
  deployment_selectors_differ current expected =
      differ eq.selector current.spec.selector expected.spec.selector

  unfoldable pub service_account_config_changed :
      ServiceAccount → ServiceAccount → Option ServiceAccount
  service_account_config_changed current expected =
      if differ eq.labels current.labels expected.labels then some expected else none

  unfoldable pub cluster_role_config_changed : ClusterRole → ClusterRole → Option ClusterRole
  cluster_role_config_changed current expected =
      if differ eq.labels current.labels expected.labels
        || differ eq.rules current.rules expected.rules
      then some (record current {
        labels = pick eq.labels current.labels expected.labels;
        rules = pick eq.rules current.rules expected.rules;
      })
      else none

  unfoldable pub cluster_role_binding_config_changed :
      ClusterRoleBinding → ClusterRoleBinding → Option ClusterRoleBinding
  cluster_role_binding_config_changed current expected =
      if differ eq.labels current.labels expected.labels
        || differ eq.subjects current.subjects expected.subjects
        || differ eq.role_ref current.role_ref expected.role_ref
      then some (record current {
        labels = pick eq.labels current.labels expected.labels;
        subjects = pick eq.subjects current.subjects expected.subjects;
        role_ref = pick eq.role_ref current.role_ref expected.role_ref;
      })
      else none

  unfoldable pub role_config_changed : Role → Role → Option Role
  role_config_changed current expected =
      if differ eq.labels current.labels expected.labels
        || differ eq.rules current.rules expected.rules
      then some (record current {
        labels = pick eq.labels current.labels expected.labels;
        rules = pick eq.rules current.rules expected.rules;
      })
      else none

  unfoldable pub role_binding_config_changed : RoleBinding → RoleBinding → Option RoleBinding
  role_binding_config_changed current expected =
      if differ eq.labels current.labels expected.labels
        || differ eq.subjects current.subjects expected.subjects
        || differ eq.role_ref current.role_ref expected.role_ref
      then some (record current {
        labels = pick eq.labels current.labels expected.labels;
        subjects = pick eq.subjects current.subjects expected.subjects;
        role_ref = pick eq.role_ref current.role_ref expected.role_ref;
      })
      else none

  -- `cfgMapChanged`, whose first result is whether there is an answer.
  unfoldable pub cfg_map_changed : ConfigMap → ConfigMap → Option ConfigMap
  cfg_map_changed current expected =
      if differ eq.string_map current.contents expected.contents
      then some (record current { contents = expected.contents })
      else none
