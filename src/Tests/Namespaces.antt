-- ===== src/Tests/Namespaces.antt =====
-- The deletion of namespaces at work: a core namespace, and one that two sesames share.
use sesame_operator.Prelude.{ℕ, true, [], ◌∷◌, some, ◌≡◌, refl, inl, inr}
use sesame_operator.Errors.{ok}
use sesame_operator.Api.{Sesame}
use sesame_operator.Kube.{Namespace}
use sesame_operator.Labels.{owner_labels, owner_labels-Owned}
use sesame_operator.Cluster.{Client, answer}
use sesame_operator.Sesames.{new}
use sesame_operator.Sesames.Others.{IsRival}
use sesame_operator.Namespaces.{is_core, current_spec_ns_name, ensure_namespace_deleted}
use sesame_operator.Namespaces.Safety.{ensure_namespace_deleted_shared}
use sesame_operator.Tests.Samples.{cluster, sample, other_sesame, reads}

abbrev in_default : Sesame
in_default = record sample {
  spec = record sample.spec { namespace = record { name = "default"; remove_on_deletion = true } };
}

abbrev own_namespace : Namespace
own_namespace = record {
  name = "projectsesame";
  labels = some (owner_labels sample);
  resource_version = "1";
}

abbrev shared_cluster : Client ℕ
shared_cluster = record cluster { namespaces = reads (answer own_namespace) }

rival : IsRival sample other_sesame
unfolding new
rival = record { other = λ (a, b). cc; shares = refl }

ensure_namespace_deleted_shared_example :
    ensure_namespace_deleted shared_cluster sample 7 ≡ (ok true, 7)
unfolding new is_core current_spec_ns_name
ensure_namespace_deleted_shared_example =
    ensure_namespace_deleted_shared shared_cluster sample 7 7 7 own_namespace
      (sample ∷ other_sesame ∷ []) refl refl refl (owner_labels-Owned sample) refl
      (sample, inl refl, (refl, refl)) (other_sesame, inr (inl refl), rival)
