-- ===== src/Access/Comparisons.antt =====
-- The comparisons of access rules in internal/equality/equality.go: they keep the name, and find nothing
-- when they are made again.
use sesame_operator.Prelude.{refl, ap, ◌∙◌}
use sesame_operator.Kube.{ServiceAccount, Role, RoleBinding, ClusterRole, ClusterRoleBinding}
use sesame_operator.Owned.Settles.{Settling}
use sesame_operator.Owned.Tables.{KeepsKey}
use sesame_operator.World.{
  account_key, cluster_role_key, cluster_role_binding_key, role_key, role_binding_key,
}
use sesame_operator.Equality.{Semantic}
use sesame_operator.Equality.Settles.{picked, the_answer}
use sesame_operator.Equality.Objects.{
  service_account_config_changed, cluster_role_config_changed, cluster_role_binding_config_changed,
  role_config_changed, role_binding_config_changed,
}

module _ (eq : Semantic) where
  pub accounts-Settling : (b : ServiceAccount) → Settling (service_account_config_changed eq) b
  unfolding service_account_config_changed
  accounts-Settling b = record {
    same = rw (eq.labels.equal_refl b.labels) refl;
    answered = λ a u h. rw (the_answer _ _ h, eq.labels.equal_refl b.labels) refl;
  }

  pub cluster_roles-Settling : (b : ClusterRole) → Settling (cluster_role_config_changed eq) b
  unfolding cluster_role_config_changed
  cluster_roles-Settling b = record {
    same = rw (eq.labels.equal_refl b.labels, eq.rules.equal_refl b.rules) refl;
    answered = λ a u h. rw (the_answer _ _ h, picked eq.labels, picked eq.rules) refl;
  }

  pub cluster_role_bindings-Settling :
      (b : ClusterRoleBinding) → Settling (cluster_role_binding_config_changed eq) b
  unfolding cluster_role_binding_config_changed
  cluster_role_bindings-Settling b = record {
    same =
        rw
          (
            eq.labels.equal_refl b.labels,
            eq.subjects.equal_refl b.subjects,
            eq.role_ref.equal_refl b.role_ref,
          )
          refl;
    answered = λ a u h.
        rw (the_answer _ _ h, picked eq.labels, picked eq.subjects, picked eq.role_ref) refl;
  }

  pub roles-Settling : (b : Role) → Settling (role_config_changed eq) b
  unfolding role_config_changed
  roles-Settling b = record {
    same = rw (eq.labels.equal_refl b.labels, eq.rules.equal_refl b.rules) refl;
    answered = λ a u h. rw (the_answer _ _ h, picked eq.labels, picked eq.rules) refl;
  }

  pub role_bindings-Settling : (b : RoleBinding) → Settling (role_binding_config_changed eq) b
  unfolding role_binding_config_changed
  role_bindings-Settling b = record {
    same =
        rw
          (
            eq.labels.equal_refl b.labels,
            eq.subjects.equal_refl b.subjects,
            eq.role_ref.equal_refl b.role_ref,
          )
          refl;
    answered = λ a u h.
        rw (the_answer _ _ h, picked eq.labels, picked eq.subjects, picked eq.role_ref) refl;
  }

  pub account-KeepsKey : KeepsKey account_key (service_account_config_changed eq)
  unfolding service_account_config_changed
  account-KeepsKey a b u h same = ap account_key (the_answer _ _ h)

  pub cluster_role-KeepsKey : KeepsKey cluster_role_key (cluster_role_config_changed eq)
  unfolding cluster_role_config_changed
  cluster_role-KeepsKey a b u h same = ap cluster_role_key (the_answer _ _ h) ∙ same

  pub cluster_role_binding-KeepsKey :
      KeepsKey cluster_role_binding_key (cluster_role_binding_config_changed eq)
  unfolding cluster_role_binding_config_changed
  cluster_role_binding-KeepsKey a b u h same = ap cluster_role_binding_key (the_answer _ _ h) ∙ same

  pub role-KeepsKey : KeepsKey role_key (role_config_changed eq)
  unfolding role_config_changed
  role-KeepsKey a b u h same = ap role_key (the_answer _ _ h) ∙ same

  pub role_binding-KeepsKey : KeepsKey role_binding_key (role_binding_config_changed eq)
  unfolding role_binding_config_changed
  role_binding-KeepsKey a b u h same = ap role_binding_key (the_answer _ _ h) ∙ same
