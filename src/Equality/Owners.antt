-- ===== src/Equality/Owners.antt =====
-- No comparison takes the owner labels away: what it answers with has those of the current or of
-- the expected object.
use sesame_operator.Prelude.{
  Bool, true, false, Option, none, some, StringMap, ◌≡◌, sym, arith, if◌then◌else◌, Bool-cases, inl,
  inr,
}
use sesame_operator.Api.{Sesame}
use sesame_operator.Labels.{Owned}
use sesame_operator.Owned.Ensure.{KeepsOwner}
use sesame_operator.Equality.{DeepEqual, Semantic, pick}
use sesame_operator.Equality.Objects.{
  daemonset_config_changed, job_config_changed, deployment_config_changed, cfg_map_changed,
  service_account_config_changed, cluster_role_config_changed, cluster_role_binding_config_changed,
  role_config_changed, role_binding_config_changed,
}

module _ (s : Sesame) where
  picked-Owned :
      (d : DeepEqual (Option StringMap)) (a b : Option StringMap)
      → Owned s a
      → Owned s b
      → Owned s (pick d a b)
  picked-Owned d a b p q = elim (Bool-cases (d.equal a b)) [ inl e ↦ rw e p | inr e ↦ rw e q ]

  -- Where the answer is one object, it is enough that this one is owned.
  answered-Owned :
      {K : Type 0} (labels_of : K → Option StringMap) (test : Bool) (o updated : K)
      → (if test then some o else none) ≡ some updated
      → Owned s (labels_of o)
      → Owned s (labels_of updated)
  answered-Owned labels_of true o updated h owned =
      let e : o ≡ updated = ground arith in rw (sym e) owned
  answered-Owned labels_of false o updated h owned = cc

module _ (eq : Semantic) where
  pub daemonset_config_changed-KeepsOwner : KeepsOwner (λ d. d.labels) (daemonset_config_changed eq)
  unfolding daemonset_config_changed
  daemonset_config_changed-KeepsOwner = record {
    owner = λ s a b u h p q.
        answered-Owned s (λ o. o.labels) _ _ u h (picked-Owned s eq.labels a.labels b.labels p q);
  }

  pub job_config_changed-KeepsOwner : KeepsOwner (λ j. j.labels) (job_config_changed eq)
  unfolding job_config_changed
  job_config_changed-KeepsOwner = record {
    owner = λ s a b u h p q. answered-Owned s (λ o. o.labels) _ b u h q;
  }

  pub deployment_config_changed-KeepsOwner :
      KeepsOwner (λ d. d.labels) (deployment_config_changed eq)
  unfolding deployment_config_changed
  deployment_config_changed-KeepsOwner = record {
    owner = λ s a b u h p q. answered-Owned s (λ o. o.labels) _ b u h q;
  }

  pub cfg_map_changed-KeepsOwner : KeepsOwner (λ m. m.labels) (cfg_map_changed eq)
  unfolding cfg_map_changed
  cfg_map_changed-KeepsOwner = record {
    owner = λ s a b u h p q. answered-Owned s (λ o. o.labels) _ _ u h p;
  }

  pub service_account_config_changed-KeepsOwner :
      KeepsOwner (λ a. a.labels) (service_account_config_changed eq)
  unfolding service_account_config_changed
  service_account_config_changed-KeepsOwner = record {
    owner = λ s a b u h p q. answered-Owned s (λ o. o.labels) _ b u h q;
  }

  pub cluster_role_config_changed-KeepsOwner :
      KeepsOwner (λ r. r.labels) (cluster_role_config_changed eq)
  unfolding cluster_role_config_changed
  cluster_role_config_changed-KeepsOwner = record {
    owner = λ s a b u h p q.
        answered-Owned s (λ o. o.labels) _ _ u h (picked-Owned s eq.labels a.labels b.labels p q);
  }

  pub cluster_role_binding_config_changed-KeepsOwner :
      KeepsOwner (λ r. r.labels) (cluster_role_binding_config_changed eq)
  unfolding cluster_role_binding_config_changed
  cluster_role_binding_config_changed-KeepsOwner = record {
    owner = λ s a b u h p q.
        answered-Owned s (λ o. o.labels) _ _ u h (picked-Owned s eq.labels a.labels b.labels p q);
  }

  pub role_config_changed-KeepsOwner : KeepsOwner (λ r. r.labels) (role_config_changed eq)
  unfolding role_config_changed
  role_config_changed-KeepsOwner = record {
    owner = λ s a b u h p q.
        answered-Owned s (λ o. o.labels) _ _ u h (picked-Owned s eq.labels a.labels b.labels p q);
  }

  pub role_binding_config_changed-KeepsOwner :
      KeepsOwner (λ r. r.labels) (role_binding_config_changed eq)
  unfolding role_binding_config_changed
  role_binding_config_changed-KeepsOwner = record {
    owner = λ s a b u h p q.
        answered-Owned s (λ o. o.labels) _ _ u h (picked-Owned s eq.labels a.labels b.labels p q);
  }
