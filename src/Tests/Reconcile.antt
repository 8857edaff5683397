-- ===== src/Tests/Reconcile.antt =====
-- The status and the reconciliation at work, on the cluster of the samples.
use sesame_operator.Prelude.{
  true, ℕ, ◌<◌, suc, zero, String, [], ◌∷◌, some, ◌≡◌, refl, ◌≢◌, ◌↔◌, NoDup, arith, inl, inr,
}
use sesame_operator.Errors.{ok, unfinished, Err, message}
use sesame_operator.Api.{Condition, Sesame}
use sesame_operator.Cluster.{answer, failed, ◌>>=◌, on_answer}
use sesame_operator.Status.{available, merge_conditions}
use sesame_operator.Status.Merge.{
  types, merged, merge_conditions_lem, merge_conditions-NoDup, merge_conditions_stable,
}
use sesame_operator.Status.Sync.{updated_sesame, finish, sync_latest, sync_sesame}
use sesame_operator.Status.Enough.{IsBounded, sync_sesame-Finishes}
use sesame_operator.Status.Settles.{sync_latest_settled}
use sesame_operator.Workloads.{
  current_deployment, current_daemon_set, ensure_deployment_deleted, ensure_daemon_set_deleted,
}
use sesame_operator.Labels.{exist}
use sesame_operator.Namespaces.{ensure_namespace, create_namespace, ensure_namespace_deleted}
use sesame_operator.Services.Ensure.{ensure_sesame_service_deleted, ensure_envoy_service_deleted}
use sesame_operator.Sesames.{new, ensure_finalizer_removed}
use sesame_operator.Controller.{
  handle_all, handle_result, base_steps, deletion_steps, sesame_error, has_envoy_service,
  ensure_sesame_deleted,
}
use sesame_operator.Controller.{reconcile, requeue_after}
use sesame_operator.Controller.Retries.{reconcile_never_requeues}
use sesame_operator.Controller.Steps.{Succeed, ensure_sesame_deleted_iff}
use sesame_operator.Tests.Semantic.{semantic}
use sesame_operator.Tests.Samples.{
  cluster, sample, new_aggregate, filters, to_lower, clock, objects, config, deployment, daemon_set,
  conflicting,
}

abbrev old : Condition
old = available "False" "SesameUnavailable" "none"

abbrev now_up : Condition
now_up = available "True" "SesameAvailable" "all"

abbrev progressing : Condition
progressing = record old { type = "Progressing" }

distinct_types : NoDup (types (progressing ∷ old ∷ []))
distinct_types = ((λ m. elim m [ inl e ↦ cc | inr n ↦ n ]), ((λ n. n), tt))

merge_conditions_lem_example :
    merge_conditions 5 (progressing ∷ old ∷ []) (now_up ∷ [])
    ≡ merged 5 now_up (progressing ∷ old ∷ [])
merge_conditions_lem_example = merge_conditions_lem 5 now_up (progressing ∷ old ∷ []) distinct_types

merge_conditions-NoDup_example :
    NoDup (types (merge_conditions 5 (progressing ∷ old ∷ []) (now_up ∷ [])))
merge_conditions-NoDup_example =
    merge_conditions-NoDup 5 now_up (progressing ∷ old ∷ []) distinct_types

merge_conditions_stable_example :
    merge_conditions 9 (merge_conditions 5 (progressing ∷ old ∷ []) (now_up ∷ [])) (now_up ∷ [])
    ≡ merge_conditions 5 (progressing ∷ old ∷ []) (now_up ∷ [])
merge_conditions_stable_example =
    merge_conditions_stable 5 9 now_up (progressing ∷ old ∷ []) distinct_types

conflicts_lower :
    (s : Sesame) (c : ℕ) (e : _) → (conflicting s c).0 ≡ failed e → (conflicting s c).1 < c
conflicts_lower s zero e h = cc
conflicts_lower s (suc n) e h = omega arith

bounded : IsBounded cluster (λ c. c)
bounded = record {
  sesames = λ ns name c. omega arith;
  deployments = λ ns name c. omega arith;
  daemon_sets = λ ns name c. omega arith;
  conflicts = λ s c e h m. conflicts_lower s c e h;
}

sync_sesame-Finishes_example :
    (sync_sesame cluster semantic new_aggregate to_lower clock 3 sample 2).0 ≢ unfinished
sync_sesame-Finishes_example =
    sync_sesame-Finishes cluster semantic new_aggregate to_lower clock (λ c. c) bounded 3 sample 2
      (omega arith)

abbrev written : Sesame
written = updated_sesame to_lower 5 sample (some deployment) (some daemon_set)

sync_latest_settled_example :
    sync_latest cluster semantic new_aggregate to_lower clock
      (sync_sesame cluster semantic new_aggregate to_lower clock 3)
      written
      2
    ≡ finish cluster semantic new_aggregate to_lower clock [] 2
unfolding new current_deployment current_daemon_set
sync_latest_settled_example =
    sync_latest_settled cluster semantic new_aggregate to_lower clock
      (sync_sesame cluster semantic new_aggregate to_lower clock 3) 5 sample written
      (answer deployment) (answer daemon_set) 2 2 2 tt refl refl refl

abbrev rules_error : String → Err
rules_error what = sesame_error what sample (message "no rules")

base_fails :
    handle_all "ensure" sample
      (base_steps cluster objects semantic new_aggregate to_lower clock config 3 sample)
      []
      0
    ≡ (ok (rules_error "ensure rbac for" ∷ []), 0)
unfolding handle_all handle_result ◌>>=◌ on_answer ensure_namespace create_namespace
base_fails = refl

deletion_fails :
    handle_all "delete" sample
      (deletion_steps cluster objects semantic new_aggregate to_lower clock config 3 sample)
      []
      0
    ≡ (ok (rules_error "delete rbac for" ∷ []), 0)
unfolding handle_all handle_result ◌>>=◌ on_answer has_envoy_service new exist
    ensure_envoy_service_deleted ensure_sesame_service_deleted ensure_daemon_set_deleted
    ensure_deployment_deleted ensure_namespace_deleted
deletion_fails = refl

ensure_sesame_deleted_iff_example :
    (ensure_sesame_deleted cluster objects semantic new_aggregate to_lower clock config 3 sample 0
      ≡ (ok tt, 0))
    ↔ ((done : ℕ) × Succeed
          (deletion_steps cluster objects semantic new_aggregate to_lower clock config 3 sample)
          0
          done
        × (ensure_finalizer_removed cluster sample done ≡ (ok tt, 0)))
ensure_sesame_deleted_iff_example =
    ensure_sesame_deleted_iff cluster objects semantic new_aggregate to_lower clock config 3 sample
      0 filters 0

reconcile_never_requeues_example :
    (reconcile cluster objects semantic new_aggregate to_lower clock config 3
      (λ address. true)
      (record { namespace = "sesame-operator"; name = "sesame" })
      0).0
    ≢ ok (requeue_after 30)
reconcile_never_requeues_example =
    reconcile_never_requeues cluster objects semantic new_aggregate to_lower clock config 3 filters
      (λ address. true) (record { namespace = "sesame-operator"; name = "sesame" }) 0 30
