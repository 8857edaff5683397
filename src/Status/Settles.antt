-- ===== src/Status/Settles.antt =====
-- The status synchronisation settles: what it wrote it does not write again.
use sesame_operator.Prelude.{
  ℕ, String, true, false, List, ◌++◌, ◌≡◌, refl, NoDup, Option, none, some, nat_eq, nat_eq_iff,
}
use sesame_operator.Errors.Retryable.{NewAggregate}
use sesame_operator.Api.{Sesame, SesameStatus}
use sesame_operator.Kube.{Deployment, DaemonSet}
use sesame_operator.Cluster.{Answer, Exec, Client, call, ◌>>=◌}
use sesame_operator.Equality.{Semantic, sesame_status_changed}
use sesame_operator.Workloads.{current_deployment, current_daemon_set}
use sesame_operator.Status.Merge.{types, merge_conditions_stable}
use sesame_operator.Status.Sync.{
  updated_sesame, found_object, get_error, finish, read_clock, write_status, sync_latest,
}

nat_eq_refl : (n : ℕ) → nat_eq n n ≡ true
nat_eq_refl n = (nat_eq_iff n n).1 refl

status_unchanged : (eq : Semantic) (s : SesameStatus) → sesame_status_changed eq s s ≡ false
unfolding sesame_status_changed
status_unchanged eq s = rw (
  nat_eq_refl s.available_sesames,
  nat_eq_refl s.available_envoys,
  eq.conditions.equal_refl s.conditions,
)

updated_again :
    (to_lower : String → String) (now later : ℕ) (latest : Sesame) (deploy : Option Deployment)
    (ds : Option DaemonSet)
    → NoDup (types latest.status.conditions)
    → updated_sesame to_lower later (updated_sesame to_lower now latest deploy ds) deploy ds
      ≡ updated_sesame to_lower now latest deploy ds
unfolding updated_sesame
updated_again to_lower now later latest none none h =
    rw (merge_conditions_stable now later _ latest.status.conditions h)
updated_again to_lower now later latest none (some ds) h =
    rw (merge_conditions_stable now later _ latest.status.conditions h)
updated_again to_lower now later latest (some d) none h =
    rw (merge_conditions_stable now later _ latest.status.conditions h)
updated_again to_lower now later latest (some d) (some ds) h =
    rw (merge_conditions_stable now later _ latest.status.conditions h)

module _ {C : Type 0} (cli : Client C) (eq : Semantic) (new_aggregate : NewAggregate)
    (to_lower : String → String) (clock : C → ℕ) where
  write_status_same :
      (again : Sesame → Exec C Unit) (errs : List _) (s : Sesame) (c : C)
      → write_status cli eq new_aggregate to_lower clock again errs s s c
        ≡ finish cli eq new_aggregate to_lower clock errs c
  unfolding write_status
  write_status_same again errs s c = rw (status_unchanged eq s.status)

  -- If `written` is the object that the synchronisation computes from `latest`, whose condition
  -- types are distinct, and from the answers for its deployment and its daemon set, and if these
  -- answer with the same again, then the synchronisation of `written` makes no further call: it
  -- ends as the errors of these answers say, whatever the time is.
  pub sync_latest_settled :
      (again : Sesame → Exec C Unit) (now : ℕ) (latest written : Sesame)
      (deploy : Answer Deployment) (ds : Answer DaemonSet) (c c' c'' : C)
      → NoDup (types latest.status.conditions)
      → written ≡ updated_sesame to_lower now latest (found_object deploy) (found_object ds)
      → current_deployment cli written c ≡ (deploy, c')
      → current_daemon_set cli written c' ≡ (ds, c'')
      → sync_latest cli eq new_aggregate to_lower clock again written c
        ≡ finish cli eq new_aggregate to_lower clock
            (get_error "deployment" written deploy ++ get_error "daemonset" written ds)
            c''
  unfolding sync_latest ◌>>=◌ call read_clock
  sync_latest_settled again now latest written deploy ds c c' c'' distinct is_written d e =
      let same : updated_sesame to_lower (clock c'') written (found_object deploy) (found_object ds)
          ≡ written =
        rw is_written (updated_again to_lower now _ latest _ _ distinct) in
      rw (d, e, same) (write_status_same again _ written c'')
