-- ===== src/Status/Safety.antt =====
-- Of the cluster, the synchronisation of a status writes statuses alone.
use sesame_operator.Prelude.{ℕ, zero, suc, String, List}
use sesame_operator.Errors.{ClientError, Err}
use sesame_operator.Errors.Retryable.{NewAggregate}
use sesame_operator.Api.{Sesame}
use sesame_operator.Cluster.{Exec, Client}
use sesame_operator.Cluster.Keeps.{
  Harmless, Keeps, keeps_rules, Keeps-bind, Keeps-call, Keeps-if, Keeps-lift, Keeps-on_answer,
  Keeps-try,
}
use sesame_operator.Equality.{Semantic}
use sesame_operator.Workloads.{current_deployment, current_daemon_set}
use sesame_operator.Status.Sync.{
  finish, status_failed, write_status, sync_latest, sync_sesame, read_clock,
}

-- What the synchronisation does to the cluster, and `P` still holds.
pub record ReadsAndStatuses {C : Type 0} (P : C → Type 0) (cli : Client C) : Type 0 where
  pub sesames : (ns name : String) → Harmless P (cli.sesames.get ns name)
  pub deployments : (ns name : String) → Harmless P (cli.deployments.get ns name)
  pub daemon_sets : (ns name : String) → Harmless P (cli.daemon_sets.get ns name)
  pub statuses : (o : Sesame) → Harmless P (cli.update_status o)

module _ {C : Type 0} (cli : Client C) (eq : Semantic) (new_aggregate : NewAggregate)
    (to_lower : String → String) (clock : C → ℕ) {P : C → Type 0} (g : ReadsAndStatuses P cli) where
  pub finish-Keeps : (errs : List Err) → Keeps P (finish cli eq new_aggregate to_lower clock errs)
  unfolding finish
  finish-Keeps errs = Keeps-lift _

  read_clock-Keeps : Keeps P (read_clock cli eq new_aggregate to_lower clock)
  unfolding read_clock
  read_clock-Keeps = record { at = λ c h. h }

  module _ (again : Sesame → Exec C Unit) (more : (s : Sesame) → Keeps P (again s)) where
    status_failed-Keeps :
        (errs : List Err) (latest updated : Sesame) (e : ClientError)
        → Keeps P (status_failed cli eq new_aggregate to_lower clock again errs latest updated e)
    unfolding status_failed
    status_failed-Keeps errs latest updated e =
        search (Keeps-if, Keeps-bind, Keeps-try, more, finish-Keeps)

    write_status-Keeps :
        (errs : List Err) (latest updated : Sesame)
        → Keeps P (write_status cli eq new_aggregate to_lower clock again errs latest updated)
    unfolding write_status
    write_status-Keeps errs latest updated = search (
      Keeps-if, Keeps-bind, Keeps-call, Keeps-on_answer, g.statuses, finish-Keeps,
      status_failed-Keeps,
    )

    sync_latest-Keeps :
        (latest : Sesame) → Keeps P (sync_latest cli eq new_aggregate to_lower clock again latest)
    unfolding sync_latest current_deployment current_daemon_set
    sync_latest-Keeps latest = Keeps-bind _ _ (Keeps-call (g.deployments _ _)) λ deploy.
        Keeps-bind _ _ (Keeps-call (g.daemon_sets _ _))
          λ ds. Keeps-bind _ _ read_clock-Keeps (λ now. write_status-Keeps _ latest _)

  -- Whatever the synchronisation meets, and on any fuel, it keeps each property that the reads of the
  -- sesame, the deployment and the daemon set, and updates of a status, keep.
  pub sync_sesame-Keeps :
      (fuel : ℕ) (s : Sesame) → Keeps P (sync_sesame cli eq new_aggregate to_lower clock fuel s)
  unfolding sync_sesame
  sync_sesame-Keeps zero s = Keeps-lift _
  sync_sesame-Keeps (suc fuel) s = Keeps-bind _ _ (Keeps-call (g.sesames _ _)) λ found.
      Keeps-on_answer _ _ found
        (λ latest.
          sync_latest-Keeps (sync_sesame cli eq new_aggregate to_lower clock fuel)
            (sync_sesame-Keeps fuel) latest)
        (λ e. search keeps_rules)
