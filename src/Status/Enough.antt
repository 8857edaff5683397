-- ===== src/Status/Enough.antt =====
-- How often `SyncSesame` can call itself: each call follows a conflict with another writer.
use sesame_operator.Prelude.{
  ℕ, zero, suc, ◌<◌, ◌≤◌, String, Bool, true, false, List, ◌≡◌, refl, ◌≢◌, arith, Option, none,
  some, Bool-cases, inl, inr, if◌then◌else◌,
}
use sesame_operator.Errors.{ClientError, Err, Result, ok, err, panic, unfinished, client}
use sesame_operator.Errors.Retryable.{NewAggregate}
use sesame_operator.Api.{Sesame}
use sesame_operator.Cluster.{
  Answer, answer, failed, Exec, Client, pure, fail, lift, call, try, ◌>>=◌, on_answer, continue,
  caught,
}
use sesame_operator.Equality.{Semantic, sesame_status_changed}
use sesame_operator.Workloads.{current_deployment, current_daemon_set}
use sesame_operator.Status.Sync.{
  is_modified, finish, status_failed, write_status, sync_latest, sync_sesame, sync_error, returned,
  read_clock,
}

module _ {C : Type 0} (cli : Client C) (rivals : C → ℕ) where
  -- `rivals` bounds how often other writers still come between: a call does not raise it, and a
  -- status update that fails by a conflict lowers it.
  pub record IsBounded : Type 0 where
    pub sesames : (ns name : String) (c : C) → rivals (cli.sesames.get ns name c).1 ≤ rivals c
    pub deployments :
        (ns name : String) (c : C) → rivals (cli.deployments.get ns name c).1 ≤ rivals c
    pub daemon_sets :
        (ns name : String) (c : C) → rivals (cli.daemon_sets.get ns name c).1 ≤ rivals c
    pub conflicts :
        (s : Sesame) (c : C) (e : ClientError)
        → (cli.update_status s c).0 ≡ failed e
        → is_modified e ≡ true
        → rivals (cli.update_status s c).1 < rivals c

  reads_deployment :
      IsBounded → (s : Sesame) (c : C) → rivals (current_deployment cli s c).1 ≤ rivals c
  unfolding current_deployment
  reads_deployment b s c = b.deployments _ _ c

  reads_daemon_set :
      IsBounded → (s : Sesame) (c : C) → rivals (current_daemon_set cli s c).1 ≤ rivals c
  unfolding current_daemon_set
  reads_daemon_set b s c = b.daemon_sets _ _ c

abbrev Finishes : {C A : Type 0} → Exec C A → C → Type 0
Finishes m c = (m c).0 ≢ unfinished

if-Finishes :
    {C A : Type 0} (b : Bool) (m n : Exec C A) (c : C)
    → Finishes m c
    → Finishes n c
    → Finishes (if b then m else n) c
if-Finishes true m n c hm hn = hm
if-Finishes false m n c hm hn = hn

returned-Finishes : (o : Option _) → returned o ≢ unfinished
returned-Finishes none = λ h. cc
returned-Finishes (some e) = λ h. cc

module _ {C : Type 0} (cli : Client C) (eq : Semantic) (new_aggregate : NewAggregate)
    (to_lower : String → String) (clock : C → ℕ) where
  finish-Finishes :
      (errs : List _) (c : C) → Finishes (finish cli eq new_aggregate to_lower clock errs) c
  unfolding finish lift
  finish-Finishes errs c = returned-Finishes _

  caught-Finishes :
      (r : Result Unit) (f : Option Err → List Err) (c : C)
      → r ≢ unfinished
      → Finishes
          (continue (caught r) (λ result. finish cli eq new_aggregate to_lower clock (f result)))
          c
  unfolding continue
  caught-Finishes (ok a) f c h = finish-Finishes _ c
  caught-Finishes (err e) f c h = finish-Finishes _ c
  caught-Finishes panic f c h = λ p. cc
  caught-Finishes unfinished f c h = absurd (h refl)

  status_failed-Finishes :
      (again : Sesame → Exec C Unit) (errs : List _) (latest updated : Sesame) (e : ClientError)
      (c : C)
      → (is_modified e ≡ true → Finishes (again updated) c)
      → Finishes (status_failed cli eq new_aggregate to_lower clock again errs latest updated e) c
  unfolding status_failed ◌>>=◌ try
  status_failed-Finishes again errs latest updated e c h = elim (Bool-cases e.is_not_found) [
    | inl gone ↦ rw gone (finish-Finishes _ c)
    | inr there ↦ elim (Bool-cases (is_modified e)) [
      | inl m ↦ rw (there, m) (caught-Finishes _ _ _ (h m))
      | inr m ↦ rw (there, m) (finish-Finishes _ c)
    ]
  ]

  -- The answer to the status update, where the recursive calls end that start below `n` rivals.
  module _ (rivals : C → ℕ) (n : ℕ) (again : Sesame → Exec C Unit)
      (ends : (s : Sesame) (c : C) → rivals c < n → Finishes (again s) c) where
    written-Finishes :
        (errs : List _) (latest updated : Sesame) (written : Answer Unit) (c : C)
        → ((e : ClientError) → written ≡ failed e → is_modified e ≡ true → rivals c < n)
        → Finishes
            (on_answer
              (λ _. finish cli eq new_aggregate to_lower clock errs)
              (status_failed cli eq new_aggregate to_lower clock again errs latest updated)
              written)
            c
    unfolding on_answer
    written-Finishes errs latest updated (answer a) c h = finish-Finishes errs c
    written-Finishes errs latest updated (failed e) c h =
        status_failed-Finishes again errs latest updated e c (λ m. ends updated c (h e refl m))

    write_status-Finishes :
        IsBounded cli rivals
        → (errs : List _) (latest updated : Sesame) (c : C) → rivals c ≤ n
        → Finishes (write_status cli eq new_aggregate to_lower clock again errs latest updated) c
    unfolding write_status ◌>>=◌ call
    write_status-Finishes b errs latest updated c h =
        elim (Bool-cases (sesame_status_changed eq latest.status updated.status)) [
          | inl e ↦ rw e (
              written-Finishes errs latest updated _ _
                (λ failure w m. let lower = b.conflicts updated c failure w m in omega arith))
          | inr e ↦ rw e (finish-Finishes errs c)
        ]

    sync_latest-Finishes :
        IsBounded cli rivals
        → (latest : Sesame) (c : C) → rivals c ≤ n
        → Finishes (sync_latest cli eq new_aggregate to_lower clock again latest) c
    unfolding sync_latest ◌>>=◌ read_clock call
    sync_latest-Finishes b latest c h =
        let c1 : C = (current_deployment cli latest c).1 in
        let one : rivals c1 ≤ rivals c = reads_deployment cli rivals b latest c in
        let two : rivals (current_daemon_set cli latest c1).1 ≤ rivals c1 =
          reads_daemon_set cli rivals b latest c1 in
        write_status-Finishes b _ latest _ _ (omega arith)

  found-Finishes :
      (rivals : C → ℕ) (fuel : ℕ) (s : Sesame) (found : Answer Sesame) (c : C)
      → ((latest : Sesame)
          → Finishes
              (sync_latest cli eq new_aggregate to_lower clock
                (sync_sesame cli eq new_aggregate to_lower clock fuel)
                latest)
              c)
      → Finishes
          (on_answer
            (sync_latest cli eq new_aggregate to_lower clock
              (sync_sesame cli eq new_aggregate to_lower clock fuel))
            (λ e. if e.is_not_found then pure tt else fail (sync_error "get" s "" (client e)))
            found)
          c
  unfolding on_answer pure fail
  found-Finishes rivals fuel s (answer latest) c h = h latest
  found-Finishes rivals fuel s (failed e) c h =
      if-Finishes e.is_not_found (pure tt) (fail _) c (λ p. cc) (λ p. cc)

  -- If `rivals` bounds the conflicts that can still come, then on more fuel than `rivals` of the state
  -- the synchronisation does not run out of it: it returns, with or without an error, or panics.
  pub sync_sesame-Finishes :
      (rivals : C → ℕ)
      → IsBounded cli rivals
      → (fuel : ℕ) (s : Sesame) (c : C) → rivals c < fuel
      → (sync_sesame cli eq new_aggregate to_lower clock fuel s c).0 ≢ unfinished
  unfolding sync_sesame ◌>>=◌
  sync_sesame-Finishes rivals b zero s c h = absurd (omega arith)
  sync_sesame-Finishes rivals b (suc fuel) s c h = found-Finishes rivals fuel s _ _ (λ latest.
      let read = b.sesames s.namespace s.name c in
      sync_latest-Finishes rivals fuel _ (sync_sesame-Finishes rivals b fuel) b latest _
        (omega arith))
