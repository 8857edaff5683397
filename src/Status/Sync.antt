-- ===== src/Status/Sync.antt =====
-- internal/status/status.go: the synchronisation of the status of a `Sesame`. It calls itself where
-- its update conflicts with another writer, so it runs on fuel here: `Status.Enough` says how much
-- is enough.
use sesame_operator.Prelude.{
  ℕ, zero, suc, String, Bool, true, false, List, [], ◌∷◌, ◌++◌, Option, none, some, sprintf, map,
  if◌then◌else◌,
}
use sesame_operator.Errors.{ClientError, Err, Result, ok, err, unfinished, client, wrap}
use sesame_operator.Errors.Retryable.{NewAggregate, new_maybe_retryable_aggregate}
use sesame_operator.Api.{Sesame}
use sesame_operator.Kube.{Deployment, DaemonSet}
use sesame_operator.Cluster.{
  Answer, answer, failed, Exec, Client, pure, fail, lift, call, try, ◌>>=◌, on_answer,
}
use sesame_operator.Equality.{Semantic, sesame_status_changed}
use sesame_operator.Workloads.{current_deployment, current_daemon_set}
use sesame_operator.Status.{compute_sesame_available_condition, merge_conditions}
use text.Mathlib.Text.{find?}

abbrev pub modified_text : String
modified_text = "the object has been modified"

-- `strings.Contains(err.Error(), …)`
abbrev pub is_modified : ClientError → Bool
is_modified e = elim (find? e.text modified_text) [ none ↦ false | some _ ↦ true ]

-- `fmt.Errorf("failed to … sesame %s/%s…: %w", …)`
abbrev pub sync_error : String → Sesame → String → Err → Err
sync_error verb s what =
    wrap (sprintf ("failed to " ∷ verb ∷ " sesame " ∷ s.namespace ∷ "/" ∷ s.name ∷ what ∷ []))

module _ {A : Type 0} where
  -- The object of an answer, nil beside an error.
  abbrev pub found_object : Answer A → Option A
  found_object (answer a) = some a
  found_object (failed e) = none

  -- What is appended to the errors for an answer.
  abbrev pub get_error : String → Sesame → Answer A → List Err
  get_error what s (answer a) = []
  get_error what s (failed e) =
      sync_error (sprintf ("get " ∷ what ∷ " for" ∷ [])) s " status" (client e) ∷ []

-- The computation of `updated` at the time `now`, by the answers for the deployment and the daemon
-- set. `to_lower` is `strings.ToLower`.
unfoldable pub updated_sesame :
    (String → String) → ℕ → Sesame → Option Deployment → Option DaemonSet → Sesame
unfolding merge_conditions compute_sesame_available_condition
updated_sesame to_lower now latest deploy ds = record latest {
  status = record {
    available_sesames = elim deploy [
      | none ↦ latest.status.available_sesames
      | some d ↦ d.available_replicas
    ];
    available_envoys = elim ds [
      | none ↦ latest.status.available_envoys
      | some d ↦ d.number_available
    ];
    conditions =
        merge_conditions now latest.status.conditions
          (compute_sesame_available_condition to_lower deploy ds ∷ []);
  };
}

-- An error that may be nil, as a result.
abbrev pub returned : Option Err → Result (Unit {0})
returned none = ok tt
returned (some e) = err e

-- `clock` is the time that `time.Now` reads.
module _ {C : Type 0} (cli : Client C) (eq : Semantic) (new_aggregate : NewAggregate)
    (to_lower : String → String) (clock : C → ℕ) where
  -- `return retryable.NewMaybeRetryableAggregate(errs)`
  unfoldable pub finish : List Err → Exec C Unit
  unfolding new_maybe_retryable_aggregate
  finish errs = lift (returned (new_maybe_retryable_aggregate new_aggregate (map some errs)))

  unfoldable pub read_clock : Exec C ℕ
  read_clock c = (ok (clock c), c)

  -- The switch on the error of the status update; `again` is the recursive call.
  unfoldable pub status_failed :
      (Sesame → Exec C Unit) → List Err → Sesame → Sesame → ClientError → Exec C Unit
  unfolding finish
  status_failed again errs latest updated e =
      let failure = sync_error "update" latest " status" in
      if e.is_not_found
      then finish errs
      else if is_modified e
      then (do
        result ← try (again updated)
        finish (errs ++ elim result [ none ↦ [] | some e' ↦ failure e' ∷ [] ]))
      else finish (errs ++ failure (client e) ∷ [])

  -- The update of the status, if it changed.
  unfoldable pub write_status : (Sesame → Exec C Unit) → List Err → Sesame → Sesame → Exec C Unit
  unfolding finish
  write_status again errs latest updated =
      if sesame_status_changed eq latest.status updated.status
      then (do
        written ← call (cli.update_status updated)
        on_answer (λ _. finish errs) (status_failed again errs latest updated) written)
      else finish errs

  -- What follows once `latest` is read.
  unfoldable pub sync_latest : (Sesame → Exec C Unit) → Sesame → Exec C Unit
  unfolding current_deployment current_daemon_set
  sync_latest again latest = do
    deploy ← call (current_deployment cli latest)
    ds ← call (current_daemon_set cli latest)
    now ← read_clock
    write_status again (get_error "deployment" latest deploy ++ get_error "daemonset" latest ds)
        latest (updated_sesame to_lower now latest (found_object deploy) (found_object ds))

  unfoldable pub sync_sesame : ℕ → Sesame → Exec C Unit
  unfolding sync_latest
  sync_sesame zero s = lift unfinished
  sync_sesame (suc fuel) s = do
    found ← call (cli.sesames.get s.namespace s.name)
    on_answer (sync_latest (sync_sesame fuel))
        (λ e. if e.is_not_found then pure tt else fail (sync_error "get" s "" (client e))) found
