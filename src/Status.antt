-- ===== src/Status.antt =====
-- internal/status: the Available condition, and its merge into the conditions of a `Sesame`
-- (conditions.go). The synchronisation of status.go is in `Status.Sync`.
pub mod Merge
pub mod Sync
pub mod Enough
pub mod Settles
pub mod Safety
use sesame_operator.Prelude.{
  ℕ, String, Bool, true, false, not, ◌||◌, List, [], ◌∷◌, ◌++◌, Option, none, some, ltb, sprintf,
  ◌==◌, if◌then◌else◌,
}
use sesame_operator.Api.{Condition, sesame_available_condition_type}
use sesame_operator.Kube.{Deployment, DeploymentCondition, DaemonSet}

-- A condition of the type Available, whose time is Go's zero value.
abbrev pub available : String → String → String → Condition
available status reason message = record {
  type = sesame_available_condition_type;
  status = status;
  reason = reason;
  message = message;
  last_transition_time = 0;
}

abbrev pub unknown_status : Condition
unknown_status = available "Unknown" "SesameUnknown" "Sesame status unknown."

-- `to_lower` is `strings.ToLower`.
module _ (to_lower : String → String) where
  -- The condition for one condition of the deployment; `none` where its status has no case.
  unfoldable pub from_deployment : Bool → DeploymentCondition → Option Condition
  from_deployment ds_available cond =
      if cond.status == "True"
      then (if ds_available
          then some (available "True" "SesameAvailable" "Sesame has minimum availability.")
          else some (
              available "False" "SesameUnavailable"
                "Envoy daemonset does not have minimum availability."))
      else if cond.status == "False"
      then (if ds_available
          then some (
              available "False" "SesameUnavailable"
                (sprintf ("Sesame " ∷ to_lower cond.message ∷ [])))
          else some (
              available "False" "SesameUnavailable" (
                sprintf (
                  "Envoy daemonset does not have minimum availability. Sesame "
                  ∷ to_lower cond.message
                  ∷ []))))
      else if cond.status == "Unknown"
      then some (
          available "Unknown" (sprintf ("SesameUnknown: " ∷ cond.message ∷ []))
            (sprintf ("Sesame status unknown. " ∷ cond.message ∷ [])))
      else none

  -- The loop over the conditions of the deployment.
  unfoldable pub scan_conditions : Bool → List DeploymentCondition → Condition
  unfolding from_deployment
  scan_conditions ds_available [] = unknown_status
  scan_conditions ds_available (cond ∷ conds) =
      let rest = scan_conditions ds_available conds in
      if not (cond.type == "Available")
      then rest
      else elim (from_deployment ds_available cond) [ none ↦ rest | some c ↦ c ]

  unfoldable pub compute_sesame_available_condition :
      Option Deployment → Option DaemonSet → Condition
  unfolding scan_conditions
  compute_sesame_available_condition none ds =
      available "False" "SesameUnavailable" "Sesame deployment does not exist."
  compute_sesame_available_condition (some d) none =
      available "False" "SesameUnavailable" "Envoy daemonset does not exist."
  compute_sesame_available_condition (some d) (some ds) =
      scan_conditions (ltb 0 ds.number_available) d.conditions

unfoldable pub condition_changed : Condition → Condition → Bool
condition_changed a b =
    not (a.status == b.status) || not (a.reason == b.reason) || not (a.message == b.message)

-- The assignments to `conditions[j]`.
unfoldable pub overwrite : ℕ → Condition → Condition → Condition
overwrite now cond update = record cond {
  status = update.status;
  reason = update.reason;
  message = update.message;
  last_transition_time =
      if not (cond.status == update.status) then now else cond.last_transition_time;
}

-- The inner loop of `mergeConditions`: the conditions, and whether one has the type of `update`. It
-- breaks at the first that is changed.
unfoldable pub merge_one : ℕ → Condition → List Condition → List Condition × Bool
unfolding condition_changed overwrite
merge_one now update [] = ([], false)
merge_one now update (cond ∷ conds) =
    let rest = merge_one now update conds in
    if cond.type == update.type
    then (if condition_changed cond update
        then (overwrite now cond update ∷ conds, true)
        else (cond ∷ rest.0, true))
    else (cond ∷ rest.0, rest.1)

-- The outer loop, with the additions of the rounds before.
unfoldable pub merge_from : ℕ → List Condition → List Condition → List Condition → List Condition
unfolding merge_one
merge_from now conditions additions [] = conditions ++ additions
merge_from now conditions additions (update ∷ updates) =
    let (merged, found) = merge_one now update conditions in
    merge_from now merged
      (if found then additions else additions ++ record update { last_transition_time = now } ∷ [])
      updates

-- `now` is the time of the clock.
unfoldable pub merge_conditions : ℕ → List Condition → List Condition → List Condition
unfolding merge_from
merge_conditions now conditions updates = merge_from now conditions [] updates
